-- ===== src/Preflight/Routed.antt =====
-- Preflight and the routes do not disagree on a format, src/core/preflight/preflight.cpp and
-- src/core/residency/routes.cpp.
use browser_llm.Base.{
  ℕ, suc, ◌/◌, ◌≡◌, ◌⊎◌, inl, inr, refl, sym, ap, subst, true, Option, none, some, List, [], ◌∷◌,
  get_elem?, All, All-get, Bool-cases,
}
use browser_llm.Gguf.Types.{TensorEntry, TensorIndex}
use browser_llm.Formats.{Format, steps_by_groups}
use browser_llm.Model.{TensorId}
use browser_llm.Capability.{find_format}
use browser_llm.Residency.Packer.{DeviceLimits}
use browser_llm.Residency.Model.{LoadPolicy, PlannedTensor, ResidencyPlan}
use browser_llm.Residency.Routes.{
  Route, RouteError, out_of_range, not_a_candidate, RouteSubject, named, numbered, RouteResult,
  carried_out, failure, contains, rows_of, route_pieces, all_in_range, is_empty, route_tensor,
  name_at, refused_id, free_pieces, with_view, original_of, Found, route_at, route_all,
  in_file_order, plan_routes,
}
use browser_llm.Preflight.{upload, reached, preflight}
use browser_llm.Preflight.Loadable.{preflight-IsLoadable}

-- A refusal that is not for a format or a row.
abbrev pub IsOtherRefusal : RouteError → Type 0
IsOtherRefusal e = (e ≡ out_of_range) ⊎ (e ≡ not_a_candidate)

error_of : {A : Type 0} → RouteError → RouteResult A → RouteError
error_of e (failure x s) = x
error_of e (carried_out a) = e

same_error :
    {A : Type 0} (x e : RouteError) (s t : RouteSubject)
    → ◌≡◌ {A = RouteResult A} (failure x s) (failure e t)
    → x ≡ e
unfolding error_of
same_error x e s t h = ap (error_of e) h

not_failed :
    {A : Type 0} (a : A) (e : RouteError) (s : RouteSubject) → carried_out a ≡ failure e s → ⊥
not_failed a e s h = cc

module _ (index : TensorIndex) (file_size : ℕ) (plan : ResidencyPlan) (confirmed : List TensorId)
    (listed : All (λ t. (format : Format) × (find_format t.type ≡ some format)) index.tensors)
    (steps : All (λ t. steps_by_groups t ≡ true) index.tensors) where
  in_range-refusal :
      (name : List ℕ) (o : Option (List Route)) (e : RouteError) (s : RouteSubject)
      → all_in_range name o ≡ failure e s
      → IsOtherRefusal e
  in_range-refusal name none e s h = inl (sym (same_error out_of_range e (named name) s h))
  in_range-refusal name (some routes) e s h = absurd (not_failed routes e s h)

  route_tensor-refusal :
      (entry : TensorEntry) (t : PlannedTensor) (routes : List Route) (e : RouteError)
      (s : RouteSubject) (format : Format)
      → find_format entry.type ≡ some format
      → steps_by_groups entry ≡ true
      → route_tensor file_size find_format plan entry t routes ≡ failure e s
      → IsOtherRefusal e
  unfolding route_tensor
  route_tensor-refusal entry t routes e s format p q h =
      elim (Bool-cases (is_empty t.view.pieces)) [
        | inl r ↦ absurd (not_failed routes e s (rw (p, q, r, route_tensor) at h))
        | inr r ↦
            in_range-refusal entry.name
              (route_pieces file_size plan.buffers entry t.tensor format.layout
                (entry.data_length / rows_of t.view.pieces) t.view.pieces routes)
              e s (rw (p, q, r, route_tensor) at h)
      ]

  route_at-refusal :
      (o : Option TensorEntry) (t : PlannedTensor) (routes : List Route) (e : RouteError)
      (s : RouteSubject)
      → get_elem? index.tensors t.tensor ≡ o
      → route_at file_size find_format index.tensors plan confirmed o t routes ≡ failure e s
      → IsOtherRefusal e
  route_at-refusal none t routes e s p h =
      inr (sym (same_error not_a_candidate e (numbered t.tensor) s h))
  route_at-refusal (some entry) t routes e s p h =
      let (format, q) =
        All-get (λ t. (format : Format) × (find_format t.type ≡ some format)) index.tensors t.tensor
          listed p in
      route_tensor-refusal entry t routes e s format q
        (All-get (λ t. steps_by_groups t ≡ true) index.tensors t.tensor steps p) h

  refused-refusal :
      (o : Option RouteSubject) (r : RouteResult Found) (e : RouteError) (s : RouteSubject)
      → (r ≡ failure e s → IsOtherRefusal e)
      → ◌≡◌ {A = RouteResult Found}
          (elim o [ some subject ↦ failure not_a_candidate subject | none ↦ in_file_order r ])
          (failure e s)
      → IsOtherRefusal e
  refused-refusal (some subject) r e s go h =
      inr (sym (same_error {A = Found} not_a_candidate e subject s h))
  refused-refusal none (failure x t) e s go h = go h
  refused-refusal none (carried_out a) e s go h = absurd (not_failed _ e s h)

  route_all-refusal :
      (i : ℕ) (ts : List PlannedTensor) (now : Found) (e : RouteError) (s : RouteSubject)
      → route_all file_size find_format index.tensors plan confirmed i ts now ≡ failure e s
      → IsOtherRefusal e
  unfolding route_all
  route_all-refusal i [] now e s h = absurd (not_failed now e s h)
  route_all-refusal i (t ∷ rest) now e s h = elim (Bool-cases (contains confirmed t.tensor)) [
    | inl p ↦
        by_original (original_of plan t) (rw p at h)
          (λ next. route_all-refusal (suc i) rest next e s)
    | inr p ↦
        by_route
          (route_at file_size find_format index.tensors plan confirmed
            (get_elem? index.tensors t.tensor) t now.found)
          refl (rw p at h) (λ next. route_all-refusal (suc i) rest next e s)
  ]
    where
      by_original :
          (o : Option PlannedTensor)
          → ◌≡◌ {A = RouteResult Found}
              (elim o [
                | none ↦ failure not_a_candidate (named (name_at index.tensors t.tensor))
                | some original ↦
                    route_all file_size find_format index.tensors plan confirmed
                      (suc i)
                      rest
                      (record now {
                        carried =
                            with_view (free_pieces now.carried t.view.pieces) i t original.view;
                      })
              ])
              (failure e s)
          → ((next : Found)
              → route_all file_size find_format index.tensors plan confirmed (suc i) rest next
                ≡ failure e s
              → IsOtherRefusal e)
          → IsOtherRefusal e
      by_original none k go = inr (
          sym
            (same_error {A = Found} not_a_candidate e (named (name_at index.tensors t.tensor)) s k))
      by_original (some original) k go = go _ k

      by_route :
          (r : RouteResult (List Route))
          → route_at file_size find_format index.tensors plan confirmed
              (get_elem? index.tensors t.tensor)
              t
              now.found
            ≡ r
          → ◌≡◌ {A = RouteResult Found}
              (elim r [
                | failure x subject ↦ failure x subject
                | carried_out found ↦
                    route_all file_size find_format index.tensors plan confirmed
                      (suc i)
                      rest
                      (record now { found = found })
              ])
              (failure e s)
          → ((next : Found)
              → route_all file_size find_format index.tensors plan confirmed (suc i) rest next
                ≡ failure e s
              → IsOtherRefusal e)
          → IsOtherRefusal e
      by_route (failure x subject) q k go =
          subst IsOtherRefusal (same_error {A = Found} x e subject s k)
            (route_at-refusal (get_elem? index.tensors t.tensor) t now.found x subject refl q)
      by_route (carried_out found) q k go = go _ k

-- For a file whose verdict reaches Upload, and whatever the plan, the file's size and the confirmed
-- copies, a refusal of plan_routes is for a piece that is out of range or for an id that is no
-- candidate, never for a format or for a row.
pub preflight-plan_routes :
    (index : TensorIndex) (limits : DeviceLimits) (policy : LoadPolicy) (plan : ResidencyPlan)
    (file_size : ℕ) (confirmed : List TensorId) (e : RouteError) (s : RouteSubject)
    → reached (preflight index limits policy) ≡ upload
    → plan_routes index plan file_size find_format confirmed ≡ failure e s
    → IsOtherRefusal e
unfolding plan_routes
preflight-plan_routes index limits policy plan file_size confirmed e s h k =
    let w = (preflight-IsLoadable index limits policy).0 h in
    refused-refusal index file_size plan confirmed w.listed w.steps
      (refused_id index.tensors plan confirmed) _ e s
      (route_all-refusal index file_size plan confirmed w.listed w.steps 0 plan.tensors
        (record { found = []; carried = plan }) e s)
      k
