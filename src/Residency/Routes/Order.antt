-- ===== src/Residency/Routes/Order.antt =====
-- The routes of a whole plan, src/core/residency/routes.cpp.
use browser_llm.Base.{
  ℕ, suc, ◌+◌, ◌^◌, ◌≤◌, ◌<◌, ◌≡◌, refl, sym, ap, ◌∙◌, subst, true, false, Option, none, some, List,
  [], ◌∷◌, arith, inl, inr, ltb→le, get_elem?, All, All-get, All-mono, All-append, Bool-cases,
  Option-cases,
}
use browser_llm.Base.Words.{IsU64}
use browser_llm.Gguf.Types.{TensorEntry, TensorIndex}
use browser_llm.Gguf.Sorting.{sort}
use browser_llm.Gguf.Sorting.Laws.{AllPairs, All-sort, NotAbove, sort-sorted}
use browser_llm.Residency.Model.{TensorId, PlannedTensor, ResidencyPlan}
use browser_llm.Residency.Routes.{
  Route, FindFormat, RouteResult, carried_out, failure, RouteSubject, named, not_a_candidate,
  contains, original_of, with_view, free_pieces, route_at, route_all, Found, is_before,
  in_file_order, plan_routes, refused_id, name_at,
}
use browser_llm.Residency.Routes.Pieces.{IsRoute}
use browser_llm.Residency.Routes.Files.{
  route_tensor-IsRoute, carried_out-injective, carried_out-failure, RouteResult-cases,
}

module _ (file_size : ℕ) (find_format : FindFormat) (tensors : List TensorEntry)
    (plan : ResidencyPlan) (confirmed : List TensorId) (small : file_size + 3 < 2 ^ 64)
    (fits : All (λ t. IsU64 t.data_length) tensors) where
  -- A route that is safe to carry out, of a tensor that is not confirmed as a copy.
  abbrev pub IsDue : Route → Type 0
  IsDue r = IsRoute file_size plan.buffers r × (contains confirmed r.tensor ≡ false)

  route_at-IsDue :
      (t : PlannedTensor) (found all : List Route)
      → contains confirmed t.tensor ≡ false
      → All IsDue found
      → route_at file_size find_format tensors plan confirmed (get_elem? tensors t.tensor) t found
        ≡ carried_out all
      → All IsDue all
  route_at-IsDue t found all out h = by_entry (get_elem? tensors t.tensor) refl
    where
      by_entry :
          (o : Option TensorEntry)
          → get_elem? tensors t.tensor ≡ o
          → route_at file_size find_format tensors plan confirmed o t found ≡ carried_out all
          → All IsDue all
      by_entry none a e = absurd (carried_out-failure all _ _ e)
      by_entry (some entry) a e =
          let (new, b, w) =
            route_tensor-IsRoute file_size find_format plan small entry t found all
              (All-get (λ (t : TensorEntry). IsU64 t.data_length) tensors t.tensor fits a) e in
          subst (All IsDue) (sym b) (
            All-append IsDue found new h (
              All-mono (λ r. IsRoute file_size plan.buffers r × (r.tensor ≡ t.tensor)) IsDue new
                (λ r q. (q.0, ap (contains confirmed) q.1 ∙ out)) w))

  route_all-IsDue :
      (i : ℕ) (rest : List PlannedTensor) (s all : Found)
      → All IsDue s.found
      → route_all file_size find_format tensors plan confirmed i rest s ≡ carried_out all
      → All IsDue all.found
  unfolding route_all
  route_all-IsDue i [] s all h e =
      subst (λ (f : Found). All IsDue f.found) (carried_out-injective s all e) h
  route_all-IsDue i (t ∷ rest) s all h e = elim (Bool-cases (contains confirmed t.tensor)) [
    | inl a ↦ elim (Option-cases (original_of plan t)) [
      | inl b ↦ absurd (
          carried_out-failure all not_a_candidate (named (name_at tensors t.tensor))
            (rw (a, b, route_all) at e))
      | inr (original, b) ↦
          route_all-IsDue (suc i) rest
            (record s {
              carried = with_view (free_pieces s.carried t.view.pieces) i t original.view;
            })
            all h (rw (a, b, route_all) at e)
    ]
    | inr a ↦
        elim (RouteResult-cases (
          route_at file_size find_format tensors plan confirmed (get_elem? tensors t.tensor) t
            s.found)) [
              | inl (f, subject, b) ↦
                  absurd (carried_out-failure all f subject (rw (a, b, route_all) at e))
              | inr (found, b) ↦
                  route_all-IsDue (suc i) rest (record s { found = found }) all
                    (route_at-IsDue t s.found found a h b) (rw (a, b, route_all) at e)
            ]
  ]

never_both : (a b : Route) → is_before a b ≡ true → is_before b a ≡ false
never_both a b h = ground arith

not_before_trans :
    (a b c : Route) → is_before b a ≡ false → is_before c b ≡ false → is_before c a ≡ false
not_before_trans a b c h k = ground arith

abbrev pub InFileOrder : List Route → Type 0
InFileOrder = AllPairs (λ a b. a.file_offset ≤ b.file_offset)

AllPairs-mono :
    {A : Type 0} (R S : A → A → Type 0) (xs : List A)
    → ((x y : A) → R x y → S x y)
    → AllPairs R xs
    → AllPairs S xs
AllPairs-mono R S [] f h = tt
AllPairs-mono R S (x ∷ xs) f h = (All-mono (R x) (S x) xs (f x) h.0, AllPairs-mono R S xs f h.1)

sort-InFileOrder : (rs : List Route) → InFileOrder (sort is_before rs)
sort-InFileOrder rs =
    AllPairs-mono (NotAbove is_before) (λ a b. a.file_offset ≤ b.file_offset) (sort is_before rs)
      (λ a b h. ltb→le b.file_offset a.file_offset h)
      (sort-sorted is_before never_both not_before_trans rs)

-- For a file smaller than 2^64 - 3 bytes and tensors whose lengths fit 64 bits, the routes that
-- plan_routes gives are in file order, none is of a confirmed copy, and each reads blocks inside the
-- file and writes, inside a buffer of the plan, a place that is their bytes rounded up to a multiple
-- of 4.
pub plan_routes-IsDue :
    (index : TensorIndex) (plan : ResidencyPlan) (file_size : ℕ) (find_format : FindFormat)
    (confirmed : List TensorId) (out : Found)
    → file_size + 3 < 2 ^ 64
    → All (λ t. IsU64 t.data_length) index.tensors
    → plan_routes index plan file_size find_format confirmed ≡ carried_out out
    → All (λ r. IsRoute file_size plan.buffers r × (contains confirmed r.tensor ≡ false)) out.found
      × AllPairs (λ a b. a.file_offset ≤ b.file_offset) out.found
unfolding plan_routes
plan_routes-IsDue index plan file_size find_format confirmed out small fits e =
    by_refusal (refused_id index.tensors plan confirmed) refl
  where
    start : Found
    start = record { found = []; carried = plan }

    by_result :
        (o : RouteResult Found)
        → route_all file_size find_format index.tensors plan confirmed 0 plan.tensors start ≡ o
        → in_file_order o ≡ carried_out out
        → All
            (λ r. IsRoute file_size plan.buffers r × (contains confirmed r.tensor ≡ false))
            out.found
          × AllPairs (λ a b. a.file_offset ≤ b.file_offset) out.found
    by_result (failure f s) a h = absurd (carried_out-failure out f s h)
    by_result (carried_out all) a h =
        subst
          (λ (q : Found).
            All (λ r. IsRoute file_size plan.buffers r × (contains confirmed r.tensor ≡ false))
              q.found
            × AllPairs (λ a b. a.file_offset ≤ b.file_offset) q.found)
          (carried_out-injective _ out h)
          (
            (All-sort is_before
                  (λ r. IsRoute file_size plan.buffers r × (contains confirmed r.tensor ≡ false))
                  all.found).1
                (route_all-IsDue file_size find_format index.tensors plan confirmed small fits 0
                  plan.tensors start all tt a),
            sort-InFileOrder all.found,
          )

    by_refusal :
        (o : Option RouteSubject)
        → refused_id index.tensors plan confirmed ≡ o
        → All
            (λ r. IsRoute file_size plan.buffers r × (contains confirmed r.tensor ≡ false))
            out.found
          × AllPairs (λ a b. a.file_offset ≤ b.file_offset) out.found
    by_refusal (some s) a =
        absurd (carried_out-failure out not_a_candidate s (rw (a, plan_routes) at e))
    by_refusal none a =
        by_result
          (route_all file_size find_format index.tensors plan confirmed 0 plan.tensors start) refl
          (rw (a, plan_routes) at e)
