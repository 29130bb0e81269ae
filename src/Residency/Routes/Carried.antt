-- ===== src/Residency/Routes/Carried.antt =====
-- The plan as upload carries it out, src/core/residency/routes.cpp: whose weights a tensor reads, and how
-- many bytes are left.
use mathlib.Core.List.{append_assoc}
use mathlib.Core.Option.{some-injective}
use browser_llm.Base.{
  ℕ, zero, suc, ◌+◌, ◌≡◌, refl, sym, ap, ◌∙◌, subst, true, false, Option, none, some, List, [], ◌∷◌,
  ◌++◌, map, arith, if◌then◌else◌, length, set, inl, inr, get_elem?, Bool-cases, Option-cases,
}
use browser_llm.Base.Words.{IsU64}
use browser_llm.Gguf.Types.{TensorEntry, TensorIndex}
use browser_llm.Residency.Packer.{PlannedBuffer}
use browser_llm.Residency.Model.{TensorId, WeightPiece, WeightView, PlannedTensor, ResidencyPlan}
use browser_llm.Residency.Routes.{
  FindFormat, RouteResult, carried_out, failure, RouteSubject, named, not_a_candidate, contains,
  original_of, with_view, free_piece, free_pieces, route_at, route_all, Found, in_file_order,
  plan_routes, refused_id, name_at,
}
use browser_llm.Residency.Routes.Files.{
  carried_out-injective, carried_out-failure, RouteResult-cases,
}

abbrev pub total_size : List PlannedBuffer → ℕ
total_size [] = 0
total_size (b ∷ bs) = b.size + total_size bs

-- A tensor as upload reads it: a confirmed copy through the view of the tensor that it copies.
unfoldable pub shared : ResidencyPlan → List TensorId → PlannedTensor → PlannedTensor
shared plan confirmed t =
    if contains confirmed t.tensor
    then elim (original_of plan t) [ none ↦ t | some original ↦ record t { view = original.view } ]
    else t

-- The total is what the buffers take, and fits 64 bits.
pub record IsTotalled (plan : ResidencyPlan) : Type 0 where
  pub fits : IsU64 plan.total_bytes
  pub sum : plan.total_bytes ≡ total_size plan.buffers

total_size-set :
    (bs : List PlannedBuffer) (i : ℕ) (b c : PlannedBuffer)
    → get_elem? bs i ≡ some b
    → c.size ≡ 0
    → (total_size (set bs i c) + b.size ≡ total_size bs)
total_size-set [] i b c e z = cc
total_size-set (x ∷ xs) zero b c e z =
    omega (arith, ap (λ (t : PlannedBuffer). t.size) (some-injective x b e), z)
total_size-set (x ∷ xs) (suc i) b c e z = omega (arith, total_size-set xs i b c e z)

free_piece-IsTotalled :
    (plan : ResidencyPlan) (piece : WeightPiece)
    → IsTotalled plan
    → IsTotalled (free_piece plan piece)
unfolding free_piece
free_piece-IsTotalled plan piece h = elim (Option-cases (get_elem? plan.buffers piece.buffer)) [
  | inl e ↦ rw e (record { fits = omega arith; sum = omega (arith, h.fits, h.sum) })
  | inr (b, e) ↦
      let less = total_size-set plan.buffers piece.buffer b (record b { size = 0 }) e refl in
      rw e (record { fits = omega arith; sum = omega (arith, h.fits, h.sum, less) })
]

free_pieces-IsTotalled :
    (plan : ResidencyPlan) (ps : List WeightPiece)
    → IsTotalled plan
    → IsTotalled (free_pieces plan ps)
unfolding free_pieces
free_pieces-IsTotalled plan [] h = h
free_pieces-IsTotalled plan (p ∷ ps) h =
    free_pieces-IsTotalled (free_piece plan p) ps (free_piece-IsTotalled plan p h)

tensors-free_pieces :
    (plan : ResidencyPlan) (ps : List WeightPiece) → (free_pieces plan ps).tensors ≡ plan.tensors
unfolding free_pieces free_piece
tensors-free_pieces plan [] = refl
tensors-free_pieces plan (p ∷ ps) = tensors-free_pieces (free_piece plan p) ps

set-append :
    {A : Type 0} (xs ys : List A) (y v : A) → set (xs ++ (y ∷ ys)) (length xs) v ≡ xs ++ (v ∷ ys)
set-append [] ys y v = refl
set-append (x ∷ xs) ys y v = ap (λ t. x ∷ t) (set-append xs ys y v)

length-snoc : {A : Type 0} (xs : List A) (x : A) → length (xs ++ (x ∷ [])) ≡ suc (length xs)
length-snoc [] x = refl
length-snoc (y ∷ ys) x = ap suc (length-snoc ys x)

module _ (file_size : ℕ) (find_format : FindFormat) (tensors : List TensorEntry)
    (plan : ResidencyPlan) (confirmed : List TensorId) where
  shared-copy :
      (t original : PlannedTensor)
      → contains confirmed t.tensor ≡ true
      → original_of plan t ≡ some original
      → shared plan confirmed t ≡ record t { view = original.view }
  unfolding shared
  shared-copy t original a b = rw (a, b) refl

  shared-other :
      (t : PlannedTensor) → contains confirmed t.tensor ≡ false → shared plan confirmed t ≡ t
  unfolding shared
  shared-other t a = rw a refl

  with_view-tensors :
      (carried : ResidencyPlan) (before rest : List PlannedTensor) (t : PlannedTensor)
      (view : WeightView) (ps : List WeightPiece)
      → carried.tensors ≡ before ++ (t ∷ rest)
      → (with_view (free_pieces carried ps) (length before) t view).tensors
        ≡ (before ++ (record t { view = view } ∷ [])) ++ rest
  with_view-tensors carried before rest t view ps e =
      ap (λ (ts : List PlannedTensor). set ts (length before) (record t { view = view }))
        (tensors-free_pieces carried ps ∙ e)
      ∙ set-append before rest t (record t { view = view })
      ∙ sym (append_assoc before (record t { view = view } ∷ []) rest)

  route_all-carried :
      (before rest : List PlannedTensor) (s all : Found)
      → IsTotalled s.carried
      → s.carried.tensors ≡ before ++ rest
      → route_all file_size find_format tensors plan confirmed (length before) rest s
        ≡ carried_out all
      → IsTotalled all.carried × (all.carried.tensors ≡ before ++ map (shared plan confirmed) rest)
  unfolding route_all
  route_all-carried before [] s all h k e =
      subst (λ (f : Found). IsTotalled f.carried × (f.carried.tensors ≡ before ++ []))
        (carried_out-injective s all e) (h, k)
  route_all-carried before (t ∷ rest) s all h k e =
      elim (Bool-cases (contains confirmed t.tensor)) [
        | inl a ↦ elim (Option-cases (original_of plan t)) [
          | inl b ↦ absurd (
              carried_out-failure all not_a_candidate (named (name_at tensors t.tensor))
                (rw (a, b, route_all) at e))
          | inr (original, b) ↦
              let freed = free_pieces-IsTotalled s.carried t.view.pieces h in
              let u : PlannedTensor = record t { view = original.view } in
              let (w, q) =
                route_all-carried (before ++ (u ∷ [])) rest
                  (record s {
                    carried =
                        with_view (free_pieces s.carried t.view.pieces) (length before) t
                          original.view;
                  })
                  all (record { fits = freed.fits; sum = freed.sum })
                  (with_view-tensors s.carried before rest t original.view t.view.pieces k)
                  (subst
                    (λ (n : ℕ).
                      route_all file_size find_format tensors plan confirmed n rest (record s {
                        carried =
                            with_view (free_pieces s.carried t.view.pieces) (length before) t
                              original.view;
                      })
                      ≡ carried_out all)
                    (sym (length-snoc before u)) (rw (a, b, route_all) at e)) in
              (
                w,
                q
                    ∙ append_assoc before (u ∷ []) (map (shared plan confirmed) rest)
                    ∙ ap (λ (x : PlannedTensor). before ++ (x ∷ map (shared plan confirmed) rest))
                        (sym (shared-copy t original a b)),
              )
        ]
        | inr a ↦
            elim (RouteResult-cases (
              route_at file_size find_format tensors plan confirmed (get_elem? tensors t.tensor) t
                s.found)) [
                  | inl (f, subject, b) ↦
                      absurd (carried_out-failure all f subject (rw (a, b, route_all) at e))
                  | inr (found, b) ↦
                      let (w, q) =
                        route_all-carried (before ++ (t ∷ [])) rest (record s { found = found }) all
                          h (k ∙ sym (append_assoc before (t ∷ []) rest))
                          (subst
                            (λ (n : ℕ).
                              route_all file_size find_format tensors plan confirmed n rest
                                (record s { found = found })
                              ≡ carried_out all)
                            (sym (length-snoc before t)) (rw (a, b, route_all) at e)) in
                      (
                        w,
                        q
                            ∙ append_assoc before (t ∷ []) (map (shared plan confirmed) rest)
                            ∙ ap
                                (λ (x : PlannedTensor).
                                  before ++ (x ∷ map (shared plan confirmed) rest))
                                (sym (shared-other t a)),
                      )
                ]
      ]

-- For a plan whose total is the sum of its buffers' sizes and fits 64 bits, the plan that
-- plan_routes carries out has such a total too, and its tensors are those of the plan, in their
-- order, with each confirmed copy read through the view of the tensor that it copies.
pub plan_routes-IsTotalled :
    (index : TensorIndex) (plan : ResidencyPlan) (file_size : ℕ) (find_format : FindFormat)
    (confirmed : List TensorId) (out : Found)
    → IsTotalled plan
    → plan_routes index plan file_size find_format confirmed ≡ carried_out out
    → IsTotalled out.carried × (out.carried.tensors ≡ map (shared plan confirmed) plan.tensors)
unfolding plan_routes
plan_routes-IsTotalled index plan file_size find_format confirmed out h e =
    by_refusal (refused_id index.tensors plan confirmed) refl
  where
    start : Found
    start = record { found = []; carried = plan }

    by_result :
        (o : RouteResult Found)
        → route_all file_size find_format index.tensors plan confirmed 0 plan.tensors start ≡ o
        → in_file_order o ≡ carried_out out
        → IsTotalled out.carried × (out.carried.tensors ≡ map (shared plan confirmed) plan.tensors)
    by_result (failure f s) a k = absurd (carried_out-failure out f s k)
    by_result (carried_out all) a k =
        subst
          (λ (p : ResidencyPlan).
            IsTotalled p × (p.tensors ≡ map (shared plan confirmed) plan.tensors))
          (ap (λ (f : Found). f.carried) (carried_out-injective _ out k))
          (route_all-carried file_size find_format index.tensors plan confirmed [] plan.tensors
            start all h refl a)

    by_refusal :
        (o : Option RouteSubject)
        → refused_id index.tensors plan confirmed ≡ o
        → IsTotalled out.carried × (out.carried.tensors ≡ map (shared plan confirmed) plan.tensors)
    by_refusal (some s) a =
        absurd (carried_out-failure out not_a_candidate s (rw (a, plan_routes) at e))
    by_refusal none a =
        by_result
          (route_all file_size find_format index.tensors plan confirmed 0 plan.tensors start) refl
          (rw (a, plan_routes) at e)
