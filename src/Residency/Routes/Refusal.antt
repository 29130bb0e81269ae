-- ===== src/Residency/Routes/Refusal.antt =====
-- The confirmed ids that `plan_routes` refuses, src/core/residency/routes.cpp.
use browser_llm.Base.{
  ℕ, ◌<◌, ◌≡◌, ◌↔◌, refl, true, none, List, [], ◌∷◌, arith, leb, leb→le, leb→lt, length, inl, inr,
  All, Bool-cases, Option-cases,
}
use browser_llm.Gguf.Types.{TensorEntry, TensorIndex}
use browser_llm.Residency.Model.{TensorId, ResidencyPlan}
use browser_llm.Residency.Routes.{
  FindFormat, failure, RouteSubject, not_a_candidate, planned, is_candidate, refused_id,
  plan_routes,
}

-- The index has the tensor, and the plan marks it as a possible copy of another.
pub record IsConfirmable (tensors : List TensorEntry) (plan : ResidencyPlan) (id : TensorId)
    : Type 0 where
  pub listed : id < length tensors
  pub candidate : is_candidate (planned plan id) ≡ true

refused_id-none :
    (tensors : List TensorEntry) (plan : ResidencyPlan) (ids : List TensorId)
    → (refused_id tensors plan ids ≡ none) ↔ All (IsConfirmable tensors plan) ids
unfolding refused_id
refused_id-none tensors plan [] = (λ h. tt, λ h. refl)
refused_id-none tensors plan (id ∷ rest) = elim (Bool-cases (leb (length tensors) id)) [
  | inl a ↦ rw a (λ h. cc, λ h. absurd (omega (arith, leb→le _ _ a, h.0.listed)))
  | inr a ↦ elim (Bool-cases (is_candidate (planned plan id))) [
    | inr b ↦ rw (a, b) (λ h. cc, λ h. cc (h.0.candidate, b))
    | inl b ↦
        rw (a, b)
          (
            λ h. (
              record { listed = leb→lt _ _ a; candidate = b },
              (refused_id-none tensors plan rest).0 h,
            ),
            λ h. (refused_id-none tensors plan rest).1 h.1,
          )
  ]
]

-- If not every confirmed id is of a tensor of the index that the plan marks as a possible copy,
-- plan_routes fails with NotACandidate.
pub plan_routes-refuses :
    (index : TensorIndex) (plan : ResidencyPlan) (file_size : ℕ) (find_format : FindFormat)
    (confirmed : List TensorId)
    → ¬ All (IsConfirmable index.tensors plan) confirmed
    → (subject : RouteSubject) × (plan_routes index plan file_size find_format confirmed
        ≡ failure not_a_candidate subject)
unfolding plan_routes
plan_routes-refuses index plan file_size find_format confirmed h =
    elim (Option-cases (refused_id index.tensors plan confirmed)) [
      | inl e ↦ absurd (h ((refused_id-none index.tensors plan confirmed).0 e))
      | inr (subject, e) ↦ (subject, rw (e, plan_routes) refl)
    ]
