-- ===== src/Residency/Plan/Whole/Needs.antt =====
-- The loop over the working buffers, src/core/residency/plan.cpp: their ranges behind those of the weights.
use mathlib.Core.List.{append_assoc}
use browser_llm.Base.{
  ℕ, ◌≤◌, ◌≡◌, inl, inr, refl, sym, ap, ◌∙◌, subst, false, Option, none, some, List, [], ◌∷◌, ◌++◌,
  ltb, ltb→le, if◌then◌else◌, Bool-cases,
}
use browser_llm.Base.Words.{mul64}
use browser_llm.Gguf.Checked.{checked_mul}
use browser_llm.Residency.Packer.{DeviceLimits, BufferRange, Packer, Placed, place, range_limit}
use browser_llm.Residency.Packer.Rounding.{IsDevice}
use browser_llm.Residency.Packer.Ranges.{IsPacked}
use browser_llm.Residency.Model.{
  PlannedScratch, ResidencyPlan, failure, overflow, scratch_exceeds_binding, purpose_name,
}
use browser_llm.Residency.Plan.{Need, f32_bytes, place_needs}
use browser_llm.Residency.Plan.Apart.{
  tensor_ranges, scratch_ranges, cache_ranges, Holds, Gives, place-Holds,
}

scratch_ranges-snoc :
    (xs : List PlannedScratch) (s : PlannedScratch)
    → scratch_ranges (xs ++ (s ∷ [])) ≡ scratch_ranges xs ++ (s.range ∷ [])
scratch_ranges-snoc [] s = refl
scratch_ranges-snoc (x ∷ xs) s =
    ap (λ (t : List BufferRange). x.range ∷ t) (scratch_ranges-snoc xs s)

-- The ranges of the weights and of the working buffers, in the order in which they are placed.
abbrev pub first_ranges : ResidencyPlan → List BufferRange
first_ranges out = tensor_ranges out.tensors ++ scratch_ranges out.scratch

-- All the ranges of a plan.
abbrev pub ranges_of : ResidencyPlan → List BufferRange
ranges_of out = first_ranges out ++ cache_ranges out.cache

module _ (limits : DeviceLimits) (d : IsDevice limits) where
  pub record AfterScratch (out : ResidencyPlan) : Type 0 where
    pub packed : IsPacked limits out.buffers (first_ranges out)
    pub no_cache : out.cache ≡ []

  pub place_needs-Gives :
      (needs : List Need) (p : Packer) (out : ResidencyPlan)
      → Holds limits p out.buffers (first_ranges out)
      → out.cache ≡ []
      → Gives AfterScratch (place_needs limits needs p out)
  unfolding place_needs
  place_needs-Gives [] p out h a = record { packed = h.packed; no_cache = a }
  place_needs-Gives (need ∷ rest) p out h a =
      by_size (checked_mul (mul64 need.rows need.width) f32_bytes) (place_needs-Gives rest)
    where
      by_place :
          (bytes : ℕ) (o : Option Placed)
          → bytes ≤ range_limit limits
          → place p out.buffers bytes false ≡ o
          → ((p : Packer) (next : ResidencyPlan)
              → Holds limits p next.buffers (first_ranges next)
              → next.cache ≡ []
              → Gives AfterScratch (place_needs limits rest p next))
          → Gives AfterScratch (elim o [
            | none ↦ failure overflow (purpose_name need.purpose) out
            | some q ↦ place_needs limits rest q.packer (record out {
              buffers = q.buffers;
              scratch = out.scratch ++ (record { purpose = need.purpose; range = q.range } ∷ []);
            })
          ])
      by_place bytes none l e go = tt
      by_place bytes (some q) l e go =
          go q.packer _
            (subst (Holds limits q.packer q.buffers)
              (append_assoc (tensor_ranges out.tensors) (scratch_ranges out.scratch) (q.range ∷ [])
                ∙ ap (λ (t : List BufferRange). tensor_ranges out.tensors ++ t)
                    (sym (
                      scratch_ranges-snoc out.scratch
                        (record { purpose = need.purpose; range = q.range }))))
              (place-Holds limits d p out.buffers (first_ranges out) bytes false q h l e))
            a

      by_size :
          (o : Option ℕ)
          → ((p : Packer) (next : ResidencyPlan)
              → Holds limits p next.buffers (first_ranges next)
              → next.cache ≡ []
              → Gives AfterScratch (place_needs limits rest p next))
          → Gives AfterScratch (elim o [
            | none ↦ failure overflow (purpose_name need.purpose) out
            | some bytes ↦
                if ltb (range_limit limits) bytes
                then failure scratch_exceeds_binding (purpose_name need.purpose) out
                else elim (place p out.buffers bytes false) [
                  | none ↦ failure overflow (purpose_name need.purpose) out
                  | some q ↦ place_needs limits rest q.packer (record out {
                    buffers = q.buffers;
                    scratch =
                        out.scratch ++ (record { purpose = need.purpose; range = q.range } ∷ []);
                  })
                ]
          ])
      by_size none go = tt
      by_size (some bytes) go = elim (Bool-cases (ltb (range_limit limits) bytes)) [
        | inl e ↦ rw e tt
        | inr e ↦ rw e (by_place bytes (place p out.buffers bytes false) (ltb→le _ _ e) refl go)
      ]
