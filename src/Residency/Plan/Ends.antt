-- ===== src/Residency/Plan/Ends.antt =====
-- The planner always answers, src/core/residency/plan.cpp: the rounds of its loops are enough.
use browser_llm.Base.{◌^◌, ◌<◌, inl, inr, false, List, [], ◌∷◌, ltb, All, Bool-cases, Option-cases}
use browser_llm.Base.Words.{mul64}
use browser_llm.Gguf.Checked.{checked_mul}
use browser_llm.Gguf.Types.{TensorEntry}
use browser_llm.Residency.Packer.{
  DeviceLimits, Pool, Packer, place, new_packer, range_limit, weights, scratch,
}
use browser_llm.Residency.Model.{ModelDescription, LoadPolicy, ResidencyPlan, empty_plan}
use browser_llm.Residency.Plan.{
  Need, f32_bytes, place_needs, place_scratch, scratch_needs, place_weights, pool_bytes,
  plan_residency,
}
use browser_llm.Residency.Plan.Cache.{place_cache}
use browser_llm.Residency.Plan.Ends.Answers.{IsAnswer, and_next-IsAnswer}
use browser_llm.Residency.Plan.Ends.Pieces.{IsPlannable, place_tensors-IsAnswer}
use browser_llm.Residency.Plan.Ends.Cache.{place_cache-IsAnswer}
pub mod Answers
pub mod Pieces
pub mod Cache

module _ (limits : DeviceLimits) where
  place_needs-IsAnswer :
      (needs : List Need) (p : Packer) (out : ResidencyPlan)
      → IsAnswer (place_needs limits needs p out)
  unfolding place_needs
  place_needs-IsAnswer [] p out = tt
  place_needs-IsAnswer (need ∷ rest) p out =
      elim (Option-cases (checked_mul (mul64 need.rows need.width) f32_bytes)) [
        | inl e ↦ rw (e, place_needs) tt
        | inr (bytes, e) ↦ elim (Bool-cases (ltb (range_limit limits) bytes)) [
          | inl q ↦ rw (e, q, place_needs) tt
          | inr q ↦ elim (Option-cases (place p out.buffers bytes false)) [
            | inl r ↦ rw (e, q, r, place_needs) tt
            | inr (v, r) ↦ rw (e, q, r, place_needs) (place_needs-IsAnswer rest v.packer _)
          ]
        ]
      ]

-- For tensors whose rows hold bytes and whose lengths added to the range limit fit 64 bits, and a
-- 32-bit trained context, plan_residency answers with a plan or a failure: neither the bisection nor
-- the pieces of a tensor run out of rounds.
pub plan_residency-IsAnswer :
    (tensors : List TensorEntry) (model : ModelDescription) (limits : DeviceLimits)
    (policy : LoadPolicy)
    → All (IsPlannable (range_limit limits)) tensors
    → model.trained_context < 2 ^ 32
    → IsAnswer (plan_residency tensors model limits policy)
unfolding plan_residency place_weights place_scratch
plan_residency-IsAnswer tensors model limits policy h trained =
    and_next-IsAnswer (place_weights tensors model limits empty_plan) _
      (place_tensors-IsAnswer tensors model (range_limit limits) 0 tensors
        (new_packer weights limits) empty_plan h)
      λ out1.
        and_next-IsAnswer
          (place_scratch model limits
            (record out1 { weight_bytes = pool_bytes out1.buffers Pool.weights }))
          _
          (place_needs-IsAnswer limits (scratch_needs model) (new_packer scratch limits)
            (record out1 { weight_bytes = pool_bytes out1.buffers Pool.weights }))
          λ out2.
            and_next-IsAnswer
              (place_cache model limits policy
                (record out2 { scratch_bytes = pool_bytes out2.buffers Pool.scratch }))
              _
              (place_cache-IsAnswer limits model policy
                (record out2 { scratch_bytes = pool_bytes out2.buffers Pool.scratch }) trained)
              λ out3. tt
