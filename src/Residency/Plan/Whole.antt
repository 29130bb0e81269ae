-- ===== src/Residency/Plan/Whole.antt =====
-- The plan as a whole, src/core/residency/plan.cpp: its working buffers and its caches behind its weights.
use mathlib.Core.List.{append-nil}
use browser_llm.Base.{ℕ, ◌≤◌, ◌≡◌, refl, sym, ap, ◌∙◌, subst, List, [], ◌++◌, arith}
use browser_llm.Gguf.Types.{TensorEntry}
use browser_llm.Residency.Packer.{DeviceLimits, Pool, new_packer, weights, scratch}
use browser_llm.Residency.Packer.Rounding.{IsDevice}
use browser_llm.Residency.Packer.Buffers.{size_at}
use browser_llm.Residency.Packer.Ranges.{IsPacked}
use browser_llm.Residency.Model.{
  ModelDescription, LoadPolicy, PlannedScratch, ResidencyPlan, empty_plan, planned,
}
use browser_llm.Residency.Plan.{
  place_scratch, scratch_needs, place_weights, pool_bytes, plan_residency,
}
use browser_llm.Residency.Plan.Cache.{place_cache}
use browser_llm.Residency.Plan.Apart.{
  tensor_ranges, scratch_ranges, Gives, Gives-and_next, new_packer-Holds, AfterWeights,
  place_tensors-Gives,
}
use browser_llm.Residency.Plan.Whole.Needs.{
  first_ranges, ranges_of, AfterScratch, place_needs-Gives,
}
use browser_llm.Residency.Plan.Whole.Cache.{IsWhole, place_cache-Gives}
pub mod Needs
pub mod Layers
pub mod Cache

no_buffers : (limits : DeviceLimits) (i : ℕ) → size_at [] i ≤ limits.max_buffer_size
unfolding size_at
no_buffers limits i = omega arith

module _ (limits : DeviceLimits) (d : IsDevice limits) where
  plan_residency-Gives :
      (tensors : List TensorEntry) (model : ModelDescription) (policy : LoadPolicy)
      → Gives (IsWhole limits d) (plan_residency tensors model limits policy)
  unfolding plan_residency place_weights place_scratch
  plan_residency-Gives tensors model policy =
      Gives-and_next (AfterWeights limits d) (IsWhole limits d)
        (place_weights tensors model limits empty_plan) _
        (place_tensors-Gives limits d tensors model 0 tensors (new_packer weights limits) empty_plan
          (new_packer-Holds limits d weights [] []
            (record { bindable = tt; apart = tt; bounded = no_buffers limits }))
          refl refl)
        λ out1 w1.
          Gives-and_next (AfterScratch limits d) (IsWhole limits d)
            (place_scratch model limits
              (record out1 { weight_bytes = pool_bytes out1.buffers Pool.weights }))
            _
            (place_needs-Gives limits d (scratch_needs model) (new_packer scratch limits)
              (record out1 { weight_bytes = pool_bytes out1.buffers Pool.weights })
              (new_packer-Holds limits d scratch out1.buffers (first_ranges out1) (
                subst (IsPacked limits out1.buffers)
                  (sym (append-nil (tensor_ranges out1.tensors))
                    ∙ ap
                        (λ (t : List PlannedScratch).
                          tensor_ranges out1.tensors ++ scratch_ranges t)
                        (sym w1.no_scratch))
                  w1.packed))
              w1.no_cache)
            λ out2 w2.
              Gives-and_next (IsWhole limits d) (IsWhole limits d)
                (place_cache model limits policy
                  (record out2 { scratch_bytes = pool_bytes out2.buffers Pool.scratch }))
                _
                (place_cache-Gives limits d model policy
                  (record out2 { scratch_bytes = pool_bytes out2.buffers Pool.scratch })
                  (record { packed = w2.packed; no_cache = w2.no_cache }))
                λ out3 w3. w3

-- On a device with 64-bit limits and an offset alignment that is a power of two, in a plan that
-- plan_residency gives the ranges of all pieces of weights, working buffers, and keys and values of
-- every layer are bindable (inside their buffer, aligned, whole words, within one binding) and no
-- two overlap, in buffers no larger than the device allows.
pub plan_residency-IsPacked :
    (tensors : List TensorEntry) (model : ModelDescription) (limits : DeviceLimits)
    (policy : LoadPolicy) (plan : ResidencyPlan)
    → IsDevice limits
    → plan_residency tensors model limits policy ≡ planned plan
    → IsPacked limits plan.buffers (ranges_of plan)
plan_residency-IsPacked tensors model limits policy plan d e =
    subst (Gives (λ p. IsPacked limits p.buffers (ranges_of p))) e
      (plan_residency-Gives limits d tensors model policy)
