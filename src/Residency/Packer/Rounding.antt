-- ===== src/Residency/Packer/Rounding.antt =====
-- `round_up` and `range_limit` of src/core/residency/plan.cpp, as arithmetic.
use native.Mathlib.Nat.{mod-lt, div-add-mod, mul-mod_right}
use browser_llm.Base.{
  ℕ, ◌+◌, ◌-◌, ◌*◌, ◌/◌, ◌%◌, ◌≤◌, ◌<◌, ◌≡◌, refl, ap, ◌∙◌, some, arith, min, Option-cases, inl,
  inr,
}
use mathlib.Core.Option.{some-injective}
use Prim.Native.Nat.{◌^◌}
use browser_llm.Base.Bits.{IsPow2, pow_pos}
use browser_llm.Base.Words.{IsU64, round_down_mask}
use browser_llm.Gguf.Checked.{checked_add, checked_add-some}
use browser_llm.Residency.Packer.{round_up, range_limit, DeviceLimits, binding_granule}

-- The limits that a device may have: WebGPU requires the offset alignment to be a power of two.
pub record IsDevice (limits : DeviceLimits) : Type 0 where
  pub buffer_fits : IsU64 limits.max_buffer_size
  pub binding_fits : IsU64 limits.max_storage_binding_size
  pub alignment_fits : limits.storage_offset_alignment < 2 ^ 32
  pub alignment_power : IsPow2 limits.storage_offset_alignment

pub pow2-pos : (a : ℕ) → IsPow2 a → 0 < a
unfolding IsPow2
pow2-pos a (k, e) = omega (arith, pow_pos k)

round_down_mod : (s to : ℕ) → 0 < to → (s - s % to) % to ≡ 0
round_down_mod s to h = ap (λ (t : ℕ). t % to) (whole s to h) ∙ mul-mod_right to (s / to)
  where
    whole : (s to : ℕ) → 0 < to → s - s % to ≡ to * (s / to)
    whole s to h = omega (arith, div-add-mod s to)

-- For 64-bit numbers and a power of two, a result of round_up is a multiple of the power, not below
-- the number, less than one step above it, and fits 64 bits.
pub round_up-some :
    (v to w : ℕ)
    → IsU64 v
    → IsU64 to
    → IsPow2 to
    → round_up v to ≡ some w
    → (w % to ≡ 0) × (v ≤ w) × (w < v + to) × IsU64 w
unfolding round_up
round_up-some v to w hv ht p e = elim (Option-cases (checked_add v (to - 1))) [
  | inl bad ↦ cc
  | inr (sum, good) ↦
      let pos : 0 < to = pow2-pos to p in
      let (s, fits) = checked_add-some v (to - 1) sum hv (omega arith) good in
      let result : w ≡ sum - sum % to =
        some-injective w _ (ground arith) ∙ round_down_mask sum to (omega arith) p ht in
      let below = mod-lt sum pos in
      (
        ap (λ (t : ℕ). t % to) result ∙ round_down_mod sum to pos,
        omega arith,
        omega arith,
        omega arith,
      )
]

four : IsPow2 4
unfolding IsPow2
four = (2, refl)

pub round_up_granule :
    (v w : ℕ)
    → IsU64 v
    → round_up v binding_granule ≡ some w
    → (w % 4 ≡ 0) × (v ≤ w) × (w < v + 4) × IsU64 w
round_up_granule v w h e = round_up-some v 4 w h (omega arith) four e

-- The range limit of a device is a multiple of four that neither its largest binding nor its largest
-- buffer falls below.
pub range_limit_fits :
    (limits : DeviceLimits)
    → IsDevice limits
    → (range_limit limits % 4 ≡ 0)
      × (range_limit limits ≤ limits.max_storage_binding_size)
      × (range_limit limits ≤ limits.max_buffer_size)
unfolding range_limit
range_limit_fits limits d = omega (
  arith,
  round_down_mask (min limits.max_storage_binding_size limits.max_buffer_size) 4
      (omega (arith, d.buffer_fits)) four (omega arith),
)
