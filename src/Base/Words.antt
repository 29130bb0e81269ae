-- ===== src/Base/Words.antt =====
-- Unsigned 64-bit and 32-bit arithmetic with its wrap-around, and rounding by a power of two.
use Prim.Native.Nat.{ℕ, zero, suc, ◌+◌, ◌-◌, ◌*◌, ◌/◌, ◌%◌, ◌^◌, ◌≤◌, ◌<◌, bit_and}
use mathlib.Core.Path.{◌≡◌, ap}
use native.Mathlib.Omega.{arith}
use native.Mathlib.Decide.{dec_lt}
use native.Mathlib.Nat.{mod-eq_of_lt, suc-mul, div-add-mod', div-lt_iff_lt-mul}
use browser_llm.Base.Tests.{ltb, if◌then◌else◌}
use browser_llm.Base.Bits.{IsPow2, pow_pos, pow-add, bit_and_high, bit_and_low}

abbrev pub u64_max : ℕ
u64_max = 2 ^ 64 - 1

abbrev pub u32_max : ℕ
u32_max = 2 ^ 32 - 1

abbrev pub IsU64 : ℕ → Type 0
IsU64 v = v < 2 ^ 64

abbrev pub IsU32 : ℕ → Type 0
IsU32 v = v < 2 ^ 32

abbrev pub IsByte : ℕ → Type 0
IsByte b = b < 256

abbrev pub add64 : ℕ → ℕ → ℕ
add64 a b = (a + b) % 2 ^ 64

-- a - b; the modulus is added first, since `-` on the naturals stops at 0.
abbrev pub sub64 : ℕ → ℕ → ℕ
sub64 a b = (a + 2 ^ 64 - b) % 2 ^ 64

abbrev pub mul64 : ℕ → ℕ → ℕ
mul64 a b = a * b % 2 ^ 64

-- ~v
abbrev pub not64 : ℕ → ℕ
not64 v = u64_max - v

pred_suc : (p : ℕ) → suc p - 1 ≡ p
pred_suc p = omega arith

below : (p x : ℕ) → 0 < p → (p - 1) * x + x ≡ p * x
below zero x h = absurd (omega arith)
below (suc p) x h = omega (arith, ap (λ (t : ℕ). t * x) (pred_suc p), suc-mul p x)

mask_shape : (m k : ℕ) → m + k ≡ 64 → not64 (2 ^ k - 1) ≡ (2 ^ m - 1) * 2 ^ k
mask_shape m k e =
    omega
      (arith, pow-add m k, ap (λ (t : ℕ). 2 ^ t) e, below (2 ^ m) (2 ^ k) (pow_pos m), pow_pos k)

pow_small : (k : ℕ) → 2 ^ k < 2 ^ 64 → k < 64
pow_small k h = elim (dec_lt k 64) [
  | yes p ↦ p
  | no p ↦ absurd (
      grind (
        arith,
        pow-add 64 (k - 64),
        pow_pos (k - 64),
        ap (λ (t : ℕ). 2 ^ t) (whole k (omega arith)),
      ))
]
  where
    whole : (k : ℕ) → 64 ≤ k → 64 + (k - 64) ≡ k
    whole k h = omega arith

high_part : (s m k : ℕ) → IsU64 s → m + k ≡ 64 → s / 2 ^ k % 2 ^ m ≡ s / 2 ^ k
high_part s m k hs e =
    mod-eq_of_lt
      ((div-lt_iff_lt-mul (pow_pos k)).1 (omega (arith, pow-add m k, ap (λ (t : ℕ). 2 ^ t) e)))

-- `s & ~(to - 1)` rounds down to a multiple of `to`, a power of two.
pub round_down_mask :
    (s to : ℕ) → IsU64 s → IsPow2 to → IsU64 to → bit_and s (not64 (to - 1)) ≡ s - s % to
unfolding IsPow2
round_down_mask s to hs (k, e) ht =
    let small : k < 64 = pow_small k (omega arith) in
    let split : 64 - k + k ≡ 64 = omega arith in
    omega (
      arith,
      ap (λ (t : ℕ). bit_and s (not64 (t - 1))) e,
      ap (bit_and s) (mask_shape (64 - k) k split),
      bit_and_high k s (2 ^ (64 - k) - 1),
      ap (λ (t : ℕ). t * 2 ^ k) (bit_and_low (64 - k) (s / 2 ^ k)),
      ap (λ (t : ℕ). t * 2 ^ k) (high_part s (64 - k) k hs split),
      div-add-mod' s (2 ^ k),
      ap (λ (t : ℕ). s % t) e,
    )

-- Signed integers; `negsuc n` is -(n + 1).
pub data ℤ : Type 0 where
  pos : ℕ → ℤ
  negsuc : ℕ → ℤ

-- The int64_t whose bit pattern is `w`.
abbrev pub signed64 : ℕ → ℤ
signed64 w = if ltb w (2 ^ 63) then pos w else negsuc (2 ^ 64 - w - 1)

-- The arithmetic shift `>>`, which rounds towards minus infinity.
abbrev pub sar : ℤ → ℕ → ℤ
sar (pos n) s = pos (n / 2 ^ s)
sar (negsuc n) s = negsuc (n / 2 ^ s)
