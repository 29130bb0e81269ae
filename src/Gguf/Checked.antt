-- ===== src/Gguf/Checked.antt =====
-- Checked arithmetic on 64-bit offsets and lengths, src/core/gguf/checked.h. The Boolean result with
-- an out-parameter is an Option.
use browser_llm.Base.{
  ℕ, zero, suc, ◌+◌, ◌-◌, ◌*◌, ◌/◌, ◌≤◌, ◌≡◌, ◌↔◌, Bool, true, not, ◌&&◌, Option, none, some, arith,
  ltb, leb, ◌==◌, if◌then◌else◌,
}
use browser_llm.Base.Words.{u64_max, IsU64, add64, mul64}
use native.Mathlib.Nat.{le-div_iff_mul-le, mod-eq_of_lt, mul_comm, zero-mul}

unfoldable pub checked_add : ℕ → ℕ → Option ℕ
checked_add a b = if ltb (u64_max - b) a then none else some (add64 a b)

unfoldable pub checked_mul : ℕ → ℕ → Option ℕ
checked_mul a b = if not (a == 0) && ltb (u64_max / a) b then none else some (mul64 a b)

unfoldable pub range_within : ℕ → ℕ → ℕ → Bool
range_within offset length total = leb offset total && leb length (total - offset)

pub checked_add-some :
    (a b c : ℕ) → IsU64 a → IsU64 b → checked_add a b ≡ some c → (c ≡ a + b) × IsU64 (a + b)
unfolding checked_add
checked_add-some a b c ha hb e = ground arith

pub checked_add_fits : (a b : ℕ) → IsU64 (a + b) → checked_add a b ≡ some (a + b)
unfolding checked_add
checked_add_fits a b h = ground arith

fits_div : (a b : ℕ) → IsU64 (suc a * b) → b ≤ u64_max / suc a
fits_div a b h = (le-div_iff_mul-le (omega arith)).1 (omega (arith, mul_comm (suc a) b))

div_fits : (a b : ℕ) → b ≤ u64_max / suc a → IsU64 (suc a * b)
div_fits a b h =
    omega (arith, (le-div_iff_mul-le {k = suc a} (omega arith)).0 h, mul_comm (suc a) b)

pub checked_mul_fits : (a b : ℕ) → IsU64 (a * b) → checked_mul a b ≡ some (a * b)
unfolding checked_mul
checked_mul_fits zero b h = ground (arith, zero-mul b)
checked_mul_fits (suc a) b h = ground (arith, fits_div a b, mod-eq_of_lt h)

pub checked_mul-some :
    (a b c : ℕ) → IsU64 b → checked_mul a b ≡ some c → (c ≡ a * b) × IsU64 (a * b)
unfolding checked_mul
checked_mul-some zero b c hb e = ground (arith, zero-mul b)
checked_mul-some (suc a) b c hb e = ground (arith, div_fits a b)

-- For 64-bit numbers, a checked sum is given exactly when the true sum fits 64 bits, and is then
-- that sum.
pub checked_add_exact :
    (a b c : ℕ) → IsU64 a → IsU64 b → (checked_add a b ≡ some c) ↔ ((c ≡ a + b) × IsU64 (a + b))
checked_add_exact a b c ha hb =
    (checked_add-some a b c ha hb, λ h. rw h.0 (checked_add_fits a b h.1))

-- For a 64-bit second factor, a checked product is given exactly when the true product fits 64 bits,
-- and is then that product.
pub checked_mul_exact :
    (a b c : ℕ) → IsU64 b → (checked_mul a b ≡ some c) ↔ ((c ≡ a * b) × IsU64 (a * b))
checked_mul_exact a b c hb = (checked_mul-some a b c hb, λ h. rw h.0 (checked_mul_fits a b h.1))

-- The range test holds exactly when the range, with no wrap, ends inside the total.
pub range_within_iff :
    (offset length total : ℕ)
    → (range_within offset length total ≡ true) ↔ (offset + length ≤ total)
unfolding range_within
range_within_iff offset length total = ground arith
