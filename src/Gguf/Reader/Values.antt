-- ===== src/Gguf/Reader/Values.antt =====
-- The numbers that the reader decodes, src/core/gguf/reader.cpp: `le` against the value of base-256
-- digits, and `sign_extend` against two's complement.
use Prim.Native.Nat.{bit_or}
use native.Mathlib.Nat.{pow-suc, mod-eq_of_lt}
use browser_llm.Base.{
  ℕ, zero, suc, ◌+◌, ◌-◌, ◌*◌, ◌^◌, ◌≤◌, ◌<◌, ◌≡◌, refl, ap, ◌⊎◌, inl, inr, List, [], ◌∷◌, arith,
  ltb, if◌then◌else◌, length, All,
}
use browser_llm.Base.Bits.{bit_or_disjoint}
use browser_llm.Base.Words.{IsByte, mul64, ℤ, pos, negsuc}
use browser_llm.Gguf.Reader.{le, sign_extend}

-- The number with these digits in base 256, the lowest first.
abbrev pub digits_value : List ℕ → ℕ
digits_value [] = 0
digits_value (b ∷ bs) = b + 256 * digits_value bs

pub digits_value-lt : (bs : List ℕ) → All IsByte bs → digits_value bs < 256 ^ length bs
digits_value-lt [] h = omega arith
digits_value-lt (b ∷ bs) h = omega (arith, pow-suc 256 (length bs), digits_value-lt bs h.1)

seven_bytes : (n : ℕ) → n ≤ 7 → 256 ^ n ≤ 2 ^ 56
seven_bytes zero h = omega arith
seven_bytes (suc zero) h = omega arith
seven_bytes (suc (suc zero)) h = omega arith
seven_bytes (suc (suc (suc zero))) h = omega arith
seven_bytes (suc (suc (suc (suc zero)))) h = omega arith
seven_bytes (suc (suc (suc (suc (suc zero))))) h = omega arith
seven_bytes (suc (suc (suc (suc (suc (suc zero)))))) h = omega arith
seven_bytes (suc (suc (suc (suc (suc (suc (suc zero))))))) h = omega arith
seven_bytes (suc (suc (suc (suc (suc (suc (suc (suc n)))))))) h = absurd (omega arith)

-- Up to eight bytes decode to the number that they spell in base 256, the lowest digit first, with
-- no bit lost.
pub le-digits_value : (bs : List ℕ) → All IsByte bs → length bs ≤ 8 → le bs ≡ digits_value bs
unfolding le
le-digits_value [] h k = refl
le-digits_value (b ∷ bs) h k = omega (
  arith,
  ap (λ (t : ℕ). bit_or (mul64 t (2 ^ 8)) b) (le-digits_value bs h.1 (omega arith)),
  ap (λ (t : ℕ). bit_or t b) (mod-eq_of_lt (no_wrap bs h.1 (omega arith))),
  bit_or_disjoint 8 (digits_value bs) b h.0,
)
  where
    no_wrap : (bs : List ℕ) → All IsByte bs → length bs ≤ 7 → digits_value bs * 2 ^ 8 < 2 ^ 64
    no_wrap bs h k = omega (arith, digits_value-lt bs h, seven_bytes (length bs) k)

pub le-lt : (bs : List ℕ) → All IsByte bs → length bs ≤ 8 → le bs < 256 ^ length bs
le-lt bs h k = omega (arith, le-digits_value bs h k, digits_value-lt bs h)

-- The integer whose two's complement in `w` bits, `half = 2 ^ (w - 1)`, is `raw`.
abbrev pub twos_complement : ℕ → ℕ → ℤ
twos_complement half raw = if ltb raw half then pos raw else negsuc (2 * half - raw - 1)

-- A number of 1, 2, 4 or 8 bytes, sign-extended, is the integer whose two's complement in that width
-- it is.
pub sign_extend-twos_complement :
    (raw count : ℕ)
    → (count ≡ 1) ⊎ (count ≡ 2) ⊎ (count ≡ 4) ⊎ (count ≡ 8)
    → raw < 256 ^ count
    → sign_extend raw count ≡ twos_complement (2 ^ (8 * count - 1)) raw
unfolding sign_extend
sign_extend-twos_complement raw count (inl e) h = rw e (by_one raw (rw e at h))
  where
    by_one : (raw : ℕ) → raw < 256 ^ 1 → sign_extend raw 1 ≡ twos_complement (2 ^ 7) raw
    by_one raw h = ground arith
sign_extend-twos_complement raw count (inr (inl e)) h = rw e (by_two raw (rw e at h))
  where
    by_two : (raw : ℕ) → raw < 256 ^ 2 → sign_extend raw 2 ≡ twos_complement (2 ^ 15) raw
    by_two raw h = ground arith
sign_extend-twos_complement raw count (inr (inr (inl e))) h = rw e (by_four raw (rw e at h))
  where
    by_four : (raw : ℕ) → raw < 256 ^ 4 → sign_extend raw 4 ≡ twos_complement (2 ^ 31) raw
    by_four raw h = ground arith
sign_extend-twos_complement raw count (inr (inr (inr e))) h = rw e (by_eight raw (rw e at h))
  where
    by_eight : (raw : ℕ) → raw < 256 ^ 8 → sign_extend raw 8 ≡ twos_complement (2 ^ 63) raw
    by_eight raw h = ground arith
