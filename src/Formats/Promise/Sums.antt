-- ===== src/Formats/Promise/Sums.antt =====
-- Counting the bytes that the streams of a layout hold, src/core/formats/device_layout.h.
use native.Mathlib.Decide.{dec_lt, ℕ_discrete}
use browser_llm.Base.{
  ℕ, zero, suc, ◌+◌, ◌-◌, ◌≤◌, ◌<◌, ◌≡◌, refl, ap, ◌∙◌, ◌&&◌, List, [], ◌∷◌, arith, ltb, leb,
  if◌then◌else◌,
}
use browser_llm.Formats.{Stream}

-- 1 where the stream holds byte `b` of a block, else 0.
abbrev pub holds : Stream → ℕ → ℕ
holds s b = if leb s.offset b && ltb b (s.offset + s.width) then 1 else 0

-- How many of the streams hold byte `b` of a block.
unfoldable pub holders : List Stream → ℕ → ℕ
holders [] b = 0
holders (s ∷ rest) b = holds s b + holders rest b

-- The sum of `f` over the first `n` numbers.
abbrev pub sum_below : ℕ → (ℕ → ℕ) → ℕ
sum_below zero f = 0
sum_below (suc n) f = f n + sum_below n f

pub sum_below-add :
    (n : ℕ) (f g : ℕ → ℕ) → sum_below n (λ b. f b + g b) ≡ sum_below n f + sum_below n g
sum_below-add zero f g = refl
sum_below-add (suc n) f g = omega (arith, sum_below-add n f g)

pub sum_below-nothing : (n : ℕ) → sum_below n (λ b. 0) ≡ 0
sum_below-nothing zero = refl
sum_below-nothing (suc n) = omega (arith, sum_below-nothing n)

sum_below-le : (n : ℕ) (f : ℕ → ℕ) → ((b : ℕ) → f b ≤ 1) → sum_below n f ≤ n
sum_below-le zero f h = omega arith
sum_below-le (suc n) f h = omega (arith, h n, sum_below-le n f h)

-- Numbers of at most 1 that add up to as many as they are are all 1.
pub sum_below-full :
    (n : ℕ) (f : ℕ → ℕ) → ((b : ℕ) → f b ≤ 1) → sum_below n f ≡ n → (b : ℕ) → b < n → f b ≡ 1
sum_below-full zero f h e b l = absurd (omega (arith, l))
sum_below-full (suc n) f h e b l = elim (ℕ_discrete b n) [
  | yes q ↦ ap f q ∙ omega (arith, h n, sum_below-le n f h, e)
  | no q ↦ sum_below-full n f h (omega (arith, h n, sum_below-le n f h, e)) b (omega (arith, l, q))
]

sum_below-none : (n : ℕ) (s : Stream) → n ≤ s.offset → sum_below n (holds s) ≡ 0
sum_below-none zero s h = refl
sum_below-none (suc n) s h = ground (arith, sum_below-none n s)

sum_below-holds :
    (n : ℕ) (s : Stream)
    → s.offset ≤ n
    → n ≤ s.offset + s.width
    → sum_below n (holds s) ≡ n - s.offset
sum_below-holds zero s h k = omega arith
sum_below-holds (suc n) s h k = elim (dec_lt n s.offset) [
  | yes l ↦ ground (arith, sum_below-none n s)
  | no l ↦ ground (arith, sum_below-holds n s)
]

pub sum_below-width :
    (n : ℕ) (s : Stream) → s.offset + s.width ≤ n → sum_below n (holds s) ≡ s.width
sum_below-width zero s h = omega arith
sum_below-width (suc n) s h = elim (dec_lt n (s.offset + s.width)) [
  | yes l ↦ sum_below-holds (suc n) s (omega (arith, l)) (omega (arith, l)) ∙ omega (arith, h, l)
  | no l ↦ ground (arith, sum_below-width n s)
]

pub sum_below-empty : (n : ℕ) (s : Stream) → s.width ≡ 0 → sum_below n (holds s) ≡ 0
sum_below-empty zero s h = refl
sum_below-empty (suc n) s h = ground (arith, sum_below-empty n s)
