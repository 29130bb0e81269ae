-- ===== src/Arch/Names.antt =====
-- The names of a layer's tensors, src/core/arch/describe.cpp: the number in them can be read back.
use browser_llm.Base.{
  ℕ, zero, suc, ◌+◌, ◌-◌, ◌*◌, ◌/◌, ◌%◌, ◌^◌, ◌<◌, ◌≡◌, refl, ap, ◌∙◌, true, ◌&&◌, List, [], ◌∷◌,
  arith, leb, ◌==◌, if◌then◌else◌, Bool-cases, inl, inr,
}

-- The decimal digits of a number before what is there already, on fuel.
unfoldable pub digits_before : ℕ → ℕ → List ℕ → List ℕ
digits_before zero n tail = tail
digits_before (suc fuel) n tail =
    let rest : List ℕ = digits_before fuel (n / 10) ((b'0' + n % 10) ∷ tail) in
    if n / 10 == 0 then (b'0' + n % 10) ∷ tail else rest

-- `std::to_string` of a 32-bit number, which has ten digits at most.
abbrev pub to_string : ℕ → List ℕ
to_string n = digits_before 10 n []

-- The number that a text starts with, after `so_far`.
unfoldable pub number_of : List ℕ → ℕ → ℕ
number_of [] so_far = so_far
number_of (c ∷ more) so_far =
    let rest : ℕ = number_of more (so_far * 10 + (c - b'0')) in
    if leb b'0' c && leb c b'9' then rest else so_far

number_of-digit :
    (d : ℕ) (tail : List ℕ) (so_far : ℕ)
    → d < 10
    → number_of ((b'0' + d) ∷ tail) so_far ≡ number_of tail (so_far * 10 + d)
unfolding number_of
number_of-digit d tail so_far h = rw (test, back) refl
  where
    test : (leb b'0' (b'0' + d) && leb (b'0' + d) b'9') ≡ true
    test = ground (arith, h)

    back : (b'0' + d) - b'0' ≡ d
    back = omega arith

pub number_of-digits_before :
    (fuel n : ℕ) (tail : List ℕ)
    → n < 10 ^ fuel
    → number_of (digits_before fuel n tail) 0 ≡ number_of tail n
unfolding digits_before
number_of-digits_before zero n tail h = ap (number_of tail) (omega (arith, h))
number_of-digits_before (suc fuel) n tail h = elim (Bool-cases (n / 10 == 0)) [
  | inl e ↦
      rw e (number_of-digit (n % 10) tail 0 (omega arith) ∙ ap (number_of tail) (ground (arith, e)))
  | inr e ↦ rw e (
      number_of-digits_before fuel (n / 10) ((b'0' + n % 10) ∷ tail) (omega (arith, h))
      ∙ number_of-digit (n % 10) tail (n / 10) (omega arith)
      ∙ ap (number_of tail) (omega arith))
]
