-- ===== src/Gguf/Parse/Names.antt =====
-- The order of names and the test for a repeated one, src/core/gguf/reader.cpp: `has_duplicate`.
use browser_llm.Base.{
  ℕ, ◌≡◌, ◌≢◌, ◌↔◌, inl, inr, refl, sym, ap, Bool, true, false, not, List, [], ◌∷◌, arith, All,
  All-mono, Bool-cases,
}
use browser_llm.Gguf.Sorting.{sort, any_adjacent}
use browser_llm.Gguf.Sorting.Laws.{
  AllPairs, AllPairs-sort, sort-sorted, NotAbove, AllPairs-of_adjacent, adjacent_of_AllPairs,
}
use browser_llm.Gguf.Parse.{text_less, text_eq, has_duplicate}

text_eq_sound : (x y : List ℕ) → text_eq x y ≡ true → x ≡ y
unfolding text_eq
text_eq_sound [] [] e = refl
text_eq_sound [] (b ∷ bs) e = cc
text_eq_sound (a ∷ more) [] e = cc
text_eq_sound (a ∷ more) (b ∷ bs) e = ground (arith, text_eq_sound more bs)

text_eq_refl : (x : List ℕ) → text_eq x x ≡ true
unfolding text_eq
text_eq_refl [] = refl
text_eq_refl (a ∷ more) = ground (arith, text_eq_refl more)

pub text_eq_iff : (x y : List ℕ) → (text_eq x y ≡ true) ↔ (x ≡ y)
text_eq_iff x y = (text_eq_sound x y, λ e. rw e (text_eq_refl y))

text_less_irrefl : (x : List ℕ) → text_less x x ≡ false
unfolding text_less
text_less_irrefl [] = refl
text_less_irrefl (a ∷ more) = ground (arith, text_less_irrefl more)

text_less_asym : (x y : List ℕ) → text_less x y ≡ true → text_less y x ≡ false
unfolding text_less
text_less_asym [] [] e = refl
text_less_asym [] (b ∷ bs) e = refl
text_less_asym (a ∷ more) [] e = cc
text_less_asym (a ∷ more) (b ∷ bs) e = ground (arith, text_less_asym more bs)

text_less_total : (x y : List ℕ) → text_less x y ≡ false → text_less y x ≡ false → x ≡ y
unfolding text_less
text_less_total [] [] e k = refl
text_less_total [] (b ∷ bs) e k = cc
text_less_total (a ∷ more) [] e k = cc
text_less_total (a ∷ more) (b ∷ bs) e k = ground (arith, text_less_total more bs)

text_less_trans :
    (x y z : List ℕ) → text_less x y ≡ true → text_less y z ≡ true → text_less x z ≡ true
unfolding text_less
text_less_trans x y [] e k = absurd (no_less y k)
  where
    no_less : (y : List ℕ) → ¬ (text_less y [] ≡ true)
    no_less [] k = cc
    no_less (b ∷ bs) k = cc
text_less_trans [] y (c ∷ cs) e k = refl
text_less_trans (a ∷ more) [] (c ∷ cs) e k = cc
text_less_trans (a ∷ more) (b ∷ bs) (c ∷ cs) e k = ground (arith, text_less_trans more bs cs)

not_above_trans :
    (x y z : List ℕ) → text_less y x ≡ false → text_less z y ≡ false → text_less z x ≡ false
not_above_trans x y z e k = elim (Bool-cases (text_less z x)) [
  | inr h ↦ h
  | inl h ↦ elim (Bool-cases (text_less x y)) [
    | inl l ↦ cc (text_less_trans z x y h l)
    | inr n ↦ cc (text_less_total x y n e)
  ]
]

abbrev rises : List ℕ → List ℕ → Bool
rises x y = not (text_less x y)

adjacent_rises :
    (xs : List (List ℕ))
    → AllPairs (NotAbove text_less) xs
    → any_adjacent text_eq xs ≡ false
    → any_adjacent rises xs ≡ false
unfolding any_adjacent
adjacent_rises [] h e = refl
adjacent_rises (x ∷ []) h e = refl
adjacent_rises (x ∷ y ∷ ys) h e =
    ground (arith, text_less_total x y, text_eq_refl x, adjacent_rises (y ∷ ys) h.1, h.0.0)

distinct_pairs :
    (xs : List (List ℕ)) → AllPairs (λ x y. rises x y ≡ false) xs → AllPairs (λ x y. x ≢ y) xs
distinct_pairs [] h = tt
distinct_pairs (x ∷ xs) h = (
  All-mono (λ y. rises x y ≡ false) (λ y. x ≢ y) xs
      (λ y r e. cc (text_less_irrefl x, ap (text_less x) e)) h.0,
  distinct_pairs xs h.1,
)

apart_pairs :
    (xs : List (List ℕ)) → AllPairs (λ x y. x ≢ y) xs → AllPairs (λ x y. text_eq x y ≡ false) xs
apart_pairs [] h = tt
apart_pairs (x ∷ xs) h = (
  All-mono (λ y. x ≢ y) (λ y. text_eq x y ≡ false) xs (λ y d. differ x y d) h.0,
  apart_pairs xs h.1,
)
  where
    differ : (x y : List ℕ) → x ≢ y → text_eq x y ≡ false
    differ x y d = elim (Bool-cases (text_eq x y)) [
      | inl e ↦ absurd (d (text_eq_sound x y e))
      | inr e ↦ e
    ]

differ_symm : (x y : List ℕ) → x ≢ y → y ≢ x
differ_symm x y d e = d (sym e)

-- The test on sorted neighbours answers no exactly when all the names differ pairwise.
pub has_duplicate_iff :
    (xs : List (List ℕ)) → (has_duplicate xs ≡ false) ↔ AllPairs (λ x y. x ≢ y) xs
unfolding has_duplicate
has_duplicate_iff xs = (
  λ e. (AllPairs-sort text_less (λ x y. x ≢ y) differ_symm xs).0 (
      distinct_pairs (sort text_less xs) (
        AllPairs-of_adjacent rises (λ _. Unit {0}) (sort text_less xs)
          (λ x y z _ h k. ground (arith, text_less_trans x y z)) (everything (sort text_less xs))
          (adjacent_rises (sort text_less xs) sorted e))),
  λ h. adjacent_of_AllPairs text_eq (sort text_less xs) (
      apart_pairs (sort text_less xs)
        ((AllPairs-sort text_less (λ x y. x ≢ y) differ_symm xs).1 h)),
)
  where
    sorted : AllPairs (NotAbove text_less) (sort text_less xs)
    sorted = sort-sorted text_less text_less_asym not_above_trans xs

    everything : (ys : List (List ℕ)) → All (λ _. Unit {0}) ys
    everything [] = tt
    everything (y ∷ ys) = (tt, everything ys)
