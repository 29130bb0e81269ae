-- ===== src/Gguf/Sorting/Laws.antt =====
-- What sorting and the scan of neighbours show: a property of pairs, from neighbours to all pairs.
use browser_llm.Base.{
  Bool, true, false, ◌≡◌, refl, List, [], ◌∷◌, All, All-mono, Bool-cases, inl, inr, ◌↔◌,
}
use browser_llm.Gguf.Sorting.{insert, sort, any_adjacent}

-- Every element is related to each one after it.
abbrev pub AllPairs : {A : Type 0} → (A → A → Type 0) → List A → Type 0
AllPairs R [] = Unit {0}
AllPairs R (x ∷ xs) = All (R x) xs × AllPairs R xs

module _ {A : Type 0} (less : A → A → Bool) (P : A → Type 0) where
  pub All-insert : (x : A) (ys : List A) → All P (insert less x ys) ↔ (P x × All P ys)
  unfolding insert
  All-insert x [] = (λ h. h, λ h. h)
  All-insert x (y ∷ ys) = elim (Bool-cases (less y x)) [
    | inl e ↦ rw e (
      λ h. let (px, rest) = (All-insert x ys).0 h.1 in (px, (h.0, rest)),
      λ h. (h.1.0, (All-insert x ys).1 (h.0, h.1.1)),
    )
    | inr e ↦ rw e (λ h. h, λ h. h)
  ]

  pub All-sort : (xs : List A) → All P (sort less xs) ↔ All P xs
  unfolding sort
  All-sort [] = (λ h. h, λ h. h)
  All-sort (x ∷ xs) = (
    λ h. let (px, rest) = (All-insert x (sort less xs)).0 h in (px, (All-sort xs).0 rest),
    λ h. (All-insert x (sort less xs)).1 (h.0, (All-sort xs).1 h.1),
  )

module _ {A : Type 0} (less : A → A → Bool) (R : A → A → Type 0)
    (symmetric : (x y : A) → R x y → R y x) where
  AllPairs-insert :
      (x : A) (ys : List A) → AllPairs R (insert less x ys) ↔ (All (R x) ys × AllPairs R ys)
  unfolding insert
  AllPairs-insert x [] = (λ h. h, λ h. h)
  AllPairs-insert x (y ∷ ys) = elim (Bool-cases (less y x)) [
    | inl e ↦ rw e (
      λ h.
          let (ryx, ry) = (All-insert less (R y) x ys).0 h.0 in
          let (rx, rest) = (AllPairs-insert x ys).0 h.1 in ((symmetric y x ryx, rx), (ry, rest)),
      λ h. (
        (All-insert less (R y) x ys).1 (symmetric x y h.0.0, h.1.0),
        (AllPairs-insert x ys).1 (h.0.1, h.1.1),
      ),
    )
    | inr e ↦ rw e (λ h. h, λ h. h)
  ]

  -- Sorting does not change which symmetric relations hold of all pairs.
  pub AllPairs-sort : (xs : List A) → AllPairs R (sort less xs) ↔ AllPairs R xs
  unfolding sort
  AllPairs-sort [] = (λ h. h, λ h. h)
  AllPairs-sort (x ∷ xs) = (
    λ h.
        let (rx, rest) = (AllPairs-insert x (sort less xs)).0 h in
        ((All-sort less (R x) xs).0 rx, (AllPairs-sort xs).0 rest),
    λ h.
        (AllPairs-insert x (sort less xs)).1
          ((All-sort less (R x) xs).1 h.0, (AllPairs-sort xs).1 h.1),
  )

-- `x` is not above `y`.
abbrev pub NotAbove : {A : Type 0} → (A → A → Bool) → A → A → Type 0
NotAbove less x y = less y x ≡ false

module _ {A : Type 0} (less : A → A → Bool) (asym : (x y : A) → less x y ≡ true → less y x ≡ false)
    (trans : (x y z : A) → less y x ≡ false → less z y ≡ false → less z x ≡ false) where
  insert-sorted :
      (x : A) (ys : List A)
      → AllPairs (NotAbove less) ys
      → AllPairs (NotAbove less) (insert less x ys)
  unfolding insert
  insert-sorted x [] h = (tt, tt)
  insert-sorted x (y ∷ ys) h = elim (Bool-cases (less y x)) [
    | inl e ↦
        rw e ((All-insert less (NotAbove less y) x ys).1 (asym y x e, h.0), insert-sorted x ys h.1)
    | inr e ↦
        rw e ((e, All-mono (NotAbove less y) (NotAbove less x) ys (λ z q. trans x y z e q) h.0), h)
  ]

  pub sort-sorted : (xs : List A) → AllPairs (NotAbove less) (sort less xs)
  unfolding sort
  sort-sorted [] = tt
  sort-sorted (x ∷ xs) = insert-sorted x (sort less xs) (sort-sorted xs)

-- A relation that fails for no neighbours, and is transitive over elements with `P`, fails for no pair.
pub AllPairs-of_adjacent :
    {A : Type 0} (rel : A → A → Bool) (P : A → Type 0) (xs : List A)
    → ((x y z : A) → P y → rel x y ≡ false → rel y z ≡ false → rel x z ≡ false)
    → All P xs
    → any_adjacent rel xs ≡ false
    → AllPairs (λ x y. rel x y ≡ false) xs
unfolding any_adjacent
AllPairs-of_adjacent rel P [] trans ps e = tt
AllPairs-of_adjacent rel P (x ∷ []) trans ps e = (tt, tt)
AllPairs-of_adjacent rel P (x ∷ y ∷ ys) trans ps e = elim (Bool-cases (rel x y)) [
  | inl hit ↦ cc (rw hit at e)
  | inr miss ↦
      let rest : AllPairs (λ x y. rel x y ≡ false) (y ∷ ys) =
        AllPairs-of_adjacent rel P (y ∷ ys) trans ps.1 (rw miss at e) in
      (
        (
          miss,
          All-mono (λ z. rel y z ≡ false) (λ z. rel x z ≡ false) ys
              (λ z q. trans x y z ps.1.0 miss q) rest.0,
        ),
        rest,
      )
]

-- A relation of no pair is a relation of no neighbours.
pub adjacent_of_AllPairs :
    {A : Type 0} (rel : A → A → Bool) (xs : List A)
    → AllPairs (λ x y. rel x y ≡ false) xs
    → any_adjacent rel xs ≡ false
unfolding any_adjacent
adjacent_of_AllPairs rel [] h = refl
adjacent_of_AllPairs rel (x ∷ []) h = refl
adjacent_of_AllPairs rel (x ∷ y ∷ ys) h = rw h.0.0 (adjacent_of_AllPairs rel (y ∷ ys) h.1)

pub All-both :
    {A : Type 0} (P Q : A → Type 0) (xs : List A) → All P xs → All Q xs → All (λ x. P x × Q x) xs
All-both P Q [] h k = tt
All-both P Q (x ∷ xs) h k = ((h.0, k.0), All-both P Q xs h.1 k.1)

pub AllPairs-both :
    {A : Type 0} (R S : A → A → Type 0) (xs : List A)
    → AllPairs R xs
    → AllPairs S xs
    → AllPairs (λ x y. R x y × S x y) xs
AllPairs-both R S [] h k = tt
AllPairs-both R S (x ∷ xs) h k = (All-both (R x) (S x) xs h.0 k.0, AllPairs-both R S xs h.1 k.1)
