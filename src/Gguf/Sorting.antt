-- ===== src/Gguf/Sorting.antt =====
-- `std::sort` and the scan of adjacent elements, as src/core/gguf/reader.cpp uses them. The order of
-- elements that compare equal is the implementation's choice; here it is that of the input.
pub mod Laws
use browser_llm.Base.{Bool, true, false, ◌≡◌, refl, List, [], ◌∷◌, arith, All, if◌then◌else◌}

module _ {A : Type 0} (less : A → A → Bool) where
  unfoldable pub insert : A → List A → List A
  insert x [] = x ∷ []
  insert x (y ∷ ys) = if less y x then y ∷ insert x ys else x ∷ y ∷ ys

  unfoldable pub sort : List A → List A
  sort [] = []
  sort (x ∷ xs) = insert x (sort xs)

-- Some element and the one after it are related.
unfoldable pub any_adjacent : {A : Type 0} → (A → A → Bool) → List A → Bool
any_adjacent rel [] = false
any_adjacent rel (x ∷ []) = false
any_adjacent rel (x ∷ y ∷ ys) = if rel x y then true else any_adjacent rel (y ∷ ys)
