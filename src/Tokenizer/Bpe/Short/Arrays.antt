-- ===== src/Tokenizer/Bpe/Short/Arrays.antt =====
-- The arrays of `merge_short`, src/core/tokenizer/bpe/merge.cpp, as lists of symbols.
use native.Mathlib.Decide.{ℕ_discrete}
use browser_llm.Base.{
  subst, ◌⊎◌, inl, inr, Bool-cases, ltb→lt, ltb→le, ℕ, zero, suc, ◌+◌, ◌≤◌, ◌<◌, ◌≡◌, refl, ap, ◌∙◌,
  true, false, List, [], ◌∷◌, arith, ltb, if◌then◌else◌, length, get_or,
}
use browser_llm.Tokenizer.Bpe.Merge.{symbol, merged_at}
use browser_llm.Tokenizer.Bpe.Short.{Array, put, close_gap, view, best_of}

pub length-view : (n : ℕ) (a : Array) → length (view n a) ≡ n
length-view zero a = refl
length-view (suc n) a = ap suc (length-view n (λ j. a (suc j)))

pub symbol-view : (n : ℕ) (a : Array) (i : ℕ) → i < n → symbol (view n a) i ≡ a i
symbol-view zero a i h = absurd (omega arith)
symbol-view (suc n) a zero h = refl
symbol-view (suc n) a (suc i) h = symbol-view n (λ j. a (suc j)) i (omega arith)

pub view-same : (n : ℕ) (a b : Array) → ((j : ℕ) → j < n → a j ≡ b j) → view n a ≡ view n b
view-same zero a b h = refl
view-same (suc n) a b h =
    ap (λ (t : ℕ). t ∷ view n (λ j. a (suc j))) (h 0 (omega arith))
    ∙ ap (λ (t : List ℕ). b 0 ∷ t)
        (view-same n (λ j. a (suc j)) (λ j. b (suc j)) (λ j k. h (suc j) (omega arith)))

pub view-symbols : (xs : List ℕ) → view (length xs) (λ i. get_or xs i 0) ≡ xs
view-symbols [] = refl
view-symbols (x ∷ xs) = ap (λ (t : List ℕ). x ∷ t) (view-symbols xs)

first_kept :
    (i k : ℕ) (a : Array) (v : ℕ)
    → a 0 ≡ close_gap (suc (suc i)) (suc (suc (suc k))) (put a (suc i) v) 0
first_kept i k a v = ground arith

-- Closing the gap is replacing the pair.
pub merged_at-view :
    (i k : ℕ) (a : Array) (v : ℕ)
    → i ≤ k
    → merged_at i v (view (suc (suc k)) a)
      ≡ view (suc k) (close_gap (suc i) (suc (suc k)) (put a i v))
merged_at-view zero k a v h =
    ap (λ (t : List ℕ). v ∷ t)
      (view-same k (λ j. a (suc (suc j))) (λ j. close_gap 1 (suc (suc k)) (put a 0 v) (suc j))
        λ j l. ground arith)
merged_at-view (suc i) zero a v h = absurd (omega arith)
merged_at-view (suc i) (suc k) a v h =
    ap (λ (t : List ℕ). a 0 ∷ t)
      (merged_at-view i k (λ j. a (suc j)) v (omega arith)
        ∙ view-same (suc k) (close_gap (suc i) (suc (suc k)) (put (λ j. a (suc j)) i v))
            (λ j. close_gap (suc (suc i)) (suc (suc (suc k))) (put a (suc i) v) (suc j))
            λ j l. ground arith)
    ∙ ap
        (λ (t : ℕ).
          t
          ∷ view (suc k)
              (λ j. close_gap (suc (suc i)) (suc (suc (suc k))) (put a (suc i) v) (suc j)))
        (first_kept i k a v)

-- The best index found, of those before `i`, is the best of all that are looked at.
pub record IsLowest (ranks : Array) (stop best : ℕ) : Type 0 where
  pub within : best < stop
  pub lowest : (j : ℕ) → j < stop → ranks best ≤ ranks j
  pub leftmost : (j : ℕ) → j < best → ranks best < ranks j

pub best_of-IsLowest :
    (ranks : Array) (left i best stop : ℕ)
    → i + left ≡ stop
    → IsLowest ranks i best
    → IsLowest ranks stop (best_of ranks left i best)
unfolding best_of
best_of-IsLowest ranks zero i best stop e h = subst (λ n. IsLowest ranks n best) (omega arith) h
best_of-IsLowest ranks (suc left) i best stop e h =
    best_of-IsLowest ranks left (suc i) _ stop (omega arith)
      (one_more ranks i best h (Bool-cases (ltb (ranks i) (ranks best))))
  where
    one_more :
        (ranks : Array) (i best : ℕ)
        → IsLowest ranks i best
        → (ltb (ranks i) (ranks best) ≡ true) ⊎ (ltb (ranks i) (ranks best) ≡ false)
        → IsLowest ranks (suc i) (if ltb (ranks i) (ranks best) then i else best)
    one_more ranks i best h (inl e) = rw e (record {
      within = omega arith;
      lowest = λ j k. elim (ℕ_discrete j i) [
        | yes q ↦ omega (arith, ap ranks q)
        | no n ↦ omega (arith, h.lowest j (omega arith), ltb→lt _ _ e)
      ];
      leftmost = λ j k. omega (arith, h.lowest j k, ltb→lt _ _ e);
    })
    one_more ranks i best h (inr e) = rw e (record {
      within = omega (arith, h.within);
      lowest = λ j k. elim (ℕ_discrete j i) [
        | yes q ↦ omega (arith, ap ranks q, ltb→le _ _ e)
        | no n ↦ h.lowest j (omega arith)
      ];
      leftmost = h.leftmost;
    })
