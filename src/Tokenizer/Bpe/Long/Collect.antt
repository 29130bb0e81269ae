-- ===== src/Tokenizer/Bpe/Long/Collect.antt =====
-- Walking the chain of symbols, src/core/tokenizer/bpe/merge.cpp.
use mathlib.Core.List.{append_assoc, append-nil}
use browser_llm.Base.{
  ℕ, zero, suc, ◌+◌, ◌-◌, ◌≤◌, ◌<◌, ◌≡◌, refl, sym, ap, ◌∙◌, false, some, List, [], ◌∷◌, ◌++◌,
  arith, ◌==◌,
}
use browser_llm.Tokenizer.Bpe.Short.{view}
use browser_llm.Tokenizer.Bpe.Short.Arrays.{view-same}
use browser_llm.Tokenizer.Bpe.Long.{no_place, Symbols, collect}
use browser_llm.Tokenizer.Bpe.Long.Chain.{IsChain}
use browser_llm.Tokenizer.Bpe.Long.Pairs.{tokens}

-- Walking the chain appends its tokens in order.
module _ {count n : ℕ} {at : ℕ → ℕ} {piece : Symbols} (w : IsChain count n at piece) where
  at-ge : (i : ℕ) → i < n → i ≤ at i
  at-ge zero h = omega arith
  at-ge (suc i) h = omega (arith, at-ge i (omega (arith, h)), w.rising i (suc i) (omega arith) h)

  n-le : n ≤ count
  n-le = omega (
    arith,
    at-ge (n - 1) (omega (arith, w.some_left)),
    w.inside (n - 1) (omega (arith, w.some_left)),
    w.some_left,
  )

  collect_end : (fuel : ℕ) (out : List ℕ) → collect (suc fuel) piece no_place out ≡ some out
  unfolding collect
  collect_end fuel out = refl

  collect_more :
      (fuel p : ℕ) (out : List ℕ)
      → p < no_place
      → collect (suc fuel) piece p out
        ≡ collect fuel piece (piece p).next (out ++ ((piece p).token ∷ []))
  unfolding collect
  collect_more fuel p out h = rw (by_test p h) refl
    where
      by_test : (p : ℕ) → p < no_place → (p == no_place) ≡ false
      by_test p h = ground arith

  collect-from :
      (left i fuel place : ℕ) (out : List ℕ)
      → i + left ≡ n
      → (left ≡ 0 → place ≡ no_place)
      → (0 < left → place ≡ at i)
      → left < fuel
      → collect fuel piece place out ≡ some (out ++ view left (λ j. tokens piece at (i + j)))
  collect-from left i zero place out e a b l = absurd (omega (arith, l))
  collect-from zero i (suc fuel) place out e a b l =
      rw (a refl) (collect_end fuel out ∙ ap (λ (t : List ℕ). some t) (sym (append-nil out)))
  collect-from (suc left) i (suc fuel) place out e a b l =
      let here : place ≡ at i = b (omega arith) in
      rw here (
        collect_more fuel (at i) out (omega (arith, w.inside i (omega (arith, e)), w.few))
        ∙ collect-from left (suc i) fuel (piece (at i)).next (out ++ ((piece (at i)).token ∷ []))
            (omega (arith, e)) (λ z. w.last i (omega (arith, e, z)))
            (λ z. w.next i (omega (arith, e, z))) (omega (arith, l))
        ∙ ap (λ (t : List ℕ). some t)
            (append_assoc out ((piece (at i)).token ∷ [])
                (view left (λ j. tokens piece at (suc i + j)))
              ∙ ap (λ (t : List ℕ). out ++ t) same_places))
    where
      same_places :
          (piece (at i)).token ∷ view left (λ j. tokens piece at (suc i + j))
          ≡ view (suc left) (λ j. tokens piece at (i + j))
      same_places =
          ap (λ (t : ℕ). (piece (at t)).token ∷ view left (λ j. tokens piece at (suc i + j))) first
          ∙ ap (λ (t : List ℕ). tokens piece at (i + 0) ∷ t)
              (view-same left (λ j. tokens piece at (suc i + j)) (λ j. tokens piece at (i + suc j))
                λ j h. ap (tokens piece at) (shift j))
        where
          first : i ≡ i + 0
          first = omega arith

          shift : (j : ℕ) → suc i + j ≡ i + suc j
          shift j = omega arith

  pub collect-view :
      (out : List ℕ) → collect (count + 1) piece 0 out ≡ some (out ++ view n (tokens piece at))
  collect-view out =
      collect-from n 0 (count + 1) 0 out (omega arith) (λ z. omega (arith, z, w.some_left))
        (λ z. sym w.start) (omega (arith, n-le))
      ∙ ap (λ (t : List ℕ). some (out ++ t))
          (view-same n (λ j. tokens piece at (0 + j)) (tokens piece at)
            λ j h. ap (tokens piece at) (from_zero j))
    where
      from_zero : (j : ℕ) → 0 + j ≡ j
      from_zero j = omega arith
