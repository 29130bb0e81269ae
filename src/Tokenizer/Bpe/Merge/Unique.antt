-- ===== src/Tokenizer/Bpe/Merge/Unique.antt =====
-- Merging has one outcome, and always an outcome: src/core/tokenizer/bpe/merge.h.
use native.Mathlib.Decide.{dec_lt}
use mathlib.Core.Option.{some-injective}
use browser_llm.Base.{ℕ, suc, ◌<◌, ◌≡◌, refl, sym, ap, ◌∙◌, subst, some, List, arith, length}
use browser_llm.Tokenizer.Bpe.Table.{Merge}
use browser_llm.Tokenizer.Bpe.Merge.{
  Rules, symbol, merged_at, pair_rank, no_rule, IsBest, Merges, done, step,
}

module _ (rules : Rules) where
  best_one : (xs : List ℕ) (i j : ℕ) → IsBest rules xs i → IsBest rules xs j → i ≡ j
  best_one xs i j p q = elim (dec_lt i j) [
    | yes l ↦ absurd (omega (arith, q.leftmost i l, p.lowest j q.inside))
    | no n ↦ elim (dec_lt j i) [
      | yes l ↦ absurd (omega (arith, p.leftmost j l, q.lowest i p.inside))
      | no k ↦ omega (arith, n, k)
    ]
  ]

  not_done :
      (xs : List ℕ) (i : ℕ)
      → IsBest rules xs i
      → ((j : ℕ) → suc j < length xs → pair_rank rules xs j ≡ no_rule)
      → ⊥
  not_done xs i p d = omega (arith, p.ruled, d i p.inside)

  result_one :
      (xs : List ℕ) (i j : ℕ) (m n : Merge)
      → i ≡ j
      → rules (symbol xs i) (symbol xs (suc i)) ≡ some m
      → rules (symbol xs j) (symbol xs (suc j)) ≡ some n
      → merged_at i m.result xs ≡ merged_at j n.result xs
  result_one xs i j m n e p q =
      ap (λ (t : ℕ). merged_at t m.result xs) e
      ∙ ap (λ (t : Merge). merged_at j t.result xs)
          (some-injective m n
            (sym p ∙ ap (λ (t : ℕ). rules (symbol xs t) (symbol xs (suc t))) e ∙ q))

  -- Two ways to merge a run end in the same tokens.
  pub Merges-unique : (xs ys zs : List ℕ) → Merges rules xs ys → Merges rules xs zs → ys ≡ zs
  Merges-unique _ _ zs (done xs d) q = only_done xs zs d q
    where
      only_done :
          (xs zs : List ℕ)
          → ((j : ℕ) → suc j < length xs → pair_rank rules xs j ≡ no_rule)
          → Merges rules xs zs
          → xs ≡ zs
      only_done _ _ d (done xs e) = refl
      only_done _ _ d (step xs zs j n q f rest) = absurd (not_done xs j q d)
  Merges-unique _ _ zs (step xs ys i m p e more) q =
      same_step xs ys zs i m p e (Merges-unique _ ys zs more) q
    where
      same_step :
          (xs ys zs : List ℕ) (i : ℕ) (m : Merge)
          → IsBest rules xs i
          → rules (symbol xs i) (symbol xs (suc i)) ≡ some m
          → (Merges rules (merged_at i m.result xs) zs → ys ≡ zs)
          → Merges rules xs zs
          → ys ≡ zs
      same_step _ ys _ i m p e go (done xs d) = absurd (not_done xs i p d)
      same_step _ ys _ i m p e go (step xs zs j n q f rest) = go (
          subst (λ ws. Merges rules ws zs) (sym (result_one xs i j m n (best_one xs i j p q) e f))
            rest)
