-- ===== src/Tokenizer/Bpe/Merge.antt =====
-- The merge step of BPE, src/core/tokenizer/bpe/merge.h: what merging is, for a run of symbols and the
-- rules, independent of how merge.cpp does it.
pub mod Unique
use browser_llm.Base.{
  ℕ, zero, suc, ◌+◌, ◌≤◌, ◌<◌, ◌≡◌, Option, none, some, List, [], ◌∷◌, ◌++◌, length, get_or, take,
  drop,
}
use browser_llm.Base.Words.{u32_max}
use browser_llm.Tokenizer.Bpe.Table.{Merge}

-- `merges.find`, for a table in which it ends.
abbrev pub Rules : Type 0
Rules = ℕ → ℕ → Option Merge

-- The rank of a pair with no rule, above every real rank.
abbrev pub no_rule : ℕ
no_rule = u32_max

abbrev pub rank_or_none : Option Merge → ℕ
rank_or_none none = no_rule
rank_or_none (some m) = m.rank

-- Every rule's rank is below the reserved one, as in every table that is built.
abbrev pub AreRanked : Rules → Type 0
AreRanked rules = (left right : ℕ) (m : Merge) → rules left right ≡ some m → m.rank < no_rule

abbrev pub symbol : List ℕ → ℕ → ℕ
symbol xs i = get_or xs i 0

-- The pair at `i` replaced by one token.
abbrev pub merged_at : ℕ → ℕ → List ℕ → List ℕ
merged_at i token xs = take i xs ++ (token ∷ drop (suc (suc i)) xs)

module _ (rules : Rules) where
  abbrev pub pair_rank : List ℕ → ℕ → ℕ
  pair_rank xs i = rank_or_none (rules (symbol xs i) (symbol xs (suc i)))

  -- The pair at `i` has a rule, the lowest rank of all pairs, and a lower one than each pair to its left.
  pub record IsBest (xs : List ℕ) (i : ℕ) : Type 0 where
    pub inside : suc i < length xs
    pub ruled : pair_rank xs i < no_rule
    pub lowest : (j : ℕ) → suc j < length xs → pair_rank xs i ≤ pair_rank xs j
    pub leftmost : (j : ℕ) → j < i → pair_rank xs i < pair_rank xs j

  -- Merging: the best pair is replaced by its rule's token, until no pair has a rule.
  pub data Merges : List ℕ → List ℕ → Type 0 where
    done : (xs : List ℕ) → ((j : ℕ) → suc j < length xs → pair_rank xs j ≡ no_rule) → Merges xs xs
    step :
        (xs zs : List ℕ) (i : ℕ) (m : Merge)
        → IsBest xs i
        → rules (symbol xs i) (symbol xs (suc i)) ≡ some m
        → Merges (merged_at i m.result xs) zs
        → Merges xs zs

  -- Merging ends in these tokens, and in no others.
  pub record IsOutcome (xs merged : List ℕ) : Type 0 where
    pub reached : Merges xs merged
    pub only : (zs : List ℕ) → Merges xs zs → zs ≡ merged
