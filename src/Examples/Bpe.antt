-- ===== src/Examples/Bpe.antt =====
-- A few merge rules, their table, and a run of symbols merged by them.
use browser_llm.Base.{
  ◌≡◌, refl, ℕ, zero, suc, ◌&&◌, none, some, List, [], ◌∷◌, ◌++◌, arith, ◌==◌, if◌then◌else◌,
}
use browser_llm.Tokenizer.Bpe.Table.{MergeRule, RankedRule, from_rules, from_ranked_rules}
use browser_llm.Tokenizer.Bpe.Table.Answers.{IsAnswer, from_ranked_rules-IsAnswer}
use browser_llm.Tokenizer.Bpe.Table.Places.{IsListed, from_rules-IsListed}
use browser_llm.Tokenizer.Bpe.Merge.{Rules, AreRanked, IsOutcome}
use browser_llm.Tokenizer.Bpe.Short.{merge_short, rounds, look_all, look_up, best_of, close}
use browser_llm.Tokenizer.Bpe.Long.{
  merge, merge_long, long_rounds, consider_all, consider, take_least, unlink, collect,
}
use browser_llm.Tokenizer.Bpe.Long.Result.{merge-IsOutcome}

abbrev rule : ℕ → ℕ → ℕ → MergeRule
rule l r to = record { left = l; right = r; result = to }

abbrev two_rules : List MergeRule
two_rules = rule 1 2 3 ∷ rule 3 3 4 ∷ []

abbrev two_ranked : List RankedRule
two_ranked = record { rule = rule 1 2 3; rank = 7 } ∷ record { rule = rule 3 3 4; rank = 7 } ∷ []

from_ranked_rules-IsAnswer_example : IsAnswer two_ranked (from_ranked_rules two_ranked)
from_ranked_rules-IsAnswer_example =
    from_ranked_rules-IsAnswer two_ranked
      (
        record {
          left_fits = omega arith;
          right_fits = omega arith;
          not_last = λ h. omega (arith, h.0);
        },
        (
          record {
            left_fits = omega arith;
            right_fits = omega arith;
            not_last = λ h. omega (arith, h.0);
          },
          tt,
        ),
      )
      (omega arith)

from_rules-IsListed_example : IsListed two_rules (from_rules two_rules)
from_rules-IsListed_example =
    from_rules-IsListed two_rules
      (
        record {
          left_fits = omega arith;
          right_fits = omega arith;
          not_last = λ h. omega (arith, h.0);
        },
        (
          record {
            left_fits = omega arith;
            right_fits = omega arith;
            not_last = λ h. omega (arith, h.0);
          },
          tt,
        ),
      )
      (omega arith)

-- 1 and 2 merge into 3 first, then two 3s into 4.
abbrev some_rules : Rules
some_rules l r =
    if (l == 1) && (r == 2)
    then some (record { rank = 0; result = 3 })
    else if (l == 3) && (r == 3)
    then some (record { rank = 1; result = 4 })
    else none

some_rules-AreRanked : AreRanked some_rules
some_rules-AreRanked l r m e = ground arith

merged_run : merge some_rules (1 ∷ 2 ∷ 1 ∷ 2 ∷ 1 ∷ []) (9 ∷ []) ≡ some (9 ∷ 4 ∷ 1 ∷ [])
unfolding merge merge_short rounds look_all look_up best_of close
merged_run = refl

-- The heap merges the same symbols to the same tokens.
merged_long_run : merge_long some_rules (1 ∷ 2 ∷ 1 ∷ 2 ∷ 1 ∷ []) (9 ∷ []) ≡ some (9 ∷ 4 ∷ 1 ∷ [])
unfolding merge_long long_rounds consider_all consider take_least unlink collect
merged_long_run = refl

abbrev ones_and_twos : ℕ → List ℕ
ones_and_twos zero = []
ones_and_twos (suc n) = 1 ∷ 2 ∷ ones_and_twos n

-- A piece of 80 symbols, which is a long one.
merge-IsOutcome_example :
    (merged : List ℕ) × (merge some_rules (ones_and_twos 40) (9 ∷ []) ≡ some ((9 ∷ []) ++ merged))
    × IsOutcome some_rules (ones_and_twos 40) merged
merge-IsOutcome_example =
    merge-IsOutcome some_rules some_rules-AreRanked (ones_and_twos 40) (9 ∷ []) (omega arith)
