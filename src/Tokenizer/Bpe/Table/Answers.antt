-- ===== src/Tokenizer/Bpe/Table/Answers.antt =====
-- The table that `from_ranked_rules` of src/core/tokenizer/bpe/merge_table.cpp builds answers as a search
-- of the list of rules does.
use browser_llm.Base.{
  ℕ, ◌+◌, ◌^◌, ◌<◌, ◌≡◌, ◌≢◌, refl, ap, ◌∙◌, ◌&&◌, Option, none, some, List, [], ◌∷◌, arith, ◌==◌,
  if◌then◌else◌, length, replicate, All, All-mono, length-replicate,
}
use browser_llm.Base.Bits.{pow_pos}
use browser_llm.Gguf.Sorting.Laws.{AllPairs}
use browser_llm.Tokenizer.Bpe.Table.{
  Merge, RankedRule, MergeTable, free_slot, pair_key, table_of, Built, built, repeated,
  from_ranked_rules, find,
}
use browser_llm.Tokenizer.Bpe.Table.Invariant.{MergeMap, extend, find-map}
use browser_llm.Tokenizer.Bpe.Table.Insert.{table_of-IsTable}
use browser_llm.Tokenizer.Bpe.Table.Rules.{
  key_of, merge_of, IsPair, IsRule, lookup_rule, Differ, IsRanked, map_of, first_of, IsFresh,
  IsResult, holds, clash, IsFresh-rest, pair_key-IsPair, pair_key-injective, insert_ranked-IsResult,
  bits_for-enough, some_room,
}

first_of-extend :
    (r : RankedRule) (rest : List RankedRule) (m : MergeMap) (k : ℕ)
    → All (λ a. key_of r ≢ key_of a) rest
    → first_of rest (extend (key_of r) (merge_of r) m) k ≡ first_of (r ∷ rest) m k
first_of-extend r [] m k h = refl
first_of-extend r (a ∷ more) m k h = ground (arith, first_of-extend r more m k h.1, h.0)

map_of-first_of :
    (rules : List RankedRule) (m : MergeMap) (k : ℕ)
    → IsFresh m rules
    → map_of rules m k ≡ first_of rules m k
map_of-first_of [] m k f = refl
map_of-first_of (r ∷ rest) m k f =
    map_of-first_of rest (extend (key_of r) (merge_of r) m) k (IsFresh-rest r rest m f)
    ∙ first_of-extend r rest m k f.differ.0

same_test :
    (a b c d : ℕ)
    → IsPair a b
    → IsPair c d
    → (pair_key a b == pair_key c d) ≡ ((a == c) && (b == d))
same_test a b c d p q = ground (arith, pair_key-injective a b c d p q, ap (pair_key a))

first_of-lookup_rule :
    (rules : List RankedRule) (left right : ℕ)
    → All IsRule rules
    → IsPair left right
    → first_of rules (λ k. none) (pair_key left right) ≡ lookup_rule left right rules
first_of-lookup_rule [] left right h p = refl
first_of-lookup_rule (r ∷ rest) left right h p =
    ap (λ b. if b then some (merge_of r) else first_of rest (λ k. none) (pair_key left right))
      (same_test r.rule.left r.rule.right left right h.0 p)
    ∙ ap
        (λ (o : Option Merge).
          if (r.rule.left == left) && (r.rule.right == right) then some (merge_of r) else o)
        (first_of-lookup_rule rest left right h.1 p)

keys-Differ :
    (rules : List RankedRule)
    → All IsRule rules
    → AllPairs Differ rules
    → AllPairs (λ a b. key_of a ≢ key_of b) rules
keys-Differ [] h d = tt
keys-Differ (r ∷ rest) h d = (each rest h.1 d.0, keys-Differ rest h.1 d.1)
  where
    each :
        (rest : List RankedRule)
        → All IsRule rest
        → All (Differ r) rest
        → All (λ b. key_of r ≢ key_of b) rest
    each [] h d = tt
    each (a ∷ more) k d = (λ e. d.0 (pair_key-injective _ _ _ _ h.0 k.0 e), each more k.1 d.1)

pairs-Differ :
    (rules : List RankedRule) → AllPairs (λ a b. key_of a ≢ key_of b) rules → AllPairs Differ rules
pairs-Differ [] d = tt
pairs-Differ (r ∷ rest) d = (
  All-mono _ (Differ r) rest
      (λ a n e. n (ap (λ (t : ℕ). pair_key t r.rule.right) e.0 ∙ ap (pair_key a.rule.left) e.1))
      d.0,
  pairs-Differ rest d.1,
)

-- What the building of a table answers: a table that answers for each pair as the first rule for it in
-- the list says, where no two rules are for one pair and no rank is reserved; else that there is a conflict.
pub data IsAnswer (rules : List RankedRule) : Built → Type 0 where
  answers :
      (u : MergeTable)
      → AllPairs Differ rules
      → All IsRanked rules
      → ((left right : ℕ)
          → IsPair left right
          → find left right u ≡ some (lookup_rule left right rules))
      → IsAnswer rules (built u)
  conflict : ¬ (AllPairs Differ rules × All IsRanked rules) → IsAnswer rules repeated

nothing_used : (rules : List RankedRule) → All (λ r. ◌≡◌ {A = Option Merge} none none) rules
nothing_used [] = tt
nothing_used (r ∷ rest) = (refl, nothing_used rest)

result-IsAnswer :
    (rules : List RankedRule) (t : MergeTable) (b : Built)
    → All IsRule rules
    → t.size + length rules < length t.slots
    → IsResult rules t (λ k. none) b
    → IsAnswer rules b
result-IsAnswer rules t _ h room (holds u f w same total) =
    answers u (pairs-Differ rules f.differ) f.ranked λ left right p.
      find-map u (map_of rules (λ k. none)) w left right (pair_key-IsPair left right p)
        (some_room u (map_of rules (λ k. none)) w (omega arith))
      ∙ ap some (
          map_of-first_of rules (λ k. none) (pair_key left right) f
          ∙ first_of-lookup_rule rules left right h p)
result-IsAnswer rules t _ h room (clash n) =
    conflict λ d.
      n (record { unused = nothing_used rules; differ = keys-Differ rules h d.0; ranked = d.1 })

-- For fewer than 2^59 rules on pairs of 32-bit tokens, none the pair of the two last tokens,
-- from_ranked_rules builds a table when no two rules share a pair and no rank is the reserved one,
-- and refuses otherwise; in a table that is built, find ends for every such pair and gives the rule
-- of the list for that pair, or nothing where there is none.
pub from_ranked_rules-IsAnswer :
    (rules : List RankedRule)
    → All IsRule rules
    → length rules < 2 ^ 59
    → IsAnswer rules (from_ranked_rules rules)
unfolding from_ranked_rules
from_ranked_rules-IsAnswer rules h few =
    let (b, found, small, enough) =
      bits_for-enough 64 (length rules) 16 4 few refl (omega arith) (omega arith) in
    let room : length rules < length (replicate (2 ^ b) free_slot) =
      omega (arith, length-replicate (2 ^ b) free_slot, pow_pos b) in
    rw found (
      result-IsAnswer rules (table_of b) _ h (omega arith) (
        insert_ranked-IsResult rules (table_of b) (λ k. none) h (table_of-IsTable b (omega arith))
          (omega arith)))
