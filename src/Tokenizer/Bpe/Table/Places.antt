-- ===== src/Tokenizer/Bpe/Table/Places.antt =====
-- The table that `from_rules` of src/core/tokenizer/bpe/merge_table.cpp builds: a rule's rank is its place.
use mathlib.Core.Option.{some-injective}
use browser_llm.Base.{
  ℕ, zero, suc, ◌+◌, ◌-◌, ◌%◌, ◌^◌, ◌<◌, ◌≡◌, ◌≢◌, refl, sym, ap, ◌∙◌, subst, true, false, ◌&&◌,
  Option, none, some, List, [], ◌∷◌, arith, ◌==◌, length, get_elem?, All,
}
use browser_llm.Gguf.Sorting.Laws.{AllPairs}
use browser_llm.Tokenizer.Bpe.Table.{
  MergeRule, Merge, RankedRule, MergeTable, table_of, bits_for, Inserted, inserted, refused, lost,
  insert, Built, built, repeated, then_insert, insert_rules, from_rules, insert_ranked, with_bits,
  from_ranked_rules, find,
}
use browser_llm.Tokenizer.Bpe.Table.Invariant.{eq_false}
use browser_llm.Tokenizer.Bpe.Table.Rules.{IsPair, lookup_rule, Differ, IsRanked}
use browser_llm.Tokenizer.Bpe.Table.Answers.{
  IsAnswer, answers, conflict, from_ranked_rules-IsAnswer,
}

-- The rules with their places as ranks.
abbrev ranked_from : ℕ → List MergeRule → List RankedRule
ranked_from rank [] = []
ranked_from rank (rule ∷ rest) = record { rule = rule; rank = rank } ∷ ranked_from (suc rank) rest

-- The rule is for another pair of tokens.
abbrev IsElsewhere : ℕ → ℕ → MergeRule → Type 0
IsElsewhere left right r = ¬ ((left ≡ r.left) × (right ≡ r.right))

-- No two places hold rules for one pair.
abbrev pub IsDistinct : List MergeRule → Type 0
IsDistinct rules =
    (i j : ℕ) (r s : MergeRule)
    → get_elem? rules i ≡ some r
    → get_elem? rules j ≡ some s
    → r.left ≡ s.left
    → r.right ≡ s.right
    → i ≡ j

-- What the building of a table from a list of rules answers: a table where a rule's pair has the rule's
-- place and result and a pair of no rule has nothing, or that two rules are for one pair.
pub data IsListed (rules : List MergeRule) : Built → Type 0 where
  listed :
      (u : MergeTable)
      → IsDistinct rules
      → ((i : ℕ) (r : MergeRule)
          → get_elem? rules i ≡ some r
          → find r.left r.right u ≡ some (some (record { rank = i; result = r.result })))
      → ((left right : ℕ)
          → IsPair left right
          → All (IsElsewhere left right) rules
          → find left right u ≡ some none)
      → IsListed rules (built u)
  doubled : ¬ IsDistinct rules → IsListed rules repeated

then_insert-same :
    (x : Inserted) (f g : MergeTable → Built)
    → ((t : MergeTable) → f t ≡ g t)
    → then_insert x f ≡ then_insert x g
then_insert-same (inserted t) f g h = h t
then_insert-same refused f g h = refl
then_insert-same lost f g h = refl

insert_rules-insert_ranked :
    (rank : ℕ) (rules : List MergeRule) (t : MergeTable)
    → rank + length rules < 2 ^ 32
    → insert_rules rank rules t ≡ insert_ranked (ranked_from rank rules) t
unfolding insert_rules insert_ranked
insert_rules-insert_ranked rank [] t h = refl
insert_rules-insert_ranked rank (r ∷ rest) t h =
    let ranked : rank ≢ 2 ^ 32 - 1 = omega (arith, h) in
    let same : rank % 2 ^ 32 ≡ rank = omega (arith, h) in
    rw (same, eq_false _ _ ranked)
      (then_insert-same (insert r.left r.right (record { rank = rank; result = r.result }) t) _ _
        λ u. insert_rules-insert_ranked (suc rank) rest u (omega (arith, h)))

length-ranked_from :
    (rank : ℕ) (rules : List MergeRule) → length (ranked_from rank rules) ≡ length rules
length-ranked_from rank [] = refl
length-ranked_from rank (rule ∷ rest) = ap suc (length-ranked_from (suc rank) rest)

ranked_from-IsRanked :
    (rank : ℕ) (rules : List MergeRule)
    → rank + length rules < 2 ^ 32
    → All IsRanked (ranked_from rank rules)
ranked_from-IsRanked rank [] h = tt
ranked_from-IsRanked rank (rule ∷ rest) h =
    (omega (arith, h), ranked_from-IsRanked (suc rank) rest (omega (arith, h)))

module _ (Q : MergeRule → Type 0) where
  All-ranked_from :
      (rank : ℕ) (rules : List MergeRule)
      → All Q rules
      → All (λ (r : RankedRule). Q r.rule) (ranked_from rank rules)
  All-ranked_from rank [] h = tt
  All-ranked_from rank (rule ∷ rest) h = (h.0, All-ranked_from (suc rank) rest h.1)

  each_place :
      (rules : List MergeRule)
      → ((i : ℕ) (r : MergeRule) → get_elem? rules i ≡ some r → Q r)
      → All Q rules
  each_place [] h = tt
  each_place (rule ∷ rest) h = (h 0 rule refl, each_place rest λ i r e. h (suc i) r e)

  ranked_place :
      (rank : ℕ) (rules : List MergeRule) (i : ℕ) (r : MergeRule)
      → All (λ (r : RankedRule). Q r.rule) (ranked_from rank rules)
      → get_elem? rules i ≡ some r
      → Q r
  ranked_place rank [] i r h e = cc
  ranked_place rank (rule ∷ rest) zero r h e = subst Q (some-injective rule r e) h.0
  ranked_place rank (rule ∷ rest) (suc i) r h e = ranked_place (suc rank) rest i r h.1 e

IsDistinct-Differ :
    (rank : ℕ) (rules : List MergeRule)
    → IsDistinct rules
    → AllPairs Differ (ranked_from rank rules)
IsDistinct-Differ rank [] d = tt
IsDistinct-Differ rank (rule ∷ rest) d = (
  All-ranked_from (IsElsewhere rule.left rule.right) (suc rank) rest (
      each_place (IsElsewhere rule.left rule.right) rest
        λ i r e q. absurd (omega (arith, d 0 (suc i) rule r refl e q.0 q.1))),
  IsDistinct-Differ (suc rank) rest λ i j r s e k p q. omega (arith, d (suc i) (suc j) r s e k p q),
)

Differ-IsDistinct :
    (rank : ℕ) (rules : List MergeRule)
    → AllPairs Differ (ranked_from rank rules)
    → IsDistinct rules
Differ-IsDistinct rank [] d i j r s e k p q = cc
Differ-IsDistinct rank (rule ∷ rest) d zero zero r s e k p q = refl
Differ-IsDistinct rank (rule ∷ rest) d zero (suc j) r s e k p q =
    let same = some-injective rule r e in
    absurd (
      ranked_place (IsElsewhere rule.left rule.right) (suc rank) rest j s d.0 k
        (ap (λ (x : MergeRule). x.left) same ∙ p, ap (λ (x : MergeRule). x.right) same ∙ q))
Differ-IsDistinct rank (rule ∷ rest) d (suc i) zero r s e k p q =
    let same = some-injective rule s k in
    absurd (
      ranked_place (IsElsewhere rule.left rule.right) (suc rank) rest i r d.0 e
        (ap (λ (x : MergeRule). x.left) same ∙ sym p, ap (λ (x : MergeRule). x.right) same ∙ sym q))
Differ-IsDistinct rank (rule ∷ rest) d (suc i) (suc j) r s e k p q =
    ap suc (Differ-IsDistinct (suc rank) rest d.1 i j r s e k p q)

other_pair : (a b c d : ℕ) → ¬ ((a ≡ c) × (b ≡ d)) → ((a == c) && (b == d)) ≡ false
other_pair a b c d h = ground (arith, h)

abbrev with_rank : ℕ → MergeRule → Merge
with_rank n r = record { rank = n; result = r.result }

lookup_rule-place :
    (rank : ℕ) (rules : List MergeRule) (i n : ℕ) (r : MergeRule)
    → AllPairs Differ (ranked_from rank rules)
    → get_elem? rules i ≡ some r
    → rank + i ≡ n
    → lookup_rule r.left r.right (ranked_from rank rules)
      ≡ some (record { rank = n; result = r.result })
lookup_rule-place rank [] i n r d e h = cc
lookup_rule-place rank (rule ∷ rest) zero n r d e h =
    let own : ((rule.left == rule.left) && (rule.right == rule.right)) ≡ true = ground arith in
    let first : rank ≡ n = omega (arith, h) in
    subst
      (λ (x : MergeRule).
        lookup_rule x.left x.right (ranked_from rank (rule ∷ rest))
        ≡ some (record { rank = n; result = x.result }))
      (some-injective rule r e) (rw own (ap (λ (k : ℕ). some (with_rank k rule)) first))
lookup_rule-place rank (rule ∷ rest) (suc i) n r d e h =
    let elsewhere = ranked_place (IsElsewhere rule.left rule.right) (suc rank) rest i r d.0 e in
    rw (other_pair rule.left rule.right r.left r.right elsewhere)
      (lookup_rule-place (suc rank) rest i n r d.1 e (omega (arith, h)))

lookup_rule-none :
    (rank : ℕ) (rules : List MergeRule) (left right : ℕ)
    → All (IsElsewhere left right) rules
    → lookup_rule left right (ranked_from rank rules) ≡ none
lookup_rule-none rank [] left right h = refl
lookup_rule-none rank (rule ∷ rest) left right h =
    rw (other_pair rule.left rule.right left right λ q. h.0 (sym q.0, sym q.1))
      (lookup_rule-none (suc rank) rest left right h.1)

answer-IsListed :
    (rules : List MergeRule) (b : Built)
    → All (λ r. IsPair r.left r.right) rules
    → length rules < 2 ^ 32
    → IsAnswer (ranked_from 0 rules) b
    → IsListed rules b
answer-IsListed rules _ h few (answers u d ranked found) =
    listed u (Differ-IsDistinct 0 rules d)
      (λ i r e.
        found r.left r.right (
          ranked_place (λ (m : MergeRule). IsPair m.left m.right) 0 rules i r
            (All-ranked_from (λ (m : MergeRule). IsPair m.left m.right) 0 rules h) e)
        ∙ ap some (lookup_rule-place 0 rules i i r d e (omega arith)))
      λ left right p other. found left right p ∙ ap some (lookup_rule-none 0 rules left right other)
answer-IsListed rules _ h few (conflict n) =
    doubled λ d. n (IsDistinct-Differ 0 rules d, ranked_from-IsRanked 0 rules (omega (arith, few)))

from_rules-from_ranked_rules :
    (rules : List MergeRule)
    → length rules < 2 ^ 32
    → from_ranked_rules (ranked_from 0 rules) ≡ from_rules rules
unfolding from_rules from_ranked_rules
from_rules-from_ranked_rules rules h =
    ap
      (λ (n : ℕ). with_bits (bits_for 64 n 16 4) λ table. insert_ranked (ranked_from 0 rules) table)
      (length-ranked_from 0 rules)
    ∙ by_bits (bits_for 64 (length rules) 16 4)
  where
    by_bits :
        (o : Option ℕ)
        → with_bits o (λ table. insert_ranked (ranked_from 0 rules) table)
          ≡ with_bits o (λ table. insert_rules 0 rules table)
    by_bits none = refl
    by_bits (some b) = sym (insert_rules-insert_ranked 0 rules (table_of b) (omega (arith, h)))

-- For fewer than 2^32 rules on pairs of 32-bit tokens, none the pair of the two last tokens,
-- from_rules builds a table when no two places of the list hold rules for one pair, and refuses
-- otherwise; in a table that is built, find gives for the pair of the rule at a place that place as
-- the rank and the rule's result, and nothing for a pair of such tokens that no rule is for.
pub from_rules-IsListed :
    (rules : List MergeRule)
    → All (λ r. IsPair r.left r.right) rules
    → length rules < 2 ^ 32
    → IsListed rules (from_rules rules)
from_rules-IsListed rules h few = subst (IsListed rules) (from_rules-from_ranked_rules rules few) (
    answer-IsListed rules (from_ranked_rules (ranked_from 0 rules)) h few (
      from_ranked_rules-IsAnswer (ranked_from 0 rules)
        (All-ranked_from (λ (m : MergeRule). IsPair m.left m.right) 0 rules h)
        (omega (arith, few, length-ranked_from 0 rules))))
