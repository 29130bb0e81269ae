-- ===== src/Tokenizer/Bpe/Table/Rules.antt =====
-- What `from_rules` and `from_ranked_rules` of src/core/tokenizer/bpe/merge_table.cpp build, against a
-- search of the list of rules.
use Prim.Native.Nat.{bit_or}
use native.Mathlib.Decide.{ℕ_discrete}
use browser_llm.Base.{
  ℕ, zero, suc, ◌+◌, ◌-◌, ◌*◌, ◌^◌, ◌≤◌, ◌<◌, ◌≡◌, ◌≢◌, inl, inr, refl, sym, ap, ◌∙◌, ◌&&◌, Option,
  none, some, List, [], ◌∷◌, arith, ltb, ◌==◌, if◌then◌else◌, length, All, All-mono, count,
  Bool-cases,
}
use browser_llm.Base.Bits.{pow_pos, pow-add, bit_or_disjoint}
use browser_llm.Base.Words.{u32_max, IsU32, mul64}
use browser_llm.Gguf.Sorting.Laws.{AllPairs}
use browser_llm.Tokenizer.Bpe.Table.{
  Merge, RankedRule, MergeTable, pair_key, empty_key, bits_for, Inserted, Built, built, repeated,
  then_insert, insert_ranked,
}
use browser_llm.Tokenizer.Bpe.Table.Invariant.{
  MergeMap, extend, slot_free, IsTable, eq_true, eq_false, some_not_none,
}
use browser_llm.Tokenizer.Bpe.Table.Insert.{IsInsert, adds, refuses, insert-IsInsert}

abbrev pub key_of : RankedRule → ℕ
key_of r = pair_key r.rule.left r.rule.right

abbrev pub merge_of : RankedRule → Merge
merge_of r = record { rank = r.rank; result = r.rule.result }

-- A pair of 32-bit tokens that is not the pair of two tokens numbered 2^32 - 1.
pub record IsPair (left right : ℕ) : Type 0 where
  pub left_fits : IsU32 left
  pub right_fits : IsU32 right
  pub not_last : ¬ ((left ≡ u32_max) × (right ≡ u32_max))

abbrev pub IsRule : RankedRule → Type 0
IsRule r = IsPair r.rule.left r.rule.right

-- The merge of the first rule for the pair.
abbrev pub lookup_rule : ℕ → ℕ → List RankedRule → Option Merge
lookup_rule left right [] = none
lookup_rule left right (r ∷ rest) =
    if (r.rule.left == left) && (r.rule.right == right)
    then some (merge_of r)
    else lookup_rule left right rest

-- Two rules merge different pairs.
abbrev pub Differ : RankedRule → RankedRule → Type 0
Differ a b = ¬ ((a.rule.left ≡ b.rule.left) × (a.rule.right ≡ b.rule.right))

abbrev pub IsRanked : RankedRule → Type 0
IsRanked r = r.rank ≢ u32_max

pair_key-sum :
    (left right : ℕ) → IsU32 left → IsU32 right → pair_key left right ≡ left * 2 ^ 32 + right
unfolding pair_key
pair_key-sum left right h k =
    ap (λ (t : ℕ). bit_or t right) (small left h) ∙ bit_or_disjoint 32 left right k
  where
    small : (left : ℕ) → IsU32 left → mul64 left (2 ^ 32) ≡ left * 2 ^ 32
    small left h = omega arith

pub pair_key-IsPair : (left right : ℕ) → IsPair left right → pair_key left right ≢ empty_key
pair_key-IsPair left right p e =
    p.not_last
      (omega (arith, pair_key-sum left right p.left_fits p.right_fits, p.left_fits, p.right_fits))

pub pair_key-injective :
    (a b c d : ℕ) → IsPair a b → IsPair c d → pair_key a b ≡ pair_key c d → (a ≡ c) × (b ≡ d)
pair_key-injective a b c d p q e = omega (
  arith,
  pair_key-sum a b p.left_fits p.right_fits,
  pair_key-sum c d q.left_fits q.right_fits,
  p.left_fits,
  p.right_fits,
  q.left_fits,
  q.right_fits,
)

-- The rules put into a map, the first one first.
abbrev pub map_of : List RankedRule → MergeMap → MergeMap
map_of [] m = m
map_of (r ∷ rest) m = map_of rest (extend (key_of r) (merge_of r) m)

abbrev pub first_of : List RankedRule → MergeMap → MergeMap
first_of [] m k = m k
first_of (r ∷ rest) m k = if key_of r == k then some (merge_of r) else first_of rest m k

-- The rules are for different pairs, none of which the map has, and no rank is the reserved one.
pub record IsFresh (m : MergeMap) (rules : List RankedRule) : Type 0 where
  pub unused : All (λ r. m (key_of r) ≡ none) rules
  pub differ : AllPairs (λ a b. key_of a ≢ key_of b) rules
  pub ranked : All IsRanked rules

pub data IsResult (rules : List RankedRule) (t : MergeTable) (m : MergeMap) : Built → Type 0 where
  holds :
      (u : MergeTable)
      → IsFresh m rules
      → IsTable u (map_of rules m)
      → length u.slots ≡ length t.slots
      → u.size ≡ t.size + length rules
      → IsResult rules t m (built u)
  clash : ¬ (IsFresh m rules) → IsResult rules t m repeated

pub IsFresh-rest :
    (r : RankedRule) (rest : List RankedRule) (m : MergeMap)
    → IsFresh m (r ∷ rest)
    → IsFresh (extend (key_of r) (merge_of r) m) rest
IsFresh-rest r rest m f = record {
  unused = both rest f.differ.0 f.unused.1;
  differ = f.differ.1;
  ranked = f.ranked.1;
}
  where
    both :
        (rest : List RankedRule)
        → All (λ a. key_of r ≢ key_of a) rest
        → All (λ a. m (key_of a) ≡ none) rest
        → All (λ a. extend (key_of r) (merge_of r) m (key_of a) ≡ none) rest
    both [] d u = tt
    both (a ∷ more) d u = (rw (eq_false (key_of r) (key_of a) d.0) u.0, both more d.1 u.1)

IsFresh-more :
    (r : RankedRule) (rest : List RankedRule) (m : MergeMap)
    → r.rank ≢ u32_max
    → m (key_of r) ≡ none
    → IsFresh (extend (key_of r) (merge_of r) m) rest
    → IsFresh m (r ∷ rest)
IsFresh-more r rest m ranked unused f = record {
  unused = (unused, All-mono _ _ rest (λ a h. (was a h).1) f.unused);
  differ = (All-mono _ _ rest (λ a h. (was a h).0) f.unused, f.differ);
  ranked = (ranked, f.ranked);
}
  where
    was :
        (a : RankedRule)
        → extend (key_of r) (merge_of r) m (key_of a) ≡ none
        → (key_of r ≢ key_of a) × (m (key_of a) ≡ none)
    was a h = elim (ℕ_discrete (key_of r) (key_of a)) [
      | yes e ↦ cc (rw (eq_true _ _ e) at h)
      | no n ↦ (n, rw (eq_false _ _ n) at h)
    ]

pub some_room :
    (t : MergeTable) (m : MergeMap)
    → IsTable t m
    → t.size < length t.slots
    → 0 < count slot_free t.slots
some_room t m w h = omega (arith, w.counted)

result_more :
    (r : RankedRule) (rest : List RankedRule) (t u : MergeTable) (m : MergeMap) (b : Built)
    → r.rank ≢ u32_max
    → m (key_of r) ≡ none
    → length u.slots ≡ length t.slots
    → u.size ≡ t.size + 1
    → IsResult rest u (extend (key_of r) (merge_of r) m) b
    → IsResult (r ∷ rest) t m b
result_more r rest t u m b ranked unused same size (holds v f w len total) =
    holds v (IsFresh-more r rest m ranked unused f) w (len ∙ same) (omega arith)
result_more r rest t u m b ranked unused same size (clash n) =
    clash (λ f. n (IsFresh-rest r rest m f))

then_insert-IsResult :
    (rest : List RankedRule) (r : RankedRule) (t : MergeTable) (m : MergeMap)
    → r.rank ≢ u32_max
    → ((u : MergeTable)
        → IsTable u (extend (key_of r) (merge_of r) m)
        → u.size + length rest < length u.slots
        → IsResult rest u (extend (key_of r) (merge_of r) m) (insert_ranked rest u))
    → t.size + suc (length rest) < length t.slots
    → (x : Inserted) → IsInsert t m (key_of r) (merge_of r) x
    → IsResult (r ∷ rest) t m (then_insert x λ next. insert_ranked rest next)
then_insert-IsResult rest r t m n more h _ (adds u unused w len size) =
    result_more r rest t u m _ n unused len size (more u w (omega arith))
then_insert-IsResult rest r t m n more h _ (refuses v e) =
    clash (λ f. some_not_none v (sym e ∙ f.unused.0))

pub insert_ranked-IsResult :
    (rules : List RankedRule) (t : MergeTable) (m : MergeMap)
    → All IsRule rules
    → IsTable t m
    → t.size + length rules < length t.slots
    → IsResult rules t m (insert_ranked rules t)
unfolding insert_ranked
insert_ranked-IsResult [] t m p w h =
    holds t (record { unused = tt; differ = tt; ranked = tt }) w refl (omega arith)
insert_ranked-IsResult (r ∷ rest) t m p w h = elim (ℕ_discrete r.rank u32_max) [
  | yes e ↦ rw (eq_true _ _ e) (clash (λ f. f.ranked.0 e))
  | no n ↦ rw (eq_false _ _ n) (
      then_insert-IsResult rest r t m n
        (λ u v k. insert_ranked-IsResult rest u (extend (key_of r) (merge_of r) m) p.1 v k) h _
        (insert-IsInsert t m r.rule.left r.rule.right (merge_of r) w
          (pair_key-IsPair r.rule.left r.rule.right p.0) (some_room t m w (omega arith))))
]

-- Doubling ends, with a power of two that leaves a quarter of the slots free.
pub bits_for-enough :
    (fuel rules slots bits : ℕ)
    → rules < 2 ^ 59
    → slots ≡ 2 ^ bits
    → bits ≤ 60
    → 61 ≤ bits + fuel
    → (b : ℕ) × (bits_for fuel rules slots bits ≡ some b) × (b ≤ 60) × (rules * 4 ≤ 2 ^ b * 3)
unfolding bits_for
bits_for-enough zero rules slots bits h e k f = absurd (omega arith)
bits_for-enough (suc fuel) rules slots bits h e k f =
    elim (Bool-cases (ltb (mul64 slots 3) (mul64 rules 4))) [
      | inr enough ↦ (bits, rw enough refl, k, ground (arith, pow_small bits k))
      | inl more ↦
          let fewer : bits ≤ 59 = room bits k (ground (arith, pow_small bits k)) in
          let (b, found, few, enough) =
            bits_for-enough fuel rules (mul64 slots 2) (bits + 1) h
              (ground (arith, pow_small bits k, double bits)) (omega arith) (omega arith) in
          (b, rw more found, few, enough)
    ]
  where
    pow_small : (bits : ℕ) → bits ≤ 60 → 2 ^ bits ≤ 2 ^ 60
    pow_small bits k = omega (
      arith,
      pow-add bits (60 - bits),
      ap (λ (t : ℕ). 2 ^ t) (whole bits k),
      grow (2 ^ bits) (2 ^ (60 - bits)) (pow_pos (60 - bits)),
    )
      where
        whole : (bits : ℕ) → bits ≤ 60 → bits + (60 - bits) ≡ 60
        whole bits k = omega arith

        grow : (a b : ℕ) → 0 < b → a ≤ a * b
        grow a b h = grind arith

    double : (bits : ℕ) → 2 ^ (bits + 1) ≡ 2 ^ bits * 2
    double bits = pow-add bits 1

    room : (bits : ℕ) → bits ≤ 60 → 2 ^ bits < 2 ^ 60 → bits ≤ 59
    room bits k h = elim (ℕ_discrete bits 60) [
      | yes e ↦ absurd (omega (arith, ap (λ (t : ℕ). 2 ^ t) e))
      | no n ↦ omega arith
    ]
