-- ===== src/Tokenizer/Bpe/Table.antt =====
-- The merge rules of a BPE model, src/core/tokenizer/bpe/merge_table.h and merge_table.cpp: a hash table
-- with open addressing. A token is its 32-bit number, and `size_t` has 64 bits.
pub mod Invariant
pub mod Wider
pub mod Insert
pub mod Rules
pub mod Answers
pub mod Places
use Prim.Native.Nat.{bit_or}
use browser_llm.Base.{
  ℕ, zero, suc, ◌+◌, ◌-◌, ◌*◌, ◌/◌, ◌%◌, ◌^◌, Bool, true, false, Option, none, some, List, [], ◌∷◌,
  ltb, ◌==◌, if◌then◌else◌, length, get_or, set, replicate,
}
use browser_llm.Base.Words.{u32_max, mul64}
use browser_llm.Base.Probe.{probe}

pub record MergeRule : Type 0 where
  pub left : ℕ
  pub right : ℕ
  pub result : ℕ

pub record Merge : Type 0 where
  pub rank : ℕ
  pub result : ℕ

pub record RankedRule : Type 0 where
  pub rule : MergeRule
  pub rank : ℕ

-- The left token in the high 32 bits, the right one in the low.
unfoldable pub pair_key : ℕ → ℕ → ℕ
pair_key left right = bit_or (mul64 left (2 ^ 32)) right

-- The key of a free slot.
abbrev pub empty_key : ℕ
empty_key = 2 ^ 64 - 1

abbrev pub golden : ℕ
golden = 0x9E3779B97F4A7C15

pub record Slot : Type 0 where
  pub pair : ℕ
  pub merge : Merge

abbrev pub free_slot : Slot
free_slot = record { pair = empty_key; merge = record { rank = 0; result = 0 } }

pub record MergeTable : Type 0 where
  pub slots : List Slot
  pub size : ℕ
  pub shift : ℕ

abbrev pub default_table : MergeTable
default_table = record { slots = []; size = 0; shift = 64 }

-- The loop that doubles the slots until they are at most three quarters full, on fuel.
unfoldable pub bits_for : ℕ → ℕ → ℕ → ℕ → Option ℕ
bits_for zero rules slots bits = none
bits_for (suc fuel) rules slots bits =
    let more : Option ℕ = bits_for fuel rules (mul64 slots 2) (bits + 1) in
    if ltb (mul64 slots 3) (mul64 rules 4) then more else some bits

abbrev pub table_of : ℕ → MergeTable
table_of bits = record { slots = replicate (2 ^ bits) free_slot; size = 0; shift = 64 - bits }

abbrev pub home_slot : ℕ → ℕ → ℕ
home_slot shift key = mul64 key golden / 2 ^ shift

pub data Look : Type 0 where
  is_free : Look
  is_taken : Look

-- What `insert` does at a slot: it ends at a free one and at the pair's own.
abbrev pub insert_look : ℕ → Slot → Option Look
insert_look key slot =
    if slot.pair == empty_key
    then some is_free
    else if slot.pair == key
    then some is_taken
    else none

-- What `find` does at a slot.
abbrev pub find_look : ℕ → Slot → Option (Option Merge)
find_look key slot =
    if slot.pair == key
    then some (some slot.merge)
    else if slot.pair == empty_key
    then some none
    else none

-- The answer of `insert`, with the table where it is `true`. `lost` is no answer of the source: the
-- search found no slot to end at.
pub data Inserted : Type 0 where
  inserted : MergeTable → Inserted
  refused : Inserted
  lost : Inserted

abbrev pub put : MergeTable → Slot → Option (Look × ℕ) → Inserted
put table slot none = lost
put table slot (some (is_taken, at)) = refused
put table slot (some (is_free, at)) =
    inserted (record table { slots = set table.slots at slot; size = table.size + 1 })

unfoldable pub insert : ℕ → ℕ → Merge → MergeTable → Inserted
insert left right merge table =
    if pair_key left right == empty_key
    then refused
    else put table (record { pair = pair_key left right; merge = merge })
        (probe (insert_look (pair_key left right)) free_slot table.slots (length table.slots)
          (home_slot table.shift (pair_key left right)))

-- The answer of `from_rules` and `from_ranked_rules`. `unbuilt` is no answer of the source.
pub data Built : Type 0 where
  built : MergeTable → Built
  repeated : Built
  unbuilt : Built

abbrev pub then_insert : Inserted → (MergeTable → Built) → Built
then_insert (inserted table) f = f table
then_insert refused f = repeated
then_insert lost f = unbuilt

-- The loop of `from_rules` from number `rank` on; the number is cast to 32 bits.
unfoldable pub insert_rules : ℕ → List MergeRule → MergeTable → Built
insert_rules rank [] table = built table
insert_rules rank (r ∷ rest) table =
    then_insert (insert r.left r.right (record { rank = rank % 2 ^ 32; result = r.result }) table)
      λ next. insert_rules (suc rank) rest next

abbrev pub with_bits : Option ℕ → (MergeTable → Built) → Built
with_bits none f = unbuilt
with_bits (some bits) f = f (table_of bits)

unfoldable pub from_rules : List MergeRule → Built
from_rules rules = with_bits (bits_for 64 (length rules) 16 4) λ table. insert_rules 0 rules table

-- The loop of `from_ranked_rules` refuses the rank that stands for no rule.
unfoldable pub insert_ranked : List RankedRule → MergeTable → Built
insert_ranked [] table = built table
insert_ranked (r ∷ rest) table =
    let next : Built =
      then_insert
        (insert r.rule.left r.rule.right (record { rank = r.rank; result = r.rule.result }) table)
        λ next. insert_ranked rest next in
    if r.rank == u32_max then repeated else next

unfoldable pub from_ranked_rules : List RankedRule → Built
from_ranked_rules rules =
    with_bits (bits_for 64 (length rules) 16 4) λ table. insert_ranked rules table

abbrev pub found_merge : Option (Option Merge × ℕ) → Option (Option Merge)
found_merge none = none
found_merge (some (m, at)) = some m

abbrev pub is_nil : List Slot → Bool
is_nil [] = true
is_nil (s ∷ rest) = false

-- `find`; the outer `none` is a search with no end.
unfoldable pub find : ℕ → ℕ → MergeTable → Option (Option Merge)
find left right table =
    if is_nil table.slots
    then some none
    else found_merge (
        probe (find_look (pair_key left right)) free_slot table.slots (length table.slots)
          (home_slot table.shift (pair_key left right)))
