-- ===== src/Tokenizer/Bpe/Table/Insert.antt =====
-- What `MergeTable::insert` of src/core/tokenizer/bpe/merge_table.cpp does to the map that a table holds.
use browser_llm.Base.{
  ℕ, ◌+◌, ◌^◌, ◌≤◌, ◌<◌, ◌≡◌, ◌≢◌, refl, sym, ap, ◌∙◌, none, some, arith, length, length-set,
  length-replicate, get_or-replicate, count, count-replicate,
}
use browser_llm.Base.Probe.{IsFound, probe_ends}
use browser_llm.Tokenizer.Bpe.Table.{
  Merge, MergeTable, pair_key, empty_key, free_slot, home_slot, table_of, Look, is_free, is_taken,
  insert_look, Inserted, inserted, refused, put, insert,
}
use browser_llm.Tokenizer.Bpe.Table.Wider.{absent, wider-IsTable, insert_takes}
use browser_llm.Tokenizer.Bpe.Table.Invariant.{
  MergeMap, extend, slot_free, slot_at, IsTable, some_free, inside_of, home-lt, eq_false,
  some_not_none,
}

-- A new table holds nothing.
pub table_of-IsTable : (bits : ℕ) → bits ≤ 64 → IsTable (table_of bits) (λ k. none)
table_of-IsTable bits h = record {
  bits = bits;
  few_bits = h;
  sized = length-replicate (2 ^ bits) free_slot;
  shifted = refl;
  counted = omega (
    arith,
    length-replicate (2 ^ bits) free_slot,
    count-replicate slot_free (2 ^ bits) free_slot refl,
  );
  no_empty = refl;
  reached = λ i k u. cc (u, ap slot_free (get_or-replicate (2 ^ bits) i free_slot));
  sound = λ i k u. cc (u, ap slot_free (get_or-replicate (2 ^ bits) i free_slot));
  complete = λ k v e. absurd (some_not_none v (sym e));
}

-- What `insert` answers for a table with a free slot: a pair that the map has is refused, and any other
-- is added to it.
pub data IsInsert (t : MergeTable) (m : MergeMap) (key : ℕ) (merge : Merge)
    : Inserted → Type 0 where
  adds :
      (u : MergeTable)
      → m key ≡ none
      → IsTable u (extend key merge m)
      → length u.slots ≡ length t.slots
      → u.size ≡ t.size + 1
      → IsInsert t m key merge (inserted u)
  refuses : (v : Merge) → m key ≡ some v → IsInsert t m key merge refused

put-IsInsert :
    (t : MergeTable) (m : MergeMap) (w : IsTable t m) (key : ℕ) (merge : Merge) (r : Look) (i : ℕ)
    → key ≢ empty_key
    → IsFound (insert_look key) free_slot t.slots (length t.slots) (home_slot t.shift key) r i
    → IsInsert t m key merge (put t (record { pair = key; merge = merge }) (some (r, i)))
put-IsInsert t m w key merge is_free i ne f =
    adds _ (absent t m w key merge i ne f) (wider-IsTable t m w key merge i ne f)
      (length-set t.slots i _) refl
put-IsInsert t m w key merge is_taken i ne f =
    let (same, used) = insert_takes t m w key (slot_at t i) f.ended in
    refuses (slot_at t i).merge
      (ap m (sym same) ∙ w.sound i (inside_of t m w (insert_look key) key is_taken i f) used)

pub insert-IsInsert :
    (t : MergeTable) (m : MergeMap) (left right : ℕ) (merge : Merge)
    → IsTable t m
    → pair_key left right ≢ empty_key
    → 0 < count slot_free t.slots
    → IsInsert t m (pair_key left right) merge (insert left right merge t)
unfolding insert
insert-IsInsert t m left right merge w ne room =
    let key : ℕ = pair_key left right in
    let (j, inside, free) = some_free t m w room in
    let (r, i, found, f) =
      probe_ends (insert_look key) free_slot t.slots w.bits w.sized (home_slot t.shift key) j
        is_free (home-lt t m w key) inside (rw free refl) in
    rw (eq_false key empty_key ne, found) (put-IsInsert t m w key merge r i ne f)
