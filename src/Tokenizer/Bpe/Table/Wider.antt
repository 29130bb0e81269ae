-- ===== src/Tokenizer/Bpe/Table/Wider.antt =====
-- A MergeTable with one slot more in use, src/core/tokenizer/bpe/merge_table.cpp.
use native.Mathlib.Decide.{ℕ_discrete}
use mathlib.Core.Option.{some-injective}
use browser_llm.Base.{
  ℕ, ◌+◌, ◌<◌, ◌≡◌, ◌≢◌, refl, sym, ap, ◌∙◌, true, false, none, some, arith, length, set,
  length-set, get_or-set_self, get_or-set_other, count-set,
}
use browser_llm.Base.Probe.{IsFound}
use browser_llm.Base.Probe.Places.{IsReached, IsReached-set, IsReached-found}
use browser_llm.Tokenizer.Bpe.Table.{
  Merge, Slot, MergeTable, empty_key, free_slot, home_slot, is_free, is_taken, insert_look,
}
use browser_llm.Tokenizer.Bpe.Table.Invariant.{
  MergeMap, extend, slot_free, slot_at, IsTable, eq_true, eq_false, some_not_none, missing,
  inside_of,
}

module _ (t : MergeTable) (m : MergeMap) (w : IsTable t m) where
  insert_stops : (key : ℕ) (s : Slot) → s.pair ≡ key → insert_look key s ≢ none
  insert_stops key s e q = ground arith

  insert_passes : (key : ℕ) (s : Slot) → insert_look key s ≡ none → slot_free s ≡ false
  insert_passes key s e = ground arith

  insert_frees : (key : ℕ) (s : Slot) → insert_look key s ≡ some is_free → slot_free s ≡ true
  insert_frees key s e = ground arith

  pub insert_takes :
      (key : ℕ) (s : Slot)
      → insert_look key s ≡ some is_taken
      → (s.pair ≡ key) × (slot_free s ≡ false)
  insert_takes key s e = ground arith

  -- The table with one slot more in use.
  module _ (key : ℕ) (merge : Merge) (i : ℕ) (ne : key ≢ empty_key)
      (f : IsFound
        (insert_look key)
        free_slot
        t.slots
        (length t.slots)
        (home_slot t.shift key)
        is_free
        i) where
    abbrev pub wider : MergeTable
    wider = record t {
      slots = set t.slots i (record { pair = key; merge = merge });
      size = t.size + 1;
    }

    abbrev new_slot : Slot
    new_slot = record { pair = key; merge = merge }

    inside : i < length t.slots
    inside = inside_of t m w (insert_look key) key is_free i f

    was_free : slot_free (slot_at t i) ≡ true
    was_free = insert_frees key (slot_at t i) f.ended

    pub absent : m key ≡ none
    absent = missing t m w (insert_look key) key is_free i ne (insert_stops key) f was_free

    new_used : slot_free new_slot ≡ false
    new_used = eq_false key empty_key ne

    at_new : slot_at wider i ≡ new_slot
    at_new = get_or-set_self t.slots i new_slot free_slot inside

    at_old : (j : ℕ) → j ≢ i → slot_at wider j ≡ slot_at t j
    at_old j n = get_or-set_other t.slots i j new_slot free_slot n

    wider-IsReached :
        (j : ℕ)
        → j < length wider.slots
        → slot_free (slot_at wider j) ≡ false
        → IsReached slot_free free_slot wider.slots (home_slot t.shift (slot_at wider j).pair) j
    wider-IsReached j h u = elim (ℕ_discrete j i) [
      | yes e ↦
          rw (e, at_new)
            (IsReached-found slot_free free_slot t.slots i new_slot inside new_used
              (insert_look key) (home_slot t.shift key) is_free (insert_passes key) f)
      | no n ↦ rw (at_old j n) (
          IsReached-set slot_free free_slot t.slots i new_slot inside new_used _ j (
            w.reached j (omega (arith, length-set t.slots i new_slot))
              (ap slot_free (sym (at_old j n)) ∙ u)))
    ]

    wider_sound :
        (j : ℕ)
        → j < length wider.slots
        → slot_free (slot_at wider j) ≡ false
        → extend key merge m (slot_at wider j).pair ≡ some (slot_at wider j).merge
    wider_sound j h u = elim (ℕ_discrete j i) [
      | yes e ↦ rw (e, at_new) (rw (eq_true key key refl) refl)
      | no n ↦
          let old =
            w.sound j (omega (arith, length-set t.slots i new_slot))
              (ap slot_free (sym (at_old j n)) ∙ u) in
          let differ : key ≢ (slot_at t j).pair = λ q. cc (absent, old, ap m q) in
          rw (at_old j n) (rw (eq_false key _ differ) old)
    ]

    wider_complete :
        (k : ℕ) (v : Merge)
        → extend key merge m k ≡ some v
        → (j : ℕ) × (j < length wider.slots)
          × ((slot_at wider j).pair ≡ k)
          × ((slot_at wider j).merge ≡ v)
    wider_complete k v e = elim (ℕ_discrete key k) [
      | yes q ↦ (
        i,
        omega (arith, length-set t.slots i new_slot, inside),
        ap (λ (s : Slot). s.pair) at_new ∙ q,
        ap (λ (s : Slot). s.merge) at_new
            ∙ some-injective merge v (sym (rw (eq_true key k q) refl) ∙ e),
      )
      | no n ↦
          let old : m k ≡ some v = rw (eq_false key k n) at e in
          let (j, h, same, value) = w.complete k v old in
          let held : k ≢ empty_key = λ p. some_not_none v (sym old ∙ ap m p ∙ w.no_empty) in
          let used : slot_free (slot_at t j) ≡ false = eq_false _ _ (λ p. held (sym same ∙ p)) in
          let apart : j ≢ i = λ q. cc (was_free, used, ap (λ (l : ℕ). slot_free (slot_at t l)) q) in
          (
            j,
            omega (arith, length-set t.slots i new_slot, h),
            ap (λ (s : Slot). s.pair) (at_old j apart) ∙ same,
            ap (λ (s : Slot). s.merge) (at_old j apart) ∙ value,
          )
    ]

    pub wider-IsTable : IsTable wider (extend key merge m)
    wider-IsTable = record {
      bits = w.bits;
      few_bits = w.few_bits;
      sized = length-set t.slots i new_slot ∙ w.sized;
      shifted = w.shifted;
      counted = omega (
        arith,
        w.counted,
        length-set t.slots i new_slot,
        count-set slot_free t.slots i new_slot free_slot inside was_free new_used,
      );
      no_empty = rw (eq_false key empty_key ne) w.no_empty;
      reached = wider-IsReached;
      sound = wider_sound;
      complete = wider_complete;
    }
