-- ===== src/Tokenizer/Bpe/Table/Invariant.antt =====
-- What the slots of a MergeTable hold, as a map from pair keys to merges: src/core/tokenizer/bpe/merge_table.cpp.
use native.Mathlib.Nat.{div-lt_iff_lt-mul, mod-lt}
use native.Mathlib.Decide.{ℕ_discrete}
use mathlib.Core.Option.{some-injective}
use browser_llm.Base.{
  ℕ, ◌+◌, ◌-◌, ◌^◌, ◌≤◌, ◌<◌, ◌≡◌, ◌≢◌, inl, inr, refl, sym, ap, ◌∙◌, Bool, true, false, Option,
  none, some, List, [], ◌∷◌, arith, ◌==◌, ==_iff, if◌then◌else◌, length, get_or, count, count-found,
  Bool-cases, Option-cases,
}
use browser_llm.Base.Bits.{pow_pos, pow-add}
use browser_llm.Base.Probe.{IsFound, probe_ends}
use browser_llm.Base.Probe.Places.{IsReached, missed_none}
use browser_llm.Tokenizer.Bpe.Table.{
  Merge, Slot, MergeTable, pair_key, empty_key, free_slot, home_slot, find_look, find, is_nil,
}

abbrev pub MergeMap : Type 0
MergeMap = ℕ → Option Merge

abbrev pub extend : ℕ → Merge → MergeMap → MergeMap
extend key merge m k = if key == k then some merge else m k

abbrev pub slot_free : Slot → Bool
slot_free slot = slot.pair == empty_key

abbrev pub slot_at : MergeTable → ℕ → Slot
slot_at t i = get_or t.slots i free_slot

-- The table holds exactly the map, and every pair is reached from its home over slots in use.
pub record IsTable (t : MergeTable) (m : MergeMap) : Type 0 where
  pub bits : ℕ
  pub few_bits : bits ≤ 64
  pub sized : length t.slots ≡ 2 ^ bits
  pub shifted : t.shift ≡ 64 - bits
  pub counted : count slot_free t.slots + t.size ≡ length t.slots
  pub no_empty : m empty_key ≡ none
  pub reached :
      (i : ℕ)
      → i < length t.slots
      → slot_free (slot_at t i) ≡ false
      → IsReached slot_free free_slot t.slots (home_slot t.shift (slot_at t i).pair) i
  pub sound :
      (i : ℕ)
      → i < length t.slots
      → slot_free (slot_at t i) ≡ false
      → m (slot_at t i).pair ≡ some (slot_at t i).merge
  pub complete :
      (k : ℕ) (v : Merge)
      → m k ≡ some v
      → (i : ℕ) × (i < length t.slots) × ((slot_at t i).pair ≡ k) × ((slot_at t i).merge ≡ v)

pub eq_true : (a b : ℕ) → a ≡ b → (a == b) ≡ true
eq_true a b e = (==_iff a b).1 e

pub eq_false : (a b : ℕ) → a ≢ b → (a == b) ≡ false
eq_false a b n = ground arith

pub some_not_none : (v : Merge) → ¬ (some v ≡ none)
some_not_none v e = cc

home_slot-lt : (bits key : ℕ) → bits ≤ 64 → home_slot (64 - bits) key < 2 ^ bits
home_slot-lt bits key h =
    (div-lt_iff_lt-mul (pow_pos (64 - bits))).1
      (omega (arith, pow-add bits (64 - bits), ap (λ (t : ℕ). 2 ^ t) (whole bits h)))
  where
    whole : (bits : ℕ) → bits ≤ 64 → bits + (64 - bits) ≡ 64
    whole bits h = omega arith

module _ (t : MergeTable) (m : MergeMap) (w : IsTable t m) where
  pub home-lt : (key : ℕ) → home_slot t.shift key < length t.slots
  home-lt key = omega (
    arith,
    home_slot-lt w.bits key w.few_bits,
    w.sized,
    ap (λ (s : ℕ). home_slot s key) w.shifted,
  )

  not_nil : is_nil t.slots ≡ false
  not_nil = has_slots t.slots (omega (arith, w.sized, pow_pos w.bits))
    where
      has_slots : (slots : List Slot) → 0 < length slots → is_nil slots ≡ false
      has_slots [] h = absurd (omega arith)
      has_slots (s ∷ rest) h = refl

  -- A search from the home of a key that ends at a free slot, and would end at the key's own: there is none.
  pub missing :
      {R : Type 0} (look : Slot → Option R) (key : ℕ) (r : R) (i : ℕ)
      → key ≢ empty_key
      → ((s : Slot) → s.pair ≡ key → look s ≢ none)
      → IsFound look free_slot t.slots (length t.slots) (home_slot t.shift key) r i
      → slot_free (slot_at t i) ≡ true
      → m key ≡ none
  missing look key r i ne stops f free = elim (Option-cases (m key)) [
    | inl e ↦ e
    | inr (v, e) ↦
        let (j, inside, same, _) = w.complete key v e in
        let used : slot_free (slot_at t j) ≡ false = eq_false _ _ (λ q. ne (sym same ∙ q)) in
        let there : IsReached slot_free free_slot t.slots (home_slot t.shift key) j =
          rw same at (w.reached j inside used) in
        absurd
          (stops _ same (missed_none slot_free free_slot t.slots look _ r i j f free there used))
  ]

  find_stops : (key : ℕ) (s : Slot) → s.pair ≡ key → find_look key s ≢ none
  find_stops key s e q = ground arith

  find_answer :
      (key : ℕ) (r : Option Merge) (i : ℕ)
      → key ≢ empty_key
      → i < length t.slots
      → IsFound (find_look key) free_slot t.slots (length t.slots) (home_slot t.shift key) r i
      → r ≡ m key
  find_answer key r i ne inside f = elim (ℕ_discrete (slot_at t i).pair key) [
    | yes same ↦
        let hit : find_look key (slot_at t i) ≡ some (some (slot_at t i).merge) =
          rw (eq_true _ _ same) refl in
        some-injective r _ (sym f.ended ∙ hit)
        ∙ sym (w.sound i inside (eq_false _ _ (λ q. ne (sym same ∙ q))))
        ∙ ap m same
    | no differ ↦ elim (ℕ_discrete (slot_at t i).pair empty_key) [
      | yes free ↦
          let hit : find_look key (slot_at t i) ≡ some none =
            rw (eq_false _ _ differ, eq_true _ _ free) refl in
          some-injective r _ (sym f.ended ∙ hit)
          ∙ sym (missing (find_look key) key r i ne (find_stops key) f (eq_true _ _ free))
      | no used ↦
          let pass : find_look key (slot_at t i) ≡ none =
            rw (eq_false _ _ differ, eq_false _ _ used) refl in
          absurd (cc (pass, f.ended))
    ]
  ]

  pub some_free :
      0 < count slot_free t.slots
      → (j : ℕ) × (j < length t.slots) × (slot_free (slot_at t j) ≡ true)
  some_free h = count-found slot_free t.slots free_slot h

  pub inside_of :
      {R : Type 0} (look : Slot → Option R) (key : ℕ) (r : R) (i : ℕ)
      → IsFound look free_slot t.slots (length t.slots) (home_slot t.shift key) r i
      → i < length t.slots
  inside_of look key r i f =
      let some_slots : 0 < length t.slots = omega (arith, w.sized, pow_pos w.bits) in
      omega (arith, f.place, mod-lt (home_slot t.shift key + f.steps) some_slots)

  -- `find` gives what the map has for the pair, if a slot is free.
  pub find-map :
      (left right : ℕ)
      → pair_key left right ≢ empty_key
      → 0 < count slot_free t.slots
      → find left right t ≡ some (m (pair_key left right))
  unfolding find
  find-map left right ne room =
      let key : ℕ = pair_key left right in
      let (j, inside, free) = some_free room in
      let (s, ends) = ends_free key (slot_at t j) free in
      let (r, i, found, f) =
        probe_ends (find_look key) free_slot t.slots w.bits w.sized (home_slot t.shift key) j s
          (home-lt key) inside ends in
      rw (not_nil, found) (ap some (find_answer key r i ne (inside_of (find_look key) key r i f) f))
    where
      ends_free :
          (key : ℕ) (s : Slot)
          → slot_free s ≡ true
          → (r : Option Merge) × (find_look key s ≡ some r)
      ends_free key s free = elim (Bool-cases (s.pair == key)) [
        | inl same ↦ (some s.merge, rw same refl)
        | inr differ ↦ (none, rw (differ, free) refl)
      ]
