-- ===== src/Base/Probe.antt =====
-- Linear probing over a table whose length is a power of two, as the tables of src/core/tokenizer do
-- it: from a first slot on, round the end, until a slot ends the search.
pub mod Places
use Prim.Native.Nat.{ℕ, zero, suc, ◌+◌, ◌-◌, ◌%◌, ◌^◌, ◌≤◌, ◌<◌, bit_and}
use mathlib.Core.Path.{◌≡◌, refl, sym, ap, ◌∙◌, subst}
use mathlib.Core.Logic.{◌≢◌, ◌⊎◌, inl, inr}
use mathlib.Core.Option.{Option, none, some}
use mathlib.Core.List.{List, [], ◌∷◌}
use native.Mathlib.Omega.{arith}
use native.Mathlib.Nat.{mod-lt, mod-eq_of_lt, mod-add-mod, add-mod, mod_self, add-mod_right}
use native.Mathlib.Decide.{ℕ_discrete, dec_lt}
use browser_llm.Base.Tests.{Option-cases, ltb}
use browser_llm.Base.Lists.{length, get_or, set}
use browser_llm.Base.Bits.{bit_and_low, pow_pos}

abbrev pub stop_or : {R : Type 0} → Option R → ℕ → Option (R × ℕ) → Option (R × ℕ)
stop_or (some r) at next = some (r, at)
stop_or none at next = next

module _ {A R : Type 0} (look : A → Option R) (free : A) (slots : List A) where
  -- The loop, with fuel: `look` says whether a slot ends the search, and with what.
  unfoldable pub probe : ℕ → ℕ → Option (R × ℕ)
  probe zero at = none
  probe (suc fuel) at =
      let next : Option (R × ℕ) = probe fuel (bit_and (at + 1) (length slots - 1)) in
      stop_or (look (get_or slots at free)) at next

  -- The slots from `at` on that do not end the search.
  abbrev pub Passed : ℕ → ℕ → Type 0
  Passed at d = (e : ℕ) → e < d → look (get_or slots ((at + e) % length slots) free) ≡ none

  -- The search ended at a slot that is `d` slots on.
  pub record IsFound (fuel at : ℕ) (r : R) (i : ℕ) : Type 0 where
    pub steps : ℕ
    pub few : steps < fuel
    pub place : i ≡ (at + steps) % length slots
    pub ended : look (get_or slots i free) ≡ some r
    pub passed : Passed at steps

shift_mod : (at e n : ℕ) → ((at + 1) % n + e) % n ≡ (at + suc e) % n
shift_mod at e n = mod-add-mod (at + 1) n e ∙ ap (λ (t : ℕ). t % n) (omega arith)

-- The distance from one place to another, going up and round.
pub distance : (at j n : ℕ) → at < n → j < n → (e : ℕ) × (e < n) × ((at + e) % n ≡ j)
distance at j n h k = elim (dec_lt j at) [
  | yes below ↦ (
    j + n - at,
    omega arith,
    ap (λ (t : ℕ). t % n) (around at j n h below) ∙ add-mod_right j n ∙ mod-eq_of_lt k,
  )
  | no past ↦ (j - at, omega arith, ap (λ (t : ℕ). t % n) (straight at j past) ∙ mod-eq_of_lt k)
]
  where
    around : (at j n : ℕ) → at < n → j < at → at + (j + n - at) ≡ j + n
    around at j n h below = omega arith

    straight : (at j : ℕ) → ¬ (j < at) → at + (j - at) ≡ j
    straight at j past = omega arith

module _ {A R : Type 0} (look : A → Option R) (free : A) (slots : List A) (bits : ℕ)
    (sized : length slots ≡ 2 ^ bits) where
  next_slot : (at : ℕ) → bit_and (at + 1) (length slots - 1) ≡ (at + 1) % length slots
  next_slot at =
      ap (λ (t : ℕ). bit_and (at + 1) (t - 1)) sized
      ∙ bit_and_low bits (at + 1)
      ∙ ap (λ (t : ℕ). (at + 1) % t) (sym sized)

  some_slots : 0 < length slots
  some_slots = omega (arith, sized, pow_pos bits)

  further :
      (at d : ℕ)
      → look (get_or slots at free) ≡ none
      → at < length slots
      → Passed look free slots ((at + 1) % length slots) d
      → Passed look free slots at (suc d)
  further at d e h p zero k =
      ap (λ (t : ℕ). look (get_or slots t free))
        (ap (λ (t : ℕ). t % length slots) (plus_zero at) ∙ mod-eq_of_lt h)
      ∙ e
    where
      plus_zero : (at : ℕ) → at + 0 ≡ at
      plus_zero at = omega arith
  further at d e h p (suc f) k =
      ap (λ (t : ℕ). look (get_or slots t free)) (sym (shift_mod at f (length slots)))
      ∙ p f (omega arith)

  -- The search ends at the first slot that ends it, or has passed as many slots as it had fuel.
  pub probe_cases :
      (fuel at : ℕ)
      → at < length slots
      → ((r : R) × (i : ℕ) × (probe look free slots fuel at ≡ some (r, i))
          × IsFound look free slots fuel at r i)
        ⊎ ((probe look free slots fuel at ≡ none) × Passed look free slots at fuel)
  unfolding probe
  probe_cases zero at h = inr (refl, λ e k. absurd (omega arith))
  probe_cases (suc fuel) at h = elim (Option-cases (look (get_or slots at free))) [
    | inr (r, e) ↦ inl (
      r,
      at,
      ap (λ o. stop_or o at (probe look free slots fuel (bit_and (at + 1) (length slots - 1)))) e,
      record {
        steps = 0;
        few = omega arith;
        place = sym (mod-eq_of_lt (omega arith)) ∙ ap (λ (t : ℕ). t % length slots) (plus_zero at);
        ended = e;
        passed = λ f k. absurd (omega arith);
      },
    )
    | inl e ↦
        let go : probe look free slots (suc fuel) at
            ≡ probe look free slots fuel ((at + 1) % length slots) =
          ap (λ o. stop_or o at (probe look free slots fuel (bit_and (at + 1) (length slots - 1))))
            e
          ∙ ap (probe look free slots fuel) (next_slot at) in
        elim (probe_cases fuel ((at + 1) % length slots) (mod-lt (at + 1) some_slots)) [
          | inl (r, i, found, w) ↦ inl (
            r,
            i,
            go ∙ found,
            record {
              steps = suc w.steps;
              few = omega (arith, w.few);
              place = w.place ∙ shift_mod at w.steps (length slots);
              ended = w.ended;
              passed = further at w.steps e h w.passed;
            },
          )
          | inr (lost, passed) ↦ inr (go ∙ lost, further at fuel e h passed)
        ]
  ]
    where
      plus_zero : (at : ℕ) → at ≡ at + 0
      plus_zero at = omega arith

  -- With a slot that ends every search, as much fuel as there are slots is enough.
  pub probe_ends :
      (at j : ℕ) (s : R)
      → at < length slots
      → j < length slots
      → look (get_or slots j free) ≡ some s
      → (r : R) × (i : ℕ) × (probe look free slots (length slots) at ≡ some (r, i))
        × IsFound look free slots (length slots) at r i
  probe_ends at j s h k e = elim (probe_cases (length slots) at h) [
    | inl found ↦ found
    | inr (lost, passed) ↦
        let (f, near, there) = distance at j (length slots) h k in
        absurd (cc (passed f near, ap (λ (t : ℕ). look (get_or slots t free)) there, e))
  ]
