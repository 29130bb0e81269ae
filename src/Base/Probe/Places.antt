-- ===== src/Base/Probe/Places.antt =====
-- A table that is filled by linear probing: every slot in use can be reached from where its key's
-- search begins, over slots in use. So a search that ends at a free slot has missed nothing.
use Prim.Native.Nat.{ℕ, ◌+◌, ◌%◌, ◌<◌}
use mathlib.Core.Path.{◌≡◌, sym, ap, ◌∙◌}
use mathlib.Core.Bool.{Bool, true, false}
use mathlib.Core.Option.{Option, none}
use mathlib.Core.List.{List}
use native.Mathlib.Omega.{arith}
use native.Mathlib.Decide.{ℕ_discrete, dec_lt}
use browser_llm.Base.Lists.{length, get_or, set, length-set, get_or-set_self, get_or-set_other}
use browser_llm.Base.Probe.{IsFound}

-- Slot `i` is `steps` on from `home`, and all between are in use.
pub record IsReached {A : Type 0} (is_free : A → Bool) (free : A) (slots : List A) (home i : ℕ)
    : Type 0 where
  pub steps : ℕ
  pub few : steps < length slots
  pub place : i ≡ (home + steps) % length slots
  pub used : (e : ℕ) → e < steps → is_free (get_or slots ((home + e) % length slots) free) ≡ false

module _ {A R : Type 0} (is_free : A → Bool) (free : A) (slots : List A) (look : A → Option R) where
  -- A search that ends at a free slot ends at no slot that is reached from the same home.
  pub missed_none :
      (home : ℕ) (r : R) (i j : ℕ)
      → IsFound look free slots (length slots) home r i
      → is_free (get_or slots i free) ≡ true
      → IsReached is_free free slots home j
      → is_free (get_or slots j free) ≡ false
      → look (get_or slots j free) ≡ none
  missed_none home r i j f e g u = elim (dec_lt g.steps f.steps) [
    | yes sooner ↦ ap (λ (t : ℕ). look (get_or slots t free)) g.place ∙ f.passed g.steps sooner
    | no later ↦ elim (ℕ_discrete g.steps f.steps) [
      | yes same ↦ absurd (
          cc (
            e,
            u,
            ap (λ (t : ℕ). is_free (get_or slots t free))
                (g.place ∙ ap (λ (t : ℕ). (home + t) % length slots) same ∙ sym f.place),
          ))
      | no differ ↦ absurd (
          cc (
            e,
            g.used f.steps (omega (arith, later, differ)),
            ap (λ (t : ℕ). is_free (get_or slots t free)) f.place,
          ))
    ]
  ]

module _ {A : Type 0} (is_free : A → Bool) (free : A) (slots : List A) (i : ℕ) (v : A)
    (inside : i < length slots) (kept : is_free v ≡ false) where
  pub set-used :
      (j : ℕ)
      → is_free (get_or slots j free) ≡ false
      → is_free (get_or (set slots i v) j free) ≡ false
  set-used j u = elim (ℕ_discrete j i) [
    | yes e ↦
        ap (λ (t : ℕ). is_free (get_or (set slots i v) t free)) e
        ∙ ap is_free (get_or-set_self slots i v free inside)
        ∙ kept
    | no n ↦ ap is_free (get_or-set_other slots i j v free n) ∙ u
  ]

  -- What was reached is reached once another slot is in use.
  pub IsReached-set :
      (home j : ℕ)
      → IsReached is_free free slots home j
      → IsReached is_free free (set slots i v) home j
  IsReached-set home j g = record {
    steps = g.steps;
    few = omega (arith, g.few, length-set slots i v);
    place = g.place ∙ ap (λ (t : ℕ). (home + g.steps) % t) (sym (length-set slots i v));
    used = λ e k.
        ap (λ (t : ℕ). is_free (get_or (set slots i v) ((home + e) % t) free))
          (length-set slots i v)
        ∙ set-used ((home + e) % length slots) (g.used e k);
  }

  -- The slot at which a search ended is reached, once it is in use.
  pub IsReached-found :
      {R : Type 0} (look : A → Option R) (home : ℕ) (r : R)
      → ((a : A) → look a ≡ none → is_free a ≡ false)
      → IsFound look free slots (length slots) home r i
      → IsReached is_free free (set slots i v) home i
  IsReached-found look home r ends f = record {
    steps = f.steps;
    few = omega (arith, f.few, length-set slots i v);
    place = f.place ∙ ap (λ (t : ℕ). (home + f.steps) % t) (sym (length-set slots i v));
    used = λ e k.
        ap (λ (t : ℕ). is_free (get_or (set slots i v) ((home + e) % t) free))
          (length-set slots i v)
        ∙ set-used ((home + e) % length slots) (ends _ (f.passed e k));
  }
