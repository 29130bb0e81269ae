-- ===== src/Residency/Plan/Cache/Bound.antt =====
-- Where a context fits, each layer's keys and values fit a binding, src/core/residency/plan.cpp.
use mathlib.Core.Option.{some-injective}
use browser_llm.Base.{
  ℕ, zero, suc, ◌+◌, ◌-◌, ◌/◌, ◌≤◌, ◌≡◌, inl, inr, refl, sym, ap, ◌∙◌, Bool, true, not, ◌&&◌,
  Option, none, some, List, [], ◌∷◌, arith, ltb, ltb→le, ◌==◌, All, Bool-cases, Option-cases,
}
use browser_llm.Base.Words.{mul64, u64_max}
use browser_llm.Gguf.Checked.{checked_add, checked_mul}
use browser_llm.Residency.Packer.{DeviceLimits, range_limit}
use browser_llm.Residency.Plan.Cache.{
  CacheCost, slots_at, sum_after, with_sum, cache_bytes_from, cache_bytes_at, fits, bisect,
}

module _ (limits : DeviceLimits) where
  -- Each layer's keys, and values, fit one range.
  abbrev pub AreBound : List CacheCost → ℕ → Type 0
  AreBound layers context =
      All (λ l. mul64 (slots_at l context) l.slot_bytes ≤ range_limit limits) layers

  sum_after-bound :
      (binding out y : ℕ) (o : Option ℕ) (f : ℕ → Option ℕ)
      → with_sum (sum_after binding out o) f ≡ some y
      → (count : ℕ) × (o ≡ some count) × (count ≤ binding) × (sum : ℕ) × (f sum ≡ some y)
  sum_after-bound binding out y none f e = cc
  sum_after-bound binding out y (some count) f e = elim (Bool-cases (ltb binding count)) [
    | inl q ↦ absurd (cc (rw q at e))
    | inr q ↦ elim (Option-cases (checked_add out (mul64 2 count))) [
      | inl r ↦ absurd (cc (rw (q, r) at e))
      | inr (sum, r) ↦ (count, refl, ltb→le _ _ q, sum, rw (q, r) at e)
    ]
  ]

  checked_mul-mul64 : (a b c : ℕ) → checked_mul a b ≡ some c → mul64 a b ≡ c
  unfolding checked_mul
  checked_mul-mul64 a b c e = elim (Bool-cases (not (a == 0) && ltb (u64_max / a) b)) [
    | inl q ↦ absurd (cc (rw q at e))
    | inr q ↦ some-injective (mul64 a b) c (rw q at e)
  ]

  cache_bytes-bound :
      (layers : List CacheCost) (context out y : ℕ)
      → cache_bytes_from layers context (range_limit limits) out ≡ some y
      → AreBound layers context
  unfolding cache_bytes_from
  cache_bytes-bound [] context out y e = tt
  cache_bytes-bound (l ∷ rest) context out y e =
      let (count, a, b, sum, more) =
        sum_after-bound (range_limit limits) out y (checked_mul (slots_at l context) l.slot_bytes)
          (cache_bytes_from rest context (range_limit limits)) e in
      (
        omega (arith, b, checked_mul-mul64 (slots_at l context) l.slot_bytes count a),
        cache_bytes-bound rest context sum y more,
      )

  pub fits-bound :
      (layers : List CacheCost) (fixed budget context : ℕ)
      → fits layers (range_limit limits) fixed budget context ≡ true
      → AreBound layers context
  unfolding fits
  fits-bound layers fixed budget context e =
      elim (Option-cases (cache_bytes_at layers context (range_limit limits))) [
        | inl q ↦ absurd (cc (rw q at e))
        | inr (y, q) ↦ cache_bytes-bound layers context 0 y q
      ]

  pub bisect_passes :
      (test : ℕ → Bool) (fuel low high c : ℕ)
      → test low ≡ true
      → bisect test fuel low high ≡ some c
      → test c ≡ true
  unfolding bisect
  bisect_passes test zero low high c h e = elim (Bool-cases (ltb low high)) [
    | inl q ↦ absurd (cc (rw q at e))
    | inr q ↦ ap test (sym (some-injective low c (rw q at e))) ∙ h
  ]
  bisect_passes test (suc fuel) low high c h e =
      let mid : ℕ = low + (high - low + 1) / 2 in
      elim (Bool-cases (ltb low high)) [
        | inr q ↦ ap test (sym (some-injective low c (rw q at e))) ∙ h
        | inl q ↦ elim (Bool-cases (test mid)) [
          | inl r ↦ bisect_passes test fuel mid high c r (rw (q, r) at e)
          | inr r ↦ bisect_passes test fuel low (mid - 1) c h (rw (q, r) at e)
        ]
      ]
