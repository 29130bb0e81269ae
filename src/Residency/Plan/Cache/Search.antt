-- ===== src/Residency/Plan/Cache/Search.antt =====
-- The context that `place_cache` of src/core/residency/plan.cpp offers is the largest that fits.
use native.Mathlib.Nat.{pow-suc}
use browser_llm.Base.{
  ℕ, zero, suc, ◌+◌, ◌-◌, ◌*◌, ◌/◌, ◌^◌, ◌≤◌, ◌<◌, ◌≡◌, Bool, true, false, some, arith, ltb,
  Bool-cases, inl, inr,
}
use native.Mathlib.Decide.{dec_lt}
use browser_llm.Residency.Plan.Cache.{bisect}

-- The test holds of every context below one that it holds of.
abbrev pub IsAntitone : (ℕ → Bool) → Type 0
IsAntitone test = (c d : ℕ) → c ≤ d → test d ≡ true → test c ≡ true

-- What the search gives: a context that passes, with none above it that does.
pub record IsLargest (test : ℕ → Bool) (low high c : ℕ) : Type 0 where
  pub passes : test c ≡ true
  pub from : low ≤ c
  pub upto : c ≤ high
  pub above : (d : ℕ) → c < d → d ≤ high → test d ≡ false

pub double_pow : (k : ℕ) → 2 ^ suc k ≡ 2 * 2 ^ k
double_pow k = omega (arith, pow-suc 2 k)

none_above :
    (test : ℕ → Bool) (mid : ℕ)
    → IsAntitone test
    → test mid ≡ false
    → (d : ℕ) → mid ≤ d
    → test d ≡ false
none_above test mid anti e d h = elim (Bool-cases (test d)) [
  | inr no_fit ↦ no_fit
  | inl fit ↦ cc (anti mid d h fit)
]

module _ (test : ℕ → Bool) (anti : IsAntitone test) where
  -- For a test that holds of every context below one that it holds of, and that holds of the lowest,
  -- the bisection ends within fuel that its range's width is below 2 to the power of, with the
  -- largest context in the range that passes.
  pub bisect-IsLargest :
      (fuel low high : ℕ)
      → high - low < 2 ^ fuel
      → low ≤ high
      → test low ≡ true
      → (c : ℕ) × (bisect test fuel low high ≡ some c) × IsLargest test low high c
  unfolding bisect
  bisect-IsLargest zero low high w h e = (
    low,
    ground arith,
    record { passes = e; from = omega arith; upto = h; above = λ d p q. absurd (omega arith) },
  )
  bisect-IsLargest (suc fuel) low high w h e =
      let mid : ℕ = low + (high - low + 1) / 2 in
      elim (Bool-cases (ltb low high)) [
        | inr same ↦ (
          low,
          ground arith,
          record {
            passes = e;
            from = omega arith;
            upto = h;
            above = λ d p q. absurd (ground arith);
          },
        )
        | inl wide ↦ elim (Bool-cases (test mid)) [
          | inl fit ↦
              let (c, found, best) =
                bisect-IsLargest fuel mid high (ground (arith, double_pow fuel)) (ground arith)
                  fit in
              (
                c,
                rw (wide, fit) found,
                record {
                  passes = best.passes;
                  from = omega (arith, best.from);
                  upto = best.upto;
                  above = best.above;
                },
              )
          | inr no_fit ↦
              let (c, found, best) =
                bisect-IsLargest fuel low (mid - 1) (ground (arith, double_pow fuel)) (ground arith)
                  e in
              (
                c,
                rw (wide, no_fit) found,
                record {
                  passes = best.passes;
                  from = best.from;
                  upto = ground (arith, best.upto);
                  above = λ d p q. elim (dec_lt d mid) [
                    | yes below ↦ best.above d p (omega arith)
                    | no past ↦ none_above test mid anti no_fit d (omega arith)
                  ];
                },
              )
        ]
      ]
