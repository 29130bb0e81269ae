-- ===== src/Residency/Plan/Cache/Cost.antt =====
-- The cost of the cache and the test that a context fits, src/core/residency/plan.cpp: `cache_bytes_at`
-- and `fits` of `place_cache`.
use native.Mathlib.Nat.{mul-le-mul_right}
use mathlib.Core.Option.{some-injective}
use browser_llm.Base.{
  ℕ, ◌+◌, ◌*◌, ◌^◌, ◌≤◌, ◌<◌, ◌≡◌, refl, sym, ap, ◌∙◌, true, not, Option, none, some, List, [], ◌∷◌,
  arith, ltb, ltb→le, if◌then◌else◌, All, Bool-cases, Option-cases, inl, inr,
}
use browser_llm.Base.Words.{IsU64, IsU32, mul64}
use browser_llm.Gguf.Checked.{
  checked_add, checked_mul, checked_add-some, checked_add_fits, checked_mul-some, checked_mul_fits,
}
use browser_llm.Residency.Plan.Cache.{
  CacheCost, slots_at, cache_bytes_from, cache_bytes_at, within_budget, total_within, sum_after,
  with_sum, fits, place_costs, place_largest, with_context, shortest_context, fixed_bytes,
  too_large, place_layers,
}
use browser_llm.Residency.Packer.{cache, DeviceLimits, range_limit, new_packer}
use browser_llm.Residency.Model.{ModelDescription, LoadPolicy, ResidencyPlan}
use browser_llm.Residency.Plan.Cache.Search.{IsAntitone, IsLargest, bisect-IsLargest}

abbrev pub IsCost : CacheCost → Type 0
IsCost l = IsU64 l.slot_bytes

-- The bytes of one layer's keys at a context.
abbrev pub key_bytes : CacheCost → ℕ → ℕ
key_bytes l c = slots_at l c * l.slot_bytes

-- One layer is paid for: its keys fit a binding, and the sum with twice their bytes fits 64 bits.
record IsPaid (l : CacheCost) (c limit out : ℕ) : Type 0 where
  pub bound : key_bytes l c ≤ limit
  pub sum_fits : IsU64 (out + 2 * key_bytes l c)

sum_paid :
    (n limit out : ℕ)
    → limit < 2 ^ 63
    → n ≤ limit
    → IsU64 (out + 2 * n)
    → sum_after limit out (some n) ≡ some (out + 2 * n)
sum_paid n limit out small h k = ground (arith, checked_add_fits out (2 * n))

pay :
    (l : CacheCost) (ls : List CacheCost) (c limit out : ℕ)
    → limit < 2 ^ 63
    → IsPaid l c limit out
    → cache_bytes_from (l ∷ ls) c limit out ≡ cache_bytes_from ls c limit (out + 2 * key_bytes l c)
unfolding cache_bytes_from
pay l ls c limit out small p =
    ap (λ o. with_sum o λ sum. cache_bytes_from ls c limit sum)
      (ap (sum_after limit out)
          (checked_mul_fits (slots_at l c) l.slot_bytes (omega (arith, p.bound)))
        ∙ sum_paid (key_bytes l c) limit out small p.bound p.sum_fits)

IsPaid-sum :
    (l : CacheCost) (c limit out s : ℕ) (m : Option ℕ)
    → limit < 2 ^ 63
    → IsCost l
    → IsU64 out
    → checked_mul (slots_at l c) l.slot_bytes ≡ m
    → sum_after limit out m ≡ some s
    → IsPaid l c limit out
IsPaid-sum l c limit out s none small cost u product e = cc
IsPaid-sum l c limit out s (some n) small cost u product e =
    let (value, _) = checked_mul-some (slots_at l c) l.slot_bytes n cost product in
    elim (Bool-cases (ltb limit n)) [
      | inl over ↦ cc (rw over at e)
      | inr room ↦
          let (_, sum) = checked_add-some out (mul64 2 n) s u (omega arith) (rw room at e) in
          let below = ltb→le limit n room in record { bound = omega arith; sum_fits = omega arith }
    ]

IsPaid-step :
    (l : CacheCost) (ls : List CacheCost) (c limit out y : ℕ) (o : Option ℕ)
    → limit < 2 ^ 63
    → IsCost l
    → IsU64 out
    → sum_after limit out (checked_mul (slots_at l c) l.slot_bytes) ≡ o
    → (with_sum o λ sum. cache_bytes_from ls c limit sum) ≡ some y
    → IsPaid l c limit out
IsPaid-step l ls c limit out y none small cost u q e = cc
IsPaid-step l ls c limit out y (some s) small cost u q e =
    IsPaid-sum l c limit out s _ small cost u refl q

paid :
    (l : CacheCost) (ls : List CacheCost) (c limit out y : ℕ)
    → limit < 2 ^ 63
    → IsCost l
    → IsU64 out
    → cache_bytes_from (l ∷ ls) c limit out ≡ some y
    → IsPaid l c limit out
unfolding cache_bytes_from
paid l ls c limit out y small cost u e = IsPaid-step l ls c limit out y _ small cost u refl e

fewer_slots : (l : CacheCost) (c d : ℕ) → c ≤ d → key_bytes l c ≤ key_bytes l d
fewer_slots l c d h = mul-le-mul_right l.slot_bytes (fewer l c d h)
  where
    fewer : (l : CacheCost) (c d : ℕ) → c ≤ d → slots_at l c ≤ slots_at l d
    fewer l c d h = omega arith

-- A shorter context from a smaller sum is paid for too, and costs no more.
cache_bytes_from_mono :
    (ls : List CacheCost) (c d limit low high y : ℕ)
    → limit < 2 ^ 63
    → All IsCost ls
    → c ≤ d
    → low ≤ high
    → IsU64 high
    → cache_bytes_from ls d limit high ≡ some y
    → (x : ℕ) × (cache_bytes_from ls c limit low ≡ some x) × (x ≤ y) × IsU64 y
cache_bytes_from_mono [] c d limit low high y small w h k u e =
    unfold cache_bytes_from in
    (low, refl, omega (arith, some-injective high y e), omega (arith, some-injective high y e))
cache_bytes_from_mono (l ∷ ls) c d limit low high y small w h k u e =
    let p = paid l ls d limit high y small w.0 u e in
    let less = fewer_slots l c d h in
    let q : IsPaid l c limit low = record {
      bound = omega (arith, p.bound);
      sum_fits = omega (arith, p.sum_fits);
    } in
    let (x, found, below, fits) =
      cache_bytes_from_mono ls c d limit (low + 2 * key_bytes l c) (high + 2 * key_bytes l d) y
        small w.1 h (omega arith) p.sum_fits (sym (pay l ls d limit high small p) ∙ e) in
    (x, pay l ls c limit low small q ∙ found, below, fits)

within_total :
    (fixed budget x y : ℕ) (o : Option ℕ)
    → IsU64 fixed
    → IsU64 y
    → x ≤ y
    → checked_add fixed y ≡ o
    → total_within budget o ≡ true
    → within_budget fixed budget (some x) ≡ true
within_total fixed budget x y none u v h q e = cc
within_total fixed budget x y (some t) u v h q e =
    let (value, sum) = checked_add-some fixed y t u v q in
    ap (total_within budget) (checked_add_fits fixed x (omega arith)) ∙ ground arith

within :
    (fixed budget x y : ℕ)
    → IsU64 fixed
    → IsU64 y
    → x ≤ y
    → within_budget fixed budget (some y) ≡ true
    → within_budget fixed budget (some x) ≡ true
within fixed budget x y u v h e = within_total fixed budget x y _ u v h refl e

-- For a range limit below 2 to the power of 63, costs of 64 bits and fixed bytes of 64 bits, a
-- context shorter than one that fits does fit: the cost never falls as the context grows.
pub fits-IsAntitone :
    (layers : List CacheCost) (limit fixed budget : ℕ)
    → limit < 2 ^ 63
    → All IsCost layers
    → IsU64 fixed
    → IsAntitone (fits layers limit fixed budget)
unfolding fits
fits-IsAntitone layers limit fixed budget small w u c d h e =
    elim (Option-cases (cache_bytes_at layers d limit)) [
      | inl bad ↦ cc (rw bad at e)
      | inr (y, good) ↦
          let (x, found, below, v) =
            cache_bytes_from_mono layers c d limit 0 0 y small w h (omega arith) (omega arith)
              good in
          ap (within_budget fixed budget) found ∙ within fixed budget x y u v below (rw good at e)
    ]

-- For a 32-bit trained context, a range limit below 2 to the power of 63 and costs of 64 bits, where
-- the shortest context fits, the planner offers the largest context up to the trained one that fits
-- the budget and the bindings, and places the layers at it.
pub place_costs-IsLargest :
    (model : ModelDescription) (limits : DeviceLimits) (policy : LoadPolicy) (out : ResidencyPlan)
    (layers : List CacheCost)
    → range_limit limits < 2 ^ 63
    → All IsCost layers
    → IsU32 model.trained_context
    → fits layers
        (range_limit limits)
        (fixed_bytes model limits out)
        policy.memory_budget
        (shortest_context model)
      ≡ true
    → (c : ℕ) × (place_costs model limits policy out layers
        ≡ place_layers layers (new_packer cache limits) (record out { context_offered = c }))
      × IsLargest
          (fits layers (range_limit limits) (fixed_bytes model limits out) policy.memory_budget)
          (shortest_context model)
          model.trained_context
          c
unfolding place_costs
place_costs-IsLargest model limits policy out layers small w u e =
    let limit : ℕ = range_limit limits in
    let fixed : ℕ = fixed_bytes model limits out in
    let (c, found, best) =
      bisect-IsLargest (fits layers limit fixed policy.memory_budget)
        (fits-IsAntitone layers limit fixed policy.memory_budget small w (omega arith)) 32
        (shortest_context model) model.trained_context (omega arith) (omega arith) e in
    (
      c,
      ap
            (λ b.
              if not b
              then too_large (cache_bytes_at layers (shortest_context model) limit) fixed out
              else place_largest model limits out layers
                  (fits layers limit fixed policy.memory_budget))
            e
          ∙ ap
              (λ o. with_context o λ context.
                place_layers layers (new_packer cache limits)
                  (record out { context_offered = context }))
              found,
      best,
    )
