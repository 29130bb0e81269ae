-- ===== src/Residency/Plan/Ends/Cache.antt =====
-- place_cache, src/core/residency/plan.cpp: 32 rounds are enough for its bisection.
use browser_llm.Base.{
  ltb→lt, ℕ, zero, suc, ◌+◌, ◌-◌, ◌*◌, ◌/◌, ◌%◌, ◌^◌, ◌<◌, ◌≡◌, inl, inr, refl, Bool, false, not,
  Option, none, some, List, [], ◌∷◌, arith, ltb, ◌==◌, Bool-cases, Option-cases,
}
use browser_llm.Base.Words.{mul64}
use browser_llm.Gguf.Checked.{checked_add, checked_mul}
use browser_llm.Gguf.Types.{FormatLayout, format_layout, find_layout, format_layouts}
use browser_llm.Residency.Packer.{DeviceLimits, Packer, place, new_packer, range_limit, cache}
use browser_llm.Residency.Model.{
  ModelDescription, LayerDescription, LoadPolicy, ResidencyPlan, failure, overflow, CachePrecision,
  f16, bf16, q8_0, layer_number,
}
use browser_llm.Residency.Plan.Cache.Search.{double_pow}
use browser_llm.Residency.Plan.Cache.{
  CacheCost, slots_at, cache_bytes_at, Costs, costs, no_costs, layer_costs, cost_of, fixed_bytes,
  fits, bisect, place_layers, too_large, shortest_context, place_costs, with_costs, place_cache,
  storage_type,
}
use browser_llm.Residency.Plan.Ends.Answers.{IsAnswer}

-- Every cache precision has its row in the format table.
stored :
    (precision : CachePrecision)
    → (layout : FormatLayout) × (format_layout (storage_type precision) ≡ some layout)
unfolding format_layout find_layout format_layouts storage_type
stored f16 = (_, refl)
stored bf16 = (_, refl)
stored q8_0 = (_, refl)

module _ (limits : DeviceLimits) where
  place_layers-IsAnswer :
      (layers : List CacheCost) (p : Packer) (out : ResidencyPlan)
      → IsAnswer (place_layers layers p out)
  unfolding place_layers
  place_layers-IsAnswer [] p out = tt
  place_layers-IsAnswer (layer ∷ rest) p out =
      elim (Option-cases
        (place p out.buffers (mul64 (slots_at layer out.context_offered) layer.slot_bytes) false)) [
          | inl e ↦ rw (e, place_layers) tt
          | inr (k, e) ↦
              elim (Option-cases (
                place k.packer k.buffers
                  (mul64 (slots_at layer out.context_offered) layer.slot_bytes) false)) [
                    | inl q ↦ rw (e, q, place_layers) tt
                    | inr (v, q) ↦ rw (e, q, place_layers) (place_layers-IsAnswer rest v.packer _)
                  ]
        ]

  bisect_ends :
      (test : ℕ → Bool) (fuel low high : ℕ)
      → high - low < 2 ^ fuel
      → (c : ℕ) × (bisect test fuel low high ≡ some c)
  unfolding bisect
  bisect_ends test zero low high h = (low, ground (arith, h))
  bisect_ends test (suc fuel) low high h =
      let mid : ℕ = low + (high - low + 1) / 2 in
      elim (Bool-cases (ltb low high)) [
        | inr q ↦ (low, rw q refl)
        | inl q ↦
            let wide : low < high = ltb→lt _ _ q in
            elim (Bool-cases (test mid)) [
              | inl r ↦
                  let (c, e) =
                    bisect_ends test fuel mid high (omega (arith, h, wide, double_pow fuel)) in
                  (c, rw (q, r) e)
              | inr r ↦
                  let (c, e) =
                    bisect_ends test fuel low (mid - 1) (omega (arith, h, wide, double_pow fuel)) in
                  (c, rw (q, r) e)
            ]
      ]

  module _ (model : ModelDescription) (policy : LoadPolicy) (out : ResidencyPlan)
      (trained : model.trained_context < 2 ^ 32) where
    too_large-IsAnswer : (o : Option ℕ) (fixed : ℕ) → IsAnswer (too_large o fixed out)
    unfolding too_large
    too_large-IsAnswer none fixed = tt
    too_large-IsAnswer (some bytes) fixed = elim (Option-cases (checked_add fixed bytes)) [
      | inl e ↦ rw (e, too_large) tt
      | inr (total, e) ↦ rw (e, too_large) tt
    ]

    place_costs-IsAnswer :
        (layers : List CacheCost) → IsAnswer (place_costs model limits policy out layers)
    unfolding place_costs
    place_costs-IsAnswer layers =
        let test : ℕ → Bool =
          fits layers (range_limit limits) (fixed_bytes model limits out) policy.memory_budget in
        elim (Bool-cases (test (shortest_context model))) [
          | inr e ↦ rw e (
              too_large-IsAnswer
                (cache_bytes_at layers (shortest_context model) (range_limit limits))
                (fixed_bytes model limits out))
          | inl e ↦
              let (c, q) =
                bisect_ends test 32 (shortest_context model) model.trained_context
                  (omega (arith, trained)) in
              rw (e, q)
                (place_layers-IsAnswer layers (new_packer cache limits)
                  (record out { context_offered = c }))
        ]

    abbrev CostsAnswer : Costs → Type 0
    CostsAnswer (costs layers) = Unit
    CostsAnswer (no_costs s) = IsAnswer s

    layer_costs-Answer :
        (layout : FormatLayout) (i : ℕ) (layers : List LayerDescription)
        → CostsAnswer (layer_costs layout policy out i layers)
    unfolding layer_costs
    layer_costs-Answer layout i [] = tt
    layer_costs-Answer layout i (l ∷ rest) =
        elim (Bool-cases (not (l.head_dimension % layout.block_elements == 0))) [
          | inl e ↦ rw e tt
          | inr e ↦ rw e (
              by_bytes
                (checked_mul (l.key_value_heads * (l.head_dimension / layout.block_elements))
                  layout.block_bytes)
                (layer_costs layout policy out (suc i) rest)
                (layer_costs-Answer layout (suc i) rest))
        ]
      where
        by_bytes :
            (o : Option ℕ) (more : Costs)
            → CostsAnswer more
            → CostsAnswer (elim o [
              | none ↦ no_costs (failure overflow (layer_number i) out)
              | some slot_bytes ↦ elim more [
                | no_costs s ↦ no_costs s
                | costs cs ↦ costs (cost_of layout policy out l slot_bytes ∷ cs)
              ]
            ])
        by_bytes none more h = tt
        by_bytes (some slot_bytes) (costs cs) h = tt
        by_bytes (some slot_bytes) (no_costs s) h = h

    with_costs-IsAnswer :
        (c : Costs) → CostsAnswer c → IsAnswer (with_costs c (place_costs model limits policy out))
    with_costs-IsAnswer (costs layers) h = place_costs-IsAnswer layers
    with_costs-IsAnswer (no_costs s) h = h

    pub place_cache-IsAnswer : IsAnswer (place_cache model limits policy out)
    unfolding place_cache
    place_cache-IsAnswer =
        let (layout, e) = stored policy.cache_precision in
        rw e (
          with_costs-IsAnswer (layer_costs layout policy out 0 model.layers)
            (layer_costs-Answer layout 0 model.layers))
