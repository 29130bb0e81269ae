-- ===== src/Residency/Plan/Whole/Cache.antt =====
-- place_cache, src/core/residency/plan.cpp: what it gives at every way out.
use mathlib.Core.List.{append-nil}
use browser_llm.Base.{
  ℕ, suc, ◌*◌, ◌/◌, ◌%◌, ◌≡◌, inl, inr, refl, sym, ap, ◌∙◌, subst, Bool, true, not, Option, none,
  some, List, [], ◌∷◌, ◌++◌, ◌==◌, Bool-cases,
}
use browser_llm.Gguf.Checked.{checked_add, checked_mul}
use browser_llm.Gguf.Types.{FormatLayout, format_layout}
use browser_llm.Residency.Packer.{DeviceLimits, new_packer, range_limit, cache}
use browser_llm.Residency.Packer.Rounding.{IsDevice}
use browser_llm.Residency.Packer.Ranges.{IsPacked}
use browser_llm.Residency.Model.{
  ModelDescription, LayerDescription, LoadPolicy, PlannedCacheLayer, ResidencyPlan, failure,
  overflow, exceeds_budget, no_subject, layer_number,
}
use browser_llm.Residency.Plan.Cache.{
  CacheCost, cache_bytes_at, Costs, costs, no_costs, layer_costs, cost_of, fixed_bytes, fits,
  bisect, place_layers, too_large, with_context, shortest_context, place_largest, place_costs,
  with_costs, with_layout, place_cache, storage_type,
}
use browser_llm.Residency.Plan.Cache.Bound.{AreBound, fits-bound, bisect_passes}
use browser_llm.Residency.Plan.Apart.{cache_ranges, Holds, Gives, new_packer-Holds}
use browser_llm.Residency.Plan.Whole.Needs.{first_ranges, ranges_of, AfterScratch}
use browser_llm.Residency.Plan.Whole.Layers.{place_layers-Gives}

-- Where the costs of the layers cannot be told, no plan is given.
abbrev CostsGive : (ResidencyPlan → Type 0) → Costs → Type 0
CostsGive P (costs layers) = Unit
CostsGive P (no_costs s) = Gives P s

module _ (layout : FormatLayout) (policy : LoadPolicy) (out : ResidencyPlan)
    (P : ResidencyPlan → Type 0) where
  cost-Gives :
      (i : ℕ) (l : LayerDescription) (o : Option ℕ) (more : Costs)
      → CostsGive P more
      → CostsGive P (elim o [
        | none ↦ no_costs (failure overflow (layer_number i) out)
        | some slot_bytes ↦ elim more [
          | no_costs s ↦ no_costs s
          | costs cs ↦ costs (cost_of layout policy out l slot_bytes ∷ cs)
        ]
      ])
  cost-Gives i l none more h = tt
  cost-Gives i l (some slot_bytes) (costs cs) h = tt
  cost-Gives i l (some slot_bytes) (no_costs s) h = h

  layer_costs-Give :
      (i : ℕ) (layers : List LayerDescription)
      → CostsGive P (layer_costs layout policy out i layers)
  unfolding layer_costs
  layer_costs-Give i [] = tt
  layer_costs-Give i (l ∷ rest) =
      elim (Bool-cases (not (l.head_dimension % layout.block_elements == 0))) [
        | inl e ↦ rw e tt
        | inr e ↦ rw e (
            cost-Gives i l
              (checked_mul (l.key_value_heads * (l.head_dimension / layout.block_elements))
                layout.block_bytes)
              (layer_costs layout policy out (suc i) rest) (layer_costs-Give (suc i) rest))
      ]

module _ (limits : DeviceLimits) (d : IsDevice limits) where
  -- The plan's ranges are packed.
  abbrev pub IsWhole : ResidencyPlan → Type 0
  IsWhole plan = IsPacked limits plan.buffers (ranges_of plan)

  too_large-Gives :
      (o : Option ℕ) (fixed : ℕ) (out : ResidencyPlan) → Gives IsWhole (too_large o fixed out)
  unfolding too_large
  too_large-Gives none fixed out = tt
  too_large-Gives (some bytes) fixed out = by_total (checked_add fixed bytes)
    where
      by_total :
          (o : Option ℕ)
          → Gives IsWhole (elim o [
            | none ↦ failure overflow no_subject out
            | some total ↦ failure exceeds_budget no_subject (record out { total_bytes = total })
          ])
      by_total none = tt
      by_total (some total) = tt

  module _ (model : ModelDescription) (policy : LoadPolicy) (out : ResidencyPlan)
      (w : AfterScratch limits d out) where
    start_cache :
        (context : ℕ)
        → Holds limits
            (new_packer cache limits)
            out.buffers
            (ranges_of (record out { context_offered = context }))
    start_cache context =
        subst (Holds limits (new_packer cache limits) out.buffers)
          (sym (append-nil (first_ranges out))
            ∙ ap (λ (t : List PlannedCacheLayer). first_ranges out ++ cache_ranges t)
                (sym w.no_cache))
          (new_packer-Holds limits d cache out.buffers (first_ranges out) w.packed)

    place_largest-Gives :
        (layers : List CacheCost) (test : ℕ → Bool)
        → test (shortest_context model) ≡ true
        → ((context : ℕ) → test context ≡ true → AreBound limits layers context)
        → Gives IsWhole (place_largest model limits out layers test)
    place_largest-Gives layers test h bound =
        by_context (bisect test 32 (shortest_context model) model.trained_context) refl
      where
        by_context :
            (o : Option ℕ)
            → bisect test 32 (shortest_context model) model.trained_context ≡ o
            → Gives IsWhole (
                with_context o λ context.
                  place_layers layers
                    (new_packer cache limits)
                    (record out { context_offered = context }))
        by_context none e = tt
        by_context (some c) e =
            place_layers-Gives limits d layers (new_packer cache limits)
              (record out { context_offered = c })
              (bound c
                (bisect_passes limits test 32 (shortest_context model) model.trained_context c h e))
              (start_cache c)

    place_costs-Gives :
        (layers : List CacheCost) → Gives IsWhole (place_costs model limits policy out layers)
    unfolding place_costs
    place_costs-Gives layers =
        elim (Bool-cases (
          fits layers (range_limit limits) (fixed_bytes model limits out) policy.memory_budget
            (shortest_context model))) [
              | inr e ↦ rw e (
                  too_large-Gives
                    (cache_bytes_at layers (shortest_context model) (range_limit limits))
                    (fixed_bytes model limits out) out)
              | inl e ↦ rw e (
                  place_largest-Gives layers
                    (fits layers (range_limit limits) (fixed_bytes model limits out)
                      policy.memory_budget)
                    e
                    (λ c h.
                      fits-bound limits layers (fixed_bytes model limits out) policy.memory_budget c
                        h))
            ]

    with_costs-Gives :
        (c : Costs)
        → CostsGive IsWhole c
        → Gives IsWhole (with_costs c (place_costs model limits policy out))
    with_costs-Gives (costs layers) h = place_costs-Gives layers
    with_costs-Gives (no_costs s) h = h

    pub place_cache-Gives : Gives IsWhole (place_cache model limits policy out)
    unfolding place_cache
    place_cache-Gives = by_layout (format_layout (storage_type policy.cache_precision))
      where
        by_layout :
            (o : Option FormatLayout)
            → Gives IsWhole (
                with_layout o λ layout.
                  with_costs
                    (layer_costs layout policy out 0 model.layers)
                    (place_costs model limits policy out))
        by_layout none = tt
        by_layout (some layout) =
            with_costs-Gives (layer_costs layout policy out 0 model.layers)
              (layer_costs-Give layout policy out IsWhole 0 model.layers)
