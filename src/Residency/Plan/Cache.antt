-- ===== src/Residency/Plan/Cache.antt =====
-- `place_cache` of src/core/residency/plan.cpp: what a layer's cache costs, the test that a context fits,
-- the bisection for the largest one that does, and the placing of the layers.
pub mod Search
pub mod Cost
pub mod Bound
use browser_llm.Base.{
  ℕ, zero, suc, ◌+◌, ◌-◌, ◌*◌, ◌/◌, ◌%◌, Bool, true, false, not, ◌&&◌, ◌||◌, Option, none, some,
  List, [], ◌∷◌, ◌++◌, ltb, leb, ◌==◌, if◌then◌else◌, length, min,
}
use browser_llm.Base.Words.{add64, mul64}
use browser_llm.Gguf.Checked.{checked_add, checked_mul}
use browser_llm.Gguf.Types
use browser_llm.Gguf.Types.{TensorType, format_layout, FormatLayout}
use browser_llm.Residency.Packer.{
  Pool, cache, DeviceLimits, PlannedBuffer, BufferRange, Packer, Placed, new_packer, place,
  range_limit, binding_granule,
}
use browser_llm.Residency.Model.{
  LayerDescription, ModelDescription, LoadPolicy, CachePrecision, f16, bf16, q8_0,
  PlannedCacheLayer, ResidencyPlan, exceeds_budget, unsupported_cache_precision, overflow,
  layer_number, no_subject, Step, planned, failure, stuck,
}

abbrev pub prefill_block : ℕ
prefill_block = 512

unfoldable pub storage_type : CachePrecision → TensorType
storage_type f16 = Types.f16
storage_type bf16 = Types.bf16
storage_type q8_0 = Types.q8_0

pub record CacheCost : Type 0 where
  pub slot_bytes : ℕ
  pub ring : ℕ

abbrev pub slots_at : CacheCost → ℕ → ℕ
slots_at layer context = min context layer.ring

-- The sum with one layer's keys and values added; none when a size overflows or the keys outgrow a
-- binding.
abbrev pub sum_after : ℕ → ℕ → Option ℕ → Option ℕ
sum_after binding out none = none
sum_after binding out (some count) =
    let next : Option ℕ = checked_add out (mul64 2 count) in
    if ltb binding count then none else next

abbrev pub with_sum : Option ℕ → (ℕ → Option ℕ) → Option ℕ
with_sum none f = none
with_sum (some sum) f = f sum

-- The cache's bytes at a context, from what is added up so far.
unfoldable pub cache_bytes_from : List CacheCost → ℕ → ℕ → ℕ → Option ℕ
cache_bytes_from [] context binding out = some out
cache_bytes_from (layer ∷ rest) context binding out =
    with_sum (sum_after binding out (checked_mul (slots_at layer context) layer.slot_bytes))
      λ sum. cache_bytes_from rest context binding sum

abbrev pub cache_bytes_at : List CacheCost → ℕ → ℕ → Option ℕ
cache_bytes_at layers context binding = cache_bytes_from layers context binding 0

-- The costs of the layers from number `i` on, or the failure with its layer.
pub data Costs : Type 0 where
  costs : List CacheCost → Costs
  no_costs : Step → Costs

module _ (layout : FormatLayout) (policy : LoadPolicy) (out : ResidencyPlan) where
  abbrev pub cost_of : LayerDescription → ℕ → CacheCost
  cost_of l slot_bytes = record {
    slot_bytes = slot_bytes;
    ring = l.attention_window + prefill_block + policy.rollback_reserve;
  }

  unfoldable pub layer_costs : ℕ → List LayerDescription → Costs
  layer_costs i [] = costs []
  layer_costs i (l ∷ rest) =
      let more : Costs = layer_costs (suc i) rest in
      if not (l.head_dimension % layout.block_elements == 0)
      then no_costs (failure unsupported_cache_precision (layer_number i) out)
      else elim (checked_mul (l.key_value_heads * (l.head_dimension / layout.block_elements))
          layout.block_bytes) [
            | none ↦ no_costs (failure overflow (layer_number i) out)
            | some slot_bytes ↦ elim more [
              | no_costs s ↦ no_costs s
              | costs cs ↦ costs (cost_of l slot_bytes ∷ cs)
            ]
          ]

-- The padding that alignment may add, and the bytes that are there whatever the context.
abbrev pub slack_of : ModelDescription → DeviceLimits → ℕ
slack_of model limits =
    mul64 (2 * length model.layers) (limits.storage_offset_alignment + binding_granule)

abbrev pub fixed_bytes : ModelDescription → DeviceLimits → ResidencyPlan → ℕ
fixed_bytes model limits out =
    add64 (add64 out.weight_bytes out.scratch_bytes) (slack_of model limits)

abbrev pub total_within : ℕ → Option ℕ → Bool
total_within budget none = false
total_within budget (some total) = leb total budget

abbrev pub within_budget : ℕ → ℕ → Option ℕ → Bool
within_budget fixed budget none = false
within_budget fixed budget (some bytes) = total_within budget (checked_add fixed bytes)

-- The closure `fits`.
unfoldable pub fits : List CacheCost → ℕ → ℕ → ℕ → ℕ → Bool
fits layers limit fixed budget context =
    within_budget fixed budget (cache_bytes_at layers context limit)

-- `while (low < high)`, on fuel: `test` is `fits`.
unfoldable pub bisect : (ℕ → Bool) → ℕ → ℕ → ℕ → Option ℕ
bisect test zero low high = if ltb low high then none else some low
bisect test (suc fuel) low high =
    let mid : ℕ = low + (high - low + 1) / 2 in
    let up : Option ℕ = bisect test fuel mid high in
    let down : Option ℕ = bisect test fuel low (mid - 1) in
    if ltb low high then (if test mid then up else down) else some low

-- The loop that places each layer's keys and values.
unfoldable pub place_layers : List CacheCost → Packer → ResidencyPlan → Step
place_layers [] p out = planned out
place_layers (layer ∷ rest) p out =
    let slots : ℕ = slots_at layer out.context_offered in
    elim (place p out.buffers (mul64 slots layer.slot_bytes) false) [
      | none ↦ failure overflow no_subject out
      | some k ↦ elim (place k.packer k.buffers (mul64 slots layer.slot_bytes) false) [
        | none ↦ failure overflow no_subject (record out { buffers = k.buffers })
        | some v ↦ place_layers rest v.packer (record out {
          buffers = v.buffers;
          cache = out.cache ++ (record { keys = k.range; values = v.range; slots = slots } ∷ []);
        })
      ]
    ]

-- The failure when not even the shortest context fits: the total that it would need.
unfoldable pub too_large : Option ℕ → ℕ → ResidencyPlan → Step
too_large none fixed out = failure overflow no_subject out
too_large (some bytes) fixed out = elim (checked_add fixed bytes) [
  | none ↦ failure overflow no_subject out
  | some total ↦ failure exceeds_budget no_subject (record out { total_bytes = total })
]

-- The bisection ends within its fuel, so `stuck` is never the answer.
abbrev pub with_context : Option ℕ → (ℕ → Step) → Step
with_context none f = stuck
with_context (some context) f = f context

abbrev pub shortest_context : ModelDescription → ℕ
shortest_context model = min prefill_block model.trained_context

-- The largest context that fits, and the layers at it.
abbrev pub place_largest :
    ModelDescription → DeviceLimits → ResidencyPlan → List CacheCost → (ℕ → Bool) → Step
place_largest model limits out layers test =
    with_context (bisect test 32 (shortest_context model) model.trained_context) λ context.
      place_layers layers (new_packer cache limits) (record out { context_offered = context })

unfoldable pub place_costs :
    ModelDescription → DeviceLimits → LoadPolicy → ResidencyPlan → List CacheCost → Step
place_costs model limits policy out layers =
    let limit : ℕ = range_limit limits in
    let fixed : ℕ = fixed_bytes model limits out in
    if not (fits layers limit fixed policy.memory_budget (shortest_context model))
    then too_large (cache_bytes_at layers (shortest_context model) limit) fixed out
    else place_largest model limits out layers (fits layers limit fixed policy.memory_budget)

abbrev pub with_costs : Costs → (List CacheCost → Step) → Step
with_costs (costs layers) f = f layers
with_costs (no_costs s) f = s

-- Every cache precision has a row in the format table.
abbrev pub with_layout : Option FormatLayout → (FormatLayout → Step) → Step
with_layout (some layout) f = f layout
with_layout none f = stuck

unfoldable pub place_cache : ModelDescription → DeviceLimits → LoadPolicy → ResidencyPlan → Step
place_cache model limits policy out =
    with_layout (format_layout (storage_type policy.cache_precision)) λ layout.
      with_costs (layer_costs layout policy out 0 model.layers)
        (place_costs model limits policy out)
