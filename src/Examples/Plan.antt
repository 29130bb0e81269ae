-- ===== src/Examples/Plan.antt =====
-- A small model planned on a small device: a tensor cut into pieces, the working buffers, one cache.
use browser_llm.Base.{◌^◌, ◌≡◌, refl, none, [], ◌∷◌, arith}
use browser_llm.Base.Bits.{IsPow2}
use browser_llm.Gguf.Types.{TensorEntry, find_layout, format_layout, format_layouts}
use browser_llm.Gguf.Checked.{checked_add, checked_mul}
use browser_llm.Residency.Packer.{
  DeviceLimits, back_size, new_packer, place, range_limit, round_up, set_back_size,
}
use browser_llm.Residency.Packer.Rounding.{IsDevice}
use browser_llm.Residency.Packer.Ranges.{IsPacked}
use browser_llm.Residency.Model.{
  ModelDescription, ResidencyPlan, Step, planned, default_policy, empty_plan, failure, stuck,
}
use browser_llm.Residency.Plan.Cache.{
  bisect, cache_bytes_from, fits, layer_costs, place_cache, place_costs, place_layers, storage_type,
  too_large,
}
use browser_llm.Residency.Plan.{
  is_tied_copy, place_needs, place_pieces, place_scratch, place_tensors, place_weights,
  plan_residency, pool_bytes, same_contents, same_extents, scratch_needs, tensor_pieces,
}
use browser_llm.Residency.Plan.Whole.{plan_residency-IsPacked}
use browser_llm.Residency.Plan.Whole.Needs.{ranges_of}
use browser_llm.Residency.Plan.Ends.{plan_residency-IsAnswer}
use browser_llm.Residency.Plan.Ends.Answers.{IsAnswer}
use browser_llm.Residency.Plan.Ends.Pieces.{IsPlannable}

abbrev small_device : DeviceLimits
small_device = record {
  max_buffer_size = 2 ^ 20;
  max_storage_binding_size = 2 ^ 17;
  storage_offset_alignment = 32;
}

thirty_two : IsPow2 32
unfolding IsPow2
thirty_two = (5, refl)

small_device-IsDevice : IsDevice small_device
small_device-IsDevice = record {
  buffer_fits = omega arith;
  binding_fits = omega arith;
  alignment_fits = omega arith;
  alignment_power = thirty_two;
}

-- 1500 rows of 32 floats, more bytes than one binding holds.
abbrev wide_tensor : TensorEntry
wide_tensor = record {
  name = [];
  type = 0;
  dimension_count = 2;
  dimensions = 32 ∷ 1500 ∷ 1 ∷ 1 ∷ [];
  element_count = 48000;
  data_offset = 0;
  data_length = 192000;
}

abbrev small_model : ModelDescription
small_model = record {
  vocabulary_size = 1500;
  embedding_width = 32;
  trained_context = 600;
  norm_epsilon = 0;
  token_embedding = 0;
  output_norm = 0;
  output_head = none;
  layers =
      record {
        query_heads = 1;
        key_value_heads = 1;
        head_dimension = 32;
        feed_forward_width = 32;
        attention_window = 600;
        rope_base = 0;
        tensors = λ r. none;
      }
      ∷ [];
}

abbrev plan_in : Step → ResidencyPlan
plan_in (planned plan) = plan
plan_in (failure e s plan) = plan
plan_in stuck = empty_plan

abbrev small_plan : ResidencyPlan
small_plan = plan_in (plan_residency (wide_tensor ∷ []) small_model small_device default_policy)

small_planned :
    plan_residency (wide_tensor ∷ []) small_model small_device default_policy ≡ planned small_plan
unfolding find_layout format_layout format_layouts checked_add checked_mul back_size new_packer
    place range_limit round_up set_back_size bisect cache_bytes_from fits layer_costs place_cache
    place_costs place_layers storage_type too_large is_tied_copy place_needs place_pieces
    place_scratch place_tensors place_weights plan_residency pool_bytes same_contents same_extents
    scratch_needs tensor_pieces
small_planned = refl

plan_residency-IsPacked_example : IsPacked small_device small_plan.buffers (ranges_of small_plan)
plan_residency-IsPacked_example =
    plan_residency-IsPacked (wide_tensor ∷ []) small_model small_device default_policy small_plan
      small_device-IsDevice small_planned

wide_tensor-IsPlannable : IsPlannable (range_limit small_device) wide_tensor
unfolding range_limit
wide_tensor-IsPlannable = record { rows_hold = λ _. omega arith; small = omega arith }

plan_residency-IsAnswer_example :
    IsAnswer (plan_residency (wide_tensor ∷ []) small_model small_device default_policy)
plan_residency-IsAnswer_example =
    plan_residency-IsAnswer (wide_tensor ∷ []) small_model small_device default_policy
      (wide_tensor-IsPlannable, tt) (omega arith)
