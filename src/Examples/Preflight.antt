-- ===== src/Examples/Preflight.antt =====
-- A model that can be uploaded, and a confirmed copy that its plan has not got.
use browser_llm.Base.{◌≡◌, ◌↔◌, refl, ℕ, ◌^◌, ◌*◌, List, [], ◌∷◌}
use browser_llm.Gguf.Types.{
  TensorIndex, TensorEntry, MetadataEntry, ValueType, unsigned, single_bits, text, array_at,
}
use browser_llm.Preflight.{
  earliest_of, check_architecture, check_fit, check_formats, check_rows, check_tokenizer,
  count_unsupported, duplicates_of, format_blockers, short_rows, unsupported_in,
}
use browser_llm.Gguf.Index.Typed.{read_string, read_u32, read_f32, read_array}
use browser_llm.Gguf.Index.{entry, entry_in, find, find_from}
use browser_llm.Gguf.Parse.{text_eq}
use browser_llm.Capability.{
  find_architecture, lookup, architectures, find_pretokenizer, find_tokenizer, formats,
  pretokenizers, tokenizers,
}
use browser_llm.Arch.Describe.Architectures.{
  describe_llama, apply_sliding_window, describe_gemma3, describe_qwen3, window_layers,
}
use browser_llm.Arch.{◌>>=◌}
use browser_llm.Arch.Describe.{
  read_hyperparameters, required_positive, required_u32, required_f32, describe_layers, fill_layers,
  fill_roles, find_tensor, read_f32_or, read_u32_or,
}
use browser_llm.Arch.Names.{digits_before}
use browser_llm.Gguf.Checked.{checked_add, checked_mul}
use browser_llm.Gguf.Types.{find_layout, format_layout, format_layouts}
use browser_llm.Residency.Packer.{
  back_size, new_packer, place, range_limit, round_up, set_back_size,
}
use browser_llm.Residency.Plan.Cache.{
  bisect, cache_bytes_from, fits, layer_costs, place_cache, place_costs, place_layers, storage_type,
  too_large,
}
use browser_llm.Residency.Plan.{
  is_tied_copy, place_needs, place_pieces, place_scratch, place_tensors, place_weights,
  plan_residency, pool_bytes, same_contents, same_extents, scratch_needs, tensor_pieces,
}
use browser_llm.Arch.{codes}
use browser_llm.Residency.Packer.{DeviceLimits}
use browser_llm.Residency.Model.{empty_plan, default_policy}
use browser_llm.Residency.Routes.{refused_id, not_a_candidate, numbered, failure, plan_routes}
use browser_llm.Capability.{find_format}
use browser_llm.Preflight.{upload, reached, preflight}
use browser_llm.Preflight.Loadable.{IsLoadable, preflight-IsLoadable}
use browser_llm.Preflight.Routed.{IsOtherRefusal, preflight-plan_routes}

abbrev number : List ℕ → ℕ → MetadataEntry
number key n = record { key = key; type = ValueType.uint32; value = unsigned n }

abbrev float : List ℕ → ℕ → MetadataEntry
float key bits = record { key = key; type = ValueType.float32; value = single_bits bits }

-- Floats, `rows` rows of 32.
abbrev floats : List ℕ → ℕ → ℕ → TensorEntry
floats name count rows = record {
  name = name;
  type = 0;
  dimension_count = count;
  dimensions = 32 ∷ rows ∷ 1 ∷ 1 ∷ [];
  element_count = 32 * rows;
  data_offset = 0;
  data_length = 128 * rows;
}

abbrev small_index : TensorIndex
small_index = record {
  tensors =
      floats (codes "token_embd.weight") 2 5
      ∷ floats (codes "output_norm.weight") 1 1
      ∷ floats (codes "blk.0.attn_norm.weight") 1 1
      ∷ floats (codes "blk.0.attn_q.weight") 2 32
      ∷ floats (codes "blk.0.attn_k.weight") 2 32
      ∷ floats (codes "blk.0.attn_v.weight") 2 32
      ∷ floats (codes "blk.0.attn_output.weight") 2 32
      ∷ floats (codes "blk.0.ffn_norm.weight") 1 1
      ∷ floats (codes "blk.0.ffn_gate.weight") 2 32
      ∷ floats (codes "blk.0.ffn_up.weight") 2 32
      ∷ floats (codes "blk.0.ffn_down.weight") 2 32
      ∷ [];
  metadata =
      record {
        key = codes "general.architecture";
        type = ValueType.string;
        value = text (codes "llama");
      }
      ∷ number (codes "llama.block_count") 1
      ∷ number (codes "llama.context_length") 600
      ∷ number (codes "llama.embedding_length") 32
      ∷ number (codes "llama.feed_forward_length") 32
      ∷ number (codes "llama.attention.head_count") 1
      ∷ number (codes "llama.attention.head_count_kv") 1
      ∷ float (codes "llama.attention.layer_norm_rms_epsilon") 925353388
      ∷ float (codes "llama.rope.freq_base") 1176256512
      ∷ record {
        key = codes "tokenizer.ggml.tokens";
        type = ValueType.array;
        value = array_at (record {
          element_type = ValueType.string;
          element_count = 5;
          bytes = record { offset = 0; length = 60 };
        });
      }
      ∷ [];
}

abbrev small_device : DeviceLimits
small_device = record {
  max_buffer_size = 2 ^ 20;
  max_storage_binding_size = 2 ^ 20;
  storage_offset_alignment = 32;
}

preflight-IsLoadable_example :
    (reached (preflight small_index small_device default_policy) ≡ upload)
    ↔ IsLoadable small_index small_device default_policy
preflight-IsLoadable_example = preflight-IsLoadable small_index small_device default_policy

small_reached : reached (preflight small_index small_device default_policy) ≡ upload
unfolding preflight earliest_of check_architecture read_string entry entry_in text_eq
    find_architecture lookup architectures describe_llama ◌>>=◌ read_hyperparameters
    required_positive required_u32 read_u32 required_f32 read_f32 apply_sliding_window
    describe_gemma3 describe_qwen3 window_layers describe_layers fill_layers fill_roles find_tensor
    read_f32_or read_u32_or digits_before find_format find_pretokenizer find_tokenizer formats
    pretokenizers tokenizers checked_add checked_mul read_array find find_from find_layout
    format_layout format_layouts check_fit check_formats check_rows check_tokenizer
    count_unsupported duplicates_of format_blockers short_rows unsupported_in back_size new_packer
    place range_limit round_up set_back_size bisect cache_bytes_from fits layer_costs place_cache
    place_costs place_layers storage_type too_large is_tied_copy place_needs place_pieces
    place_scratch place_tensors place_weights plan_residency pool_bytes same_contents same_extents
    scratch_needs tensor_pieces
small_reached = refl

unknown_refused :
    plan_routes small_index empty_plan 65536 find_format (99 ∷ [])
    ≡ failure not_a_candidate (numbered 99)
unfolding plan_routes refused_id
unknown_refused = refl

preflight-plan_routes_example : IsOtherRefusal not_a_candidate
preflight-plan_routes_example =
    preflight-plan_routes small_index small_device default_policy empty_plan 65536 (99 ∷ [])
      not_a_candidate (numbered 99) small_reached unknown_refused
