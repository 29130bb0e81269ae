-- ===== src/Examples/Arch.antt =====
-- A model of one layer, and a file that declares nothing.
use browser_llm.Base.{◌≡◌, ◌↔◌, refl, ℕ, none, some, List, [], ◌∷◌}
use browser_llm.Gguf.Types.{
  TensorIndex, TensorEntry, MetadataEntry, ValueType, unsigned, single_bits, array_at,
}
use browser_llm.Gguf.Parse.{text_eq}
use browser_llm.Gguf.Index.{find, find_from, entry, entry_in}
use browser_llm.Gguf.Index.Typed.{read_u32, read_f32, read_array}
use browser_llm.Model.{Role, RoleTensors, LayerDescription, ModelDescription}
use browser_llm.Arch.{DescribeError, described, failure, ◌>>=◌, codes, Hyperparameters}
use browser_llm.Arch.Names.{digits_before}
use browser_llm.Arch.Describe.{
  put_role, find_tensor, read_u32_or, required_u32, required_f32, required_positive,
  read_hyperparameters, fill_roles, fill_layers, describe_layers,
}
use browser_llm.Arch.Describe.Architectures.{llama, describe, describe_llama}
use browser_llm.Arch.Numbers.{IsHyperparameters, read_hyperparameters_iff}
use browser_llm.Arch.Families.{IsModel, describe-IsModel}
use browser_llm.Arch.Faults.{IsFault}
use browser_llm.Arch.Failures.{describe-IsFault}
use browser_llm.Arch.Distinct.{describe-apart}

abbrev number : List ℕ → ℕ → MetadataEntry
number key n = record { key = key; type = ValueType.uint32; value = unsigned n }

abbrev float : List ℕ → ℕ → MetadataEntry
float key bits = record { key = key; type = ValueType.float32; value = single_bits bits }

abbrev tensor : List ℕ → ℕ → List ℕ → TensorEntry
tensor name count dimensions = record {
  name = name;
  type = 0;
  dimension_count = count;
  dimensions = dimensions;
  element_count = 0;
  data_offset = 0;
  data_length = 0;
}

abbrev row : List ℕ → ℕ → TensorEntry
row name d0 = tensor name 1 (d0 ∷ 1 ∷ 1 ∷ 1 ∷ [])

abbrev plane : List ℕ → ℕ → ℕ → TensorEntry
plane name d0 d1 = tensor name 2 (d0 ∷ d1 ∷ 1 ∷ 1 ∷ [])

-- Four values wide, two heads of two values that share one of keys and values.
abbrev tiny_index : TensorIndex
tiny_index = record {
  tensors =
      plane (codes "token_embd.weight") 4 5
      ∷ row (codes "output_norm.weight") 4
      ∷ row (codes "blk.0.attn_norm.weight") 4
      ∷ plane (codes "blk.0.attn_q.weight") 4 4
      ∷ plane (codes "blk.0.attn_k.weight") 4 2
      ∷ plane (codes "blk.0.attn_v.weight") 4 2
      ∷ plane (codes "blk.0.attn_output.weight") 4 4
      ∷ row (codes "blk.0.ffn_norm.weight") 4
      ∷ plane (codes "blk.0.ffn_gate.weight") 4 6
      ∷ plane (codes "blk.0.ffn_up.weight") 4 6
      ∷ plane (codes "blk.0.ffn_down.weight") 6 4
      ∷ [];
  metadata =
      number (codes "llama.block_count") 1
      ∷ number (codes "llama.context_length") 64
      ∷ number (codes "llama.embedding_length") 4
      ∷ number (codes "llama.feed_forward_length") 6
      ∷ number (codes "llama.attention.head_count") 2
      ∷ number (codes "llama.attention.head_count_kv") 1
      ∷ float (codes "llama.attention.layer_norm_rms_epsilon") 925353388
      ∷ float (codes "llama.rope.freq_base") 1176256512
      ∷ record {
        key = codes "tokenizer.ggml.tokens";
        type = ValueType.array;
        value = array_at (record {
          element_type = ValueType.string;
          element_count = 5;
          bytes = record { offset = 0; length = 60 };
        });
      }
      ∷ [];
}

abbrev tiny_numbers : Hyperparameters
tiny_numbers = record {
  block_count = 1;
  context_length = 64;
  embedding_length = 4;
  feed_forward_length = 6;
  head_count = 2;
  head_count_kv = 1;
  head_dimension = 2;
  norm_epsilon = 925353388;
  rope_base = 1176256512;
}

abbrev tiny_tensors : RoleTensors
tiny_tensors =
    put_role
      (put_role
        (put_role
          (put_role
            (put_role
              (put_role
                (put_role
                  (put_role (put_role (λ r. none) Role.attention_norm (some 2)) Role.query (some 3))
                  Role.key (some 4))
                Role.value (some 5))
              Role.attention_output (some 6))
            Role.feed_forward_norm (some 7))
          Role.gate (some 8))
        Role.up (some 9))
      Role.down (some 10)

abbrev tiny_layer : LayerDescription
tiny_layer = record {
  query_heads = 2;
  key_value_heads = 1;
  head_dimension = 2;
  feed_forward_width = 6;
  attention_window = 64;
  rope_base = 1176256512;
  tensors = tiny_tensors;
}

abbrev tiny_model : ModelDescription
tiny_model = record {
  vocabulary_size = 5;
  embedding_width = 4;
  trained_context = 64;
  norm_epsilon = 925353388;
  token_embedding = 0;
  output_norm = 1;
  output_head = none;
  layers = tiny_layer ∷ [];
}

tiny_described : describe llama tiny_index ≡ described tiny_model
unfolding describe_llama read_hyperparameters required_positive required_u32 required_f32
    read_u32_or read_u32 read_f32 read_array entry entry_in text_eq find find_from find_tensor
    describe_layers fill_layers fill_roles digits_before ◌>>=◌
tiny_described = refl

describe-IsModel_example : IsModel llama tiny_index tiny_model
describe-IsModel_example = describe-IsModel llama tiny_index tiny_model tiny_described

read_hyperparameters_iff_example :
    (read_hyperparameters tiny_index (codes "llama") ≡ described tiny_numbers)
    ↔ IsHyperparameters tiny_index (codes "llama") tiny_numbers
read_hyperparameters_iff_example = read_hyperparameters_iff tiny_index (codes "llama") tiny_numbers

describe-apart_example : (◌≡◌ {A = ℕ} 0 0) × (Role.gate ≡ Role.gate)
describe-apart_example =
    describe-apart llama tiny_index tiny_model 0 0 tiny_layer tiny_layer Role.gate Role.gate 8
      tiny_described refl refl refl refl

-- The same file without its tensors, which are then fewer than the layers.
abbrev bare_index : TensorIndex
bare_index = record tiny_index { tensors = [] }

bare_failure :
    describe llama bare_index ≡ failure DescribeError.invalid_value (codes "llama.block_count")
unfolding describe_llama read_hyperparameters required_positive required_u32 required_f32
    read_u32_or read_u32 read_f32 entry entry_in text_eq ◌>>=◌
bare_failure = refl

describe-IsFault_example :
    IsFault llama bare_index DescribeError.invalid_value (codes "llama.block_count")
describe-IsFault_example =
    describe-IsFault llama bare_index DescribeError.invalid_value (codes "llama.block_count")
      bare_failure
