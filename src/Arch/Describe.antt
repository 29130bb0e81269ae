-- ===== src/Arch/Describe.antt =====
-- Describing a model from its file's index, src/core/arch/describe.cpp.
pub mod Architectures
use browser_llm.Base.{
  ℕ, zero, suc, ◌+◌, ◌-◌, ◌/◌, ◌%◌, ◌^◌, Bool, true, false, not, ◌&&◌, ◌||◌, Option, none, some,
  List, [], ◌∷◌, ◌++◌, ltb, ◌==◌, if◌then◌else◌, length, get_or, get_elem?,
}
use browser_llm.Base.Words.{mul64}
use browser_llm.Gguf.Types.{TensorIndex, TensorEntry, ArrayLocation}
use browser_llm.Gguf.Index.{find}
use browser_llm.Gguf.Index.Typed.{
  Access, found, missing_key, wrong_type, no_alternative, read_u32, read_f32, read_array,
}
use browser_llm.Model.{TensorId, Role, role_number, RoleTensors, LayerDescription, ModelDescription}
use browser_llm.Arch.{
  DescribeError, Described, described, failure, ◌>>=◌, codes, Hyperparameters, RoleName,
}
use browser_llm.Arch.Names.{to_string}

abbrev pub key_of : List ℕ → List ℕ → List ℕ
key_of arch key = arch ++ (codes "." ++ key)

-- `from_metadata`, with the success that it is not called for.
abbrev pub from_metadata : {A : Type 0} → Access A → List ℕ → Described A
from_metadata (found a) subject = described a
from_metadata missing_key subject = failure DescribeError.missing_key subject
from_metadata wrong_type subject = failure DescribeError.wrong_key_type subject
from_metadata no_alternative subject = failure DescribeError.wrong_key_type subject

abbrev pub from_metadata_or : {A : Type 0} → A → Access A → List ℕ → Described A
from_metadata_or fallback missing_key subject = described fallback
from_metadata_or fallback access subject = from_metadata access subject

abbrev pub fail_if : Bool → DescribeError → List ℕ → Described (Unit {0})
fail_if true e subject = failure e subject
fail_if false e subject = described tt

-- The shape that a weight has.
pub record Shape : Type 0 where
  pub dimension_count : ℕ
  pub first : ℕ
  pub second : ℕ

abbrev pub matrix : ℕ → ℕ → Shape
matrix d0 d1 = record { dimension_count = 2; first = d0; second = d1 }

abbrev pub vector : ℕ → Shape
vector d0 = record { dimension_count = 1; first = d0; second = 0 }

abbrev pub query_width : Hyperparameters → ℕ
query_width hp = mul64 hp.head_count hp.head_dimension

abbrev pub key_value_width : Hyperparameters → ℕ
key_value_width hp = mul64 hp.head_count_kv hp.head_dimension

abbrev pub shape_of : Role → Hyperparameters → Shape
shape_of Role.query hp = matrix hp.embedding_length (query_width hp)
shape_of Role.key hp = matrix hp.embedding_length (key_value_width hp)
shape_of Role.value hp = matrix hp.embedding_length (key_value_width hp)
shape_of Role.attention_output hp = matrix (query_width hp) hp.embedding_length
shape_of Role.gate hp = matrix hp.embedding_length hp.feed_forward_length
shape_of Role.up hp = matrix hp.embedding_length hp.feed_forward_length
shape_of Role.down hp = matrix hp.feed_forward_length hp.embedding_length
shape_of Role.query_norm hp = vector hp.head_dimension
shape_of Role.key_norm hp = vector hp.head_dimension
shape_of Role.attention_norm hp = vector hp.embedding_length
shape_of Role.post_attention_norm hp = vector hp.embedding_length
shape_of Role.feed_forward_norm hp = vector hp.embedding_length
shape_of Role.post_feed_forward_norm hp = vector hp.embedding_length
shape_of Role.count hp = record { dimension_count = 0; first = 0; second = 0 }

abbrev pub has_shape : TensorEntry → Shape → Bool
has_shape t shape =
    if not (t.dimension_count == shape.dimension_count)
      || not (get_or t.dimensions 0 1 == shape.first)
    then false
    else (shape.dimension_count == 1) || (get_or t.dimensions 1 1 == shape.second)

-- `index.tensor(id)` and its shape; `find` gives no number that is not a tensor's.
abbrev pub tensor_has_shape : Option TensorEntry → Shape → Bool
tensor_has_shape none shape = false
tensor_has_shape (some t) shape = has_shape t shape

-- `*found`, of a tensor that was required.
abbrev pub the_tensor : Option TensorId → TensorId
the_tensor none = 0
the_tensor (some id) = id

abbrev pub put_role : RoleTensors → Role → Option TensorId → RoleTensors
put_role tensors role slot r = if role_number r == role_number role then slot else tensors r

-- "blk.<layer>."
abbrev pub layer_prefix : ℕ → List ℕ
layer_prefix layer = codes "blk." ++ (to_string layer ++ codes ".")

-- A layer as `assign` leaves it, with its tensors.
abbrev pub layer_with : Hyperparameters → RoleTensors → LayerDescription
layer_with hp tensors = record {
  query_heads = hp.head_count;
  key_value_heads = hp.head_count_kv;
  head_dimension = hp.head_dimension;
  feed_forward_width = hp.feed_forward_length;
  attention_window = hp.context_length;
  rope_base = hp.rope_base;
  tensors = tensors;
}

module _ (index : TensorIndex) where
  abbrev pub found_tensor : Option TensorId → List ℕ → Shape → Bool → Described (Option TensorId)
  found_tensor none name shape required =
      if required then failure DescribeError.missing_tensor name else described none
  found_tensor (some id) name shape required =
      if not (tensor_has_shape (get_elem? index.tensors id) shape)
      then failure DescribeError.shape_mismatch name
      else described (some id)

  unfoldable pub find_tensor : List ℕ → Shape → Bool → Described (Option TensorId)
  find_tensor name shape required = found_tensor (find index name) name shape required

  unfoldable pub read_u32_or : List ℕ → List ℕ → ℕ → Described ℕ
  read_u32_or arch key fallback =
      from_metadata_or fallback (read_u32 index (key_of arch key)) (key_of arch key)

  unfoldable pub read_f32_or : List ℕ → List ℕ → ℕ → Described ℕ
  read_f32_or arch key fallback =
      from_metadata_or fallback (read_f32 index (key_of arch key)) (key_of arch key)

  module _ (arch : List ℕ) where
    -- `read_u32` of the file, which names the key in full.
    unfoldable pub required_u32 : List ℕ → Described ℕ
    required_u32 key = from_metadata (read_u32 index (key_of arch key)) (key_of arch key)

    unfoldable pub required_f32 : List ℕ → Described ℕ
    required_f32 key = from_metadata (read_f32 index (key_of arch key)) (key_of arch key)

    -- A round of the loop over the required numbers.
    unfoldable pub required_positive : List ℕ → Described ℕ
    required_positive key = do
      value ← required_u32 key
      _ ← fail_if (value == 0) DescribeError.invalid_value (key_of arch key)
      described value

    unfoldable pub read_hyperparameters : Described Hyperparameters
    read_hyperparameters = do
      block_count ← required_positive (codes "block_count")
      context_length ← required_positive (codes "context_length")
      embedding_length ← required_positive (codes "embedding_length")
      feed_forward_length ← required_positive (codes "feed_forward_length")
      head_count ← required_positive (codes "attention.head_count")
      head_count_kv ← required_positive (codes "attention.head_count_kv")
      norm_epsilon ← required_f32 (codes "attention.layer_norm_rms_epsilon")
      rope_base ← required_f32 (codes "rope.freq_base")
      _ ←
          fail_if (not (head_count % head_count_kv == 0)) DescribeError.invalid_value
            (key_of arch (codes "attention.head_count_kv"))
      head_dimension ←
          read_u32_or arch (codes "attention.key_length") (embedding_length / head_count)
      _ ←
          fail_if (head_dimension == 0) DescribeError.invalid_value
            (key_of arch (codes "attention.key_length"))
      value_length ← read_u32_or arch (codes "attention.value_length") head_dimension
      _ ←
          fail_if (not (value_length == head_dimension)) DescribeError.unsupported_value
            (key_of arch (codes "attention.value_length"))
      _ ←
          fail_if (ltb (length index.tensors) block_count) DescribeError.invalid_value
            (key_of arch (codes "block_count"))
      described (record {
        block_count = block_count;
        context_length = context_length;
        embedding_length = embedding_length;
        feed_forward_length = feed_forward_length;
        head_count = head_count;
        head_count_kv = head_count_kv;
        head_dimension = head_dimension;
        norm_epsilon = norm_epsilon;
        rope_base = rope_base;
      })

  module _ (hp : Hyperparameters) where
    -- The loop over the roles of a layer.
    unfoldable pub fill_roles : ℕ → List RoleName → RoleTensors → Described RoleTensors
    fill_roles layer [] tensors = described tensors
    fill_roles layer (name ∷ more) tensors = do
      slot ← find_tensor (layer_prefix layer ++ name.suffix) (shape_of name.role hp) true
      fill_roles layer more (put_role tensors name.role slot)

    -- The loop over the layers, with the layers left.
    unfoldable pub fill_layers : ℕ → ℕ → List RoleName → Described (List LayerDescription)
    fill_layers zero layer roles = described []
    fill_layers (suc left) layer roles = do
      tensors ← fill_roles layer roles (λ r. none)
      rest ← fill_layers left (suc layer) roles
      described (layer_with hp tensors ∷ rest)

    unfoldable pub describe_layers : List RoleName → Described ModelDescription
    describe_layers roles = do
      tokens ←
          from_metadata (read_array index (codes "tokenizer.ggml.tokens"))
            (codes "tokenizer.ggml.tokens")
      embedding ←
          find_tensor (codes "token_embd.weight")
            (matrix hp.embedding_length (tokens.element_count % 2 ^ 32)) true
      norm ← find_tensor (codes "output_norm.weight") (vector hp.embedding_length) true
      head ←
          find_tensor (codes "output.weight")
            (matrix hp.embedding_length (tokens.element_count % 2 ^ 32)) false
      layers ← fill_layers hp.block_count 0 roles
      described (record {
        vocabulary_size = tokens.element_count % 2 ^ 32;
        embedding_width = hp.embedding_length;
        trained_context = hp.context_length;
        norm_epsilon = hp.norm_epsilon;
        token_embedding = the_tensor embedding;
        output_norm = the_tensor norm;
        output_head = head;
        layers = layers;
      })
