-- ===== src/Arch/Faults.antt =====
-- What a file that cannot be described has wrong, for each kind of failure, src/core/arch/describe.cpp
-- and the architectures.
use browser_llm.Base.{
  ℕ, ◌/◌, ◌%◌, ◌^◌, ◌<◌, ◌≡◌, ◌≢◌, ◌⊎◌, Bool, true, false, Option, none, some, List, [], ◌∷◌, ◌++◌,
  length, get_elem?,
}
use browser_llm.Gguf.Types.{
  TensorIndex, MetadataEntry, MetadataValue, ValueType, ArrayLocation, unsigned, single_bits,
  array_at,
}
use browser_llm.Gguf.Index.{find, entry}
use browser_llm.Gguf.Index.Typed.{found, read_u32, read_array}
use browser_llm.Arch.{DescribeError, codes, Hyperparameters, RoleName}
use browser_llm.Arch.Describe.{key_of, Shape, matrix, vector, shape_of, layer_prefix}
use browser_llm.Arch.Describe.Architectures.{Architecture, gemma3, architecture_name, pattern_key}
use browser_llm.Arch.Outcomes.{IsOptional}
use browser_llm.Arch.Numbers.{IsPositive, IsHyperparameters}
use browser_llm.Arch.Tensors.{IsTensor}
use browser_llm.Arch.Families.{roles_of}

-- The keys that every architecture's file must have, with their types.
abbrev pub required_keys : List ℕ → List (List ℕ × ValueType)
required_keys arch =
    (key_of arch (codes "block_count"), ValueType.uint32)
    ∷ (key_of arch (codes "context_length"), ValueType.uint32)
    ∷ (key_of arch (codes "embedding_length"), ValueType.uint32)
    ∷ (key_of arch (codes "feed_forward_length"), ValueType.uint32)
    ∷ (key_of arch (codes "attention.head_count"), ValueType.uint32)
    ∷ (key_of arch (codes "attention.head_count_kv"), ValueType.uint32)
    ∷ (key_of arch (codes "attention.layer_norm_rms_epsilon"), ValueType.float32)
    ∷ (key_of arch (codes "rope.freq_base"), ValueType.float32)
    ∷ (codes "tokenizer.ggml.tokens", ValueType.array)
    ∷ []

-- The keys that it may have. Those of the windows are Gemma 3's.
abbrev pub optional_keys : List ℕ → List (List ℕ × ValueType)
optional_keys arch =
    (key_of arch (codes "attention.key_length"), ValueType.uint32)
    ∷ (key_of arch (codes "attention.value_length"), ValueType.uint32)
    ∷ []

abbrev pub window_keys : List (List ℕ × ValueType)
window_keys =
    (codes "gemma3.attention.sliding_window", ValueType.uint32)
    ∷ (codes "gemma3.attention.sliding_window_pattern", ValueType.uint32)
    ∷ (codes "gemma3.rope.freq_base_swa", ValueType.float32)
    ∷ []

abbrev IsKeyOf : List (List ℕ × ValueType) → List ℕ → ValueType → Type 0
IsKeyOf keys s t = (i : ℕ) × (get_elem? keys i ≡ some (s, t))

abbrev pub IsRequired : Architecture → List ℕ → ValueType → Type 0
IsRequired a s t = IsKeyOf (required_keys (architecture_name a)) s t

abbrev pub IsAsked : Architecture → List ℕ → ValueType → Type 0
IsAsked a s t =
    IsRequired a s t
    ⊎ IsKeyOf (optional_keys (architecture_name a)) s t
    ⊎ ((a ≡ gemma3) × IsKeyOf window_keys s t)

-- The value is one of the type, for the types that are asked for.
abbrev pub HoldsValue : ValueType → MetadataValue → Type 0
HoldsValue ValueType.uint32 v = (n : ℕ) × (v ≡ unsigned n)
HoldsValue ValueType.float32 v = (n : ℕ) × (v ≡ single_bits n)
HoldsValue ValueType.array v = (l : ArrayLocation) × (v ≡ array_at l)
HoldsValue _ v = Unit

-- There is an entry, and it has another type, or a value of another.
abbrev pub IsMistyped : ValueType → Option MetadataEntry → Type 0
IsMistyped t o = (e : MetadataEntry) × (o ≡ some e) × ((e.type ≢ t) ⊎ ¬ HoldsValue t e.value)

-- The tensors that the description of a file with these numbers looks up, their shapes, and whether
-- they are required.
pub data IsWanted (a : Architecture) (index : TensorIndex) (hp : Hyperparameters)
    : List ℕ → Shape → Bool → Type 0 where
  embedding :
      (tokens : ArrayLocation)
      → read_array index (codes "tokenizer.ggml.tokens") ≡ found tokens
      → IsWanted a index hp
          (codes "token_embd.weight")
          (matrix hp.embedding_length (tokens.element_count % 2 ^ 32))
          true
  norm : IsWanted a index hp (codes "output_norm.weight") (vector hp.embedding_length) true
  head :
      (tokens : ArrayLocation)
      → read_array index (codes "tokenizer.ggml.tokens") ≡ found tokens
      → IsWanted a index hp
          (codes "output.weight")
          (matrix hp.embedding_length (tokens.element_count % 2 ^ 32))
          false
  weight :
      (layer k : ℕ) (n : RoleName)
      → layer < hp.block_count
      → get_elem? (roles_of a) k ≡ some n
      → IsWanted a index hp (layer_prefix layer ++ n.suffix) (shape_of n.role hp) true

module _ (a : Architecture) (index : TensorIndex) where
  -- The file asks for windows of some tokens.
  abbrev pub IsWindowed : Type 0
  IsWindowed =
      (a ≡ gemma3)
      × (w : ℕ) × (read_u32 index (codes "gemma3.attention.sliding_window") ≡ found w)
      × (0 < w)

  -- The head's dimension that the file declares, or else the embedding's width over the heads.
  pub record IsDimension (dimension : ℕ) : Type 0 where
    pub width : ℕ
    pub heads : ℕ
    pub width_read : IsPositive index (architecture_name a) (codes "embedding_length") width
    pub heads_read : IsPositive index (architecture_name a) (codes "attention.head_count") heads
    pub dimension_read :
        IsOptional
          (read_u32 index (key_of (architecture_name a) (codes "attention.key_length")))
          (width / heads)
          dimension

  -- The numbers that no model can have: a count or a width of zero, heads that the key heads do not
  -- divide, heads of no dimension, more layers than tensors, runs of no layers.
  pub data IsInvalid : List ℕ → Type 0 where
    zero_number :
        (s : List ℕ) → IsRequired a s ValueType.uint32 → read_u32 index s ≡ found 0 → IsInvalid s
    ungrouped :
        (heads groups : ℕ)
        → IsPositive index (architecture_name a) (codes "attention.head_count") heads
        → IsPositive index (architecture_name a) (codes "attention.head_count_kv") groups
        → heads % groups ≢ 0
        → IsInvalid (key_of (architecture_name a) (codes "attention.head_count_kv"))
    no_dimension :
        IsDimension 0 → IsInvalid (key_of (architecture_name a) (codes "attention.key_length"))
    few_tensors :
        (layers : ℕ)
        → read_u32 index (key_of (architecture_name a) (codes "block_count")) ≡ found layers
        → length index.tensors < layers
        → IsInvalid (key_of (architecture_name a) (codes "block_count"))
    zero_pattern : IsWindowed → read_u32 index pattern_key ≡ found 0 → IsInvalid pattern_key

  -- What a model can have and the architectures do not support: values as wide as no keys are, and a
  -- list of the layers with windows.
  pub data IsUnsupported : List ℕ → Type 0 where
    other_width :
        (dimension values : ℕ)
        → IsDimension dimension
        → read_u32 index (key_of (architecture_name a) (codes "attention.value_length"))
          ≡ found values
        → values ≢ dimension
        → IsUnsupported (key_of (architecture_name a) (codes "attention.value_length"))
    per_layer :
        (l : ArrayLocation)
        → IsWindowed
        → read_array index pattern_key ≡ found l
        → IsUnsupported pattern_key

  -- What the file has wrong under the subject of each kind of failure.
  pub data IsFault : DescribeError → List ℕ → Type 0 where
    no_key :
        (s : List ℕ) (t : ValueType)
        → IsRequired a s t
        → entry index s ≡ none
        → IsFault DescribeError.missing_key s
    mistyped_key :
        (s : List ℕ) (t : ValueType)
        → IsAsked a s t
        → IsMistyped t (entry index s)
        → IsFault DescribeError.wrong_key_type s
    no_tensor :
        (s : List ℕ) (hp : Hyperparameters) (shape : Shape)
        → IsHyperparameters index (architecture_name a) hp
        → IsWanted a index hp s shape true
        → find index s ≡ none
        → IsFault DescribeError.missing_tensor s
    misshaped_tensor :
        (s : List ℕ) (hp : Hyperparameters) (shape : Shape) (required : Bool) (k : ℕ)
        → IsHyperparameters index (architecture_name a) hp
        → IsWanted a index hp s shape required
        → find index s ≡ some k
        → ¬ IsTensor index s shape k
        → IsFault DescribeError.shape_mismatch s
    invalid : (s : List ℕ) → IsInvalid s → IsFault DescribeError.invalid_value s
    unsupported : (s : List ℕ) → IsUnsupported s → IsFault DescribeError.unsupported_value s
