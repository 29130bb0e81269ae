-- ===== src/Arch/Describe/Architectures.antt =====
-- The architectures, src/core/arch/llama/llama.cpp, qwen3/qwen3.cpp and gemma3/gemma3.cpp: the roles of
-- their layers, and how each describes a file.
use browser_llm.Base.{ℕ, suc, ◌-◌, ◌%◌, List, [], ◌∷◌, ◌==◌, if◌then◌else◌}
use browser_llm.Gguf.Types.{TensorIndex, ArrayLocation}
use browser_llm.Gguf.Index.Typed.{
  Access, found, missing_key, wrong_type, no_alternative, read_array,
}
use browser_llm.Model.{Role, LayerDescription, ModelDescription}
use browser_llm.Arch.{DescribeError, Described, described, failure, ◌>>=◌, codes, RoleName}
use browser_llm.Arch.Describe.{
  fail_if, read_u32_or, read_f32_or, read_hyperparameters, describe_layers,
}

abbrev pub role_name : Role → List ℕ → RoleName
role_name role suffix = record { role = role; suffix = suffix }

abbrev pub llama_roles : List RoleName
llama_roles =
    role_name Role.attention_norm (codes "attn_norm.weight")
    ∷ role_name Role.query (codes "attn_q.weight")
    ∷ role_name Role.key (codes "attn_k.weight")
    ∷ role_name Role.value (codes "attn_v.weight")
    ∷ role_name Role.attention_output (codes "attn_output.weight")
    ∷ role_name Role.feed_forward_norm (codes "ffn_norm.weight")
    ∷ role_name Role.gate (codes "ffn_gate.weight")
    ∷ role_name Role.up (codes "ffn_up.weight")
    ∷ role_name Role.down (codes "ffn_down.weight")
    ∷ []

abbrev pub qwen3_roles : List RoleName
qwen3_roles =
    role_name Role.attention_norm (codes "attn_norm.weight")
    ∷ role_name Role.query (codes "attn_q.weight")
    ∷ role_name Role.key (codes "attn_k.weight")
    ∷ role_name Role.value (codes "attn_v.weight")
    ∷ role_name Role.query_norm (codes "attn_q_norm.weight")
    ∷ role_name Role.key_norm (codes "attn_k_norm.weight")
    ∷ role_name Role.attention_output (codes "attn_output.weight")
    ∷ role_name Role.feed_forward_norm (codes "ffn_norm.weight")
    ∷ role_name Role.gate (codes "ffn_gate.weight")
    ∷ role_name Role.up (codes "ffn_up.weight")
    ∷ role_name Role.down (codes "ffn_down.weight")
    ∷ []

abbrev pub gemma3_roles : List RoleName
gemma3_roles =
    role_name Role.attention_norm (codes "attn_norm.weight")
    ∷ role_name Role.query (codes "attn_q.weight")
    ∷ role_name Role.key (codes "attn_k.weight")
    ∷ role_name Role.value (codes "attn_v.weight")
    ∷ role_name Role.query_norm (codes "attn_q_norm.weight")
    ∷ role_name Role.key_norm (codes "attn_k_norm.weight")
    ∷ role_name Role.attention_output (codes "attn_output.weight")
    ∷ role_name Role.post_attention_norm (codes "post_attention_norm.weight")
    ∷ role_name Role.feed_forward_norm (codes "ffn_norm.weight")
    ∷ role_name Role.gate (codes "ffn_gate.weight")
    ∷ role_name Role.up (codes "ffn_up.weight")
    ∷ role_name Role.down (codes "ffn_down.weight")
    ∷ role_name Role.post_feed_forward_norm (codes "post_ffw_norm.weight")
    ∷ []

-- The bits of 10000.0f.
abbrev pub default_window_rope_base : ℕ
default_window_rope_base = 1176256512

abbrev pub default_pattern : ℕ
default_pattern = 6

-- The loop over the layers, from number `layer` on; the last of each run of `pattern` stays.
unfoldable pub window_layers : ℕ → ℕ → ℕ → ℕ → List LayerDescription → List LayerDescription
window_layers pattern window base layer [] = []
window_layers pattern window base layer (l ∷ rest) =
    (if layer % pattern == pattern - 1
      then l
      else record l { attention_window = window; rope_base = base })
    ∷ window_layers pattern window base (suc layer) rest

abbrev pub pattern_key : List ℕ
pattern_key = codes "gemma3.attention.sliding_window_pattern"

abbrev pub refuse_per_layer : Access ArrayLocation → Described (Unit {0})
refuse_per_layer (found per_layer) = failure DescribeError.unsupported_value pattern_key
refuse_per_layer missing_key = described tt
refuse_per_layer wrong_type = described tt
refuse_per_layer no_alternative = described tt

module _ (index : TensorIndex) where
  abbrev pub apply_window : ℕ → ModelDescription → Described ModelDescription
  apply_window window out = do
    _ ← refuse_per_layer (read_array index pattern_key)
    pattern ←
        read_u32_or index (codes "gemma3") (codes "attention.sliding_window_pattern")
          default_pattern
    _ ← fail_if (pattern == 0) DescribeError.invalid_value pattern_key
    base ← read_f32_or index (codes "gemma3") (codes "rope.freq_base_swa") default_window_rope_base
    described (record out { layers = window_layers pattern window base 0 out.layers })

  unfoldable pub apply_sliding_window : ModelDescription → Described ModelDescription
  apply_sliding_window out = do
    window ← read_u32_or index (codes "gemma3") (codes "attention.sliding_window") 0
    if window == 0 then described out else apply_window window out

  unfoldable pub describe_llama : Described ModelDescription
  describe_llama = do
    hp ← read_hyperparameters index (codes "llama")
    describe_layers index hp llama_roles

  unfoldable pub describe_qwen3 : Described ModelDescription
  describe_qwen3 = do
    hp ← read_hyperparameters index (codes "qwen3")
    describe_layers index hp qwen3_roles

  unfoldable pub describe_gemma3 : Described ModelDescription
  describe_gemma3 = do
    hp ← read_hyperparameters index (codes "gemma3")
    out ← describe_layers index hp gemma3_roles
    apply_sliding_window out

-- The constants `kLlama`, `kQwen3` and `kGemma3`; a constant's members are the two functions below.
pub data Architecture : Type 0 where
  llama : Architecture
  qwen3 : Architecture
  gemma3 : Architecture

abbrev pub architecture_name : Architecture → List ℕ
architecture_name llama = codes "llama"
architecture_name qwen3 = codes "qwen3"
architecture_name gemma3 = codes "gemma3"

abbrev pub describe : Architecture → TensorIndex → Described ModelDescription
describe llama index = describe_llama index
describe qwen3 index = describe_qwen3 index
describe gemma3 index = describe_gemma3 index
