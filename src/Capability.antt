-- ===== src/Capability.antt =====
-- The table of what the program implements, src/core/capability/capability.cpp. A row of a format holds the
-- Format itself; one of a tokenizer or a pre-tokenizer what preflight asks of it.
use browser_llm.Base.{ℕ, Bool, true, false, Option, none, some, List, [], ◌∷◌, ◌==◌, if◌then◌else◌}
use browser_llm.Gguf.Types.{TensorType, f32, q4_0, q4_1, q6_k, q8_0}
use browser_llm.Gguf.Parse.{text_eq}
use browser_llm.Formats.{Format, f32_layout, q4_0_layout, q4_1_layout, q6_k_layout, q8_0_layout}
use browser_llm.Arch.{codes}
use browser_llm.Arch.Describe.Architectures.{Architecture, llama, qwen3, gemma3}

-- The first row of an identifier; none is the null pointer.
unfoldable pub lookup : {I A : Type 0} → (I → I → Bool) → List (I × A) → I → Option A
lookup same [] identifier = none
lookup same (row ∷ rest) identifier =
    if same row.0 identifier then some row.1 else lookup same rest identifier

unfoldable pub architectures : List (List ℕ × Architecture)
architectures = (codes "gemma3", gemma3) ∷ (codes "llama", llama) ∷ (codes "qwen3", qwen3) ∷ []

unfoldable pub find_architecture : List ℕ → Option Architecture
find_architecture name = lookup text_eq architectures name

abbrev pub same_type : TensorType → TensorType → Bool
same_type a b = a == b

unfoldable pub formats : List (TensorType × Format)
formats =
    (f32, record { layout = f32_layout })
    ∷ (q4_0, record { layout = q4_0_layout })
    ∷ (q4_1, record { layout = q4_1_layout })
    ∷ (q6_k, record { layout = q6_k_layout })
    ∷ (q8_0, record { layout = q8_0_layout })
    ∷ []

unfoldable pub find_format : TensorType → Option Format
find_format type = lookup same_type formats type

-- A tokenizer's algorithm, of which preflight asks only this.
pub record Algorithm : Type 0 where
  pub requires_pretokenizer : Bool

unfoldable pub tokenizers : List (List ℕ × Algorithm)
tokenizers =
    (codes "gpt2", record { requires_pretokenizer = true })
    ∷ (codes "llama", record { requires_pretokenizer = false })
    ∷ []

unfoldable pub find_tokenizer : List ℕ → Option Algorithm
find_tokenizer model = lookup text_eq tokenizers model

pub data PreTokenizer : Type 0 where
  llama_bpe qwen2 : PreTokenizer

unfoldable pub pretokenizers : List (List ℕ × PreTokenizer)
pretokenizers = (codes "llama-bpe", llama_bpe) ∷ (codes "qwen2", qwen2) ∷ []

unfoldable pub find_pretokenizer : List ℕ → Option PreTokenizer
find_pretokenizer pre = lookup text_eq pretokenizers pre
