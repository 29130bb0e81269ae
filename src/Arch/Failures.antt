-- ===== src/Arch/Failures.antt =====
-- Every failure to describe a file is a fault of it, src/core/arch/describe.cpp and the architectures.
pub mod Numbers
pub mod Layers
use browser_llm.Base.{ℕ, ◌≡◌, inl, inr, refl, ap, ◌∙◌, true, false, List, arith, ◌==◌, Bool-cases}
use browser_llm.Gguf.Types.{TensorIndex, ArrayLocation}
use browser_llm.Gguf.Index.Typed.{
  Access, found, missing_key, wrong_type, no_alternative, read_u32, read_array,
}
use browser_llm.Model.{ModelDescription}
use browser_llm.Arch.{DescribeError, described, failure, codes, Hyperparameters}
use browser_llm.Arch.Describe.{read_hyperparameters}
use browser_llm.Arch.Describe.Architectures.{
  default_pattern, default_window_rope_base, pattern_key, refuse_per_layer, apply_sliding_window,
  describe_llama, describe_qwen3, describe_gemma3, Architecture, llama, qwen3, gemma3,
  architecture_name, describe,
}
use browser_llm.Arch.Outcomes.{IsOptional}
use browser_llm.Arch.Numbers.{IsHyperparameters, read_hyperparameters-IsHyperparameters}
use browser_llm.Arch.Faults.{IsWindowed, zero_pattern, per_layer, IsFault, invalid, unsupported}
use browser_llm.Arch.Steps.{AreFaults, described_step, failing, bind_step, fail_if_step}
use browser_llm.Arch.Failures.Numbers.{u32_or_step, f32_or_step, u32_or-read, hyperparameters_step}
use browser_llm.Arch.Failures.Layers.{layers_step}

module _ (a : Architecture) (index : TensorIndex) (g : a ≡ gemma3) where
  per_layer_step :
      IsWindowed a index → AreFaults a index (refuse_per_layer (read_array index pattern_key))
  per_layer_step w = by_access (read_array index pattern_key) refl
    where
      by_access :
          (access : Access ArrayLocation)
          → read_array index pattern_key ≡ access
          → AreFaults a index (refuse_per_layer access)
      by_access (found l) e =
          failing a index DescribeError.unsupported_value pattern_key
            (unsupported pattern_key (per_layer l w e))
      by_access missing_key e = described_step a index tt
      by_access wrong_type e = described_step a index tt
      by_access no_alternative e = described_step a index tt

  pattern-IsFault :
      (pattern : ℕ)
      → IsWindowed a index
      → IsOptional (read_u32 index pattern_key) default_pattern pattern
      → (pattern == 0) ≡ true
      → IsFault a index DescribeError.invalid_value pattern_key
  pattern-IsFault pattern w (inl r) e =
      let none_left : pattern ≡ 0 = ground (arith, e) in
      invalid pattern_key (zero_pattern w (r ∙ ap (λ (n : ℕ). found n) none_left))
  pattern-IsFault pattern w (inr (r, same)) e = absurd (ground (arith, e, same))

  windowed :
      (window : ℕ)
      → IsOptional (read_u32 index (codes "gemma3.attention.sliding_window")) 0 window
      → (window == 0) ≡ false
      → IsWindowed a index
  windowed window (inl r) e = (g, window, r, ground (arith, e))
  windowed window (inr (r, same)) e = absurd (ground (arith, e, same))

  sliding_step : (out : ModelDescription) → AreFaults a index (apply_sliding_window index out)
  unfolding apply_sliding_window
  sliding_step out =
      bind_step a index _ _
        (u32_or_step a index (codes "gemma3") (codes "attention.sliding_window") 0
          (inr (inr (g, (0, refl)))))
        λ window h. elim (Bool-cases (window == 0)) [
          | inl e ↦ rw e (described_step a index out)
          | inr e ↦
              let w = windowed window (u32_or-read a index _ _ 0 window h) e in
              rw e (
                bind_step a index _ _ (per_layer_step w) λ u h1.
                  bind_step a index _ _
                    (u32_or_step a index (codes "gemma3") (codes "attention.sliding_window_pattern")
                      default_pattern (inr (inr (g, (1, refl)))))
                    λ pattern h2.
                      bind_step a index _ _
                        (fail_if_step a index (pattern == 0) DescribeError.invalid_value pattern_key
                          (pattern-IsFault pattern w
                            (u32_or-read a index _ _ default_pattern pattern h2)))
                        λ v h3.
                          bind_step a index _ _
                            (f32_or_step a index (codes "gemma3") (codes "rope.freq_base_swa")
                              default_window_rope_base (inr (inr (g, (2, refl)))))
                            λ base h4. described_step a index _)
        ]

module _ (index : TensorIndex) where
  numbers_of :
      (a : Architecture) (hp : Hyperparameters)
      → read_hyperparameters index (architecture_name a) ≡ described hp
      → IsHyperparameters index (architecture_name a) hp
  numbers_of a hp e = read_hyperparameters-IsHyperparameters index (architecture_name a) hp e

  describe_step : (a : Architecture) → AreFaults a index (describe a index)
  unfolding describe_llama describe_qwen3 describe_gemma3
  describe_step llama =
      bind_step llama index _ _ (hyperparameters_step llama index)
        λ hp h. layers_step llama index hp (numbers_of llama hp h)
  describe_step qwen3 =
      bind_step qwen3 index _ _ (hyperparameters_step qwen3 index)
        λ hp h. layers_step qwen3 index hp (numbers_of qwen3 hp h)
  describe_step gemma3 = bind_step gemma3 index _ _ (hyperparameters_step gemma3 index) λ hp h.
      bind_step gemma3 index _ _ (layers_step gemma3 index hp (numbers_of gemma3 hp h))
        λ out k. sliding_step gemma3 index refl out

-- A failure to describe a file is a fault of it, under the subject that is named. A missing key is a
-- required one without an entry; a key of a wrong type is one that the architecture reads, with an
-- entry of another type or value; a missing tensor is a required one that the file has not got; a
-- tensor of a wrong shape is in the file and does not have the shape that the file's numbers give
-- it. An invalid value is a count or width of zero, heads that the key heads do not divide, a head
-- dimension of zero, more layers than tensors, or for Gemma 3 with a window a pattern of zero; an
-- unsupported one is a width of the values that is not the heads', or for Gemma 3 with a window a
-- pattern that is a list.
pub describe-IsFault :
    (a : Architecture) (index : TensorIndex) (e : DescribeError) (s : List ℕ)
    → describe a index ≡ failure e s
    → IsFault a index e s
describe-IsFault a index e s h = (describe_step index a).named e s h
