-- ===== src/Arch/Failures/Numbers.antt =====
-- The failures of read_hyperparameters, src/core/arch/describe.cpp.
use browser_llm.Base.{
  ℕ, ◌%◌, ◌≡◌, ◌≢◌, inl, inr, refl, ap, ◌∙◌, subst, true, not, List, arith, ltb, ltb→lt, ◌==◌,
  length,
}
use browser_llm.Gguf.Types.{TensorIndex, ValueType}
use browser_llm.Gguf.Index.Typed.{found, read_u32, read_f32}
use browser_llm.Arch.{DescribeError, described, codes}
use browser_llm.Arch.Describe.{
  from_metadata, key_of, read_u32_or, read_f32_or, required_u32, required_f32, required_positive,
  read_hyperparameters,
}
use browser_llm.Arch.Describe.Architectures.{Architecture, architecture_name}
use browser_llm.Arch.Outcomes.{IsOptional, from_metadata-described, from_metadata_or-described}
use browser_llm.Arch.Numbers.{IsPositive, required_positive-IsPositive}
use browser_llm.Arch.Faults.{
  IsRequired, IsAsked, IsDimension, zero_number, ungrouped, no_dimension, few_tensors, other_width,
  IsFault, invalid, unsupported,
}
use browser_llm.Arch.Accesses.{read_u32-Answers, read_f32-Answers}
use browser_llm.Arch.Steps.{
  AreFaults, described_step, bind_step, fail_if_step, metadata_step, metadata_or_step,
}

module _ (a : Architecture) (index : TensorIndex) where
  pub u32_or_step :
      (arch key : List ℕ) (fallback : ℕ)
      → IsAsked a (key_of arch key) ValueType.uint32
      → AreFaults a index (read_u32_or index arch key fallback)
  unfolding read_u32_or
  u32_or_step arch key fallback h =
      metadata_or_step a index (key_of arch key) ValueType.uint32 fallback _ h
        (read_u32-Answers index (key_of arch key))

  pub f32_or_step :
      (arch key : List ℕ) (fallback : ℕ)
      → IsAsked a (key_of arch key) ValueType.float32
      → AreFaults a index (read_f32_or index arch key fallback)
  unfolding read_f32_or
  f32_or_step arch key fallback h =
      metadata_or_step a index (key_of arch key) ValueType.float32 fallback _ h
        (read_f32-Answers index (key_of arch key))

  pub u32_or-read :
      (arch key : List ℕ) (fallback n : ℕ)
      → read_u32_or index arch key fallback ≡ described n
      → IsOptional (read_u32 index (key_of arch key)) fallback n
  unfolding read_u32_or
  u32_or-read arch key fallback n e = from_metadata_or-described _ _ _ n e

  f32_step :
      (s : List ℕ)
      → IsRequired a s ValueType.float32
      → AreFaults a index (from_metadata (read_f32 index s) s)
  f32_step s h = metadata_step a index s ValueType.float32 _ h (read_f32-Answers index s)

  positive_step :
      (key : List ℕ)
      → IsRequired a (key_of (architecture_name a) key) ValueType.uint32
      → AreFaults a index (required_positive index (architecture_name a) key)
  unfolding required_positive required_u32
  positive_step key h =
      let s = key_of (architecture_name a) key in
      bind_step a index _ _
        (metadata_step a index s ValueType.uint32 _ h (read_u32-Answers index s))
        λ value e.
          let read = from_metadata-described _ _ value e in
          bind_step a index _ _
            (fail_if_step a index (value == 0) DescribeError.invalid_value s λ q.
              let none_left : value ≡ 0 = ground (arith, q) in
              invalid s (zero_number s h (read ∙ ap (λ (n : ℕ). found n) none_left)))
            λ u k. described_step a index value

  -- A width of the values that is not the heads' is one that the file declares.
  values-IsFault :
      (dimension values : ℕ)
      → IsDimension a index dimension
      → read_u32_or index (architecture_name a) (codes "attention.value_length") dimension
        ≡ described values
      → not (values == dimension) ≡ true
      → IsFault a index DescribeError.unsupported_value
          (key_of (architecture_name a) (codes "attention.value_length"))
  values-IsFault dimension values d e q =
      let other : values ≢ dimension = ground (arith, q) in
      elim (u32_or-read _ _ dimension values e) [
        | inl r ↦ unsupported _ (other_width dimension values d r other)
        | inr (r, same) ↦ absurd (other same)
      ]

  groups-IsFault :
      (heads groups : ℕ)
      → IsPositive index (architecture_name a) (codes "attention.head_count") heads
      → IsPositive index (architecture_name a) (codes "attention.head_count_kv") groups
      → not (heads % groups == 0) ≡ true
      → IsFault a index DescribeError.invalid_value
          (key_of (architecture_name a) (codes "attention.head_count_kv"))
  groups-IsFault heads groups p q e = invalid _ (ungrouped heads groups p q (ground (arith, e)))

  dimension-IsFault :
      (dimension : ℕ)
      → IsDimension a index dimension
      → (dimension == 0) ≡ true
      → IsFault a index DescribeError.invalid_value
          (key_of (architecture_name a) (codes "attention.key_length"))
  dimension-IsFault dimension d e =
      let none_left : dimension ≡ 0 = ground (arith, e) in
      invalid _ (no_dimension (subst (IsDimension a index) none_left d))

  layers-IsFault :
      (layers : ℕ)
      → IsPositive index (architecture_name a) (codes "block_count") layers
      → ltb (length index.tensors) layers ≡ true
      → IsFault a index DescribeError.invalid_value
          (key_of (architecture_name a) (codes "block_count"))
  layers-IsFault layers p e = invalid _ (few_tensors layers p.0 (ltb→lt _ _ e))

  pub hyperparameters_step : AreFaults a index (read_hyperparameters index (architecture_name a))
  unfolding read_hyperparameters required_f32
  hyperparameters_step =
      let arch = architecture_name a in
      bind_step a index _ _ (positive_step _ (0, refl)) λ layers h1.
        bind_step a index _ _ (positive_step _ (1, refl)) λ context_length h2.
          bind_step a index _ _ (positive_step _ (2, refl)) λ width h3.
            bind_step a index _ _ (positive_step _ (3, refl)) λ feed_forward_length h4.
              bind_step a index _ _ (positive_step _ (4, refl)) λ heads h5.
                bind_step a index _ _ (positive_step _ (5, refl)) λ groups h6.
                  bind_step a index _ _ (f32_step _ (6, refl)) λ norm_epsilon h7.
                    bind_step a index _ _ (f32_step _ (7, refl)) λ rope_base h8.
                      bind_step a index _ _
                        (fail_if_step a index _ DescribeError.invalid_value _ (
                          groups-IsFault heads groups
                            (required_positive-IsPositive index arch _ heads h5)
                            (required_positive-IsPositive index arch _ groups h6)))
                        λ u9 h9.
                          bind_step a index _ _ (u32_or_step arch _ _ (inr (inl (0, refl))))
                            λ dimension h10.
                              let d : IsDimension a index dimension = record {
                                width = width;
                                heads = heads;
                                width_read = required_positive-IsPositive index arch _ width h3;
                                heads_read = required_positive-IsPositive index arch _ heads h5;
                                dimension_read = u32_or-read arch _ _ dimension h10;
                              } in
                              bind_step a index _ _
                                (fail_if_step a index _ DescribeError.invalid_value _
                                  (dimension-IsFault dimension d))
                                λ u11 h11.
                                  bind_step a index _ _ (u32_or_step arch _ _ (inr (inl (1, refl))))
                                    λ values h12.
                                      bind_step a index _ _
                                        (fail_if_step a index _ DescribeError.unsupported_value _
                                          (values-IsFault dimension values d h12))
                                        λ u13 h13.
                                          bind_step a index _ _
                                            (fail_if_step a index _ DescribeError.invalid_value _ (
                                              layers-IsFault layers (
                                                required_positive-IsPositive index arch _ layers
                                                  h1)))
                                            λ u14 h14. described_step a index _
