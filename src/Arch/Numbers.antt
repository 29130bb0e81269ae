-- ===== src/Arch/Numbers.antt =====
-- When the hyperparameters are read, src/core/arch/describe.cpp, and what they then are.
use browser_llm.Base.{
  ℕ, ◌/◌, ◌%◌, ◌≤◌, ◌<◌, ◌≡◌, ◌↔◌, refl, ap, ◌∙◌, subst, false, not, List, arith, ltb, ◌==◌, length,
}
use browser_llm.Gguf.Types.{TensorIndex}
use browser_llm.Gguf.Index.Typed.{found, read_u32, read_f32}
use browser_llm.Arch.{DescribeError, described, codes, Hyperparameters}
use browser_llm.Arch.Describe.{
  key_of, read_u32_or, required_u32, required_f32, required_positive, read_hyperparameters,
}
use browser_llm.Arch.Outcomes.{
  described-injective, bind_described, after_step, described_bind, fail_if-described, fail_if_not,
  from_metadata-described, IsOptional, from_metadata_or-described, optional-from_metadata_or,
}

module _ (index : TensorIndex) (arch : List ℕ) where
  -- The key holds this number, which is not zero.
  abbrev pub IsPositive : List ℕ → ℕ → Type 0
  IsPositive key n = (read_u32 index (key_of arch key) ≡ found n) × (0 < n)

  -- The numbers that the file declares, with what every architecture needs of them.
  pub record IsHyperparameters (hp : Hyperparameters) : Type 0 where
    pub block_count : IsPositive (codes "block_count") hp.block_count
    pub context_length : IsPositive (codes "context_length") hp.context_length
    pub embedding_length : IsPositive (codes "embedding_length") hp.embedding_length
    pub feed_forward_length : IsPositive (codes "feed_forward_length") hp.feed_forward_length
    pub head_count : IsPositive (codes "attention.head_count") hp.head_count
    pub head_count_kv : IsPositive (codes "attention.head_count_kv") hp.head_count_kv
    pub norm_epsilon :
        read_f32 index (key_of arch (codes "attention.layer_norm_rms_epsilon"))
        ≡ found hp.norm_epsilon
    pub rope_base : read_f32 index (key_of arch (codes "rope.freq_base")) ≡ found hp.rope_base
    pub grouped : hp.head_count % hp.head_count_kv ≡ 0
    pub head_dimension :
        IsOptional
          (read_u32 index (key_of arch (codes "attention.key_length")))
          (hp.embedding_length / hp.head_count)
          hp.head_dimension
    pub some_dimension : 0 < hp.head_dimension
    pub value_length :
        IsOptional
          (read_u32 index (key_of arch (codes "attention.value_length")))
          hp.head_dimension
          hp.head_dimension
    pub few_layers : hp.block_count ≤ length index.tensors

  pub required_positive-IsPositive :
      (key : List ℕ) (n : ℕ) → required_positive index arch key ≡ described n → IsPositive key n
  unfolding required_positive required_u32
  required_positive-IsPositive key n e =
      let (value, p, q) = bind_described _ _ n e in
      let (u, r, s) = bind_described _ _ n q in
      let same : value ≡ n = described-injective value n s in
      let read =
        from_metadata-described (read_u32 index (key_of arch key)) (key_of arch key) value p in
      let test : (value == 0) ≡ false = fail_if-described (value == 0) _ _ u r in
      (read ∙ ap (λ (x : ℕ). found x) same, ground (arith, test, same))

  positive_required :
      (key : List ℕ) (n : ℕ) → IsPositive key n → required_positive index arch key ≡ described n
  unfolding required_positive required_u32
  positive_required key n h =
      let test : (n == 0) ≡ false = ground (arith, h.1) in
      described_bind _ _ n n (rw h.0 refl) (
        described_bind _ _ tt n
          (fail_if_not (n == 0) DescribeError.invalid_value (key_of arch key) test) refl)

  pub read_hyperparameters-IsHyperparameters :
      (hp : Hyperparameters) → read_hyperparameters index arch ≡ described hp → IsHyperparameters hp
  unfolding read_hyperparameters required_f32 read_u32_or
  read_hyperparameters-IsHyperparameters hp e1 = after_step _ _ hp e1 λ block_count h1 e2.
      after_step _ _ hp e2 λ context_length h2 e3. after_step _ _ hp e3 λ embedding_length h3 e4.
        after_step _ _ hp e4 λ feed_forward_length h4 e5. after_step _ _ hp e5 λ head_count h5 e6.
          after_step _ _ hp e6 λ head_count_kv h6 e7. after_step _ _ hp e7 λ norm_epsilon h7 e8.
            after_step _ _ hp e8 λ rope_base h8 e9. after_step _ _ hp e9 λ u9 h9 e10.
              after_step _ _ hp e10 λ head_dimension h10 e11. after_step _ _ hp e11 λ u11 h11 e12.
                after_step _ _ hp e12 λ value_length h12 e13. after_step _ _ hp e13 λ u13 h13 e14.
                  after_step _ _ hp e14 λ u14 h14 e15.
                    let grouped : not (head_count % head_count_kv == 0) ≡ false =
                      fail_if-described _ _ _ u9 h9 in
                    let dimension : (head_dimension == 0) ≡ false =
                      fail_if-described _ _ _ u11 h11 in
                    let values : not (value_length == head_dimension) ≡ false =
                      fail_if-described _ _ _ u13 h13 in
                    let layers : ltb (length index.tensors) block_count ≡ false =
                      fail_if-described _ _ _ u14 h14 in
                    let same_length : value_length ≡ head_dimension = ground (arith, values) in
                    subst IsHyperparameters (described-injective _ hp e15) (record {
                      block_count = required_positive-IsPositive _ block_count h1;
                      context_length = required_positive-IsPositive _ context_length h2;
                      embedding_length = required_positive-IsPositive _ embedding_length h3;
                      feed_forward_length = required_positive-IsPositive _ feed_forward_length h4;
                      head_count = required_positive-IsPositive _ head_count h5;
                      head_count_kv = required_positive-IsPositive _ head_count_kv h6;
                      norm_epsilon = from_metadata-described _ _ norm_epsilon h7;
                      rope_base = from_metadata-described _ _ rope_base h8;
                      grouped = ground (arith, grouped);
                      head_dimension = from_metadata_or-described _ _ _ head_dimension h10;
                      some_dimension = ground (arith, dimension);
                      value_length =
                          subst
                            (λ (n : ℕ).
                              IsOptional
                                (read_u32 index (key_of arch (codes "attention.value_length")))
                                head_dimension n)
                            same_length (from_metadata_or-described _ _ _ value_length h12);
                      few_layers = ground (arith, layers);
                    })

  pub hyperparameters-read :
      (hp : Hyperparameters) → IsHyperparameters hp → read_hyperparameters index arch ≡ described hp
  unfolding read_hyperparameters required_f32 read_u32_or
  hyperparameters-read hp h =
      let grouped : not (hp.head_count % hp.head_count_kv == 0) ≡ false =
        ground (arith, h.grouped) in
      let dimension : (hp.head_dimension == 0) ≡ false = ground (arith, h.some_dimension) in
      let values : not (hp.head_dimension == hp.head_dimension) ≡ false = ground arith in
      let layers : ltb (length index.tensors) hp.block_count ≡ false =
        ground (arith, h.few_layers) in
      described_bind _ _ hp.block_count hp (positive_required _ _ h.block_count) (
        described_bind _ _ hp.context_length hp (positive_required _ _ h.context_length) (
          described_bind _ _ hp.embedding_length hp (positive_required _ _ h.embedding_length) (
            described_bind _ _ hp.feed_forward_length hp
              (positive_required _ _ h.feed_forward_length)
              (described_bind _ _ hp.head_count hp (positive_required _ _ h.head_count) (
                described_bind _ _ hp.head_count_kv hp (positive_required _ _ h.head_count_kv) (
                  described_bind _ _ hp.norm_epsilon hp (rw h.norm_epsilon refl) (
                    described_bind _ _ hp.rope_base hp (rw h.rope_base refl) (
                      described_bind _ _ tt hp (fail_if_not _ _ _ grouped) (
                        described_bind _ _ hp.head_dimension hp
                          (optional-from_metadata_or _ _ _ _ h.head_dimension)
                          (described_bind _ _ tt hp (fail_if_not _ _ _ dimension) (
                            described_bind _ _ hp.head_dimension hp
                              (optional-from_metadata_or _ _ _ _ h.value_length)
                              (described_bind _ _ tt hp (fail_if_not _ _ _ values) (
                                described_bind _ _ tt hp (fail_if_not _ _ _ layers)
                                  refl)))))))))))))

  -- The hyperparameters are read exactly when the file declares them: the six counts and widths,
  -- which are not zero, the two floats, a number of key heads that divides the number of heads, a
  -- head dimension, or else the embedding's width over the heads, which is not zero, the same width
  -- of the values or none, and no more layers than the file has tensors; and they are then what the
  -- file declares.
  pub read_hyperparameters_iff :
      (hp : Hyperparameters)
      → (read_hyperparameters index arch ≡ described hp) ↔ IsHyperparameters hp
  read_hyperparameters_iff hp = (read_hyperparameters-IsHyperparameters hp, hyperparameters-read hp)
