-- ===== src/Arch/Widths.antt =====
-- The widths of the attention's matrices, src/core/arch/describe.cpp: they do not wrap.
use browser_llm.Base.{ℕ, ◌-◌, ◌*◌, ◌/◌, ◌%◌, ◌^◌, ◌≤◌, ◌<◌, ◌≡◌, inl, inr, List, arith}
use native.Mathlib.Nat.{mod-eq_of_lt, mul-le-mul, div-le_self}
use browser_llm.Gguf.Types.{TensorIndex}
use browser_llm.Gguf.Index.Typed.{
  Access, found, missing_key, wrong_type, no_alternative, narrowed, read_u32,
}
use browser_llm.Arch.{Hyperparameters}
use browser_llm.Arch.Describe.{query_width, key_value_width}
use browser_llm.Arch.Numbers.{IsHyperparameters}

-- A number that was read fits 32 bits, so the widths do not wrap.
narrowed-found : (access : Access ℕ) (n : ℕ) → narrowed access ≡ found n → n < 2 ^ 32
narrowed-found (found m) n e = omega (arith, found_same (m % 2 ^ 32) n e)
  where
    found_same : (a b : ℕ) → found a ≡ found b → a ≡ b
    found_same a b e = cc
narrowed-found missing_key n e = cc
narrowed-found wrong_type n e = cc
narrowed-found no_alternative n e = cc

module _ (index : TensorIndex) where
  pub read_u32-lt : (key : List ℕ) (n : ℕ) → read_u32 index key ≡ found n → n < 2 ^ 32
  unfolding read_u32
  read_u32-lt key n e = narrowed-found _ n e

  module _ (arch : List ℕ) (hp : Hyperparameters) (h : IsHyperparameters index arch hp) where
    dimension-lt : hp.head_dimension < 2 ^ 32
    dimension-lt = elim h.head_dimension [
      | inl e ↦ read_u32-lt _ hp.head_dimension e
      | inr (a, b) ↦ omega (
        arith,
        b,
        read_u32-lt _ hp.embedding_length h.embedding_length.0,
        at_most hp.embedding_length hp.head_count,
      )
    ]
      where
        at_most : (a b : ℕ) → a / b ≤ a
        at_most a b = div-le_self a b

    no_wrap : (a b : ℕ) → a < 2 ^ 32 → b < 2 ^ 32 → a * b % 2 ^ 64 ≡ a * b
    no_wrap a b p q =
        let largest : ℕ = 2 ^ 32 - 1 in
        let below : a * b ≤ largest * largest =
          mul-le-mul {n₂ = largest} {m₂ = largest} (omega (arith, p)) (omega (arith, q)) in
        mod-eq_of_lt (omega (arith, below))

    pub query_width-exact : query_width hp ≡ hp.head_count * hp.head_dimension
    query_width-exact =
        no_wrap hp.head_count hp.head_dimension (read_u32-lt _ hp.head_count h.head_count.0)
          dimension-lt

    pub key_value_width-exact : key_value_width hp ≡ hp.head_count_kv * hp.head_dimension
    key_value_width-exact =
        no_wrap hp.head_count_kv hp.head_dimension
          (read_u32-lt _ hp.head_count_kv h.head_count_kv.0) dimension-lt
