-- ===== src/Arch.antt =====
-- The architectures' contract, src/core/arch/architecture.h, and the numbers and names of
-- src/core/arch/describe.h.
pub mod Names
pub mod Outcomes
pub mod Numbers
pub mod Tensors
pub mod Layers
pub mod Widths
pub mod Windows
pub mod Families
pub mod Faults
pub mod Accesses
pub mod Steps
pub mod Failures
pub mod Distinct
pub mod Describe
use Prim.Native.String.{String}
use Prim.Native.Char.{code}
use browser_llm.Base.{ℕ, List, [], ◌∷◌}
use browser_llm.Model.{Role}

pub data DescribeError : Type 0 where
  missing_key : DescribeError
  wrong_key_type : DescribeError
  missing_tensor : DescribeError
  shape_mismatch : DescribeError
  invalid_value : DescribeError
  unsupported_value : DescribeError

-- DescribeResult, with the value that `Ok` leaves in the out-parameters. A failure has its subject.
pub data Described (A : Type 0) : Type 0 where
  described : A → Described A
  failure : DescribeError → List ℕ → Described A

infixl 5 ◌>>=◌
unfoldable pub ◌>>=◌ : {A B : Type 0} → Described A → (A → Described B) → Described B
◌>>=◌ (described a) f = f a
◌>>=◌ (failure e subject) f = failure e subject

-- The bytes of a name in the source.
abbrev pub codes : String → List ℕ
codes String.[] = []
codes (String.◌∷◌ c s) = code c ∷ codes s

pub record Hyperparameters : Type 0 where
  pub block_count : ℕ
  pub context_length : ℕ
  pub embedding_length : ℕ
  pub feed_forward_length : ℕ
  pub head_count : ℕ
  pub head_count_kv : ℕ
  pub head_dimension : ℕ
  pub norm_epsilon : ℕ
  pub rope_base : ℕ

-- A layer's weight in the role is named `blk.<layer>.<suffix>`.
pub record RoleName : Type 0 where
  pub role : Role
  pub suffix : List ℕ
