-- ===== src/Residency/Model.antt =====
-- What the plan is made from and of: src/core/policy/policy.h,
-- src/core/residency/weight_view.h and the records of src/core/residency/plan.h.
use Prim.Native.String.{String}
use browser_llm.Base.{ℕ, ◌*◌, Option, List, []}
use browser_llm.Gguf.Types.{TensorType, TensorShape}
pub use browser_llm.Model.{TensorId, LayerDescription, ModelDescription}
use browser_llm.Residency.Packer.{PlannedBuffer, BufferRange}

pub data CachePrecision : Type 0 where
  f16 bf16 q8_0 : CachePrecision

pub record LoadPolicy : Type 0 where
  pub cache_precision : CachePrecision
  pub memory_budget : ℕ
  pub rollback_reserve : ℕ

-- The policy of an unmeasured model.
abbrev pub default_policy : LoadPolicy
default_policy = record {
  cache_precision = f16;
  memory_budget = 2 * 1024 * 1024 * 1024;
  rollback_reserve = 4096;
}

pub record WeightPiece : Type 0 where
  pub buffer : ℕ
  pub offset : ℕ
  pub length : ℕ
  pub first_row : ℕ
  pub row_count : ℕ

pub record WeightView : Type 0 where
  pub format : TensorType
  pub shape : TensorShape
  pub pieces : List WeightPiece

pub record PlannedTensor : Type 0 where
  pub tensor : TensorId
  pub view : WeightView
  pub candidate_duplicate_of : Option TensorId

pub record PlannedCacheLayer : Type 0 where
  pub keys : BufferRange
  pub values : BufferRange
  pub slots : ℕ

pub record PlannedScratch : Type 0 where
  pub purpose : String
  pub range : BufferRange

pub record ResidencyPlan : Type 0 where
  pub buffers : List PlannedBuffer
  pub tensors : List PlannedTensor
  pub cache : List PlannedCacheLayer
  pub scratch : List PlannedScratch
  pub context_offered : ℕ
  pub weight_bytes : ℕ
  pub cache_bytes : ℕ
  pub scratch_bytes : ℕ
  pub total_bytes : ℕ

abbrev pub empty_plan : ResidencyPlan
empty_plan = record {
  buffers = [];
  tensors = [];
  cache = [];
  scratch = [];
  context_offered = 0;
  weight_bytes = 0;
  cache_bytes = 0;
  scratch_bytes = 0;
  total_bytes = 0;
}

pub data PlanError : Type 0 where
  exceeds_budget row_exceeds_binding scratch_exceeds_binding unsupported_cache_precision overflow :
      PlanError

-- The subject of a failure: nothing, a tensor's name, a working buffer's, or "layer i".
pub data Subject : Type 0 where
  no_subject : Subject
  tensor_name : List ℕ → Subject
  purpose_name : String → Subject
  layer_number : ℕ → Subject

-- PlanResult, with the plan as the call leaves it. `stuck` is no result of the source: a loop of the
-- model ran out of fuel.
pub data Step : Type 0 where
  planned : ResidencyPlan → Step
  failure : PlanError → Subject → ResidencyPlan → Step
  stuck : Step

-- `if (auto r = ...; !r.ok()) return r;`
abbrev pub and_next : Step → (ResidencyPlan → Step) → Step
and_next (planned out) f = f out
and_next (failure e s out) f = failure e s out
and_next stuck f = stuck
