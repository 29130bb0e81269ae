-- ===== src/Preflight.antt =====
-- How far a model can be taken, src/core/preflight/preflight.cpp and preflight.h. A blocker's text is
-- which of the messages it is, with the values that it names.
pub mod Stages
pub mod Blockers
pub mod Loadable
pub mod Routed
use Prim.Native.Nat.{bit_and}
use browser_llm.Base.{
  ℕ, zero, suc, ◌+◌, ◌-◌, Bool, true, false, not, ◌&&◌, ◌||◌, Option, none, some, List, [], ◌∷◌,
  ◌++◌, ltb, ◌==◌, if◌then◌else◌, length, get_elem?, get_or,
}
use browser_llm.Gguf.Types.{TensorType, TensorEntry, TensorIndex}
use browser_llm.Gguf.Index.Typed.{
  Access, found, missing_key, wrong_type, no_alternative, read_string,
}
use browser_llm.Formats.{Format, steps_by_groups}
use browser_llm.Model.{TensorId, ModelDescription}
use browser_llm.Arch.{DescribeError, Described, described, codes}
use browser_llm.Arch.Describe.Architectures.{Architecture, describe}
use browser_llm.Capability.{
  find_architecture, find_format, Algorithm, find_tokenizer, PreTokenizer, find_pretokenizer,
}
use browser_llm.Residency.Packer.{DeviceLimits}
use browser_llm.Residency.Model.{LoadPolicy, PlannedTensor, ResidencyPlan, PlanError, Subject, Step}
use browser_llm.Residency.Plan.{plan_residency}

pub data Stage : Type 0 where
  read download describe_stage fit upload run : Stage

abbrev pub stage_number : Stage → ℕ
stage_number read = 0
stage_number download = 1
stage_number describe_stage = 2
stage_number fit = 3
stage_number upload = 4
stage_number run = 5

abbrev pub implemented_through : Stage
implemented_through = upload

-- The messages. `no_plan` is no message of the source: the model's plan ran out of fuel.
pub data Detail : Type 0 where
  not_declared : List ℕ → Detail
  not_a_string : List ℕ → Detail
  architecture_unsupported : List ℕ → Detail
  cannot_read : List ℕ → DescribeError → List ℕ → Detail
  no_device : Detail
  alignment_not_power : Detail
  does_not_fit : PlanError → Subject → ResidencyPlan → Detail
  no_plan : Detail
  format_unsupported : TensorType → ℕ → List ℕ → Detail
  rows_too_short : ℕ → List ℕ → ℕ → Detail
  tokenizer_unsupported : List ℕ → Detail
  pretokenizer_unsupported : List ℕ → Detail
  pretokenizer_needed : List ℕ → Detail → Detail
  not_implemented : Stage → Detail

pub record Blocker : Type 0 where
  pub stage : Stage
  pub detail : Detail

pub record DuplicateCandidate : Type 0 where
  pub tensor : TensorId
  pub copies : TensorId
  pub offset : ℕ
  pub copies_offset : ℕ
  pub length : ℕ

pub record FitSummary : Type 0 where
  pub weight_bytes : ℕ
  pub cache_bytes : ℕ
  pub scratch_bytes : ℕ
  pub total_bytes : ℕ
  pub memory_budget : ℕ
  pub context_offered : ℕ
  pub trained_context : ℕ
  pub buffer_count : ℕ
  pub duplicates : List DuplicateCandidate

pub record Verdict : Type 0 where
  pub blockers : List Blocker
  pub fit : Option FitSummary

abbrev pub block : Stage → Detail → List Blocker
block stage detail = record { stage = stage; detail = detail } ∷ []

-- The loop of `reached` over the blockers, with `earliest` and `blocked` so far.
unfoldable pub earliest_of : Bool → Stage → List Blocker → Bool × Stage
earliest_of blocked earliest [] = (blocked, earliest)
earliest_of blocked earliest (b ∷ rest) =
    earliest_of true
      (if not blocked || ltb (stage_number b.stage) (stage_number earliest)
        then b.stage
        else earliest)
      rest

-- The stage's number before that; a blocked stage is never the first.
abbrev pub before : Stage → Stage
before read = read
before download = read
before describe_stage = download
before fit = describe_stage
before upload = fit
before run = upload

abbrev pub reached : Verdict → Stage
reached verdict =
    let found : Bool × Stage = earliest_of false run verdict.blockers in
    if not found.0 then run else before found.1

-- What a required text's key is blocked by.
abbrev pub unreadable_key : Access (List ℕ) → List ℕ → Detail
unreadable_key missing_key key = not_declared key
unreadable_key _ key = not_a_string key

-- A check gives its value, or blockers.
pub data Checked (A : Type 0) : Type 0 where
  passed : A → Checked A
  blocked : Stage → Detail → Checked A

abbrev pub describe_key : List ℕ
describe_key = codes "general.architecture"

abbrev pub as_described : List ℕ → Described ModelDescription → Checked ModelDescription
as_described name (described description) = passed description
as_described name (Described.failure error subject) =
    blocked describe_stage (cannot_read name error subject)

abbrev pub has_no_device : DeviceLimits → Bool
has_no_device limits =
    (limits.max_buffer_size == 0)
    || ((limits.max_storage_binding_size == 0) || (limits.storage_offset_alignment == 0))

abbrev pub as_planned : Step → Checked ResidencyPlan
as_planned (Step.planned plan) = passed plan
as_planned (Step.failure error subject plan) = blocked fit (does_not_fit error subject plan)
as_planned Step.stuck = blocked fit no_plan

module _ (index : TensorIndex) where
  abbrev pub describe_as : List ℕ → Option Architecture → Checked ModelDescription
  describe_as name none = blocked describe_stage (architecture_unsupported name)
  describe_as name (some architecture) = as_described name (describe architecture index)

  abbrev pub describe_named : Access (List ℕ) → Checked ModelDescription
  describe_named (found name) = describe_as name (find_architecture name)
  describe_named access = blocked describe_stage (unreadable_key access describe_key)

  unfoldable pub check_architecture : Checked ModelDescription
  check_architecture = describe_named (read_string index describe_key)

  unfoldable pub check_fit : ModelDescription → DeviceLimits → LoadPolicy → Checked ResidencyPlan
  check_fit description limits policy =
      if has_no_device limits
      then blocked fit no_device
      else if not
          (bit_and limits.storage_offset_alignment (limits.storage_offset_alignment - 1) == 0)
      then blocked fit alignment_not_power
      else as_planned (plan_residency index.tensors description limits policy)

  -- `index.tensor(id)`, whose precondition is that the index has it.
  abbrev pub data_offset_at : TensorId → ℕ
  data_offset_at id = elim (get_elem? index.tensors id) [ none ↦ 0 | some t ↦ t.data_offset ]

  abbrev pub data_length_at : TensorId → ℕ
  data_length_at id = elim (get_elem? index.tensors id) [ none ↦ 0 | some t ↦ t.data_length ]

  -- The loop over the plan's tensors.
  unfoldable pub duplicates_of : List PlannedTensor → List DuplicateCandidate
  duplicates_of [] = []
  duplicates_of (t ∷ rest) = elim t.candidate_duplicate_of [
    | none ↦ duplicates_of rest
    | some original ↦
        record {
          tensor = t.tensor;
          copies = original;
          offset = data_offset_at t.tensor;
          copies_offset = data_offset_at original;
          length = data_length_at t.tensor;
        }
        ∷ duplicates_of rest
  ]

  abbrev pub summary_of : ModelDescription → LoadPolicy → ResidencyPlan → FitSummary
  summary_of description policy plan = record {
    weight_bytes = plan.weight_bytes;
    cache_bytes = plan.cache_bytes;
    scratch_bytes = plan.scratch_bytes;
    total_bytes = plan.total_bytes;
    memory_budget = policy.memory_budget;
    context_offered = plan.context_offered;
    trained_context = description.trained_context;
    buffer_count = length plan.buffers;
    duplicates = duplicates_of plan.tensors;
  }

pub record Unsupported : Type 0 where
  pub type : TensorType
  pub users : ℕ
  pub first_user : List ℕ

-- One more tensor of a format that is not listed.
unfoldable pub count_unsupported : TensorEntry → List Unsupported → List Unsupported
count_unsupported tensor [] =
    record { type = tensor.type; users = 1; first_user = tensor.name } ∷ []
count_unsupported tensor (u ∷ rest) =
    if u.type == tensor.type
    then record u { users = suc u.users } ∷ rest
    else u ∷ count_unsupported tensor rest

unfoldable pub unsupported_in : List TensorEntry → List Unsupported → List Unsupported
unfolding count_unsupported
unsupported_in [] sofar = sofar
unsupported_in (tensor ∷ rest) sofar =
    unsupported_in rest (elim (find_format tensor.type) [
      | some format ↦ sofar
      | none ↦ count_unsupported tensor sofar
    ])

unfoldable pub format_blockers : List Unsupported → List Blocker
format_blockers [] = []
format_blockers (u ∷ rest) =
    record { stage = upload; detail = format_unsupported u.type u.users u.first_user }
    ∷ format_blockers rest

unfoldable pub check_formats : TensorIndex → List Blocker
unfolding unsupported_in format_blockers
check_formats index = format_blockers (unsupported_in index.tensors [])

-- The loop of `check_rows`, with the tensors that fall short so far and the first of them.
unfoldable pub short_rows : List TensorEntry → ℕ → Option TensorEntry → List Blocker
short_rows [] count none = []
short_rows [] count (some first) =
    block upload (rows_too_short count first.name (get_or first.dimensions 0 0))
short_rows (tensor ∷ rest) count first =
    short_rows rest (if steps_by_groups tensor then count else suc count) (
      if steps_by_groups tensor then first else elim first [ none ↦ some tensor | some t ↦ some t ])

unfoldable pub check_rows : TensorIndex → List Blocker
check_rows index = short_rows index.tensors 0 none

abbrev pub model_key : List ℕ
model_key = codes "tokenizer.ggml.model"

abbrev pub pre_key : List ℕ
pre_key = codes "tokenizer.ggml.pre"

abbrev pub named_pretokenizer : List ℕ → Option PreTokenizer → List Blocker
named_pretokenizer pre none = block run (pretokenizer_unsupported pre)
named_pretokenizer pre (some p) = []

abbrev pub check_pretokenizer : Access (List ℕ) → List ℕ → Bool → List Blocker
check_pretokenizer (found pre) model required = named_pretokenizer pre (find_pretokenizer pre)
check_pretokenizer pre model required =
    if required then block run (pretokenizer_needed model (unreadable_key pre pre_key)) else []

module _ (pre : Access (List ℕ)) where
  abbrev pub with_algorithm : List ℕ → Option Algorithm → List Blocker
  with_algorithm model none =
      block run (tokenizer_unsupported model) ++ check_pretokenizer pre model false
  with_algorithm model (some algorithm) =
      if not algorithm.requires_pretokenizer then [] else check_pretokenizer pre model true

  abbrev pub with_model : Access (List ℕ) → List Blocker
  with_model (found model) = with_algorithm model (find_tokenizer model)
  with_model access = block run (unreadable_key access model_key) ++ check_pretokenizer pre [] false

unfoldable pub check_tokenizer : TensorIndex → List Blocker
check_tokenizer index = with_model (read_string index pre_key) (read_string index model_key)

-- The stages after those that are implemented.
abbrev pub unimplemented : List Stage → List Blocker
unimplemented [] = []
unimplemented (s ∷ rest) =
    (if ltb (stage_number implemented_through) (stage_number s)
      then block s (not_implemented s)
      else [])
    ++ unimplemented rest

abbrev pub later_stages : List Blocker
later_stages = unimplemented (read ∷ download ∷ describe_stage ∷ fit ∷ upload ∷ run ∷ [])

abbrev pub fit_blockers : Checked ResidencyPlan → List Blocker
fit_blockers (passed plan) = []
fit_blockers (blocked stage detail) = block stage detail

abbrev pub fit_summary :
    TensorIndex → ModelDescription → LoadPolicy → Checked ResidencyPlan → Option FitSummary
fit_summary index description policy (passed plan) = some (summary_of index description policy plan)
fit_summary index description policy (blocked stage detail) = none

module _ (index : TensorIndex) (limits : DeviceLimits) (policy : LoadPolicy) where
  abbrev pub with_description : Checked ModelDescription → List Blocker × Option FitSummary
  with_description (blocked stage detail) = (block stage detail, none)
  with_description (passed description) =
      let checked : Checked ResidencyPlan = check_fit index description limits policy in
      (fit_blockers checked, fit_summary index description policy checked)

  unfoldable pub preflight : Verdict
  preflight =
      let first : List Blocker × Option FitSummary = with_description (check_architecture index) in
      record {
        blockers =
            first.0
            ++ (check_formats index
                ++ (check_rows index ++ (check_tokenizer index ++ later_stages)));
        fit = first.1;
      }

  abbrev pub with_plan :
      ModelDescription → Checked ResidencyPlan → Checked (ModelDescription × ResidencyPlan)
  with_plan description (blocked stage detail) = blocked stage detail
  with_plan description (passed plan) = passed (description, plan)

  abbrev pub plan_described : Checked ModelDescription → Checked (ModelDescription × ResidencyPlan)
  plan_described (blocked stage detail) = blocked stage detail
  plan_described (passed description) =
      with_plan description (check_fit index description limits policy)

  -- What a load carries out, or what stops it.
  unfoldable pub plan_load : Checked (ModelDescription × ResidencyPlan)
  plan_load = plan_described (check_architecture index)
