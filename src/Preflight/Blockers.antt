-- ===== src/Preflight/Blockers.antt =====
-- What the blockers of preflight say, src/core/preflight/preflight.cpp.
use Prim.Native.Nat.{bit_and}
use browser_llm.Residency.Plan.{plan_residency}
use browser_llm.Arch.Describe.Architectures.{Architecture, describe}
use browser_llm.Base.{
  ◌-◌, ℕ, suc, ◌≡◌, ◌≢◌, inl, inr, refl, Bool, true, false, not, Option, none, some, List, [], ◌∷◌,
  ◌==◌, if◌then◌else◌, All, Bool-cases,
}
use browser_llm.Gguf.Types.{TensorEntry, TensorIndex}
use browser_llm.Formats.{Format, steps_by_groups}
use browser_llm.Model.{ModelDescription}
use browser_llm.Residency.Packer.{DeviceLimits}
use browser_llm.Residency.Model.{LoadPolicy, Step}
use browser_llm.Capability.{
  find_format, find_architecture, find_tokenizer, find_pretokenizer, Algorithm, PreTokenizer,
}
use browser_llm.Gguf.Index.Typed.{
  Access, found, missing_key, wrong_type, no_alternative, read_string,
}
use browser_llm.Arch.{Described, described}
use browser_llm.Preflight.{
  model_key, pre_key, block, check_pretokenizer, describe_key, describe_named, describe_as,
  as_described, as_planned, has_no_device, named_pretokenizer, with_algorithm, with_model, Stage,
  describe_stage, fit, run, Detail, blocked, check_architecture, check_fit, Unsupported,
  count_unsupported, unsupported_in, format_blockers, short_rows, check_tokenizer,
}
use browser_llm.Preflight.Stages.{AreLast}

-- Formats of which no blocker is made are listed.
count_unsupported-some :
    (t : TensorEntry) (sofar : List Unsupported) → count_unsupported t sofar ≢ []
unfolding count_unsupported
count_unsupported-some t [] e = cc
count_unsupported-some t (u ∷ rest) e = elim (Bool-cases (u.type == t.type)) [
  | inl q ↦ absurd (cc (rw q at e))
  | inr q ↦ absurd (cc (rw q at e))
]

abbrev IsListed : TensorEntry → Type 0
IsListed t = (format : Format) × (find_format t.type ≡ some format)

pub unsupported_in-IsListed :
    (tensors : List TensorEntry) (sofar : List Unsupported)
    → unsupported_in tensors sofar ≡ []
    → (sofar ≡ []) × All IsListed tensors
unfolding unsupported_in
unsupported_in-IsListed [] sofar e = (e, tt)
unsupported_in-IsListed (t ∷ rest) sofar e =
    by_format (find_format t.type) refl e (unsupported_in-IsListed rest)
  where
    by_format :
        (o : Option Format)
        → find_format t.type ≡ o
        → unsupported_in rest (elim o [ some format ↦ sofar | none ↦ count_unsupported t sofar ])
          ≡ []
        → ((found : List Unsupported)
            → unsupported_in rest found ≡ []
            → (found ≡ []) × All IsListed rest)
        → (sofar ≡ []) × All IsListed (t ∷ rest)
    by_format none q k go = absurd (count_unsupported-some t sofar (go _ k).0)
    by_format (some format) q k go = let (a, b) = go sofar k in (a, ((format, q), b))

pub listed-unsupported_in :
    (tensors : List TensorEntry) (sofar : List Unsupported)
    → All IsListed tensors
    → unsupported_in tensors sofar ≡ sofar
unfolding unsupported_in
listed-unsupported_in [] sofar h = refl
listed-unsupported_in (t ∷ rest) sofar h = rw (h.0.1) (listed-unsupported_in rest sofar h.1)

pub format_blockers-last : (found : List Unsupported) → AreLast (format_blockers found) → found ≡ []
unfolding format_blockers
format_blockers-last [] h = refl
format_blockers-last (u ∷ rest) h = absurd (cc (h.0))

-- Rows of which no blocker is made are whole groups.
abbrev Steps : TensorEntry → Type 0
Steps t = steps_by_groups t ≡ true

short_rows-last :
    (tensors : List TensorEntry) (count : ℕ) (first : TensorEntry)
    → AreLast (short_rows tensors count (some first))
    → ⊥
unfolding short_rows
short_rows-last [] count first h = cc (h.0)
short_rows-last (t ∷ rest) count first h = elim (Bool-cases (steps_by_groups t)) [
  | inl e ↦ short_rows-last rest count first (rw e at h)
  | inr e ↦ short_rows-last rest (suc count) first (rw e at h)
]

pub short_rows-Steps :
    (tensors : List TensorEntry) (count : ℕ)
    → AreLast (short_rows tensors count none)
    → All Steps tensors
unfolding short_rows
short_rows-Steps [] count h = tt
short_rows-Steps (t ∷ rest) count h = elim (Bool-cases (steps_by_groups t)) [
  | inl e ↦ (e, short_rows-Steps rest count (rw e at h))
  | inr e ↦ absurd (short_rows-last rest (suc count) t (rw e at h))
]

pub Steps-short_rows :
    (tensors : List TensorEntry) (count : ℕ)
    → All Steps tensors
    → short_rows tensors count none ≡ []
unfolding short_rows
Steps-short_rows [] count h = refl
Steps-short_rows (t ∷ rest) count h = rw h.0 (Steps-short_rows rest count h.1)

named-last : (pre : List ℕ) (o : Option PreTokenizer) → AreLast (named_pretokenizer pre o)
named-last pre none = (refl, tt)
named-last pre (some p) = tt

needed-last : (required : Bool) (d : Detail) → AreLast (if required then block run d else [])
needed-last true d = (refl, tt)
needed-last false d = tt

pretokenizer-last :
    (pre : Access (List ℕ)) (model : List ℕ) (required : Bool)
    → AreLast (check_pretokenizer pre model required)
pretokenizer-last (found pre) model required = named-last pre (find_pretokenizer pre)
pretokenizer-last missing_key model required = needed-last required _
pretokenizer-last wrong_type model required = needed-last required _
pretokenizer-last no_alternative model required = needed-last required _

algorithm-last :
    (pre : Access (List ℕ)) (model : List ℕ) (o : Option Algorithm)
    → AreLast (with_algorithm pre model o)
algorithm-last pre model none = (refl, pretokenizer-last pre model false)
algorithm-last pre model (some algorithm) = elim (Bool-cases algorithm.requires_pretokenizer) [
  | inl r ↦ rw r (pretokenizer-last pre model true)
  | inr r ↦ rw r tt
]

model-last : (pre model : Access (List ℕ)) → AreLast (with_model pre model)
model-last pre (found model) = algorithm-last pre model (find_tokenizer model)
model-last pre missing_key = (refl, pretokenizer-last pre [] false)
model-last pre wrong_type = (refl, pretokenizer-last pre [] false)
model-last pre no_alternative = (refl, pretokenizer-last pre [] false)

-- The tokenizer blocks the last stage only.
pub check_tokenizer-last : (index : TensorIndex) → AreLast (check_tokenizer index)
unfolding check_tokenizer
check_tokenizer-last index = model-last (read_string index pre_key) (read_string index model_key)

-- What blocks the description or the fit blocks a stage before the last.
described-stage :
    (name : List ℕ) (d : Described ModelDescription) (s : Stage) (t : Detail)
    → as_described name d ≡ blocked s t
    → s ≡ describe_stage
described-stage name (described m) s t e = cc
described-stage name (Described.failure x y) s t e = cc

module _ (index : TensorIndex) where
  as-stage :
      (name : List ℕ) (o : Option Architecture) (s : Stage) (t : Detail)
      → describe_as index name o ≡ blocked s t
      → s ≡ describe_stage
  as-stage name none s t e = cc
  as-stage name (some a) s t e = described-stage name (describe a index) s t e

  named-stage :
      (access : Access (List ℕ)) (s : Stage) (t : Detail)
      → describe_named index access ≡ blocked s t
      → s ≡ describe_stage
  named-stage (found name) s t e = as-stage name (find_architecture name) s t e
  named-stage missing_key s t e = cc
  named-stage wrong_type s t e = cc
  named-stage no_alternative s t e = cc

  pub architecture-stage :
      (s : Stage) (t : Detail) → check_architecture index ≡ blocked s t → s ≡ describe_stage
  unfolding check_architecture
  architecture-stage s t e = named-stage (read_string index describe_key) s t e

  planned-stage : (p : Step) (s : Stage) (t : Detail) → as_planned p ≡ blocked s t → s ≡ fit
  planned-stage (Step.planned plan) s t e = cc
  planned-stage (Step.failure x y plan) s t e = cc
  planned-stage Step.stuck s t e = cc

  pub fit-stage :
      (m : ModelDescription) (limits : DeviceLimits) (policy : LoadPolicy) (s : Stage) (t : Detail)
      → check_fit index m limits policy ≡ blocked s t
      → s ≡ fit
  unfolding check_fit
  fit-stage m limits policy s t e = elim (Bool-cases (has_no_device limits)) [
    | inl q ↦ cc (rw q at e)
    | inr q ↦
        elim (Bool-cases (
          not
            (bit_and limits.storage_offset_alignment (limits.storage_offset_alignment - 1) == 0))) [
              | inl r ↦ cc (rw (q, r) at e)
              | inr r ↦
                  planned-stage (plan_residency index.tensors m limits policy) s t (rw (q, r) at e)
            ]
  ]
