-- ===== src/Preflight/Loadable.antt =====
-- What preflight's verdict says of a load, src/core/preflight/preflight.cpp and preflight.h.
use browser_llm.Base.{
  ◌≡◌, ◌≢◌, ◌↔◌, refl, sym, ap, subst, true, some, List, [], ◌∷◌, ◌++◌, All, All-append,
}
use browser_llm.Gguf.Types.{TensorIndex}
use browser_llm.Formats.{Format, steps_by_groups}
use browser_llm.Model.{ModelDescription}
use browser_llm.Residency.Packer.{DeviceLimits}
use browser_llm.Residency.Model.{LoadPolicy, ResidencyPlan}
use browser_llm.Capability.{find_format}
use browser_llm.Preflight.{
  with_plan, plan_described, fit_blockers, upload, run, Blocker, reached, Checked, passed, blocked,
  check_architecture, check_fit, unsupported_in, format_blockers, check_formats, check_rows,
  check_tokenizer, with_description, later_stages, preflight, plan_load,
}
use browser_llm.Preflight.Stages.{AreLast, reached_upload}
use browser_llm.Preflight.Blockers.{
  unsupported_in-IsListed, listed-unsupported_in, format_blockers-last, short_rows-Steps,
  Steps-short_rows, check_tokenizer-last, architecture-stage, fit-stage,
}

module _ (index : TensorIndex) (limits : DeviceLimits) (policy : LoadPolicy) where
  -- Nothing blocks the description and the fit exactly when a load is planned.
  fit-planned :
      (m : ModelDescription) (f : Checked ResidencyPlan)
      → check_fit index m limits policy ≡ f
      → AreLast (fit_blockers f)
      → (plan : ResidencyPlan) × (with_plan index limits policy m f ≡ passed (m, plan))
  fit-planned m (passed plan) e h = (plan, refl)
  fit-planned m (blocked s t) e h = absurd (cc (h.0, fit-stage index m limits policy s t e))

  description-planned :
      (c : Checked ModelDescription)
      → check_architecture index ≡ c
      → AreLast (with_description index limits policy c).0
      → (m : ModelDescription) × (plan : ResidencyPlan) × (plan_described index limits policy c
          ≡ passed (m, plan))
  description-planned (passed m) e h =
      let (plan, q) = fit-planned m (check_fit index m limits policy) refl h in (m, plan, q)
  description-planned (blocked s t) e h = absurd (cc (h.0, architecture-stage index s t e))

  planned-fit :
      (m n : ModelDescription) (plan : ResidencyPlan) (f : Checked ResidencyPlan)
      → with_plan index limits policy m f ≡ passed (n, plan)
      → fit_blockers f ≡ []
  planned-fit m n plan (passed p) e = refl
  planned-fit m n plan (blocked s t) e = cc

  planned-description :
      (n : ModelDescription) (plan : ResidencyPlan) (c : Checked ModelDescription)
      → plan_described index limits policy c ≡ passed (n, plan)
      → (with_description index limits policy c).0 ≡ []
  planned-description n plan (passed m) e = planned-fit m n plan (check_fit index m limits policy) e
  planned-description n plan (blocked s t) e = cc

  -- A load is planned, every tensor's format is listed, and its rows are whole groups.
  pub record IsLoadable : Type 0 where
    pub description : ModelDescription
    pub plan : ResidencyPlan
    pub loads : plan_load index limits policy ≡ passed (description, plan)
    pub listed : All (λ t. (format : Format) × (find_format t.type ≡ some format)) index.tensors
    pub steps : All (λ t. steps_by_groups t ≡ true) index.tensors

  abbrev first_blockers : List Blocker
  first_blockers = (with_description index limits policy (check_architecture index)).0

  abbrev others : List Blocker
  others = check_tokenizer index ++ later_stages

  append_some : (xs ys : List Blocker) → ys ≢ [] → xs ++ ys ≢ []
  append_some [] ys h e = h e
  append_some (x ∷ xs) ys h e = cc

  some_blocker : first_blockers ++ (check_formats index ++ (check_rows index ++ others)) ≢ []
  some_blocker = append_some first_blockers _ (
      append_some (check_formats index) _ (
        append_some (check_rows index) _
          (append_some (check_tokenizer index) later_stages λ e. cc)))

  append-last : (xs ys : List Blocker) → AreLast (xs ++ ys) → AreLast xs × AreLast ys
  append-last [] ys h = (tt, h)
  append-last (x ∷ xs) ys h = let (a, b) = append-last xs ys h.1 in ((h.0, a), b)

  blockers-IsLoadable :
      AreLast (first_blockers ++ (check_formats index ++ (check_rows index ++ others))) → IsLoadable
  unfolding plan_load check_formats check_rows
  blockers-IsLoadable h =
      let (first, h1) =
        append-last first_blockers (check_formats index ++ (check_rows index ++ others)) h in
      let (formats, h2) = append-last (check_formats index) (check_rows index ++ others) h1 in
      let (rows, h3) = append-last (check_rows index) others h2 in
      let (m, plan, e) = description-planned (check_architecture index) refl first in
      record {
        description = m;
        plan = plan;
        loads = e;
        listed =
            (unsupported_in-IsListed index.tensors []
              (format_blockers-last (unsupported_in index.tensors []) formats)).1;
        steps = short_rows-Steps index.tensors 0 rows;
      }

  loadable-blockers :
      IsLoadable → AreLast (first_blockers ++ (check_formats index ++ (check_rows index ++ others)))
  unfolding plan_load check_formats check_rows
  loadable-blockers w =
      let first : first_blockers ≡ [] =
        planned-description w.description w.plan (check_architecture index) w.loads in
      let formats : check_formats index ≡ [] =
        ap format_blockers (listed-unsupported_in index.tensors [] w.listed) in
      let rows : check_rows index ≡ [] = Steps-short_rows index.tensors 0 w.steps in
      subst AreLast
        (sym (
          ap (λ (x : List Blocker). x ++ (check_formats index ++ (check_rows index ++ others)))
            first))
        (subst AreLast (sym (ap (λ (x : List Blocker). x ++ (check_rows index ++ others)) formats))
          (subst AreLast (sym (ap (λ (x : List Blocker). x ++ others) rows)) (
            All-append (λ b. b.stage ≡ run) (check_tokenizer index) later_stages
              (check_tokenizer-last index) (refl, tt))))

  -- Preflight's verdict reaches Upload exactly when a load is planned, with the description and the
  -- plan that a load carries out, the format of every tensor is listed, and every tensor's rows are
  -- whole groups.
  pub preflight-IsLoadable : (reached (preflight index limits policy) ≡ upload) ↔ IsLoadable
  unfolding preflight
  preflight-IsLoadable =
      let (to, from) =
        reached_upload (first_blockers ++ (check_formats index ++ (check_rows index ++ others)))
          (with_description index limits policy (check_architecture index)).1 some_blocker in
      ((λ e. blockers-IsLoadable (to e)), λ w. from (loadable-blockers w))
