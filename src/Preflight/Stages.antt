-- ===== src/Preflight/Stages.antt =====
-- The stage that a verdict reaches, src/core/preflight/preflight.cpp and preflight.h.
use browser_llm.Base.{
  ◌≤◌, ◌≡◌, ◌≢◌, ◌↔◌, inl, inr, refl, ap, ◌∙◌, subst, Bool, true, false, not, ◌||◌, Option, List,
  [], ◌∷◌, arith, ltb, ltb→lt, ltb→le, if◌then◌else◌, All, Bool-cases,
}
use browser_llm.Preflight.{
  FitSummary, Stage, read, download, describe_stage, fit, upload, run, stage_number, Blocker,
  earliest_of, before, reached,
}

-- The earliest stage of some blockers, and of the one so far, where there is one.
pub record IsEarliest (found : Bool × Stage) (any : Bool) (earliest : Stage)
    (blockers : List Blocker) : Type 0 where
  pub not_after : All (λ b. stage_number found.1 ≤ stage_number b.stage) blockers
  pub not_later : any ≡ true → stage_number found.1 ≤ stage_number earliest

abbrev sooner : Bool → Stage → Stage → Stage
sooner any earliest stage =
    if not any || ltb (stage_number stage) (stage_number earliest) then stage else earliest

sooner-le :
    (any : Bool) (earliest stage : Stage)
    → (stage_number (sooner any earliest stage) ≤ stage_number stage)
      × (any ≡ true → stage_number (sooner any earliest stage) ≤ stage_number earliest)
sooner-le false earliest stage = (omega arith, λ e. absurd (cc (e)))
sooner-le true earliest stage =
    elim (Bool-cases (ltb (stage_number stage) (stage_number earliest))) [
      | inl e ↦ rw e (omega arith, λ q. omega (arith, ltb→lt _ _ e))
      | inr e ↦ rw e (ltb→le _ _ e, λ q. omega arith)
    ]

earliest_of-IsEarliest :
    (any : Bool) (earliest : Stage) (blockers : List Blocker)
    → IsEarliest (earliest_of any earliest blockers) any earliest blockers
unfolding earliest_of
earliest_of-IsEarliest any earliest [] = record { not_after = tt; not_later = λ e. omega arith }
earliest_of-IsEarliest any earliest (b ∷ rest) =
    let h = earliest_of-IsEarliest true (sooner any earliest b.stage) rest in
    let (p, q) = sooner-le any earliest b.stage in
    let least = h.not_later refl in
    record {
      not_after = (omega (arith, least, p), h.not_after);
      not_later = λ e. omega (arith, least, q e);
    }

earliest_of-found :
    (earliest : Stage) (blockers : List Blocker) → (earliest_of true earliest blockers).0 ≡ true
unfolding earliest_of
earliest_of-found earliest [] = refl
earliest_of-found earliest (b ∷ rest) = earliest_of-found (sooner true earliest b.stage) rest

one_found :
    (any : Bool) (earliest : Stage) (b : Blocker) (rest : List Blocker)
    → (earliest_of any earliest (b ∷ rest)).0 ≡ true
unfolding earliest_of
one_found any earliest b rest = earliest_of-found (sooner any earliest b.stage) rest

-- Only the last stage is blocked.
abbrev pub AreLast : List Blocker → Type 0
AreLast blockers = All (λ b. b.stage ≡ run) blockers

earliest_of-last :
    (any : Bool) (blockers : List Blocker)
    → AreLast blockers
    → (earliest_of any run blockers).1 ≡ run
unfolding earliest_of
earliest_of-last any [] h = refl
earliest_of-last any (b ∷ rest) h =
    ap (λ (s : Stage). (earliest_of true s rest).1) (ap (sooner any run) h.0 ∙ either any)
    ∙ earliest_of-last true rest h.1
  where
    either : (any : Bool) → sooner any run run ≡ run
    either true = refl
    either false = refl

stage_last : (s : Stage) → 5 ≤ stage_number s → s ≡ run
stage_last read h = absurd (omega arith)
stage_last download h = absurd (omega arith)
stage_last describe_stage h = absurd (omega arith)
stage_last fit h = absurd (omega arith)
stage_last upload h = absurd (omega arith)
stage_last run h = refl

before_last : (s : Stage) → before s ≡ upload → s ≡ run
before_last read h = cc
before_last download h = cc
before_last describe_stage h = cc
before_last fit h = cc
before_last upload h = cc
before_last run h = refl

AreLast-reached :
    (b : Blocker) (rest : List Blocker) (summary : Option FitSummary)
    → AreLast (b ∷ rest)
    → reached (record { blockers = b ∷ rest; fit = summary }) ≡ upload
unfolding earliest_of
AreLast-reached b rest summary h =
    rw (earliest_of-found (sooner false run b.stage) rest)
      (ap before (earliest_of-last false (b ∷ rest) h))

reached-AreLast :
    (b : Blocker) (rest : List Blocker) (summary : Option FitSummary)
    → reached (record { blockers = b ∷ rest; fit = summary }) ≡ upload
    → AreLast (b ∷ rest)
reached-AreLast b rest summary h =
    let some_found : (earliest_of false run (b ∷ rest)).0 ≡ true = found_one in
    let last : (earliest_of false run (b ∷ rest)).1 ≡ run = before_last _ (rw some_found at h) in
    all_last (b ∷ rest) (
      subst (λ (s : Stage). All (λ b. stage_number s ≤ stage_number b.stage) (b ∷ rest)) last
        (earliest_of-IsEarliest false run (b ∷ rest)).not_after)
  where
    found_one : (earliest_of false run (b ∷ rest)).0 ≡ true
    found_one = one_found false run b rest

    all_last : (bs : List Blocker) → All (λ b. 5 ≤ stage_number b.stage) bs → AreLast bs
    all_last [] h = tt
    all_last (b ∷ bs) h = (stage_last b.stage h.0, all_last bs h.1)

pub reached_upload :
    (blockers : List Blocker) (summary : Option FitSummary)
    → blockers ≢ []
    → (reached (record { blockers = blockers; fit = summary }) ≡ upload) ↔ AreLast blockers
reached_upload [] summary h = absurd (h refl)
reached_upload (b ∷ rest) summary h =
    (reached-AreLast b rest summary, AreLast-reached b rest summary)
