-- ===== src/Residency/Plan/Ends/Answers.antt =====
-- A step of the planner that is an answer, src/core/residency/plan.cpp, and what follows such a step.
use browser_llm.Residency.Model.{ResidencyPlan, Step, planned, failure, stuck, and_next}

-- The step is an answer of the source: it has not run out of rounds.
abbrev pub IsAnswer : Step → Type 0
IsAnswer (planned out) = Unit
IsAnswer (failure e s out) = Unit
IsAnswer stuck = ⊥

pub and_next-IsAnswer :
    (s : Step) (f : ResidencyPlan → Step)
    → IsAnswer s
    → ((out : ResidencyPlan) → IsAnswer (f out))
    → IsAnswer (and_next s f)
and_next-IsAnswer (planned out) f h k = k out
and_next-IsAnswer (failure e s out) f h k = tt
and_next-IsAnswer stuck f h k = h
