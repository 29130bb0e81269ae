-- ===== src/RunGuard.antt =====
-- The guard of an asynchronous run, src/core/run_guard.h: whichever of the callback and the timeout
-- completes a generation first owns the run.
use browser_llm.Base.{
  ℕ, ◌+◌, ◌%◌, ◌^◌, ◌≡◌, ◌≢◌, ap, refl, Bool, true, false, not, ◌||◌, List, [], ◌∷◌, map, arith,
  ◌==◌, if◌then◌else◌,
}
use browser_llm.Base.Words.{IsU32}

abbrev pub no_run : ℕ
no_run = 0

pub record RunGuard : Type 0 where
  pub active : Bool
  pub generation : ℕ

abbrev pub next_generation : ℕ → ℕ
next_generation g = if (g + 1) % 2 ^ 32 == no_run then 1 else (g + 1) % 2 ^ 32

unfoldable pub begin : RunGuard → ℕ × RunGuard
begin g = if g.active then (no_run, g) else (
  next_generation g.generation,
  record { active = true; generation = next_generation g.generation },
)

unfoldable pub complete : ℕ → RunGuard → Bool × RunGuard
complete n g =
    if not g.active || not (n == g.generation) || n == no_run
    then (false, g)
    else (true, record g { active = false })

-- The answers to a series of completions.
unfoldable pub complete_all : List ℕ → RunGuard → List Bool
complete_all [] g = []
complete_all (n ∷ ns) g = (complete n g).0 ∷ complete_all ns (complete n g).1

-- `true` for the first occurrence of the generation only.
abbrev pub first_only : ℕ → List ℕ → List Bool
first_only n [] = []
first_only n (m ∷ ms) = if m == n then true ∷ map (λ _. false) ms else false ∷ first_only n ms

-- What a run that has just begun looks like.
pub record IsBegun (g : RunGuard) (n : ℕ) (h : RunGuard) : Type 0 where
  pub live : h ≡ record { active = true; generation = n }
  pub nonzero : n ≢ no_run
  pub small : IsU32 n
  pub fresh : n ≢ g.generation

-- On an idle guard with a 32-bit generation, begin gives a nonzero 32-bit generation that is not the
-- last one, and makes it the live one.
pub begin-IsBegun :
    (g : RunGuard) → g.active ≡ false → IsU32 g.generation → IsBegun g (begin g).0 (begin g).1
unfolding begin
begin-IsBegun g idle small =
    rw idle
      (record { live = refl; nonzero = ground arith; small = ground arith; fresh = ground arith })

idle_refuses :
    (ms : List ℕ) (n : ℕ)
    → complete_all ms (record { active = false; generation = n }) ≡ map (λ _. false) ms
unfolding complete_all complete
idle_refuses [] n = refl
idle_refuses (m ∷ ms) n = ap (λ (t : List Bool). false ∷ t) (idle_refuses ms n)

-- Of a series of completions while a nonzero generation is live, exactly the first one of that
-- generation succeeds.
pub complete_all-first_only :
    (n : ℕ) (ms : List ℕ)
    → n ≢ no_run
    → complete_all ms (record { active = true; generation = n }) ≡ first_only n ms
unfolding complete_all complete
complete_all-first_only n [] h = refl
complete_all-first_only n (m ∷ ms) h =
    ground (arith, idle_refuses ms n, complete_all-first_only n ms h)
