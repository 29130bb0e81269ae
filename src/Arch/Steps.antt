-- ===== src/Arch/Steps.antt =====
-- The steps of src/core/arch/describe.cpp whose failures are faults of the file.
use browser_llm.Base.{ℕ, ◌≡◌, inl, inr, refl, subst, Bool, true, false, List}
use browser_llm.Gguf.Types.{TensorIndex, ValueType}
use browser_llm.Gguf.Index.{entry}
use browser_llm.Gguf.Index.Typed.{Access, found, missing_key, wrong_type, no_alternative}
use browser_llm.Arch.{DescribeError, Described, described, failure, ◌>>=◌}
use browser_llm.Arch.Describe.{from_metadata, from_metadata_or, fail_if}
use browser_llm.Arch.Describe.Architectures.{Architecture}
use browser_llm.Arch.Outcomes.{bind_failure}
use browser_llm.Arch.Accesses.{Answers}
use browser_llm.Arch.Faults.{IsRequired, IsAsked, IsFault, no_key, mistyped_key}

failure-same :
    {A : Type 0} (e x : DescribeError) (s t : List ℕ)
    → ◌≡◌ {A = Described A} (failure e s) (failure x t)
    → ◌≡◌ {A = DescribeError × List ℕ} (e, s) (x, t)
failure-same e x s t q = cc

module _ (a : Architecture) (index : TensorIndex) where
  -- Every failure of the step is a fault of the file.
  pub record AreFaults {A : Type 0} (m : Described A) : Type 0 where
    pub named : (e : DescribeError) (s : List ℕ) → m ≡ failure e s → IsFault a index e s

  pub described_step : {A : Type 0} (x : A) → AreFaults (described x)
  described_step x = record { named = λ e s q. cc }

  pub failing :
      {A : Type 0} (e : DescribeError) (s : List ℕ)
      → IsFault a index e s
      → AreFaults {A = A} (failure e s)
  failing {A} e s h = record {
    named = λ x t q.
        subst (λ (p : DescribeError × List ℕ). IsFault a index p.0 p.1)
          (failure-same {A = A} e x s t q) h;
  }

  pub bind_step :
      {A B : Type 0} (m : Described A) (f : A → Described B)
      → AreFaults m
      → ((x : A) → m ≡ described x → AreFaults (f x))
      → AreFaults (m >>= f)
  bind_step m f h k = record {
    named = λ e s q. elim (bind_failure m f e s q) [
      | inl r ↦ h.named e s r
      | inr (x, r, t) ↦ (k x r).named e s t
    ];
  }

  pub fail_if_step :
      (b : Bool) (e : DescribeError) (s : List ℕ)
      → (b ≡ true → IsFault a index e s)
      → AreFaults (fail_if b e s)
  fail_if_step true e s h = failing e s (h refl)
  fail_if_step false e s h = described_step tt

  module _ {A : Type 0} (s : List ℕ) (t : ValueType) where
    pub metadata_step :
        (access : Access A)
        → IsRequired a s t
        → Answers t (entry index s) access
        → AreFaults (from_metadata access s)
    metadata_step (found x) r h = described_step x
    metadata_step missing_key r h =
        failing DescribeError.missing_key s (no_key s t r (h.missing refl))
    metadata_step wrong_type r h =
        failing DescribeError.wrong_key_type s (mistyped_key s t (inl r) (h.wrong refl))
    metadata_step no_alternative r h =
        failing DescribeError.wrong_key_type s (mistyped_key s t (inl r) (h.other refl))

    pub metadata_or_step :
        (fallback : A) (access : Access A)
        → IsAsked a s t
        → Answers t (entry index s) access
        → AreFaults (from_metadata_or fallback access s)
    metadata_or_step fallback (found x) r h = described_step x
    metadata_or_step fallback missing_key r h = described_step fallback
    metadata_or_step fallback wrong_type r h =
        failing DescribeError.wrong_key_type s (mistyped_key s t r (h.wrong refl))
    metadata_or_step fallback no_alternative r h =
        failing DescribeError.wrong_key_type s (mistyped_key s t r (h.other refl))
