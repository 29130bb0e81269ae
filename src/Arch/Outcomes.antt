-- ===== src/Arch/Outcomes.antt =====
-- What a chain of steps of src/core/arch/describe.cpp gives: the steps' values when it succeeds, and
-- the first failure when it does not.
use browser_llm.Base.{ℕ, ◌≡◌, ◌⊎◌, inl, inr, refl, Bool, true, false, List}
use browser_llm.Gguf.Index.Typed.{Access, found, missing_key, wrong_type, no_alternative}
use browser_llm.Arch.{DescribeError, Described, described, failure, ◌>>=◌}
use browser_llm.Arch.Describe.{from_metadata, from_metadata_or, fail_if}

pub described-injective : {A : Type 0} (a b : A) → described a ≡ described b → a ≡ b
described-injective a b e = cc

module _ {A B : Type 0} where
  pub bind_described :
      (m : Described A) (f : A → Described B) (b : B)
      → (m >>= f) ≡ described b
      → (a : A) × (m ≡ described a) × (f a ≡ described b)
  unfolding ◌>>=◌
  bind_described (described a) f b e = (a, refl, e)
  bind_described (failure x s) f b e = cc

  -- A step that succeeds has a value, and the steps after it succeed.
  pub after_step :
      {P : Type 0} (m : Described A) (f : A → Described B) (b : B)
      → (m >>= f) ≡ described b
      → ((a : A) → m ≡ described a → f a ≡ described b → P)
      → P
  after_step m f b e k = let (a, p, q) = bind_described m f b e in k a p q

  pub described_bind :
      (m : Described A) (f : A → Described B) (a : A) (b : B)
      → m ≡ described a
      → f a ≡ described b
      → (m >>= f) ≡ described b
  unfolding ◌>>=◌
  described_bind m f a b e k = rw e k

  pub bind_failure :
      (m : Described A) (f : A → Described B) (x : DescribeError) (s : List ℕ)
      → (m >>= f) ≡ failure x s
      → (m ≡ failure x s) ⊎ ((a : A) × (m ≡ described a) × (f a ≡ failure x s))
  unfolding ◌>>=◌
  bind_failure (described a) f x s e = inr (a, refl, e)
  bind_failure (failure y t) f x s e = inl (cc)

pub fail_if-described :
    (b : Bool) (x : DescribeError) (s : List ℕ) (u : Unit {0})
    → fail_if b x s ≡ described u
    → b ≡ false
fail_if-described true x s u e = cc
fail_if-described false x s u e = refl

pub fail_if_not :
    (b : Bool) (x : DescribeError) (s : List ℕ) → b ≡ false → fail_if b x s ≡ described tt
fail_if_not b x s e = rw e refl

module _ {A : Type 0} where
  pub from_metadata-described :
      (access : Access A) (s : List ℕ) (a : A)
      → from_metadata access s ≡ described a
      → access ≡ found a
  from_metadata-described (found b) s a e = cc
  from_metadata-described missing_key s a e = cc
  from_metadata-described wrong_type s a e = cc
  from_metadata-described no_alternative s a e = cc

  -- An optional value: the file's, or the fallback where the file has no such key.
  abbrev pub IsOptional : Access A → A → A → Type 0
  IsOptional access fallback a = (access ≡ found a) ⊎ ((access ≡ missing_key) × (a ≡ fallback))

  pub from_metadata_or-described :
      (access : Access A) (s : List ℕ) (fallback a : A)
      → from_metadata_or fallback access s ≡ described a
      → IsOptional access fallback a
  from_metadata_or-described (found b) s fallback a e = inl (cc)
  from_metadata_or-described missing_key s fallback a e = inr (refl, cc)
  from_metadata_or-described wrong_type s fallback a e = cc
  from_metadata_or-described no_alternative s fallback a e = cc

  pub optional-from_metadata_or :
      (access : Access A) (s : List ℕ) (fallback a : A)
      → IsOptional access fallback a
      → from_metadata_or fallback access s ≡ described a
  optional-from_metadata_or access s fallback a (inl e) = rw e refl
  optional-from_metadata_or access s fallback a (inr (e, k)) = rw (e, k) refl
