-- ===== src/Gguf/Action/Rules.antt =====
-- Postconditions of actions: one rule for each way to build an action.
use browser_llm.Base.{◌≡◌, refl, ap, subst, Bool, true, false, ◌⊎◌, inl, inr}
use browser_llm.Gguf.Types.{ReadError, need_more_bytes}
use browser_llm.Gguf.Action.{Reader, Outcome, ok, err, Action, and_then, refuse}

-- The outcome is a value and a state with `Q`, or an error and a state with `E`.
pub data Ensures {A : Type 0} (E : ReadError → Reader → Type 0) (Q : A → Reader → Type 0)
    : Outcome A → Type 0 where
  returns : {a : A} {r : Reader} → Q a r → Ensures E Q (ok a r)
  fails : {e : ReadError} {r : Reader} → E e r → Ensures E Q (err e r)

abbrev Holds :
    {A : Type 0} → (ReadError → Reader → Type 0) → (A → Reader → Type 0) → Outcome A → Type 0
Holds E Q (ok a r) = Q a r
Holds E Q (err e r) = E e r

module _ {A : Type 0} {E : ReadError → Reader → Type 0} {Q : A → Reader → Type 0} where
  Ensures-outcome : {o : Outcome A} → Ensures E Q o → Holds E Q o
  Ensures-outcome (returns q) = q
  Ensures-outcome (fails h) = h

  pub Ensures-ok : {o : Outcome A} {a : A} {r : Reader} → Ensures E Q o → o ≡ ok a r → Q a r
  Ensures-ok h e = subst (Holds E Q) e (Ensures-outcome h)

  pub Ensures-err :
      {o : Outcome A} {x : ReadError} {r : Reader} → Ensures E Q o → o ≡ err x r → E x r
  Ensures-err h e = subst (Holds E Q) e (Ensures-outcome h)

  pub Ensures-bind :
      {B : Type 0} {P : B → Reader → Type 0} {o : Outcome B} (f : B → Action A)
      → Ensures E P o
      → ((b : B) (r : Reader) → P b r → Ensures E Q (f b r))
      → Ensures E Q (and_then o f)
  unfolding and_then
  Ensures-bind f (returns {a = b} {r = r} p) k = k b r p
  Ensures-bind f (fails x) k = fails x

  pub Ensures-refuse :
      (b : Bool) (x : ReadError) (f : Unit {0} → Action A) (r : Reader)
      → (b ≡ true → E x r)
      → (b ≡ false → Ensures E Q (f tt r))
      → Ensures E Q (and_then (refuse b x r) f)
  unfolding and_then
  Ensures-refuse true x f r h k = fails (h refl)
  Ensures-refuse false x f r h k = k refl

  pub Ensures-mono :
      {P : A → Reader → Type 0} {o : Outcome A}
      → Ensures E P o
      → ((a : A) (r : Reader) → P a r → Q a r)
      → Ensures E Q o
  Ensures-mono (returns {a = a} {r = r} p) k = returns (k a r p)
  Ensures-mono (fails x) k = fails x

-- The second outcome is the first, unless the first asks for more of the file.
abbrev pub Agree : {A : Type 0} → Outcome A → Outcome A → Type 0
Agree {A} o o' = (o ≡ o') ⊎ ((r : Reader) × (o ≡ err need_more_bytes r))

pub Agree-bind :
    {A B : Type 0} (o o' : Outcome A) (f f' : A → Action B)
    → Agree o o'
    → ((a : A) (r : Reader) → Agree (f a r) (f' a r))
    → Agree (and_then o f) (and_then o' f')
unfolding and_then
Agree-bind (ok a r) o' f f' (inl e) k = subst (λ t. Agree (f a r) (and_then t f')) e (k a r)
Agree-bind (err x r) o' f f' (inl e) k = inl (ap (λ t. and_then t f') e)
Agree-bind o o' f f' (inr (r, e)) k = inr (r, rw (e, and_then))
