-- ===== src/Gguf/Action.antt =====
-- The state of the class Reader of src/core/gguf/reader.cpp, and its member functions as actions:
-- from a state to a value or an error, with the state that is left either way.
pub mod Rules
use browser_llm.Base.{ℕ, Bool, true, false, List, []}
use browser_llm.Gguf.Types.{ReadError, TensorEntry, MetadataEntry}

pub record Reader : Type 0 where
  pub cursor : ℕ
  pub bytes_needed : ℕ
  pub tensors : List TensorEntry
  pub metadata : List MetadataEntry

-- `Reader reader{source, start}`
unfoldable pub reader_at : ℕ → Reader
reader_at start = record { cursor = start; bytes_needed = 0; tensors = []; metadata = [] }

pub data Outcome (A : Type 0) : Type 0 where
  ok : A → Reader → Outcome A
  err : ReadError → Reader → Outcome A

abbrev pub Action : Type 0 → Type 0
Action A = Reader → Outcome A

unfoldable pub and_then : {A B : Type 0} → Outcome A → (A → Action B) → Outcome B
and_then (ok a r) f = f a r
and_then (err e r) f = err e r

infixl 5 ◌>>=◌ ◌>>◌
abbrev pub ◌>>=◌ : {A B : Type 0} → Action A → (A → Action B) → Action B
◌>>=◌ m f r = and_then (m r) f

abbrev pub ◌>>◌ : {B : Type 0} → Action (Unit {0}) → Action B → Action B
m >> n = m >>= λ _. n

abbrev pub pure : {A : Type 0} → A → Action A
pure a r = ok a r

abbrev pub raise : {A : Type 0} → ReadError → Action A
raise e r = err e r

-- `if (b) return e;`
abbrev pub refuse : Bool → ReadError → Action (Unit {0})
refuse true e = raise e
refuse false e = pure tt

abbrev pub cursor_now : Action ℕ
cursor_now r = ok r.cursor r
