-- ===== src/Gguf/Index.antt =====
-- Looking up a tensor by its name, src/core/gguf/index.cpp: `TensorIndex::find` and `entry`.
pub mod Typed
pub mod Access
use browser_llm.Base.{
  ℕ, zero, suc, ◌+◌, ◌≡◌, ◌≢◌, ap, sym, ◌∙◌, true, false, Option, none, some, List, [], ◌∷◌, arith,
  get_elem?, if◌then◌else◌, All, Bool-cases, inl, inr,
}
use mathlib.Core.Option.{some-injective}
use browser_llm.Gguf.Types.{TensorEntry, MetadataEntry, TensorIndex}
use browser_llm.Gguf.Sorting.Laws.{AllPairs}
use browser_llm.Gguf.Parse.{text_eq, names_of}
use browser_llm.Gguf.Parse.Names.{text_eq_iff}
use browser_llm.Gguf.Parse.Result.{IsIndex}

-- The loop of `find`, from number `i` on.
unfoldable pub find_from : List ℕ → ℕ → List TensorEntry → Option ℕ
find_from name i [] = none
find_from name i (t ∷ rest) = if text_eq t.name name then some i else find_from name (suc i) rest

unfoldable pub find : TensorIndex → List ℕ → Option ℕ
find index name = find_from name 0 index.tensors

-- The loop of `entry`; none is the null pointer.
unfoldable pub entry_in : List ℕ → List MetadataEntry → Option MetadataEntry
entry_in key [] = none
entry_in key (e ∷ rest) = if text_eq e.key key then some e else entry_in key rest

unfoldable pub entry : TensorIndex → List ℕ → Option MetadataEntry
entry index key = entry_in key index.metadata

pub text_eq-differ : (x y : List ℕ) → x ≢ y → text_eq x y ≡ false
text_eq-differ x y h = elim (Bool-cases (text_eq x y)) [
  | inl e ↦ absurd (h ((text_eq_iff x y).0 e))
  | inr e ↦ e
]

name_differs :
    (x : List ℕ) (ts : List TensorEntry) (k : ℕ) (t : TensorEntry)
    → All (λ y. x ≢ y) (names_of ts)
    → get_elem? ts k ≡ some t
    → x ≢ t.name
name_differs x [] k t h e q = cc
name_differs x (u ∷ us) zero t h e q =
    h.0 (q ∙ sym (ap (λ (v : TensorEntry). v.name) (some-injective u t e)))
name_differs x (u ∷ us) (suc k) t h e q = name_differs x us k t h.1 e q

find_from-name :
    (ts : List TensorEntry) (i k : ℕ) (t : TensorEntry)
    → AllPairs (λ x y. x ≢ y) (names_of ts)
    → get_elem? ts k ≡ some t
    → find_from t.name i ts ≡ some (i + k)
unfolding find_from
find_from-name [] i k t h e = cc
find_from-name (u ∷ us) i zero t h e =
    let same : text_eq u.name t.name ≡ true =
      (text_eq_iff u.name t.name).1 (ap (λ (v : TensorEntry). v.name) (some-injective u t e)) in
    rw same (ap some (omega arith))
find_from-name (u ∷ us) i (suc k) t h e =
    rw (text_eq-differ u.name t.name (name_differs u.name us k t h.0 e))
      (find_from-name us (suc i) k t h.1 e ∙ ap some (omega arith))

-- In an index that keeps what the reader promises of an accepted one, every tensor is found under
-- its own name, as the tensor that it is.
pub find-name :
    (size : ℕ) (index : TensorIndex) (k : ℕ) (t : TensorEntry)
    → IsIndex size index
    → get_elem? index.tensors k ≡ some t
    → find index t.name ≡ some k
unfolding find
find-name size index k t w e =
    find_from-name index.tensors 0 k t w.names_differ e ∙ ap some (omega arith)
