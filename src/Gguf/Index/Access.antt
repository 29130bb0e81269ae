-- ===== src/Gguf/Index/Access.antt =====
-- What the typed accessors of src/core/gguf/index.cpp give, in an index that the reader accepted.
use native.Mathlib.Nat.{mod-eq_of_lt}
use mathlib.Core.Option.{some-injective}
use browser_llm.Base.{
  ℕ, zero, suc, ◌≡◌, ◌≢◌, refl, sym, ap, ◌∙◌, Bool, some, List, [], ◌∷◌, ◌==◌, ==_iff, get_elem?,
  get_or, subst, All, All-get, Bool-cases, inl, inr,
}
use browser_llm.Gguf.Types.{
  TensorIndex, MetadataEntry, MetadataValue, ValueType, ArrayLocation, unsigned, single_bits, flag,
  text, array_at,
}
use browser_llm.Gguf.Sorting.Laws.{AllPairs}
use browser_llm.Gguf.Reader.Arrays.{IsTyped}
use browser_llm.Gguf.Parse.{keys_of}
use browser_llm.Gguf.Parse.Names.{text_eq_iff}
use browser_llm.Gguf.Parse.Parts.{IsKeyed}
use browser_llm.Gguf.Parse.Result.{IsIndex}
use browser_llm.Gguf.Index.{entry, entry_in, text_eq-differ}
use browser_llm.Gguf.Index.Typed.{
  Access, found, wrong_type, type_number, as_unsigned, as_single, as_flag, as_text, as_array,
  narrowed, read_as, read_u32, read_u64, read_f32, read_bool, read_string, read_array,
}

-- What an accessor of one type gives for an entry: its value, where the file declared that type.
pub data IsAccess {A : Type 0} (make : A → MetadataValue) (declared : ValueType) (e : MetadataEntry)
    : Access A → Type 0 where
  right : (a : A) → e.type ≡ declared → e.value ≡ make a → IsAccess make declared e (found a)
  wrong : e.type ≢ declared → IsAccess make declared e wrong_type

type_back : ℕ → ValueType
type_back n = get_or value_types_in_order n ValueType.float64
  where
    value_types_in_order : List ValueType
    value_types_in_order =
        ValueType.uint8 ∷ ValueType.int8 ∷ ValueType.uint16 ∷ ValueType.int16 ∷ ValueType.uint32
        ∷ ValueType.int32 ∷ ValueType.float32 ∷ ValueType.bool ∷ ValueType.string ∷ ValueType.array
        ∷ ValueType.uint64 ∷ ValueType.int64 ∷ ValueType.float64 ∷ []

type_back_lem : (t : ValueType) → type_back (type_number t) ≡ t
unfolding type_back
type_back_lem ValueType.uint8 = refl
type_back_lem ValueType.int8 = refl
type_back_lem ValueType.uint16 = refl
type_back_lem ValueType.int16 = refl
type_back_lem ValueType.uint32 = refl
type_back_lem ValueType.int32 = refl
type_back_lem ValueType.float32 = refl
type_back_lem ValueType.bool = refl
type_back_lem ValueType.string = refl
type_back_lem ValueType.array = refl
type_back_lem ValueType.uint64 = refl
type_back_lem ValueType.int64 = refl
type_back_lem ValueType.float64 = refl

type_number-injective : (s t : ValueType) → type_number s ≡ type_number t → s ≡ t
type_number-injective s t e = sym (type_back_lem s) ∙ ap type_back e ∙ type_back_lem t

module _ {A : Type 0} (make : A → MetadataValue) (get : MetadataValue → Access A)
    (declared : ValueType)
    (gives : (v : MetadataValue)
      → IsTyped declared v
      → (a : A) × (get v ≡ found a) × (v ≡ make a)) where
  read_as-IsAccess :
      (e : MetadataEntry)
      → IsTyped e.type e.value
      → IsAccess make declared e (read_as get declared (some e))
  read_as-IsAccess e h = elim (Bool-cases (type_number e.type == type_number declared)) [
    | inr k ↦ rw k (
        wrong
          λ q. cc ((==_iff (type_number e.type) (type_number declared)).1 (ap type_number q), k))
    | inl k ↦
        let same =
          type_number-injective e.type declared
            ((==_iff (type_number e.type) (type_number declared)).0 k) in
        let (a, p, q) = gives e.value (subst (λ (t : ValueType). IsTyped t e.value) same h) in
        rw (k, p) (right a same q)
  ]

gives_u32 :
    (v : MetadataValue)
    → IsTyped ValueType.uint32 v
    → (a : ℕ) × (narrowed (as_unsigned v) ≡ found a) × (v ≡ unsigned a)
gives_u32 (unsigned n) h = (n, ap found (mod-eq_of_lt h), refl)
gives_u32 v h = absurd h

gives_u64 :
    (v : MetadataValue)
    → IsTyped ValueType.uint64 v
    → (a : ℕ) × (as_unsigned v ≡ found a) × (v ≡ unsigned a)
gives_u64 (unsigned n) h = (n, refl, refl)
gives_u64 v h = absurd h

gives_f32 :
    (v : MetadataValue)
    → IsTyped ValueType.float32 v
    → (a : ℕ) × (as_single v ≡ found a) × (v ≡ single_bits a)
gives_f32 (single_bits n) h = (n, refl, refl)
gives_f32 v h = absurd h

gives_bool :
    (v : MetadataValue)
    → IsTyped ValueType.bool v
    → (a : Bool) × (as_flag v ≡ found a) × (v ≡ flag a)
gives_bool (flag n) h = (n, refl, refl)
gives_bool v h = absurd h

gives_text :
    (v : MetadataValue)
    → IsTyped ValueType.string v
    → (a : List ℕ) × (as_text v ≡ found a) × (v ≡ text a)
gives_text (text n) h = (n, refl, refl)
gives_text v h = absurd h

gives_array :
    (v : MetadataValue)
    → IsTyped ValueType.array v
    → (a : ArrayLocation) × (as_array v ≡ found a) × (v ≡ array_at a)
gives_array (array_at n) h = (n, refl, refl)
gives_array v h = absurd h

narrowed-read_as :
    (declared : ValueType) (e : MetadataEntry)
    → narrowed (read_as as_unsigned declared (some e))
      ≡ read_as (λ v. narrowed (as_unsigned v)) declared (some e)
narrowed-read_as declared e = elim (Bool-cases (type_number e.type == type_number declared)) [
  | inl k ↦ rw k refl
  | inr k ↦ rw k refl
]

key_differs :
    (x : List ℕ) (es : List MetadataEntry) (k : ℕ) (e : MetadataEntry)
    → All (λ y. x ≢ y) (keys_of es)
    → get_elem? es k ≡ some e
    → x ≢ e.key
key_differs x [] k e h f q = cc
key_differs x (u ∷ us) zero e h f q =
    h.0 (q ∙ sym (ap (λ (v : MetadataEntry). v.key) (some-injective u e f)))
key_differs x (u ∷ us) (suc k) e h f q = key_differs x us k e h.1 f q

entry_in-key :
    (es : List MetadataEntry) (k : ℕ) (e : MetadataEntry)
    → AllPairs (λ x y. x ≢ y) (keys_of es)
    → get_elem? es k ≡ some e
    → entry_in e.key es ≡ some e
unfolding entry_in
entry_in-key [] k e h f = cc
entry_in-key (u ∷ us) zero e h f =
    rw ((text_eq_iff u.key e.key).1 (ap (λ (v : MetadataEntry). v.key) (some-injective u e f))) f
entry_in-key (u ∷ us) (suc k) e h f =
    rw (text_eq-differ u.key e.key (key_differs u.key us k e h.0 f)) (entry_in-key us k e h.1 f)

-- In an index that keeps what the reader promises of an accepted one, for the key of each of its
-- entries every typed accessor gives that entry's value, unchanged, where the file declared the
-- accessor's type, and WrongType otherwise; none finds the value to be of another alternative than
-- its type.
pub read_as-entry :
    (size : ℕ) (index : TensorIndex) (k : ℕ) (e : MetadataEntry)
    → IsIndex size index
    → get_elem? index.metadata k ≡ some e
    → IsAccess unsigned ValueType.uint32 e (read_u32 index e.key)
      × IsAccess unsigned ValueType.uint64 e (read_u64 index e.key)
      × IsAccess single_bits ValueType.float32 e (read_f32 index e.key)
      × IsAccess flag ValueType.bool e (read_bool index e.key)
      × IsAccess text ValueType.string e (read_string index e.key)
      × IsAccess array_at ValueType.array e (read_array index e.key)
unfolding read_u32 read_u64 read_f32 read_bool read_string read_array entry
read_as-entry size index k e w f =
    let typed : IsTyped e.type e.value = (All-get (IsKeyed size) index.metadata k w.keyed f).2 in
    rw (entry_in-key index.metadata k e w.keys_differ f, narrowed-read_as ValueType.uint32 e)
      (
        read_as-IsAccess unsigned (λ v. narrowed (as_unsigned v)) ValueType.uint32 gives_u32 e
            typed,
        read_as-IsAccess unsigned as_unsigned ValueType.uint64 gives_u64 e typed,
        read_as-IsAccess single_bits as_single ValueType.float32 gives_f32 e typed,
        read_as-IsAccess flag as_flag ValueType.bool gives_bool e typed,
        read_as-IsAccess text as_text ValueType.string gives_text e typed,
        read_as-IsAccess array_at as_array ValueType.array gives_array e typed,
      )
