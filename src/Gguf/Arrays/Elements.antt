-- ===== src/Gguf/Arrays/Elements.antt =====
-- What a StringTable hands out, src/core/gguf/arrays.h, and the strings that `read_strings` reads back.
use mathlib.Core.List.{append-nil}
use browser_llm.Base.{
  ℕ, zero, suc, ◌+◌, ◌-◌, ◌*◌, ◌/◌, ◌≤◌, ◌<◌, ◌≡◌, refl, sym, ap, ◌∙◌, subst, not, some, List, [],
  ◌∷◌, ◌++◌, arith, ◌==◌, if◌then◌else◌, length, take, get_or, get_elem?, All, length-append,
  take-drop-append, ==_iff,
}
use mathlib.Core.Option.{some-injective}
use browser_llm.Base.Words.{IsU64}
use browser_llm.Gguf.Checked.{checked_add_fits}
use browser_llm.Gguf.Types.{ArrayLocation, ValueType, max_string_length, wrong_element_type}
use browser_llm.Gguf.Source.{ByteSource, bytes}
use browser_llm.Gguf.Parse.{ReadResult, read, failed, is_string}
use browser_llm.Gguf.Arrays.{
  StringTable, size, element, empty_table, push_text, read_strings, read_range, texts_in,
}
use browser_llm.Gguf.Arrays.Texts.{
  digits, stored, table_of, take-length, drop-length, length-digits, ltb-false, read_texts-stored,
}

abbrev begin_of : StringTable → ℕ → ℕ
begin_of t i = if i == 0 then 0 else get_or t.ends (i - 1) 0

-- Every end is within the bytes, and the last is theirs.
record IsTable (t : StringTable) : Type 0 where
  last : begin_of t (size t) ≡ length t.bytes
  within : (i : ℕ) → get_or t.ends i 0 ≤ length t.bytes

get_or-append : (xs ys : List ℕ) (i : ℕ) → i < length xs → get_or (xs ++ ys) i 0 ≡ get_or xs i 0
get_or-append [] ys i h = absurd (omega arith)
get_or-append (x ∷ xs) ys zero h = refl
get_or-append (x ∷ xs) ys (suc i) h = get_or-append xs ys i (omega arith)

get_or-snoc : (xs : List ℕ) (y : ℕ) → get_or (xs ++ (y ∷ [])) (length xs) 0 ≡ y
get_or-snoc [] y = refl
get_or-snoc (x ∷ xs) y = get_or-snoc xs y

get_or-snoc_le :
    (xs : List ℕ) (y n i : ℕ)
    → ((j : ℕ) → get_or xs j 0 ≤ n)
    → n ≤ y
    → get_or (xs ++ (y ∷ [])) i 0 ≤ y
get_or-snoc_le [] y n zero h k = omega arith
get_or-snoc_le [] y n (suc i) h k = omega arith
get_or-snoc_le (x ∷ xs) y n zero h k = omega (arith, h 0, k)
get_or-snoc_le (x ∷ xs) y n (suc i) h k = get_or-snoc_le xs y n i (λ j. h (suc j)) k

size-push_text : (t : StringTable) (s : List ℕ) → size (push_text t s) ≡ suc (size t)
size-push_text t s = omega (arith, length-append t.ends (length (t.bytes ++ s) ∷ []))

begin-push_text :
    (t : StringTable) (s : List ℕ) (i : ℕ) → i ≤ size t → begin_of (push_text t s) i ≡ begin_of t i
begin-push_text t s zero h = refl
begin-push_text t s (suc i) h =
    ground (arith, get_or-append t.ends (length (t.bytes ++ s) ∷ []) (suc i - 1))

begin-suc : (t : StringTable) (n : ℕ) → begin_of t (suc n) ≡ get_or t.ends n 0
begin-suc t n = ground arith

begin-le : (t : StringTable) (i : ℕ) → IsTable t → begin_of t i ≤ length t.bytes
begin-le t i w = ground (arith, w.within (i - 1))

push_text-IsTable : (t : StringTable) (s : List ℕ) → IsTable t → IsTable (push_text t s)
push_text-IsTable t s w = record {
  last =
      ap (begin_of (push_text t s)) (size-push_text t s)
      ∙ begin-suc (push_text t s) (size t)
      ∙ get_or-snoc t.ends (length (t.bytes ++ s));
  within = λ i.
      get_or-snoc_le t.ends (length (t.bytes ++ s)) (length t.bytes) i w.within
        (omega (arith, length-append t.bytes s));
}

-- A pushed string is the new element, and leaves the others.
element-push_text :
    (t : StringTable) (s : List ℕ) → IsTable t → element (push_text t s) (size t) ≡ s
unfolding element
element-push_text t s w =
    rw
      (
        begin-push_text t s (size t) (omega arith),
        w.last,
        get_or-snoc t.ends (length (t.bytes ++ s)),
        drop-length t.bytes s,
      )
      (ap (λ (n : ℕ). take n s) (omega (arith, length-append t.bytes s))
        ∙ ap (take (length s)) (sym (append-nil s))
        ∙ take-length s [])

element-push_other :
    (t : StringTable) (s : List ℕ) (i : ℕ)
    → IsTable t
    → i < size t
    → element (push_text t s) i ≡ element t i
unfolding element
element-push_other t s i w h =
    rw (begin-push_text t s i (omega arith), get_or-append t.ends (length (t.bytes ++ s) ∷ []) i h)
      (take-drop-append (begin_of t i) (get_or t.ends i 0 - begin_of t i) t.bytes s
        (omega (arith, begin-le t i w, w.within i)))

table_of-IsTable :
    (t : StringTable) (texts : List (List ℕ)) → IsTable t → IsTable (table_of t texts)
unfolding table_of
table_of-IsTable t [] w = w
table_of-IsTable t (s ∷ rest) w = table_of-IsTable (push_text t s) rest (push_text-IsTable t s w)

size-table_of :
    (t : StringTable) (texts : List (List ℕ)) → size (table_of t texts) ≡ size t + length texts
unfolding table_of
size-table_of t [] = omega arith
size-table_of t (s ∷ rest) = omega (arith, size-table_of (push_text t s) rest, size-push_text t s)

element-table_of_old :
    (t : StringTable) (texts : List (List ℕ)) (i : ℕ)
    → IsTable t
    → i < size t
    → element (table_of t texts) i ≡ element t i
unfolding table_of
element-table_of_old t [] i w h = refl
element-table_of_old t (s ∷ rest) i w h =
    element-table_of_old (push_text t s) rest i (push_text-IsTable t s w)
      (omega (arith, size-push_text t s, h))
    ∙ element-push_other t s i w h

element-table_of_new :
    (t : StringTable) (texts : List (List ℕ)) (j : ℕ) (s : List ℕ)
    → IsTable t
    → get_elem? texts j ≡ some s
    → element (table_of t texts) (size t + j) ≡ s
unfolding table_of
element-table_of_new t [] j s w e = cc
element-table_of_new t (x ∷ rest) zero s w e =
    ap (element (table_of (push_text t x) rest)) (omega arith)
    ∙ element-table_of_old (push_text t x) rest (size t) (push_text-IsTable t x w)
        (omega (arith, size-push_text t x))
    ∙ element-push_text t x w
    ∙ some-injective x s e
element-table_of_new t (x ∷ rest) (suc j) s w e =
    ap (element (table_of (push_text t x) rest)) (omega (arith, size-push_text t x))
    ∙ element-table_of_new (push_text t x) rest j s (push_text-IsTable t x w) e

-- The table that has exactly these strings.
pub record IsTableOf (texts : List (List ℕ)) (t : StringTable) : Type 0 where
  pub count : size t ≡ length texts
  pub each : (i : ℕ) (s : List ℕ) → get_elem? texts i ≡ some s → element t i ≡ s

zero_add : (i : ℕ) → 0 + i ≡ i
zero_add i = omega arith

table_of-IsTableOf : (texts : List (List ℕ)) → IsTableOf texts (table_of empty_table texts)
table_of-IsTableOf texts = record {
  count = size-table_of empty_table texts ∙ omega arith;
  each = λ i s e.
      subst (λ (k : ℕ). element (table_of empty_table texts) k ≡ s) (zero_add i)
        (element-table_of_new empty_table texts i s
          (record { last = refl; within = λ j. omega arith }) e);
}

stored-le : (texts : List (List ℕ)) → length texts * 8 ≤ length (stored texts)
unfolding stored
stored-le [] = omega arith
stored-le (s ∷ rest) = omega (
  arith,
  stored-le rest,
  length-append (digits 8 (length s)) (s ++ stored rest),
  length-append s (stored rest),
  length-digits 8 (length s),
)

texts_in-stored :
    (texts : List (List ℕ))
    → All (λ s. length s ≤ max_string_length) texts
    → texts_in (length texts) (read (stored texts)) ≡ read (table_of empty_table texts)
texts_in-stored texts h =
    rw
      (
        ltb-false (length (stored texts) / 8) (length texts) (omega (arith, stored-le texts)),
        read_texts-stored [] texts empty_table h,
        (==_iff (0 + length (stored texts)) (length (stored texts))).1 (omega arith),
      )
      refl

pub read_range-bytes :
    (size_max : ℕ) (source : ByteSource) (offset count : ℕ) (bs : List ℕ)
    → IsU64 (offset + count)
    → count ≤ size_max
    → source.read offset count ≡ bytes bs
    → read_range size_max source offset count ≡ read bs
unfolding read_range
read_range-bytes size_max source offset count bs h k e =
    rw (checked_add_fits offset count h, read_range, ltb-false size_max count k, e) refl

-- For a located string array whose range fits 64 bits and the platform's sizes, and a source that
-- gives for it the strings stored one after the other, each after its length in 8 bytes and none
-- longer than the limit, read_strings gives a table of as many elements, each of which is the string
-- at its place.
pub read_strings-stored :
    (size_max : ℕ) (source : ByteSource) (array : ArrayLocation) (texts : List (List ℕ))
    → array.element_type ≡ ValueType.string
    → array.element_count ≡ length texts
    → array.bytes.length ≡ length (stored texts)
    → IsU64 (array.bytes.offset + array.bytes.length)
    → array.bytes.length ≤ size_max
    → All (λ s. length s ≤ max_string_length) texts
    → source.read array.bytes.offset array.bytes.length ≡ bytes (stored texts)
    → (t : StringTable) × (read_strings size_max source array ≡ read t) × IsTableOf texts t
unfolding read_strings
read_strings-stored size_max source array texts a b c d e f g = (
  table_of empty_table texts,
  ap (λ (type : ValueType). if not (is_string type) then failed wrong_element_type 0 else fetched) a
      ∙ ap (texts_in array.element_count) (
          read_range-bytes size_max source array.bytes.offset array.bytes.length (stored texts) d e
            g)
      ∙ ap (λ (n : ℕ). texts_in n (read (stored texts))) b
      ∙ texts_in-stored texts f,
  table_of-IsTableOf texts,
)
  where
    fetched : ReadResult StringTable
    fetched =
        texts_in array.element_count
          (read_range size_max source array.bytes.offset array.bytes.length)
