-- ===== src/Gguf/Parse/Placement.antt =====
-- The placing of tensor data, src/core/gguf/reader.cpp: `resolve_alignment`, `has_overlap`,
-- `place_tensor_data`.
use Prim.Native.Nat.{bit_and}
use browser_llm.Base.{
  ℕ, ◌+◌, ◌-◌, ◌≤◌, ◌<◌, ◌≡◌, ◌⊎◌, inl, inr, subst, false, not, ◌||◌, some, List, [], ◌∷◌, arith,
  ◌==◌, map, All, Bool-cases, Option-cases,
}
use mathlib.Core.Option.{some-injective}
use browser_llm.Base.Bits.{IsPow2, pow2_of_bit_and}
use browser_llm.Base.Words.{IsU64}
use browser_llm.Gguf.Types.{
  ByteRange, TensorEntry, MetadataEntry, MetadataValue, ValueType, unsigned,
}
use browser_llm.Gguf.Sorting.{sort}
use browser_llm.Gguf.Sorting.Laws.{
  AllPairs, AllPairs-sort, All-both, AllPairs-both, All-sort, sort-sorted, NotAbove,
  AllPairs-of_adjacent, adjacent_of_AllPairs,
}
use browser_llm.Gguf.Parse.{
  text_eq, alignment_key, declared_alignment, resolve_alignment, range_of, offset_less, runs_into,
  has_overlap,
}

declared_alignment-IsPow2 :
    (type : ValueType) (value : MetadataValue) (a : ℕ)
    → declared_alignment type value ≡ some a
    → IsPow2 a
unfolding declared_alignment
declared_alignment-IsPow2 ValueType.uint32 (unsigned n) a e =
    elim (Bool-cases (n == 0 || not (bit_and n (n - 1) == 0))) [
      | inl bad ↦ cc (rw bad at e)
      | inr good ↦
          subst IsPow2 (some-injective n a (rw good at e))
            (pow2_of_bit_and n (ground arith) (ground arith))
    ]
declared_alignment-IsPow2 type value a e = cc

-- The alignment that the metadata resolves to is a power of two, if the one it starts from is.
pub resolve_alignment-IsPow2 :
    (es : List MetadataEntry) (out a : ℕ)
    → IsPow2 out
    → resolve_alignment es out ≡ some a
    → IsPow2 a
unfolding resolve_alignment
resolve_alignment-IsPow2 [] out a h e = subst IsPow2 (some-injective out a e) h
resolve_alignment-IsPow2 (x ∷ xs) out a h e = elim (Bool-cases (text_eq x.key alignment_key)) [
  | inl hit ↦ elim (Option-cases (declared_alignment x.type x.value)) [
    | inl bad ↦ ground arith
    | inr (b, good) ↦
        resolve_alignment-IsPow2 xs b a (declared_alignment-IsPow2 x.type x.value b good)
          (ground arith)
  ]
  | inr miss ↦ resolve_alignment-IsPow2 xs out a h (ground arith)
]

abbrev pub Ends : ℕ → ByteRange → Type 0
Ends size a = a.offset + a.length ≤ size

-- Neither range starts before the other one ends.
abbrev pub Apart : ByteRange → ByteRange → Type 0
Apart a b = (a.offset + a.length ≤ b.offset) ⊎ (b.offset + b.length ≤ a.offset)

module _ {A : Type 0} (P : A → Type 0) (R S : A → A → Type 0) where
  AllPairs-mono :
      (xs : List A)
      → ((x y : A) → P x → P y → R x y → S x y)
      → All P xs
      → AllPairs R xs
      → AllPairs S xs
  AllPairs-mono [] f p h = tt
  AllPairs-mono (x ∷ xs) f p h = (pointwise x xs f p.0 p.1 h.0, AllPairs-mono xs f p.1 h.1)
    where
      pointwise :
          (x : A) (ys : List A)
          → ((x y : A) → P x → P y → R x y → S x y)
          → P x
          → All P ys
          → All (R x) ys
          → All (S x) ys
      pointwise x [] f p q h = tt
      pointwise x (y ∷ ys) f p q h = (f x y p q.0 h.0, pointwise x ys f p q.1 h.1)

abbrev ranges : List TensorEntry → List ByteRange
ranges = map range_of

Apart-symm : (a b : ByteRange) → Apart a b → Apart b a
Apart-symm a b (inl h) = inr h
Apart-symm a b (inr h) = inl h

module _ (size : ℕ) (fits : IsU64 size) (ts : List TensorEntry)
    (inside : All (Ends size) (ranges ts)) where
  sorted_inside : All (Ends size) (sort offset_less (ranges ts))
  sorted_inside = (All-sort offset_less (Ends size) (ranges ts)).1 inside

  -- If the ranges of the tensors end inside a file of 64-bit size and the scan finds no overlap,
  -- then no two tensors share a byte.
  pub has_overlap-Apart : has_overlap ts ≡ false → AllPairs Apart (ranges ts)
  unfolding has_overlap
  has_overlap-Apart e = (AllPairs-sort offset_less Apart Apart-symm (ranges ts)).0 (
      AllPairs-mono (Ends size) (λ x y. runs_into x y ≡ false) Apart (sort offset_less (ranges ts))
        (λ x y p q h. inl (ground arith)) sorted_inside
        (AllPairs-of_adjacent runs_into (Ends size) (sort offset_less (ranges ts))
          (λ x y z p h k. ground arith) sorted_inside e))

abbrev pub Nonempty : ByteRange → Type 0
Nonempty a = 0 < a.length

module _ (size : ℕ) (fits : IsU64 size) (ts : List TensorEntry)
    (inside : All (Ends size) (ranges ts)) where
  offsets_sorted : AllPairs (NotAbove offset_less) (sort offset_less (ranges ts))
  offsets_sorted =
      sort-sorted offset_less (λ x y h. ground arith) (λ x y z h k. ground arith) (ranges ts)

  -- If the ranges of the tensors end inside a file of 64-bit size, each holds a byte and no two
  -- share one, then the scan finds no overlap.
  pub Apart-has_overlap :
      All Nonempty (ranges ts) → AllPairs Apart (ranges ts) → has_overlap ts ≡ false
  unfolding has_overlap
  Apart-has_overlap full apart = adjacent_of_AllPairs runs_into (sort offset_less (ranges ts)) (
      AllPairs-mono (λ a. Nonempty a × Ends size a) (λ a b. NotAbove offset_less a b × Apart a b)
        (λ x y. runs_into x y ≡ false) (sort offset_less (ranges ts)) (λ x y p q h. ground arith)
        ((All-sort offset_less (λ a. Nonempty a × Ends size a) (ranges ts)).1
          (All-both Nonempty (Ends size) (ranges ts) full inside))
        (AllPairs-both (NotAbove offset_less) Apart (sort offset_less (ranges ts)) offsets_sorted
          ((AllPairs-sort offset_less Apart Apart-symm (ranges ts)).1 apart)))
