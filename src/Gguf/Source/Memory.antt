-- ===== src/Gguf/Source/Memory.antt =====
-- What MemoryByteSource of src/core/gguf/byte_source.h does, read by read, and the contract it keeps.
use browser_llm.Base.{
  ℕ, zero, suc, ◌+◌, ◌<◌, ◌≤◌, ◌≡◌, refl, ap, sym, subst, ◌∙◌, List, [], ◌∷◌, arith, get_elem?,
  length, take, drop, All, All-take, All-drop, length-take, length-drop, ◌⊎◌, inl, inr,
}
use browser_llm.Base.Words.{IsByte}
use browser_llm.Gguf.Source.{
  ReadOutcome, bytes, outside_file, not_resident, IsByteSource, Serves, MemoryByteSource,
  read_memory, memory_source, IsMemory,
}

-- A read is outside the file exactly when its end is past the file's, not resident when it is inside
-- the file and ends past the prefix, and otherwise gives the bytes of the prefix at the offset.
pub read_memory_cases :
    (m : MemoryByteSource) (offset want : ℕ)
    → ((m.file_size < offset + want) × (read_memory m offset want ≡ outside_file))
      ⊎ ((offset + want ≤ m.file_size)
          × (length m.resident < offset + want)
          × (read_memory m offset want ≡ not_resident))
      ⊎ ((offset + want ≤ m.file_size)
          × (offset + want ≤ length m.resident)
          × (read_memory m offset want ≡ bytes (take want (drop offset m.resident))))
unfolding read_memory
read_memory_cases m offset want = ground arith

abbrev IsTaken : ℕ → ReadOutcome → Type 0
IsTaken want (bytes bs) = (length bs ≡ want) × All IsByte bs
IsTaken want outside_file = Unit
IsTaken want not_resident = Unit

IsTaken-take :
    (m : MemoryByteSource) (offset want : ℕ)
    → IsMemory m
    → offset + want ≤ length m.resident
    → IsTaken want (bytes (take want (drop offset m.resident)))
IsTaken-take m offset want v h = (
  omega (arith, length-take want (drop offset m.resident), length-drop offset m.resident),
  All-take IsByte want (drop offset m.resident) (All-drop IsByte offset m.resident v.octets),
)

taken :
    (m : MemoryByteSource) (offset want : ℕ) (bs : List ℕ)
    → IsMemory m
    → read_memory m offset want ≡ bytes bs
    → (offset + want ≤ m.file_size) × (length bs ≡ want) × All IsByte bs
taken m offset want bs v e = elim (read_memory_cases m offset want) [
  | inl (h, q) ↦ cc
  | inr (inl (h, k, q)) ↦ cc
  | inr (inr (h, k, q)) ↦
      let (n, all) = subst (IsTaken want) (sym q ∙ e) (IsTaken-take m offset want v k) in
      (h, n, all)
]

missing :
    (m : MemoryByteSource) (offset want : ℕ)
    → read_memory m offset want ≡ not_resident
    → (offset + want ≤ m.file_size) × (length m.resident < offset + want)
unfolding read_memory
missing m offset want e = ground arith

-- It keeps what the reader uses of the interface.
pub memory_source-IsByteSource :
    (m : MemoryByteSource) → IsMemory m → IsByteSource (length m.resident) (memory_source m)
unfolding read_memory
memory_source-IsByteSource m v = record {
  size_fits = v.fits;
  read_bytes = λ o c bs. taken m o c bs v;
  read_missing = missing m;
}

get_elem?-take : (n i : ℕ) (xs : List ℕ) → i < n → get_elem? (take n xs) i ≡ get_elem? xs i
get_elem?-take zero i xs h = absurd (omega (arith, h))
get_elem?-take (suc n) i [] h = refl
get_elem?-take (suc n) zero (x ∷ xs) h = refl
get_elem?-take (suc n) (suc i) (x ∷ xs) h = get_elem?-take n i xs (omega (arith, h))

get_elem?-drop : (n i k : ℕ) (xs : List ℕ) → n + i ≡ k → get_elem? (drop n xs) i ≡ get_elem? xs k
get_elem?-drop zero i k xs h = ap (get_elem? xs) (omega (arith, h))
get_elem?-drop (suc n) i k [] h = refl
get_elem?-drop (suc n) i zero (x ∷ xs) h = absurd (omega (arith, h))
get_elem?-drop (suc n) i (suc k) (x ∷ xs) h = get_elem?-drop n i k xs (omega (arith, h))

-- The source over the first `held` bytes of the file.
abbrev pub prefix_of : List ℕ → ℕ → MemoryByteSource
prefix_of file held = record { resident = take held file; file_size = length file }

module _ (file : List ℕ) (held : ℕ) (within : held ≤ length file) where
  length-resident : length (take held file) ≡ held
  length-resident = omega (arith, length-take held file, within)

  read_held :
      (offset count : ℕ)
      → offset + count ≤ held
      → (bs : List ℕ) × (read_memory (prefix_of file held) offset count ≡ bytes bs)
        × (length bs ≡ count)
        × ((i : ℕ) → i < count → get_elem? bs i ≡ get_elem? file (offset + i))
  read_held offset count h = elim (read_memory_cases (prefix_of file held) offset count) [
    | inl (p, q) ↦ absurd (omega (arith, h, p, within))
    | inr (inl (p, r, q)) ↦ absurd (omega (arith, h, r, length-resident))
    | inr (inr (p, r, q)) ↦ (
      take count (drop offset (take held file)),
      q,
      omega (
        arith,
        r,
        length-take count (drop offset (take held file)),
        length-drop offset (take held file),
      ),
      λ i l.
          get_elem?-take count i (drop offset (take held file)) l
          ∙ get_elem?-drop offset i (offset + i) (take held file) refl
          ∙ get_elem?-take held (offset + i) file (omega (arith, h, l)),
    )
  ]

  read_unheld :
      (offset count : ℕ)
      → held < offset + count
      → offset + count ≤ length file
      → read_memory (prefix_of file held) offset count ≡ not_resident
  read_unheld offset count h k = elim (read_memory_cases (prefix_of file held) offset count) [
    | inl (p, q) ↦ absurd (omega (arith, k, p))
    | inr (inl (p, r, q)) ↦ q
    | inr (inr (p, r, q)) ↦ absurd (omega (arith, h, r, length-resident))
  ]

  read_past :
      (offset count : ℕ)
      → length file < offset + count
      → read_memory (prefix_of file held) offset count ≡ outside_file
  read_past offset count h = elim (read_memory_cases (prefix_of file held) offset count) [
    | inl (p, q) ↦ q
    | inr (inl (p, r, q)) ↦ absurd (omega (arith, h, p))
    | inr (inr (p, r, q)) ↦ absurd (omega (arith, h, p))
  ]

-- The source over the first bytes of a file keeps the contract of the byte source interface: its
-- size is the file's; a read inside those bytes gives as many bytes as were asked for, each the
-- file's at its offset; a read that ends past them and inside the file is not resident; and a read
-- that ends past the file is outside it.
pub memory_source-Serves :
    (file : List ℕ) (held : ℕ)
    → held ≤ length file
    → Serves file held (memory_source (prefix_of file held))
memory_source-Serves file held h = record {
  size_exact = refl;
  read_held = read_held file held h;
  read_unheld = read_unheld file held h;
  read_past = read_past file held h;
}
