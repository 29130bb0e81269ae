-- ===== src/Gguf/Parse/Prefix.antt =====
-- Reading again with more of the file resident, src/core/gguf/reader.cpp: an answer that does not ask
-- for more bytes is the answer that the whole file gives.
use browser_llm.Base.{
  ℕ, zero, suc, ◌≡◌, ◌≢◌, refl, sym, ap, ◌⊎◌, inl, inr, not, List, [], ◌∷◌, ◌++◌, arith,
  take-drop-append, length-append, ltb,
}
use browser_llm.Gguf.Checked.{range_within}
use browser_llm.Gguf.Types.{
  ReadError, need_more_bytes, short_read, tensor_data_out_of_bounds, ValueType, TensorEntry,
  TensorShape,
}
use browser_llm.Gguf.Source.{ByteSource, not_resident, memory_source, read_memory}
use browser_llm.Gguf.Action.{Reader, reader_at, refuse}
use browser_llm.Gguf.Action.Rules.{Agree, Agree-bind}
use browser_llm.Gguf.Reader.{
  take, took, take_uint, take_string, skip, skip_string, skip_strings, skip_elements, take_array,
  take_value, scalar_size,
}
use browser_llm.Gguf.Parse.{
  take_dimensions, take_tensor, take_entry, take_entries, take_each_tensor, take_metadata,
  take_tensors, place_each, place_tensor_data, parse, read_index, failed, index_of,
}

-- The second source holds what the first one holds, of the same file.
pub record Extends (s t : ByteSource) : Type 0 where
  pub same_size : t.size ≡ s.size
  pub reads :
      (offset count : ℕ)
      → (s.read offset count ≡ t.read offset count) ⊎ (s.read offset count ≡ not_resident)

module _ (s t : ByteSource) (x : Extends s t) where
  take-Agree : (count : ℕ) (r : Reader) → Agree (take s count r) (take t count r)
  unfolding take took
  take-Agree count r = elim (x.reads r.cursor count) [
    | inl e ↦ inl (ap (λ o. took o count r) e)
    | inr e ↦ inr (_, ap (λ o. took o count r) e)
  ]

  take_uint-Agree : (count : ℕ) (r : Reader) → Agree (take_uint s count r) (take_uint t count r)
  unfolding take_uint
  take_uint-Agree count r = Agree-bind _ _ _ _ (take-Agree count r) (λ a q. inl refl)

  skip-Agree : (count : ℕ) (r : Reader) → Agree (skip s count r) (skip t count r)
  unfolding skip
  skip-Agree count r = inl (rw x.same_size)

  inside-Agree :
      (at count : ℕ) (e : ReadError) (r : Reader)
      → Agree
          (refuse (not (range_within at count s.size)) e r)
          (refuse (not (range_within at count t.size)) e r)
  inside-Agree at count e r =
      inl (ap (λ n. refuse (not (range_within at count n)) e r) (sym x.same_size))

  take_string-Agree : (r : Reader) → Agree (take_string s r) (take_string t r)
  unfolding take_string
  take_string-Agree r = Agree-bind _ _ _ _ (take_uint-Agree 8 r) λ count q.
      Agree-bind _ _ _ _ (inl refl) λ _ q.
        Agree-bind _ _ _ _ (inl refl)
          λ at q. Agree-bind _ _ _ _ (inside-Agree at count short_read q) λ _ o. take-Agree count o

  skip_string-Agree : (r : Reader) → Agree (skip_string s r) (skip_string t r)
  unfolding skip_string
  skip_string-Agree r =
      Agree-bind _ _ _ _ (take_uint-Agree 8 r)
        λ count q. Agree-bind _ _ _ _ (inl refl) λ _ p. skip-Agree count p

  skip_strings-Agree :
      (left : ℕ) (r : Reader) → Agree (skip_strings s left r) (skip_strings t left r)
  unfolding skip_strings
  skip_strings-Agree zero r = inl refl
  skip_strings-Agree (suc left) r =
      Agree-bind _ _ _ _ (skip_string-Agree r) λ _ q. skip_strings-Agree left q

  skip_elements-Agree :
      (type : ValueType) (count : ℕ) (r : Reader)
      → Agree (skip_elements s type count r) (skip_elements t type count r)
  unfolding skip_elements
  skip_elements-Agree ValueType.string count r = skip_strings-Agree count r
  skip_elements-Agree type count r = Agree-bind _ _ _ _ (inl refl) λ total q. skip-Agree total q

  take_array-Agree : (r : Reader) → Agree (take_array s r) (take_array t r)
  unfolding take_array
  take_array-Agree r = Agree-bind _ _ _ _ (take_uint-Agree 4 r) λ raw q.
      Agree-bind _ _ _ _ (inl refl) λ _ q. Agree-bind _ _ _ _ (inl refl) λ _ q.
        Agree-bind _ _ _ _ (take_uint-Agree 8 q) λ count q. Agree-bind _ _ _ _ (inl refl) λ _ q.
          Agree-bind _ _ _ _ (inl refl)
            λ start q. Agree-bind _ _ _ _ (skip_elements-Agree _ count q) λ _ q. inl refl

  take_value-Agree :
      (type : ValueType) (r : Reader) → Agree (take_value s type r) (take_value t type r)
  unfolding take_value
  take_value-Agree ValueType.string r = Agree-bind _ _ _ _ (take_string-Agree r) λ a q. inl refl
  take_value-Agree ValueType.array r = Agree-bind _ _ _ _ (take_array-Agree r) λ a q. inl refl
  take_value-Agree type r =
      Agree-bind _ _ _ _ (take_uint-Agree (scalar_size type) r) λ a q. inl refl

  take_dimensions-Agree :
      (left d : ℕ) (shape : TensorShape) (r : Reader)
      → Agree (take_dimensions s left d shape r) (take_dimensions t left d shape r)
  unfolding take_dimensions
  take_dimensions-Agree zero d shape r = inl refl
  take_dimensions-Agree (suc left) d shape r = Agree-bind _ _ _ _ (take_uint-Agree 8 r) λ extent q.
      Agree-bind _ _ _ _ (inl refl)
        λ _ q. Agree-bind _ _ _ _ (inl refl) λ total q. take_dimensions-Agree left (suc d) _ q

  take_tensor-Agree : (r : Reader) → Agree (take_tensor s r) (take_tensor t r)
  unfolding take_tensor
  take_tensor-Agree r = Agree-bind _ _ _ _ (take_string-Agree r) λ name q.
      Agree-bind _ _ _ _ (inl refl) λ _ q. Agree-bind _ _ _ _ (take_uint-Agree 4 q) λ count q.
        Agree-bind _ _ _ _ (inl refl) λ _ q.
          Agree-bind _ _ _ _ (take_dimensions-Agree count 0 _ q) λ shape q.
            Agree-bind _ _ _ _ (take_uint-Agree 4 q) λ type q.
              Agree-bind _ _ _ _ (inl refl) λ layout q.
                Agree-bind _ _ _ _ (inl refl)
                  λ _ q. Agree-bind _ _ _ _ (take_uint-Agree 8 q) λ offset q. inl refl

  take_entry-Agree : (r : Reader) → Agree (take_entry s r) (take_entry t r)
  unfolding take_entry
  take_entry-Agree r = Agree-bind _ _ _ _ (take_string-Agree r) λ key q.
      Agree-bind _ _ _ _ (inl refl) λ _ q. Agree-bind _ _ _ _ (take_uint-Agree 4 q) λ raw q.
        Agree-bind _ _ _ _ (inl refl)
          λ _ q. Agree-bind _ _ _ _ (take_value-Agree _ q) λ value q. inl refl

  take_entries-Agree :
      (left : ℕ) (r : Reader) → Agree (take_entries s left r) (take_entries t left r)
  unfolding take_entries
  take_entries-Agree zero r = inl refl
  take_entries-Agree (suc left) r =
      Agree-bind _ _ _ _ (take_entry-Agree r)
        λ entry q. Agree-bind _ _ _ _ (inl refl) λ _ q. take_entries-Agree left q

  take_each_tensor-Agree :
      (left : ℕ) (r : Reader) → Agree (take_each_tensor s left r) (take_each_tensor t left r)
  unfolding take_each_tensor
  take_each_tensor-Agree zero r = inl refl
  take_each_tensor-Agree (suc left) r =
      Agree-bind _ _ _ _ (take_tensor-Agree r)
        λ entry q. Agree-bind _ _ _ _ (inl refl) λ _ q. take_each_tensor-Agree left q

  place_each-Agree :
      (alignment start : ℕ) (ts : List TensorEntry) (r : Reader)
      → Agree (place_each s alignment start ts r) (place_each t alignment start ts r)
  unfolding place_each
  place_each-Agree alignment start [] r = inl refl
  place_each-Agree alignment start (e ∷ es) r = Agree-bind _ _ _ _ (inl refl) λ _ q.
      Agree-bind _ _ _ _ (inl refl) λ absolute q.
        Agree-bind _ _ _ _ (inside-Agree absolute e.data_length tensor_data_out_of_bounds q)
          λ _ q. Agree-bind _ _ _ _ (place_each-Agree alignment start es q) λ placed q. inl refl

  place_tensor_data-Agree :
      (alignment : ℕ) (r : Reader)
      → Agree (place_tensor_data s alignment r) (place_tensor_data t alignment r)
  unfolding place_tensor_data
  place_tensor_data-Agree alignment r = Agree-bind _ _ _ _ (inl refl) λ at q.
      Agree-bind _ _ _ _ (inl refl) λ start q.
        Agree-bind _ _ _ _
          (inl (ap (λ n. refuse (ltb n start) tensor_data_out_of_bounds q) (sym x.same_size)))
          λ _ q. Agree-bind _ _ _ _ (inl refl) λ entries q.
            Agree-bind _ _ _ _ (place_each-Agree alignment start entries q) λ placed q. inl refl

  parse-Agree : (r : Reader) → Agree (parse s r) (parse t r)
  unfolding parse take_metadata take_tensors
  parse-Agree r = Agree-bind _ _ _ _ (take-Agree 4 r) λ head q. Agree-bind _ _ _ _ (inl refl) λ _ q.
      Agree-bind _ _ _ _ (take_uint-Agree 4 q) λ version q. Agree-bind _ _ _ _ (inl refl) λ _ q.
        Agree-bind _ _ _ _ (take_uint-Agree 8 q) λ tensor_count q.
          Agree-bind _ _ _ _ (take_uint-Agree 8 q) λ metadata_count q.
            Agree-bind _ _ _ _ (inl refl) λ _ q. Agree-bind _ _ _ _ (inl refl) λ _ q.
              Agree-bind _ _ _ _
                (Agree-bind _ _ _ _ (take_entries-Agree metadata_count q) λ _ q. inl refl)
                λ _ q. Agree-bind _ _ _ _ (inl refl) λ es q.
                  Agree-bind _ _ _ _ (inl refl) λ alignment q.
                    Agree-bind _ _ _ _
                      (Agree-bind _ _ _ _ (take_each_tensor-Agree tensor_count q) λ _ q. inl refl)
                      λ _ q. place_tensor_data-Agree alignment q

  -- If a source extends another one of the same file, then read_index gives on it the index or the
  -- error that it gave on the other one, unless that was a request for more bytes.
  pub read_index_stable :
      ((n : ℕ) → read_index s ≢ failed need_more_bytes n) → read_index t ≡ read_index s
  unfolding read_index
  read_index_stable h = elim (parse-Agree (reader_at 0)) [
    | inl e ↦ ap index_of (sym e)
    | inr (r, e) ↦ absurd (h r.bytes_needed (ap index_of e))
  ]

-- The source of a longer prefix of a file extends the source of a shorter one: it has the same size
-- and gives the same answer to every read that the shorter one does not call not resident.
pub memory-Extends :
    (prefix more : List ℕ) (file_size : ℕ)
    → Extends
        (memory_source (record { resident = prefix; file_size = file_size }))
        (memory_source (record { resident = prefix ++ more; file_size = file_size }))
unfolding read_memory
memory-Extends prefix more file_size = record { same_size = refl; reads = agree }
  where
    agree :
        (offset count : ℕ)
        → (read_memory (record { resident = prefix; file_size = file_size }) offset count
            ≡ read_memory
                (record { resident = prefix ++ more; file_size = file_size })
                offset
                count)
          ⊎ (read_memory (record { resident = prefix; file_size = file_size }) offset count
              ≡ not_resident)
    agree offset count =
        ground (arith, length-append prefix more, take-drop-append offset count prefix more)
