-- ===== src/Examples/Gguf.antt =====
-- A small GGUF file, and the theorems on the reader applied to it and to small numbers.
use browser_llm.Base.{
  ℕ, ◌≤◌, ◌<◌, ◌≡◌, ◌≢◌, ◌↔◌, inl, refl, false, some, List, [], ◌∷◌, ◌++◌, arith, take, map,
}
use browser_llm.Base.Bits.{IsPow2}
use browser_llm.Base.Words.{negsuc}
use browser_llm.Gguf.Checked.{checked_add, checked_mul, range_within}
use browser_llm.Gguf.Types.{
  ValueType, TensorEntry, TensorIndex, unsigned, need_more_bytes, format_layout, find_layout,
  format_layouts, tensor_entry, value_type,
}
use browser_llm.Gguf.Source.{
  IsByteSource, Serves, MemoryByteSource, IsMemory, memory_source, read_memory,
}
use browser_llm.Gguf.Source.Memory.{memory_source-IsByteSource, prefix_of, memory_source-Serves}
use browser_llm.Gguf.Sorting.{sort, insert, any_adjacent}
use browser_llm.Gguf.Sorting.Laws.{AllPairs}
use browser_llm.Gguf.Action.{reader_at, and_then}
use browser_llm.Gguf.Reader.{
  le, scalar_size, known_value_type, sign_extend, took, take_uint, take_string, skip, take_array,
  take_value, skip_elements, scalar_value,
}
use browser_llm.Gguf.Reader as Reading
use browser_llm.Gguf.Reader.Values.{le-digits_value, sign_extend-twos_complement}
use browser_llm.Gguf.Reader.Bounds.{Post}
use browser_llm.Gguf.Reader.Arrays.{IsLocated, take_array-Post}
use browser_llm.Gguf.Parse.{
  text_less, text_eq, has_duplicate, range_of, has_overlap, declared_alignment, resolve_alignment,
  alignment_key, take_dimensions, take_tensor, take_entry, take_entries, take_metadata,
  take_each_tensor, take_tensors, place_each, place_tensor_data, parse, read, failed, read_index,
}
use browser_llm.Gguf.Parse.Names.{has_duplicate_iff}
use browser_llm.Gguf.Parse.Placement.{
  Apart, has_overlap-Apart, Apart-has_overlap, resolve_alignment-IsPow2,
}
use browser_llm.Gguf.Parse.Result.{IsIndex, read_index_sound, read_index_progress}
use browser_llm.Gguf.Index.{find, find-name}
use browser_llm.Gguf.Index.Typed.{read_u32, read_u64, read_f32, read_bool, read_string, read_array}
use browser_llm.Gguf.Index.Access.{IsAccess, read_as-entry}
use browser_llm.Gguf.Types.{MetadataEntry, single_bits, flag, text, array_at}
use browser_llm.Gguf.Parse.Prefix.{read_index_stable, memory-Extends}

-- A number of four and of eight bytes, for a number below 256.
abbrev four : ℕ → List ℕ
four n = n ∷ 0 ∷ 0 ∷ 0 ∷ []

abbrev eight : ℕ → List ℕ
eight n = n ∷ 0 ∷ 0 ∷ 0 ∷ 0 ∷ 0 ∷ 0 ∷ 0 ∷ []

-- One entry, `general.alignment` = 8, and one tensor `w` of two F32 values: 90 bytes of index, 6 of
-- padding, 8 of data.
abbrev head_bytes : List ℕ
head_bytes = b'G' ∷ b'G' ∷ b'U' ∷ b'F' ∷ (four 3 ++ (eight 1 ++ eight 1))

abbrev entry_bytes : List ℕ
entry_bytes = eight 17 ++ (alignment_key ++ (four 4 ++ four 8))

abbrev tensor_bytes : List ℕ
tensor_bytes = eight 1 ++ (b'w' ∷ (four 1 ++ (eight 2 ++ (four 0 ++ eight 0))))

abbrev index_bytes : List ℕ
index_bytes = head_bytes ++ (entry_bytes ++ tensor_bytes)

abbrev small_file : MemoryByteSource
small_file = record { resident = index_bytes; file_size = 104 }

abbrev first_bytes : MemoryByteSource
first_bytes = record { resident = take 10 index_bytes; file_size = 104 }

small_file-IsMemory : IsMemory small_file
small_file-IsMemory = record { within = omega arith; fits = omega arith; octets = omega arith }

first_bytes-IsMemory : IsMemory first_bytes
first_bytes-IsMemory = record { within = omega arith; fits = omega arith; octets = omega arith }

small_file-IsByteSource : IsByteSource 90 (memory_source small_file)
small_file-IsByteSource = memory_source-IsByteSource small_file small_file-IsMemory

abbrev small_index : TensorIndex
small_index = record {
  tensors =
      record {
        name = b'w' ∷ [];
        type = 0;
        dimension_count = 1;
        dimensions = 2 ∷ 1 ∷ 1 ∷ 1 ∷ [];
        element_count = 2;
        data_offset = 96;
        data_length = 8;
      }
      ∷ [];
  metadata = record { key = alignment_key; type = ValueType.uint32; value = unsigned 8 } ∷ [];
}

small_file_read : read_index (memory_source small_file) ≡ read small_index
unfolding read_index parse and_then Reading.take took read_memory le take_uint take_string
    take_metadata take_entries take_entry take_value known_value_type scalar_size scalar_value
    value_type text_eq has_duplicate any_adjacent sort insert text_less resolve_alignment
    declared_alignment range_within take_tensors take_each_tensor take_tensor take_dimensions
    format_layout find_layout format_layouts checked_mul checked_add tensor_entry place_tensor_data
    place_each has_overlap range_of reader_at
small_file_read = refl

first_bytes_read : read_index (memory_source first_bytes) ≡ failed need_more_bytes 16
unfolding read_index parse and_then Reading.take took read_memory le take_uint text_eq reader_at
first_bytes_read = refl

read_index_sound_example : IsIndex 104 small_index
read_index_sound_example = read_index_sound small_file-IsByteSource small_index small_file_read

read_index_progress_example : (16 ≤ 104) × (10 < 16)
read_index_progress_example =
    read_index_progress (memory_source-IsByteSource first_bytes first_bytes-IsMemory) 16
      first_bytes_read

abbrev longer_file : MemoryByteSource
longer_file = record { resident = index_bytes ++ (0 ∷ 0 ∷ 0 ∷ []); file_size = 104 }

not_waiting : (n : ℕ) → read_index (memory_source small_file) ≢ failed need_more_bytes n
not_waiting n e = cc (small_file_read, e)

read_index_stable_example :
    read_index (memory_source longer_file) ≡ read_index (memory_source small_file)
read_index_stable_example =
    read_index_stable (memory_source small_file) (memory_source longer_file)
      (memory-Extends index_bytes (0 ∷ 0 ∷ 0 ∷ []) 104) not_waiting

memory_source-Serves_example : Serves index_bytes 40 (memory_source (prefix_of index_bytes 40))
memory_source-Serves_example = memory_source-Serves index_bytes 40 (omega arith)

abbrev a_tensor : ℕ → ℕ → TensorEntry
a_tensor at size = record {
  name = b'w' ∷ [];
  type = 0;
  dimension_count = 1;
  dimensions = 2 ∷ 1 ∷ 1 ∷ 1 ∷ [];
  element_count = 2;
  data_offset = at;
  data_length = size;
}

abbrev two_tensors : List TensorEntry
two_tensors = a_tensor 64 8 ∷ a_tensor 32 12 ∷ []

two_tensors_apart : has_overlap two_tensors ≡ false
unfolding has_overlap any_adjacent sort insert range_of
two_tensors_apart = refl

has_overlap-Apart_example : AllPairs Apart (map range_of two_tensors)
unfolding range_of
has_overlap-Apart_example =
    has_overlap-Apart 104 (omega arith) two_tensors (omega arith) two_tensors_apart

Apart-has_overlap_example : has_overlap two_tensors ≡ false
unfolding range_of
Apart-has_overlap_example =
    Apart-has_overlap 104 (omega arith) two_tensors (omega arith) (omega arith)
      has_overlap-Apart_example

abbrev two_names : List (List ℕ)
two_names = (1 ∷ 2 ∷ []) ∷ (1 ∷ []) ∷ []

has_duplicate_iff_example : (has_duplicate two_names ≡ false) ↔ AllPairs (λ x y. x ≢ y) two_names
has_duplicate_iff_example = has_duplicate_iff two_names

le-digits_value_example : le (1 ∷ 2 ∷ []) ≡ 513
le-digits_value_example = le-digits_value (1 ∷ 2 ∷ []) (omega arith) (omega arith)

sign_extend-twos_complement_example : sign_extend 255 1 ≡ negsuc 0
sign_extend-twos_complement_example = sign_extend-twos_complement 255 1 (inl refl) (omega arith)

power_of_eight : IsPow2 8
unfolding IsPow2
power_of_eight = (3, refl)

alignment_found : resolve_alignment small_index.metadata 8 ≡ some 8
unfolding resolve_alignment declared_alignment text_eq
alignment_found = refl

resolve_alignment-IsPow2_example : IsPow2 8
resolve_alignment-IsPow2_example =
    resolve_alignment-IsPow2 small_index.metadata 8 8 power_of_eight alignment_found

-- An array of two bytes: its type, its count and the bytes.
abbrev array_file : MemoryByteSource
array_file = record { resident = four 0 ++ (eight 2 ++ (7 ∷ 9 ∷ [])); file_size = 14 }

array_file-IsMemory : IsMemory array_file
array_file-IsMemory = record { within = omega arith; fits = omega arith; octets = omega arith }

take_array-Post_example :
    Post
      (memory_source-IsByteSource array_file array_file-IsMemory)
      (reader_at 0)
      (λ a s. IsLocated 14 a)
      (take_array (memory_source array_file) (reader_at 0))
take_array-Post_example =
    take_array-Post (memory_source-IsByteSource array_file array_file-IsMemory) (reader_at 0)

abbrev only_tensor : TensorEntry
only_tensor = record {
  name = b'w' ∷ [];
  type = 0;
  dimension_count = 1;
  dimensions = 2 ∷ 1 ∷ 1 ∷ 1 ∷ [];
  element_count = 2;
  data_offset = 96;
  data_length = 8;
}

find-name_example : find small_index (b'w' ∷ []) ≡ some 0
find-name_example = find-name 104 small_index 0 only_tensor read_index_sound_example refl

abbrev only_entry : MetadataEntry
only_entry = record { key = alignment_key; type = ValueType.uint32; value = unsigned 8 }

read_as-entry_example :
    IsAccess unsigned ValueType.uint32 only_entry (read_u32 small_index alignment_key)
    × IsAccess unsigned ValueType.uint64 only_entry (read_u64 small_index alignment_key)
    × IsAccess single_bits ValueType.float32 only_entry (read_f32 small_index alignment_key)
    × IsAccess flag ValueType.bool only_entry (read_bool small_index alignment_key)
    × IsAccess text ValueType.string only_entry (read_string small_index alignment_key)
    × IsAccess array_at ValueType.array only_entry (read_array small_index alignment_key)
read_as-entry_example = read_as-entry 104 small_index 0 only_entry read_index_sound_example refl
