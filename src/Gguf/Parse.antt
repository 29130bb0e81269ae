-- ===== src/Gguf/Parse.antt =====
-- Reading the whole index, src/core/gguf/reader.cpp: a tensor's entry, the metadata, the alignment,
-- the placing of the tensor data, `parse`, `read_index` and `read_string_element`.
pub mod Names
pub mod Entries
pub mod Placement
pub mod Parts
pub mod Blocks
pub mod Result
pub mod Prefix
use Prim.Native.Nat.{bit_and}
use browser_llm.Base.{
  ℕ, zero, suc, ◌-◌, ◌/◌, ◌%◌, ◌^◌, ◌<◌, Bool, true, false, not, ◌&&◌, ◌||◌, Option, none, some,
  List, [], ◌∷◌, ◌++◌, map, ltb, leb, ◌==◌, if◌then◌else◌, length, set, get_or, replicate,
}
use browser_llm.Base.Words.{add64, sub64}
use browser_llm.Gguf.Checked.{checked_add, checked_mul, range_within}
use browser_llm.Gguf.Types.{
  ValueType, value_type, format_layout, FormatLayout, ReadError, ArrayLocation, MetadataValue,
  MetadataEntry, TensorShape, ByteRange, TensorEntry, tensor_entry, TensorIndex, magic,
  supported_version, default_alignment, max_dimensions, max_tensor_name_length, max_tensor_count,
  max_metadata_count, unsigned,
}
use browser_llm.Gguf.Types.{
  need_more_bytes, short_read, bad_magic, unsupported_version, count_too_large, unknown_value_type,
  offset_overflow, too_many_dimensions, negative_dimension, element_count_overflow,
  unknown_tensor_type, row_not_whole_blocks, tensor_name_too_long, tensor_data_out_of_bounds,
  duplicate_tensor_name, misaligned_tensor_data, overlapping_tensor_data, bad_alignment, empty_key,
  duplicate_metadata_key,
}
use browser_llm.Gguf.Source.{ByteSource}
use browser_llm.Gguf.Sorting.{sort, any_adjacent}
use browser_llm.Gguf.Action.{
  Reader, reader_at, Outcome, ok, err, Action, and_then, ◌>>=◌, ◌>>◌, pure, raise, refuse,
  cursor_now,
}
use browser_llm.Gguf.Reader.{
  require, take, take_uint, take_string, take_string_at, take_value, known_value_type,
}

-- Byte strings compare as `std::string_view` does: byte by byte, a proper prefix first.
unfoldable pub text_less : List ℕ → List ℕ → Bool
text_less [] [] = false
text_less [] (b ∷ bs) = true
text_less (a ∷ more) [] = false
text_less (a ∷ more) (b ∷ bs) =
    if ltb a b then true else if ltb b a then false else text_less more bs

unfoldable pub text_eq : List ℕ → List ℕ → Bool
text_eq [] [] = true
text_eq (a ∷ more) (b ∷ bs) = (a == b) && text_eq more bs
text_eq _ _ = false

unfoldable pub has_duplicate : List (List ℕ) → Bool
has_duplicate values = any_adjacent text_eq (sort text_less values)

unfoldable pub range_of : TensorEntry → ByteRange
range_of t = record { offset = t.data_offset; length = t.data_length }

abbrev pub offset_less : ByteRange → ByteRange → Bool
offset_less a b = ltb a.offset b.offset

-- The later of two neighbours starts before the earlier one ends.
abbrev pub runs_into : ByteRange → ByteRange → Bool
runs_into a b = ltb b.offset (add64 a.offset a.length)

unfoldable pub has_overlap : List TensorEntry → Bool
has_overlap tensors = any_adjacent runs_into (sort offset_less (map range_of tensors))

-- `general.alignment`
abbrev pub alignment_key : List ℕ
alignment_key =
    b'g' ∷ b'e' ∷ b'n' ∷ b'e' ∷ b'r' ∷ b'a' ∷ b'l' ∷ b'.' ∷ b'a' ∷ b'l' ∷ b'i' ∷ b'g' ∷ b'n' ∷ b'm'
    ∷ b'e' ∷ b'n' ∷ b't' ∷ []

-- One entry's say in the alignment: none of its business, an error, or the new value.
unfoldable pub declared_alignment : ValueType → MetadataValue → Option ℕ
declared_alignment ValueType.uint32 (unsigned value) =
    if value == 0 || not (bit_and value (value - 1) == 0) then none else some value
declared_alignment _ _ = none

-- The loop of `resolve_alignment`: `none` is BadAlignment, `out` the value so far.
unfoldable pub resolve_alignment : List MetadataEntry → ℕ → Option ℕ
unfolding text_eq declared_alignment
resolve_alignment [] out = some out
resolve_alignment (e ∷ rest) out =
    if not (text_eq e.key alignment_key)
    then resolve_alignment rest out
    else elim (declared_alignment e.type e.value) [
      | none ↦ none
      | some value ↦ resolve_alignment rest value
    ]

abbrev pub first_dimension : TensorShape → ℕ
first_dimension shape = get_or shape.dimensions 0 0

-- The padding that takes the cursor to the next multiple of the alignment.
abbrev pub padding : ℕ → ℕ → ℕ
padding cursor alignment = sub64 alignment (cursor % alignment) % alignment

abbrev pub is_empty : List ℕ → Bool
is_empty [] = true
is_empty (b ∷ bs) = false

abbrev pub keep_metadata : MetadataEntry → Action (Unit {0})
keep_metadata entry r = ok tt (record r { metadata = r.metadata ++ (entry ∷ []) })

abbrev pub keep_tensor : TensorEntry → Action (Unit {0})
keep_tensor entry r = ok tt (record r { tensors = r.tensors ++ (entry ∷ []) })

abbrev pub keys_of : List MetadataEntry → List (List ℕ)
keys_of = map λ e. e.key

abbrev pub names_of : List TensorEntry → List (List ℕ)
names_of = map λ t. t.name

abbrev pub metadata_now : Action (List MetadataEntry)
metadata_now r = ok r.metadata r

abbrev pub tensors_now : Action (List TensorEntry)
tensors_now r = ok r.tensors r

abbrev pub store_tensors : List TensorEntry → Action (Unit {0})
store_tensors ts r = ok tt (record r { tensors = ts })

module _ (source : ByteSource) where
  -- `for (d = 0; d < dimension_count; ++d)`, with the rounds left and `d`.
  unfoldable pub take_dimensions : ℕ → ℕ → TensorShape → Action TensorShape
  take_dimensions zero d shape = pure shape
  take_dimensions (suc left) d shape = do
    extent ← take_uint source 8
    refuse (not (extent / 2 ^ 63 == 0)) negative_dimension
    total ← require (checked_mul shape.element_count extent) element_count_overflow
    take_dimensions left (suc d)
        (record shape { dimensions = set shape.dimensions d extent; element_count = total })

  unfoldable pub take_tensor : Action TensorEntry
  take_tensor = do
    name ← take_string source
    refuse (ltb max_tensor_name_length (length name)) tensor_name_too_long
    dimension_count ← take_uint source 4
    refuse (ltb max_dimensions dimension_count) too_many_dimensions
    shape ← take_dimensions dimension_count 0 (record {
      dimension_count = dimension_count;
      dimensions = replicate 4 1;
      element_count = 1;
    })
    type ← take_uint source 4
    layout ← require (format_layout type) unknown_tensor_type
    refuse (not (first_dimension shape % layout.block_elements == 0)) row_not_whole_blocks
    offset ← take_uint source 8
    size ←
        require (checked_mul (shape.element_count / layout.block_elements) layout.block_bytes)
          offset_overflow
    pure (tensor_entry name type shape (record { offset = offset; length = size }))

  unfoldable pub take_entry : Action MetadataEntry
  take_entry = do
    key ← take_string source
    refuse (is_empty key) empty_key
    raw_type ← take_uint source 4
    refuse (not (known_value_type raw_type)) unknown_value_type
    value ← take_value source (value_type raw_type)
    pure (record { key = key; type = value_type raw_type; value = value })

  unfoldable pub take_entries : ℕ → Action (Unit {0})
  take_entries zero = pure tt
  take_entries (suc left) = do entry ← take_entry; keep_metadata entry; take_entries left

  unfoldable pub take_metadata : ℕ → Action (Unit {0})
  take_metadata count = do
    take_entries count
    entries ← metadata_now
    refuse (has_duplicate (keys_of entries)) duplicate_metadata_key

  unfoldable pub take_each_tensor : ℕ → Action (Unit {0})
  take_each_tensor zero = pure tt
  take_each_tensor (suc left) = do entry ← take_tensor; keep_tensor entry; take_each_tensor left

  unfoldable pub take_tensors : ℕ → Action (Unit {0})
  take_tensors count = do
    take_each_tensor count
    entries ← tensors_now
    refuse (has_duplicate (names_of entries)) duplicate_tensor_name

  -- The loop that makes each offset absolute. On an error the source leaves the entries half moved,
  -- and nothing reads them.
  unfoldable pub place_each : ℕ → ℕ → List TensorEntry → Action (List TensorEntry)
  place_each alignment data_start [] = pure []
  place_each alignment data_start (t ∷ rest) = do
    refuse (not (t.data_offset % alignment == 0)) misaligned_tensor_data
    absolute ← require (checked_add data_start t.data_offset) offset_overflow
    refuse (not (range_within absolute t.data_length source.size)) tensor_data_out_of_bounds
    placed ← place_each alignment data_start rest
    pure (record t { data_offset = absolute } ∷ placed)

  unfoldable pub place_tensor_data : ℕ → Action (Unit {0})
  place_tensor_data alignment = do
    at ← cursor_now
    data_start ← require (checked_add at (padding at alignment)) offset_overflow
    refuse (ltb source.size data_start) tensor_data_out_of_bounds
    entries ← tensors_now
    placed ← place_each alignment data_start entries
    store_tensors placed
    refuse (has_overlap placed) overlapping_tensor_data

  unfoldable pub parse : Action (Unit {0})
  parse = do
    head ← take source 4
    refuse (not (text_eq head magic)) bad_magic
    version ← take_uint source 4
    refuse (not (version == supported_version)) unsupported_version
    tensor_count ← take_uint source 8
    metadata_count ← take_uint source 8
    refuse (ltb max_tensor_count tensor_count) count_too_large
    refuse (ltb max_metadata_count metadata_count) count_too_large
    take_metadata metadata_count
    entries ← metadata_now
    alignment ← require (resolve_alignment entries default_alignment) bad_alignment
    take_tensors tensor_count
    place_tensor_data alignment

-- ReadResult, with the index or the string that `Ok` fills in.
pub data ReadResult (A : Type 0) : Type 0 where
  read : A → ReadResult A
  failed : ReadError → ℕ → ReadResult A

abbrev pub index_of : Outcome (Unit {0}) → ReadResult TensorIndex
index_of (ok _ r) = read (record { tensors = r.tensors; metadata = r.metadata })
index_of (err e r) = failed e r.bytes_needed

unfoldable pub read_index : ByteSource → ReadResult TensorIndex
read_index source = index_of (parse source (reader_at 0))

abbrev pub string_of : Outcome (List ℕ) → ReadResult (List ℕ)
string_of (ok s r) = read s
string_of (err e r) = failed e r.bytes_needed

abbrev pub is_string : ValueType → Bool
is_string ValueType.string = true
is_string _ = false

unfoldable pub read_string_element : ByteSource → ArrayLocation → ℕ → ReadResult (List ℕ)
read_string_element source array element =
    if not (is_string array.element_type) || leb array.element_count element
    then failed short_read 0
    else string_of (take_string_at source element (reader_at array.bytes.offset))
