-- ===== src/Gguf/Reader.antt =====
-- The member functions of class Reader, src/core/gguf/reader.cpp, each for the source it reads from.
pub mod Values
pub mod Bounds
pub mod Arrays
use Prim.Native.Nat.{bit_or}
use browser_llm.Base.{
  ℕ, zero, suc, ◌-◌, ◌*◌, ◌/◌, ◌%◌, ◌^◌, ◌≡◌, Bool, true, false, not, Option, none, some, List, [],
  ◌∷◌, ltb, leb, ◌==◌, if◌then◌else◌, length, set, get_or,
}
use browser_llm.Base.Words.{IsU64, add64, sub64, mul64, ℤ, signed64, sar}
use browser_llm.Gguf.Checked.{checked_add, checked_mul, range_within}
use browser_llm.Gguf.Types.{
  ValueType, value_type, format_layout, FormatLayout, ReadError, ArrayLocation, MetadataValue,
  MetadataEntry, TensorShape, ByteRange, TensorEntry, tensor_entry, max_string_length,
  max_array_length, max_dimensions, max_tensor_name_length, unsigned, signed, single_bits,
  double_bits, flag, text, array_at,
}
use browser_llm.Gguf.Types.{
  need_more_bytes, short_read, unknown_value_type, string_too_long, array_too_long, nested_array,
  offset_overflow, too_many_dimensions, negative_dimension, element_count_overflow,
  unknown_tensor_type, row_not_whole_blocks, tensor_name_too_long,
}
use browser_llm.Gguf.Source.{ByteSource, ReadOutcome, bytes, outside_file, not_resident}
use browser_llm.Gguf.Action.{
  Reader, Outcome, ok, err, Action, and_then, ◌>>=◌, ◌>>◌, pure, raise, refuse, cursor_now,
}

-- Little-endian decode: the loop over the bytes runs from the last to the first.
unfoldable pub le : List ℕ → ℕ
le [] = 0
le (b ∷ bs) = bit_or (mul64 (le bs) (2 ^ 8)) b

unfoldable pub scalar_size : ValueType → ℕ
scalar_size ValueType.uint8 = 1
scalar_size ValueType.int8 = 1
scalar_size ValueType.bool = 1
scalar_size ValueType.uint16 = 2
scalar_size ValueType.int16 = 2
scalar_size ValueType.uint32 = 4
scalar_size ValueType.int32 = 4
scalar_size ValueType.float32 = 4
scalar_size ValueType.uint64 = 8
scalar_size ValueType.int64 = 8
scalar_size ValueType.float64 = 8
scalar_size ValueType.string = 0
scalar_size ValueType.array = 0

unfoldable pub known_value_type : ℕ → Bool
known_value_type raw = leb raw 12

unfoldable pub sign_extend : ℕ → ℕ → ℤ
sign_extend raw count =
    let shift : ℕ = 64 - 8 * count in sar (signed64 (mul64 raw (2 ^ shift))) shift

-- A step that reads a number it cannot go on without.
abbrev pub require : {A : Type 0} → Option A → ReadError → Action A
require (some a) e = pure a
require none e = raise e

unfoldable pub took : ReadOutcome → ℕ → Action (List ℕ)
took (bytes bs) count r = ok bs (record r { cursor = add64 r.cursor count })
took not_resident count r = err need_more_bytes (record r { bytes_needed = add64 r.cursor count })
took outside_file count r = err short_read r

abbrev pub is_array : ValueType → Bool
is_array ValueType.array = true
is_array _ = false

-- The value of a scalar, from its bytes as a number.
unfoldable pub scalar_value : ValueType → ℕ → MetadataValue
scalar_value ValueType.bool raw = flag (not (raw == 0))
scalar_value ValueType.int8 raw = signed (sign_extend raw 1)
scalar_value ValueType.int16 raw = signed (sign_extend raw 2)
scalar_value ValueType.int32 raw = signed (sign_extend raw 4)
scalar_value ValueType.int64 raw = signed (sign_extend raw 8)
scalar_value ValueType.float32 raw = single_bits raw
scalar_value ValueType.float64 raw = double_bits raw
scalar_value _ raw = unsigned raw

module _ (source : ByteSource) where
  unfoldable pub take : ℕ → Action (List ℕ)
  unfolding took
  take count r = took (source.read r.cursor count) count r

  unfoldable pub take_uint : ℕ → Action ℕ
  take_uint count = do buf ← take count; pure (le buf)

  unfoldable pub take_string : Action (List ℕ)
  take_string = do
    count ← take_uint 8
    refuse (ltb max_string_length count) string_too_long
    at ← cursor_now
    refuse (not (range_within at count source.size)) short_read
    take count

  -- Advances past `count` bytes that need not be resident.
  unfoldable pub skip : ℕ → Action (Unit {0})
  skip count r =
      if not (range_within r.cursor count source.size)
      then err short_read r
      else ok tt (record r { cursor = add64 r.cursor count })

  unfoldable pub skip_string : Action (Unit {0})
  skip_string = do
    count ← take_uint 8
    refuse (ltb max_string_length count) string_too_long
    skip count

  -- `for (i = 0; i < count; ++i) skip_string()`
  unfoldable pub skip_strings : ℕ → Action (Unit {0})
  skip_strings zero = pure tt
  skip_strings (suc left) = do skip_string; skip_strings left

  unfoldable pub take_string_at : ℕ → Action (List ℕ)
  take_string_at element = do skip_strings element; take_string

  -- The elements of an array: strings are walked, scalars are skipped as one range.
  unfoldable pub skip_elements : ValueType → ℕ → Action (Unit {0})
  skip_elements ValueType.string count = skip_strings count
  skip_elements type count = do
    total ← require (checked_mul count (scalar_size type)) offset_overflow
    skip total

  unfoldable pub take_array : Action ArrayLocation
  unfolding skip_elements
  take_array = do
    raw_type ← take_uint 4
    refuse (not (known_value_type raw_type)) unknown_value_type
    refuse (is_array (value_type raw_type)) nested_array
    count ← take_uint 8
    refuse (ltb max_array_length count) array_too_long
    start ← cursor_now
    skip_elements (value_type raw_type) count
    stop ← cursor_now
    pure (record {
      element_type = value_type raw_type;
      element_count = count;
      bytes = record { offset = start; length = sub64 stop start };
    })

  unfoldable pub take_value : ValueType → Action MetadataValue
  unfolding scalar_value
  take_value ValueType.string = do s ← take_string; pure (text s)
  take_value ValueType.array = do a ← take_array; pure (array_at a)
  take_value type = do raw ← take_uint (scalar_size type); pure (scalar_value type raw)
