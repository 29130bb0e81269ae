-- ===== src/Gguf/Index/Typed.antt =====
-- The typed accessors of the metadata, src/core/gguf/index.cpp.
use browser_llm.Base.{ℕ, ◌%◌, ◌^◌, Bool, not, Option, none, some, List, ◌==◌, if◌then◌else◌}
use browser_llm.Gguf.Types.{
  TensorIndex, MetadataEntry, MetadataValue, ValueType, ArrayLocation, unsigned, single_bits, flag,
  text, array_at,
}
use browser_llm.Gguf.Index.{entry}

-- MetadataError, with the value that `Ok` leaves in the out-parameter. `no_alternative` is no result of
-- the source: `std::get` of an alternative that the value does not hold.
pub data Access (A : Type 0) : Type 0 where
  found : A → Access A
  missing_key : Access A
  wrong_type : Access A
  no_alternative : Access A

abbrev pub type_number : ValueType → ℕ
type_number ValueType.uint8 = 0
type_number ValueType.int8 = 1
type_number ValueType.uint16 = 2
type_number ValueType.int16 = 3
type_number ValueType.uint32 = 4
type_number ValueType.int32 = 5
type_number ValueType.float32 = 6
type_number ValueType.bool = 7
type_number ValueType.string = 8
type_number ValueType.array = 9
type_number ValueType.uint64 = 10
type_number ValueType.int64 = 11
type_number ValueType.float64 = 12

-- `std::get`
abbrev pub as_unsigned : MetadataValue → Access ℕ
as_unsigned (unsigned n) = found n
as_unsigned _ = no_alternative

abbrev pub as_single : MetadataValue → Access ℕ
as_single (single_bits n) = found n
as_single _ = no_alternative

abbrev pub as_flag : MetadataValue → Access Bool
as_flag (flag b) = found b
as_flag _ = no_alternative

abbrev pub as_text : MetadataValue → Access (List ℕ)
as_text (text s) = found s
as_text _ = no_alternative

abbrev pub as_array : MetadataValue → Access ArrayLocation
as_array (array_at a) = found a
as_array _ = no_alternative

-- The cast to a narrower integer.
abbrev pub narrowed : Access ℕ → Access ℕ
narrowed (found n) = found (n % 2 ^ 32)
narrowed other = other

module _ {A : Type 0} (get : MetadataValue → Access A) (declared : ValueType) where
  abbrev pub read_as : Option MetadataEntry → Access A
  read_as none = missing_key
  read_as (some e) =
      if not (type_number e.type == type_number declared) then wrong_type else get e.value

unfoldable pub read_u32 : TensorIndex → List ℕ → Access ℕ
read_u32 index key = narrowed (read_as as_unsigned ValueType.uint32 (entry index key))

unfoldable pub read_u64 : TensorIndex → List ℕ → Access ℕ
read_u64 index key = read_as as_unsigned ValueType.uint64 (entry index key)

unfoldable pub read_f32 : TensorIndex → List ℕ → Access ℕ
read_f32 index key = read_as as_single ValueType.float32 (entry index key)

unfoldable pub read_bool : TensorIndex → List ℕ → Access Bool
read_bool index key = read_as as_flag ValueType.bool (entry index key)

unfoldable pub read_string : TensorIndex → List ℕ → Access (List ℕ)
read_string index key = read_as as_text ValueType.string (entry index key)

unfoldable pub read_array : TensorIndex → List ℕ → Access ArrayLocation
read_array index key = read_as as_array ValueType.array (entry index key)
