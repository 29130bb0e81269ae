-- ===== src/Gguf/Types.antt =====
-- The constants, the format table, the errors and the records of src/core/gguf/types.h, and the
-- metadata of src/core/gguf/index.h. A name or a text is the list of its bytes.
use Prim.Native.String.{String}
use browser_llm.Base.{ℕ, ◌^◌, Bool, Option, none, some, List, [], ◌∷◌, ◌==◌, if◌then◌else◌, get_or}
use browser_llm.Base.Words.{ℤ}

-- The bytes of "GGUF".
abbrev pub magic : List ℕ
magic = b'G' ∷ b'G' ∷ b'U' ∷ b'F' ∷ []

abbrev pub supported_version : ℕ
supported_version = 3

abbrev pub default_alignment : ℕ
default_alignment = 32

abbrev pub max_dimensions : ℕ
max_dimensions = 4

abbrev pub max_tensor_name_length : ℕ
max_tensor_name_length = 64

abbrev pub max_tensor_count : ℕ
max_tensor_count = 2 ^ 20

abbrev pub max_metadata_count : ℕ
max_metadata_count = 2 ^ 20

abbrev pub max_string_length : ℕ
max_string_length = 2 ^ 20

abbrev pub max_array_length : ℕ
max_array_length = 2 ^ 24

pub data ValueType : Type 0 where
  uint8 : ValueType
  int8 : ValueType
  uint16 : ValueType
  int16 : ValueType
  uint32 : ValueType
  int32 : ValueType
  float32 : ValueType
  bool : ValueType
  string : ValueType
  array : ValueType
  uint64 : ValueType
  int64 : ValueType
  float64 : ValueType

-- The enumerators in the order of their numbers, 0 to 12.
abbrev pub value_types : List ValueType
value_types =
    ValueType.uint8 ∷ ValueType.int8 ∷ ValueType.uint16 ∷ ValueType.int16 ∷ ValueType.uint32
    ∷ ValueType.int32 ∷ ValueType.float32 ∷ ValueType.bool ∷ ValueType.string ∷ ValueType.array
    ∷ ValueType.uint64 ∷ ValueType.int64 ∷ ValueType.float64 ∷ []

-- `static_cast<ValueType>(raw)`, for a number that `known_value_type` accepts.
unfoldable pub value_type : ℕ → ValueType
value_type raw = get_or value_types raw ValueType.float64

-- A `TensorType` is the number that the file holds: the cast of a number that GGUF does not define
-- is a value of the type too, and `format_layout` has no row for it.
abbrev pub TensorType : Type 0
TensorType = ℕ

abbrev pub f32 : TensorType
f32 = 0

abbrev pub f16 : TensorType
f16 = 1

abbrev pub q4_0 : TensorType
q4_0 = 2

abbrev pub q4_1 : TensorType
q4_1 = 3

abbrev pub q5_0 : TensorType
q5_0 = 6

abbrev pub q5_1 : TensorType
q5_1 = 7

abbrev pub q8_0 : TensorType
q8_0 = 8

abbrev pub q8_1 : TensorType
q8_1 = 9

abbrev pub q2_k : TensorType
q2_k = 10

abbrev pub q3_k : TensorType
q3_k = 11

abbrev pub q4_k : TensorType
q4_k = 12

abbrev pub q5_k : TensorType
q5_k = 13

abbrev pub q6_k : TensorType
q6_k = 14

abbrev pub q8_k : TensorType
q8_k = 15

abbrev pub iq2_xxs : TensorType
iq2_xxs = 16

abbrev pub iq2_xs : TensorType
iq2_xs = 17

abbrev pub iq3_xxs : TensorType
iq3_xxs = 18

abbrev pub iq1_s : TensorType
iq1_s = 19

abbrev pub iq4_nl : TensorType
iq4_nl = 20

abbrev pub iq3_s : TensorType
iq3_s = 21

abbrev pub iq2_s : TensorType
iq2_s = 22

abbrev pub iq4_xs : TensorType
iq4_xs = 23

abbrev pub i8 : TensorType
i8 = 24

abbrev pub i16 : TensorType
i16 = 25

abbrev pub i32 : TensorType
i32 = 26

abbrev pub i64 : TensorType
i64 = 27

abbrev pub f64 : TensorType
f64 = 28

abbrev pub iq1_m : TensorType
iq1_m = 29

abbrev pub bf16 : TensorType
bf16 = 30

abbrev pub tq1_0 : TensorType
tq1_0 = 34

abbrev pub tq2_0 : TensorType
tq2_0 = 35

abbrev pub mxfp4 : TensorType
mxfp4 = 39

abbrev pub nvfp4 : TensorType
nvfp4 = 40

abbrev pub q1_0 : TensorType
q1_0 = 41

abbrev pub q2_0 : TensorType
q2_0 = 42

-- `block_bytes` bytes hold `block_elements` consecutive values of a row.
pub record FormatLayout : Type 0 where
  pub type : TensorType
  pub name : String
  pub block_elements : ℕ
  pub block_bytes : ℕ

abbrev pub super_block : ℕ
super_block = 256

abbrev pub layout_row : TensorType → String → ℕ → ℕ → FormatLayout
layout_row t n e b = record { type = t; name = n; block_elements = e; block_bytes = b }

unfoldable pub format_layouts : List FormatLayout
format_layouts =
    layout_row f32 "F32" 1 4
    ∷ layout_row f16 "F16" 1 2
    ∷ layout_row q4_0 "Q4_0" 32 18
    ∷ layout_row q4_1 "Q4_1" 32 20
    ∷ layout_row q5_0 "Q5_0" 32 22
    ∷ layout_row q5_1 "Q5_1" 32 24
    ∷ layout_row q8_0 "Q8_0" 32 34
    ∷ layout_row q8_1 "Q8_1" 32 36
    ∷ layout_row q2_k "Q2_K" super_block 84
    ∷ layout_row q3_k "Q3_K" super_block 110
    ∷ layout_row q4_k "Q4_K" super_block 144
    ∷ layout_row q5_k "Q5_K" super_block 176
    ∷ layout_row q6_k "Q6_K" super_block 210
    ∷ layout_row q8_k "Q8_K" super_block 292
    ∷ layout_row iq2_xxs "IQ2_XXS" super_block 66
    ∷ layout_row iq2_xs "IQ2_XS" super_block 74
    ∷ layout_row iq3_xxs "IQ3_XXS" super_block 98
    ∷ layout_row iq1_s "IQ1_S" super_block 50
    ∷ layout_row iq4_nl "IQ4_NL" 32 18
    ∷ layout_row iq3_s "IQ3_S" super_block 110
    ∷ layout_row iq2_s "IQ2_S" super_block 82
    ∷ layout_row iq4_xs "IQ4_XS" super_block 136
    ∷ layout_row i8 "I8" 1 1
    ∷ layout_row i16 "I16" 1 2
    ∷ layout_row i32 "I32" 1 4
    ∷ layout_row i64 "I64" 1 8
    ∷ layout_row f64 "F64" 1 8
    ∷ layout_row iq1_m "IQ1_M" super_block 56
    ∷ layout_row bf16 "BF16" 1 2
    ∷ layout_row tq1_0 "TQ1_0" super_block 54
    ∷ layout_row tq2_0 "TQ2_0" super_block 66
    ∷ layout_row mxfp4 "MXFP4" 32 17
    ∷ layout_row nvfp4 "NVFP4" 64 36
    ∷ layout_row q1_0 "Q1_0" 128 18
    ∷ layout_row q2_0 "Q2_0" 64 18
    ∷ []

unfoldable pub find_layout : TensorType → List FormatLayout → Option FormatLayout
find_layout type [] = none
find_layout type (layout ∷ rest) =
    if layout.type == type then some layout else find_layout type rest

-- The layout of a format, or none for a number that GGUF does not define.
unfoldable pub format_layout : TensorType → Option FormatLayout
unfolding find_layout
format_layout type = find_layout type format_layouts

-- `Ok` is the success of an action; these are the failures.
pub data ReadError : Type 0 where
  need_more_bytes : ReadError
  short_read : ReadError
  bad_magic : ReadError
  unsupported_version : ReadError
  count_too_large : ReadError
  string_too_long : ReadError
  array_too_long : ReadError
  unknown_value_type : ReadError
  unknown_tensor_type : ReadError
  row_not_whole_blocks : ReadError
  too_many_dimensions : ReadError
  negative_dimension : ReadError
  element_count_overflow : ReadError
  offset_overflow : ReadError
  tensor_data_out_of_bounds : ReadError
  duplicate_tensor_name : ReadError
  tensor_name_too_long : ReadError
  misaligned_tensor_data : ReadError
  overlapping_tensor_data : ReadError
  bad_alignment : ReadError
  empty_key : ReadError
  duplicate_metadata_key : ReadError
  nested_array : ReadError
  wrong_element_type : ReadError

pub record TensorShape : Type 0 where
  pub dimension_count : ℕ
  pub dimensions : List ℕ
  pub element_count : ℕ

pub record ByteRange : Type 0 where
  pub offset : ℕ
  pub length : ℕ

pub record TensorEntry : Type 0 where
  pub name : List ℕ
  pub type : TensorType
  pub dimension_count : ℕ
  pub dimensions : List ℕ
  pub element_count : ℕ
  pub data_offset : ℕ
  pub data_length : ℕ

-- The constructor, which groups a tensor's extent and its byte range.
unfoldable pub tensor_entry : List ℕ → TensorType → TensorShape → ByteRange → TensorEntry
tensor_entry tensor_name tensor_type shape range = record {
  name = tensor_name;
  type = tensor_type;
  dimension_count = shape.dimension_count;
  dimensions = shape.dimensions;
  element_count = shape.element_count;
  data_offset = range.offset;
  data_length = range.length;
}

pub record ArrayLocation : Type 0 where
  pub element_type : ValueType
  pub element_count : ℕ
  pub bytes : ByteRange

-- The variant of a metadata entry. A float is kept as the bit pattern that the file holds; the
-- source widens a 32-bit one to double, which is a function of that pattern.
pub data MetadataValue : Type 0 where
  unsigned : ℕ → MetadataValue
  signed : ℤ → MetadataValue
  single_bits : ℕ → MetadataValue
  double_bits : ℕ → MetadataValue
  flag : Bool → MetadataValue
  text : List ℕ → MetadataValue
  array_at : ArrayLocation → MetadataValue

pub record MetadataEntry : Type 0 where
  pub key : List ℕ
  pub type : ValueType
  pub value : MetadataValue

pub record TensorIndex : Type 0 where
  pub tensors : List TensorEntry
  pub metadata : List MetadataEntry
