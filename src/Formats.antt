-- ===== src/Formats.antt =====
-- How the blocks of a weight lie on the device, src/core/formats/device_layout.h and format.h: the
-- layouts, the promise that the build checks of each, and the step along a row. The function that
-- repacks a block of Q6_K and the texts of WGSL are left out.
pub mod Promise
use browser_llm.Base.{
  ℕ, zero, suc, ◌+◌, ◌%◌, Bool, true, false, not, ◌&&◌, ◌||◌, Option, none, some, List, [], ◌∷◌,
  ltb, leb, ◌==◌, if◌then◌else◌, length, get_or, set, replicate,
}
use browser_llm.Gguf.Types.{
  TensorType, TensorEntry, FormatLayout, format_layouts, f32, q4_0, q4_1, q8_0, q6_k,
}

abbrev pub max_block_bytes : ℕ
max_block_bytes = 210

abbrev pub max_streams : ℕ
max_streams = 4

-- A run of bytes of each block.
pub record Stream : Type 0 where
  pub offset : ℕ
  pub width : ℕ

pub record DeviceLayout : Type 0 where
  pub type : TensorType
  pub block_bytes : ℕ
  pub streams : List Stream

abbrev pub stream : ℕ → ℕ → Stream
stream o w = record { offset = o; width = w }

abbrev pub layout_of : TensorType → ℕ → List Stream → DeviceLayout
layout_of t b s = record { type = t; block_bytes = b; streams = s }

abbrev pub f32_layout : DeviceLayout
f32_layout = layout_of f32 4 (stream 0 4 ∷ [])

abbrev pub q4_0_layout : DeviceLayout
q4_0_layout = layout_of q4_0 18 (stream 2 16 ∷ stream 0 2 ∷ [])

abbrev pub q4_1_layout : DeviceLayout
q4_1_layout = layout_of q4_1 20 (stream 4 16 ∷ stream 0 4 ∷ [])

abbrev pub q8_0_layout : DeviceLayout
q8_0_layout = layout_of q8_0 34 (stream 2 32 ∷ stream 0 2 ∷ [])

abbrev pub q6_k_layout : DeviceLayout
q6_k_layout = layout_of q6_k 210 (stream 0 128 ∷ stream 128 64 ∷ stream 192 16 ∷ stream 208 2 ∷ [])

-- The bytes from `b` on of a stream, each marked as seen; none when one is outside the block or seen
-- before.
unfoldable pub mark : ℕ → ℕ → ℕ → List Bool → Option (List Bool)
mark block zero b seen = some seen
mark block (suc left) b seen =
    let rest : Option (List Bool) = mark block left (suc b) (set seen b true) in
    if leb block b || (leb 256 b || get_or seen b false) then none else rest

-- The width of each stream but the last is a multiple of 4.
abbrev pub is_aligned : Stream → List Stream → Bool
is_aligned s [] = true
is_aligned s (next ∷ rest) = s.width % 4 == 0

-- The loop over the streams; what is left is the number of bytes covered.
unfoldable pub cover : ℕ → List Stream → ℕ → List Bool → Option ℕ
cover block [] covered seen = some covered
cover block (s ∷ rest) covered seen =
    if not (is_aligned s rest) then none else elim (mark block s.width s.offset seen) [
      | none ↦ none
      | some more ↦ cover block rest (covered + s.width) more
    ]

-- The last row of the table that has the type gives the size; 0 where none has.
unfoldable pub stored_bytes : TensorType → List FormatLayout → ℕ → ℕ
stored_bytes type [] found = found
stored_bytes type (row ∷ rest) found =
    stored_bytes type rest (if row.type == type then row.block_bytes else found)

abbrev pub covers_block : DeviceLayout → Option ℕ → Bool
covers_block layout none = false
covers_block layout (some covered) =
    (covered == layout.block_bytes)
    && (stored_bytes layout.type format_layouts 0 == layout.block_bytes)

unfoldable pub keeps_its_promise : DeviceLayout → Bool
unfolding cover
keeps_its_promise layout =
    if ltb max_block_bytes layout.block_bytes || ltb max_streams (length layout.streams)
    then false
    else covers_block layout (cover layout.block_bytes layout.streams 0 (replicate 256 false))

-- What a format says of how a weight is stored. One that the program holds keeps its promise: its
-- constructor runs while the program is compiled, and refuses any other.
pub record Format : Type 0 where
  pub layout : DeviceLayout

abbrev pub unpack_group : ℕ
unpack_group = 32

abbrev pub steps_by_groups : TensorEntry → Bool
steps_by_groups tensor = get_or tensor.dimensions 0 0 % unpack_group == 0
