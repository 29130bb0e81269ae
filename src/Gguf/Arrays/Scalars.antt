-- ===== src/Gguf/Arrays/Scalars.antt =====
-- The arrays of numbers, src/core/gguf/arrays.cpp: `read_scalars` and its two callers, whose elements
-- have 4 bytes. A float is its bit pattern.
pub mod Chunks
use browser_llm.Base.{
  ℕ, zero, suc, ◌+◌, ◌-◌, ◌*◌, ◌/◌, ◌^◌, Bool, true, false, not, Option, none, some, List, [], ◌∷◌,
  ◌++◌, ltb, ◌==◌, if◌then◌else◌, length, take, drop, min,
}
use browser_llm.Base.Words.{add64, ℤ}
use browser_llm.Gguf.Checked.{checked_mul}
use browser_llm.Gguf.Types.{
  ArrayLocation, ValueType, short_read, offset_overflow, wrong_element_type,
}
use browser_llm.Gguf.Source.{ByteSource}
use browser_llm.Gguf.Reader.{le, sign_extend}
use browser_llm.Gguf.Parse.{ReadResult, read, failed}
use browser_llm.Gguf.Arrays.{read_range}

abbrev pub chunk_bytes : ℕ
chunk_bytes = 2 ^ 20

-- sizeof(T)
abbrev pub scalar_bytes : ℕ
scalar_bytes = 4

-- The values that `std::memcpy` makes of bytes: `count` of them.
unfoldable pub values_of : {T : Type 0} → (List ℕ → T) → ℕ → List ℕ → List T
values_of value zero bs = []
values_of value (suc count) bs =
    value (take scalar_bytes bs) ∷ values_of value count (drop scalar_bytes bs)

module _ {T : Type 0} (size_max : ℕ) (source : ByteSource) (value : List ℕ → T) where
  -- The loop over the chunks, on fuel; none is out of fuel.
  unfoldable pub read_chunks : ℕ → ℕ → ℕ → ℕ → List T → Option (ReadResult (List T))
  read_chunks offset total zero done values = none
  read_chunks offset total (suc fuel) done values =
      let count : ℕ = min chunk_bytes (total - done) in
      if ltb done total
      then elim (read_range size_max source (add64 offset done) count) [
        | failed e n ↦ some (failed e n)
        | read chunk ↦
            read_chunks offset total fuel (add64 done count)
              (values ++ values_of value (length chunk / scalar_bytes) chunk)
      ]
      else some (read values)

  -- One round for each chunk, and one to end, are enough.
  abbrev pub read_total : ArrayLocation → Option ℕ → Option (ReadResult (List T))
  read_total array none = some (failed offset_overflow 0)
  read_total array (some total) =
      if not (total == array.bytes.length)
      then some (failed short_read 0)
      else read_chunks array.bytes.offset total (total / chunk_bytes + 2) 0 []

  unfoldable pub read_scalars : (ValueType → Bool) → ArrayLocation → Option (ReadResult (List T))
  unfolding read_chunks
  read_scalars is_type array =
      if not (is_type array.element_type)
      then some (failed wrong_element_type 0)
      else read_total array (checked_mul array.element_count scalar_bytes)

abbrev pub is_int32 : ValueType → Bool
is_int32 ValueType.int32 = true
is_int32 _ = false

abbrev pub is_float32 : ValueType → Bool
is_float32 ValueType.float32 = true
is_float32 _ = false

abbrev pub int32_value : List ℕ → ℤ
int32_value bs = sign_extend (le bs) scalar_bytes

unfoldable pub read_int32s : ℕ → ByteSource → ArrayLocation → Option (ReadResult (List ℤ))
unfolding read_scalars
read_int32s size_max source array = read_scalars size_max source int32_value is_int32 array

unfoldable pub read_float32s : ℕ → ByteSource → ArrayLocation → Option (ReadResult (List ℕ))
unfolding read_scalars
read_float32s size_max source array = read_scalars size_max source le is_float32 array
