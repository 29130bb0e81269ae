-- ===== src/Gguf/Arrays.antt =====
-- Whole-array reads, src/core/gguf/arrays.cpp, and the class StringTable of arrays.h. The largest
-- std::size_t is the platform's, so a parameter.
pub mod Texts
pub mod Elements
pub mod Scalars
use browser_llm.Base.{
  ℕ, zero, suc, ◌+◌, ◌-◌, ◌/◌, ◌≡◌, Bool, true, false, not, Option, none, some, List, [], ◌∷◌, ◌++◌,
  ltb, ◌==◌, if◌then◌else◌, length, take, drop, get_or,
}
use browser_llm.Base.Words.{add64}
use browser_llm.Gguf.Checked.{checked_add}
use browser_llm.Gguf.Types.{
  ArrayLocation, max_string_length, need_more_bytes, short_read, offset_overflow, array_too_long,
  string_too_long, wrong_element_type,
}
use browser_llm.Gguf.Source.{ByteSource, ReadOutcome, bytes, outside_file, not_resident}
use browser_llm.Gguf.Reader.{le}
use browser_llm.Gguf.Parse.{ReadResult, read, failed, is_string}

-- Each string's length prefix.
abbrev pub length_bytes : ℕ
length_bytes = 8

pub record StringTable : Type 0 where
  pub bytes : List ℕ
  pub ends : List ℕ

abbrev pub size : StringTable → ℕ
size t = length t.ends

-- `operator[]`, whose precondition is that the table has the element.
unfoldable pub element : StringTable → ℕ → List ℕ
element t i =
    let begin : ℕ = if i == 0 then 0 else get_or t.ends (i - 1) 0 in
    take (get_or t.ends i 0 - begin) (drop begin t.bytes)

abbrev pub empty_table : StringTable
empty_table = record { bytes = []; ends = [] }

abbrev pub push_text : StringTable → List ℕ → StringTable
push_text t text = record {
  bytes = t.bytes ++ text;
  ends = t.ends ++ (length (t.bytes ++ text) ∷ []);
}

-- `read_range`, from what the source says.
abbrev pub ranged : ℕ → ReadOutcome → ReadResult (List ℕ)
ranged stop (bytes bs) = read bs
ranged stop not_resident = failed need_more_bytes stop
ranged stop outside_file = failed short_read 0

module _ (size_max : ℕ) (source : ByteSource) where
  unfoldable pub read_range : ℕ → ℕ → ReadResult (List ℕ)
  read_range offset count = elim (checked_add offset count) [
    | none ↦ failed offset_overflow 0
    | some stop ↦
        if ltb size_max count
        then failed array_too_long 0
        else ranged stop (source.read offset count)
  ]

module _ (raw : List ℕ) where
  -- The loop over the elements, with how many are left; what it leaves is where it stopped and the table.
  unfoldable pub read_texts : ℕ → ℕ → StringTable → ReadResult (ℕ × StringTable)
  read_texts zero at table = read (at, table)
  read_texts (suc left) at table =
      let count : ℕ = le (take length_bytes (drop at raw)) in
      let next : ℕ = at + length_bytes in
      let rest : ReadResult (ℕ × StringTable) =
        read_texts left (next + count) (push_text table (take count (drop next raw))) in
      if ltb (length raw - at) length_bytes
      then failed short_read 0
      else if ltb max_string_length count
      then failed string_too_long 0
      else if ltb (length raw - next) count
      then failed short_read 0
      else rest

  -- All the bytes are the elements'.
  abbrev pub whole_texts : ReadResult (ℕ × StringTable) → ReadResult StringTable
  whole_texts (failed e n) = failed e n
  whole_texts (read (at, table)) = if at == length raw then read table else failed short_read 0

abbrev pub texts_in : ℕ → ReadResult (List ℕ) → ReadResult StringTable
texts_in count (failed e n) = failed e n
texts_in count (read raw) =
    if ltb (length raw / length_bytes) count
    then failed short_read 0
    else whole_texts raw (read_texts raw count 0 empty_table)

unfoldable pub read_strings : ℕ → ByteSource → ArrayLocation → ReadResult StringTable
unfolding read_range
read_strings size_max source array =
    if not (is_string array.element_type)
    then failed wrong_element_type 0
    else texts_in array.element_count
        (read_range size_max source array.bytes.offset array.bytes.length)
