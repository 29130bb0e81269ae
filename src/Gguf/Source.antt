-- ===== src/Gguf/Source.antt =====
-- The byte source, src/core/gguf/byte_source.h: the interface that the reader is written against,
-- what it promises, and the implementation over a resident prefix of the file.
pub mod Memory
use browser_llm.Base.{
  ℕ, ◌+◌, ◌-◌, ◌<◌, ◌≤◌, ◌≡◌, refl, Bool, ◌||◌, List, arith, ltb, if◌then◌else◌, length, take, drop,
  get_elem?, All, All-take, All-drop, length-take, length-drop, ltb→le, Bool-cases, inl, inr,
}
use browser_llm.Base.Words.{IsU64, IsByte}

-- ReadStatus, with the bytes that `Ok` leaves in the buffer.
pub data ReadOutcome : Type 0 where
  bytes : List ℕ → ReadOutcome
  outside_file : ReadOutcome
  not_resident : ReadOutcome

-- `read offset count` is the call with a buffer of `count` bytes.
pub record ByteSource : Type 0 where
  pub size : ℕ
  pub read : ℕ → ℕ → ReadOutcome

-- What the reader uses of the interface's promises, for a source that holds the first `held` bytes.
pub record IsByteSource (held : ℕ) (src : ByteSource) : Type 0 where
  pub size_fits : IsU64 src.size
  pub read_bytes :
      (offset count : ℕ) (bs : List ℕ)
      → src.read offset count ≡ bytes bs
      → (offset + count ≤ src.size) × (length bs ≡ count) × All IsByte bs
  pub read_missing :
      (offset count : ℕ)
      → src.read offset count ≡ not_resident
      → (offset + count ≤ src.size) × (held < offset + count)

-- The whole contract of the interface, for a source that holds the first `held` bytes of `file`: a read
-- inside them fills the buffer with the file's bytes from the offset on, one that ends past them and
-- inside the file is not resident, and one that ends past the file is outside it.
pub record Serves (file : List ℕ) (held : ℕ) (src : ByteSource) : Type 0 where
  pub size_exact : src.size ≡ length file
  pub read_held :
      (offset count : ℕ)
      → offset + count ≤ held
      → (bs : List ℕ) × (src.read offset count ≡ bytes bs)
        × (length bs ≡ count)
        × ((i : ℕ) → i < count → get_elem? bs i ≡ get_elem? file (offset + i))
  pub read_unheld :
      (offset count : ℕ)
      → held < offset + count
      → offset + count ≤ length file
      → src.read offset count ≡ not_resident
  pub read_past :
      (offset count : ℕ) → length file < offset + count → src.read offset count ≡ outside_file

-- MemoryByteSource: the resident prefix of a file that is `file_size` bytes long.
pub record MemoryByteSource : Type 0 where
  pub resident : List ℕ
  pub file_size : ℕ

unfoldable pub read_memory : MemoryByteSource → ℕ → ℕ → ReadOutcome
read_memory m offset want =
    let held = length m.resident in
    if ltb m.file_size offset || ltb (m.file_size - offset) want
    then outside_file
    else if ltb held offset || ltb (held - offset) want
    then not_resident
    else bytes (take want (drop offset m.resident))

abbrev pub memory_source : MemoryByteSource → ByteSource
memory_source m = record { size = m.file_size; read = read_memory m }

-- The class's precondition, and that the file's size and bytes are what their types hold.
pub record IsMemory (m : MemoryByteSource) : Type 0 where
  pub within : length m.resident ≤ m.file_size
  pub fits : IsU64 m.file_size
  pub octets : All IsByte m.resident
