-- ===== src/Residency/Packer.antt =====
-- `round_up` and the class Packer of src/core/residency/plan.cpp. The packer's reference to the plan's
-- buffers is passed in and handed back. A plan has fewer than 2^32 buffers, so the cast to an index of
-- 32 bits keeps the number.
pub mod Rounding
pub mod Buffers
pub mod Ranges
pub mod Placing
use Prim.Native.Nat.{bit_and}
use browser_llm.Base.{
  ℕ, ◌-◌, Bool, true, false, not, ◌&&◌, ◌||◌, Option, none, some, List, [], ◌∷◌, ◌++◌, ltb,
  if◌then◌else◌, length, min,
}
use browser_llm.Base.Words.{add64, not64}
use browser_llm.Gguf.Checked.{checked_add}

pub data Pool : Type 0 where
  weights cache scratch : Pool

pub record DeviceLimits : Type 0 where
  pub max_buffer_size : ℕ
  pub max_storage_binding_size : ℕ
  pub storage_offset_alignment : ℕ

pub record PlannedBuffer : Type 0 where
  pub pool : Pool
  pub size : ℕ

pub record BufferRange : Type 0 where
  pub buffer : ℕ
  pub offset : ℕ
  pub length : ℕ

abbrev pub binding_granule : ℕ
binding_granule = 4

-- `v` rounded up to a multiple of `to`, a power of two; none on overflow.
unfoldable pub round_up : ℕ → ℕ → Option ℕ
round_up v to = elim (checked_add v (to - 1)) [
  | none ↦ none
  | some sum ↦ some (bit_and sum (not64 (to - 1)))
]

-- `buffers_.back().size`, and the assignment to it.
unfoldable pub back_size : List PlannedBuffer → ℕ
back_size [] = 0
back_size (b ∷ []) = b.size
back_size (b ∷ c ∷ rest) = back_size (c ∷ rest)

unfoldable pub set_back_size : ℕ → List PlannedBuffer → List PlannedBuffer
set_back_size n [] = []
set_back_size n (b ∷ []) = record b { size = n } ∷ []
set_back_size n (b ∷ c ∷ rest) = b ∷ set_back_size n (c ∷ rest)

pub record Packer : Type 0 where
  pub pool : Pool
  pub limits : DeviceLimits
  pub open_buffer : Bool

unfoldable pub new_packer : Pool → DeviceLimits → Packer
new_packer pool limits = record { pool = pool; limits = limits; open_buffer = false }

-- What `place` leaves: the range, the buffers and the packer.
pub record Placed : Type 0 where
  pub range : BufferRange
  pub buffers : List PlannedBuffer
  pub packer : Packer

-- The last part of `place`: the range goes to the end of the last buffer.
abbrev pub put_at : Packer → List PlannedBuffer → ℕ → ℕ → Bool → Placed
put_at p buffers offset padded alone = record {
  range = record { buffer = length buffers - 1; offset = offset; length = padded };
  buffers = set_back_size (add64 offset padded) buffers;
  packer = record p { open_buffer = not alone };
}

-- A new buffer of the packer's pool.
abbrev pub put_new : Packer → List PlannedBuffer → ℕ → Bool → Placed
put_new p buffers padded alone =
    put_at p (buffers ++ (record { pool = p.pool; size = 0 } ∷ [])) 0 padded alone

-- `true` if the range does not fit behind `offset` in a buffer of the largest size.
abbrev pub overfull : DeviceLimits → ℕ → ℕ → Bool
overfull limits offset padded =
    ltb limits.max_buffer_size offset || ltb (limits.max_buffer_size - offset) padded

-- The open buffer, with the offset that follows its contents; none if that overflows.
abbrev pub place_behind : Packer → List PlannedBuffer → ℕ → Bool → Option ℕ → Option Placed
place_behind p buffers padded alone none = none
place_behind p buffers padded alone (some offset) = some (
    if overfull p.limits offset padded
    then put_new p buffers padded alone
    else put_at p buffers offset padded alone)

abbrev pub place_padded : Packer → List PlannedBuffer → Bool → Option ℕ → Option Placed
place_padded p buffers alone none = none
place_padded p buffers alone (some padded) =
    if p.open_buffer && not alone
    then place_behind p buffers padded alone
        (round_up (back_size buffers) p.limits.storage_offset_alignment)
    else some (put_new p buffers padded alone)

-- Places `count` bytes; `alone` gives the range a buffer that nothing else shares.
unfoldable pub place : Packer → List PlannedBuffer → ℕ → Bool → Option Placed
place p buffers count alone = place_padded p buffers alone (round_up count binding_granule)

-- The most that one range may hold: it must fit both a binding and a buffer.
unfoldable pub range_limit : DeviceLimits → ℕ
range_limit limits =
    bit_and (min limits.max_storage_binding_size limits.max_buffer_size)
      (not64 (binding_granule - 1))
