-- ===== src/Examples/Residency.antt =====
-- A small device, and the theorems on the packer and on the search applied to it.
use browser_llm.Base.{
  ℕ, ◌^◌, zero, suc, ◌+◌, ◌%◌, ◌≤◌, ◌<◌, ◌≡◌, refl, Bool, true, false, none, some, List, [], ◌∷◌,
  arith, leb,
}
use browser_llm.Base.Bits.{IsPow2}
use browser_llm.Base.Words.{IsU64}
use browser_llm.Gguf.Checked.{checked_add, checked_mul}
use browser_llm.Residency.Packer.{
  Pool, cache, new_packer, DeviceLimits, PlannedBuffer, BufferRange, Packer, Placed, round_up,
  place, range_limit, back_size, set_back_size,
}
use browser_llm.Residency.Packer.Rounding.{IsDevice, round_up-some}
use browser_llm.Residency.Packer.Buffers.{size_at}
use browser_llm.Residency.Packer.Ranges.{IsPacked}
use browser_llm.Residency.Packer.Placing.{IsPlacing, place-IsPlacing}
use browser_llm.Residency.Plan.Cache.{
  CacheCost, bisect, fits, fixed_bytes, place_costs, place_layers, cache_bytes_from,
}
use browser_llm.Residency.Plan.Cache.Cost.{place_costs-IsLargest}
use browser_llm.Residency.Model.{ModelDescription, LoadPolicy, f16, empty_plan}
use browser_llm.Residency.Plan.Cache.Search.{IsLargest, bisect-IsLargest}

abbrev small_device : DeviceLimits
small_device = record {
  max_buffer_size = 256;
  max_storage_binding_size = 130;
  storage_offset_alignment = 32;
}

thirty_two : IsPow2 32
unfolding IsPow2
thirty_two = (5, refl)

small_device-IsDevice : IsDevice small_device
small_device-IsDevice = record {
  buffer_fits = omega arith;
  binding_fits = omega arith;
  alignment_fits = omega arith;
  alignment_power = thirty_two;
}

rounded : round_up 45 32 ≡ some 64
unfolding round_up checked_add
rounded = refl

round_up-some_example : (64 % 32 ≡ 0) × (45 ≤ 64) × (64 < 45 + 32) × IsU64 64
round_up-some_example = round_up-some 45 32 64 (omega arith) (omega arith) thirty_two rounded

-- One buffer with one range of 12 bytes, still open; the next range goes behind it.
abbrev one_buffer : List PlannedBuffer
one_buffer = record { pool = Pool.weights; size = 12 } ∷ []

abbrev one_range : List BufferRange
one_range = record { buffer = 0; offset = 0; length = 12 } ∷ []

abbrev open_packer : Packer
open_packer = record { pool = Pool.weights; limits = small_device; open_buffer = true }

one_buffer_bounded : (i : ℕ) → size_at one_buffer i ≤ 256
unfolding size_at
one_buffer_bounded zero = omega arith
one_buffer_bounded (suc i) = omega arith

one_range-IsPacked : IsPacked small_device one_buffer one_range
unfolding size_at
one_range-IsPacked = record {
  bindable = (
    record {
      exists = omega arith;
      inside = omega arith;
      aligned = refl;
      granular = refl;
      bound = omega arith;
    },
    tt,
  );
  apart = (tt, tt);
  bounded = one_buffer_bounded;
}

abbrev second_placed : Placed
second_placed = record {
  range = record { buffer = 0; offset = 32; length = 12 };
  buffers = record { pool = Pool.weights; size = 44 } ∷ [];
  packer = open_packer;
}

second_range : place open_packer one_buffer 10 false ≡ some second_placed
unfolding place round_up checked_add back_size set_back_size
second_range = refl

ten_allowed : 10 ≤ range_limit small_device
unfolding range_limit
ten_allowed = omega arith

place-IsPlacing_example : IsPlacing open_packer one_buffer 10 false one_range second_placed
place-IsPlacing_example =
    place-IsPlacing open_packer one_buffer 10 false one_range second_placed small_device-IsDevice
      ten_allowed (λ _. omega arith) one_range-IsPacked second_range

abbrev at_most_700 : ℕ → Bool
at_most_700 c = leb c 700

at_most_700_antitone : (c d : ℕ) → c ≤ d → at_most_700 d ≡ true → at_most_700 c ≡ true
at_most_700_antitone c d h e = ground arith

bisect-IsLargest_example :
    (c : ℕ) × (bisect at_most_700 32 512 1000 ≡ some c) × IsLargest at_most_700 512 1000 c
bisect-IsLargest_example =
    bisect-IsLargest at_most_700 at_most_700_antitone 32 512 1000 (omega arith) (omega arith) refl

abbrev small_model : ModelDescription
small_model = record {
  vocabulary_size = 16;
  embedding_width = 8;
  trained_context = 1000;
  norm_epsilon = 0;
  token_embedding = 0;
  output_norm = 0;
  output_head = none;
  layers =
      record {
        query_heads = 1;
        key_value_heads = 1;
        head_dimension = 8;
        feed_forward_width = 8;
        attention_window = 1000;
        rope_base = 0;
        tensors = λ r. none;
      }
      ∷ [];
}

-- A budget that 700 slots of 16 bytes for keys and for values, and the padding, use up.
abbrev small_policy : LoadPolicy
small_policy = record { cache_precision = f16; memory_budget = 22472; rollback_reserve = 0 }

abbrev big_device : DeviceLimits
big_device = record {
  max_buffer_size = 2 ^ 20;
  max_storage_binding_size = 2 ^ 20;
  storage_offset_alignment = 32;
}

abbrev small_costs : List CacheCost
small_costs = record { slot_bytes = 16; ring = 1512 } ∷ []

small_limit : range_limit big_device < 2 ^ 63
unfolding range_limit
small_limit = omega arith

shortest_fits :
    fits small_costs
      (range_limit big_device)
      (fixed_bytes small_model big_device empty_plan)
      22472
      512
    ≡ true
unfolding fits cache_bytes_from range_limit checked_mul checked_add
shortest_fits = refl

place_costs-IsLargest_example :
    (c : ℕ) × (place_costs small_model big_device small_policy empty_plan small_costs
      ≡ place_layers small_costs
          (new_packer cache big_device)
          (record empty_plan { context_offered = c }))
    × IsLargest
        (fits small_costs
          (range_limit big_device)
          (fixed_bytes small_model big_device empty_plan)
          22472)
        512
        1000
        c
place_costs-IsLargest_example =
    place_costs-IsLargest small_model big_device small_policy empty_plan small_costs small_limit
      (omega arith, tt) (omega arith) shortest_fits
