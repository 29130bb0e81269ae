-- ===== src/Residency/Packer/Placing.antt =====
-- One call of `Packer::place` of src/core/residency/plan.cpp.
use browser_llm.Base.{
  ℕ, suc, ◌+◌, ◌-◌, ◌%◌, ◌≤◌, ◌<◌, ◌≡◌, inl, inr, refl, ap, subst, Bool, true, false, not, ◌&&◌,
  Option, none, some, List, [], ◌∷◌, ◌++◌, arith, ◌==◌, if◌then◌else◌, length, length-append,
  Bool-cases,
}
use native.Mathlib.Nat.{zero-mod}
use mathlib.Core.Option.{some-injective}
use browser_llm.Base.Words.{IsU64, add64}
use browser_llm.Residency.Packer.{
  PlannedBuffer, BufferRange, Packer, Placed, place, place_behind, place_padded, put_at, put_new,
  overfull, round_up, range_limit, back_size, binding_granule,
}
use browser_llm.Residency.Packer.Rounding.{
  IsDevice, round_up-some, round_up_granule, range_limit_fits,
}
use browser_llm.Residency.Packer.Buffers.{
  size_at, size_at-push, size_at-set_back, back_size-size_at, length-set_back, size_at_past,
}
use browser_llm.Residency.Packer.Ranges.{IsPacked, HasOpen, Grown, extend-IsPacked}

last_index : (i n : ℕ) → suc i ≡ n → i ≡ n - 1
last_index i n e = omega arith

-- The sizes after a range is put behind `offset` in the last buffer, and after it is put in a new one.
put_at-size :
    (p : Packer) (bs : List PlannedBuffer) (offset padded : ℕ) (alone : Bool) (i : ℕ)
    → 0 < length bs
    → IsU64 (offset + padded)
    → size_at (put_at p bs offset padded alone).buffers i
      ≡ (if suc i == length bs then offset + padded else size_at bs i)
put_at-size p bs offset padded alone i h k =
    ground (arith, size_at-set_back (add64 offset padded) bs i)

put_new-size :
    (p : Packer) (bs : List PlannedBuffer) (padded : ℕ) (alone : Bool) (i : ℕ)
    → IsU64 padded
    → size_at (put_new p bs padded alone).buffers i
      ≡ (if i == length bs then padded else size_at bs i)
put_new-size p bs padded alone i k =
    let empty : PlannedBuffer = record { pool = p.pool; size = 0 } in
    ground (
      arith,
      size_at-set_back (add64 0 padded) (bs ++ (empty ∷ [])) i,
      size_at-push bs empty i,
      length-append bs (empty ∷ []),
    )

-- What one call of `place` does for a range of `count` bytes.
pub record IsPlacing (p : Packer) (bs : List PlannedBuffer) (count : ℕ) (alone : Bool)
    (rs : List BufferRange) (q : Placed) : Type 0 where
  pub packed : IsPacked p.limits q.buffers (rs ++ (q.range ∷ []))
  pub still_open : HasOpen q.packer q.buffers
  pub same_limits : q.packer.limits ≡ p.limits
  pub covers : count ≤ q.range.length
  pub tight : q.range.length < count + 4
  pub sole : alone ≡ true → (q.range.buffer ≡ length bs) × (q.packer.open_buffer ≡ false)
  pub grown : Grown bs q.buffers

module _ (p : Packer) (bs : List PlannedBuffer) (count padded : ℕ) (alone : Bool)
    (rs : List BufferRange) (d : IsDevice p.limits) (w : IsPacked p.limits bs rs)
    (granular : padded % 4 ≡ 0) (covers : count ≤ padded) (tight : padded < count + 4)
    (buffer_room : padded ≤ p.limits.max_buffer_size)
    (binding_room : padded ≤ p.limits.max_storage_binding_size) where
  put_new-IsPlacing : IsPlacing p bs count alone rs (put_new p bs padded alone)
  put_new-IsPlacing =
      let q : Placed = put_new p bs padded alone in
      let fits : IsU64 padded = omega (arith, d.buffer_fits) in
      let empty : PlannedBuffer = record { pool = p.pool; size = 0 } in
      let longer : length q.buffers ≡ length bs + 1 = omega (
        arith,
        length-set_back (add64 0 padded) (bs ++ (empty ∷ [])),
        length-append bs (empty ∷ []),
      ) in
      let slot : q.range.buffer ≡ length bs = omega (arith, length-append bs (empty ∷ [])) in
      let last : size_at q.buffers (length bs) ≡ padded =
        ground (arith, put_new-size p bs padded alone (length bs)) in
      let grown : Grown bs q.buffers = record {
        longer = omega arith;
        larger = λ i. ground (arith, put_new-size p bs padded alone i, size_at_past bs i);
      } in
      record {
        packed =
            extend-IsPacked p.limits bs q.buffers rs q.range grown
              (λ i. ground (arith, put_new-size p bs padded alone i, w.bounded i))
              (record {
                exists = omega arith;
                inside = omega (arith, last, ap (size_at q.buffers) slot);
                aligned = zero-mod p.limits.storage_offset_alignment;
                granular = granular;
                bound = binding_room;
              })
              (omega (arith, size_at_past bs (length bs), ap (size_at bs) slot)) w;
        still_open = λ _. omega arith;
        same_limits = refl;
        covers = covers;
        tight = tight;
        sole = λ e. (slot, ap not e);
        grown = grown;
      }

  put_at-IsPlacing :
      (offset : ℕ)
      → 0 < length bs
      → back_size bs ≤ offset
      → offset % p.limits.storage_offset_alignment ≡ 0
      → offset + padded ≤ p.limits.max_buffer_size
      → alone ≡ false
      → IsPlacing p bs count alone rs (put_at p bs offset padded alone)
  put_at-IsPlacing offset full behind aligned room shared =
      let q : Placed = put_at p bs offset padded alone in
      let fits : IsU64 (offset + padded) = omega (arith, d.buffer_fits) in
      let longer : length q.buffers ≡ length bs = length-set_back (add64 offset padded) bs in
      let last : size_at q.buffers (length bs - 1) ≡ offset + padded =
        ground (arith, put_at-size p bs offset padded alone (length bs - 1)) in
      let old : size_at bs (length bs - 1) ≤ offset = omega (arith, back_size-size_at bs) in
      let back : (i : ℕ) → suc i ≡ length bs → size_at bs i ≤ offset =
        λ i e. omega (arith, ap (size_at bs) (last_index i (length bs) e)) in
      let grown : Grown bs q.buffers = record {
        longer = omega arith;
        larger = λ i. ground (arith, put_at-size p bs offset padded alone i, back i);
      } in
      record {
        packed =
            extend-IsPacked p.limits bs q.buffers rs q.range grown
              (λ i. ground (arith, put_at-size p bs offset padded alone i, w.bounded i))
              (record {
                exists = omega arith;
                inside = omega arith;
                aligned = aligned;
                granular = granular;
                bound = binding_room;
              })
              old w;
        still_open = λ _. omega arith;
        same_limits = refl;
        covers = covers;
        tight = tight;
        sole = λ e. cc;
        grown = grown;
      }

place_behind-IsPlacing :
    (p : Packer) (bs : List PlannedBuffer) (count padded : ℕ) (alone : Bool) (rs : List BufferRange)
    (q : Placed) (o : Option ℕ)
    → round_up (back_size bs) p.limits.storage_offset_alignment ≡ o
    → place_behind p bs padded alone o ≡ some q
    → IsPlacing p bs count alone rs (put_new p bs padded alone)
    → ((offset : ℕ)
        → round_up (back_size bs) p.limits.storage_offset_alignment ≡ some offset
        → overfull p.limits offset padded ≡ false
        → IsPlacing p bs count alone rs (put_at p bs offset padded alone))
    → IsPlacing p bs count alone rs q
place_behind-IsPlacing p bs count padded alone rs q none r e fresh back = cc
place_behind-IsPlacing p bs count padded alone rs q (some offset) r e fresh back =
    elim (Bool-cases (overfull p.limits offset padded)) [
      | inl full ↦ subst (IsPlacing p bs count alone rs) (some-injective _ q (rw full at e)) fresh
      | inr room ↦
          subst (IsPlacing p bs count alone rs) (some-injective _ q (rw room at e))
            (back offset r room)
    ]

place_padded-IsPlacing :
    (p : Packer) (bs : List PlannedBuffer) (count : ℕ) (alone : Bool) (rs : List BufferRange)
    (q : Placed) (o : Option ℕ)
    → IsDevice p.limits
    → count ≤ range_limit p.limits
    → HasOpen p bs
    → IsPacked p.limits bs rs
    → round_up count binding_granule ≡ o
    → place_padded p bs alone o ≡ some q
    → IsPlacing p bs count alone rs q
place_padded-IsPlacing p bs count alone rs q none d h o w r e = cc
place_padded-IsPlacing p bs count alone rs q (some padded) d h o w r e =
    let (top, binding, buffer) = range_limit_fits p.limits d in
    let (granular, covers, tight, _) =
      round_up_granule count padded (omega (arith, d.buffer_fits)) r in
    let fresh : IsPlacing p bs count alone rs (put_new p bs padded alone) =
      put_new-IsPlacing p bs count padded alone rs d w granular covers tight (omega arith)
        (omega arith) in
    elim (Bool-cases (p.open_buffer && not alone)) [
      | inr new ↦ subst (IsPlacing p bs count alone rs) (some-injective _ q (rw new at e)) fresh
      | inl reuse ↦
          place_behind-IsPlacing p bs count padded alone rs q _ refl (rw reuse at e) fresh
            λ offset found room.
              let (aligned, behind, near, _) =
                round_up-some (back_size bs) p.limits.storage_offset_alignment offset
                  (omega (arith, back_size-size_at bs, w.bounded (length bs - 1), d.buffer_fits))
                  (omega (arith, d.alignment_fits)) d.alignment_power found in
              put_at-IsPlacing p bs count padded alone rs d w granular covers tight (omega arith)
                (omega arith) offset (o (ground arith)) behind aligned (ground arith) (ground arith)
    ]

-- On a device whose offset alignment is a power of two, for no more bytes than the range limit, a
-- call of place that succeeds gives a range of at least the bytes asked for and less than four more,
-- keeps every range bindable (inside its buffer, aligned, whole words, within one binding), apart
-- from each other range, in buffers no larger than the device allows, shrinks no buffer, and gives
-- an alone range a new buffer that is then closed.
pub place-IsPlacing :
    (p : Packer) (bs : List PlannedBuffer) (count : ℕ) (alone : Bool) (rs : List BufferRange)
    (q : Placed)
    → IsDevice p.limits
    → count ≤ range_limit p.limits
    → HasOpen p bs
    → IsPacked p.limits bs rs
    → place p bs count alone ≡ some q
    → IsPlacing p bs count alone rs q
unfolding place
place-IsPlacing p bs count alone rs q d h o w e =
    place_padded-IsPlacing p bs count alone rs q _ d h o w refl e
