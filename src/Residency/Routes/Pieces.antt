-- ===== src/Residency/Routes/Pieces.antt =====
-- The route of one piece of a weight, src/core/residency/routes.cpp.
use native.Mathlib.Nat.{div-add-mod'}
use browser_llm.Base.{
  ℕ, ◌+◌, ◌/◌, ◌*◌, ◌%◌, ◌^◌, ◌≤◌, ◌<◌, ◌≡◌, refl, ap, ◌∙◌, subst, Bool, true, false, Option, none,
  some, List, arith, ==_iff, ltb→lt, if◌then◌else◌, length, and_true,
}
use mathlib.Core.Option.{some-injective}
use browser_llm.Base.Words.{IsU64, add64}
use browser_llm.Gguf.Checked.{checked_mul, checked_mul-some, range_within_iff}
use browser_llm.Gguf.Types.{TensorEntry}
use browser_llm.Formats.{DeviceLayout}
use browser_llm.Residency.Packer.{PlannedBuffer}
use browser_llm.Residency.Model.{TensorId, WeightPiece}
use browser_llm.Residency.Routes.{
  Route, padded, buffer_size, is_inside, route_to, with_bytes, with_offset, route_piece,
}

-- What a route promises: the blocks that it reads lie in the file, the place that it writes lies in its
-- buffer, and that place is the blocks' bytes rounded up to a multiple of 4.
pub record IsRoute (file_size : ℕ) (buffers : List PlannedBuffer) (r : Route) : Type 0 where
  pub in_file : r.file_offset + r.blocks * r.layout.block_bytes ≤ file_size
  pub planned : r.buffer < length buffers
  pub in_buffer : r.buffer_offset + r.length ≤ buffer_size buffers r.buffer
  pub whole_words : r.length % 4 ≡ 0
  pub wide : r.blocks * r.layout.block_bytes ≤ r.length
  pub tight : r.length < r.blocks * r.layout.block_bytes + 4

-- The route of a piece: the rows of the piece, to where the plan puts them.
pub record IsRouteOf (entry : TensorEntry) (tensor : TensorId) (layout : DeviceLayout)
    (row_bytes : ℕ) (piece : WeightPiece) (r : Route) : Type 0 where
  pub of_tensor : r.tensor ≡ tensor
  pub laid_out : r.layout ≡ layout
  pub first_row : r.file_offset ≡ entry.data_offset + piece.first_row * row_bytes
  pub all_rows : r.blocks * layout.block_bytes ≡ piece.row_count * row_bytes
  pub in_tensor : piece.first_row * row_bytes + piece.row_count * row_bytes ≤ entry.data_length
  pub to_buffer : r.buffer ≡ piece.buffer
  pub to_offset : r.buffer_offset ≡ piece.offset
  pub to_length : r.length ≡ piece.length

padded_lem :
    (bytes : ℕ)
    → bytes + 3 < 2 ^ 64
    → (padded bytes % 4 ≡ 0) × (bytes ≤ padded bytes) × (padded bytes < bytes + 4)
padded_lem bytes h = (omega arith, omega arith, omega arith)

module _ (file_size : ℕ) (buffers : List PlannedBuffer) (entry : TensorEntry) (tensor : TensorId)
    (layout : DeviceLayout) (small : file_size + 3 < 2 ^ 64) where
  -- What the checks of a piece have shown.
  pub record IsInside (piece : WeightPiece) (offset bytes : ℕ) : Type 0 where
    pub rows : offset + bytes ≤ entry.data_length
    pub start : entry.data_offset + offset ≤ file_size
    pub stop : add64 entry.data_offset offset + bytes ≤ file_size
    pub buffer : piece.buffer < length buffers
    pub place : piece.offset + piece.length ≤ buffer_size buffers piece.buffer
    pub fills : piece.length ≡ padded bytes
    pub blocks : bytes % layout.block_bytes ≡ 0

  is_inside-IsInside :
      (piece : WeightPiece) (offset bytes : ℕ)
      → is_inside file_size buffers entry tensor layout piece offset bytes ≡ true
      → IsInside piece offset bytes
  unfolding is_inside
  is_inside-IsInside piece offset bytes h =
      let (rows, h1) = and_true _ _ h in
      let (start, h2) = and_true _ _ h1 in
      let (stop, h3) = and_true _ _ h2 in
      let (buffer, h4) = and_true _ _ h3 in
      let (place, h5) = and_true _ _ h4 in
      let (fills, blocks) = and_true _ _ h5 in
      record {
        rows = (range_within_iff _ _ _).0 rows;
        start = (range_within_iff _ _ _).0 start;
        stop = (range_within_iff _ _ _).0 stop;
        buffer = ltb→lt _ _ buffer;
        place = (range_within_iff _ _ _).0 place;
        fills = (==_iff _ _).0 fills;
        blocks = (==_iff _ _).0 blocks;
      }

  module _ (row_bytes : ℕ) (row_fits : IsU64 row_bytes) where
    -- A piece that is inside gives a route with both promises.
    route_to_lem :
        (piece : WeightPiece) (offset bytes : ℕ)
        → checked_mul piece.first_row row_bytes ≡ some offset
        → checked_mul piece.row_count row_bytes ≡ some bytes
        → IsInside piece offset bytes
        → IsRoute file_size buffers
            (route_to file_size buffers entry tensor layout piece offset bytes)
          × IsRouteOf entry tensor layout row_bytes piece
              (route_to file_size buffers entry tensor layout piece offset bytes)
    route_to_lem piece offset bytes a b w =
        let first = (checked_mul-some _ _ _ row_fits a).0 in
        let count = (checked_mul-some _ _ _ row_fits b).0 in
        let back : bytes / layout.block_bytes * layout.block_bytes ≡ bytes =
          omega (arith, div-add-mod' bytes layout.block_bytes, w.blocks) in
        let sum : add64 entry.data_offset offset ≡ entry.data_offset + offset =
          omega (arith, w.start, small) in
        let pad = padded_lem bytes (omega (arith, w.stop, small)) in
        (
          record {
            in_file = omega (arith, back, w.stop);
            planned = w.buffer;
            in_buffer = w.place;
            whole_words = ap (λ (t : ℕ). t % 4) w.fills ∙ pad.0;
            wide = omega (arith, back, w.fills, pad.1);
            tight = omega (arith, back, w.fills, pad.2);
          },
          record {
            of_tensor = refl;
            laid_out = refl;
            first_row = omega (arith, sum, first);
            all_rows = omega (arith, back, count);
            in_tensor = omega (arith, w.rows, first, count);
            to_buffer = refl;
            to_offset = refl;
            to_length = refl;
          },
        )

    pub route_piece-IsRoute :
        (piece : WeightPiece) (r : Route)
        → route_piece file_size buffers entry tensor layout row_bytes piece ≡ some r
        → IsRoute file_size buffers r × IsRouteOf entry tensor layout row_bytes piece r
    unfolding route_piece
    route_piece-IsRoute piece r e = by_offset (checked_mul piece.first_row row_bytes) refl e
      where
        by_test :
            (offset bytes : ℕ)
            → checked_mul piece.first_row row_bytes ≡ some offset
            → checked_mul piece.row_count row_bytes ≡ some bytes
            → (b : Bool) → is_inside file_size buffers entry tensor layout piece offset bytes ≡ b
            → (if b
                then some (route_to file_size buffers entry tensor layout piece offset bytes)
                else none)
              ≡ some r
            → IsRoute file_size buffers r × IsRouteOf entry tensor layout row_bytes piece r
        by_test offset bytes a c false k h = cc
        by_test offset bytes a c true k h =
            subst
              (λ (q : Route).
                IsRoute file_size buffers q × IsRouteOf entry tensor layout row_bytes piece q)
              (some-injective (route_to file_size buffers entry tensor layout piece offset bytes) r
                h)
              (route_to_lem piece offset bytes a c (is_inside-IsInside piece offset bytes k))

        by_bytes :
            (offset : ℕ)
            → checked_mul piece.first_row row_bytes ≡ some offset
            → (o : Option ℕ) → checked_mul piece.row_count row_bytes ≡ o
            → with_bytes file_size buffers entry tensor layout piece offset o ≡ some r
            → IsRoute file_size buffers r × IsRouteOf entry tensor layout row_bytes piece r
        by_bytes offset a none c h = cc
        by_bytes offset a (some bytes) c h =
            by_test offset bytes a c
              (is_inside file_size buffers entry tensor layout piece offset bytes) refl h

        by_offset :
            (o : Option ℕ)
            → checked_mul piece.first_row row_bytes ≡ o
            → with_offset file_size buffers entry tensor layout row_bytes piece o ≡ some r
            → IsRoute file_size buffers r × IsRouteOf entry tensor layout row_bytes piece r
        by_offset none a h = cc
        by_offset (some offset) a h =
            by_bytes offset a (checked_mul piece.row_count row_bytes) refl h
