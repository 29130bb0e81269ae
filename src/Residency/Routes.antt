-- ===== src/Residency/Routes.antt =====
-- Where every byte of the file goes, src/core/residency/routes.cpp. The lookup of a format is the
-- caller's, so a parameter.
pub mod Pieces
pub mod Files
pub mod Order
pub mod Refusal
pub mod Carried
use browser_llm.Base.{
  ℕ, zero, suc, ◌+◌, ◌/◌, ◌*◌, ◌%◌, Bool, true, false, not, ◌&&◌, ◌||◌, Option, none, some, List,
  [], ◌∷◌, ◌++◌, ltb, leb, ◌==◌, if◌then◌else◌, length, get_or, get_elem?, set,
}
use mathlib.Core.List.{foldl}
use browser_llm.Base.Words.{add64, sub64}
use browser_llm.Gguf.Checked.{checked_mul, range_within}
use browser_llm.Gguf.Types.{TensorEntry, TensorType, TensorIndex}
use browser_llm.Gguf.Sorting.{sort}
use browser_llm.Formats.{DeviceLayout, Format, steps_by_groups}
use browser_llm.Residency.Packer.{PlannedBuffer}
use browser_llm.Residency.Model.{TensorId, WeightPiece, WeightView, PlannedTensor, ResidencyPlan}

abbrev pub FindFormat : Type 0
FindFormat = TensorType → Option Format

pub record Route : Type 0 where
  pub tensor : TensorId
  pub file_offset : ℕ
  pub blocks : ℕ
  pub layout : DeviceLayout
  pub buffer : ℕ
  pub buffer_offset : ℕ
  pub length : ℕ

-- `Ok` is a result that is carried out; these are the failures.
pub data RouteError : Type 0 where
  unsupported_format out_of_range not_a_candidate row_not_steppable : RouteError

-- Whom a failure names: a tensor, or an id that no tensor has.
pub data RouteSubject : Type 0 where
  named : List ℕ → RouteSubject
  numbered : TensorId → RouteSubject

-- RouteResult, with what the call leaves in its out-parameters when it succeeds.
pub data RouteResult : Type 0 → Type 1 where
  carried_out : {A : Type 0} → A → RouteResult A
  failure : {A : Type 0} → RouteError → RouteSubject → RouteResult A

abbrev pub padded : ℕ → ℕ
padded bytes = add64 bytes 3 / 4 * 4

unfoldable pub contains : List TensorId → TensorId → Bool
contains [] id = false
contains (x ∷ xs) id = if x == id then true else contains xs id

unfoldable pub planned_in : List PlannedTensor → TensorId → Option PlannedTensor
planned_in [] id = none
planned_in (t ∷ rest) id = if t.tensor == id then some t else planned_in rest id

unfoldable pub planned : ResidencyPlan → TensorId → Option PlannedTensor
planned plan id = planned_in plan.tensors id

-- `buffers[i].size`
abbrev pub size_in : Option PlannedBuffer → ℕ
size_in none = 0
size_in (some b) = b.size

abbrev pub buffer_size : List PlannedBuffer → ℕ → ℕ
buffer_size buffers i = size_in (get_elem? buffers i)

-- The rows of all the pieces.
unfoldable pub rows_of : List WeightPiece → ℕ
rows_of pieces = foldl (λ (sum : ℕ) (piece : WeightPiece). add64 sum piece.row_count) 0 pieces

module _ (file_size : ℕ) (buffers : List PlannedBuffer) (entry : TensorEntry) (tensor : TensorId)
    (layout : DeviceLayout) where
  -- The checks of one piece, for the bytes it takes and where they start in the tensor.
  unfoldable pub is_inside : WeightPiece → ℕ → ℕ → Bool
  is_inside piece offset bytes =
      range_within offset bytes entry.data_length
      && (range_within entry.data_offset offset file_size
          && (range_within (add64 entry.data_offset offset) bytes file_size
              && (ltb piece.buffer (length buffers)
                  && (range_within piece.offset piece.length (buffer_size buffers piece.buffer)
                      && ((piece.length == padded bytes) && (bytes % layout.block_bytes == 0))))))

  abbrev pub route_to : WeightPiece → ℕ → ℕ → Route
  route_to piece offset bytes = record {
    tensor = tensor;
    file_offset = add64 entry.data_offset offset;
    blocks = bytes / layout.block_bytes;
    layout = layout;
    buffer = piece.buffer;
    buffer_offset = piece.offset;
    length = piece.length;
  }

  abbrev pub with_bytes : WeightPiece → ℕ → Option ℕ → Option Route
  with_bytes piece offset none = none
  with_bytes piece offset (some bytes) =
      if is_inside piece offset bytes then some (route_to piece offset bytes) else none

  abbrev pub with_offset : ℕ → WeightPiece → Option ℕ → Option Route
  with_offset row_bytes piece none = none
  with_offset row_bytes piece (some offset) =
      with_bytes piece offset (checked_mul piece.row_count row_bytes)

  unfoldable pub route_piece : ℕ → WeightPiece → Option Route
  route_piece row_bytes piece = with_offset row_bytes piece (checked_mul piece.first_row row_bytes)

  -- The loop over the pieces; none is a piece out of range.
  unfoldable pub route_pieces : ℕ → List WeightPiece → List Route → Option (List Route)
  route_pieces row_bytes [] routes = some routes
  route_pieces row_bytes (piece ∷ rest) routes = elim (route_piece row_bytes piece) [
    | none ↦ none
    | some r ↦ route_pieces row_bytes rest (routes ++ (r ∷ []))
  ]

abbrev pub all_in_range : List ℕ → Option (List Route) → RouteResult (List Route)
all_in_range name none = failure out_of_range (named name)
all_in_range name (some routes) = carried_out routes

abbrev pub is_empty : List WeightPiece → Bool
is_empty [] = true
is_empty (p ∷ ps) = false

module _ (file_size : ℕ) (find_format : FindFormat) (plan : ResidencyPlan) where
  -- The pieces of a plan have rows; where they had none the source would divide by zero, and here the
  -- quotient is zero.
  unfoldable pub route_tensor : TensorEntry → PlannedTensor → List Route → RouteResult (List Route)
  route_tensor entry t routes = elim (find_format entry.type) [
    | none ↦ failure unsupported_format (named entry.name)
    | some format ↦
        if not (steps_by_groups entry)
        then failure row_not_steppable (named entry.name)
        else if is_empty t.view.pieces
        then carried_out routes
        else all_in_range entry.name (
            route_pieces file_size plan.buffers entry t.tensor format.layout
              (entry.data_length / rows_of t.view.pieces) t.view.pieces routes)
  ]

abbrev pub name_at : List TensorEntry → TensorId → List ℕ
name_at tensors id = name_in (get_elem? tensors id)
  where
    name_in : Option TensorEntry → List ℕ
    name_in none = []
    name_in (some t) = t.name

abbrev pub is_candidate : Option PlannedTensor → Bool
is_candidate none = false
is_candidate (some t) = elim t.candidate_duplicate_of [ none ↦ false | some original ↦ true ]

-- The loop over the confirmed ids: the first that is refused, or none.
unfoldable pub refused_id : List TensorEntry → ResidencyPlan → List TensorId → Option RouteSubject
refused_id tensors plan [] = none
refused_id tensors plan (id ∷ rest) =
    if leb (length tensors) id
    then some (numbered id)
    else if not (is_candidate (planned plan id))
    then some (named (name_at tensors id))
    else refused_id tensors plan rest

-- A piece's buffer goes uncreated.
unfoldable pub free_piece : ResidencyPlan → WeightPiece → ResidencyPlan
free_piece plan piece =
    let size : ℕ = buffer_size plan.buffers piece.buffer in
    record plan {
      weight_bytes = sub64 plan.weight_bytes size;
      total_bytes = sub64 plan.total_bytes size;
      buffers = elim (get_elem? plan.buffers piece.buffer) [
        | none ↦ plan.buffers
        | some b ↦ set plan.buffers piece.buffer (record b { size = 0 })
      ];
    }

unfoldable pub free_pieces : ResidencyPlan → List WeightPiece → ResidencyPlan
unfolding free_piece
free_pieces plan [] = plan
free_pieces plan (piece ∷ rest) = free_pieces (free_piece plan piece) rest

-- `carried.tensors[i].view = original->view`, with the tensor's other fields as they stand in `t`.
abbrev pub with_view : ResidencyPlan → ℕ → PlannedTensor → WeightView → ResidencyPlan
with_view carried i t view = record carried {
  tensors = set carried.tensors i (record t { view = view });
}

-- A confirmed copy reads the tensor it copies; none where the plan has not got that one.
abbrev pub original_of : ResidencyPlan → PlannedTensor → Option PlannedTensor
original_of plan t = elim t.candidate_duplicate_of [ none ↦ none | some id ↦ planned plan id ]

pub record Found : Type 0 where
  pub found : List Route
  pub carried : ResidencyPlan

module _ (file_size : ℕ) (find_format : FindFormat) (tensors : List TensorEntry)
    (plan : ResidencyPlan) (confirmed : List TensorId) where
  -- `index.tensor(id)`, whose precondition is that the index has it.
  abbrev pub route_at : Option TensorEntry → PlannedTensor → List Route → RouteResult (List Route)
  route_at none t found = failure not_a_candidate (numbered t.tensor)
  route_at (some entry) t found = route_tensor file_size find_format plan entry t found

  -- The loop over the plan's tensors, from number `i` on.
  unfoldable pub route_all : ℕ → List PlannedTensor → Found → RouteResult Found
  unfolding free_pieces
  route_all i [] s = carried_out s
  route_all i (t ∷ rest) s =
      if contains confirmed t.tensor
      then elim (original_of plan t) [
        | none ↦ failure not_a_candidate (named (name_at tensors t.tensor))
        | some original ↦ route_all (suc i) rest (record s {
          carried = with_view (free_pieces s.carried t.view.pieces) i t original.view;
        })
      ]
      else elim (route_at (get_elem? tensors t.tensor) t s.found) [
        | failure e subject ↦ failure e subject
        | carried_out found ↦ route_all (suc i) rest (record s { found = found })
      ]

abbrev pub is_before : Route → Route → Bool
is_before a b = ltb a.file_offset b.file_offset

abbrev pub in_file_order : RouteResult Found → RouteResult Found
in_file_order (failure e subject) = failure e subject
in_file_order (carried_out s) = carried_out (record s { found = sort is_before s.found })

unfoldable pub plan_routes :
    TensorIndex → ResidencyPlan → ℕ → FindFormat → List TensorId → RouteResult Found
unfolding route_all
plan_routes index plan file_size find_format confirmed =
    elim (refused_id index.tensors plan confirmed) [
      | some subject ↦ failure not_a_candidate subject
      | none ↦ in_file_order (
          route_all file_size find_format index.tensors plan confirmed 0 plan.tensors
            (record { found = []; carried = plan }))
    ]
