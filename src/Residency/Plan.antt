-- ===== src/Residency/Plan.antt =====
-- `plan_residency` of src/core/residency/plan.cpp and the functions that fill its three pools.
pub mod Cache
pub mod Apart
pub mod Whole
pub mod Ends
use browser_llm.Base.{
  ℕ, zero, suc, ◌+◌, ◌-◌, ◌*◌, ◌/◌, ◌%◌, Bool, true, false, not, ◌&&◌, ◌||◌, Option, none, some,
  List, [], ◌∷◌, ◌++◌, ltb, leb, ◌==◌, if◌then◌else◌, length, get_or, get_elem?, min, max,
}
use Prim.Native.String.{String}
use mathlib.Core.List.{foldr}
use browser_llm.Base.Words.{add64, sub64, mul64}
use browser_llm.Gguf.Checked.{checked_add, checked_mul}
use browser_llm.Gguf.Types.{TensorEntry, TensorType, format_layout, FormatLayout}
use browser_llm.Residency.Packer.{
  Pool, weights, scratch, DeviceLimits, PlannedBuffer, BufferRange, Packer, Placed, new_packer,
  place, range_limit,
}
use browser_llm.Residency.Model.{
  TensorId, LayerDescription, ModelDescription, LoadPolicy, WeightPiece, PlannedTensor,
  PlannedScratch, ResidencyPlan, empty_plan, row_exceeds_binding, scratch_exceeds_binding, overflow,
  tensor_name, purpose_name, Step, planned, failure, stuck, and_next,
}
use browser_llm.Residency.Plan.Cache.{prefill_block, place_cache}

-- `std::equal` over the four extents.
unfoldable pub same_extents : List ℕ → List ℕ → Bool
same_extents [] [] = true
same_extents (a ∷ more) (b ∷ bs) = (a == b) && same_extents more bs
same_extents _ _ = false

unfoldable pub same_contents : TensorEntry → TensorEntry → Bool
same_contents head embedding =
    (head.type == embedding.type)
    && (head.data_length == embedding.data_length)
    && same_extents head.dimensions embedding.dimensions

-- `index.tensor(id)`, whose precondition is that the index has the tensor.
abbrev pub tensor_is_copy : Option TensorEntry → Option TensorEntry → Bool
tensor_is_copy (some head) (some embedding) = same_contents head embedding
tensor_is_copy _ _ = false

unfoldable pub is_tied_copy : List TensorEntry → ModelDescription → ℕ → Bool
unfolding same_contents
is_tied_copy tensors model tensor = elim model.output_head [
  | none ↦ false
  | some head ↦
      (head == tensor)
      && tensor_is_copy (get_elem? tensors head) (get_elem? tensors model.token_embedding)
]

-- The pieces of a tensor so far, with the buffers and the packer; `overflowed` is a failure of
-- `place`.
pub data Pieces : Type 0 where
  placed_pieces : List WeightPiece → List PlannedBuffer → Packer → Pieces
  overflowed : List PlannedBuffer → Pieces
  out_of_fuel : Pieces

abbrev pub piece_of : BufferRange → ℕ → ℕ → WeightPiece
piece_of range first count = record {
  buffer = range.buffer;
  offset = range.offset;
  length = range.length;
  first_row = first;
  row_count = count;
}

module _ (rows row_bytes rows_per_piece : ℕ) (tied : Bool) where
  -- `for (first = 0; first < rows; first += rows_per_piece)`, on fuel.
  unfoldable pub place_pieces : ℕ → ℕ → List WeightPiece → List PlannedBuffer → Packer → Pieces
  place_pieces zero first pieces buffers p =
      if ltb first rows then out_of_fuel else placed_pieces pieces buffers p
  place_pieces (suc fuel) first pieces buffers p =
      let count : ℕ = min rows_per_piece (rows - first) in
      if ltb first rows
      then elim (place p buffers (mul64 count row_bytes) tied) [
        | none ↦ overflowed buffers
        | some q ↦
            place_pieces fuel (add64 first rows_per_piece)
              (pieces ++ (piece_of q.range first count ∷ [])) q.buffers q.packer
      ]
      else placed_pieces pieces buffers p

-- A row is the first dimension.
abbrev pub row_count_of : TensorEntry → ℕ
row_count_of t =
    let width : ℕ = get_or t.dimensions 0 0 in if width == 0 then 0 else t.element_count / width

-- The entry for one tensor, with the pieces that were placed for it.
abbrev pub planned_tensor :
    ModelDescription → TensorEntry → ℕ → Bool → List WeightPiece → PlannedTensor
planned_tensor model t i tied pieces = record {
  tensor = i;
  view = record {
    format = t.type;
    shape = record {
      dimension_count = t.dimension_count;
      dimensions = t.dimensions;
      element_count = t.element_count;
    };
    pieces = pieces;
  };
  candidate_duplicate_of = if tied then some model.token_embedding else none;
}

-- The pieces of one tensor. As many rounds as rows are enough: each places one at least.
unfoldable pub tensor_pieces : TensorEntry → ℕ → Bool → List PlannedBuffer → Packer → Pieces
unfolding place_pieces
tensor_pieces t limit tied buffers p =
    let rows : ℕ = row_count_of t in
    let row_bytes : ℕ = t.data_length / rows in
    if rows == 0
    then placed_pieces [] buffers p
    else place_pieces rows row_bytes (limit / row_bytes) tied rows 0 [] buffers p

module _ (all : List TensorEntry) (model : ModelDescription) (limit : ℕ) where
  -- One row is wider than a range may be.
  abbrev pub row_too_wide : TensorEntry → Bool
  row_too_wide t = not (row_count_of t == 0) && ltb limit (t.data_length / row_count_of t)

  -- The loop over the tensors, from number `i` on.
  unfoldable pub place_tensors : ℕ → List TensorEntry → Packer → ResidencyPlan → Step
  unfolding tensor_pieces
  place_tensors i [] p out = planned out
  place_tensors i (t ∷ rest) p out =
      let tied : Bool = is_tied_copy all model i in
      if row_too_wide t
      then failure row_exceeds_binding (tensor_name t.name) out
      else elim (tensor_pieces t limit tied out.buffers p) [
        | out_of_fuel ↦ stuck
        | overflowed buffers ↦
            failure overflow (tensor_name t.name) (record out { buffers = buffers })
        | placed_pieces pieces buffers p' ↦ place_tensors (suc i) rest p' (record out {
          buffers = buffers;
          tensors = out.tensors ++ (planned_tensor model t i tied pieces ∷ []);
        })
      ]

unfoldable pub place_weights :
    List TensorEntry → ModelDescription → DeviceLimits → ResidencyPlan → Step
unfolding place_tensors
place_weights tensors model limits out =
    place_tensors tensors model (range_limit limits) 0 tensors (new_packer weights limits) out

pub record Need : Type 0 where
  pub purpose : String
  pub rows : ℕ
  pub width : ℕ

-- The widest of the layers' values; a product of two 32-bit numbers fits 64 bits.
abbrev pub widest : (LayerDescription → ℕ) → List LayerDescription → ℕ
widest f = foldr (λ l m. max m (f l)) 0

unfoldable pub scratch_needs : ModelDescription → List Need
scratch_needs model =
    let query : ℕ = widest (λ l. l.query_heads * l.head_dimension) model.layers in
    let key_value : ℕ = widest (λ l. l.key_value_heads * l.head_dimension) model.layers in
    let feed_forward : ℕ = widest (λ l. l.feed_forward_width) model.layers in
    record { purpose = "hidden"; rows = prefill_block; width = model.embedding_width }
    ∷ record { purpose = "normed"; rows = prefill_block; width = model.embedding_width }
    ∷ record { purpose = "query"; rows = prefill_block; width = query }
    ∷ record { purpose = "key"; rows = prefill_block; width = key_value }
    ∷ record { purpose = "value"; rows = prefill_block; width = key_value }
    ∷ record { purpose = "attention"; rows = prefill_block; width = query }
    ∷ record { purpose = "gate"; rows = prefill_block; width = feed_forward }
    ∷ record { purpose = "up"; rows = prefill_block; width = feed_forward }
    ∷ record { purpose = "logits"; rows = 1; width = model.vocabulary_size }
    ∷ []

abbrev pub f32_bytes : ℕ
f32_bytes = 4

module _ (limits : DeviceLimits) where
  -- The loop over the needs. The product of rows and width is not checked; only the one by 4 is.
  unfoldable pub place_needs : List Need → Packer → ResidencyPlan → Step
  place_needs [] p out = planned out
  place_needs (need ∷ rest) p out = elim (checked_mul (mul64 need.rows need.width) f32_bytes) [
    | none ↦ failure overflow (purpose_name need.purpose) out
    | some bytes ↦
        if ltb (range_limit limits) bytes
        then failure scratch_exceeds_binding (purpose_name need.purpose) out
        else elim (place p out.buffers bytes false) [
          | none ↦ failure overflow (purpose_name need.purpose) out
          | some q ↦ place_needs rest q.packer (record out {
            buffers = q.buffers;
            scratch = out.scratch ++ (record { purpose = need.purpose; range = q.range } ∷ []);
          })
        ]
  ]

unfoldable pub place_scratch : ModelDescription → DeviceLimits → ResidencyPlan → Step
unfolding place_needs
place_scratch model limits out =
    place_needs limits (scratch_needs model) (new_packer scratch limits) out

abbrev pub same_pool : Pool → Pool → Bool
same_pool Pool.weights Pool.weights = true
same_pool Pool.cache Pool.cache = true
same_pool Pool.scratch Pool.scratch = true
same_pool _ _ = false

-- The loop adds up 64-bit sizes.
unfoldable pub pool_bytes : List PlannedBuffer → Pool → ℕ
pool_bytes [] pool = 0
pool_bytes (b ∷ rest) pool =
    if same_pool b.pool pool then add64 b.size (pool_bytes rest pool) else pool_bytes rest pool

unfoldable pub plan_residency :
    List TensorEntry → ModelDescription → DeviceLimits → LoadPolicy → Step
plan_residency tensors model limits policy =
    and_next (place_weights tensors model limits empty_plan) λ out₁.
      and_next
        (place_scratch model limits
          (record out₁ { weight_bytes = pool_bytes out₁.buffers Pool.weights }))
        λ out₂.
          and_next
            (place_cache model limits policy
              (record out₂ { scratch_bytes = pool_bytes out₂.buffers Pool.scratch }))
            λ out₃.
              let bytes : ℕ = pool_bytes out₃.buffers Pool.cache in
              planned (record out₃ {
                cache_bytes = bytes;
                total_bytes = add64 (add64 out₃.weight_bytes out₃.scratch_bytes) bytes;
              })
