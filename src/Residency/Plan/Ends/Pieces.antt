-- ===== src/Residency/Plan/Ends/Pieces.antt =====
-- The pieces of a tensor, src/core/residency/plan.cpp: as many rounds as it has rows are enough.
use native.Mathlib.Nat.{div-le_self, le-div_iff_mul-le, div-mul-le_self, mul-le-mul_right}
use browser_llm.Base.{
  ltb→lt, ℕ, zero, suc, ◌+◌, ◌-◌, ◌*◌, ◌/◌, ◌^◌, ◌≤◌, ◌<◌, ◌≡◌, inl, inr, Bool, false, not, ◌&&◌,
  Option, none, some, List, [], ◌∷◌, ◌++◌, arith, ltb, ltb→le, ◌==◌, min, All, Bool-cases,
}
use browser_llm.Base.Words.{mul64, add64}
use browser_llm.Gguf.Types.{TensorEntry}
use browser_llm.Residency.Packer.{PlannedBuffer, Packer, Placed, place}
use browser_llm.Residency.Model.{
  ModelDescription, WeightPiece, ResidencyPlan, failure, stuck, overflow, tensor_name,
}
use browser_llm.Residency.Plan.{
  Pieces, placed_pieces, overflowed, out_of_fuel, piece_of, place_pieces, tensor_pieces,
  row_count_of, row_too_wide, planned_tensor, is_tied_copy, place_tensors,
}
use browser_llm.Residency.Plan.Ends.Answers.{IsAnswer}

-- A row holds bytes, and no sum of the tensor's bytes and of a range wraps.
pub record IsPlannable (limit : ℕ) (t : TensorEntry) : Type 0 where
  pub rows_hold : 0 < row_count_of t → 0 < t.data_length / row_count_of t
  pub small : t.data_length + limit < 2 ^ 64

abbrev EndsPieces : Pieces → Type 0
EndsPieces (placed_pieces pieces bs p) = Unit
EndsPieces (overflowed bs) = Unit
EndsPieces out_of_fuel = ⊥

module _ (rows row_bytes per_piece : ℕ) (tied : Bool) (some_rows : 0 < per_piece)
    (no_wrap : rows + per_piece < 2 ^ 64) where
  place_pieces-Ends :
      (fuel first : ℕ) (pieces : List WeightPiece) (bs : List PlannedBuffer) (p : Packer)
      → rows ≤ first + fuel
      → EndsPieces (place_pieces rows row_bytes per_piece tied fuel first pieces bs p)
  unfolding place_pieces
  place_pieces-Ends zero first pieces bs p h = elim (Bool-cases (ltb first rows)) [
    | inl e ↦ absurd (omega (arith, h, ltb→lt _ _ e))
    | inr e ↦ rw e tt
  ]
  place_pieces-Ends (suc fuel) first pieces bs p h = elim (Bool-cases (ltb first rows)) [
    | inr e ↦ rw e tt
    | inl e ↦
        let inside : first < rows = ltb→lt _ _ e in
        let further : rows ≤ add64 first per_piece + fuel =
          omega (arith, h, inside, some_rows, no_wrap) in
        rw e (
          by_place (place p bs (mul64 (min per_piece (rows - first)) row_bytes) tied)
            (λ next bs p. place_pieces-Ends fuel (add64 first per_piece) next bs p further))
  ]
    where
      by_place :
          (o : Option Placed)
          → ((next : List WeightPiece) (bs : List PlannedBuffer) (p : Packer)
              → EndsPieces (
                  place_pieces rows row_bytes per_piece tied fuel
                    (add64 first per_piece)
                    next
                    bs
                    p))
          → EndsPieces (elim o [
            | none ↦ overflowed bs
            | some q ↦
                place_pieces rows row_bytes per_piece tied fuel
                  (add64 first per_piece)
                  (pieces ++ (piece_of q.range first (min per_piece (rows - first)) ∷ []))
                  q.buffers
                  q.packer
          ])
      by_place none go = tt
      by_place (some q) go = go _ q.buffers q.packer

positive : (n : ℕ) → (n == 0) ≡ false → 0 < n
positive n e = ground (arith, e)

no_more : (a n : ℕ) → 0 < a / n → n ≤ a
no_more a n q =
    let below : 1 * n ≤ a / n * n = mul-le-mul_right n q in
    omega (arith, below, div-mul-le_self a n)

quotient : (a n : ℕ) → 0 < n → n ≤ a → 0 < a / n
quotient a n q r = (le-div_iff_mul-le q).1 (omega (arith, r))

tensor_pieces-Ends :
    (t : TensorEntry) (limit : ℕ) (tied : Bool) (bs : List PlannedBuffer) (p : Packer)
    → IsPlannable limit t
    → (not (row_count_of t == 0) && ltb limit (t.data_length / row_count_of t)) ≡ false
    → EndsPieces (tensor_pieces t limit tied bs p)
unfolding tensor_pieces
tensor_pieces-Ends t limit tied bs p h narrow = elim (Bool-cases (row_count_of t == 0)) [
  | inl e ↦ rw e tt
  | inr e ↦
      let some_row : 0 < row_count_of t = positive (row_count_of t) e in
      let holds = h.rows_hold some_row in
      let fits : t.data_length / row_count_of t ≤ limit = ltb→le _ _ (rw e at narrow) in
      let fewer : row_count_of t ≤ t.data_length = no_more t.data_length (row_count_of t) holds in
      rw e (
        place_pieces-Ends (row_count_of t) (t.data_length / row_count_of t)
          (limit / (t.data_length / row_count_of t)) tied
          (quotient limit (t.data_length / row_count_of t) holds fits)
          (omega (arith, fewer, h.small, div-le_self limit (t.data_length / row_count_of t)))
          (row_count_of t) 0 [] bs p (omega arith))
]

module _ (all : List TensorEntry) (model : ModelDescription) (limit : ℕ) where
  pub place_tensors-IsAnswer :
      (i : ℕ) (ts : List TensorEntry) (p : Packer) (out : ResidencyPlan)
      → All (IsPlannable limit) ts
      → IsAnswer (place_tensors all model limit i ts p out)
  unfolding place_tensors
  place_tensors-IsAnswer i [] p out h = tt
  place_tensors-IsAnswer i (t ∷ rest) p out h = elim (Bool-cases (row_too_wide all model limit t)) [
    | inl e ↦ rw e tt
    | inr e ↦ rw e (
        by_pieces (tensor_pieces t limit (is_tied_copy all model i) out.buffers p)
          (tensor_pieces-Ends t limit (is_tied_copy all model i) out.buffers p h.0 e)
          (λ q next. place_tensors-IsAnswer (suc i) rest q next h.1))
  ]
    where
      by_pieces :
          (x : Pieces)
          → EndsPieces x
          → ((p : Packer) (next : ResidencyPlan)
              → IsAnswer (place_tensors all model limit (suc i) rest p next))
          → IsAnswer (elim x [
            | out_of_fuel ↦ stuck
            | overflowed buffers ↦
                failure overflow (tensor_name t.name) (record out { buffers = buffers })
            | placed_pieces pieces buffers p' ↦
                place_tensors all model limit (suc i) rest p' (record out {
                  buffers = buffers;
                  tensors =
                      out.tensors
                      ++ (planned_tensor model t i (is_tied_copy all model i) pieces ∷ []);
                })
          ])
      by_pieces out_of_fuel w go = w
      by_pieces (overflowed buffers) w go = tt
      by_pieces (placed_pieces pieces buffers p') w go = go p' _
