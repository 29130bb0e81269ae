-- ===== src/Residency/Plan/Apart.antt =====
-- No two ranges of a plan share a byte, src/core/residency/plan.cpp: its pieces of weights, its working
-- buffers and its caches.
use native.Mathlib.Nat.{div-mul-le_self, mul-le-mul_right}
use mathlib.Core.List.{append_assoc, append-nil}
use browser_llm.Base.{
  ℕ, zero, suc, ◌-◌, ◌*◌, ◌/◌, ◌≤◌, ◌≡◌, inl, inr, refl, sym, ap, ◌∙◌, subst, Bool, Option, none,
  some, List, [], ◌∷◌, ◌++◌, map, arith, ltb, ◌==◌, min, Bool-cases,
}
use browser_llm.Base.Words.{mul64, add64}
use browser_llm.Gguf.Types.{TensorEntry}
use browser_llm.Residency.Packer.{
  DeviceLimits, Pool, PlannedBuffer, BufferRange, Packer, Placed, place, new_packer, range_limit,
}
use browser_llm.Residency.Packer.Rounding.{IsDevice}
use browser_llm.Residency.Packer.Ranges.{IsPacked, HasOpen}
use browser_llm.Residency.Packer.Placing.{place-IsPlacing}
use browser_llm.Residency.Model.{
  ModelDescription, WeightPiece, PlannedTensor, PlannedCacheLayer, PlannedScratch, ResidencyPlan,
  Step, planned, failure, stuck, and_next, overflow, tensor_name,
}
use browser_llm.Residency.Plan.{
  Pieces, placed_pieces, overflowed, out_of_fuel, piece_of, place_pieces, tensor_pieces,
  row_count_of, row_too_wide, planned_tensor, is_tied_copy, place_tensors,
}

abbrev pub piece_range : WeightPiece → BufferRange
piece_range piece = record { buffer = piece.buffer; offset = piece.offset; length = piece.length }

abbrev pub tensor_ranges : List PlannedTensor → List BufferRange
tensor_ranges [] = []
tensor_ranges (t ∷ rest) = map piece_range t.view.pieces ++ tensor_ranges rest

abbrev pub scratch_ranges : List PlannedScratch → List BufferRange
scratch_ranges [] = []
scratch_ranges (s ∷ rest) = s.range ∷ scratch_ranges rest

abbrev pub cache_ranges : List PlannedCacheLayer → List BufferRange
cache_ranges [] = []
cache_ranges (l ∷ rest) = l.keys ∷ l.values ∷ cache_ranges rest

-- The ranges are packed, and the packer can go on behind them.
pub record Holds (limits : DeviceLimits) (p : Packer) (bs : List PlannedBuffer)
    (rs : List BufferRange) : Type 0 where
  pub packed : IsPacked limits bs rs
  pub still_open : HasOpen p bs
  pub same_limits : p.limits ≡ limits

-- The property of a plan, where a step gives one.
abbrev pub Gives : (ResidencyPlan → Type 0) → Step → Type 0
Gives P (planned out) = P out
Gives P (failure e s out) = Unit
Gives P stuck = Unit

pub Gives-and_next :
    (P Q : ResidencyPlan → Type 0) (s : Step) (f : ResidencyPlan → Step)
    → Gives P s
    → ((out : ResidencyPlan) → P out → Gives Q (f out))
    → Gives Q (and_next s f)
Gives-and_next P Q (planned out) f h k = k out h
Gives-and_next P Q (failure e s out) f h k = tt
Gives-and_next P Q stuck f h k = tt

map-snoc :
    {A B : Type 0} (f : A → B) (xs : List A) (y : A)
    → map f (xs ++ (y ∷ [])) ≡ map f xs ++ (f y ∷ [])
map-snoc f [] y = refl
map-snoc f (x ∷ xs) y = ap (λ t. f x ∷ t) (map-snoc f xs y)

tensor_ranges-snoc :
    (ts : List PlannedTensor) (t : PlannedTensor)
    → tensor_ranges (ts ++ (t ∷ [])) ≡ tensor_ranges ts ++ map piece_range t.view.pieces
tensor_ranges-snoc [] t = append-nil (map piece_range t.view.pieces)
tensor_ranges-snoc (u ∷ ts) t =
    ap (λ (x : List BufferRange). map piece_range u.view.pieces ++ x) (tensor_ranges-snoc ts t)
    ∙ sym (
        append_assoc (map piece_range u.view.pieces) (tensor_ranges ts)
          (map piece_range t.view.pieces))

module _ (limits : DeviceLimits) (d : IsDevice limits) where
  pub new_packer-Holds :
      (pool : Pool) (bs : List PlannedBuffer) (rs : List BufferRange)
      → IsPacked limits bs rs
      → Holds limits (new_packer pool limits) bs rs
  unfolding new_packer
  new_packer-Holds pool bs rs w = record { packed = w; still_open = λ e. cc; same_limits = refl }

  pub place-Holds :
      (p : Packer) (bs : List PlannedBuffer) (rs : List BufferRange) (count : ℕ) (alone : Bool)
      (q : Placed)
      → Holds limits p bs rs
      → count ≤ range_limit limits
      → place p bs count alone ≡ some q
      → Holds limits q.packer q.buffers (rs ++ (q.range ∷ []))
  place-Holds p bs rs count alone q h l e =
      let same : limits ≡ p.limits = sym h.same_limits in
      let w =
        place-IsPlacing p bs count alone rs q (subst IsDevice same d)
          (subst (λ (x : DeviceLimits). count ≤ range_limit x) same l) h.still_open
          (subst (λ (x : DeviceLimits). IsPacked x bs rs) same h.packed) e in
      record {
        packed =
            subst (λ (x : DeviceLimits). IsPacked x q.buffers (rs ++ (q.range ∷ []))) h.same_limits
              w.packed;
        still_open = w.still_open;
        same_limits = w.same_limits ∙ h.same_limits;
      }

  abbrev HeldPieces : List BufferRange → Pieces → Type 0
  HeldPieces rs (placed_pieces pieces bs p) = Holds limits p bs (rs ++ map piece_range pieces)
  HeldPieces rs (overflowed bs) = Unit
  HeldPieces rs out_of_fuel = Unit

  piece_bytes :
      (rows row_bytes first : ℕ)
      → mul64 (min (range_limit limits / row_bytes) (rows - first)) row_bytes ≤ range_limit limits
  piece_bytes rows row_bytes first =
      let per_piece : ℕ = range_limit limits / row_bytes in
      let count : ℕ = min per_piece (rows - first) in
      let fewer : count ≤ per_piece = omega arith in
      let below : count * row_bytes ≤ per_piece * row_bytes = mul-le-mul_right row_bytes fewer in
      omega (arith, below, div-mul-le_self (range_limit limits) row_bytes)

  place_pieces-Held :
      (rows row_bytes : ℕ) (tied : Bool) (fuel first : ℕ) (pieces : List WeightPiece)
      (bs : List PlannedBuffer) (p : Packer) (rs : List BufferRange)
      → Holds limits p bs (rs ++ map piece_range pieces)
      → HeldPieces rs
          (place_pieces rows row_bytes (range_limit limits / row_bytes) tied fuel first pieces bs p)
  unfolding place_pieces
  place_pieces-Held rows row_bytes tied zero first pieces bs p rs h =
      elim (Bool-cases (ltb first rows)) [ inl e ↦ rw e tt | inr e ↦ rw e h ]
  place_pieces-Held rows row_bytes tied (suc fuel) first pieces bs p rs h =
      elim (Bool-cases (ltb first rows)) [
        | inr e ↦ rw e h
        | inl e ↦ rw e (
            by_place
              (place p bs (mul64 (min (range_limit limits / row_bytes) (rows - first)) row_bytes)
                tied)
              refl
              (place_pieces-Held rows row_bytes tied fuel
                (add64 first (range_limit limits / row_bytes))))
      ]
    where
      by_place :
          (o : Option Placed)
          → place p bs (mul64 (min (range_limit limits / row_bytes) (rows - first)) row_bytes) tied
            ≡ o
          → ((next : List WeightPiece) (bs : List PlannedBuffer) (p : Packer)
                (rs : List BufferRange)
              → Holds limits p bs (rs ++ map piece_range next)
              → HeldPieces rs (
                  place_pieces rows row_bytes
                    (range_limit limits / row_bytes)
                    tied
                    fuel
                    (add64 first (range_limit limits / row_bytes))
                    next
                    bs
                    p))
          → HeldPieces rs (elim o [
            | none ↦ overflowed bs
            | some q ↦
                place_pieces rows row_bytes
                  (range_limit limits / row_bytes)
                  tied
                  fuel
                  (add64 first (range_limit limits / row_bytes))
                  (pieces
                    ++ (piece_of q.range first (min (range_limit limits / row_bytes) (rows - first))
                        ∷ []))
                  q.buffers
                  q.packer
          ])
      by_place none e go = tt
      by_place (some q) e go = go _ q.buffers q.packer rs (
          subst (Holds limits q.packer q.buffers)
            (append_assoc rs (map piece_range pieces) (q.range ∷ [])
              ∙ ap (λ (x : List BufferRange). rs ++ x)
                  (sym (
                    map-snoc piece_range pieces (
                      piece_of q.range first
                        (min (range_limit limits / row_bytes) (rows - first))))))
            (place-Holds p bs (rs ++ map piece_range pieces) _ tied q h
              (piece_bytes rows row_bytes first) e))

  tensor_pieces-Held :
      (t : TensorEntry) (tied : Bool) (bs : List PlannedBuffer) (p : Packer) (rs : List BufferRange)
      → Holds limits p bs rs
      → HeldPieces rs (tensor_pieces t (range_limit limits) tied bs p)
  unfolding tensor_pieces
  tensor_pieces-Held t tied bs p rs h =
      let none_yet : Holds limits p bs (rs ++ []) =
        subst (Holds limits p bs) (sym (append-nil rs)) h in
      elim (Bool-cases (row_count_of t == 0)) [
        | inl e ↦ rw e none_yet
        | inr e ↦ rw e (
            place_pieces-Held (row_count_of t) (t.data_length / row_count_of t) tied
              (row_count_of t) 0 [] bs p rs none_yet)
      ]

  -- The weights that are placed, before anything else.
  pub record AfterWeights (out : ResidencyPlan) : Type 0 where
    pub packed : IsPacked limits out.buffers (tensor_ranges out.tensors)
    pub no_scratch : out.scratch ≡ []
    pub no_cache : out.cache ≡ []

  module _ (all : List TensorEntry) (model : ModelDescription) where
    pub place_tensors-Gives :
        (i : ℕ) (ts : List TensorEntry) (p : Packer) (out : ResidencyPlan)
        → Holds limits p out.buffers (tensor_ranges out.tensors)
        → out.scratch ≡ []
        → out.cache ≡ []
        → Gives AfterWeights (place_tensors all model (range_limit limits) i ts p out)
    unfolding place_tensors
    place_tensors-Gives i [] p out h a b = record {
      packed = h.packed;
      no_scratch = a;
      no_cache = b;
    }
    place_tensors-Gives i (t ∷ rest) p out h a b =
        elim (Bool-cases (row_too_wide all model (range_limit limits) t)) [
          | inl e ↦ rw e tt
          | inr e ↦ rw e (
              by_pieces
                (tensor_pieces t (range_limit limits) (is_tied_copy all model i) out.buffers p)
                (tensor_pieces-Held t (is_tied_copy all model i) out.buffers p
                  (tensor_ranges out.tensors) h)
                (place_tensors-Gives (suc i) rest))
        ]
      where
        by_pieces :
            (x : Pieces)
            → HeldPieces (tensor_ranges out.tensors) x
            → ((p : Packer) (next : ResidencyPlan)
                → Holds limits p next.buffers (tensor_ranges next.tensors)
                → next.scratch ≡ []
                → next.cache ≡ []
                → Gives AfterWeights
                    (place_tensors all model (range_limit limits) (suc i) rest p next))
            → Gives AfterWeights (elim x [
              | out_of_fuel ↦ stuck
              | overflowed buffers ↦
                  failure overflow (tensor_name t.name) (record out { buffers = buffers })
              | placed_pieces pieces buffers p' ↦
                  place_tensors all model (range_limit limits) (suc i) rest p' (record out {
                    buffers = buffers;
                    tensors =
                        out.tensors
                        ++ (planned_tensor model t i (is_tied_copy all model i) pieces ∷ []);
                  })
            ])
        by_pieces out_of_fuel w go = tt
        by_pieces (overflowed buffers) w go = tt
        by_pieces (placed_pieces pieces buffers p') w go =
            go p' _
              (subst (Holds limits p' buffers)
                (sym (
                  tensor_ranges-snoc out.tensors
                    (planned_tensor model t i (is_tied_copy all model i) pieces)))
                w)
              a b
