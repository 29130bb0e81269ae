-- ===== src/Residency/Routes/Files.antt =====
-- The routes of a tensor, and of a plan, src/core/residency/routes.cpp.
use native.Mathlib.Nat.{div-le_self}
use mathlib.Core.List.{append_assoc, append-nil}
use browser_llm.Base.{
  ℕ, ◌+◌, ◌/◌, ◌^◌, ◌<◌, ◌≡◌, ◌⊎◌, refl, sym, ap, ◌∙◌, true, Option, none, some, List, [], ◌∷◌,
  ◌++◌, arith, inl, inr, All, Bool-cases, Option-cases,
}
use mathlib.Core.Option.{some-injective}
use browser_llm.Base.Words.{IsU64}
use browser_llm.Gguf.Types.{TensorEntry}
use browser_llm.Formats.{DeviceLayout, Format, steps_by_groups}
use browser_llm.Residency.Packer.{PlannedBuffer}
use browser_llm.Residency.Model.{TensorId, WeightPiece, PlannedTensor, ResidencyPlan}
use browser_llm.Residency.Routes.{
  Route, FindFormat, RouteResult, carried_out, failure, RouteError, RouteSubject, named,
  out_of_range, unsupported_format, row_not_steppable, route_piece, route_pieces, rows_of, is_empty,
  all_in_range, route_tensor,
}
use browser_llm.Residency.Routes.Pieces.{IsRoute, IsRouteOf, route_piece-IsRoute}

-- One route for each piece, in the pieces' order.
abbrev pub AreRoutes :
    ℕ
    → List PlannedBuffer
    → TensorEntry
    → TensorId
    → DeviceLayout
    → ℕ
    → List WeightPiece
    → List Route
    → Type 0
AreRoutes file_size buffers entry tensor layout row_bytes [] [] = Unit {0}
AreRoutes file_size buffers entry tensor layout row_bytes (p ∷ ps) (r ∷ rs) =
    (IsRoute file_size buffers r × IsRouteOf entry tensor layout row_bytes p r)
    × AreRoutes file_size buffers entry tensor layout row_bytes ps rs
AreRoutes file_size buffers entry tensor layout row_bytes _ _ = ⊥

module _ (file_size : ℕ) (buffers : List PlannedBuffer) (entry : TensorEntry) (tensor : TensorId)
    (layout : DeviceLayout) (small : file_size + 3 < 2 ^ 64) (row_bytes : ℕ)
    (row_fits : IsU64 row_bytes) where
  route_pieces-AreRoutes :
      (pieces : List WeightPiece) (routes all : List Route)
      → route_pieces file_size buffers entry tensor layout row_bytes pieces routes ≡ some all
      → (new : List Route) × (all ≡ routes ++ new)
        × AreRoutes file_size buffers entry tensor layout row_bytes pieces new
  unfolding route_pieces
  route_pieces-AreRoutes [] routes all e =
      ([], sym (append-nil routes ∙ some-injective routes all e), tt)
  route_pieces-AreRoutes (p ∷ ps) routes all e =
      elim (Option-cases (route_piece file_size buffers entry tensor layout row_bytes p)) [
        | inl a ↦ cc (rw (a, route_pieces) at e)
        | inr (r, a) ↦
            let (new, b, w) =
              route_pieces-AreRoutes ps (routes ++ (r ∷ [])) all (rw (a, route_pieces) at e) in
            (
              r ∷ new,
              b ∙ append_assoc routes (r ∷ []) new,
              (
                route_piece-IsRoute file_size buffers entry tensor layout small row_bytes row_fits p
                    r a,
                w,
              ),
            )
      ]

  AreRoutes-IsRoute :
      (pieces : List WeightPiece) (new : List Route)
      → AreRoutes file_size buffers entry tensor layout row_bytes pieces new
      → All (λ r. IsRoute file_size buffers r × (r.tensor ≡ tensor)) new
  AreRoutes-IsRoute [] [] h = tt
  AreRoutes-IsRoute [] (r ∷ rs) h = elim h [ ]
  AreRoutes-IsRoute (p ∷ ps) [] h = elim h [ ]
  AreRoutes-IsRoute (p ∷ ps) (r ∷ rs) h = ((h.0.0, h.0.1.of_tensor), AreRoutes-IsRoute ps rs h.1)

-- What `route_tensor` adds to the routes: nothing for a tensor with no pieces, else one route for each.
pub record IsRouted (file_size : ℕ) (find_format : FindFormat) (plan : ResidencyPlan)
    (entry : TensorEntry) (t : PlannedTensor) (new : List Route) : Type 0 where
  pub format : Format
  pub listed : find_format entry.type ≡ some format
  pub steps : steps_by_groups entry ≡ true
  pub each :
      AreRoutes file_size plan.buffers entry t.tensor format.layout
        (entry.data_length / rows_of t.view.pieces)
        t.view.pieces
        new

carried_of : {A : Type 0} → A → RouteResult A → A
carried_of a (carried_out b) = b
carried_of a (failure e s) = a

pub carried_out-injective : {A : Type 0} (a b : A) → carried_out a ≡ carried_out b → a ≡ b
unfolding carried_of
carried_out-injective a b e = ap (carried_of a) e

pub carried_out-failure :
    {A : Type 0} (a : A) (e : RouteError) (s : RouteSubject) → failure e s ≡ carried_out a → ⊥
carried_out-failure a e s h = cc

pub RouteResult-cases :
    {A : Type 0} (r : RouteResult A)
    → ((e : RouteError) × (s : RouteSubject) × (r ≡ failure e s)) ⊎ ((a : A) × (r ≡ carried_out a))
RouteResult-cases (failure e s) = inl (e, s, refl)
RouteResult-cases (carried_out a) = inr (a, refl)

module _ (file_size : ℕ) (find_format : FindFormat) (plan : ResidencyPlan)
    (small : file_size + 3 < 2 ^ 64) where
  pieces_routed :
      (entry : TensorEntry) (t : PlannedTensor) (layout : DeviceLayout) (row_bytes : ℕ)
      (routes all : List Route)
      → IsU64 row_bytes
      → all_in_range entry.name
          (route_pieces file_size plan.buffers entry t.tensor layout row_bytes t.view.pieces routes)
        ≡ carried_out all
      → (new : List Route) × (all ≡ routes ++ new)
        × AreRoutes file_size plan.buffers entry t.tensor layout row_bytes t.view.pieces new
  pieces_routed entry t layout row_bytes routes all fits =
      by_result
        (route_pieces file_size plan.buffers entry t.tensor layout row_bytes t.view.pieces routes)
        refl
    where
      by_result :
          (o : Option (List Route))
          → route_pieces file_size plan.buffers entry t.tensor layout row_bytes t.view.pieces routes
            ≡ o
          → all_in_range entry.name o ≡ carried_out all
          → (new : List Route) × (all ≡ routes ++ new)
            × AreRoutes file_size plan.buffers entry t.tensor layout row_bytes t.view.pieces new
      by_result none a e = absurd (carried_out-failure all out_of_range (named entry.name) e)
      by_result (some found) a e =
          route_pieces-AreRoutes file_size plan.buffers entry t.tensor layout small row_bytes fits
            t.view.pieces routes all (a ∙ ap some (carried_out-injective found all e))

  empty_routed :
      (entry : TensorEntry) (t : PlannedTensor) (layout : DeviceLayout) (row_bytes : ℕ)
      (ps : List WeightPiece)
      → is_empty ps ≡ true
      → AreRoutes file_size plan.buffers entry t.tensor layout row_bytes ps []
  empty_routed entry t layout row_bytes [] h = tt
  empty_routed entry t layout row_bytes (p ∷ ps) h = cc

  -- For a file smaller than 2^64 - 3 bytes and a tensor whose length fits 64 bits, a call of
  -- route_tensor that succeeds has found the tensor's format and whole groups in its rows, and
  -- appends one route for each piece, in their order: of the bytes of exactly the piece's rows, to
  -- the buffer, offset and length of the piece.
  pub route_tensor-IsRouted :
      (entry : TensorEntry) (t : PlannedTensor) (routes all : List Route)
      → IsU64 entry.data_length
      → route_tensor file_size find_format plan entry t routes ≡ carried_out all
      → (new : List Route) × (all ≡ routes ++ new) × IsRouted file_size find_format plan entry t new
  unfolding route_tensor
  route_tensor-IsRouted entry t routes all fits e = elim (Option-cases (find_format entry.type)) [
    | inl a ↦
        absurd (
          carried_out-failure all unsupported_format (named entry.name) (rw (a, route_tensor) at e))
    | inr (format, a) ↦ elim (Bool-cases (steps_by_groups entry)) [
      | inr b ↦ absurd (
          carried_out-failure all row_not_steppable (named entry.name)
            (rw (a, b, route_tensor) at e))
      | inl b ↦ elim (Bool-cases (is_empty t.view.pieces)) [
        | inl c ↦ (
          [],
          sym (
              append-nil routes
              ∙ carried_out-injective routes all (rw (a, b, c, route_tensor) at e)),
          record {
            format = format;
            listed = a;
            steps = b;
            each =
                empty_routed entry t format.layout (entry.data_length / rows_of t.view.pieces)
                  t.view.pieces c;
          },
        )
        | inr c ↦
            let (new, d, w) =
              pieces_routed entry t format.layout (entry.data_length / rows_of t.view.pieces) routes
                all (omega (arith, fits, div-le_self entry.data_length (rows_of t.view.pieces)))
                (rw (a, b, c, route_tensor) at e) in
            (new, d, record { format = format; listed = a; steps = b; each = w })
      ]
    ]
  ]

  -- Every route that a tensor adds is safe, and is that tensor's.
  pub route_tensor-IsRoute :
      (entry : TensorEntry) (t : PlannedTensor) (routes all : List Route)
      → IsU64 entry.data_length
      → route_tensor file_size find_format plan entry t routes ≡ carried_out all
      → (new : List Route) × (all ≡ routes ++ new)
        × All (λ r. IsRoute file_size plan.buffers r × (r.tensor ≡ t.tensor)) new
  route_tensor-IsRoute entry t routes all fits e =
      let (new, a, w) = route_tensor-IsRouted entry t routes all fits e in
      (
        new,
        a,
        AreRoutes-IsRoute file_size plan.buffers entry t.tensor w.format.layout small
            (entry.data_length / rows_of t.view.pieces)
            (omega (arith, fits, div-le_self entry.data_length (rows_of t.view.pieces)))
            t.view.pieces new w.each,
      )
