-- ===== src/Examples/Routes.antt =====
-- A plan of two tensors, the second a copy of the first, its routes, and the device layouts.
use browser_llm.Base.{
  ◌≡◌, ◌≤◌, refl, ℕ, true, false, Option, none, some, List, [], ◌∷◌, ◌++◌, map, arith, All,
}
use browser_llm.Gguf.Types.{TensorEntry, TensorIndex, TensorType, f32}
use browser_llm.Gguf.Sorting.{sort, insert}
use browser_llm.Gguf.Sorting.Laws.{AllPairs}
use browser_llm.Gguf.Checked.{checked_mul, range_within}
use browser_llm.Formats.{
  Format, f32_layout, q4_0_layout, q4_1_layout, q8_0_layout, q6_k_layout, keeps_its_promise, cover,
  mark, stored_bytes,
}
use browser_llm.Gguf.Types.{format_layouts}
use browser_llm.Formats.Promise.{keeps_its_promise-holders}
use browser_llm.Formats.Promise.Sums.{holders}
use browser_llm.Residency.Packer.{Pool}
use browser_llm.Residency.Model.{WeightPiece, WeightView, PlannedTensor, ResidencyPlan, empty_plan}
use browser_llm.Residency.Routes.{
  Route, Found, RouteSubject, carried_out, failure, not_a_candidate, contains, planned, planned_in,
  rows_of, is_inside, route_piece, route_pieces, route_tensor, refused_id, free_piece, free_pieces,
  route_all, plan_routes,
}
use browser_llm.Residency.Routes.Pieces.{IsRoute}
use browser_llm.Residency.Routes.Files.{IsRouted, route_tensor-IsRouted}
use browser_llm.Residency.Routes.Order.{plan_routes-IsDue}
use browser_llm.Residency.Routes.Carried.{IsTotalled, shared, plan_routes-IsTotalled}
use browser_llm.Residency.Routes.Refusal.{IsConfirmable, plan_routes-refuses}

layouts_keep :
    map keeps_its_promise (f32_layout ∷ q4_0_layout ∷ q4_1_layout ∷ q8_0_layout ∷ q6_k_layout ∷ [])
    ≡ true ∷ true ∷ true ∷ true ∷ true ∷ []
unfolding keeps_its_promise cover mark stored_bytes format_layouts
layouts_keep = refl

q6_k_keeps : keeps_its_promise q6_k_layout ≡ true
unfolding keeps_its_promise cover mark stored_bytes format_layouts
q6_k_keeps = refl

keeps_its_promise-holders_example : holders q6_k_layout.streams 200 ≡ 1
keeps_its_promise-holders_example =
    keeps_its_promise-holders q6_k_layout q6_k_keeps 200 (omega arith)

abbrev only_f32 : TensorType → Option Format
only_f32 t = some (record { layout = f32_layout })

-- Two rows of 32 weights.
abbrev entry_at : List ℕ → ℕ → TensorEntry
entry_at n o = record {
  name = n;
  type = f32;
  dimension_count = 2;
  dimensions = 32 ∷ 2 ∷ 1 ∷ 1 ∷ [];
  element_count = 64;
  data_offset = o;
  data_length = 256;
}

abbrev two_tensors : TensorIndex
two_tensors = record {
  tensors = entry_at (b'a' ∷ []) 256 ∷ entry_at (b'b' ∷ []) 0 ∷ [];
  metadata = [];
}

abbrev view_of : List WeightPiece → WeightView
view_of ps = record {
  format = f32;
  shape = record { dimension_count = 2; dimensions = 32 ∷ 2 ∷ 1 ∷ 1 ∷ []; element_count = 64 };
  pieces = ps;
}

abbrev first_pieces : List WeightPiece
first_pieces =
    record { buffer = 0; offset = 0; length = 128; first_row = 0; row_count = 1 }
    ∷ record { buffer = 0; offset = 128; length = 128; first_row = 1; row_count = 1 }
    ∷ []

abbrev second_pieces : List WeightPiece
second_pieces = record { buffer = 1; offset = 0; length = 256; first_row = 0; row_count = 2 } ∷ []

abbrev first_tensor : PlannedTensor
first_tensor = record { tensor = 0; view = view_of first_pieces; candidate_duplicate_of = none }

abbrev second_tensor : PlannedTensor
second_tensor = record { tensor = 1; view = view_of second_pieces; candidate_duplicate_of = some 0 }

abbrev small_plan : ResidencyPlan
small_plan = record empty_plan {
  buffers =
      record { pool = Pool.weights; size = 256 } ∷ record { pool = Pool.weights; size = 256 } ∷ [];
  tensors = first_tensor ∷ second_tensor ∷ [];
  weight_bytes = 512;
  total_bytes = 512;
}

abbrev route_at : ℕ → ℕ → Route
route_at from to = record {
  tensor = 0;
  file_offset = from;
  blocks = 32;
  layout = f32_layout;
  buffer = 0;
  buffer_offset = to;
  length = 128;
}

abbrev two_routes : List Route
two_routes = route_at 256 0 ∷ route_at 384 128 ∷ []

abbrev carried_plan : ResidencyPlan
carried_plan = record small_plan {
  buffers =
      record { pool = Pool.weights; size = 256 } ∷ record { pool = Pool.weights; size = 0 } ∷ [];
  tensors = first_tensor ∷ record second_tensor { view = view_of first_pieces } ∷ [];
  weight_bytes = 256;
  total_bytes = 256;
}

abbrev shared_out : Found
shared_out = record { found = two_routes; carried = carried_plan }

copy_shared : plan_routes two_tensors small_plan 512 only_f32 (1 ∷ []) ≡ carried_out shared_out
unfolding plan_routes route_all route_tensor route_pieces route_piece is_inside rows_of free_pieces
    free_piece refused_id planned planned_in contains checked_mul range_within sort insert
copy_shared = refl

plan_routes-IsDue_example :
    All (λ r. IsRoute 512 small_plan.buffers r × (contains (1 ∷ []) r.tensor ≡ false)) two_routes
    × AllPairs (λ a b. a.file_offset ≤ b.file_offset) two_routes
plan_routes-IsDue_example =
    plan_routes-IsDue two_tensors small_plan 512 only_f32 (1 ∷ []) shared_out (omega arith)
      (omega arith) copy_shared

small_plan-IsTotalled : IsTotalled small_plan
small_plan-IsTotalled = record { fits = omega arith; sum = refl }

plan_routes-IsTotalled_example :
    IsTotalled carried_plan
    × (carried_plan.tensors ≡ map (shared small_plan (1 ∷ [])) small_plan.tensors)
plan_routes-IsTotalled_example =
    plan_routes-IsTotalled two_tensors small_plan 512 only_f32 (1 ∷ []) shared_out
      small_plan-IsTotalled copy_shared

zero_not-IsConfirmable : ¬ All (IsConfirmable two_tensors.tensors small_plan) (0 ∷ [])
unfolding planned planned_in
zero_not-IsConfirmable h = cc (h.0.candidate)

plan_routes-refuses_example :
    (subject : RouteSubject) × (plan_routes two_tensors small_plan 512 only_f32 (0 ∷ [])
      ≡ failure not_a_candidate subject)
plan_routes-refuses_example =
    plan_routes-refuses two_tensors small_plan 512 only_f32 (0 ∷ []) zero_not-IsConfirmable

first_routed :
    route_tensor 512 only_f32 small_plan (entry_at (b'a' ∷ []) 256) first_tensor []
    ≡ carried_out two_routes
unfolding route_tensor route_pieces route_piece is_inside rows_of checked_mul range_within
first_routed = refl

route_tensor-IsRouted_example :
    (new : List Route) × (two_routes ≡ [] ++ new)
    × IsRouted 512 only_f32 small_plan (entry_at (b'a' ∷ []) 256) first_tensor new
route_tensor-IsRouted_example =
    route_tensor-IsRouted 512 only_f32 small_plan (omega arith) (entry_at (b'a' ∷ []) 256)
      first_tensor [] two_routes (omega arith) first_routed
