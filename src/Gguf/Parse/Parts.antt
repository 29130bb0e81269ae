-- ===== src/Gguf/Parse/Parts.antt =====
-- The loops of src/core/gguf/reader.cpp over metadata and tensors: `take_entries`, `take_each_tensor`,
-- `place_each`, each with what its elements then satisfy.
use native.Mathlib.Nat.{
  mod-lt, add-mod, mod_self, zero-mod, mod-eq_of_lt, div-add-mod, mul-mod_right, add-zero,
}
use browser_llm.Base.{
  ℕ, zero, suc, ◌+◌, ◌-◌, ◌*◌, ◌/◌, ◌%◌, ◌≤◌, ◌<◌, ◌≡◌, ◌≢◌, refl, ap, ◌∙◌, not, List, [], ◌∷◌,
  ◌++◌, map, arith, ◌==◌, All, All-append, length, length-append,
}
use native.Mathlib.Decide.{ℕ_discrete}
use browser_llm.Base.Words.{IsU64, sub64}
use browser_llm.Gguf.Checked.{checked_add, checked_add-some, range_within, range_within_iff}
use browser_llm.Gguf.Types.{TensorEntry, MetadataEntry, value_type}
use browser_llm.Gguf.Source.{ByteSource, IsByteSource}
use browser_llm.Gguf.Action.{Reader, Outcome, and_then}
use browser_llm.Gguf.Action.Rules.{Ensures, returns, Ensures-bind, Ensures-mono}
use browser_llm.Gguf.Reader.{known_value_type}
use browser_llm.Gguf.Reader.Bounds.{
  Moves-refl, Missing, Post, bind-Post, refuse-Post, require-Post, take_uint-Post, take_string-Post,
}
use browser_llm.Gguf.Reader.Arrays.{IsValue, IsTyped, take_value-Post}
use browser_llm.Gguf.Parse.{
  place_each, padding, take_entry, take_entries, take_each_tensor, is_empty,
}
use browser_llm.Gguf.Parse.Entries.{IsEntry, take_tensor-Post}

-- A metadata entry with a key, whose value is inside the file and of the alternative for its type.
abbrev pub IsKeyed : ℕ → MetadataEntry → Type 0
IsKeyed size e = (e.key ≢ []) × IsValue size e.value × IsTyped e.type e.value

abbrev pub shift : ℕ → TensorEntry → TensorEntry
shift start t = record t { data_offset = start + t.data_offset }

-- The entry's offset is in step with the alignment, and its bytes are inside the file.
abbrev pub IsPlaced : ℕ → ℕ → TensorEntry → Type 0
IsPlaced size alignment t =
    IsEntry t × (t.data_offset % alignment ≡ 0) × (t.data_offset + t.data_length ≤ size)

no_padding : (cursor a : ℕ) → cursor % a ≡ 0 → IsU64 a → padding cursor a ≡ 0
no_padding cursor a e k = ap (λ (t : ℕ). t % a) (omega_sub a (cursor % a) e k) ∙ mod_self a
  where
    omega_sub : (a r : ℕ) → r ≡ 0 → IsU64 a → sub64 a r ≡ a
    omega_sub a r e k = omega arith

some_padding : (a r : ℕ) → 0 < r → r < a → IsU64 a → sub64 a r % a ≡ a - r
some_padding a r e l k = ap (λ (t : ℕ). t % a) (plain a r l k) ∙ mod-eq_of_lt (omega arith)
  where
    plain : (a r : ℕ) → r < a → IsU64 a → sub64 a r ≡ a - r
    plain a r l k = omega arith

next_multiple :
    (cursor a : ℕ)
    → cursor % a ≢ 0
    → 0 < a
    → IsU64 a
    → cursor + padding cursor a ≡ a * (cursor / a + 1)
next_multiple cursor a e p k = omega (
  arith,
  some_padding a (cursor % a) (omega arith) (mod-lt cursor p) k,
  mod-lt cursor p,
  div-add-mod cursor a,
)

pub padding_aligns :
    (cursor a : ℕ) → IsU64 cursor → 0 < a → IsU64 a → (cursor + padding cursor a) % a ≡ 0
padding_aligns cursor a h p k = elim (ℕ_discrete (cursor % a) 0) [
  | yes e ↦ omega (
    arith,
    ap (λ (t : ℕ). (cursor + t) % a) (no_padding cursor a e k),
    ap (λ (t : ℕ). t % a) (add-zero cursor),
  )
  | no e ↦ ap (λ (t : ℕ). t % a) (next_multiple cursor a e p k) ∙ mul-mod_right a (cursor / a + 1)
]

in_step : (start offset a : ℕ) → start % a ≡ 0 → offset % a ≡ 0 → (start + offset) % a ≡ 0
in_step start offset a h k = omega (
  arith,
  add-mod start offset a,
  ap (λ (t : ℕ). (t + offset % a) % a) h,
  ap (λ (t : ℕ). (0 + t) % a) k,
  zero-mod a,
)

moved-IsEntry : (t : TensorEntry) (x : ℕ) → IsEntry t → IsEntry (record t { data_offset = x })
moved-IsEntry t x w = record {
  name_fits = w.name_fits;
  few_dimensions = w.few_dimensions;
  shape = w.shape;
  layout = w.layout;
  defined = w.defined;
  whole_rows = w.whole_rows;
  sized = w.sized;
  length_fits = w.length_fits;
}

-- An entry as `take_tensor` leaves it: its offset still counts from the start of the tensor data.
abbrev pub IsTaken : TensorEntry → Type 0
IsTaken t = IsEntry t × IsU64 t.data_offset

module _ {held : ℕ} {source : ByteSource} (v : IsByteSource held source) where
  take_entry-Post : (r : Reader) → Post v r (λ e s. IsKeyed source.size e) (take_entry source r)
  unfolding take_entry and_then
  take_entry-Post r = bind-Post v _ (take_string-Post v r) λ key s m q.
      refuse-Post v (is_empty key) _ (λ e. cc)
        λ full. bind-Post v _ (take_uint-Post v 4 s (omega arith)) λ raw t n p.
          refuse-Post v (not (known_value_type raw)) _ (λ e. cc)
            λ known.
              bind-Post v _ (take_value-Post v (value_type raw) t)
                λ value u o w. returns (Moves-refl u o.inside, (λ e. cc (ap is_empty e), w.0, w.1))

  -- An action that adds to the index: the cursor stays inside, and on an error only the request matters.
  abbrev pub Grows : {A : Type 0} → (A → Reader → Type 0) → Outcome A → Type 0
  Grows Q o = Ensures (Missing held source.size) (λ a s. (s.cursor ≤ source.size) × Q a s) o

  pub take_entries-Post :
      (left : ℕ) (r : Reader)
      → r.cursor ≤ source.size
      → All (IsKeyed source.size) r.metadata
      → Grows
          (λ _ s. All (IsKeyed source.size) s.metadata × (s.tensors ≡ r.tensors))
          (take_entries source left r)
  unfolding take_entries and_then
  take_entries-Post zero r h w = returns (h, (w, refl))
  take_entries-Post (suc left) r h w = Ensures-bind _ (take_entry-Post r) λ e s q.
      let kept : All (IsKeyed source.size) (s.metadata ++ (e ∷ [])) =
        All-append (IsKeyed source.size) s.metadata (e ∷ []) (rw q.0.same_metadata w) (q.1, tt) in
      Ensures-mono (take_entries-Post left _ q.0.inside kept)
        λ _ t z. (z.0, (z.1.0, z.1.1 ∙ q.0.same_tensors))

  pub take_each_tensor-Post :
      (left : ℕ) (r : Reader)
      → r.cursor ≤ source.size
      → All IsTaken r.tensors
      → Grows
          (λ _ s.
            All IsTaken s.tensors
            × (s.metadata ≡ r.metadata)
            × (length s.tensors ≡ length r.tensors + left))
          (take_each_tensor source left r)
  unfolding take_each_tensor and_then
  take_each_tensor-Post zero r h w = returns (h, (w, refl, omega arith))
  take_each_tensor-Post (suc left) r h w = Ensures-bind _ (take_tensor-Post v r) λ e s q.
      let kept : All IsTaken (s.tensors ++ (e ∷ [])) =
        All-append IsTaken s.tensors (e ∷ []) (rw q.0.same_tensors w) (q.1, tt) in
      Ensures-mono (take_each_tensor-Post left _ q.0.inside kept) λ _ t z. (
        z.0,
        (
          z.1.0,
          z.1.1 ∙ q.0.same_metadata,
          omega (arith, z.1.2, length-append s.tensors (e ∷ []), ap length q.0.same_tensors),
        ),
      )

  pub place_each-Post :
      (alignment start : ℕ) (ts : List TensorEntry) (r : Reader)
      → r.cursor ≤ source.size
      → start ≤ source.size
      → start % alignment ≡ 0
      → All IsTaken ts
      → Post v r
          (λ placed _.
            (placed ≡ map (shift start) ts) × All (IsPlaced source.size alignment) placed)
          (place_each source alignment start ts r)
  unfolding place_each and_then
  place_each-Post alignment start [] r h k a w = returns (Moves-refl r h, (refl, tt))
  place_each-Post alignment start (t ∷ ts) r h k a w =
      refuse-Post v (not (t.data_offset % alignment == 0)) _ (λ e. cc)
        λ even.
          require-Post v (checked_add start t.data_offset) _ (λ e. cc)
            λ absolute e.
              refuse-Post v (not (range_within absolute t.data_length source.size)) _ (λ e. cc)
                λ within.
                  bind-Post v _ (place_each-Post alignment start ts r h k a w.1) λ placed s m q.
                    let (sum, fits) =
                      checked_add-some start t.data_offset absolute (omega (arith, v.size_fits))
                        w.0.1 e in
                    let inside : absolute + t.data_length ≤ source.size =
                      (range_within_iff _ _ _).0 (ground arith) in
                    let stepped : absolute % alignment ≡ 0 =
                      rw sum (in_step start t.data_offset alignment a (ground arith)) in
                    returns (
                      Moves-refl s m.inside,
                      (
                        λ i. record t { data_offset = sum i } ∷ q.0 i,
                        ((moved-IsEntry t absolute w.0.0, stepped, inside), q.1),
                      ),
                    )
