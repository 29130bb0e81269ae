-- ===== src/Gguf/Parse/Blocks.antt =====
-- The parts of `parse` in src/core/gguf/reader.cpp: `take_metadata`, `take_tensors` and
-- `place_tensor_data`.
use native.Mathlib.Nat.{mod-lt}
use browser_llm.Base.{
  ℕ, ◌+◌, ◌%◌, ◌≤◌, ◌<◌, ◌≡◌, ◌≢◌, refl, Bool, true, false, Option, none, some, List, [], ◌∷◌, map,
  arith, ltb, ltb→le, All, length,
}
use browser_llm.Base.Words.{IsU64, sub64}
use browser_llm.Gguf.Checked.{checked_add, checked_add-some}
use browser_llm.Gguf.Types.{ReadError, need_more_bytes, TensorEntry}
use browser_llm.Gguf.Source.{ByteSource, IsByteSource}
use browser_llm.Gguf.Sorting.Laws.{AllPairs}
use browser_llm.Gguf.Action.{Reader, Action, and_then, refuse}
use browser_llm.Gguf.Action.Rules.{returns, fails, Ensures-bind, Ensures-refuse}
use browser_llm.Gguf.Reader.{require}
use browser_llm.Gguf.Parse.{
  range_of, has_overlap, has_duplicate, place_tensor_data, padding, take_metadata, take_tensors,
  keys_of, names_of,
}
use browser_llm.Gguf.Parse.Names.{has_duplicate_iff}
use browser_llm.Gguf.Parse.Placement.{Ends, Apart, has_overlap-Apart}
use browser_llm.Gguf.Parse.Parts.{
  IsKeyed, shift, IsPlaced, IsTaken, Grows, take_entries-Post, take_each_tensor-Post,
  place_each-Post, padding_aligns,
}

padding_fits : (cursor a : ℕ) → 0 < a → IsU64 a → IsU64 (padding cursor a)
padding_fits cursor a p k = omega (arith, mod-lt (sub64 a (cursor % a)) p)

module _ (size alignment : ℕ) where
  ends :
      (ts : List TensorEntry) → All (IsPlaced size alignment) ts → All (Ends size) (map range_of ts)
  unfolding range_of
  ends [] h = tt
  ends (t ∷ ts) h = (h.0.2, ends ts h.1)

module _ {held : ℕ} {source : ByteSource} (v : IsByteSource held source) where
  pub refuse-Grows :
      {A : Type 0} {Q : A → Reader → Type 0} (b : Bool) {x : ReadError} (f : Unit {0} → Action A)
      (r : Reader)
      → x ≢ need_more_bytes
      → (b ≡ false → Grows v Q (f tt r))
      → Grows v Q (and_then (refuse b x r) f)
  refuse-Grows b {x} f r h k = Ensures-refuse b x f r (λ _ e. absurd (h e)) k

  -- A refusal that ends an action.
  refuse_last-Grows :
      {Q : Unit {0} → Reader → Type 0} (b : Bool) (x : ReadError) (r : Reader)
      → x ≢ need_more_bytes
      → (b ≡ false → (r.cursor ≤ source.size) × Q tt r)
      → Grows v Q (refuse b x r)
  refuse_last-Grows true x r h k = fails (λ e. absurd (h e))
  refuse_last-Grows false x r h k = returns (k refl)

  pub require-Grows :
      {A B : Type 0} {Q : B → Reader → Type 0} (a : Option A) {x : ReadError} (f : A → Action B)
      (r : Reader)
      → x ≢ need_more_bytes
      → ((b : A) → a ≡ some b → Grows v Q (f b r))
      → Grows v Q (and_then (require a x r) f)
  unfolding and_then
  require-Grows (some a) f r h k = k a refl
  require-Grows none f r h k = fails (λ e. absurd (h e))

  -- The tensors that are kept: each placed, and no two sharing a byte.
  abbrev pub IsDone : ℕ → Reader → Type 0
  IsDone alignment s =
      All (IsPlaced source.size alignment) s.tensors × AllPairs Apart (map range_of s.tensors)

  pub place_tensor_data-Post :
      (alignment : ℕ) (r : Reader)
      → r.cursor ≤ source.size
      → 0 < alignment
      → IsU64 alignment
      → All IsTaken r.tensors
      → Grows v
          (λ _ s.
            IsDone alignment s
            × ((start : ℕ) × (s.tensors ≡ map (shift start) r.tensors))
            × (s.metadata ≡ r.metadata))
          (place_tensor_data source alignment r)
  unfolding place_tensor_data and_then
  place_tensor_data-Post alignment r h p k w =
      require-Grows (checked_add r.cursor (padding r.cursor alignment)) _ r (λ e. cc)
        λ start e.
          refuse-Grows (ltb source.size start) _ r (λ e. cc)
            λ within.
              let fits : IsU64 r.cursor = omega (arith, v.size_fits) in
              let (sum, _) =
                checked_add-some r.cursor (padding r.cursor alignment) start fits
                  (padding_fits r.cursor alignment p k) e in
              let aligned : start % alignment ≡ 0 =
                rw sum (padding_aligns r.cursor alignment fits p k) in
              let low : start ≤ source.size = ltb→le source.size start within in
              Ensures-bind _ (place_each-Post v alignment start r.tensors r h low aligned w)
                λ placed s q.
                  refuse_last-Grows (has_overlap placed) _ _ (λ e. cc)
                    λ clear. (
                      q.0.inside,
                      (
                        (
                          q.1.1,
                          has_overlap-Apart source.size v.size_fits placed
                              (ends source.size alignment placed q.1.1) clear,
                        ),
                        (start, q.1.0),
                        q.0.same_metadata,
                      ),
                    )

  pub take_metadata-Post :
      (count : ℕ) (r : Reader)
      → r.cursor ≤ source.size
      → All (IsKeyed source.size) r.metadata
      → Grows v
          (λ _ s.
            All (IsKeyed source.size) s.metadata
            × AllPairs (λ x y. x ≢ y) (keys_of s.metadata)
            × (s.tensors ≡ r.tensors))
          (take_metadata source count r)
  unfolding take_metadata and_then
  take_metadata-Post count r h w = Ensures-bind _ (take_entries-Post v count r h w) λ _ s q.
      refuse_last-Grows (has_duplicate (keys_of s.metadata)) _ s (λ e. cc)
        λ fresh. (q.0, (q.1.0, (has_duplicate_iff (keys_of s.metadata)).0 fresh, q.1.1))

  pub take_tensors-Post :
      (count : ℕ) (r : Reader)
      → r.cursor ≤ source.size
      → All IsTaken r.tensors
      → Grows v
          (λ _ s.
            All IsTaken s.tensors
            × AllPairs (λ x y. x ≢ y) (names_of s.tensors)
            × (s.metadata ≡ r.metadata)
            × (length s.tensors ≡ length r.tensors + count))
          (take_tensors source count r)
  unfolding take_tensors and_then
  take_tensors-Post count r h w = Ensures-bind _ (take_each_tensor-Post v count r h w) λ _ s q.
      refuse_last-Grows (has_duplicate (names_of s.tensors)) _ s (λ e. cc)
        λ fresh. (q.0, (q.1.0, (has_duplicate_iff (names_of s.tensors)).0 fresh, q.1.1, q.1.2))
