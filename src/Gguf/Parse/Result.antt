-- ===== src/Gguf/Parse/Result.antt =====
-- What `read_index` of src/core/gguf/reader.cpp promises of an index that it accepts, and of a request
-- for more bytes.
use browser_llm.Base.{
  ℕ, suc, ◌≤◌, ◌<◌, ◌≡◌, ◌≢◌, refl, sym, ap, ◌∙◌, subst, not, some, List, [], ◌∷◌, map, arith, ltb,
  ltb→le, ◌==◌, All, Bool-cases, Option-cases, inl, inr, length,
}
use browser_llm.Base.Bits.{IsPow2, pow_pos}
use browser_llm.Base.Words.{IsU64}
use browser_llm.Gguf.Types.{
  need_more_bytes, bad_alignment, TensorEntry, MetadataEntry, TensorIndex, max_tensor_count,
  max_metadata_count, default_alignment, ValueType, MetadataValue, unsigned, magic,
  supported_version,
}
use browser_llm.Gguf.Source.{ByteSource, IsByteSource}
use browser_llm.Gguf.Sorting.Laws.{AllPairs}
use browser_llm.Gguf.Action.{Reader, reader_at, Outcome, ok, err, and_then}
use browser_llm.Gguf.Action.Rules.{Ensures-bind, Ensures-mono, Ensures-ok, Ensures-err}
use browser_llm.Gguf.Reader.{require}
use browser_llm.Gguf.Reader.Bounds.{Moves, Moves-trans, take-Post, take_uint-Post}
use browser_llm.Gguf.Reader.Arrays.{IsValue}
use browser_llm.Gguf.Parse.{
  declared_alignment, alignment_key, resolve_alignment, range_of, place_tensor_data, take_metadata,
  take_tensors, keys_of, names_of, parse, metadata_now, index_of, ReadResult, read, failed,
  read_index, text_eq,
}
use browser_llm.Gguf.Parse.Placement.{Apart, resolve_alignment-IsPow2}
use browser_llm.Gguf.Parse.Parts.{IsKeyed, shift, IsPlaced, IsTaken, Grows}
use browser_llm.Gguf.Parse.Blocks.{
  take_metadata-Post, take_tensors-Post, place_tensor_data-Post, refuse-Grows, require-Grows,
}

-- What an accepted index promises of a file of `size` bytes.
pub record IsIndex (size : ℕ) (index : TensorIndex) : Type 0 where
  pub alignment : ℕ
  pub chosen : resolve_alignment index.metadata default_alignment ≡ some alignment
  pub power_of_two : IsPow2 alignment
  pub placed : All (IsPlaced size alignment) index.tensors
  pub apart : AllPairs Apart (map range_of index.tensors)
  pub names_differ : AllPairs (λ x y. x ≢ y) (names_of index.tensors)
  pub keys_differ : AllPairs (λ x y. x ≢ y) (keys_of index.metadata)
  pub keyed : All (IsKeyed size) index.metadata
  pub few : length index.tensors ≤ max_tensor_count

names_of-shift : (start : ℕ) (ts : List TensorEntry) → names_of (map (shift start) ts) ≡ names_of ts
names_of-shift start [] = refl
names_of-shift start (t ∷ ts) = ap (λ (ns : List (List ℕ)). t.name ∷ ns) (names_of-shift start ts)

length-shift : (start : ℕ) (ts : List TensorEntry) → length (map (shift start) ts) ≡ length ts
length-shift start [] = refl
length-shift start (t ∷ ts) = ap suc (length-shift start ts)

declared_alignment-IsU64 :
    (size : ℕ) (type : ValueType) (value : MetadataValue) (a : ℕ)
    → IsValue size value
    → declared_alignment type value ≡ some a
    → IsU64 a
unfolding declared_alignment
declared_alignment-IsU64 size ValueType.uint32 (unsigned n) a h e = ground arith
declared_alignment-IsU64 size type value a h e = cc

resolve_alignment-IsU64 :
    (size : ℕ) (es : List MetadataEntry) (out a : ℕ)
    → IsU64 out
    → All (IsKeyed size) es
    → resolve_alignment es out ≡ some a
    → IsU64 a
unfolding resolve_alignment
resolve_alignment-IsU64 size [] out a h w e = ground arith
resolve_alignment-IsU64 size (x ∷ xs) out a h w e =
    elim (Bool-cases (text_eq x.key alignment_key)) [
      | inl hit ↦ elim (Option-cases (declared_alignment x.type x.value)) [
        | inl bad ↦ ground arith
        | inr (b, good) ↦
            resolve_alignment-IsU64 size xs b a
              (declared_alignment-IsU64 size x.type x.value b w.0.1 good) w.1 (ground arith)
      ]
      | inr miss ↦ resolve_alignment-IsU64 size xs out a h w.1 (ground arith)
    ]

pow2-pos : (a : ℕ) → IsPow2 a → 0 < a
unfolding IsPow2
pow2-pos a (k, e) = omega (arith, pow_pos k)

default-IsPow2 : IsPow2 default_alignment
unfolding IsPow2
default-IsPow2 = (5, refl)

read-injective : (i j : TensorIndex) → ◌≡◌ {A = ReadResult TensorIndex} (read i) (read j) → i ≡ j
read-injective i j e = cc

module _ {held : ℕ} {source : ByteSource} (v : IsByteSource held source) where
  -- The alignment is settled and the tensors are read: the last step places their data.
  placed-IsIndex :
      (a : ℕ) (r : Reader)
      → r.cursor ≤ source.size
      → All (IsKeyed source.size) r.metadata
      → AllPairs (λ x y. x ≢ y) (keys_of r.metadata)
      → resolve_alignment r.metadata default_alignment ≡ some a
      → All IsTaken r.tensors
      → AllPairs (λ x y. x ≢ y) (names_of r.tensors)
      → length r.tensors ≤ max_tensor_count
      → Grows v
          (λ _ s. IsIndex source.size (record { tensors = s.tensors; metadata = s.metadata }))
          (place_tensor_data source a r)
  placed-IsIndex a r h keyed keys chosen taken names few =
      let power = resolve_alignment-IsPow2 r.metadata default_alignment a default-IsPow2 chosen in
      let fits =
        resolve_alignment-IsU64 source.size r.metadata default_alignment a (omega arith) keyed
          chosen in
      Ensures-mono (place_tensor_data-Post v a r h (pow2-pos a power) fits taken) λ _ s q.
        let (start, moved) = q.1.1 in
        let same : names_of s.tensors ≡ names_of r.tensors =
          ap names_of moved ∙ names_of-shift start r.tensors in
        (
          q.0,
          record {
            alignment = a;
            chosen = ap (λ es. resolve_alignment es default_alignment) q.1.2 ∙ chosen;
            power_of_two = power;
            placed = q.1.0.0;
            apart = q.1.0.1;
            names_differ = subst (AllPairs (λ x y. x ≢ y)) (sym same) names;
            keys_differ = rw q.1.2 keys;
            keyed = rw q.1.2 keyed;
            few = omega (arith, ap length moved, length-shift start r.tensors);
          },
        )

  -- From the counts on.
  body-IsIndex :
      (tensor_count metadata_count : ℕ) (r : Reader)
      → Moves source.size (reader_at 0) r
      → tensor_count ≤ max_tensor_count
      → Grows v
          (λ _ s. IsIndex source.size (record { tensors = s.tensors; metadata = s.metadata }))
          (and_then (take_metadata source metadata_count r) λ _ r₁.
            and_then (metadata_now r₁) λ entries r₂.
              and_then
                (require (resolve_alignment entries default_alignment) bad_alignment r₂)
                λ a r₃.
                  and_then
                    (take_tensors source tensor_count r₃)
                    λ _ r₄. place_tensor_data source a r₄)
  unfolding and_then reader_at
  body-IsIndex tensor_count metadata_count r m few =
      let none_yet : All (IsKeyed source.size) r.metadata = rw m.same_metadata tt in
      Ensures-bind _ (take_metadata-Post v metadata_count r m.inside none_yet) λ _ r₁ q.
        require-Grows v (resolve_alignment r₁.metadata default_alignment) _ _ (λ e. cc)
          λ a chosen.
            let empty : r₁.tensors ≡ [] = q.1.2 ∙ m.same_tensors in
            let no_tensors : All IsTaken r₁.tensors = rw empty tt in
            Ensures-bind _ (take_tensors-Post v tensor_count r₁ q.0 no_tensors) λ _ r₂ p.
              placed-IsIndex a r₂ p.0 (rw p.1.2 q.1.0) (rw p.1.2 q.1.1)
                (ap (λ es. resolve_alignment es default_alignment) p.1.2 ∙ chosen) p.1.0 p.1.1
                (omega (arith, p.1.3, ap length empty))

  parse-Post :
      Grows v
        (λ _ s. IsIndex source.size (record { tensors = s.tensors; metadata = s.metadata }))
        (parse source (reader_at 0))
  unfolding parse and_then
  parse-Post = Ensures-bind _ (take-Post v 4 (reader_at 0)) λ head r₁ q₁.
      refuse-Grows v (not (text_eq head magic)) _ _ (λ e. cc)
        λ _. Ensures-bind _ (take_uint-Post v 4 r₁ (omega arith)) λ version r₂ q₂.
          refuse-Grows v (not (version == supported_version)) _ _ (λ e. cc)
            λ _. Ensures-bind _ (take_uint-Post v 8 r₂ (omega arith)) λ tensor_count r₃ q₃.
              Ensures-bind _ (take_uint-Post v 8 r₃ (omega arith)) λ metadata_count r₄ q₄.
                refuse-Grows v (ltb max_tensor_count tensor_count) _ _ (λ e. cc)
                  λ few.
                    refuse-Grows v (ltb max_metadata_count metadata_count) _ _ (λ e. cc)
                      λ _.
                        body-IsIndex tensor_count metadata_count r₄
                          (Moves-trans (Moves-trans q₁.0 q₂.0) (Moves-trans q₃.0 q₄.0))
                          (ltb→le max_tensor_count tensor_count few)

  accepted :
      (o : Outcome (Unit {0})) (index : TensorIndex)
      → Grows v
          (λ _ s. IsIndex source.size (record { tensors = s.tensors; metadata = s.metadata }))
          o
      → index_of o ≡ read index
      → IsIndex source.size index
  accepted (ok _ r) index g e =
      subst (IsIndex source.size) (read-injective _ index e) (Ensures-ok g refl).1
  accepted (err x r) index g e = cc

  requested :
      (o : Outcome (Unit {0})) (n : ℕ)
      → Grows v
          (λ _ s. IsIndex source.size (record { tensors = s.tensors; metadata = s.metadata }))
          o
      → index_of o ≡ failed need_more_bytes n
      → (n ≤ source.size) × (held < n)
  requested (ok _ r) n g e = cc
  requested (err x r) n g e =
      let p = Ensures-err g refl (ground arith) in (ground arith, ground arith)

  -- An index that read_index accepts describes the file: every tensor has a defined format, whole
  -- blocks in each row, the byte length of its blocks, an offset in step with the alignment and a
  -- range inside the file; no two tensors share a byte or a name; no two entries share a key and no
  -- key is empty; every value is of the alternative of its type, and every array lies inside the
  -- file; the alignment is the power of two that the metadata declares, or the default one.
  pub read_index_sound :
      (index : TensorIndex) → read_index source ≡ read index → IsIndex source.size index
  unfolding read_index
  read_index_sound index e = accepted (parse source (reader_at 0)) index parse-Post e

  -- When read_index asks for more bytes, the number that it asks for is larger than what the source
  -- holds and no larger than the file, so that supplying it makes progress.
  pub read_index_progress :
      (n : ℕ) → read_index source ≡ failed need_more_bytes n → (n ≤ source.size) × (held < n)
  unfolding read_index
  read_index_progress n e = requested (parse source (reader_at 0)) n parse-Post e
