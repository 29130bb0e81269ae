-- ===== src/Gguf/Reader/Arrays.antt =====
-- Metadata values, src/core/gguf/reader.cpp: where `take_array` says that an array's elements lie.
use browser_llm.Base.{ℕ, ◌+◌, ◌-◌, ◌*◌, ◌^◌, ◌<◌, ◌≤◌, ◌≡◌, not, arith, ltb, ltb→le}
use browser_llm.Base.Words.{IsU64, sub64}
use browser_llm.Gguf.Checked.{checked_mul, checked_mul-some}
use browser_llm.Gguf.Types.{
  ValueType, value_type, ArrayLocation, MetadataValue, array_at, max_array_length, offset_overflow,
  unsigned, signed, single_bits, double_bits, flag, text,
}
use browser_llm.Gguf.Source.{ByteSource, IsByteSource}
use browser_llm.Gguf.Action.{Reader, and_then}
use browser_llm.Gguf.Action.Rules.{returns, Ensures-mono}
use browser_llm.Gguf.Reader.{
  require, skip, skip_elements, take_array, take_value, scalar_size, known_value_type, is_array,
  scalar_value,
}
use browser_llm.Gguf.Reader.Bounds.{
  Moves-refl, Post, bind-Post, refuse-Post, require-Post, take_uint-Post, take_string-Post,
  skip-Post, skip_strings-Post,
}

-- `count` elements lie from `start` to `stop`: scalars fill the range, and each string has its length prefix.
abbrev pub IsSpan : ValueType → ℕ → ℕ → ℕ → Type 0
IsSpan ValueType.string count start stop = start + 8 * count ≤ stop
IsSpan type count start stop = stop ≡ start + count * scalar_size type

-- An array that the reader located: its range is inside the file and holds its elements.
pub record IsLocated (size : ℕ) (a : ArrayLocation) : Type 0 where
  pub bounded : a.element_count ≤ max_array_length
  pub inside : a.bytes.offset + a.bytes.length ≤ size
  pub spans : IsSpan a.element_type a.element_count a.bytes.offset (a.bytes.offset + a.bytes.length)

-- A located array, or an integer of 64 bits.
abbrev pub IsValue : ℕ → MetadataValue → Type 0
IsValue size (array_at a) = IsLocated size a
IsValue size (unsigned n) = IsU64 n
IsValue size _ = Unit

-- The value is the alternative that its type stands for, a number as wide as the type.
abbrev pub IsTyped : ValueType → MetadataValue → Type 0
IsTyped ValueType.uint8 (unsigned n) = n < 2 ^ 8
IsTyped ValueType.uint16 (unsigned n) = n < 2 ^ 16
IsTyped ValueType.uint32 (unsigned n) = n < 2 ^ 32
IsTyped ValueType.uint64 (unsigned n) = n < 2 ^ 64
IsTyped ValueType.int8 (signed z) = Unit
IsTyped ValueType.int16 (signed z) = Unit
IsTyped ValueType.int32 (signed z) = Unit
IsTyped ValueType.int64 (signed z) = Unit
IsTyped ValueType.float32 (single_bits n) = n < 2 ^ 32
IsTyped ValueType.float64 (double_bits n) = n < 2 ^ 64
IsTyped ValueType.bool (flag b) = Unit
IsTyped ValueType.string (text s) = Unit
IsTyped ValueType.array (array_at a) = Unit
IsTyped _ _ = ⊥

module _ {held : ℕ} {source : ByteSource} (v : IsByteSource held source) where
  skip_scalars-Post :
      (size count : ℕ) (r : Reader)
      → IsU64 size
      → r.cursor ≤ source.size
      → Post v r
          (λ _ s. s.cursor ≡ r.cursor + count * size)
          (and_then
            (require (checked_mul count size) offset_overflow r)
            (λ total. skip source total))
  skip_scalars-Post size count r hs h =
      require-Post v (checked_mul count size) _ (λ e. cc)
        λ total e.
          let (t, fits) = checked_mul-some count size total hs e in
          Ensures-mono (skip-Post v total r (omega arith) h) λ _ s z. (z.0, omega (arith, z.1))

  skip_elements-Post :
      (type : ValueType) (count : ℕ) (r : Reader)
      → r.cursor ≤ source.size
      → Post v r (λ _ s. IsSpan type count r.cursor s.cursor) (skip_elements source type count r)
  unfolding skip_elements scalar_size
  skip_elements-Post ValueType.string count r h = skip_strings-Post v count r h
  skip_elements-Post type count r h = skip_scalars-Post (scalar_size type) count r (omega arith) h

  -- From a cursor inside the file, take_array on a byte source moves the cursor forward within the
  -- file, and either locates an array of bounded count whose range is inside the file and spans its
  -- elements, or fails; a request for more bytes names more than is held and no more than the file.
  pub take_array-Post :
      (r : Reader) → Post v r (λ a s. IsLocated source.size a) (take_array source r)
  unfolding take_array and_then
  take_array-Post r = bind-Post v _ (take_uint-Post v 4 r (omega arith)) λ raw s m q.
      refuse-Post v (not (known_value_type raw)) _ (λ e. cc)
        λ known.
          refuse-Post v (is_array (value_type raw)) _ (λ e. cc)
            λ flat. bind-Post v _ (take_uint-Post v 8 s (omega arith)) λ count t n p.
              refuse-Post v (ltb max_array_length count) _ (λ e. cc)
                λ few.
                  bind-Post v _ (skip_elements-Post (value_type raw) count t n.inside) λ _ u o span.
                    let length_eq : sub64 u.cursor t.cursor ≡ u.cursor - t.cursor =
                      omega (arith, o.forward, o.inside, v.size_fits) in
                    let back : t.cursor + sub64 u.cursor t.cursor ≡ u.cursor =
                      omega (arith, o.forward) in
                    returns (
                      Moves-refl u o.inside,
                      record {
                        bounded = ltb→le max_array_length count few;
                        inside = omega (arith, o.inside);
                        spans = rw back span;
                      },
                    )

  pub take_value-Post :
      (type : ValueType) (r : Reader)
      → Post v r
          (λ value s. IsValue source.size value × IsTyped type value)
          (take_value source type r)
  unfolding take_value and_then scalar_value scalar_size
  take_value-Post ValueType.string r =
      bind-Post v _ (take_string-Post v r) λ s t m q. returns (Moves-refl t m.inside, (tt, tt))
  take_value-Post ValueType.array r =
      bind-Post v _ (take_array-Post r) λ a t m q. returns (Moves-refl t m.inside, (q, tt))
  take_value-Post type r =
      bind-Post v _ (take_uint-Post v (scalar_size type) r (omega arith))
        λ n t m q. returns (Moves-refl t m.inside, (omega (arith, q.0), omega (arith, q.0)))
