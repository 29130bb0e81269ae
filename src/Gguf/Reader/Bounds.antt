-- ===== src/Gguf/Reader/Bounds.antt =====
-- The member functions of class Reader, src/core/gguf/reader.cpp, up to one metadata value: the cursor
-- never leaves the file, and a request for more bytes names bytes of the file that are not held.
use native.Mathlib.Nat.{le_refl}
use browser_llm.Base.{
  ℕ, zero, suc, ◌+◌, ◌*◌, ◌^◌, ◌≤◌, ◌<◌, ◌≡◌, ◌≢◌, refl, ◌∙◌, subst, inl, inr, Bool, false, not,
  Option, none, some, arith, ltb, length, All, Bool-cases,
}
use browser_llm.Base.Words.{IsU64, IsByte, add64}
use browser_llm.Gguf.Checked.{range_within, range_within_iff}
use browser_llm.Gguf.Types.{ReadError, need_more_bytes, max_string_length}
use browser_llm.Gguf.Source.{
  ByteSource, IsByteSource, ReadOutcome, bytes, outside_file, not_resident,
}
use browser_llm.Gguf.Action.{Reader, Outcome, Action, and_then, refuse}
use browser_llm.Gguf.Action.Rules.{
  Ensures, returns, fails, Ensures-bind, Ensures-refuse, Ensures-mono,
}
use browser_llm.Gguf.Reader.{
  le, require, take, took, take_uint, take_string, skip, skip_string, skip_strings, take_string_at,
}
use browser_llm.Gguf.Reader.Values.{le-lt}

-- From `r` to `s` the cursor went forward inside the file, and nothing was added to the index.
pub record Moves (size : ℕ) (r s : Reader) : Type 0 where
  pub forward : r.cursor ≤ s.cursor
  pub inside : s.cursor ≤ size
  pub same_tensors : s.tensors ≡ r.tensors
  pub same_metadata : s.metadata ≡ r.metadata

pub Moves-trans : {size : ℕ} {r s t : Reader} → Moves size r s → Moves size s t → Moves size r t
Moves-trans m n = record {
  forward = omega (arith, m.forward, n.forward);
  inside = n.inside;
  same_tensors = n.same_tensors ∙ m.same_tensors;
  same_metadata = n.same_metadata ∙ m.same_metadata;
}

pub Moves-refl : {size : ℕ} (r : Reader) → r.cursor ≤ size → Moves size r r
Moves-refl r h = record {
  forward = le_refl r.cursor;
  inside = h;
  same_tensors = refl;
  same_metadata = refl;
}

-- An error that asks for more bytes asks for bytes of the file beyond those held.
abbrev pub Missing : ℕ → ℕ → ReadError → Reader → Type 0
Missing held size e r = e ≡ need_more_bytes → (r.bytes_needed ≤ size) × (held < r.bytes_needed)

module _ {held : ℕ} {source : ByteSource} (v : IsByteSource held source) where
  abbrev pub Post : {A : Type 0} → Reader → (A → Reader → Type 0) → Outcome A → Type 0
  Post r Q o = Ensures (Missing held source.size) (λ a s. Moves source.size r s × Q a s) o

  took-Post :
      (count : ℕ) (r : Reader) (o : ReadOutcome)
      → source.read r.cursor count ≡ o
      → Post r
          (λ bs s. (length bs ≡ count) × All IsByte bs × (s.cursor ≡ r.cursor + count))
          (took o count r)
  unfolding took
  took-Post count r (bytes bs) e =
      let (h, n, all) = v.read_bytes r.cursor count bs e in
      let sum : add64 r.cursor count ≡ r.cursor + count = omega (arith, v.size_fits) in
      returns (
        record {
          forward = omega arith;
          inside = omega arith;
          same_tensors = refl;
          same_metadata = refl;
        },
        (n, all, sum),
      )
  took-Post count r outside_file e = fails (λ q. cc)
  took-Post count r not_resident e =
      let (h, k) = v.read_missing r.cursor count e in
      let sum : add64 r.cursor count ≡ r.cursor + count = omega (arith, v.size_fits) in
      fails (λ q. (omega arith, omega arith))

  pub take-Post :
      (count : ℕ) (r : Reader)
      → Post r
          (λ bs s. (length bs ≡ count) × All IsByte bs × (s.cursor ≡ r.cursor + count))
          (take source count r)
  unfolding take
  take-Post count r = took-Post count r (source.read r.cursor count) refl

  pub take_uint-Post :
      (count : ℕ) (r : Reader)
      → count ≤ 8
      → Post r (λ n s. (n < 256 ^ count) × (s.cursor ≡ r.cursor + count)) (take_uint source count r)
  unfolding take_uint
  take_uint-Post count r h = Ensures-bind _ (take-Post count r) (λ bs s q.
      returns
        (q.0, (subst (λ k. le bs < 256 ^ k) q.1.0 (le-lt bs q.1.1 (omega (arith, q.1.0))), q.1.2)))

  pub bind-Post :
      {A B : Type 0} {P : A → Reader → Type 0} {Q : B → Reader → Type 0} {r : Reader}
      {o : Outcome A} (f : A → Action B)
      → Post r P o
      → ((a : A) (s : Reader) → Moves source.size r s → P a s → Post s Q (f a s))
      → Post r Q (and_then o f)
  bind-Post f p k =
      Ensures-bind f p (λ a s q. Ensures-mono (k a s q.0 q.1) (λ b t z. (Moves-trans q.0 z.0, z.1)))

  pub refuse-Post :
      {A : Type 0} {Q : A → Reader → Type 0} {r : Reader} (b : Bool) {x : ReadError}
      (f : Unit {0} → Action A)
      → x ≢ need_more_bytes
      → (b ≡ false → Post r Q (f tt r))
      → Post r Q (and_then (refuse b x r) f)
  refuse-Post {r} b {x} f h k = Ensures-refuse b x f r (λ _ e. absurd (h e)) k

  pub require-Post :
      {A B : Type 0} {Q : B → Reader → Type 0} {r : Reader} (a : Option A) {x : ReadError}
      (f : A → Action B)
      → x ≢ need_more_bytes
      → ((b : A) → a ≡ some b → Post r Q (f b r))
      → Post r Q (and_then (require a x r) f)
  unfolding and_then
  require-Post (some a) f h k = k a refl
  require-Post none f h k = fails (λ e. absurd (h e))

  pub take_string-Post :
      (r : Reader)
      → Post r
          (λ s t.
            (length s ≤ max_string_length) × All IsByte s × (r.cursor + 8 + length s ≡ t.cursor))
          (take_string source r)
  unfolding take_string and_then
  take_string-Post r = bind-Post _ (take_uint-Post 8 r (omega arith)) λ count s m q.
      refuse-Post (ltb max_string_length count) _ (λ e. cc)
        λ short.
          refuse-Post (not (range_within s.cursor count source.size)) _ (λ e. cc)
            λ fits.
              Ensures-mono (take-Post count s)
                λ bs t z. (z.0, (ground (arith, z.1.0), z.1.1, omega (arith, z.1.0, z.1.2, q.1)))

  pub skip-Post :
      (count : ℕ) (r : Reader)
      → IsU64 count
      → r.cursor ≤ source.size
      → Post r (λ _ s. s.cursor ≡ r.cursor + count) (skip source count r)
  unfolding skip
  skip-Post count r h k = elim (Bool-cases (range_within r.cursor count source.size)) [
    | inl fits ↦
        let inside : r.cursor + count ≤ source.size = (range_within_iff _ _ _).0 fits in
        let sum : add64 r.cursor count ≡ r.cursor + count = omega (arith, v.size_fits) in
        rw fits (
          returns (
            record {
              forward = omega arith;
              inside = omega arith;
              same_tensors = refl;
              same_metadata = refl;
            },
            sum,
          ))
    | inr out ↦ rw out (fails (λ q. cc))
  ]

  pub skip_string-Post :
      (r : Reader) → Post r (λ _ s. r.cursor + 8 ≤ s.cursor) (skip_string source r)
  unfolding skip_string
  skip_string-Post r = bind-Post _ (take_uint-Post 8 r (omega arith)) λ count s m q.
      refuse-Post (ltb max_string_length count) _ (λ e. cc)
        λ short.
          Ensures-mono (skip-Post count s (omega (arith, q.0)) m.inside)
            λ _ t z. (z.0, omega (arith, z.1, q.1))

  -- Each string costs its length prefix at least.
  pub skip_strings-Post :
      (count : ℕ) (r : Reader)
      → r.cursor ≤ source.size
      → Post r (λ _ s. r.cursor + 8 * count ≤ s.cursor) (skip_strings source count r)
  unfolding skip_strings
  skip_strings-Post zero r h = returns (Moves-refl r h, omega arith)
  skip_strings-Post (suc left) r h =
      bind-Post _ (skip_string-Post r) λ _ s m q.
        Ensures-mono (skip_strings-Post left s m.inside) λ _ t z. (z.0, omega (arith, z.1))

  pub take_string_at-Post :
      (element : ℕ) (r : Reader)
      → r.cursor ≤ source.size
      → Post r
          (λ s t. (length s ≤ max_string_length) × All IsByte s)
          (take_string_at source element r)
  unfolding take_string_at
  take_string_at-Post element r h =
      bind-Post _ (skip_strings-Post element r h)
        λ _ s m q. Ensures-mono (take_string-Post s) λ bs t z. (z.0, (z.1.0, z.1.1))
