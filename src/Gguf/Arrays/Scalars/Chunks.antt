-- ===== src/Gguf/Arrays/Scalars/Chunks.antt =====
-- Reading an array of numbers chunk by chunk gives what one read of all of it would,
-- src/core/gguf/arrays.cpp.
use mathlib.Core.List.{append_assoc, append-nil}
use browser_llm.Base.{
  ℕ, zero, suc, ◌+◌, ◌-◌, ◌*◌, ◌/◌, ◌^◌, ◌≤◌, ◌≡◌, refl, sym, ap, ◌∙◌, Bool, true, some, List, [],
  ◌∷◌, ◌++◌, arith, ltb, ltb→lt, ltb→le, ==_iff, length, take, drop, min, length-take, length-drop,
  Bool-cases, inl, inr,
}
use browser_llm.Base.Words.{IsU64, add64}
use browser_llm.Gguf.Checked.{checked_mul_fits}
use browser_llm.Gguf.Types.{ArrayLocation, ValueType}
use browser_llm.Gguf.Source.{ByteSource, bytes}
use browser_llm.Gguf.Parse.{read}
use browser_llm.Gguf.Arrays.{read_range}
use browser_llm.Gguf.Arrays.Elements.{read_range-bytes}
use browser_llm.Gguf.Arrays.Scalars.{chunk_bytes, values_of, read_chunks, read_scalars}

take-take : {A : Type 0} (n m : ℕ) (xs : List A) → n ≤ m → take n (take m xs) ≡ take n xs
take-take zero m xs h = refl
take-take (suc n) zero xs h = absurd (omega arith)
take-take (suc n) (suc m) [] h = refl
take-take (suc n) (suc m) (x ∷ xs) h = ap (λ t. x ∷ t) (take-take n m xs (omega arith))

take-nil : {A : Type 0} (n : ℕ) → take {A = A} n [] ≡ []
take-nil zero = refl
take-nil (suc n) = refl

drop-nil : {A : Type 0} (n : ℕ) → drop {A = A} n [] ≡ []
drop-nil zero = refl
drop-nil (suc n) = refl

drop-take :
    {A : Type 0} (n m k : ℕ) (xs : List A) → k ≡ n + m → drop n (take k xs) ≡ take m (drop n xs)
drop-take zero m k xs e = ap (λ (t : ℕ). take t xs) (omega (arith, e))
drop-take (suc n) m zero xs e = absurd (omega (arith, e))
drop-take (suc n) m (suc k) [] e = sym (take-nil m)
drop-take (suc n) m (suc k) (x ∷ xs) e = drop-take n m k xs (omega (arith, e))

drop-drop : {A : Type 0} (n m k : ℕ) (xs : List A) → k ≡ n + m → drop m (drop n xs) ≡ drop k xs
drop-drop zero m k xs e = ap (λ (t : ℕ). drop t xs) (omega (arith, e))
drop-drop (suc n) m zero xs e = absurd (omega (arith, e))
drop-drop (suc n) m (suc k) [] e = drop-nil m
drop-drop (suc n) m (suc k) (x ∷ xs) e = drop-drop n m k xs (omega (arith, e))

module _ {T : Type 0} (value : List ℕ → T) where
  -- The values of a prefix, then those of the rest.
  values_of-append :
      (j m n c : ℕ) (xs : List ℕ)
      → c ≡ 4 * j
      → n ≡ j + m
      → values_of value j (take c xs) ++ values_of value m (drop c xs) ≡ values_of value n xs
  unfolding values_of
  values_of-append zero m n zero xs e q = ap (λ (t : ℕ). values_of value t xs) (omega (arith, q))
  values_of-append zero m n (suc c) xs e q = absurd (omega (arith, e))
  values_of-append (suc j) m zero c xs e q = absurd (omega (arith, q))
  values_of-append (suc j) m (suc n) c xs e q =
      let back : c ≡ 4 + 4 * j = omega (arith, e) in
      ap
        (λ (bs : List ℕ).
          value bs ∷ (values_of value j (drop 4 (take c xs)) ++ values_of value m (drop c xs)))
        (take-take 4 c xs (omega (arith, e)))
      ∙ ap
          (λ (bs : List ℕ).
            value (take 4 xs) ∷ (values_of value j bs ++ values_of value m (drop c xs)))
          (drop-take 4 (4 * j) c xs back)
      ∙ ap
          (λ (bs : List ℕ).
            value (take 4 xs)
            ∷ (values_of value j (take (4 * j) (drop 4 xs)) ++ values_of value m bs))
          (sym (drop-drop 4 (4 * j) c xs back))
      ∙ ap (λ (vs : List T). value (take 4 xs) ∷ vs)
          (values_of-append j m n (4 * j) (drop 4 xs) refl (omega (arith, q)))

-- The source holds `raw` from `offset` on.
pub record IsHeld (source : ByteSource) (offset : ℕ) (raw : List ℕ) : Type 0 where
  pub reads :
      (o n : ℕ) → o + n ≤ length raw → source.read (offset + o) n ≡ bytes (take n (drop o raw))

module _ {T : Type 0} (size_max : ℕ) (source : ByteSource) (value : List ℕ → T) (offset count : ℕ)
    (raw : List ℕ) (held : IsHeld source offset raw) (fits : IsU64 (offset + length raw))
    (small : chunk_bytes ≤ size_max) (whole : length raw ≡ 4 * count) where
  chunk_read :
      (done n : ℕ)
      → done + n ≤ length raw
      → n ≤ chunk_bytes
      → read_range size_max source (add64 offset done) n ≡ read (take n (drop done raw))
  chunk_read done n h k =
      ap (λ (at : ℕ). read_range size_max source at n) (omega (arith, h, fits))
      ∙ read_range-bytes size_max source (offset + done) n (take n (drop done raw))
          (omega (arith, h, fits)) (omega (arith, k, small)) (held.reads done n h)

  -- From `k` values on, the rest is read.
  read_chunks-rest :
      (fuel k done : ℕ) (values : List T)
      → done ≡ 4 * k
      → k ≤ count
      → count - k + 2 ^ 18 ≤ fuel * 2 ^ 18
      → read_chunks size_max source value offset (4 * count) fuel done values
        ≡ some (read (values ++ values_of value (count - k) (drop done raw)))
  unfolding read_chunks values_of
  read_chunks-rest zero k done values e l h = absurd (omega (arith, h))
  read_chunks-rest (suc fuel) k done values e l h = elim (Bool-cases (ltb done (4 * count))) [
    | inr stop ↦
        let none_left : 0 ≡ count - k = omega (arith, e, ltb→le _ _ stop) in
        rw stop (
          ap (λ (vs : List T). some (read vs)) (sym (append-nil values))
          ∙ ap (λ (n : ℕ). some (read (values ++ values_of value n (drop done raw)))) none_left)
    | inl go ↦
        let j : ℕ = min (2 ^ 18) (count - k) in
        let n : ℕ = min chunk_bytes (4 * count - done) in
        let four : n ≡ 4 * j = omega (arith, e, l) in
        let inside : done + n ≤ length raw = omega (arith, e, l, whole) in
        let read_one = chunk_read done n inside (omega arith) in
        let size : length (take n (drop done raw)) / 4 ≡ j =
          omega (arith, four, inside, length-take n (drop done raw), length-drop done raw) in
        let next : add64 done n ≡ done + n = omega (arith, inside, fits) in
        rw (go, read_one, read_chunks)
          (ap
              (λ (m : ℕ).
                read_chunks size_max source value offset (4 * count) fuel (add64 done n)
                  (values ++ values_of value m (take n (drop done raw))))
              size
            ∙ ap
                (λ (at : ℕ).
                  read_chunks size_max source value offset (4 * count) fuel at
                    (values ++ values_of value j (take n (drop done raw))))
                next
            ∙ read_chunks-rest fuel (k + j) (done + n)
                (values ++ values_of value j (take n (drop done raw))) (omega (arith, e, four))
                (omega (arith, l)) (omega (arith, l, h, ltb→lt _ _ go, e))
            ∙ ap (λ (vs : List T). some (read vs))
                (append_assoc values (values_of value j (take n (drop done raw)))
                    (values_of value (count - (k + j)) (drop (done + n) raw))
                  ∙ ap
                      (λ (bs : List ℕ).
                        values
                        ++ (values_of value j (take n (drop done raw))
                            ++ values_of value (count - (k + j)) bs))
                      (sym (drop-drop done n (done + n) raw refl))
                  ∙ ap (λ (vs : List T). values ++ vs)
                      (values_of-append value j (count - (k + j)) (count - k) n (drop done raw) four
                        (omega (arith, l)))))
  ]

-- For a located array of numbers of the type asked for, whose range fits 64 bits and is as long as
-- its elements, on a platform whose sizes reach a chunk and a source that gives every part of the
-- range as it lies there, read_scalars ends, and the values that it reads chunk by chunk are those
-- of all the bytes taken at once.
pub read_scalars-values :
    {T : Type 0} (size_max : ℕ) (source : ByteSource) (value : List ℕ → T)
    (is_type : ValueType → Bool) (array : ArrayLocation) (raw : List ℕ)
    → is_type array.element_type ≡ true
    → array.bytes.length ≡ length raw
    → length raw ≡ 4 * array.element_count
    → IsU64 (array.bytes.offset + length raw)
    → chunk_bytes ≤ size_max
    → IsHeld source array.bytes.offset raw
    → read_scalars size_max source value is_type array
      ≡ some (read (values_of value array.element_count raw))
unfolding read_scalars
read_scalars-values {T} size_max source value is_type array raw a b c d e held =
    let all_left : array.element_count - 0 ≡ array.element_count = omega arith in
    let same : array.element_count * 4 ≡ 4 * array.element_count = omega arith in
    let fits : array.element_count * 4 ≡ array.bytes.length = omega (arith, b, c) in
    rw
      (
        a,
        checked_mul_fits array.element_count 4 (omega (arith, c, d)),
        (==_iff (array.element_count * 4) array.bytes.length).1 fits,
        same,
      )
      (read_chunks-rest size_max source value array.bytes.offset array.element_count raw held d e c
          (4 * array.element_count / chunk_bytes + 2) 0 0 [] refl (omega arith) (omega arith)
        ∙ ap (λ (n : ℕ). some (read (values_of value n raw))) all_left)
