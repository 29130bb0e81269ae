-- ===== src/Tokenizer/Unicode/RoundTrip.antt =====
-- What `append_utf8` writes, `decode_utf8` reads: src/core/tokenizer/unicode.cpp.
use Prim.Native.Nat.{bit_and, bit_or}
use browser_llm.Base.{
  ℕ, ◌+◌, ◌*◌, ◌/◌, ◌%◌, ◌^◌, ◌≤◌, ◌<◌, ◌≡◌, ◌≢◌, ◌⊎◌, refl, ap, ◌∙◌, some, List, [], ◌∷◌, ◌++◌,
  arith, ltb, if◌then◌else◌, length, drop,
}
use mathlib.Core.List.{append_assoc}
use browser_llm.Base.Bits.{bit_and_low, bit_or_disjoint}
use browser_llm.Tokenizer.Unicode.{
  Utf8Char, utf8_lead, decode_later, decode_first, decode_utf8, append_utf8, byte_of,
}

-- A code point that is no surrogate.
pub record IsScalar (c : ℕ) : Type 0 where
  pub bounded : c < 0x110000
  pub no_surrogate : (c < 0xD800) ⊎ (0xE000 ≤ c)

later_byte : (x : ℕ) → byte_of (bit_or 0x80 (bit_and x 0x3F)) ≡ 0x80 + x % 64
later_byte x = omega (arith, ap (bit_or 0x80) (bit_and_low 6 x), bit_or_disjoint 6 2 (x % 64))

lead_two : (x : ℕ) → x < 32 → byte_of (bit_or 0xC0 x) ≡ 0xC0 + x
lead_two x h = omega (arith, bit_or_disjoint 6 3 x)

lead_three : (x : ℕ) → x < 16 → byte_of (bit_or 0xE0 x) ≡ 0xE0 + x
lead_three x h = omega (arith, bit_or_disjoint 4 14 x)

lead_four : (x : ℕ) → x < 8 → byte_of (bit_or 0xF0 x) ≡ 0xF0 + x
lead_four x h = omega (arith, bit_or_disjoint 3 30 x)

-- The encoding, written with sums.
abbrev pub encoding : ℕ → List ℕ
encoding c =
    if ltb c 0x80
    then c ∷ []
    else if ltb c 0x800
    then (0xC0 + c / 64) ∷ (0x80 + c % 64) ∷ []
    else if ltb c 0x10000
    then (0xE0 + c / 4096) ∷ (0x80 + c / 64 % 64) ∷ (0x80 + c % 64) ∷ []
    else (0xF0 + c / 262144) ∷ (0x80 + c / 4096 % 64) ∷ (0x80 + c / 64 % 64) ∷ (0x80 + c % 64) ∷ []

-- `append_utf8` writes the encoding.
pub append_utf8-encoding :
    (c : ℕ) (out : List ℕ) → c < 0x110000 → append_utf8 c out ≡ out ++ encoding c
unfolding append_utf8
append_utf8-encoding c out h = ground (
  arith,
  later_byte c,
  later_byte (c / 2 ^ 6),
  later_byte (c / 2 ^ 12),
  lead_two (c / 2 ^ 6),
  lead_three (c / 2 ^ 12),
  lead_four (c / 2 ^ 18),
)

later_value :
    (v n : ℕ) → v < 2 ^ 26 → bit_or (v * 2 ^ 6 % 2 ^ 32) (bit_and n 0x3F) ≡ v * 64 + n % 64
later_value v n h = omega (
  arith,
  ap (λ (t : ℕ). bit_or t (bit_and n 0x3F)) (no_wrap v h),
  ap (bit_or (v * 2 ^ 6)) (bit_and_low 6 n),
  bit_or_disjoint 6 v (n % 64),
)
  where
    no_wrap : (v : ℕ) → v < 2 ^ 26 → v * 2 ^ 6 % 2 ^ 32 ≡ v * 2 ^ 6
    no_wrap v h = omega arith

decode_two :
    (q r : ℕ) (rest : List ℕ)
    → 2 ≤ q
    → q < 32
    → r < 64
    → decode_first ((0xC0 + q) ∷ (0x80 + r) ∷ rest)
      ≡ some (record { code_point = q * 64 + r; length = 2 })
unfolding decode_first decode_later utf8_lead
decode_two q r rest h k l = ground (arith, bit_and_low 5 (0xC0 + q), later_value q (0x80 + r))

decode_three :
    (q s r : ℕ) (rest : List ℕ)
    → q < 16
    → s < 64
    → r < 64
    → (1 ≤ q) ⊎ (32 ≤ s)
    → (q ≢ 13) ⊎ (s < 32)
    → decode_first ((0xE0 + q) ∷ (0x80 + s) ∷ (0x80 + r) ∷ rest)
      ≡ some (record { code_point = (q * 64 + s) * 64 + r; length = 3 })
unfolding decode_first decode_later utf8_lead
decode_three q s r rest h k l m n =
    ground (
      arith,
      bit_and_low 4 (0xE0 + q),
      later_value q (0x80 + s),
      later_value (q * 64 + s) (0x80 + r),
    )

decode_four :
    (q t s r : ℕ) (rest : List ℕ)
    → t < 64
    → s < 64
    → r < 64
    → (1 ≤ q) ⊎ (16 ≤ t)
    → (q < 4) ⊎ ((q ≡ 4) × (t < 16))
    → decode_first ((0xF0 + q) ∷ (0x80 + t) ∷ (0x80 + s) ∷ (0x80 + r) ∷ rest)
      ≡ some (record { code_point = ((q * 64 + t) * 64 + s) * 64 + r; length = 4 })
unfolding decode_first decode_later utf8_lead
decode_four q t s r rest h k l m n = ground (
  arith,
  bit_and_low 3 (0xF0 + q),
  later_value q (0x80 + t),
  later_value (q * 64 + t) (0x80 + s),
  later_value ((q * 64 + t) * 64 + s) (0x80 + r),
)

abbrev pub char_at : ℕ → Utf8Char
char_at c = record { code_point = c; length = length (encoding c) }

two_parts : (c : ℕ) → c / 64 * 64 + c % 64 ≡ c
two_parts c = omega arith

three_parts : (c : ℕ) → (c / 4096 * 64 + c / 64 % 64) * 64 + c % 64 ≡ c
three_parts c = omega arith

four_parts : (c : ℕ) → ((c / 262144 * 64 + c / 4096 % 64) * 64 + c / 64 % 64) * 64 + c % 64 ≡ c
four_parts c = omega arith

decode_one :
    (c : ℕ) (rest : List ℕ)
    → c < 128
    → decode_first (c ∷ rest) ≡ some (record { code_point = c; length = 1 })
unfolding decode_first
decode_one c rest h = ground arith

decode_first-encoding :
    (c : ℕ) (rest : List ℕ) → IsScalar c → decode_first (encoding c ++ rest) ≡ some (char_at c)
decode_first-encoding c rest h = ground (
  arith,
  decode_one c rest,
  decode_two (c / 64) (c % 64) rest,
  decode_three (c / 4096) (c / 64 % 64) (c % 64) rest,
  decode_four (c / 262144) (c / 4096 % 64) (c / 64 % 64) (c % 64) rest,
  two_parts c,
  three_parts c,
  four_parts c,
)

drop-length : (xs ys : List ℕ) → drop (length xs) (xs ++ ys) ≡ ys
drop-length [] ys = refl
drop-length (x ∷ xs) ys = drop-length xs ys

-- A Unicode scalar value that is appended to a text is decoded where the text ended, whatever
-- follows, with the number of bytes that it took.
pub decode_utf8-append_utf8 :
    (c : ℕ) (before after : List ℕ)
    → IsScalar c
    → decode_utf8 (append_utf8 c before ++ after) (length before) ≡ some (char_at c)
unfolding decode_utf8
decode_utf8-append_utf8 c before after h =
    ap (λ (t : List ℕ). decode_first (drop (length before) (t ++ after)))
      (append_utf8-encoding c before h.bounded)
    ∙ ap (λ (t : List ℕ). decode_first (drop (length before) t))
        (append_assoc before (encoding c) after)
    ∙ ap decode_first (drop-length before (encoding c ++ after))
    ∙ decode_first-encoding c after h
