-- ===== src/Tokenizer/Unicode.antt =====
-- UTF-8, src/core/tokenizer/unicode.h and unicode.cpp. Bytes and code points are numbers, a string is
-- the list of its bytes.
pub mod RoundTrip
use Prim.Native.Nat.{bit_and, bit_or}
use browser_llm.Base.{
  ℕ, zero, suc, ◌-◌, ◌*◌, ◌/◌, ◌%◌, ◌^◌, Bool, true, false, ◌&&◌, ◌||◌, Option, none, some, List,
  [], ◌∷◌, ◌++◌, ltb, leb, ◌==◌, if◌then◌else◌, length, drop,
}

pub record Utf8Char : Type 0 where
  pub code_point : ℕ
  pub length : ℕ

pub record Utf8Lead : Type 0 where
  pub length : ℕ
  pub second_low : ℕ
  pub second_high : ℕ

abbrev pub lead_of : ℕ → ℕ → ℕ → Utf8Lead
lead_of n low high = record { length = n; second_low = low; second_high = high }

unfoldable pub utf8_lead : ℕ → Utf8Lead
utf8_lead byte =
    if ltb byte 0x80
    then lead_of 1 0 0
    else if leb 0xC2 byte && leb byte 0xDF
    then lead_of 2 0x80 0xBF
    else if byte == 0xE0
    then lead_of 3 0xA0 0xBF
    else if byte == 0xED
    then lead_of 3 0x80 0x9F
    else if leb 0xE1 byte && leb byte 0xEF
    then lead_of 3 0x80 0xBF
    else if byte == 0xF0
    then lead_of 4 0x90 0xBF
    else if byte == 0xF4
    then lead_of 4 0x80 0x8F
    else if leb 0xF1 byte && leb byte 0xF3
    then lead_of 4 0x80 0xBF
    else lead_of 0 0 0

-- The loop over the later bytes: how many are left, and the range of the next one.
unfoldable pub decode_later : ℕ → ℕ → ℕ → List ℕ → ℕ → Option ℕ
decode_later zero low high bytes value = some value
decode_later (suc left) low high [] value = none
decode_later (suc left) low high (next ∷ bytes) value =
    let later : Option ℕ =
      decode_later left 0x80 0xBF bytes (bit_or (value * 2 ^ 6 % 2 ^ 32) (bit_and next 0x3F)) in
    if ltb next low || ltb high next then none else later

abbrev pub char_of : ℕ → Option ℕ → Option Utf8Char
char_of n none = none
char_of n (some value) = some (record { code_point = value; length = n })

-- From the first byte on. With none, the precondition `at < text.size()` is broken.
unfoldable pub decode_first : List ℕ → Option Utf8Char
decode_first [] = none
decode_first (first ∷ bytes) =
    let lead : Utf8Lead = utf8_lead first in
    if ltb first 0x80
    then some (record { code_point = first; length = 1 })
    else if lead.length == 0 || ltb (length (first ∷ bytes)) lead.length
    then none
    else char_of lead.length (
        decode_later (lead.length - 1) lead.second_low lead.second_high bytes
          (bit_and first (0x7F / 2 ^ lead.length)))

unfoldable pub decode_utf8 : List ℕ → ℕ → Option Utf8Char
decode_utf8 text at = decode_first (drop at text)

-- `static_cast<char>`
abbrev pub byte_of : ℕ → ℕ
byte_of bits = bits % 256

unfoldable pub append_utf8 : ℕ → List ℕ → List ℕ
append_utf8 code_point out =
    if ltb code_point 0x80
    then out ++ (byte_of code_point ∷ [])
    else if ltb code_point 0x800
    then out
      ++ (byte_of (bit_or 0xC0 (code_point / 2 ^ 6))
          ∷ byte_of (bit_or 0x80 (bit_and code_point 0x3F))
          ∷ [])
    else if ltb code_point 0x10000
    then out
      ++ (byte_of (bit_or 0xE0 (code_point / 2 ^ 12))
          ∷ byte_of (bit_or 0x80 (bit_and (code_point / 2 ^ 6) 0x3F))
          ∷ byte_of (bit_or 0x80 (bit_and code_point 0x3F))
          ∷ [])
    else out
      ++ (byte_of (bit_or 0xF0 (code_point / 2 ^ 18))
          ∷ byte_of (bit_or 0x80 (bit_and (code_point / 2 ^ 12) 0x3F))
          ∷ byte_of (bit_or 0x80 (bit_and (code_point / 2 ^ 6) 0x3F))
          ∷ byte_of (bit_or 0x80 (bit_and code_point 0x3F))
          ∷ [])
