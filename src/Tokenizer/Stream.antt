-- ===== src/Tokenizer/Stream.antt =====
-- The stream that turns token bytes into text, src/core/tokenizer/utf8_stream.cpp: `Utf8Stream`.
pub mod Pushes
use browser_llm.Base.{
  ℕ, suc, ◌+◌, ◌≤◌, ◌<◌, ◌≡◌, ◌⊎◌, inl, inr, refl, ap, sym, ◌∙◌, Bool, true, false, ◌&&◌, List, [],
  ◌∷◌, ◌++◌, arith, ltb, leb, ◌==◌, if◌then◌else◌, length,
}
use browser_llm.Tokenizer.Unicode.{Utf8Lead, utf8_lead, append_utf8}

abbrev pub replacement : ℕ
replacement = 0xFFFD

-- The bytes held back, and the text that has been appended to.
pub record Stream : Type 0 where
  pub pending : List ℕ
  pub out : List ℕ

-- The part of the loop that reads a byte afresh.
abbrev pub push_fresh : ℕ → List ℕ → Stream
push_fresh byte out =
    if (utf8_lead byte).length == 1
    then record { pending = []; out = out ++ (byte ∷ []) }
    else if (utf8_lead byte).length == 0
    then record { pending = []; out = append_utf8 replacement out }
    else record { pending = byte ∷ []; out = out }

abbrev pub low_of : ℕ → List ℕ → ℕ
low_of first [] = (utf8_lead first).second_low
low_of first (b ∷ bs) = 0x80

abbrev pub high_of : ℕ → List ℕ → ℕ
high_of first [] = (utf8_lead first).second_high
high_of first (b ∷ bs) = 0xBF

-- One round of the loop.
unfoldable pub push_byte : ℕ → Stream → Stream
push_byte byte s = elim s.pending [
  | [] ↦ push_fresh byte s.out
  | first ∷ rest ↦
      if leb (low_of first rest) byte && leb byte (high_of first rest)
      then (if length (first ∷ rest) + 1 == (utf8_lead first).length
          then record { pending = []; out = s.out ++ ((first ∷ rest) ++ (byte ∷ [])) }
          else record { pending = (first ∷ rest) ++ (byte ∷ []); out = s.out })
      else push_fresh byte (append_utf8 replacement s.out)
]

unfoldable pub push : List ℕ → Stream → Stream
push [] s = s
push (byte ∷ bytes) s = push bytes (push_byte byte s)

unfoldable pub finish : Stream → Bool × Stream
finish s = elim s.pending [
  | [] ↦ (true, s)
  | first ∷ rest ↦ (false, record { pending = []; out = append_utf8 replacement s.out })
]
