-- ===== src/Tokenizer/Stream/Pushes.antt =====
-- What a text becomes that is pushed through the stream in two parts, src/core/tokenizer/utf8_stream.cpp.
use mathlib.Core.List.{append_assoc, append-nil}
use browser_llm.Base.{
  ℕ, ◌+◌, ◌/◌, ◌%◌, ◌≤◌, ◌<◌, ◌≡◌, ◌≢◌, ◌⊎◌, refl, ap, sym, ◌∙◌, List, [], ◌∷◌, ◌++◌, arith, All,
}
use browser_llm.Tokenizer.Unicode.{utf8_lead, append_utf8}
use browser_llm.Tokenizer.Unicode.RoundTrip.{IsScalar, encoding, append_utf8-encoding}
use browser_llm.Tokenizer.Stream.{Stream, push, push_byte}

abbrev pub settled : List ℕ → Stream
settled out = record { pending = []; out = out }

-- The text of some code points, appended to `out`.
abbrev pub encode_all : List ℕ → List ℕ → List ℕ
encode_all [] out = out
encode_all (c ∷ cs) out = encode_all cs (append_utf8 c out)

pub push-append : (xs ys : List ℕ) (s : Stream) → push (xs ++ ys) s ≡ push ys (push xs s)
unfolding push
push-append [] ys s = refl
push-append (x ∷ xs) ys s = push-append xs ys (push_byte x s)

push_one :
    (c : ℕ) (out : List ℕ) → c < 128 → push (c ∷ []) (settled out) ≡ settled (out ++ (c ∷ []))
unfolding push push_byte utf8_lead
push_one c out h = ground arith

push_two :
    (q r : ℕ) (out : List ℕ)
    → 2 ≤ q
    → q < 32
    → r < 64
    → push ((0xC0 + q) ∷ (0x80 + r) ∷ []) (settled out)
      ≡ settled (out ++ ((0xC0 + q) ∷ (0x80 + r) ∷ []))
unfolding push push_byte utf8_lead
push_two q r out h k l = ground arith

push_three :
    (q s r : ℕ) (out : List ℕ)
    → q < 16
    → s < 64
    → r < 64
    → (1 ≤ q) ⊎ (32 ≤ s)
    → (q ≢ 13) ⊎ (s < 32)
    → push ((0xE0 + q) ∷ (0x80 + s) ∷ (0x80 + r) ∷ []) (settled out)
      ≡ settled (out ++ ((0xE0 + q) ∷ (0x80 + s) ∷ (0x80 + r) ∷ []))
unfolding push push_byte utf8_lead
push_three q s r out h k l m n = ground arith

push_four :
    (q t s r : ℕ) (out : List ℕ)
    → t < 64
    → s < 64
    → r < 64
    → (1 ≤ q) ⊎ (16 ≤ t)
    → (q < 4) ⊎ ((q ≡ 4) × (t < 16))
    → push ((0xF0 + q) ∷ (0x80 + t) ∷ (0x80 + s) ∷ (0x80 + r) ∷ []) (settled out)
      ≡ settled (out ++ ((0xF0 + q) ∷ (0x80 + t) ∷ (0x80 + s) ∷ (0x80 + r) ∷ []))
unfolding push push_byte utf8_lead
push_four q t s r out h k l m n = ground arith

push-encoding :
    (c : ℕ) (out : List ℕ)
    → IsScalar c
    → push (encoding c) (settled out) ≡ settled (out ++ encoding c)
push-encoding c out h = ground (
  arith,
  push_one c out,
  push_two (c / 64) (c % 64) out,
  push_three (c / 4096) (c / 64 % 64) (c % 64) out,
  push_four (c / 262144) (c / 4096 % 64) (c / 64 % 64) (c % 64) out,
)

encode_all-append :
    (cs : List ℕ) (before out : List ℕ)
    → All IsScalar cs
    → encode_all cs (before ++ out) ≡ before ++ encode_all cs out
encode_all-append [] before out h = refl
encode_all-append (c ∷ cs) before out h =
    ap (encode_all cs) (front c before out h.0)
    ∙ encode_all-append cs before (append_utf8 c out) h.1
  where
    front :
        (c : ℕ) (before out : List ℕ)
        → IsScalar c
        → append_utf8 c (before ++ out) ≡ before ++ append_utf8 c out
    front c before out h =
        append_utf8-encoding c (before ++ out) h.bounded
        ∙ append_assoc before out (encoding c)
        ∙ ap (λ (t : List ℕ). before ++ t) (sym (append_utf8-encoding c out h.bounded))

-- The text of one code point and more begins with its encoding.
encode_all-first :
    (c : ℕ) (cs : List ℕ)
    → All IsScalar (c ∷ cs)
    → encode_all (c ∷ cs) [] ≡ encoding c ++ encode_all cs []
encode_all-first c cs h =
    ap (encode_all cs) (append_utf8-encoding c [] (h.0).bounded ∙ sym (append-nil (encoding c)))
    ∙ encode_all-append cs (encoding c) [] h.1

push-encode_all :
    (cs : List ℕ) (out : List ℕ)
    → All IsScalar cs
    → push (encode_all cs []) (settled out) ≡ settled (encode_all cs out)
unfolding push
push-encode_all [] out h = refl
push-encode_all (c ∷ cs) out h =
    ap (λ (t : List ℕ). push t (settled out)) (encode_all-first c cs h)
    ∙ push-append (encoding c) (encode_all cs []) (settled out)
    ∙ ap (push (encode_all cs [])) (push-encoding c out h.0)
    ∙ push-encode_all cs (out ++ encoding c) h.1
    ∙ ap (λ (t : List ℕ). settled (encode_all cs t))
        (sym (append_utf8-encoding c out (h.0).bounded))

-- The UTF-8 text of Unicode scalar values, cut in two anywhere, even inside a character, and pushed
-- in two calls to a stream that holds nothing back, is appended whole, and nothing is held back.
pub push-push :
    (cs xs ys out : List ℕ)
    → All IsScalar cs
    → encode_all cs [] ≡ xs ++ ys
    → push ys (push xs (settled out)) ≡ settled (encode_all cs out)
push-push cs xs ys out h e =
    sym (push-append xs ys (settled out))
    ∙ ap (λ (t : List ℕ). push t (settled out)) (sym e)
    ∙ push-encode_all cs out h
