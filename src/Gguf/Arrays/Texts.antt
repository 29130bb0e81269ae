-- ===== src/Gguf/Arrays/Texts.antt =====
-- Reading back the strings of an array, src/core/gguf/arrays.cpp.
use mathlib.Core.List.{append_assoc}
use native.Mathlib.Nat.{pow-suc}
use browser_llm.Base.{
  ℕ, zero, suc, ◌+◌, ◌-◌, ◌/◌, ◌%◌, ◌^◌, ◌≤◌, ◌<◌, ◌≡◌, refl, sym, ap, ◌∙◌, false, List, [], ◌∷◌,
  ◌++◌, arith, ltb, length, take, drop, All, length-append,
}
use browser_llm.Base.Words.{IsByte}
use browser_llm.Gguf.Types.{max_string_length}
use browser_llm.Gguf.Reader.{le}
use browser_llm.Gguf.Reader.Values.{digits_value, le-digits_value}
use browser_llm.Gguf.Parse.{read}
use browser_llm.Gguf.Arrays.{StringTable, push_text, read_texts}

-- The `n` digits of a number in base 256, the lowest first.
unfoldable pub digits : ℕ → ℕ → List ℕ
digits zero v = []
digits (suc n) v = (v % 256) ∷ digits n (v / 256)

-- How GGUF stores strings, one after the other: each its length in 8 bytes, then its text.
unfoldable pub stored : List (List ℕ) → List ℕ
stored [] = []
stored (s ∷ rest) = digits 8 (length s) ++ (s ++ stored rest)

-- The table that has these strings.
unfoldable pub table_of : StringTable → List (List ℕ) → StringTable
table_of t [] = t
table_of t (s ∷ rest) = table_of (push_text t s) rest

pub length-digits : (n v : ℕ) → length (digits n v) ≡ n
unfolding digits
length-digits zero v = refl
length-digits (suc n) v = ap suc (length-digits n (v / 256))

digits-IsByte : (n v : ℕ) → All IsByte (digits n v)
unfolding digits
digits-IsByte zero v = tt
digits-IsByte (suc n) v = (omega arith, digits-IsByte n (v / 256))

digits_value-digits : (n v : ℕ) → v < 256 ^ n → digits_value (digits n v) ≡ v
unfolding digits
digits_value-digits zero v h = omega (arith, h)
digits_value-digits (suc n) v h =
    omega (arith, digits_value-digits n (v / 256) (omega (arith, h, pow-suc 256 n)))

le-digits : (v : ℕ) → v ≤ max_string_length → le (digits 8 v) ≡ v
le-digits v h =
    le-digits_value (digits 8 v) (digits-IsByte 8 v) (omega (arith, length-digits 8 v))
    ∙ digits_value-digits 8 v (omega arith)

pub take-length : {A : Type 0} (xs ys : List A) → take (length xs) (xs ++ ys) ≡ xs
take-length [] ys = refl
take-length (x ∷ xs) ys = ap (λ t. x ∷ t) (take-length xs ys)

pub drop-length : {A : Type 0} (xs ys : List A) → drop (length xs) (xs ++ ys) ≡ ys
drop-length [] ys = refl
drop-length (x ∷ xs) ys = drop-length xs ys

pub ltb-false : (a b : ℕ) → b ≤ a → ltb a b ≡ false
ltb-false a b h = ground arith

-- One string is read where it is stored.
read_one :
    (raw s : List ℕ) (left at : ℕ) (t : StringTable)
    → le (take 8 (drop at raw)) ≡ length s
    → take (length s) (drop (at + 8) raw) ≡ s
    → at + 8 + length s ≤ length raw
    → length s ≤ max_string_length
    → read_texts raw (suc left) at t ≡ read_texts raw left (at + 8 + length s) (push_text t s)
unfolding read_texts
read_one raw s left at t e f h k =
    rw
      (
        e,
        f,
        ltb-false (length raw - at) 8 (omega (arith, h)),
        ltb-false max_string_length (length s) k,
        ltb-false (length raw - (at + 8)) (length s) (omega (arith, h)),
      )
      refl

split_text :
    (before s rest : List ℕ)
    → before ++ (digits 8 (length s) ++ (s ++ rest))
      ≡ (before ++ digits 8 (length s)) ++ (s ++ rest)
split_text before s rest = sym (append_assoc before (digits 8 (length s)) (s ++ rest))

-- Every string is read, from where the strings before it end.
pub read_texts-stored :
    (before : List ℕ) (texts : List (List ℕ)) (t : StringTable)
    → All (λ s. length s ≤ max_string_length) texts
    → read_texts (before ++ stored texts) (length texts) (length before) t
      ≡ read (length before + length (stored texts), table_of t texts)
unfolding read_texts stored table_of
read_texts-stored before [] t h = ap (λ (n : ℕ). read (n, t)) (omega arith)
read_texts-stored before (s ∷ rest) t h =
    let raw : List ℕ = before ++ (digits 8 (length s) ++ (s ++ stored rest)) in
    let front : List ℕ = (before ++ digits 8 (length s)) ++ s in
    let size_front : length front ≡ length before + 8 + length s = omega (
      arith,
      length-append (before ++ digits 8 (length s)) s,
      length-append before (digits 8 (length s)),
      length-digits 8 (length s),
    ) in
    let size_head : length (before ++ digits 8 (length s)) ≡ length before + 8 =
      omega (arith, length-append before (digits 8 (length s)), length-digits 8 (length s)) in
    let whole : raw ≡ front ++ stored rest =
      split_text before s (stored rest)
      ∙ sym (append_assoc (before ++ digits 8 (length s)) s (stored rest)) in
    let prefix : le (take 8 (drop (length before) raw)) ≡ length s =
      ap (λ (l : List ℕ). le (take 8 l))
        (drop-length before (digits 8 (length s) ++ (s ++ stored rest)))
      ∙ ap (λ (n : ℕ). le (take n (digits 8 (length s) ++ (s ++ stored rest))))
          (sym (length-digits 8 (length s)))
      ∙ ap le (take-length (digits 8 (length s)) (s ++ stored rest))
      ∙ le-digits (length s) h.0 in
    let text : take (length s) (drop (length before + 8) raw) ≡ s =
      ap (λ (n : ℕ). take (length s) (drop n raw)) (sym size_head)
      ∙ ap (λ (l : List ℕ). take (length s) (drop (length (before ++ digits 8 (length s))) l))
          (split_text before s (stored rest))
      ∙ ap (take (length s)) (drop-length (before ++ digits 8 (length s)) (s ++ stored rest))
      ∙ take-length s (stored rest) in
    let room : length before + 8 + length s ≤ length raw =
      omega (
        arith,
        ap (λ (l : List ℕ). length l) whole,
        length-append front (stored rest),
        size_front,
      ) in
    read_one raw s (length rest) (length before) t prefix text room h.0
    ∙ ap (λ (l : List ℕ). read_texts l (length rest) (length before + 8 + length s) (push_text t s))
        whole
    ∙ ap (λ (n : ℕ). read_texts (front ++ stored rest) (length rest) n (push_text t s))
        (sym size_front)
    ∙ read_texts-stored front rest (push_text t s) h.1
    ∙ ap (λ (n : ℕ). read (n, table_of (push_text t s) rest))
        (omega (
          arith,
          size_front,
          length-append (digits 8 (length s)) (s ++ stored rest),
          length-append s (stored rest),
          length-digits 8 (length s),
        ))
