-- ===== src/Tokenizer/Bpe/Long/Chain.antt =====
-- The chain of symbols, src/core/tokenizer/bpe/merge.cpp: its places in order, and what unlinking one
-- does to it.
use native.Mathlib.Decide.{dec_lt}
use browser_llm.Base.{
  ℕ, suc, ◌≤◌, ◌<◌, ◌≡◌, ◌≢◌, ◌⊎◌, inl, inr, sym, ◌∙◌, arith, leb, ◌==◌, if◌then◌else◌,
}
use browser_llm.Tokenizer.Bpe.Long.{no_place, Symbols, unlink}

-- The places `at 0`, `at 1`, … of the `n` symbols that are left, of `count`.
pub record IsChain (count n : ℕ) (at : ℕ → ℕ) (piece : Symbols) : Type 0 where
  pub few : count ≤ no_place
  pub some_left : 0 < n
  pub start : at 0 ≡ 0
  pub rising : (i j : ℕ) → i < j → j < n → at i < at j
  pub inside : (i : ℕ) → i < n → at i < count
  pub next : (i : ℕ) → suc i < n → (piece (at i)).next ≡ at (suc i)
  pub last : (i : ℕ) → suc i ≡ n → (piece (at i)).next ≡ no_place
  pub first : (piece 0).prev ≡ no_place
  pub prev : (i : ℕ) → suc i < n → (piece (at (suc i))).prev ≡ at i
  pub linked : (p : ℕ) → p < count → (piece p).next ≢ no_place → (i : ℕ) × (suc i < n) × (at i ≡ p)

module _ {count n : ℕ} {at : ℕ → ℕ} {piece : Symbols} (w : IsChain count n at piece) where
  pub at-injective : (i j : ℕ) → i < n → j < n → at i ≡ at j → i ≡ j
  at-injective i j h k e = elim (dec_lt i j) [
    | yes l ↦ absurd (omega (arith, w.rising i j l k, e))
    | no m ↦ elim (dec_lt j i) [
      | yes l ↦ absurd (omega (arith, w.rising j i l h, e))
      | no o ↦ omega (arith, m, o)
    ]
  ]

-- The places with the one after place `i` left out.
abbrev pub skip_next : (ℕ → ℕ) → ℕ → ℕ → ℕ
skip_next at i j = if leb j i then at j else at (suc j)

-- What unlinking `right` from `left` leaves at each place.
module _ (piece : Symbols) (left right v : ℕ) (apart : left ≢ right) where
  pub token-unlink :
      (p : ℕ) → (unlink piece left right v p).token ≡ (if p == left then v else (piece p).token)
  unfolding unlink
  token-unlink p = ground (arith, apart)

  pub next-unlink :
      (p : ℕ)
      → (unlink piece left right v p).next ≡ (
          if p == right then no_place else if p == left then (piece right).next else (piece p).next)
  unfolding unlink
  next-unlink p = ground (arith, apart)

  pub prev-unlink :
      (p : ℕ)
      → (piece right).next ≢ left
      → (piece right).next ≢ right
      → (unlink piece left right v p).prev ≡ (
          if p == right
          then no_place
          else if (piece right).next == no_place
          then (piece p).prev
          else if p == (piece right).next
          then left
          else (piece p).prev)
  unfolding unlink
  prev-unlink p h k = ground (arith, apart)

module _ {count n : ℕ} {at : ℕ → ℕ} {piece : Symbols} (w : IsChain count n at piece) (i v : ℕ)
    (l : suc i < n) where
  abbrev pub left_of : ℕ
  left_of = at i

  abbrev pub right_of : ℕ
  right_of = at (suc i)

  pub ends_apart : at i ≢ at (suc i)
  ends_apart e = omega (arith, w.rising i (suc i) (omega arith) l, e)

  -- What is after the pair is neither of it.
  pub after_cases :
      ((suc (suc i) < n) × ((piece (at (suc i))).next ≡ at (suc (suc i))))
      ⊎ ((suc (suc i) ≡ n) × ((piece (at (suc i))).next ≡ no_place))
  after_cases = elim (dec_lt (suc (suc i)) n) [
    | yes h ↦ inl (h, w.next (suc i) h)
    | no h ↦ inr (omega (arith, h, l), w.last (suc i) (omega (arith, h, l)))
  ]

  at-le : (j : ℕ) → j < n → at j < no_place
  at-le j h = omega (arith, w.inside j h, w.few)

  after-left : (piece (at (suc i))).next ≢ at i
  after-left e = elim after_cases [
    | inl (h, q) ↦ omega (arith, w.rising i (suc (suc i)) (omega arith) h, e, q)
    | inr (h, q) ↦ omega (arith, at-le i (omega (arith, l)), e, q)
  ]

  after-right : (piece (at (suc i))).next ≢ at (suc i)
  after-right e = elim after_cases [
    | inl (h, q) ↦ omega (arith, w.rising (suc i) (suc (suc i)) (omega arith) h, e, q)
    | inr (h, q) ↦ omega (arith, at-le (suc i) l, e, q)
  ]

  -- The chain after the pair is merged.
  abbrev pub merged : Symbols
  merged = unlink piece (at i) (at (suc i)) v

  pub token-kept : (j : ℕ) → j < n → j ≢ i → (merged (at j)).token ≡ (piece (at j)).token
  token-kept j h k =
      let differ : at j ≢ at i = λ e. k (at-injective w j i h (omega (arith, l)) e) in
      token-unlink piece (at i) (at (suc i)) v ends_apart (at j) ∙ ground (arith, differ)

  pub token-merged : (merged (at i)).token ≡ v
  token-merged = token-unlink piece (at i) (at (suc i)) v ends_apart (at i) ∙ ground arith

  pub next-merged : (merged (at i)).next ≡ (piece (at (suc i))).next
  next-merged =
      next-unlink piece (at i) (at (suc i)) v ends_apart (at i) ∙ ground (arith, ends_apart)

  pub next-kept : (j : ℕ) → j < n → j ≢ i → j ≢ suc i → (merged (at j)).next ≡ (piece (at j)).next
  next-kept j h k m =
      let differ : at j ≢ at i = λ e. k (at-injective w j i h (omega (arith, l)) e) in
      let apart : at j ≢ at (suc i) = λ e. m (at-injective w j (suc i) h l e) in
      next-unlink piece (at i) (at (suc i)) v ends_apart (at j) ∙ ground (arith, differ, apart)

  -- Only the symbol after the pair has another one before it.
  pub prev-kept :
      (j : ℕ) → j < n → j ≢ suc i → j ≢ suc (suc i) → (merged (at j)).prev ≡ (piece (at j)).prev
  prev-kept j h k m =
      let apart : at j ≢ at (suc i) = λ e. k (at-injective w j (suc i) h l e) in
      let differ : (piece (at (suc i))).next ≢ at j = λ e. elim after_cases [
        | inl (o, q) ↦ m (at-injective w j (suc (suc i)) h o (sym e ∙ q))
        | inr (o, q) ↦ omega (arith, at-le j h, e, q)
      ] in
      prev-unlink piece (at i) (at (suc i)) v ends_apart (at j) after-left after-right
      ∙ ground (arith, differ, apart)

  pub prev-after : (suc (suc i) < n) → (merged (at (suc (suc i)))).prev ≡ at i
  prev-after h =
      let q = w.next (suc i) h in
      let here : at (suc (suc i)) ≢ at (suc i) =
        λ e. omega (arith, w.rising (suc i) (suc (suc i)) (omega arith) h, e) in
      prev-unlink piece (at i) (at (suc i)) v ends_apart (at (suc (suc i))) after-left after-right
      ∙ ground (arith, q, here, at-le (suc (suc i)) h)
