-- ===== src/Tokenizer/Bpe/Long/Unlink.antt =====
-- Merging a pair keeps the chain, src/core/tokenizer/bpe/merge.cpp.
use native.Mathlib.Decide.{ℕ_discrete, dec_lt, dec_le}
use browser_llm.Base.{ℕ, suc, ◌-◌, ◌≤◌, ◌<◌, ◌≡◌, ◌≢◌, ◌⊎◌, inl, inr, sym, ap, ◌∙◌, arith}
use browser_llm.Tokenizer.Bpe.Long.{no_place, Symbols, unlink}
use browser_llm.Tokenizer.Bpe.Long.Chain.{
  IsChain, skip_next, next-merged, next-kept, prev-kept, prev-after, ends_apart, next-unlink,
  after_cases,
}

pub skip_next-low : (at : ℕ → ℕ) (i j : ℕ) → j ≤ i → skip_next at i j ≡ at j
skip_next-low at i j h = ground arith

pub skip_next-high : (at : ℕ → ℕ) (i j : ℕ) → i < j → skip_next at i j ≡ at (suc j)
skip_next-high at i j h = ground arith

module _ {count n : ℕ} {at : ℕ → ℕ} {piece : Symbols} (w : IsChain count n at piece) (i v m : ℕ)
    (l : suc i < n) (fewer : n ≡ suc m) where
  abbrev skip : ℕ → ℕ
  skip = skip_next at i

  abbrev after : Symbols
  after = unlink piece (at i) (at (suc i)) v

  skip_cases : (j : ℕ) → ((j ≤ i) × (skip j ≡ at j)) ⊎ ((i < j) × (skip j ≡ at (suc j)))
  skip_cases j = elim (dec_le j i) [
    | yes h ↦ inl (h, skip_next-low at i j h)
    | no h ↦ inr (omega (arith, h), skip_next-high at i j (omega (arith, h)))
  ]

  skip-rising : (a b : ℕ) → a < b → b < m → skip a < skip b
  skip-rising a b h k = elim (skip_cases a) [
    | inl (p, q) ↦ elim (skip_cases b) [
      | inl (r, s) ↦ omega (arith, q, s, w.rising a b h (omega (arith, k, fewer)))
      | inr (r, s) ↦
          omega (arith, q, s, w.rising a (suc b) (omega (arith, h)) (omega (arith, k, fewer)))
    ]
    | inr (p, q) ↦ elim (skip_cases b) [
      | inl (r, s) ↦ absurd (omega (arith, p, r, h))
      | inr (r, s) ↦
          omega (arith, q, s, w.rising (suc a) (suc b) (omega (arith, h)) (omega (arith, k, fewer)))
    ]
  ]

  skip-inside : (a : ℕ) → a < m → skip a < count
  skip-inside a h = elim (skip_cases a) [
    | inl (p, q) ↦ omega (arith, q, w.inside a (omega (arith, h, fewer)))
    | inr (p, q) ↦ omega (arith, q, w.inside (suc a) (omega (arith, h, fewer)))
  ]

  -- The symbol after each place, the merged one's included.
  next-skip :
      (a : ℕ)
      → a < m
      → ((suc a < m) × ((after (skip a)).next ≡ skip (suc a)))
        ⊎ ((suc a ≡ m) × ((after (skip a)).next ≡ no_place))
  next-skip a h = elim (ℕ_discrete a i) [
    | yes e ↦
        let here : (after (skip a)).next ≡ (piece (at (suc i))).next =
          ap (λ (p : ℕ). (after p).next) (skip_next-low at i a (omega (arith, e)) ∙ ap at e)
          ∙ next-merged w i v l in
        elim (after_cases w i v l) [
          | inl (p, q) ↦ inl (
            omega (arith, p, fewer, e),
            here
                ∙ q
                ∙ ap (λ (k : ℕ). at (suc (suc k))) (sym e)
                ∙ sym (skip_next-high at i (suc a) (omega (arith, e))),
          )
          | inr (p, q) ↦ inr (omega (arith, p, fewer, e), here ∙ q)
        ]
    | no k ↦ elim (skip_cases a) [
      | inl (p, q) ↦ inl (
        omega (arith, p, k, l, fewer),
        ap (λ (x : ℕ). (after x).next) q
            ∙ next-kept w i v l a (omega (arith, h, fewer)) k (λ e. omega (arith, e, p))
            ∙ w.next a (omega (arith, p, k, l))
            ∙ sym (skip_next-low at i (suc a) (omega (arith, p, k))),
      )
      | inr (p, q) ↦
          let same : (after (skip a)).next ≡ (piece (at (suc a))).next =
            ap (λ (x : ℕ). (after x).next) q
            ∙ next-kept w i v l (suc a) (omega (arith, h, fewer)) (λ e. omega (arith, e, p))
                (λ e. omega (arith, e, p)) in
          elim (dec_lt (suc a) m) [
            | yes r ↦ inl (
              r,
              same
                  ∙ w.next (suc a) (omega (arith, r, fewer))
                  ∙ sym (skip_next-high at i (suc a) (omega (arith, p))),
            )
            | no r ↦ inr (omega (arith, r, h), same ∙ w.last (suc a) (omega (arith, r, h, fewer)))
          ]
    ]
  ]

  prev-skip : (a : ℕ) → suc a < m → (after (skip (suc a))).prev ≡ skip a
  prev-skip a h = elim (skip_cases (suc a)) [
    | inl (p, q) ↦
        ap (λ (x : ℕ). (after x).prev) q
        ∙ prev-kept w i v l (suc a) (omega (arith, h, fewer)) (λ e. omega (arith, e, p))
            (λ e. omega (arith, e, p))
        ∙ w.prev a (omega (arith, h, fewer))
        ∙ sym (skip_next-low at i a (omega (arith, p)))
    | inr (p, q) ↦ elim (ℕ_discrete a i) [
      | yes e ↦
          ap (λ (x : ℕ). (after x).prev) (q ∙ ap (λ (k : ℕ). at (suc (suc k))) e)
          ∙ prev-after w i v l (omega (arith, h, fewer, e))
          ∙ ap at (sym e)
          ∙ sym (skip_next-low at i a (omega (arith, e)))
      | no k ↦
          ap (λ (x : ℕ). (after x).prev) q
          ∙ prev-kept w i v l (suc (suc a)) (omega (arith, h, fewer)) (λ e. omega (arith, e, p))
              (λ e. k (omega (arith, e)))
          ∙ w.prev (suc a) (omega (arith, h, fewer))
          ∙ sym (skip_next-high at i a (omega (arith, p, k)))
    ]
  ]

  at_place :
      (p : ℕ) → p < count → (after p).next ≢ no_place → (x : ℕ) × (x < n) × (x ≢ suc i) × (at x ≡ p)
  at_place p h k = elim (ℕ_discrete p (at (suc i))) [
    | yes e ↦
        absurd
          (k (next-unlink piece (at i) (at (suc i)) v (ends_apart w i v l) p ∙ ground (arith, e)))
    | no a ↦ elim (ℕ_discrete p (at i)) [
      | yes e ↦ (i, omega (arith, l), (λ q. omega (arith, q)), sym e)
      | no b ↦
          let same : (after p).next ≡ (piece p).next =
            next-unlink piece (at i) (at (suc i)) v (ends_apart w i v l) p ∙ ground (arith, a, b) in
          let (x, q, e) = w.linked p h (λ z. k (same ∙ z)) in
          (x, omega (arith, q), (λ z. a (sym e ∙ ap at z)), e)
    ]
  ]

  -- A symbol that has a next one is at a place of the new chain.
  linked-skip :
      (p : ℕ) → p < count → (after p).next ≢ no_place → (a : ℕ) × (suc a < m) × (skip a ≡ p)
  linked-skip p h k =
      let (x, q, r, e) = at_place p h k in
      elim (dec_le x i) [
        | yes b ↦ placed x (omega (arith, q, b, l, fewer)) (skip_next-low at i x b ∙ e)
        | no b ↦
            placed (x - 1) (omega (arith, q, b, fewer))
              (skip_next-high at i (x - 1) (omega (arith, b, r)) ∙ ap at (back x b) ∙ e)
      ]
    where
      back : (x : ℕ) → ¬ (x ≤ i) → suc (x - 1) ≡ x
      back x b = omega (arith, b)

      placed : (a : ℕ) → a < m → skip a ≡ p → (a : ℕ) × (suc a < m) × (skip a ≡ p)
      placed a r e = elim (next-skip a r) [
        | inl (t, z) ↦ (a, t, e)
        | inr (t, z) ↦ absurd (k (ap (λ (y : ℕ). (after y).next) (sym e) ∙ z))
      ]

  pub unlink-IsChain : IsChain count m (skip_next at i) (unlink piece (at i) (at (suc i)) v)
  unlink-IsChain = record {
    few = w.few;
    some_left = omega (arith, l, fewer);
    start = skip_next-low at i 0 (omega arith) ∙ w.start;
    rising = skip-rising;
    inside = skip-inside;
    next = λ a h. elim (next-skip a (omega (arith, h))) [
      | inl (p, q) ↦ q
      | inr (p, q) ↦ absurd (omega (arith, p, h))
    ];
    last = λ a h. elim (next-skip a (omega (arith, h))) [
      | inl (p, q) ↦ absurd (omega (arith, p, h))
      | inr (p, q) ↦ q
    ];
    first =
        ap (λ (x : ℕ). (after x).prev) (sym w.start)
        ∙ prev-kept w i v l 0 (omega (arith, l)) (λ e. omega (arith, e)) (λ e. omega (arith, e))
        ∙ ap (λ (x : ℕ). (piece x).prev) w.start
        ∙ w.first;
    prev = prev-skip;
    linked = linked-skip;
  }
