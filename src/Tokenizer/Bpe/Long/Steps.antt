-- ===== src/Tokenizer/Bpe/Long/Steps.antt =====
-- A candidate taken from the queue, src/core/tokenizer/bpe/merge.cpp: dropped, or its pair merged.
use native.Mathlib.Decide.{ℕ_discrete, dec_lt}
use browser_llm.Base.{
  ℕ, suc, ◌-◌, ◌<◌, ◌≡◌, ◌≢◌, ◌⊎◌, inl, inr, sym, ap, ◌∙◌, subst, false, some, List, arith, ◌==◌,
  ==_iff, Bool-cases,
}
use browser_llm.Tokenizer.Bpe.Table.{Merge}
use browser_llm.Tokenizer.Bpe.Merge.{Rules}
use browser_llm.Tokenizer.Bpe.Long.{no_place, Symbols, Candidate, consider, consider_left, unlink}
use browser_llm.Tokenizer.Bpe.Long.Queue.{In}
use browser_llm.Tokenizer.Bpe.Long.Chain.{IsChain, skip_next, token-kept, prev-kept}
use browser_llm.Tokenizer.Bpe.Long.Unlink.{skip_next-low, skip_next-high, unlink-IsChain}
use browser_llm.Tokenizer.Bpe.Long.Pairs.{
  candidate, IsSound, IsQueued, consider-keeps, consider-has, consider-IsSound, tokens,
}

pub next-inside :
    {count n : ℕ} {at : ℕ → ℕ} {piece : Symbols}
    → IsChain count n at piece
    → (p : ℕ) → p < count
    → (piece p).next ≢ no_place
    → (piece p).next < count
next-inside {piece = piece} w p h k =
    let (i, l, e) = w.linked p h k in
    omega (arith, ap (λ (q : ℕ). (piece q).next) e, w.next i l, w.inside (suc i) l)

module _ (rules : Rules) {count n : ℕ} {at : ℕ → ℕ} {piece : Symbols} (w : IsChain count n at piece)
    (i m v : ℕ) (l : suc i < n) (fewer : n ≡ suc m) (rest : List Candidate)
    (sound : (c : Candidate) → In c rest → IsSound rules count c)
    (others : (j : ℕ) (r : Merge)
      → suc j < n
      → j ≢ i
      → rules (tokens piece at j) (tokens piece at (suc j)) ≡ some r
      → In (candidate piece (at j) (at (suc j)) r) rest) where
  abbrev pub after : Symbols
  after = unlink piece (at i) (at (suc i)) v

  pub chain : IsChain count m (skip_next at i) after
  chain = unlink-IsChain w i v m l fewer

  abbrev pub with_left : List Candidate
  with_left = consider_left rules after (after (at i)).prev rest

  -- The symbol before the merged one.
  before_cases :
      ((i ≡ 0) × ((after (at i)).prev ≡ no_place))
      ⊎ ((j : ℕ) × (suc j ≡ i) × ((after (at i)).prev ≡ at j))
  before_cases =
      let same =
        prev-kept w i v l i (omega (arith, l)) (λ e. omega (arith, e)) (λ e. omega (arith, e)) in
      elim (ℕ_discrete i 0) [
        | yes e ↦ inl (
          e,
          same
              ∙ ap (λ (p : ℕ). (piece (at p)).prev) e
              ∙ ap (λ (p : ℕ). (piece p).prev) w.start
              ∙ w.first,
        )
        | no k ↦
            let back : suc (i - 1) ≡ i = omega (arith, k) in
            inr (
              i - 1,
              back,
              same
                  ∙ ap (λ (p : ℕ). (piece (at p)).prev) (sym back)
                  ∙ w.prev (i - 1) (omega (arith, back, l)),
            )
      ]

  with_left-keeps : (x : Candidate) → In x rest → In x with_left
  with_left-keeps x h = elim (Bool-cases ((after (at i)).prev == no_place)) [
    | inl e ↦ rw e h
    | inr e ↦ rw e (consider-keeps rules after (after (at i)).prev rest x h)
  ]

  with_left-IsSound : (c : Candidate) → In c with_left → IsSound rules count c
  with_left-IsSound c = elim (Bool-cases ((after (at i)).prev == no_place)) [
    | inl e ↦ rw e (sound c)
    | inr e ↦ rw e (
        consider-IsSound rules count after (after (at i)).prev rest (prev_inside e)
          (next-inside chain _ (prev_inside e)) sound c)
  ]
    where
      prev_inside : ((after (at i)).prev == no_place) ≡ false → (after (at i)).prev < count
      prev_inside e = elim before_cases [
        | inl (a, b) ↦ cc ((==_iff (after (at i)).prev no_place).1 b, e)
        | inr (j, a, b) ↦ omega (arith, b, w.inside j (omega (arith, a, l)))
      ]

  candidate_same :
      {a b a' b' : ℕ} (r : Merge)
      → a ≡ b
      → a' ≡ b'
      → (after a).token ≡ (piece b).token
      → (after a').token ≡ (piece b').token
      → candidate piece b b' r ≡ candidate after a a' r
  candidate_same r p q t u = cc

  -- A pair of which neither is the merged symbol was a pair before.
  pair_same :
      (a b : ℕ) (r : Merge)
      → suc b < n
      → b ≢ i
      → suc b ≢ i
      → skip_next at i a ≡ at b
      → skip_next at i (suc a) ≡ at (suc b)
      → rules (tokens after (skip_next at i) a) (tokens after (skip_next at i) (suc a)) ≡ some r
      → In (candidate after (skip_next at i a) (skip_next at i (suc a)) r) rest
  pair_same a b r h k o p q e =
      let t = token-kept w i v l b (omega (arith, h)) k in
      let u = token-kept w i v l (suc b) h o in
      let t' : tokens after (skip_next at i) a ≡ tokens piece at b =
        ap (λ (x : ℕ). (after x).token) p ∙ t in
      let u' : tokens after (skip_next at i) (suc a) ≡ tokens piece at (suc b) =
        ap (λ (x : ℕ). (after x).token) q ∙ u in
      subst (λ (x : Candidate). In x rest) (candidate_same r p q t' u')
        (others b r h k (
          sym (ap (λ (x : ℕ). rules x (tokens piece at (suc b))) t')
          ∙ ap (rules (tokens after (skip_next at i) a)) (sym u')
          ∙ e))

  pub merged-IsQueued :
      IsQueued rules count m (skip_next at i) after (consider rules after (at i) with_left)
  merged-IsQueued = record {
    sound =
        consider-IsSound rules count after (at i) with_left (w.inside i (omega (arith, l)))
          (next-inside chain (at i) (w.inside i (omega (arith, l)))) with_left-IsSound;
    complete = complete;
  }
    where
      here_next : (a : ℕ) → suc a < m → a ≡ i → (after (at i)).next ≡ skip_next at i (suc a)
      here_next a h e =
          ap (λ (x : ℕ). (after x).next) (sym (skip_next-low at i a (omega (arith, e)) ∙ ap at e))
          ∙ chain.next a h

      left_next : (a : ℕ) → suc a < m → suc a ≡ i → (after (at a)).next ≡ skip_next at i (suc a)
      left_next a h e =
          ap (λ (x : ℕ). (after x).next) (sym (skip_next-low at i a (omega (arith, e))))
          ∙ chain.next a h

      below : (a : ℕ) → suc a < m → skip_next at i (suc a) ≢ no_place
      below a h e = omega (arith, e, chain.inside (suc a) h, w.few)

      before : (a : ℕ) → suc a ≡ i → (after (at i)).prev ≡ at a
      before a e = elim before_cases [
        | inl (z, q) ↦ absurd (omega (arith, z, e))
        | inr (j, z, q) ↦ q ∙ ap at (omega (arith, z, e))
      ]

      added :
          (a : ℕ) (r : Merge)
          → suc a < m
          → suc a ≡ i
          → rules (tokens after (skip_next at i) a) (tokens after (skip_next at i) (suc a)) ≡ some r
          → In (candidate after (skip_next at i a) (skip_next at i (suc a)) r) with_left
      added a r h e k =
          let low : skip_next at i a ≡ at a = skip_next-low at i a (omega (arith, e)) in
          let placed : (at a == no_place) ≡ false =
            ground (arith, w.inside a (omega (arith, e, l)), w.few) in
          rw (before a e, placed, low)
            (consider-has rules after (at a) (skip_next at i (suc a)) rest r (left_next a h e)
              (below a h)
              (ap (λ (x : ℕ). rules (after x).token (after (skip_next at i (suc a))).token)
                  (sym low)
                ∙ k))

      complete :
          (a : ℕ) (r : Merge)
          → suc a < m
          → rules (tokens after (skip_next at i) a) (tokens after (skip_next at i) (suc a)) ≡ some r
          → In
              (candidate after (skip_next at i a) (skip_next at i (suc a)) r)
              (consider rules after (at i) with_left)
      complete a r h k = elim (ℕ_discrete a i) [
        | yes e ↦
            let low : skip_next at i a ≡ at i = skip_next-low at i a (omega (arith, e)) ∙ ap at e in
            rw low (
              consider-has rules after (at i) (skip_next at i (suc a)) with_left r (here_next a h e)
                (below a h)
                (ap (λ (x : ℕ). rules (after x).token (after (skip_next at i (suc a))).token)
                    (sym low)
                  ∙ k))
        | no b ↦ consider-keeps rules after (at i) with_left _ (elim (ℕ_discrete (suc a) i) [
          | yes e ↦ added a r h e k
          | no d ↦ with_left-keeps _ (elim (dec_lt a i) [
            | yes q ↦
                pair_same a a r (omega (arith, h, fewer)) b d
                  (skip_next-low at i a (omega (arith, q)))
                  (skip_next-low at i (suc a) (omega (arith, q, d))) k
            | no q ↦
                pair_same a (suc a) r (omega (arith, h, fewer)) (λ z. omega (arith, z, q, b))
                  (λ z. omega (arith, z, q)) (skip_next-high at i a (omega (arith, q, b)))
                  (skip_next-high at i (suc a) (omega (arith, q, b))) k
          ])
        ])
      ]
