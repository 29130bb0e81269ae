-- ===== src/Tokenizer/Bpe/Long/Pairs.antt =====
-- The queue holds every pair with a rule, src/core/tokenizer/bpe/merge.cpp, and the least candidate that
-- still stands is the best pair.
use browser_llm.Base.{
  ℕ, suc, ◌≤◌, ◌<◌, ◌≡◌, ◌≢◌, inl, inr, refl, sym, ap, ◌∙◌, subst, true, false, Option, none, some,
  List, arith, ◌==◌, ==_iff, ◌&&◌, and_true, length, Bool-cases, Option-cases,
}
use browser_llm.Tokenizer.Bpe.Table.{Merge}
use browser_llm.Tokenizer.Bpe.Merge.{
  Rules, AreRanked, no_rule, rank_or_none, symbol, pair_rank, IsBest,
}
use browser_llm.Tokenizer.Bpe.Short.{view}
use browser_llm.Tokenizer.Bpe.Short.Arrays.{length-view, symbol-view}
use browser_llm.Tokenizer.Bpe.Long.{
  no_place, Symbols, Candidate, is_above, queued, consider, still_stands,
}
use browser_llm.Tokenizer.Bpe.Long.Queue.{In}
use browser_llm.Tokenizer.Bpe.Long.Chain.{IsChain}

-- The candidate for the pair at two places, with its rule.
abbrev pub candidate : Symbols → ℕ → ℕ → Merge → Candidate
candidate piece left right m = record {
  rank = m.rank;
  left = left;
  right = right;
  left_token = (piece left).token;
  right_token = (piece right).token;
  result = m.result;
}

abbrev pub merge_of : Candidate → Merge
merge_of c = record { rank = c.rank; result = c.result }

-- A candidate of two places, with the rule for the tokens that it was queued for.
pub record IsSound (rules : Rules) (count : ℕ) (c : Candidate) : Type 0 where
  pub left_inside : c.left < count
  pub right_inside : c.right < count
  pub ruled : rules c.left_token c.right_token ≡ some (merge_of c)

pub record IsQueued (rules : Rules) (count n : ℕ) (at : ℕ → ℕ) (piece : Symbols)
    (queue : List Candidate) : Type 0 where
  pub sound : (c : Candidate) → In c queue → IsSound rules count c
  pub complete :
      (i : ℕ) (m : Merge)
      → suc i < n
      → rules (piece (at i)).token (piece (at (suc i))).token ≡ some m
      → In (candidate piece (at i) (at (suc i)) m) queue

module _ (rules : Rules) where
  -- Considering a place keeps the queue, and adds the pair there.
  pub consider-keeps :
      (piece : Symbols) (left : ℕ) (queue : List Candidate) (x : Candidate)
      → In x queue
      → In x (consider rules piece left queue)
  unfolding consider
  consider-keeps piece left queue x h = elim (Bool-cases ((piece left).next == no_place)) [
    | inl e ↦ rw (e, consider) h
    | inr e ↦ rw (e, consider) (by_rule (rules (piece left).token (piece (piece left).next).token))
  ]
    where
      by_rule : (o : Option Merge) → In x (queued rules o piece left (piece left).next queue)
      by_rule none = h
      by_rule (some m) = inr h

  pub consider-has :
      (piece : Symbols) (left right : ℕ) (queue : List Candidate) (m : Merge)
      → (piece left).next ≡ right
      → right ≢ no_place
      → rules (piece left).token (piece right).token ≡ some m
      → In (candidate piece left right m) (consider rules piece left queue)
  unfolding consider
  consider-has piece left right queue m e n r =
      rw (e, by_test right n, consider) (rw (r, queued) (inl refl))
    where
      by_test : (right : ℕ) → right ≢ no_place → (right == no_place) ≡ false
      by_test right n = ground arith

  pub consider-IsSound :
      (count : ℕ) (piece : Symbols) (left : ℕ) (queue : List Candidate)
      → left < count
      → ((piece left).next ≢ no_place → (piece left).next < count)
      → ((c : Candidate) → In c queue → IsSound rules count c)
      → (c : Candidate) → In c (consider rules piece left queue)
      → IsSound rules count c
  unfolding consider
  consider-IsSound count piece left queue h k s c =
      elim (Bool-cases ((piece left).next == no_place)) [
        | inl e ↦ rw (e, consider) (s c)
        | inr e ↦
            rw (e, consider)
              (by_rule (k λ q. cc ((==_iff _ _).1 q, e))
                (rules (piece left).token (piece (piece left).next).token) refl)
      ]
    where
      by_rule :
          (piece left).next < count
          → (o : Option Merge) → rules (piece left).token (piece (piece left).next).token ≡ o
          → In c (queued rules o piece left (piece left).next queue)
          → IsSound rules count c
      by_rule below none e t = s c t
      by_rule below (some m) e (inl t) =
          subst (IsSound rules count) (sym t)
            (record { left_inside = h; right_inside = below; ruled = e })
      by_rule below (some m) e (inr t) = s c t

-- The tokens left, in order.
abbrev pub tokens : Symbols → (ℕ → ℕ) → ℕ → ℕ
tokens piece at j = (piece (at j)).token

module _ (rules : Rules) {count n : ℕ} {at : ℕ → ℕ} {piece : Symbols}
    (w : IsChain count n at piece) where
  -- A candidate that still stands is an adjacent pair.
  pub stands-pair :
      (c : Candidate)
      → IsSound rules count c
      → still_stands piece c ≡ true
      → (i : ℕ) × (suc i < n)
        × (at i ≡ c.left)
        × (at (suc i) ≡ c.right)
        × ((piece (at i)).token ≡ c.left_token)
        × ((piece (at (suc i))).token ≡ c.right_token)
  stands-pair c s e =
      let (a, b) =
        and_true ((piece c.left).next == c.right)
          (((piece c.left).token == c.left_token) && ((piece c.right).token == c.right_token)) e in
      let (t, u) =
        and_true ((piece c.left).token == c.left_token) ((piece c.right).token == c.right_token)
          b in
      let next : (piece c.left).next ≡ c.right = (==_iff _ _).0 a in
      let (i, l, q) =
        w.linked c.left s.left_inside
          (λ (z : (piece c.left).next ≡ no_place). omega (arith, z, next, s.right_inside, w.few)) in
      let r : at (suc i) ≡ c.right = sym (w.next i l) ∙ ap (λ (p : ℕ). (piece p).next) q ∙ next in
      (
        i,
        l,
        q,
        r,
        ap (λ (p : ℕ). (piece p).token) q ∙ (==_iff _ _).0 t,
        ap (λ (p : ℕ). (piece p).token) r ∙ (==_iff _ _).0 u,
      )

  -- The candidate of an adjacent pair stands.
  pub candidate_stands :
      (i : ℕ) (m : Merge)
      → suc i < n
      → still_stands piece (candidate piece (at i) (at (suc i)) m) ≡ true
  candidate_stands i m l = ground (arith, w.next i l)

  pair_at :
      (j : ℕ)
      → suc j < n
      → rules (symbol (view n (tokens piece at)) j) (symbol (view n (tokens piece at)) (suc j))
        ≡ rules (tokens piece at j) (tokens piece at (suc j))
  pair_at j l =
      let a = symbol-view n (tokens piece at) j (omega (arith, l)) in
      let b = symbol-view n (tokens piece at) (suc j) l in
      ap (λ (t : ℕ). rules t (symbol (view n (tokens piece at)) (suc j))) a
      ∙ ap (rules (tokens piece at j)) b

  -- A pair's candidate is not below the one taken, so its rank is not, and neither is its place.
  module _ (ranked : AreRanked rules) (c : Candidate) (i : ℕ) (l : suc i < n) (here : at i ≡ c.left)
      (rule : rules (tokens piece at i) (tokens piece at (suc i)) ≡ some (merge_of c))
      (least : (j : ℕ) (m : Merge)
        → suc j < n
        → rules (tokens piece at j) (tokens piece at (suc j)) ≡ some m
        → is_above c (candidate piece (at j) (at (suc j)) m) ≡ false) where
    rank_here : pair_rank rules (view n (tokens piece at)) i ≡ c.rank
    rank_here = ap rank_or_none (pair_at i l ∙ rule)

    rank_below : c.rank < no_rule
    rank_below = ranked (tokens piece at i) (tokens piece at (suc i)) (merge_of c) rule

    rank_at :
        (j : ℕ)
        → suc j < n
        → (c.rank ≤ pair_rank rules (view n (tokens piece at)) j)
          × (j < i → c.rank < pair_rank rules (view n (tokens piece at)) j)
    rank_at j h = elim (Option-cases (rules (tokens piece at j) (tokens piece at (suc j)))) [
      | inl e ↦
          let none_here : pair_rank rules (view n (tokens piece at)) j ≡ no_rule =
            ap rank_or_none (pair_at j h ∙ e) in
          (omega (arith, rank_below, none_here), λ k. omega (arith, rank_below, none_here))
      | inr (m, e) ↦
          let rank_there : pair_rank rules (view n (tokens piece at)) j ≡ m.rank =
            ap rank_or_none (pair_at j h ∙ e) in
          let order = least j m h e in
          (
            ground (arith, rank_there, order),
            λ k. ground (arith, rank_there, order, w.rising j i k (omega (arith, l)), here),
          )
    ]

    pub taken-IsBest : IsBest rules (view n (tokens piece at)) i
    taken-IsBest = record {
      inside = omega (arith, l, length-view n (tokens piece at));
      ruled = omega (arith, rank_here, rank_below);
      lowest = λ j h.
          omega
            (arith, rank_here, (rank_at j (omega (arith, h, length-view n (tokens piece at)))).0);
      leftmost = λ j h. omega (arith, rank_here, (rank_at j (omega (arith, h, l))).1 h);
    }

    pub taken_rule :
        rules (symbol (view n (tokens piece at)) i) (symbol (view n (tokens piece at)) (suc i))
        ≡ some (merge_of c)
    taken_rule = pair_at i l ∙ rule

  -- Where no pair has a rule, merging is done.
  pub none_ruled :
      ((j : ℕ) (m : Merge)
        → suc j < n
        → ¬ (rules (tokens piece at j) (tokens piece at (suc j)) ≡ some m))
      → (j : ℕ) → suc j < length (view n (tokens piece at))
      → pair_rank rules (view n (tokens piece at)) j ≡ no_rule
  none_ruled none_of j h =
      elim (Option-cases (rules (tokens piece at j) (tokens piece at (suc j)))) [
        | inl e ↦
            ap rank_or_none (pair_at j (omega (arith, h, length-view n (tokens piece at))) ∙ e)
        | inr (m, e) ↦ absurd (none_of j m (omega (arith, h, length-view n (tokens piece at))) e)
      ]
