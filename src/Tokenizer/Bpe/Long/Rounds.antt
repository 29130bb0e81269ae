-- ===== src/Tokenizer/Bpe/Long/Rounds.antt =====
-- A round of `merge_long`'s loop, src/core/tokenizer/bpe/merge.cpp: the candidate taken is dropped, or its
-- pair is the best one and is merged.
use native.Mathlib.Decide.{ℕ_discrete, dec_lt}
use browser_llm.Base.{
  ℕ, suc, ◌+◌, ◌-◌, ◌*◌, ◌≤◌, ◌<◌, ◌≡◌, ◌≢◌, ◌⊎◌, inl, inr, refl, sym, ap, ◌∙◌, subst, true, false,
  Option, none, some, List, ◌∷◌, arith, ◌==◌, length, Bool-cases,
}
use browser_llm.Tokenizer.Bpe.Table.{Merge}
use browser_llm.Tokenizer.Bpe.Merge.{Rules, AreRanked, merged_at, Merges, step}
use browser_llm.Tokenizer.Bpe.Short.{view, put, close_gap}
use browser_llm.Tokenizer.Bpe.Short.Arrays.{view-same, merged_at-view}
use browser_llm.Tokenizer.Bpe.Long.{
  no_place, Symbols, Candidate, is_above, take_least, queued, consider, consider_left, still_stands,
  unlink, Long, long_step,
}
use browser_llm.Tokenizer.Bpe.Long.Queue.{
  In, length-take_least, take_least-all, take_least-from, take_least-least,
}
use browser_llm.Tokenizer.Bpe.Long.Chain.{
  IsChain, at-injective, skip_next, token-kept, token-merged,
}
use browser_llm.Tokenizer.Bpe.Long.Unlink.{skip_next-low, skip_next-high}
use browser_llm.Tokenizer.Bpe.Long.Pairs.{
  candidate, merge_of, IsSound, IsQueued, tokens, stands-pair, candidate_stands, taken-IsBest,
  taken_rule,
}
use browser_llm.Tokenizer.Bpe.Long.Steps.{chain, merged-IsQueued}

module _ (rules : Rules) where
  pub length-consider :
      (piece : Symbols) (left : ℕ) (queue : List Candidate)
      → length (consider rules piece left queue) ≤ suc (length queue)
  unfolding consider
  length-consider piece left queue = elim (Bool-cases ((piece left).next == no_place)) [
    | inl e ↦ rw (e, consider) (omega arith)
    | inr e ↦ rw (e, consider) (by_rule (rules (piece left).token (piece (piece left).next).token))
  ]
    where
      by_rule :
          (o : Option Merge)
          → length (queued rules o piece left (piece left).next queue) ≤ suc (length queue)
      by_rule none = omega arith
      by_rule (some m) = omega arith

  length-consider_left :
      (piece : Symbols) (prev : ℕ) (queue : List Candidate)
      → length (consider_left rules piece prev queue) ≤ suc (length queue)
  length-consider_left piece prev queue = elim (Bool-cases (prev == no_place)) [
    | inl e ↦ rw e (omega arith)
    | inr e ↦ rw e (length-consider piece prev queue)
  ]

-- The tokens after merging a pair.
view-merged :
    {count n : ℕ} {at : ℕ → ℕ} {piece : Symbols} (w : IsChain count n at piece) (i m v : ℕ)
    → suc i < n
    → n ≡ suc m
    → view m (tokens (unlink piece (at i) (at (suc i)) v) (skip_next at i))
      ≡ merged_at i v (view n (tokens piece at))
view-merged {n = n} {at = at} {piece = piece} w i m v l fewer =
    let back : m ≡ suc (m - 1) = omega (arith, l, fewer) in
    let whole : suc (suc (m - 1)) ≡ n = omega (arith, back, fewer) in
    subst (λ k. view k after ≡ merged_at i v (view n (tokens piece at))) (sym back)
      (view-same (suc (m - 1)) after
          (close_gap (suc i) (suc (suc (m - 1))) (put (tokens piece at) i v))
          (λ j h.
            at_place j (omega (arith, h, back)) (suc (suc (m - 1))) (omega (arith, back, fewer)))
        ∙ sym (merged_at-view i (m - 1) (tokens piece at) v (omega (arith, l, fewer)))
        ∙ ap (λ (k : ℕ). merged_at i v (view k (tokens piece at))) whole)
  where
    after : ℕ → ℕ
    after = tokens (unlink piece (at i) (at (suc i)) v) (skip_next at i)

    at_place :
        (j : ℕ)
        → j < m
        → (stop : ℕ) → stop ≡ n
        → after j ≡ close_gap (suc i) stop (put (tokens piece at) i v) j
    at_place j h stop e = elim (ℕ_discrete j i) [
      | yes q ↦
          ap (λ (x : ℕ). (unlink piece (at i) (at (suc i)) v x).token)
            (skip_next-low at i j (omega (arith, q)) ∙ ap at q)
          ∙ token-merged w i v l
          ∙ ground (arith, q)
      | no k ↦ elim (dec_lt j i) [
        | yes q ↦
            ap (λ (x : ℕ). (unlink piece (at i) (at (suc i)) v x).token)
              (skip_next-low at i j (omega (arith, q)))
            ∙ token-kept w i v l j (omega (arith, h, fewer)) k
            ∙ ground (arith, q)
        | no q ↦
            ap (λ (x : ℕ). (unlink piece (at i) (at (suc i)) v x).token)
              (skip_next-high at i j (omega (arith, q, k)))
            ∙ token-kept w i v l (suc j) (omega (arith, h, fewer)) (λ z. omega (arith, z, q))
            ∙ ground (arith, q, k, h, fewer, e)
      ]
    ]

-- What is left after a round, of the loop's `size` before it.
pub record Round (rules : Rules) (count n : ℕ) (at : ℕ → ℕ) (piece : Symbols) (size : ℕ) (s : Long)
    : Type 0 where
  pub left : ℕ
  pub places : ℕ → ℕ
  pub is_chain : IsChain count left places s.piece
  pub is_queued : IsQueued rules count left places s.piece s.queue
  pub smaller : length s.queue + 2 * left < size + 2 * n
  pub merges :
      (zs : List ℕ)
      → Merges rules (view left (tokens s.piece places)) zs
      → Merges rules (view n (tokens piece at)) zs

long_step-stands :
    (rules : Rules) (piece : Symbols) (c : Candidate) (rest : List Candidate) (left right : ℕ)
    → still_stands piece c ≡ true
    → left ≡ c.left
    → right ≡ c.right
    → record {
      piece = unlink piece left right c.result;
      queue = consider rules (unlink piece left right c.result) left (
          consider_left rules
            (unlink piece left right c.result)
            (unlink piece left right c.result left).prev
            rest);
    }
      ≡ long_step rules piece (c, rest)
long_step-stands rules piece c rest left right e p q = rw (p, q, e) refl

module _ (rules : Rules) (ranked : AreRanked rules) {count n : ℕ} {at : ℕ → ℕ} {piece : Symbols}
    (w : IsChain count n at piece) (c : Candidate) (rest : List Candidate)
    (sound : IsSound rules count c)
    (sound_rest : (x : Candidate) → In x rest → IsSound rules count x)
    (all : (i : ℕ) (m : Merge)
      → suc i < n
      → rules (tokens piece at i) (tokens piece at (suc i)) ≡ some m
      → (candidate piece (at i) (at (suc i)) m ≡ c)
        ⊎ In (candidate piece (at i) (at (suc i)) m) rest)
    (least : (i : ℕ) (m : Merge)
      → suc i < n
      → rules (tokens piece at i) (tokens piece at (suc i)) ≡ some m
      → is_above c (candidate piece (at i) (at (suc i)) m) ≡ false) where
  dropped :
      still_stands piece c ≡ false
      → Round rules count n at piece (suc (length rest)) (long_step rules piece (c, rest))
  dropped e = rw e (record {
    left = n;
    places = at;
    is_chain = w;
    is_queued = record { sound = sound_rest; complete = other };
    smaller = omega arith;
    merges = λ zs h. h;
  })
    where
      other :
          (i : ℕ) (m : Merge)
          → suc i < n
          → rules (tokens piece at i) (tokens piece at (suc i)) ≡ some m
          → In (candidate piece (at i) (at (suc i)) m) rest
      other i m l r = elim (all i m l r) [
        | inl q ↦ absurd (cc (e, sym (ap (still_stands piece) q), candidate_stands rules w i m l))
        | inr h ↦ h
      ]

  module _ (i m : ℕ) (l : suc i < n) (fewer : n ≡ suc m) (here : at i ≡ c.left)
      (ruled : rules (tokens piece at i) (tokens piece at (suc i)) ≡ some (merge_of c)) where
    others :
        (j : ℕ) (r : Merge)
        → suc j < n
        → j ≢ i
        → rules (tokens piece at j) (tokens piece at (suc j)) ≡ some r
        → In (candidate piece (at j) (at (suc j)) r) rest
    others j r h k e = elim (all j r h e) [
      | inl q ↦ absurd (
          k (
            at-injective w j i (omega (arith, h)) (omega (arith, l))
              (ap (λ (x : Candidate). x.left) q ∙ sym here)))
      | inr z ↦ z
    ]

    abbrev after : Symbols
    after = unlink piece (at i) (at (suc i)) c.result

    taken : Round rules count n at piece (suc (length rest)) (record {
      piece = after;
      queue = consider rules after (at i) (consider_left rules after (after (at i)).prev rest);
    })
    taken = record {
      left = m;
      places = skip_next at i;
      is_chain = chain rules w i m c.result l fewer rest sound_rest others;
      is_queued = merged-IsQueued rules w i m c.result l fewer rest sound_rest others;
      smaller = omega (
        arith,
        fewer,
        length-consider rules after (at i) (consider_left rules after (after (at i)).prev rest),
        length-consider_left rules after (after (at i)).prev rest,
      );
      merges = λ zs h.
          step (view n (tokens piece at)) zs i (merge_of c)
            (taken-IsBest rules w ranked c i l here ruled least)
            (taken_rule rules w ranked c i l here ruled least)
            (subst (λ xs. Merges rules xs zs) (view-merged w i m c.result l fewer) h);
    }

  one_taken : Round rules count n at piece (suc (length rest)) (long_step rules piece (c, rest))
  one_taken = elim (Bool-cases (still_stands piece c)) [
    | inl e ↦
        let (i, l, p, q, t, u) = stands-pair rules w c sound e in
        let rule : rules (tokens piece at i) (tokens piece at (suc i)) ≡ some (merge_of c) =
          ap (λ (x : ℕ). rules x (tokens piece at (suc i))) t
          ∙ ap (rules c.left_token) u
          ∙ sound.ruled in
        subst (Round rules count n at piece (suc (length rest)))
          (long_step-stands rules piece c rest (at i) (at (suc i)) e p q)
          (taken i (n - 1) l (omega (arith, l)) p rule)
    | inr e ↦ dropped e
  ]

module _ (rules : Rules) (ranked : AreRanked rules) {count n : ℕ} {at : ℕ → ℕ} {piece : Symbols}
    (w : IsChain count n at piece) (c : Candidate) (more : List Candidate)
    (h : IsQueued rules count n at piece (c ∷ more)) where
  -- A round keeps the chain and the queue, makes them smaller, and merges the best pair or none.
  pub long_step-Round :
      Round rules count n at piece (suc (length more)) (long_step rules piece (take_least c more))
  long_step-Round =
      subst (λ k. Round rules count n at piece (suc k) (long_step rules piece (take_least c more)))
        (length-take_least c more)
        (one_taken rules ranked w (take_least c more).0 (take_least c more).1
          (h.sound _ (take_least-from _ c more (inl refl)))
          (λ x k. h.sound x (take_least-from x c more (inr k)))
          (λ i m l e. take_least-all _ c more (h.complete i m l e))
          (λ i m l e. take_least-least _ c more (h.complete i m l e)))
