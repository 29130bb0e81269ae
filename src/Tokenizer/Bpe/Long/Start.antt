-- ===== src/Tokenizer/Bpe/Long/Start.antt =====
-- What the loop of `merge_long` starts from, src/core/tokenizer/bpe/merge.cpp.
use native.Mathlib.Decide.{ℕ_discrete, dec_lt}
use browser_llm.Base.{
  ℕ, zero, suc, ◌+◌, ◌-◌, ◌≤◌, ◌<◌, ◌≡◌, refl, sym, ap, ◌∙◌, subst, some, List, [], arith, length,
}
use browser_llm.Tokenizer.Bpe.Table.{Merge}
use browser_llm.Tokenizer.Bpe.Merge.{Rules}
use browser_llm.Tokenizer.Bpe.Long.{no_place, Symbols, Candidate, consider, consider_all, chained}
use browser_llm.Tokenizer.Bpe.Long.Queue.{In}
use browser_llm.Tokenizer.Bpe.Long.Chain.{IsChain}
use browser_llm.Tokenizer.Bpe.Long.Pairs.{
  candidate, IsSound, IsQueued, consider-keeps, consider-has, consider-IsSound,
}
use browser_llm.Tokenizer.Bpe.Long.Steps.{next-inside}
use browser_llm.Tokenizer.Bpe.Long.Rounds.{length-consider}

-- The chain that the loop starts from.
module _ (symbols : List ℕ) (count : ℕ) (few : count ≤ no_place) (nonempty : 0 < count) where
  abbrev pub piece : Symbols
  piece = chained symbols count

  next-inner : (i : ℕ) → suc i < count → (piece i).next ≡ suc i
  next-inner i h = ground (arith, h)

  next-outer : (i : ℕ) → suc i ≡ count → (piece i).next ≡ no_place
  next-outer i h = ground (arith, h)

  pub start-IsChain : IsChain count count (λ i. i) piece
  start-IsChain = record {
    few = few;
    some_left = nonempty;
    start = refl;
    rising = λ i j h k. h;
    inside = λ i h. h;
    next = next-inner;
    last = next-outer;
    first = refl;
    prev = λ i h. ground arith;
    linked = λ p h k. elim (dec_lt (suc p) count) [
      | yes l ↦ (p, l, refl)
      | no m ↦ absurd (k (next-outer p (omega (arith, h, m))))
    ];
  }

  module _ (rules : Rules) where
    pub record Queued (done : ℕ) (queue : List Candidate) : Type 0 where
      pub sound : (c : Candidate) → In c queue → IsSound rules count c
      pub complete :
          (i : ℕ) (m : Merge)
          → i < done
          → suc i < count
          → rules (piece i).token (piece (suc i)).token ≡ some m
          → In (candidate piece i (suc i) m) queue

    pub consider_all-Queued :
        (left i : ℕ) (queue : List Candidate)
        → i + left < count
        → Queued i queue
        → Queued (i + left) (consider_all rules piece left i queue)
          × (length (consider_all rules piece left i queue) ≤ length queue + left)
    unfolding consider_all
    consider_all-Queued zero i queue h q = (
      record { sound = q.sound; complete = λ j m k l r. q.complete j m (omega (arith, k)) l r },
      omega arith,
    )
    consider_all-Queued (suc left) i queue h q =
        let (r, k) =
          consider_all-Queued left (suc i) (consider rules piece i queue) (omega (arith, h))
            one_more in
        (
          record { sound = r.sound; complete = λ j m x l e. r.complete j m (omega (arith, x)) l e },
          omega (arith, k, length-consider rules piece i queue),
        )
      where
        one_more : Queued (suc i) (consider rules piece i queue)
        one_more = record {
          sound =
              consider-IsSound rules count piece i queue (omega (arith, h))
                (next-inside start-IsChain i (omega (arith, h))) q.sound;
          complete = λ j m x l e. elim (ℕ_discrete j i) [
            | yes z ↦
                subst (λ a. In (candidate piece a (suc a) m) (consider rules piece i queue)) (sym z)
                  (consider-has rules piece i (suc i) queue m (next-inner i (omega (arith, h)))
                    (omega (arith, h, few))
                    (ap (λ (a : ℕ). rules (piece a).token (piece (suc a)).token) (sym z) ∙ e))
            | no z ↦ consider-keeps rules piece i queue _ (q.complete j m (omega (arith, x, z)) l e)
          ];
        }

    -- Every pair with a rule is in the queue.
    pub start-IsQueued :
        IsQueued rules count count (λ i. i) piece (consider_all rules piece (count - 1) 0 [])
        × (length (consider_all rules piece (count - 1) 0 []) ≤ count - 1)
    start-IsQueued =
        let (q, l) =
          consider_all-Queued (count - 1) 0 [] (omega (arith, nonempty))
            (record { sound = λ c h. elim h [ ]; complete = λ j m h. absurd (omega (arith, h)) }) in
        (
          record { sound = q.sound; complete = λ j m h e. q.complete j m (omega (arith, h)) h e },
          omega (arith, l),
        )
