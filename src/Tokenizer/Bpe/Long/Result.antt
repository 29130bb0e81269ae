-- ===== src/Tokenizer/Bpe/Long/Result.antt =====
-- What `merge_long` and `merge` append, src/core/tokenizer/bpe/merge.cpp.
use mathlib.Core.List.{append-nil}
use browser_llm.Tokenizer.Bpe.Long.Collect.{collect-view}
use browser_llm.Tokenizer.Bpe.Long.Start.{start-IsChain, start-IsQueued}
use browser_llm.Base.{
  ℕ, zero, suc, ◌+◌, ◌-◌, ◌*◌, ◌%◌, ◌^◌, ◌≤◌, ◌<◌, ◌≡◌, inl, inr, refl, sym, ap, ◌∙◌, subst, false,
  some, List, [], ◌∷◌, ◌++◌, arith, leb, ◌==◌, length, Bool-cases,
}
use browser_llm.Tokenizer.Bpe.Merge.{Rules, AreRanked, IsOutcome, Merges, done}
use browser_llm.Tokenizer.Bpe.Merge.Unique.{Merges-unique}
use browser_llm.Tokenizer.Bpe.Short.{view}
use browser_llm.Tokenizer.Bpe.Short.Arrays.{view-symbols}
use browser_llm.Tokenizer.Bpe.Short.Result.{merge_short-IsOutcome}
use browser_llm.Tokenizer.Bpe.Long.{
  no_place, short_piece, Symbols, Candidate, collected, Long, long_step, long_rounds, consider_all,
  chained, take_least, merge_long, merge,
}
use browser_llm.Tokenizer.Bpe.Long.Chain.{IsChain}
use browser_llm.Tokenizer.Bpe.Long.Pairs.{IsQueued, tokens, none_ruled}
use browser_llm.Tokenizer.Bpe.Long.Rounds.{long_step-Round}

-- The chain that the loop leaves, merged as far as the rules go.
pub record Finished (rules : Rules) (count n : ℕ) (at : ℕ → ℕ) (piece last : Symbols) : Type 0 where
  pub left : ℕ
  pub places : ℕ → ℕ
  pub is_chain : IsChain count left places last
  pub merges : Merges rules (view n (tokens piece at)) (view left (tokens last places))

module _ (rules : Rules) (ranked : AreRanked rules) {count : ℕ} where
  pub long_rounds-Finished :
      (fuel n : ℕ) (at : ℕ → ℕ) (piece : Symbols) (queue : List Candidate)
      → IsChain count n at piece
      → IsQueued rules count n at piece queue
      → length queue + 2 * n < fuel
      → (last : Symbols) × (long_rounds rules fuel (record { piece = piece; queue = queue })
          ≡ some last)
        × Finished rules count n at piece last
  unfolding long_rounds
  long_rounds-Finished zero n at piece queue w h l = absurd (omega (arith, l))
  long_rounds-Finished (suc fuel) n at piece [] w h l = (
    piece,
    refl,
    record {
      left = n;
      places = at;
      is_chain = w;
      merges =
          done (view n (tokens piece at))
            (none_ruled rules w λ j m k e. elim (h.complete j m k e) [ ]);
    },
  )
  long_rounds-Finished (suc fuel) n at piece (c ∷ more) w h l =
      let r = long_step-Round rules ranked w c more h in
      let s : Long = long_step rules piece (take_least c more) in
      let (last, e, f) =
        long_rounds-Finished fuel r.left r.places s.piece s.queue r.is_chain r.is_queued
          (omega (arith, r.smaller, l)) in
      (
        last,
        e,
        record {
          left = f.left;
          places = f.places;
          is_chain = f.is_chain;
          merges = r.merges _ f.merges;
        },
      )

module _ (rules : Rules) (ranked : AreRanked rules) where
  merged_by :
      (symbols out : List ℕ) (count : ℕ)
      → count ≡ length symbols
      → 0 < count
      → count ≤ no_place
      → (merged : List ℕ) × (collected out count (
            long_rounds rules (3 * count + 1) (record {
              piece = chained symbols count;
              queue = consider_all rules (chained symbols count) (count - 1) 0 [];
            }))
          ≡ some (out ++ merged))
        × Merges rules symbols merged
  merged_by symbols out count e h few =
      let (queued, short) = start-IsQueued symbols count few h rules in
      let (last, r, f) =
        long_rounds-Finished rules ranked (3 * count + 1) count (λ i. i) (chained symbols count) _
          (start-IsChain symbols count few h) queued (omega (arith, short, h)) in
      (
        view f.left (tokens last f.places),
        ap (collected out count) r ∙ collect-view f.is_chain out,
        subst (λ xs. Merges rules xs (view f.left (tokens last f.places)))
            (ap (λ (k : ℕ). view k (tokens (chained symbols count) (λ i. i))) e
              ∙ view-symbols symbols)
            f.merges,
      )

  pub merge_long-IsOutcome :
      (symbols out : List ℕ)
      → 0 < length symbols
      → length symbols < 2 ^ 32
      → (merged : List ℕ) × (merge_long rules symbols out ≡ some (out ++ merged))
        × IsOutcome rules symbols merged
  unfolding merge_long
  merge_long-IsOutcome symbols out h l =
      let e : length symbols % 2 ^ 32 ≡ length symbols = omega (arith, l) in
      let (merged, q, m) =
        merged_by symbols out (length symbols % 2 ^ 32) e (omega (arith, e, h))
          (omega (arith, e, l)) in
      (merged, q, record { reached = m; only = λ zs n. Merges-unique rules symbols zs merged n m })

  -- For rules whose ranks are below the reserved one and fewer than 2^32 symbols, merge ends, for
  -- short pieces and for long ones, and appends the outcome of merging: the tokens that are reached
  -- by replacing, over and over, the adjacent pair of the lowest rank, the leftmost of equals, by
  -- its rule's token, until no pair has a rule; no other tokens can be reached so.
  pub merge-IsOutcome :
      (symbols out : List ℕ)
      → length symbols < 2 ^ 32
      → (merged : List ℕ) × (merge rules symbols out ≡ some (out ++ merged))
        × IsOutcome rules symbols merged
  unfolding merge
  merge-IsOutcome [] out l =
      let m : Merges rules [] [] = done [] λ j h. absurd (omega (arith, h)) in
      (
        [],
        ap (λ (t : List ℕ). some t) (sym (append-nil out)),
        record { reached = m; only = λ zs n. Merges-unique rules [] zs [] n m },
      )
  merge-IsOutcome (s ∷ symbols) out l =
      let some_there : (length (s ∷ symbols) == 0) ≡ false = ground arith in
      elim (Bool-cases (leb (length (s ∷ symbols)) short_piece)) [
        | inl e ↦ rw (some_there, e) (merge_short-IsOutcome rules ranked (s ∷ symbols) out)
        | inr e ↦ rw (some_there, e) (merge_long-IsOutcome (s ∷ symbols) out (omega arith) l)
      ]
