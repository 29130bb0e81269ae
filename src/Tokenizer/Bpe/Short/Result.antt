-- ===== src/Tokenizer/Bpe/Short/Result.antt =====
-- What `merge_short` appends, src/core/tokenizer/bpe/merge.cpp.
use browser_llm.Base.{
  ℕ, zero, suc, ◌-◌, ◌≤◌, ◌<◌, ◌≡◌, ◌≢◌, inl, inr, refl, sym, ap, ◌∙◌, subst, Option, none, some,
  List, ◌++◌, arith, ltb, ◌==◌, ==_iff, length, get_or, Bool-cases, ltb→lt, ltb→le,
}
use browser_llm.Tokenizer.Bpe.Table.{Merge}
use browser_llm.Tokenizer.Bpe.Merge.Unique.{Merges-unique}
use browser_llm.Tokenizer.Bpe.Merge.{
  Rules, IsOutcome, AreRanked, no_rule, rank_or_none, symbol, merged_at, pair_rank, IsBest, Merges,
  done, step,
}
use browser_llm.Tokenizer.Bpe.Short.{
  view, Piece, best_of, merge_best, rounds, piece_of, appended, merge_short,
}
use browser_llm.Tokenizer.Bpe.Short.Arrays.{
  length-view, symbol-view, view-symbols, IsLowest, best_of-IsLowest,
}
use browser_llm.Tokenizer.Bpe.Short.Rounds.{
  AllLooked, count-merge_best, merge_best-AllLooked, view-merge_best, look_all-AllLooked,
}

ranked_or_none :
    (o : Option Merge) → ((m : Merge) → o ≡ some m → m.rank < no_rule) → rank_or_none o ≤ no_rule
ranked_or_none none h = omega arith
ranked_or_none (some m) h = omega (arith, h m refl)

rule_of : (o : Option Merge) → rank_or_none o < no_rule → (m : Merge) × (o ≡ some m)
rule_of none h = absurd (omega arith)
rule_of (some m) h = (m, refl)

module _ (rules : Rules) (ranked : AreRanked rules) where
  pair_rank-le : (xs : List ℕ) (j : ℕ) → pair_rank rules xs j ≤ no_rule
  pair_rank-le xs j =
      ranked_or_none (rules (symbol xs j) (symbol xs (suc j)))
        (ranked (symbol xs j) (symbol xs (suc j)))

  module _ (p : Piece) (h : AllLooked rules p) where
    pair_at :
        (j : ℕ)
        → suc j < p.count
        → rules (symbol (view p.count p.parts) j) (symbol (view p.count p.parts) (suc j))
          ≡ rules (p.parts j) (p.parts (suc j))
    pair_at j l =
        let a = symbol-view p.count p.parts j (omega (arith, l)) in
        let b = symbol-view p.count p.parts (suc j) l in
        ap (λ (t : ℕ). rules t (symbol (view p.count p.parts) (suc j))) a ∙ ap (rules (p.parts j)) b

    rank_at : (j : ℕ) → suc j < p.count → pair_rank rules (view p.count p.parts) j ≡ p.ranks j
    rank_at j l = ap rank_or_none (pair_at j l) ∙ sym ((h j l).rank)

    best_of-first : 1 < p.count → IsLowest p.ranks (p.count - 1) (best_of p.ranks (p.count - 2) 1 0)
    best_of-first l =
        best_of-IsLowest p.ranks (p.count - 2) 1 0 (p.count - 1) (omega (arith, l)) (record {
          within = omega arith;
          lowest = λ j k. omega (arith, ap p.ranks (zero_one j k));
          leftmost = λ j k. absurd (omega (arith, k));
        })
      where
        zero_one : (j : ℕ) → j < 1 → 0 ≡ j
        zero_one j k = omega (arith, k)

    -- No pair has a rule when the best one has none.
    none_left :
        (best : ℕ)
        → IsLowest p.ranks (p.count - 1) best
        → p.ranks best ≡ no_rule
        → Merges rules (view p.count p.parts) (view p.count p.parts)
    none_left best w e = done (view p.count p.parts) λ j l.
        let inside : suc j < p.count = omega (arith, l, length-view p.count p.parts) in
        omega (
          arith,
          pair_rank-le (view p.count p.parts) j,
          rank_at j inside,
          e,
          w.lowest j (omega (arith, inside)),
        )

    lowest-IsBest :
        (best : ℕ)
        → IsLowest p.ranks (p.count - 1) best
        → p.ranks best ≢ no_rule
        → IsBest rules (view p.count p.parts) best
    lowest-IsBest best w n =
        let inside : suc best < p.count = omega (arith, w.within) in
        let here = rank_at best inside in
        record {
          inside = omega (arith, inside, length-view p.count p.parts);
          ruled = omega (arith, pair_rank-le (view p.count p.parts) best, here, n);
          lowest = λ j l.
              let k : suc j < p.count = omega (arith, l, length-view p.count p.parts) in
              omega (arith, here, rank_at j k, w.lowest j (omega (arith, k)));
          leftmost =
              λ j l. omega (arith, here, rank_at j (omega (arith, l, inside)), w.leftmost j l);
        }

    -- The best pair is merged, and merging goes on from there.
    one_round :
        (best : ℕ) (zs : List ℕ)
        → 1 < p.count
        → IsLowest p.ranks (p.count - 1) best
        → p.ranks best ≢ no_rule
        → Merges rules (view (merge_best rules best p).count (merge_best rules best p).parts) zs
        → Merges rules (view p.count p.parts) zs
    one_round best zs l w n more =
        let inside : suc best < p.count = omega (arith, w.within) in
        let found = rule_of (rules (p.parts best) (p.parts (suc best))) (
          omega (
            arith,
            (h best inside).rank,
            ranked_or_none (rules (p.parts best) (p.parts (suc best)))
                (ranked (p.parts best) (p.parts (suc best))),
            n,
          )) in
        step (view p.count p.parts) zs best found.0 (lowest-IsBest best w n)
          (pair_at best inside ∙ found.1)
          (subst (λ xs. Merges rules xs zs)
            (view-merge_best rules best (p.count - 2) p (omega (arith, l)) (omega (arith, inside))
              ∙ ap (λ (t : ℕ). merged_at best t (view p.count p.parts))
                  ((h best inside).result found.0 found.1))
            more)

  rounds-Merges :
      (fuel : ℕ) (p : Piece)
      → AllLooked rules p
      → p.count < fuel
      → (q : Piece) × (rounds rules fuel p ≡ some q)
        × Merges rules (view p.count p.parts) (view q.count q.parts)
  unfolding rounds
  rounds-Merges zero p h l = absurd (omega arith)
  rounds-Merges (suc fuel) p h l = elim (Bool-cases (ltb 1 p.count)) [
    | inr e ↦ rw e (
      p,
      refl,
      done (view p.count p.parts)
          λ j k. absurd (omega (arith, k, length-view p.count p.parts, ltb→le _ _ e)),
    )
    | inl e ↦ rw e (elim (Bool-cases (p.ranks (best_of p.ranks (p.count - 2) 1 0) == no_rule)) [
      | inl k ↦
          rw k (p, refl, none_left p h _ (best_of-first p h (ltb→lt _ _ e)) ((==_iff _ _).0 k))
      | inr k ↦
          let best : ℕ = best_of p.ranks (p.count - 2) 1 0 in
          let rest =
            rounds-Merges fuel (merge_best rules best p) (merge_best-AllLooked rules best p h)
              (omega (arith, l, count-merge_best rules best p, ltb→lt 1 p.count e)) in
          rw k (
            rest.0,
            rest.1,
            one_round p h best _ (ltb→lt _ _ e) (best_of-first p h (ltb→lt _ _ e))
                (λ q. cc ((==_iff _ _).1 q, k)) rest.2,
          )
    ])
  ]

  -- The piece that the rounds start from.
  start : (symbols : List ℕ) → Piece
  start symbols = record {
    count = length symbols;
    parts = λ i. get_or symbols i 0;
    ranks = λ i. 0;
    results = λ i. 0;
  }

  merged_by :
      (symbols out : List ℕ)
      → (merged : List ℕ) × (merge_short rules symbols out ≡ some (out ++ merged))
        × Merges rules symbols merged
  unfolding merge_short start
  merged_by symbols out =
      let looked =
        look_all-AllLooked rules (length symbols - 1) 0 (start symbols)
          (λ j l. absurd (omega (arith, l))) in
      let last =
        rounds-Merges (suc (length symbols)) (piece_of rules symbols)
          (λ j l. looked.2 j (omega (arith, l, looked.0))) (omega (arith, looked.0)) in
      (
        view last.0.count last.0.parts,
        ap (appended out) last.1,
        subst (λ xs. Merges rules xs (view last.0.count last.0.parts))
            (ap (λ (n : ℕ). view n (piece_of rules symbols).parts) looked.0
              ∙ ap (view (length symbols)) looked.1
              ∙ view-symbols symbols)
            last.2,
      )

  -- For rules whose ranks are below the reserved one, merge_short ends and appends the outcome of
  -- merging.
  pub merge_short-IsOutcome :
      (symbols out : List ℕ)
      → (merged : List ℕ) × (merge_short rules symbols out ≡ some (out ++ merged))
        × IsOutcome rules symbols merged
  merge_short-IsOutcome symbols out =
      let (merged, e, m) = merged_by symbols out in
      (merged, e, record { reached = m; only = λ zs n. Merges-unique rules symbols zs merged n m })
