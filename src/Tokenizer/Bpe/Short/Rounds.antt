-- ===== src/Tokenizer/Bpe/Short/Rounds.antt =====
-- Each round of `merge_short` merges the best pair, src/core/tokenizer/bpe/merge.cpp.
use mathlib.Core.Option.{some-injective}
use native.Mathlib.Decide.{ℕ_discrete, dec_lt}
use browser_llm.Base.{
  ℕ, zero, suc, ◌+◌, ◌-◌, ◌≤◌, ◌<◌, ◌≡◌, ◌≢◌, inl, inr, refl, sym, ap, ◌∙◌, subst, Option, none,
  some, arith, ltb, Bool-cases, ltb→le,
}
use browser_llm.Tokenizer.Bpe.Table.{Merge}
use browser_llm.Tokenizer.Bpe.Merge.{Rules, no_rule, rank_or_none, merged_at}
use browser_llm.Tokenizer.Bpe.Short.{
  Array, put, close_gap, view, Piece, looked, look_up, look_all, close, look_left, look_right,
  merge_best,
}
use browser_llm.Tokenizer.Bpe.Short.Arrays.{merged_at-view}

-- Rank and result at `i` are those of the rule for the pair at `i`.
pub record IsLooked (rules : Rules) (p : Piece) (i : ℕ) : Type 0 where
  pub rank : p.ranks i ≡ rank_or_none (rules (p.parts i) (p.parts (suc i)))
  pub result : (m : Merge) → rules (p.parts i) (p.parts (suc i)) ≡ some m → p.results i ≡ m.result

abbrev pub AllLooked : Rules → Piece → Type 0
AllLooked rules p = (i : ℕ) → suc i < p.count → IsLooked rules p i

put_self : (a : Array) (i v : ℕ) → put a i v i ≡ v
put_self a i v = ground arith

module _ (rules : Rules) where
  look_up-same :
      (i : ℕ) (p : Piece)
      → ((look_up rules i p).count ≡ p.count) × ((look_up rules i p).parts ≡ p.parts)
  unfolding look_up
  look_up-same i p = by_rule (rules (p.parts i) (p.parts (suc i))) i p
    where
      by_rule :
          (o : Option Merge) (i : ℕ) (p : Piece)
          → ((looked o i p).count ≡ p.count) × ((looked o i p).parts ≡ p.parts)
      by_rule none i p = (refl, refl)
      by_rule (some m) i p = (refl, refl)

  look_up-IsLooked : (i : ℕ) (p : Piece) → IsLooked rules (look_up rules i p) i
  unfolding look_up
  look_up-IsLooked i p = by_rule (rules (p.parts i) (p.parts (suc i))) refl
    where
      by_rule :
          (o : Option Merge)
          → rules (p.parts i) (p.parts (suc i)) ≡ o
          → IsLooked rules (looked o i p) i
      by_rule none e = record {
        rank = put_self p.ranks i no_rule ∙ sym (ap rank_or_none e);
        result = λ m k. cc;
      }
      by_rule (some m) e = record {
        rank = put_self p.ranks i m.rank ∙ sym (ap rank_or_none e);
        result = λ n k.
            put_self p.results i m.result
            ∙ ap (λ (t : Merge). t.result) (some-injective m n (sym e ∙ k));
      }

  look_up-other :
      (i j : ℕ) (p : Piece) → j ≢ i → IsLooked rules p j → IsLooked rules (look_up rules i p) j
  unfolding look_up
  look_up-other i j p n h = by_rule (rules (p.parts i) (p.parts (suc i)))
    where
      by_rule : (o : Option Merge) → IsLooked rules (looked o i p) j
      by_rule none = record { rank = ground (arith, h.rank); result = h.result }
      by_rule (some m) = record {
        rank = ground (arith, h.rank);
        result = λ k e. ground (arith, h.result k e);
      }

  -- A look-up that carries a pair's fields over to another place.
  moved :
      (p q : Piece) (i j : ℕ)
      → q.ranks j ≡ p.ranks i
      → q.results j ≡ p.results i
      → q.parts j ≡ p.parts i
      → q.parts (suc j) ≡ p.parts (suc i)
      → IsLooked rules p i
      → IsLooked rules q j
  moved p q i j a b c d h = record {
    rank = a ∙ h.rank ∙ sym (ap rank_or_none pair);
    result = λ m e. b ∙ h.result m (sym pair ∙ e);
  }
    where
      pair : rules (q.parts j) (q.parts (suc j)) ≡ rules (p.parts i) (p.parts (suc i))
      pair = ap (λ (t : ℕ). rules t (q.parts (suc j))) c ∙ ap (rules (p.parts i)) d

  close-left :
      (best j : ℕ) (p : Piece) → suc j < best → IsLooked rules p j → IsLooked rules (close best p) j
  unfolding close
  close-left best j p l h =
      moved p (close best p) j j (ground arith) (ground arith) (ground arith) (ground arith) h

  close-right :
      (best j : ℕ) (p : Piece)
      → best < j
      → suc j < p.count - 1
      → IsLooked rules p (suc j)
      → IsLooked rules (close best p) j
  unfolding close
  close-right best j p l k h =
      moved p (close best p) (suc j) j (ground arith) (ground arith) (ground arith) (ground arith) h

  look_left-suc : (b : ℕ) (p : Piece) → look_left rules (suc b) p ≡ look_up rules b p
  look_left-suc b p = ground arith

  look_left-same :
      (best : ℕ) (p : Piece)
      → ((look_left rules best p).count ≡ p.count) × ((look_left rules best p).parts ≡ p.parts)
  look_left-same zero p = (refl, refl)
  look_left-same (suc b) p = rw (look_left-suc b p) (look_up-same b p)

  look_left-IsLooked :
      (best j : ℕ) (p : Piece)
      → j ≢ best
      → (suc j < best → IsLooked rules p j)
      → (best < j → IsLooked rules p j)
      → IsLooked rules (look_left rules best p) j
  look_left-IsLooked zero j p n left right = right (omega (arith, n))
  look_left-IsLooked (suc b) j p n left right = rw (look_left-suc b p) (elim (ℕ_discrete j b) [
    | yes e ↦ subst (λ k. IsLooked rules (look_up rules b p) k) (sym e) (look_up-IsLooked b p)
    | no k ↦
        look_up-other b j p k
          (elim (dec_lt (suc j) (suc b)) [ yes l ↦ left l | no m ↦ right (omega (arith, n, k, m)) ])
  ])

  look_right-same :
      (best : ℕ) (p : Piece)
      → ((look_right rules best p).count ≡ p.count) × ((look_right rules best p).parts ≡ p.parts)
  look_right-same best p = elim (Bool-cases (ltb (best + 1) p.count)) [
    | inl e ↦ rw e (look_up-same best p)
    | inr e ↦ rw e (refl, refl)
  ]

  look_right-IsLooked :
      (best j : ℕ) (p : Piece)
      → suc j < p.count
      → (j ≢ best → IsLooked rules p j)
      → IsLooked rules (look_right rules best p) j
  look_right-IsLooked best j p l h = elim (Bool-cases (ltb (best + 1) p.count)) [
    | inl e ↦ rw e (elim (ℕ_discrete j best) [
      | yes k ↦
          subst (λ i. IsLooked rules (look_up rules best p) i) (sym k) (look_up-IsLooked best p)
      | no n ↦ look_up-other best j p n (h n)
    ])
    | inr e ↦ rw e (h λ k. omega (arith, k, ltb→le _ _ e))
  ]

  merge_best-same :
      (best : ℕ) (p : Piece)
      → ((merge_best rules best p).count ≡ (close best p).count)
        × ((merge_best rules best p).parts ≡ (close best p).parts)
  merge_best-same best p =
      let left = look_left-same best (close best p) in
      let right = look_right-same best (look_left rules best (close best p)) in
      (right.0 ∙ left.0, right.1 ∙ left.1)

  count-close : (best : ℕ) (p : Piece) → (close best p).count ≡ p.count - 1
  unfolding close
  count-close best p = refl

  parts-close :
      (best : ℕ) (p : Piece)
      → (close best p).parts ≡ close_gap (best + 1) p.count (put p.parts best (p.results best))
  unfolding close
  parts-close best p = refl

  pub count-merge_best : (best : ℕ) (p : Piece) → (merge_best rules best p).count ≡ p.count - 1
  count-merge_best best p = (merge_best-same best p).0 ∙ count-close best p

  -- A round keeps every pair looked up.
  pub merge_best-AllLooked :
      (best : ℕ) (p : Piece) → AllLooked rules p → AllLooked rules (merge_best rules best p)
  merge_best-AllLooked best p h j l =
      let left = look_left-same best (close best p) in
      let inside : suc j < p.count - 1 =
        omega (arith, l, (merge_best-same best p).0, count-close best p) in
      look_right-IsLooked best j (look_left rules best (close best p))
        (omega (arith, inside, left.0, count-close best p))
        λ n.
          look_left-IsLooked best j (close best p) n
            (λ k. close-left best j p k (h j (omega (arith, inside))))
            (λ k. close-right best j p k inside (h (suc j) (omega (arith, inside))))

  -- A round replaces the pair at `best`.
  pub view-merge_best :
      (best k : ℕ) (p : Piece)
      → p.count ≡ suc (suc k)
      → best ≤ k
      → view (merge_best rules best p).count (merge_best rules best p).parts
        ≡ merged_at best (p.results best) (view p.count p.parts)
  view-merge_best best k p e l =
      rw
        (
          (merge_best-same best p).0,
          (merge_best-same best p).1,
          count-close best p,
          parts-close best p,
        )
        (known p.count (p.count - 1) (best + 1) e (omega (arith, e)) (omega arith))
    where
      known :
          (n m b : ℕ)
          → n ≡ suc (suc k)
          → m ≡ suc k
          → b ≡ suc best
          → view m (close_gap b n (put p.parts best (p.results best)))
            ≡ merged_at best (p.results best) (view n p.parts)
      known n m b q r t = rw (q, r, t) (sym (merged_at-view best k p.parts (p.results best) l))

  pub look_all-AllLooked :
      (left i : ℕ) (p : Piece)
      → ((j : ℕ) → j < i → IsLooked rules p j)
      → ((look_all rules left i p).count ≡ p.count)
        × ((look_all rules left i p).parts ≡ p.parts)
        × ((j : ℕ) → j < i + left → IsLooked rules (look_all rules left i p) j)
  unfolding look_all
  look_all-AllLooked zero i p h = (refl, refl, λ j l. h j (omega (arith, l)))
  look_all-AllLooked (suc left) i p h =
      let rest = look_all-AllLooked left (suc i) (look_up rules i p) (one_more) in
      (
        rest.0 ∙ (look_up-same i p).0,
        rest.1 ∙ (look_up-same i p).1,
        λ j l. rest.2 j (omega (arith, l)),
      )
    where
      one_more : (j : ℕ) → j < suc i → IsLooked rules (look_up rules i p) j
      one_more j l = elim (ℕ_discrete j i) [
        | yes e ↦ subst (λ k. IsLooked rules (look_up rules i p) k) (sym e) (look_up-IsLooked i p)
        | no n ↦ look_up-other i j p n (h j (omega (arith, l, n)))
      ]
