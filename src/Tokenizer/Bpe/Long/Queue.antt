-- ===== src/Tokenizer/Bpe/Long/Queue.antt =====
-- The queue of candidates, src/core/tokenizer/bpe/merge.cpp: what taking a least one and adding one do.
use browser_llm.Base.{
  suc, ◌≡◌, ◌⊎◌, inl, inr, refl, ap, ◌∙◌, Bool, true, false, List, [], ◌∷◌, arith, if◌then◌else◌,
  length,
}
use browser_llm.Tokenizer.Bpe.Long.{Candidate, is_above, take_least}

-- The candidate is in the queue.
abbrev pub In : Candidate → List Candidate → Type 0
In x [] = ⊥
In x (c ∷ cs) = (x ≡ c) ⊎ In x cs

pub length-take_least :
    (c : Candidate) (cs : List Candidate) → length (take_least c cs).1 ≡ length cs
unfolding take_least
length-take_least c [] = refl
length-take_least c (d ∷ ds) = ap suc (length-take_least (if is_above c d then d else c) ds)

module _ (x c d e : Candidate) (ds rest : List Candidate) where
  later : (y : Candidate) → (x ≡ e) ⊎ In x rest → (x ≡ e) ⊎ In x (y ∷ rest)
  later y (inl q) = inl q
  later y (inr k) = inr (inr k)

  all_step :
      (b : Bool)
      → (In x ((if b then d else c) ∷ ds) → (x ≡ e) ⊎ In x rest)
      → In x (c ∷ d ∷ ds)
      → (x ≡ e) ⊎ In x ((if b then c else d) ∷ rest)
  all_step true go (inl q) = inr (inl q)
  all_step true go (inr k) = later c (go k)
  all_step false go (inl q) = later d (go (inl q))
  all_step false go (inr (inl q)) = inr (inl q)
  all_step false go (inr (inr k)) = later d (go (inr k))

  from_step :
      (b : Bool)
      → ((x ≡ e) ⊎ In x rest → In x ((if b then d else c) ∷ ds))
      → (x ≡ e) ⊎ In x ((if b then c else d) ∷ rest)
      → In x (c ∷ d ∷ ds)
  from_step true go (inl q) = inr (go (inl q))
  from_step true go (inr (inl q)) = inl q
  from_step true go (inr (inr k)) = inr (go (inr k))
  from_step false go (inl q) = past (go (inl q))
    where
      past : In x (c ∷ ds) → In x (c ∷ d ∷ ds)
      past (inl q) = inl q
      past (inr k) = inr (inr k)
  from_step false go (inr (inl q)) = inr (inl q)
  from_step false go (inr (inr k)) = past (go (inr k))
    where
      past : In x (c ∷ ds) → In x (c ∷ d ∷ ds)
      past (inl q) = inl q
      past (inr k) = inr (inr k)

-- What was in the queue was taken or is left.
pub take_least-all :
    (x c : Candidate) (cs : List Candidate)
    → In x (c ∷ cs)
    → (x ≡ (take_least c cs).0) ⊎ In x (take_least c cs).1
unfolding take_least
take_least-all x c [] (inl e) = inl e
take_least-all x c [] (inr h) = elim h [ ]
take_least-all x c (d ∷ ds) h =
    all_step x c d _ ds _ (is_above c d) (take_least-all x (if is_above c d then d else c) ds) h

-- What was taken or is left was in the queue.
pub take_least-from :
    (x c : Candidate) (cs : List Candidate)
    → (x ≡ (take_least c cs).0) ⊎ In x (take_least c cs).1
    → In x (c ∷ cs)
unfolding take_least
take_least-from x c [] (inl e) = inl e
take_least-from x c [] (inr h) = elim h [ ]
take_least-from x c (d ∷ ds) h =
    from_step x c d _ ds _ (is_above c d) (take_least-from x (if is_above c d then d else c) ds) h

above_trans :
    (a b c : Candidate) → is_above a b ≡ false → is_above b c ≡ false → is_above a c ≡ false
above_trans a b c h k = ground arith

above_asym : (a b : Candidate) → is_above a b ≡ true → is_above b a ≡ false
above_asym a b h = ground arith

above_self : (a : Candidate) → is_above a a ≡ false
above_self a = ground arith

least_step :
    (x c d e : Candidate) (ds : List Candidate) (b : Bool)
    → is_above c d ≡ b
    → ((y : Candidate) → In y ((if b then d else c) ∷ ds) → is_above e y ≡ false)
    → In x (c ∷ d ∷ ds)
    → is_above e x ≡ false
least_step x c d e ds true a go (inl q) =
    ap (is_above e) q ∙ above_trans e d c (go d (inl refl)) (above_asym c d a)
least_step x c d e ds true a go (inr k) = go x k
least_step x c d e ds false a go (inl q) = go x (inl q)
least_step x c d e ds false a go (inr (inl q)) =
    ap (is_above e) q ∙ above_trans e c d (go c (inl refl)) a
least_step x c d e ds false a go (inr (inr k)) = go x (inr k)

-- No other is below the one that was taken.
pub take_least-least :
    (x c : Candidate) (cs : List Candidate) → In x (c ∷ cs) → is_above (take_least c cs).0 x ≡ false
unfolding take_least
take_least-least x c [] (inl e) = ap (is_above c) e ∙ above_self c
take_least-least x c [] (inr h) = elim h [ ]
take_least-least x c (d ∷ ds) h =
    least_step x c d (take_least (if is_above c d then d else c) ds).0 ds (is_above c d) refl
      (λ y k. take_least-least y (if is_above c d then d else c) ds k) h
