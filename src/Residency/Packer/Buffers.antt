-- ===== src/Residency/Packer/Buffers.antt =====
-- A list of planned buffers seen through the size at each index.
use browser_llm.Base.{
  ℕ, zero, suc, ◌-◌, ◌≤◌, ◌<◌, ◌≡◌, refl, ap, List, [], ◌∷◌, ◌++◌, arith, ◌==◌, if◌then◌else◌,
  length,
}
use browser_llm.Residency.Packer.{PlannedBuffer, back_size, set_back_size}

unfoldable pub size_at : List PlannedBuffer → ℕ → ℕ
size_at [] i = 0
size_at (b ∷ bs) zero = b.size
size_at (b ∷ bs) (suc i) = size_at bs i

pub size_at-push :
    (bs : List PlannedBuffer) (b : PlannedBuffer) (i : ℕ)
    → size_at (bs ++ (b ∷ [])) i ≡ (if i == length bs then b.size else size_at bs i)
unfolding size_at
size_at-push [] b zero = refl
size_at-push [] b (suc i) = ground arith
size_at-push (c ∷ cs) b zero = ground arith
size_at-push (c ∷ cs) b (suc i) = ground (arith, size_at-push cs b i)

pub size_at-set_back :
    (n : ℕ) (bs : List PlannedBuffer) (i : ℕ)
    → 0 < length bs
    → size_at (set_back_size n bs) i ≡ (if suc i == length bs then n else size_at bs i)
unfolding size_at set_back_size
size_at-set_back n [] i h = absurd (omega arith)
size_at-set_back n (b ∷ []) zero h = refl
size_at-set_back n (b ∷ []) (suc i) h = ground arith
size_at-set_back n (b ∷ c ∷ rest) zero h = ground arith
size_at-set_back n (b ∷ c ∷ rest) (suc i) h = ground (arith, size_at-set_back n (c ∷ rest) i)

pub back_size-size_at : (bs : List PlannedBuffer) → back_size bs ≡ size_at bs (length bs - 1)
unfolding size_at back_size
back_size-size_at [] = refl
back_size-size_at (b ∷ []) = refl
back_size-size_at (b ∷ c ∷ rest) = ground (arith, back_size-size_at (c ∷ rest), step b c rest)
  where
    index :
        (b c : PlannedBuffer) (rest : List PlannedBuffer)
        → length (b ∷ c ∷ rest) - 1 ≡ suc (length (c ∷ rest) - 1)
    index b c rest = omega arith

    step :
        (b c : PlannedBuffer) (rest : List PlannedBuffer)
        → size_at (b ∷ c ∷ rest) (length (b ∷ c ∷ rest) - 1)
          ≡ size_at (c ∷ rest) (length (c ∷ rest) - 1)
    step b c rest = rw (index b c rest) refl

pub length-set_back : (n : ℕ) (bs : List PlannedBuffer) → length (set_back_size n bs) ≡ length bs
unfolding set_back_size
length-set_back n [] = refl
length-set_back n (b ∷ []) = refl
length-set_back n (b ∷ c ∷ rest) = ap suc (length-set_back n (c ∷ rest))

pub size_at_past : (bs : List PlannedBuffer) (i : ℕ) → length bs ≤ i → size_at bs i ≡ 0
unfolding size_at
size_at_past [] i h = refl
size_at_past (b ∷ bs) zero h = absurd (omega arith)
size_at_past (b ∷ bs) (suc i) h = size_at_past bs i (omega arith)
