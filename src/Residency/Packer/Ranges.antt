-- ===== src/Residency/Packer/Ranges.antt =====
-- What `Packer::place` of src/core/residency/plan.cpp keeps true of all the ranges it has placed.
use browser_llm.Base.{
  ℕ, ◌+◌, ◌%◌, ◌≤◌, ◌<◌, ◌≡◌, ◌≢◌, ◌⊎◌, inl, inr, ap, true, List, [], ◌∷◌, ◌++◌, arith, length, All,
  All-mono, All-append,
}
use native.Mathlib.Decide.{ℕ_discrete}
use browser_llm.Gguf.Sorting.Laws.{AllPairs}
use browser_llm.Residency.Packer.{DeviceLimits, PlannedBuffer, BufferRange, Packer}
use browser_llm.Residency.Packer.Buffers.{size_at}

-- In different buffers, or one before the other.
abbrev pub Disjoint : BufferRange → BufferRange → Type 0
Disjoint a b =
    (a.buffer ≢ b.buffer) ⊎ (a.offset + a.length ≤ b.offset) ⊎ (b.offset + b.length ≤ a.offset)

-- A range that a binding can take: inside its buffer, at an aligned offset, whole words long.
pub record IsBindable (limits : DeviceLimits) (bs : List PlannedBuffer) (r : BufferRange)
    : Type 0 where
  pub exists : r.buffer < length bs
  pub inside : r.offset + r.length ≤ size_at bs r.buffer
  pub aligned : r.offset % limits.storage_offset_alignment ≡ 0
  pub granular : r.length % 4 ≡ 0
  pub bound : r.length ≤ limits.max_storage_binding_size

-- All the ranges that have been placed, and the buffers that hold them.
pub record IsPacked (limits : DeviceLimits) (bs : List PlannedBuffer) (rs : List BufferRange)
    : Type 0 where
  pub bindable : All (IsBindable limits bs) rs
  pub apart : AllPairs Disjoint rs
  pub bounded : (i : ℕ) → size_at bs i ≤ limits.max_buffer_size

-- A packer with an open buffer has one.
abbrev pub HasOpen : Packer → List PlannedBuffer → Type 0
HasOpen p bs = p.open_buffer ≡ true → 0 < length bs

-- No buffer shrinks.
pub record Grown (bs cs : List PlannedBuffer) : Type 0 where
  pub longer : length bs ≤ length cs
  pub larger : (i : ℕ) → size_at bs i ≤ size_at cs i

IsBindable-Grown :
    (limits : DeviceLimits) (bs cs : List PlannedBuffer) (r : BufferRange)
    → Grown bs cs
    → IsBindable limits bs r
    → IsBindable limits cs r
IsBindable-Grown limits bs cs r g b = record {
  exists = omega (arith, b.exists, g.longer);
  inside = omega (arith, b.inside, g.larger r.buffer);
  aligned = b.aligned;
  granular = b.granular;
  bound = b.bound;
}

AllPairs-snoc :
    {A : Type 0} (R : A → A → Type 0) (xs : List A) (y : A)
    → AllPairs R xs
    → All (λ x. R x y) xs
    → AllPairs R (xs ++ (y ∷ []))
AllPairs-snoc R [] y h k = (tt, tt)
AllPairs-snoc R (x ∷ xs) y h k =
    (All-append (R x) xs (y ∷ []) h.0 (k.0, tt), AllPairs-snoc R xs y h.1 k.1)

-- A new range behind everything that its buffer holds.
pub extend-IsPacked :
    (limits : DeviceLimits) (bs cs : List PlannedBuffer) (rs : List BufferRange) (r : BufferRange)
    → Grown bs cs
    → ((i : ℕ) → size_at cs i ≤ limits.max_buffer_size)
    → IsBindable limits cs r
    → size_at bs r.buffer ≤ r.offset
    → IsPacked limits bs rs
    → IsPacked limits cs (rs ++ (r ∷ []))
extend-IsPacked limits bs cs rs r g m b h w = record {
  bindable =
      All-append (IsBindable limits cs) rs (r ∷ [])
        (All-mono (IsBindable limits bs) (IsBindable limits cs) rs
          (λ x q. IsBindable-Grown limits bs cs x g q) w.bindable)
        (b, tt);
  apart =
      AllPairs-snoc Disjoint rs r w.apart
        (All-mono (IsBindable limits bs) (λ x. Disjoint x r) rs (λ x q. behind x q) w.bindable);
  bounded = m;
}
  where
    behind : (x : BufferRange) → IsBindable limits bs x → Disjoint x r
    behind x q = elim (ℕ_discrete x.buffer r.buffer) [
      | yes e ↦ inr (inl (omega (arith, q.inside, ap (size_at bs) e)))
      | no n ↦ inl n
    ]
