-- ===== src/Gpu/Dispatch.antt =====
-- The number of workgroups for a number of elements, src/core/gpu/dispatch_math.cpp.
use native.Mathlib.Nat.{
  div-add-mod, mod-lt, div-le_self, mul-le-mul_left, mul-le-mul_right, mul-suc,
}
use native.Mathlib.Decide.{ℕ_discrete, dec_lt}
use browser_llm.Base.{
  ℕ, ◌+◌, ◌*◌, ◌/◌, ◌%◌, ◌≤◌, ◌<◌, suc, ap, subst, ◌≡◌, refl, Bool, true, false, arith, ltb, ltb→lt,
  ltb→le, sym, ◌==◌, if◌then◌else◌,
}
use browser_llm.Base.Words.{IsU64, add64}

pub data DispatchStatus : Type 0 where
  ok : DispatchStatus
  invalid_workgroup_size : DispatchStatus
  exceeds_device_limit : DispatchStatus

pub record DispatchResult : Type 0 where
  pub status : DispatchStatus
  pub workgroup_count : ℕ

abbrev pub needed_groups : ℕ → ℕ → ℕ
needed_groups element_count workgroup_size =
    add64 (element_count / workgroup_size) (if element_count % workgroup_size == 0 then 0 else 1)

unfoldable pub dispatch_count : ℕ → ℕ → ℕ → DispatchResult
dispatch_count element_count workgroup_size max_workgroups =
    if workgroup_size == 0
    then record { status = invalid_workgroup_size; workgroup_count = 0 }
    else if element_count == 0
    then record { status = ok; workgroup_count = 0 }
    else if ltb max_workgroups (needed_groups element_count workgroup_size)
    then record { status = exceeds_device_limit; workgroup_count = 0 }
    else record { status = ok; workgroup_count = needed_groups element_count workgroup_size }

-- `n` groups of `size` cover `count` elements, and no fewer do.
pub record IsCover (size count n : ℕ) : Type 0 where
  pub covers : count ≤ size * n
  pub least : (k : ℕ) → k < n → size * k < count

one_more : (size k q : ℕ) → k < q → size * k + size ≤ size * q
one_more size k q h = omega (arith, mul-le-mul_left size (next k q h), mul-suc size k)
  where
    next : (k q : ℕ) → k < q → suc k ≤ q
    next k q h = omega arith

exact-IsCover : (size count q : ℕ) → 0 < size → size * q ≡ count → IsCover size count q
exact-IsCover size count q p e = record {
  covers = omega arith;
  least = λ k h. omega (arith, one_more size k q h);
}

-- With a remainder, one more group is needed.
part-IsCover :
    (size count q r : ℕ) → 0 < r → r < size → size * q + r ≡ count → IsCover size count (q + 1)
part-IsCover size count q r p k e = record {
  covers = omega (arith, one_more size q (q + 1) (omega arith));
  least = λ n h. elim (dec_lt n q) [
    | yes below ↦ omega (arith, one_more size n q below)
    | no past ↦ omega (arith, ap (λ (t : ℕ). size * t) (same n q h (omega arith)))
  ];
}
  where
    same : (n q : ℕ) → n < q + 1 → q ≤ n → n ≡ q
    same n q h k = omega arith

small_quotient :
    (size count q r : ℕ) → IsU64 count → 0 < r → r < size → size * q + r ≡ count → IsU64 (q + 1)
small_quotient size count q r h p k e = omega (arith, mul-le-mul_right q (two_or_more r size p k))
  where
    two_or_more : (r size : ℕ) → 0 < r → r < size → 2 ≤ size
    two_or_more r size p k = omega arith

needed-IsCover :
    (count size : ℕ) → IsU64 count → 0 < size → IsCover size count (needed_groups count size)
needed-IsCover count size h p = elim (ℕ_discrete (count % size) 0) [
  | yes whole ↦
      subst (IsCover size count) (ground (arith, div-le_self count size))
        (exact-IsCover size count (count / size) p (omega (arith, div-add-mod count size)))
  | no part ↦
      let wide : count % size < size = mod-lt count p in
      let split : size * (count / size) + count % size ≡ count = div-add-mod count size in
      subst (IsCover size count)
        (ground (
          arith,
          small_quotient size count (count / size) (count % size) h (omega arith) wide split,
        ))
        (part-IsCover size count (count / size) (count % size) (omega arith) wide split)
]

-- What `dispatch_count` may answer: there is no group size; or its count is within the limit, covers
-- the elements, and no smaller one does; or no count within the limit covers them.
pub data IsAnswer (count size limit : ℕ) : DispatchResult → Type 0 where
  no_size :
      (r : DispatchResult)
      → size ≡ 0
      → r.status ≡ invalid_workgroup_size
      → IsAnswer count size limit r
  enough :
      (r : DispatchResult)
      → 0 < size
      → r.status ≡ ok
      → r.workgroup_count ≤ limit
      → IsCover size count r.workgroup_count
      → IsAnswer count size limit r
  too_few :
      (r : DispatchResult)
      → 0 < size
      → r.status ≡ exceeds_device_limit
      → size * limit < count
      → IsAnswer count size limit r

no_elements : (size : ℕ) → IsCover size 0 0
no_elements size = record { covers = omega arith; least = λ k h. absurd (omega arith) }

counted :
    (count size limit : ℕ)
    → 0 < size
    → IsCover size count (needed_groups count size)
    → (b : Bool) → ltb limit (needed_groups count size) ≡ b
    → IsAnswer count size limit (
        if b
        then record { status = exceeds_device_limit; workgroup_count = 0 }
        else record { status = ok; workgroup_count = needed_groups count size })
counted count size limit p c true e = too_few _ p refl (c.least limit (ltb→lt _ _ e))
counted count size limit p c false e = enough _ p refl (ltb→le _ _ e) c

not_zero : (n : ℕ) → ¬ (n ≡ 0) → (n == 0) ≡ false
not_zero n h = ground arith

-- For a 64-bit number of elements, dispatch_count answers that there is no group size, or gives a
-- count within the limit that covers the elements where no smaller one does, or says that the limit
-- is exceeded when as many groups as it allows leave elements uncovered.
pub dispatch_count-IsAnswer :
    (count size limit : ℕ)
    → IsU64 count
    → IsAnswer count size limit (dispatch_count count size limit)
unfolding dispatch_count
dispatch_count-IsAnswer count size limit h = elim (ℕ_discrete size 0) [
  | yes e ↦ no_size _ e (ground arith)
  | no sized ↦ elim (ℕ_discrete count 0) [
    | yes e ↦
        subst (λ n. IsAnswer n size limit (dispatch_count n size limit)) (sym e)
          (rw (not_zero size sized) (enough _ (omega arith) refl (omega arith) (no_elements size)))
    | no some_elements ↦
        rw (not_zero size sized, not_zero count some_elements)
          (counted count size limit (omega arith) (needed-IsCover count size h (omega arith)) _
            refl)
  ]
]
