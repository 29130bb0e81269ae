-- ===== src/Formats/Promise.antt =====
-- What the promise of a device layout comes to, src/core/formats/device_layout.h.
pub mod Sums
use native.Mathlib.Decide.{dec_lt, ℕ_discrete}
use browser_llm.Base.{
  ℕ, zero, suc, ◌+◌, ◌-◌, ◌%◌, ◌≤◌, ◌<◌, ◌≡◌, ◌≢◌, ◌⊎◌, refl, sym, ap, ◌∙◌, subst, Bool, true,
  false, not, ◌&&◌, ◌||◌, Option, none, some, List, [], ◌∷◌, arith, ltb, leb, ◌==◌, ==_iff, ltb→lt,
  ltb→le, leb→lt, leb→le, if◌then◌else◌, length, get_or, set, replicate, inl, inr, and_true,
  Bool-cases, Option-cases, get_or-set_self, get_or-set_other, get_or-replicate, length-set,
  length-replicate,
}
use mathlib.Core.Option.{some-injective}
use browser_llm.Formats.Promise.Sums.{
  holds, holders, sum_below, sum_below-add, sum_below-full, sum_below-width, sum_below-empty,
  sum_below-nothing,
}
use browser_llm.Formats.{
  Stream, DeviceLayout, max_block_bytes, max_streams, mark, is_aligned, cover, covers_block,
  keeps_its_promise,
}

-- What marking `left` bytes from `b` on has shown.
record IsMarked (block left b : ℕ) (seen more : List Bool) : Type 0 where
  size : length more ≡ 256
  inside : (c : ℕ) → b ≤ c → c < b + left → c < block
  fresh : (c : ℕ) → b ≤ c → c < b + left → get_or seen c false ≡ false
  kept : (c : ℕ) → get_or seen c false ≡ true → get_or more c false ≡ true
  marked : (c : ℕ) → b ≤ c → c < b + left → get_or more c false ≡ true

mark_step :
    (block left b : ℕ) (seen more : List Bool)
    → length seen ≡ 256
    → b < block
    → b < 256
    → get_or seen b false ≡ false
    → IsMarked block left (suc b) (set seen b true) more
    → IsMarked block (suc left) b seen more
mark_step block left b seen more n l k e w = record {
  size = w.size;
  inside = λ c p q. elim (ℕ_discrete c b) [
    | yes r ↦ omega (arith, r, l)
    | no r ↦ w.inside c (omega (arith, p, r)) (omega (arith, q))
  ];
  fresh = λ c p q. elim (ℕ_discrete c b) [
    | yes r ↦ ap (λ (t : ℕ). get_or seen t false) r ∙ e
    | no r ↦
        sym (get_or-set_other seen b c true false r)
        ∙ w.fresh c (omega (arith, p, r)) (omega (arith, q))
  ];
  kept = λ c p. w.kept c (elim (ℕ_discrete c b) [
    | yes r ↦ cc (p, e, ap (λ (t : ℕ). get_or seen t false) r)
    | no r ↦ get_or-set_other seen b c true false r ∙ p
  ]);
  marked = λ c p q. elim (ℕ_discrete c b) [
    | yes r ↦
        ap (λ (t : ℕ). get_or more t false) r
        ∙ w.kept b (get_or-set_self seen b true false (omega (arith, n, k)))
    | no r ↦ w.marked c (omega (arith, p, r)) (omega (arith, q))
  ];
}

mark-IsMarked :
    (block left b : ℕ) (seen more : List Bool)
    → length seen ≡ 256
    → mark block left b seen ≡ some more
    → IsMarked block left b seen more
unfolding mark
mark-IsMarked block zero b seen more n e =
    let same = some-injective seen more e in
    record {
      size = sym (ap (λ (t : List Bool). length t) same) ∙ n;
      inside = λ c p q. absurd (omega (arith, p, q));
      fresh = λ c p q. absurd (omega (arith, p, q));
      kept = λ c p. sym (ap (λ (t : List Bool). get_or t c false) same) ∙ p;
      marked = λ c p q. absurd (omega (arith, p, q));
    }
mark-IsMarked block (suc left) b seen more n e = elim (Bool-cases (leb block b)) [
  | inl a ↦ cc (rw a at e)
  | inr a ↦ elim (Bool-cases (leb 256 b)) [
    | inl k ↦ cc (rw (a, k) at e)
    | inr k ↦ elim (Bool-cases (get_or seen b false)) [
      | inl g ↦ cc (rw (a, k, g) at e)
      | inr g ↦ mark_step block left b seen more n (leb→lt _ _ a) (leb→lt _ _ k) g (
          mark-IsMarked block left (suc b) (set seen b true) more (length-set seen b true ∙ n)
            (rw (a, k, g) at e))
    ]
  ]
]

-- What is left of the streams, after some bytes have been seen.
record IsCovered (block : ℕ) (ss : List Stream) (covered total : ℕ) (seen : List Bool)
    : Type 0 where
  sum : total ≡ covered + sum_below block (holders ss)
  once : (c : ℕ) → holders ss c ≤ 1
  unseen : (c : ℕ) → get_or seen c false ≡ true → holders ss c ≡ 0

sum_below-stream :
    (block : ℕ) (s : Stream) (seen more : List Bool)
    → IsMarked block s.width s.offset seen more
    → sum_below block (holds s) ≡ s.width
sum_below-stream block s seen more w = elim (ℕ_discrete s.width 0) [
  | yes e ↦ sum_below-empty block s e ∙ sym e
  | no n ↦
      sum_below-width block s
        (omega (arith, n, w.inside (s.offset + s.width - 1) (omega (arith, n)) (omega (arith, n))))
]

holds_cases :
    (s : Stream) (c : ℕ)
    → ((s.offset ≤ c) × (c < s.offset + s.width) × (holds s c ≡ 1)) ⊎ (holds s c ≡ 0)
holds_cases s c = elim (Bool-cases (leb s.offset c)) [
  | inr a ↦ inr (rw a refl)
  | inl a ↦ elim (Bool-cases (ltb c (s.offset + s.width))) [
    | inr b ↦ inr (rw (a, b) refl)
    | inl b ↦ inl (leb→le _ _ a, ltb→lt _ _ b, rw (a, b) refl)
  ]
]

cover_step :
    (block covered total : ℕ) (s : Stream) (rest : List Stream) (seen more : List Bool)
    → IsMarked block s.width s.offset seen more
    → IsCovered block rest (covered + s.width) total more
    → IsCovered block (s ∷ rest) covered total seen
unfolding holders
cover_step block covered total s rest seen more w v = record {
  sum = omega (
    arith,
    v.sum,
    sum_below-stream block s seen more w,
    sum_below-add block (holds s) (holders rest),
  );
  once = λ c. elim (holds_cases s c) [
    | inl (p, q, r) ↦ omega (arith, r, v.unseen c (w.marked c p q))
    | inr r ↦ omega (arith, r, v.once c)
  ];
  unseen = λ c h. elim (holds_cases s c) [
    | inl (p, q, r) ↦ cc (h, w.fresh c p q)
    | inr r ↦ omega (arith, r, v.unseen c (w.kept c h))
  ];
}

cover-IsCovered :
    (block : ℕ) (ss : List Stream) (covered total : ℕ) (seen : List Bool)
    → length seen ≡ 256
    → cover block ss covered seen ≡ some total
    → IsCovered block ss covered total seen
unfolding cover holders
cover-IsCovered block [] covered total seen n e = record {
  sum = sym (some-injective covered total e) ∙ omega (arith, sum_below-nothing block);
  once = λ c. omega arith;
  unseen = λ c h. refl;
}
cover-IsCovered block (s ∷ rest) covered total seen n e = elim (Bool-cases (is_aligned s rest)) [
  | inr a ↦ cc (rw (a, cover) at e)
  | inl a ↦ elim (Option-cases (mark block s.width s.offset seen)) [
    | inl b ↦ cc (rw (a, b, cover) at e)
    | inr (more, b) ↦
        let w = mark-IsMarked block s.width s.offset seen more n b in
        cover_step block covered total s rest seen more w
          (cover-IsCovered block rest (covered + s.width) total more w.size (rw (a, b, cover) at e))
  ]
]

-- In a device layout that keeps its promise, every byte of a block lies in exactly one stream.
pub keeps_its_promise-holders :
    (layout : DeviceLayout)
    → keeps_its_promise layout ≡ true
    → (b : ℕ) → b < layout.block_bytes
    → holders layout.streams b ≡ 1
unfolding keeps_its_promise
keeps_its_promise-holders layout h b l =
    elim (Bool-cases
      (ltb max_block_bytes layout.block_bytes || ltb max_streams (length layout.streams))) [
        | inl a ↦ cc (rw (a, keeps_its_promise) at h)
        | inr a ↦
            by_cover (cover layout.block_bytes layout.streams 0 (replicate 256 false)) refl
              (rw (a, keeps_its_promise) at h)
      ]
  where
    by_cover :
        (o : Option ℕ)
        → cover layout.block_bytes layout.streams 0 (replicate 256 false) ≡ o
        → covers_block layout o ≡ true
        → holders layout.streams b ≡ 1
    by_cover none e k = cc
    by_cover (some total) e k =
        let w =
          cover-IsCovered layout.block_bytes layout.streams 0 total (replicate 256 false)
            (length-replicate 256 false) e in
        let full : total ≡ layout.block_bytes =
          (==_iff total layout.block_bytes).0 (and_true _ _ k).0 in
        sum_below-full layout.block_bytes (holders layout.streams) w.once
          (omega (arith, w.sum, full)) b l
