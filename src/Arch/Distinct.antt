-- ===== src/Arch/Distinct.antt =====
-- No tensor of a described model has two uses in its layers, src/core/arch/describe.cpp.
use mathlib.Core.Option.{some-injective}
use mathlib.Core.List.{append_assoc, append_cancel_left}
use native.Mathlib.Decide.{ℕ_discrete}
use browser_llm.Base.{
  ℕ, zero, suc, ◌+◌, ◌/◌, ◌%◌, ◌^◌, ◌<◌, ◌≡◌, ◌≢◌, ◌⊎◌, inl, inr, refl, sym, ap, ◌∙◌, subst, Bool,
  true, false, ◌&&◌, and_true, some, List, [], ◌∷◌, ◌++◌, arith, ◌==◌, if◌then◌else◌, length,
  get_elem?, get_or, drop, Bool-cases,
}
use browser_llm.Gguf.Types.{TensorIndex, TensorEntry}
use browser_llm.Gguf.Parse.{text_eq}
use browser_llm.Gguf.Parse.Names.{text_eq_iff}
use browser_llm.Model.{Role, role_number, LayerDescription, ModelDescription}
use browser_llm.Arch.{described, codes, RoleName}
use browser_llm.Arch.Names.{digits_before, to_string, number_of, number_of-digits_before}
use browser_llm.Arch.Describe.{Shape, shape_of, layer_prefix}
use browser_llm.Arch.Widths.{read_u32-lt}
use browser_llm.Arch.Describe.Architectures.{Architecture, llama, qwen3, gemma3, describe}
use browser_llm.Arch.Tensors.{IsTensor, IsOther}
use browser_llm.Arch.Families.{roles_of, IsModel, describe-IsModel}

digits_before-append :
    (fuel n : ℕ) (tail rest : List ℕ)
    → digits_before fuel n tail ++ rest ≡ digits_before fuel n (tail ++ rest)
unfolding digits_before
digits_before-append zero n tail rest = refl
digits_before-append (suc fuel) n tail rest = elim (Bool-cases (n / 10 == 0)) [
  | inl e ↦ rw e refl
  | inr e ↦ rw e (digits_before-append fuel (n / 10) ((b'0' + n % 10) ∷ tail) rest)
]

-- The layer's number, read back from a tensor's name.
number_of-name :
    (layer : ℕ) (suffix : List ℕ)
    → layer < 2 ^ 32
    → number_of (drop 4 (layer_prefix layer ++ suffix)) 0 ≡ layer
unfolding number_of
number_of-name layer suffix h =
    ap (λ (t : List ℕ). number_of t 0)
      (append_assoc (to_string layer) (codes ".") suffix
        ∙ digits_before-append 10 layer [] (codes "." ++ suffix))
    ∙ number_of-digits_before 10 layer (codes "." ++ suffix) (omega (arith, h))

names_differ :
    (i j : ℕ) (s t : List ℕ)
    → i < 2 ^ 32
    → j < 2 ^ 32
    → layer_prefix i ++ s ≡ layer_prefix j ++ t
    → (i ≡ j) × (s ≡ t)
names_differ i j s t h k e =
    let same : i ≡ j =
      sym (number_of-name i s h)
      ∙ ap (λ (x : List ℕ). number_of (drop 4 x) 0) e
      ∙ number_of-name j t k in
    (
      same,
      append_cancel_left (layer_prefix j) s t (ap (λ (n : ℕ). layer_prefix n ++ s) (sym same) ∙ e),
    )

role_back : ℕ → Role
role_back n =
    get_or
      (Role.attention_norm ∷ Role.query ∷ Role.key ∷ Role.value ∷ Role.attention_output
        ∷ Role.query_norm ∷ Role.key_norm ∷ Role.post_attention_norm ∷ Role.feed_forward_norm
        ∷ Role.gate ∷ Role.up ∷ Role.down ∷ Role.post_feed_forward_norm ∷ [])
      n Role.count

role_back_lem : (r : Role) → role_back (role_number r) ≡ r
unfolding role_back
role_back_lem Role.attention_norm = refl
role_back_lem Role.query = refl
role_back_lem Role.key = refl
role_back_lem Role.value = refl
role_back_lem Role.attention_output = refl
role_back_lem Role.query_norm = refl
role_back_lem Role.key_norm = refl
role_back_lem Role.post_attention_norm = refl
role_back_lem Role.feed_forward_norm = refl
role_back_lem Role.gate = refl
role_back_lem Role.up = refl
role_back_lem Role.down = refl
role_back_lem Role.post_feed_forward_norm = refl
role_back_lem Role.count = refl

role_cases :
    (r : Role) (roles : List RoleName)
    → IsOther r roles ⊎ ((k : ℕ) × (n : RoleName) × (get_elem? roles k ≡ some n) × (r ≡ n.role))
role_cases r [] = inl tt
role_cases r (n ∷ more) = elim (ℕ_discrete (role_number r) (role_number n.role)) [
  | yes e ↦ inr (0, n, refl, sym (role_back_lem r) ∙ ap role_back e ∙ role_back_lem n.role)
  | no d ↦ elim (role_cases r more) [ inl o ↦ inl (d, o) | inr (k, m, a, b) ↦ inr (suc k, m, a, b) ]
]

-- The roles have suffixes of their own.
all_differ : List ℕ → List RoleName → Bool
all_differ s [] = true
all_differ s (n ∷ more) = if text_eq s n.suffix then false else all_differ s more

have_own : List RoleName → Bool
unfolding all_differ
have_own [] = true
have_own (n ∷ more) = all_differ n.suffix more && have_own more

all_differ-head :
    (s : List ℕ) (n : RoleName) (more : List RoleName)
    → all_differ s (n ∷ more) ≡ true
    → (text_eq s n.suffix ≡ false) × (all_differ s more ≡ true)
unfolding all_differ
all_differ-head s n more h = elim (Bool-cases (text_eq s n.suffix)) [
  | inl r ↦ absurd (cc (rw r at h))
  | inr r ↦ (r, rw r at h)
]

all_differ-same :
    (s : List ℕ) (roles : List RoleName) (k : ℕ) (m : RoleName)
    → all_differ s roles ≡ true
    → get_elem? roles k ≡ some m
    → s ≢ m.suffix
all_differ-same s [] k m h e q = cc
all_differ-same s (n ∷ more) zero m h e q =
    let same : text_eq s n.suffix ≡ true =
      (text_eq_iff s n.suffix).1
        (q ∙ sym (ap (λ (x : RoleName). x.suffix) (some-injective n m e))) in
    absurd (cc (same, (all_differ-head s n more h).0))
all_differ-same s (n ∷ more) (suc k) m h e q =
    all_differ-same s more k m (all_differ-head s n more h).1 e q

own_suffix :
    (roles : List RoleName) (k j : ℕ) (n m : RoleName)
    → have_own roles ≡ true
    → get_elem? roles k ≡ some n
    → get_elem? roles j ≡ some m
    → n.suffix ≡ m.suffix
    → n ≡ m
unfolding have_own
own_suffix [] k j n m h e f q = cc
own_suffix (r ∷ more) zero zero n m h e f q = sym (some-injective r n e) ∙ some-injective r m f
own_suffix (r ∷ more) zero (suc j) n m h e f q = absurd (
    all_differ-same r.suffix more j m (and_true _ _ h).0 f
      (ap (λ (x : RoleName). x.suffix) (some-injective r n e) ∙ q))
own_suffix (r ∷ more) (suc k) zero n m h e f q = absurd (
    all_differ-same r.suffix more k n (and_true _ _ h).0 e
      (ap (λ (x : RoleName). x.suffix) (some-injective r m f) ∙ sym q))
own_suffix (r ∷ more) (suc k) (suc j) n m h e f q = own_suffix more k j n m (and_true _ _ h).1 e f q

roles_of-own : (a : Architecture) → have_own (roles_of a) ≡ true
unfolding have_own text_eq
roles_of-own llama = refl
roles_of-own qwen3 = refl
roles_of-own gemma3 = refl

-- Two tensors in one place have one name.
same_name :
    {index : TensorIndex} {x y : List ℕ} {u v : Shape} {id : ℕ}
    → IsTensor index x u id
    → IsTensor index y v id
    → x ≡ y
same_name p q =
    sym p.named
    ∙ ap (λ (t : TensorEntry). t.name) (some-injective p.entry q.entry (sym p.placed ∙ q.placed))
    ∙ q.named

get_elem?-lt :
    (ls : List LayerDescription) (i : ℕ) (l : LayerDescription)
    → get_elem? ls i ≡ some l
    → i < length ls
get_elem?-lt [] i l e = cc
get_elem?-lt (x ∷ ls) zero l e = omega arith
get_elem?-lt (x ∷ ls) (suc i) l e = omega (arith, get_elem?-lt ls i l e)

module _ (a : Architecture) (index : TensorIndex) (out : ModelDescription)
    (e : describe a index ≡ described out) where
  model : IsModel a index out
  model = describe-IsModel a index out e

  layer-lt : (i : ℕ) (l : LayerDescription) → get_elem? out.layers i ≡ some l → i < 2 ^ 32
  layer-lt i l h = omega (
    arith,
    get_elem?-lt out.layers i l h,
    model.description.layer_count,
    read_u32-lt index _ model.hp.block_count model.numbers.block_count.0,
  )

  -- A filled slot is that of one of the roles.
  filled :
      (i : ℕ) (l : LayerDescription) (r : Role) (id : ℕ)
      → get_elem? out.layers i ≡ some l
      → l.tensors r ≡ some id
      → (k : ℕ) × (n : RoleName) × (get_elem? (roles_of a) k ≡ some n)
        × (r ≡ n.role)
        × IsTensor index (layer_prefix i ++ n.suffix) (shape_of n.role model.hp) id
  filled i l r id h s =
      let w = model.description.layers i l h in
      elim (role_cases r (roles_of a)) [
        | inl o ↦ absurd (cc (s, w.no_others r o))
        | inr (k, n, p, q) ↦
            let (other, t, u) = w.weights k n p in
            let same : other ≡ id = some-injective other id (sym t ∙ ap l.tensors (sym q) ∙ s) in
            (
              k,
              n,
              p,
              q,
              subst (IsTensor index (layer_prefix i ++ n.suffix) (shape_of n.role model.hp)) same u,
            )
      ]

-- In a model that an architecture describes, the weights of the layers are apart: a tensor that a
-- layer has for a role is no other layer's weight, and that layer's for no other role. The
-- embedding, the norm and the output head are not among the weights meant.
pub describe-apart :
    (a : Architecture) (index : TensorIndex) (out : ModelDescription) (i j : ℕ)
    (l m : LayerDescription) (r s : Role) (id : ℕ)
    → describe a index ≡ described out
    → get_elem? out.layers i ≡ some l
    → get_elem? out.layers j ≡ some m
    → l.tensors r ≡ some id
    → m.tensors s ≡ some id
    → (i ≡ j) × (r ≡ s)
describe-apart a index out i j l m r s id e h k p q =
    let (x, n, a1, a2, a3) = filled a index out e i l r id h p in
    let (y, o, b1, b2, b3) = filled a index out e j m s id k q in
    let (same, suffix) =
      names_differ i j n.suffix o.suffix (layer-lt a index out e i l h)
        (layer-lt a index out e j m k) (same_name a3 b3) in
    (
      same,
      a2
          ∙ ap (λ (z : RoleName). z.role)
              (own_suffix (roles_of a) x y n o (roles_of-own a) a1 b1 suffix)
          ∙ sym b2,
    )
