-- ===== src/Arch/Tensors.antt =====
-- The tensors that a description names, src/core/arch/describe.cpp: each is in the file, under its name
-- and of its shape.
use mathlib.Core.Option.{some-injective}
use browser_llm.Base.{
  ℕ, zero, suc, ◌+◌, ◌≡◌, ◌≢◌, ◌==◌, ◌⊎◌, inl, inr, refl, sym, ap, ◌∙◌, subst, Bool, true, false,
  Option, none, some, List, [], ◌∷◌, ◌++◌, arith, get_or, get_elem?, All, Bool-cases,
}
use browser_llm.Gguf.Types.{TensorIndex, TensorEntry}
use browser_llm.Gguf.Sorting.Laws.{AllPairs}
use browser_llm.Gguf.Parse.{text_eq}
use browser_llm.Gguf.Parse.Names.{text_eq_iff}
use browser_llm.Gguf.Index.{find, find_from}
use browser_llm.Model.{Role, role_number, RoleTensors}
use browser_llm.Arch.{described, Hyperparameters, RoleName}
use browser_llm.Arch.Describe.{
  Shape, has_shape, tensor_has_shape, found_tensor, find_tensor, shape_of, put_role, layer_prefix,
  fill_roles,
}
use browser_llm.Arch.Outcomes.{described-injective, after_step}

-- The tensor of that name, which has the shape.
pub record IsTensor (index : TensorIndex) (name : List ℕ) (shape : Shape) (id : ℕ) : Type 0 where
  pub entry : TensorEntry
  pub placed : get_elem? index.tensors id ≡ some entry
  pub named : entry.name ≡ name
  pub dimension_count : entry.dimension_count ≡ shape.dimension_count
  pub first : get_or entry.dimensions 0 1 ≡ shape.first
  pub second : shape.dimension_count ≢ 1 → get_or entry.dimensions 1 1 ≡ shape.second

has_shape-fits :
    (t : TensorEntry) (shape : Shape)
    → has_shape t shape ≡ true
    → (t.dimension_count ≡ shape.dimension_count)
      × (get_or t.dimensions 0 1 ≡ shape.first)
      × (shape.dimension_count ≢ 1 → get_or t.dimensions 1 1 ≡ shape.second)
has_shape-fits t shape h = (ground (arith, h), ground (arith, h), λ k. ground (arith, h, k))

fits-has_shape :
    (t : TensorEntry) (shape : Shape)
    → t.dimension_count ≡ shape.dimension_count
    → get_or t.dimensions 0 1 ≡ shape.first
    → (shape.dimension_count ≢ 1 → get_or t.dimensions 1 1 ≡ shape.second)
    → has_shape t shape ≡ true
fits-has_shape t shape h k l = elim (Bool-cases (shape.dimension_count == 1)) [
  | inl e ↦ ground (arith, h, k, e)
  | inr e ↦
      let several : shape.dimension_count ≢ 1 = ground (arith, e) in
      let second = l several in ground (arith, h, k, e, second)
]

find_from-elem :
    (name : List ℕ) (i : ℕ) (ts : List TensorEntry) (k : ℕ)
    → find_from name i ts ≡ some k
    → (j : ℕ) × (t : TensorEntry) × (k ≡ i + j) × (get_elem? ts j ≡ some t) × (t.name ≡ name)
unfolding find_from
find_from-elem name i [] k e = cc
find_from-elem name i (t ∷ ts) k e = elim (Bool-cases (text_eq t.name name)) [
  | inl q ↦
      (0, t, omega (arith, some-injective i k (rw q at e)), refl, (text_eq_iff t.name name).0 q)
  | inr q ↦
      let (j, u, a, b, c) = find_from-elem name (suc i) ts k (rw q at e) in
      (suc j, u, omega (arith, a), b, c)
]

pub find-elem :
    (index : TensorIndex) (name : List ℕ) (k : ℕ)
    → find index name ≡ some k
    → (t : TensorEntry) × (get_elem? index.tensors k ≡ some t) × (t.name ≡ name)
unfolding find
find-elem index name k e =
    let (j, t, a, b, c) = find_from-elem name 0 index.tensors k e in
    (t, ap (get_elem? index.tensors) (omega (arith, a)) ∙ b, c)

module _ (index : TensorIndex) where
  shape_fits :
      (name : List ℕ) (shape : Shape) (id : ℕ)
      → find index name ≡ some id
      → tensor_has_shape (get_elem? index.tensors id) shape ≡ true
      → IsTensor index name shape id
  shape_fits name shape id e h =
      let (t, a, b) = find-elem index name id e in
      let (p, q, r) =
        has_shape-fits t shape
          (sym (ap (λ (o : Option TensorEntry). tensor_has_shape o shape) a) ∙ h) in
      record { entry = t; placed = a; named = b; dimension_count = p; first = q; second = r }

  -- A tensor of another shape is not the one that is named and has the shape.
  pub misshaped :
      (name : List ℕ) (shape : Shape) (id : ℕ)
      → tensor_has_shape (get_elem? index.tensors id) shape ≡ false
      → ¬ IsTensor index name shape id
  misshaped name shape id h w =
      let fits = fits-has_shape w.entry shape w.dimension_count w.first w.second in
      absurd
        (cc (sym (ap (λ (o : Option TensorEntry). tensor_has_shape o shape) w.placed) ∙ h, fits))

  -- A tensor that is found has its shape; one that is not was not required.
  pub find_tensor-found :
      (name : List ℕ) (shape : Shape) (required : Bool) (slot : Option ℕ)
      → find_tensor index name shape required ≡ described slot
      → ((slot ≡ none) × (find index name ≡ none) × (required ≡ false))
        ⊎ ((id : ℕ) × (slot ≡ some id) × IsTensor index name shape id)
  unfolding find_tensor
  find_tensor-found name shape required slot e = by_find (find index name) refl e
    where
      by_find :
          (o : Option ℕ)
          → find index name ≡ o
          → found_tensor index o name shape required ≡ described slot
          → ((slot ≡ none) × (find index name ≡ none) × (required ≡ false))
            ⊎ ((id : ℕ) × (slot ≡ some id) × IsTensor index name shape id)
      by_find none q k = elim (Bool-cases required) [
        | inl r ↦ absurd (cc (rw r at k))
        | inr r ↦ inl (sym (described-injective none slot (rw r at k)), q, r)
      ]
      by_find (some id) q k =
          elim (Bool-cases (tensor_has_shape (get_elem? index.tensors id) shape)) [
            | inl r ↦ inr (
              id,
              sym (described-injective (some id) slot (rw r at k)),
              shape_fits name shape id q r,
            )
            | inr r ↦ absurd (cc (rw r at k))
          ]

  pub required_found :
      (name : List ℕ) (shape : Shape) (slot : Option ℕ)
      → find_tensor index name shape true ≡ described slot
      → (id : ℕ) × (slot ≡ some id) × IsTensor index name shape id
  required_found name shape slot e = elim (find_tensor-found name shape true slot e) [
    | inl (a, b, c) ↦ absurd (cc (c))
    | inr h ↦ h
  ]

-- No two of the roles are the same, and none of them is the role.
abbrev pub AreApart : List RoleName → Type 0
AreApart roles = AllPairs (λ a b. role_number a.role ≢ role_number b.role) roles

abbrev pub IsOther : Role → List RoleName → Type 0
IsOther role roles = All (λ n. role_number role ≢ role_number n.role) roles

module _ (index : TensorIndex) (hp : Hyperparameters) where
  pub fill_roles-found :
      (layer : ℕ) (roles : List RoleName) (tensors out : RoleTensors)
      → AreApart roles
      → fill_roles index hp layer roles tensors ≡ described out
      → ((k : ℕ) (n : RoleName)
          → get_elem? roles k ≡ some n
          → (id : ℕ) × (out n.role ≡ some id)
            × IsTensor index (layer_prefix layer ++ n.suffix) (shape_of n.role hp) id)
        × ((r : Role) → IsOther r roles → out r ≡ tensors r)
  unfolding fill_roles
  fill_roles-found layer [] tensors out h e = (
    (λ k n q. cc),
    λ r o. ap (λ (f : RoleTensors). f r) (sym (described-injective tensors out e)),
  )
  fill_roles-found layer (n ∷ more) tensors out h e = after_step _ _ out e λ slot p q.
      let (found, kept) = fill_roles-found layer more (put_role tensors n.role slot) out h.1 q in
      let (id, s, w) =
        required_found index (layer_prefix layer ++ n.suffix) (shape_of n.role hp) slot p in
      (
        (λ k m r. by_place id w (kept n.role h.0 ∙ here slot ∙ s) found k m r),
        λ r o. kept r o.1 ∙ elsewhere slot r o.0,
      )
    where
      here : (slot : Option ℕ) → put_role tensors n.role slot n.role ≡ slot
      here slot = ground arith

      elsewhere :
          (slot : Option ℕ) (r : Role)
          → role_number r ≢ role_number n.role
          → put_role tensors n.role slot r ≡ tensors r
      elsewhere slot r o = ground (arith, o)

      by_place :
          (id : ℕ)
          → IsTensor index (layer_prefix layer ++ n.suffix) (shape_of n.role hp) id
          → out n.role ≡ some id
          → ((k : ℕ) (m : RoleName)
              → get_elem? more k ≡ some m
              → (id : ℕ) × (out m.role ≡ some id)
                × IsTensor index (layer_prefix layer ++ m.suffix) (shape_of m.role hp) id)
          → (k : ℕ) (m : RoleName) → get_elem? (n ∷ more) k ≡ some m
          → (id : ℕ) × (out m.role ≡ some id)
            × IsTensor index (layer_prefix layer ++ m.suffix) (shape_of m.role hp) id
      by_place id w s found zero m r =
          subst
            (λ (x : RoleName).
              (id : ℕ) × (out x.role ≡ some id)
              × IsTensor index (layer_prefix layer ++ x.suffix) (shape_of x.role hp) id)
            (some-injective n m r) (id, s, w)
      by_place id w s found (suc k) m r = found k m r
