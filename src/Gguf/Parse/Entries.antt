-- ===== src/Gguf/Parse/Entries.antt =====
-- What `take_tensor` of src/core/gguf/reader.cpp has checked of a tensor's entry.
use native.Mathlib.Nat.{mul_assoc, mul_comm, zero-add}
use browser_llm.Base.{
  ℕ, zero, suc, ◌+◌, ◌*◌, ◌/◌, ◌%◌, ◌^◌, ◌≤◌, ◌<◌, ◌≡◌, refl, sym, ap, ◌∙◌, subst, false, not, some,
  List, [], ◌∷◌, arith, ltb, ltb→le, Bool-cases, inl, inr, ◌==◌, length, set, get_elem?, get_or,
  All, replicate, length-set,
}
use mathlib.Core.Option.{some-injective}
use mathlib.Core.List.{tail}
use browser_llm.Base.Words.{IsU64}
use browser_llm.Gguf.Checked.{checked_mul, checked_mul-some}
use browser_llm.Gguf.Types.{
  FormatLayout, format_layout, find_layout, format_layouts, TensorShape, TensorEntry, tensor_entry,
  max_dimensions, max_tensor_name_length,
}
use browser_llm.Gguf.Source.{ByteSource, IsByteSource}
use browser_llm.Gguf.Action.{Reader, and_then}
use browser_llm.Gguf.Action.Rules.{returns, Ensures-mono}
use browser_llm.Gguf.Reader.Bounds.{
  Moves-refl, Post, bind-Post, refuse-Post, require-Post, take_uint-Post, take_string-Post,
}
use browser_llm.Gguf.Parse.{take_dimensions, take_tensor, first_dimension}

abbrev pub product : List ℕ → ℕ
product [] = 1
product (x ∷ xs) = x * product xs

product-set_one :
    (xs : List ℕ) (d x : ℕ) → get_elem? xs d ≡ some 1 → product (set xs d x) ≡ product xs * x
product-set_one [] d x e = cc
product-set_one (y ∷ ys) zero x e =
    omega
      (arith, ap (λ (t : ℕ). t * product ys * x) (some-injective y 1 e), mul_comm x (product ys))
product-set_one (y ∷ ys) (suc d) x e =
    omega (arith, ap (λ (t : ℕ). y * t) (product-set_one ys d x e), mul_assoc y (product ys) x)

get_elem?-set_ne : (xs : List ℕ) (i j x : ℕ) → i < j → get_elem? (set xs i x) j ≡ get_elem? xs j
get_elem?-set_ne [] i j x h = refl
get_elem?-set_ne (y ∷ ys) i zero x h = absurd (omega arith)
get_elem?-set_ne (y ∷ ys) zero (suc j) x h = refl
get_elem?-set_ne (y ∷ ys) (suc i) (suc j) x h = get_elem?-set_ne ys i j x (omega arith)

All-set : (P : ℕ → Type 0) (xs : List ℕ) (i x : ℕ) → P x → All P xs → All P (set xs i x)
All-set P [] i x p h = tt
All-set P (y ∷ ys) zero x p h = (p, h.1)
All-set P (y ∷ ys) (suc i) x p h = (h.0, All-set P ys i x p h.1)

-- The extents that have been read, `d` of them, with the others at 1.
pub record IsShape (d : ℕ) (dimensions : List ℕ) (count : ℕ) : Type 0 where
  pub extents : length dimensions ≡ 4
  pub counted : count ≡ product dimensions
  pub nonnegative : All (λ x. x < 2 ^ 63) dimensions
  pub unused : (j : ℕ) → d ≤ j → j < 4 → get_elem? dimensions j ≡ some 1

-- An entry as the file declares it: a defined format, whole blocks in every row, and a length that is
-- that of its blocks.
pub record IsEntry (t : TensorEntry) : Type 0 where
  pub name_fits : length t.name ≤ max_tensor_name_length
  pub few_dimensions : t.dimension_count ≤ max_dimensions
  pub shape : IsShape t.dimension_count t.dimensions t.element_count
  pub layout : FormatLayout
  pub defined : format_layout t.type ≡ some layout
  pub whole_rows : get_or t.dimensions 0 0 % layout.block_elements ≡ 0
  pub sized : t.data_length ≡ t.element_count / layout.block_elements * layout.block_bytes
  pub length_fits : IsU64 t.data_length

-- What every row of the format table satisfies.
abbrev IsRow : FormatLayout → Type 0
IsRow l = (0 < l.block_elements) × (0 < l.block_bytes) × (l.block_bytes < 2 ^ 16)

rows : All IsRow format_layouts
unfolding format_layouts
rows = omega arith

find_layout-IsRow :
    (type : ℕ) (ls : List FormatLayout) (l : FormatLayout)
    → All IsRow ls
    → find_layout type ls ≡ some l
    → IsRow l
unfolding find_layout
find_layout-IsRow type [] l h e = cc
find_layout-IsRow type (x ∷ xs) l h e = elim (Bool-cases (x.type == type)) [
  | inl hit ↦ subst IsRow (some-injective x l (rw hit at e)) h.0
  | inr miss ↦ find_layout-IsRow type xs l h.1 (rw miss at e)
]

pub format_layout-IsRow :
    (type : ℕ) (l : FormatLayout)
    → format_layout type ≡ some l
    → (0 < l.block_elements) × (0 < l.block_bytes) × (l.block_bytes < 2 ^ 16)
unfolding format_layout
format_layout-IsRow type l e = find_layout-IsRow type format_layouts l rows e

first_extent :
    (dimensions : List ℕ)
    → length dimensions ≡ 4
    → product dimensions ≡ get_or dimensions 0 0 * product (tail dimensions)
first_extent [] h = absurd (omega arith)
first_extent (x ∷ xs) h = refl

add_zero_eq : (d : ℕ) → d ≡ d + 0
add_zero_eq d = omega arith

add_suc_eq : (d left : ℕ) → suc d + left ≡ d + suc left
add_suc_eq d left = omega arith

extend-IsShape :
    (d x total count : ℕ) (dimensions : List ℕ)
    → d < 4
    → x < 2 ^ 63
    → total ≡ count * x
    → IsShape d dimensions count
    → IsShape (suc d) (set dimensions d x) total
extend-IsShape d x total count dimensions h small t w = record {
  extents = omega (arith, length-set dimensions d x, w.extents);
  counted =
      t
      ∙ ap (λ (n : ℕ). n * x) w.counted
      ∙ sym (product-set_one dimensions d x (w.unused d (omega arith) h));
  nonnegative = All-set (λ n. n < 2 ^ 63) dimensions d x small w.nonnegative;
  unused = λ j k l. get_elem?-set_ne dimensions d j x k ∙ w.unused j (omega arith) l;
}

small_extent : (x : ℕ) → not (x / 2 ^ 63 == 0) ≡ false → x < 2 ^ 63
small_extent x e = ground arith

zero_test : (n : ℕ) → not (n == 0) ≡ false → n ≡ 0
zero_test n e = ground arith

start-IsShape : IsShape 0 (replicate 4 1) 1
start-IsShape = record {
  extents = refl;
  counted = omega arith;
  nonnegative = omega arith;
  unused = ones;
}
  where
    ones : (j : ℕ) → 0 ≤ j → j < 4 → get_elem? {A = ℕ} (replicate 4 1) j ≡ some 1
    ones zero h k = refl
    ones (suc zero) h k = refl
    ones (suc (suc zero)) h k = refl
    ones (suc (suc (suc zero))) h k = refl
    ones (suc (suc (suc (suc j)))) h k = absurd (omega arith)

module _ {held : ℕ} {source : ByteSource} (v : IsByteSource held source) where
  pub take_dimensions-Post :
      (left d : ℕ) (shape : TensorShape) (r : Reader)
      → r.cursor ≤ source.size
      → d + left ≤ 4
      → IsShape d shape.dimensions shape.element_count
      → Post v r
          (λ s _.
            (s.dimension_count ≡ shape.dimension_count)
            × IsShape (d + left) s.dimensions s.element_count)
          (take_dimensions source left d shape r)
  unfolding take_dimensions
  take_dimensions-Post zero d shape r h k w = returns (
    Moves-refl r h,
    (refl, subst (λ n. IsShape n shape.dimensions shape.element_count) (add_zero_eq d) w),
  )
  take_dimensions-Post (suc left) d shape r h k w =
      bind-Post v _ (take_uint-Post v 8 r (omega arith)) λ x s m q.
        refuse-Post v (not (x / 2 ^ 63 == 0)) _ (λ e. cc)
          λ small.
            require-Post v (checked_mul shape.element_count x) _ (λ e. cc)
              λ total e.
                let (t, fits) =
                  checked_mul-some shape.element_count x total (omega (arith, q.0)) e in
                Ensures-mono
                  (take_dimensions-Post left (suc d) _ s m.inside (omega arith) (
                    extend-IsShape d x total shape.element_count shape.dimensions (omega arith)
                      (small_extent x small) t w))
                  λ y u z. (
                    z.0,
                    (
                      z.1.0,
                      subst (λ n. IsShape n y.dimensions y.element_count) (add_suc_eq d left) z.1.1,
                    ),
                  )

  pub take_tensor-Post :
      (r : Reader) → Post v r (λ t s. IsEntry t × IsU64 t.data_offset) (take_tensor source r)
  unfolding take_tensor and_then tensor_entry
  take_tensor-Post r = bind-Post v _ (take_string-Post v r) λ name r₁ m₁ q₁.
      refuse-Post v (ltb max_tensor_name_length (length name)) _ (λ e. cc)
        λ short. bind-Post v _ (take_uint-Post v 4 r₁ (omega arith)) λ count r₂ m₂ q₂.
          refuse-Post v (ltb max_dimensions count) _ (λ e. cc)
            λ few.
              let few' : count ≤ 4 = ltb→le max_dimensions count few in
              bind-Post v _
                (take_dimensions-Post count 0 _ r₂ m₂.inside (omega arith) start-IsShape)
                λ shape r₃ m₃ w.
                  bind-Post v _ (take_uint-Post v 4 r₃ (omega arith)) λ type r₄ m₄ q₄.
                    require-Post v (format_layout type) _ (λ e. cc)
                      λ layout known.
                        refuse-Post v (not (first_dimension shape % layout.block_elements == 0)) _
                          (λ e. cc)
                          λ whole.
                            bind-Post v _ (take_uint-Post v 8 r₄ (omega arith)) λ offset r₅ m₅ q₅.
                              require-Post v
                                (checked_mul (shape.element_count / layout.block_elements)
                                  layout.block_bytes)
                                _ (λ e. cc)
                                λ size e.
                                  let row = format_layout-IsRow type layout known in
                                  let (sized, fits) =
                                    checked_mul-some _ layout.block_bytes size (omega (arith, row))
                                      e in
                                  returns (
                                    Moves-refl r₅ m₅.inside,
                                    (
                                      record {
                                        name_fits =
                                            ltb→le max_tensor_name_length (length name) short;
                                        few_dimensions = omega (arith, w.0);
                                        shape = rw w.0 (
                                            subst
                                              (λ n. IsShape n shape.dimensions shape.element_count)
                                              (zero-add count) w.1);
                                        layout = layout;
                                        defined = known;
                                        whole_rows = zero_test _ whole;
                                        sized = sized;
                                        length_fits = omega arith;
                                      },
                                      omega (arith, q₅.0),
                                    ),
                                  )
