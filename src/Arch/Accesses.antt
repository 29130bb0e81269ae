-- ===== src/Arch/Accesses.antt =====
-- What an accessor of src/core/gguf/index.cpp that fails says of the file's entry.
use browser_llm.Base.{
  ℕ, ◌≡◌, ◌≢◌, ◌⊎◌, inl, inr, refl, ap, false, arith, Option, none, some, List, ◌==◌, Bool-cases,
}
use browser_llm.Gguf.Types.{TensorIndex, MetadataEntry, MetadataValue, ValueType}
use browser_llm.Gguf.Index.{entry}
use browser_llm.Gguf.Index.Typed.{
  Access, found, missing_key, wrong_type, no_alternative, narrowed, read_as, type_number,
  as_unsigned, as_single, as_array, read_u32, read_f32, read_array,
}
use browser_llm.Arch.Faults.{HoldsValue, IsMistyped}

-- It finds no key where there is no entry, and otherwise fails at an entry that is mistyped.
pub record Answers {A : Type 0} (t : ValueType) (o : Option MetadataEntry) (access : Access A)
    : Type 0 where
  pub missing : access ≡ missing_key → o ≡ none
  pub wrong : access ≡ wrong_type → IsMistyped t o
  pub other : access ≡ no_alternative → IsMistyped t o

-- A value is taken, or it is of another alternative.
abbrev IsGet : {A : Type 0} → ValueType → MetadataValue → Access A → Type 0
IsGet {A} t v access =
    ((x : A) × (access ≡ found x)) ⊎ ((access ≡ no_alternative) × ¬ HoldsValue t v)

module _ {A : Type 0} (get : MetadataValue → Access A) (t : ValueType)
    (cases : (v : MetadataValue) → IsGet t v (get v)) where
  read_as-Answers : (o : Option MetadataEntry) → Answers t o (read_as get t o)
  read_as-Answers none = record { missing = λ e. refl; wrong = λ e. cc; other = λ e. cc }
  read_as-Answers (some e) = elim (Bool-cases (type_number e.type == type_number t)) [
    | inr q ↦
        let another : e.type ≢ t = λ r. numbers_differ e.type t q r in
        rw q (record { missing = λ r. cc; wrong = λ r. (e, refl, inl another); other = λ r. cc })
    | inl q ↦ rw q (by_value (cases e.value))
  ]
    where
      numbers_differ : (x y : ValueType) → (type_number x == type_number y) ≡ false → x ≢ y
      numbers_differ x y q r =
          let same : type_number x ≡ type_number y = ap type_number r in ground (arith, q, same)

      by_value : IsGet t e.value (get e.value) → Answers t (some e) (get e.value)
      by_value (inl (x, q)) = record { missing = λ r. cc; wrong = λ r. cc; other = λ r. cc }
      by_value (inr (q, n)) = record {
        missing = λ r. cc;
        wrong = λ r. cc;
        other = λ r. (e, refl, inr n);
      }

narrowed-Answers :
    (t : ValueType) (o : Option MetadataEntry) (access : Access ℕ)
    → Answers t o access
    → Answers t o (narrowed access)
narrowed-Answers t o (found n) h = record { missing = λ e. cc; wrong = λ e. cc; other = λ e. cc }
narrowed-Answers t o missing_key h = h
narrowed-Answers t o wrong_type h = h
narrowed-Answers t o no_alternative h = h

as_unsigned-IsGet : (v : MetadataValue) → IsGet ValueType.uint32 v (as_unsigned v)
as_unsigned-IsGet (MetadataValue.unsigned n) = inl (n, refl)
as_unsigned-IsGet (MetadataValue.signed n) = inr (refl, λ h. cc (h.1))
as_unsigned-IsGet (MetadataValue.single_bits n) = inr (refl, λ h. cc (h.1))
as_unsigned-IsGet (MetadataValue.double_bits n) = inr (refl, λ h. cc (h.1))
as_unsigned-IsGet (MetadataValue.flag n) = inr (refl, λ h. cc (h.1))
as_unsigned-IsGet (MetadataValue.text n) = inr (refl, λ h. cc (h.1))
as_unsigned-IsGet (MetadataValue.array_at n) = inr (refl, λ h. cc (h.1))

as_single-IsGet : (v : MetadataValue) → IsGet ValueType.float32 v (as_single v)
as_single-IsGet (MetadataValue.unsigned n) = inr (refl, λ h. cc (h.1))
as_single-IsGet (MetadataValue.signed n) = inr (refl, λ h. cc (h.1))
as_single-IsGet (MetadataValue.single_bits n) = inl (n, refl)
as_single-IsGet (MetadataValue.double_bits n) = inr (refl, λ h. cc (h.1))
as_single-IsGet (MetadataValue.flag n) = inr (refl, λ h. cc (h.1))
as_single-IsGet (MetadataValue.text n) = inr (refl, λ h. cc (h.1))
as_single-IsGet (MetadataValue.array_at n) = inr (refl, λ h. cc (h.1))

as_array-IsGet : (v : MetadataValue) → IsGet ValueType.array v (as_array v)
as_array-IsGet (MetadataValue.unsigned n) = inr (refl, λ h. cc (h.1))
as_array-IsGet (MetadataValue.signed n) = inr (refl, λ h. cc (h.1))
as_array-IsGet (MetadataValue.single_bits n) = inr (refl, λ h. cc (h.1))
as_array-IsGet (MetadataValue.double_bits n) = inr (refl, λ h. cc (h.1))
as_array-IsGet (MetadataValue.flag n) = inr (refl, λ h. cc (h.1))
as_array-IsGet (MetadataValue.text n) = inr (refl, λ h. cc (h.1))
as_array-IsGet (MetadataValue.array_at l) = inl (l, refl)

module _ (index : TensorIndex) (s : List ℕ) where
  pub read_u32-Answers : Answers ValueType.uint32 (entry index s) (read_u32 index s)
  unfolding read_u32
  read_u32-Answers =
      narrowed-Answers ValueType.uint32 (entry index s) _
        (read_as-Answers as_unsigned ValueType.uint32 as_unsigned-IsGet (entry index s))

  pub read_f32-Answers : Answers ValueType.float32 (entry index s) (read_f32 index s)
  unfolding read_f32
  read_f32-Answers = read_as-Answers as_single ValueType.float32 as_single-IsGet (entry index s)

  pub read_array-Answers : Answers ValueType.array (entry index s) (read_array index s)
  unfolding read_array
  read_array-Answers = read_as-Answers as_array ValueType.array as_array-IsGet (entry index s)
