-- ===== src/Examples/Arrays.antt =====
-- An array of two strings and one of two numbers in small files, read back.
use browser_llm.Base.{
  ◌≡◌, ◌^◌, ◌-◌, ◌+◌, ◌<◌, ◌≤◌, ◌⊎◌, inl, inr, ap, ◌∙◌, refl, ℕ, some, List, [], ◌∷◌, arith, length,
  take, drop,
}
use browser_llm.Base.Words.{pos, negsuc}
use browser_llm.Gguf.Reader.{le, sign_extend}
use browser_llm.Gguf.Source.{MemoryByteSource, outside_file, not_resident}
use browser_llm.Gguf.Source.Memory.{read_memory_cases}
use browser_llm.Gguf.Arrays.Scalars.{values_of, read_scalars, int32_value, is_int32}
use browser_llm.Gguf.Arrays.Scalars.Chunks.{IsHeld, read_scalars-values}
use browser_llm.Gguf.Types.{ArrayLocation, ValueType}
use browser_llm.Gguf.Source.{ByteSource, memory_source, read_memory, bytes}
use browser_llm.Gguf.Parse.{read}
use browser_llm.Gguf.Arrays.{StringTable, read_strings}
use browser_llm.Gguf.Arrays.Texts.{stored, digits}
use browser_llm.Gguf.Arrays.Elements.{IsTableOf, read_strings-stored}

abbrev two_texts : List (List ℕ)
two_texts = (b'a' ∷ b'b' ∷ []) ∷ [] ∷ []

abbrev array_file : List ℕ
array_file = 7 ∷ 2 ∷ 0 ∷ 0 ∷ 0 ∷ 0 ∷ 0 ∷ 0 ∷ 0 ∷ b'a' ∷ b'b' ∷ 0 ∷ 0 ∷ 0 ∷ 0 ∷ 0 ∷ 0 ∷ 0 ∷ 0 ∷ []

abbrev array_source : ByteSource
array_source = memory_source (record { resident = array_file; file_size = 19 })

abbrev two_located : ArrayLocation
two_located = record {
  element_type = ValueType.string;
  element_count = 2;
  bytes = record { offset = 1; length = 18 };
}

stored_length : 18 ≡ length (stored two_texts)
unfolding stored digits
stored_length = refl

stored_there : array_source.read 1 18 ≡ bytes (stored two_texts)
unfolding stored digits read_memory
stored_there = refl

read_strings-stored_example :
    (t : StringTable) × (read_strings (2 ^ 32 - 1) array_source two_located ≡ read t)
    × IsTableOf two_texts t
read_strings-stored_example =
    read_strings-stored (2 ^ 32 - 1) array_source two_located two_texts refl refl stored_length
      (omega arith) (omega arith) (omega arith) stored_there

abbrev number_file : MemoryByteSource
number_file = record { resident = 0xFF ∷ 0xFF ∷ 0xFF ∷ 0xFF ∷ 5 ∷ 0 ∷ 0 ∷ 0 ∷ []; file_size = 8 }

number_file-IsHeld : IsHeld (memory_source number_file) 0 number_file.resident
number_file-IsHeld = record {
  reads = λ o n h. from_start o n h (read_memory_cases number_file (0 + o) n);
}
  where
    plain : (o : ℕ) → 0 + o ≡ o
    plain o = omega arith

    from_start :
        (o n : ℕ)
        → o + n ≤ 8
        → ((8 < 0 + o + n) × (read_memory number_file (0 + o) n ≡ outside_file))
          ⊎ ((0 + o + n ≤ 8) × (8 < 0 + o + n) × (read_memory number_file (0 + o) n ≡ not_resident))
          ⊎ ((0 + o + n ≤ 8)
              × (0 + o + n ≤ 8)
              × (read_memory number_file (0 + o) n
                  ≡ bytes (take n (drop (0 + o) number_file.resident))))
        → read_memory number_file (0 + o) n ≡ bytes (take n (drop o number_file.resident))
    from_start o n h (inl (k, q)) = absurd (omega (arith, h, k))
    from_start o n h (inr (inl (k, l, q))) = absurd (omega (arith, k, l))
    from_start o n h (inr (inr (k, l, q))) =
        q ∙ ap (λ (i : ℕ). bytes (take n (drop i number_file.resident))) (plain o)

abbrev numbers_located : ArrayLocation
numbers_located = record {
  element_type = ValueType.int32;
  element_count = 2;
  bytes = record { offset = 0; length = 8 };
}

two_numbers : values_of int32_value 2 number_file.resident ≡ negsuc 0 ∷ pos 5 ∷ []
unfolding values_of sign_extend le
two_numbers = refl

read_scalars-values_example :
    read_scalars (2 ^ 32 - 1) (memory_source number_file) int32_value is_int32 numbers_located
    ≡ some (read (values_of int32_value 2 number_file.resident))
read_scalars-values_example =
    read_scalars-values (2 ^ 32 - 1) (memory_source number_file) int32_value is_int32
      numbers_located number_file.resident refl refl refl (omega arith) (omega arith)
      number_file-IsHeld
