-- ===== src/Examples/Services.antt =====
-- Small runs of the run guard, the dispatch arithmetic and the UTF-8 code, and the theorems applied.
use browser_llm.Base.{◌≡◌, inl, refl, true, false, some, [], ◌∷◌, ◌++◌, arith}
use browser_llm.RunGuard.{
  RunGuard, begin, complete_all, IsBegun, begin-IsBegun, complete_all-first_only,
}
use browser_llm.Gpu.Dispatch.{dispatch_count, IsAnswer, dispatch_count-IsAnswer}
use browser_llm.Tokenizer.Unicode.{append_utf8, decode_utf8}
use browser_llm.Tokenizer.Unicode.RoundTrip.{IsScalar, char_at, decode_utf8-append_utf8}
use browser_llm.Tokenizer.Stream.{push}
use browser_llm.Tokenizer.Stream.Pushes.{settled, encode_all, push-push}

-- The last generation before the wrap: the next one is 1.
abbrev last_guard : RunGuard
last_guard = record { active = false; generation = 0xFFFF_FFFF }

begin-IsBegun_example : IsBegun last_guard (begin last_guard).0 (begin last_guard).1
begin-IsBegun_example = begin-IsBegun last_guard refl (omega arith)

complete_all-first_only_example :
    complete_all (2 ∷ 3 ∷ 3 ∷ []) (record { active = true; generation = 3 })
    ≡ false ∷ true ∷ false ∷ []
complete_all-first_only_example = complete_all-first_only 3 (2 ∷ 3 ∷ 3 ∷ []) (omega arith)

dispatch_count-IsAnswer_example : IsAnswer 1000 64 65535 (dispatch_count 1000 64 65535)
dispatch_count-IsAnswer_example = dispatch_count-IsAnswer 1000 64 65535 (omega arith)

euro-IsScalar : IsScalar 0x20AC
euro-IsScalar = record { bounded = omega arith; no_surrogate = inl (omega arith) }

decode_utf8-append_utf8_example :
    decode_utf8 (append_utf8 0x20AC (b'a' ∷ []) ++ (b'b' ∷ [])) 1 ≡ some (char_at 0x20AC)
decode_utf8-append_utf8_example =
    decode_utf8-append_utf8 0x20AC (b'a' ∷ []) (b'b' ∷ []) euro-IsScalar

euro_bytes : encode_all (0x20AC ∷ []) [] ≡ (0xE2 ∷ []) ++ (0x82 ∷ 0xAC ∷ [])
unfolding append_utf8
euro_bytes = refl

push-push_example :
    push (0x82 ∷ 0xAC ∷ []) (push (0xE2 ∷ []) (settled (b'a' ∷ [])))
    ≡ settled (encode_all (0x20AC ∷ []) (b'a' ∷ []))
push-push_example =
    push-push (0x20AC ∷ []) (0xE2 ∷ []) (0x82 ∷ 0xAC ∷ []) (b'a' ∷ []) (euro-IsScalar, tt)
      euro_bytes
