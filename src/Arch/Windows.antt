-- ===== src/Arch/Windows.antt =====
-- The windows of the layers, src/core/arch/gemma3/gemma3.cpp: window_layers and apply_sliding_window.
use mathlib.Core.Option.{some-injective}
use browser_llm.Base.{
  ℕ, zero, suc, ◌+◌, ◌-◌, ◌%◌, ◌<◌, ◌≡◌, ◌≢◌, ◌⊎◌, inl, inr, refl, ap, ◌∙◌, subst, true, false,
  some, List, [], ◌∷◌, arith, ◌==◌, ==_iff, if◌then◌else◌, length, get_elem?, Bool-cases,
}
use browser_llm.Gguf.Types.{TensorIndex}
use browser_llm.Gguf.Index.Typed.{found, read_u32, read_f32}
use browser_llm.Model.{LayerDescription, ModelDescription}
use browser_llm.Arch.{described, codes, Hyperparameters, RoleName}
use browser_llm.Arch.Describe.{read_u32_or, read_f32_or}
use browser_llm.Arch.Describe.Architectures.{
  default_pattern, default_window_rope_base, window_layers, pattern_key, apply_window,
  apply_sliding_window,
}
use browser_llm.Arch.Outcomes.{
  described-injective, after_step, fail_if-described, IsOptional, from_metadata_or-described,
}
use browser_llm.Arch.Layers.{Windows, full_windows, IsLayer, IsDescription}

window_layers-elem :
    (pattern window base first : ℕ) (layers : List LayerDescription) (k : ℕ)
    (out : LayerDescription)
    → get_elem? (window_layers pattern window base first layers) k ≡ some out
    → (l : LayerDescription) × (get_elem? layers k ≡ some l)
      × ((if (first + k) % pattern == pattern - 1
            then l
            else record l { attention_window = window; rope_base = base })
          ≡ out)
unfolding window_layers
window_layers-elem pattern window base first [] k out e = cc
window_layers-elem pattern window base first (l ∷ layers) zero out e = (
  l,
  refl,
  ap
        (λ (n : ℕ).
          if n % pattern == pattern - 1
          then l
          else record l { attention_window = window; rope_base = base })
        (omega arith)
      ∙ some-injective _ out e,
)
window_layers-elem pattern window base first (l ∷ layers) (suc k) out e =
    let (m, a, b) = window_layers-elem pattern window base (suc first) layers k out e in
    (
      m,
      a,
      ap
            (λ (n : ℕ).
              if n % pattern == pattern - 1
              then m
              else record m { attention_window = window; rope_base = base })
            (omega arith)
          ∙ b,
    )

length-window_layers :
    (pattern window base first : ℕ) (layers : List LayerDescription)
    → length (window_layers pattern window base first layers) ≡ length layers
unfolding window_layers
length-window_layers pattern window base first [] = refl
length-window_layers pattern window base first (l ∷ layers) =
    ap suc (length-window_layers pattern window base (suc first) layers)

module _ (index : TensorIndex) where
  -- A window of this many tokens, with this base, in all but the last layer of each run.
  pub record AreSliding (full : Windows) (windows : Windows) : Type 0 where
    pub window : ℕ
    pub pattern : ℕ
    pub base : ℕ
    pub window_read : read_u32 index (codes "gemma3.attention.sliding_window") ≡ found window
    pub some_window : 0 < window
    pub pattern_read : IsOptional (read_u32 index pattern_key) default_pattern pattern
    pub some_pattern : 0 < pattern
    pub base_read :
        IsOptional
          (read_f32 index (codes "gemma3.rope.freq_base_swa"))
          default_window_rope_base
          base
    pub last_of_run : (i : ℕ) → suc (i % pattern) ≡ pattern → windows i ≡ full i
    pub others : (i : ℕ) → suc (i % pattern) ≢ pattern → windows i ≡ (window, base)

  -- The windows of Gemma 3: full ones where the file declares no window, or one of no tokens.
  abbrev pub AreGemmaWindows : Windows → Windows → Type 0
  AreGemmaWindows full windows =
      (IsOptional (read_u32 index (codes "gemma3.attention.sliding_window")) 0 0
        × ((i : ℕ) → windows i ≡ full i))
      ⊎ AreSliding full windows

  abbrev sliding : ℕ → ℕ → ℕ → Windows → Windows
  sliding pattern window base full i = if i % pattern == pattern - 1 then full i else (window, base)

  module _ (hp : Hyperparameters) (roles : List RoleName) (full : Windows)
      (pattern window base : ℕ) where
    sliding-IsLayer :
        (i : ℕ) (l out : LayerDescription)
        → IsLayer index hp roles full i l
        → (if i % pattern == pattern - 1
            then l
            else record l { attention_window = window; rope_base = base })
          ≡ out
        → IsLayer index hp roles (sliding pattern window base full) i out
    sliding-IsLayer i l out w e =
        subst (IsLayer index hp roles (sliding pattern window base full) i) e
          (elim (Bool-cases (i % pattern == pattern - 1)) [
            | inl q ↦ rw q (record {
              query_heads = w.query_heads;
              key_value_heads = w.key_value_heads;
              head_dimension = w.head_dimension;
              feed_forward_width = w.feed_forward_width;
              attention_window = w.attention_window ∙ rw q refl;
              rope_base = w.rope_base ∙ rw q refl;
              weights = w.weights;
              no_others = w.no_others;
            })
            | inr q ↦ rw q (record {
              query_heads = w.query_heads;
              key_value_heads = w.key_value_heads;
              head_dimension = w.head_dimension;
              feed_forward_width = w.feed_forward_width;
              attention_window = rw q refl;
              rope_base = rw q refl;
              weights = w.weights;
              no_others = w.no_others;
            })
          ])

    sliding-IsDescription :
        (out : ModelDescription)
        → IsDescription index hp roles full out
        → IsDescription index hp roles
            (sliding pattern window base full)
            (record out { layers = window_layers pattern window base 0 out.layers })
    sliding-IsDescription out w = record {
      tokens = w.tokens;
      tokens_read = w.tokens_read;
      vocabulary_size = w.vocabulary_size;
      embedding_width = w.embedding_width;
      trained_context = w.trained_context;
      norm_epsilon = w.norm_epsilon;
      token_embedding = w.token_embedding;
      output_norm = w.output_norm;
      output_head = w.output_head;
      layer_count = length-window_layers pattern window base 0 out.layers ∙ w.layer_count;
      layers = λ i layer h.
          let (l, a, b) = window_layers-elem pattern window base 0 out.layers i layer h in
          sliding-IsLayer i l layer (w.layers i l a) (
            ap
              (λ (n : ℕ).
                if n % pattern == pattern - 1
                then l
                else record l { attention_window = window; rope_base = base })
              (zero_plus i)
            ∙ b);
    }
      where
        zero_plus : (i : ℕ) → i ≡ 0 + i
        zero_plus i = omega arith

  module _ (hp : Hyperparameters) (roles : List RoleName) (out : ModelDescription)
      (w : IsDescription index hp roles (full_windows hp) out) where
    apply_window-IsDescription :
        (window : ℕ) (result : ModelDescription)
        → read_u32 index (codes "gemma3.attention.sliding_window") ≡ found window
        → 0 < window
        → apply_window index window out ≡ described result
        → (windows : Windows) × IsDescription index hp roles windows result
          × AreGemmaWindows (full_windows hp) windows
    unfolding read_u32_or read_f32_or
    apply_window-IsDescription window result r some_window e = after_step _ _ result e λ u h1 e1.
        after_step _ _ result e1 λ pattern h2 e2. after_step _ _ result e2 λ v h3 e3.
          after_step _ _ result e3 λ base h4 e4.
            let test : (pattern == 0) ≡ false = fail_if-described (pattern == 0) _ _ v h3 in
            let positive : 0 < pattern = ground (arith, test) in
            (
              sliding pattern window base (full_windows hp),
              subst (IsDescription index hp roles (sliding pattern window base (full_windows hp)))
                  (described-injective _ result e4)
                  (sliding-IsDescription hp roles (full_windows hp) pattern window base out w),
              inr (record {
                window = window;
                pattern = pattern;
                base = base;
                window_read = r;
                some_window = some_window;
                pattern_read = from_metadata_or-described _ _ _ pattern h2;
                some_pattern = positive;
                base_read = from_metadata_or-described _ _ _ base h4;
                last_of_run = λ i k.
                    let same : (i % pattern == pattern - 1) ≡ true =
                      (==_iff (i % pattern) (pattern - 1)).1 (omega (arith, k)) in
                    rw same refl;
                others = λ i k.
                    let differ : (i % pattern == pattern - 1) ≡ false =
                      not_last (i % pattern) pattern positive k in
                    rw differ refl;
              }),
            )
      where
        not_last : (r p : ℕ) → 0 < p → suc r ≢ p → (r == p - 1) ≡ false
        not_last r p h k = ground (arith, h, k)

    pub apply_sliding_window-IsDescription :
        (result : ModelDescription)
        → apply_sliding_window index out ≡ described result
        → (windows : Windows) × IsDescription index hp roles windows result
          × AreGemmaWindows (full_windows hp) windows
    unfolding apply_sliding_window read_u32_or
    apply_sliding_window-IsDescription result e = after_step _ _ result e λ window h e1.
        let read = from_metadata_or-described _ _ _ window h in
        elim (Bool-cases (window == 0)) [
          | inl q ↦
              let none_there : window ≡ 0 = (==_iff window 0).0 q in
              (
                full_windows hp,
                subst (IsDescription index hp roles (full_windows hp))
                    (described-injective out result (rw q at e1)) w,
                inl (
                  subst (IsOptional (read_u32 index (codes "gemma3.attention.sliding_window")) 0)
                      none_there read,
                  λ i. refl,
                ),
              )
          | inr q ↦
              let positive : 0 < window = ground (arith, q) in
              elim read [
                | inl r ↦ apply_window-IsDescription window result r positive (rw q at e1)
                | inr (a, b) ↦ absurd (omega (arith, b, positive))
              ]
        ]
