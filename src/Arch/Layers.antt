-- ===== src/Arch/Layers.antt =====
-- What describing the layers gives, src/core/arch/describe.cpp.
use mathlib.Core.Option.{some-injective}
use browser_llm.Base.{
  ℕ, zero, suc, ◌+◌, ◌%◌, ◌^◌, ◌≡◌, ◌⊎◌, inl, inr, refl, sym, ap, subst, false, none, some, List,
  [], ◌∷◌, ◌++◌, arith, length, get_elem?,
}
use browser_llm.Gguf.Types.{TensorIndex, ArrayLocation}
use browser_llm.Gguf.Index.{find}
use browser_llm.Gguf.Index.Typed.{found, read_array}
use browser_llm.Model.{Role, RoleTensors, LayerDescription, ModelDescription}
use browser_llm.Arch.{described, codes, Hyperparameters, RoleName}
use browser_llm.Arch.Describe.{
  matrix, vector, shape_of, the_tensor, layer_prefix, layer_with, fill_layers, describe_layers,
}
use browser_llm.Arch.Outcomes.{described-injective, after_step, from_metadata-described}
use browser_llm.Arch.Tensors.{
  IsTensor, find_tensor-found, required_found, AreApart, IsOther, fill_roles-found,
}

-- How many tokens back each layer attends, and its rotary base.
abbrev pub Windows : Type 0
Windows = ℕ → ℕ × ℕ

abbrev pub full_windows : Hyperparameters → Windows
full_windows hp layer = (hp.context_length, hp.rope_base)

-- A layer's numbers are the model's, each of the roles has its tensor, and no other role has one.
pub record IsLayer (index : TensorIndex) (hp : Hyperparameters) (roles : List RoleName)
    (windows : Windows) (i : ℕ) (layer : LayerDescription) : Type 0 where
  pub query_heads : layer.query_heads ≡ hp.head_count
  pub key_value_heads : layer.key_value_heads ≡ hp.head_count_kv
  pub head_dimension : layer.head_dimension ≡ hp.head_dimension
  pub feed_forward_width : layer.feed_forward_width ≡ hp.feed_forward_length
  pub attention_window : layer.attention_window ≡ (windows i).0
  pub rope_base : layer.rope_base ≡ (windows i).1
  pub weights :
      (k : ℕ) (n : RoleName)
      → get_elem? roles k ≡ some n
      → (id : ℕ) × (layer.tensors n.role ≡ some id)
        × IsTensor index (layer_prefix i ++ n.suffix) (shape_of n.role hp) id
  pub no_others : (r : Role) → IsOther r roles → layer.tensors r ≡ none

pub record IsDescription (index : TensorIndex) (hp : Hyperparameters) (roles : List RoleName)
    (windows : Windows) (out : ModelDescription) : Type 0 where
  pub tokens : ArrayLocation
  pub tokens_read : read_array index (codes "tokenizer.ggml.tokens") ≡ found tokens
  pub vocabulary_size : out.vocabulary_size ≡ tokens.element_count % 2 ^ 32
  pub embedding_width : out.embedding_width ≡ hp.embedding_length
  pub trained_context : out.trained_context ≡ hp.context_length
  pub norm_epsilon : out.norm_epsilon ≡ hp.norm_epsilon
  pub token_embedding :
      IsTensor index
        (codes "token_embd.weight")
        (matrix hp.embedding_length out.vocabulary_size)
        out.token_embedding
  pub output_norm :
      IsTensor index (codes "output_norm.weight") (vector hp.embedding_length) out.output_norm
  pub output_head :
      ((out.output_head ≡ none) × (find index (codes "output.weight") ≡ none))
      ⊎ ((id : ℕ) × (out.output_head ≡ some id)
          × IsTensor index
              (codes "output.weight")
              (matrix hp.embedding_length out.vocabulary_size)
              id)
  pub layer_count : length out.layers ≡ hp.block_count
  pub layers :
      (i : ℕ) (layer : LayerDescription)
      → get_elem? out.layers i ≡ some layer
      → IsLayer index hp roles windows i layer

module _ (index : TensorIndex) (hp : Hyperparameters) (roles : List RoleName)
    (apart : AreApart roles) where
  fill_layers-IsLayer :
      (left first : ℕ) (out : List LayerDescription)
      → fill_layers index hp left first roles ≡ described out
      → (length out ≡ left)
        × ((k : ℕ) (layer : LayerDescription)
            → get_elem? out k ≡ some layer
            → IsLayer index hp roles (full_windows hp) (first + k) layer)
  unfolding fill_layers
  fill_layers-IsLayer zero first out e =
      let same : [] ≡ out = described-injective [] out e in
      (ap length (sym same), λ k layer h. absurd (cc (same, h)))
  fill_layers-IsLayer (suc left) first out e = after_step _ _ out e λ tensors p e1.
      after_step _ _ out e1 λ rest q e2.
        let (n, each) = fill_layers-IsLayer left (suc first) rest q in
        let same : layer_with hp tensors ∷ rest ≡ out = described-injective _ out e2 in
        let (weights, no_others) =
          fill_roles-found index hp first roles (λ r. none) tensors apart p in
        subst
          (λ (ls : List LayerDescription).
            (length ls ≡ suc left)
            × ((k : ℕ) (layer : LayerDescription)
                → get_elem? ls k ≡ some layer
                → IsLayer index hp roles (full_windows hp) (first + k) layer))
          same
          (
            ap suc n,
            by_place tensors rest each (record {
              query_heads = refl;
              key_value_heads = refl;
              head_dimension = refl;
              feed_forward_width = refl;
              attention_window = refl;
              rope_base = refl;
              weights = weights;
              no_others = no_others;
            }),
          )
    where
      by_place :
          (tensors : RoleTensors) (rest : List LayerDescription)
          → ((k : ℕ) (layer : LayerDescription)
              → get_elem? rest k ≡ some layer
              → IsLayer index hp roles (full_windows hp) (suc first + k) layer)
          → IsLayer index hp roles (full_windows hp) first (layer_with hp tensors)
          → (k : ℕ) (layer : LayerDescription)
          → get_elem? (layer_with hp tensors ∷ rest) k ≡ some layer
          → IsLayer index hp roles (full_windows hp) (first + k) layer
      by_place tensors rest each here zero layer h =
          subst (λ (i : ℕ). IsLayer index hp roles (full_windows hp) i layer) (omega arith)
            (subst (IsLayer index hp roles (full_windows hp) first)
              (some-injective (layer_with hp tensors) layer h) here)
      by_place tensors rest each here (suc k) layer h =
          subst (λ (i : ℕ). IsLayer index hp roles (full_windows hp) i layer) (omega arith)
            (each k layer h)

  pub describe_layers-IsDescription :
      (out : ModelDescription)
      → describe_layers index hp roles ≡ described out
      → IsDescription index hp roles (full_windows hp) out
  unfolding describe_layers
  describe_layers-IsDescription out e = after_step _ _ out e λ tokens h1 e1.
      after_step _ _ out e1 λ embedding h2 e2. after_step _ _ out e2 λ norm h3 e3.
        after_step _ _ out e3 λ head h4 e4. after_step _ _ out e4 λ layers h5 e5.
          let (id, p, w) = required_found index _ _ embedding h2 in
          let (norm_id, q, v) = required_found index _ _ norm h3 in
          let (n, each) = fill_layers-IsLayer hp.block_count 0 layers h5 in
          subst (IsDescription index hp roles (full_windows hp)) (described-injective _ out e5)
            (record {
              tokens = tokens;
              tokens_read = from_metadata-described _ _ tokens h1;
              vocabulary_size = refl;
              embedding_width = refl;
              trained_context = refl;
              norm_epsilon = refl;
              token_embedding =
                  subst (IsTensor index (codes "token_embd.weight") _) (sym (ap the_tensor p)) w;
              output_norm =
                  subst (IsTensor index (codes "output_norm.weight") _) (sym (ap the_tensor q)) v;
              output_head = elim (find_tensor-found index _ _ false head h4) [
                | inl (a, b, c) ↦ inl (a, b)
                | inr h ↦ inr h
              ];
              layer_count = n;
              layers = λ i layer h.
                  subst (λ (k : ℕ). IsLayer index hp roles (full_windows hp) k layer) (omega arith)
                    (each i layer h);
            })
