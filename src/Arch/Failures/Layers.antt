-- ===== src/Arch/Failures/Layers.antt =====
-- The failures of describe_layers, src/core/arch/describe.cpp.
use browser_llm.Base.{
  ℕ, zero, suc, ◌+◌, ◌<◌, ◌≤◌, ◌≡◌, inl, inr, refl, sym, subst, Bool, true, false, Option, none,
  some, List, [], ◌∷◌, arith, get_elem?, Bool-cases,
}
use browser_llm.Gguf.Types.{TensorIndex, ValueType}
use browser_llm.Gguf.Index.{find}
use browser_llm.Model.{RoleTensors}
use browser_llm.Arch.{DescribeError, codes, Hyperparameters, RoleName}
use browser_llm.Arch.Describe.{
  Shape, tensor_has_shape, found_tensor, find_tensor, fill_roles, fill_layers, describe_layers,
}
use browser_llm.Arch.Describe.Architectures.{Architecture, architecture_name}
use browser_llm.Arch.Outcomes.{from_metadata-described}
use browser_llm.Arch.Numbers.{IsHyperparameters}
use browser_llm.Arch.Tensors.{misshaped}
use browser_llm.Arch.Families.{roles_of}
use browser_llm.Arch.Faults.{IsWanted, embedding, norm, head, weight, no_tensor, misshaped_tensor}
use browser_llm.Arch.Accesses.{read_array-Answers}
use browser_llm.Arch.Steps.{AreFaults, described_step, failing, bind_step, metadata_step}

module _ (a : Architecture) (index : TensorIndex) (hp : Hyperparameters)
    (numbers : IsHyperparameters index (architecture_name a) hp) where
  find_tensor_step :
      (name : List ℕ) (shape : Shape) (required : Bool)
      → IsWanted a index hp name shape required
      → AreFaults a index (find_tensor index name shape required)
  unfolding find_tensor
  find_tensor_step name shape required w = by_find (find index name) refl
    where
      by_required :
          (b : Bool)
          → b ≡ required
          → find index name ≡ none
          → AreFaults a index (found_tensor index none name shape b)
      by_required true r q =
          let wanted = subst (IsWanted a index hp name shape) (sym r) w in
          failing a index DescribeError.missing_tensor name
            (no_tensor name hp shape numbers wanted q)
      by_required false r q = described_step a index none

      by_find :
          (o : Option ℕ)
          → find index name ≡ o
          → AreFaults a index (found_tensor index o name shape required)
      by_find none q = by_required required refl q
      by_find (some id) q =
          elim (Bool-cases (tensor_has_shape (get_elem? index.tensors id) shape)) [
            | inl r ↦ rw r (described_step a index (some id))
            | inr r ↦ rw r (
                failing a index DescribeError.shape_mismatch name (
                  misshaped_tensor name hp shape required id numbers w q
                    (misshaped index name shape id r)))
          ]

  fill_roles_step :
      (layer : ℕ) (roles : List RoleName) (tensors : RoleTensors)
      → layer < hp.block_count
      → ((k : ℕ) (n : RoleName)
          → get_elem? roles k ≡ some n
          → (i : ℕ) × (get_elem? (roles_of a) i ≡ some n))
      → AreFaults a index (fill_roles index hp layer roles tensors)
  unfolding fill_roles
  fill_roles_step layer [] tensors l h = described_step a index tensors
  fill_roles_step layer (n ∷ more) tensors l h =
      let (i, e) = h 0 n refl in
      bind_step a index _ _ (find_tensor_step _ _ true (weight layer i n l e))
        λ slot q. fill_roles_step layer more _ l λ k m r. h (suc k) m r

  fill_layers_step :
      (left layer : ℕ)
      → layer + left ≤ hp.block_count
      → AreFaults a index (fill_layers index hp left layer (roles_of a))
  unfolding fill_layers
  fill_layers_step zero layer h = described_step a index []
  fill_layers_step (suc left) layer h =
      bind_step a index _ _
        (fill_roles_step layer (roles_of a) _ (omega (arith, h)) λ k n e. (k, e))
        λ tensors q.
          bind_step a index _ _ (fill_layers_step left (suc layer) (omega (arith, h)))
            λ rest r. described_step a index _

  pub layers_step : AreFaults a index (describe_layers index hp (roles_of a))
  unfolding describe_layers
  layers_step =
      bind_step a index _ _
        (metadata_step a index (codes "tokenizer.ggml.tokens") ValueType.array _ (8, refl)
          (read_array-Answers index (codes "tokenizer.ggml.tokens")))
        λ tokens h1.
          let read = from_metadata-described _ _ tokens h1 in
          bind_step a index _ _ (find_tensor_step _ _ true (embedding tokens read))
            λ embedding_slot h2.
              bind_step a index _ _ (find_tensor_step _ _ true norm) λ norm_slot h3.
                bind_step a index _ _ (find_tensor_step _ _ false (head tokens read))
                  λ head_slot h4.
                    bind_step a index _ _ (fill_layers_step hp.block_count 0 (omega arith))
                      λ layers h5. described_step a index _
