-- ===== src/Arch/Families.antt =====
-- What each architecture's description of a file says, src/core/arch/llama/llama.cpp, qwen3/qwen3.cpp and
-- gemma3/gemma3.cpp.
use browser_llm.Base.{ℕ, ◌*◌, ◌≡◌, refl, List, arith}
use browser_llm.Gguf.Types.{TensorIndex}
use browser_llm.Model.{ModelDescription}
use browser_llm.Arch.{described, Hyperparameters, RoleName}
use browser_llm.Arch.Describe.{query_width, key_value_width, read_hyperparameters}
use browser_llm.Arch.Describe.Architectures.{
  llama_roles, qwen3_roles, gemma3_roles, describe_llama, describe_qwen3, describe_gemma3,
  Architecture, llama, qwen3, gemma3, architecture_name, describe,
}
use browser_llm.Arch.Widths.{query_width-exact, key_value_width-exact}
use browser_llm.Arch.Outcomes.{after_step}
use browser_llm.Arch.Numbers.{IsHyperparameters, read_hyperparameters-IsHyperparameters}
use browser_llm.Arch.Tensors.{AreApart}
use browser_llm.Arch.Layers.{Windows, full_windows, IsDescription, describe_layers-IsDescription}
use browser_llm.Arch.Windows.{AreGemmaWindows, apply_sliding_window-IsDescription}

-- The roles that an architecture's layers have.
abbrev pub roles_of : Architecture → List RoleName
roles_of llama = llama_roles
roles_of qwen3 = qwen3_roles
roles_of gemma3 = gemma3_roles

-- The windows that its layers have: full ones, but for Gemma 3.
abbrev pub AreWindowsOf : Architecture → TensorIndex → Windows → Windows → Type 0
AreWindowsOf llama index full windows = (i : ℕ) → windows i ≡ full i
AreWindowsOf qwen3 index full windows = (i : ℕ) → windows i ≡ full i
AreWindowsOf gemma3 index full windows = AreGemmaWindows index full windows

-- The description is that of the file, for the numbers that the file declares.
pub record IsModel (a : Architecture) (index : TensorIndex) (out : ModelDescription) : Type 0 where
  pub hp : Hyperparameters
  pub numbers : IsHyperparameters index (architecture_name a) hp
  pub query_width_exact : query_width hp ≡ hp.head_count * hp.head_dimension
  pub key_value_width_exact : key_value_width hp ≡ hp.head_count_kv * hp.head_dimension
  pub windows : Windows
  pub windows_of : AreWindowsOf a index (full_windows hp) windows
  pub description : IsDescription index hp (roles_of a) windows out

roles_of-AreApart : (a : Architecture) → AreApart (roles_of a)
roles_of-AreApart llama = omega arith
roles_of-AreApart qwen3 = omega arith
roles_of-AreApart gemma3 = omega arith

model_with :
    (a : Architecture) (index : TensorIndex) (hp : Hyperparameters) (out : ModelDescription)
    → read_hyperparameters index (architecture_name a) ≡ described hp
    → (windows : Windows) × IsDescription index hp (roles_of a) windows out
      × AreWindowsOf a index (full_windows hp) windows
    → IsModel a index out
model_with a index hp out e (windows, d, w) =
    let numbers = read_hyperparameters-IsHyperparameters index (architecture_name a) hp e in
    record {
      hp = hp;
      numbers = numbers;
      query_width_exact = query_width-exact index (architecture_name a) hp numbers;
      key_value_width_exact = key_value_width-exact index (architecture_name a) hp numbers;
      windows = windows;
      windows_of = w;
      description = d;
    }

-- A description that an architecture gives of a file is that of the file: its numbers are those that
-- the file declares, none that must be positive is zero, and the widths of its attention do not
-- wrap; the vocabulary is the number of tokens, cast to 32 bits; the embedding, the norm and the
-- output head, where there is one, are tensors of the file under their names and of their shapes;
-- there are as many layers as the file declares, and each has, for every role of the architecture,
-- the tensor named by the layer's number and the role's suffix, of the role's shape, and none for
-- any other role; each layer attends over the full context, but for Gemma 3 with a declared window,
-- where all but the last of each run of layers have the window and its rotary base.
pub describe-IsModel :
    (a : Architecture) (index : TensorIndex) (out : ModelDescription)
    → describe a index ≡ described out
    → IsModel a index out
unfolding describe_llama describe_qwen3 describe_gemma3
describe-IsModel llama index out e = after_step _ _ out e λ hp h e1.
    model_with llama index hp out h (
      full_windows hp,
      describe_layers-IsDescription index hp llama_roles (roles_of-AreApart llama) out e1,
      λ i. refl,
    )
describe-IsModel qwen3 index out e = after_step _ _ out e λ hp h e1.
    model_with qwen3 index hp out h (
      full_windows hp,
      describe_layers-IsDescription index hp qwen3_roles (roles_of-AreApart qwen3) out e1,
      λ i. refl,
    )
describe-IsModel gemma3 index out e = after_step _ _ out e λ hp h e1.
    after_step _ _ out e1 λ full k e2. model_with gemma3 index hp out h (
      apply_sliding_window-IsDescription index hp gemma3_roles full
        (describe_layers-IsDescription index hp gemma3_roles (roles_of-AreApart gemma3) full k) out
        e2)
