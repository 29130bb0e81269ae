-- ===== src/Model.antt =====
-- The model description, src/core/model/model_description.h. A float is the bit pattern that it has.
use browser_llm.Base.{ℕ, Option, List}

-- A tensor's position in the index.
abbrev pub TensorId : Type 0
TensorId = ℕ

-- The roles of a layer's weights; `count` is their number and no role.
pub data Role : Type 0 where
  attention_norm : Role
  query : Role
  key : Role
  value : Role
  attention_output : Role
  query_norm : Role
  key_norm : Role
  post_attention_norm : Role
  feed_forward_norm : Role
  gate : Role
  up : Role
  down : Role
  post_feed_forward_norm : Role
  count : Role

abbrev pub role_number : Role → ℕ
role_number Role.attention_norm = 0
role_number Role.query = 1
role_number Role.key = 2
role_number Role.value = 3
role_number Role.attention_output = 4
role_number Role.query_norm = 5
role_number Role.key_norm = 6
role_number Role.post_attention_norm = 7
role_number Role.feed_forward_norm = 8
role_number Role.gate = 9
role_number Role.up = 10
role_number Role.down = 11
role_number Role.post_feed_forward_norm = 12
role_number Role.count = 13

-- The array of a layer's tensors, by role.
abbrev pub RoleTensors : Type 0
RoleTensors = Role → Option TensorId

pub record LayerDescription : Type 0 where
  pub query_heads : ℕ
  pub key_value_heads : ℕ
  pub head_dimension : ℕ
  pub feed_forward_width : ℕ
  pub attention_window : ℕ
  pub rope_base : ℕ
  pub tensors : RoleTensors

pub record ModelDescription : Type 0 where
  pub vocabulary_size : ℕ
  pub embedding_width : ℕ
  pub trained_context : ℕ
  pub norm_epsilon : ℕ
  pub token_embedding : TensorId
  pub output_norm : TensorId
  pub output_head : Option TensorId
  pub layers : List LayerDescription
