-- ===== src/Topic.antt =====
-- Class `MqttTopic`, src/mqtt_topic.cpp.
pub mod Filter
pub mod Matching
pub mod Storage
pub mod Stored
pub mod Retained
pub mod Pending
use mqtt_broker.Common.{
  ℕ, ◌-◌, ◌+◌, ◌%◌, ◌^◌, List, length, Bool, Option, ltb, if◌then◌else◌, text_eq, text_lt,
}

-- `value` is `data`, a `shared_ptr<MqttBinaryDataEntity>`, which may be empty.
pub record MqttTopic : Type 0 where
  pub qos : ℕ
  pub id : ℕ
  pub name : List ℕ
  pub value : Option (List ℕ)

-- The constructor: `if (qos > 2) qos = 0;`
unfoldable pub make : ℕ → ℕ → List ℕ → Option (List ℕ) → MqttTopic
make qos id name value = record {
  qos = if ltb 2 qos then 0 else qos;
  id = id;
  name = name;
  value = value;
}

-- `operator ==(const string &)`
unfoldable pub is_named : MqttTopic → List ℕ → Bool
is_named topic str = text_eq topic.name str

-- `operator <`
unfoldable pub less : MqttTopic → MqttTopic → Bool
less a b = text_lt a.name b.name

-- The setters make no test.
abbrev pub set_packet_id : ℕ → MqttTopic → MqttTopic
set_packet_id new_id topic = record topic { id = new_id }

abbrev pub set_qos : ℕ → MqttTopic → MqttTopic
set_qos qos topic = record topic { qos = qos }
