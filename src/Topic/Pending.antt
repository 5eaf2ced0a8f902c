-- ===== src/Topic/Pending.antt =====
-- The messages of quality of service 2 that wait for their PUBREL, `AddQoSTopic`, `GetQoSTopic` and
-- `DelQoSTopic` of src/topic_storage.cpp, as queues.
use mqtt_broker.Common.{
  ℕ, ◌≡◌, List, [], ◌∷◌, ◌++◌, Bool, false, ◌&&◌, ◌==◌, if◌then◌else◌, Option, none, some, text_eq,
}
use mqtt_broker.Topic.{MqttTopic}
use mqtt_broker.Topic.Storage.{add_qos_topic, get_qos_topic, del_qos_topic}

abbrev is_for : List ℕ → ℕ → List ℕ → MqttTopic → Bool
is_for client_id packet_id client t = text_eq client client_id && t.id == packet_id

-- The messages of a client with a packet identifier, the oldest first.
abbrev pub waiting : List ℕ → ℕ → List (List ℕ × MqttTopic) → List MqttTopic
waiting client_id packet_id [] = []
waiting client_id packet_id ((client, t) ∷ entries) =
    if text_eq client client_id && t.id == packet_id
    then t ∷ waiting client_id packet_id entries
    else waiting client_id packet_id entries

abbrev pub front : List MqttTopic → Option MqttTopic
front [] = none
front (t ∷ ts) = some t

abbrev pub rest : List MqttTopic → List MqttTopic
rest [] = []
rest (t ∷ ts) = ts

-- Adding puts the message at the end of its queue and touches no other, looking gives the front of the
-- queue, and deleting takes the front away and touches no other queue.
pub record AreQueues (entries : List (List ℕ × MqttTopic)) : Type 0 where
  pub added :
      (client_id : List ℕ) (packet_id : ℕ) (client : List ℕ) (t : MqttTopic)
      → waiting client_id packet_id (add_qos_topic client t entries)
        ≡ waiting client_id packet_id entries
          ++ (if text_eq client client_id && t.id == packet_id then t ∷ [] else [])
  pub found :
      (client_id : List ℕ) (packet_id : ℕ)
      → get_qos_topic client_id packet_id entries ≡ front (waiting client_id packet_id entries)
  pub deleted :
      (client_id : List ℕ) (packet_id : ℕ)
      → waiting client_id packet_id (del_qos_topic client_id packet_id entries)
        ≡ rest (waiting client_id packet_id entries)
  pub others :
      (client_id : List ℕ) (packet_id : ℕ) (client : List ℕ) (id : ℕ)
      → (text_eq client_id client && packet_id == id) ≡ false
      → waiting client id (del_qos_topic client_id packet_id entries) ≡ waiting client id entries
