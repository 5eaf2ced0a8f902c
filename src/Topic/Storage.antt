-- ===== src/Topic/Storage.antt =====
-- Class `CTopicStorage`, src/topic_storage.cpp: the retained topics, a `std::set<MqttTopic>` that is
-- here the list of its elements in their order. Each method holds its lock from its first line to
-- its last, so that the methods follow one another.
use mqtt_broker.Common.{
  ℕ, List, [], ◌∷◌, ◌++◌, Bool, true, false, ◌&&◌, ◌||◌, ◌==◌, if◌then◌else◌, text_eq, Option, none,
  some, Exec, done, ◌>>=◌,
}
use mqtt_broker.Topic.{MqttTopic, make, less}
use mqtt_broker.Topic.Filter.{tokenize, stored_match}

-- `erase(topic)`: the element that is neither smaller nor larger.
unfoldable pub erase : MqttTopic → List MqttTopic → List MqttTopic
erase topic [] = []
erase topic (t ∷ topics) =
    if less t topic then t ∷ erase topic topics else if less topic t then t ∷ topics else topics

-- `emplace(topic)`, which keeps an element that is there.
unfoldable pub emplace : MqttTopic → List MqttTopic → List MqttTopic
emplace topic [] = topic ∷ []
emplace topic (t ∷ topics) =
    if less t topic
    then t ∷ emplace topic topics
    else if less topic t
    then topic ∷ t ∷ topics
    else t ∷ topics

unfoldable pub find : MqttTopic → List MqttTopic → Option MqttTopic
find topic [] = none
find topic (t ∷ topics) =
    if less t topic then find topic topics else if less topic t then none else some t

-- `StoreTopicValue(const MqttTopic &)`, and the other overload, which builds the topic.
unfoldable pub store_topic : MqttTopic → List MqttTopic → List MqttTopic
store_topic topic topics = emplace topic (erase topic topics)

unfoldable pub store_topic_value :
    ℕ → ℕ → List ℕ → Option (List ℕ) → List MqttTopic → List MqttTopic
store_topic_value qos id topic_name value topics = store_topic (make qos id topic_name value) topics

-- `GetTopic`: the topic and `found`.
unfoldable pub get_topic : List ℕ → List MqttTopic → MqttTopic × Bool
get_topic topic_name topics =
    let tmp_topic = make 0 0 topic_name none in
    elim (find tmp_topic topics) [ none ↦ (tmp_topic, false) | some t ↦ (t, true) ]

-- `GetStoredValuePtr`
unfoldable pub get_stored_value_ptr : List ℕ → List MqttTopic → Option (List ℕ)
get_stored_value_ptr topic_name topics = elim (find (make 0 0 topic_name none) topics) [
  | none ↦ none
  | some t ↦ t.value
]

unfoldable pub delete_topic_value : MqttTopic → List MqttTopic → List MqttTopic
delete_topic_value topic topics = erase topic topics

-- `qos_2_topics` is a multimap, here the list of its entries: the entries of one client are in the
-- order of their iteration.
unfoldable pub add_qos_topic :
    List ℕ → MqttTopic → List (List ℕ × MqttTopic) → List (List ℕ × MqttTopic)
add_qos_topic client_id topic entries = entries ++ ((client_id, topic) ∷ [])

unfoldable pub get_qos_topic : List ℕ → ℕ → List (List ℕ × MqttTopic) → Option MqttTopic
get_qos_topic client_id packet_id [] = none
get_qos_topic client_id packet_id ((client, t) ∷ entries) =
    if text_eq client client_id && t.id == packet_id
    then some t
    else get_qos_topic client_id packet_id entries

unfoldable pub del_qos_topic : List ℕ → ℕ → List (List ℕ × MqttTopic) → List (List ℕ × MqttTopic)
del_qos_topic client_id packet_id [] = []
del_qos_topic client_id packet_id ((client, t) ∷ entries) =
    if text_eq client client_id && t.id == packet_id
    then entries
    else (client, t) ∷ del_qos_topic client_id packet_id entries

-- The loop of `GetMatchedTopics` over the stored topics.
unfoldable pub matched_loop : List (List ℕ) → List MqttTopic → Exec (List MqttTopic)
matched_loop filter [] = done []
matched_loop filter (t ∷ topics) = do
  found ← stored_match filter (tokenize t.name)
  rest ← matched_loop filter topics
  done (if found then t ∷ rest else rest)

-- "#" and "/#" match every topic.
unfoldable pub get_matched_topics : List ℕ → List MqttTopic → Exec (List MqttTopic)
get_matched_topics topic_name topics =
    let some_topics = matched_loop (tokenize topic_name) topics in
    if text_eq topic_name (35 ∷ []) || text_eq topic_name (47 ∷ 35 ∷ [])
    then done topics
    else some_topics
