-- ===== src/Examples/State.antt =====
-- The theorems on topics, clients and the broker at concrete states.
use mqtt_broker.Common.{
  ℕ, ◌≡◌, ◌↔◌, refl, List, [], ◌∷◌, true, false, if◌then◌else◌, text_eq, text_lt, some, done, fault,
}
use mqtt_broker.Common.Bytes.{convert_to_host_2_bytes}
use mqtt_broker.VarInt.{MqttErr}
use mqtt_broker.FixedHeader.{FixedHeader, get_type}
use mqtt_broker.VariableHeader.Read.{read_puback}
use mqtt_broker.Handlers.{add_subscription, handle_puback}
use mqtt_broker.Topic.{MqttTopic}
use mqtt_broker.Topic.Filter.{client_match, tokenize}
use mqtt_broker.Topic.Matching.{Matches, client_match-Matches}
use mqtt_broker.Topic.Matching.Exhausted.{IsExhausted, client_match-IsExhausted}
use mqtt_broker.Topic.Storage.{store_topic, get_topic, get_matched_topics}
use mqtt_broker.Topic.Retained.{IsSorted, get_topic-store_topic}
use mqtt_broker.Topic.Stored.Matched.{SomeOverruns, get_matched_topics-SomeOverruns}
use mqtt_broker.Client.{Client, new_client}
use mqtt_broker.Client.PacketIds.{options_of, or_else, options_of-add_subscription}
use mqtt_broker.Broker.{Broker, check_if_more_messages, del_qos_event, del_events, events_of}
use mqtt_broker.PacketHandlers.{ref_of, with_client, send_kept, handle_puback_packet}
use mqtt_broker.PacketHandlers.Dispatch.{dispatch, handle_packet}
use mqtt_broker.PacketHandlers.Agreement.{Agrees}
use mqtt_broker.PacketHandlers.Steps.{
  Reached, handled, added, here, step, Reached-check_if_more_messages, Reached-Agrees,
}
use mqtt_broker.Broker.Tables.{add_client}
use mqtt_broker.Examples.{zeros}

-- "a", "b" and "+"
abbrev a : List ℕ
a = 97 ∷ []

abbrev b : List ℕ
b = 98 ∷ []

abbrev plus_sign : List ℕ
plus_sign = 43 ∷ []

client_match-Matches_example :
    (client_match (a ∷ b ∷ []) (plus_sign ∷ b ∷ []) ≡ done true)
    ↔ Matches (plus_sign ∷ b ∷ []) (a ∷ b ∷ [])
client_match-Matches_example = client_match-Matches (a ∷ b ∷ []) (plus_sign ∷ b ∷ [])

client_match-IsExhausted_example :
    (client_match (a ∷ b ∷ []) (a ∷ []) ≡ fault) ↔ IsExhausted (a ∷ []) (a ∷ b ∷ [])
client_match-IsExhausted_example = client_match-IsExhausted (a ∷ b ∷ []) (a ∷ [])

abbrev topic_a : MqttTopic
topic_a = record { qos = 1; id = 3; name = a; value = some (1 ∷ []) }

abbrev topic_b : MqttTopic
topic_b = record { qos = 0; id = 0; name = b; value = some (2 ∷ []) }

abbrev new_a : MqttTopic
new_a = record { qos = 1; id = 4; name = a; value = some (9 ∷ []) }

two_topics-IsSorted : IsSorted (topic_a ∷ topic_b ∷ [])
unfolding text_lt
two_topics-IsSorted = (refl, tt)

get_topic-store_topic_example :
    get_topic a (store_topic new_a (topic_a ∷ topic_b ∷ []))
    ≡ (if text_eq a new_a.name then (new_a, true) else get_topic a (topic_a ∷ topic_b ∷ []))
get_topic-store_topic_example =
    get_topic-store_topic new_a (topic_a ∷ topic_b ∷ []) a two_topics-IsSorted

get_matched_topics-SomeOverruns_example :
    (get_matched_topics (97 ∷ 47 ∷ 98 ∷ []) (topic_a ∷ []) ≡ fault)
    ↔ SomeOverruns (tokenize (97 ∷ 47 ∷ 98 ∷ [])) (topic_a ∷ [])
unfolding text_eq
get_matched_topics-SomeOverruns_example =
    get_matched_topics-SomeOverruns (97 ∷ 47 ∷ 98 ∷ []) (topic_a ∷ []) refl

abbrev client_c : Client
client_c = record (new_client [] 0) { client_id = 99 ∷ []; packet_id_gen = 1 }

options_of-add_subscription_example : options_of a (add_subscription a 2 ((a, 1) ∷ [])) ≡ (
    if text_eq a a
    then some (or_else (options_of a ((a, 1) ∷ [])) 2)
    else options_of a ((a, 1) ∷ []))
options_of-add_subscription_example = options_of-add_subscription a 2 ((a, 1) ∷ []) a

-- One client, on file descriptor 5.
abbrev one_client : Broker
one_client = record {
  objects = client_c ∷ [];
  clients = (5, some 0) ∷ [];
  subscribed_clients = (5, 0) ∷ [];
  postponed_events = [];
  commands = [];
  topics = [];
  qos_2_topics = [];
}

abbrev puback_header : FixedHeader
puback_header = record { first = 0x40; remaining_len = 2 }

puback_handled :
    handle_packet zeros [] puback_header (0 ∷ 7 ∷ []) 5 one_client ≡ done (MqttErr.ok, one_client)
unfolding handle_packet dispatch get_type handle_puback_packet with_client ref_of handle_puback
    read_puback convert_to_host_2_bytes send_kept check_if_more_messages events_of del_qos_event
    del_events
puback_handled = refl

abbrev acknowledged : Reached zeros one_client one_client
acknowledged =
    step one_client one_client one_client (here one_client)
      (handled [] puback_header (0 ∷ 7 ∷ []) 5 one_client one_client MqttErr.ok puback_handled)

Reached-check_if_more_messages_example : check_if_more_messages (99 ∷ []) one_client ≡ false
Reached-check_if_more_messages_example =
    Reached-check_if_more_messages zeros one_client one_client (99 ∷ []) tt acknowledged

Reached-Agrees_example : Agrees (add_client 6 [] 0 one_client).1
unfolding ref_of
Reached-Agrees_example =
    Reached-Agrees zeros one_client (add_client 6 [] 0 one_client).1 tt
      (step one_client one_client (add_client 6 [] 0 one_client).1 acknowledged
        (added 6 0 [] one_client))
      (refl, tt)
