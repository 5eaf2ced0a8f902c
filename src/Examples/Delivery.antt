-- ===== src/Examples/Delivery.antt =====
-- The theorems on messages to subscribers at a concrete state.
use mqtt_broker.Common.{ℕ, ◌≡◌, refl, List, [], ◌∷◌, ◌++◌, length, true, some, done, text_eq, arith}
use mqtt_broker.VarInt.{MqttErr}
use mqtt_broker.FixedHeader.{FixedHeader, qos}
use mqtt_broker.VariableHeader.{PublishVh, publish}
use mqtt_broker.VariableHeader.Wire as VhWire
use mqtt_broker.Packet.{Packet}
use mqtt_broker.Handlers.{handle_publish}
use mqtt_broker.Handlers.Publish.{handle_publish-encoding}
use mqtt_broker.Topic.{MqttTopic}
use mqtt_broker.Topic.Filter.{check_wild_cards}
use mqtt_broker.Client.{Client, new_client}
use mqtt_broker.Broker.{Broker, notify_clients}
use mqtt_broker.Broker.Delivery.{IsSendable, no_properties}
use mqtt_broker.Broker.Delivery.Wants.{Deliveries, IsTyped}
use mqtt_broker.Broker.Delivery.Returns.{IsReady, notify_clients-returns}
use mqtt_broker.PacketHandlers.{ref_of, handle_publish_packet}
use mqtt_broker.PacketHandlers.Published.{handle_publish_packet-delivers}
use mqtt_broker.Examples.{zeros, zeros_size}

-- A client that subscribes to "a" with quality of service 1.
abbrev reader : Client
reader = record (new_client [] 0) {
  client_id = 99 ∷ [];
  subscribed_topics = (97 ∷ [], 1) ∷ [];
  packet_id_gen = 7;
}

abbrev one_reader : Broker
one_reader = record {
  objects = reader ∷ [];
  clients = (5, some 0) ∷ [];
  subscribed_clients = (5, 0) ∷ [];
  postponed_events = [];
  commands = [];
  topics = [];
  qos_2_topics = [];
}

-- "hi" under "a"
abbrev news : MqttTopic
news = record { qos = 0; id = 0; name = 97 ∷ []; value = some (104 ∷ 105 ∷ []) }

news-IsSendable : IsSendable news (104 ∷ 105 ∷ [])
news-IsSendable = record { value = refl; name_fits = omega arith; message_fits = omega arith }

reader-IsTyped : IsTyped reader
reader-IsTyped = record { counter = omega arith; options = (omega arith, tt) }

reader-IsReady : IsReady 1 (97 ∷ []) reader
unfolding check_wild_cards text_eq
reader-IsReady = record { above = omega arith; below = omega arith; answers = ((true, 1), refl) }

notify_clients-returns_example :
    (topic' : MqttTopic) × (b' : Broker) × (sent : List (ℕ × Packet)) × (notify_clients zeros news
        one_reader
      ≡ done (topic', b'))
    × (b'.commands ≡ [] ++ sent)
    × Deliveries one_reader (97 ∷ []) (104 ∷ 105 ∷ []) ((5, 0) ∷ []) sent
notify_clients-returns_example =
    notify_clients-returns zeros zeros_size news (104 ∷ 105 ∷ []) one_reader news-IsSendable tt
      (reader-IsTyped, tt) (reader-IsReady, tt)

-- The PUBLISH of "hi" under "a" that another client on the same broker sends.
abbrev news_vh : PublishVh
news_vh = record { topic_name = 97 ∷ []; packet_id = 0; p_chain = [] }

abbrev news_bytes : List ℕ
news_bytes = VhWire.encoding (publish news_vh) ++ (104 ∷ 105 ∷ [])

abbrev news_header : FixedHeader
news_header = record { first = 0x30; remaining_len = length news_bytes }

news_read : handle_publish news_header news_bytes ≡ done (news_vh, 104 ∷ 105 ∷ [])
unfolding qos
news_read =
    handle_publish-encoding news_header news_vh (104 ∷ 105 ∷ []) (omega arith) (omega arith)
      no_properties tt tt (omega arith) (λ e. refl, λ e. refl) refl

handle_publish_packet-delivers_example :
    (b' : Broker) × (sent : List (ℕ × Packet)) × (handle_publish_packet zeros news_header news_bytes
        5 one_reader
      ≡ done (MqttErr.ok, b'))
    × (b'.commands ≡ [] ++ sent)
    × Deliveries one_reader (97 ∷ []) (104 ∷ 105 ∷ []) ((5, 0) ∷ []) sent
unfolding ref_of qos
handle_publish_packet-delivers_example =
    handle_publish_packet-delivers zeros zeros_size news_header news_bytes 5 0 reader news_vh
      (104 ∷ 105 ∷ []) one_reader refl refl news_read refl (omega arith) (omega arith) tt
      (reader-IsTyped, tt) (reader-IsReady, tt)
