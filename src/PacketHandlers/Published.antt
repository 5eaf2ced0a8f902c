-- ===== src/PacketHandlers/Published.antt =====
-- The handler of PUBLISH, src/mqtt_packet_handler.cpp, from the packet to the subscribers.
use mqtt_broker.Common.{
  ℕ, ◌^◌, ◌<◌, ◌≡◌, refl, List, ◌++◌, length, Bool-cases, inl, inr, some, done, All,
}
use mqtt_broker.VarInt.{MqttErr}
use mqtt_broker.FixedHeader.{FixedHeader, qos, is_retain}
use mqtt_broker.VariableHeader.{PublishVh}
use mqtt_broker.Packet.{Packet}
use mqtt_broker.Handlers.{handle_publish}
use mqtt_broker.Topic.{MqttTopic, make}
use mqtt_broker.Topic.Storage.{store_topic_value}
use mqtt_broker.Client.{Client}
use mqtt_broker.Broker.{Broker, object, notify_clients}
use mqtt_broker.Broker.Postponed.{NoEvents}
use mqtt_broker.Broker.Delivery.{IsSendable}
use mqtt_broker.Broker.Delivery.Wants.{Deliveries, nobody, passed_over, sent_to, IsTyped}
use mqtt_broker.Broker.Delivery.Returns.{IsReady, notify_clients-returns}
use mqtt_broker.PacketHandlers.{ref_of, with_client, acknowledge, pass_on, handle_publish_packet}

-- The retained topics have no part in the deliveries.
Deliveries-topics :
    (b : Broker) (topics : List MqttTopic) (name message : List ℕ) (subscribers : List (ℕ × ℕ))
    (sent : List (ℕ × Packet))
    → Deliveries (record b { topics = topics }) name message subscribers sent
    → Deliveries b name message subscribers sent
Deliveries-topics b topics name message _ _ nobody = nobody
Deliveries-topics b topics name message _ _ (passed_over fd ref subscribers sent n d) =
    passed_over fd ref subscribers sent n
      (Deliveries-topics b topics name message subscribers sent d)
Deliveries-topics b topics name message _ _ (sent_to fd ref options packet subscribers sent w c d) =
    sent_to fd ref options packet subscribers sent w c
      (Deliveries-topics b topics name message subscribers sent d)

module _ (fresh : ℕ → List ℕ) (fresh_size : (n : ℕ) → length (fresh n) ≡ n) where
  -- A PUBLISH of quality of service 0 from a connected client reaches its readers: the handler returns
  -- `ok`, and it has appended to the commands one packet for each subscribed client that is still
  -- connected and has a filter that matches the topic, in the order of the table, and none for any
  -- other; each is read back as a PUBLISH of the same topic and message. The message is retained or not.
  -- The conditions are those under which `NotifyClients` returns: no event is postponed, the
  -- name and the message fit their length fields, and for every client the search of its filters
  -- returns, the options fit a byte, and the counter of packet identifiers stays above 0.
  pub handle_publish_packet-delivers :
      (fh : FixedHeader) (buf : List ℕ) (fd ref : ℕ) (c : Client) (vh : PublishVh)
      (message : List ℕ) (b : Broker)
      → ref_of fd b.clients ≡ some ref
      → object b.objects ref ≡ some c
      → handle_publish fh buf ≡ done (vh, message)
      → qos fh ≡ 0
      → length vh.topic_name < 2 ^ 16
      → length message < 2 ^ 16
      → NoEvents b.postponed_events
      → All IsTyped b.objects
      → All (IsReady (length b.subscribed_clients) vh.topic_name) b.objects
      → (b' : Broker) × (sent : List (ℕ × Packet)) × (handle_publish_packet fresh fh buf fd b
          ≡ done (MqttErr.ok, b'))
        × (b'.commands ≡ b.commands ++ sent)
        × Deliveries b vh.topic_name message b.subscribed_clients sent
  unfolding handle_publish_packet with_client acknowledge pass_on make
  handle_publish_packet-delivers fh buf fd ref c vh message b r o p q ht hm n t d =
      elim (Bool-cases (is_retain fh)) [
        | inl y ↦
            let topics =
              store_topic_value (qos fh) vh.packet_id vh.topic_name (some message) b.topics in
            let (topic', b', sent, e, k, s) = delivered (record b { topics = topics }) n t d in
            (
              b',
              sent,
              rw (handle_publish_packet, with_client, r, o, p, y, acknowledge, pass_on, q)
                  (rw (rw q at e) refl),
              k,
              Deliveries-topics b topics vh.topic_name message b.subscribed_clients sent s,
            )
        | inr m ↦
            let (topic', b', sent, e, k, s) = delivered b n t d in
            (
              b',
              sent,
              rw (handle_publish_packet, with_client, r, o, p, m, acknowledge, pass_on, q)
                  (rw (rw q at e) refl),
              k,
              s,
            )
      ]
    where
      topic : MqttTopic
      topic = make (qos fh) vh.packet_id vh.topic_name (some message)

      sendable : IsSendable topic message
      sendable = record { value = refl; name_fits = ht; message_fits = hm }

      delivered :
          (b : Broker)
          → NoEvents b.postponed_events
          → All IsTyped b.objects
          → All (IsReady (length b.subscribed_clients) vh.topic_name) b.objects
          → (topic' : MqttTopic) × (b' : Broker) × (sent : List (ℕ × Packet)) × (notify_clients
                fresh topic b
              ≡ done (topic', b'))
            × (b'.commands ≡ b.commands ++ sent)
            × Deliveries b vh.topic_name message b.subscribed_clients sent
      delivered b n t d = notify_clients-returns fresh fresh_size topic message b sendable n t d
