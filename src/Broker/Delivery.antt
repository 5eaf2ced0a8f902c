-- ===== src/Broker/Delivery.antt =====
-- One message to one client, src/broker.cpp: the part that `NotifyClients` and `NotifyClient` have in
-- common, and the packet that it adds to the commands.
pub mod Wants
pub mod Everyone
pub mod Returns
use mqtt_broker.Common.{
  ℕ, ◌+◌, ◌%◌, ◌^◌, ◌<◌, ◌≡◌, ◌≢◌, ◌↔◌, refl, sym, ap, ◌∙◌, bit_and, List, [], ◌∷◌, ◌++◌, length,
  Bool, true, false, ◌==◌, ==_iff, clash, ◌⊎◌, Bool-cases, inl, inr, none, some, Exec, Leaves, done,
  abort, done_inj, ◌>>=◌, >>=-eq-done, arith,
}
use mathlib.Core.Path.{subst}
use mqtt_broker.FixedHeader.{
  FixedHeader, qos, is_dup, is_retain, get_type, header, read_fixed_header,
}
use mqtt_broker.FixedHeader.Types.{PackType, code}
use mqtt_broker.FixedHeader.Fields.{built_fields}
use mqtt_broker.VariableHeader.{PublishVh, publish}
use mqtt_broker.VariableHeader.RoundTrip.{IsReadable}
use mqtt_broker.Packet.{Packet, create_message_packet}
use mqtt_broker.Packet.Mismatch.{qos_of, create_message_packet_abort}
use mqtt_broker.Handlers.{handle_publish}
use mqtt_broker.Handlers.Publish.{create_message_packet-read}
use mqtt_broker.Topic.{MqttTopic, set_packet_id}
use mqtt_broker.Client.{Client, gen_packet_id}
use mqtt_broker.Broker.{
  Broker, set_object, add_command, publish_byte, topic_packet, send_topic, number_topic,
  number_and_send,
}
use mqtt_broker.Broker.Postponed.{NoEvents, send_topic_at_once}

-- A packet that is as long as it says, and that is read back as a PUBLISH of the topic and the message:
-- it has the given quality of service, neither the DUP flag nor the RETAIN flag, no properties, and a packet identifier
-- other than 0 exactly where the quality of service is not 0.
pub record Carries (name message : List ℕ) (q : ℕ) (packet : Packet) : Type 0 where
  pub fh : FixedHeader
  pub body : List ℕ
  pub id : ℕ
  pub whole : packet.size ≡ length packet.bytes
  pub head : read_fixed_header packet.bytes ≡ header fh body
  pub type : get_type fh ≡ 3
  pub quality : qos fh ≡ q
  pub no_dup : is_dup fh ≡ false
  pub no_retain : is_retain fh ≡ false
  pub numbered : (q ≡ 0) ↔ (id ≡ 0)
  pub content :
      handle_publish fh body
      ≡ done (record { topic_name = name; packet_id = id; p_chain = [] }, message)

-- A topic that can be sent.
pub record IsSendable (topic : MqttTopic) (message : List ℕ) : Type 0 where
  pub value : topic.value ≡ some message
  pub name_fits : length topic.name < 2 ^ 16
  pub message_fits : length message < 2 ^ 16

pub no_properties : IsReadable []
no_properties = record {
  valid = record { typed = tt; fits = omega arith };
  short = tt;
  sorted = tt;
}

abbrev pub Fields : ℕ → FixedHeader → Type 0
Fields q h = (get_type h ≡ 3) × (qos h ≡ q) × (is_dup h ≡ false) × (is_retain h ≡ false)

pub publish_byte-Fields :
    (q len : ℕ) → q < 4 → Fields q (record { first = publish_byte q; remaining_len = len })
publish_byte-Fields q len h = built_fields 3 q len false false (omega arith) h

-- The objects after a message to a client: they are the same, or the client has a new counter.
abbrev pub Counted : ℕ → Client → List Client → List Client → Type 0
Counted ref c objects objects' =
    (objects' ≡ objects)
    ⊎ ((c' : Client) × (objects' ≡ set_object objects ref c')
        × (c'.subscribed_topics ≡ c.subscribed_topics)
        × (c'.packet_id_gen ≡ (c.packet_id_gen + 1) % 2 ^ 16))

-- What a message to a client leaves: the packet at the end of the commands, and the topic but for its
-- numbers.
pub record Sent (fd ref : ℕ) (c : Client) (topic : MqttTopic) (message : List ℕ) (b : Broker)
    (r : MqttTopic × Broker) : Type 0 where
  pub packet : Packet
  pub carries : Carries topic.name message topic.qos packet
  pub command : r.1.commands ≡ b.commands ++ ((fd, packet) ∷ [])
  pub counted : Counted ref c b.objects r.1.objects
  pub same_name : r.0.name ≡ topic.name
  pub same_value : r.0.value ≡ topic.value

module _ (fresh : ℕ → List ℕ) (fresh_size : (n : ℕ) → length (fresh n) ≡ n) where
  numbered_packet :
      (topic : MqttTopic) (message : List ℕ)
      → IsSendable topic message
      → topic.qos < 4
      → topic.id < 2 ^ 16
      → (topic.qos ≡ 0) ↔ (topic.id ≡ 0)
      → Leaves
          (Carries topic.name message topic.qos)
          (topic_packet fresh (publish_byte topic.qos) topic)
  unfolding topic_packet
  numbered_packet topic message s hq hi hn packet e =
      let created = rw (topic_packet, s.value) at e in
      let (q0, q1) = quality_zero in
      let (p, fh, body, c, w, f, r, h) =
        create_message_packet-read fresh fresh_size (publish_byte topic.qos)
          (record { topic_name = topic.name; packet_id = topic.id; p_chain = [] }) message
          s.name_fits hi no_properties tt tt s.message_fits (q0, q1) in
      let is_packet = done_inj p packet (sym c ∙ created) in
      let (t, q, d, n) =
        subst (Fields topic.qos)
          (ap (λ x. record { first = x; remaining_len = fh.remaining_len }) (sym f))
          (publish_byte-Fields topic.qos fh.remaining_len hq) in
      subst (Carries topic.name message topic.qos) is_packet record {
        fh = fh;
        body = body;
        id = topic.id;
        whole = w;
        head = r;
        type = t;
        quality = q;
        no_dup = d;
        no_retain = n;
        numbered = hn;
        content = h;
      }
    where
      quality_zero : (qos_of (publish_byte topic.qos) ≡ 0) ↔ (topic.id ≡ 0)
      quality_zero = (
        λ z. hn.0 (sym (publish_byte-Fields topic.qos 0 hq).1 ∙ z),
        λ z. (publish_byte-Fields topic.qos 0 hq).1 ∙ hn.1 z,
      )

  -- Without its packet identifier a PUBLISH of quality of service 1 or more is not made.
  unnumbered_packet :
      (topic : MqttTopic) (message : List ℕ)
      → IsSendable topic message
      → topic.qos < 4
      → topic.qos ≢ 0
      → topic.id ≡ 0
      → topic_packet fresh (publish_byte topic.qos) topic ≡ abort
  unfolding topic_packet
  unnumbered_packet topic message s hq hz hi =
      rw (topic_packet, s.value)
        (create_message_packet_abort fresh fresh_size (publish_byte topic.qos)
          (record { topic_name = topic.name; packet_id = topic.id; p_chain = [] }) message
          (record { valid = (s.name_fits, no_properties.valid); payload = s.message_fits })
          (λ z. hz (sym (publish_byte-Fields topic.qos 0 hq).1 ∙ z)) hi)

  -- A packet that was made carries the topic.
  made_packet :
      (topic : MqttTopic) (message : List ℕ)
      → IsSendable topic message
      → topic.qos < 4
      → topic.id < 2 ^ 16
      → (topic.qos ≡ 0 → topic.id ≡ 0)
      → Leaves
          (Carries topic.name message topic.qos)
          (topic_packet fresh (publish_byte topic.qos) topic)
  made_packet topic message s hq hi hn packet e = elim (Bool-cases (topic.id == 0)) [
    | inl z ↦ elim (Bool-cases (topic.qos == 0)) [
      | inl y ↦ numbered_packet topic message s hq hi (hn, λ k. (==_iff topic.qos 0).0 y) packet e
      | inr n ↦ absurd (
          differ (
            sym (
              unnumbered_packet topic message s hq (λ k. clash _ ((==_iff topic.qos 0).1 k) n)
                ((==_iff topic.id 0).0 z))
            ∙ e))
    ]
    | inr n ↦
        numbered_packet topic message s hq hi
          (hn, λ k. absurd (clash _ ((==_iff topic.id 0).1 k) n)) packet e
  ]
    where
      differ : ◌≡◌ {A = Exec Packet} abort (done packet) → ⊥
      differ k = cc

  send_topic-Sent :
      (fd : ℕ) (c : Client) (topic : MqttTopic) (message : List ℕ) (b b' : Broker)
      → NoEvents b.postponed_events
      → IsSendable topic message
      → topic.qos < 4
      → topic.id < 2 ^ 16
      → (topic.qos ≡ 0 → topic.id ≡ 0)
      → send_topic fresh fd c topic b ≡ done b'
      → (packet : Packet) × Carries topic.name message topic.qos packet
        × (b' ≡ add_command fd packet b)
  send_topic-Sent fd c topic message b b' h s hq hi hn e =
      let (packet, p, q) =
        >>=-eq-done (topic_packet fresh (publish_byte topic.qos) topic)
          (λ packet. done (add_command fd packet b))
          (sym (send_topic_at_once fresh fd c topic b h) ∙ e) in
      (
        packet,
        made_packet topic message s hq hi hn packet p,
        sym (done_inj (add_command fd packet b) b' q),
      )

  pub number_and_send-Sent :
      (fd ref : ℕ) (c : Client) (topic : MqttTopic) (message : List ℕ) (b : Broker)
      → NoEvents b.postponed_events
      → IsSendable topic message
      → topic.qos < 4
      → c.packet_id_gen < 2 ^ 16
      → Leaves (Sent fd ref c topic message b) (number_and_send fresh fd ref c topic b)
  unfolding number_and_send number_topic add_command gen_packet_id
  number_and_send-Sent fd ref c topic message b h s hq hg r e = elim (Bool-cases (topic.qos == 0)) [
    | inl z ↦
        let t : MqttTopic = set_packet_id 0 topic in
        let (b2, p, q) =
          >>=-eq-done (send_topic fresh fd c t b) (λ b2. done (t, b2))
            (rw (number_and_send, number_topic, z) at e) in
        let (packet, k, m) =
          send_topic-Sent fd c t message b b2 h
            (record { value = s.value; name_fits = s.name_fits; message_fits = s.message_fits }) hq
            (omega arith) (λ y. refl) p in
        subst (Sent fd ref c topic message b) (ap (λ x. (t, x)) (sym m) ∙ done_inj (t, b2) r q)
          record {
            packet = packet;
            carries = k;
            command = refl;
            counted = inl refl;
            same_name = refl;
            same_value = refl;
          }
    | inr n ↦
        let (id, c') = gen_packet_id c in
        let t : MqttTopic = set_packet_id id topic in
        let b1 : Broker = record b { objects = set_object b.objects ref c' } in
        let (b2, p, q) =
          >>=-eq-done (send_topic fresh fd c' t b1) (λ b2. done (t, b2))
            (rw (number_and_send, number_topic, n) at e) in
        let (packet, k, m) =
          send_topic-Sent fd c' t message b1 b2 h
            (record { value = s.value; name_fits = s.name_fits; message_fits = s.message_fits }) hq
            hg (λ y. absurd (clash _ ((==_iff topic.qos 0).1 y) n)) p in
        subst (Sent fd ref c topic message b) (ap (λ x. (t, x)) (sym m) ∙ done_inj (t, b2) r q)
          record {
            packet = packet;
            carries = k;
            command = refl;
            counted = inr (c', refl, refl, refl);
            same_name = refl;
            same_value = refl;
          }
  ]
