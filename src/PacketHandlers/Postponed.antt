-- ===== src/PacketHandlers/Postponed.antt =====
-- The postponed events in the handlers of src/mqtt_packet_handler.cpp.
use mqtt_broker.Common.{
  ℕ, ◌≡◌, refl, sym, ◌∙◌, List, [], ◌∷◌, Bool, true, false, not, ◌==◌, if◌then◌else◌, Option-cases,
  some, inl, inr, Exec, done, Leaves, Leaves-done, Leaves-bind, Leaves-then, Leaves-if,
  Leaves-fault,
}
use mathlib.Core.Path.{subst}
use mqtt_broker.VarInt.{MqttErr}
use mqtt_broker.FixedHeader.{FixedHeader, qos, is_retain}
use mqtt_broker.VariableHeader.{VariableHeader}
use mqtt_broker.Packet.{create_mqtt_packet, create_empty_packet}
use mqtt_broker.Handlers.{handle_publish, handle_subscribe, handle_puback, handle_unsubscribe}
use mqtt_broker.Topic.{MqttTopic, set_qos}
use mqtt_broker.Topic.Storage.{get_matched_topics, get_qos_topic}
use mqtt_broker.Client.{Client}
use mqtt_broker.Broker.{Broker, del_qos_event, object, add_command, notify_clients, notify_client}
use mqtt_broker.Broker.Postponed.{
  NoEvents, no_more_messages, del_qos_event-NoEvents, notify_clients-Sends, notify_client-Sends,
}
use mqtt_broker.PacketHandlers.Agreement.{Agreed, Agrees, add_subscribed_client-Agreed}
use mqtt_broker.PacketHandlers.{
  ref_of, with_client, send_kept, answer, acknowledge, pass_on, handle_publish_packet,
  send_retained, retained_loop, handle_subscribe_packet, handle_puback_packet,
  handle_disconnect_packet, handle_ping_packet, handle_unsubscribe_packet, release,
  handle_pubrel_packet, handle_pubrec_packet, handle_pubcomp_packet,
}

-- The client of a socket is that of its entry.
with_client_ref :
    {A : Type 0} (P : A → Type 0) (fd : ℕ) (b : Broker) (k : ℕ → Client → Exec A)
    → ((ref : ℕ) (c : Client) → ref_of fd b.clients ≡ some ref → Leaves P (k ref c))
    → Leaves P (with_client fd b k)
unfolding with_client
with_client_ref P fd b k h = elim (Option-cases (ref_of fd b.clients)) [
  | inl n ↦ rw (with_client, n) (Leaves-fault P)
  | inr (ref, r) ↦ elim (Option-cases (object b.objects ref)) [
    | inl n ↦ rw (with_client, r, n) (Leaves-fault P)
    | inr (c, s) ↦ rw (with_client, r, s) (h ref c r)
  ]
]

pub with_client_lem :
    {A : Type 0} (P : A → Type 0) (fd : ℕ) (b : Broker) (k : ℕ → Client → Exec A)
    → ((ref : ℕ) (c : Client) → Leaves P (k ref c))
    → Leaves P (with_client fd b k)
with_client_lem P fd b k h = with_client_ref P fd b k (λ ref c e. h ref c)

module _ (b0 : Broker) where
  -- No event is postponed; the clients are those of another state, and the subscribers still agree with
  -- them.
  abbrev pub IsQuiet : Broker → Type 0
  IsQuiet b =
      NoEvents b.postponed_events
      × (b.clients ≡ b0.clients)
      × (Agrees b0 → Agreed b0.clients b.subscribed_clients)

  -- The status and the broker that a handler returns.
  abbrev pub IsQuietAfter : MqttErr × Broker → Type 0
  IsQuietAfter r = IsQuiet r.1

  abbrev IsQuietSecond : MqttTopic × Broker → Type 0
  IsQuietSecond r = IsQuiet r.1

  either-IsQuiet : (c : Bool) (x y : Broker) → IsQuiet x → IsQuiet y → IsQuiet (if c then x else y)
  either-IsQuiet true x y h k = h
  either-IsQuiet false x y h k = k

  send_kept_lem :
      (fd : ℕ) (client_id : List ℕ) (b : Broker) → IsQuiet b → send_kept fd client_id b ≡ done b
  unfolding send_kept
  send_kept_lem fd client_id b h = rw (no_more_messages client_id b h.0) refl

  send_kept-IsQuiet :
      (fd : ℕ) (client_id : List ℕ) (b : Broker)
      → IsQuiet b
      → Leaves IsQuiet (send_kept fd client_id b)
  send_kept-IsQuiet fd client_id b h = rw (send_kept_lem fd client_id b h) (Leaves-done IsQuiet b h)

  del_qos_event-IsQuiet :
      (client_id : List ℕ) (packet_id : ℕ) (b : Broker)
      → IsQuiet b
      → IsQuiet (del_qos_event client_id packet_id b)
  unfolding del_qos_event
  del_qos_event-IsQuiet client_id packet_id b (h, e, k) =
      (del_qos_event-NoEvents client_id packet_id b h, e, k)

  module _ (fresh : ℕ → List ℕ) where
    pub answer-IsQuiet :
        (fd first : ℕ) (vh : VariableHeader) (b : Broker)
        → IsQuiet b
        → Leaves IsQuiet (answer fresh fd first vh b)
    unfolding answer add_command
    answer-IsQuiet fd first vh b h =
        Leaves-then IsQuiet (create_mqtt_packet fresh first vh)
          (λ packet. done (add_command fd packet b))
          (λ packet. Leaves-done IsQuiet (add_command fd packet b) h)

    pub notify_clients-IsQuiet :
        (topic : MqttTopic) (b : Broker)
        → IsQuiet b
        → Leaves IsQuietSecond (notify_clients fresh topic b)
    notify_clients-IsQuiet topic b h (t', b') e =
        let s = notify_clients-Sends fresh topic t' b b' h.0 e in
        (
          subst NoEvents (sym s.0) h.0,
          s.1 ∙ h.1,
          λ a. subst (λ subs. Agreed b0.clients subs) (sym s.2) (h.2 a),
        )

    notify_client-IsQuiet :
        (fd ref : ℕ) (topic : MqttTopic) (b : Broker)
        → IsQuiet b
        → Leaves IsQuietSecond (notify_client fresh fd ref topic b)
    notify_client-IsQuiet fd ref topic b h (t', b') e =
        let s = notify_client-Sends fresh fd ref topic t' b b' h.0 e in
        (
          subst NoEvents (sym s.0) h.0,
          s.1 ∙ h.1,
          λ a. subst (λ subs. Agreed b0.clients subs) (sym s.2) (h.2 a),
        )

    acknowledge-IsQuiet :
        (fh : FixedHeader) (fd : ℕ) (c : Client) (packet_id : ℕ) (b : Broker)
        → IsQuiet b
        → Leaves IsQuiet (acknowledge fresh fh fd c packet_id b)
    unfolding acknowledge
    acknowledge-IsQuiet fh fd c packet_id b h =
        Leaves-if IsQuiet (qos fh == 1) _ _ (answer-IsQuiet fd _ _ b h) (
          Leaves-if IsQuiet (qos fh == 2) _ _
            (rw (no_more_messages c.client_id b h.0) (answer-IsQuiet fd _ _ b h))
            (Leaves-done IsQuiet b h))

    pass_on-IsQuiet :
        (fh : FixedHeader) (c : Client) (topic : MqttTopic) (b : Broker)
        → IsQuiet b
        → Leaves IsQuiet (pass_on fresh fh c topic b)
    unfolding pass_on
    pass_on-IsQuiet fh c topic b h =
        Leaves-if IsQuiet (not (qos fh == 2)) _ _
          (Leaves-bind IsQuietSecond IsQuiet (notify_clients fresh topic b) _
            (notify_clients-IsQuiet topic b h) (λ r hr. Leaves-done IsQuiet r.1 hr))
          (Leaves-done IsQuiet _ h)

    pub handle_publish_packet-IsQuiet :
        (fh : FixedHeader) (buf : List ℕ) (fd : ℕ) (b : Broker)
        → IsQuiet b
        → Leaves IsQuietAfter (handle_publish_packet fresh fh buf fd b)
    unfolding handle_publish_packet
    handle_publish_packet-IsQuiet fh buf fd b h = with_client_lem IsQuietAfter fd b _ λ ref c.
        Leaves-then IsQuietAfter (handle_publish fh buf) _ λ r.
          Leaves-bind IsQuiet IsQuietAfter _ _
            (acknowledge-IsQuiet fh fd c r.0.packet_id _ (either-IsQuiet (is_retain fh) _ b h h))
            (λ b2 h2.
              Leaves-bind IsQuiet IsQuietAfter _ _ (pass_on-IsQuiet fh c _ b2 h2)
                (λ b3 h3. Leaves-done IsQuietAfter (MqttErr.ok, b3) h3))

    send_retained-IsQuiet :
        (fd ref options : ℕ) (topics : List MqttTopic) (b : Broker)
        → IsQuiet b
        → Leaves IsQuiet (send_retained fresh fd ref options topics b)
    unfolding send_retained
    send_retained-IsQuiet fd ref options [] b h = Leaves-done IsQuiet b h
    send_retained-IsQuiet fd ref options (t ∷ topics) b h =
        Leaves-bind IsQuietSecond IsQuiet _ _ (notify_client-IsQuiet fd ref (set_qos options t) b h)
          (λ r hr. send_retained-IsQuiet fd ref options topics r.1 hr)

    retained_loop-IsQuiet :
        (fd ref : ℕ) (filters : List (List ℕ × ℕ)) (b : Broker)
        → IsQuiet b
        → Leaves IsQuiet (retained_loop fresh fd ref filters b)
    unfolding retained_loop
    retained_loop-IsQuiet fd ref [] b h = Leaves-done IsQuiet b h
    retained_loop-IsQuiet fd ref ((name, options) ∷ filters) b h =
        Leaves-then IsQuiet (get_matched_topics name b.topics) _ λ matched.
          Leaves-bind IsQuiet IsQuiet _ _ (send_retained-IsQuiet fd ref options matched b h)
            (λ b' h'. retained_loop-IsQuiet fd ref filters b' h')

    pub handle_subscribe_packet-IsQuiet :
        (fh : FixedHeader) (buf : List ℕ) (fd : ℕ) (b : Broker)
        → IsQuiet b
        → Leaves IsQuietAfter (handle_subscribe_packet fresh fh buf fd b)
    unfolding handle_subscribe_packet
    handle_subscribe_packet-IsQuiet fh buf fd b h = with_client_ref IsQuietAfter fd b _ λ ref c e.
        Leaves-then IsQuietAfter (handle_subscribe fh buf c.subscribed_topics) _ λ r.
          Leaves-bind IsQuiet IsQuietAfter _ _ (answer-IsQuiet fd _ _ _ h) λ b2 h2.
            Leaves-bind IsQuiet IsQuietAfter _ _ (retained_loop-IsQuiet fd ref r.1.topics b2 h2)
              (λ b3 h3. Leaves-done IsQuietAfter _ (
                h3.0,
                h3.1,
                λ a.
                    add_subscribed_client-Agreed b0.clients fd ref b3.subscribed_clients
                      (subst (λ x. ref_of fd x ≡ some ref) h.1 e) (h3.2 a),
              ))

    pub handle_puback_packet-IsQuiet :
        (fh : FixedHeader) (buf : List ℕ) (fd : ℕ) (b : Broker)
        → IsQuiet b
        → Leaves IsQuietAfter (handle_puback_packet fresh fh buf fd b)
    unfolding handle_puback_packet
    handle_puback_packet-IsQuiet fh buf fd b h = with_client_lem IsQuietAfter fd b _ λ ref c.
        Leaves-then IsQuietAfter (handle_puback _ buf) _ λ vh.
          Leaves-bind IsQuiet IsQuietAfter _ _
            (send_kept-IsQuiet fd c.client_id _
              (del_qos_event-IsQuiet c.client_id vh.packet_id b h))
            (λ b1 h1. Leaves-done IsQuietAfter (MqttErr.ok, b1) h1)

    pub handle_disconnect_packet-IsQuiet :
        (fh : FixedHeader) (buf : List ℕ) (fd : ℕ) (b : Broker)
        → IsQuiet b
        → Leaves IsQuietAfter (handle_disconnect_packet fresh fh buf fd b)
    unfolding handle_disconnect_packet
    handle_disconnect_packet-IsQuiet fh buf fd b h =
        with_client_lem IsQuietAfter fd b _
          λ ref c. Leaves-done IsQuietAfter (MqttErr.disconnect, b) h

    pub handle_ping_packet-IsQuiet :
        (fh : FixedHeader) (buf : List ℕ) (fd : ℕ) (b : Broker)
        → IsQuiet b
        → Leaves IsQuietAfter (handle_ping_packet fresh fh buf fd b)
    unfolding handle_ping_packet add_command
    handle_ping_packet-IsQuiet fh buf fd b h = with_client_lem IsQuietAfter fd b _ λ ref c.
        Leaves-then IsQuietAfter (create_empty_packet fresh _) _
          λ packet. Leaves-done IsQuietAfter (MqttErr.ok, add_command fd packet b) h

    pub handle_unsubscribe_packet-IsQuiet :
        (fh : FixedHeader) (buf : List ℕ) (fd : ℕ) (b : Broker)
        → IsQuiet b
        → Leaves IsQuietAfter (handle_unsubscribe_packet fresh fh buf fd b)
    unfolding handle_unsubscribe_packet
    handle_unsubscribe_packet-IsQuiet fh buf fd b h = with_client_lem IsQuietAfter fd b _ λ ref c.
        Leaves-then IsQuietAfter (handle_unsubscribe fh buf) _ λ r.
          Leaves-bind IsQuiet IsQuietAfter _ _ (answer-IsQuiet fd _ _ _ h)
            (λ b1 h1. Leaves-done IsQuietAfter (MqttErr.ok, b1) h1)

    release-IsQuiet :
        (client_id : List ℕ) (packet_id : ℕ) (b : Broker)
        → IsQuiet b
        → Leaves IsQuiet (release fresh client_id packet_id b)
    unfolding release
    release-IsQuiet client_id packet_id b h =
        elim (Option-cases (get_qos_topic client_id packet_id b.qos_2_topics)) [
          | inl n ↦ rw (release, n) (Leaves-done IsQuiet b h)
          | inr (topic, s) ↦
              rw (release, s)
                (Leaves-bind IsQuietSecond IsQuiet _ _ (notify_clients-IsQuiet topic b h)
                  (λ r hr. Leaves-done IsQuiet _ hr))
        ]

    pub handle_pubrel_packet-IsQuiet :
        (fh : FixedHeader) (buf : List ℕ) (fd : ℕ) (b : Broker)
        → IsQuiet b
        → Leaves IsQuietAfter (handle_pubrel_packet fresh fh buf fd b)
    unfolding handle_pubrel_packet
    handle_pubrel_packet-IsQuiet fh buf fd b h = with_client_lem IsQuietAfter fd b _ λ ref c.
        Leaves-then IsQuietAfter (handle_puback _ buf) _ λ vh.
          Leaves-bind IsQuiet IsQuietAfter _ _ (answer-IsQuiet fd _ _ b h) λ b1 h1.
            Leaves-bind IsQuiet IsQuietAfter _ _
              (send_kept-IsQuiet fd c.client_id _
                (del_qos_event-IsQuiet c.client_id vh.packet_id b1 h1))
              λ b2 h2.
                Leaves-bind IsQuiet IsQuietAfter _ _
                  (release-IsQuiet c.client_id vh.packet_id b2 h2)
                  (λ b3 h3. Leaves-done IsQuietAfter (MqttErr.ok, b3) h3)

    pub handle_pubrec_packet-IsQuiet :
        (fh : FixedHeader) (buf : List ℕ) (fd : ℕ) (b : Broker)
        → IsQuiet b
        → Leaves IsQuietAfter (handle_pubrec_packet fresh fh buf fd b)
    unfolding handle_pubrec_packet
    handle_pubrec_packet-IsQuiet fh buf fd b h = with_client_lem IsQuietAfter fd b _ λ ref c.
        Leaves-then IsQuietAfter (handle_puback _ buf) _ λ vh.
          Leaves-bind IsQuiet IsQuietAfter _ _
            (answer-IsQuiet fd _ _ _ (del_qos_event-IsQuiet c.client_id vh.packet_id b h))
            (λ b1 h1. Leaves-done IsQuietAfter (MqttErr.ok, b1) h1)

    pub handle_pubcomp_packet-IsQuiet :
        (fh : FixedHeader) (buf : List ℕ) (fd : ℕ) (b : Broker)
        → IsQuiet b
        → Leaves IsQuietAfter (handle_pubcomp_packet fresh fh buf fd b)
    unfolding handle_pubcomp_packet
    handle_pubcomp_packet-IsQuiet fh buf fd b h = with_client_lem IsQuietAfter fd b _ λ ref c.
        Leaves-then IsQuietAfter (handle_puback _ buf) _ λ vh.
          Leaves-bind IsQuiet IsQuietAfter _ _ (send_kept-IsQuiet fd c.client_id b h)
            (λ b1 h1. Leaves-done IsQuietAfter (MqttErr.ok, b1) h1)
