-- ===== src/Broker/Delivery/Returns.antt =====
-- `NotifyClients`, src/broker.cpp, returns.
use mqtt_broker.Common.{
  ℕ, zero, suc, ◌+◌, ◌^◌, ◌<◌, ◌≡◌, ◌↔◌, refl, sym, ap, ◌∙◌, bit_and, List, [], ◌∷◌, ◌++◌, length,
  Bool, ◌==◌, ==_iff, clash, Bool-cases, Option-cases, inl, inr, some, done, ◌>>=◌, All, arith,
}
use mathlib.Core.Path.{subst}
use mqtt_broker.Packet.{Packet}
use mqtt_broker.Handlers.Publish.{create_message_packet-read}
use mqtt_broker.Topic.{MqttTopic, set_qos, set_packet_id}
use mqtt_broker.Topic.Filter.{check_wild_cards}
use mqtt_broker.Client.{Client, gen_packet_id}
use mqtt_broker.Broker.{
  Broker, object, set_object, lock, add_command, publish_byte, topic_packet, send_topic,
  number_topic, number_and_send, notify_subscriber, notify_loop, notify_clients,
}
use mqtt_broker.Broker.Postponed.{NoEvents, send_topic_at_once}
use mqtt_broker.Broker.Delivery.{
  IsSendable, Counted, no_properties, publish_byte-Fields, number_and_send-Sent,
}
use mqtt_broker.Broker.Delivery.Wants.{
  Deliveries, IsTyped, mask_bound, found_options, object-IsTyped,
}
use mqtt_broker.Broker.Delivery.Everyone.{
  IsUnderway, held-object, round_lem, notify_clients-Delivers,
}

-- A client that can be asked for the topic, whose counter neither is 0 nor becomes 0 in `n` messages.
pub record IsReady (n : ℕ) (name : List ℕ) (c : Client) : Type 0 where
  pub above : 0 < c.packet_id_gen
  pub below : c.packet_id_gen + n < 2 ^ 16
  pub answers : (r : Bool × ℕ) × (check_wild_cards name c.subscribed_topics ≡ done r)

object-IsReady :
    (n : ℕ) (name : List ℕ) (objects : List Client) (ref : ℕ) (c : Client)
    → object objects ref ≡ some c
    → All (IsReady n name) objects
    → IsReady n name c
object-IsReady n name [] ref c e h = cc
object-IsReady n name (d ∷ objects) zero c e (h, hs) = subst (IsReady n name) (some_inj e) h
  where
    some_inj : some d ≡ some c → d ≡ c
    some_inj e = cc
object-IsReady n name (d ∷ objects) (suc ref) c e (h, hs) = object-IsReady n name objects ref c e hs

less-IsReady :
    (n : ℕ) (name : List ℕ) (objects : List Client)
    → All (IsReady (suc n) name) objects
    → All (IsReady n name) objects
less-IsReady n name [] h = tt
less-IsReady n name (c ∷ objects) (h, hs) = (
  record { above = h.above; below = omega (arith, h.below); answers = h.answers },
  less-IsReady n name objects hs,
)

set_object-IsReady :
    (n : ℕ) (name : List ℕ) (objects : List Client) (ref : ℕ) (c : Client)
    → IsReady n name c
    → All (IsReady n name) objects
    → All (IsReady n name) (set_object objects ref c)
set_object-IsReady n name [] ref c t h = tt
set_object-IsReady n name (d ∷ objects) zero c t (h, hs) = (t, hs)
set_object-IsReady n name (d ∷ objects) (suc ref) c t (h, hs) =
    (h, set_object-IsReady n name objects ref c t hs)

Counted-IsReady :
    (n : ℕ) (name : List ℕ) (objects objects' : List Client) (ref : ℕ) (c : Client)
    → object objects ref ≡ some c
    → Counted ref c objects objects'
    → All (IsReady (suc n) name) objects
    → All (IsReady n name) objects'
Counted-IsReady n name objects objects' ref c h (inl e) t =
    subst (λ x. All (IsReady n name) x) (sym e) (less-IsReady n name objects t)
Counted-IsReady n name objects objects' ref c h (inr (c', e, s, g)) t =
    subst (λ x. All (IsReady n name) x) (sym e)
      (set_object-IsReady n name objects ref c' ready (less-IsReady n name objects t))
  where
    old : IsReady (suc n) name c
    old = object-IsReady (suc n) name objects ref c h t

    ready : IsReady n name c'
    ready = record {
      above = omega (arith, g, old.above, old.below);
      below = omega (arith, g, old.above, old.below);
      answers = (old.answers.0, ap (check_wild_cards name) s ∙ old.answers.1);
    }

module _ (fresh : ℕ → List ℕ) (fresh_size : (n : ℕ) → length (fresh n) ≡ n) where
  topic_packet-returns :
      (topic : MqttTopic) (message : List ℕ)
      → IsSendable topic message
      → topic.qos < 4
      → topic.id < 2 ^ 16
      → (topic.qos ≡ 0) ↔ (topic.id ≡ 0)
      → (packet : Packet) × (topic_packet fresh (publish_byte topic.qos) topic ≡ done packet)
  unfolding topic_packet
  topic_packet-returns topic message s hq hi hn =
      let q = (publish_byte-Fields topic.qos 0 hq).1 in
      let r =
        create_message_packet-read fresh fresh_size (publish_byte topic.qos)
          (record { topic_name = topic.name; packet_id = topic.id; p_chain = [] }) message
          s.name_fits hi no_properties tt tt s.message_fits
          ((λ z. hn.0 (sym q ∙ z)), (λ z. q ∙ hn.1 z)) in
      (r.0, rw (topic_packet, s.value) r.3)

  send_topic-returns :
      (fd : ℕ) (c : Client) (topic : MqttTopic) (message : List ℕ) (b : Broker)
      → NoEvents b.postponed_events
      → IsSendable topic message
      → topic.qos < 4
      → topic.id < 2 ^ 16
      → (topic.qos ≡ 0) ↔ (topic.id ≡ 0)
      → (b' : Broker) × (send_topic fresh fd c topic b ≡ done b')
  send_topic-returns fd c topic message b h s hq hi hn =
      let (packet, p) = topic_packet-returns topic message s hq hi hn in
      (
        add_command fd packet b,
        send_topic_at_once fresh fd c topic b h
            ∙ ap (λ x. x >>= λ packet. done (add_command fd packet b)) p,
      )

  number_and_send-returns :
      (fd ref : ℕ) (c : Client) (topic : MqttTopic) (message : List ℕ) (b : Broker)
      → NoEvents b.postponed_events
      → IsSendable topic message
      → topic.qos < 4
      → 0 < c.packet_id_gen
      → c.packet_id_gen < 2 ^ 16
      → (r : MqttTopic × Broker) × (number_and_send fresh fd ref c topic b ≡ done r)
  unfolding number_and_send number_topic gen_packet_id
  number_and_send-returns fd ref c topic message b h s hq h0 hg =
      elim (Bool-cases (topic.qos == 0)) [
        | inl z ↦
            let t : MqttTopic = set_packet_id 0 topic in
            let (b', p) =
              send_topic-returns fd c t message b h
                (record { value = s.value; name_fits = s.name_fits; message_fits = s.message_fits })
                hq (omega arith) (λ y. refl, λ y. (==_iff topic.qos 0).0 z) in
            ((t, b'), rw (number_and_send, number_topic, z) (ap (λ x. x >>= λ b2. done (t, b2)) p))
        | inr n ↦
            let (id, c') = gen_packet_id c in
            let t : MqttTopic = set_packet_id id topic in
            let b1 : Broker = record b { objects = set_object b.objects ref c' } in
            let (b', p) =
              send_topic-returns fd c' t message b1 h
                (record { value = s.value; name_fits = s.name_fits; message_fits = s.message_fits })
                hq hg
                (
                  λ y. absurd (clash _ ((==_iff topic.qos 0).1 y) n),
                  λ y. absurd (omega (arith, y, h0)),
                ) in
            ((t, b'), rw (number_and_send, number_topic, n) (ap (λ x. x >>= λ b2. done (t, b2)) p))
      ]

module _ (fresh : ℕ → List ℕ) (fresh_size : (n : ℕ) → length (fresh n) ≡ n) (b0 : Broker)
    (t0 : MqttTopic) (message : List ℕ) (sendable : IsSendable t0 message) where
  -- A round returns, and every client is ready for one message less.
  abbrev Ends : ℕ → ℕ → ℕ → MqttTopic → Broker → Type 0
  Ends n fd ref t b =
      (r : MqttTopic × Broker) × (notify_subscriber fresh fd ref t b ≡ done r)
      × All (IsReady n t0.name) r.1.objects

  served-Ends :
      (n fd ref : ℕ) (c : Client) (options : ℕ) (t : MqttTopic) (b : Broker)
      → IsUnderway b0 t0 t b
      → All (IsReady (suc n) t0.name) b.objects
      → object b.objects ref ≡ some c
      → bit_and options 0x03 < 4
      → notify_subscriber fresh fd ref t b
        ≡ number_and_send fresh fd ref c (set_qos (bit_and options 0x03) t) b
      → Ends n fd ref t b
  served-Ends n fd ref c options t b u h o q e =
      let ready = object-IsReady (suc n) t0.name b.objects ref c o h in
      let s : IsSendable (set_qos (bit_and options 0x03) t) message = record {
        value = u.same_value ∙ sendable.value;
        name_fits = subst (λ x. length x < 2 ^ 16) (sym u.same_name) sendable.name_fits;
        message_fits = sendable.message_fits;
      } in
      let g : c.packet_id_gen < 2 ^ 16 = omega (arith, ready.below) in
      let (r, p) =
        number_and_send-returns fresh fresh_size fd ref c (set_qos (bit_and options 0x03) t) message
          b u.quiet s q ready.above g in
      let sent =
        number_and_send-Sent fresh fresh_size fd ref c (set_qos (bit_and options 0x03) t) message b
          u.quiet s q g r p in
      (r, e ∙ p, Counted-IsReady n t0.name b.objects r.1.objects ref c o sent.counted h)

  round-Ends :
      (n fd ref : ℕ) (t : MqttTopic) (b : Broker)
      → IsUnderway b0 t0 t b
      → All (IsReady (suc n) t0.name) b.objects
      → Ends n fd ref t b
  unfolding notify_subscriber
  round-Ends n fd ref t b u h = elim (Option-cases (lock b ref)) [
    | inl k ↦ ((t, b), rw (notify_subscriber, k) refl, less-IsReady n t0.name b.objects h)
    | inr (c, l) ↦
        let o = held-object b.clients b.objects ref c l in
        let ((found, options), a) = (object-IsReady (suc n) t0.name b.objects ref c o h).answers in
        let m : check_wild_cards t.name c.subscribed_topics ≡ done (found, options) =
          ap (λ x. check_wild_cards x c.subscribed_topics) u.same_name ∙ a in
        elim (Bool-cases found) [
          | inl y ↦
              served-Ends n fd ref c options t b u h o
                (mask_bound options (
                  found_options t0.name c.subscribed_topics options
                    (object-IsTyped b.objects ref c o u.typed).options
                    (a ∙ ap (λ x. done (x, options)) y)))
                (rw (notify_subscriber, l, m, y) refl)
          | inr k ↦
              ((t, b), rw (notify_subscriber, l, m, k) refl, less-IsReady n t0.name b.objects h)
        ]
  ]

  notify_loop-returns :
      (subscribers : List (ℕ × ℕ)) (t : MqttTopic) (b : Broker)
      → IsUnderway b0 t0 t b
      → All (IsReady (length subscribers) t0.name) b.objects
      → (r : MqttTopic × Broker) × (notify_loop fresh subscribers t b ≡ done r)
  unfolding notify_loop
  notify_loop-returns [] t b u h = ((t, b), refl)
  notify_loop-returns ((fd, ref) ∷ subscribers) t b u h =
      let (r1, p, h1) = round-Ends (length subscribers) fd ref t b u h in
      let u1 = (round_lem fresh fresh_size b0 t0 message sendable fd ref t b u r1 p).0 in
      let (r, q) = notify_loop-returns subscribers r1.0 r1.1 u1 h1 in (r, rw (notify_loop, p) q)

-- `NotifyClients` returns, and every subscriber that wants the topic gets it: one packet is appended to
-- the commands for each subscribed client that is still connected and has a filter that matches the
-- topic, in the order of the table, and none for any other. Each packet is read back as a PUBLISH of
-- the topic and the message, with the quality of service of the filter. No event is postponed, the
-- name and the message fit their length fields, and for every client no filter is used up before the
-- topic, the options fit a byte, and the counter of packet identifiers neither is 0 nor comes to 0
-- while each subscriber is sent one message.
pub notify_clients-returns :
    (fresh : ℕ → List ℕ)
    → ((n : ℕ) → length (fresh n) ≡ n)
    → (topic : MqttTopic) (message : List ℕ) (b : Broker) → IsSendable topic message
    → NoEvents b.postponed_events
    → All IsTyped b.objects
    → All (IsReady (length b.subscribed_clients) topic.name) b.objects
    → (topic' : MqttTopic) × (b' : Broker) × (sent : List (ℕ × Packet)) × (notify_clients fresh
          topic b
        ≡ done (topic', b'))
      × (b'.commands ≡ b.commands ++ sent)
      × Deliveries b topic.name message b.subscribed_clients sent
unfolding notify_clients
notify_clients-returns fresh fresh_size topic message b s h t d =
    let ((topic', b'), p) =
      notify_loop-returns fresh fresh_size b topic message s b.subscribed_clients topic b
        (record {
          quiet = h;
          same_name = refl;
          same_value = refl;
          same_wishes = λ r. refl;
          typed = t;
        })
        d in
    let (sent, c, k) = notify_clients-Delivers fresh fresh_size topic message b s h t topic' b' p in
    (topic', b', sent, p, c, k)
