-- ===== src/Broker/Postponed.antt =====
-- The postponed events of src/broker.cpp in `NotifyClients` and `NotifyClient`.
use mqtt_broker.Common.{
  ℕ, ◌≡◌, ◌⊎◌, refl, sym, ap, ◌∙◌, List, [], ◌∷◌, ◌++◌, append_assoc, append-nil, Bool, true, false,
  ltb, ◌==◌, if◌then◌else◌, Bool-cases, Option-cases, inl, inr, text_eq, bit_and, none, some, Exec,
  done, fault, done_inj, ◌>>=◌, >>=-eq-done,
}
use mathlib.Core.Path.{subst}
use mqtt_broker.Packet.{Packet}
use mqtt_broker.Topic.{MqttTopic, set_qos}
use mqtt_broker.Client.{Client, my_topic}
use mqtt_broker.Broker.{
  Broker, MqttPacket, lock, object, add_command, events_of, check_if_more_messages, del_events,
  remove_events, del_qos_event, publish_byte, topic_packet, send_topic, number_topic,
  number_and_send, notify_subscriber, notify_loop, notify_clients, notify_client,
}

-- No client has a postponed event.
abbrev pub NoEvents : List (List ℕ × List MqttPacket) → Type 0
NoEvents [] = Unit {0}
NoEvents ((id, events) ∷ rest) = (events ≡ []) × NoEvents rest

pub events_of-none :
    (client_id : List ℕ) (postponed : List (List ℕ × List MqttPacket))
    → NoEvents postponed
    → (events_of client_id postponed ≡ none) ⊎ (events_of client_id postponed ≡ some [])
unfolding events_of
events_of-none client_id [] h = inl refl
events_of-none client_id ((id, events) ∷ rest) (h, hs) = elim (Bool-cases (text_eq id client_id)) [
  | inl e ↦ rw e (inr (ap some h))
  | inr e ↦ rw e (events_of-none client_id rest hs)
]

pub no_more_messages :
    (client_id : List ℕ) (b : Broker)
    → NoEvents b.postponed_events
    → check_if_more_messages client_id b ≡ false
unfolding check_if_more_messages
no_more_messages client_id b h = elim (events_of-none client_id b.postponed_events h) [
  | inl e ↦ rw (check_if_more_messages, e) refl
  | inr e ↦ rw (check_if_more_messages, e) refl
]

del_events_quiet :
    (client_id : List ℕ) (packet_id : ℕ) (postponed : List (List ℕ × List MqttPacket))
    → NoEvents postponed
    → NoEvents (del_events client_id packet_id postponed)
unfolding del_events remove_events
del_events_quiet client_id packet_id [] h = tt
del_events_quiet client_id packet_id ((id, events) ∷ rest) (h, hs) =
    elim (Bool-cases (text_eq id client_id)) [
      | inl e ↦ rw e (ap (remove_events packet_id) h, hs)
      | inr e ↦ rw e (h, del_events_quiet client_id packet_id rest hs)
    ]

pub del_qos_event-NoEvents :
    (client_id : List ℕ) (packet_id : ℕ) (b : Broker)
    → NoEvents b.postponed_events
    → NoEvents (del_qos_event client_id packet_id b).postponed_events
unfolding del_qos_event
del_qos_event-NoEvents client_id packet_id b h =
    del_events_quiet client_id packet_id b.postponed_events h

module _ (fresh : ℕ → List ℕ) where
  -- While no event is postponed a topic is sent at once, and without the DUP flag.
  pub send_topic_at_once :
      (fd : ℕ) (c : Client) (topic : MqttTopic) (b : Broker)
      → NoEvents b.postponed_events
      → send_topic fresh fd c topic b ≡ (
          topic_packet fresh (publish_byte topic.qos) topic >>= λ packet.
          done (add_command fd packet b))
  unfolding send_topic
  send_topic_at_once fd c topic b h =
      rw (no_more_messages c.client_id b h) (either (ltb 0 topic.qos) _)
    where
      either : (a : Bool) (x : Exec Broker) → (if a then x else x) ≡ x
      either true x = refl
      either false x = refl

  -- What sending leaves as it was, and what it adds.
  abbrev pub Sends : Broker → Broker → Type 0
  Sends b b' =
      (b'.postponed_events ≡ b.postponed_events)
      × (b'.clients ≡ b.clients)
      × (b'.subscribed_clients ≡ b.subscribed_clients)
      × ((sent : List (ℕ × Packet)) × (b'.commands ≡ b.commands ++ sent))

  number_topic-Sends :
      (ref : ℕ) (c : Client) (topic : MqttTopic) (b : Broker)
      → let (t, c', b') = number_topic fresh ref c topic b in
        (b'.postponed_events ≡ b.postponed_events)
        × (b'.clients ≡ b.clients)
        × (b'.subscribed_clients ≡ b.subscribed_clients)
        × (b'.commands ≡ b.commands)
  unfolding number_topic
  number_topic-Sends ref c topic b = elim (Bool-cases (topic.qos == 0)) [
    | inl e ↦ rw e (refl, refl, refl, refl)
    | inr e ↦ rw e (refl, refl, refl, refl)
  ]

  send_topic-Sends :
      (fd : ℕ) (c : Client) (topic : MqttTopic) (b b' : Broker)
      → NoEvents b.postponed_events
      → send_topic fresh fd c topic b ≡ done b'
      → Sends b b'
  unfolding add_command
  send_topic-Sends fd c topic b b' h e =
      let (packet, p, q) =
        >>=-eq-done (topic_packet fresh (publish_byte topic.qos) topic)
          (λ packet. done (add_command fd packet b))
          (sym (send_topic_at_once fd c topic b h) ∙ e) in
      subst (λ x. Sends b x) (done_inj (add_command fd packet b) b' q)
        (refl, refl, refl, ((fd, packet) ∷ [], refl))

  Sends-refl : (b : Broker) → Sends b b
  Sends-refl b = (refl, refl, refl, ([], sym (append-nil b.commands)))

  Sends-trans : (a b c : Broker) → Sends a b → Sends b c → Sends a c
  Sends-trans a b c (p1, q1, r1, (s1, e1)) (p2, q2, r2, (s2, e2)) = (
    p2 ∙ p1,
    q2 ∙ q1,
    r2 ∙ r1,
    (s1 ++ s2, e2 ∙ ap (λ xs. xs ++ s2) e1 ∙ append_assoc a.commands s1 s2),
  )

  -- A topic that gets its number and is sent.
  numbered-Sends :
      (fd ref : ℕ) (c : Client) (topic t' : MqttTopic) (b b' : Broker)
      → NoEvents b.postponed_events
      → number_and_send fresh fd ref c topic b ≡ done (t', b')
      → Sends b b'
  unfolding number_and_send
  numbered-Sends fd ref c topic t' b b' h e =
      let (t, c', b1) = number_topic fresh ref c topic b in
      let (b2, p, q) = >>=-eq-done (send_topic fresh fd c' t b1) (λ b2. done (t, b2)) e in
      let n = number_topic-Sends ref c topic b in
      subst (λ x. Sends b x) (ap (λ x. x.1) (done_inj (t, b2) (t', b') q))
        (Sends-trans b b1 b2 (n.0, n.1, n.2, ([], n.3 ∙ sym (append-nil b.commands)))
          (send_topic-Sends fd c' t b1 b2 (subst NoEvents (sym n.0) h) p))

  pub notify_subscriber-Sends :
      (fd ref : ℕ) (topic t' : MqttTopic) (b b' : Broker)
      → NoEvents b.postponed_events
      → notify_subscriber fresh fd ref topic b ≡ done (t', b')
      → Sends b b'
  unfolding notify_subscriber
  notify_subscriber-Sends fd ref topic t' b b' h e = elim (Option-cases (lock b ref)) [
    | inl n ↦ same (rw (notify_subscriber, n) at e)
    | inr (c, s) ↦
        let ((found, options), p, q) =
          >>=-eq-done (my_topic c topic.name) _ (rw (notify_subscriber, s) at e) in
        elim (Bool-cases found) [
          | inl y ↦
              numbered-Sends fd ref c (set_qos (bit_and options 0x03) topic) t' b b' h (rw y at q)
          | inr n ↦ same (rw n at q)
        ]
  ]
    where
      same : ◌≡◌ {A = Exec (MqttTopic × Broker)} (done (topic, b)) (done (t', b')) → Sends b b'
      same k =
          subst (λ x. Sends b x) (ap (λ x. x.1) (done_inj (topic, b) (t', b') k)) (Sends-refl b)

  notify_loop-Sends :
      (subscribers : List (ℕ × ℕ)) (topic t' : MqttTopic) (b b' : Broker)
      → NoEvents b.postponed_events
      → notify_loop fresh subscribers topic b ≡ done (t', b')
      → Sends b b'
  unfolding notify_loop
  notify_loop-Sends [] topic t' b b' h e =
      subst (λ x. Sends b x) (ap (λ x. x.1) (done_inj (topic, b) (t', b') e)) (Sends-refl b)
  notify_loop-Sends ((fd, ref) ∷ subscribers) topic t' b b' h e =
      let ((t1, b1), p, q) = >>=-eq-done (notify_subscriber fresh fd ref topic b) _ e in
      let s = notify_subscriber-Sends fd ref topic t1 b b1 h p in
      Sends-trans b b1 b' s
        (notify_loop-Sends subscribers t1 t' b1 b' (subst NoEvents (sym s.0) h) q)

  -- While no event is postponed `NotifyClients` postpones none: it leaves the tables of clients and of
  -- postponed events as they are and appends its packets to the commands.
  pub notify_clients-Sends :
      (topic t' : MqttTopic) (b b' : Broker)
      → NoEvents b.postponed_events
      → notify_clients fresh topic b ≡ done (t', b')
      → Sends b b'
  unfolding notify_clients
  notify_clients-Sends topic t' b b' h e = notify_loop-Sends b.subscribed_clients topic t' b b' h e

  -- So does `NotifyClient`.
  pub notify_client-Sends :
      (fd ref : ℕ) (topic t' : MqttTopic) (b b' : Broker)
      → NoEvents b.postponed_events
      → notify_client fresh fd ref topic b ≡ done (t', b')
      → Sends b b'
  unfolding notify_client
  notify_client-Sends fd ref topic t' b b' h e = elim (Option-cases (object b.objects ref)) [
    | inl n ↦ absurd (no_object (rw (notify_client, n) at e))
    | inr (c, s) ↦ numbered-Sends fd ref c topic t' b b' h (rw (notify_client, s) at e)
  ]
    where
      no_object : ◌≡◌ {A = Exec (MqttTopic × Broker)} fault (done (t', b')) → ⊥
      no_object k = cc
