-- ===== src/Broker/Delivery/Everyone.antt =====
-- `NotifyClients`, src/broker.cpp: who gets a message, and what.
use mqtt_broker.Common.{
  ℕ, ◌^◌, ◌<◌, ◌≡◌, ◌⊎◌, refl, sym, ap, ◌∙◌, bit_and, List, [], ◌∷◌, ◌++◌, append-nil, append_assoc,
  length, true, false, clash, Bool-cases, Option-cases, Option, inl, inr, none, some, Exec, Leaves,
  done, done_inj, >>=-eq-done, All, arith,
}
use mathlib.Core.Path.{subst}
use mqtt_broker.Packet.{Packet}
use mqtt_broker.Topic.{MqttTopic, set_qos}
use mqtt_broker.Topic.Filter.{check_wild_cards}
use mqtt_broker.Client.{Client, my_topic}
use mqtt_broker.Broker.{
  Broker, object, is_held, lock, number_and_send, notify_subscriber, notify_loop, notify_clients,
}
use mqtt_broker.Broker.Postponed.{NoEvents, notify_subscriber-Sends}
use mqtt_broker.Broker.Delivery.{Carries, IsSendable, Counted, number_and_send-Sent}
use mqtt_broker.Broker.Delivery.Wants.{
  subscriptions, held, Wants, Deliveries, nobody, passed_over, sent_to, IsTyped, mask_bound,
  found_options, set_object-subscriptions, object-IsTyped, set_object-IsTyped,
}

-- A state of the loop that began with the broker `b0` and the topic `t0`.
pub record IsUnderway (b0 : Broker) (t0 : MqttTopic) (t : MqttTopic) (b : Broker) : Type 0 where
  pub quiet : NoEvents b.postponed_events
  pub same_name : t.name ≡ t0.name
  pub same_value : t.value ≡ t0.value
  pub same_wishes :
      (r : ℕ)
      → subscriptions (held b.clients b.objects r) ≡ subscriptions (held b0.clients b0.objects r)
  pub typed : All IsTyped b.objects

pub held-object :
    (clients : List (ℕ × Option ℕ)) (objects : List Client) (ref : ℕ) (c : Client)
    → held clients objects ref ≡ some c
    → object objects ref ≡ some c
held-object clients objects ref c e = elim (Bool-cases (is_held clients ref)) [
  | inl t ↦ rw t at e
  | inr f ↦ absurd (none_some (rw f at e))
]
  where
    none_some : ◌≡◌ {A = Option Client} none (some c) → ⊥
    none_some k = cc

pub Counted-same :
    (clients : List (ℕ × Option ℕ)) (objects objects' : List Client) (ref : ℕ) (c : Client)
    → object objects ref ≡ some c
    → Counted ref c objects objects'
    → (r : ℕ) → subscriptions (held clients objects' r) ≡ subscriptions (held clients objects r)
Counted-same clients objects objects' ref c h (inl e) r =
    ap (λ x. subscriptions (held clients x r)) e
Counted-same clients objects objects' ref c h (inr (c', e, s, g)) r =
    ap (λ x. subscriptions (held clients x r)) e ∙ (elim (Bool-cases (is_held clients r)) [
      | inl t ↦ rw t (set_object-subscriptions objects ref c c' r h s)
      | inr f ↦ rw f refl
    ])

pub Counted-IsTyped :
    (objects objects' : List Client) (ref : ℕ) (c : Client)
    → object objects ref ≡ some c
    → Counted ref c objects objects'
    → All IsTyped objects
    → All IsTyped objects'
Counted-IsTyped objects objects' ref c h (inl e) t = subst (λ x. All IsTyped x) (sym e) t
Counted-IsTyped objects objects' ref c h (inr (c', e, s, g)) t =
    subst (λ x. All IsTyped x) (sym e) (set_object-IsTyped objects ref c' typed t)
  where
    typed : IsTyped c'
    typed = record {
      counter = omega (arith, g);
      options =
          subst (λ x. All (λ (s : List ℕ × ℕ). s.1 < 256) x) (sym s)
            (object-IsTyped objects ref c h t).options;
    }

module _ (fresh : ℕ → List ℕ) (fresh_size : (n : ℕ) → length (fresh n) ≡ n) (b0 : Broker)
    (t0 : MqttTopic) (message : List ℕ) (sendable : IsSendable t0 message) where
  -- What one round adds to the commands.
  abbrev pub Adds : ℕ → ℕ → Broker → Broker → Type 0
  Adds fd ref b b' =
      ((¬ ((options : ℕ) × Wants b0 ref t0.name options)) × (b'.commands ≡ b.commands))
      ⊎ ((options : ℕ) × (packet : Packet) × Wants b0 ref t0.name options
          × Carries t0.name message (bit_and options 0x03) packet
          × (b'.commands ≡ b.commands ++ ((fd, packet) ∷ [])))

  abbrev pub GoesOn : ℕ → ℕ → Broker → MqttTopic × Broker → Type 0
  GoesOn fd ref b r = IsUnderway b0 t0 r.0 r.1 × Adds fd ref b r.1

  -- A subscriber whose object is gone, or whose filters do not match.
  skipped :
      (fd ref : ℕ) (t : MqttTopic) (b : Broker) (r : MqttTopic × Broker)
      → IsUnderway b0 t0 t b
      → ¬ ((options : ℕ) × Wants b0 ref t0.name options)
      → ◌≡◌ {A = Exec (MqttTopic × Broker)} (done (t, b)) (done r)
      → GoesOn fd ref b r
  skipped fd ref t b r u n e = subst (GoesOn fd ref b) (done_inj (t, b) r e) (u, inl (n, refl))

  served :
      (fd ref : ℕ) (c : Client) (options : ℕ) (t : MqttTopic) (b : Broker) (r : MqttTopic × Broker)
      → IsUnderway b0 t0 t b
      → held b.clients b.objects ref ≡ some c
      → check_wild_cards t0.name c.subscribed_topics ≡ done (true, options)
      → notify_subscriber fresh fd ref t b ≡ done r
      → number_and_send fresh fd ref c (set_qos (bit_and options 0x03) t) b ≡ done r
      → GoesOn fd ref b r
  served fd ref c options t b r u l w n e =
      let o = held-object b.clients b.objects ref c l in
      let typed = object-IsTyped b.objects ref c o u.typed in
      let s =
        number_and_send-Sent fresh fresh_size fd ref c (set_qos (bit_and options 0x03) t) message b
          u.quiet
          (record {
            value = u.same_value ∙ sendable.value;
            name_fits = subst (λ x. length x < 2 ^ 16) (sym u.same_name) sendable.name_fits;
            message_fits = sendable.message_fits;
          })
          (mask_bound options (found_options t0.name c.subscribed_topics options typed.options w))
          typed.counter r e in
      let m = notify_subscriber-Sends fresh fd ref t r.0 b r.1 u.quiet n in
      (
        record {
          quiet = subst NoEvents (sym m.0) u.quiet;
          same_name = s.same_name ∙ u.same_name;
          same_value = s.same_value ∙ u.same_value;
          same_wishes = λ x.
              ap (λ y. subscriptions (held y r.1.objects x)) m.1
              ∙ Counted-same b.clients b.objects r.1.objects ref c o s.counted x
              ∙ u.same_wishes x;
          typed = Counted-IsTyped b.objects r.1.objects ref c o s.counted u.typed;
        },
        inr (
          options,
          s.packet,
          (c.subscribed_topics, sym (u.same_wishes ref) ∙ ap subscriptions l, w),
          subst (λ x. Carries x message (bit_and options 0x03) s.packet) u.same_name s.carries,
          s.command,
        ),
      )

  not_wanted :
      (ref : ℕ) (b : Broker) (t : MqttTopic)
      → IsUnderway b0 t0 t b
      → ((options : ℕ) (subs : List (List ℕ × ℕ))
          → subscriptions (held b.clients b.objects ref) ≡ some subs
          → check_wild_cards t0.name subs ≡ done (true, options)
          → ⊥)
      → ¬ ((options : ℕ) × Wants b0 ref t0.name options)
  not_wanted ref b t u n (options, (subs, s, w)) = n options subs (u.same_wishes ref ∙ s) w

  pub round_lem :
      (fd ref : ℕ) (t : MqttTopic) (b : Broker)
      → IsUnderway b0 t0 t b
      → Leaves (GoesOn fd ref b) (notify_subscriber fresh fd ref t b)
  unfolding notify_subscriber
  round_lem fd ref t b u r e = elim (Option-cases (lock b ref)) [
    | inl n ↦
        skipped fd ref t b r u
          (not_wanted ref b t u (λ options subs s w. gone subs (ap subscriptions (sym n) ∙ s)))
          (rw (notify_subscriber, n) at e)
    | inr (c, l) ↦
        let ((found, options), p, q) =
          >>=-eq-done (my_topic c t.name) _ (rw (notify_subscriber, l) at e) in
        let w : check_wild_cards t0.name c.subscribed_topics ≡ done (found, options) =
          subst (λ x. check_wild_cards x c.subscribed_topics ≡ done (found, options)) u.same_name
            p in
        elim (Bool-cases found) [
          | inl y ↦
              served fd ref c options t b r u l (w ∙ ap (λ x. done (x, options)) y) e (rw y at q)
          | inr n ↦
              skipped fd ref t b r u
                (not_wanted ref b t u (λ o subs s k.
                  other (some_inj (ap subscriptions (sym l) ∙ s))
                    (w ∙ ap (λ x. done (x, options)) n) k))
                (rw n at q)
        ]
  ]
    where
      gone : (subs : List (List ℕ × ℕ)) → ◌≡◌ {A = Option (List (List ℕ × ℕ))} none (some subs) → ⊥
      gone subs k = cc

      some_inj : {xs ys : List (List ℕ × ℕ)} → some xs ≡ some ys → xs ≡ ys
      some_inj k = cc

      other :
          {xs ys : List (List ℕ × ℕ)} {o p : ℕ}
          → xs ≡ ys
          → check_wild_cards t0.name xs ≡ done (false, o)
          → check_wild_cards t0.name ys ≡ done (true, p)
          → ⊥
      other {o = o} {p = p} k a d = clash true refl (
          ap (λ x. x.0)
            (done_inj (true, p) (false, o) (sym d ∙ ap (check_wild_cards t0.name) (sym k) ∙ a)))

  -- What the loop adds to the commands.
  abbrev Delivers : List (ℕ × ℕ) → Broker → MqttTopic × Broker → Type 0
  Delivers subscribers b r =
      (sent : List (ℕ × Packet)) × (r.1.commands ≡ b.commands ++ sent)
      × Deliveries b0 t0.name message subscribers sent

  notify_loop-Delivers :
      (subscribers : List (ℕ × ℕ)) (t : MqttTopic) (b : Broker)
      → IsUnderway b0 t0 t b
      → Leaves (Delivers subscribers b) (notify_loop fresh subscribers t b)
  unfolding notify_loop
  notify_loop-Delivers [] t b u r e =
      subst (Delivers [] b) (done_inj (t, b) r e) ([], sym (append-nil b.commands), nobody)
  notify_loop-Delivers ((fd, ref) ∷ subscribers) t b u r e =
      let ((t1, b1), p, q) = >>=-eq-done (notify_subscriber fresh fd ref t b) _ e in
      let (u1, a) = round_lem fd ref t b u (t1, b1) p in
      let (sent, c, d) = notify_loop-Delivers subscribers t1 b1 u1 r q in
      elim a [
        | inl (n, k) ↦ (sent, c ∙ ap (λ x. x ++ sent) k, passed_over fd ref subscribers sent n d)
        | inr (options, packet, w, h, k) ↦ (
          (fd, packet) ∷ sent,
          c ∙ ap (λ x. x ++ sent) k ∙ append_assoc b.commands ((fd, packet) ∷ []) sent,
          sent_to fd ref options packet subscribers sent w h d,
        )
      ]

-- `NotifyClients` reaches exactly the subscribers that want the topic: where it returns, it has appended
-- to the commands one packet for each subscribed client that is still connected and has a filter
-- that matches the topic, in the order of the table, and none for any other. Each packet is read back
-- as a PUBLISH of the topic and the message, with the quality of service of the filter and with a
-- packet identifier other than 0 unless that is 0. No event is postponed, the numbers of the clients
-- fit their types, and the name and the message of the topic fit their length fields.
pub notify_clients-Delivers :
    (fresh : ℕ → List ℕ)
    → ((n : ℕ) → length (fresh n) ≡ n)
    → (topic : MqttTopic) (message : List ℕ) (b : Broker) → IsSendable topic message
    → NoEvents b.postponed_events
    → All IsTyped b.objects
    → (topic' : MqttTopic) (b' : Broker) → notify_clients fresh topic b ≡ done (topic', b')
    → (sent : List (ℕ × Packet)) × (b'.commands ≡ b.commands ++ sent)
      × Deliveries b topic.name message b.subscribed_clients sent
unfolding notify_clients
notify_clients-Delivers fresh fresh_size topic message b s h t topic' b' e =
    notify_loop-Delivers fresh fresh_size b topic message s b.subscribed_clients topic b
      (record {
        quiet = h;
        same_name = refl;
        same_value = refl;
        same_wishes = λ r. refl;
        typed = t;
      })
      (topic', b') e
