-- ===== src/PacketHandlers/Tables.antt =====
-- What the handling of a packet leaves of the postponed events and of the table of clients.
use mqtt_broker.Common.{
  ℕ, ◌≡◌, refl, sym, List, [], ◌∷◌, ◌==◌, none, Option-cases, inl, inr, Exec, All, Leaves,
  Leaves-done, Leaves-bind, Leaves-if, Leaves-fault,
}
use mathlib.Core.Path.{subst}
use mqtt_broker.VarInt.{MqttErr}
use mqtt_broker.FixedHeader.{FixedHeader, get_type}
use mqtt_broker.FixedHeader.Types.{code}
use mqtt_broker.Client.{Client}
use mqtt_broker.Broker.{Broker, object, set_object}
use mqtt_broker.Broker.Tables.{close_connection, del_client}
use mqtt_broker.Broker.Postponed.{NoEvents}
use mqtt_broker.Connect.{Connected}
use mqtt_broker.Connect.Identifiers.{Identified, handle_connect-Identified}
use mqtt_broker.PacketHandlers.{
  ref_of, handle_publish_packet, handle_subscribe_packet, handle_puback_packet,
  handle_disconnect_packet, handle_ping_packet, handle_unsubscribe_packet, handle_pubrel_packet,
  handle_pubrec_packet, handle_pubcomp_packet,
}
use mqtt_broker.PacketHandlers.Agreement.{
  Agrees, ref_of-erase_fd, ref_of-enter_fd, close_connection-Agrees, enter_fd-Agreed,
}
use mqtt_broker.PacketHandlers.Accept.{answer_connect, handle_connect_packet, connack_of}
use mqtt_broker.PacketHandlers.Dispatch.{PacketHandler, dispatch, handlers, handle_packet}
use mqtt_broker.PacketHandlers.Postponed.{
  IsQuiet, IsQuietAfter, answer-IsQuiet, handle_publish_packet-IsQuiet,
  handle_subscribe_packet-IsQuiet, handle_puback_packet-IsQuiet, handle_disconnect_packet-IsQuiet,
  handle_ping_packet-IsQuiet, handle_unsubscribe_packet-IsQuiet, handle_pubrel_packet-IsQuiet,
  handle_pubrec_packet-IsQuiet, handle_pubcomp_packet-IsQuiet,
}

-- No event is postponed, a socket that had no client has none, and the two tables agree if they did.
pub record Follows (b b' : Broker) : Type 0 where
  pub no_events : NoEvents b'.postponed_events
  pub no_clients : (fd : ℕ) → ref_of fd b.clients ≡ none → ref_of fd b'.clients ≡ none
  pub agrees : Agrees b → Agrees b'

abbrev pub FollowsAfter : Broker → MqttErr × Broker → Type 0
FollowsAfter b r = Follows b r.1

pub IsQuiet-Follows : (b b' : Broker) → IsQuiet b b' → Follows b b'
IsQuiet-Follows b b' (h, e, k) = record {
  no_events = h;
  no_clients = λ fd n. rw e n;
  agrees = λ a. rw e (k a);
}

close_connection-Follows :
    (fd : ℕ) (b : Broker) → NoEvents b.postponed_events → Follows b (close_connection fd b)
unfolding close_connection del_client
close_connection-Follows fd b h = record {
  no_events = h;
  no_clients = λ f n. ref_of-erase_fd f fd b.clients n;
  agrees = λ a. close_connection-Agrees fd b a;
}

Identified-Follows :
    (random_id : List ℕ) (b : Broker) (r : Connected)
    → NoEvents b.postponed_events
    → Identified random_id b r
    → Follows b r.broker
Identified-Follows random_id b r h (Identified.refused n e) =
    subst (λ x. Follows b x) (sym e) (IsQuiet-Follows b b (h, refl, λ a. a))
Identified-Follows random_id b r h (Identified.random n e) =
    subst (λ x. Follows b x) (sym e) (IsQuiet-Follows b b (h, refl, λ a. a))
Identified-Follows random_id b r h (Identified.free n e) =
    subst (λ x. Follows b x) (sym e) (IsQuiet-Follows b b (h, refl, λ a. a))
Identified-Follows random_id b r h (Identified.taken fd n f e) =
    subst (λ x. Follows b x) (sym e) (close_connection-Follows fd b h)

module _ (fresh : ℕ → List ℕ) (random_id : List ℕ) where
  answer_connect-Follows :
      (err : MqttErr) (c : Client) (fd : ℕ) (a b : Broker)
      → Follows a b
      → Leaves (FollowsAfter a) (answer_connect fresh err c fd b)
  unfolding answer_connect
  answer_connect-Follows MqttErr.ok c fd a b h =
      Leaves-bind (IsQuiet b) (FollowsAfter a) _ _
        (answer-IsQuiet b fresh fd _ (connack_of c) b (h.no_events, refl, λ x. x))
        (λ b' q.
          Leaves-done (FollowsAfter a) (MqttErr.ok, b')
            (record {
              no_events = q.0;
              no_clients = λ f n. rw q.1 (h.no_clients f n);
              agrees = λ x. rw q.1 (q.2 (h.agrees x));
            }))
  answer_connect-Follows err c fd a b h = Leaves-done (FollowsAfter a) (err, b) h

  handle_connect_packet-Follows :
      (fh : FixedHeader) (buf : List ℕ) (fd : ℕ) (b : Broker)
      → NoEvents b.postponed_events
      → Leaves (FollowsAfter b) (handle_connect_packet fresh random_id fh buf fd b)
  unfolding handle_connect_packet
  handle_connect_packet-Follows fh buf fd b h = elim (Option-cases (ref_of fd b.clients)) [
    | inl n ↦
        rw (handle_connect_packet, n)
          (Leaves-done (FollowsAfter b) _ (record {
            no_events = h;
            no_clients = λ f e. ref_of-enter_fd f fd b.clients e;
            agrees = λ a. enter_fd-Agreed fd b.clients b.subscribed_clients a;
          }))
    | inr (ref, s) ↦ elim (Option-cases (object b.objects ref)) [
      | inl n ↦ rw (handle_connect_packet, s, n) (Leaves-fault (FollowsAfter b))
      | inr (c, o) ↦
          rw (handle_connect_packet, s, o)
            (Leaves-bind (λ r. Identified random_id b r) (FollowsAfter b) _ _
              (handle_connect-Identified random_id buf c b)
              (λ r i.
                answer_connect-Follows r.status r.client fd b _
                  (written r ref (Identified-Follows random_id b r h i))))
    ]
  ]
    where
      written :
          (r : Connected) (ref : ℕ)
          → Follows b r.broker
          → Follows b (record r.broker { objects = set_object r.broker.objects ref r.client })
      written r ref f = record {
        no_events = f.no_events;
        no_clients = f.no_clients;
        agrees = f.agrees;
      }

  abbrev Handle : Type 0
  Handle = FixedHeader → List ℕ → ℕ → Broker → Exec (MqttErr × Broker)

  -- A handler that postpones nothing.
  abbrev IsFollowed : Handle → Type 0
  IsFollowed handle =
      (fh : FixedHeader) (buf : List ℕ) (fd : ℕ) (b : Broker)
      → NoEvents b.postponed_events
      → Leaves (FollowsAfter b) (handle fh buf fd b)

  quiet-IsFollowed :
      (handle : Handle)
      → ((b0 : Broker) (fh : FixedHeader) (buf : List ℕ) (fd : ℕ) (b : Broker)
          → IsQuiet b0 b
          → Leaves (IsQuietAfter b0) (handle fh buf fd b))
      → IsFollowed handle
  quiet-IsFollowed handle q fh buf fd b h r e =
      IsQuiet-Follows b r.1 (q b fh buf fd b (h, refl, λ a. a) r e)

  abbrev IsFollowedHandler : PacketHandler → Type 0
  IsFollowedHandler k = IsFollowed k.handle

  dispatch-Follows :
      (ks : List PacketHandler) (fh : FixedHeader) (buf : List ℕ) (fd : ℕ) (b : Broker)
      → All IsFollowedHandler ks
      → NoEvents b.postponed_events
      → Leaves (FollowsAfter b) (dispatch ks fh buf fd b)
  unfolding dispatch
  dispatch-Follows [] fh buf fd b q h =
      Leaves-done (FollowsAfter b) (MqttErr.handle_error, b) (IsQuiet-Follows b b (h, refl, λ a. a))
  dispatch-Follows (k ∷ ks) fh buf fd b (q, qs) h =
      Leaves-if (FollowsAfter b) (get_type fh == code k.type) _ _ (q fh buf fd b h)
        (dispatch-Follows ks fh buf fd b qs h)

  pub handle_packet-Follows :
      (fh : FixedHeader) (buf : List ℕ) (fd : ℕ) (b : Broker)
      → NoEvents b.postponed_events
      → Leaves (FollowsAfter b) (handle_packet fresh random_id fh buf fd b)
  unfolding handle_packet
  handle_packet-Follows fh buf fd b h =
      dispatch-Follows (handlers fresh random_id) fh buf fd b
        (
          quiet-IsFollowed (handle_publish_packet fresh)
              (λ b0. handle_publish_packet-IsQuiet b0 fresh),
          (
            quiet-IsFollowed (handle_puback_packet fresh)
                (λ b0. handle_puback_packet-IsQuiet b0 fresh),
            (
              quiet-IsFollowed (handle_pubrel_packet fresh)
                  (λ b0. handle_pubrel_packet-IsQuiet b0 fresh),
              (
                quiet-IsFollowed (handle_pubrec_packet fresh)
                    (λ b0. handle_pubrec_packet-IsQuiet b0 fresh),
                (
                  quiet-IsFollowed (handle_pubcomp_packet fresh)
                      (λ b0. handle_pubcomp_packet-IsQuiet b0 fresh),
                  (
                    quiet-IsFollowed (handle_ping_packet fresh)
                        (λ b0. handle_ping_packet-IsQuiet b0 fresh),
                    (
                      quiet-IsFollowed (handle_subscribe_packet fresh)
                          (λ b0. handle_subscribe_packet-IsQuiet b0 fresh),
                      (
                        quiet-IsFollowed (handle_disconnect_packet fresh)
                            (λ b0. handle_disconnect_packet-IsQuiet b0 fresh),
                        (
                          quiet-IsFollowed (handle_unsubscribe_packet fresh)
                              (λ b0. handle_unsubscribe_packet-IsQuiet b0 fresh),
                          (handle_connect_packet-Follows, tt),
                        ),
                      ),
                    ),
                  ),
                ),
              ),
            ),
          ),
        )
        h
