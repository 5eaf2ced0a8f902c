-- ===== src/PacketHandlers/Steps.antt =====
-- The broker as a state machine. Its steps are what the threads of src/broker.cpp and src/main.cpp do
-- to its tables: the handling of a packet, new and lost connections, and messages to clients.
use mqtt_broker.Common.{ℕ, ◌≡◌, refl, sym, List, false, Bool-cases, inl, inr, done}
use mathlib.Core.Path.{subst}
use mqtt_broker.VarInt.{MqttErr}
use mqtt_broker.FixedHeader.{FixedHeader}
use mqtt_broker.Packet.{Packet}
use mqtt_broker.Topic.{MqttTopic}
use mqtt_broker.Client.{Client}
use mqtt_broker.Broker.{Broker, add_command, check_if_more_messages, notify_clients}
use mqtt_broker.Broker.Tables.{add_client, close_connection, del_client, has_fd}
use mqtt_broker.Broker.Postponed.{NoEvents, no_more_messages}
use mqtt_broker.PacketHandlers.Dispatch.{handle_packet}
use mqtt_broker.PacketHandlers.Agreement.{Agrees, close_connection-Agrees, add_client-Agrees}
use mqtt_broker.PacketHandlers.Postponed.{notify_clients-IsQuiet}
use mqtt_broker.PacketHandlers.Tables.{handle_packet-Follows}

-- `random_id` is what `GenRandom` returns in the step.
pub data Step (fresh : ℕ → List ℕ) : Broker → Broker → Type 0 where
  handled :
      (random_id : List ℕ) (fh : FixedHeader) (buf : List ℕ) (fd : ℕ) (b b' : Broker)
      (err : MqttErr)
      → handle_packet fresh random_id fh buf fd b ≡ done (err, b')
      → Step fresh b b'
  added :
      (sock cur_time : ℕ) (ip : List ℕ) (b : Broker)
      → Step fresh b (add_client sock ip cur_time b).1
  closed : (fd : ℕ) (b : Broker) → Step fresh b (close_connection fd b)
  notified :
      (topic topic' : MqttTopic) (b b' : Broker)
      → notify_clients fresh topic b ≡ done (topic', b')
      → Step fresh b b'
  ordered : (fd : ℕ) (packet : Packet) (b : Broker) → Step fresh b (add_command fd packet b)
  changed : (objects : List Client) (b : Broker) → Step fresh b (record b { objects = objects })

-- Any number of steps.
pub data Reached (fresh : ℕ → List ℕ) : Broker → Broker → Type 0 where
  here : (b : Broker) → Reached fresh b b
  step : (a b c : Broker) → Reached fresh a b → Step fresh b c → Reached fresh a c

close_connection_events :
    (fd : ℕ) (b : Broker) → (close_connection fd b).postponed_events ≡ b.postponed_events
unfolding close_connection del_client
close_connection_events fd b = refl

pub add_client_events :
    (sock cur_time : ℕ) (ip : List ℕ) (b : Broker)
    → (add_client sock ip cur_time b).1.postponed_events ≡ b.postponed_events
unfolding add_client
add_client_events sock cur_time ip b = elim (Bool-cases (has_fd sock b.clients)) [
  | inl t ↦ rw t refl
  | inr f ↦ rw f refl
]

Step-NoEvents :
    (fresh : ℕ → List ℕ) (b b' : Broker)
    → NoEvents b.postponed_events
    → Step fresh b b'
    → NoEvents b'.postponed_events
unfolding add_command
Step-NoEvents fresh _ _ h (handled random_id fh buf fd b b' err e) =
    (handle_packet-Follows fresh random_id fh buf fd b h (err, b') e).no_events
Step-NoEvents fresh _ _ h (added sock cur_time ip b) =
    subst NoEvents (sym (add_client_events sock cur_time ip b)) h
Step-NoEvents fresh _ _ h (closed fd b) = subst NoEvents (sym (close_connection_events fd b)) h
Step-NoEvents fresh _ _ h (notified topic topic' b b' e) =
    (notify_clients-IsQuiet b fresh topic b (h, refl, λ a. a) (topic', b') e).0
Step-NoEvents fresh _ _ h (ordered fd packet b) = h
Step-NoEvents fresh _ _ h (changed objects b) = h

pub Reached-NoEvents :
    (fresh : ℕ → List ℕ) (a b : Broker)
    → NoEvents a.postponed_events
    → Reached fresh a b
    → NoEvents b.postponed_events
Reached-NoEvents fresh _ _ h (here b) = h
Reached-NoEvents fresh _ _ h (step a b c r s) =
    Step-NoEvents fresh b c (Reached-NoEvents fresh a b h r) s

-- From a broker without postponed events, as it is at its start, no sequence of packets of any type
-- from any clients, of new and of closed connections, and of messages to clients ever postpones an
-- event: no client has more messages, and no message is kept to be sent again.
pub Reached-check_if_more_messages :
    (fresh : ℕ → List ℕ) (a b : Broker) (client_id : List ℕ)
    → NoEvents a.postponed_events
    → Reached fresh a b
    → check_if_more_messages client_id b ≡ false
Reached-check_if_more_messages fresh a b client_id h r =
    no_more_messages client_id b (Reached-NoEvents fresh a b h r)

Step-Agrees :
    (fresh : ℕ → List ℕ) (b b' : Broker)
    → NoEvents b.postponed_events
    → Step fresh b b'
    → Agrees b
    → Agrees b'
unfolding add_command
Step-Agrees fresh _ _ h (handled random_id fh buf fd b b' err e) =
    (handle_packet-Follows fresh random_id fh buf fd b h (err, b') e).agrees
Step-Agrees fresh _ _ h (added sock cur_time ip b) = add_client-Agrees sock cur_time ip b
Step-Agrees fresh _ _ h (closed fd b) = close_connection-Agrees fd b
Step-Agrees fresh _ _ h (notified topic topic' b b' e) =
    let q = notify_clients-IsQuiet b fresh topic b (h, refl, λ a. a) (topic', b') e in
    λ a. rw q.1 (q.2 a)
Step-Agrees fresh _ _ h (ordered fd packet b) = λ a. a
Step-Agrees fresh _ _ h (changed objects b) = λ a. a

-- From a broker without postponed events whose two tables agree, as they do at its start, every
-- sequence of steps leads to a broker whose tables agree: each socket in the table of subscribers
-- is a connected client's, and is there with that very client. No subscriber is left behind when a
-- connection is closed or when another client takes over its identifier.
pub Reached-Agrees :
    (fresh : ℕ → List ℕ) (a b : Broker)
    → NoEvents a.postponed_events
    → Reached fresh a b
    → Agrees a
    → Agrees b
Reached-Agrees fresh _ _ h (here b) = λ k. k
Reached-Agrees fresh _ _ h (step a b c r s) =
    λ k. Step-Agrees fresh b c (Reached-NoEvents fresh a b h r) s (Reached-Agrees fresh a b h r k)
