-- ===== src/Server/Qos.antt =====
-- `Broker::QoSThread`, src/broker.cpp.
use mqtt_broker.Common.{
  ℕ, List, [], ◌∷◌, ltb, ◌==◌, if◌then◌else◌, Option, none, some, Exec, done, fault, ◌>>=◌,
}
use mqtt_broker.Client.{Client}
use mqtt_broker.Broker.{Broker, MqttPacket, object, add_command, events_of}
use mqtt_broker.Server.{is_empty}

-- `clients_id_map`, a `std::map`: the identifier of each client by file descriptor.
unfoldable pub insert_id : ℕ → List ℕ → List (ℕ × List ℕ) → List (ℕ × List ℕ)
insert_id fd id [] = (fd, id) ∷ []
insert_id fd id ((f, i) ∷ ids) =
    if ltb fd f
    then (fd, id) ∷ (f, i) ∷ ids
    else if fd == f
    then (f, i) ∷ ids
    else (f, i) ∷ insert_id fd id ids

unfoldable pub collect_ids :
    List Client → List (ℕ × Option ℕ) → List (ℕ × List ℕ) → Exec (List (ℕ × List ℕ))
collect_ids objects [] ids = done ids
collect_ids objects ((fd, none) ∷ clients) ids = fault
collect_ids objects ((fd, some ref) ∷ clients) ids = elim (object objects ref) [
  | none ↦ fault
  | some c ↦ collect_ids objects clients (insert_id fd c.client_id ids)
]

-- The first event of a client, if there is one.
unfoldable pub resend : ℕ → Option (List MqttPacket) → Broker → Broker
resend fd (some (e ∷ events)) b = add_command fd e.packet b
resend fd _ b = b

unfoldable pub resend_loop : List (ℕ × List ℕ) → Broker → Broker
resend_loop [] b = b
resend_loop ((fd, client_id) ∷ ids) b =
    resend_loop ids (resend fd (events_of client_id b.postponed_events) b)

-- One pass of `QoSThread`.
unfoldable pub qos_round : Broker → Exec Broker
qos_round b =
    let sent = (do ids ← collect_ids b.objects b.clients []; done (resend_loop ids b)) in
    if is_empty b.postponed_events then done b else sent
