-- ===== src/Broker.antt =====
-- Class `Broker`, src/broker.cpp: its tables, the postponed events and the two functions that send
-- a topic to clients.
pub mod Postponed
pub mod Delivery
pub mod Tables
use mqtt_broker.Common.{
  ℕ, zero, suc, ◌+◌, ◌%◌, ◌^◌, bit_and, List, [], ◌∷◌, ◌++◌, Bool, true, false, not, ltb, ◌==◌,
  ◌||◌, if◌then◌else◌, text_eq, Option, none, some, Exec, done, fault, ◌>>=◌,
}
use mqtt_broker.FixedHeader.Types.{PackType, code}
use mqtt_broker.FixedHeader.Builder
use mqtt_broker.VariableHeader.{VariableHeader, publish}
use mqtt_broker.Packet.{Packet, create_message_packet}
use mqtt_broker.Topic.{MqttTopic, set_qos, set_packet_id}
use mqtt_broker.Client.{Client, my_topic, gen_packet_id}

-- `mqtt_packet`
pub record MqttPacket : Type 0 where
  pub packet : Packet
  pub packet_id : ℕ

-- The clients are objects: `clients` holds `shared_ptr`s to them and `subscribed_clients` holds
-- `weak_ptr`s, both by file descriptor and as indices into `objects`; a `shared_ptr` may be null. The maps are lists of their
-- entries in the order of their iteration. A command is a packet for a file descriptor. The
-- last two fields are those of `CTopicStorage`.
pub record Broker : Type 0 where
  pub objects : List Client
  pub clients : List (ℕ × Option ℕ)
  pub subscribed_clients : List (ℕ × ℕ)
  pub postponed_events : List (List ℕ × List MqttPacket)
  pub commands : List (ℕ × Packet)
  pub topics : List MqttTopic
  pub qos_2_topics : List (List ℕ × MqttTopic)

abbrev pub object : List Client → ℕ → Option Client
object [] ref = none
object (c ∷ objects) zero = some c
object (c ∷ objects) (suc ref) = object objects ref

abbrev pub set_object : List Client → ℕ → Client → List Client
set_object [] ref c' = []
set_object (c ∷ objects) zero c' = c' ∷ objects
set_object (c ∷ objects) (suc ref) c' = c ∷ set_object objects ref c'

-- `weak_ptr::lock`: the object lives while a `shared_ptr` of the table of clients points to it.
abbrev pub is_held : List (ℕ × Option ℕ) → ℕ → Bool
is_held [] ref = false
is_held ((fd, none) ∷ clients) ref = is_held clients ref
is_held ((fd, some r) ∷ clients) ref = r == ref || is_held clients ref

abbrev pub lock : Broker → ℕ → Option Client
lock b ref = if is_held b.clients ref then object b.objects ref else none

-- `Commands::AddCommand`
unfoldable pub add_command : ℕ → Packet → Broker → Broker
add_command fd packet b = record b { commands = b.commands ++ ((fd, packet) ∷ []) }

unfoldable pub events_of : List ℕ → List (List ℕ × List MqttPacket) → Option (List MqttPacket)
events_of client_id [] = none
events_of client_id ((id, events) ∷ rest) =
    if text_eq id client_id then some events else events_of client_id rest

-- `postponed_events[client_id].push_back(mqtt_message)`, after the empty list has been inserted where
-- there was no entry.
push_event : List ℕ → MqttPacket → List (List ℕ × List MqttPacket) → List (List ℕ × List MqttPacket)
push_event client_id packet [] = (client_id, packet ∷ []) ∷ []
push_event client_id packet ((id, events) ∷ rest) =
    if text_eq id client_id
    then (id, events ++ (packet ∷ [])) ∷ rest
    else (id, events) ∷ push_event client_id packet rest

pub add_qos_event : List ℕ → MqttPacket → Broker → Broker
add_qos_event client_id packet b = record b {
  postponed_events = push_event client_id packet b.postponed_events;
}

unfoldable pub remove_events : ℕ → List MqttPacket → List MqttPacket
remove_events packet_id [] = []
remove_events packet_id (e ∷ events) =
    if e.packet_id == packet_id
    then remove_events packet_id events
    else e ∷ remove_events packet_id events

unfoldable pub del_events :
    List ℕ → ℕ → List (List ℕ × List MqttPacket) → List (List ℕ × List MqttPacket)
del_events client_id packet_id [] = []
del_events client_id packet_id ((id, events) ∷ rest) =
    if text_eq id client_id
    then (id, remove_events packet_id events) ∷ rest
    else (id, events) ∷ del_events client_id packet_id rest

unfoldable pub del_qos_event : List ℕ → ℕ → Broker → Broker
del_qos_event client_id packet_id b = record b {
  postponed_events = del_events client_id packet_id b.postponed_events;
}

unfoldable pub check_if_more_messages : List ℕ → Broker → Bool
check_if_more_messages client_id b = elim (events_of client_id b.postponed_events) [
  | none ↦ false
  | some [] ↦ false
  | some (e ∷ events) ↦ true
]

-- `GetPacket`: `front()` of an empty list is undefined.
pub get_packet : List ℕ → Broker → Exec (Option Packet)
get_packet client_id b = elim (events_of client_id b.postponed_events) [
  | none ↦ done none
  | some [] ↦ fault
  | some (e ∷ events) ↦ done (some e.packet)
]

-- `FHBuilder().PacketType(PUBLISH).WithQoS(qos).Build()`, and the same with `WithDup()`.
abbrev pub publish_byte : ℕ → ℕ
publish_byte qos = Builder.with_qos qos (Builder.packet_type (code PackType.publish) Builder.start)

module _ (fresh : ℕ → List ℕ) where
  -- `CreateMqttPacket(first, answer_vh, topic.GetPtr(), answer_size)`, where the pointer is
  -- dereferenced.
  unfoldable pub topic_packet : ℕ → MqttTopic → Exec Packet
  topic_packet first topic = elim topic.value [
    | none ↦ fault
    | some message ↦
        create_message_packet fresh first
          (publish (record { topic_name = topic.name; packet_id = topic.id; p_chain = [] })) message
  ]

  -- What `NotifyClients` and `NotifyClient` do when the topic has its packet identifier.
  unfoldable pub send_topic : ℕ → Client → MqttTopic → Broker → Exec Broker
  send_topic fd c topic b =
      let at_once = (do
        packet ← topic_packet (publish_byte topic.qos) topic
        done (add_command fd packet b)) in
      let postponed = (do
        packet ← topic_packet (Builder.with_dup (publish_byte topic.qos)) topic
        done (add_qos_event c.client_id (record { packet = packet; packet_id = topic.id }) b)) in
      if ltb 0 topic.qos
      then (if not (check_if_more_messages c.client_id b) then at_once else postponed)
      else at_once

  -- `if (topic.GetQoS() == QoS_0) topic.SetPacketID(0); else topic.SetPacketID(GenPacketID());`
  unfoldable pub number_topic : ℕ → Client → MqttTopic → Broker → MqttTopic × Client × Broker
  number_topic ref c topic b =
      let (id, c') = gen_packet_id c in
      if topic.qos == 0
      then (set_packet_id 0 topic, c, b)
      else (set_packet_id id topic, c', record b { objects = set_object b.objects ref c' })

  -- The part that `NotifyClients` and `NotifyClient` have in common.
  unfoldable pub number_and_send : ℕ → ℕ → Client → MqttTopic → Broker → Exec (MqttTopic × Broker)
  number_and_send fd ref c topic b = do
    let (topic', c', b') = number_topic ref c topic b
    b'' ← send_topic fd c' topic' b'
    done (topic', b'')

  -- One round of the loop of `NotifyClients`.
  unfoldable pub notify_subscriber : ℕ → ℕ → MqttTopic → Broker → Exec (MqttTopic × Broker)
  notify_subscriber fd ref topic b = elim (lock b ref) [
    | none ↦ done (topic, b)
    | some c ↦ do
      (found, options) ← my_topic c topic.name
      let sent = number_and_send fd ref c (set_qos (bit_and options 0x03) topic) b
      if found then sent else done (topic, b)
  ]

  unfoldable pub notify_loop : List (ℕ × ℕ) → MqttTopic → Broker → Exec (MqttTopic × Broker)
  notify_loop [] topic b = done (topic, b)
  notify_loop ((fd, ref) ∷ subscribers) topic b = do
    (topic', b') ← notify_subscriber fd ref topic b
    notify_loop subscribers topic' b'

  -- `NotifyClients`, which leaves the last quality of service and identifier in `topic`.
  unfoldable pub notify_clients : MqttTopic → Broker → Exec (MqttTopic × Broker)
  notify_clients topic b = notify_loop b.subscribed_clients topic b

  -- `NotifyClient`, where `ref` is what `clients[fd]` holds.
  unfoldable pub notify_client : ℕ → ℕ → MqttTopic → Broker → Exec (MqttTopic × Broker)
  notify_client fd ref topic b = elim (object b.objects ref) [
    | none ↦ fault
    | some c ↦ number_and_send fd ref c topic b
  ]
