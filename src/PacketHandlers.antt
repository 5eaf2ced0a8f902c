-- ===== src/PacketHandlers.antt =====
-- The handlers of the packet types, src/mqtt_packet_handler.cpp, but for CONNECT. A handler gets the
-- fixed header, the rest of the packet and the file descriptor of the sender, and returns the status
-- and the broker after it. The log lines are left out.
pub mod Published
pub mod Accept
pub mod Agreement
pub mod Connack
pub mod Dispatch
pub mod Postponed
pub mod Steps
pub mod Tables
use mqtt_broker.Common.{
  ℕ, zero, suc, ◌+◌, ◌%◌, ◌^◌, bit_or, List, [], ◌∷◌, ◌++◌, Bool, true, false, not, ◌==◌,
  if◌then◌else◌, Option, none, some, Exec, done, fault, ◌>>=◌,
}
use mqtt_broker.VarInt.{MqttErr}
use mqtt_broker.FixedHeader.{FixedHeader, qos, is_retain}
use mqtt_broker.FixedHeader.Types.{PackType, code}
use mqtt_broker.FixedHeader.Builder
use mqtt_broker.VariableHeader.{VariableHeader, PubackVh, suback, puback, unsuback}
use mqtt_broker.Packet.{Packet, create_mqtt_packet, create_empty_packet}
use mqtt_broker.Handlers.{handle_publish, handle_subscribe, handle_puback, handle_unsubscribe}
use mqtt_broker.Topic.{MqttTopic, make, set_qos}
use mqtt_broker.Topic.Storage.{
  store_topic_value, get_matched_topics, add_qos_topic, get_qos_topic, del_qos_topic,
}
use mqtt_broker.Client.{Client, del_subscription}
use mqtt_broker.Broker.{
  Broker, MqttPacket, object, set_object, add_command, add_qos_event, del_qos_event,
  check_if_more_messages, get_packet, notify_clients, notify_client,
}

-- `broker->clients[fd]`: without an entry, or where the entry has no object, the pointer is null.
unfoldable pub ref_of : ℕ → List (ℕ × Option ℕ) → Option ℕ
ref_of fd [] = none
ref_of fd ((f, ref) ∷ clients) = if f == fd then ref else ref_of fd clients

-- A handler that works on the client of `fd`; a null pointer is dereferenced.
unfoldable pub with_client {ℓ} : {A : Type ℓ} → ℕ → Broker → (ℕ → Client → Exec A) → Exec A
with_client fd b k = elim (ref_of fd b.clients) [
  | none ↦ fault
  | some ref ↦ elim (object b.objects ref) [ none ↦ fault | some c ↦ k ref c ]
]

-- `FHBuilder().PacketType(type).Build()`
abbrev pub type_byte : PackType → ℕ
type_byte type = Builder.packet_type (code type) Builder.start

-- A default-constructed `PubackVH` or `TypicalVH`.
abbrev pub new_puback : PubackVh
new_puback = record { packet_id = 0; reason_code = 0; p_chain = [] }

-- The answer with a packet identifier and the reason code `success`.
abbrev pub success_of : ℕ → VariableHeader
success_of packet_id = puback (record { packet_id = packet_id; reason_code = 0; p_chain = [] })

-- `AddSubscribedClient`: `insert`, which keeps an entry that is there.
unfoldable pub add_subscribed_client : ℕ → ℕ → List (ℕ × ℕ) → List (ℕ × ℕ)
add_subscribed_client fd ref [] = (fd, ref) ∷ []
add_subscribed_client fd ref ((f, r) ∷ rest) =
    if f == fd then (f, r) ∷ rest else (f, r) ∷ add_subscribed_client fd ref rest

-- `if (broker->CheckIfMoreMessages(…)){ … GetPacket … AddCommand … }`
unfoldable pub send_kept : ℕ → List ℕ → Broker → Exec Broker
send_kept fd client_id b =
    let resent = (do
      kept ← get_packet client_id b
      elim kept [ none ↦ done b | some packet ↦ done (add_command fd packet b) ]) in
    if check_if_more_messages client_id b then resent else done b

module _ (fresh : ℕ → List ℕ) where
  -- `AddCommand(fd, tuple{answer_size, CreateMqttPacket(first, answer_vh, answer_size)})`
  unfoldable pub answer : ℕ → ℕ → VariableHeader → Broker → Exec Broker
  answer fd first vh b = do
    packet ← create_mqtt_packet fresh first vh
    done (add_command fd packet b)

  -- The answer to a PUBLISH.
  unfoldable pub acknowledge : FixedHeader → ℕ → Client → ℕ → Broker → Exec Broker
  acknowledge fh fd c packet_id b =
      let postponed = (do
        packet ←
            create_mqtt_packet fresh (Builder.with_dup (type_byte PackType.pubrec))
              (success_of packet_id)
        done (add_qos_event c.client_id (record { packet = packet; packet_id = packet_id }) b)) in
      let received = answer fd (type_byte PackType.pubrec) (success_of packet_id) b in
      let acked = answer fd (type_byte PackType.puback) (success_of packet_id) b in
      if qos fh == 1
      then acked
      else if qos fh == 2
      then (if not (check_if_more_messages c.client_id b) then received else postponed)
      else done b

  -- A message of quality of service 2 waits for its PUBREL.
  unfoldable pub pass_on : FixedHeader → Client → MqttTopic → Broker → Exec Broker
  pass_on fh c topic b =
      let notified = (do (topic', b') ← notify_clients fresh topic b; done b') in
      if not (qos fh == 2)
      then notified
      else done (record b { qos_2_topics = add_qos_topic c.client_id topic b.qos_2_topics })

  unfoldable pub handle_publish_packet : FixedHeader → List ℕ → ℕ → Broker → Exec (MqttErr × Broker)
  handle_publish_packet fh buf fd b = with_client fd b λ ref c. do
    (vh, message) ← handle_publish fh buf
    let stored = record b {
      topics = store_topic_value (qos fh) vh.packet_id vh.topic_name (some message) b.topics;
    }
    let b1 = if is_retain fh then stored else b
    b2 ← acknowledge fh fd c vh.packet_id b1
    b3 ← pass_on fh c (make (qos fh) vh.packet_id vh.topic_name (some message)) b2
    done (MqttErr.ok, b3)

  -- The retained topics that match one filter, sent with the options as quality of service.
  unfoldable pub send_retained : ℕ → ℕ → ℕ → List MqttTopic → Broker → Exec Broker
  send_retained fd ref options [] b = done b
  send_retained fd ref options (t ∷ topics) b = do
    (t', b') ← notify_client fresh fd ref (set_qos options t) b
    send_retained fd ref options topics b'

  unfoldable pub retained_loop : ℕ → ℕ → List (List ℕ × ℕ) → Broker → Exec Broker
  retained_loop fd ref [] b = done b
  retained_loop fd ref ((name, options) ∷ filters) b = do
    matched ← get_matched_topics name b.topics
    b' ← send_retained fd ref options matched b
    retained_loop fd ref filters b'

  unfoldable pub handle_subscribe_packet :
      FixedHeader → List ℕ → ℕ → Broker → Exec (MqttErr × Broker)
  handle_subscribe_packet fh buf fd b = with_client fd b λ ref c. do
    (vh, s) ← handle_subscribe fh buf c.subscribed_topics
    let b1 = record b {
      objects = set_object b.objects ref (record c { subscribed_topics = s.subscriptions });
    }
    b2 ←
        answer fd (type_byte PackType.suback)
          (suback
            (record { packet_id = vh.packet_id; p_chain = []; reason_codes = s.reason_codes }))
          b1
    b3 ← retained_loop fd ref s.topics b2
    done (
      MqttErr.ok,
      record b3 { subscribed_clients = add_subscribed_client fd ref b3.subscribed_clients },
    )

  unfoldable pub handle_puback_packet : FixedHeader → List ℕ → ℕ → Broker → Exec (MqttErr × Broker)
  handle_puback_packet fh buf fd b = with_client fd b λ ref c. do
    vh ← handle_puback new_puback buf
    b1 ← send_kept fd c.client_id (del_qos_event c.client_id vh.packet_id b)
    done (MqttErr.ok, b1)

  unfoldable pub handle_disconnect_packet :
      FixedHeader → List ℕ → ℕ → Broker → Exec (MqttErr × Broker)
  handle_disconnect_packet fh buf fd b = with_client fd b λ ref c. done (MqttErr.disconnect, b)

  unfoldable pub handle_ping_packet : FixedHeader → List ℕ → ℕ → Broker → Exec (MqttErr × Broker)
  handle_ping_packet fh buf fd b = with_client fd b λ ref c. do
    packet ← create_empty_packet fresh (type_byte PackType.pingresp)
    done (MqttErr.ok, add_command fd packet b)

  -- One reason code for each topic: `success` or `no_subscription_existed`.
  unfoldable pub unsubscribe_all : List (List ℕ) → Client → List ℕ × Client
  unsubscribe_all [] c = ([], c)
  unsubscribe_all (name ∷ names) c =
      let (erased, c') = del_subscription name c in
      let (codes, c'') = unsubscribe_all names c' in
      ((if erased == 0 then 0x11 else 0) ∷ codes, c'')

  unfoldable pub handle_unsubscribe_packet :
      FixedHeader → List ℕ → ℕ → Broker → Exec (MqttErr × Broker)
  handle_unsubscribe_packet fh buf fd b = with_client fd b λ ref c. do
    (vh, names) ← handle_unsubscribe fh buf
    let (codes, c') = unsubscribe_all names c
    b1 ←
        answer fd (type_byte PackType.unsuback)
          (unsuback (record { packet_id = vh.packet_id; p_chain = []; reason_codes = codes }))
          (record b { objects = set_object b.objects ref c' })
    done (MqttErr.ok, b1)

  -- The stored message of a PUBREL goes to the subscribers.
  unfoldable pub release : List ℕ → ℕ → Broker → Exec Broker
  release client_id packet_id b = elim (get_qos_topic client_id packet_id b.qos_2_topics) [
    | none ↦ done b
    | some topic ↦ do
      (topic', b') ← notify_clients fresh topic b
      done (record b' { qos_2_topics = del_qos_topic client_id packet_id b'.qos_2_topics })
  ]

  unfoldable pub handle_pubrel_packet : FixedHeader → List ℕ → ℕ → Broker → Exec (MqttErr × Broker)
  handle_pubrel_packet fh buf fd b = with_client fd b λ ref c. do
    vh ← handle_puback new_puback buf
    b1 ← answer fd (type_byte PackType.pubcomp) (success_of vh.packet_id) b
    b2 ← send_kept fd c.client_id (del_qos_event c.client_id vh.packet_id b1)
    b3 ← release c.client_id vh.packet_id b2
    done (MqttErr.ok, b3)

  -- The first byte of the PUBREL has `| 1 << 1`.
  unfoldable pub handle_pubrec_packet : FixedHeader → List ℕ → ℕ → Broker → Exec (MqttErr × Broker)
  handle_pubrec_packet fh buf fd b = with_client fd b λ ref c. do
    vh ← handle_puback new_puback buf
    b1 ←
        answer fd (bit_or (type_byte PackType.pubrel) 2) (success_of vh.packet_id)
          (del_qos_event c.client_id vh.packet_id b)
    done (MqttErr.ok, b1)

  unfoldable pub handle_pubcomp_packet : FixedHeader → List ℕ → ℕ → Broker → Exec (MqttErr × Broker)
  handle_pubcomp_packet fh buf fd b = with_client fd b λ ref c. do
    vh ← handle_puback new_puback buf
    b1 ← send_kept fd c.client_id b
    done (MqttErr.ok, b1)
