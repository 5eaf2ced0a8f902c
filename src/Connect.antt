-- ===== src/Connect.antt =====
-- `HandleMqttConnect`, src/handlers.cpp, and `CreateMqttStringEntity` and
-- `CreateMqttBinaryDataEntity`, src/mqtt_protocol.cpp. The client is an object, so that what was set
-- before an error stays set. `random_id` is what `GenRandom(23)` returns.
pub mod Identifiers
use mqtt_broker.Common.{
  ℕ, ◌+◌, ◌%◌, ◌^◌, List, drop, true, not, ◌==◌, if◌then◌else◌, Option, none, some, Exec, done,
  ◌>>=◌,
}
use mqtt_broker.Common.Bytes.{convert_to_host_2_bytes, read_bytes}
use mqtt_broker.VarInt.{MqttErr}
use mqtt_broker.Chain
use mqtt_broker.VariableHeader.Read.{read_connect}
use mqtt_broker.Topic.{make}
use mqtt_broker.Client.{
  Client, is_will_flag, is_clean_flag, is_user_name_flag, is_pwd_flag, will_qos_flag,
}
use mqtt_broker.Broker.{Broker}
use mqtt_broker.Broker.Tables.{get_client_fd, close_connection}

-- The text and the out-parameter `size`, a `uint8_t`; an empty text is `nullptr`.
unfoldable pub create_text : List ℕ → Exec (Option (List ℕ) × ℕ)
create_text buf = do
  len ← convert_to_host_2_bytes buf
  let text = (do s ← read_bytes len (drop 2 buf); done (some s, (2 + len) % 256))
  if len == 0 then done (none, 0) else text

-- What the function returns, with the client and the broker that it leaves.
pub record Connected : Type 0 where
  pub status : MqttErr
  pub client : Client
  pub broker : Broker

abbrev pub stop : MqttErr → Client → Broker → Exec Connected
stop err c b = done (record { status = err; client = c; broker = b })

-- `if (create_status != mqtt_err::ok) return create_status;`
unfoldable pub unless_failed : MqttErr → Client → Broker → Exec Connected → Exec Connected
unless_failed MqttErr.ok c b next = next
unless_failed err c b next = stop err c b

unfoldable pub read_password : List ℕ → ℕ → Client → Broker → Exec Connected
read_password buf offset c b = do
  (pwd, len) ← create_text (drop offset buf)
  elim pwd [
    | none ↦ stop MqttErr.auth_fail c b
    | some p ↦ stop MqttErr.ok (record c { pwd = some p }) b
  ]

-- From `//user name` on.
unfoldable pub read_login : List ℕ → ℕ → Client → Broker → Exec Connected
read_login buf offset c b =
    let login = (do
      (user_name, len) ← create_text (drop offset buf)
      elim user_name [
        | none ↦ stop MqttErr.user_name_err c b
        | some u ↦
            let c' = record c { user_name = some u } in
            let password = read_password buf ((offset + len) % 2 ^ 32) c' b in
            if is_pwd_flag c' then password else stop MqttErr.ok c' b
      ]) in
    if is_user_name_flag c then login else stop MqttErr.ok c b

-- `if (pClient->isWillFlag()){ … }`, and what follows.
unfoldable pub read_will : List ℕ → ℕ → Client → Broker → Exec Connected
read_will buf offset c b =
    let will = (do
      res ← Chain.create c.will_properties (drop offset buf)
      let c' = record c { will_properties = res.chain }
      let at_topic = (offset + res.size) % 2 ^ 32
      unless_failed res.status c' b (do
        str_len ← convert_to_host_2_bytes (drop at_topic buf)
        let at_name = (at_topic + 2) % 2 ^ 32
        name ← read_bytes str_len (drop at_name buf)
        let at_data = (at_name + str_len) % 2 ^ 32
        data_len ← convert_to_host_2_bytes (drop at_data buf)
        let at_message = (at_data + 2) % 2 ^ 32
        message ← read_bytes data_len (drop at_message buf)
        read_login buf ((at_message + data_len) % 2 ^ 32)
            (record c' { will_topic = some (make (will_qos_flag c') 1 name (some message)) }) b)) in
    let login = read_login buf offset c b in if is_will_flag c then will else login

-- A client identifier that is in use: `CleanStart` closes the other connection.
unfoldable pub take_id :
    List ℕ → Client → Broker → (Client → Broker → Exec Connected) → Exec Connected
take_id id c b next = do
  check_fd ← get_client_fd id b
  let c' = record c { client_id = id }
  elim check_fd [
    | none ↦ next c' b
    | some fd ↦
        if is_clean_flag c
        then next c' (close_connection fd b)
        else stop MqttErr.duplicate_client_id c b
  ]

-- From `//read ClientID` on: `if (id_len) offset += id_len; else offset += 2;`
unfoldable pub read_client_id : List ℕ → List ℕ → ℕ → Client → Broker → Exec Connected
read_client_id random_id buf offset c b = do
  (id, id_len) ← create_text (drop offset buf)
  let offset' = (offset + (if id_len == 0 then 2 else id_len)) % 2 ^ 32
  elim id [
    | none ↦
        read_will buf offset' (record c { client_id = random_id; id_was_random_generated = true }) b
    | some text ↦ take_id text c b (read_will buf offset')
  ]

unfoldable pub handle_connect : List ℕ → List ℕ → Client → Broker → Exec Connected
handle_connect random_id buf c b = do
  (vh, offset) ← read_connect buf 0
  let c1 = record c { mqtt_version = vh.version; alive = vh.alive; flags = vh.conn_flags }
  let accepted = (do
    res ← Chain.create c1.conn_properties (drop offset buf)
    let c2 = record c1 { conn_properties = res.chain }
    unless_failed res.status c2 b
        (read_client_id random_id buf ((offset + res.size) % 2 ^ 32) c2 b))
  if not (vh.version == 5) then stop MqttErr.protocol_version_err c b else accepted
