-- ===== src/Connect/Identifiers.antt =====
-- Client identifiers in `HandleMqttConnect`, src/handlers.cpp.
use mqtt_broker.Common.{
  ℕ, ◌+◌, ◌%◌, ◌^◌, ◌≡◌, refl, List, drop, true, not, ◌==◌, if◌then◌else◌, Option, none, some, Exec,
  done, Leaves, Leaves-done, Leaves-bind, Leaves-then, Leaves-if, Leaves-if-eq, Leaves-option,
  Leaves-option-eq, sym, ap, ◌∙◌,
}
use mathlib.Core.Path.{subst}
use mqtt_broker.VarInt.{MqttErr}
use mqtt_broker.Client.{
  Client, is_will_flag, is_clean_flag, is_user_name_flag, is_pwd_flag, will_qos_flag,
}
use mqtt_broker.Broker.{Broker}
use mqtt_broker.Broker.Tables.{get_client_fd, close_connection}
use mqtt_broker.Chain
use mqtt_broker.Chain.{Created}
use mqtt_broker.VariableHeader.{ConnectVh}
use mqtt_broker.VariableHeader.Read.{read_connect}
use mqtt_broker.Topic.{make}
use mqtt_broker.Common.Bytes.{convert_to_host_2_bytes, read_bytes}
use mqtt_broker.Connect.{
  create_text, Connected, unless_failed, read_password, read_login, read_will, take_id,
  read_client_id, handle_connect,
}

-- What comes after the client identifier changes neither it nor the flags, and leaves the broker.
abbrev Keeps : Client → Broker → Connected → Type 0
Keeps c b r = (r.broker ≡ b) × (r.client.client_id ≡ c.client_id) × (r.client.flags ≡ c.flags)

unless_failed-Leaves :
    (P : Connected → Type 0) (err : MqttErr) (c : Client) (b : Broker) (next : Exec Connected)
    → ((err ≡ MqttErr.ok → ⊥) → Leaves P (done (record { status = err; client = c; broker = b })))
    → Leaves P next
    → Leaves P (unless_failed err c b next)
unfolding unless_failed
unless_failed-Leaves P MqttErr.ok c b next h k = k
unless_failed-Leaves P err c b next h k = h (λ e. cc)

read_password-Keeps :
    (buf : List ℕ) (offset : ℕ) (c : Client) (b : Broker)
    → Leaves (Keeps c b) (read_password buf offset c b)
unfolding read_password
read_password-Keeps buf offset c b =
    Leaves-then {A = Option (List ℕ) × ℕ} (Keeps c b) (create_text (drop offset buf)) _
      (λ (pwd, len).
        Leaves-option (Keeps c b) pwd _ _
          (Leaves-done (Keeps c b) (record { status = MqttErr.auth_fail; client = c; broker = b })
            (refl, refl, refl))
          (λ p.
            Leaves-done (Keeps c b)
              (record { status = MqttErr.ok; client = record c { pwd = some p }; broker = b })
              (refl, refl, refl)))

read_login-Keeps :
    (buf : List ℕ) (offset : ℕ) (c : Client) (b : Broker)
    → Leaves (Keeps c b) (read_login buf offset c b)
unfolding read_login
read_login-Keeps buf offset c b =
    Leaves-if (Keeps c b) (is_user_name_flag c) _ _
      (Leaves-then {A = Option (List ℕ) × ℕ} (Keeps c b) (create_text (drop offset buf)) _
        (λ (user_name, len).
          Leaves-option (Keeps c b) user_name _ _
            (Leaves-done (Keeps c b)
              (record { status = MqttErr.user_name_err; client = c; broker = b })
              (refl, refl, refl))
            (λ u.
              let c' = record c { user_name = some u } in
              Leaves-if (Keeps c b) (is_pwd_flag c') _ _
                (read_password-Keeps buf ((offset + len) % 2 ^ 32) c' b)
                (Leaves-done (Keeps c b) _ (refl, refl, refl)))))
      (Leaves-done (Keeps c b) _ (refl, refl, refl))

read_will-Keeps :
    (buf : List ℕ) (offset : ℕ) (c : Client) (b : Broker)
    → Leaves (Keeps c b) (read_will buf offset c b)
unfolding read_will
read_will-Keeps buf offset c b =
    Leaves-if (Keeps c b) (is_will_flag c) _ _
      (Leaves-then {A = Created} (Keeps c b) (Chain.create c.will_properties (drop offset buf)) _
        (λ res.
          unless_failed-Leaves (Keeps c b) res.status (record c { will_properties = res.chain }) b _
            (λ bad. Leaves-done (Keeps c b) _ (refl, refl, refl))
            (let at_topic = (offset + res.size) % 2 ^ 32 in
              Leaves-then {A = ℕ} (Keeps c b) (convert_to_host_2_bytes (drop at_topic buf)) _
                (λ str_len.
                  let at_name = (at_topic + 2) % 2 ^ 32 in
                  Leaves-then {A = List ℕ} (Keeps c b) (read_bytes str_len (drop at_name buf)) _
                    (λ name.
                      let at_data = (at_name + str_len) % 2 ^ 32 in
                      Leaves-then {A = ℕ} (Keeps c b) (convert_to_host_2_bytes (drop at_data buf)) _
                        (λ data_len.
                          let at_message = (at_data + 2) % 2 ^ 32 in
                          Leaves-then {A = List ℕ} (Keeps c b)
                            (read_bytes data_len (drop at_message buf)) _
                            (λ message.
                              read_login-Keeps buf ((at_message + data_len) % 2 ^ 32)
                                (record c {
                                  will_properties = res.chain;
                                  will_topic = some (make (will_qos_flag c) 1 name (some message));
                                })
                                b)))))))
      (read_login-Keeps buf offset c b)

-- Whose identifier a client has after CONNECT: the broker's choice, one that no client has, or that
-- of a client whose connection was closed, which a clean start asks for.
pub data Identified (random_id : List ℕ) (b : Broker) (r : Connected) : Type 0 where
  refused : (r.status ≡ MqttErr.ok → ⊥) → r.broker ≡ b → Identified random_id b r
  random : r.client.client_id ≡ random_id → r.broker ≡ b → Identified random_id b r
  free : get_client_fd r.client.client_id b ≡ done none → r.broker ≡ b → Identified random_id b r
  taken :
      (fd : ℕ)
      → get_client_fd r.client.client_id b ≡ done (some fd)
      → is_clean_flag r.client ≡ true
      → r.broker ≡ close_connection fd b
      → Identified random_id b r

after_id-Identified :
    (random_id buf id : List ℕ) (offset : ℕ) (c : Client) (b b' : Broker)
    → ((r : Connected)
        → r.client.client_id ≡ id
        → r.client.flags ≡ c.flags
        → r.broker ≡ b'
        → Identified random_id b r)
    → Leaves (Identified random_id b) (read_will buf offset (record c { client_id = id }) b')
after_id-Identified random_id buf id offset c b b' h r e =
    let (same, named, flags) = read_will-Keeps buf offset (record c { client_id = id }) b' r e in
    h r named flags same

is_clean_flag-flags :
    (c d : Client) → d.flags ≡ c.flags → is_clean_flag c ≡ true → is_clean_flag d ≡ true
is_clean_flag-flags c d e h = rw (e) h

take_id-Identified :
    (random_id buf id : List ℕ) (offset : ℕ) (c : Client) (b : Broker)
    → Leaves (Identified random_id b) (take_id id c b (read_will buf offset))
unfolding take_id
take_id-Identified random_id buf id offset c b =
    Leaves-bind (λ found. get_client_fd id b ≡ done found) (Identified random_id b)
      (get_client_fd id b) _ (λ found e. e)
      (λ found asked.
        Leaves-option-eq (Identified random_id b) found _ _
          (λ n. after_id-Identified random_id buf id offset c b b (λ r named flags same.
            free (subst (λ i. get_client_fd i b ≡ done none) (sym named) (asked ∙ ap done n)) same))
          (λ fd f.
            Leaves-if-eq (Identified random_id b) (is_clean_flag (record c { client_id = id })) _ _
              (λ clean.
                after_id-Identified random_id buf id offset c b (close_connection fd b)
                  (λ r named flags same.
                    taken fd
                      (subst (λ i. get_client_fd i b ≡ done (some fd)) (sym named)
                        (asked ∙ ap done f))
                      (is_clean_flag-flags (record c { client_id = id }) r.client flags clean)
                      same))
              (λ dirty.
                Leaves-done (Identified random_id b)
                  (record { status = MqttErr.duplicate_client_id; client = c; broker = b })
                  (refused (λ e. cc) refl))))

read_client_id-Identified :
    (random_id buf : List ℕ) (offset : ℕ) (c : Client) (b : Broker)
    → Leaves (Identified random_id b) (read_client_id random_id buf offset c b)
unfolding read_client_id
read_client_id-Identified random_id buf offset c b =
    Leaves-then {A = Option (List ℕ) × ℕ} (Identified random_id b) (create_text (drop offset buf)) _
      (λ (id, id_len).
        let offset' = (offset + (if id_len == 0 then 2 else id_len)) % 2 ^ 32 in
        Leaves-option (Identified random_id b) id _ _
          (λ r e.
            let c' = record c { client_id = random_id; id_was_random_generated = true } in
            let (same, named, flags) = read_will-Keeps buf offset' c' b r e in random named same)
          (λ text. take_id-Identified random_id buf text offset' c b))

-- Every return of `HandleMqttConnect` is of one of four kinds. It is an error, and the broker is as
-- it was; or the client has the identifier that the broker chose; or it has one that
-- `GetClientFd` does not find; or `GetClientFd` finds a socket with its identifier, the packet asks
-- for a clean start, and the connection of that socket has been closed. Nothing else of the broker
-- changes.
pub handle_connect-Identified :
    (random_id buf : List ℕ) (c : Client) (b : Broker) (r : Connected)
    → handle_connect random_id buf c b ≡ done r
    → Identified random_id b r
unfolding handle_connect
handle_connect-Identified random_id buf c b =
    Leaves-then {A = ConnectVh × ℕ} (Identified random_id b) (read_connect buf 0) _ (λ (vh, offset).
      let c1 = record c { mqtt_version = vh.version; alive = vh.alive; flags = vh.conn_flags } in
      Leaves-if (Identified random_id b) (not (vh.version == 5)) _ _
        (Leaves-done (Identified random_id b)
          (record { status = MqttErr.protocol_version_err; client = c; broker = b })
          (refused (λ e. cc) refl))
        (Leaves-then {A = Created} (Identified random_id b)
          (Chain.create c1.conn_properties (drop offset buf)) _
          (λ res.
            let c2 = record c1 { conn_properties = res.chain } in
            unless_failed-Leaves (Identified random_id b) res.status c2 b _
              (λ bad.
                Leaves-done (Identified random_id b)
                  (record { status = res.status; client = c2; broker = b }) (refused bad refl))
              (read_client_id-Identified random_id buf ((offset + res.size) % 2 ^ 32) c2 b))))
