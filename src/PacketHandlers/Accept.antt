-- ===== src/PacketHandlers/Accept.antt =====
-- The handler of CONNECT, `MqttConnectPacketHandler`, src/mqtt_packet_handler.cpp. `random_id` is
-- what `GenRandom(23)` returns.
use mqtt_broker.Common.{ℕ, List, ◌∷◌, if◌then◌else◌, Option, none, some, Exec, done, fault, ◌>>=◌}
use mqtt_broker.VarInt.{MqttErr}
use mqtt_broker.Property.{Property}
use mqtt_broker.Chain.{add_property}
use mqtt_broker.Chain.Builder as ChainBuilder
use mqtt_broker.FixedHeader.{FixedHeader}
use mqtt_broker.FixedHeader.Types.{PackType}
use mqtt_broker.VariableHeader.{VariableHeader, connack}
use mqtt_broker.Client.{Client, is_clean_flag}
use mqtt_broker.Broker.{Broker, object, set_object}
use mqtt_broker.Broker.Tables.{has_fd}
use mqtt_broker.Connect.{handle_connect}
use mqtt_broker.PacketHandlers.{ref_of, type_byte, answer}

-- The chain of the answer.
unfoldable pub connack_chain : Client → List Property
unfolding add_property ChainBuilder.with_client_identifier ChainBuilder.with_retain_available
    ChainBuilder.with_max_pocket_size ChainBuilder.with_wild_card
    ChainBuilder.with_shared_sub_available ChainBuilder.start
connack_chain c = ChainBuilder.with_shared_sub_available 0 (
    ChainBuilder.with_wild_card 1 (
      ChainBuilder.with_max_pocket_size 65535 (
        ChainBuilder.with_retain_available 1 (
          if c.id_was_random_generated
          then ChainBuilder.with_client_identifier c.client_id ChainBuilder.start
          else ChainBuilder.start))))

-- `ConnactVH(!pClient->isCleanFlag(), success, std::move(p_chain))`
unfoldable pub connack_of : Client → VariableHeader
connack_of c = connack (record {
  conn_acknowledge_flags = if is_clean_flag c then 0 else 1;
  reason_code = 0;
  p_chain = connack_chain c;
})

-- `clients[fd]` puts in a null pointer where there is no entry.
unfoldable pub enter_fd : ℕ → List (ℕ × Option ℕ) → List (ℕ × Option ℕ)
enter_fd fd clients = if has_fd fd clients then clients else (fd, none) ∷ clients

module _ (fresh : ℕ → List ℕ) where
  -- `if (handle_stat != mqtt_err::ok) return handle_stat;` and the answer.
  unfoldable pub answer_connect : MqttErr → Client → ℕ → Broker → Exec (MqttErr × Broker)
  answer_connect MqttErr.ok c fd b = do
    b' ← answer fresh fd (type_byte PackType.connack) (connack_of c) b
    done (MqttErr.ok, b')
  answer_connect err c fd b = done (err, b)

  -- The client is an object that the handler changes in place, on errors too.
  unfoldable pub handle_connect_packet :
      List ℕ → FixedHeader → List ℕ → ℕ → Broker → Exec (MqttErr × Broker)
  handle_connect_packet random_id fh buf fd b = elim (ref_of fd b.clients) [
    | none ↦ done (MqttErr.handle_error, record b { clients = enter_fd fd b.clients })
    | some ref ↦ elim (object b.objects ref) [
      | none ↦ fault
      | some c ↦ do
        r ← handle_connect random_id buf c b
        answer_connect r.status r.client fd
            (record r.broker { objects = set_object r.broker.objects ref r.client })
    ]
  ]
