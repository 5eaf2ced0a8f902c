-- ===== src/ErrorHandlers.antt =====
-- The handlers of errors, src/mqtt_error_handler.cpp, in the order in which the constructor of
-- `Broker`, src/broker.cpp, adds them. A handler writes to the socket itself, past the queue.
pub mod Replies
use mqtt_broker.Common.{ℕ, List, [], ◌∷◌, ◌==◌, if◌then◌else◌, Exec, done, ◌>>=◌}
use mqtt_broker.VarInt.{MqttErr}
use mqtt_broker.FixedHeader.Types.{PackType}
use mqtt_broker.VariableHeader.{VariableHeader, connack}
use mqtt_broker.Packet.{create_mqtt_packet}
use mqtt_broker.PacketHandlers.{type_byte}
use mqtt_broker.Sockets.{Written, write_data}

-- The number of the enumerator.
abbrev pub number : MqttErr → ℕ
number MqttErr.ok = 0
number MqttErr.read_err = 1
number MqttErr.var_int_err = 2
number MqttErr.mqtt_property_err = 3
number MqttErr.disconnect = 4
number MqttErr.handle_error = 5
number MqttErr.protocol_version_err = 6
number MqttErr.duplicate_client_id = 7
number MqttErr.user_name_err = 8
number MqttErr.auth_fail = 9

-- `ConnactVH(0, reason_code, MqttPropertyChain{})`
unfoldable pub refusal : ℕ → VariableHeader
refusal reason_code =
    connack (record { conn_acknowledge_flags = 0; reason_code = reason_code; p_chain = [] })

-- `IMqttErrorHandler`: the error, and the bytes that `HandleError` sends.
pub record ErrorHandler : Type 0 where
  pub error : MqttErr
  pub handle : Exec (List ℕ)

-- `MqttErrorHandler::HandleError`
unfoldable pub dispatch_error : List ErrorHandler → MqttErr → Exec (List ℕ)
dispatch_error [] error = done []
dispatch_error (h ∷ handlers) error =
    if number h.error == number error then h.handle else dispatch_error handlers error

module _ (fresh : ℕ → List ℕ) (write : ℕ → ℕ → ℕ) where
  -- `CreateMqttPacket` and `WriteData`, of which the result is not looked at.
  unfoldable pub send_refusal : ℕ → Exec (List ℕ)
  send_refusal reason_code = do
    packet ← create_mqtt_packet fresh (type_byte PackType.connack) (refusal reason_code)
    w ← write_data write packet.bytes packet.size
    done w.sent

  abbrev pub error_handlers : List ErrorHandler
  error_handlers =
      record { error = MqttErr.disconnect; handle = done [] }
      ∷ record { error = MqttErr.protocol_version_err; handle = send_refusal 0x84 }
      ∷ record { error = MqttErr.handle_error; handle = done [] }
      ∷ record { error = MqttErr.duplicate_client_id; handle = send_refusal 0x85 }
      ∷ []

  unfoldable pub handle_error : MqttErr → Exec (List ℕ)
  handle_error error = dispatch_error error_handlers error
