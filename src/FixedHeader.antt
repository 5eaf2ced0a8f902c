-- ===== src/FixedHeader.antt =====
-- Classes `FixedHeader` and `FHBuilder`, src/mqtt_fixed_header.cpp, and `Broker::ReadFixedHeader`,
-- src/broker.cpp.
pub mod Types
pub mod Builder
pub mod Fields
pub mod Wire
use mqtt_broker.Common.{
  ℕ, ◌+◌, ◌/◌, ◌%◌, ◌^◌, bit_and, List, [], ◌∷◌, length, Bool, not, ltb, leb, ◌==◌, ◌&&◌, ◌||◌,
  Exec, ◌>>=◌, done,
}
use Types.{PackType, code}
use mqtt_broker.Common.Buffer.{Out, memcpy, advance}
use mqtt_broker.VarInt.{
  MqttErr, code_var_int, var_int_size, Received, received, read_failed, read_variable_int,
}

pub record FixedHeader : Type 0 where
  pub first : ℕ
  pub remaining_len : ℕ

unfoldable pub is_dup : FixedHeader → Bool
is_dup h = not (bit_and h.first 0x08 == 0)

unfoldable pub qos : FixedHeader → ℕ
qos h = bit_and h.first 0x06 / 2

unfoldable pub is_retain : FixedHeader → Bool
is_retain h = not (bit_and h.first 0x01 == 0)

unfoldable pub get_type : FixedHeader → ℕ
get_type h = h.first / 16

unfoldable pub get_flags : FixedHeader → ℕ
get_flags h = bit_and h.first 0x0F

unfoldable pub is_identifier : FixedHeader → Bool
is_identifier h =
    (leb (code PackType.puback) (get_type h) && leb (get_type h) (code PackType.unsuback))
    || (get_type h == (code PackType.publish) && ltb 0 (qos h))

unfoldable pub is_properties : FixedHeader → Bool
is_properties h =
    (leb (code PackType.connect) (get_type h) && leb (get_type h) (code PackType.unsuback))
    || get_type h == (code PackType.disconnect)
    || get_type h == (code PackType.auth)

unfoldable pub size : FixedHeader → ℕ
size h = var_int_size h.remaining_len + 1

unfoldable pub serialize : FixedHeader → ℕ → Out → Exec Out
serialize h dst o = do
  o1 ← memcpy dst (h.first ∷ []) o
  o2 ← memcpy (dst + 1) (code_var_int h.remaining_len) o1
  done (advance (1 + length (code_var_int h.remaining_len) % 256) o2)

-- `broker_err`
pub data BrokerErr : Type 0 where
  ok add_error sock_create_err sock_bind_err sock_listen_err : BrokerErr
  read_err mqtt_err connect_err write_err : BrokerErr

-- The header or the error, with the bytes of the socket that are left.
pub data HeaderRead : Type 0 where
  header : FixedHeader → List ℕ → HeaderRead
  header_failed : BrokerErr → List ℕ → HeaderRead

unfoldable pub of_received : ℕ → Received → HeaderRead
of_received first (received len stream) =
    header (record { first = first; remaining_len = len }) stream
of_received first (read_failed MqttErr.read_err stream) = header_failed BrokerErr.read_err stream
of_received first (read_failed _ stream) = header_failed BrokerErr.mqtt_err stream

unfoldable pub read_fixed_header : List ℕ → HeaderRead
read_fixed_header [] = header_failed BrokerErr.read_err []
read_fixed_header (first ∷ stream) = of_received first (read_variable_int stream)
