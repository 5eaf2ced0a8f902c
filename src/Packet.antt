-- ===== src/Packet.antt =====
-- The three functions `CreateMqttPacket`, src/mqtt_protocol.cpp.
pub mod Exact
pub mod Mismatch
use mqtt_broker.Common.{ℕ, ◌+◌, ◌-◌, ◌%◌, ◌^◌, List, ◌==◌, if◌then◌else◌, Exec, done, abort, ◌>>=◌}
use mqtt_broker.Common.Buffer.{Out}
use mqtt_broker.Entity.{string_size, serialize_without_len}
use mqtt_broker.FixedHeader.{FixedHeader}
use mqtt_broker.FixedHeader
use mqtt_broker.VariableHeader.{VariableHeader}
use mqtt_broker.VariableHeader
use mqtt_broker.VariableHeader.Serialize as VhSerialize

-- A `shared_ptr<uint8_t>` and the out-parameter `size`.
pub record Packet : Type 0 where
  pub bytes : List ℕ
  pub size : ℕ

-- `FixedHeader fh(pack_type); fh.remaining_len = len`
abbrev pub header_of : ℕ → ℕ → FixedHeader
header_of pack_type len = record { first = pack_type; remaining_len = len }

-- `assert(size == offset)`
unfoldable pub checked : ℕ → Out → Exec Packet
checked size o = if size == o.offset then done (record { bytes = o.bytes; size = size }) else abort

-- `size = vh.GetSize() + message->Size()-2; if(fh.QoS() == 0) size -= 2;`
abbrev pub message_len : ℕ → VariableHeader → List ℕ → ℕ
message_len pack_type vh message =
    let size = (VariableHeader.size vh + string_size message + 2 ^ 32 - 2) % 2 ^ 32 in
    if FixedHeader.qos (header_of pack_type 0) == 0 then (size + 2 ^ 32 - 2) % 2 ^ 32 else size

-- `fresh n` is what `new uint8_t[n]` returns: a block of `n` bytes of unknown contents.
module _ (fresh : ℕ → List ℕ) where
  unfoldable pub create_mqtt_packet : ℕ → VariableHeader → Exec Packet
  create_mqtt_packet pack_type vh = do
    let len = VariableHeader.size vh
    let fh = header_of pack_type len
    let size = (len + FixedHeader.size fh) % 2 ^ 32
    o1 ← FixedHeader.serialize fh 0 (record { bytes = fresh size; offset = 0 })
    o2 ← VhSerialize.serialize vh o1.offset o1
    checked size o2

  -- With neither a variable header nor a payload; this one makes no `assert`.
  unfoldable pub create_empty_packet : ℕ → Exec Packet
  create_empty_packet pack_type = do
    let fh = header_of pack_type 0
    let size = FixedHeader.size fh
    o1 ← FixedHeader.serialize fh 0 (record { bytes = fresh size; offset = 0 })
    done (record { bytes = o1.bytes; size = size })

  unfoldable pub create_message_packet : ℕ → VariableHeader → List ℕ → Exec Packet
  create_message_packet pack_type vh message = do
    let len = message_len pack_type vh message
    let fh = header_of pack_type len
    let size = (len + FixedHeader.size fh) % 2 ^ 32
    o1 ← FixedHeader.serialize fh 0 (record { bytes = fresh size; offset = 0 })
    o2 ← VhSerialize.serialize vh o1.offset o1
    o3 ← serialize_without_len message o2.offset o2
    checked size o3
