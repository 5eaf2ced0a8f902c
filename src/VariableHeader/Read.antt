-- ===== src/VariableHeader/Read.antt =====
-- `ReadFromBuf` and the constructors that take a buffer, src/mqtt_variable_header.cpp. `buf` is the
-- list of the bytes from the pointer on; a result is the header and the new `offset`.
use mqtt_broker.Common.{ℕ, ◌+◌, ◌%◌, ◌^◌, List, [], drop, Bool, if◌then◌else◌, Exec, done, ◌>>=◌}
use mqtt_broker.Common.Bytes.{convert_to_host_2_bytes, byte_at, read_bytes}
use mqtt_broker.Entity.{string_size}
use mqtt_broker.Property.{Property}
use mqtt_broker.Chain.{create}
use mqtt_broker.VariableHeader.{
  ConnectVh, ConnackVh, DisconnectVh, PublishVh, SubscribeVh, PubackVh, UnsubscribeVh, TypicalV3Vh,
  PublishV3Vh, connect, size,
}

-- `offset += GetSize()`
unfoldable pub read_connect : List ℕ → ℕ → Exec (ConnectVh × ℕ)
read_connect buf offset = do
  prot_name_len ← convert_to_host_2_bytes buf
  name ← read_bytes 4 (drop 2 buf)
  version ← byte_at (drop 6 buf)
  conn_flags ← byte_at (drop 7 buf)
  alive ← convert_to_host_2_bytes (drop 8 buf)
  let vh : ConnectVh = record {
    prot_name_len = prot_name_len;
    name = name;
    version = version;
    conn_flags = conn_flags;
    alive = alive;
  }
  done (vh, (offset + size (connect vh)) % 2 ^ 32)

-- `old` is the chain of the object; the status of `Create` is not looked at.
unfoldable pub read_connack : List Property → List ℕ → ℕ → Exec (ConnackVh × ℕ)
read_connack old buf offset = do
  flags ← byte_at buf
  reason_code ← byte_at (drop 1 buf)
  res ← create old (drop 2 buf)
  done (
    record { conn_acknowledge_flags = flags; reason_code = reason_code; p_chain = res.chain },
    (offset + 2 + res.size) % 2 ^ 32,
  )

unfoldable pub read_disconnect : List Property → List ℕ → ℕ → Exec (DisconnectVh × ℕ)
read_disconnect old buf offset = do
  reason_code ← byte_at buf
  res ← create old (drop 1 buf)
  done (record { reason_code = reason_code; p_chain = res.chain }, (offset + 1 + res.size) % 2 ^ 32)

-- `if (is_packet_id_present){ packet_id = …; offset += sizeof(packet_id); }`
unfoldable pub read_packet_id : Bool → List ℕ → ℕ → Exec (ℕ × ℕ)
read_packet_id is_packet_id_present buf offset =
    if is_packet_id_present
    then (convert_to_host_2_bytes (drop offset buf) >>= λ packet_id.
        done (packet_id, (offset + 2) % 2 ^ 32))
    else done (0, offset)

-- The constructor `PublishVH(bool, const shared_ptr<uint8_t> &, uint32_t &)`.
unfoldable pub read_publish : Bool → List ℕ → Exec (PublishVh × ℕ)
read_publish is_packet_id_present buf = do
  len ← convert_to_host_2_bytes buf
  topic_name ← read_bytes len (drop 2 buf)
  (packet_id, offset) ← read_packet_id is_packet_id_present buf (string_size topic_name)
  res ← create [] (drop offset buf)
  done (
    record { topic_name = topic_name; packet_id = packet_id; p_chain = res.chain },
    (offset + res.size) % 2 ^ 32,
  )

-- The constructor of `SubscribeVH` from a buffer; `SubscribeVH::ReadFromBuf` does the same to a
-- header whose chain it has cleared.
unfoldable pub read_subscribe : List ℕ → ℕ → Exec (SubscribeVh × ℕ)
read_subscribe buf offset = do
  packet_id ← convert_to_host_2_bytes buf
  res ← create [] (drop 2 buf)
  done (record { packet_id = packet_id; p_chain = res.chain }, (offset + 2 + res.size) % 2 ^ 32)

-- It reads the packet identifier only; the reason code of the object stays, and the chain is
-- cleared.
unfoldable pub read_puback : PubackVh → List ℕ → ℕ → Exec (PubackVh × ℕ)
read_puback vh buf offset = do
  packet_id ← convert_to_host_2_bytes buf
  done (
    record { packet_id = packet_id; reason_code = vh.reason_code; p_chain = [] },
    (offset + 2) % 2 ^ 32,
  )

unfoldable pub read_unsubscribe : List ℕ → ℕ → Exec (UnsubscribeVh × ℕ)
read_unsubscribe buf offset = do
  packet_id ← convert_to_host_2_bytes buf
  res ← create [] (drop 2 buf)
  done (record { packet_id = packet_id; p_chain = res.chain }, (offset + 2 + res.size) % 2 ^ 32)

unfoldable pub read_typical_v3 : List ℕ → ℕ → Exec (TypicalV3Vh × ℕ)
read_typical_v3 buf offset = do
  packet_id ← convert_to_host_2_bytes buf
  done (record { packet_id = packet_id }, (offset + 2) % 2 ^ 32)

unfoldable pub read_publish_v3 : Bool → List ℕ → Exec (PublishV3Vh × ℕ)
read_publish_v3 is_packet_id_present buf = do
  len ← convert_to_host_2_bytes buf
  topic_name ← read_bytes len (drop 2 buf)
  (packet_id, offset) ← read_packet_id is_packet_id_present buf (string_size topic_name)
  done (record { topic_name = topic_name; packet_id = packet_id }, offset)
