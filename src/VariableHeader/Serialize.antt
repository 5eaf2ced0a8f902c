-- ===== src/VariableHeader/Serialize.antt =====
-- `Serialize` of each variable header, src/mqtt_variable_header.cpp.
use mqtt_broker.Common.{ℕ, ◌+◌, List, [], ◌∷◌, ◌==◌, if◌then◌else◌, Exec, done, ◌>>=◌}
use mqtt_broker.Common.Bytes.{be16}
use mqtt_broker.Common.Buffer.{Out, memcpy, advance, with_local}
use mqtt_broker.Entity.{string_size, serialize_string}
use mqtt_broker.Chain
use mqtt_broker.VariableHeader.{
  ConnectVh, ConnackVh, DisconnectVh, PublishVh, SubscribeVh, SubackVh, PubackVh, UnsubscribeVh,
  UnsubackVh, TypicalV3Vh, PublishV3Vh, VariableHeader, connect, connack, disconnect, publish,
  subscribe, suback, puback, unsubscribe, unsuback, typical_v3, publish_v3,
}

unfoldable pub serialize_connect : ConnectVh → ℕ → Out → Exec Out
serialize_connect vh dst = with_local λ o. do
  o1 ← memcpy dst (be16 vh.prot_name_len) o
  o2 ← memcpy (dst + 2) vh.name (advance 2 o1)
  o3 ← memcpy (dst + 6) (vh.version ∷ []) (advance 4 o2)
  o4 ← memcpy (dst + 7) (vh.conn_flags ∷ []) (advance 1 o3)
  o5 ← memcpy (dst + 8) (be16 vh.alive) (advance 1 o4)
  done (advance 2 o5)

unfoldable pub serialize_connack : ConnackVh → ℕ → Out → Exec Out
serialize_connack vh dst o = do
  o1 ← memcpy dst (vh.conn_acknowledge_flags ∷ []) o
  o2 ← memcpy (dst + 1) (vh.reason_code ∷ []) o1
  Chain.serialize vh.p_chain (dst + 2) (advance 2 o2)

unfoldable pub serialize_disconnect : DisconnectVh → ℕ → Out → Exec Out
serialize_disconnect vh dst = with_local λ o. do
  o1 ← memcpy dst (vh.reason_code ∷ []) o
  Chain.serialize vh.p_chain (dst + 1) (advance 1 o1)

-- `if (packet_id != 0){ memcpy(dst, …); offset += sizeof(tmp); … }` and then `rest` behind it.
unfoldable pub serialize_packet_id : ℕ → ℕ → (ℕ → Out → Exec Out) → Out → Exec Out
serialize_packet_id packet_id dst rest o =
    if packet_id == 0
    then rest dst o
    else (memcpy dst (be16 packet_id) o >>= λ o'. rest (dst + 2) (advance 2 o'))

-- `local_offset` is `topic_name.Size()` once the topic name is stored.
unfoldable pub serialize_publish : PublishVh → ℕ → Out → Exec Out
serialize_publish vh dst o = do
  o1 ← with_local (serialize_string vh.topic_name dst) o
  serialize_packet_id vh.packet_id (dst + string_size vh.topic_name)
      (λ dst' o2. Chain.serialize vh.p_chain dst' o2) o1

unfoldable pub serialize_subscribe : SubscribeVh → ℕ → Out → Exec Out
serialize_subscribe vh dst o =
    serialize_packet_id vh.packet_id dst (λ dst' o2. Chain.serialize vh.p_chain dst' o2) o

-- `memcpy(dst_buf + local_offset, &reason_codes[i], 1); local_offset++`, where the `offset` of the
-- model is `local_offset`.
unfoldable pub codes_loop : List ℕ → ℕ → Out → Exec Out
codes_loop [] dst o = done o
codes_loop (code ∷ codes) dst o = do
  o' ← memcpy (dst + o.offset) (code ∷ []) o
  codes_loop codes dst (advance 1 o')

unfoldable pub serialize_suback : SubackVh → ℕ → Out → Exec Out
serialize_suback vh dst = with_local λ o. do
  o1 ← memcpy dst (be16 vh.packet_id) o
  o2 ← Chain.serialize vh.p_chain (dst + 2) (advance 2 o1)
  codes_loop vh.reason_codes dst o2

unfoldable pub serialize_puback : PubackVh → ℕ → Out → Exec Out
serialize_puback vh dst = with_local λ o. do
  o1 ← memcpy dst (be16 vh.packet_id) o
  o2 ← memcpy (dst + 2) (vh.reason_code ∷ []) (advance 2 o1)
  Chain.serialize vh.p_chain (dst + 3) (advance 1 o2)

unfoldable pub serialize_unsubscribe : UnsubscribeVh → ℕ → Out → Exec Out
serialize_unsubscribe vh dst = with_local λ o. do
  o1 ← memcpy dst (be16 vh.packet_id) o
  Chain.serialize vh.p_chain (dst + 2) (advance 2 o1)

unfoldable pub serialize_unsuback : UnsubackVh → ℕ → Out → Exec Out
serialize_unsuback vh dst = with_local λ o. do
  o1 ← memcpy dst (be16 vh.packet_id) o
  o2 ← Chain.serialize vh.p_chain (dst + 2) (advance 2 o1)
  codes_loop vh.reason_codes dst o2

unfoldable pub serialize_typical_v3 : TypicalV3Vh → ℕ → Out → Exec Out
serialize_typical_v3 vh dst =
    with_local λ o. do o1 ← memcpy dst (be16 vh.packet_id) o; done (advance 2 o1)

unfoldable pub serialize_publish_v3 : PublishV3Vh → ℕ → Out → Exec Out
serialize_publish_v3 vh dst o = do
  o1 ← with_local (serialize_string vh.topic_name dst) o
  serialize_packet_id vh.packet_id (dst + string_size vh.topic_name) (λ dst' o2. done o2) o1

-- `VariableHeader::Serialize`
unfoldable pub serialize : VariableHeader → ℕ → Out → Exec Out
serialize (connect vh) dst o = serialize_connect vh dst o
serialize (connack vh) dst o = serialize_connack vh dst o
serialize (disconnect vh) dst o = serialize_disconnect vh dst o
serialize (publish vh) dst o = serialize_publish vh dst o
serialize (subscribe vh) dst o = serialize_subscribe vh dst o
serialize (suback vh) dst o = serialize_suback vh dst o
serialize (puback vh) dst o = serialize_puback vh dst o
serialize (unsubscribe vh) dst o = serialize_unsubscribe vh dst o
serialize (unsuback vh) dst o = serialize_unsuback vh dst o
serialize (typical_v3 vh) dst o = serialize_typical_v3 vh dst o
serialize (publish_v3 vh) dst o = serialize_publish_v3 vh dst o
