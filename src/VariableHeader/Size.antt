-- ===== src/VariableHeader/Size.antt =====
-- `GetSize` against the wire format.
use mqtt_broker.Common.{
  ℕ, ◌+◌, ◌^◌, ◌<◌, ◌≤◌, ◌≡◌, ◌≢◌, refl, sym, List, ◌∷◌, ◌++◌, length, length-append, arith,
}
use mqtt_broker.Common.Bytes.{be16}
use mqtt_broker.Entity.{string_size}
use mqtt_broker.Property.{Property}
use mqtt_broker.Chain.Wire as ChainWire
use mqtt_broker.VariableHeader.{
  PublishVh, VariableHeader, connect, connack, disconnect, publish, subscribe, suback, puback,
  unsubscribe, unsuback, typical_v3, publish_v3, size, chain_size,
}
use mqtt_broker.VariableHeader.Wire.{id_encoding, encoding, IsValid}

-- The headers for which `GetSize` counts what `Serialize` stores: an identifier of zero is not
-- stored but counted, and `SubscribeVH` does not count the length of its properties.
abbrev pub IsSized : VariableHeader → Type 0
IsSized (publish vh) = vh.packet_id ≢ 0
IsSized (publish_v3 vh) = vh.packet_id ≢ 0
IsSized (subscribe vh) = ⊥
IsSized _ = Unit {0}

chain_size-length :
    (ps : List Property)
    → ChainWire.IsValid ps
    → (chain_size ps ≡ length (ChainWire.encoding ps)) × (length (ChainWire.encoding ps) < 2 ^ 17)
chain_size-length ps v =
    (sym (ChainWire.length-encoding ps v), (ChainWire.length-encoding_bound ps v).1)

id_encoding-ne_zero : (packet_id : ℕ) → packet_id ≢ 0 → length (id_encoding packet_id) ≡ 2
id_encoding-ne_zero packet_id h = ground arith

-- `PublishVH::GetSize` counts two bytes for the packet identifier, stored or not.
pub publish_size :
    (vh : PublishVh)
    → IsValid (publish vh)
    → size (publish vh) + length (id_encoding vh.packet_id) ≡ length (encoding (publish vh)) + 2
unfolding size encoding string_size
publish_size vh (h, v) = omega (
  arith,
  chain_size-length vh.p_chain v,
  length-append vh.topic_name (id_encoding vh.packet_id ++ ChainWire.encoding vh.p_chain),
  length-append (id_encoding vh.packet_id) (ChainWire.encoding vh.p_chain),
)

-- `GetSize` is the number of bytes that `Serialize` stores, for a valid header that is no SUBSCRIBE
-- and, where it is a PUBLISH, has a packet identifier other than 0.
pub size-encoding : (vh : VariableHeader) → IsValid vh → IsSized vh → size vh ≡ length (encoding vh)
unfolding size encoding string_size
size-encoding (connect vh) v s =
    omega (arith, v, length-append vh.name (vh.version ∷ vh.conn_flags ∷ be16 vh.alive))
size-encoding (connack vh) v s = omega (arith, chain_size-length vh.p_chain v)
size-encoding (disconnect vh) v s = omega (arith, chain_size-length vh.p_chain v)
size-encoding (publish vh) v s =
    omega (arith, publish_size vh v, id_encoding-ne_zero vh.packet_id s)
size-encoding (subscribe vh) v s = absurd s
size-encoding (suback vh) (h, v) s = omega (
  arith,
  chain_size-length vh.p_chain v,
  length-append (ChainWire.encoding vh.p_chain) vh.reason_codes,
)
size-encoding (puback vh) v s = omega (arith, chain_size-length vh.p_chain v)
size-encoding (unsubscribe vh) v s = omega (arith, chain_size-length vh.p_chain v)
size-encoding (unsuback vh) (h, v) s = omega (
  arith,
  chain_size-length vh.p_chain v,
  length-append (ChainWire.encoding vh.p_chain) vh.reason_codes,
)
size-encoding (typical_v3 vh) v s = refl
size-encoding (publish_v3 vh) v s = omega (
  arith,
  v,
  id_encoding-ne_zero vh.packet_id s,
  length-append vh.topic_name (id_encoding vh.packet_id),
)

pub publish_bounds :
    (vh : PublishVh)
    → IsValid (publish vh)
    → (3 + length (id_encoding vh.packet_id) ≤ length (encoding (publish vh)))
      × (length (encoding (publish vh)) < 2 ^ 18)
unfolding encoding
publish_bounds vh (h, v) = ground (
  arith,
  ChainWire.length-encoding_bound vh.p_chain v,
  length-append vh.topic_name (id_encoding vh.packet_id ++ ChainWire.encoding vh.p_chain),
  length-append (id_encoding vh.packet_id) (ChainWire.encoding vh.p_chain),
)
