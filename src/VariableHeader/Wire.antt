-- ===== src/VariableHeader/Wire.antt =====
-- The wire format of each variable header.
use mqtt_broker.Common.{ℕ, ◌^◌, ◌<◌, ◌≡◌, List, [], ◌∷◌, ◌++◌, length, ◌==◌, if◌then◌else◌}
use mqtt_broker.Common.Bytes.{be16}
use mqtt_broker.Entity.Wire.{string_encoding}
use mqtt_broker.Chain.Wire as ChainWire
use mqtt_broker.VariableHeader.{
  VariableHeader, connect, connack, disconnect, publish, subscribe, suback, puback, unsubscribe,
  unsuback, typical_v3, publish_v3,
}

-- A packet identifier of zero is left out.
abbrev pub id_encoding : ℕ → List ℕ
id_encoding packet_id = if packet_id == 0 then [] else be16 packet_id

unfoldable pub encoding : VariableHeader → List ℕ
encoding (connect vh) =
    be16 vh.prot_name_len ++ (vh.name ++ (vh.version ∷ vh.conn_flags ∷ be16 vh.alive))
encoding (connack vh) = vh.conn_acknowledge_flags ∷ vh.reason_code ∷ ChainWire.encoding vh.p_chain
encoding (disconnect vh) = vh.reason_code ∷ ChainWire.encoding vh.p_chain
encoding (publish vh) =
    string_encoding vh.topic_name ++ (id_encoding vh.packet_id ++ ChainWire.encoding vh.p_chain)
encoding (subscribe vh) = id_encoding vh.packet_id ++ ChainWire.encoding vh.p_chain
encoding (suback vh) = be16 vh.packet_id ++ (ChainWire.encoding vh.p_chain ++ vh.reason_codes)
encoding (puback vh) = be16 vh.packet_id ++ (vh.reason_code ∷ ChainWire.encoding vh.p_chain)
encoding (unsubscribe vh) = be16 vh.packet_id ++ ChainWire.encoding vh.p_chain
encoding (unsuback vh) = be16 vh.packet_id ++ (ChainWire.encoding vh.p_chain ++ vh.reason_codes)
encoding (typical_v3 vh) = be16 vh.packet_id
encoding (publish_v3 vh) = string_encoding vh.topic_name ++ id_encoding vh.packet_id

-- The properties fit their chain, the texts their length fields, and the codes a packet.
abbrev pub IsValid : VariableHeader → Type 0
IsValid (connect vh) = length vh.name ≡ 4
IsValid (connack vh) = ChainWire.IsValid vh.p_chain
IsValid (disconnect vh) = ChainWire.IsValid vh.p_chain
IsValid (publish vh) = (length vh.topic_name < 2 ^ 16) × ChainWire.IsValid vh.p_chain
IsValid (subscribe vh) = ChainWire.IsValid vh.p_chain
IsValid (suback vh) = (length vh.reason_codes < 2 ^ 28) × ChainWire.IsValid vh.p_chain
IsValid (puback vh) = ChainWire.IsValid vh.p_chain
IsValid (unsubscribe vh) = ChainWire.IsValid vh.p_chain
IsValid (unsuback vh) = (length vh.reason_codes < 2 ^ 28) × ChainWire.IsValid vh.p_chain
IsValid (typical_v3 vh) = Unit {0}
IsValid (publish_v3 vh) = length vh.topic_name < 2 ^ 16
