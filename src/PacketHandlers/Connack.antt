-- ===== src/PacketHandlers/Connack.antt =====
-- The answer to a CONNECT that is accepted, src/mqtt_packet_handler.cpp, on the wire.
use mqtt_broker.Common.{ℕ, List, [], ◌∷◌, ◌++◌, length, if◌then◌else◌}
use mqtt_broker.VarInt.{code_var_int}
use mqtt_broker.Entity.Wire as EntityWire
use mqtt_broker.Property.Wire as PropertyWire
use mqtt_broker.Chain.Wire as ChainWire
use mqtt_broker.FixedHeader.{FixedHeader}
use mqtt_broker.FixedHeader.Builder
use mqtt_broker.VariableHeader
use mqtt_broker.VariableHeader.Wire as VhWire
use mqtt_broker.VariableHeader.Size as VhSize
use mqtt_broker.Client.{Client, is_clean_flag}
use mqtt_broker.Broker.{Broker}

-- An identifier that the broker has chosen is told to the client; packets may have 65535 bytes, and
-- there are retained messages and wild cards but no shared subscriptions.
abbrev pub connack_properties : Client → List ℕ
connack_properties c =
    (if c.id_was_random_generated then 0x12 ∷ EntityWire.string_encoding c.client_id else [])
    ++ (0x25 ∷ 1 ∷ 0x27 ∷ 0 ∷ 0 ∷ 0xFF ∷ 0xFF ∷ 0x28 ∷ 1 ∷ 0x2A ∷ 0 ∷ [])

abbrev pub connack_body : Client → List ℕ
connack_body c =
    (if is_clean_flag c then 0 else 1)
    ∷ 0
    ∷ (code_var_int (length (connack_properties c)) ++ connack_properties c)

abbrev pub connack_bytes : Client → List ℕ
connack_bytes c = 0x20 ∷ (code_var_int (length (connack_body c)) ++ connack_body c)
