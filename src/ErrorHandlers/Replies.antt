-- ===== src/ErrorHandlers/Replies.antt =====
-- What a client gets when its packet is refused, src/mqtt_error_handler.cpp.
use mqtt_broker.Common.{ℕ, List, [], ◌∷◌}
use mqtt_broker.VarInt.{MqttErr}
use mqtt_broker.FixedHeader.Builder
use mqtt_broker.Chain.Wire as ChainWire
use mqtt_broker.VariableHeader.Wire as VhWire
use mqtt_broker.VariableHeader.Size as VhSize
use mqtt_broker.VariableHeader

-- A CONNACK with a reason code of its own for a wrong version and for an identifier in use; and for
-- the other errors nothing.
abbrev pub reply : MqttErr → List ℕ
reply MqttErr.protocol_version_err = 0x20 ∷ 3 ∷ 0 ∷ 0x84 ∷ 0 ∷ []
reply MqttErr.duplicate_client_id = 0x20 ∷ 3 ∷ 0 ∷ 0x85 ∷ 0 ∷ []
reply err = []
