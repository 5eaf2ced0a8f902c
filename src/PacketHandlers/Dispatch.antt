-- ===== src/PacketHandlers/Dispatch.antt =====
-- `MqttPacketHandler::HandlePacket`, src/mqtt_packet_handler.cpp, over the handlers that the
-- constructor of `Broker`, src/broker.cpp, adds.
use mqtt_broker.Common.{ℕ, List, [], ◌∷◌, ◌==◌, if◌then◌else◌, Exec, done}
use mqtt_broker.VarInt.{MqttErr}
use mqtt_broker.FixedHeader.{FixedHeader, get_type}
use mqtt_broker.FixedHeader.Types.{PackType, code}
use mqtt_broker.Broker.{Broker}
use mqtt_broker.PacketHandlers.{
  handle_publish_packet, handle_subscribe_packet, handle_puback_packet, handle_disconnect_packet,
  handle_ping_packet, handle_unsubscribe_packet, handle_pubrel_packet, handle_pubrec_packet,
  handle_pubcomp_packet,
}
use mqtt_broker.PacketHandlers.Accept.{handle_connect_packet}

-- `IMqttPacketHandler`
pub record PacketHandler : Type 0 where
  pub type : PackType
  pub handle : FixedHeader → List ℕ → ℕ → Broker → Exec (MqttErr × Broker)

-- The loop of `HandlePacket`.
unfoldable pub dispatch :
    List PacketHandler → FixedHeader → List ℕ → ℕ → Broker → Exec (MqttErr × Broker)
dispatch [] fh buf fd b = done (MqttErr.handle_error, b)
dispatch (h ∷ handlers) fh buf fd b =
    if get_type fh == code h.type then h.handle fh buf fd b else dispatch handlers fh buf fd b

module _ (fresh : ℕ → List ℕ) (random_id : List ℕ) where
  -- `AddHandler(…)`, ten times.
  abbrev pub handlers : List PacketHandler
  handlers =
      record { type = PackType.publish; handle = handle_publish_packet fresh }
      ∷ record { type = PackType.puback; handle = handle_puback_packet fresh }
      ∷ record { type = PackType.pubrel; handle = handle_pubrel_packet fresh }
      ∷ record { type = PackType.pubrec; handle = handle_pubrec_packet fresh }
      ∷ record { type = PackType.pubcomp; handle = handle_pubcomp_packet fresh }
      ∷ record { type = PackType.pingreq; handle = handle_ping_packet fresh }
      ∷ record { type = PackType.subscribe; handle = handle_subscribe_packet fresh }
      ∷ record { type = PackType.disconnect; handle = handle_disconnect_packet fresh }
      ∷ record { type = PackType.unsubscribe; handle = handle_unsubscribe_packet fresh }
      ∷ record { type = PackType.connect; handle = handle_connect_packet fresh random_id }
      ∷ []

  unfoldable pub handle_packet : FixedHeader → List ℕ → ℕ → Broker → Exec (MqttErr × Broker)
  handle_packet fh buf fd b = dispatch handlers fh buf fd b
