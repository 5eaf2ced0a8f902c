-- ===== src/Handlers/Publish.antt =====
-- From a published message to the packet, and back through `ReadFixedHeader` and
-- `HandleMqttPublish`.
use mqtt_broker.Common.{
  ℕ, ◌+◌, ◌-◌, ◌%◌, ◌^◌, ◌<◌, ◌≡◌, ◌↔◌, refl, sym, ap, ◌∙◌, List, [], ◌++◌, length, length-append,
  append-nil, drop-append, All, not, ◌==◌, done, arith,
}
use mqtt_broker.Common.Bytes.{read_bytes, read_bytes-append}
use mqtt_broker.Chain.Copy.{IsCopied, copy_lem}
use mqtt_broker.Chain.RoundTrip.{Ascending}
use mqtt_broker.FixedHeader.{FixedHeader, qos, header, read_fixed_header}
use mqtt_broker.FixedHeader.Wire as HeaderWire
use mqtt_broker.VariableHeader.{PublishVh, publish}
use mqtt_broker.VariableHeader.Wire as VhWire
use mqtt_broker.VariableHeader.Size as VhSize
use mqtt_broker.VariableHeader.RoundTrip.{IsReadable}
use mqtt_broker.VariableHeader.Publish.{read_publish-encoding}
use mqtt_broker.Packet.{Packet, header_of, create_message_packet}
use mqtt_broker.Packet.Mismatch.{qos_of, create_message_packet_exact}
use mqtt_broker.Handlers.{read_payload, handle_publish}

read_payload_lem :
    (fh : FixedHeader) (front message : List ℕ)
    → fh.remaining_len ≡ length front + length message
    → length front < 2 ^ 18
    → length message < 2 ^ 16
    → read_payload fh (length front) (front ++ message) ≡ done message
unfolding read_payload
read_payload_lem fh front message h hf hm =
    rw (drop-append front message, len_eq, cut) (rw whole refl)
  where
    len_eq : (fh.remaining_len + 2 ^ 32 - length front) % 2 ^ 32 ≡ length message
    len_eq = omega (arith, h, hf, hm)

    cut : length message % 2 ^ 16 ≡ length message
    cut = omega (arith, hm)

    whole : read_bytes (length message) message ≡ done message
    whole =
        ap (read_bytes (length message)) (sym (append-nil message)) ∙ read_bytes-append message []

-- `HandleMqttPublish` reads back the topic, the packet identifier, the properties and the message
-- of a PUBLISH. The properties must be readable, without binary values, and the message below
-- 65536 bytes.
pub handle_publish-encoding :
    (fh : FixedHeader) (vh : PublishVh) (message : List ℕ)
    → length vh.topic_name < 2 ^ 16
    → vh.packet_id < 2 ^ 16
    → IsReadable vh.p_chain
    → All IsCopied vh.p_chain
    → Ascending 1 vh.p_chain
    → length message < 2 ^ 16
    → (qos fh ≡ 0) ↔ (vh.packet_id ≡ 0)
    → fh.remaining_len ≡ length (VhWire.encoding (publish vh) ++ message)
    → handle_publish fh (VhWire.encoding (publish vh) ++ message) ≡ done (vh, message)
unfolding handle_publish
handle_publish-encoding fh vh message ht hi r c a hm hq hl =
    rw
      (
        read_publish-encoding vh message (not (qos fh == 0)) ht hi r present,
        copy_lem vh.p_chain c a,
        payload,
      )
      refl
  where
    present : not (qos fh == 0) ≡ not (vh.packet_id == 0)
    present = ground (arith, hq.0, hq.1)

    payload :
        read_payload fh
          (length (VhWire.encoding (publish vh)))
          (VhWire.encoding (publish vh) ++ message)
        ≡ done message
    payload =
        read_payload_lem fh (VhWire.encoding (publish vh)) message
          (omega (arith, hl, length-append (VhWire.encoding (publish vh)) message))
          (VhSize.publish_bounds vh (ht, r.valid)).1 hm

module _ (fresh : ℕ → List ℕ) (fresh_size : (n : ℕ) → length (fresh n) ≡ n) where
  -- What a subscriber that reads its socket with the broker's own code sees of a published message: a
  -- block of its exact size is made, its first byte is the one that was given, and `ReadFixedHeader`
  -- and then `HandleMqttPublish` give the topic, the packet identifier, the properties and the
  -- message back. There must be a packet identifier exactly when the quality of service is not 0,
  -- and the properties must be readable, without binary values; the message is below 65536 bytes.
  pub create_message_packet-read :
      (pack_type : ℕ) (vh : PublishVh) (message : List ℕ)
      → length vh.topic_name < 2 ^ 16
      → vh.packet_id < 2 ^ 16
      → IsReadable vh.p_chain
      → All IsCopied vh.p_chain
      → Ascending 1 vh.p_chain
      → length message < 2 ^ 16
      → (qos_of pack_type ≡ 0) ↔ (vh.packet_id ≡ 0)
      → (p : Packet) × (fh : FixedHeader) × (body : List ℕ) × (create_message_packet fresh pack_type
            (publish vh)
            message
          ≡ done p)
        × (p.size ≡ length p.bytes)
        × (fh.first ≡ pack_type)
        × (read_fixed_header p.bytes ≡ header fh body)
        × (handle_publish fh body ≡ done (vh, message))
  unfolding qos
  create_message_packet-read pack_type vh message ht hi r c a hm hq = (
    record {
      bytes = HeaderWire.encoding fh ++ body;
      size = length (HeaderWire.encoding fh ++ body);
    },
    fh,
    body,
    create_message_packet_exact fresh fresh_size pack_type vh message
        (record { valid = (ht, r.valid); payload = hm }) hq,
    refl,
    refl,
    HeaderWire.read_fixed_header-encoding fh body short,
    handle_publish-encoding fh vh message ht hi r c a hm hq refl,
  )
    where
      body : List ℕ
      body = VhWire.encoding (publish vh) ++ message

      fh : FixedHeader
      fh = header_of pack_type (length body)

      short : length body < 2 ^ 28
      short = omega (
        arith,
        length-append (VhWire.encoding (publish vh)) message,
        VhSize.publish_bounds vh (ht, r.valid),
        hm,
      )
