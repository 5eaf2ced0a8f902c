-- ===== src/Examples/Packets.antt =====
-- The theorems on packets and their handlers at concrete packets.
use mqtt_broker.Common.{
  ℕ, ◌+◌, ◌%◌, ◌^◌, ◌<◌, List, [], ◌∷◌, ◌++◌, length, replicate, ◌≡◌, ◌≢◌, refl, done, fault, abort,
  out_of_fuel, arith,
}
use mqtt_broker.Common.Buffer.{emit}
use mqtt_broker.VarInt.Encoding.{code_var_int_small}
use mqtt_broker.Chain.Wire as ChainWire
use mqtt_broker.FixedHeader.{FixedHeader, qos, header, read_fixed_header}
use mqtt_broker.VariableHeader.{
  ConnectVh, PublishVh, PublishV3Vh, SubscribeVh, UnsubscribeVh, ConnackVh, VariableHeader, connect,
  connack, publish, publish_v3, subscribe, unsubscribe,
}
use mqtt_broker.VariableHeader
use mqtt_broker.VariableHeader.Wire as VhWire
use mqtt_broker.VariableHeader.Store as VhStore
use mqtt_broker.VariableHeader.Size as VhSize
use mqtt_broker.VariableHeader.Serialize as VhSerialize
use mqtt_broker.VariableHeader.Read.{read_connect}
use mqtt_broker.VariableHeader.RoundTrip.{read_connect-encoding, IsReadable}
use mqtt_broker.Packet.{Packet, create_message_packet}
use mqtt_broker.Packet.Mismatch.{Fits, create_message_packet_abort, create_message_packet_overrun}
use mqtt_broker.Handlers.{Subscribed, handle_publish, handle_subscribe, subscribe_loop}
use mqtt_broker.Handlers.Publish.{create_message_packet-read}
use mqtt_broker.Handlers.Subscribe.{filters, added, handle_subscribe-filters}
use mqtt_broker.Handlers.Termination.{subscribe_loop_ends}
use mqtt_broker.Examples.{
  zeros, zeros_size, two_properties, two_properties-IsValid, two_properties-IsReadable,
  two_properties-IsCopied, two_properties-Ascending, publish_7, publish_0, message,
}

publish_7-Fits : Fits publish_7 message
publish_7-Fits = record { valid = (omega arith, two_properties-IsValid); payload = omega arith }

publish_0-Fits : Fits publish_0 message
publish_0-Fits = record { valid = (omega arith, two_properties-IsValid); payload = omega arith }

create_message_packet-read_example :
    (p : Packet) × (fh : FixedHeader) × (body : List ℕ) × (create_message_packet zeros 0x32
        (publish publish_7)
        message
      ≡ done p)
    × (p.size ≡ length p.bytes)
    × (fh.first ≡ 0x32)
    × (read_fixed_header p.bytes ≡ header fh body)
    × (handle_publish fh body ≡ done (publish_7, message))
unfolding qos
create_message_packet-read_example =
    create_message_packet-read zeros zeros_size 0x32 publish_7 message (omega arith) (omega arith)
      two_properties-IsReadable two_properties-IsCopied two_properties-Ascending (omega arith)
      (λ e. absurd (omega arith), λ e. absurd (omega arith))

create_message_packet_abort_example :
    create_message_packet zeros 0x32 (publish publish_0) message ≡ abort
unfolding qos
create_message_packet_abort_example =
    create_message_packet_abort zeros zeros_size 0x32 publish_0 message publish_0-Fits (omega arith)
      refl

create_message_packet_overrun_example :
    create_message_packet zeros 0x38 (publish publish_7) message ≡ fault
unfolding qos
create_message_packet_overrun_example =
    create_message_packet_overrun zeros zeros_size 0x38 publish_7 message publish_7-Fits refl
      (omega arith)

connack_size :
    VariableHeader.size
      (connack (record { conn_acknowledge_flags = 1; reason_code = 0; p_chain = two_properties }))
    < 2 ^ 28
unfolding VhWire.encoding
connack_size = omega (
  arith,
  VhSize.size-encoding
      (connack (record { conn_acknowledge_flags = 1; reason_code = 0; p_chain = two_properties }))
      two_properties-IsValid tt,
  ChainWire.length-encoding_bound two_properties two_properties-IsValid,
)

serialize-emit_header_example :
    VhSerialize.serialize (publish publish_7) 0 (record { bytes = []; offset = 0 })
    ≡ emit 0 (VhWire.encoding (publish publish_7)) (record { bytes = []; offset = 0 })
serialize-emit_header_example =
    VhStore.serialize-emit_header (publish publish_7) 0 (record { bytes = []; offset = 0 })
      (omega arith, two_properties-IsValid)

size-encoding_example :
    VariableHeader.size (publish publish_7) ≡ length (VhWire.encoding (publish publish_7))
size-encoding_example =
    VhSize.size-encoding (publish publish_7) (omega arith, two_properties-IsValid) (omega arith)

read_connect-encoding_example :
    let vh : ConnectVh = record {
      prot_name_len = 4;
      name = 77 ∷ 81 ∷ 84 ∷ 84 ∷ [];
      version = 5;
      conn_flags = 2;
      alive = 600;
    } in
    read_connect (VhWire.encoding (connect vh) ++ (0 ∷ [])) 0 ≡ done (vh, (0 + 10) % 2 ^ 32)
read_connect-encoding_example =
    read_connect-encoding
      (record {
        prot_name_len = 4;
        name = 77 ∷ 81 ∷ 84 ∷ 84 ∷ [];
        version = 5;
        conn_flags = 2;
        alive = 600;
      })
      (0 ∷ []) 0 (omega arith) refl (omega arith)

abbrev subscribe_3 : SubscribeVh
subscribe_3 = record { packet_id = 3; p_chain = [] }

abbrev two_filters : List (List ℕ × ℕ)
two_filters = (97 ∷ [], 1) ∷ (35 ∷ [], 2) ∷ []

no_properties-IsReadable : IsReadable []
no_properties-IsReadable = record {
  valid = record { typed = tt; fits = omega arith };
  short = tt;
  sorted = tt;
}

abbrev subscribe_header : FixedHeader
subscribe_header = record { first = 0x82; remaining_len = 11 }

subscribe_length : 11 ≡ length (VhWire.encoding (subscribe subscribe_3) ++ filters two_filters)
unfolding VhWire.encoding ChainWire.encoding
subscribe_length = rw (code_var_int_small 0 (omega arith)) refl

handle_subscribe-filters_example :
    (s : Subscribed) × (handle_subscribe subscribe_header
        (VhWire.encoding (subscribe subscribe_3) ++ filters two_filters)
        []
      ≡ done (subscribe_3, s))
    × (s.topics ≡ two_filters)
    × (s.reason_codes ≡ replicate (length two_filters) 2)
    × (s.subscriptions ≡ added two_filters [])
handle_subscribe-filters_example =
    handle_subscribe-filters subscribe_header subscribe_3 two_filters [] (omega arith) (omega arith)
      no_properties-IsReadable (omega arith, (omega arith, tt)) subscribe_length (omega arith)

subscribe_loop_ends_example :
    subscribe_loop 8 7
      (0 ∷ 3 ∷ 0 ∷ 1 ∷ 97 ∷ 1 ∷ 0 ∷ [])
      3
      (record { reason_codes = []; topics = []; subscriptions = [] })
    ≢ out_of_fuel
subscribe_loop_ends_example =
    subscribe_loop_ends 8 7 (0 ∷ 3 ∷ 0 ∷ 1 ∷ 97 ∷ 1 ∷ 0 ∷ []) 3
      (record { reason_codes = []; topics = []; subscriptions = [] })
      (
        omega arith,
        (
          omega arith,
          (omega arith, (omega arith, (omega arith, (omega arith, (omega arith, tt))))),
        ),
      )
      (omega arith) (omega arith) (omega arith)
