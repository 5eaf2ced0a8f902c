-- ===== src/VariableHeader/Publish.antt =====
-- The buffer constructors of `PublishVH` and `PublishV3VH` on what `Serialize` stored.
use mqtt_broker.Common.{
  ℕ, ◌+◌, ◌%◌, ◌^◌, ◌<◌, ◌≡◌, refl, sym, ap, ◌∙◌, List, [], ◌++◌, length, length-append,
  append_assoc, drop, drop-append, drop-append_eq, drop-drop, ◌≤◌, Bool, not, ◌==◌, Bool-cases, inl,
  inr, done, arith,
}
use mqtt_broker.Common.Bytes.{
  be16, convert_to_host_2_bytes, convert_to_host_2_bytes-be16, read_bytes, read_bytes-append,
}
use mqtt_broker.VarInt.{MqttErr}
use mqtt_broker.Entity.{string_size}
use mqtt_broker.Entity.Wire.{string_encoding}
use mqtt_broker.Chain.{Created, create}
use mqtt_broker.Chain.Wire as ChainWire
use mqtt_broker.VariableHeader.{PublishVh, PublishV3Vh, publish, publish_v3}
use mqtt_broker.VariableHeader.Wire.{id_encoding, encoding}
use mqtt_broker.VariableHeader.Read.{read_packet_id, read_publish, read_publish_v3}
use mqtt_broker.VariableHeader.RoundTrip.{IsReadable, create_fresh}

-- The optional packet identifier.
read_packet_id-encoding :
    (packet_id : ℕ) (front rest : List ℕ) (present : Bool)
    → packet_id < 2 ^ 16
    → present ≡ not (packet_id == 0)
    → length front < 2 ^ 17
    → read_packet_id present (front ++ (id_encoding packet_id ++ rest)) (length front)
      ≡ done (packet_id, length front + length (id_encoding packet_id))
unfolding read_packet_id
read_packet_id-encoding packet_id front rest present h hp lt = elim (Bool-cases (packet_id == 0)) [
  | inl e ↦ rw (hp, e) (ground arith)
  | inr e ↦
      rw
        (
          hp,
          e,
          drop-append_eq (length front) front (be16 packet_id ++ rest) refl,
          convert_to_host_2_bytes-be16 packet_id rest (omega arith),
        )
        (ground arith)
]

-- The topic name in front of the rest of a header.
topic_read :
    (topic ys : List ℕ)
    → length topic < 2 ^ 16
    → (convert_to_host_2_bytes (string_encoding topic ++ ys) ≡ done (length topic))
      × (read_bytes (length topic) (drop 2 (string_encoding topic ++ ys)) ≡ done topic)
      × (string_size topic ≡ length (string_encoding topic))
unfolding string_size
topic_read topic ys h = (
  rw (len_eq) (convert_to_host_2_bytes-be16 (length topic) (topic ++ ys) (omega arith)),
  read_bytes-append topic ys,
  omega arith,
)
  where
    len_eq : length topic % 65536 ≡ length topic
    len_eq = omega arith

-- What the constructor returns, when each of its reads returns.
publish_steps :
    (present : Bool) (buf topic : List ℕ) (n packet_id offset : ℕ) (res : Created)
    → convert_to_host_2_bytes buf ≡ done n
    → read_bytes n (drop 2 buf) ≡ done topic
    → read_packet_id present buf (string_size topic) ≡ done (packet_id, offset)
    → create [] (drop offset buf) ≡ done res
    → read_publish present buf
      ≡ done (
        record { topic_name = topic; packet_id = packet_id; p_chain = res.chain },
        (offset + res.size) % 2 ^ 32,
      )
unfolding read_publish
publish_steps present buf topic n packet_id offset res h1 h2 h3 h4 = rw (h1, h2, h3, h4)

-- The constructor of `PublishVH` reads back what `Serialize` stored, from a buffer that may go on
-- behind it, and `offset` is the number of bytes that were stored. It must be told that there is a
-- packet identifier exactly when that is not 0, the topic and the identifier fit their two bytes
-- and the properties are readable.
pub read_publish-encoding :
    (vh : PublishVh) (rest : List ℕ) (present : Bool)
    → length vh.topic_name < 2 ^ 16
    → vh.packet_id < 2 ^ 16
    → IsReadable vh.p_chain
    → present ≡ not (vh.packet_id == 0)
    → read_publish present (encoding (publish vh) ++ rest)
      ≡ done (vh, length (encoding (publish vh)))
unfolding encoding
read_publish-encoding vh rest present ht hi r hp =
    ap (read_publish present) buf_eq
    ∙ publish_steps present (topic ++ (id ++ (chain ++ rest))) vh.topic_name (length vh.topic_name)
        vh.packet_id (length topic + length id)
        (record { status = MqttErr.ok; chain = vh.p_chain; size = length chain })
        (topic_read vh.topic_name (id ++ (chain ++ rest)) ht).0
        (topic_read vh.topic_name (id ++ (chain ++ rest)) ht).1
        (rw (topic_read vh.topic_name [] ht).2 (
          read_packet_id-encoding vh.packet_id topic (chain ++ rest) present hi hp
            (omega (arith, ht))))
        (rw at_chain (create_fresh vh.p_chain rest r))
    ∙ ap done (λ i. (vh, sizes i))
  where
    topic : List ℕ
    topic = string_encoding vh.topic_name

    id : List ℕ
    id = id_encoding vh.packet_id

    chain : List ℕ
    chain = ChainWire.encoding vh.p_chain

    buf_eq : (topic ++ (id ++ chain)) ++ rest ≡ topic ++ (id ++ (chain ++ rest))
    buf_eq =
        append_assoc topic (id ++ chain) rest ∙ ap (λ ys. topic ++ ys) (append_assoc id chain rest)

    at_chain : drop (length topic + length id) (topic ++ (id ++ (chain ++ rest))) ≡ chain ++ rest
    at_chain =
        drop-drop (length topic) (length id) (topic ++ (id ++ (chain ++ rest)))
        ∙ ap (drop (length id)) (drop-append topic (id ++ (chain ++ rest)))
        ∙ drop-append id (chain ++ rest)

    id_short : length id ≤ 2
    id_short = ground arith

    sizes : (length topic + length id + length chain) % 2 ^ 32 ≡ length (topic ++ (id ++ chain))
    sizes = omega (
      arith,
      length-append topic (id ++ chain),
      length-append id chain,
      id_short,
      ChainWire.length-encoding_bound vh.p_chain r.valid,
      ht,
    )

publish_v3_steps :
    (present : Bool) (buf topic : List ℕ) (n packet_id offset : ℕ)
    → convert_to_host_2_bytes buf ≡ done n
    → read_bytes n (drop 2 buf) ≡ done topic
    → read_packet_id present buf (string_size topic) ≡ done (packet_id, offset)
    → read_publish_v3 present buf
      ≡ done (record { topic_name = topic; packet_id = packet_id }, offset)
unfolding read_publish_v3
publish_v3_steps present buf topic n packet_id offset h1 h2 h3 = rw (h1, h2, h3)

-- The constructor of `PublishV3VH` reads back what `Serialize` stored, where it is told that there
-- is a packet identifier exactly when that is not 0.
pub read_publish_v3-encoding :
    (vh : PublishV3Vh) (rest : List ℕ) (present : Bool)
    → length vh.topic_name < 2 ^ 16
    → vh.packet_id < 2 ^ 16
    → present ≡ not (vh.packet_id == 0)
    → read_publish_v3 present (encoding (publish_v3 vh) ++ rest)
      ≡ done (vh, length (encoding (publish_v3 vh)))
unfolding encoding
read_publish_v3-encoding vh rest present ht hi hp =
    ap (read_publish_v3 present) (append_assoc topic id rest)
    ∙ publish_v3_steps present (topic ++ (id ++ rest)) vh.topic_name (length vh.topic_name)
        vh.packet_id (length topic + length id) (topic_read vh.topic_name (id ++ rest) ht).0
        (topic_read vh.topic_name (id ++ rest) ht).1
        (rw (topic_read vh.topic_name [] ht).2
          (read_packet_id-encoding vh.packet_id topic rest present hi hp (omega (arith, ht))))
    ∙ ap done (λ i. (vh, sym (length-append topic id) i))
  where
    topic : List ℕ
    topic = string_encoding vh.topic_name

    id : List ℕ
    id = id_encoding vh.packet_id
