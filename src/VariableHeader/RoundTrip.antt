-- ===== src/VariableHeader/RoundTrip.antt =====
-- The buffer constructors and `ReadFromBuf` on what `Serialize` stored.
use mqtt_broker.Common.{
  ℕ, suc, ◌+◌, ◌%◌, ◌^◌, ◌<◌, ◌≡◌, ◌≢◌, refl, ap, ◌∙◌, List, [], ◌∷◌, ◌++◌, length, drop, All,
  false, ◌==◌, done, arith,
}
use mqtt_broker.Common.Bytes.{
  be16, convert_to_host_2_bytes, convert_to_host_2_bytes-be16, byte_at, read_bytes,
}
use mqtt_broker.VarInt.{MqttErr}
use mqtt_broker.Property.{Property}
use mqtt_broker.Chain.{create}
use mqtt_broker.Chain.Wire as ChainWire
use mqtt_broker.Chain.RoundTrip.{Ascending, IsShort, kept, create-encoding}
use mqtt_broker.VariableHeader.{
  ConnectVh, ConnackVh, DisconnectVh, SubscribeVh, UnsubscribeVh, connect, connack, disconnect,
  subscribe, unsubscribe, size,
}
use mqtt_broker.VariableHeader.Wire.{encoding}
use mqtt_broker.VariableHeader.Read.{
  read_connect, read_connack, read_disconnect, read_subscribe, read_unsubscribe,
}

-- The chains that `Create` reads back: typed, in the order of the map, each property below 256
-- bytes and all of them below 2 ^ 16.
pub record IsReadable (ps : List Property) : Type 0 where
  pub valid : ChainWire.IsValid ps
  pub short : All IsShort ps
  pub sorted : Ascending 0 ps

kept_nil : (ps : List Property) → kept [] ps ≡ ps
kept_nil [] = refl
kept_nil (p ∷ ps) = refl

pub create_fresh :
    (ps : List Property) (rest : List ℕ)
    → IsReadable ps
    → create [] (ChainWire.encoding ps ++ rest)
      ≡ done (record { status = MqttErr.ok; chain = ps; size = length (ChainWire.encoding ps) })
create_fresh ps rest r =
    create-encoding ps [] rest r.valid r.short r.sorted
    ∙ ap done (λ i. record {
      status = MqttErr.ok;
      chain = kept_nil ps i;
      size = length (ChainWire.encoding ps);
    })

connect_fields :
    (prot_name_len : ℕ) (name : List ℕ) (version conn_flags alive : ℕ) (rest : List ℕ) (offset : ℕ)
    → prot_name_len < 2 ^ 16
    → length name ≡ 4
    → alive < 2 ^ 16
    → let vh : ConnectVh = record {
      prot_name_len = prot_name_len;
      name = name;
      version = version;
      conn_flags = conn_flags;
      alive = alive;
    } in
      read_connect (encoding (connect vh) ++ rest) offset ≡ done (vh, (offset + 10) % 2 ^ 32)
unfolding read_connect encoding convert_to_host_2_bytes byte_at read_bytes size
connect_fields n (a ∷ b ∷ c ∷ d ∷ []) version flags alive rest offset hp hn ha = ground arith
connect_fields n [] version flags alive rest offset hp hn ha = absurd (omega arith)
connect_fields n (a ∷ []) version flags alive rest offset hp hn ha = absurd (omega arith)
connect_fields n (a ∷ b ∷ []) version flags alive rest offset hp hn ha = absurd (omega arith)
connect_fields n (a ∷ b ∷ c ∷ []) version flags alive rest offset hp hn ha = absurd (omega arith)
connect_fields n (a ∷ b ∷ c ∷ d ∷ e ∷ name) version flags alive rest offset hp hn ha =
    absurd (omega arith)

-- `ReadFromBuf` of a CONNECT header reads back what `Serialize` stored and moves `offset` by 10,
-- where the protocol name has four bytes and the two numbers are below 65536.
pub read_connect-encoding :
    (vh : ConnectVh) (rest : List ℕ) (offset : ℕ)
    → vh.prot_name_len < 2 ^ 16
    → length vh.name ≡ 4
    → vh.alive < 2 ^ 16
    → read_connect (encoding (connect vh) ++ rest) offset ≡ done (vh, (offset + 10) % 2 ^ 32)
read_connect-encoding vh rest offset hp hn ha =
    connect_fields vh.prot_name_len vh.name vh.version vh.conn_flags vh.alive rest offset hp hn ha

-- A packet identifier and a chain, which three headers begin with.
id_chain_read :
    (packet_id : ℕ) (ps : List Property) (rest : List ℕ)
    → packet_id < 2 ^ 16
    → IsReadable ps
    → (convert_to_host_2_bytes ((be16 packet_id ++ ChainWire.encoding ps) ++ rest) ≡ done packet_id)
      × (create [] (drop 2 ((be16 packet_id ++ ChainWire.encoding ps) ++ rest))
          ≡ done
              (record { status = MqttErr.ok; chain = ps; size = length (ChainWire.encoding ps) }))
id_chain_read packet_id ps rest h r = (
  convert_to_host_2_bytes-be16 packet_id (ChainWire.encoding ps ++ rest) h,
  create_fresh ps rest r,
)

-- The constructor of `SubscribeVH` reads back a header with a packet identifier other than 0.
pub read_subscribe-encoding :
    (vh : SubscribeVh) (rest : List ℕ)
    → vh.packet_id < 2 ^ 16
    → vh.packet_id ≢ 0
    → IsReadable vh.p_chain
    → read_subscribe (encoding (subscribe vh) ++ rest) 0
      ≡ done (vh, length (encoding (subscribe vh)))
unfolding read_subscribe encoding
read_subscribe-encoding vh rest h nz r =
    rw
      (
        nonzero,
        (id_chain_read vh.packet_id vh.p_chain rest h r).0,
        (id_chain_read vh.packet_id vh.p_chain rest h r).1,
      )
      (ap done (λ i. (vh, sizes i)))
  where
    nonzero : (vh.packet_id == 0) ≡ false
    nonzero = ground arith

    sizes :
        (2 + length (ChainWire.encoding vh.p_chain)) % 2 ^ 32
        ≡ suc (suc (length (ChainWire.encoding vh.p_chain)))
    sizes = omega (arith, ChainWire.length-encoding_bound vh.p_chain r.valid)

-- `UnsubscribeVH::ReadFromBuf` reads back what `Serialize` stored.
pub read_unsubscribe-encoding :
    (vh : UnsubscribeVh) (rest : List ℕ)
    → vh.packet_id < 2 ^ 16
    → IsReadable vh.p_chain
    → read_unsubscribe (encoding (unsubscribe vh) ++ rest) 0
      ≡ done (vh, length (encoding (unsubscribe vh)))
unfolding read_unsubscribe encoding
read_unsubscribe-encoding vh rest h r =
    rw
      (
        (id_chain_read vh.packet_id vh.p_chain rest h r).0,
        (id_chain_read vh.packet_id vh.p_chain rest h r).1,
      )
      (ap done (λ i. (vh, sizes i)))
  where
    sizes :
        (2 + length (ChainWire.encoding vh.p_chain)) % 2 ^ 32
        ≡ suc (suc (length (ChainWire.encoding vh.p_chain)))
    sizes = omega (arith, ChainWire.length-encoding_bound vh.p_chain r.valid)

-- `ConnactVH::ReadFromBuf` reads back what `Serialize` stored, into a header without properties.
pub read_connack-encoding :
    (vh : ConnackVh) (rest : List ℕ)
    → IsReadable vh.p_chain
    → read_connack [] (encoding (connack vh) ++ rest) 0 ≡ done (vh, length (encoding (connack vh)))
unfolding read_connack encoding byte_at
read_connack-encoding vh rest r = rw (create_fresh vh.p_chain rest r) (ap done (λ i. (vh, sizes i)))
  where
    sizes :
        (2 + length (ChainWire.encoding vh.p_chain)) % 2 ^ 32
        ≡ suc (suc (length (ChainWire.encoding vh.p_chain)))
    sizes = omega (arith, ChainWire.length-encoding_bound vh.p_chain r.valid)

-- `DisconnectVH::ReadFromBuf` reads back what `Serialize` stored, into a header without properties.
pub read_disconnect-encoding :
    (vh : DisconnectVh) (rest : List ℕ)
    → IsReadable vh.p_chain
    → read_disconnect [] (encoding (disconnect vh) ++ rest) 0
      ≡ done (vh, length (encoding (disconnect vh)))
unfolding read_disconnect encoding byte_at
read_disconnect-encoding vh rest r =
    rw (create_fresh vh.p_chain rest r) (ap done (λ i. (vh, sizes i)))
  where
    sizes :
        (1 + length (ChainWire.encoding vh.p_chain)) % 2 ^ 32
        ≡ suc (length (ChainWire.encoding vh.p_chain))
    sizes = omega (arith, ChainWire.length-encoding_bound vh.p_chain r.valid)
