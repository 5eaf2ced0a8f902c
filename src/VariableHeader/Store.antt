-- ===== src/VariableHeader/Store.antt =====
-- `Serialize` of each variable header against its wire format.
use mqtt_broker.Common.{
  ℕ, ◌+◌, ◌%◌, ◌^◌, ◌<◌, ◌≡◌, refl, sym, ap, ◌∙◌, List, [], ◌∷◌, ◌++◌, length, length-append,
  append_assoc, append-nil, ◌==◌, Bool-cases, inl, inr, Exec, done, ◌>>=◌, >>=_assoc, >>=_cong,
  >>=_cong_done, >>=_done, arith,
}
use mqtt_broker.Common.Bytes.{be16}
use mqtt_broker.Common.Buffer.{
  Out, memcpy, advance, emit, emit_lem, emit_then, emit-append, emit_offset, memcpy-append,
  with_local, with_local-emit,
}
use mqtt_broker.Entity.{string_size, serialize_string}
use mqtt_broker.Entity.Wire.{string_encoding, serialize_string-emit}
use mqtt_broker.Property.{Property}
use mqtt_broker.Chain
use mqtt_broker.Chain.Wire as ChainWire
use mqtt_broker.VariableHeader.{
  ConnectVh, ConnackVh, DisconnectVh, PublishVh, SubscribeVh, PubackVh, UnsubscribeVh, TypicalV3Vh,
  PublishV3Vh, VariableHeader, connect, connack, disconnect, publish, subscribe, suback, puback,
  unsubscribe, unsuback, typical_v3, publish_v3,
}
use mqtt_broker.VariableHeader.Serialize.{
  serialize_connect, serialize_connack, serialize_disconnect, serialize_packet_id,
  serialize_publish, serialize_subscribe, codes_loop, serialize_suback, serialize_puback,
  serialize_unsubscribe, serialize_unsuback, serialize_typical_v3, serialize_publish_v3, serialize,
}
use mqtt_broker.VariableHeader.Wire.{id_encoding, encoding, IsValid}

-- The loop over the reason codes stores them where `local_offset` stands.
codes_loop-emit :
    (codes : List ℕ) (dst : ℕ) (xs : List ℕ) (o : Out)
    → o.offset ≡ 0
    → length xs + length codes < 2 ^ 32
    → (emit dst xs o >>= codes_loop codes dst) ≡ emit dst (xs ++ codes) o
unfolding codes_loop
codes_loop-emit [] dst xs o z lt =
    >>=_done (emit dst xs o) ∙ ap (λ ys. emit dst ys o) (sym (append-nil xs))
codes_loop-emit (c ∷ codes) dst xs o z lt =
    >>=_cong_done (emit dst xs o) _
      (λ o1. emit (dst + length xs) (c ∷ []) o1 >>= codes_loop codes dst)
      (λ o1 e.
        ap (λ d. memcpy d (c ∷ []) o1 >>= λ o'. codes_loop codes dst (advance 1 o')) (place o1 e)
        ∙ sym (
            >>=_assoc (memcpy (dst + length xs) (c ∷ []) o1) (λ o'. done (advance 1 o'))
              (codes_loop codes dst))
        ∙ ap (λ m. m >>= codes_loop codes dst) (emit_lem (dst + length xs) 1 (c ∷ []) o1 refl))
    ∙ sym (>>=_assoc (emit dst xs o) (emit (dst + length xs) (c ∷ [])) (codes_loop codes dst))
    ∙ ap (λ m. m >>= codes_loop codes dst) (emit-append dst xs (c ∷ []) o)
    ∙ codes_loop-emit codes dst (xs ++ (c ∷ [])) o z (omega (arith, length-append xs (c ∷ [])))
    ∙ ap (λ ys. emit dst ys o) (append_assoc xs (c ∷ []) codes)
  where
    place : (o1 : Out) → emit dst xs o ≡ done o1 → dst + o1.offset ≡ dst + length xs
    place o1 e = omega (arith, emit_offset dst xs o o1 e)

connect-emit :
    (vh : ConnectVh) (dst : ℕ) (o : Out)
    → length vh.name ≡ 4
    → serialize_connect vh dst o ≡ emit dst (encoding (connect vh)) o
unfolding serialize_connect encoding
connect-emit vh dst o h = with_local-emit _ dst _ o (
    emit_then dst 2 (dst + 2) (be16 vh.prot_name_len) _ _ _ refl refl λ o1.
      emit_then (dst + 2) 4 (dst + 6) vh.name _ _ o1 (sym h) (omega arith) λ o2.
        emit_then (dst + 6) 1 (dst + 7) (vh.version ∷ []) _ _ o2 refl (omega arith) λ o3.
          emit_then (dst + 7) 1 (dst + 8) (vh.conn_flags ∷ []) _ _ o3 refl (omega arith)
            λ o4. emit_lem (dst + 8) 2 (be16 vh.alive) o4 refl)

connack-emit :
    (vh : ConnackVh) (dst : ℕ) (o : Out)
    → ChainWire.IsValid vh.p_chain
    → serialize_connack vh dst o ≡ emit dst (encoding (connack vh)) o
unfolding serialize_connack encoding
connack-emit vh dst o v =
    sym (
      >>=_assoc (memcpy dst (vh.conn_acknowledge_flags ∷ []) o)
        (memcpy (dst + 1) (vh.reason_code ∷ [])) _)
    ∙ ap (λ m. m >>= λ o2. Chain.serialize vh.p_chain (dst + 2) (advance 2 o2))
        (sym (memcpy-append dst (vh.conn_acknowledge_flags ∷ []) (vh.reason_code ∷ []) o))
    ∙ emit_then dst 2 (dst + 2) (vh.conn_acknowledge_flags ∷ vh.reason_code ∷ []) _ _ o refl refl
        (λ o'. ChainWire.serialize-emit_chain vh.p_chain (dst + 2) o' v)

disconnect-emit :
    (vh : DisconnectVh) (dst : ℕ) (o : Out)
    → ChainWire.IsValid vh.p_chain
    → serialize_disconnect vh dst o ≡ emit dst (encoding (disconnect vh)) o
unfolding serialize_disconnect encoding
disconnect-emit vh dst o v = with_local-emit _ dst _ o (
    emit_then dst 1 (dst + 1) (vh.reason_code ∷ []) _ _ _ refl refl
      λ o'. ChainWire.serialize-emit_chain vh.p_chain (dst + 1) o' v)

-- The optional packet identifier and what follows it.
packet_id-emit :
    (packet_id dst : ℕ) (rest : ℕ → Out → Exec Out) (ys : List ℕ) (o : Out)
    → ((d : ℕ) (o' : Out) → rest d o' ≡ emit d ys o')
    → serialize_packet_id packet_id dst rest o ≡ emit dst (id_encoding packet_id ++ ys) o
unfolding serialize_packet_id
packet_id-emit packet_id dst rest ys o h = elim (Bool-cases (packet_id == 0)) [
  | inl e ↦ rw e (h dst o)
  | inr e ↦ rw e (emit_then dst 2 (dst + 2) (be16 packet_id) ys _ o refl refl (h (dst + 2)))
]

topic-emit :
    (topic : List ℕ) (dst : ℕ) (o : Out)
    → with_local (serialize_string topic dst) o ≡ emit dst (string_encoding topic) o
topic-emit topic dst o =
    with_local-emit (serialize_string topic dst) dst _ o (serialize_string-emit topic dst _)

-- The topic name, and what is stored behind it.
topic_then :
    (topic : List ℕ) (dst : ℕ) (k : ℕ → Out → Exec Out) (ys : List ℕ) (o : Out)
    → length topic < 2 ^ 16
    → ((d : ℕ) (o' : Out) → k d o' ≡ emit d ys o')
    → (with_local (serialize_string topic dst) o >>= k (dst + string_size topic))
      ≡ emit dst (string_encoding topic ++ ys) o
unfolding string_size
topic_then topic dst k ys o h hk =
    ap (λ m. m >>= k (dst + (2 + length topic) % 2 ^ 32)) (topic-emit topic dst o)
    ∙ >>=_cong (emit dst (string_encoding topic) o) _ _
        (λ o'. hk (dst + (2 + length topic) % 2 ^ 32) o' ∙ ap (λ d. emit d ys o') place)
    ∙ emit-append dst (string_encoding topic) ys o
  where
    place : dst + (2 + length topic) % 2 ^ 32 ≡ dst + length (string_encoding topic)
    place = omega arith

publish-emit :
    (vh : PublishVh) (dst : ℕ) (o : Out)
    → length vh.topic_name < 2 ^ 16
    → ChainWire.IsValid vh.p_chain
    → serialize_publish vh dst o ≡ emit dst (encoding (publish vh)) o
unfolding serialize_publish encoding
publish-emit vh dst o h v = topic_then vh.topic_name dst _ _ o h λ d o1.
    packet_id-emit vh.packet_id d _ _ o1 λ d' o2. ChainWire.serialize-emit_chain vh.p_chain d' o2 v

publish_v3-emit :
    (vh : PublishV3Vh) (dst : ℕ) (o : Out)
    → length vh.topic_name < 2 ^ 16
    → serialize_publish_v3 vh dst o ≡ emit dst (encoding (publish_v3 vh)) o
unfolding serialize_publish_v3 serialize_packet_id encoding
publish_v3-emit vh dst o h = elim (Bool-cases (vh.packet_id == 0)) [
  | inl e ↦
      rw (serialize_packet_id, e)
        (>>=_done (with_local (serialize_string vh.topic_name dst) o)
          ∙ topic-emit vh.topic_name dst o
          ∙ ap (λ ys. emit dst ys o) (sym (append-nil (string_encoding vh.topic_name))))
  | inr e ↦
      rw (serialize_packet_id, e)
        (topic_then vh.topic_name dst
          (λ d o'. memcpy d (be16 vh.packet_id) o' >>= λ o2. done (advance 2 o2)) _ o h
          (λ d o'. emit_lem d 2 (be16 vh.packet_id) o' refl))
]

subscribe-emit :
    (vh : SubscribeVh) (dst : ℕ) (o : Out)
    → ChainWire.IsValid vh.p_chain
    → serialize_subscribe vh dst o ≡ emit dst (encoding (subscribe vh)) o
unfolding serialize_subscribe encoding
subscribe-emit vh dst o v =
    packet_id-emit vh.packet_id dst _ _ o λ d o'. ChainWire.serialize-emit_chain vh.p_chain d o' v

-- A packet identifier, a chain and reason codes.
codes-emit :
    (packet_id : ℕ) (ps : List Property) (codes : List ℕ) (dst : ℕ) (o : Out)
    → length codes < 2 ^ 28
    → ChainWire.IsValid ps
    → with_local
        (λ o0. memcpy dst (be16 packet_id) o0 >>= λ o1.
          Chain.serialize ps (dst + 2) (advance 2 o1) >>= codes_loop codes dst)
        o
      ≡ emit dst (be16 packet_id ++ (ChainWire.encoding ps ++ codes)) o
codes-emit packet_id ps codes dst o h v = with_local-emit _ dst _ o (
    sym (
      >>=_assoc (memcpy dst (be16 packet_id) o0) (λ o1. Chain.serialize ps (dst + 2) (advance 2 o1))
        (codes_loop codes dst))
    ∙ ap (λ m. m >>= codes_loop codes dst)
        (emit_then dst 2 (dst + 2) (be16 packet_id) _ _ o0 refl refl
          λ o'. ChainWire.serialize-emit_chain ps (dst + 2) o' v)
    ∙ codes_loop-emit codes dst (be16 packet_id ++ ChainWire.encoding ps) o0 refl
        (omega (arith, ChainWire.length-encoding_bound ps v)))
  where
    o0 : Out
    o0 = record o { offset = 0 }

puback-emit :
    (vh : PubackVh) (dst : ℕ) (o : Out)
    → ChainWire.IsValid vh.p_chain
    → serialize_puback vh dst o ≡ emit dst (encoding (puback vh)) o
unfolding serialize_puback encoding
puback-emit vh dst o v = with_local-emit _ dst _ o (
    emit_then dst 2 (dst + 2) (be16 vh.packet_id) _ _ _ refl refl λ o1.
      emit_then (dst + 2) 1 (dst + 3) (vh.reason_code ∷ []) _ _ o1 refl (omega arith)
        λ o2. ChainWire.serialize-emit_chain vh.p_chain (dst + 3) o2 v)

unsubscribe-emit :
    (vh : UnsubscribeVh) (dst : ℕ) (o : Out)
    → ChainWire.IsValid vh.p_chain
    → serialize_unsubscribe vh dst o ≡ emit dst (encoding (unsubscribe vh)) o
unfolding serialize_unsubscribe encoding
unsubscribe-emit vh dst o v = with_local-emit _ dst _ o (
    emit_then dst 2 (dst + 2) (be16 vh.packet_id) _ _ _ refl refl
      λ o'. ChainWire.serialize-emit_chain vh.p_chain (dst + 2) o' v)

typical_v3-emit :
    (vh : TypicalV3Vh) (dst : ℕ) (o : Out)
    → serialize_typical_v3 vh dst o ≡ emit dst (encoding (typical_v3 vh)) o
unfolding serialize_typical_v3 encoding
typical_v3-emit vh dst o = with_local-emit _ dst _ o (emit_lem dst 2 (be16 vh.packet_id) _ refl)

-- `Serialize` of every valid variable header stores its wire format and moves `offset` past it.
pub serialize-emit_header :
    (vh : VariableHeader) (dst : ℕ) (o : Out)
    → IsValid vh
    → serialize vh dst o ≡ emit dst (encoding vh) o
unfolding serialize
serialize-emit_header (connect vh) dst o v = connect-emit vh dst o v
serialize-emit_header (connack vh) dst o v = connack-emit vh dst o v
serialize-emit_header (disconnect vh) dst o v = disconnect-emit vh dst o v
serialize-emit_header (publish vh) dst o (h, v) = publish-emit vh dst o h v
serialize-emit_header (subscribe vh) dst o v = subscribe-emit vh dst o v
serialize-emit_header (suback vh) dst o (h, v) =
    unfold serialize_suback encoding in codes-emit vh.packet_id vh.p_chain vh.reason_codes dst o h v
serialize-emit_header (puback vh) dst o v = puback-emit vh dst o v
serialize-emit_header (unsubscribe vh) dst o v = unsubscribe-emit vh dst o v
serialize-emit_header (unsuback vh) dst o (h, v) =
    unfold serialize_unsuback encoding in
    codes-emit vh.packet_id vh.p_chain vh.reason_codes dst o h v
serialize-emit_header (typical_v3 vh) dst o v = typical_v3-emit vh dst o
serialize-emit_header (publish_v3 vh) dst o v = publish_v3-emit vh dst o v
