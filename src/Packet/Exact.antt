-- ===== src/Packet/Exact.antt =====
-- The block that `CreateMqttPacket` allocates against the bytes that it stores there.
use mqtt_broker.Common.{
  ℕ, ◌+◌, ◌%◌, ◌^◌, ◌<◌, ◌≡◌, refl, sym, ap, ◌∙◌, List, [], ◌∷◌, ◌++◌, length, length-append,
  append_assoc, Exec, done, ◌>>=◌, >>=_assoc, >>=_cong, >>=_cong_done, arith,
}
use mqtt_broker.Common.Buffer.{Out, emit, emit-append, emit_offset}
use mqtt_broker.Common.Buffer.Bounds.{emit_exact}
use mqtt_broker.VarInt.Encoding.{code_var_int_small}
use mqtt_broker.Entity.{serialize_without_len}
use mqtt_broker.Entity.Wire.{serialize_without_len-emit}
use mqtt_broker.FixedHeader.{FixedHeader}
use mqtt_broker.FixedHeader
use mqtt_broker.FixedHeader.Wire as HeaderWire
use mqtt_broker.VariableHeader.{VariableHeader, publish}
use mqtt_broker.VariableHeader
use mqtt_broker.VariableHeader.Serialize as VhSerialize
use mqtt_broker.VariableHeader.Wire as VhWire
use mqtt_broker.VariableHeader.Store as VhStore
use mqtt_broker.VariableHeader.Size as VhSize
use mqtt_broker.Packet.{
  header_of, checked, message_len, create_mqtt_packet, create_empty_packet, create_message_packet,
}

-- The rest of a packet is stored where `offset` stands.
pub emit_at_offset :
    (xs ys : List ℕ) (k : ℕ → Out → Exec Out) (o : Out)
    → o.offset ≡ 0
    → length xs < 2 ^ 32
    → ((d : ℕ) (o' : Out) → k d o' ≡ emit d ys o')
    → (emit 0 xs o >>= λ o'. k o'.offset o') ≡ emit 0 (xs ++ ys) o
emit_at_offset xs ys k o z lt hk =
    >>=_cong_done (emit 0 xs o) _ _ (λ o' e. hk o'.offset o' ∙ ap (λ d. emit d ys o') (place o' e))
    ∙ emit-append 0 xs ys o
  where
    place : (o' : Out) → emit 0 xs o ≡ done o' → o'.offset ≡ 0 + length xs
    place o' e = omega (arith, emit_offset 0 xs o o' e)

-- A block of the right size is filled exactly, and the `assert` holds.
pub finish :
    (mem xs : List ℕ) (size : ℕ)
    → length mem ≡ size
    → size ≡ length xs
    → size < 2 ^ 32
    → (emit 0 xs (record { bytes = mem; offset = 0 }) >>= checked size)
      ≡ done (record { bytes = xs; size = length xs })
unfolding checked
finish mem xs size m h lt = rw (emit_exact mem xs 0 (m ∙ h)) (ground arith)

header_then :
    (h : FixedHeader) (ys mem : List ℕ) (k : ℕ → Out → Exec Out)
    → h.remaining_len < 2 ^ 28
    → ((d : ℕ) (o' : Out) → k d o' ≡ emit d ys o')
    → (FixedHeader.serialize h 0 (record { bytes = mem; offset = 0 }) >>= λ o'. k o'.offset o')
      ≡ emit 0 (HeaderWire.encoding h ++ ys) (record { bytes = mem; offset = 0 })
header_then h ys mem k lt hk =
    ap (λ m. m >>= λ o'. k o'.offset o') (HeaderWire.serialize-emit h 0 _ (omega arith))
    ∙ emit_at_offset (HeaderWire.encoding h) ys k _ refl
        (omega (arith, HeaderWire.length-encoding_bound h)) hk

module _ (fresh : ℕ → List ℕ) (fresh_size : (n : ℕ) → length (fresh n) ≡ n) where
  -- A packet with no payload is its fixed header and its variable header, in a block of that size.
  -- The variable header is valid, below 2 ^ 28 bytes, and one for which `GetSize` is right.
  pub create_mqtt_packet_exact :
      (pack_type : ℕ) (vh : VariableHeader)
      → VhWire.IsValid vh
      → VhSize.IsSized vh
      → VariableHeader.size vh < 2 ^ 28
      → let xs =
          HeaderWire.encoding (header_of pack_type (length (VhWire.encoding vh)))
          ++ VhWire.encoding vh in
        create_mqtt_packet fresh pack_type vh ≡ done (record { bytes = xs; size = length xs })
  unfolding create_mqtt_packet
  create_mqtt_packet_exact pack_type vh v s lt = rw same (
      sym (
        >>=_assoc (FixedHeader.serialize fh 0 _) (λ o1. VhSerialize.serialize vh o1.offset o1)
          (checked size))
      ∙ ap (λ m. m >>= checked size)
          (header_then fh (VhWire.encoding vh) (fresh size) (VhSerialize.serialize vh) short
            (λ d o'. VhStore.serialize-emit_header vh d o' v))
      ∙ finish (fresh size) (HeaderWire.encoding fh ++ VhWire.encoding vh) size (fresh_size size)
          size_eq (omega arith))
    where
      same : VariableHeader.size vh ≡ length (VhWire.encoding vh)
      same = VhSize.size-encoding vh v s

      fh : FixedHeader
      fh = header_of pack_type (length (VhWire.encoding vh))

      short : fh.remaining_len < 2 ^ 28
      short = omega (arith, same, lt)

      size : ℕ
      size = (length (VhWire.encoding vh) + FixedHeader.size fh) % 2 ^ 32

      size_eq : size ≡ length (HeaderWire.encoding fh ++ VhWire.encoding vh)
      size_eq = omega (
        arith,
        HeaderWire.size-encoding fh (omega (arith, short)),
        HeaderWire.length-encoding_bound fh (omega (arith, short)),
        short,
        length-append (HeaderWire.encoding fh) (VhWire.encoding vh),
      )

  -- A packet without a variable header is its header.
  pub create_empty_packet_exact :
      (pack_type : ℕ)
      → create_empty_packet fresh pack_type ≡ done (record { bytes = pack_type ∷ 0 ∷ []; size = 2 })
  unfolding create_empty_packet
  create_empty_packet_exact pack_type =
      rw
        (
          HeaderWire.serialize-emit fh 0
              (record { bytes = fresh (FixedHeader.size fh); offset = 0 }) (omega arith),
          two,
          code_var_int_small 0 (omega arith),
        )
        (rw (emit_exact (fresh 2) (pack_type ∷ 0 ∷ []) 0 (fresh_size 2)))
    where
      fh : FixedHeader
      fh = header_of pack_type 0

      two : FixedHeader.size fh ≡ 2
      two = HeaderWire.size-encoding fh (omega arith) ∙ rw (code_var_int_small 0 (omega arith))

  -- Header, variable header and payload, under the size that the function computes.
  pub message_run :
      (pack_type len : ℕ) (vh : VariableHeader) (message : List ℕ)
      → VhWire.IsValid vh
      → length (VhWire.encoding vh) < 2 ^ 28
      → len < 2 ^ 28
      → message_len pack_type vh message ≡ len
      → let fh = header_of pack_type len in
        let size = (len + FixedHeader.size fh) % 2 ^ 32 in
        create_message_packet fresh pack_type vh message ≡ (
          emit 0
            (HeaderWire.encoding fh ++ (VhWire.encoding vh ++ message))
            (record { bytes = fresh size; offset = 0 })
          >>= checked size)
  unfolding create_message_packet
  message_run pack_type len vh message v hv hl e = rw e (
      >>=_cong (FixedHeader.serialize fh 0 start) _ _ (λ o1. sym (
        >>=_assoc (VhSerialize.serialize vh o1.offset o1)
          (λ o2. serialize_without_len message o2.offset o2) (checked size)))
      ∙ sym (>>=_assoc (FixedHeader.serialize fh 0 start) _ (checked size))
      ∙ ap (λ m. m >>= checked size)
          (sym (
              >>=_assoc (FixedHeader.serialize fh 0 start)
                (λ o1. VhSerialize.serialize vh o1.offset o1)
                (λ o2. serialize_without_len message o2.offset o2))
            ∙ ap (λ m. m >>= λ o2. serialize_without_len message o2.offset o2)
                (header_then fh (VhWire.encoding vh) (fresh size) (VhSerialize.serialize vh) hl
                  (λ d o'. VhStore.serialize-emit_header vh d o' v))
            ∙ emit_at_offset (HeaderWire.encoding fh ++ VhWire.encoding vh) message
                (serialize_without_len message) start refl
                (omega (
                  arith,
                  hl,
                  HeaderWire.length-encoding_bound fh,
                  length-append (HeaderWire.encoding fh) (VhWire.encoding vh),
                ))
                (λ d o'. serialize_without_len-emit message d o')
            ∙ ap (λ xs. emit 0 xs start)
                (append_assoc (HeaderWire.encoding fh) (VhWire.encoding vh) message)))
    where
      fh : FixedHeader
      fh = header_of pack_type len

      size : ℕ
      size = (len + FixedHeader.size fh) % 2 ^ 32

      start : Out
      start = record { bytes = fresh size; offset = 0 }
