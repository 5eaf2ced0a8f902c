-- ===== src/Packet/Mismatch.antt =====
-- The size of a PUBLISH packet against the packet identifier in it.
use mqtt_broker.Common.{
  ℕ, ◌+◌, ◌%◌, ◌^◌, ◌<◌, ◌≡◌, ◌≢◌, ◌↔◌, Bool-cases, inl, inr, ==_iff, refl, sym, ap, ◌∙◌, List,
  ◌++◌, length, length-append, ◌==◌, done, abort, fault, ◌>>=◌, arith,
}
use mqtt_broker.Common.Buffer.{emit}
use mqtt_broker.Common.Buffer.Bounds.{emit_past, emit_fits}
use mqtt_broker.Entity.{string_size}
use mqtt_broker.FixedHeader.{FixedHeader}
use mqtt_broker.FixedHeader
use mqtt_broker.FixedHeader.Wire as HeaderWire
use mqtt_broker.VariableHeader.{PublishVh, publish}
use mqtt_broker.VariableHeader.Wire as VhWire
use mqtt_broker.VariableHeader.Size as VhSize
use mqtt_broker.Packet.{header_of, checked, message_len, create_message_packet}
use mqtt_broker.Packet.Exact.{finish, message_run}

abbrev pub qos_of : ℕ → ℕ
qos_of pack_type = FixedHeader.qos (header_of pack_type 0)

-- The parts of a PUBLISH that fit their length fields.
pub record Fits (vh : PublishVh) (message : List ℕ) : Type 0 where
  pub valid : VhWire.IsValid (publish vh)
  pub payload : length message < 2 ^ 16

abbrev total : PublishVh → List ℕ → ℕ
total vh message = length (VhWire.encoding (publish vh)) + length message

-- `message_len` on each combination of quality of service and packet identifier.
len_exact :
    (pack_type : ℕ) (vh : PublishVh) (message : List ℕ)
    → Fits vh message
    → qos_of pack_type ≡ 0
    → vh.packet_id ≡ 0
    → message_len pack_type (publish vh) message ≡ total vh message
unfolding string_size
len_exact pack_type vh message f q i =
    ground (arith, VhSize.publish_size vh f.valid, VhSize.publish_bounds vh f.valid, f.payload)

len_exact_id :
    (pack_type : ℕ) (vh : PublishVh) (message : List ℕ)
    → Fits vh message
    → qos_of pack_type ≢ 0
    → vh.packet_id ≢ 0
    → message_len pack_type (publish vh) message ≡ total vh message
unfolding string_size
len_exact_id pack_type vh message f q i =
    ground (arith, VhSize.publish_size vh f.valid, VhSize.publish_bounds vh f.valid, f.payload)

len_more :
    (pack_type : ℕ) (vh : PublishVh) (message : List ℕ)
    → Fits vh message
    → qos_of pack_type ≢ 0
    → vh.packet_id ≡ 0
    → message_len pack_type (publish vh) message ≡ total vh message + 2
unfolding string_size
len_more pack_type vh message f q i =
    ground (arith, VhSize.publish_size vh f.valid, VhSize.publish_bounds vh f.valid, f.payload)

len_less :
    (pack_type : ℕ) (vh : PublishVh) (message : List ℕ)
    → Fits vh message
    → qos_of pack_type ≡ 0
    → vh.packet_id ≢ 0
    → message_len pack_type (publish vh) message + 2 ≡ total vh message
unfolding string_size
len_less pack_type vh message f q i =
    ground (arith, VhSize.publish_size vh f.valid, VhSize.publish_bounds vh f.valid, f.payload)

module _ (fresh : ℕ → List ℕ) (fresh_size : (n : ℕ) → length (fresh n) ≡ n) where
  -- The run of the function, where the length that it computes is `len`.
  run_with :
      (pack_type len : ℕ) (vh : PublishVh) (message : List ℕ)
      → Fits vh message
      → len < 2 ^ 28
      → message_len pack_type (publish vh) message ≡ len
      → create_message_packet fresh pack_type (publish vh) message ≡ (
          emit 0
            (HeaderWire.encoding (header_of pack_type len)
              ++ (VhWire.encoding (publish vh) ++ message))
            (record {
              bytes = fresh (len + length (HeaderWire.encoding (header_of pack_type len)));
              offset = 0;
            })
          >>= checked (len + length (HeaderWire.encoding (header_of pack_type len))))
  run_with pack_type len vh message f lt e =
      message_run fresh fresh_size pack_type len (publish vh) message f.valid
        (omega (arith, VhSize.publish_bounds vh f.valid)) lt e
      ∙ ap (λ n. emit 0 xs (record { bytes = fresh n; offset = 0 }) >>= checked n) size_eq
    where
      xs : List ℕ
      xs =
          HeaderWire.encoding (header_of pack_type len) ++ (VhWire.encoding (publish vh) ++ message)

      size_eq :
          (len + FixedHeader.size (header_of pack_type len)) % 2 ^ 32
          ≡ len + length (HeaderWire.encoding (header_of pack_type len))
      size_eq = omega (
        arith,
        HeaderWire.size-encoding (header_of pack_type len) (omega (arith, lt)),
        HeaderWire.length-encoding_bound (header_of pack_type len) (omega (arith, lt)),
        lt,
      )

  packet_length :
      (pack_type len : ℕ) (vh : PublishVh) (message : List ℕ)
      → length (
          HeaderWire.encoding (header_of pack_type len)
          ++ (VhWire.encoding (publish vh) ++ message))
        ≡ length (HeaderWire.encoding (header_of pack_type len)) + total vh message
  packet_length pack_type len vh message = omega (
    arith,
    length-append (HeaderWire.encoding (header_of pack_type len))
        (VhWire.encoding (publish vh) ++ message),
    length-append (VhWire.encoding (publish vh)) message,
  )

  -- A PUBLISH with a packet identifier exactly when its quality of service is not 0 is its
  -- header, its variable header and its message, in a block of that size, where its topic, its
  -- properties and its message fit their length fields.
  pub create_message_packet_exact :
      (pack_type : ℕ) (vh : PublishVh) (message : List ℕ)
      → Fits vh message
      → (qos_of pack_type ≡ 0) ↔ (vh.packet_id ≡ 0)
      → let body = VhWire.encoding (publish vh) ++ message in
        let xs = HeaderWire.encoding (header_of pack_type (length body)) ++ body in
        create_message_packet fresh pack_type (publish vh) message
        ≡ done (record { bytes = xs; size = length xs })
  create_message_packet_exact pack_type vh message f h =
      run_with pack_type len vh message f short len_eq
      ∙ finish (fresh size) xs size (fresh_size size) size_eq (
          omega (
            arith,
            short,
            HeaderWire.length-encoding_bound (header_of pack_type len) (omega (arith, short)),
          ))
    where
      len : ℕ
      len = length (VhWire.encoding (publish vh) ++ message)

      size : ℕ
      size = len + length (HeaderWire.encoding (header_of pack_type len))

      xs : List ℕ
      xs =
          HeaderWire.encoding (header_of pack_type len) ++ (VhWire.encoding (publish vh) ++ message)

      len_total : len ≡ total vh message
      len_total = length-append (VhWire.encoding (publish vh)) message

      short : len < 2 ^ 28
      short = omega (arith, len_total, VhSize.publish_bounds vh f.valid, f.payload)

      len_eq : message_len pack_type (publish vh) message ≡ len
      len_eq = elim (Bool-cases (qos_of pack_type == 0)) [
        | inl e ↦
            len_exact pack_type vh message f ((==_iff _ _).0 e) (h.0 ((==_iff _ _).0 e))
            ∙ sym len_total
        | inr e ↦
            len_exact_id pack_type vh message f (λ z. ground (arith, z, e))
              (λ z. ground (arith, h.1 z, e))
            ∙ sym len_total
      ]

      size_eq : size ≡ length xs
      size_eq = omega (arith, packet_length pack_type len vh message, len_total)

  -- A PUBLISH of quality of service 1 or more whose packet identifier is 0 fails the `assert` on
  -- its size, where its topic, its properties and its message fit their length fields.
  pub create_message_packet_abort :
      (pack_type : ℕ) (vh : PublishVh) (message : List ℕ)
      → Fits vh message
      → qos_of pack_type ≢ 0
      → vh.packet_id ≡ 0
      → create_message_packet fresh pack_type (publish vh) message ≡ abort
  unfolding checked
  create_message_packet_abort pack_type vh message f q i =
      run_with pack_type len vh message f
        (omega (arith, VhSize.publish_bounds vh f.valid, f.payload))
        (len_more pack_type vh message f q i)
      ∙ (let (mem, e) = emit_fits (fresh size) xs (omega (arith, fresh_size size, xs_length)) in
          rw e (ground (arith, xs_length)))
    where
      len : ℕ
      len = total vh message + 2

      size : ℕ
      size = len + length (HeaderWire.encoding (header_of pack_type len))

      xs : List ℕ
      xs =
          HeaderWire.encoding (header_of pack_type len) ++ (VhWire.encoding (publish vh) ++ message)

      xs_length : length xs + 2 ≡ size
      xs_length = omega (arith, packet_length pack_type len vh message)

  -- A PUBLISH of quality of service 0 with a packet identifier other than 0 is stored past the end
  -- of its block, where its topic, its properties and its message fit their length fields.
  pub create_message_packet_overrun :
      (pack_type : ℕ) (vh : PublishVh) (message : List ℕ)
      → Fits vh message
      → qos_of pack_type ≡ 0
      → vh.packet_id ≢ 0
      → create_message_packet fresh pack_type (publish vh) message ≡ fault
  create_message_packet_overrun pack_type vh message f q i =
      run_with pack_type len vh message f
        (omega (arith, less, VhSize.publish_bounds vh f.valid, f.payload)) refl
      ∙ rw (
          emit_past (fresh size) xs 0 0 (omega (arith, fresh_size size, xs_length))
            (omega (arith, xs_length)))
    where
      len : ℕ
      len = message_len pack_type (publish vh) message

      less : len + 2 ≡ total vh message
      less = len_less pack_type vh message f q i

      size : ℕ
      size = len + length (HeaderWire.encoding (header_of pack_type len))

      xs : List ℕ
      xs =
          HeaderWire.encoding (header_of pack_type len) ++ (VhWire.encoding (publish vh) ++ message)

      xs_length : length xs ≡ size + 2
      xs_length = omega (arith, packet_length pack_type len vh message, less)
