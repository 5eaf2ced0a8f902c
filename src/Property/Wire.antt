-- ===== src/Property/Wire.antt =====
-- The wire format of a property, and `CreateProperty` on it.
use mqtt_broker.Common.{
  ℕ, suc, ◌+◌, ◌%◌, ◌^◌, ◌<◌, ◌≡◌, refl, sym, ap, ◌∙◌, List, [], ◌∷◌, ◌++◌, length, length-append,
  drop, drop-append_eq, drop-drop, append_assoc, some, done, ◌>>=◌, >>=_assoc, >>=_cong, arith,
}
use mqtt_broker.Common.Bytes.{
  be16, convert_to_host_2_bytes, convert_to_host_2_bytes-be16, convert_to_host_4_bytes-be32,
  read_bytes-append,
}
use mqtt_broker.Common.Buffer.{Out, memcpy, advance, emit, emit_lem, emit-append}
use mqtt_broker.VarInt.RoundTrip.{decode_var_int-code_var_int}
use mqtt_broker.Entity.{
  Entity, byte_entity, two_byte_entity, four_byte_entity, string_entity, binary_data_entity,
  string_pair_entity, var_int_entity, get_type,
}
use mqtt_broker.Entity
use mqtt_broker.Entity.Wire as EntityWire
use mqtt_broker.Entity.Wire.{string_encoding}
use mqtt_broker.Property.{
  Property, serialize, data_type_of, created, create_of_type, create_property,
}

abbrev pub encoding : Property → List ℕ
encoding p = p.id ∷ EntityWire.encoding p.entity

-- A property whose value has the type that belongs to its identifier.
pub record IsValid (p : Property) : Type 0 where
  pub typed : data_type_of p.id ≡ get_type p.entity
  pub fits : EntityWire.IsValid p.entity

pub serialize-emit :
    (p : Property) (dst : ℕ) (o : Out) → IsValid p → serialize p dst o ≡ emit dst (encoding p) o
unfolding serialize
serialize-emit p dst o v =
    sym (>>=_assoc (memcpy dst (p.id ∷ []) o) (λ o'. done (advance 1 o')) _)
    ∙ ap (λ m. m >>= Entity.serialize p.entity (dst + 1)) (emit_lem dst 1 (p.id ∷ []) o refl)
    ∙ >>=_cong (emit dst (p.id ∷ []) o) _ _
        (λ o'. EntityWire.serialize-emit p.entity (dst + 1) o' v.fits)
    ∙ emit-append dst (p.id ∷ []) (EntityWire.encoding p.entity) o

string_len :
    (s rest : List ℕ)
    → length s < 2 ^ 16
    → convert_to_host_2_bytes (string_encoding s ++ rest) ≡ done (length s)
string_len s rest h =
    convert_to_host_2_bytes-be16 (length s % 2 ^ 16) (s ++ rest) (omega arith)
    ∙ ap done (omega arith)

created-eq :
    (id : ℕ) (e : Entity) (m n : ℕ)
    → m ≡ n
    → created id e m ≡ done (some (record { id = id; entity = e }, n % 256))
created-eq id e m n h = rw h

second_len :
    (s t rest : List ℕ)
    → drop (2 + length s) (string_encoding s ++ (string_encoding t ++ rest))
      ≡ string_encoding t ++ rest
second_len s t rest =
    drop-append_eq (2 + length s) (string_encoding s) (string_encoding t ++ rest) (omega arith)

second_bytes :
    (s t rest : List ℕ)
    → drop (2 + length s + 2) (string_encoding s ++ (string_encoding t ++ rest)) ≡ t ++ rest
second_bytes s t rest = rw (
  drop-drop (2 + length s) 2 (string_encoding s ++ (string_encoding t ++ rest)),
  second_len s t rest,
)

create_of_type-encoding :
    (id : ℕ) (e : Entity) (rest : List ℕ)
    → EntityWire.IsValid e
    → create_of_type (get_type e) id (EntityWire.encoding e ++ rest)
      ≡ done (some (record { id = id; entity = e }, suc (length (EntityWire.encoding e)) % 256))
unfolding create_of_type get_type EntityWire.encoding
create_of_type-encoding id (byte_entity v) rest h = refl
create_of_type-encoding id (two_byte_entity v) rest h = rw (convert_to_host_2_bytes-be16 v rest h)
create_of_type-encoding id (four_byte_entity v) rest h = rw (convert_to_host_4_bytes-be32 v rest h)
create_of_type-encoding id (string_entity s) rest h =
    rw (string_len s rest h, read_bytes-append s rest) (created-eq id _ _ _ (omega arith))
create_of_type-encoding id (binary_data_entity d) rest h =
    rw (string_len d rest h, read_bytes-append d rest) (created-eq id _ _ _ (omega arith))
create_of_type-encoding id (string_pair_entity s t) rest (hs, ht) =
    rw
      (
        append_assoc s (be16 (length t % 2 ^ 16) ++ t) rest,
        string_len s (string_encoding t ++ rest) hs,
        second_len s t rest,
        string_len t rest ht,
        read_bytes-append s (string_encoding t ++ rest),
        second_bytes s t rest,
        read_bytes-append t rest,
      )
      (created-eq id _ _ _ (omega (arith, length-append s (string_encoding t))))
create_of_type-encoding id (var_int_entity v) rest h =
    rw (decode_var_int-code_var_int v rest h) (created-eq id _ _ _ (omega arith))

-- `CreateProperty` reads back what `Serialize` stored of a property whose value has the type of its
-- identifier and fits it. Its `size` is the number of bytes stored
-- modulo 256.
pub create_property-encoding :
    (p : Property) (rest : List ℕ)
    → IsValid p
    → create_property (some (encoding p ++ rest)) ≡ done (some (p, length (encoding p) % 256))
unfolding create_property
create_property-encoding p rest v = rw v.typed (create_of_type-encoding p.id p.entity rest v.fits)

-- `MqttProperty::Size() + 1` is the number of bytes on the wire.
pub size-encoding : (p : Property) → IsValid p → Entity.size p.entity + 1 ≡ length (encoding p)
size-encoding p v = omega (arith, EntityWire.size-encoding p.entity v.fits)
