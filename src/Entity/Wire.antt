-- ===== src/Entity/Wire.antt =====
-- The wire format of a value, and `Serialize` against it.
use mqtt_broker.Common.{
  ℕ, ◌+◌, ◌-◌, ◌%◌, ◌^◌, ◌<◌, ◌≡◌, refl, sym, ap, ◌∙◌, List, [], ◌∷◌, ◌++◌, length, length-append,
  done, ◌>>=◌, >>=_assoc, >>=_cong, arith,
}
use mqtt_broker.Common.Bytes.{be16, be32}
use mqtt_broker.Common.Buffer.{Out, memcpy, advance, emit, emit_lem, emit-append, memcpy-append}
use mqtt_broker.VarInt.{code_var_int}
use mqtt_broker.VarInt.Encoding.{var_int_size-length, length-code_var_int}
use mqtt_broker.Entity.{
  Entity, byte_entity, two_byte_entity, four_byte_entity, string_entity, binary_data_entity,
  string_pair_entity, var_int_entity, string_size, size, serialize_string, serialize_without_len,
  serialize,
}

-- A text is a length of two bytes and its bytes.
abbrev pub string_encoding : List ℕ → List ℕ
string_encoding s = be16 (length s % 2 ^ 16) ++ s

unfoldable pub encoding : Entity → List ℕ
encoding (byte_entity v) = v ∷ []
encoding (two_byte_entity v) = be16 v
encoding (four_byte_entity v) = be32 v
encoding (string_entity s) = string_encoding s
encoding (binary_data_entity d) = string_encoding d
encoding (string_pair_entity s t) = string_encoding s ++ string_encoding t
encoding (var_int_entity v) = code_var_int v

-- The values that the wire format can hold.
abbrev pub IsValid : Entity → Type 0
IsValid (byte_entity v) = v < 256
IsValid (two_byte_entity v) = v < 2 ^ 16
IsValid (four_byte_entity v) = v < 2 ^ 32
IsValid (string_entity s) = length s < 2 ^ 16
IsValid (binary_data_entity d) = length d < 2 ^ 16
IsValid (string_pair_entity s t) = (length s < 2 ^ 16) × (length t < 2 ^ 16)
IsValid (var_int_entity v) = v < 2 ^ 28

pub serialize_string-emit :
    (s : List ℕ) (dst : ℕ) (o : Out) → serialize_string s dst o ≡ emit dst (string_encoding s) o
unfolding serialize_string string_size
serialize_string-emit s dst o =
    sym (>>=_assoc (memcpy dst (be16 (length s % 2 ^ 16)) o) _ _)
    ∙ ap (λ m. m >>= λ o2. done (advance ((2 + length s) % 2 ^ 32) o2))
        (sym (memcpy-append dst (be16 (length s % 2 ^ 16)) s o))
    ∙ emit_lem dst ((2 + length s) % 2 ^ 32) (string_encoding s) o (omega arith)

pub serialize_without_len-emit :
    (d : List ℕ) (dst : ℕ) (o : Out) → serialize_without_len d dst o ≡ emit dst d o
unfolding serialize_without_len string_size
serialize_without_len-emit d dst o =
    emit_lem dst (((2 + length d) % 2 ^ 32 + 2 ^ 32 - 2) % 2 ^ 32) d o (omega arith)

-- `Size` is the number of bytes on the wire.
pub size-encoding : (e : Entity) → IsValid e → size e ≡ length (encoding e)
unfolding size string_size encoding
size-encoding (byte_entity v) h = refl
size-encoding (two_byte_entity v) h = refl
size-encoding (four_byte_entity v) h = refl
size-encoding (string_entity s) h = omega arith
size-encoding (binary_data_entity d) h = omega arith
size-encoding (string_pair_entity s t) h =
    omega (arith, length-append (string_encoding s) (string_encoding t))
size-encoding (var_int_entity v) h = var_int_size-length v (omega arith)

string_place :
    (s : List ℕ) (dst : ℕ)
    → length s < 2 ^ 16
    → dst + string_size s ≡ dst + length (string_encoding s)
unfolding string_size
string_place s dst h = omega arith

-- `Serialize` stores the wire format at `dst` and moves `offset` past it.
pub serialize-emit :
    (e : Entity) (dst : ℕ) (o : Out) → IsValid e → serialize e dst o ≡ emit dst (encoding e) o
unfolding serialize encoding
serialize-emit (byte_entity v) dst o h = emit_lem dst 1 (v ∷ []) o refl
serialize-emit (two_byte_entity v) dst o h = emit_lem dst 2 (be16 v) o refl
serialize-emit (four_byte_entity v) dst o h = emit_lem dst 4 (be32 v) o refl
serialize-emit (string_entity s) dst o h = serialize_string-emit s dst o
serialize-emit (binary_data_entity d) dst o h = serialize_string-emit d dst o
serialize-emit (string_pair_entity s t) dst o h = rw (serialize_string-emit s dst o) (
    >>=_cong (emit dst (string_encoding s) o) _ _ (λ o'.
      serialize_string-emit t (dst + string_size s) o'
      ∙ ap (λ d. emit d (string_encoding t) o') (string_place s dst h.0))
    ∙ emit-append dst (string_encoding s) (string_encoding t) o)
serialize-emit (var_int_entity v) dst o h =
    emit_lem dst _ (code_var_int v) o (omega (arith, length-code_var_int v))
