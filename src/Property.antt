-- ===== src/Property.antt =====
-- Class `MqttProperty` and `CreateProperty`, src/mqtt_protocol.cpp.
pub mod Wire
pub mod Size
use mqtt_broker.Common.{
  ℕ, ◌+◌, ◌%◌, ◌^◌, List, [], ◌∷◌, length, drop, ◌==◌, ◌||◌, if◌then◌else◌, Option, none, some,
  Exec, done, fault, ◌>>=◌,
}
use mqtt_broker.Common.Bytes.{convert_to_host_2_bytes, convert_to_host_4_bytes, read_bytes}
use mqtt_broker.Common.Buffer.{Out, memcpy, advance}
use mqtt_broker.VarInt.{Decoded, decoded, failed, decode_var_int}
use mqtt_broker.Entity.{
  Entity, byte_entity, two_byte_entity, four_byte_entity, string_entity, binary_data_entity,
  string_pair_entity, var_int_entity, DataType, undefined, byte, two_byte, four_byte, mqtt_string,
  binary_data, mqtt_string_pair, variable_int,
}
use mqtt_broker.Entity

pub record Property : Type 0 where
  pub id : ℕ
  pub entity : Entity

-- `MqttProperty::Serialize`
unfoldable pub serialize : Property → ℕ → Out → Exec Out
serialize p dst o = do
  o' ← memcpy dst (p.id ∷ []) o
  Entity.serialize p.entity (dst + 1) (advance 1 o')

-- The case labels of the `switch (id)` in `CreateProperty`.
unfoldable pub data_type_of : ℕ → DataType
data_type_of id =
    if id == 0x01
      || id == 0x19
      || id == 0x17
      || id == 0x24
      || id == 0x25
      || id == 0x28
      || id == 0x29
      || id == 0x2A
    then byte
    else if id == 0x13 || id == 0x21 || id == 0x22 || id == 0x23
    then two_byte
    else if id == 0x02 || id == 0x11 || id == 0x18 || id == 0x27
    then four_byte
    else if id == 0x03
        || id == 0x08
        || id == 0x12
        || id == 0x15
        || id == 0x1A
        || id == 0x1C
        || id == 0x1F
    then mqtt_string
    else if id == 0x09 || id == 0x16
    then binary_data
    else if id == 0x26
    then mqtt_string_pair
    else if id == 0x0B
    then variable_int
    else undefined

-- The new property and the out-parameter `size`, a `uint8_t`.
abbrev pub created : ℕ → Entity → ℕ → Exec (Option (Property × ℕ))
created id e size = done (some (record { id = id; entity = e }, size % 256))

-- The branches of the switch; `buf` is `&buf[1]` of the source. `none` is `nullptr`.
unfoldable pub create_of_type : DataType → ℕ → List ℕ → Exec (Option (Property × ℕ))
create_of_type byte id [] = fault
create_of_type byte id (v ∷ buf) = created id (byte_entity v) 2
create_of_type two_byte id buf = do
  val ← convert_to_host_2_bytes buf
  created id (two_byte_entity val) 3
create_of_type four_byte id buf = do
  val ← convert_to_host_4_bytes buf
  created id (four_byte_entity val) 5
create_of_type mqtt_string id buf = do
  len ← convert_to_host_2_bytes buf
  s ← read_bytes len (drop 2 buf)
  created id (string_entity s) (3 + len)
create_of_type binary_data id buf = do
  len ← convert_to_host_2_bytes buf
  d ← read_bytes len (drop 2 buf)
  created id (binary_data_entity d) (3 + len)
create_of_type mqtt_string_pair id buf = do
  len_1 ← convert_to_host_2_bytes buf
  len_2 ← convert_to_host_2_bytes (drop (2 + len_1) buf)
  s ← read_bytes len_1 (drop 2 buf)
  t ← read_bytes len_2 (drop (2 + len_1 + 2) buf)
  created id (string_pair_entity s t) (3 + len_1 + 2 + len_2)
create_of_type variable_int id buf = do
  res ← decode_var_int buf
  elim res [
    | decoded val vint_size ↦ created id (var_int_entity val) (1 + vint_size)
    | failed e ↦ done none
  ]
create_of_type undefined id buf = done none

-- `none` as an argument is the null pointer.
unfoldable pub create_property : Option (List ℕ) → Exec (Option (Property × ℕ))
create_property none = done none
create_property (some []) = fault
create_property (some (id ∷ buf)) = create_of_type (data_type_of id) id buf

-- `CreateMqttStringEntity` and `CreateMqttBinaryDataEntity`: the bytes and the `uint8_t` size; both
-- functions return `nullptr` with size 0 for a null pointer and for an empty value.
unfoldable pub create_sized_bytes : Option (List ℕ) → Exec (Option (List ℕ × ℕ))
create_sized_bytes none = done none
create_sized_bytes (some buf) = do
  len ← convert_to_host_2_bytes buf
  d ← read_bytes len (drop 2 buf)
  done (if len == 0 then none else some (d, (2 + len) % 256))
