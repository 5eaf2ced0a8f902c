-- ===== src/Entity.antt =====
-- The values of the protocol: class `MqttEntity` and its subclasses, src/mqtt_protocol.cpp and
-- headers/mqtt_protocol.h. A `std::string` and a binary value are the lists of their bytes.
pub mod Wire
use mqtt_broker.Common.{ℕ, ◌+◌, ◌-◌, ◌%◌, ◌^◌, List, [], ◌∷◌, length, Bool, ◌==◌, Exec, done, ◌>>=◌}
use mqtt_broker.Common.Bytes.{be16, be32}
use mqtt_broker.Common.Buffer.{Out, memcpy, advance}
use mqtt_broker.VarInt.{code_var_int, var_int_size}

-- `mqtt_data_type`
pub data DataType : Type 0 where
  undefined byte two_byte four_byte mqtt_string binary_data mqtt_string_pair variable_int : DataType

pub data Entity : Type 0 where
  byte_entity : ℕ → Entity
  two_byte_entity : ℕ → Entity
  four_byte_entity : ℕ → Entity
  string_entity : List ℕ → Entity
  binary_data_entity : List ℕ → Entity
  string_pair_entity : List ℕ → List ℕ → Entity
  var_int_entity : ℕ → Entity

unfoldable pub get_type : Entity → DataType
get_type (byte_entity v) = DataType.byte
get_type (two_byte_entity v) = DataType.two_byte
get_type (four_byte_entity v) = DataType.four_byte
get_type (string_entity s) = DataType.mqtt_string
get_type (binary_data_entity d) = DataType.binary_data
get_type (string_pair_entity s t) = DataType.mqtt_string_pair
get_type (var_int_entity v) = DataType.variable_int

-- `MqttStringEntity::Size` and `MqttBinaryDataEntity::Size`
unfoldable pub string_size : List ℕ → ℕ
string_size s = (2 + length s) % 2 ^ 32

unfoldable pub size : Entity → ℕ
size (byte_entity v) = 1
size (two_byte_entity v) = 2
size (four_byte_entity v) = 4
size (string_entity s) = string_size s
size (binary_data_entity d) = string_size d
size (string_pair_entity s t) = (string_size s + string_size t) % 2 ^ 32
size (var_int_entity v) = var_int_size v

-- The base class answers 0 where a subclass has no number.
unfoldable pub get_uint : Entity → ℕ
get_uint (byte_entity v) = v
get_uint (two_byte_entity v) = v
get_uint (four_byte_entity v) = v
get_uint (var_int_entity v) = v
get_uint _ = 0

-- And the empty text where it has no text.
unfoldable pub get_string : Entity → List ℕ
get_string (string_entity s) = s
get_string (binary_data_entity d) = d
get_string _ = []

unfoldable pub get_string_pair : Entity → List ℕ × List ℕ
get_string_pair (string_pair_entity s t) = (s, t)
get_string_pair _ = ([], [])

-- `MqttStringEntity::Serialize` and `MqttBinaryDataEntity::Serialize`
unfoldable pub serialize_string : List ℕ → ℕ → Out → Exec Out
serialize_string s dst o = do
  o1 ← memcpy dst (be16 (length s % 2 ^ 16)) o
  o2 ← memcpy (dst + 2) s o1
  done (advance (string_size s) o2)

-- `MqttBinaryDataEntity::SerializeWithoutLen`
unfoldable pub serialize_without_len : List ℕ → ℕ → Out → Exec Out
serialize_without_len d dst o = do
  o' ← memcpy dst d o
  done (advance ((string_size d + 2 ^ 32 - 2) % 2 ^ 32) o')

unfoldable pub serialize : Entity → ℕ → Out → Exec Out
serialize (byte_entity v) dst o = do o' ← memcpy dst (v ∷ []) o; done (advance 1 o')
serialize (two_byte_entity v) dst o = do o' ← memcpy dst (be16 v) o; done (advance 2 o')
serialize (four_byte_entity v) dst o = do o' ← memcpy dst (be32 v) o; done (advance 4 o')
serialize (string_entity s) dst o = serialize_string s dst o
serialize (binary_data_entity d) dst o = serialize_string d dst o
serialize (string_pair_entity s t) dst o = do
  o' ← serialize_string s dst o
  serialize_string t (dst + string_size s) o'
serialize (var_int_entity v) dst o = do
  o' ← memcpy dst (code_var_int v) o
  done (advance (length (code_var_int v) % 256) o')
