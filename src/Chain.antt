-- ===== src/Chain.antt =====
-- Class `MqttPropertyChain`, src/mqtt_protocol.cpp: a `std::map` of properties by identifier, here
-- the list of them in the order of the map.
pub mod Wire
pub mod RoundTrip
pub mod Termination
pub mod Builder
pub mod Copy
use mqtt_broker.Common.{
  ℕ, zero, suc, ◌+◌, ◌-◌, ◌%◌, ◌^◌, List, [], ◌∷◌, ◌++◌, length, drop, ltb, ◌==◌, if◌then◌else◌,
  Option, none, some, Exec, done, fault, abort, out_of_fuel, ◌>>=◌,
}
use mqtt_broker.Common.Bytes.{read_bytes}
use mqtt_broker.Common.Buffer.{Out, memcpy, advance}
use mqtt_broker.VarInt.{MqttErr, Decoded, decoded, failed, decode_var_int, code_var_int}
use mqtt_broker.Entity.{
  Entity, byte_entity, two_byte_entity, four_byte_entity, string_entity, binary_data_entity,
  string_pair_entity, var_int_entity,
}
use mqtt_broker.Entity
use mqtt_broker.Property.{Property, create_property}
use mqtt_broker.Property

-- `AddProperty`: `std::map::insert`, which keeps an entry that is there.
unfoldable pub add_property : Property → List Property → List Property
add_property p [] = p ∷ []
add_property p (q ∷ qs) =
    if ltb p.id q.id then p ∷ q ∷ qs else if p.id == q.id then q ∷ qs else q ∷ add_property p qs

unfoldable pub get_property : ℕ → List Property → Option Property
get_property id [] = none
get_property id (p ∷ ps) = if p.id == id then some p else get_property id ps

pub count : List Property → ℕ
count ps = length ps % 2 ^ 32

-- `GetSize`, which counts in a `uint16_t`.
size_loop : List Property → ℕ → ℕ
size_loop [] size = size
size_loop (p ∷ ps) size = size_loop ps ((size + Entity.size p.entity + 1) % 2 ^ 16)

pub get_size : List Property → ℕ
get_size ps = size_loop ps 0

serialize_loop : List Property → ℕ → ℕ → Out → Exec Out
serialize_loop [] buf size o = done o
serialize_loop (p ∷ ps) buf size o = do
  o' ← Property.serialize p (buf + size) o
  serialize_loop ps buf ((size + (Entity.size p.entity + 1)) % 2 ^ 32) o'

pub serialize : List Property → ℕ → Out → Exec Out
serialize ps buf o = do
  let p_len_bytes = code_var_int (get_size ps)
  o' ← memcpy buf p_len_bytes o
  let p_len_size = length p_len_bytes % 256
  serialize_loop ps buf p_len_size (advance p_len_size o')

-- What `Create` returns, the chain that it leaves and its out-parameter `size`.
pub record Created : Type 0 where
  pub status : MqttErr
  pub chain : List Property
  pub size : ℕ

-- `while (p_len > 0) { … }`, on fuel.
pub create_loop : ℕ → List ℕ → ℕ → List Property → ℕ → Exec Created
create_loop zero buf p_len chain size = out_of_fuel
create_loop (suc fuel) buf p_len chain size =
    let next : Exec Created = do
      res ← create_property (some (drop size buf))
      elim res [
        | none ↦ done (record { status = MqttErr.mqtt_property_err; chain = chain; size = size })
        | some (p, size_property) ↦
            create_loop fuel buf ((p_len + 2 ^ 32 - size_property) % 2 ^ 32) (add_property p chain)
              ((size + size_property) % 2 ^ 32)
      ]
    in if p_len == 0
      then done (record { status = MqttErr.ok; chain = chain; size = size })
      else next

unfoldable pub after_length : ℕ → List Property → List ℕ → Decoded → Exec Created
after_length fuel old buf (failed e) =
    done (record { status = MqttErr.var_int_err; chain = old; size = 0 })
after_length fuel old buf (decoded properties_len properties_len_size) =
    let read = create_loop fuel buf properties_len [] (properties_len_size % 2 ^ 32) in
    if properties_len == 0
    then done (record { status = MqttErr.ok; chain = old; size = properties_len_size % 2 ^ 32 })
    else read

-- `Create` on a chain that holds `old`, with `fuel` rounds for its loop.
unfoldable pub create_with : ℕ → List Property → List ℕ → Exec Created
create_with fuel old buf = do res ← decode_var_int buf; after_length fuel old buf res

-- A round takes a byte at least, unless the loop never ends.
unfoldable pub create : List Property → List ℕ → Exec Created
create old buf = create_with (suc (length buf)) old buf

-- The `switch` of the copy constructor and of the copy assignment: a new value of the same type. The
-- binary value is built from `Size()` bytes at `GetData()`.
copy_entity : Entity → Exec Entity
copy_entity (byte_entity v) = done (byte_entity (v % 2 ^ 8))
copy_entity (two_byte_entity v) = done (two_byte_entity (v % 2 ^ 16))
copy_entity (four_byte_entity v) = done (four_byte_entity (v % 2 ^ 32))
copy_entity (string_entity s) = done (string_entity s)
copy_entity (binary_data_entity d) = do
  d' ← read_bytes (Entity.size (binary_data_entity d) % 2 ^ 16) d
  done (binary_data_entity d')
copy_entity (string_pair_entity s t) = done (string_pair_entity s t)
copy_entity (var_int_entity v) = done (var_int_entity v)

copy_loop : List Property → List Property → Exec (List Property)
copy_loop [] chain = done chain
copy_loop (p ∷ ps) chain = do
  e ← copy_entity p.entity
  if p.id == 0 then abort else copy_loop ps (add_property (record { id = p.id; entity = e }) chain)

-- `MqttPropertyChain(const MqttPropertyChain &)` and `operator = (const MqttPropertyChain &)`
pub copy : List Property → Exec (List Property)
copy ps = copy_loop ps []
