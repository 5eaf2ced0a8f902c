-- ===== src/VarInt.antt =====
-- Variable byte integers: `CodeVarInt`, `DeCodeVarInt`, `GetVarIntSize` and `ReadVariableInt` of
-- src/mqtt_protocol.cpp.
pub mod Encoding
pub mod RoundTrip
pub mod Stream
use mqtt_broker.Common.{
  ℕ, zero, suc, ◌+◌, ◌*◌, ◌/◌, ◌%◌, ◌^◌, bit_and, bit_or, List, [], ◌∷◌, length, ltb, ◌==◌,
  if◌then◌else◌, Exec, done, fault, out_of_fuel, ◌>>=◌,
}

-- The return values of the protocol's functions (`mqtt_err`).
pub data MqttErr : Type 0 where
  ok read_err var_int_err mqtt_property_err disconnect handle_error : MqttErr
  protocol_version_err duplicate_client_id user_name_err auth_fail : MqttErr

-- `value` and `size` are set on success only.
pub data Decoded : Type 0 where
  decoded : ℕ → ℕ → Decoded
  failed : MqttErr → Decoded

-- `value += (single_byte & 0x7F)*multiplayer`, on `uint32_t`.
abbrev pub add_group : ℕ → ℕ → ℕ → ℕ
add_group value byte multiplayer = (value + bit_and byte 0x7F * multiplayer % 2 ^ 32) % 2 ^ 32

-- The list is what stands at `buf + offset`.
unfoldable pub decode_loop : List ℕ → ℕ → ℕ → ℕ → Exec Decoded
decode_loop [] value multiplayer offset = fault
decode_loop (single_byte ∷ buf) value multiplayer offset =
    let value' = add_group value single_byte multiplayer in
    let offset' = (offset + 1) % 256 in
    let next = decode_loop buf value' (multiplayer * 128 % 2 ^ 32) offset' in
    if ltb (128 ^ 3) multiplayer
    then done (failed MqttErr.var_int_err)
    else if bit_and single_byte 0x80 == 0
    then done (decoded value' offset')
    else next

unfoldable pub decode_var_int : List ℕ → Exec Decoded
decode_var_int buf = decode_loop buf 0 1 0

-- The bytes that the loop stores at `buf`, `buf + 1` and so on. The first argument is the fuel.
code_loop : ℕ → ℕ → List ℕ
code_loop zero value = []
code_loop (suc fuel) value =
    let single_byte = value % 0x80 in
    let value' = value / 0x80 in
    let next = code_loop fuel value' in
    if value' == 0 then single_byte ∷ [] else bit_or single_byte 0x80 ∷ next

-- A `uint32_t` takes five rounds at most.
pub code_var_int : ℕ → List ℕ
code_var_int value = code_loop 5 value

-- `while(value > 0){ count++; value /= 0x80; }`
size_loop : ℕ → ℕ → ℕ → ℕ
size_loop zero value count = count
size_loop (suc fuel) value count =
    let next = size_loop fuel (value / 0x80) ((count + 1) % 256) in
    if value == 0 then count else next

pub var_int_size : ℕ → ℕ
var_int_size value = if value == 0 then 1 else size_loop 5 value 0

-- What `read(fd, &single_byte, 1)` hands over: the bytes that will arrive, and then no more. The
-- result has the bytes that are left.
pub data Received : Type 0 where
  received : ℕ → List ℕ → Received
  read_failed : MqttErr → List ℕ → Received

unfoldable pub read_loop : List ℕ → ℕ → ℕ → Received
read_loop [] value multiplayer = read_failed MqttErr.read_err []
read_loop (single_byte ∷ stream) value multiplayer =
    let value' = add_group value single_byte multiplayer in
    let next = read_loop stream value' (multiplayer * 128 % 2 ^ 32) in
    if ltb (128 ^ 3) multiplayer
    then read_failed MqttErr.var_int_err stream
    else if bit_and single_byte 0x80 == 0
    then received value' stream
    else next

unfoldable pub read_variable_int : List ℕ → Received
read_variable_int stream = read_loop stream 0 1
