-- ===== src/Property/Size.antt =====
-- How many bytes `CreateProperty` takes.
use mqtt_broker.Common.{
  ℕ, zero, suc, ◌+◌, ◌≤◌, ◌≡◌, List, [], ◌∷◌, length, length-drop, drop, Option, some, none, Exec,
  done, >>=-eq-done, >>=-ends, out_of_fuel, ◌≢◌, arith,
}
use mqtt_broker.Common.Bytes.{convert_to_host_2_bytes, convert_to_host_4_bytes, read_bytes}
use mqtt_broker.VarInt.{Decoded, decoded, failed, decode_var_int}
use mqtt_broker.VarInt.RoundTrip.{decode_var_int_size, decode_var_int_ends}
use mqtt_broker.Entity.{
  DataType, undefined, byte, two_byte, four_byte, mqtt_string, binary_data, mqtt_string_pair,
  variable_int, var_int_entity,
}
use mqtt_broker.Property.{Property, data_type_of, created, create_of_type, create_property}

read_bytes_size : (n : ℕ) (buf s : List ℕ) → read_bytes n buf ≡ done s → n ≤ length buf
unfolding read_bytes
read_bytes_size zero buf s e = omega arith
read_bytes_size (suc n) [] s e = cc
read_bytes_size (suc n) (b ∷ buf) s e =
    let (r, q, _) = >>=-eq-done (read_bytes n buf) _ e in omega (arith, read_bytes_size n buf r q)

convert_2_size : (buf : List ℕ) (n : ℕ) → convert_to_host_2_bytes buf ≡ done n → 2 ≤ length buf
unfolding convert_to_host_2_bytes
convert_2_size [] n e = cc
convert_2_size (a ∷ []) n e = cc
convert_2_size (a ∷ b ∷ buf) n e = omega arith

convert_4_size : (buf : List ℕ) (n : ℕ) → convert_to_host_4_bytes buf ≡ done n → 4 ≤ length buf
unfolding convert_to_host_4_bytes
convert_4_size [] n e = cc
convert_4_size (a ∷ []) n e = cc
convert_4_size (a ∷ b ∷ []) n e = cc
convert_4_size (a ∷ b ∷ c ∷ []) n e = cc
convert_4_size (a ∷ b ∷ c ∷ d ∷ buf) n e = omega arith

var_int_case :
    (id : ℕ) (buf : List ℕ) (p : Property) (size : ℕ) (r : Decoded)
    → decode_var_int buf ≡ done r
    → elim r as (λ _. Exec (Option (Property × ℕ))) [
      | decoded val vint_size ↦ created id (var_int_entity val) (1 + vint_size)
      | failed e ↦ done none
    ]
      ≡ done (some (p, size))
    → size ≤ suc (length buf)
var_int_case id buf p size (decoded v n) q e = ground (arith, decode_var_int_size buf v n q)
var_int_case id buf p size (failed x) q e = cc

create_of_type_size :
    (t : DataType) (id : ℕ) (buf : List ℕ) (p : Property) (size : ℕ)
    → create_of_type t id buf ≡ done (some (p, size))
    → size ≤ suc (length buf)
unfolding create_of_type
create_of_type_size byte id [] p size e = cc
create_of_type_size byte id (v ∷ buf) p size e = ground arith
create_of_type_size two_byte id buf p size e =
    let (n, q, e') = >>=-eq-done (convert_to_host_2_bytes buf) _ e in
    ground (arith, convert_2_size buf n q)
create_of_type_size four_byte id buf p size e =
    let (n, q, e') = >>=-eq-done (convert_to_host_4_bytes buf) _ e in
    ground (arith, convert_4_size buf n q)
create_of_type_size mqtt_string id buf p size e =
    let (n, q, e') = >>=-eq-done (convert_to_host_2_bytes buf) _ e in
    let (s, r, e'') = >>=-eq-done (read_bytes n (drop 2 buf)) _ e' in
    ground (arith, convert_2_size buf n q, read_bytes_size n (drop 2 buf) s r, length-drop 2 buf)
create_of_type_size binary_data id buf p size e =
    let (n, q, e') = >>=-eq-done (convert_to_host_2_bytes buf) _ e in
    let (s, r, e'') = >>=-eq-done (read_bytes n (drop 2 buf)) _ e' in
    ground (arith, convert_2_size buf n q, read_bytes_size n (drop 2 buf) s r, length-drop 2 buf)
create_of_type_size mqtt_string_pair id buf p size e =
    let (m, q, e1) = >>=-eq-done (convert_to_host_2_bytes buf) _ e in
    let (n, r, e2) = >>=-eq-done (convert_to_host_2_bytes (drop (2 + m) buf)) _ e1 in
    let (s, u, e3) = >>=-eq-done (read_bytes m (drop 2 buf)) _ e2 in
    let (t, w, e4) = >>=-eq-done (read_bytes n (drop (2 + m + 2) buf)) _ e3 in
    ground (
      arith,
      convert_2_size (drop (2 + m) buf) n r,
      length-drop (2 + m) buf,
      read_bytes_size n (drop (2 + m + 2) buf) t w,
      length-drop (2 + m + 2) buf,
    )
create_of_type_size variable_int id buf p size e =
    let (r, q, e') = >>=-eq-done (decode_var_int buf) _ e in var_int_case id buf p size r q e'
create_of_type_size undefined id buf p size e = ground arith

-- The out-parameter `size` of `CreateProperty` never points past the buffer.
pub create_property_size :
    (buf : List ℕ) (p : Property) (size : ℕ)
    → create_property (some buf) ≡ done (some (p, size))
    → size ≤ length buf
unfolding create_property
create_property_size [] p size e = cc
create_property_size (id ∷ buf) p size e = create_of_type_size (data_type_of id) id buf p size e

read_bytes_ends : (n : ℕ) (buf : List ℕ) → read_bytes n buf ≢ out_of_fuel
unfolding read_bytes
read_bytes_ends zero buf = λ e. cc
read_bytes_ends (suc n) [] = λ e. cc
read_bytes_ends (suc n) (b ∷ buf) =
    >>=-ends (read_bytes n buf) _ (read_bytes_ends n buf) (λ s q e. cc)

convert_2_ends : (buf : List ℕ) → convert_to_host_2_bytes buf ≢ out_of_fuel
unfolding convert_to_host_2_bytes
convert_2_ends [] = λ e. cc
convert_2_ends (a ∷ []) = λ e. cc
convert_2_ends (a ∷ b ∷ buf) = λ e. cc

convert_4_ends : (buf : List ℕ) → convert_to_host_4_bytes buf ≢ out_of_fuel
unfolding convert_to_host_4_bytes
convert_4_ends [] = λ e. cc
convert_4_ends (a ∷ []) = λ e. cc
convert_4_ends (a ∷ b ∷ []) = λ e. cc
convert_4_ends (a ∷ b ∷ c ∷ []) = λ e. cc
convert_4_ends (a ∷ b ∷ c ∷ d ∷ buf) = λ e. cc

var_int_ends :
    (id : ℕ) (r : Decoded)
    → elim r as (λ _. Exec (Option (Property × ℕ))) [
      | decoded val vint_size ↦ created id (var_int_entity val) (1 + vint_size)
      | failed e ↦ done none
    ]
      ≢ out_of_fuel
var_int_ends id (decoded v n) = λ e. cc
var_int_ends id (failed x) = λ e. cc

create_of_type_ends : (t : DataType) (id : ℕ) (buf : List ℕ) → create_of_type t id buf ≢ out_of_fuel
unfolding create_of_type
create_of_type_ends byte id [] = λ e. cc
create_of_type_ends byte id (v ∷ buf) = λ e. cc
create_of_type_ends two_byte id buf = >>=-ends _ _ (convert_2_ends buf) (λ n q e. cc)
create_of_type_ends four_byte id buf = >>=-ends _ _ (convert_4_ends buf) (λ n q e. cc)
create_of_type_ends mqtt_string id buf =
    >>=-ends _ _ (convert_2_ends buf) λ n q. >>=-ends _ _ (read_bytes_ends n _) (λ s r e. cc)
create_of_type_ends binary_data id buf =
    >>=-ends _ _ (convert_2_ends buf) λ n q. >>=-ends _ _ (read_bytes_ends n _) (λ s r e. cc)
create_of_type_ends mqtt_string_pair id buf = >>=-ends _ _ (convert_2_ends buf) λ m q.
    >>=-ends _ _ (convert_2_ends _) λ n r.
      >>=-ends _ _ (read_bytes_ends m _) λ s u. >>=-ends _ _ (read_bytes_ends n _) (λ t w e. cc)
create_of_type_ends variable_int id buf =
    >>=-ends _ _ (decode_var_int_ends buf) (λ r q. var_int_ends id r)
create_of_type_ends undefined id buf = λ e. cc

pub create_property_ends : (buf : List ℕ) → create_property (some buf) ≢ out_of_fuel
unfolding create_property
create_property_ends [] = λ e. cc
create_property_ends (id ∷ buf) = create_of_type_ends (data_type_of id) id buf
