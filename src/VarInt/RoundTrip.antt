-- ===== src/VarInt/RoundTrip.antt =====
-- The decoders against the encoder.
use mqtt_broker.Common.{
  ℕ, zero, suc, ◌+◌, ◌*◌, ◌/◌, ◌%◌, ◌^◌, ◌<◌, ◌≤◌, ◌≡◌, List, [], ◌∷◌, ◌++◌, length, arith, done,
  out_of_fuel, ◌≢◌, ap, ◌∙◌,
}
use mqtt_broker.Common.Bits.{low_bits, top_bit}
use mqtt_broker.VarInt.{
  MqttErr, decoded, failed, add_group, decode_loop, decode_var_int, code_var_int,
}
use mqtt_broker.VarInt.Encoding.{
  groups, groups_last, groups_more, groups_short, code_var_int-groups,
}
use mathlib.Core.Path.{ap₂}
use native.Mathlib.Decide.{dec_lt}
use native.Mathlib.Nat.{div-add-mod, pow-suc}

-- One round on a last byte, and on a byte with its top bit set over the group `g`.
last_byte :
    (w acc m off : ℕ) (rest : List ℕ)
    → w < 128
    → m ≤ 2097152
    → off < 255
    → acc + w * m < 2 ^ 32
    → decode_loop (w ∷ rest) acc m off ≡ done (decoded (acc + w * m) (off + 1))
unfolding decode_loop
last_byte w acc m off rest hw hm ho fits = ground (arith, low_bits w, top_bit w)

inner_byte :
    (g acc m off : ℕ) (rest : List ℕ)
    → g < 128
    → m ≤ 2097152
    → off < 255
    → acc + g * m < 2 ^ 32
    → decode_loop ((g + 128) ∷ rest) acc m off ≡ decode_loop rest (acc + g * m) (m * 128) (off + 1)
unfolding decode_loop
inner_byte g acc m off rest hg hm ho fits = ground (arith, low_bits (g + 128), top_bit (g + 128))

fifth_byte :
    (b acc off : ℕ) (rest : List ℕ)
    → decode_loop (b ∷ rest) acc 268435456 off ≡ done (failed MqttErr.var_int_err)
unfolding decode_loop
fifth_byte b acc off rest = ground arith

split_group : (w m : ℕ) → w * m ≡ w % 128 * m + w / 128 * (m * 128)
split_group w m = omega (arith, ap (λ (t : ℕ). t * m) (div-add-mod w 128))

group_le : (w m : ℕ) → w % 128 * m ≤ w * m
group_le w m = omega (arith, split_group w m)

power_le : (m k : ℕ) → m ≤ m * 128 ^ k
power_le m zero = omega arith
power_le m (suc k) = omega (arith, power_le m k, ap (λ (t : ℕ). m * t) (pow-suc 128 k))

decode_loop-groups :
    (k w acc m off : ℕ) (rest : List ℕ)
    → w < 128 ^ suc k
    → m * 128 ^ k ≤ 2097152
    → off + k < 255
    → acc + w * m < 2 ^ 32
    → decode_loop (groups k w ++ rest) acc m off
      ≡ done (decoded (acc + w * m) (off + length (groups k w)))
decode_loop-groups zero w acc m off rest hw hm ho fits =
    rw (groups_last zero w (omega arith))
      (last_byte w acc m off rest (omega arith) (omega arith) (omega arith) fits)
decode_loop-groups (suc k) w acc m off rest hw hm ho fits = elim (dec_lt w 128) [
  | yes small ↦
      rw (groups_last (suc k) w small)
        (last_byte w acc m off rest small (omega (arith, power_le m (suc k))) (omega arith) fits)
  | no big ↦
      rw (groups_more k w (omega arith), split_group w m)
        (inner_byte (w % 128) acc m off (groups k (w / 128) ++ rest) (omega arith)
            (omega (arith, power_le m (suc k))) (omega arith) (omega (arith, split_group w m))
          ∙ decode_loop-groups k (w / 128) (acc + w % 128 * m) (m * 128) (off + 1) rest
              (omega arith) (omega (arith, ap (λ (t : ℕ). m * t) (pow-suc 128 k))) (omega arith)
              (omega (arith, split_group w m))
          ∙ ap done (ap₂ decoded (omega arith) (omega arith)))
]

-- The decoder returns every number below 2 ^ 28 that the encoder stored, with the number of bytes
-- that were stored, and does not look at what follows.
pub decode_var_int-code_var_int :
    (v : ℕ) (rest : List ℕ)
    → v < 2 ^ 28
    → decode_var_int (code_var_int v ++ rest) ≡ done (decoded v (length (code_var_int v)))
unfolding decode_var_int
decode_var_int-code_var_int v rest h =
    rw (code_var_int-groups v (omega arith), groups_short v h)
      (decode_loop-groups 3 v 0 1 0 rest (omega arith) (omega arith) (omega arith) (omega arith)
        ∙ ap done (ap₂ decoded (omega arith) (omega arith)))

five_bytes :
    (a b c d e : ℕ) (rest : List ℕ)
    → a < 128
    → b < 128
    → c < 128
    → d < 128
    → decode_loop ((a + 128) ∷ (b + 128) ∷ (c + 128) ∷ (d + 128) ∷ e ∷ rest) 0 1 0
      ≡ done (failed MqttErr.var_int_err)
five_bytes a b c d e rest ha hb hc hd =
    inner_byte a 0 1 0 _ ha (omega arith) (omega arith) (omega arith)
    ∙ inner_byte b (0 + a * 1) (1 * 128) 1 _ hb (omega arith) (omega arith) (omega arith)
    ∙ inner_byte c (0 + a * 1 + b * 128) 16384 2 _ hc (omega arith) (omega arith) (omega arith)
    ∙ inner_byte d (0 + a * 1 + b * 128 + c * 16384) 2097152 3 _ hd (omega arith) (omega arith)
        (omega arith)
    ∙ fifth_byte e _ 4 rest

-- A number from 2 ^ 28 to 2 ^ 32, which the encoder stores in five bytes, is refused with
-- `var_int_err`.
pub decode_var_int-code_var_int_long :
    (v : ℕ) (rest : List ℕ)
    → 2 ^ 28 ≤ v
    → v < 2 ^ 32
    → decode_var_int (code_var_int v ++ rest) ≡ done (failed MqttErr.var_int_err)
unfolding decode_var_int
decode_var_int-code_var_int_long v rest h k =
    rw
      (
        code_var_int-groups v k,
        groups_more 3 v (omega arith),
        groups_more 2 (v / 128) (omega arith),
        groups_more 1 (v / 128 / 128) (omega arith),
        groups_more 0 (v / 128 / 128 / 128) (omega arith),
        groups_last 0 (v / 128 / 128 / 128 / 128) (omega arith),
      )
      (five_bytes _ _ _ _ _ rest (omega arith) (omega arith) (omega arith) (omega arith))

decode_loop_size :
    (buf : List ℕ) (acc m off v size : ℕ)
    → decode_loop buf acc m off ≡ done (decoded v size)
    → size ≤ off + length buf
unfolding decode_loop
decode_loop_size [] acc m off v size e = cc
decode_loop_size (b ∷ buf) acc m off v size e =
    ground
      (arith, decode_loop_size buf (add_group acc b m) (m * 128 % 2 ^ 32) ((off + 1) % 256) v size)

-- The decoder takes no more bytes than there are.
pub decode_var_int_size :
    (buf : List ℕ) (v size : ℕ) → decode_var_int buf ≡ done (decoded v size) → size ≤ length buf
unfolding decode_var_int
decode_var_int_size buf v size e = omega (arith, decode_loop_size buf 0 1 0 v size e)

decode_loop_ends : (buf : List ℕ) (acc m off : ℕ) → decode_loop buf acc m off ≢ out_of_fuel
unfolding decode_loop
decode_loop_ends [] acc m off = λ e. cc
decode_loop_ends (b ∷ buf) acc m off =
    ground (arith, decode_loop_ends buf (add_group acc b m) (m * 128 % 2 ^ 32) ((off + 1) % 256))

-- The decoder returns or faults on every input: its loop needs no fuel.
pub decode_var_int_ends : (buf : List ℕ) → decode_var_int buf ≢ out_of_fuel
unfolding decode_var_int
decode_var_int_ends buf = decode_loop_ends buf 0 1 0
