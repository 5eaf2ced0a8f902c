-- ===== src/Chain/Termination.antt =====
-- The rounds that the loop of `Create` takes; `size_property` is a `uint8_t`.
use mqtt_broker.Common.{
  ℕ, zero, suc, ◌+◌, ◌-◌, ◌%◌, ◌^◌, ◌<◌, ◌≤◌, ◌≡◌, ◌≢◌, inl, inr, refl, ap, ◌∙◌, List, [], ◌∷◌,
  ◌++◌, length, length-drop, drop, drop-append_eq, append_assoc, Option, some, none, Exec, done,
  out_of_fuel, >>=-ends, arith, Bool-cases, ◌==◌, false,
}
use mqtt_broker.VarInt.{MqttErr, Decoded, decoded, failed, decode_var_int, code_var_int}
use mqtt_broker.VarInt.Encoding.{length-code_var_int}
use mqtt_broker.VarInt.RoundTrip.{
  decode_var_int-code_var_int, decode_var_int_size, decode_var_int_ends,
}
use mqtt_broker.Property.{Property, create_property}
use mqtt_broker.Property.Wire as PropertyWire
use mqtt_broker.Property.Size.{create_property_size, create_property_ends}
use mqtt_broker.Chain.{Created, add_property, create_loop, after_length, create_with, create}
use mqtt_broker.Chain.Wire.{body, encoding, IsValid}

-- A round that takes no byte is repeated for ever.
create_loop_stuck :
    (fuel : ℕ) (buf : List ℕ) (p_len : ℕ) (chain : List Property) (size : ℕ) (p : Property)
    → 0 < p_len
    → p_len < 2 ^ 32
    → size < 2 ^ 32
    → create_property (some (drop size buf)) ≡ done (some (p, 0))
    → create_loop fuel buf p_len chain size ≡ out_of_fuel
unfolding create_loop
create_loop_stuck zero buf p_len chain size p pos lt ls e = refl
create_loop_stuck (suc fuel) buf p_len chain size p pos lt ls e =
    rw (e, nonzero, same_len, same_size)
      (create_loop_stuck fuel buf p_len (add_property p chain) size p pos lt ls e)
  where
    nonzero : (p_len == 0) ≡ false
    nonzero = ground arith

    same_len : (p_len + 2 ^ 32 - 0) % 2 ^ 32 ≡ p_len
    same_len = omega arith

    same_size : (size + 0) % 2 ^ 32 ≡ size
    same_size = omega arith

-- `Create` never returns on a valid chain that begins with a property whose number of bytes on the
-- wire is a multiple of 256, however many rounds it is given.
pub create_diverges :
    (fuel : ℕ) (old : List Property) (p : Property) (ps : List Property) (rest : List ℕ)
    → IsValid (p ∷ ps)
    → length (PropertyWire.encoding p) % 256 ≡ 0
    → create_with fuel old (encoding (p ∷ ps) ++ rest) ≡ out_of_fuel
unfolding create_with after_length encoding
create_diverges fuel old p ps rest v e =
    rw
      (
        append_assoc len (body (p ∷ ps)) rest,
        decode_var_int-code_var_int (length (body (p ∷ ps))) (body (p ∷ ps) ++ rest)
            (omega (arith, v.fits)),
        nonzero,
      )
      (create_loop_stuck fuel (len ++ (body (p ∷ ps) ++ rest)) (length (body (p ∷ ps))) []
        (length len % 2 ^ 32) p pos (omega (arith, v.fits)) (omega arith) first)
  where
    len : List ℕ
    len = code_var_int (length (body (p ∷ ps)))

    short : length len ≤ 5
    short = (length-code_var_int (length (body (p ∷ ps))) (omega (arith, v.fits))).1

    pos : 0 < length (body (p ∷ ps))
    pos = omega arith

    nonzero : (length (body (p ∷ ps)) == 0) ≡ false
    nonzero = ground arith

    enc : List ℕ
    enc = PropertyWire.encoding p

    first :
        create_property (some (drop (length len % 2 ^ 32) (len ++ (body (p ∷ ps) ++ rest))))
        ≡ done (some (p, 0))
    first =
        rw
          (
            drop-append_eq (length len % 2 ^ 32) len (body (p ∷ ps) ++ rest) (omega (arith, short)),
            append_assoc enc (body ps) rest,
          )
          (PropertyWire.create_property-encoding p (body ps ++ rest) v.typed.0
            ∙ ap (λ n. done (some (p, n))) e)

-- No property in the buffer takes a multiple of 256 bytes.
abbrev pub NeverZero : List ℕ → Type 0
NeverZero buf = (k : ℕ) (p : Property) → create_property (some (drop k buf)) ≢ done (some (p, 0))

positive_size :
    (buf : List ℕ) (k : ℕ) (p : Property) (n : ℕ)
    → NeverZero buf
    → create_property (some (drop k buf)) ≡ done (some (p, n))
    → 0 < n
positive_size buf k p zero nz e = absurd (nz k p e)
positive_size buf k p (suc n) nz e = omega arith

create_loop_ends :
    (fuel : ℕ) (buf : List ℕ) (p_len : ℕ) (chain : List Property) (size : ℕ)
    → NeverZero buf
    → length buf < 2 ^ 32
    → size ≤ length buf
    → length buf < fuel + size
    → create_loop fuel buf p_len chain size ≢ out_of_fuel
unfolding create_loop
create_loop_ends zero buf p_len chain size nz lb ls f = absurd (omega arith)
create_loop_ends (suc fuel) buf p_len chain size nz lb ls f = elim (Bool-cases (p_len == 0)) [
  | inl stop ↦ rw stop (λ e. cc)
  | inr go ↦ rw go (
      >>=-ends (create_property (some (drop size buf))) _ (create_property_ends _) (
        rest λ p n q.
          create_loop_ends fuel buf ((p_len + 2 ^ 32 - n) % 2 ^ 32) (add_property p chain)
            ((size + n) % 2 ^ 32) nz lb
            (omega (arith, create_property_size (drop size buf) p n q, length-drop size buf))
            (omega (
              arith,
              positive_size buf size p n nz q,
              create_property_size (drop size buf) p n q,
              length-drop size buf,
            ))))
]
  where
    next : Property → ℕ → Exec Created
    next p n =
        create_loop fuel buf ((p_len + 2 ^ 32 - n) % 2 ^ 32) (add_property p chain)
          ((size + n) % 2 ^ 32)

    rest :
        ((p : Property) (n : ℕ)
          → create_property (some (drop size buf)) ≡ done (some (p, n))
          → next p n ≢ out_of_fuel)
        → (r : Option (Property × ℕ)) → create_property (some (drop size buf)) ≡ done r
        → elim r as (λ _. Exec Created) [
          | none ↦ done (record { status = MqttErr.mqtt_property_err; chain = chain; size = size })
          | some (p, n) ↦ next p n
        ]
          ≢ out_of_fuel
    rest ih none q = λ e. cc
    rest ih (some (p, n)) q = ih p n q

after_length_ends :
    (old : List Property) (buf : List ℕ) (r : Decoded)
    → NeverZero buf
    → length buf < 2 ^ 32
    → decode_var_int buf ≡ done r
    → after_length (suc (length buf)) old buf r ≢ out_of_fuel
unfolding after_length
after_length_ends old buf (failed e) nz lb q = λ e. cc
after_length_ends old buf (decoded n size) nz lb q = elim (Bool-cases (n == 0)) [
  | inl stop ↦ rw stop (λ e. cc)
  | inr go ↦ rw go (
      create_loop_ends (suc (length buf)) buf n [] (size % 2 ^ 32) nz lb
        (omega (arith, decode_var_int_size buf n size q)) (omega arith))
]

-- On a buffer below 2 ^ 32 bytes in which no property takes a multiple of 256 bytes `Create` ends: one round more than
-- there are bytes in the buffer is enough for its loop.
pub create_ends :
    (old : List Property) (buf : List ℕ)
    → NeverZero buf
    → length buf < 2 ^ 32
    → create old buf ≢ out_of_fuel
unfolding create create_with
create_ends old buf nz lb =
    >>=-ends (decode_var_int buf) _ (decode_var_int_ends buf)
      (λ r q. after_length_ends old buf r nz lb q)
