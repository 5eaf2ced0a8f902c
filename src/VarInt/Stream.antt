-- ===== src/VarInt/Stream.antt =====
-- `ReadVariableInt`, which reads from a socket, against `DeCodeVarInt`, which reads from a buffer.
use mqtt_broker.Common.{
  ℕ, suc, ◌+◌, ◌*◌, ◌%◌, ◌^◌, ◌<◌, ◌≡◌, ◌⊎◌, inl, inr, refl, bit_and, List, [], ◌∷◌, ◌++◌, length,
  drop, ltb, ◌==◌, arith, Exec, done, fault, abort, out_of_fuel, Bool-cases, false, drop-append_eq,
}
use mqtt_broker.VarInt.{
  MqttErr, Decoded, decoded, failed, add_group, decode_loop, decode_var_int, code_var_int, Received,
  received, read_failed, read_loop, read_variable_int,
}
use mathlib.Core.Path.{subst, ap, ◌∙◌}
use mqtt_broker.VarInt.RoundTrip.{decode_var_int-code_var_int}

-- The two results on the same bytes: the same number and the same count of bytes taken, the same
-- error, or the end of the input on both sides.
abbrev pub Agrees : List ℕ → ℕ → Exec Decoded → Received → Type 0
Agrees buf offset (done (decoded v size)) r =
    (n : ℕ) × (size ≡ offset + n) × (r ≡ received v (drop n buf))
Agrees buf offset (done (failed e)) r = (rest : List ℕ) × (r ≡ read_failed e rest)
Agrees buf offset fault r = r ≡ read_failed MqttErr.read_err []
Agrees buf offset abort r = ⊥
Agrees buf offset out_of_fuel r = ⊥

-- The multiplier and the offset go together through the rounds.
abbrev IsRound : ℕ → ℕ → Type 0
IsRound m off =
    ((m ≡ 1) × (off ≡ 0))
    ⊎ ((m ≡ 128) × (off ≡ 1))
    ⊎ ((m ≡ 16384) × (off ≡ 2))
    ⊎ ((m ≡ 2097152) × (off ≡ 3))
    ⊎ ((m ≡ 268435456) × (off ≡ 4))

IsRound-next :
    (m off : ℕ)
    → IsRound m off
    → ltb (128 ^ 3) m ≡ false
    → IsRound (m * 128 % 2 ^ 32) ((off + 1) % 256) × ((off + 1) % 256 ≡ off + 1)
IsRound-next m off r e = ground arith

Agrees-cons :
    (b : ℕ) (buf : List ℕ) (off : ℕ) (d : Exec Decoded) (r : Received)
    → Agrees buf (off + 1) d r
    → Agrees (b ∷ buf) off d r
Agrees-cons b buf off (done (decoded v size)) r (n, e, p) = (suc n, omega arith, p)
Agrees-cons b buf off (done (failed e)) r h = h
Agrees-cons b buf off fault r h = h
Agrees-cons b buf off abort r h = h
Agrees-cons b buf off out_of_fuel r h = h

-- The claim for the rounds that are left, under the wrapped offset of the code.
wrapped :
    (buf : List ℕ) (off : ℕ) (d : Exec Decoded) (r : Received)
    → (off + 1) % 256 ≡ off + 1
    → Agrees buf ((off + 1) % 256) d r
    → Agrees buf (off + 1) d r
wrapped buf off d r e h = subst (λ t. Agrees buf t d r) e h

loops_agree :
    (buf : List ℕ) (acc m off : ℕ)
    → IsRound m off
    → Agrees buf off (decode_loop buf acc m off) (read_loop buf acc m)
unfolding decode_loop read_loop
loops_agree [] acc m off r = refl
loops_agree (b ∷ buf) acc m off r = elim (Bool-cases (ltb (128 ^ 3) m)) [
  | inl over ↦ rw over (buf, refl)
  | inr more ↦ elim (Bool-cases (bit_and b 0x80 == 0)) [
    | inl last ↦ rw (more, last) (1, (IsRound-next m off r more).1, refl)
    | inr next ↦
        rw (more, next)
          (Agrees-cons b buf off _ _ (
            wrapped buf off _ _ (IsRound-next m off r more).1 (
              loops_agree buf (add_group acc b m) (m * 128 % 2 ^ 32) ((off + 1) % 256)
                (IsRound-next m off r more).0)))
  ]
]

-- On every sequence of bytes the socket reader and the buffer decoder agree: on success they
-- return the same number and take as many bytes as the decoder's `size`, on an over-long number
-- they fail with the same error, and where the decoder would read past the end of its buffer the
-- reader returns `read_err`.
pub read_variable_int-decode_var_int :
    (buf : List ℕ) → Agrees buf 0 (decode_var_int buf) (read_variable_int buf)
unfolding decode_var_int read_variable_int
read_variable_int-decode_var_int buf = loops_agree buf 0 1 0 (inl (refl, refl))

received_of :
    (xs rest : List ℕ) (v : ℕ) (r : Received)
    → Agrees (xs ++ rest) 0 (done (decoded v (length xs))) r
    → r ≡ received v rest
received_of xs rest v r (n, e, p) = p ∙ ap (received v) (drop-append_eq n xs rest (omega arith))

-- A number below 2 ^ 28 that the encoder stored is read back from the socket.
pub read_variable_int-code_var_int :
    (v : ℕ) (rest : List ℕ)
    → v < 2 ^ 28
    → read_variable_int (code_var_int v ++ rest) ≡ received v rest
read_variable_int-code_var_int v rest h = received_of (code_var_int v) rest v _ (
    rw (decode_var_int-code_var_int v rest h) at
      (read_variable_int-decode_var_int (code_var_int v ++ rest)))
