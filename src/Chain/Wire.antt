-- ===== src/Chain/Wire.antt =====
-- The wire format of a chain, and `Serialize` against it.
use mqtt_broker.Common.{
  ℕ, ◌+◌, ◌%◌, ◌^◌, ◌<◌, ◌≤◌, ◌≡◌, sym, ap, ◌∙◌, List, [], ◌∷◌, ◌++◌, length, length-append,
  append_assoc, append-nil, All, done, ◌>>=◌, >>=_assoc, >>=_cong, >>=_done, arith,
}
use mqtt_broker.Common.Buffer.{Out, memcpy, advance, emit, emit_lem, emit-append}
use mqtt_broker.VarInt.{code_var_int, var_int_size}
use mqtt_broker.VarInt.Encoding.{length-code_var_int, var_int_size-length}
use mqtt_broker.Entity
use mqtt_broker.Property.{Property}
use mqtt_broker.Property.Wire as PropertyWire
use mqtt_broker.Chain.{size_loop, get_size, serialize_loop, serialize}

-- The properties one after the other.
abbrev pub body : List Property → List ℕ
body [] = []
body (p ∷ ps) = PropertyWire.encoding p ++ body ps

-- A chain is the length of its properties and the properties.
unfoldable pub encoding : List Property → List ℕ
encoding ps = code_var_int (length (body ps)) ++ body ps

-- Every property has the type of its identifier, and the chain fits `GetSize`.
pub record IsValid (ps : List Property) : Type 0 where
  pub typed : All PropertyWire.IsValid ps
  pub fits : length (body ps) < 2 ^ 16

next_size :
    (p : Property) (ps : List Property) (size : ℕ)
    → PropertyWire.IsValid p
    → size + length (body (p ∷ ps)) < 2 ^ 16
    → (size + Entity.size p.entity + 1) % 2 ^ 16 ≡ size + length (PropertyWire.encoding p)
next_size p ps size v h =
    omega (arith, PropertyWire.size-encoding p v, length-append (PropertyWire.encoding p) (body ps))

size_loop-body :
    (ps : List Property) (size : ℕ)
    → All PropertyWire.IsValid ps
    → size + length (body ps) < 2 ^ 16
    → size_loop ps size ≡ size + length (body ps)
unfolding size_loop
size_loop-body [] size v h = omega arith
size_loop-body (p ∷ ps) size (vp, vps) h =
    ap (size_loop ps) (next_size p ps size vp h)
    ∙ size_loop-body ps (size + length (PropertyWire.encoding p)) vps
        (omega (arith, length-append (PropertyWire.encoding p) (body ps)))
    ∙ omega (arith, length-append (PropertyWire.encoding p) (body ps))

-- `GetSize` is the number of bytes of the properties.
pub get_size-body : (ps : List Property) → IsValid ps → get_size ps ≡ length (body ps)
unfolding get_size
get_size-body ps v = size_loop-body ps 0 v.typed (omega (arith, v.fits)) ∙ omega arith

-- The loop goes on behind what has been stored.
serialize_loop-emit :
    (ps : List Property) (buf size dst : ℕ) (xs : List ℕ) (o : Out)
    → All PropertyWire.IsValid ps
    → size + length (body ps) < 2 ^ 32
    → dst + length xs ≡ buf + size
    → (emit dst xs o >>= serialize_loop ps buf size) ≡ emit dst (xs ++ body ps) o
unfolding serialize_loop
serialize_loop-emit [] buf size dst xs o v h e =
    (>>=_done (emit dst xs o)) ∙ ap (λ ys. emit dst ys o) (sym (append-nil xs))
serialize_loop-emit (p ∷ ps) buf size dst xs o (vp, vps) h e =
    >>=_cong (emit dst xs o) _ _ (λ o1.
      ap (λ m. m >>= serialize_loop ps buf size')
        (PropertyWire.serialize-emit p (buf + size) o1 vp ∙ ap (λ d. emit d enc o1) (sym e)))
    ∙ sym (>>=_assoc (emit dst xs o) (emit (dst + length xs) enc) (serialize_loop ps buf size'))
    ∙ ap (λ m. m >>= serialize_loop ps buf size') (emit-append dst xs enc o)
    ∙ serialize_loop-emit ps buf size' dst (xs ++ enc) o vps
        (omega (arith, place, length-append enc (body ps)))
        (omega (arith, place, length-append xs enc, length-append enc (body ps)))
    ∙ ap (λ ys. emit dst ys o) (append_assoc xs enc (body ps))
  where
    enc : List ℕ
    enc = PropertyWire.encoding p

    size' : ℕ
    size' = (size + (Entity.size p.entity + 1)) % 2 ^ 32

    place : size' ≡ size + length enc
    place = omega (arith, PropertyWire.size-encoding p vp, length-append enc (body ps))

-- `Serialize` of a chain stores its wire format and moves `offset` past it, where each property has
-- the type of its identifier and the properties take fewer than 65536 bytes.
pub serialize-emit_chain :
    (ps : List Property) (buf : ℕ) (o : Out)
    → IsValid ps
    → serialize ps buf o ≡ emit buf (encoding ps) o
unfolding serialize encoding
serialize-emit_chain ps buf o v = rw (get_size-body ps v) (
    sym (>>=_assoc (memcpy buf len o) (λ o'. done (advance (length len % 256) o')) _)
    ∙ ap (λ m. m >>= serialize_loop ps buf (length len % 256))
        (emit_lem buf (length len % 256) len o (omega (arith, short)))
    ∙ serialize_loop-emit ps buf (length len % 256) buf len o v.typed (omega (arith, short, v.fits))
        (omega (arith, short)))
  where
    len : List ℕ
    len = code_var_int (length (body ps))

    short : length len ≤ 5
    short = (length-code_var_int (length (body ps)) (omega (arith, v.fits))).1

-- `GetVarIntSize(GetSize()) + GetSize()` is the number of bytes of the wire format.
pub length-encoding :
    (ps : List Property)
    → IsValid ps
    → length (encoding ps) ≡ var_int_size (get_size ps) + get_size ps
unfolding encoding
length-encoding ps v = rw (get_size-body ps v) (
    omega (
      arith,
      length-append (code_var_int (length (body ps))) (body ps),
      var_int_size-length (length (body ps)),
      v.fits,
    ))

pub length-encoding_bound :
    (ps : List Property) → IsValid ps → (1 ≤ length (encoding ps)) × (length (encoding ps) < 2 ^ 17)
unfolding encoding
length-encoding_bound ps v = omega (
  arith,
  length-append (code_var_int (length (body ps))) (body ps),
  length-code_var_int (length (body ps)),
  v.fits,
)
