-- ===== src/FixedHeader/Wire.antt =====
-- The wire format of a fixed header, and `ReadFixedHeader` on it.
use mqtt_broker.Common.{
  ℕ, ◌+◌, ◌%◌, ◌^◌, ◌<◌, ◌≤◌, ◌≡◌, sym, ap, ◌∙◌, List, [], ◌∷◌, ◌++◌, length, done, ◌>>=◌,
  >>=_assoc, arith,
}
use mqtt_broker.Common.Buffer.{Out, memcpy, advance, emit, emit_lem, memcpy-append}
use mqtt_broker.VarInt.{code_var_int}
use mqtt_broker.VarInt.Encoding.{length-code_var_int, var_int_size-length}
use mqtt_broker.VarInt.Stream.{read_variable_int-code_var_int}
use mqtt_broker.FixedHeader.{FixedHeader, size, serialize, header, of_received, read_fixed_header}

abbrev pub encoding : FixedHeader → List ℕ
encoding h = h.first ∷ code_var_int h.remaining_len

-- `Size` is the number of bytes of the header.
pub size-encoding : (h : FixedHeader) → h.remaining_len < 2 ^ 32 → size h ≡ length (encoding h)
unfolding size
size-encoding h lt = omega (arith, var_int_size-length h.remaining_len lt)

-- `Serialize` stores the header and moves `offset` past it.
pub serialize-emit :
    (h : FixedHeader) (dst : ℕ) (o : Out)
    → h.remaining_len < 2 ^ 32
    → serialize h dst o ≡ emit dst (encoding h) o
unfolding serialize
serialize-emit h dst o lt =
    sym
      (>>=_assoc (memcpy dst (h.first ∷ []) o) (memcpy (dst + 1) (code_var_int h.remaining_len)) _)
    ∙ ap (λ m. m >>= λ o2. done (advance (1 + length (code_var_int h.remaining_len) % 256) o2))
        (sym (memcpy-append dst (h.first ∷ []) (code_var_int h.remaining_len) o))
    ∙ emit_lem dst _ (encoding h) o (omega (arith, length-code_var_int h.remaining_len lt))

-- `ReadFixedHeader` reads back the header that `Serialize` stored, for a remaining length below
-- 2 ^ 28, and leaves the bytes behind it in the socket.
pub read_fixed_header-encoding :
    (h : FixedHeader) (rest : List ℕ)
    → h.remaining_len < 2 ^ 28
    → read_fixed_header (encoding h ++ rest) ≡ header h rest
unfolding read_fixed_header of_received
read_fixed_header-encoding h rest lt = rw (read_variable_int-code_var_int h.remaining_len rest lt)

pub length-encoding_bound :
    (h : FixedHeader)
    → h.remaining_len < 2 ^ 32
    → (2 ≤ length (encoding h)) × (length (encoding h) ≤ 6)
length-encoding_bound h lt = omega (arith, length-code_var_int h.remaining_len lt)
