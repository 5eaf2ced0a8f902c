-- ===== src/Common/Bytes.antt =====
-- Bytes and machine words on the wire, in network byte order. (src/functions.cpp)
use mqtt_broker.Common.Lists.{length}
use mqtt_broker.Common.Runs.{Exec, done, fault, ◌>>=◌}
use Prim.Native.Nat.{ℕ, zero, suc, ◌+◌, ◌*◌, ◌/◌, ◌%◌, ◌<◌}
use mathlib.Core.Path.{◌≡◌, refl}
use mathlib.Core.List.{List, [], ◌∷◌, ◌++◌}
use native.Mathlib.Omega.{arith}

-- The bytes that `memcpy` stores of `htons(n)` and of `htonl(n)`.
abbrev pub be16 : ℕ → List ℕ
be16 n = n / 256 % 256 ∷ n % 256 ∷ []

abbrev pub be32 : ℕ → List ℕ
be32 n = n / 16777216 % 256 ∷ n / 65536 % 256 ∷ n / 256 % 256 ∷ n % 256 ∷ []

-- A pointer is the list of the bytes from it to the end of its buffer; a read past the end faults.
unfoldable pub convert_to_host_2_bytes : List ℕ → Exec ℕ
convert_to_host_2_bytes (a ∷ b ∷ _) = done (a * 256 + b)
convert_to_host_2_bytes _ = fault

unfoldable pub convert_to_host_4_bytes : List ℕ → Exec ℕ
convert_to_host_4_bytes (a ∷ b ∷ c ∷ d ∷ _) = done (a * 16777216 + b * 65536 + c * 256 + d)
convert_to_host_4_bytes _ = fault

-- `memcpy(&b, buf, 1)`
unfoldable pub byte_at : List ℕ → Exec ℕ
byte_at [] = fault
byte_at (b ∷ _) = done b

-- `std::string((char *) buf, len)`, and the `memcpy` of a binary value: `len` bytes from `buf`.
unfoldable pub read_bytes : ℕ → List ℕ → Exec (List ℕ)
read_bytes zero buf = done []
read_bytes (suc n) [] = fault
read_bytes (suc n) (b ∷ buf) = do rest ← read_bytes n buf; done (b ∷ rest)

pub convert_to_host_2_bytes-be16 :
    (n : ℕ) (rest : List ℕ) → n < 65536 → convert_to_host_2_bytes (be16 n ++ rest) ≡ done n
unfolding convert_to_host_2_bytes
convert_to_host_2_bytes-be16 n rest h = ground arith

pub convert_to_host_4_bytes-be32 :
    (n : ℕ) (rest : List ℕ) → n < 4294967296 → convert_to_host_4_bytes (be32 n ++ rest) ≡ done n
unfolding convert_to_host_4_bytes
convert_to_host_4_bytes-be32 n rest h = ground arith

pub read_bytes-append : (xs rest : List ℕ) → read_bytes (length xs) (xs ++ rest) ≡ done xs
unfolding read_bytes
read_bytes-append [] rest = refl
read_bytes-append (x ∷ xs) rest = rw (read_bytes-append xs rest)
