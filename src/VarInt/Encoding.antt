-- ===== src/VarInt/Encoding.antt =====
-- What the loop of `CodeVarInt` stores, and how `GetVarIntSize` counts it.
use mqtt_broker.Common.{
  ℕ, zero, suc, ◌+◌, ◌/◌, ◌%◌, ◌^◌, ◌<◌, ◌≤◌, ◌≡◌, refl, List, [], ◌∷◌, length, All, ltb,
  if◌then◌else◌, arith,
}
use mqtt_broker.Common.Bits.{set_top_bit}
use mqtt_broker.VarInt.{code_loop, code_var_int, size_loop, var_int_size}

-- The groups of seven bits, the lowest first, each but the last with its top bit set.
unfoldable pub groups : ℕ → ℕ → List ℕ
groups zero v = v % 128 ∷ []
groups (suc k) v =
    let rest = groups k (v / 128) in if ltb v 128 then v ∷ [] else (v % 128 + 128) ∷ rest

code_loop-groups : (k v : ℕ) → v < 128 ^ suc k → code_loop (suc k) v ≡ groups k v
unfolding code_loop groups
code_loop-groups zero v h = ground arith
code_loop-groups (suc k) v h =
    ground (arith, set_top_bit (v % 128), code_loop-groups k (v / 128) (omega arith))

pub code_var_int-groups : (v : ℕ) → v < 2 ^ 32 → code_var_int v ≡ groups 4 v
unfolding code_var_int
code_var_int-groups v h = code_loop-groups 4 v (omega arith)

groups-IsByte : (k v : ℕ) → v < 128 ^ suc k → All (λ b. b < 256) (groups k v)
unfolding groups
groups-IsByte zero v h = omega arith
groups-IsByte (suc k) v h = ground (arith, groups-IsByte k (v / 128) (omega arith))

size_loop-groups :
    (k v count : ℕ)
    → v < 128 ^ suc k
    → 0 < v
    → count + k < 255
    → size_loop (suc k) v count ≡ count + length (groups k v)
unfolding size_loop groups
size_loop-groups zero v count h p c = ground arith
size_loop-groups (suc k) v count h p c = ground (arith, size_loop-groups k (v / 128) (count + 1))

length-groups : (k v : ℕ) → (1 ≤ length (groups k v)) × (length (groups k v) ≤ k + 1)
unfolding groups
length-groups zero v = omega arith
length-groups (suc k) v = ground (arith, length-groups k (v / 128))

pub length-code_var_int :
    (v : ℕ) → v < 2 ^ 32 → (1 ≤ length (code_var_int v)) × (length (code_var_int v) ≤ 5)
length-code_var_int v h = rw (code_var_int-groups v h) (length-groups 4 v)

-- `GetVarIntSize` is the number of bytes that `CodeVarInt` stores, for every `uint32_t`.
pub var_int_size-length : (v : ℕ) → v < 2 ^ 32 → var_int_size v ≡ length (code_var_int v)
unfolding var_int_size
var_int_size-length zero h = unfold code_var_int code_loop in refl
var_int_size-length (suc v) h =
    ground (arith, code_var_int-groups (suc v), size_loop-groups 4 (suc v) 0)

-- Every stored byte is a byte.
pub code_var_int-IsByte : (v : ℕ) → v < 2 ^ 32 → All (λ b. b < 256) (code_var_int v)
code_var_int-IsByte v h = rw (code_var_int-groups v h) (groups-IsByte 4 v (omega arith))

pub groups_last : (k v : ℕ) → v < 128 → groups k v ≡ v ∷ []
unfolding groups
groups_last zero v h = ground arith
groups_last (suc k) v h = ground arith

pub groups_more : (k v : ℕ) → 128 ≤ v → groups (suc k) v ≡ (v % 128 + 128) ∷ groups k (v / 128)
unfolding groups
groups_more k v h = ground arith

fewer_groups : (k v : ℕ) → v < 128 ^ suc k → groups (suc k) v ≡ groups k v
unfolding groups
fewer_groups zero v h = ground arith
fewer_groups (suc k) v h = ground (arith, fewer_groups k (v / 128) (omega arith))

pub groups_short : (v : ℕ) → v < 2 ^ 28 → groups 4 v ≡ groups 3 v
groups_short v h = fewer_groups 3 v (omega arith)

pub code_var_int_small : (v : ℕ) → v < 128 → code_var_int v ≡ v ∷ []
code_var_int_small v h = rw (code_var_int-groups v (omega arith)) (groups_last 4 v h)
