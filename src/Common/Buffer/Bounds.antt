-- ===== src/Common/Buffer/Bounds.antt =====
-- Stores within a block, stores that fill it, and stores past its end.
use mqtt_broker.Common.Lists.{length}
use mqtt_broker.Common.Runs.{done, fault}
use Prim.Native.Nat.{ℕ, zero, suc, ◌+◌, ◌%◌, ◌^◌, ◌<◌, ◌≤◌}
use mathlib.Core.Path.{◌≡◌, refl}
use mathlib.Core.List.{List, [], ◌∷◌}
use native.Mathlib.Omega.{arith}
use mqtt_broker.Common.Buffer.{write, memcpy, emit}

-- A store that fits the block exactly replaces it.
pub write_exact : (mem xs : List ℕ) → length mem ≡ length xs → write mem 0 xs ≡ done xs
unfolding write
write_exact [] [] h = refl
write_exact (m ∷ mem) [] h = absurd (omega arith)
write_exact [] (x ∷ xs) h = absurd (omega arith)
write_exact (m ∷ mem) (x ∷ xs) h = rw (write_exact mem xs (omega arith))

-- A store past the end of the block faults.
pub write_past :
    (mem : List ℕ) (at : ℕ) (xs : List ℕ)
    → length mem < at + length xs
    → 0 < length xs
    → write mem at xs ≡ fault
unfolding write
write_past mem at [] h k = absurd (omega arith)
write_past [] at (x ∷ xs) h k = refl
write_past (m ∷ mem) zero (x ∷ []) h k = absurd (omega arith)
write_past (m ∷ mem) zero (x ∷ y ∷ xs) h k =
    rw (write_past mem zero (y ∷ xs) (omega arith) (omega arith))
write_past (m ∷ mem) (suc at) (x ∷ xs) h k =
    rw (write_past mem at (x ∷ xs) (omega arith) (omega arith))

-- A block that is exactly filled holds what was stored.
pub emit_exact :
    (mem xs : List ℕ) (off : ℕ)
    → length mem ≡ length xs
    → emit 0 xs (record { bytes = mem; offset = off })
      ≡ done (record { bytes = xs; offset = (off + length xs) % 2 ^ 32 })
unfolding emit memcpy
emit_exact mem xs off h = rw (write_exact mem xs h)

-- A block that is too short is overrun.
pub emit_past :
    (mem xs : List ℕ) (dst off : ℕ)
    → length mem < dst + length xs
    → 0 < length xs
    → emit dst xs (record { bytes = mem; offset = off }) ≡ fault
unfolding emit memcpy
emit_past mem xs dst off h pos = rw (write_past mem dst xs h pos)

-- A store within the block succeeds.
pub write_fits :
    (mem : List ℕ) (at : ℕ) (xs : List ℕ)
    → at + length xs ≤ length mem
    → (mem' : List ℕ) × (write mem at xs ≡ done mem')
unfolding write
write_fits [] at [] h = ([], refl)
write_fits (m ∷ mem) at [] h = (m ∷ mem, refl)
write_fits [] at (x ∷ xs) h = absurd (omega arith)
write_fits (m ∷ mem) zero (x ∷ xs) h =
    let (mem', e) = write_fits mem zero xs (omega arith) in (x ∷ mem', rw e)
write_fits (m ∷ mem) (suc at) (x ∷ xs) h =
    let (mem', e) = write_fits mem at (x ∷ xs) (omega arith) in (m ∷ mem', rw e)

pub emit_fits :
    (mem xs : List ℕ)
    → length xs ≤ length mem
    → (mem' : List ℕ) × (emit 0 xs (record { bytes = mem; offset = 0 })
        ≡ done (record { bytes = mem'; offset = (0 + length xs) % 2 ^ 32 }))
unfolding emit memcpy
emit_fits mem xs h = let (mem', e) = write_fits mem 0 xs (omega arith) in (mem', rw e)
