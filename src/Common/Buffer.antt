-- ===== src/Common/Buffer.antt =====
-- The buffer that a `Serialize` method writes to, with the `offset` that it moves.
pub mod Bounds
use mqtt_broker.Common.Lists.{length, length-append}
use mqtt_broker.Common.Runs.{Exec, done, fault, ◌>>=◌, >>=_assoc, >>=_cong, >>=-eq-done}
use Prim.Native.Nat.{ℕ, zero, suc, ◌+◌, ◌%◌, ◌^◌, ◌<◌, ◌≤◌}
use mathlib.Core.Path.{◌≡◌, refl, sym, ap, ◌∙◌}
use mathlib.Core.List.{List, [], ◌∷◌, ◌++◌}
use native.Mathlib.Omega.{arith}
use native.Mathlib.Nat.{zero-add, suc-add, add-zero}

-- `bytes` is the allocated block and `offset` the `uint32_t &offset` of the source.
pub record Out : Type 0 where
  pub bytes : List ℕ
  pub offset : ℕ

-- `write mem at xs` stores `xs` from index `at` on; a write outside the block faults.
pub write : List ℕ → ℕ → List ℕ → Exec (List ℕ)
write mem at [] = done mem
write [] at (x ∷ xs) = fault
write (m ∷ mem) zero (x ∷ xs) = do mem' ← write mem zero xs; done (x ∷ mem')
write (m ∷ mem) (suc at) (x ∷ xs) = do mem' ← write mem at (x ∷ xs); done (m ∷ mem')

-- `memcpy(dst, xs, n)`, where `dst` is an index into the block.
unfoldable pub memcpy : ℕ → List ℕ → Out → Exec Out
memcpy dst xs o = do mem ← write o.bytes dst xs; done (record o { bytes = mem })

-- `offset += n`
abbrev pub advance : ℕ → Out → Out
advance n o = record o { offset = (o.offset + n) % 2 ^ 32 }

-- What a serialised value comes to: its bytes at `dst`, and `offset` moved past them.
unfoldable pub emit : ℕ → List ℕ → Out → Exec Out
emit dst xs o = do o' ← memcpy dst xs o; done (advance (length xs) o')

write-cons :
    (b : ℕ) (mem : List ℕ) (at : ℕ) (xs : List ℕ)
    → write (b ∷ mem) (suc at) xs ≡ (write mem at xs >>= λ mem'. done (b ∷ mem'))
unfolding write
write-cons b [] at [] = refl
write-cons b (m ∷ mem) at [] = refl
write-cons b mem at (x ∷ xs) = refl

-- Two stores side by side are one.
write-append :
    (mem : List ℕ) (at : ℕ) (xs ys : List ℕ)
    → write mem at (xs ++ ys) ≡ (write mem at xs >>= λ mem'. write mem' (at + length xs) ys)
unfolding write
write-append [] at [] ys = rw add-zero
write-append (m ∷ mem) at [] ys = rw add-zero
write-append [] at (x ∷ xs) ys = refl
write-append (m ∷ mem) zero (x ∷ xs) ys =
    rw (write-append mem zero xs ys, >>=_assoc (write mem zero xs), >>=_assoc (write mem zero xs))
      (>>=_cong (write mem zero xs) _ _ λ mem'.
        rw (zero-add (length xs), zero-add (suc (length xs)))
          (sym (write-cons x mem' (length xs) ys)))
write-append (m ∷ mem) (suc at) (x ∷ xs) ys =
    rw
      (
        write-append mem at (x ∷ xs) ys,
        >>=_assoc (write mem at (x ∷ xs)),
        >>=_assoc (write mem at (x ∷ xs)),
      )
      (>>=_cong (write mem at (x ∷ xs)) _ _
        λ mem'. rw suc-add (sym (write-cons m mem' (at + suc (length xs)) ys)))

pub memcpy-append :
    (dst : ℕ) (xs ys : List ℕ) (o : Out)
    → memcpy dst (xs ++ ys) o ≡ (memcpy dst xs o >>= memcpy (dst + length xs) ys)
unfolding memcpy
memcpy-append dst xs ys o = rw (
  write-append o.bytes dst xs ys,
  >>=_assoc (write o.bytes dst xs),
  >>=_assoc (write o.bytes dst xs),
)

memcpy-advance :
    (dst n : ℕ) (xs : List ℕ) (o : Out)
    → memcpy dst xs (advance n o) ≡ (memcpy dst xs o >>= λ o'. done (advance n o'))
unfolding memcpy
memcpy-advance dst n xs o = rw (>>=_assoc (write o.bytes dst xs))

pub advance-advance : (m n : ℕ) (o : Out) → advance n (advance m o) ≡ advance (m + n) o
advance-advance m n o = ground arith

-- Two serialised values side by side are one.
pub emit-append :
    (dst : ℕ) (xs ys : List ℕ) (o : Out)
    → (emit dst xs o >>= emit (dst + length xs) ys) ≡ emit dst (xs ++ ys) o
unfolding emit
emit-append dst xs ys o =
    rw (memcpy-append dst xs ys o, >>=_assoc (memcpy dst xs o), >>=_assoc (memcpy dst xs o))
      (>>=_cong (memcpy dst xs o) _ _ λ o'.
        rw
          (
            memcpy-advance (dst + length xs) (length xs) ys o',
            >>=_assoc (memcpy (dst + length xs) ys o'),
          )
          (>>=_cong (memcpy (dst + length xs) ys o') _ _
            λ q. ap done (rw (length-append xs ys) (advance-advance (length xs) (length ys) q))))

-- `memcpy` and then `offset += n`, the form that the source mostly has.
pub emit_lem :
    (dst n : ℕ) (xs : List ℕ) (o : Out)
    → n % 2 ^ 32 ≡ length xs % 2 ^ 32
    → (memcpy dst xs o >>= λ o'. done (advance n o')) ≡ emit dst xs o
unfolding emit
emit_lem dst n xs o h = >>=_cong (memcpy dst xs o) _ _ λ o'. ap done (ground arith)

memcpy_offset :
    (dst : ℕ) (xs : List ℕ) (o o' : Out) → memcpy dst xs o ≡ done o' → o'.offset ≡ o.offset
unfolding memcpy
memcpy_offset dst xs o o' e =
    let (mem, _, q) = >>=-eq-done (write o.bytes dst xs) _ e in ground arith

-- Where `offset` stands after a serialised value.
pub emit_offset :
    (dst : ℕ) (xs : List ℕ) (o o' : Out)
    → emit dst xs o ≡ done o'
    → o'.offset ≡ (o.offset + length xs) % 2 ^ 32
unfolding emit
emit_offset dst xs o o' e =
    let (o1, p, q) = >>=-eq-done (memcpy dst xs o) _ e in
    ground (arith, memcpy_offset dst xs o o1 p)

-- A method that counts in a `uint32_t local_offset = 0` and does `offset += local_offset` at its
-- end.
unfoldable pub with_local : (Out → Exec Out) → Out → Exec Out
with_local f o = do
  o' ← f (record o { offset = 0 })
  done (record o' { offset = (o.offset + o'.offset) % 2 ^ 32 })

emit_from_zero :
    (dst : ℕ) (xs : List ℕ) (o : Out)
    → (emit dst xs (record o { offset = 0 }) >>= λ o'.
        done (record o' { offset = (o.offset + o'.offset) % 2 ^ 32 }))
      ≡ emit dst xs o
unfolding emit memcpy
emit_from_zero dst xs o =
    rw
      (
        >>=_assoc (write o.bytes dst xs),
        >>=_assoc (write o.bytes dst xs),
        >>=_assoc (write o.bytes dst xs),
      )
      (>>=_cong (write o.bytes dst xs) _ _ λ mem. ap done (ground arith))

pub with_local-emit :
    (f : Out → Exec Out) (dst : ℕ) (xs : List ℕ) (o : Out)
    → f (record o { offset = 0 }) ≡ emit dst xs (record o { offset = 0 })
    → with_local f o ≡ emit dst xs o
unfolding with_local
with_local-emit f dst xs o h = rw h (emit_from_zero dst xs o)

-- A store, `offset` moved past it, and then the rest.
pub emit_then :
    (dst n dst' : ℕ) (xs ys : List ℕ) (k : Out → Exec Out) (o : Out)
    → n ≡ length xs
    → dst' ≡ dst + length xs
    → ((o' : Out) → k o' ≡ emit dst' ys o')
    → (memcpy dst xs o >>= λ o'. k (advance n o')) ≡ emit dst (xs ++ ys) o
emit_then dst n dst' xs ys k o hn hd hk =
    sym (>>=_assoc (memcpy dst xs o) (λ o'. done (advance n o')) k)
    ∙ ap (λ m. m >>= k) (emit_lem dst n xs o (omega arith))
    ∙ >>=_cong (emit dst xs o) _ _ (λ o'. hk o' ∙ ap (λ d. emit d ys o') hd)
    ∙ emit-append dst xs ys o
