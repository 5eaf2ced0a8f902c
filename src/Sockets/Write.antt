-- ===== src/Sockets/Write.antt =====
-- What `WriteData` sends.
use mqtt_broker.Common.{
  ℕ, zero, suc, ◌+◌, ◌-◌, ◌%◌, ◌^◌, ◌<◌, ◌≤◌, ◌≡◌, ◌≢◌, ◌⊎◌, refl, sym, ap, ◌∙◌, List, [], ◌∷◌,
  ◌++◌, length, length-append, append_assoc, drop, drop-append_eq, true, false, ltb, ◌==◌,
  Bool-cases, inl, inr, none, some, done, arith,
}
use mqtt_broker.Common.Bytes.{read_bytes, read_bytes-append}
use mqtt_broker.Sockets.{Written, write_loop, write_data}

length_zero : (xs : List ℕ) → length xs ≡ 0 → xs ≡ []
length_zero [] h = refl
length_zero (x ∷ xs) h = absurd (omega arith)

-- A list cut in two.
cut :
    (n : ℕ) (xs : List ℕ)
    → n ≤ length xs
    → (ys : List ℕ) × (zs : List ℕ) × (xs ≡ ys ++ zs) × (length ys ≡ n)
cut zero xs h = ([], xs, refl, refl)
cut (suc n) [] h = absurd (omega arith)
cut (suc n) (x ∷ xs) h =
    let (ys, zs, e, l) = cut n xs (omega arith) in (x ∷ ys, zs, ap (λ t. x ∷ t) e, ap suc l)

-- Everything was sent, or a beginning of it that is not all.
abbrev pub Sends : List ℕ → Written → Type 0
Sends buf w =
    (rest : List ℕ) × (buf ≡ w.sent ++ rest)
    × (((w.result ≡ some (length buf)) × (rest ≡ [])) ⊎ ((w.result ≡ none) × (rest ≢ [])))

module _ (write : ℕ → ℕ → ℕ) (write_le : (i n : ℕ) → write i n ≤ n) where
  -- A round that sends `ys`.
  write_round :
      (fuel i : ℕ) (buf sent rest ys zs : List ℕ)
      → buf ≡ sent ++ rest
      → rest ≡ ys ++ zs
      → length buf < 2 ^ 32
      → length ys ≡ write i (length buf - length sent)
      → ltb (length sent) (length buf) ≡ true
      → (write i (length buf - length sent) == 0) ≡ false
      → write_loop write (suc fuel) i buf (length buf) (length sent) sent
        ≡ write_loop write fuel (suc i) buf (length buf) (length (sent ++ ys)) (sent ++ ys)
  unfolding write_loop
  write_round fuel i buf sent rest ys zs e e' small l more p =
      rw (write_loop, more, p, ← l, taken)
        (ap (λ n. write_loop write fuel (suc i) buf (length buf) n (sent ++ ys)) wrapped)
    where
      taken : read_bytes (length ys) (drop (length sent) buf) ≡ done ys
      taken =
          ap (λ t. read_bytes (length ys) (drop (length sent) t)) e
          ∙ ap (read_bytes (length ys)) (drop-append_eq (length sent) sent rest refl ∙ e')
          ∙ read_bytes-append ys zs

      wrapped : (length sent + length ys) % 2 ^ 32 ≡ length (sent ++ ys)
      wrapped = omega (
        arith,
        small,
        ap length e,
        ap length e',
        length-append sent rest,
        length-append ys zs,
        length-append sent ys,
      )

  -- `rest` is what is left to be sent.
  write_loop-Sends :
      (fuel i : ℕ) (buf sent rest : List ℕ)
      → buf ≡ sent ++ rest
      → length buf < 2 ^ 32
      → length rest < fuel
      → (w : Written) × (write_loop write fuel i buf (length buf) (length sent) sent ≡ done w)
        × Sends buf w
  unfolding write_loop
  write_loop-Sends zero i buf sent rest e small h = absurd (omega arith)
  write_loop-Sends (suc fuel) i buf sent rest e small h =
      elim (Bool-cases (ltb (length sent) (length buf))) [
        | inl more ↦ elim (Bool-cases (write i (length buf - length sent) == 0)) [
          | inl z ↦ (
            record { result = none; sent = sent },
            rw (more, z) refl,
            (rest, e, inr (refl, λ n. nonempty more n)),
          )
          | inr p ↦
              let (ys, zs, e', l) =
                cut (write i (length buf - length sent)) rest
                  (omega (arith, write_le i (length buf - length sent), total)) in
              let (w, run, s) =
                write_loop-Sends fuel (suc i) buf (sent ++ ys) zs
                  (e ∙ ap (λ t. sent ++ t) e' ∙ sym (append_assoc sent ys zs)) small
                  (shorter ys zs e' l p) in
              (w, write_round fuel i buf sent rest ys zs e e' small l more p ∙ run, s)
        ]
        | inr full ↦ (
          record { result = some (length sent); sent = sent },
          rw full refl,
          (rest, e, inl (ap some (omega (arith, total, empty full)), nil full)),
        )
      ]
    where
      total : length buf ≡ length sent + length rest
      total = ap length e ∙ length-append sent rest

      empty : ltb (length sent) (length buf) ≡ false → length rest ≡ 0
      empty full = ground (arith, total)

      nil : ltb (length sent) (length buf) ≡ false → rest ≡ []
      nil full = length_zero rest (empty full)

      nonempty : ltb (length sent) (length buf) ≡ true → rest ≡ [] → ⊥
      nonempty more n = ground (arith, total, ap length n)

      shorter :
          (ys zs : List ℕ)
          → rest ≡ ys ++ zs
          → length ys ≡ write i (length buf - length sent)
          → (write i (length buf - length sent) == 0) ≡ false
          → length zs < fuel
      shorter ys zs e' l p = ground (arith, ap length e', length-append ys zs)

  -- `WriteData` of a packet that is as long as `size` says returns: either it has sent every byte of
  -- the packet and the result is `size`, or it has sent a beginning that is not all and the result
  -- is -1. The system takes no more bytes than it is given.
  pub write_data-Sends :
      (buf : List ℕ)
      → length buf < 2 ^ 32
      → (w : Written) × (write_data write buf (length buf) ≡ done w) × Sends buf w
  unfolding write_data
  write_data-Sends buf small =
      write_loop-Sends (suc (length buf)) 0 buf [] buf refl small (omega arith)
