-- ===== src/Handlers/Termination.antt =====
-- The rounds that the loops of `HandleMqttSubscribe` and `HandleMqttUnsubscribe` take.
use mqtt_broker.Common.{
  ℕ, zero, suc, ◌+◌, ◌%◌, ◌^◌, ◌<◌, ◌≡◌, ◌≢◌, List, [], ◌∷◌, drop, All, true, ltb, Bool-cases, inl,
  inr, done, out_of_fuel, >>=-ends, arith,
}
use mqtt_broker.Common.Bytes.{convert_to_host_2_bytes, byte_at, read_bytes}
use mqtt_broker.Handlers.{Subscribed, subscribe_loop, unsubscribe_loop}

abbrev pub IsByte : ℕ → Type 0
IsByte b = b < 256

drop-IsByte : (n : ℕ) (buf : List ℕ) → All IsByte buf → All IsByte (drop n buf)
drop-IsByte zero buf h = h
drop-IsByte (suc n) [] h = tt
drop-IsByte (suc n) (b ∷ buf) (h, hs) = drop-IsByte n buf hs

ltb_lt : (a b : ℕ) → ltb a b ≡ true → a < b
ltb_lt a b e = ground arith

-- A length field ends the program or is below 65536.
length_read :
    (buf : List ℕ)
    → All IsByte buf
    → (convert_to_host_2_bytes buf ≢ out_of_fuel)
      × ((n : ℕ) → convert_to_host_2_bytes buf ≡ done n → n < 2 ^ 16)
unfolding convert_to_host_2_bytes
length_read [] h = (λ e. cc, λ n e. cc)
length_read (a ∷ []) h = (λ e. cc, λ n e. cc)
length_read (a ∷ b ∷ buf) (ha, (hb, h)) = (λ e. cc, λ n e. ground arith)

read_bytes_ends : (n : ℕ) (buf : List ℕ) → read_bytes n buf ≢ out_of_fuel
unfolding read_bytes
read_bytes_ends zero buf = λ e. cc
read_bytes_ends (suc n) [] = λ e. cc
read_bytes_ends (suc n) (b ∷ buf) =
    >>=-ends (read_bytes n buf) (λ rest. done (b ∷ rest)) (read_bytes_ends n buf)
      (λ rest e. λ k. cc)

byte_at_ends : (buf : List ℕ) → byte_at buf ≢ out_of_fuel
unfolding byte_at
byte_at_ends [] = λ e. cc
byte_at_ends (b ∷ buf) = λ e. cc

-- The loop of `HandleMqttSubscribe` ends on every payload of fewer than 2 ^ 30 bytes, well formed or
-- not: with as many rounds as there are bytes behind `offset`, and one more, it returns or reads
-- past the end of the buffer.
pub subscribe_loop_ends :
    (fuel remaining_len : ℕ) (buf : List ℕ) (offset : ℕ) (s : Subscribed)
    → All IsByte buf
    → remaining_len < 2 ^ 30
    → remaining_len < fuel + offset
    → 0 < fuel
    → subscribe_loop fuel remaining_len buf offset s ≢ out_of_fuel
unfolding subscribe_loop
subscribe_loop_ends zero remaining_len buf offset s h lt lf pos = absurd (omega arith)
subscribe_loop_ends (suc fuel) remaining_len buf offset s h lt lf pos =
    elim (Bool-cases (ltb offset remaining_len)) [
      | inl e ↦ rw e (
          >>=-ends (convert_to_host_2_bytes (drop offset buf)) _
            (length_read (drop offset buf) (drop-IsByte offset buf h)).0
            (λ n en.
              >>=-ends (read_bytes n (drop ((offset + 2) % 2 ^ 32) buf)) _ (read_bytes_ends n _)
                (λ name e2.
                  >>=-ends (byte_at (drop (((offset + 2) % 2 ^ 32 + n) % 2 ^ 32) buf)) _
                    (byte_at_ends _)
                    (λ options e3.
                      subscribe_loop_ends fuel remaining_len buf _ _ h lt
                        (omega (
                          arith,
                          ltb_lt offset remaining_len e,
                          (length_read (drop offset buf) (drop-IsByte offset buf h)).1 n en,
                        ))
                        (omega (arith, ltb_lt offset remaining_len e))))))
      | inr e ↦ rw e (λ k. cc)
    ]

-- So does the loop of `HandleMqttUnsubscribe`.
pub unsubscribe_loop_ends :
    (fuel remaining_len : ℕ) (buf : List ℕ) (offset : ℕ) (topics : List (List ℕ))
    → All IsByte buf
    → remaining_len < 2 ^ 30
    → remaining_len < fuel + offset
    → 0 < fuel
    → unsubscribe_loop fuel remaining_len buf offset topics ≢ out_of_fuel
unfolding unsubscribe_loop
unsubscribe_loop_ends zero remaining_len buf offset topics h lt lf pos = absurd (omega arith)
unsubscribe_loop_ends (suc fuel) remaining_len buf offset topics h lt lf pos =
    elim (Bool-cases (ltb offset remaining_len)) [
      | inl e ↦ rw e (
          >>=-ends (convert_to_host_2_bytes (drop offset buf)) _
            (length_read (drop offset buf) (drop-IsByte offset buf h)).0
            (λ n en.
              >>=-ends (read_bytes n (drop ((offset + 2) % 2 ^ 32) buf)) _ (read_bytes_ends n _)
                (λ name e2.
                  unsubscribe_loop_ends fuel remaining_len buf _ _ h lt
                    (omega (
                      arith,
                      ltb_lt offset remaining_len e,
                      (length_read (drop offset buf) (drop-IsByte offset buf h)).1 n en,
                    ))
                    (omega (arith, ltb_lt offset remaining_len e)))))
      | inr e ↦ rw e (λ k. cc)
    ]
