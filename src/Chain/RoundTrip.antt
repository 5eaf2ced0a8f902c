-- ===== src/Chain/RoundTrip.antt =====
-- `Create` on what `Serialize` stored.
use mqtt_broker.Common.{
  ℕ, zero, suc, ◌+◌, ◌-◌, ◌%◌, ◌^◌, ◌<◌, ◌≤◌, ◌≡◌, refl, sym, ap, ◌∙◌, List, [], ◌∷◌, ◌++◌, length,
  length-append, append_assoc, append-nil, drop-append_eq, All, done, arith, ◌==◌, false,
}
use mathlib.Core.Path.{ap₂}
use native.Mathlib.Nat.{add-zero}
use mqtt_broker.VarInt.{MqttErr, code_var_int, decoded}
use mqtt_broker.VarInt.Encoding.{length-code_var_int}
use mqtt_broker.VarInt.RoundTrip.{decode_var_int-code_var_int}
use mqtt_broker.Property.{Property}
use mqtt_broker.Property.Wire as PropertyWire
use mqtt_broker.Chain.{add_property, create_loop, after_length, create_with, create}
use mqtt_broker.Chain.Wire.{body, encoding, IsValid}

-- The identifiers ascend, as in the map.
abbrev pub Ascending : ℕ → List Property → Type 0
Ascending n [] = Unit {0}
Ascending n (p ∷ ps) = (n ≤ p.id) × Ascending (p.id + 1) ps

-- No property is longer than a `uint8_t` can say.
abbrev pub IsShort : Property → Type 0
IsShort p = length (PropertyWire.encoding p) < 256

abbrev pub IsBefore : ℕ → Property → Type 0
IsBefore n q = q.id < n

pub add_property-last :
    (acc : List Property) (p : Property) (n : ℕ)
    → All (IsBefore n) acc
    → n ≤ p.id
    → add_property p acc ≡ acc ++ (p ∷ [])
unfolding add_property
add_property-last [] p n h b = refl
add_property-last (q ∷ acc) p n (h, hs) b = ground (arith, add_property-last acc p n hs b)

pub All-last :
    (acc : List Property) (p : Property) (n : ℕ)
    → All (IsBefore n) acc
    → n ≤ p.id
    → All (IsBefore (p.id + 1)) (acc ++ (p ∷ []))
All-last [] p n h b = (omega arith, tt)
All-last (q ∷ acc) p n (h, hs) b = (omega arith, All-last acc p n hs b)

-- One round of the loop on a property that was stored.
create_loop_step :
    (fuel : ℕ) (front rest : List ℕ) (p_len : ℕ) (chain : List Property) (p : Property)
    → PropertyWire.IsValid p
    → IsShort p
    → length (PropertyWire.encoding p) ≤ p_len
    → p_len < 2 ^ 17
    → length front < 2 ^ 17
    → create_loop (suc fuel) (front ++ (PropertyWire.encoding p ++ rest)) p_len chain (length front)
      ≡ create_loop fuel
          (front ++ (PropertyWire.encoding p ++ rest))
          (p_len - length (PropertyWire.encoding p))
          (add_property p chain)
          (length front + length (PropertyWire.encoding p))
unfolding create_loop
create_loop_step fuel front rest p_len chain p v short le lt lf =
    rw (drop-append_eq (length front) front (PropertyWire.encoding p ++ rest) refl) (
      rw (PropertyWire.create_property-encoding p rest v, nonzero)
        (ap₂ (λ a b. create_loop fuel buf a (add_property p chain) b) (omega (arith, short, le, lt))
          (omega (arith, short, lf))))
  where
    buf : List ℕ
    buf = front ++ (PropertyWire.encoding p ++ rest)

    nonzero : (p_len == 0) ≡ false
    nonzero = ground (arith, le)

create_loop-body :
    (ps : List Property) (fuel n : ℕ) (front rest : List ℕ) (chain : List Property)
    → All PropertyWire.IsValid ps
    → All IsShort ps
    → Ascending n ps
    → All (IsBefore n) chain
    → length front + length (body ps) < 2 ^ 17
    → length ps < fuel
    → create_loop fuel (front ++ (body ps ++ rest)) (length (body ps)) chain (length front)
      ≡ done (record {
        status = MqttErr.ok;
        chain = chain ++ ps;
        size = length front + length (body ps);
      })
create_loop-body ps zero n front rest chain v s a b lt f = absurd (omega arith)
create_loop-body [] (suc fuel) n front rest chain v s a b lt f =
    unfold create_loop in
    ap done (λ i. record {
      status = MqttErr.ok;
      chain = sym (append-nil chain) i;
      size = sym (add-zero (length front)) i;
    })
create_loop-body (p ∷ ps) (suc fuel) n front rest chain (v, vs) (s, ss) (a, as') b lt f =
    ap (λ ys. create_loop (suc fuel) (front ++ ys) (length (body (p ∷ ps))) chain (length front))
      (append_assoc enc (body ps) rest)
    ∙ create_loop_step fuel front (body ps ++ rest) (length (body (p ∷ ps))) chain p v s
        (omega (arith, whole)) (omega (arith, whole, lt)) (omega (arith, lt))
    ∙ (λ i.
        create_loop fuel (sym (append_assoc front enc (body ps ++ rest)) i) (len_eq i)
          (add_property-last chain p n b a i) (sym (length-append front enc) i))
    ∙ create_loop-body ps fuel (p.id + 1) (front ++ enc) rest (chain ++ (p ∷ [])) vs ss as'
        (All-last chain p n b a) (omega (arith, whole, lt, length-append front enc))
        (omega (arith, f))
    ∙ ap done (λ i. record {
      status = MqttErr.ok;
      chain = append_assoc chain (p ∷ []) ps i;
      size = size_eq i;
    })
  where
    enc : List ℕ
    enc = PropertyWire.encoding p

    len_eq : length (body (p ∷ ps)) - length enc ≡ length (body ps)
    len_eq = omega (arith, length-append enc (body ps))

    size_eq : length (front ++ enc) + length (body ps) ≡ length front + length (body (p ∷ ps))
    size_eq = omega (arith, length-append enc (body ps), length-append front enc)

    whole : length (body (p ∷ ps)) ≡ length enc + length (body ps)
    whole = length-append enc (body ps)

-- `Create` leaves the chain as it was where no property follows.
abbrev pub kept : List Property → List Property → List Property
kept old [] = old
kept old (p ∷ ps) = p ∷ ps

length-body : (ps : List Property) → length ps ≤ length (body ps)
length-body [] = omega arith
length-body (p ∷ ps) =
    omega (arith, length-body ps, length-append (PropertyWire.encoding p) (body ps))

after_length-body :
    (ps old : List Property) (fuel : ℕ) (front rest : List ℕ)
    → IsValid ps
    → All IsShort ps
    → Ascending 0 ps
    → length ps < fuel
    → length front ≤ 5
    → length front + length (body ps) < 2 ^ 17
    → after_length fuel old (front ++ (body ps ++ rest)) (decoded (length (body ps)) (length front))
      ≡ done (record {
        status = MqttErr.ok;
        chain = kept old ps;
        size = length front + length (body ps);
      })
unfolding after_length
after_length-body [] old fuel front rest v s a f l lt =
    ap done (λ i. record { status = MqttErr.ok; chain = old; size = same i })
  where
    same : length front % 2 ^ 32 ≡ length front + 0
    same = omega (arith, l)
after_length-body (p ∷ ps) old fuel front rest v s a f l lt =
    rw (same, nonzero) (create_loop-body (p ∷ ps) fuel 0 front rest [] v.typed s a tt lt f)
  where
    same : length front % 2 ^ 32 ≡ length front
    same = omega (arith, l)

    nonzero : (length (body (p ∷ ps)) == 0) ≡ false
    nonzero = ground arith

-- `Create` reads back the chain that `Serialize` stored, from a buffer that may go on behind it,
-- and `size` is the number of bytes that were stored. The chain must be valid and sorted, with each
-- property below 256 bytes; where it has no property the old chain is kept.
pub create-encoding :
    (ps old : List Property) (rest : List ℕ)
    → IsValid ps
    → All IsShort ps
    → Ascending 0 ps
    → create old (encoding ps ++ rest)
      ≡ done (record { status = MqttErr.ok; chain = kept old ps; size = length (encoding ps) })
unfolding create create_with encoding
create-encoding ps old rest v s a =
    rw
      (
        append_assoc len (body ps) rest,
        decode_var_int-code_var_int (length (body ps)) (body ps ++ rest) (omega (arith, v.fits)),
      )
      (after_length-body ps old (suc (length (len ++ (body ps ++ rest)))) len rest v s a
          (omega (
            arith,
            length-append len (body ps ++ rest),
            length-append (body ps) rest,
            length-body ps,
          ))
          short (omega (arith, short, v.fits))
        ∙ ap done (λ i. record {
          status = MqttErr.ok;
          chain = kept old ps;
          size = sym (length-append len (body ps)) i;
        }))
  where
    len : List ℕ
    len = code_var_int (length (body ps))

    short : length len ≤ 5
    short = (length-code_var_int (length (body ps)) (omega (arith, v.fits))).1
