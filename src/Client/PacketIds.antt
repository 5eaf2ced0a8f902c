-- ===== src/Client/PacketIds.antt =====
-- The packet identifiers that `GenPacketID` hands out, and the subscriptions of a client.
use mqtt_broker.Common.{
  ℕ, zero, suc, ◌+◌, ◌%◌, ◌^◌, ◌<◌, ◌≡◌, refl, ap, ◌∙◌, List, [], ◌∷◌, Bool, true, false,
  if◌then◌else◌, Bool-cases, clash, inl, inr, ◌⊎◌, text_eq, text_eq_eq, Option, none, some, arith,
}
use mqtt_broker.Handlers.{add_subscription}
use mqtt_broker.Client.{Client, gen_packet_id}

-- The client after `n` identifiers.
abbrev pub after : ℕ → Client → Client
after zero c = c
after (suc n) c = (gen_packet_id (after n c)).1

after_gen :
    (n : ℕ) (c : Client)
    → c.packet_id_gen < 2 ^ 16
    → (after n c).packet_id_gen ≡ (c.packet_id_gen + n) % 2 ^ 16
unfolding gen_packet_id
after_gen zero c h = omega arith
after_gen (suc n) c h = omega (arith, after_gen n c h)

-- The identifier that follows `n` others counts on from the first one modulo 65536: it comes to 0,
-- and any 65536 in a row are different.
pub gen_packet_id-after :
    (n : ℕ) (c : Client)
    → c.packet_id_gen < 2 ^ 16
    → (gen_packet_id (after n c)).0 ≡ (c.packet_id_gen + n) % 2 ^ 16
unfolding gen_packet_id
gen_packet_id-after n c h = after_gen n c h

-- The options under which a topic filter is in the map.
abbrev pub options_of : List ℕ → List (List ℕ × ℕ) → Option ℕ
options_of name [] = none
options_of name ((n, o) ∷ subs) = if text_eq n name then some o else options_of name subs

abbrev pub or_else : Option ℕ → ℕ → ℕ
or_else none o = o
or_else (some p) o = p

differs : (n name k : List ℕ) → text_eq n name ≡ false → text_eq n k ≡ true → text_eq name k ≡ false
differs n name k e h = elim (Bool-cases (text_eq name k)) [
  | inl p ↦ absurd (clash (text_eq n name) (ap (λ m. text_eq n m) (text_eq_eq name k p) ∙ h) e)
  | inr p ↦ p
]

-- `AddSubscription` gives a topic filter that has no options the new ones, leaves one that has
-- options with those that it has, and leaves every other filter as it is.
pub options_of-add_subscription :
    (name : List ℕ) (options : ℕ) (subs : List (List ℕ × ℕ)) (k : List ℕ)
    → options_of k (add_subscription name options subs) ≡ (
        if text_eq name k then some (or_else (options_of name subs) options) else options_of k subs)
unfolding add_subscription
options_of-add_subscription name options [] k = refl
options_of-add_subscription name options ((n, o) ∷ subs) k = elim (Bool-cases (text_eq n name)) [
  | inl e ↦ rw (e, ap (λ m. text_eq m k) (text_eq_eq n name e)) (first_wins (text_eq name k) _ _)
  | inr e ↦
      rw (e, options_of-add_subscription name options subs k) (other e (Bool-cases (text_eq n k)))
]
  where
    first_wins :
        (b : Bool) (x y : Option ℕ) → (if b then x else y) ≡ (if b then x else if b then x else y)
    first_wins true x y = refl
    first_wins false x y = refl

    later : (b : Bool) (x y : Option ℕ) → b ≡ false → x ≡ (if b then y else x)
    later true x y h = cc
    later false x y h = refl

    other :
        text_eq n name ≡ false
        → (text_eq n k ≡ true) ⊎ (text_eq n k ≡ false)
        → (if text_eq n k
            then some o
            else if text_eq name k
            then some (or_else (options_of name subs) options)
            else options_of k subs)
          ≡ (if text_eq name k
              then some (or_else (options_of name subs) options)
              else if text_eq n k
              then some o
              else options_of k subs)
    other e (inr h) = rw h refl
    other e (inl h) = rw h (later (text_eq name k) (some o) _ (differs n name k e h))
