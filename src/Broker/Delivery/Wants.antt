-- ===== src/Broker/Delivery/Wants.antt =====
-- The subscribers that want a message, `Client::MyTopic` of src/client.cpp, and what each of them gets.
use mqtt_broker.Common.{
  ℕ, zero, suc, ◌%◌, ◌^◌, ◌<◌, ◌≡◌, refl, sym, ap, ◌∙◌, bit_and, List, [], ◌∷◌, Bool, true, ◌==◌,
  ==_iff, if◌then◌else◌, Bool-cases, Option, inl, inr, none, some, Exec, done, done_inj,
  >>=-eq-done, All, text_eq, arith,
}
use mqtt_broker.Common.Bits.{all_below, all_below_sound}
use mathlib.Core.Path.{subst}
use mqtt_broker.Packet.{Packet}
use mqtt_broker.Topic.Filter.{hash, tokenize, client_match, check_wild_cards}
use mqtt_broker.Client.{Client}
use mqtt_broker.Broker.{Broker, object, set_object, is_held}
use mqtt_broker.Broker.Delivery.{Carries}

abbrev pub subscriptions : Option Client → Option (List (List ℕ × ℕ))
subscriptions none = none
subscriptions (some c) = some c.subscribed_topics

abbrev pub held : List (ℕ × Option ℕ) → List Client → ℕ → Option Client
held clients objects ref = if is_held clients ref then object objects ref else none

-- The object lives, and one of its filters matches the topic; the options are those of the filter.
abbrev pub Wants : Broker → ℕ → List ℕ → ℕ → Type 0
Wants b ref name options =
    (subs : List (List ℕ × ℕ)) × (subscriptions (held b.clients b.objects ref) ≡ some subs)
    × (check_wild_cards name subs ≡ done (true, options))

-- One packet, in the order of the table, for each subscribed client that wants the topic, with the
-- quality of service of its filter, and none for the others.
pub data Deliveries (b : Broker) (name message : List ℕ)
    : List (ℕ × ℕ) → List (ℕ × Packet) → Type 0 where
  nobody : Deliveries b name message [] []
  passed_over :
      (fd ref : ℕ) (subscribers : List (ℕ × ℕ)) (sent : List (ℕ × Packet))
      → ¬ ((options : ℕ) × Wants b ref name options)
      → Deliveries b name message subscribers sent
      → Deliveries b name message ((fd, ref) ∷ subscribers) sent
  sent_to :
      (fd ref options : ℕ) (packet : Packet) (subscribers : List (ℕ × ℕ)) (sent : List (ℕ × Packet))
      → Wants b ref name options
      → Carries name message (bit_and options 0x03) packet
      → Deliveries b name message subscribers sent
      → Deliveries b name message ((fd, ref) ∷ subscribers) ((fd, packet) ∷ sent)

-- The numbers of a client fit their types.
pub record IsTyped (c : Client) : Type 0 where
  pub counter : c.packet_id_gen < 2 ^ 16
  pub options : All (λ (s : List ℕ × ℕ). s.1 < 256) c.subscribed_topics

mask_table : all_below 256 (λ x. bit_and x 0x03 == x % 4) ≡ true
unfolding all_below
mask_table = refl

pub mask_bound : (x : ℕ) → x < 256 → bit_and x 0x03 < 4
mask_bound x h =
    omega
      (arith, (==_iff _ _).0 (all_below_sound 256 (λ x. bit_and x 0x03 == x % 4) x mask_table h))

pub found_options :
    (name : List ℕ) (subs : List (List ℕ × ℕ)) (options : ℕ)
    → All (λ (s : List ℕ × ℕ). s.1 < 256) subs
    → check_wild_cards name subs ≡ done (true, options)
    → options < 256
unfolding check_wild_cards
found_options name [] options h e = cc
found_options name ((filter, o) ∷ subs) options (h, hs) e =
    elim (Bool-cases (text_eq filter hash)) [
      | inl p ↦ this o h (rw p at e)
      | inr np ↦ elim (Bool-cases (text_eq name filter)) [
        | inl q ↦ this o h (rw (np, q) at e)
        | inr nq ↦
            let (found, _, k) =
              >>=-eq-done (client_match (tokenize name) (tokenize filter)) _ (rw (np, nq) at e) in
            elim (Bool-cases found) [
              | inl y ↦ this o h (rw y at k)
              | inr n ↦ found_options name subs options hs (rw n at k)
            ]
      ]
    ]
  where
    this :
        (o : ℕ)
        → o < 256
        → ◌≡◌ {A = Exec (Bool × ℕ)} (done (true, o)) (done (true, options))
        → options < 256
    this o h e = subst (λ x. x < 256) (ap (λ x. x.1) (done_inj (true, o) (true, options) e)) h

pub set_object-subscriptions :
    (objects : List Client) (ref : ℕ) (c c' : Client) (r : ℕ)
    → object objects ref ≡ some c
    → c'.subscribed_topics ≡ c.subscribed_topics
    → subscriptions (object (set_object objects ref c') r) ≡ subscriptions (object objects r)
set_object-subscriptions [] ref c c' r h e = refl
set_object-subscriptions (d ∷ objects) zero c c' zero h e = ap some e ∙ ap subscriptions (sym h)
set_object-subscriptions (d ∷ objects) zero c c' (suc r) h e = refl
set_object-subscriptions (d ∷ objects) (suc ref) c c' zero h e = refl
set_object-subscriptions (d ∷ objects) (suc ref) c c' (suc r) h e =
    set_object-subscriptions objects ref c c' r h e

pub object-IsTyped :
    (objects : List Client) (ref : ℕ) (c : Client)
    → object objects ref ≡ some c
    → All IsTyped objects
    → IsTyped c
object-IsTyped [] ref c e h = cc
object-IsTyped (d ∷ objects) zero c e (h, hs) = subst IsTyped (some_inj e) h
  where
    some_inj : some d ≡ some c → d ≡ c
    some_inj e = cc
object-IsTyped (d ∷ objects) (suc ref) c e (h, hs) = object-IsTyped objects ref c e hs

pub set_object-IsTyped :
    (objects : List Client) (ref : ℕ) (c : Client)
    → IsTyped c
    → All IsTyped objects
    → All IsTyped (set_object objects ref c)
set_object-IsTyped [] ref c t h = tt
set_object-IsTyped (d ∷ objects) zero c t (h, hs) = (t, hs)
set_object-IsTyped (d ∷ objects) (suc ref) c t (h, hs) = (h, set_object-IsTyped objects ref c t hs)
