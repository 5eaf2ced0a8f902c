-- ===== src/Topic/Stored/Taken.antt =====
-- The loop of `GetMatchedTopics` of src/topic_storage.cpp against the relation between filters and
-- topics.
use mqtt_broker.Common.{
  ℕ, ◌≡◌, ◌≢◌, ◌↔◌, ◌⊎◌, refl, ap, ◌∙◌, List, [], ◌∷◌, Bool, true, false, ◌||◌, if◌then◌else◌,
  Bool-cases, clash, inl, inr, text_eq, text_eq_refl, text_eq_eq, Exec, done, fault,
}
use mqtt_broker.Topic.Filter.{plus, hash, stored_match}
use mqtt_broker.Topic.Matching.{
  Matches, multi_level, single_last, single_level, same_last, same_level, one_last, one_last_nil,
}
use mqtt_broker.Topic.Stored.{stored_tokens, stored_match-stored_tokens}

-- The stored topic is used up before the filter, while it matched so far, and the filter goes on with
-- a token other than "+".
pub data Overruns : List (List ℕ) → List (List ℕ) → Type 0 where
  used_up : (f : List ℕ) (fs : List (List ℕ)) → f ≢ plus → Overruns (f ∷ fs) []
  plus_beyond : (fs : List (List ℕ)) → Overruns fs [] → Overruns (plus ∷ fs) []
  past_plus :
      (fs : List (List ℕ)) (t : List ℕ) (ts : List (List ℕ))
      → Overruns fs ts
      → Overruns (plus ∷ fs) (t ∷ ts)
  past_same :
      (fs : List (List ℕ)) (t : List ℕ) (ts : List (List ℕ))
      → Overruns fs ts
      → Overruns (t ∷ fs) (t ∷ ts)

not_plus : (f : List ℕ) → f ≢ plus → text_eq f plus ≡ false
not_plus f n = elim (Bool-cases (text_eq f plus)) [
  | inl e ↦ absurd (n (text_eq_eq f plus e))
  | inr e ↦ e
]

same_both : (a : Bool) (x : Exec Bool) → (if a then x else x) ≡ x
same_both true x = refl
same_both false x = refl

Overruns-fault :
    (fs ts : List (List ℕ)) (found : Bool) → Overruns fs ts → stored_tokens fs ts found ≡ fault
unfolding stored_tokens text_eq
Overruns-fault _ _ found (used_up f fs n) = rw (not_plus f n) refl
Overruns-fault _ _ found (plus_beyond fs o) = Overruns-fault fs [] found o
Overruns-fault _ _ found (past_plus fs t ts o) = Overruns-fault fs ts (one_last ts fs || found) o
Overruns-fault _ _ found (past_same fs t ts o) =
    rw
      (
        text_eq_refl t,
        Overruns-fault fs ts (one_last ts fs || found) o,
        Overruns-fault fs ts (one_last ts fs || (text_eq t hash || found)) o,
      )
      (same_both (text_eq t plus) fault)

pub fault-Overruns :
    (fs ts : List (List ℕ)) (found : Bool) → stored_tokens fs ts found ≡ fault → Overruns fs ts
unfolding stored_tokens
fault-Overruns [] ts found h = cc
fault-Overruns (f ∷ fs) [] found h = elim (Bool-cases (text_eq f plus)) [
  | inl p ↦ rw (text_eq_eq f plus p) (plus_beyond fs (fault-Overruns fs [] found (rw p at h)))
  | inr n ↦
      used_up f fs (λ e. clash (text_eq f plus) (ap (λ x. text_eq x plus) e ∙ text_eq_refl plus) n)
]
fault-Overruns (f ∷ fs) (t ∷ ts) found h = elim (Bool-cases (text_eq f plus)) [
  | inl p ↦ rw (text_eq_eq f plus p) (past_plus fs t ts (fault-Overruns fs ts _ (rw p at h)))
  | inr n ↦ elim (Bool-cases (text_eq f t)) [
    | inl r ↦ rw (text_eq_eq f t r) (past_same fs t ts (fault-Overruns fs ts _ (rw (n, r) at h)))
    | inr d ↦ absurd (differ (text_eq f hash || found) (rw (n, d) at h))
  ]
]
  where
    differ : (b : Bool) → (done b) ≡ fault → ⊥
    differ b e = cc

no_match : (fs : List (List ℕ)) → Matches fs [] → ⊥
no_match fs m = elim m [ ]

pub true-Matches : (fs ts : List (List ℕ)) → stored_tokens fs ts false ≡ done true → Matches fs ts
unfolding stored_tokens
true-Matches [] ts h = cc
true-Matches (f ∷ fs) [] h = elim (Bool-cases (text_eq f plus)) [
  | inl p ↦ absurd (no_match fs (true-Matches fs [] (rw p at h)))
  | inr n ↦ absurd (differ (rw n at h))
]
  where
    differ : ◌≡◌ {A = Exec Bool} fault (done true) → ⊥
    differ e = cc
true-Matches (f ∷ fs) (t ∷ ts) h = elim (Bool-cases (text_eq f hash)) [
  | inl q ↦ rw (text_eq_eq f hash q) (multi_level fs t ts)
  | inr nq ↦ elim (Bool-cases (text_eq f plus)) [
    | inl p ↦ elim (Bool-cases (one_last ts fs)) [
      | inl o ↦
          rw (text_eq_eq f plus p, (one_last_nil ts fs o).0, (one_last_nil ts fs o).1)
            (single_last t)
      | inr o ↦
          rw (text_eq_eq f plus p) (single_level fs t ts (true-Matches fs ts (rw (p, o) at h)))
    ]
    | inr n ↦ elim (Bool-cases (text_eq f t)) [
      | inl r ↦ elim (Bool-cases (one_last ts fs)) [
        | inl o ↦
            rw (text_eq_eq f t r, (one_last_nil ts fs o).0, (one_last_nil ts fs o).1) (same_last t)
        | inr o ↦
            rw (text_eq_eq f t r) (same_level fs t ts (true-Matches fs ts (rw (n, r, o, nq) at h)))
      ]
      | inr d ↦ absurd (differ (rw (n, d, nq) at h))
    ]
  ]
]
  where
    differ : (done false) ≡ (done true) → ⊥
    differ e = cc

-- The topic is taken, or the loop reads out of range.
abbrev pub Takes : Exec Bool → Type 0
Takes x = (x ≡ done true) ⊎ (x ≡ fault)

or_true : (b : Bool) → (b || true) ≡ true
or_true true = refl
or_true false = refl

keeps_on : (fs ts : List (List ℕ)) → Takes (stored_tokens fs ts true)
unfolding stored_tokens
keeps_on [] ts = inl refl
keeps_on (f ∷ fs) [] = elim (Bool-cases (text_eq f plus)) [
  | inl p ↦ rw p (keeps_on fs [])
  | inr n ↦ rw n (inr refl)
]
keeps_on (f ∷ fs) (t ∷ ts) = elim (Bool-cases (text_eq f plus)) [
  | inl p ↦ rw (p, or_true (one_last ts fs)) (keeps_on fs ts)
  | inr n ↦ elim (Bool-cases (text_eq f t)) [
    | inl r ↦ rw (n, r, or_true (text_eq f hash), or_true (one_last ts fs)) (keeps_on fs ts)
    | inr d ↦ rw (n, d, or_true (text_eq f hash)) (inl refl)
  ]
]

pub Matches-Takes :
    (fs ts : List (List ℕ)) (found : Bool) → Matches fs ts → Takes (stored_tokens fs ts found)
unfolding stored_tokens text_eq
Matches-Takes _ _ found (multi_level fs t ts) = elim (Bool-cases (text_eq hash t)) [
  | inl r ↦ rw (r, or_true (one_last ts fs)) (keeps_on fs ts)
  | inr d ↦ rw d (inl refl)
]
Matches-Takes _ _ found (single_last t) = inl refl
Matches-Takes _ _ found (single_level fs t ts m) = Matches-Takes fs ts (one_last ts fs || found) m
Matches-Takes _ _ found (same_last t) =
    rw (text_eq_refl t) (inl (same_both (text_eq t plus) (done true)))
Matches-Takes _ _ found (same_level fs t ts m) = elim (Bool-cases (text_eq t plus)) [
  | inl p ↦ rw p (Matches-Takes fs ts (one_last ts fs || found) m)
  | inr n ↦
      rw (n, text_eq_refl t) (Matches-Takes fs ts (one_last ts fs || (text_eq t hash || found)) m)
]

pub stored_match-Overruns :
    (filter stored : List (List ℕ)) → (stored_match filter stored ≡ fault) ↔ Overruns filter stored
stored_match-Overruns filter stored =
    rw (stored_match-stored_tokens filter stored)
      (fault-Overruns filter stored false, Overruns-fault filter stored false)
