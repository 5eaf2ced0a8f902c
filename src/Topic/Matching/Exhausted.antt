-- ===== src/Topic/Matching/Exhausted.antt =====
-- When the loop of `checkWildCards` reads past the end of the tokens of a filter.
use mqtt_broker.Common.{
  ℕ, ◌≡◌, ◌≢◌, ◌↔◌, ◌⊎◌, refl, sym, ap, ◌∙◌, List, [], ◌∷◌, Bool, true, false, if◌then◌else◌,
  Bool-cases, clash, inl, inr, text_eq, text_eq_refl, text_eq_eq, Exec, done, fault,
}
use mqtt_broker.Topic.Filter.{plus, hash, client_match}
use mqtt_broker.Topic.Matching.{one_last, by_tokens, client_match-by_tokens}

-- A filter that is used up before the topic, while it matched so far.
pub data IsExhausted : List (List ℕ) → List (List ℕ) → Type 0 where
  used_up : (t : List ℕ) (ts : List (List ℕ)) → IsExhausted [] (t ∷ ts)
  past_plus :
      (fs : List (List ℕ)) (t : List ℕ) (ts : List (List ℕ))
      → IsExhausted fs ts
      → IsExhausted (plus ∷ fs) (t ∷ ts)
  past_same :
      (fs : List (List ℕ)) (t : List ℕ) (ts : List (List ℕ))
      → t ≢ hash
      → IsExhausted fs ts
      → IsExhausted (t ∷ fs) (t ∷ ts)

not_last : (fs ts : List (List ℕ)) → IsExhausted fs ts → one_last fs ts ≡ false
not_last _ _ (used_up t ts) = refl
not_last _ _ (past_plus fs t ts m) = refl
not_last _ _ (past_same fs t ts n m) = refl

not_hash : (t : List ℕ) → t ≢ hash → text_eq t hash ≡ false
not_hash t n = elim (Bool-cases (text_eq t hash)) [
  | inl e ↦ absurd (n (text_eq_eq t hash e))
  | inr e ↦ e
]

both_branches : (a : Bool) (x : Exec Bool) → (if a then x else x) ≡ x
both_branches true x = refl
both_branches false x = refl

IsExhausted-by_tokens : (fs ts : List (List ℕ)) → IsExhausted fs ts → by_tokens fs ts ≡ fault
unfolding by_tokens text_eq
IsExhausted-by_tokens _ _ (used_up t ts) = refl
IsExhausted-by_tokens _ _ (past_plus fs t ts m) =
    rw (IsExhausted-by_tokens fs ts m, not_last fs ts m) refl
IsExhausted-by_tokens _ _ (past_same fs t ts n m) =
    rw (IsExhausted-by_tokens fs ts m, not_last fs ts m, text_eq_refl t, not_hash t n)
      (both_branches (text_eq t plus) fault)

faults_later : (a : Bool) (x : Exec Bool) → (if a then done true else x) ≡ fault → x ≡ fault
faults_later true x h = cc
faults_later false x h = h

-- One round that ends out of range.
by_tokens_fault :
    (f : List ℕ) (fs : List (List ℕ)) (t : List ℕ) (ts : List (List ℕ))
    → by_tokens (f ∷ fs) (t ∷ ts) ≡ fault
    → ((f ≡ plus) ⊎ ((f ≡ t) × (t ≢ hash))) × (by_tokens fs ts ≡ fault)
unfolding by_tokens
by_tokens_fault f fs t ts h = elim (Bool-cases (text_eq f plus)) [
  | inl p ↦ (inl (text_eq_eq f plus p), faults_later (one_last fs ts) (by_tokens fs ts) (rw p at h))
  | inr np ↦ elim (Bool-cases (text_eq f hash)) [
    | inl q ↦ absurd (differ true (rw (np, q) at h))
    | inr nq ↦ elim (Bool-cases (text_eq t f)) [
      | inl r ↦ (
        inr (sym (text_eq_eq t f r), λ e. no_hash (text_eq_eq t f r) e nq),
        faults_later (one_last fs ts) (by_tokens fs ts) (rw (np, nq, r) at h),
      )
      | inr nr ↦ absurd (differ false (rw (np, nq, nr) at h))
    ]
  ]
]
  where
    differ : (b : Bool) → (done b) ≡ fault → ⊥
    differ b e = cc

    no_hash : t ≡ f → t ≡ hash → text_eq f hash ≡ false → ⊥
    no_hash e k n =
        clash (text_eq f hash) (ap (λ g. text_eq g hash) (sym e ∙ k) ∙ text_eq_refl hash) n

by_tokens-IsExhausted : (fs ts : List (List ℕ)) → by_tokens fs ts ≡ fault → IsExhausted fs ts
unfolding by_tokens
by_tokens-IsExhausted fs [] h = cc
by_tokens-IsExhausted [] (t ∷ ts) h = used_up t ts
by_tokens-IsExhausted (f ∷ fs) (t ∷ ts) h =
    let (c, k) = by_tokens_fault f fs t ts h in
    elim c [
      | inl e ↦ rw e (past_plus fs t ts (by_tokens-IsExhausted fs ts k))
      | inr (e, n) ↦ rw e (past_same fs t ts n (by_tokens-IsExhausted fs ts k))
    ]

-- The inner loop of `checkWildCards` reads past the end of the tokens of a filter exactly when that
-- is used up before the topic while it matched so far, as "a" is for the topic "a/b".
pub client_match-IsExhausted :
    (topic filter : List (List ℕ)) → (client_match topic filter ≡ fault) ↔ IsExhausted filter topic
client_match-IsExhausted topic filter =
    rw (client_match-by_tokens topic filter)
      (by_tokens-IsExhausted filter topic, IsExhausted-by_tokens filter topic)
