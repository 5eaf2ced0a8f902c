-- ===== src/Topic/Matching.antt =====
-- The loops over the tokens against a relation that says when a filter matches a topic.
pub mod Exhausted
use mqtt_broker.Common.{
  ℕ, zero, suc, ◌+◌, ◌-◌, ◌≡◌, ◌≢◌, ◌↔◌, ◌⊎◌, refl, sym, ap, ◌∙◌, List, [], ◌∷◌, ◌++◌, length,
  length-append, append_assoc, Bool, true, false, ◌==◌, ◌&&◌, ◌||◌, if◌then◌else◌, Bool-cases, inl,
  inr, text_eq, text_eq_refl, text_eq_eq, Exec, done, fault, ◌>>=◌, arith,
}
use mqtt_broker.Topic.Filter.{
  plus, hash, get_elem, both_last, client_loop, client_match, stored_loop, stored_match,
}

-- A filter matches a topic: "+" stands for one token, "#" for one or more at the end, and every
-- other token for itself.
pub data Matches : List (List ℕ) → List (List ℕ) → Type 0 where
  multi_level :
      (fs : List (List ℕ)) (t : List ℕ) (ts : List (List ℕ)) → Matches (hash ∷ fs) (t ∷ ts)
  single_last : (t : List ℕ) → Matches (plus ∷ []) (t ∷ [])
  single_level :
      (fs : List (List ℕ)) (t : List ℕ) (ts : List (List ℕ))
      → Matches fs ts
      → Matches (plus ∷ fs) (t ∷ ts)
  same_last : (t : List ℕ) → Matches (t ∷ []) (t ∷ [])
  same_level :
      (fs : List (List ℕ)) (t : List ℕ) (ts : List (List ℕ))
      → Matches fs ts
      → Matches (t ∷ fs) (t ∷ ts)

-- The tokens one after the other, without indices.
abbrev pub one_last : List (List ℕ) → List (List ℕ) → Bool
one_last [] [] = true
one_last _ _ = false

pub by_tokens : List (List ℕ) → List (List ℕ) → Exec Bool
by_tokens fs [] = done false
by_tokens [] (t ∷ ts) = fault
by_tokens (f ∷ fs) (t ∷ ts) =
    let next = by_tokens fs ts in
    if text_eq f plus
    then (if one_last fs ts then done true else next)
    else if text_eq f hash
    then done true
    else if text_eq t f
    then (if one_last fs ts then done true else next)
    else done false

pub get_elem-append :
    (front : List (List ℕ)) (s : List ℕ) (rest : List (List ℕ))
    → get_elem (front ++ (s ∷ rest)) (length front) ≡ done s
unfolding get_elem
get_elem-append [] s rest = refl
get_elem-append (f ∷ front) s rest = get_elem-append front s rest

get_elem_past : (front : List (List ℕ)) → get_elem (front ++ []) (length front) ≡ fault
unfolding get_elem
get_elem_past [] = refl
get_elem_past (f ∷ front) = get_elem_past front

pub both_last_lem :
    (front1 front2 : List (List ℕ)) (t s : List ℕ) (ts fs : List (List ℕ))
    → length front1 ≡ length front2
    → both_last (length front2) (front1 ++ (t ∷ ts)) (front2 ++ (s ∷ fs)) ≡ one_last fs ts
both_last_lem front1 front2 t s [] [] e =
    ground (arith, length-append front1 (t ∷ []), length-append front2 (s ∷ []))
both_last_lem front1 front2 t s (u ∷ ts) [] e =
    ground (arith, length-append front1 (t ∷ u ∷ ts), length-append front2 (s ∷ []))
both_last_lem front1 front2 t s [] (u ∷ fs) e =
    ground (arith, length-append front1 (t ∷ []), length-append front2 (s ∷ u ∷ fs))
both_last_lem front1 front2 t s (v ∷ ts) (u ∷ fs) e =
    ground (arith, length-append front1 (t ∷ v ∷ ts), length-append front2 (s ∷ u ∷ fs))

client_loop-by_tokens :
    (ts fs front1 front2 : List (List ℕ))
    → length front1 ≡ length front2
    → client_loop (front1 ++ ts) (front2 ++ fs) (length front2) ts ≡ by_tokens fs ts
unfolding client_loop by_tokens
client_loop-by_tokens [] fs front1 front2 e = refl
client_loop-by_tokens (t ∷ ts) [] front1 front2 e = rw (get_elem_past front2) refl
client_loop-by_tokens (t ∷ ts) (s ∷ fs) front1 front2 e =
    rw
      (
        get_elem-append front2 s fs,
        both_last_lem front1 front2 t s ts fs e,
        shift
            ∙ client_loop-by_tokens ts fs (front1 ++ (t ∷ [])) (front2 ++ (s ∷ []))
                (omega (arith, e, length-append front1 (t ∷ []), length-append front2 (s ∷ []))),
      )
      refl
  where
    shift :
        client_loop (front1 ++ (t ∷ ts)) (front2 ++ (s ∷ fs)) (length front2 + 1) ts
        ≡ client_loop
            ((front1 ++ (t ∷ [])) ++ ts)
            ((front2 ++ (s ∷ [])) ++ fs)
            (length (front2 ++ (s ∷ [])))
            ts
    shift = λ i.
        client_loop (sym (append_assoc front1 (t ∷ []) ts) i)
          (sym (append_assoc front2 (s ∷ []) fs) i) (sym (length-append front2 (s ∷ [])) i) ts

pub client_match-by_tokens :
    (topic filter : List (List ℕ)) → client_match topic filter ≡ by_tokens filter topic
unfolding client_match
client_match-by_tokens topic filter = client_loop-by_tokens topic filter [] [] refl

pub one_last_nil : (fs ts : List (List ℕ)) → one_last fs ts ≡ true → (fs ≡ []) × (ts ≡ [])
one_last_nil [] [] h = (refl, refl)
one_last_nil [] (t ∷ ts) h = cc
one_last_nil (f ∷ fs) ts h = cc

-- One round that ends in a match.
abbrev Goes : List (List ℕ) → List (List ℕ) → Type 0
Goes fs ts = (one_last fs ts ≡ true) ⊎ (by_tokens fs ts ≡ done true)

goes :
    (fs ts : List (List ℕ))
    → (if one_last fs ts then done true else by_tokens fs ts) ≡ done true
    → Goes fs ts
goes fs ts h = elim (Bool-cases (one_last fs ts)) [ inl e ↦ inl e | inr e ↦ inr (rw e at h) ]

by_tokens_step :
    (f : List ℕ) (fs : List (List ℕ)) (t : List ℕ) (ts : List (List ℕ))
    → by_tokens (f ∷ fs) (t ∷ ts) ≡ done true
    → (f ≡ hash) ⊎ (((f ≡ plus) ⊎ (f ≡ t)) × Goes fs ts)
unfolding by_tokens
by_tokens_step f fs t ts h = elim (Bool-cases (text_eq f plus)) [
  | inl p ↦ inr (inl (text_eq_eq f plus p), goes fs ts (rw p at h))
  | inr np ↦ elim (Bool-cases (text_eq f hash)) [
    | inl q ↦ inl (text_eq_eq f hash q)
    | inr nq ↦ elim (Bool-cases (text_eq t f)) [
      | inl r ↦ inr (inr (sym (text_eq_eq t f r)), goes fs ts (rw (np, nq, r) at h))
      | inr nr ↦ absurd (differ (rw (np, nq, nr) at h))
    ]
  ]
]
  where
    differ : (done false) ≡ (done true) → ⊥
    differ e = cc

ends : (f t : List ℕ) → (f ≡ plus) ⊎ (f ≡ t) → Matches (f ∷ []) (t ∷ [])
ends f t (inl e) = rw e (single_last t)
ends f t (inr e) = rw e (same_last t)

goes_on :
    (f : List ℕ) (fs : List (List ℕ)) (t : List ℕ) (ts : List (List ℕ))
    → (f ≡ plus) ⊎ (f ≡ t)
    → Matches fs ts
    → Matches (f ∷ fs) (t ∷ ts)
goes_on f fs t ts (inl e) m = rw e (single_level fs t ts m)
goes_on f fs t ts (inr e) m = rw e (same_level fs t ts m)

-- What the loop over the tokens says is what the relation says.
by_tokens-Matches : (fs ts : List (List ℕ)) → by_tokens fs ts ≡ done true → Matches fs ts
unfolding by_tokens
by_tokens-Matches fs [] h = cc
by_tokens-Matches [] (t ∷ ts) h = cc
by_tokens-Matches (f ∷ fs) (t ∷ ts) h = elim (by_tokens_step f fs t ts h) [
  | inl e ↦ rw e (multi_level fs t ts)
  | inr (e, inl o) ↦ rw ((one_last_nil fs ts o).0, (one_last_nil fs ts o).1) (ends f t e)
  | inr (e, inr m) ↦ goes_on f fs t ts e (by_tokens-Matches fs ts m)
]

all_true :
    (a b c : Bool)
    → (if a
        then (if c then done true else done true)
        else if b
        then done true
        else (if c then done true else done true))
      ≡ done true
all_true true b true = refl
all_true true b false = refl
all_true false true c = refl
all_true false false true = refl
all_true false false false = refl

Matches-by_tokens : (fs ts : List (List ℕ)) → Matches fs ts → by_tokens fs ts ≡ done true
unfolding by_tokens text_eq
Matches-by_tokens _ _ (multi_level fs t ts) = refl
Matches-by_tokens _ _ (single_last t) = refl
Matches-by_tokens _ _ (single_level fs t ts m) =
    rw (Matches-by_tokens fs ts m) (all_true true false (one_last fs ts))
Matches-by_tokens _ _ (same_last t) =
    rw (text_eq_refl t) (all_true (text_eq t plus) (text_eq t hash) true)
Matches-by_tokens _ _ (same_level fs t ts m) =
    rw (Matches-by_tokens fs ts m, text_eq_refl t)
      (all_true (text_eq t plus) (text_eq t hash) (one_last fs ts))

-- The inner loop of `checkWildCards` answers `true` exactly for the pairs of a topic and a filter
-- that match, whatever their tokens are.
pub client_match-Matches :
    (topic filter : List (List ℕ)) → (client_match topic filter ≡ done true) ↔ Matches filter topic
client_match-Matches topic filter =
    rw (client_match-by_tokens topic filter)
      (by_tokens-Matches filter topic, Matches-by_tokens filter topic)
