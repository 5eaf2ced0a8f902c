-- ===== src/Topic/Stored/Matched.antt =====
-- `CTopicStorage::GetMatchedTopics`, src/topic_storage.cpp, over all stored topics.
use mqtt_broker.Common.{
  ℕ, ◌≡◌, ◌↔◌, ◌⊎◌, refl, sym, ◌∙◌, List, [], ◌∷◌, Bool, true, false, ◌||◌, Bool-cases, inl, inr,
  text_eq, Exec, done, fault,
}
use mqtt_broker.Topic.{MqttTopic}
use mqtt_broker.Topic.Filter.{plus, hash, tokenize, stored_match}
use mqtt_broker.Topic.Matching.{Matches, one_last}
use mqtt_broker.Topic.Storage.{matched_loop, get_matched_topics}
use mqtt_broker.Topic.Stored.{stored_tokens, stored_match-stored_tokens}
use mqtt_broker.Topic.Stored.Taken.{
  Overruns, Takes, true-Matches, Matches-Takes, fault-Overruns, stored_match-Overruns,
}

-- The second list has the topics of the first that the filter matches, in their order.
pub data IsSelection (filter : List (List ℕ)) : List MqttTopic → List MqttTopic → Type 0 where
  nothing : IsSelection filter [] []
  taken :
      (t : MqttTopic) (topics selected : List MqttTopic)
      → Matches filter (tokenize t.name)
      → IsSelection filter topics selected
      → IsSelection filter (t ∷ topics) (t ∷ selected)
  left_out :
      (t : MqttTopic) (topics selected : List MqttTopic)
      → ¬ Matches filter (tokenize t.name)
      → IsSelection filter topics selected
      → IsSelection filter (t ∷ topics) selected

-- One of the topics is overrun by the filter.
pub data SomeOverruns (filter : List (List ℕ)) : List MqttTopic → Type 0 where
  this :
      (t : MqttTopic) (topics : List MqttTopic)
      → Overruns filter (tokenize t.name)
      → SomeOverruns filter (t ∷ topics)
  later :
      (t : MqttTopic) (topics : List MqttTopic)
      → SomeOverruns filter topics
      → SomeOverruns filter (t ∷ topics)

-- What the loop over the tokens of a topic can give.
abbrev Verdict : List (List ℕ) → List (List ℕ) → Exec Bool → Type 0
Verdict filter stored x =
    ((x ≡ done true) × Matches filter stored)
    ⊎ (((x ≡ done false) × (¬ Matches filter stored)) ⊎ ((x ≡ fault) × Overruns filter stored))

stored_tokens-ends :
    (fs ts : List (List ℕ)) (found : Bool)
    → ((b : Bool) × (stored_tokens fs ts found ≡ done b)) ⊎ (stored_tokens fs ts found ≡ fault)
unfolding stored_tokens
stored_tokens-ends [] ts found = inl (found, refl)
stored_tokens-ends (f ∷ fs) [] found = elim (Bool-cases (text_eq f plus)) [
  | inl p ↦ rw p (stored_tokens-ends fs [] found)
  | inr n ↦ rw n (inr refl)
]
stored_tokens-ends (f ∷ fs) (t ∷ ts) found = elim (Bool-cases (text_eq f plus)) [
  | inl p ↦ rw p (stored_tokens-ends fs ts (one_last ts fs || found))
  | inr n ↦ elim (Bool-cases (text_eq f t)) [
    | inl r ↦ rw (n, r) (stored_tokens-ends fs ts (one_last ts fs || (text_eq f hash || found)))
    | inr d ↦ rw (n, d) (inl (text_eq f hash || found, refl))
  ]
]

verdict : (filter stored : List (List ℕ)) → Verdict filter stored (stored_match filter stored)
verdict filter stored =
    rw (stored_match-stored_tokens filter stored) (elim (stored_tokens-ends filter stored false) [
      | inl (true, e) ↦ inl (e, true-Matches filter stored e)
      | inl (false, e) ↦ inr (inl (e, λ m. no_match e (Matches-Takes filter stored false m)))
      | inr e ↦ inr (inr (e, fault-Overruns filter stored false e))
    ])
  where
    no_match : {x : Exec Bool} → x ≡ done false → Takes x → ⊥
    no_match e (inl k) = cc
    no_match e (inr k) = cc

-- The loop returns a selection, or it reads out of range.
abbrev Outcome : List (List ℕ) → List MqttTopic → Exec (List MqttTopic) → Type 0
Outcome filter topics x =
    ((selected : List MqttTopic) × (x ≡ done selected)
      × IsSelection filter topics selected
      × (¬ SomeOverruns filter topics))
    ⊎ ((x ≡ fault) × SomeOverruns filter topics)

selection_grows :
    (filter : List (List ℕ)) (t : MqttTopic) (topics : List MqttTopic)
    → ¬ Overruns filter (tokenize t.name)
    → ¬ SomeOverruns filter topics
    → ¬ SomeOverruns filter (t ∷ topics)
selection_grows filter t topics n k (this _ _ o) = n o
selection_grows filter t topics n k (later _ _ s) = k s

not_overrun :
    (filter stored : List (List ℕ)) (b : Bool)
    → stored_match filter stored ≡ done b
    → ¬ Overruns filter stored
not_overrun filter stored b e o = differ (sym e ∙ (stored_match-Overruns filter stored).1 o)
  where
    differ : (done b) ≡ fault → ⊥
    differ k = cc

matched_loop-Outcome :
    (filter : List (List ℕ)) (topics : List MqttTopic)
    → Outcome filter topics (matched_loop filter topics)
unfolding matched_loop
matched_loop-Outcome filter [] = inl ([], refl, nothing, elim [ ])
matched_loop-Outcome filter (t ∷ topics) = elim (verdict filter (tokenize t.name)) [
  | inl (e, m) ↦ elim (matched_loop-Outcome filter topics) [
    | inl (us, p, s, n) ↦ inl (
      t ∷ us,
      rw (e, p) refl,
      taken t topics us m s,
      selection_grows filter t topics (not_overrun filter (tokenize t.name) true e) n,
    )
    | inr (p, o) ↦ inr (rw (e, p) refl, later t topics o)
  ]
  | inr (inl (e, m)) ↦ elim (matched_loop-Outcome filter topics) [
    | inl (us, p, s, n) ↦ inl (
      us,
      rw (e, p) refl,
      left_out t topics us m s,
      selection_grows filter t topics (not_overrun filter (tokenize t.name) false e) n,
    )
    | inr (p, o) ↦ inr (rw (e, p) refl, later t topics o)
  ]
  | inr (inr (e, o)) ↦ inr (rw e refl, this t topics o)
]

-- A name for which the tokens are compared.
abbrev pub IsCompared : List ℕ → Type 0
IsCompared name = (text_eq name (35 ∷ []) || text_eq name (47 ∷ 35 ∷ [])) ≡ false

-- For a filter other than "#" and "/#", `GetMatchedTopics` reads past the end of the tokens of a stored
-- topic exactly when one of the stored topics is used up before the filter while it matched so far,
-- and the filter has a token other than "+" left: a subscription to "a/b" or to "a/#" is enough
-- while "a" is stored.
pub get_matched_topics-SomeOverruns :
    (name : List ℕ) (topics : List MqttTopic)
    → IsCompared name
    → (get_matched_topics name topics ≡ fault) ↔ SomeOverruns (tokenize name) topics
unfolding get_matched_topics
get_matched_topics-SomeOverruns name topics c =
    rw c (elim (matched_loop-Outcome (tokenize name) topics) [
      | inl (us, p, s, k) ↦ rw p ((λ e. absurd (differ us e)), (λ o. absurd (k o)))
      | inr (p, o) ↦ rw p ((λ e. o), (λ s. refl))
    ])
  where
    differ : (us : List MqttTopic) → (done us) ≡ fault → ⊥
    differ us e = cc
