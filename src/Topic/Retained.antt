-- ===== src/Topic/Retained.antt =====
-- The retained topics, src/topic_storage.cpp, as a map from names to topics.
use mqtt_broker.Common.{
  ℕ, ◌≡◌, ◌≢◌, ◌⊎◌, refl, sym, ap, ◌∙◌, List, [], ◌∷◌, true, false, if◌then◌else◌, Bool-cases,
  clash, inl, inr, text_eq, text_eq_eq, text_eq_refl, text_lt, text_lt_irrefl, text_lt_trans,
  text_lt_total, none, some,
}
use mqtt_broker.Topic.{MqttTopic, make, less}
use mqtt_broker.Topic.Storage.{erase, emplace, find, store_topic, get_topic}

-- The set is in its order, and every name in it comes after `n`.
abbrev pub After : List ℕ → List MqttTopic → Type 0
After n [] = Unit {0}
After n (t ∷ topics) = (text_lt n t.name ≡ true) × After t.name topics

-- The set is in its order.
abbrev pub IsSorted : List MqttTopic → Type 0
IsSorted [] = Unit {0}
IsSorted (t ∷ topics) = After t.name topics

tail : (t : MqttTopic) (topics : List MqttTopic) → After t.name topics → IsSorted topics
tail t [] h = tt
tail t (u ∷ topics) (h, hs) = hs

-- One element smaller than the stored topic.
store_below :
    (topic t : MqttTopic) (topics : List MqttTopic)
    → less t topic ≡ true
    → store_topic topic (t ∷ topics) ≡ t ∷ store_topic topic topics
unfolding store_topic erase emplace
store_below topic t topics h = rw (h, h) refl

store_above :
    (topic t : MqttTopic) (topics : List MqttTopic)
    → less t topic ≡ false
    → less topic t ≡ true
    → store_topic topic (t ∷ topics) ≡ topic ∷ t ∷ topics
unfolding store_topic erase emplace
store_above topic t topics h k = rw (h, k, h, k) refl

less_asym : (a b : MqttTopic) → less a b ≡ true → less b a ≡ false
unfolding less
less_asym a b h = elim (Bool-cases (text_lt b.name a.name)) [
  | inl e ↦ absurd (
      clash (text_lt a.name a.name) (text_lt_trans a.name b.name a.name h e)
        (text_lt_irrefl a.name))
  | inr e ↦ e
]

-- The element of the same name is replaced.
store_same :
    (topic t : MqttTopic) (topics : List MqttTopic)
    → less t topic ≡ false
    → less topic t ≡ false
    → After t.name topics
    → store_topic topic (t ∷ topics) ≡ topic ∷ topics
unfolding store_topic erase emplace less
store_same topic t [] h k a = rw (h, k) refl
store_same topic t (u ∷ topics) h k (a, as') = rw (h, k, not_below, above) refl
  where
    same : t.name ≡ topic.name
    same = text_lt_total t.name topic.name h k

    above : text_lt topic.name u.name ≡ true
    above = rw same at a

    not_below : text_lt u.name topic.name ≡ false
    not_below = less_asym topic u (unfold less in above)

-- The three ways in which two topics stand to each other.
order_cases :
    (a b : MqttTopic)
    → ((less a b ≡ true)
        ⊎ (((less a b ≡ false) × (less b a ≡ true)) ⊎ ((less a b ≡ false) × (less b a ≡ false))))
order_cases a b = elim (Bool-cases (less a b)) [
  | inl p ↦ inl p
  | inr n ↦ elim (Bool-cases (less b a)) [ inl p ↦ inr (inl (n, p)) | inr m ↦ inr (inr (n, m)) ]
]

find_same :
    (topic k : MqttTopic) (topics : List MqttTopic)
    → k.name ≡ topic.name
    → find k (topic ∷ topics) ≡ some topic
unfolding find less
find_same topic k topics e = rw (e, text_lt_irrefl topic.name) refl

find_below :
    (t k : MqttTopic) (topics : List MqttTopic)
    → less t k ≡ true
    → find k (t ∷ topics) ≡ find k topics
unfolding find
find_below t k topics h = rw h refl

find_above :
    (t k : MqttTopic) (topics : List MqttTopic) → less k t ≡ true → find k (t ∷ topics) ≡ none
unfolding find
find_above t k topics h = rw (less_asym k t h, h) refl

store_topic-found :
    (topic k : MqttTopic) (topics : List MqttTopic)
    → IsSorted topics
    → k.name ≡ topic.name
    → find k (store_topic topic topics) ≡ some topic
store_topic-found topic k [] s e = unfold store_topic erase emplace in find_same topic k [] e
store_topic-found topic k (t ∷ topics) s e = elim (order_cases t topic) [
  | inl p ↦ rw (store_below topic t topics p) (
      find_below t k (store_topic topic topics) (below p)
      ∙ store_topic-found topic k topics (tail t topics s) e)
  | inr (inl (n, p)) ↦ rw (store_above topic t topics n p) (find_same topic k (t ∷ topics) e)
  | inr (inr (n, m)) ↦ rw (store_same topic t topics n m s) (find_same topic k topics e)
]
  where
    below : less t topic ≡ true → less t k ≡ true
    below p = unfold less in (rw e (unfold less in p))

names : (a b : MqttTopic) → less a b ≡ false → less b a ≡ false → a.name ≡ b.name
unfolding less
names a b n m = text_lt_total a.name b.name n m

-- Elements of the same name stand in the way of no other name.
find_other :
    (a b k : MqttTopic) (topics : List MqttTopic)
    → a.name ≡ b.name
    → k.name ≢ b.name
    → find k (a ∷ topics) ≡ find k (b ∷ topics)
find_other a b k topics e ne = elim (order_cases b k) [
  | inl p ↦ find_below a k topics (as_less p) ∙ sym (find_below b k topics p)
  | inr (inl (n, p)) ↦ find_above a k topics (as_more p) ∙ sym (find_above b k topics p)
  | inr (inr (n, m)) ↦ absurd (ne (sym (names b k n m)))
]
  where
    as_less : less b k ≡ true → less a k ≡ true
    as_less p = unfold less in (rw e (unfold less in p))

    as_more : less k b ≡ true → less k a ≡ true
    as_more p = unfold less in (rw e (unfold less in p))

-- A new first element stands in the way of no other name.
find_skip :
    (topic t k : MqttTopic) (topics : List MqttTopic)
    → less topic t ≡ true
    → k.name ≢ topic.name
    → find k (topic ∷ t ∷ topics) ≡ find k (t ∷ topics)
find_skip topic t k topics h ne = elim (order_cases topic k) [
  | inl p ↦ find_below topic k (t ∷ topics) p
  | inr (inl (n, p)) ↦ find_above topic k (t ∷ topics) p ∙ sym (find_above t k topics (chain p))
  | inr (inr (n, m)) ↦ absurd (ne (sym (names topic k n m)))
]
  where
    chain : less k topic ≡ true → less k t ≡ true
    chain p =
        unfold less in text_lt_trans k.name topic.name t.name (unfold less in p) (unfold less in h)

find_only : (topic k : MqttTopic) → k.name ≢ topic.name → find k (topic ∷ []) ≡ none
find_only topic k ne = elim (order_cases topic k) [
  | inl p ↦ find_below topic k [] p ∙ (unfold find in refl)
  | inr (inl (n, p)) ↦ find_above topic k [] p
  | inr (inr (n, m)) ↦ absurd (ne (sym (names topic k n m)))
]

find_cons :
    (t k : MqttTopic) (us vs : List MqttTopic)
    → find k us ≡ find k vs
    → find k (t ∷ us) ≡ find k (t ∷ vs)
unfolding find
find_cons t k us vs e = rw e refl

store_empty : (topic : MqttTopic) → store_topic topic [] ≡ topic ∷ []
unfolding store_topic erase emplace
store_empty topic = refl

find_empty : (k : MqttTopic) → find k [] ≡ none
unfolding find
find_empty k = refl

store_topic-kept :
    (topic k : MqttTopic) (topics : List MqttTopic)
    → IsSorted topics
    → k.name ≢ topic.name
    → find k (store_topic topic topics) ≡ find k topics
store_topic-kept topic k [] s ne =
    rw (store_empty topic) (find_only topic k ne ∙ sym (find_empty k))
store_topic-kept topic k (t ∷ topics) s ne = elim (order_cases t topic) [
  | inl p ↦ rw (store_below topic t topics p) (
      find_cons t k (store_topic topic topics) topics
        (store_topic-kept topic k topics (tail t topics s) ne))
  | inr (inl (n, p)) ↦ rw (store_above topic t topics n p) (find_skip topic t k topics p ne)
  | inr (inr (n, m)) ↦
      rw (store_same topic t topics n m s)
        (sym (find_other t topic k topics (names t topic n m) ne))
]

-- After `StoreTopicValue` a name gives the new topic if it is that topic's name, and otherwise what
-- it gave before, where the set is in its order.
pub get_topic-store_topic :
    (topic : MqttTopic) (topics : List MqttTopic) (name : List ℕ)
    → IsSorted topics
    → get_topic name (store_topic topic topics)
      ≡ (if text_eq name topic.name then (topic, true) else get_topic name topics)
unfolding get_topic make
get_topic-store_topic topic topics name s = elim (Bool-cases (text_eq name topic.name)) [
  | inl e ↦
      rw
        (
          get_topic,
          e,
          store_topic-found topic (make 0 0 name none) topics s (text_eq_eq name topic.name e),
        )
        refl
  | inr e ↦ rw (get_topic, e, store_topic-kept topic (make 0 0 name none) topics s (differs e)) refl
]
  where
    differs : text_eq name topic.name ≡ false → name ≢ topic.name
    differs e k =
        clash (text_eq name topic.name) (ap (λ n. text_eq n topic.name) k ∙ text_eq_refl topic.name)
          e

After-store_topic :
    (n : List ℕ) (topic : MqttTopic) (topics : List MqttTopic)
    → After n topics
    → text_lt n topic.name ≡ true
    → After n (store_topic topic topics)
After-store_topic n topic [] h l = rw (store_empty topic) (l, tt)
After-store_topic n topic (t ∷ topics) (h, hs) l = elim (order_cases t topic) [
  | inl p ↦
      rw (store_below topic t topics p)
        (h, After-store_topic t.name topic topics hs (unfold less in p))
  | inr (inl (m, p)) ↦ rw (store_above topic t topics m p) (l, (unfold less in p, hs))
  | inr (inr (m, k)) ↦ rw (store_same topic t topics m k hs) (l, (rw (names t topic m k) at hs))
]

-- `StoreTopicValue` keeps the set in its order, so that no name is in it twice.
pub store_topic-IsSorted :
    (topic : MqttTopic) (topics : List MqttTopic)
    → IsSorted topics
    → IsSorted (store_topic topic topics)
store_topic-IsSorted topic [] h = rw (store_empty topic) tt
store_topic-IsSorted topic (t ∷ topics) hs = elim (order_cases t topic) [
  | inl p ↦
      rw (store_below topic t topics p)
        (After-store_topic t.name topic topics hs (unfold less in p))
  | inr (inl (m, p)) ↦ rw (store_above topic t topics m p) ((unfold less in p), hs)
  | inr (inr (m, k)) ↦ rw (store_same topic t topics m k hs) (rw (names t topic m k) at hs)
]
