-- ===== src/Topic/Filter.antt =====
-- Topic filters: `tokenize` of src/functions.cpp, the loop of `Client::checkWildCards` of
-- src/client.cpp and the loop of `CTopicStorage::GetMatchedTopics` of src/topic_storage.cpp.
use mqtt_broker.Common.{
  ℕ, zero, suc, ◌+◌, List, [], ◌∷◌, ◌++◌, length, Bool, true, false, leb, ◌==◌, ◌&&◌, ◌||◌,
  if◌then◌else◌, text_eq, Exec, done, fault, ◌>>=◌,
}

-- A character of the class `[\s|\/]`: white space, the bar and the slash.
abbrev pub is_separator : ℕ → Bool
is_separator c = (leb 9 c && leb c 13) || c == 32 || c == 124 || c == 47

abbrev pub flush : List ℕ → List (List ℕ) → List (List ℕ)
flush [] tokens = tokens
flush (c ∷ token) tokens = (c ∷ token) ∷ tokens

unfoldable pub tokenize_loop : List ℕ → List ℕ → List (List ℕ)
tokenize_loop token [] = flush token []
tokenize_loop token (c ∷ str) =
    let next = tokenize_loop [] str in
    let longer = tokenize_loop (token ++ (c ∷ [])) str in
    if is_separator c then flush token next else longer

-- The parts between the separators that are not empty.
unfoldable pub tokenize : List ℕ → List (List ℕ)
tokenize str = tokenize_loop [] str

-- "+" and "#"
abbrev pub plus : List ℕ
plus = 43 ∷ []

abbrev pub hash : List ℕ
hash = 35 ∷ []

-- `tokens[i]` of a vector: undefined past its end.
unfoldable pub get_elem : List (List ℕ) → ℕ → Exec (List ℕ)
get_elem [] i = fault
get_elem (t ∷ tokens) zero = done t
get_elem (t ∷ tokens) (suc i) = get_elem tokens i

-- `i == topic.size()-1 && i == subscribed.size()-1`, on `size_t`, which an empty vector wraps.
abbrev pub both_last : ℕ → List (List ℕ) → List (List ℕ) → Bool
both_last i topic subscribed = i + 1 == length topic && i + 1 == length subscribed

-- The inner loop of `checkWildCards` from `i` on: `rest` is what `tokenized_topic_name` has from `i`
-- on, and the result says whether the function returns `true`.
unfoldable pub client_loop : List (List ℕ) → List (List ℕ) → ℕ → List (List ℕ) → Exec Bool
client_loop topic subscribed i [] = done false
client_loop topic subscribed i (t ∷ rest) = do
  s ← get_elem subscribed i
  let next = client_loop topic subscribed (i + 1) rest
  if text_eq s plus
      then (if both_last i topic subscribed then done true else next)
      else if text_eq s hash
      then done true
      else if text_eq t s
      then (if both_last i topic subscribed then done true else next)
      else done false

unfoldable pub client_match : List (List ℕ) → List (List ℕ) → Exec Bool
client_match topic subscribed = client_loop topic subscribed 0 topic

-- `checkWildCards`, where the list has the subscriptions in the order of the map.
unfoldable pub check_wild_cards : List ℕ → List (List ℕ × ℕ) → Exec (Bool × ℕ)
check_wild_cards topic_name [] = done (false, 0)
check_wild_cards topic_name ((filter, options) ∷ subscriptions) =
    let next = check_wild_cards topic_name subscriptions in
    if text_eq filter hash
    then done (true, options)
    else if text_eq topic_name filter
    then done (true, options)
    else (client_match (tokenize topic_name) (tokenize filter) >>= λ found.
        if found then done (true, options) else next)

-- The inner loop of `GetMatchedTopics` from `i` on: `rest` is what `tokenized_topic_name`, the
-- filter, has from `i` on, and `found` says whether the stored topic has been inserted.
unfoldable pub stored_loop : List (List ℕ) → List (List ℕ) → ℕ → List (List ℕ) → Bool → Exec Bool
stored_loop filter stored i [] found = done found
stored_loop filter stored i (f ∷ rest) found =
    let after_plus = stored_loop filter stored (i + 1) rest (both_last i filter stored || found) in
    let compare_tokens : Bool → Exec Bool = λ found'. (do
      s ← get_elem stored i
      if text_eq f s
          then stored_loop filter stored (i + 1) rest (both_last i filter stored || found')
          else done found') in
    if text_eq f plus then after_plus else compare_tokens (text_eq f hash || found)

unfoldable pub stored_match : List (List ℕ) → List (List ℕ) → Exec Bool
stored_match filter stored = stored_loop filter stored 0 filter false
