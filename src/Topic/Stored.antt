-- ===== src/Topic/Stored.antt =====
-- The inner loop of `GetMatchedTopics` of src/topic_storage.cpp: which stored topics it takes, and when
-- it reads past the end of the tokens of a stored topic.
pub mod Taken
pub mod Matched
use mqtt_broker.Common.{
  ℕ, zero, suc, ◌+◌, ◌≤◌, ◌≡◌, ◌≢◌, ◌↔◌, ◌⊎◌, refl, sym, ap, ◌∙◌, List, [], ◌∷◌, ◌++◌, length,
  length-append, append_assoc, Bool, true, false, ◌==◌, ◌&&◌, ◌||◌, if◌then◌else◌, Bool-cases,
  clash, inl, inr, text_eq, text_eq_refl, text_eq_eq, Exec, done, fault, ◌>>=◌, arith,
}
use mqtt_broker.Topic.Filter.{plus, hash, get_elem, both_last, stored_loop, stored_match}
use mqtt_broker.Topic.Matching.{
  Matches, multi_level, single_last, single_level, same_last, same_level, one_last, get_elem-append,
  both_last_lem,
}

-- The tokens one after the other, without indices.
unfoldable pub stored_tokens : List (List ℕ) → List (List ℕ) → Bool → Exec Bool
stored_tokens [] ts found = done found
stored_tokens (f ∷ fs) [] found =
    let next = stored_tokens fs [] found in if text_eq f plus then next else fault
stored_tokens (f ∷ fs) (t ∷ ts) found =
    let after_plus = stored_tokens fs ts (one_last ts fs || found) in
    let next = stored_tokens fs ts (one_last ts fs || (text_eq f hash || found)) in
    if text_eq f plus
    then after_plus
    else if text_eq f t
    then next
    else done (text_eq f hash || found)

get_elem_beyond : (tokens : List (List ℕ)) (i : ℕ) → length tokens ≤ i → get_elem tokens i ≡ fault
unfolding get_elem
get_elem_beyond [] i h = refl
get_elem_beyond (t ∷ tokens) zero h = absurd (omega arith)
get_elem_beyond (t ∷ tokens) (suc i) h = get_elem_beyond tokens i (omega arith)

not_both_last :
    (filter stored : List (List ℕ)) (i : ℕ) → length stored ≤ i → both_last i filter stored ≡ false
not_both_last filter stored i h = ground arith

-- Past the last token of the stored topic.
stored_loop_beyond :
    (fs filter stored : List (List ℕ)) (i : ℕ) (found : Bool)
    → length stored ≤ i
    → stored_loop filter stored i fs found ≡ stored_tokens fs [] found
unfolding stored_loop stored_tokens
stored_loop_beyond [] filter stored i found h = refl
stored_loop_beyond (f ∷ fs) filter stored i found h =
    rw
      (
        not_both_last filter stored i h,
        get_elem_beyond stored i h,
        stored_loop_beyond fs filter stored (i + 1) found (omega arith),
      )
      refl

stored_loop-stored_tokens :
    (fs ts front1 front2 : List (List ℕ)) (found : Bool)
    → length front1 ≡ length front2
    → stored_loop (front1 ++ fs) (front2 ++ ts) (length front2) fs found ≡ stored_tokens fs ts found
unfolding stored_loop stored_tokens
stored_loop-stored_tokens [] ts front1 front2 found e = refl
stored_loop-stored_tokens (f ∷ fs) [] front1 front2 found e =
    stored_loop_beyond (f ∷ fs) (front1 ++ (f ∷ fs)) (front2 ++ []) (length front2) found
      (omega (arith, length-append front2 []))
stored_loop-stored_tokens (f ∷ fs) (t ∷ ts) front1 front2 found e =
    let next : (b : Bool) → _ ≡ stored_tokens fs ts b = λ b.
      stored_loop-stored_tokens fs ts (front1 ++ (f ∷ [])) (front2 ++ (t ∷ [])) b
        (omega (arith, e, length-append front1 (f ∷ []), length-append front2 (t ∷ []))) in
    rw
      (
        get_elem-append front2 t ts,
        both_last_lem front1 front2 f t fs ts e,
        shift (one_last ts fs || found) ∙ next (one_last ts fs || found),
        shift (one_last ts fs || (text_eq f hash || found))
            ∙ next (one_last ts fs || (text_eq f hash || found)),
      )
      refl
  where
    shift :
        (b : Bool)
        → stored_loop (front1 ++ (f ∷ fs)) (front2 ++ (t ∷ ts)) (length front2 + 1) fs b
          ≡ stored_loop
              ((front1 ++ (f ∷ [])) ++ fs)
              ((front2 ++ (t ∷ [])) ++ ts)
              (length (front2 ++ (t ∷ [])))
              fs
              b
    shift b = λ i.
        stored_loop (sym (append_assoc front1 (f ∷ []) fs) i)
          (sym (append_assoc front2 (t ∷ []) ts) i) (sym (length-append front2 (t ∷ [])) i) fs b

pub stored_match-stored_tokens :
    (filter stored : List (List ℕ)) → stored_match filter stored ≡ stored_tokens filter stored false
unfolding stored_match
stored_match-stored_tokens filter stored = stored_loop-stored_tokens filter stored [] [] false refl
