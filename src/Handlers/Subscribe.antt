-- ===== src/Handlers/Subscribe.antt =====
-- The loop of `HandleMqttSubscribe` on a well-formed payload.
use mqtt_broker.Common.{
  ℕ, zero, suc, ◌+◌, ◌%◌, ◌^◌, ◌<◌, ◌≤◌, ◌≡◌, ◌≢◌, refl, sym, ap, ◌∙◌, List, [], ◌∷◌, ◌++◌, length,
  replicate, length-append, append_assoc, append-nil, drop, drop-append, drop-drop, All, true,
  false, ltb, done, arith,
}
use mqtt_broker.Common.Bytes.{
  convert_to_host_2_bytes, convert_to_host_2_bytes-be16, byte_at, read_bytes, read_bytes-append,
}
use mqtt_broker.Entity.Wire.{string_encoding}
use mqtt_broker.FixedHeader.{FixedHeader}
use mqtt_broker.VariableHeader.{SubscribeVh, subscribe}
use mqtt_broker.VariableHeader.Wire as VhWire
use mqtt_broker.VariableHeader.RoundTrip.{IsReadable, read_subscribe-encoding}
use mqtt_broker.Handlers.{add_subscription, Subscribed, subscribe_loop, handle_subscribe}

-- The payload of a SUBSCRIBE: topic filters with their options.
abbrev pub filters : List (List ℕ × ℕ) → List ℕ
filters [] = []
filters ((name, options) ∷ topics) = (string_encoding name ++ (options ∷ [])) ++ filters topics

abbrev pub IsName : List ℕ × ℕ → Type 0
IsName t = length t.0 < 2 ^ 16

-- What the loop does with each topic filter.
abbrev pub subscribed : List (List ℕ × ℕ) → Subscribed → Subscribed
subscribed [] s = s
subscribed ((name, options) ∷ topics) s = subscribed topics (record {
  reason_codes = s.reason_codes ++ (2 ∷ []);
  topics = s.topics ++ ((name, options) ∷ []);
  subscriptions = add_subscription name options s.subscriptions;
})

-- The entries of a map after `insert` of each topic filter.
abbrev pub added : List (List ℕ × ℕ) → List (List ℕ × ℕ) → List (List ℕ × ℕ)
added [] subs = subs
added ((name, options) ∷ topics) subs = added topics (add_subscription name options subs)

-- The reads of one round, where `front` has been read.
name_read :
    (front name ys : List ℕ)
    → length name < 2 ^ 16
    → length front < 2 ^ 30
    → let buf = front ++ (string_encoding name ++ ys) in
      let at_name = (length front + 2) % 2 ^ 32 in
      (convert_to_host_2_bytes (drop (length front) buf) ≡ done (length name))
      × (read_bytes (length name) (drop at_name buf) ≡ done name)
      × ((at_name + length name) % 2 ^ 32 ≡ length front + length (string_encoding name))
      × (drop (length front + length (string_encoding name)) buf ≡ ys)
name_read front name ys hn hf = (
  rw (drop-append front (string_encoding name ++ ys), len_eq)
      (convert_to_host_2_bytes-be16 (length name) (name ++ ys) hn),
  rw (at_eq, drop-drop (length front) 2 buf, drop-append front (string_encoding name ++ ys))
      (read_bytes-append name ys),
  omega (arith, hn, hf),
  drop-drop (length front) (length (string_encoding name)) buf
      ∙ ap (drop (length (string_encoding name))) (drop-append front (string_encoding name ++ ys))
      ∙ drop-append (string_encoding name) ys,
)
  where
    buf : List ℕ
    buf = front ++ (string_encoding name ++ ys)

    len_eq : length name % 2 ^ 16 ≡ length name
    len_eq = omega (arith, hn)

    at_eq : (length front + 2) % 2 ^ 32 ≡ length front + 2
    at_eq = omega (arith, hf)

subscribe_step :
    (fuel remaining_len : ℕ) (front name ys : List ℕ) (options : ℕ) (s : Subscribed)
    → length name < 2 ^ 16
    → length front < remaining_len
    → remaining_len < 2 ^ 30
    → subscribe_loop
        (suc fuel)
        remaining_len
        (front ++ (string_encoding name ++ (options ∷ ys)))
        (length front)
        s
      ≡ subscribe_loop fuel remaining_len
          (front ++ (string_encoding name ++ (options ∷ ys)))
          (length front + length (string_encoding name ++ (options ∷ [])))
          (subscribed ((name, options) ∷ []) s)
unfolding subscribe_loop byte_at
subscribe_step fuel remaining_len front name ys options s hn lt hr =
    let r = name_read front name (options ∷ ys) hn (omega (arith, lt, hr)) in
    rw (below, r.0, r.1, r.2, r.3)
      (ap (λ n. subscribe_loop fuel remaining_len buf n (subscribed ((name, options) ∷ []) s))
        place)
  where
    buf : List ℕ
    buf = front ++ (string_encoding name ++ (options ∷ ys))

    below : ltb (length front) remaining_len ≡ true
    below = ground (arith, lt)

    place :
        (length front + length (string_encoding name) + 1) % 2 ^ 32
        ≡ length front + length (string_encoding name ++ (options ∷ []))
    place = omega (arith, lt, hr, hn, length-append (string_encoding name) (options ∷ []))

subscribe_loop-filters :
    (topics : List (List ℕ × ℕ)) (fuel remaining_len : ℕ) (front : List ℕ) (s : Subscribed)
    → All IsName topics
    → remaining_len ≡ length front + length (filters topics)
    → remaining_len < 2 ^ 30
    → length topics < fuel
    → subscribe_loop fuel remaining_len (front ++ filters topics) (length front) s
      ≡ done (subscribed topics s)
subscribe_loop-filters topics zero remaining_len front s h e lt hf = absurd (omega arith)
subscribe_loop-filters [] (suc fuel) remaining_len front s h e lt hf =
    unfold subscribe_loop in rw above refl
  where
    above : ltb (length front) remaining_len ≡ false
    above = ground (arith, e)
subscribe_loop-filters ((name, options) ∷ topics) (suc fuel) remaining_len front s (hn, h) e lt hf =
    ap (λ ys. subscribe_loop (suc fuel) remaining_len (front ++ ys) (length front) s)
      (append_assoc (string_encoding name) (options ∷ []) (filters topics))
    ∙ subscribe_step fuel remaining_len front name (filters topics) options s hn
        (omega (arith, e, size)) lt
    ∙ (λ i.
        subscribe_loop fuel remaining_len (buf_eq i) (sym (length-append front one) i)
          (subscribed ((name, options) ∷ []) s))
    ∙ subscribe_loop-filters topics fuel remaining_len (front ++ one)
        (subscribed ((name, options) ∷ []) s) h
        (omega (arith, e, size, one_size, length-append front one)) lt (omega (arith, hf))
  where
    one : List ℕ
    one = string_encoding name ++ (options ∷ [])

    one_size : length one ≡ length name + 3
    one_size = omega (arith, length-append (string_encoding name) (options ∷ []))

    size :
        length (filters ((name, options) ∷ topics))
        ≡ suc (suc (length name)) + 1 + length (filters topics)
    size = omega (
      arith,
      length-append one (filters topics),
      length-append (string_encoding name) (options ∷ []),
    )

    buf_eq :
        front ++ (string_encoding name ++ (options ∷ filters topics))
        ≡ (front ++ one) ++ filters topics
    buf_eq =
        sym (
          ap (λ ys. front ++ ys)
            (append_assoc (string_encoding name) (options ∷ []) (filters topics)))
        ∙ sym (append_assoc front one (filters topics))

subscribed_lem :
    (topics : List (List ℕ × ℕ)) (s : Subscribed)
    → (subscribed topics s).topics ≡ s.topics ++ topics
subscribed_lem [] s = sym (append-nil s.topics)
subscribed_lem (t ∷ topics) s =
    subscribed_lem topics (subscribed (t ∷ []) s) ∙ append_assoc s.topics (t ∷ []) topics

subscribed_subscriptions :
    (topics : List (List ℕ × ℕ)) (s : Subscribed)
    → (subscribed topics s).subscriptions ≡ added topics s.subscriptions
subscribed_subscriptions [] s = refl
subscribed_subscriptions (t ∷ topics) s = subscribed_subscriptions topics (subscribed (t ∷ []) s)

subscribed_codes :
    (topics : List (List ℕ × ℕ)) (s : Subscribed)
    → (subscribed topics s).reason_codes ≡ s.reason_codes ++ replicate (length topics) 2
subscribed_codes [] s = sym (append-nil s.reason_codes)
subscribed_codes (t ∷ topics) s =
    subscribed_codes topics (subscribed (t ∷ []) s)
    ∙ append_assoc s.reason_codes (2 ∷ []) (replicate (length topics) 2)

length-filters : (topics : List (List ℕ × ℕ)) → length topics ≤ length (filters topics)
length-filters [] = omega arith
length-filters ((name, options) ∷ topics) = omega (
  arith,
  length-filters topics,
  length-append (string_encoding name ++ (options ∷ [])) (filters topics),
  length-append (string_encoding name) (options ∷ []),
)

-- `HandleMqttSubscribe` on the header and the topic filters of a SUBSCRIBE gives them back in
-- their order, and adds them one by one to the subscriptions of the client. The packet identifier
-- is not 0, the properties are readable and the whole is below 2 ^ 28 bytes.
pub handle_subscribe-filters :
    (fh : FixedHeader) (vh : SubscribeVh) (topics subscriptions : List (List ℕ × ℕ))
    → vh.packet_id < 2 ^ 16
    → vh.packet_id ≢ 0
    → IsReadable vh.p_chain
    → All IsName topics
    → fh.remaining_len ≡ length (VhWire.encoding (subscribe vh) ++ filters topics)
    → fh.remaining_len < 2 ^ 28
    → (s : Subscribed) × (handle_subscribe fh
          (VhWire.encoding (subscribe vh) ++ filters topics)
          subscriptions
        ≡ done (vh, s))
      × (s.topics ≡ topics)
      × (s.reason_codes ≡ replicate (length topics) 2)
      × (s.subscriptions ≡ added topics subscriptions)
unfolding handle_subscribe
handle_subscribe-filters fh vh topics subscriptions hi nz r h e lt = (
  subscribed topics start,
  rw (read_subscribe-encoding vh (filters topics) hi nz r, run) refl,
  subscribed_lem topics start,
  subscribed_codes topics start,
  subscribed_subscriptions topics start,
)
  where
    start : Subscribed
    start = record { reason_codes = []; topics = []; subscriptions = subscriptions }

    run :
        subscribe_loop
          (suc fh.remaining_len)
          fh.remaining_len
          (VhWire.encoding (subscribe vh) ++ filters topics)
          (length (VhWire.encoding (subscribe vh)))
          start
        ≡ done (subscribed topics start)
    run =
        subscribe_loop-filters topics (suc fh.remaining_len) fh.remaining_len
          (VhWire.encoding (subscribe vh)) start h
          (omega (arith, e, length-append (VhWire.encoding (subscribe vh)) (filters topics)))
          (omega (arith, lt))
          (omega (
            arith,
            e,
            length-filters topics,
            length-append (VhWire.encoding (subscribe vh)) (filters topics),
          ))
