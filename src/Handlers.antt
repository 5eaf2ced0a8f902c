-- ===== src/Handlers.antt =====
-- The functions `HandleMqtt…` that take a packet apart, src/handlers.cpp: PUBLISH, SUBSCRIBE,
-- PUBACK, UNSUBSCRIBE and PUBREL. `buf` is the packet behind its fixed header.
pub mod Publish
pub mod Subscribe
pub mod Termination
use mqtt_broker.Common.{
  ℕ, zero, suc, ◌+◌, ◌%◌, ◌^◌, ◌-◌, List, [], ◌∷◌, ◌++◌, drop, ltb, not, ◌==◌, if◌then◌else◌,
  text_eq, Exec, done, out_of_fuel, ◌>>=◌,
}
use mqtt_broker.Common.Bytes.{convert_to_host_2_bytes, byte_at, read_bytes}
use mqtt_broker.Chain
use mqtt_broker.FixedHeader.{FixedHeader, qos}
use mqtt_broker.VariableHeader.{PublishVh, SubscribeVh, PubackVh, UnsubscribeVh}
use mqtt_broker.VariableHeader.Read.{read_publish, read_subscribe, read_puback, read_unsubscribe}

-- `fh.remaining_len - offset`, a `uint32_t`; the log line reads that many bytes, and the length of
-- the payload is cut to a `uint16_t`.
unfoldable pub read_payload : FixedHeader → ℕ → List ℕ → Exec (List ℕ)
read_payload fh offset buf = do
  let len = (fh.remaining_len + 2 ^ 32 - offset) % 2 ^ 32
  logged ← read_bytes len (drop offset buf)
  read_bytes (len % 2 ^ 16) (drop offset buf)

-- `p_vh = tmp_vh` copies the chain.
unfoldable pub handle_publish : FixedHeader → List ℕ → Exec (PublishVh × List ℕ)
handle_publish fh buf = do
  (tmp_vh, offset) ← read_publish (not (qos fh == 0)) buf
  p_chain ← Chain.copy tmp_vh.p_chain
  message ← read_payload fh offset buf
  done (record tmp_vh { p_chain = p_chain }, message)

-- `Client::AddSubscription`: `unordered_map::insert`, which keeps an entry that is there. The map
-- is the list of its entries, in any order.
unfoldable pub add_subscription : List ℕ → ℕ → List (List ℕ × ℕ) → List (List ℕ × ℕ)
add_subscription name options [] = (name, options) ∷ []
add_subscription name options ((n, o) ∷ subs) =
    if text_eq n name then (n, o) ∷ subs else (n, o) ∷ add_subscription name options subs

-- What the loop of `HandleMqttSubscribe` fills.
pub record Subscribed : Type 0 where
  pub reason_codes : List ℕ
  pub topics : List (List ℕ × ℕ)
  pub subscriptions : List (List ℕ × ℕ)

-- `while(offset < fh.remaining_len){ … }`, on fuel; each granted code is `QoS_2`.
unfoldable pub subscribe_loop : ℕ → ℕ → List ℕ → ℕ → Subscribed → Exec Subscribed
subscribe_loop zero remaining_len buf offset s = out_of_fuel
subscribe_loop (suc fuel) remaining_len buf offset s =
    let next : Exec Subscribed = do
      name_len ← convert_to_host_2_bytes (drop offset buf)
      let at_name = (offset + 2) % 2 ^ 32
      topic_name ← read_bytes name_len (drop at_name buf)
      let at_options = (at_name + name_len) % 2 ^ 32
      options ← byte_at (drop at_options buf)
      let s' : Subscribed = record {
        reason_codes = s.reason_codes ++ (2 ∷ []);
        topics = s.topics ++ ((topic_name, options) ∷ []);
        subscriptions = add_subscription topic_name options s.subscriptions;
      }
      subscribe_loop fuel remaining_len buf ((at_options + 1) % 2 ^ 32) s'
    in if ltb offset remaining_len then next else done s

-- A round takes three bytes, so that `remaining_len` rounds are enough.
unfoldable pub handle_subscribe :
    FixedHeader → List ℕ → List (List ℕ × ℕ) → Exec (SubscribeVh × Subscribed)
handle_subscribe fh buf subscriptions = do
  (vh, offset) ← read_subscribe buf 0
  s ←
      subscribe_loop (suc fh.remaining_len) fh.remaining_len buf offset
        (record { reason_codes = []; topics = []; subscriptions = subscriptions })
  done (vh, s)

-- `HandleMqttPuback`, also called on PUBREC and PUBCOMP, and `HandleMqttPubrel`.
unfoldable pub handle_puback : PubackVh → List ℕ → Exec PubackVh
handle_puback vh buf = do (vh', offset) ← read_puback vh buf 0; done vh'

unfoldable pub unsubscribe_loop : ℕ → ℕ → List ℕ → ℕ → List (List ℕ) → Exec (List (List ℕ))
unsubscribe_loop zero remaining_len buf offset topics = out_of_fuel
unsubscribe_loop (suc fuel) remaining_len buf offset topics =
    let next : Exec (List (List ℕ)) = do
      name_len ← convert_to_host_2_bytes (drop offset buf)
      let at_name = (offset + 2) % 2 ^ 32
      topic_name ← read_bytes name_len (drop at_name buf)
      unsubscribe_loop fuel remaining_len buf ((at_name + name_len) % 2 ^ 32)
          (topics ++ (topic_name ∷ []))
    in if ltb offset remaining_len then next else done topics

unfoldable pub handle_unsubscribe : FixedHeader → List ℕ → Exec (UnsubscribeVh × List (List ℕ))
handle_unsubscribe fh buf = do
  (vh, offset) ← read_unsubscribe buf 0
  topics ← unsubscribe_loop (suc fh.remaining_len) fh.remaining_len buf offset []
  done (vh, topics)
