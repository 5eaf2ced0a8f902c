-- ===== src/Client.antt =====
-- Class `Client`, src/client.cpp. The clock is left out: `time_last_packet` is what the caller sets.
-- `will_topic` is `none` until a CONNECT has set it, and `mqtt_version`, which the constructor leaves
-- unset, starts as 0.
pub mod PacketIds
use mqtt_broker.Common.{
  ℕ, ◌+◌, ◌/◌, ◌%◌, ◌^◌, bit_and, List, [], ◌∷◌, Bool, true, false, not, ◌==◌, if◌then◌else◌,
  text_eq, Option, none, Exec,
}
use mqtt_broker.Property.{Property}
use mqtt_broker.Topic.{MqttTopic}
use mqtt_broker.Topic.Filter.{check_wild_cards}
use mqtt_broker.Handlers.{add_subscription}

pub record Client : Type 0 where
  pub ip : List ℕ
  pub client_id : List ℕ
  pub subscribed_topics : List (List ℕ × ℕ)
  pub user_name : Option (List ℕ)
  pub pwd : Option (List ℕ)
  pub conn_properties : List Property
  pub will_properties : List Property
  pub will_topic : Option MqttTopic
  pub flags : ℕ
  pub alive : ℕ
  pub time_last_packet : ℕ
  pub packet_id_gen : ℕ
  pub id_was_random_generated : Bool
  pub mqtt_version : ℕ
  pub authorized : Bool

-- The constructor.
unfoldable pub new_client : List ℕ → ℕ → Client
new_client ip cur_time = record {
  ip = ip;
  client_id = [];
  subscribed_topics = [];
  user_name = none;
  pwd = none;
  conn_properties = [];
  will_properties = [];
  will_topic = none;
  flags = 0;
  alive = 0;
  time_last_packet = cur_time;
  packet_id_gen = 1;
  id_was_random_generated = false;
  mqtt_version = 0;
  authorized = false;
}

abbrev pub is_user_name_flag : Client → Bool
is_user_name_flag c = not (bit_and c.flags 0x80 == 0)

abbrev pub is_pwd_flag : Client → Bool
is_pwd_flag c = not (bit_and c.flags 0x40 == 0)

abbrev pub is_will_ret_flag : Client → Bool
is_will_ret_flag c = not (bit_and c.flags 0x20 == 0)

abbrev pub will_qos_flag : Client → ℕ
will_qos_flag c = bit_and c.flags 0x18 / 8

abbrev pub is_will_flag : Client → Bool
is_will_flag c = not (bit_and c.flags 0x4 == 0)

abbrev pub is_clean_flag : Client → Bool
is_clean_flag c = not (bit_and c.flags 0x2 == 0)

abbrev pub subscribe_to : List ℕ → ℕ → Client → Client
subscribe_to name options c = record c {
  subscribed_topics = add_subscription name options c.subscribed_topics;
}

-- `MyTopic`: whether a filter of the client matches, and the options of that filter.
abbrev pub my_topic : Client → List ℕ → Exec (Bool × ℕ)
my_topic c topic = check_wild_cards topic c.subscribed_topics

-- `packet_id_gen++`, a `uint16_t`: the identifier and the client after it.
unfoldable pub gen_packet_id : Client → ℕ × Client
gen_packet_id c = (c.packet_id_gen, record c { packet_id_gen = (c.packet_id_gen + 1) % 2 ^ 16 })

erase_subscription : List ℕ → List (List ℕ × ℕ) → List (List ℕ × ℕ)
erase_subscription name [] = []
erase_subscription name ((n, o) ∷ subs) =
    if text_eq n name then subs else (n, o) ∷ erase_subscription name subs

had_subscription : List ℕ → List (List ℕ × ℕ) → ℕ
had_subscription name [] = 0
had_subscription name ((n, o) ∷ subs) = if text_eq n name then 1 else had_subscription name subs

-- `DelSubscription`: the number of entries erased, and the client after it.
pub del_subscription : List ℕ → Client → ℕ × Client
del_subscription name c = (
  had_subscription name c.subscribed_topics,
  record c { subscribed_topics = erase_subscription name c.subscribed_topics },
)
