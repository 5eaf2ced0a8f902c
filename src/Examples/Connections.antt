-- ===== src/Examples/Connections.antt =====
-- The theorems on CONNECT at a packet that takes over the identifier of a client.
use mqtt_broker.Common.{ℕ, ◌≡◌, done, refl, List, [], ◌∷◌, text_eq, some}
use mqtt_broker.Common.Bytes.{convert_to_host_2_bytes, read_bytes, byte_at}
use mqtt_broker.VarInt.{MqttErr, decode_var_int, decode_loop}
use mqtt_broker.Chain
use mqtt_broker.VariableHeader
use mqtt_broker.VariableHeader.Read.{read_connect}
use mqtt_broker.Client.{Client, new_client}
use mqtt_broker.Broker.{Broker}
use mqtt_broker.Broker.Tables.{client_fd_loop, get_client_fd, close_connection}
use mqtt_broker.FixedHeader.{FixedHeader}
use mqtt_broker.Connect.{
  Connected, create_text, unless_failed, read_login, read_will, take_id, read_client_id,
  handle_connect,
}
use mqtt_broker.Connect.Identifiers.{Identified, handle_connect-Identified}

-- A clean start of the client "c".
abbrev connect_c : List ℕ
connect_c = 0 ∷ 4 ∷ 77 ∷ 81 ∷ 84 ∷ 84 ∷ 5 ∷ 2 ∷ 0 ∷ 60 ∷ 0 ∷ 0 ∷ 1 ∷ 99 ∷ []

abbrev client_c : Client
client_c = record (new_client [] 0) { client_id = 99 ∷ [] }

abbrev newcomer : Client
newcomer = new_client [] 7

abbrev connected : Client
connected = record newcomer { client_id = 99 ∷ []; mqtt_version = 5; alive = 60; flags = 2 }

abbrev one_client : Broker
one_client = record {
  objects = client_c ∷ newcomer ∷ [];
  clients = (5, some 0) ∷ (6, some 1) ∷ [];
  subscribed_clients = [];
  postponed_events = [];
  commands = [];
  topics = [];
  qos_2_topics = [];
}

abbrev accepted : Connected
accepted = record {
  status = MqttErr.ok;
  client = connected;
  broker = close_connection 5 one_client;
}

connect_accepted : handle_connect (1 ∷ []) connect_c newcomer one_client ≡ done accepted
unfolding handle_connect read_connect convert_to_host_2_bytes Chain.create Chain.create_with
    Chain.after_length decode_var_int decode_loop read_client_id create_text take_id get_client_fd
    client_fd_loop text_eq unless_failed read_will read_login read_bytes byte_at VariableHeader.size
connect_accepted = refl

handle_connect-Identified_example : Identified (1 ∷ []) one_client accepted
handle_connect-Identified_example =
    handle_connect-Identified (1 ∷ []) connect_c newcomer one_client accepted connect_accepted

abbrev connect_header : FixedHeader
connect_header = record { first = 0x10; remaining_len = 14 }
