-- ===== src/Examples/Rounds.antt =====
-- The theorems on the server thread at concrete states.
use mqtt_broker.Common.{ℕ, zero, suc, ◌≡◌, refl, [], ◌∷◌, true, false, some, done, arith}
use mqtt_broker.VarInt.{MqttErr}
use mqtt_broker.VarInt
use mqtt_broker.Client.{Client, new_client}
use mqtt_broker.Broker.{Broker}
use mqtt_broker.PacketHandlers.{ref_of}
use mqtt_broker.PacketHandlers.Steps as Steps
use mqtt_broker.Server.{control, socket, Event, quiet, ready, Poll, wait_state, Server, server_wait}
use mqtt_broker.Server.Crash.{server_wait-never}
use mqtt_broker.Examples.{zeros}
use mqtt_broker.Examples.Threads.{two_bytes}

abbrev client_c : Client
client_c = record (new_client [] 0) { client_id = 99 ∷ []; alive = 60 }

abbrev newcomer : Client
newcomer = record client_c { time_last_packet = 9 }

abbrev two_clients : Broker
two_clients = record {
  objects = client_c ∷ newcomer ∷ [];
  clients = (5, some 0) ∷ (6, some 1) ∷ [];
  subscribed_clients = [];
  postponed_events = [];
  commands = [];
  topics = [];
  qos_2_topics = [];
}

abbrev polling : Broker → Server
polling b = record { broker = b; state = wait_state; vec_fds = socket 5 ∷ socket 6 ∷ control ∷ [] }

-- A DISCONNECT on the first socket.
abbrev events : ℕ → Event
events zero = ready (record { is_add = false; head = 0xE0 ∷ 0 ∷ []; body = []; random_id = [] })
events (suc i) = quiet

abbrev poll : Poll
poll = record { is_ok = true; events = events }

abbrev left_alone : Broker
left_alone = record two_clients {
  objects = record client_c { time_last_packet = 9 } ∷ newcomer ∷ [];
  clients = (6, some 1) ∷ [];
}

-- The first client has been closed because the second has taken its identifier.
abbrev taken_over : Broker
taken_over = record two_clients { clients = (6, some 1) ∷ [] }

server_wait-never_example :
    ¬ (server_wait zeros two_bytes 9 poll (polling taken_over) ≡ done (polling taken_over))
unfolding ref_of
server_wait-never_example =
    server_wait-never zeros two_bytes 9 [] 5 (socket 6 ∷ control ∷ []) poll (polling taken_over)
      (polling taken_over) refl (omega arith) tt refl
