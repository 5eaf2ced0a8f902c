-- ===== src/Examples/Lifecycle.antt =====
-- The theorems on the main thread and the server thread at concrete states.
use mqtt_broker.Common.{ℕ, ◌≡◌, ◌⊎◌, refl, [], ◌∷◌, true, false, some, done}
use mqtt_broker.Client.{new_client}
use mqtt_broker.Broker.{Broker}
use mqtt_broker.Broker.Tables.{has_fd}
use mqtt_broker.Server.{init, started, Poll, Server, poll_fds, server_round}
use mqtt_broker.Server.Overrun.{NoAdd}
use mqtt_broker.Lifecycle.{
  waiting, inserted, stopped, at_switch, emptied, collected, polling, World, Step, Reached,
}
use mqtt_broker.Lifecycle.Races.{missed, stranded}
use mqtt_broker.Examples.{zeros}
use mqtt_broker.Examples.Threads.{two_bytes}

abbrev nobody : Broker
nobody = record {
  objects = [];
  clients = [];
  subscribed_clients = [];
  postponed_events = [];
  commands = [];
  topics = [];
  qos_2_topics = [];
}

-- The start of the program.
abbrev at_start : World
at_start = record {
  server = record { broker = nobody; state = init; vec_fds = [] };
  main = waiting;
  point = stopped;
  adds = 0;
  leaving = 0;
  is_started = false;
}

-- The first client, for which the server thread is started.
abbrev one_client : Broker
one_client = record nobody { objects = new_client [] 0 ∷ []; clients = (5, some 0) ∷ [] }

abbrev arrived : World
arrived = record at_start {
  server = record { broker = one_client; state = init; vec_fds = [] };
  main = inserted;
}

abbrev running : World
running = record arrived {
  server = record { broker = one_client; state = started; vec_fds = [] };
  main = waiting;
  point = at_switch;
  is_started = true;
}

abbrev collecting : World
collecting = record running {
  server = record { broker = one_client; state = started; vec_fds = poll_fds one_client.clients };
  point = collected;
}

missed_example :
    (w' : World) × (client_num : ℕ) × Reached zeros two_bytes collecting w'
    × (w'.main ≡ waiting)
    × (w'.adds ≡ 0)
    × (w'.point ≡ polling client_num)
    × ((current_time : ℕ) (poll : Poll) (s : Server)
        → NoAdd poll.events
        → ¬ (server_round zeros two_bytes current_time client_num poll w'.server ≡ done s))
unfolding has_fd
missed_example = missed zeros two_bytes 6 0 [] collecting refl refl refl refl refl

abbrev found_empty : World
found_empty = record running {
  server = record { broker = nobody; state = started; vec_fds = [] };
  point = emptied;
}

stranded_example :
    (w' : World) × Reached zeros two_bytes found_empty w'
    × (w'.point ≡ stopped)
    × (has_fd 6 w'.server.broker.clients ≡ true)
    × ((t : World)
        → Step zeros two_bytes w' t
        → (t.main ≡ inserted) ⊎ ((t.main ≡ waiting) × (t.server ≡ w'.server) × (t.point ≡ stopped)))
unfolding has_fd
stranded_example = stranded zeros two_bytes 6 0 [] found_empty refl refl refl refl
