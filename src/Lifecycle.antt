-- ===== src/Lifecycle.antt =====
-- The main thread of src/main.cpp beside the server thread of src/broker.cpp: `AddClient`,
-- `SendCommand`, `Start` and the states of the server, step by step. The accesses of a step are taken
-- as one; the threads interleave between the steps.
pub mod Single
pub mod Races
use mqtt_broker.Common.{
  ℕ, zero, suc, ◌+◌, ◌≡◌, List, [], ◌∷◌, length, Bool, true, false, if◌then◌else◌, Option, none,
  some, done,
}
use mqtt_broker.FixedHeader.{BrokerErr}
use mqtt_broker.Broker.{Broker}
use mqtt_broker.Broker.Tables.{add_client}
use mqtt_broker.Server.{
  BrokerState, init, started, wait_state, Poll, Server, is_empty, poll_fds, server_round,
}

-- Where the main thread is: in `WaitForClient`; in `AddClient`, where the client has been inserted;
-- behind `AddClient`; in `Start`, where the test of the state has succeeded.
pub data MainPoint : Type 0 where
  waiting inserted accepted starting : MainPoint

-- Where the server thread is: not running; before the `switch`; in the state `started`, where it has
-- found no client, or where it has filled `vec_fds`; in the state `wait_state`, where it has read
-- `client_num`.
pub data ServerPoint : Type 0 where
  stopped at_switch emptied collected : ServerPoint
  polling : ℕ → ServerPoint

-- `adds` counts the commands "ADD" that were sent, and `leaving` the server threads that are in their
-- last call of `Execute`; `is_started` is `qos_thread_started`.
pub record World : Type 0 where
  pub server : Server
  pub main : MainPoint
  pub point : ServerPoint
  pub adds : ℕ
  pub leaving : ℕ
  pub is_started : Bool

-- `AddClient` to `lock.unlock()`, and the loop of `main` where the client is refused.
unfoldable pub insert_client : ℕ → List ℕ → ℕ → World → World
insert_client sock ip cur_time w =
    let (err, b) = add_client sock ip cur_time w.server.broker in
    record w {
      server = record w.server { broker = b };
      main = elim err [ BrokerErr.ok ↦ inserted | _ ↦ waiting ];
    }

-- `if (state == broker_states::wait_state) SendCommand("ADD", 3);`
unfoldable pub send_add : World → World
send_add w = elim w.server.state [
  | init ↦ record w { main = accepted }
  | started ↦ record w { main = accepted }
  | wait_state ↦ record w { main = accepted; adds = suc w.adds }
]

-- `if (broker.GetState() == broker_states::init)`
unfoldable pub test_state : World → World
test_state w = elim w.server.state [
  | init ↦ record w { main = starting }
  | started ↦ record w { main = waiting }
  | wait_state ↦ record w { main = waiting }
]

-- `Start`: the server thread begins before its `switch`, and the other threads are started once.
unfoldable pub start : World → World
start w = elim w.server.state [
  | init ↦ record w {
    server = record { broker = w.server.broker; state = started; vec_fds = [] };
    main = waiting;
    point = at_switch;
    is_started = true;
  }
  | started ↦ record w { main = waiting }
  | wait_state ↦ record w { main = waiting }
]

-- The state `started` to its end or to `SetState`.
unfoldable pub collect : World → World
collect w =
    if is_empty w.server.broker.clients
    then record w { server = record w.server { vec_fds = [] }; point = emptied }
    else record w {
      server = record w.server { vec_fds = poll_fds w.server.broker.clients };
      point = collected;
    }

-- `broker.SetState(broker_states::wait_state)`
unfoldable pub set_wait : World → World
set_wait w = record w { server = record w.server { state = wait_state }; point = at_switch }

-- `broker.SetState(broker_states::init)`
unfoldable pub stop : World → World
stop w = record w {
  server = record w.server { state = init };
  point = stopped;
  leaving = suc w.leaving;
}

pub data Step (fresh : ℕ → List ℕ) (write : ℕ → ℕ → ℕ) (w w' : World) : Type 0 where
  inserts :
      (sock cur_time : ℕ) (ip : List ℕ)
      → w.main ≡ waiting
      → w' ≡ insert_client sock ip cur_time w
      → Step fresh write w w'
  sends : w.main ≡ inserted → w' ≡ send_add w → Step fresh write w w'
  tests : w.main ≡ accepted → w' ≡ test_state w → Step fresh write w w'
  starts : w.main ≡ starting → w' ≡ start w → Step fresh write w w'
  collects : w.point ≡ at_switch → w.server.state ≡ started → w' ≡ collect w → Step fresh write w w'
  sets : w.point ≡ collected → w' ≡ set_wait w → Step fresh write w w'
  stops : w.point ≡ emptied → w' ≡ stop w → Step fresh write w w'
  leaves : (n : ℕ) → w.leaving ≡ suc n → w' ≡ record w { leaving = n } → Step fresh write w w'
  polls :
      w.point ≡ at_switch
      → w.server.state ≡ wait_state
      → w' ≡ record w { point = polling (length w.server.broker.clients + 1) }
      → Step fresh write w w'
  rounds :
      (client_num current_time : ℕ) (poll : Poll) (s : Server)
      → w.point ≡ polling client_num
      → server_round fresh write current_time client_num poll w.server ≡ done s
      → w' ≡ record w { server = s; point = at_switch }
      → Step fresh write w w'

pub data Reached (fresh : ℕ → List ℕ) (write : ℕ → ℕ → ℕ) (w : World) : World → Type 0 where
  here : Reached fresh write w w
  next : {t u : World} → Reached fresh write w t → Step fresh write t u → Reached fresh write w u
