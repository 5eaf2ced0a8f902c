-- ===== src/Lifecycle/Single.antt =====
-- At most one server thread is in its loop: the threads of src/main.cpp and src/broker.cpp.
use mqtt_broker.Common.{◌≡◌, ◌≢◌, true}
use mqtt_broker.Server.{BrokerState, init, started, wait_state, Server}
use mqtt_broker.Lifecycle.{
  starting, ServerPoint, stopped, at_switch, emptied, collected, polling, World,
}

-- The state at each point of the server thread.
abbrev pub Fits : ServerPoint → BrokerState → Type 0
Fits stopped state = state ≡ init
Fits at_switch state = state ≢ init
Fits emptied state = state ≡ started
Fits collected state = state ≡ started
Fits (polling n) state = state ≡ wait_state

-- The state fits the point of the server thread; `Start` is entered only while there is no server
-- thread in its loop; and where there is one, the other threads have been started.
pub record IsSound (w : World) : Type 0 where
  pub fits : Fits w.point w.server.state
  pub free : w.main ≡ starting → w.point ≡ stopped
  pub others : w.point ≢ stopped → w.is_started ≡ true
