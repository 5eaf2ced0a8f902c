-- ===== src/Server/Overrun.antt =====
-- A round of the server with more clients than polled entries, src/broker.cpp.
use mqtt_broker.Common.{
  ℕ, zero, suc, ◌<◌, ◌≡◌, refl, List, [], ◌∷◌, length, false, done, >>=-eq-done, arith, Leaves,
  Leaves-done, Leaves-fault,
}
use mqtt_broker.Broker.{Broker}
use mqtt_broker.Server.{
  PollFd, control, socket, Event, quiet, closed, ready, Arrival, Poll, Round, Server, serve_control,
  serve_entry, serve_loop, server_round,
}
use mqtt_broker.Server.Rounds.{IsKept, serve_socket_kept}

-- No command "ADD" has arrived.
abbrev pub NoAdd : (ℕ → Event) → Type 0
NoAdd events = (i : ℕ) (a : Arrival) → events i ≡ ready a → a.is_add ≡ false

abbrev Anything : Broker → Type 0
Anything b = Unit {0}

module _ (fresh : ℕ → List ℕ) (write : ℕ → ℕ → ℕ) (current_time : ℕ) where
  Anything-IsKept : IsKept fresh Anything
  Anything-IsKept = record {
    handles = λ random_id fh buf f b b' err g e. tt;
    notifies = λ topic topic' b b' g e. tt;
    orders = λ f packet b g. tt;
    changes = λ objects b g. tt;
  }

  abbrev Continues : Round → Type 0
  Continues r = r.reinit ≡ false

  serve_control-Continues :
      (event : Event) (fds : List ℕ) (b : Broker)
      → ((a : Arrival) → event ≡ ready a → a.is_add ≡ false)
      → Leaves Continues (serve_control fresh write current_time event fds b)
  unfolding serve_control
  serve_control-Continues quiet fds b h = Leaves-done Continues _ refl
  serve_control-Continues closed fds b h = Leaves-fault Continues
  serve_control-Continues (ready a) fds b h = Leaves-done Continues _ (h a refl)

  serve_entry-Continues :
      (entry : PollFd) (event : Event) (fds : List ℕ) (b : Broker)
      → ((a : Arrival) → event ≡ ready a → a.is_add ≡ false)
      → Leaves Continues (serve_entry fresh write current_time entry event fds b)
  unfolding serve_entry
  serve_entry-Continues control event fds b h r e = serve_control-Continues event fds b h r e
  serve_entry-Continues (socket fd) event fds b h r e =
      (serve_socket_kept fresh write current_time Anything Anything-IsKept event fd fds b tt r e).1

  -- The loop goes past the end of `vec_fds`.
  serve_loop-past :
      (entries : List PollFd) (n i : ℕ) (events : ℕ → Event) (fds : List ℕ) (b : Broker) (r : Round)
      → length entries < n
      → NoAdd events
      → serve_loop fresh write current_time n i events entries fds b ≡ done r
      → ⊥
  unfolding serve_loop
  serve_loop-past entries zero i events fds b r h n e = absurd (omega arith)
  serve_loop-past [] (suc m) i events fds b r h n e = cc
  serve_loop-past (entry ∷ entries) (suc m) i events fds b r h n e =
      let (r1, p, q) =
        >>=-eq-done (serve_entry fresh write current_time entry (events i) fds b) _ e in
      serve_loop-past entries m (suc i) events r1.fd_to_delete r1.broker r (omega arith) n
        (rw (serve_entry-Continues entry (events i) fds b (n i) r1 p) at q)

  pub server_round-past :
      (client_num : ℕ) (poll : Poll) (s s' : Server)
      → length s.vec_fds < client_num
      → NoAdd poll.events
      → ¬ (server_round fresh write current_time client_num poll s ≡ done s')
  unfolding server_round
  server_round-past client_num poll s s' l n e =
      let (r, p, q) =
        >>=-eq-done
          (serve_loop fresh write current_time client_num 0 poll.events s.vec_fds [] s.broker) _
          e in
      serve_loop-past s.vec_fds client_num 0 poll.events [] s.broker r l n p
