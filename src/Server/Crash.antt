-- ===== src/Server/Crash.antt =====
-- A client that is missing from the table while its socket is polled, src/broker.cpp.
use mqtt_broker.Common.{
  ℕ, zero, suc, ◌+◌, ◌<◌, ◌≡◌, refl, List, [], ◌∷◌, length, none, done, fault, >>=-eq-done, arith,
}
use mathlib.Core.Path.{subst}
use mqtt_broker.Packet.{Packet}
use mqtt_broker.Broker.{Broker, add_command}
use mqtt_broker.Broker.Postponed.{NoEvents}
use mqtt_broker.PacketHandlers.{ref_of, with_client}
use mqtt_broker.PacketHandlers.Postponed.{notify_clients-IsQuiet}
use mqtt_broker.PacketHandlers.Tables.{Follows, IsQuiet-Follows, handle_packet-Follows}
use mqtt_broker.Server.{
  PollFd, socket, Event, quiet, closed, ready, Poll, Round, Server, serve_socket, serve_entry,
  serve_loop, server_round, server_wait,
}
use mqtt_broker.Server.Rounds.{IsKept, serve_socket_kept}

-- The socket has no client, and no event is postponed.
pub record IsGone (fd : ℕ) (b : Broker) : Type 0 where
  pub no_events : NoEvents b.postponed_events
  pub no_client : ref_of fd b.clients ≡ none

Follows-IsGone : (fd : ℕ) (b b' : Broker) → IsGone fd b → Follows b b' → IsGone fd b'
Follows-IsGone fd b b' g f = record {
  no_events = f.no_events;
  no_client = f.no_clients fd g.no_client;
}

add_command-IsGone :
    (fd f : ℕ) (packet : Packet) (b : Broker) → IsGone fd b → IsGone fd (add_command f packet b)
unfolding add_command
add_command-IsGone fd f packet b g = record { no_events = g.no_events; no_client = g.no_client }

IsGone-IsKept : (fresh : ℕ → List ℕ) (fd : ℕ) → IsKept fresh (IsGone fd)
IsGone-IsKept fresh fd = record {
  handles = λ random_id fh buf f b b' err g e.
      Follows-IsGone fd b b' g
        (handle_packet-Follows fresh random_id fh buf f b g.no_events (err, b') e);
  notifies = λ topic topic' b b' g e. Follows-IsGone fd b b' g (
      IsQuiet-Follows b b'
        (notify_clients-IsQuiet b fresh topic b (g.no_events, refl, λ a. a) (topic', b') e));
  orders = λ f packet b g. add_command-IsGone fd f packet b g;
  changes = λ objects b g. record { no_events = g.no_events; no_client = g.no_client };
}

abbrev pub sockets : List ℕ → List PollFd → List PollFd
sockets [] rest = rest
sockets (fd ∷ fds) rest = socket fd ∷ sockets fds rest

module _ (fresh : ℕ → List ℕ) (write : ℕ → ℕ → ℕ) (current_time : ℕ) where
  -- Every event of the socket looks for its client.
  serve_gone :
      (event : Event) (fd : ℕ) (fds : List ℕ) (b : Broker)
      → ref_of fd b.clients ≡ none
      → serve_socket fresh write current_time event fd fds b ≡ fault
  unfolding serve_socket with_client
  serve_gone quiet fd fds b h = rw (serve_socket, with_client, h) refl
  serve_gone closed fd fds b h = rw (serve_socket, with_client, h) refl
  serve_gone (ready a) fd fds b h = rw (serve_socket, with_client, h) refl

  serve_loop-never :
      (before : List ℕ) (n i fd : ℕ) (events : ℕ → Event) (rest : List PollFd) (fds : List ℕ)
      (b : Broker) (r : Round)
      → length before < n
      → IsGone fd b
      → serve_loop fresh write current_time n i events (sockets before (socket fd ∷ rest)) fds b
        ≡ done r
      → ⊥
  unfolding serve_loop serve_entry
  serve_loop-never before zero i fd events rest fds b r h g e = absurd (omega arith)
  serve_loop-never [] (suc n) i fd events rest fds b r h g e =
      let k = rw (serve_gone (events i) fd fds b g.no_client) at e in cc
  serve_loop-never (f ∷ before) (suc n) i fd events rest fds b r h g e =
      let (r1, p, q) = >>=-eq-done (serve_socket fresh write current_time (events i) f fds b) _ e in
      let (g1, on) =
        serve_socket_kept fresh write current_time (IsGone fd) (IsGone-IsKept fresh fd) (events i) f
          fds b g r1 p in
      serve_loop-never before n (suc i) fd events rest r1.fd_to_delete r1.broker r (omega arith) g1
        (rw on at q)

  -- While a socket is polled whose client is not in the table, no round of the server returns, whatever
  -- `poll`, the sockets and the clock give: at the latest where it comes to that socket, it reads
  -- through a null pointer. The socket is among the first `GetClientCount() + 1` that are polled, only
  -- sockets of clients stand before it, and no event is postponed.
  pub server_wait-never :
      (before : List ℕ) (fd : ℕ) (rest : List PollFd) (poll : Poll) (s s' : Server)
      → s.vec_fds ≡ sockets before (socket fd ∷ rest)
      → length before < length s.broker.clients + 1
      → NoEvents s.broker.postponed_events
      → ref_of fd s.broker.clients ≡ none
      → ¬ (server_wait fresh write current_time poll s ≡ done s')
  unfolding server_wait server_round
  server_wait-never before fd rest poll s s' v l h n e =
      let (r, p, q) =
        >>=-eq-done
          (serve_loop fresh write current_time (length s.broker.clients + 1) 0 poll.events s.vec_fds
            [] s.broker)
          _ e in
      serve_loop-never before (length s.broker.clients + 1) 0 fd poll.events rest [] s.broker r l
        (record { no_events = h; no_client = n })
        (subst
          (λ x.
            serve_loop fresh write current_time (length s.broker.clients + 1) 0 poll.events x []
              s.broker
            ≡ done r)
          v p)
