-- ===== src/Lifecycle/Races.antt =====
-- Races of the main thread and the server thread, src/main.cpp and src/broker.cpp: a client that
-- comes while the server is in the state `started`.
use mqtt_broker.Common.{
  ℕ, suc, ◌+◌, ◌<◌, ◌≡◌, ◌⊎◌, refl, sym, ap, List, [], ◌∷◌, length, ==_iff, true, false, Bool-cases,
  inl, inr, done, arith,
}
use mqtt_broker.Broker.{Broker}
use mqtt_broker.Broker.Tables.{add_client, has_fd}
use mqtt_broker.Server.{init, started, wait_state, Poll, Server, poll_fds, server_round}
use mqtt_broker.Server.Overrun.{NoAdd, server_round-past}
use mqtt_broker.Lifecycle.{
  waiting, inserted, accepted, starting, stopped, at_switch, emptied, collected, polling, World,
  insert_client, send_add, test_state, set_wait, stop, Step, inserts, sends, tests, starts,
  collects, sets, stops, leaves, polls, rounds, Reached, here, next,
}

-- The server with the new client in its table.
abbrev pub joined : ℕ → List ℕ → ℕ → Server → Server
joined sock ip cur_time s = record s { broker = (add_client sock ip cur_time s.broker).1 }

insert_new :
    (sock cur_time : ℕ) (ip : List ℕ) (w : World)
    → has_fd sock w.server.broker.clients ≡ false
    → insert_client sock ip cur_time w
      ≡ record w { server = joined sock ip cur_time w.server; main = inserted }
unfolding insert_client add_client
insert_new sock cur_time ip w h = rw (insert_client, add_client, h) refl

-- A client that is refused changes nothing.
insert_old :
    (sock cur_time : ℕ) (ip : List ℕ) (w : World)
    → has_fd sock w.server.broker.clients ≡ true
    → insert_client sock ip cur_time w ≡ record w { main = waiting }
unfolding insert_client add_client
insert_old sock cur_time ip w h = rw (insert_client, add_client, h) refl

send_started : (w : World) → w.server.state ≡ started → send_add w ≡ record w { main = accepted }
unfolding send_add
send_started w h =
    ap
      (λ state. elim state [
        | init ↦ record w { main = accepted }
        | started ↦ record w { main = accepted }
        | wait_state ↦ record w { main = accepted; adds = suc w.adds }
      ])
      h

test_started : (w : World) → w.server.state ≡ started → test_state w ≡ record w { main = waiting }
unfolding test_state
test_started w h =
    ap
      (λ state. elim state [
        | init ↦ record w { main = starting }
        | started ↦ record w { main = waiting }
        | wait_state ↦ record w { main = waiting }
      ])
      h

poll_fds-length : (clients : List _) → length (poll_fds clients) ≡ suc (length clients)
unfolding poll_fds
poll_fds-length [] = refl
poll_fds-length ((fd, ref) ∷ clients) = ap suc (poll_fds-length clients)

has_fd-add_client :
    (sock cur_time : ℕ) (ip : List ℕ) (b : Broker)
    → has_fd sock (add_client sock ip cur_time b).1.clients ≡ true
unfolding add_client has_fd
has_fd-add_client sock cur_time ip b = elim (Bool-cases (has_fd sock b.clients)) [
  | inl t ↦ rw (add_client, t) t
  | inr f ↦ rw (add_client, f, (==_iff sock sock).1 refl) refl
]

add_client-length :
    (sock cur_time : ℕ) (ip : List ℕ) (b : Broker)
    → has_fd sock b.clients ≡ false
    → length (add_client sock ip cur_time b).1.clients ≡ suc (length b.clients)
unfolding add_client
add_client-length sock cur_time ip b h = rw (add_client, h) refl

module _ (fresh : ℕ → List ℕ) (write : ℕ → ℕ → ℕ) where
  -- In the state `started` the main thread takes a new client without a word to the server.
  joins :
      (sock cur_time : ℕ) (ip : List ℕ) (w : World)
      → w.main ≡ waiting
      → w.server.state ≡ started
      → has_fd sock w.server.broker.clients ≡ false
      → Reached fresh write w
          (record w { server = joined sock ip cur_time w.server; main = waiting })
  joins sock cur_time ip w m s h =
      let w1 : World = record w { server = joined sock ip cur_time w.server; main = inserted } in
      let w2 : World = record w { server = joined sock ip cur_time w.server; main = accepted } in
      next {t = w2}
        (next {t = w1}
          (next {t = w} here (inserts sock cur_time ip m (sym (insert_new sock cur_time ip w h))))
          (sends refl (sym (send_started w1 s))))
        (tests refl (sym (test_started w2 s)))

  -- A client that is new comes after the server has collected the entries to poll and before it sets
  -- its state: the main thread sends no command "ADD" and waits for the next client, the server polls
  -- one entry more than it has collected, and until a command "ADD" arrives no such round returns,
  -- whatever the sockets give: it reads past the end of `vec_fds`.
  pub missed :
      (sock cur_time : ℕ) (ip : List ℕ) (w : World)
      → w.main ≡ waiting
      → w.point ≡ collected
      → w.server.state ≡ started
      → w.server.vec_fds ≡ poll_fds w.server.broker.clients
      → has_fd sock w.server.broker.clients ≡ false
      → (w' : World) × (client_num : ℕ) × Reached fresh write w w'
        × (w'.main ≡ waiting)
        × (w'.adds ≡ w.adds)
        × (w'.point ≡ polling client_num)
        × ((current_time : ℕ) (poll : Poll) (s : Server)
            → NoAdd poll.events
            → ¬ (server_round fresh write current_time client_num poll w'.server ≡ done s))
  unfolding set_wait
  missed sock cur_time ip w m p s v h =
      let server : Server = record (joined sock ip cur_time w.server) { state = wait_state } in
      let client_num = length server.broker.clients + 1 in
      let w1 : World = record w { server = joined sock ip cur_time w.server; main = waiting } in
      let w2 : World = record w { server = server; main = waiting; point = at_switch } in
      let w3 : World = record w2 { point = polling client_num } in
      let longer : length server.vec_fds < client_num = omega (
        arith,
        ap length v,
        poll_fds-length w.server.broker.clients,
        add_client-length sock cur_time ip w.server.broker h,
      ) in
      (
        w3,
        client_num,
        next {t = w2} (next {t = w1} (joins sock cur_time ip w m s h) (sets p refl))
            (polls refl refl refl),
        refl,
        refl,
        refl,
        λ current_time poll s' n.
            server_round-past fresh write current_time client_num poll server s' longer n,
      )

  -- What can follow while no server thread runs and no new client comes.
  nothing_served :
      (w w' : World)
      → w.main ≡ waiting
      → w.point ≡ stopped
      → Step fresh write w w'
      → (w'.main ≡ inserted) ⊎ ((w'.main ≡ waiting) × (w'.server ≡ w.server) × (w'.point ≡ stopped))
  nothing_served w w' m p (inserts sock cur_time ip k e) =
      elim (Bool-cases (has_fd sock w.server.broker.clients)) [
        | inl t ↦ inr (rw (e, insert_old sock cur_time ip w t) (refl, refl, p))
        | inr f ↦ inl (rw (e, insert_new sock cur_time ip w f) refl)
      ]
  nothing_served w w' m p (sends k e) = absurd cc
  nothing_served w w' m p (tests k e) = absurd cc
  nothing_served w w' m p (starts k e) = absurd cc
  nothing_served w w' m p (collects k s e) = absurd cc
  nothing_served w w' m p (sets k e) = absurd cc
  nothing_served w w' m p (stops k e) = absurd cc
  nothing_served w w' m p (leaves n k e) = inr (rw e (m, refl, p))
  nothing_served w w' m p (polls k s e) = absurd cc
  nothing_served w w' m p (rounds client_num current_time poll s k r e) = absurd cc

  -- A client that is new comes after the server has found its table empty and before it sets its
  -- state: the server thread ends, the main thread waits for the next client, and the client is in
  -- the table with no thread to serve it. Until another new client comes, no step changes that.
  pub stranded :
      (sock cur_time : ℕ) (ip : List ℕ) (w : World)
      → w.main ≡ waiting
      → w.point ≡ emptied
      → w.server.state ≡ started
      → has_fd sock w.server.broker.clients ≡ false
      → (w' : World) × Reached fresh write w w'
        × (w'.point ≡ stopped)
        × (has_fd sock w'.server.broker.clients ≡ true)
        × ((t : World)
            → Step fresh write w' t
            → (t.main ≡ inserted)
              ⊎ ((t.main ≡ waiting) × (t.server ≡ w'.server) × (t.point ≡ stopped)))
  unfolding stop
  stranded sock cur_time ip w m p s h =
      let w1 : World = record w { server = joined sock ip cur_time w.server; main = waiting } in
      (
        stop w1,
        next {t = w1} (joins sock cur_time ip w m s h) (stops p refl),
        refl,
        has_fd-add_client sock cur_time ip w.server.broker,
        λ t k. nothing_served (stop w1) t refl refl k,
      )
