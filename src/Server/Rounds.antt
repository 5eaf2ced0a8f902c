-- ===== src/Server/Rounds.antt =====
-- What a round of `ServerThread`, src/broker.cpp, does to the tables of the broker.
use mqtt_broker.Common.{
  ℕ, zero, suc, ◌≡◌, refl, List, [], ◌∷◌, false, ◌==◌, done, Leaves, Leaves-done, Leaves-bind,
  Leaves-then, Leaves-if, Leaves-option, Leaves-fault,
}
use mqtt_broker.VarInt.{MqttErr}
use mqtt_broker.FixedHeader.{FixedHeader, HeaderRead, header, header_failed, read_fixed_header}
use mqtt_broker.VariableHeader.{VariableHeader}
use mqtt_broker.Packet.{Packet, create_mqtt_packet}
use mqtt_broker.Topic.{MqttTopic}
use mqtt_broker.Client.{Client, is_will_flag}
use mqtt_broker.Broker.{Broker, object, add_command, notify_clients}
use mqtt_broker.Broker.Tables.{close_connection}
use mqtt_broker.PacketHandlers.{answer}
use mqtt_broker.PacketHandlers.Dispatch.{handle_packet}
use mqtt_broker.PacketHandlers.Postponed.{with_client_lem}
use mqtt_broker.PacketHandlers.Steps
use mqtt_broker.PacketHandlers.Steps.{Step, Reached, here, step}
use mqtt_broker.Sockets.{read_data}
use mqtt_broker.ErrorHandlers.{handle_error}
use mqtt_broker.Server.{
  PollFd, control, socket, Event, quiet, closed, ready, Arrival, Poll, Round, Server, will_of,
  timeout_notice, is_timed_out, notify_will, after_packet, receive, after_header, seen,
  serve_socket, serve_control, serve_entry, serve_loop, close_all, server_round, server_wait,
}

-- A property of the broker that everything keeps that a round does for a socket.
pub record IsKept (fresh : ℕ → List ℕ) (P : Broker → Type 0) : Type 0 where
  pub handles :
      (random_id : List ℕ) (fh : FixedHeader) (buf : List ℕ) (fd : ℕ) (b b' : Broker)
      (err : MqttErr)
      → P b
      → handle_packet fresh random_id fh buf fd b ≡ done (err, b')
      → P b'
  pub notifies :
      (topic topic' : MqttTopic) (b b' : Broker)
      → P b
      → notify_clients fresh topic b ≡ done (topic', b')
      → P b'
  pub orders : (fd : ℕ) (packet : Packet) (b : Broker) → P b → P (add_command fd packet b)
  pub changes : (objects : List Client) (b : Broker) → P b → P (record b { objects = objects })

module _ (fresh : ℕ → List ℕ) (write : ℕ → ℕ → ℕ) (current_time : ℕ) (P : Broker → Type 0)
    (k : IsKept fresh P) where
  -- The loop goes on, and the property holds.
  abbrev GoesOn : Round → Type 0
  GoesOn r = P r.broker × (r.reinit ≡ false)

  answer_kept :
      (fd first : ℕ) (vh : VariableHeader) (b : Broker)
      → P b
      → Leaves P (answer fresh fd first vh b)
  unfolding answer
  answer_kept fd first vh b h =
      Leaves-then P (create_mqtt_packet fresh first vh) _
        (λ packet. Leaves-done P (add_command fd packet b) (k.orders fd packet b h))

  notify_will_kept :
      (ref : ℕ) (c : Client) (b : Broker)
      → P b
      → Leaves P (notify_will fresh write current_time ref c b)
  unfolding notify_will
  notify_will_kept ref c b h =
      Leaves-if P (is_will_flag c) _ _
        (Leaves-bind (λ (r : MqttTopic × Broker). P r.1) P (notify_clients fresh (will_of c) b) _
          (λ r e. k.notifies (will_of c) r.0 b r.1 h e)
          (λ r hr.
            Leaves-option P (object r.1.objects ref) _ _ (Leaves-fault P)
              (λ c'. Leaves-done P _ (k.changes _ r.1 hr))))
        (Leaves-done P b h)

  after_packet_kept :
      (err : MqttErr) (fd : ℕ) (fds : List ℕ) (b : Broker)
      → P b
      → Leaves GoesOn (after_packet fresh write current_time err fd fds b)
  unfolding after_packet
  after_packet_kept MqttErr.ok fd fds b h = Leaves-done GoesOn _ (h, refl)
  after_packet_kept err fd fds b h =
      Leaves-then GoesOn (handle_error fresh write err) _ (λ sent. Leaves-done GoesOn _ (h, refl))

  receive_kept :
      (fh : FixedHeader) (a : Arrival) (fd : ℕ) (fds : List ℕ) (b : Broker)
      → P b
      → Leaves GoesOn (receive fresh write current_time fh a fd fds b)
  unfolding receive
  receive_kept fh a fd fds b h =
      Leaves-option GoesOn (read_data a.body fh.remaining_len).result _ _
        (Leaves-done GoesOn _ (h, refl))
        (λ n.
          Leaves-if GoesOn (n == fh.remaining_len) _ _
            (Leaves-bind (λ (r : MqttErr × Broker). P r.1) GoesOn
              (handle_packet fresh a.random_id fh (read_data a.body fh.remaining_len).bytes fd b) _
              (λ r e. k.handles a.random_id fh _ fd b r.1 r.0 h e)
              (λ r hr. after_packet_kept r.0 fd fds r.1 hr))
            (Leaves-done GoesOn _ (h, refl)))

  after_header_kept :
      (r : HeaderRead) (a : Arrival) (fd ref : ℕ) (c : Client) (fds : List ℕ) (b : Broker)
      → P b
      → Leaves GoesOn (after_header fresh write current_time r a fd ref c fds b)
  unfolding after_header
  after_header_kept (header fh left) a fd ref c fds b h = receive_kept fh a fd fds b h
  after_header_kept (header_failed err left) a fd ref c fds b h =
      Leaves-bind P GoesOn _ _ (notify_will_kept ref c b h)
        (λ b' h'. Leaves-done GoesOn _ (h', refl))

  pub serve_socket_kept :
      (event : Event) (fd : ℕ) (fds : List ℕ) (b : Broker)
      → P b
      → Leaves GoesOn (serve_socket fresh write current_time event fd fds b)
  unfolding serve_socket
  serve_socket_kept quiet fd fds b h = with_client_lem GoesOn fd b _ λ ref c.
      Leaves-if GoesOn (is_timed_out current_time c) _ _
        (Leaves-bind P GoesOn _ _ (answer_kept fd _ timeout_notice b h) (λ b1 h1.
          Leaves-bind P GoesOn _ _ (notify_will_kept ref c b1 h1)
            (λ b2 h2. Leaves-done GoesOn _ (h2, refl))))
        (Leaves-done GoesOn _ (h, refl))
  serve_socket_kept closed fd fds b h = with_client_lem GoesOn fd b _ λ ref c.
      Leaves-bind P GoesOn _ _ (notify_will_kept ref c b h)
        (λ b' h'. Leaves-done GoesOn _ (h', refl))
  serve_socket_kept (ready a) fd fds b h = with_client_lem GoesOn fd b _ λ ref c.
      after_header_kept (read_fixed_header a.head) a fd ref (seen fresh write current_time c) fds _
        (k.changes _ b h)

  abbrev KeepsBroker : Round → Type 0
  KeepsBroker r = P r.broker

  serve_entry_kept :
      (entry : PollFd) (event : Event) (fds : List ℕ) (b : Broker)
      → P b
      → Leaves KeepsBroker (serve_entry fresh write current_time entry event fds b)
  unfolding serve_entry serve_control
  serve_entry_kept control quiet fds b h = Leaves-done KeepsBroker _ h
  serve_entry_kept control closed fds b h = Leaves-fault KeepsBroker
  serve_entry_kept control (ready a) fds b h = Leaves-done KeepsBroker _ h
  serve_entry_kept (socket fd) event fds b h = λ r e. (serve_socket_kept event fd fds b h r e).0

  pub serve_loop_kept :
      (n i : ℕ) (events : ℕ → Event) (entries : List PollFd) (fds : List ℕ) (b : Broker)
      → P b
      → Leaves KeepsBroker (serve_loop fresh write current_time n i events entries fds b)
  unfolding serve_loop
  serve_loop_kept zero i events entries fds b h = Leaves-done KeepsBroker _ h
  serve_loop_kept (suc n) i events [] fds b h = Leaves-fault KeepsBroker
  serve_loop_kept (suc n) i events (entry ∷ entries) fds b h =
      Leaves-bind KeepsBroker KeepsBroker _ _ (serve_entry_kept entry (events i) fds b h) (λ r hr.
        Leaves-if KeepsBroker r.reinit _ _ (Leaves-done KeepsBroker r hr)
          (serve_loop_kept n (suc i) events entries r.fd_to_delete r.broker hr))

  close_all_kept :
      (fds : List ℕ) (b : Broker)
      → ((fd : ℕ) (b : Broker) → P b → P (close_connection fd b))
      → P b
      → Leaves P (close_all fds b)
  unfolding close_all
  close_all_kept [] b closes h = Leaves-done P b h
  close_all_kept (fd ∷ fds) b closes h =
      with_client_lem P fd b _
        λ ref c. close_all_kept fds (close_connection fd b) closes (closes fd b h)

  abbrev KeepsServer : Server → Type 0
  KeepsServer s = P s.broker

  pub server_wait_kept :
      (poll : Poll) (s : Server)
      → ((fd : ℕ) (b : Broker) → P b → P (close_connection fd b))
      → P s.broker
      → Leaves KeepsServer (server_wait fresh write current_time poll s)
  unfolding server_wait server_round
  server_wait_kept poll s closes h =
      Leaves-bind KeepsBroker KeepsServer _ _
        (serve_loop_kept _ 0 poll.events s.vec_fds [] s.broker h)
        (λ r hr.
          Leaves-bind P KeepsServer _ _ (close_all_kept r.fd_to_delete r.broker closes hr)
            (λ b hb. Leaves-done KeepsServer _ hb))

module _ (fresh : ℕ → List ℕ) (a : Broker) where
  Reached-IsKept : IsKept fresh (λ b. Reached fresh a b)
  Reached-IsKept = record {
    handles = λ random_id fh buf fd b b' err h e.
        step a b b' h (Steps.handled random_id fh buf fd b b' err e);
    notifies = λ topic topic' b b' h e. step a b b' h (Steps.notified topic topic' b b' e);
    orders = λ fd packet b h. step a b (add_command fd packet b) h (Steps.ordered fd packet b);
    changes = λ objects b h. step a b (record b { objects = objects }) h (Steps.changed objects b);
  }

pub server_wait-Reached :
    (fresh : ℕ → List ℕ) (write : ℕ → ℕ → ℕ) (current_time : ℕ) (poll : Poll) (s s' : Server)
    → server_wait fresh write current_time poll s ≡ done s'
    → Reached fresh s.broker s'.broker
server_wait-Reached fresh write current_time poll s s' e =
    server_wait_kept fresh write current_time (λ b. Reached fresh s.broker b)
      (Reached-IsKept fresh s.broker) poll s
      (λ fd b h. step s.broker b (close_connection fd b) h (Steps.closed fd b)) (here s.broker) s' e
