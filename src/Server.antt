-- ===== src/Server.antt =====
-- `Broker::ServerThread`, src/broker.cpp, and the loop of src/main.cpp. What `poll`, the reads, the
-- clock and `GenRandom` give is the argument of a round; the log lines are left out.
pub mod Crash
pub mod Overrun
pub mod Qos
pub mod Resends
pub mod Rounds
use mqtt_broker.Common.{
  ℕ, zero, suc, ◌+◌, ◌%◌, ◌^◌, List, [], ◌∷◌, ◌++◌, length, Bool, true, false, ltb, leb, ◌==◌,
  if◌then◌else◌, Option, none, some, Exec, done, fault, ◌>>=◌, map,
}
use mqtt_broker.VarInt.{MqttErr}
use mqtt_broker.FixedHeader.{
  FixedHeader, BrokerErr, HeaderRead, header, header_failed, read_fixed_header,
}
use mqtt_broker.FixedHeader.Types.{PackType}
use mqtt_broker.VariableHeader.{VariableHeader, disconnect}
use mqtt_broker.Topic.{MqttTopic}
use mqtt_broker.Client.{Client, is_will_flag}
use mqtt_broker.Broker.{
  Broker, MqttPacket, object, set_object, add_command, events_of, notify_clients,
}
use mqtt_broker.Broker.Tables.{add_client, close_connection}
use mqtt_broker.PacketHandlers.{ref_of, with_client, type_byte, answer}
use mqtt_broker.PacketHandlers.Dispatch.{handle_packet}
use mqtt_broker.Sockets.{Answer, read_data}
use mqtt_broker.ErrorHandlers.{handle_error}

-- `broker_states`
pub data BrokerState : Type 0 where
  init started wait_state : BrokerState

-- An entry of `vec_fds`: the control socket or that of a client.
pub data PollFd : Type 0 where
  control : PollFd
  socket : ℕ → PollFd

-- What a socket with `POLLIN` gives: the bytes that the reads of the header get, and what the rounds of
-- `ReadData` get; `random_id` is what `GenRandom` returns if it is called. On the control socket only
-- `is_add` counts: whether the command that was read is "ADD".
pub record Arrival : Type 0 where
  pub is_add : Bool
  pub head : List ℕ
  pub body : List Answer
  pub random_id : List ℕ

-- `revents`: nothing, something without `POLLIN`, or `POLLIN`.
pub data Event : Type 0 where
  quiet closed : Event
  ready : Arrival → Event

-- What `poll` answers: whether it succeeds, and the events by index.
pub record Poll : Type 0 where
  pub is_ok : Bool
  pub events : ℕ → Event

-- The broker, `fd_to_delete`, and whether the loop was left for "ADD".
pub record Round : Type 0 where
  pub broker : Broker
  pub fd_to_delete : List ℕ
  pub reinit : Bool

abbrev pub kept : Broker → List ℕ → Exec Round
kept b fds = done (record { broker = b; fd_to_delete = fds; reinit = false })

-- `fd_to_delete.push_back(fd)`
abbrev pub dropped : ℕ → List ℕ → Broker → Exec Round
dropped fd fds b = kept b (fds ++ (fd ∷ []))

-- The will of a client: `will_topic`, or the default-constructed topic.
unfoldable pub will_of : Client → MqttTopic
will_of c = elim c.will_topic [
  | none ↦ record { qos = 0; id = 0; name = []; value = none }
  | some topic ↦ topic
]

-- `DisconnectVH(keep_alive_timeout, MqttPropertyChain())`
unfoldable pub timeout_notice : VariableHeader
timeout_notice = disconnect (record { reason_code = 0x8D; p_chain = [] })

-- `current_time - pClient->GetPacketLastTime() >= uint32_t(pClient->GetAlive() + 5)`
unfoldable pub is_timed_out : ℕ → Client → Bool
is_timed_out current_time c = leb (c.time_last_packet + (c.alive + 5)) current_time

-- `vec_fds[i]` of the clients and of the control socket.
unfoldable pub poll_fds : List (ℕ × Option ℕ) → List PollFd
poll_fds [] = control ∷ []
poll_fds ((fd, ref) ∷ clients) = socket fd ∷ poll_fds clients

module _ (fresh : ℕ → List ℕ) (write : ℕ → ℕ → ℕ) (current_time : ℕ) where
  -- `if (pClient->isWillFlag()) broker.NotifyClients(pClient->will_topic);`, which changes the topic.
  unfoldable pub notify_will : ℕ → Client → Broker → Exec Broker
  notify_will ref c b =
      let notified = (do
        (topic, b') ← notify_clients fresh (will_of c) b
        elim (object b'.objects ref) [
          | none ↦ fault
          | some c' ↦ done (record b' {
            objects = set_object b'.objects ref (record c' { will_topic = some topic });
          })
        ]) in
      if is_will_flag c then notified else done b

  -- `if (handle_stat != mqtt_err::ok) { … }`; what `HandleError` writes changes nothing here.
  unfoldable pub after_packet : MqttErr → ℕ → List ℕ → Broker → Exec Round
  after_packet MqttErr.ok fd fds b = kept b fds
  after_packet err fd fds b = do sent ← handle_error fresh write err; dropped fd fds b

  -- The header has been read.
  unfoldable pub receive : FixedHeader → Arrival → ℕ → List ℕ → Broker → Exec Round
  receive fh a fd fds b =
      let r = read_data a.body fh.remaining_len in
      let handled = (do
        (err, b') ← handle_packet fresh a.random_id fh r.bytes fd b
        after_packet err fd fds b') in
      elim r.result [
        | none ↦ dropped fd fds b
        | some n ↦ if n == fh.remaining_len then handled else dropped fd fds b
      ]

  -- `else` of `if (ret == broker_err::ok)`
  unfoldable pub after_header : HeaderRead → Arrival → ℕ → ℕ → Client → List ℕ → Broker → Exec Round
  after_header (header fh left) a fd ref c fds b = receive fh a fd fds b
  after_header (header_failed err left) a fd ref c fds b = do
    b' ← notify_will ref c b
    dropped fd fds b'

  -- `SetPacketLastTime`
  abbrev pub seen : Client → Client
  seen c = record c { time_last_packet = current_time }

  unfoldable pub serve_socket : Event → ℕ → List ℕ → Broker → Exec Round
  serve_socket quiet fd fds b = with_client fd b λ ref c.
      let timed_out = (do
        b1 ← answer fresh fd (type_byte PackType.disconnect) timeout_notice b
        b2 ← notify_will ref c b1
        dropped fd fds b2) in
      if is_timed_out current_time c then timed_out else kept b fds
  serve_socket (ready a) fd fds b = with_client fd b λ ref c.
      after_header (read_fixed_header a.head) a fd ref (seen c) fds
        (record b { objects = set_object b.objects ref (seen c) })
  serve_socket closed fd fds b =
      with_client fd b λ ref c. do b' ← notify_will ref c b; dropped fd fds b'

  -- An event other than `POLLIN` on the control socket looks for a client of that number.
  unfoldable pub serve_control : Event → List ℕ → Broker → Exec Round
  serve_control quiet fds b = kept b fds
  serve_control (ready a) fds b =
      done (record { broker = b; fd_to_delete = fds; reinit = a.is_add })
  serve_control closed fds b = fault

  unfoldable pub serve_entry : PollFd → Event → List ℕ → Broker → Exec Round
  serve_entry control event fds b = serve_control event fds b
  serve_entry (socket fd) event fds b = serve_socket event fd fds b

  -- `for (unsigned int i = 0; i < client_num; i++)`, with the rounds that are left, and the entries of the
  -- vector from `i` on. An entry past the end of the vector is not there.
  unfoldable pub serve_loop : ℕ → ℕ → (ℕ → Event) → List PollFd → List ℕ → Broker → Exec Round
  serve_loop zero i events entries fds b = kept b fds
  serve_loop (suc n) i events [] fds b = fault
  serve_loop (suc n) i events (entry ∷ entries) fds b = do
    r ← serve_entry entry (events i) fds b
    let next = serve_loop n (suc i) events entries r.fd_to_delete r.broker
    if r.reinit then done r else next

-- `for(const auto &it : fd_to_delete)`: the log line asks the client for its identifier.
unfoldable pub close_all : List ℕ → Broker → Exec Broker
close_all [] b = done b
close_all (fd ∷ fds) b = with_client fd b λ ref c. close_all fds (close_connection fd b)

pub record Server : Type 0 where
  pub broker : Broker
  pub state : BrokerState
  pub vec_fds : List PollFd

abbrev pub is_empty {ℓ} : {A : Type ℓ} → List A → Bool
is_empty [] = true
is_empty (x ∷ xs) = false

-- The state `started`; with no client the thread executes a command and ends.
unfoldable pub server_started : Server → Server
server_started s =
    if is_empty s.broker.clients
    then record s { state = init; vec_fds = [] }
    else record s { state = wait_state; vec_fds = poll_fds s.broker.clients }

-- The state `wait_state` from the call of `poll` on, for `client_num` entries.
unfoldable pub server_round : (ℕ → List ℕ) → (ℕ → ℕ → ℕ) → ℕ → ℕ → Poll → Server → Exec Server
server_round fresh write current_time client_num poll s = do
  let polled = if poll.is_ok then s.state else started
  r ← serve_loop fresh write current_time client_num 0 poll.events s.vec_fds [] s.broker
  let reinited = if r.reinit then started else polled
  b ← close_all r.fd_to_delete r.broker
  let next = if is_empty r.fd_to_delete then reinited else started
  done (record s { broker = b; state = next })

-- `client_num` is `GetClientCount() + 1`.
unfoldable pub server_wait : (ℕ → List ℕ) → (ℕ → ℕ → ℕ) → ℕ → Poll → Server → Exec Server
server_wait fresh write current_time poll s =
    server_round fresh write current_time (length s.broker.clients + 1) poll s

-- A round of the loop of src/main.cpp with a connection that was accepted: `AddClient`, and `Start`
-- where the server is not running. The status tells whether the connection is kept.
unfoldable pub accept : ℕ → List ℕ → ℕ → Server → BrokerErr × Server
accept sock ip cur_time s =
    let (err, b) = add_client sock ip cur_time s.broker in
    (
      err,
      record s {
        broker = b;
        state = elim err [
          | BrokerErr.ok ↦ elim s.state [
            | init ↦ started
            | started ↦ started
            | wait_state ↦ wait_state
          ]
          | _ ↦ s.state
        ];
      },
    )
