-- ===== src/Server/Resends.antt =====
-- `QoSThread`, src/broker.cpp, beside the server and the loop of src/main.cpp.
use mqtt_broker.Common.{
  ℕ, ◌≡◌, refl, sym, ap, ◌∙◌, List, [], ◌∷◌, inl, inr, Bool-cases, done, Leaves, Leaves-done,
  Leaves-then, Leaves-if,
}
use mathlib.Core.Path.{subst}
use mqtt_broker.Broker.{Broker, events_of}
use mqtt_broker.Broker.Tables.{add_client}
use mqtt_broker.Broker.Postponed.{NoEvents, events_of-none}
use mqtt_broker.PacketHandlers.Steps.{Reached-NoEvents, add_client_events}
use mqtt_broker.Server.{
  Server, started, wait_state, Poll, server_started, server_wait, accept, is_empty,
}
use mqtt_broker.Server.Qos.{collect_ids, resend, resend_loop, qos_round}
use mqtt_broker.Server.Rounds.{server_wait-Reached}

-- One step of the server thread, of the main thread or of `QoSThread`.
pub data ServerStep (fresh : ℕ → List ℕ) (write : ℕ → ℕ → ℕ) (s s' : Server) : Type 0 where
  starts : s.state ≡ started → s' ≡ server_started s → ServerStep fresh write s s'
  waits :
      (current_time : ℕ) (poll : Poll)
      → s.state ≡ wait_state
      → server_wait fresh write current_time poll s ≡ done s'
      → ServerStep fresh write s s'
  accepts :
      (sock cur_time : ℕ) (ip : List ℕ)
      → s' ≡ (accept sock ip cur_time s).1
      → ServerStep fresh write s s'
  resends :
      (b : Broker)
      → qos_round s.broker ≡ done b
      → s' ≡ record s { broker = b }
      → ServerStep fresh write s s'

pub data Runs (fresh : ℕ → List ℕ) (write : ℕ → ℕ → ℕ) (s : Server) : Server → Type 0 where
  here : Runs fresh write s s
  next : {t u : Server} → Runs fresh write s t → ServerStep fresh write t u → Runs fresh write s u

resend_none :
    (fd : ℕ) (client_id : List ℕ) (b : Broker)
    → NoEvents b.postponed_events
    → resend fd (events_of client_id b.postponed_events) b ≡ b
unfolding resend
resend_none fd client_id b h = elim (events_of-none client_id b.postponed_events h) [
  | inl e ↦ rw e refl
  | inr e ↦ rw e refl
]

resend_loop-quiet :
    (ids : List (ℕ × List ℕ)) (b : Broker) → NoEvents b.postponed_events → resend_loop ids b ≡ b
unfolding resend_loop
resend_loop-quiet [] b h = refl
resend_loop-quiet ((fd, client_id) ∷ ids) b h =
    ap (resend_loop ids) (resend_none fd client_id b h) ∙ resend_loop-quiet ids b h

qos_round-quiet : (b : Broker) → NoEvents b.postponed_events → Leaves (λ b'. b' ≡ b) (qos_round b)
unfolding qos_round
qos_round-quiet b h =
    Leaves-if (λ b'. b' ≡ b) (is_empty b.postponed_events) _ _ (Leaves-done (λ b'. b' ≡ b) b refl)
      (Leaves-then (λ b'. b' ≡ b) (collect_ids b.objects b.clients []) _
        (λ ids. Leaves-done (λ b'. b' ≡ b) (resend_loop ids b) (resend_loop-quiet ids b h)))

server_started-broker : (s : Server) → (server_started s).broker ≡ s.broker
unfolding server_started
server_started-broker s = elim (Bool-cases (is_empty s.broker.clients)) [
  | inl t ↦ rw t refl
  | inr f ↦ rw f refl
]

accept-broker :
    (sock cur_time : ℕ) (ip : List ℕ) (s : Server)
    → (accept sock ip cur_time s).1.broker ≡ (add_client sock ip cur_time s.broker).1
unfolding accept
accept-broker sock cur_time ip s = refl

module _ (fresh : ℕ → List ℕ) (write : ℕ → ℕ → ℕ) where
  ServerStep-NoEvents :
      (s s' : Server)
      → ServerStep fresh write s s'
      → NoEvents s.broker.postponed_events
      → NoEvents s'.broker.postponed_events
  ServerStep-NoEvents s s' (starts at e) h =
      subst (λ (x : Broker). NoEvents x.postponed_events)
        (sym (ap (λ (t : Server). t.broker) e ∙ server_started-broker s)) h
  ServerStep-NoEvents s s' (waits current_time poll at e) h =
      Reached-NoEvents fresh s.broker s'.broker h
        (server_wait-Reached fresh write current_time poll s s' e)
  ServerStep-NoEvents s s' (accepts sock cur_time ip e) h =
      subst (λ (x : Broker). NoEvents x.postponed_events)
        (sym (ap (λ (t : Server). t.broker) e ∙ accept-broker sock cur_time ip s))
        (subst NoEvents (sym (add_client_events sock cur_time ip s.broker)) h)
  ServerStep-NoEvents s s' (resends b q e) h =
      subst (λ (x : Broker). NoEvents x.postponed_events)
        (sym (ap (λ (t : Server). t.broker) e ∙ qos_round-quiet s.broker h b q)) h

  Runs-NoEvents :
      (s s' : Server)
      → Runs fresh write s s'
      → NoEvents s.broker.postponed_events
      → NoEvents s'.broker.postponed_events
  Runs-NoEvents s s' here h = h
  Runs-NoEvents s s' (next {t = t} r st) h = ServerStep-NoEvents t s' st (Runs-NoEvents s t r h)

  -- However long the program has run from a state without postponed events, as at its start: a pass of
  -- `QoSThread` that returns has sent nothing and changed nothing.
  pub Runs-qos_round :
      (s s' : Server) (b : Broker)
      → NoEvents s.broker.postponed_events
      → Runs fresh write s s'
      → qos_round s'.broker ≡ done b
      → b ≡ s'.broker
  Runs-qos_round s s' b h r q = qos_round-quiet s'.broker (Runs-NoEvents s s' r h) b q
