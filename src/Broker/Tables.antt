-- ===== src/Broker/Tables.antt =====
-- The tables of clients of src/broker.cpp. `current_clients`, which is counted and never read, is
-- left out.
use mqtt_broker.Common.{
  ℕ, List, [], ◌∷◌, ◌++◌, length, Bool, true, false, ◌==◌, if◌then◌else◌, text_eq, Option, none,
  some, Exec, done, fault, ◌>>=◌,
}
use mqtt_broker.FixedHeader.{BrokerErr}
use mqtt_broker.Client.{Client, new_client}
use mqtt_broker.Broker.{Broker, object}

unfoldable pub erase_fd {ℓ} : {A : Type ℓ} → ℕ → List (ℕ × A) → List (ℕ × A)
erase_fd fd [] = []
erase_fd fd ((f, a) ∷ entries) =
    if f == fd then erase_fd fd entries else (f, a) ∷ erase_fd fd entries

unfoldable pub has_fd {ℓ} : {A : Type ℓ} → ℕ → List (ℕ × A) → Bool
has_fd fd [] = false
has_fd fd ((f, a) ∷ entries) = if f == fd then true else has_fd fd entries

-- `AddClient`: a new object, and `insert`, which keeps an entry that is there.
unfoldable pub add_client : ℕ → List ℕ → ℕ → Broker → BrokerErr × Broker
add_client sock ip cur_time b = if has_fd sock b.clients then (BrokerErr.add_error, b) else (
  BrokerErr.ok,
  record b {
    objects = b.objects ++ (new_client ip cur_time ∷ []);
    clients = (sock, some (length b.objects)) ∷ b.clients;
  },
)

-- `DelClient` and `DelSubscribedClient`
unfoldable pub del_client : ℕ → Broker → Broker
del_client sock b = record b {
  clients = erase_fd sock b.clients;
  subscribed_clients = erase_fd sock b.subscribed_clients;
}

-- `CloseConnection`, after `close(fd)`.
unfoldable pub close_connection : ℕ → Broker → Broker
close_connection fd b = del_client fd b

-- `GetClientFd`, where `none` is -1: it asks each client for its identifier, and a null pointer is
-- dereferenced.
unfoldable pub client_fd_loop : List ℕ → List Client → List (ℕ × Option ℕ) → Exec (Option ℕ)
client_fd_loop client_id objects [] = done none
client_fd_loop client_id objects ((fd, none) ∷ clients) = fault
client_fd_loop client_id objects ((fd, some ref) ∷ clients) =
    let next = client_fd_loop client_id objects clients in
    elim (object objects ref) [
      | none ↦ fault
      | some c ↦ if text_eq c.client_id client_id then done (some fd) else next
    ]

unfoldable pub get_client_fd : List ℕ → Broker → Exec (Option ℕ)
get_client_fd client_id b = client_fd_loop client_id b.objects b.clients

-- `CheckClientID`
unfoldable pub check_client_id : List ℕ → Broker → Exec Bool
check_client_id client_id b = do
  found ← get_client_fd client_id b
  done (elim found [ none ↦ false | some fd ↦ true ])
