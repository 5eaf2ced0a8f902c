-- ===== src/Senders.antt =====
-- The queue of commands and the threads that empty it: classes `Commands` and `FdWriteCommand`,
-- src/command.cpp, `SenderThread`, src/broker.cpp, and the loop of `WriteData`, src/functions.cpp. The
-- steps of the threads interleave; one holds the mutex of the queue for a whole step.
pub mod Counts
pub mod Order
use mqtt_broker.Common.{ℕ, ◌<◌, ◌≡◌, List, [], ◌∷◌, ◌++◌, length, map, Option, none, some}
use mqtt_broker.Packet.{Packet}

-- `FdWriteCommand`
pub record Command : Type 0 where
  pub fd : ℕ
  pub packet : Packet

-- A command in `WriteData`: what has been sent, and what is left.
pub record Sending : Type 0 where
  pub command : Command
  pub sent : List ℕ
  pub rest : List ℕ

-- A thread is in `WriteData`, or about to take a command. `wire` has the bytes that `write` took, each
-- with its socket. `added` and `executed` record all calls of `AddCommand` and all commands that
-- were executed, with the bytes that each sent.
pub record Senders : Type 0 where
  pub commands : List Command
  pub threads : List (Option Sending)
  pub wire : List (ℕ × ℕ)
  pub added : List Command
  pub executed : List Sending

-- `Commands::AddCommand`
unfoldable pub add_command : Command → Senders → Senders
add_command c s = record s { commands = s.commands ++ (c ∷ []); added = s.added ++ (c ∷ []) }

-- `Commands::Execute` to `p->Execute()`: the thread waits where the queue is empty, and else takes
-- the front.
unfoldable pub take_command : Senders → Option (Command × Senders)
take_command s = elim s.commands [
  | [] ↦ none
  | c ∷ commands ↦ some (c, record s { commands = commands })
]

unfoldable pub start : Command → Sending
start c = record { command = c; sent = []; rest = c.packet.bytes }

unfoldable pub on_socket : ℕ → List ℕ → List (ℕ × ℕ)
on_socket fd bytes = map (λ byte. (fd, byte)) bytes

-- A round of `WriteData` in which `write` took `ys` and left `zs`.
unfoldable pub sends : Sending → List ℕ → List ℕ → Sending
sends w ys zs = record w { sent = w.sent ++ ys; rest = zs }

-- One step of one of the threads, or of the thread that adds commands. A `Sending` ends where all is
-- sent, or where `write` fails.
pub data Step (s u : Senders) : Type 0 where
  adds : (c : Command) → u ≡ add_command c s → Step s u
  takes :
      (before after : List (Option Sending)) (c : Command) (s' : Senders)
      → s.threads ≡ before ++ none ∷ after
      → take_command s ≡ some (c, s')
      → u ≡ record s' { threads = before ++ some (start c) ∷ after }
      → Step s u
  writes :
      (before after : List (Option Sending)) (w : Sending) (ys zs : List ℕ)
      → s.threads ≡ before ++ some w ∷ after
      → w.rest ≡ ys ++ zs
      → 0 < length ys
      → u ≡ record s {
        threads = before ++ some (sends w ys zs) ∷ after;
        wire = s.wire ++ on_socket w.command.fd ys;
      }
      → Step s u
  ends :
      (before after : List (Option Sending)) (w : Sending)
      → s.threads ≡ before ++ some w ∷ after
      → u ≡ record s { threads = before ++ none ∷ after; executed = s.executed ++ (w ∷ []) }
      → Step s u

pub data Reached (s : Senders) : Senders → Type 0 where
  here : Reached s s
  next : {t u : Senders} → Reached s t → Step t u → Reached s u

-- At the start of `n` threads.
unfoldable pub idle : List (Option Sending) → Senders
idle threads = record { commands = []; threads = threads; wire = []; added = []; executed = [] }
