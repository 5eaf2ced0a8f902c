-- ===== src/Examples/Threads.antt =====
-- The theorems on sockets, sender threads, the server and its errors at concrete inputs.
use mqtt_broker.Common.{
  ℕ, ◌+◌, ◌≤◌, ◌≡◌, refl, List, [], ◌∷◌, ◌++◌, Bool, ltb, ◌==◌, if◌then◌else◌, none, some, done,
  arith,
}
use mqtt_broker.Sockets.{Written, write_data, Answer, got, timed_out, read_data}
use mqtt_broker.Sockets.Write.{Sends, write_data-Sends}
use mqtt_broker.Sockets.Read.{at_once, Reads, read_data-Reads}
use mqtt_broker.Senders.{
  Command, Senders, add_command, take_command, start, on_socket, adds, takes, Reached, here, next,
  idle,
}
use mqtt_broker.Senders.Counts.{count, count_executed, count_held, Reached-Accounted}
use mqtt_broker.Senders.Order.{overtaken}

-- A system that takes two bytes at most.
abbrev pub two_bytes : ℕ → ℕ → ℕ
two_bytes i n = if ltb n 2 then n else 2

pub two_bytes_le : (i n : ℕ) → two_bytes i n ≤ n
two_bytes_le i n = ground arith

write_data-Sends_example :
    (w : Written) × (write_data two_bytes (1 ∷ 2 ∷ 3 ∷ []) 3 ≡ done w) × Sends (1 ∷ 2 ∷ 3 ∷ []) w
write_data-Sends_example = write_data-Sends two_bytes two_bytes_le (1 ∷ 2 ∷ 3 ∷ []) (omega arith)

-- Three of four bytes, and a pause.
abbrev answers : List Answer
answers = got (1 ∷ 2 ∷ []) ∷ got (3 ∷ []) ∷ timed_out ∷ got (4 ∷ []) ∷ []

read_data-Reads_example : Reads 4 (at_once answers) (read_data answers 4)
read_data-Reads_example = read_data-Reads answers 4 (omega arith)

abbrev ping_answer : Command
ping_answer = record { fd = 5; packet = record { bytes = 0xD0 ∷ 0 ∷ []; size = 2 } }

abbrev puback_answer : Command
puback_answer = record { fd = 5; packet = record { bytes = 0x40 ∷ 2 ∷ 0 ∷ 7 ∷ []; size = 4 } }

abbrev one_added : Senders
one_added = record {
  commands = ping_answer ∷ [];
  threads = none ∷ [];
  wire = [];
  added = ping_answer ∷ [];
  executed = [];
}

abbrev one_taken : Senders
one_taken = record {
  commands = [];
  threads = some (record { command = ping_answer; sent = []; rest = 0xD0 ∷ 0 ∷ [] }) ∷ [];
  wire = [];
  added = ping_answer ∷ [];
  executed = [];
}

one_command : Reached (idle (none ∷ [])) one_taken
unfolding idle add_command take_command start
one_command =
    next {t = one_added} (next {t = idle (none ∷ [])} here (adds ping_answer refl))
      (takes [] [] ping_answer (record one_added { commands = [] }) refl refl refl)

abbrev on_five : Command → Bool
on_five c = c.fd == 5

Reached-Accounted_example :
    count on_five one_taken.added
    ≡ count_executed on_five one_taken.executed
      + count_held on_five one_taken.threads
      + count on_five one_taken.commands
Reached-Accounted_example = Reached-Accounted on_five (none ∷ []) one_taken refl one_command

overtaken_example :
    (s : Senders) × Reached (idle (none ∷ none ∷ [])) s
    × (s.added ≡ ping_answer ∷ puback_answer ∷ [])
    × (s.wire ≡ on_socket 5 ((0x40 ∷ 2 ∷ 0 ∷ 7 ∷ []) ++ (0xD0 ∷ 0 ∷ [])))
overtaken_example = overtaken ping_answer puback_answer refl (omega arith) (omega arith)
