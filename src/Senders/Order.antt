-- ===== src/Senders/Order.antt =====
-- The order in which commands reach a socket: with one thread, and with two as `Start`,
-- src/broker.cpp, makes them.
use mqtt_broker.Common.{
  ℕ, ◌<◌, ◌≡◌, refl, sym, ap, List, [], ◌∷◌, ◌++◌, append-nil, length, All, Option, none, some,
}
use mqtt_broker.Senders.{
  Command, Sending, Senders, add_command, take_command, start, sends, on_socket, adds, takes,
  writes, Reached, here, next, idle,
}

abbrev pub held : List (Option Sending) → List Sending
held [] = []
held (none ∷ threads) = held threads
held (some w ∷ threads) = w ∷ held threads

abbrev pub commands_of : List Sending → List Command
commands_of [] = []
commands_of (w ∷ ws) = w.command ∷ commands_of ws

-- The bytes that commands have sent, one after the other.
abbrev pub wire_of : List Sending → List (ℕ × ℕ)
wire_of [] = []
wire_of (w ∷ ws) = on_socket w.command.fd w.sent ++ wire_of ws

-- A command has sent a beginning of its packet.
abbrev pub Begins : Sending → Type 0
Begins w = w.sent ++ w.rest ≡ w.command.packet.bytes

-- The queue is first in, first out, and the wire has whole commands after one another.
pub record InOrder (s : Senders) : Type 0 where
  pub queued : s.added ≡ commands_of (s.executed ++ held s.threads) ++ s.commands
  pub written : s.wire ≡ wire_of (s.executed ++ held s.threads)
  pub begun : All Begins (s.executed ++ held s.threads)

on_socket-append :
    (fd : ℕ) (xs ys : List ℕ) → on_socket fd (xs ++ ys) ≡ on_socket fd xs ++ on_socket fd ys
unfolding on_socket
on_socket-append fd [] ys = refl
on_socket-append fd (x ∷ xs) ys = ap (λ t. (fd, x) ∷ t) (on_socket-append fd xs ys)

-- One thread, in a state given by its fields.
abbrev Alone : Senders → Type 0
Alone s = (t : Option Sending) × (s.threads ≡ t ∷ [])

module _ (p q : Command) where
  -- Both threads hold a command; and the second has sent all of its own, and the first too.
  abbrev both : List (Option Sending) → List (ℕ × ℕ) → Senders
  both threads wire = record {
    commands = [];
    threads = threads;
    wire = wire;
    added = p ∷ q ∷ [];
    executed = [];
  }

  abbrev sent_all : Command → Sending
  sent_all c = sends (start c) c.packet.bytes []

  abbrev both_added : List Command → List (Option Sending) → Senders
  both_added commands threads = record {
    commands = commands;
    threads = threads;
    wire = [];
    added = p ∷ q ∷ [];
    executed = [];
  }

  both_taken : Reached (idle (none ∷ none ∷ [])) (both (some (start p) ∷ some (start q) ∷ []) [])
  unfolding idle add_command take_command
  both_taken =
      next {t = both_added (q ∷ []) (some (start p) ∷ none ∷ [])}
        (next {t = both_added (p ∷ q ∷ []) (none ∷ none ∷ [])}
          {u = both_added (q ∷ []) (some (start p) ∷ none ∷ [])}
          (next {t = add_command p (idle (none ∷ none ∷ []))}
            (next {t = idle (none ∷ none ∷ [])} here (adds p refl)) (adds q refl))
          (takes [] (none ∷ []) p (both_added (q ∷ []) (none ∷ none ∷ [])) refl refl refl))
        (takes (some (start p) ∷ []) [] q (both_added [] (some (start p) ∷ none ∷ [])) refl refl
          refl)

  -- With two threads a command can overtake: of two commands for one socket that were added one after
  -- the other, the second can send all of its packet before the first sends any of its own.
  pub overtaken :
      p.fd ≡ q.fd
      → 0 < length p.packet.bytes
      → 0 < length q.packet.bytes
      → (s : Senders) × Reached (idle (none ∷ none ∷ [])) s
        × (s.added ≡ p ∷ q ∷ [])
        × (s.wire ≡ on_socket p.fd (q.packet.bytes ++ p.packet.bytes))
  unfolding start
  overtaken e hp hq = (
    both (some (sent_all p) ∷ some (sent_all q) ∷ [])
        (on_socket q.fd q.packet.bytes ++ on_socket p.fd p.packet.bytes),
    next {t = both (some (start p) ∷ some (sent_all q) ∷ []) (on_socket q.fd q.packet.bytes)}
        (next {t = both (some (start p) ∷ some (start q) ∷ []) []} both_taken (
          writes (some (start p) ∷ []) [] (start q) q.packet.bytes [] refl
            (sym (append-nil q.packet.bytes)) hq refl))
        (writes [] (some (sent_all q) ∷ []) (start p) p.packet.bytes [] refl
          (sym (append-nil p.packet.bytes)) hp refl),
    refl,
    rw (e) (sym (on_socket-append q.fd q.packet.bytes p.packet.bytes)),
  )
