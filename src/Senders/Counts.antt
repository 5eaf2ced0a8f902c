-- ===== src/Senders/Counts.antt =====
-- No command is lost and none is executed twice, whatever threads there are.
use mqtt_broker.Common.{
  ℕ, ◌+◌, ◌≡◌, refl, ap, List, [], ◌∷◌, ◌++◌, Bool, if◌then◌else◌, Option, none, some, arith,
}
use mqtt_broker.Senders.{
  Command, Sending, Senders, add_command, take_command, start, sends, Step, adds, takes, writes,
  ends, Reached, here, next, idle,
}

take_of :
    (s : Senders) (commands : List Command) (c : Command) (s' : Senders)
    → s.commands ≡ commands
    → take_command s ≡ some (c, s')
    → (rest : List Command) × (s.commands ≡ c ∷ rest) × (s' ≡ record s { commands = rest })
unfolding take_command
take_of s [] c s' e k = absurd (let h = rw (take_command, e) at k in cc)
take_of s (d ∷ rest) c s' e k = let h = rw (take_command, e) at k in (rest, cc, cc)

-- A thread takes the front of the queue.
pub take_command_lem :
    (s : Senders) (c : Command) (s' : Senders)
    → take_command s ≡ some (c, s')
    → (rest : List Command) × (s.commands ≡ c ∷ rest) × (s' ≡ record s { commands = rest })
take_command_lem s c s' k = take_of s s.commands c s' refl k

-- How many commands have a property.
module _ (p : Command → Bool) where
  abbrev pub one : Command → ℕ
  one c = if p c then 1 else 0

  abbrev pub count : List Command → ℕ
  count [] = 0
  count (c ∷ commands) = one c + count commands

  abbrev pub count_executed : List Sending → ℕ
  count_executed [] = 0
  count_executed (w ∷ executed) = one w.command + count_executed executed

  abbrev pub count_held : List (Option Sending) → ℕ
  count_held [] = 0
  count_held (none ∷ threads) = count_held threads
  count_held (some w ∷ threads) = one w.command + count_held threads

  count-append : (xs ys : List Command) → count (xs ++ ys) ≡ count xs + count ys
  count-append [] ys = omega arith
  count-append (x ∷ xs) ys = omega (arith, count-append xs ys)

  count_executed-append :
      (xs ys : List Sending) → count_executed (xs ++ ys) ≡ count_executed xs + count_executed ys
  count_executed-append [] ys = omega arith
  count_executed-append (x ∷ xs) ys = omega (arith, count_executed-append xs ys)

  count_held-append :
      (xs ys : List (Option Sending)) → count_held (xs ++ ys) ≡ count_held xs + count_held ys
  count_held-append [] ys = omega arith
  count_held-append (none ∷ xs) ys = count_held-append xs ys
  count_held-append (some x ∷ xs) ys = omega (arith, count_held-append xs ys)

  abbrev pub Accounted : Senders → Type 0
  Accounted s = count s.added ≡ count_executed s.executed + count_held s.threads + count s.commands

  Step-Accounted : (s u : Senders) → Step s u → Accounted s → Accounted u
  unfolding add_command take_command start sends
  Step-Accounted s u (adds c e) h =
      rw e (omega (arith, count-append s.added (c ∷ []), count-append s.commands (c ∷ [])))
  Step-Accounted s u (takes before after c s' t k e) h =
      let (rest, q, e') = take_command_lem s c s' k in
      rw (e, e')
        (omega (
          arith,
          ap count q,
          ap count_held t,
          count_held-append before (none ∷ after),
          count_held-append before (some (start c) ∷ after),
        ))
  Step-Accounted s u (writes before after w ys zs t r l e) h = rw e (
      omega (
        arith,
        ap count_held t,
        count_held-append before (some w ∷ after),
        count_held-append before (some (sends w ys zs) ∷ after),
      ))
  Step-Accounted s u (ends before after w t e) h = rw e (
      omega (
        arith,
        ap count_held t,
        count_held-append before (some w ∷ after),
        count_held-append before (none ∷ after),
        count_executed-append s.executed (w ∷ []),
      ))

  -- For any property of commands: as many commands with it have been added as are executed, are being
  -- executed and are waiting. So no command is lost, and none is executed twice.
  pub Reached-Accounted :
      (threads : List (Option Sending)) (s : Senders)
      → count_held threads ≡ 0
      → Reached (idle threads) s
      → count s.added ≡ count_executed s.executed + count_held s.threads + count s.commands
  unfolding idle
  Reached-Accounted threads s z here = omega (arith, z)
  Reached-Accounted threads s z (next {t = t} r st) =
      Step-Accounted t s st (Reached-Accounted threads t z r)
