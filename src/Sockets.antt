-- ===== src/Sockets.antt =====
-- `WriteData` and `ReadData`, src/functions.cpp. What `write`, `select` and `read` return is given from
-- outside, call by call.
pub mod Write
pub mod Read
use mqtt_broker.Common.{
  ℕ, zero, suc, ◌+◌, ◌-◌, ◌%◌, ◌^◌, List, [], ◌∷◌, ◌++◌, length, drop, ltb, leb, ◌==◌,
  if◌then◌else◌, Option, none, some, Exec, done, out_of_fuel, ◌>>=◌,
}
use mqtt_broker.Common.Bytes.{read_bytes}

-- The result, where `none` is -1, and the bytes that the other side gets.
pub record Written : Type 0 where
  pub result : Option ℕ
  pub sent : List ℕ

-- `write i n` is what the call number `i`, with `n` bytes, returns: how many it took, or 0 for a
-- result that is not positive.
module _ (write : ℕ → ℕ → ℕ) where
  -- `while (sent_bytes < size) { … }`, on fuel.
  unfoldable pub write_loop : ℕ → ℕ → List ℕ → ℕ → ℕ → List ℕ → Exec Written
  write_loop zero i buf size sent_bytes sent = out_of_fuel
  write_loop (suc fuel) i buf size sent_bytes sent =
      let res = write i (size - sent_bytes) in
      let next = (do
        taken ← read_bytes res (drop sent_bytes buf)
        write_loop fuel (suc i) buf size ((sent_bytes + res) % 2 ^ 32) (sent ++ taken)) in
      if ltb sent_bytes size
      then (if res == 0 then done (record { result = none; sent = sent }) else next)
      else done (record { result = some sent_bytes; sent = sent })

  -- Each round but the last sends a byte.
  unfoldable pub write_data : List ℕ → ℕ → Exec Written
  write_data buf size = write_loop (suc size) 0 buf size 0 []

-- One round of `select` and `read`: `select` fails, `select` finds nothing until the timeout, `read`
-- returns no bytes, or some.
pub data Answer : Type 0 where
  select_failed timed_out read_failed : Answer
  got : List ℕ → Answer

pub record ReadIn : Type 0 where
  pub result : Option ℕ
  pub bytes : List ℕ

-- `for (co = 0; ;) { … }`. Where the answers end, nothing arrives any more.
unfoldable pub read_loop : List Answer → ℕ → ℕ → List ℕ → ReadIn
read_loop [] size co buf = record { result = some co; bytes = buf }
read_loop (select_failed ∷ answers) size co buf = record { result = none; bytes = buf }
read_loop (timed_out ∷ answers) size co buf = record { result = some co; bytes = buf }
read_loop (read_failed ∷ answers) size co buf = record { result = some co; bytes = buf }
read_loop (got chunk ∷ answers) size co buf =
    if leb size (co + length chunk)
    then record { result = some (co + length chunk); bytes = buf ++ chunk }
    else read_loop answers size (co + length chunk) (buf ++ chunk)

-- `ReadData` on a file descriptor and a buffer that are there.
unfoldable pub read_data : List Answer → ℕ → ReadIn
read_data answers size =
    if size == 0 then record { result = some 0; bytes = [] } else read_loop answers size 0 []
