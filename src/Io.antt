-- ===== src/Io.antt =====
-- The loops of ADBTestCE/adb/transport.cpp around `adb_read` and `adb_write`: `readx`, `writex`,
-- `read_packet`, `write_packet`, `transport_read_action` and `transport_write_action`.
-- A descriptor is the list of what its next calls give; a call that finds the list empty blocks.
-- A call takes at most the bytes that it is asked for, and the rest waits for the next one.
pub mod ReadLoop
pub mod WriteLoop
mod Examples
use adbtest_ce.Prelude.{
  Bytes, List, [], drop, if◌then◌else◌, leb, length, suc, take, zero, ℕ, ◌++◌, ◌+◌, ◌-◌, ◌∷◌,
}

pub data Errno : Type 0 where
  eintr eagain other_errno : Errno

-- What `adb_read` gives: bytes (none at the end of the stream), or -1 with an `errno`.
pub data Arrival : Type 0 where
  got : Bytes → Arrival
  read_failed : Errno → Arrival

pub data Reading : Type 0 where
  read_all : Bytes → List Arrival → Reading
  read_refused read_blocked : Reading

pub prepend : Bytes → Reading → Reading
prepend bs (read_all x rest) = read_all (bs ++ x) rest
prepend bs read_refused = read_refused
prepend bs read_blocked = read_blocked

-- `while (len > 0) { r = adb_read(fd, p, len); … }`
unfoldable pub read_loop : List Arrival → ℕ → Reading
unfolding prepend
read_loop evs zero = read_all [] evs
read_loop [] (suc len) = read_blocked
read_loop (read_failed eintr ∷ evs) (suc len) = read_loop evs (suc len)
read_loop (read_failed e ∷ evs) (suc len) = read_refused
read_loop (got [] ∷ evs) (suc len) = read_refused
read_loop (got (b ∷ bs) ∷ evs) (suc len) =
    let rest = read_loop evs (len - length bs) in
    if leb (length bs) len
    then prepend (b ∷ bs) rest
    else read_all (take (suc len) (b ∷ bs)) (got (drop (suc len) (b ∷ bs)) ∷ evs)

unfoldable pub readx : List Arrival → ℕ → Reading
readx evs len = read_loop evs len

-- A pointer has four bytes on the target.
abbrev pub pointer_size : ℕ
pointer_size = 4

-- The two halves of the process pass the address of a packet.
unfoldable pub read_packet : List Arrival → Reading
read_packet evs = read_loop evs pointer_size

-- A `tmsg` is a pointer and an `int`.
unfoldable pub transport_read_action : List Arrival → Reading
transport_read_action evs = read_loop evs (pointer_size + 4)

-- What `adb_write` gives: how many bytes it would take (0 for a closed peer), or -1.
pub data Acceptance : Type 0 where
  wrote : ℕ → Acceptance
  write_failed : Errno → Acceptance

pub data Outcome : Type 0 where
  written write_refused write_blocked : Outcome

-- The bytes that went out, those that did not, how the loop ended, and the calls still to come.
pub record Writing : Type 0 where
  pub sent : Bytes
  pub unsent : Bytes
  pub outcome : Outcome
  pub later : List Acceptance

abbrev pub stopped : Bytes → Outcome → List Acceptance → Writing
stopped x o ws = record { sent = []; unsent = x; outcome = o; later = ws }

-- `while (len > 0) { r = adb_write(fd, p, len); … }`
unfoldable pub write_loop : List Acceptance → Bytes → Writing
write_loop ws [] = stopped [] written ws
write_loop [] (b ∷ x) = stopped (b ∷ x) write_blocked []
write_loop (write_failed eintr ∷ ws) (b ∷ x) = write_loop ws (b ∷ x)
write_loop (write_failed e ∷ ws) (b ∷ x) = stopped (b ∷ x) write_refused ws
write_loop (wrote zero ∷ ws) (b ∷ x) = stopped (b ∷ x) write_refused ws
write_loop (wrote (suc r) ∷ ws) (b ∷ x) =
    let rest = write_loop ws (drop r x) in record rest { sent = b ∷ (take r x ++ rest.sent) }

unfoldable pub writex : List Acceptance → Bytes → Writing
writex ws x = write_loop ws x

unfoldable pub write_packet : List Acceptance → Bytes → Writing
write_packet ws address = write_loop ws (take pointer_size address)

unfoldable pub transport_write_action : List Acceptance → Bytes → Writing
transport_write_action ws tmsg = write_loop ws (take (pointer_size + 4) tmsg)

-- `if (writex(fd, x) || writex(fd, y)) …`: the second write follows a first that ended well.
unfoldable pub then_write : Outcome → Writing → Bytes → Writing
then_write written w y = let v = writex w.later y in record v { sent = w.sent ++ v.sent }
then_write _ w y = record w { unsent = w.unsent ++ y }

unfoldable pub write_both : List Acceptance → Bytes → Bytes → Writing
unfolding then_write
write_both ws x y = let w = writex ws x in then_write w.outcome w y
