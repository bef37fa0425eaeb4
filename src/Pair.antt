-- ===== src/Pair.antt =====
-- The emulated socket pairs of ADBTestCE/adb/sysdeps_win32.cpp: `BipBuffer`, a circular buffer of two
-- regions, with `bip_buffer_init`, `bip_buffer_close`, `bip_buffer_write` and `bip_buffer_read`. The
-- events that threads wait for are the flags `can_write` and `can_read`, and a call that would wait
-- gives `must_wait`.
pub mod Slice
pub mod Fifo
pub mod Steps
mod Examples
use adbtest_ce.Prelude.{
  Bool, Bytes, [], drop, false, if◌then◌else◌, length, ltb, suc, take, true, zero, ℕ, ◌&&◌, ◌++◌,
  ◌+◌, ◌-◌, ◌==◌, ◌∷◌,
}

abbrev pub bip_buffer_size : ℕ
bip_buffer_size = 4096

pub record BipBuffer : Type 0 where
  pub a_start : ℕ
  pub a_end : ℕ
  pub b_end : ℕ
  pub closed : Bool
  pub can_write : Bool
  pub can_read : Bool
  pub buff : ℕ → ℕ

-- `memcpy` into the array, and out of it.
unfoldable pub paste : (ℕ → ℕ) → ℕ → Bytes → ℕ → ℕ
paste buff at [] q = buff q
paste buff at (c ∷ x) q = let rest = paste buff (at + 1) x q in if q == at then c else rest

unfoldable pub slice : (ℕ → ℕ) → ℕ → ℕ → Bytes
slice buff at zero = []
slice buff at (suc n) = buff at ∷ slice buff (at + 1) n

-- `if (avail > len) avail = len`.
unfoldable pub at_most : ℕ → ℕ → ℕ
at_most avail len = if ltb len avail then len else avail

unfoldable pub bip_buffer_init : (ℕ → ℕ) → BipBuffer
bip_buffer_init buff = record {
  a_start = 0;
  a_end = 0;
  b_end = 0;
  closed = false;
  can_write = true;
  can_read = false;
  buff = buff;
}

unfoldable pub bip_buffer_close : BipBuffer → BipBuffer
bip_buffer_close bip = record bip { closed = true }

-- The label `Exit` of the writer, with the count.
abbrev pub exit_write : BipBuffer → ℕ → BipBuffer × ℕ
exit_write bip count = (record bip { can_read = true }, count)

-- The part of the writer that fills region B.
unfoldable pub write_b : BipBuffer → Bytes → ℕ → BipBuffer × ℕ
unfolding at_most
write_b bip src count =
    let n = at_most (bip.a_start - bip.b_end) (length src) in
    let b_end = bip.b_end + n in
    let buff = paste bip.buff bip.b_end (take n src) in
    let written = record bip { b_end = b_end; buff = buff } in
    exit_write (if b_end == bip.a_start then record written { can_write = false } else written)
      (count + n)

-- The writer under the lock, once it can write.
unfoldable pub write_locked : BipBuffer → Bytes → BipBuffer × ℕ
unfolding at_most write_b
write_locked bip src =
    let avail = bip_buffer_size - bip.a_end in
    let n = at_most avail (length src) in
    let a_end = bip.a_end + n in
    let appended = record bip { a_end = a_end; buff = paste bip.buff bip.a_end (take n src) } in
    if ltb 0 avail
    then if a_end == bip_buffer_size && bip.a_start == 0
      then exit_write (record appended { can_write = false }) n
      else if length src == n
      then exit_write appended n
      else write_b appended (drop n src) n
    else write_b bip src 0

-- The label `Exit` of the reader, with the bytes.
abbrev pub exit_read : BipBuffer → Bytes → BipBuffer × Bytes
exit_read bip dst = (record bip { can_write = true }, dst)

-- The part of the reader behind region A, which is empty: region B takes its place.
unfoldable pub read_b : BipBuffer → ℕ → Bytes → BipBuffer × Bytes
unfolding at_most
read_b bip len dst =
    let n = at_most bip.b_end len in
    let got = dst ++ slice bip.buff 0 n in
    let swapped = record bip { a_start = n; a_end = bip.b_end; b_end = 0 } in
    let emptied = record bip { a_start = 0; a_end = 0; b_end = 0; can_read = false } in
    if ltb 0 bip.b_end
    then if ltb n bip.b_end then exit_read swapped got else exit_read emptied got
    else exit_read emptied dst

-- The reader under the lock, once it can read.
unfoldable pub read_locked : BipBuffer → ℕ → BipBuffer × Bytes
unfolding at_most read_b
read_locked bip len =
    let n = at_most (bip.a_end - bip.a_start) len in
    let dst = slice bip.buff bip.a_start n in
    if ltb (bip.a_start + n) bip.a_end
    then exit_read (record bip { a_start = bip.a_start + n }) dst
    else read_b bip (len - n) dst

-- What a call gives: the count or the bytes with the buffer as it is then; -1 with EPIPE; or it waits.
pub data Transfer (A : Type 0) : Type 0 where
  moved : A → Transfer A
  broken_pipe must_wait : Transfer A

unfoldable pub bip_buffer_write : BipBuffer → Bytes → Transfer (BipBuffer × ℕ)
bip_buffer_write bip src =
    if length src == 0
    then moved (bip, 0)
    else if bip.can_write
    then moved (write_locked bip src)
    else if bip.closed
    then broken_pipe
    else must_wait

unfoldable pub bip_buffer_read : BipBuffer → ℕ → Transfer (BipBuffer × Bytes)
bip_buffer_read bip len =
    if len == 0
    then moved (bip, [])
    else if bip.can_read
    then moved (read_locked bip len)
    else if bip.closed
    then broken_pipe
    else must_wait
