-- ===== src/Sync.antt =====
-- The protocol by which files go to a device and come from it: the messages of
-- ADBTestCE/adb/file_sync_service.h and the client's side, ADBTestCE/adb/file_sync_client.cpp. A word
-- stands on the wire with its lowest byte first.
pub mod Service
pub mod Blocks
pub mod Push
pub mod Receive
pub mod Pull
pub mod PullWhole
mod Examples
mod EntriesExamples
pub mod Commands
pub mod Send
pub mod Delivered
pub mod Sent
pub mod Entries
pub mod EntriesWhole
pub mod Delivery
use adbtest_ce.Prelude.{
  Bool, Bytes, List, Option, [], codes, drop, false, if◌then◌else◌, le32, length, ltb, none, some,
  suc, take, true, zero, ℕ, ◌%◌, ◌*◌, ◌++◌, ◌+◌, ◌-◌, ◌^◌, ◌∷◌,
}
use adbtest_ce.Io.{Acceptance, Arrival, Outcome, eintr, got, read_failed, writex, written}
use adbtest_ce.Zip
use adbtest_ce.Zip.{init_zipfile, lookup_zipentry}

abbrev pub sync_data_max : ℕ
sync_data_max = 65536

abbrev pub id_stat : Bytes
id_stat = codes "STAT"

abbrev pub id_list : Bytes
id_list = codes "LIST"

abbrev pub id_send : Bytes
id_send = codes "SEND"

abbrev pub id_recv : Bytes
id_recv = codes "RECV"

abbrev pub id_done : Bytes
id_done = codes "DONE"

abbrev pub id_data : Bytes
id_data = codes "DATA"

abbrev pub id_okay : Bytes
id_okay = codes "OKAY"

abbrev pub id_fail : Bytes
id_fail = codes "FAIL"

abbrev pub id_quit : Bytes
id_quit = codes "QUIT"

-- A message of two words: `msg.req`, `msg.data` or `msg.status`.
abbrev pub message : Bytes → ℕ → Bytes
message id n = id ++ le32 n

-- The second word of a message.
unfoldable pub word_of : Bytes → ℕ
word_of (a ∷ b ∷ c ∷ d ∷ s) = a + b * 2 ^ 8 + c * 2 ^ 16 + d * 2 ^ 24
word_of _ = 0

unfoldable pub msg_id : Bytes → Bytes
msg_id m = take 4 m

unfoldable pub msg_size : Bytes → ℕ
unfolding word_of
msg_size m = word_of (drop 4 m)

-- What went out, whether all of it did, and the calls of `adb_write` still to come.
pub record Sending : Type 0 where
  pub sent : Bytes
  pub outcome : Outcome
  pub later : List Acceptance

abbrev pub count_of : Bytes → ℕ
count_of x = if ltb sync_data_max (length x) then sync_data_max else length x

-- `if(writex(…)) { err = -1; break; }`
abbrev pub then_chunks : Bytes → List Acceptance → Outcome → Sending → Sending
then_chunks sent later written s = record s { sent = sent ++ s.sent }
then_chunks sent later o s = record { sent = sent; outcome = o; later = later }

-- The loop of `write_data_buffer`: `fuel` is at least the number of bytes that are left.
unfoldable pub write_chunks : ℕ → List Acceptance → Bytes → Sending
write_chunks zero ws x = record { sent = []; outcome = written; later = ws }
write_chunks (suc fuel) ws [] = record { sent = []; outcome = written; later = ws }
write_chunks (suc fuel) ws (b ∷ x) =
    let count = count_of (b ∷ x) in
    let w = writex ws (message id_data count ++ take count (b ∷ x)) in
    let rest = write_chunks fuel w.later (drop count (b ∷ x)) in
    then_chunks w.sent w.later w.outcome rest

unfoldable pub write_data_buffer : List Acceptance → Bytes → Sending
unfolding write_chunks
write_data_buffer ws x = write_chunks (length x) ws x

-- The loop of `write_data_file`, over what `adb_read` of the local file gives; an arrival of more
-- bytes than are asked for is that of several calls. An error of the file ends the loop like its end.
unfoldable pub write_data_file : List Acceptance → List Arrival → Sending
write_data_file ws [] = record { sent = []; outcome = written; later = ws }
write_data_file ws (got [] ∷ evs) = record { sent = []; outcome = written; later = ws }
write_data_file ws (got (b ∷ x) ∷ evs) =
    let w = write_data_buffer ws (b ∷ x) in
    let rest = write_data_file w.later evs in then_chunks w.sent w.later w.outcome rest
write_data_file ws (read_failed eintr ∷ evs) = write_data_file ws evs
write_data_file ws (read_failed e ∷ evs) = record { sent = []; outcome = written; later = ws }

-- The test of a package before it is sent; `none` where it is read outside its bytes.
unfoldable pub verify_apk : Bytes → Option Bool
verify_apk x = elim (init_zipfile x) [
  | adbtest_ce.Zip.overrun ↦ none
  | adbtest_ce.Zip.refused ↦ some false
  | adbtest_ce.Zip.ok zip ↦ elim (lookup_zipentry zip (codes "AndroidManifest.xml")) [
    | adbtest_ce.Zip.overrun ↦ none
    | adbtest_ce.Zip.refused ↦ some false
    | adbtest_ce.Zip.ok none ↦ some false
    | adbtest_ce.Zip.ok (some e) ↦ some true
  ]
]

-- `int len = n`: a value, or the amount that it lies below zero.
pub data Int32 : Type 0 where
  plus minus : ℕ → Int32

abbrev pub to_int : ℕ → Int32
to_int n = if ltb (n % 2 ^ 32) (2 ^ 31) then plus (n % 2 ^ 32) else minus (2 ^ 32 - n % 2 ^ 32)

-- `len > k`, for a `k` that is not negative.
abbrev pub exceeds : Int32 → ℕ → Bool
exceeds (plus n) k = ltb k n
exceeds (minus n) k = false

-- `(size_t) len`.
abbrev pub to_size : Int32 → ℕ
to_size (plus n) = n
to_size (minus n) = 2 ^ 32 - n
