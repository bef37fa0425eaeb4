-- ===== src/Sync/Send.antt =====
-- `sync_send`, which sends a file (ADBTestCE/adb/file_sync_client.cpp), where HAVE_SYMLINKS is not set.
use adbtest_ce.Prelude.{
  Bool, Bytes, List, Option, [], codes, equal, false, if◌then◌else◌, leb, length, ltb, none, some,
  true, ℕ, ◌%◌, ◌++◌, ◌+◌, ◌-◌, ◌/◌, ◌==◌, ◌^◌, ◌∷◌,
}
use adbtest_ce.Io.{
  Acceptance, Arrival, Outcome, Reading, read_all, read_blocked, read_refused, readx, write_blocked,
  write_refused, writex, written,
}
use adbtest_ce.Host.Network.{show_port}
use adbtest_ce.Sync.{
  exceeds, id_done, id_fail, id_okay, id_send, message, msg_id, msg_size, sync_data_max, to_int,
  to_size, verify_apk, write_data_buffer, write_data_file,
}

-- The file on this side: the bytes of a package, read whole for its test, or what the reads of a file
-- give.
pub data Source : Type 0 where
  apk_file : Bytes → Source
  plain_file : List Arrival → Source

-- How it ends: 0; -1 with the reason that is printed; -1; 1 for a package that fails its test; the wait for
-- the device; or the test reads outside the package, or the answer leaves its buffer.
pub data SendEnd : Type 0 where
  copied : SendEnd
  copy_refused : Bytes → SendEnd
  protocol_failure bad_package send_blocked package_overrun : SendEnd

pub record SendResult : Type 0 where
  pub end : SendEnd
  pub sent : Bytes

abbrev pub send_result : SendEnd → Bytes → SendResult
send_result end sent = record { end = end; sent = sent }

-- `S_ISREG(mode)`.
unfoldable pub is_regular : ℕ → Bool
is_regular mode = mode / 4096 % 16 == 8

-- `%d`: a mode of 32 bits is printed as an `int`.
unfoldable pub show_mode : ℕ → Bytes
show_mode mode = if leb (2 ^ 31) mode then b'-' ∷ show_port (2 ^ 32 - mode) else show_port mode

-- The name that goes with the request: the path and `,%d` of the mode.
unfoldable pub send_name : Bytes → ℕ → Bytes
send_name rpath mode = rpath ++ (b',' ∷ show_mode mode)

unfoldable pub status_reason : Reading → SendEnd
status_reason (read_all x rest) = copy_refused x
status_reason read_refused = protocol_failure
status_reason read_blocked = send_blocked

-- The length is an `int`: a negative one is not made smaller, and `readx` takes it without its sign.
unfoldable pub read_sync_status : Reading → SendEnd
unfolding status_reason
read_sync_status (read_all m rest) =
    if equal (msg_id m) id_okay
    then copied
    else if equal (msg_id m) id_fail
    then (let len = to_int (msg_size m) in
        let cut = if exceeds len 256 then 256 else to_size len in
        if ltb sync_data_max cut then package_overrun else status_reason (readx rest cut))
    else copy_refused (codes "unknown reason")
read_sync_status read_refused = protocol_failure
read_sync_status read_blocked = send_blocked

-- `if(writex(…)) goto fail`, before the rest of the function.
abbrev pub then_send : Bytes → Outcome → (Bytes → SendResult) → SendResult
then_send sent written next = next sent
then_send sent write_refused next = send_result protocol_failure sent
then_send sent write_blocked next = send_result send_blocked sent

-- DONE with the time, and the device's answer.
unfoldable pub send_done : ℕ → List Acceptance → List Arrival → Bytes → SendResult
unfolding read_sync_status
send_done mtime ws evs sent =
    let w = writex ws (message id_done mtime) in
    then_send (sent ++ w.sent) w.outcome (λ all. send_result (read_sync_status (readx evs 8)) all)

-- What the loops of the data give is not looked at.
unfoldable pub send_data : Source → ℕ → ℕ → List Acceptance → List Arrival → Bytes → SendResult
unfolding send_done
send_data (apk_file x) mode mtime ws evs sent =
    let d = write_data_buffer ws x in send_done mtime d.later evs (sent ++ d.sent)
send_data (plain_file fevs) mode mtime ws evs sent =
    if is_regular mode
    then (let d = write_data_file ws fevs in send_done mtime d.later evs (sent ++ d.sent))
    else send_result protocol_failure sent

-- The request, in three writes.
unfoldable pub send_request : Bytes → ℕ → Source → ℕ → List Acceptance → List Arrival → SendResult
unfolding send_data send_name
send_request rpath mode source mtime ws evs =
    let text : Bytes = b',' ∷ show_mode mode in
    let w₁ = writex ws (message id_send (length rpath + length text)) in
    then_send w₁.sent w₁.outcome λ s₁.
      let w₂ = writex w₁.later rpath in
      then_send (s₁ ++ w₂.sent) w₂.outcome λ s₂.
        let w₃ = writex w₂.later text in
        then_send (s₂ ++ w₃.sent) w₃.outcome λ s₃. send_data source mode mtime w₃.later evs s₃

abbrev pub tested : Source → Option Bool
tested (apk_file x) = verify_apk x
tested (plain_file fevs) = some true

-- `sync_send`.
unfoldable pub sync_send : Bytes → ℕ → Source → ℕ → List Acceptance → List Arrival → SendResult
unfolding send_request
sync_send rpath mode source mtime ws evs =
    if ltb 1024 (length rpath) then send_result protocol_failure [] else elim (tested source) [
      | none ↦ send_result package_overrun []
      | some false ↦ send_result bad_package []
      | some true ↦ send_request rpath mode source mtime ws evs
    ]
