-- ===== src/Sync/Receive.antt =====
-- `sync_recv`, which fetches a file (ADBTestCE/adb/file_sync_client.cpp). The sizes are of type `int`
-- there, and `readx` takes them as `size_t`.
use adbtest_ce.Prelude.{
  Bool, Bytes, List, Option, [], equal, false, if◌then◌else◌, length, ltb, none, some, suc, true,
  zero, ℕ, ◌++◌, ◌||◌, ◌∷◌,
}
use adbtest_ce.Io.{Arrival, Reading, read_all, read_blocked, read_refused, readx}
use adbtest_ce.Io.ReadLoop.{stream}
use adbtest_ce.Sync.{
  exceeds, id_data, id_done, id_fail, msg_id, msg_size, sync_data_max, to_int, to_size,
}

-- How it ends: 0 with the file's bytes; 0 with the text that is printed, the file being gone; -1; it
-- waits; or the buffer is left.
pub data Fetched : Type 0 where
  fetched : Bytes → List Arrival → Fetched
  remote_failure : Bytes → Fetched
  fetch_failed fetch_blocked overflow : Fetched

-- The local file: whether it can be made, and which of the next writes to it fail.
pub record LocalFile : Type 0 where
  pub creates : Bool
  pub full : List Bool

unfoldable pub remote_reason : Reading → Fetched
remote_reason (read_all x rest) = remote_failure x
remote_reason read_refused = fetch_failed
remote_reason read_blocked = fetch_blocked

-- The label `remote_error`.
unfoldable pub remote_error : Bytes → List Arrival → Fetched
unfolding remote_reason
remote_error m rest =
    if equal (msg_id m) id_fail
    then (let len = to_int (msg_size m) in
        let cut = if exceeds len 256 then 256 else to_size len in
        if ltb sync_data_max cut then overflow else remote_reason (readx rest cut))
    else remote_failure (msg_id m)

-- `writex(lfd, buffer, len)`, and the loop that goes on.
abbrev pub store_block :
    (List Arrival → List Bool → Bytes → Option Fetched)
    → List Bool
    → Bytes
    → Reading
    → Option Fetched
store_block go [] file (read_all x rest) = go rest [] (file ++ x)
store_block go (false ∷ full) file (read_all x rest) = go rest full (file ++ x)
store_block go (true ∷ full) file (read_all x rest) = some fetch_failed
store_block go full file read_refused = some fetch_failed
store_block go full file read_blocked = some fetch_blocked

-- The label `handle_data`.
abbrev pub handle_data :
    (List Arrival → List Bool → Bytes → Option Fetched)
    → List Bool
    → Bytes
    → Bytes
    → List Arrival
    → Option Fetched
handle_data go full file m rest =
    if equal (msg_id m) id_done
    then some (fetched file rest)
    else if equal (msg_id m) id_data
    then (let len = to_int (msg_size m) in
        if exceeds len sync_data_max
        then some fetch_failed
        else if ltb sync_data_max (to_size len)
        then some overflow
        else store_block go full file (readx rest (to_size len)))
    else some (remote_error m rest)

abbrev pub next_message :
    (List Arrival → List Bool → Bytes → Option Fetched)
    → List Bool
    → Bytes
    → Reading
    → Option Fetched
next_message go full file (read_all m rest) = handle_data go full file m rest
next_message go full file read_refused = some fetch_failed
next_message go full file read_blocked = some fetch_blocked

-- `for(;;)`, with fuel for its rounds.
unfoldable pub fetch_loop : ℕ → List Arrival → List Bool → Bytes → Option Fetched
fetch_loop zero evs full file = none
fetch_loop (suc fuel) evs full file = next_message (fetch_loop fuel) full file (readx evs 8)

-- The first message decides whether a file is made.
unfoldable pub first_message : LocalFile → ℕ → Reading → Option Fetched
first_message lf fuel (read_all m rest) =
    if equal (msg_id m) id_data || equal (msg_id m) id_done
    then if lf.creates then handle_data (fetch_loop fuel) lf.full [] m rest else some fetch_failed
    else some (remote_error m rest)
first_message lf fuel read_refused = some fetch_failed
first_message lf fuel read_blocked = some fetch_blocked

-- After the request has been written; each round takes eight bytes of the stream.
unfoldable pub sync_recv : LocalFile → List Arrival → Option Fetched
unfolding first_message
sync_recv lf evs = first_message lf (suc (length (stream evs))) (readx evs 8)
