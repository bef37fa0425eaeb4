-- ===== src/Sync/Entries.antt =====
-- The client's questions about files: `sync_ls`, `sync_readtime`, `sync_start_readtime`,
-- `sync_finish_readtime` and `sync_readmode` (ADBTestCE/adb/file_sync_client.cpp).
use adbtest_ce.Prelude.{
  Bytes, List, Option, [], codes, drop, equal, if◌then◌else◌, length, ltb, none, some, suc, take,
  zero, ℕ, ◌*◌, ◌∷◌,
}
use adbtest_ce.Io.{
  Acceptance, Arrival, Outcome, Reading, read_all, read_blocked, read_refused, readx, write_blocked,
  write_both, write_refused, written,
}
use adbtest_ce.Io.ReadLoop.{stream}
use adbtest_ce.Sockets.Requests.{c_string}
use adbtest_ce.Sync.{exceeds, id_done, id_list, id_stat, message, to_int, to_size, word_of}
use adbtest_ce.Sync.Commands.{FileStat}

-- A word of a message: of `msg.stat` or `msg.dent`.
abbrev pub word_at : ℕ → Bytes → ℕ
word_at i m = word_of (drop (4 * i) m)

abbrev pub stat_of : Bytes → FileStat
stat_of m = record { mode = word_at 1 m; size = word_at 2 m; time = word_at 3 m }

-- One call of `func`.
pub record Dent : Type 0 where
  pub stat : FileStat
  pub name : Bytes

-- How `sync_ls` ends: 0; -1; the wait for the device; or a negative length, for which the read leaves
-- the buffer.
pub data LsEnd : Type 0 where
  ls_done ls_failed ls_blocked ls_overrun : LsEnd

pub record LsResult : Type 0 where
  pub end : LsEnd
  pub calls : List Dent
  pub rest : List Arrival

abbrev pub ls_ends : LsEnd → List Arrival → Option LsResult
ls_ends end rest = some (record { end = end; calls = []; rest = rest })

-- `func` is called before the rest of the loop.
abbrev pub calls_func : Dent → Option LsResult → Option LsResult
calls_func d none = none
calls_func d (some r) = some (record r { calls = d ∷ r.calls })

abbrev pub ls_name : (List Arrival → Option LsResult) → FileStat → Reading → Option LsResult
ls_name go st (read_all x rest) = calls_func (record { stat = st; name = c_string x }) (go rest)
ls_name go st read_refused = ls_ends ls_failed []
ls_name go st read_blocked = ls_ends ls_blocked []

abbrev pub ls_message : (List Arrival → Option LsResult) → Reading → Option LsResult
ls_message go (read_all m rest) =
    if equal (take 4 m) id_done
    then ls_ends ls_done rest
    else if equal (take 4 m) (codes "DENT")
    then (let len = to_int (word_at 4 m) in
        if exceeds len 256
        then ls_ends ls_failed rest
        else if ltb 256 (to_size len)
        then ls_ends ls_overrun rest
        else ls_name go (stat_of m) (readx rest (to_size len)))
    else ls_ends ls_failed rest
ls_message go read_refused = ls_ends ls_failed []
ls_message go read_blocked = ls_ends ls_blocked []

-- `for(;;)`, with fuel for its rounds.
unfoldable pub ls_loop : ℕ → List Arrival → Option LsResult
ls_loop zero evs = none
ls_loop (suc fuel) evs = ls_message (ls_loop fuel) (readx evs 20)

-- What went out of a request, and what came of it.
pub record Asked (A : Type 0) : Type 0 where
  pub sent : Bytes
  pub answer : Option A

abbrev pub ls_asked : Outcome → List Arrival → Option LsResult
ls_asked written evs = ls_loop (suc (length (stream evs))) evs
ls_asked write_refused evs = ls_ends ls_failed evs
ls_asked write_blocked evs = ls_ends ls_blocked evs

-- `sync_ls`; each round takes twenty bytes of the stream.
unfoldable pub sync_ls : Bytes → List Acceptance → List Arrival → Asked LsResult
unfolding ls_loop
sync_ls path ws evs =
    if ltb 1024 (length path)
    then record { sent = []; answer = ls_ends ls_failed evs }
    else (let w = write_both ws (message id_list (length path)) path in
        record { sent = w.sent; answer = ls_asked w.outcome evs })

-- `sync_finish_readtime`: the answer to STAT. `none` is -1, or the wait for the device.
unfoldable pub sync_finish_readtime : Reading → Option FileStat
sync_finish_readtime (read_all m rest) = if equal (take 4 m) id_stat then some (stat_of m) else none
sync_finish_readtime _ = none

abbrev pub stat_asked : Outcome → List Arrival → Option FileStat
stat_asked written evs = sync_finish_readtime (readx evs 16)
stat_asked _ evs = none

-- `sync_start_readtime`, and the answer to it.
unfoldable pub read_stat : Bytes → List Acceptance → List Arrival → Asked FileStat
unfolding sync_finish_readtime
read_stat path ws evs =
    let w = write_both ws (message id_stat (length path)) path in
    record { sent = w.sent; answer = stat_asked w.outcome evs }

unfoldable pub sync_readtime : Bytes → List Acceptance → List Arrival → Asked ℕ
unfolding read_stat
sync_readtime path ws evs =
    let a = read_stat path ws evs in
    record { sent = a.sent; answer = elim a.answer [ none ↦ none | some st ↦ some st.time ] }

unfoldable pub sync_readmode : Bytes → List Acceptance → List Arrival → Asked ℕ
unfolding read_stat
sync_readmode path ws evs =
    let a = read_stat path ws evs in
    record { sent = a.sent; answer = elim a.answer [ none ↦ none | some st ↦ some st.mode ] }
