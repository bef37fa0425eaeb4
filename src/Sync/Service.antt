-- ===== src/Sync/Service.antt =====
-- The device's side, ADBTestCE/adb/file_sync_service.c.
use adbtest_ce.Prelude.{
  Bool, Bytes, List, Option, [], codes, drop, equal, false, if◌then◌else◌, length, ltb, none, some,
  suc, take, true, zero, ℕ, ◌++◌, ◌∷◌,
}
use adbtest_ce.Io.{
  Arrival, Reading, eintr, got, read_all, read_blocked, read_failed, read_refused, readx,
}
use adbtest_ce.Io.ReadLoop.{stream}
use adbtest_ce.Sync.{
  count_of, id_data, id_done, id_fail, id_okay, message, msg_id, msg_size, sync_data_max,
}

-- `fail_message`: the message and its reason.
abbrev pub sync_fail : Bytes → Bytes
sync_fail reason = message id_fail (length reason) ++ reason

-- The file that is received: the bytes written to it while its descriptor is open, what it had before,
-- what was answered, and whether the file was unlinked. `full` says which of the next writes to it fail;
-- those beyond do not.
pub record Pushed : Type 0 where
  pub file : Option Bytes
  pub kept : Bytes
  pub full : List Bool
  pub replied : Bytes
  pub unlinked : Bool

-- What a file has after its bytes were written from the start on: an old one that was not cut off keeps
-- what lies behind them.
unfoldable pub contents : Pushed → Option Bytes
contents p = elim p.file [ none ↦ none | some y ↦ some (y ++ drop (length y) p.kept) ]

-- What `adb_open_mode` gives: a descriptor, or -1 with ENOENT, EEXIST or another error.
pub data OpenAnswer : Type 0 where
  open_done missing exists not_allowed : OpenAnswer

-- The answers to the three calls, and what a file that is there already has.
pub record Openings : Type 0 where
  pub first : OpenAnswer
  pub second : OpenAnswer
  pub third : OpenAnswer
  pub old : Bytes

-- A new file, an old one with what it has, or none.
pub data Opening : Type 0 where
  created not_opened : Opening
  reopened : Bytes → Opening

-- `fd < 0 && errno == EEXIST`: neither O_CREAT nor O_TRUNC.
abbrev pub open_old : OpenAnswer → Openings → Opening
open_old open_done o = created
open_old exists o = elim o.third [ open_done ↦ reopened o.old | _ ↦ not_opened ]
open_old _ o = not_opened

-- The three calls: the second one where directories were missing.
unfoldable pub open_push : Openings → Opening
open_push o = elim o.first [ missing ↦ open_old o.second o | r ↦ open_old r o ]

-- The file that is open.
abbrev pub opened_file : Bytes → List Bool → Pushed
opened_file old full = record {
  file = some [];
  kept = old;
  full = full;
  replied = [];
  unlinked = false;
}

abbrev pub start_push : Bytes → List Bool → Opening → Pushed
start_push why full created = opened_file [] full
start_push why full (reopened old) = opened_file old full
start_push why full not_opened = record {
  file = none;
  kept = [];
  full = full;
  replied = sync_fail why;
  unlinked = false;
}

-- How the handler ends: 0 with the time for the file, or -1; or it waits for the client.
pub data PushEnd : Type 0 where
  received : ℕ → PushEnd
  broken_off push_blocked : PushEnd

pub record PushResult : Type 0 where
  pub end : PushEnd
  pub pushed : Pushed
  pub rest : List Arrival

-- One block of data, where the text of `errno` is `why`.
unfoldable pub write_data : Bytes → Bytes → Pushed → Pushed
write_data why x p = elim p.file [
  | none ↦ p
  | some y ↦ elim p.full [
    | [] ↦ record p { file = some (y ++ x) }
    | false ∷ later ↦ record p { file = some (y ++ x); full = later }
    | true ∷ later ↦ record {
      file = none;
      kept = p.kept;
      full = later;
      replied = p.replied ++ sync_fail why;
      unlinked = true;
    }
  ]
]

-- The label `fail`.
abbrev pub push_failed : Bytes → Pushed → List Arrival → PushResult
push_failed reply p rest = record {
  end = broken_off;
  pushed = record p { file = none; replied = p.replied ++ reply; unlinked = true };
  rest = rest;
}

-- After DONE.
unfoldable pub push_done : ℕ → Pushed → List Arrival → PushResult
push_done timestamp p rest = elim p.file [
  | none ↦ record { end = received timestamp; pushed = p; rest = rest }
  | some y ↦ record {
    end = received timestamp;
    pushed = record p { replied = p.replied ++ message id_okay 0 };
    rest = rest;
  }
]

abbrev pub push_waits : Pushed → PushResult
push_waits p = record { end = push_blocked; pushed = p; rest = [] }

-- The body of a block of data, with the loop that goes on.
abbrev pub push_body :
    Bytes → (List Arrival → Pushed → Option PushResult) → Pushed → Reading → Option PushResult
push_body why go p (read_all x rest) = go rest (write_data why x p)
push_body why go p read_refused = some (push_failed [] p [])
push_body why go p read_blocked = some (push_waits p)

abbrev pub push_message :
    Bytes → (List Arrival → Pushed → Option PushResult) → Pushed → Reading → Option PushResult
push_message why go p (read_all m rest) =
    if equal (msg_id m) id_data
    then if ltb sync_data_max (msg_size m)
      then some (push_failed (sync_fail (codes "oversize data message")) p rest)
      else push_body why go p (readx rest (msg_size m))
    else if equal (msg_id m) id_done
    then some (push_done (msg_size m) p rest)
    else some (push_failed (sync_fail (codes "invalid data message")) p rest)
push_message why go p read_refused = some (push_failed [] p [])
push_message why go p read_blocked = some (push_waits p)

-- `for(;;)`, with fuel for its rounds.
unfoldable pub push_loop : Bytes → ℕ → List Arrival → Pushed → Option PushResult
push_loop why zero evs p = none
push_loop why (suc fuel) evs p = push_message why (push_loop why fuel) p (readx evs 8)

-- `handle_send_file`; each round takes eight bytes of the stream.
unfoldable pub handle_send_file : Bytes → Openings → List Bool → List Arrival → Option PushResult
unfolding push_loop open_push
handle_send_file why o full evs =
    push_loop why (suc (length (stream evs))) evs (start_push why full (open_push o))

-- The blocks of `do_recv` for the bytes that `adb_read` gives; `fuel` is at least their number. What
-- the device writes is taken as written in full.
unfoldable pub blocks : ℕ → Bytes → Bytes
blocks zero x = []
blocks (suc fuel) [] = []
blocks (suc fuel) (b ∷ x) =
    let count = count_of (b ∷ x) in
    (message id_data count ++ take count (b ∷ x)) ++ blocks fuel (drop count (b ∷ x))

unfoldable pub recv_blocks : Bytes → List Arrival → Bytes
unfolding blocks
recv_blocks why [] = message id_done 0
recv_blocks why (got [] ∷ evs) = message id_done 0
recv_blocks why (got (b ∷ x) ∷ evs) = blocks (length (b ∷ x)) (b ∷ x) ++ recv_blocks why evs
recv_blocks why (read_failed eintr ∷ evs) = recv_blocks why evs
recv_blocks why (read_failed e ∷ evs) = sync_fail why

-- `do_recv`: whether the file can be opened, and what its reads give.
unfoldable pub do_recv : Bytes → Bool → List Arrival → Bytes
do_recv why opens evs = if opens then recv_blocks why evs else sync_fail why
