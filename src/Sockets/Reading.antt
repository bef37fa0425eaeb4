-- ===== src/Sockets/Reading.antt =====
-- The read half of `local_socket_event_func` (ADBTestCE/adb/sockets.cpp), the call through
-- `s->enqueue`, and the whole function. What `adb_read` gives is a list of its results, and a call
-- beyond the list gives EAGAIN.
use adbtest_ce.Prelude.{
  Bool, Bytes, List, Option, [], false, if◌then◌else◌, length, none, not, some, suc, take, true,
  zero, ℕ, ◌&&◌, ◌++◌, ◌-◌, ◌||◌, ◌∷◌,
}
use adbtest_ce.Io.{Acceptance, Arrival, eagain, eintr, got, read_failed}
use adbtest_ce.Packet.{max_payload}
use adbtest_ce.Sockets.State.{
  Asocket, EnqueueFunc, State, local_socket_enqueue, remote_socket_enqueue, smart_socket_enqueue,
  store,
}
use adbtest_ce.Sockets.Close.{close_socket, then_close}
use adbtest_ce.Sockets.Serve.{
  EnqueueResult, FlushEnd, closed_both, drain, enqueue_local, enqueue_remote, event_write, flushed,
  not_ready, ready_for_more,
}
use adbtest_ce.Sockets.Requests.{Answers, enqueue_smart}

-- `s->enqueue(s, p)`, for the socket `a` at `s`.
unfoldable pub dispatch_enqueue :
    EnqueueFunc → Answers → ℕ → Asocket → Bytes → State → Option (State × EnqueueResult)
dispatch_enqueue local_socket_enqueue env s a x w = enqueue_local env.writes s a x w
dispatch_enqueue remote_socket_enqueue env s a x w = enqueue_remote a x w
dispatch_enqueue smart_socket_enqueue env s a x w = enqueue_smart env s a x w

-- What the loop over `adb_read` leaves: the bytes, `is_eof`, and whether the last call gave 0.
pub record Filled : Type 0 where
  pub bytes : Bytes
  pub is_eof : Bool
  pub last_zero : Bool

-- `while(avail > 0)`.
unfoldable pub fill : List Arrival → ℕ → Filled
fill evs zero = record { bytes = []; is_eof = false; last_zero = false }
fill [] (suc avail) = record { bytes = []; is_eof = false; last_zero = false }
fill (read_failed eagain ∷ evs) (suc avail) = record {
  bytes = [];
  is_eof = false;
  last_zero = false;
}
fill (read_failed eintr ∷ evs) (suc avail) = fill evs (suc avail)
fill (read_failed e ∷ evs) (suc avail) = record { bytes = []; is_eof = true; last_zero = false }
fill (got [] ∷ evs) (suc avail) = record { bytes = []; is_eof = true; last_zero = true }
fill (got (b ∷ bs) ∷ evs) (suc avail) =
    let later = fill evs (avail - length bs) in
    record later { bytes = take (suc avail) (b ∷ bs) ++ later.bytes }

-- The end of the read half, where `zero_result` is `!r`: `s->fde.force_eof` is read.
unfoldable pub end_read : Bool → Bool → Bool → ℕ → State → Option State
end_read force_eof zero_result is_eof s w = elim (w.cell s) [
  | none ↦ none
  | some a ↦ if force_eof && zero_result || is_eof then close_socket s w else some w
]

-- After the peer has taken the packet: `fdevent_del(&s->fde, FDE_READ)` where it takes no more.
unfoldable pub after_enqueue : Bool → Bool → ℕ → State × EnqueueResult → Option State
unfolding end_read
after_enqueue force_eof is_eof s (w, closed_both) = some w
after_enqueue force_eof is_eof s (w, ready_for_more) = end_read force_eof true is_eof s w
after_enqueue force_eof is_eof s (w, not_ready) = elim (w.cell s) [
  | none ↦ none
  | some a ↦ end_read force_eof false is_eof s (store s (record a { reads = false }) w)
]

-- The packet for the peer.
unfoldable pub pass_on : Answers → Bool → Bool → ℕ → ℕ → Bytes → State → Option State
pass_on env force_eof is_eof s p x w = elim (w.cell p) [
  | none ↦ none
  | some b ↦ elim (dispatch_enqueue b.enqueue env p b x w) [
    | none ↦ none
    | some r ↦ after_enqueue force_eof is_eof s r
  ]
]

-- FDE_READ in `local_socket_event_func`, for the socket `a` at `s`; `force_eof` is that of its `fde`.
unfoldable pub event_read : Answers → List Arrival → Bool → ℕ → Asocket → State → Option State
event_read env evs force_eof s a w =
    let f = fill evs max_payload in
    let dropped = end_read force_eof f.last_zero f.is_eof s w in
    elim f.bytes [
      | [] ↦ dropped
      | _ ∷ _ ↦ elim a.peer [
        | none ↦ dropped
        | some p ↦ pass_on env force_eof f.is_eof s p f.bytes w
      ]
    ]

-- `event_read` for the socket as it is now.
abbrev pub read_now : Answers → List Arrival → Bool → ℕ → State → Option State
read_now env evs force_eof s w = elim (w.cell s) [
  | none ↦ none
  | some a ↦ event_read env evs force_eof s a w
]

abbrev pub is_flushed : FlushEnd → Bool
is_flushed flushed = true
is_flushed _ = false

-- The whole function, for the two bits of `ev`: the write half returns, unless it has written the
-- whole queue of a socket that is not closing.
unfoldable pub local_socket_event_func :
    Bool
    → Bool
    → List Acceptance
    → Answers
    → List Arrival
    → Bool
    → ℕ
    → Asocket
    → State
    → Option State
local_socket_event_func writable readable ws env evs force_eof s a w =
    let goes_on = is_flushed (drain ws a.pkts).end && not a.closing in
    let both = then_close (event_write ws s a w) (read_now env evs force_eof s) in
    if writable
    then if goes_on && readable then both else event_write ws s a w
    else if readable
    then event_read env evs force_eof s a w
    else some w
