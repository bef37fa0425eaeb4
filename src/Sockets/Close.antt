-- ===== src/Sockets/Close.antt =====
-- Closing: `local_socket_close_locked`, `local_socket_destroy`, `local_socket_close_notify`,
-- `remote_socket_close`, `remote_socket_disconnect` and `smart_socket_close`.
-- A close function calls its peer's, whose peer is zero by then. The first argument bounds these
-- calls, and `none` stands for a fault or a deeper call; `close_socket` allows two, which is enough.
pub mod Effect
use adbtest_ce.Prelude.{
  Bool, Bytes, List, Option, [], codes, false, if◌then◌else◌, none, some, suc, true, zero, ℕ, ◌++◌,
  ◌||◌, ◌∷◌,
}
use adbtest_ce.Sockets.State.{
  Asocket, CloseFunc, Outgoing, State, a_clse, free, local_socket_close, local_socket_close_notify,
  local_socket_ready, remote_socket_close, remove, remove_socket, send, smart_socket_close, store,
  tell, update,
}

-- `local_socket_destroy`.
unfoldable pub local_socket_destroy : ℕ → Asocket → State → State
unfolding remove_socket
local_socket_destroy s a w =
    let v = remove_socket s a w in
    record v { cell = update v.cell s none; exited = v.exited || a.exit_on_close }

unfoldable pub is_empty : List Bytes → Bool
is_empty [] = true
is_empty (p ∷ ps) = false

-- The end of `local_socket_close_locked`, after the peer: destroy, or wait for the queue to drain.
unfoldable pub settle : ℕ → Asocket → State → State
unfolding local_socket_destroy remove_socket is_empty
settle s a w =
    if a.closing || is_empty a.pkts
    then local_socket_destroy s a w
    else let b = record a { closing = true; reads = false } in
      let v = remove_socket s b (store s b w) in
      record v { local_socket_closing_list = v.local_socket_closing_list ++ s ∷ [] }

-- `s->peer->peer = 0; s->peer->close(s->peer)`, if there is a peer.
abbrev pub close_peer : (ℕ → State → Option State) → Option ℕ → State → Option State
close_peer close none w = some w
close_peer close (some p) w = elim (w.cell p) [
  | none ↦ none
  | some b ↦ close p (store p (record b { peer = none }) w)
]

-- The last steps of `local_socket_close_locked`: `s->peer = 0`, then `settle`.
abbrev pub close_self : ℕ → State → Option State
close_self s w = elim (w.cell s) [
  | none ↦ none
  | some a ↦ let b = record a { peer = none } in some (settle s b (store s b w))
]

abbrev pub then_close {ℓ} : {A : Type ℓ} → Option State → (State → Option A) → Option A
then_close none f = none
then_close (some w) f = f w

unfoldable pub local_socket_close_locked :
    (ℕ → State → Option State) → ℕ → Asocket → State → Option State
local_socket_close_locked close s a w = then_close (close_peer close a.peer w) (close_self s)

-- The text that a client gets when its connection is refused.
abbrev pub closed_text : Bytes
closed_text = codes "FAIL0006closed"

unfoldable pub local_close_notify : (ℕ → State → Option State) → ℕ → Asocket → State → Option State
unfolding local_socket_close_locked
local_close_notify close s a w =
    let b = record a { ready = local_socket_ready; close = local_socket_close } in
    local_socket_close_locked close s b (tell a.fd closed_text (store s b w))

-- `s->peer->id`, or the zero that `get_apacket` leaves.
abbrev pub peer_id : Option ℕ → State → ℕ
peer_id none w = 0
peer_id (some p) w = elim (w.cell p) [ none ↦ 0 | some b ↦ b.id ]

unfoldable pub remote_close : (ℕ → State → Option State) → ℕ → Asocket → State → Option State
remote_close close s a w =
    let clse : Outgoing = record {
      command = a_clse;
      arg0 = peer_id a.peer w;
      arg1 = a.id;
      payload = [];
      via = a.transport;
    } in
    then_close (close_peer close a.peer w)
      λ v. some (free s (record (send clse v) { disconnects = remove s v.disconnects }))

unfoldable pub smart_close : (ℕ → State → Option State) → ℕ → Asocket → State → Option State
smart_close close s a w = then_close (close_peer close a.peer w) λ v. some (free s v)

-- The call through the pointer `s->close`.
unfoldable pub dispatch_close :
    (ℕ → State → Option State) → CloseFunc → ℕ → Asocket → State → Option State
unfolding local_socket_close_locked local_close_notify remote_close smart_close
dispatch_close close local_socket_close s a w = local_socket_close_locked close s a w
dispatch_close close local_socket_close_notify s a w = local_close_notify close s a w
dispatch_close close remote_socket_close s a w = remote_close close s a w
dispatch_close close smart_socket_close s a w = smart_close close s a w

unfoldable pub close_within : ℕ → ℕ → State → Option State
close_within zero s w = none
close_within (suc depth) s w = elim (w.cell s) [
  | none ↦ none
  | some a ↦ dispatch_close (close_within depth) a.close s a w
]

-- `s->close(s)`.
unfoldable pub close_socket : ℕ → State → Option State
unfolding close_within dispatch_close
close_socket = close_within 2

-- The callback for a transport that goes away: no CLSE is sent. The peer has no peer by then, so that
-- one call is enough.
unfoldable pub remote_socket_disconnect : ℕ → State → Option State
remote_socket_disconnect s w = elim (w.cell s) [
  | none ↦ none
  | some a ↦
      then_close (close_peer (close_within 1) a.peer w)
        λ v. some (free s (record v { disconnects = remove s v.disconnects }))
]
