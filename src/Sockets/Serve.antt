-- ===== src/Sockets/Serve.antt =====
-- The life of a socket before it closes: `create_local_socket`, `create_remote_socket`,
-- `connect_to_remote`, the ready functions, `local_socket_enqueue`, `remote_socket_enqueue`, and the
-- write half of `local_socket_event_func`. What `adb_write` gives is a list of its results, and a
-- call beyond the list would block.
pub mod Drain
use adbtest_ce.Prelude.{
  Bytes, List, Option, [], codes, drop, false, if◌then◌else◌, length, ltb, none, not, some, suc,
  take, true, zero, ℕ, ◌++◌, ◌+◌, ◌-◌, ◌∷◌,
}
use adbtest_ce.Io.{Acceptance, eagain, eintr, write_failed, wrote}
use adbtest_ce.Sockets.State.{
  Asocket, Command, Outgoing, ReadyFunc, State, a_okay, a_open, a_wrte, install_local_socket,
  local_socket_close, local_socket_enqueue, local_socket_ready, local_socket_ready_notify,
  remote_socket_close, remote_socket_enqueue, remote_socket_ready, send, smart_socket_ready, store,
  tell, update,
}
use adbtest_ce.Sockets.Close.{close_socket, is_empty, then_close}
use adbtest_ce.Packet.{max_payload}

abbrev pub blank : Asocket
blank = record {
  id = 0;
  closing = false;
  exit_on_close = false;
  peer = none;
  fd = 0;
  reads = false;
  writes = false;
  pkts = [];
  enqueue = local_socket_enqueue;
  ready = local_socket_ready;
  close = local_socket_close;
  transport = none;
}

-- The new socket's pointer is `w.break`.
unfoldable pub create_local_socket : ℕ → State → State
unfolding install_local_socket
create_local_socket fd w =
    install_local_socket w.break (record blank { fd = fd }) (record w { break = w.break + 1 })

-- The socket's id is the remote's own.
abbrev pub remote_asocket : ℕ → ℕ → Asocket
remote_asocket id t = record blank {
  id = id;
  enqueue = remote_socket_enqueue;
  ready = remote_socket_ready;
  close = remote_socket_close;
  transport = some t;
}

-- The socket is in no list of sockets, but waits for its transport's disconnection.
unfoldable pub create_remote_socket : ℕ → ℕ → State → State
create_remote_socket id t w = record w {
  cell = update w.cell w.break (some (remote_asocket id t));
  break = w.break + 1;
  disconnects = w.disconnects ++ w.break ∷ [];
}

-- `none` where `fatal("destination oversized")` ends the process.
unfoldable pub connect_to_remote : ℕ → Bytes → State → Option State
connect_to_remote s destination w = elim (w.cell s) [
  | none ↦ none
  | some a ↦
      let request : Outgoing = record {
        command = a_open;
        arg0 = a.id;
        arg1 = 0;
        payload = destination ++ 0 ∷ [];
        via = a.transport;
      } in
      if ltb (max_payload - 1) (length destination + 1) then none else some (send request w)
]

-- A packet from a remote socket: `s->peer->id` is read, so there must be a peer.
unfoldable pub remote_send : Command → Bytes → Asocket → State → Option State
remote_send command payload a w = elim a.peer [
  | none ↦ none
  | some p ↦ elim (w.cell p) [
    | none ↦ none
    | some b ↦
        let packet : Outgoing = record {
          command = command;
          arg0 = b.id;
          arg1 = a.id;
          payload = payload;
          via = a.transport;
        } in
        some (send packet w)
  ]
]

-- `s->ready(s)`, for the socket `a` at `s`.
unfoldable pub dispatch_ready : ReadyFunc → ℕ → Asocket → State → Option State
unfolding remote_send
dispatch_ready local_socket_ready s a w = some (store s (record a { reads = true }) w)
dispatch_ready local_socket_ready_notify s a w =
    let b = record a { ready = local_socket_ready; close = local_socket_close; reads = true } in
    some (tell a.fd (codes "OKAY") (store s b w))
dispatch_ready remote_socket_ready s a w = remote_send a_okay [] a w
dispatch_ready smart_socket_ready s a w = some w

unfoldable pub ready_socket : ℕ → State → Option State
ready_socket s w = elim (w.cell s) [ none ↦ none | some a ↦ dispatch_ready a.ready s a w ]

pub data FlushEnd : Type 0 where
  flushed would_block broken : FlushEnd

-- What is left of a packet when its write loop ends, why it ends, and the later calls' results.
pub record Flush : Type 0 where
  pub left : Bytes
  pub why : FlushEnd
  pub later : List Acceptance

abbrev pub flush_end : Bytes → FlushEnd → List Acceptance → Flush
flush_end x why ws = record { left = x; why = why; later = ws }

-- The loop of `local_socket_enqueue`: every error but EAGAIN closes the socket, EINTR too.
unfoldable pub flush_new : List Acceptance → Bytes → Flush
flush_new ws [] = flush_end [] flushed ws
flush_new [] (b ∷ x) = flush_end (b ∷ x) would_block []
flush_new (write_failed eagain ∷ ws) (b ∷ x) = flush_end (b ∷ x) would_block ws
flush_new (write_failed e ∷ ws) (b ∷ x) = flush_end (b ∷ x) broken ws
flush_new (wrote zero ∷ ws) (b ∷ x) = flush_end (b ∷ x) broken ws
flush_new (wrote (suc r) ∷ ws) (b ∷ x) = flush_new ws (drop r x)

-- The inner loop of `local_socket_event_func`, which tries again after EINTR.
unfoldable pub flush_queued : List Acceptance → Bytes → Flush
flush_queued ws [] = flush_end [] flushed ws
flush_queued [] (b ∷ x) = flush_end (b ∷ x) would_block []
flush_queued (write_failed eagain ∷ ws) (b ∷ x) = flush_end (b ∷ x) would_block ws
flush_queued (write_failed eintr ∷ ws) (b ∷ x) = flush_queued ws (b ∷ x)
flush_queued (write_failed e ∷ ws) (b ∷ x) = flush_end (b ∷ x) broken ws
flush_queued (wrote zero ∷ ws) (b ∷ x) = flush_end (b ∷ x) broken ws
flush_queued (wrote (suc r) ∷ ws) (b ∷ x) = flush_queued ws (drop r x)

-- The bytes of `x` that are gone when `left` is what remains.
abbrev pub gone : Bytes → Bytes → Bytes
gone x left = take (length x - length left) x

-- The tail of `local_socket_enqueue`: queue the packet, and ask for write events.
abbrev pub queue : ℕ → Asocket → Bytes → State → State
queue s a x w = store s (record a { pkts = a.pkts ++ x ∷ []; writes = true }) w

-- What `enqueue` gives: 0 where the socket takes more data, 1 where it does not, and -1 where it has
-- closed itself and its peer.
pub data EnqueueResult : Type 0 where
  ready_for_more not_ready closed_both : EnqueueResult

unfoldable pub enqueue_local :
    List Acceptance → ℕ → Asocket → Bytes → State → Option (State × EnqueueResult)
unfolding is_empty
enqueue_local ws s a x w =
    let f = flush_new ws x in
    let v = tell a.fd (gone x f.left) w in
    if not (is_empty a.pkts) then some (queue s a x w, not_ready) else elim f.why [
      | flushed ↦ some (v, ready_for_more)
      | would_block ↦ some (queue s a f.left v, not_ready)
      | broken ↦ then_close (close_socket s v) λ u. some (u, not_ready)
    ]

-- `remote_socket_enqueue`: always "not ready", until the remote side says OKAY.
unfoldable pub enqueue_remote : Asocket → Bytes → State → Option (State × EnqueueResult)
unfolding remote_send
enqueue_remote a x w = then_close (remote_send a_wrte x a w) λ v. some (v, not_ready)

-- The queue of a socket, packet by packet, until it is empty or a write does not finish.
pub record Drained : Type 0 where
  pub queue_left : List Bytes
  pub end : FlushEnd
  pub delivered : Bytes

unfoldable pub drain : List Acceptance → List Bytes → Drained
drain ws [] = record { queue_left = []; end = flushed; delivered = [] }
drain ws (x ∷ xs) =
    let f = flush_queued ws x in
    let later = drain f.later xs in
    elim f.why [
      | flushed ↦ record later { delivered = x ++ later.delivered }
      | why ↦ record { queue_left = f.left ∷ xs; end = why; delivered = gone x f.left }
    ]

-- After the queue is empty: a closing socket closes; else no more write events, and the peer may
-- send again. `s->peer->ready(s->peer)` reads the peer with no test.
unfoldable pub after_drain : ℕ → Asocket → State → Option State
after_drain s a w =
    let resumed : Option State = elim a.peer [
      | none ↦ none
      | some p ↦ ready_socket p (store s (record a { writes = false }) w)
    ] in
    if a.closing then close_socket s w else resumed

-- FDE_WRITE in `local_socket_event_func`.
unfoldable pub event_write : List Acceptance → ℕ → Asocket → State → Option State
event_write ws s a w =
    let d = drain ws a.pkts in
    let b = record a { pkts = d.queue_left } in
    let v = tell a.fd d.delivered (store s b w) in
    elim d.end [ would_block ↦ some v | broken ↦ close_socket s v | flushed ↦ after_drain s b v ]
