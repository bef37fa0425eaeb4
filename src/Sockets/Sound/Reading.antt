-- ===== src/Sockets/Sound/Reading.antt =====
-- The read half of `local_socket_event_func` (ADBTestCE/adb/sockets.cpp), the whole function, and the
-- invariant of the heap.
use adbtest_ce.Prelude.{
  Bool, Bool-cases, Bytes, List, Option-cases, [], arith, false, inl, inr, refl, some, true, ℕ,
  ◌&&◌, ◌++◌, ◌||◌, ◌∷◌, ◌≡◌, ◌≢◌,
}
use adbtest_ce.Io.{Arrival}
use adbtest_ce.Packet.{max_payload}
use adbtest_ce.Sockets.State.{
  Asocket, EnqueueFunc, Outgoing, ReadyFunc, State, a_wrte, local_socket_enqueue,
  local_socket_ready, local_socket_ready_notify, remote_socket_enqueue, remote_socket_ready, send,
  smart_socket_enqueue, smart_socket_ready, store, tell,
}
use adbtest_ce.Sockets.Close.{is_empty}
use adbtest_ce.Sockets.Serve.{
  EnqueueResult, FlushEnd, broken, closed_both, dispatch_ready, enqueue_local, enqueue_remote,
  flush_new, flushed, gone, not_ready, queue, ready_for_more, remote_send, would_block,
}
use adbtest_ce.Sockets.Requests.{Answers}
use adbtest_ce.Sockets.Reading.{
  after_enqueue, dispatch_enqueue, end_read, event_read, fill, pass_on,
}
use adbtest_ce.Sockets.Sound.{IsSound, close_socket-IsSound}
use adbtest_ce.Sockets.Sound.Store.{Safe, same_heap, store-IsSound}
use adbtest_ce.Sockets.Sound.Requests.{Delivers}
use adbtest_ce.Sockets.Sound.Answers.{HasTransport, enqueue_smart-IsSound}

-- A packet for the socket `b` at `p`, from its peer `a` at `s`.
module _ (env : Answers) (s p : ℕ) (a b : Asocket) (x : Bytes) (w : State) (i : IsSound w)
    (e : w.cell s ≡ some a) (e' : w.cell p ≡ some b) (hb : b.peer ≡ some s) (ne : p ≢ s) where
  abbrev taken : State
  taken = tell b.fd (gone x (flush_new env.writes x).left) w

  queued-Delivers :
      (y : Bytes) (v : State)
      → IsSound v
      → v.cell p ≡ some b
      → v.cell s ≡ some a
      → Delivers s (some (queue p b y v, not_ready))
  queued-Delivers y v iv ev es = (
    queue p b y v,
    not_ready,
    refl,
    store-IsSound p b (record b { pkts = b.pkts ++ y ∷ []; writes = true }) v iv ev refl
        ((λ k. k), λ k. k),
    λ _. (a, ground (arith, es, ne)),
  )

  local_end-Delivers :
      (k : FlushEnd)
      → (flush_new env.writes x).why ≡ k
      → k ≢ broken
      → is_empty b.pkts ≡ true
      → Delivers s (enqueue_local env.writes p b x w)
  unfolding enqueue_local
  local_end-Delivers flushed q n m =
      (taken, ready_for_more, rw (m, q), same_heap w taken refl refl refl refl i, λ _. (a, e))
  local_end-Delivers would_block q n m =
      rw (m, q)
        (queued-Delivers (flush_new env.writes x).left taken
          (same_heap w taken refl refl refl refl i) e' e)
  local_end-Delivers broken q n m = absurd (n refl)

  local-Delivers :
      (flush_new env.writes x).why ≢ broken → Delivers s (enqueue_local env.writes p b x w)
  unfolding enqueue_local
  local-Delivers n = elim (Bool-cases (is_empty b.pkts)) [
    | inl m ↦ local_end-Delivers (flush_new env.writes x).why refl n m
    | inr m ↦ rw m (queued-Delivers x w i e' e)
  ]

  remote-Delivers : Delivers s (enqueue_remote b x w)
  unfolding enqueue_remote
  remote-Delivers =
      let packet : Outgoing = record {
        command = a_wrte;
        arg0 = a.id;
        arg1 = b.id;
        payload = x;
        via = b.transport;
      } in
      (
        send packet w,
        not_ready,
        rw (hb, e, remote_send) refl,
        same_heap w _ refl refl refl refl i,
        λ _. (a, e),
      )

  dispatch_enqueue-Delivers :
      (f : EnqueueFunc)
      → b.enqueue ≡ f
      → (f ≡ local_socket_enqueue → (flush_new env.writes x).why ≢ broken)
      → (f ≡ smart_socket_enqueue → HasTransport env b)
      → Delivers s (dispatch_enqueue f env p b x w)
  unfolding dispatch_enqueue
  dispatch_enqueue-Delivers local_socket_enqueue q n there = local-Delivers (n refl)
  dispatch_enqueue-Delivers remote_socket_enqueue q n there = remote-Delivers
  dispatch_enqueue-Delivers smart_socket_enqueue q n there =
      enqueue_smart-IsSound env p s b x w i e' hb q (there refl)

-- The end of the read half.
end_read-Safe :
    (force_eof zero_result is_eof : Bool) (s : ℕ) (a : Asocket) (w : State)
    → IsSound w
    → w.cell s ≡ some a
    → Safe (end_read force_eof zero_result is_eof s w)
unfolding end_read
end_read-Safe force_eof zero_result is_eof s a w i e =
    elim (Bool-cases (force_eof && zero_result || is_eof)) [
      | inl closes ↦
          let (v, eq, iv, _) = close_socket-IsSound s a w i e in
          (v, rw (e, end_read, closes) eq, iv)
      | inr stays ↦ (w, rw (e, end_read, stays) refl, i)
    ]

after_enqueue-Safe :
    (force_eof is_eof : Bool) (s : ℕ) (v : State) (n : EnqueueResult)
    → IsSound v
    → (n ≢ closed_both → (c : Asocket) × (v.cell s ≡ some c))
    → Safe (after_enqueue force_eof is_eof s (v, n))
unfolding after_enqueue
after_enqueue-Safe force_eof is_eof s v closed_both iv k = (v, refl, iv)
after_enqueue-Safe force_eof is_eof s v ready_for_more iv k =
    let (c, e) = k (λ z. cc) in end_read-Safe force_eof true is_eof s c v iv e
after_enqueue-Safe force_eof is_eof s v not_ready iv k =
    let (c, e) = k (λ z. cc) in
    let d : Asocket = record c { reads = false } in
    rw (e, after_enqueue)
      (end_read-Safe force_eof false is_eof s d (store s d v)
        (store-IsSound s c d v iv e refl ((λ k'. k'), λ k'. k')) (ground arith))

-- A local peer of `a` takes the bytes that were read: its writes do not fail.
abbrev pub Takes : Answers → List Arrival → Asocket → State → Type 0
Takes env evs a w =
    (p : ℕ) (b : Asocket)
    → a.peer ≡ some p
    → w.cell p ≡ some b
    → b.enqueue ≡ local_socket_enqueue
    → (flush_new env.writes (fill evs max_payload).bytes).why ≢ broken

-- The transport of a smart peer of `a`, if it has one, was not freed.
abbrev pub Reaches : Answers → Asocket → State → Type 0
Reaches env a w =
    (p : ℕ) (b : Asocket)
    → a.peer ≡ some p
    → w.cell p ≡ some b
    → b.enqueue ≡ smart_socket_enqueue
    → HasTransport env b

module _ (env : Answers) (evs : List Arrival) (force_eof : Bool) (s : ℕ) (a : Asocket) (w : State)
    (i : IsSound w) (e : w.cell s ≡ some a) (there : Reaches env a w) where
  pass_on-Safe :
      (is_eof : Bool) (p : ℕ)
      → a.peer ≡ some p
      → Takes env evs a w
      → Safe (pass_on env force_eof is_eof s p (fill evs max_payload).bytes w)
  unfolding pass_on
  pass_on-Safe is_eof p h takes =
      let x = (fill evs max_payload).bytes in
      let (b, e', hb, ne, _) = i.paired s a p e h in
      let (v, n, eq, iv, k) =
        dispatch_enqueue-Delivers env s p a b x w i e e' hb ne b.enqueue refl
          (λ q. takes p b h e' q) (λ q. there p b h e' q) in
      rw (e', pass_on, eq) (after_enqueue-Safe force_eof is_eof s v n iv k)

  read-Safe :
      (x : Bytes)
      → (fill evs max_payload).bytes ≡ x
      → Takes env evs a w
      → Safe (event_read env evs force_eof s a w)
  unfolding event_read
  read-Safe [] q takes =
      let f = fill evs max_payload in
      rw (q, event_read) (end_read-Safe force_eof f.last_zero f.is_eof s a w i e)
  read-Safe (c ∷ x) q takes = elim (Option-cases a.peer) [
    | inl h ↦
        let f = fill evs max_payload in
        rw (q, h, event_read) (end_read-Safe force_eof f.last_zero f.is_eof s a w i e)
    | inr (p, h) ↦
        let f = fill evs max_payload in
        let (v, eq, iv) = pass_on-Safe f.is_eof p h takes in (v, rw (q, h, event_read) eq, iv)
  ]

-- A readable descriptor of a live socket of a sound heap: whatever arrives and whatever the rest of
-- the server answers, the read half of `local_socket_event_func` meets no bad pointer and leaves a
-- sound heap, as long as no write to a local peer fails and the transport of a smart peer was not freed.
pub event_read-IsSound :
    (env : Answers) (evs : List Arrival) (force_eof : Bool) (s : ℕ) (a : Asocket) (w : State)
    → IsSound w
    → w.cell s ≡ some a
    → Takes env evs a w
    → Reaches env a w
    → Safe (event_read env evs force_eof s a w)
event_read-IsSound env evs force_eof s a w i e takes there =
    read-Safe env evs force_eof s a w i e there (fill evs max_payload).bytes refl takes

-- A ready function changes no cell but its own.
pub ready-OnlyAt :
    (f : ReadyFunc) (p : ℕ) (b : Asocket) (w v : State) (q : ℕ)
    → dispatch_ready f p b w ≡ some v
    → q ≢ p
    → v.cell q ≡ w.cell q
unfolding dispatch_ready remote_send
ready-OnlyAt local_socket_ready p b w v q h n = ground (arith, h, n)
ready-OnlyAt local_socket_ready_notify p b w v q h n = ground (arith, h, n)
ready-OnlyAt remote_socket_ready p b w v q h n = ground (arith, h, n)
ready-OnlyAt smart_socket_ready p b w v q h n = ground (arith, h, n)

-- The function and the transport of the socket itself stay, where a peer of that kind is called.
pub ready-At :
    (f : ReadyFunc) (p : ℕ) (b c : Asocket) (w v : State)
    → w.cell p ≡ some b
    → dispatch_ready f p b w ≡ some v
    → v.cell p ≡ some c
    → (c.enqueue ≡ b.enqueue) × (c.transport ≡ b.transport)
unfolding dispatch_ready remote_send
ready-At local_socket_ready p b c w v live h e = ground (arith, h, e, live)
ready-At local_socket_ready_notify p b c w v live h e = ground (arith, h, e, live)
ready-At remote_socket_ready p b c w v live h e = ground (arith, h, e, live)
ready-At smart_socket_ready p b c w v live h e = ground (arith, h, e, live)
