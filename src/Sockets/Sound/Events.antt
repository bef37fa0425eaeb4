-- ===== src/Sockets/Sound/Events.antt =====
-- The write half of `local_socket_event_func` (ADBTestCE/adb/sockets.cpp) and the invariant of the
-- heap.
use adbtest_ce.Prelude.{Bool, List, Option, [], arith, false, none, refl, some, true, ℕ, ◌∙◌, ◌≡◌}
use adbtest_ce.Sockets.State.{
  Asocket, Outgoing, ReadyFunc, State, a_okay, local_socket_ready, local_socket_ready_notify,
  remote_socket_ready, send, smart_socket_ready, store, tell,
}
use adbtest_ce.Sockets.Serve.{
  FlushEnd, after_drain, broken, dispatch_ready, drain, event_write, flushed, ready_socket,
  remote_send, would_block,
}
use adbtest_ce.Sockets.Sound.{IsSound, close_socket-IsSound}
use adbtest_ce.Sockets.Sound.Store.{Safe, SameKind, notify-Safe, same_heap, store-IsSound}
use adbtest_ce.Io.{Acceptance}

-- The ready functions of a socket that has a peer, whatever its kind.
partner_ready :
    (f : ReadyFunc) (p s : ℕ) (b a : Asocket) (w : State)
    → IsSound w
    → w.cell p ≡ some b
    → b.peer ≡ some s
    → w.cell s ≡ some a
    → b.ready ≡ f
    → Safe (dispatch_ready f p b w)
unfolding dispatch_ready
partner_ready local_socket_ready p s b a w i e h e' r =
    (_, refl, store-IsSound p b _ w i e refl ((λ k. k), λ k. k))
partner_ready local_socket_ready_notify p s b a w i e h e' r = notify-Safe p b w i e r
partner_ready remote_socket_ready p s b a w i e h e' r =
    let okay : Outgoing = record {
      command = a_okay;
      arg0 = a.id;
      arg1 = b.id;
      payload = [];
      via = b.transport;
    } in
    (send okay w, rw (h, e', remote_send), same_heap w _ refl refl refl refl i)
partner_ready smart_socket_ready p s b a w i e h e' r = (w, refl, i)

-- A heap in which the socket at `s` has a new queue.
module _ (s : ℕ) (a b : Asocket) (w : State) (i : IsSound w) (e : w.cell s ≡ some a)
    (h : b.peer ≡ a.peer) (l : SameKind a b) where
  resume : (p : ℕ) → a.peer ≡ some p → Safe (ready_socket p (store s b w))
  unfolding ready_socket
  resume p hp =
      let v = store s b w in
      let iv = store-IsSound s a b w i e h l in
      let es : v.cell s ≡ some b = ground arith in
      let (c, ec, hc, _, _) = iv.paired s b p es (h ∙ hp) in
      let (u, eu, iu) = partner_ready c.ready p s c b v iv ec hc es refl in
      (u, rw (ec, ready_socket) eu, iu)

true_ne_false : false ≡ true → ⊥
true_ne_false e = cc

pub resumes :
    (s : ℕ) (a : Asocket) (p : ℕ) (w : State)
    → a.peer ≡ some p
    → a.closing ≡ false
    → after_drain s a w ≡ ready_socket p (store s (record a { writes = false }) w)
unfolding after_drain
resumes s a p w h c = ground (arith, h, c)

stuck :
    (s : ℕ) (a : Asocket) (w : State) → a.peer ≡ none → a.closing ≡ false → after_drain s a w ≡ none
unfolding after_drain
stuck s a w h c = ground (arith, h, c)

-- The end of the loop, for a socket with an empty queue.
after_drain-Safe :
    (s : ℕ) (a : Asocket) (o : Option ℕ) (closing : Bool) (w : State)
    → IsSound w
    → w.cell s ≡ some a
    → a.peer ≡ o
    → a.closing ≡ closing
    → (o ≡ none → closing ≡ true)
    → Safe (after_drain s a w)
unfolding after_drain
after_drain-Safe s a o true w i e h c k =
    let (v, eq, iv, _) = close_socket-IsSound s a w i e in (v, rw (c, after_drain) eq, iv)
after_drain-Safe s a none false w i e h c k = absurd (true_ne_false (k refl))
after_drain-Safe s a (some p) false w i e h c k =
    let (v, eq, iv) = resume s a (record a { writes = false }) w i e refl ((λ x. x), λ x. x) p h in
    (v, resumes s a p w h c ∙ eq, iv)

module _ (ws : List Acceptance) (s : ℕ) (a : Asocket) (w : State) where
  abbrev pub rest : Asocket
  rest = record a { pkts = (drain ws a.pkts).queue_left }

  abbrev pub wrote_out : State
  wrote_out = tell a.fd (drain ws a.pkts).delivered (store s rest w)

  event-Safe :
      (k : FlushEnd)
      → IsSound w
      → w.cell s ≡ some a
      → (drain ws a.pkts).end ≡ k
      → (a.peer ≡ none → a.closing ≡ true)
      → Safe (event_write ws s a w)
  unfolding event_write
  event-Safe k i e d safe =
      let v = wrote_out in
      let iv : IsSound v =
        same_heap _ _ refl refl refl refl (store-IsSound s a rest w i e refl ((λ x. x), λ x. x)) in
      let ev : v.cell s ≡ some rest = ground arith in go k d iv ev
    where
      go :
          (k : FlushEnd)
          → (drain ws a.pkts).end ≡ k
          → IsSound wrote_out
          → wrote_out.cell s ≡ some rest
          → Safe (event_write ws s a w)
      go would_block d iv ev = (wrote_out, rw (d, event_write), iv)
      go broken d iv ev =
          let (u, eq, iu, _) = close_socket-IsSound s rest wrote_out iv ev in
          (u, rw (d, event_write) eq, iu)
      go flushed d iv ev =
          let (u, eq, iu) =
            after_drain-Safe s rest a.peer a.closing wrote_out iv ev refl refl safe in
          (u, rw (d, event_write) eq, iu)

-- A writable descriptor of a live socket of a sound heap, where the socket has a peer or is
-- closing: `local_socket_event_func` meets no bad pointer, and leaves a sound heap.
pub event_write-IsSound :
    (ws : List Acceptance) (s : ℕ) (a : Asocket) (w : State)
    → IsSound w
    → w.cell s ≡ some a
    → (a.peer ≡ none → a.closing ≡ true)
    → Safe (event_write ws s a w)
event_write-IsSound ws s a w i e h = event-Safe ws s a w (drain ws a.pkts).end i e refl h

-- A socket with no peer that is not closing: where the writes empty its queue, the code goes
-- through the null pointer `s->peer`.
pub event_write-no_peer :
    (ws : List Acceptance) (s : ℕ) (a : Asocket) (w : State)
    → a.peer ≡ none
    → a.closing ≡ false
    → (drain ws a.pkts).end ≡ flushed
    → event_write ws s a w ≡ none
unfolding event_write
event_write-no_peer ws s a w h c d =
    let eq : event_write ws s a w ≡ after_drain s (rest ws s a w) (wrote_out ws s a w) =
      rw (d, event_write) in
    eq ∙ stuck s (rest ws s a w) (wrote_out ws s a w) h c
