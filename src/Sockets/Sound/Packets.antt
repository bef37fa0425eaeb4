-- ===== src/Sockets/Sound/Packets.antt =====
-- `handle_packet` of ADBTestCE/adb/adb.cpp and the invariant of the heap.
use adbtest_ce.Prelude.{
  Bool, Bool-cases, Bytes, List, Option, [], false, inl, inr, none, refl, some, true, ℕ, ◌∙◌, ◌∷◌,
  ◌≡◌,
}
use adbtest_ce.Sockets.State.{
  Asocket, Distinct, State, find_in-member, find_local_socket, member, tell,
}
use adbtest_ce.Sockets.Protocol.{
  Incoming, attach_remote, clse_packet, dispatch_packet, handle_clse, handle_okay, handle_okay_at,
  handle_open, handle_packet, handle_packets, handle_wrte, handle_wrte_at, initial_state,
  okay_packet, on_local, open_packet, send_close, send_ready, wrte_packet,
}
use adbtest_ce.Sockets.Sound.{IsLocal, IsSound, close_socket-IsSound}
use adbtest_ce.Sockets.Sound.Store.{Safe, ready_socket-Safe, same_heap, store-IsSound}
use adbtest_ce.Sockets.Serve.{
  EnqueueResult, FlushEnd, broken, closed_both, create_local_socket, enqueue_local, flush_new,
  flushed, gone, not_ready, queue, ready_for_more, would_block,
}
use adbtest_ce.Sockets.Close.{close_socket, is_empty}
use adbtest_ce.Sockets.Sound.Attach.{
  attach-IsSound, attach_self, create-IsSound, create_self, created,
}
use adbtest_ce.Io.{Acceptance}

unanswered : (remote t : ℕ) (w : State) → IsSound w → IsSound (send_close 0 remote t w)
unfolding send_close
unanswered remote t w i = same_heap _ _ refl refl refl refl i

acknowledged : (local remote t : ℕ) (w : State) → IsSound w → IsSound (send_ready local remote t w)
unfolding send_ready
acknowledged local remote t w i = same_heap _ _ refl refl refl refl i

acknowledged-cell :
    (local remote t : ℕ) (w : State) (s : ℕ) → (send_ready local remote t w).cell s ≡ w.cell s
unfolding send_ready
acknowledged-cell local remote t w s = refl

-- OPEN makes a pair of sockets, or answers with CLSE.
handle_open-Safe :
    (service : Option ℕ) (remote t : ℕ) (w : State)
    → IsSound w
    → Safe (handle_open service remote t w)
unfolding handle_open
handle_open-Safe none remote t w i = (_, refl, unanswered remote t w i)
handle_open-Safe (some fd) remote t w i =
    let s = w.break in
    let v = create_local_socket fd w in
    let a = created fd w in
    let sound = create-IsSound fd w i in
    let e = create_self fd w i in
    let u = attach_remote remote t s a v in
    let (x, eq, ix) =
      ready_socket-Safe s (record a { peer = some v.break }) (send_ready a.id remote t u)
        (acknowledged a.id remote t u
          (attach-IsSound remote t s a v sound e refl (refl, refl, refl)))
        (acknowledged-cell a.id remote t u s
          ∙ attach_self remote t s a v sound e refl (refl, refl, refl))
        (refl, refl, refl) in
    (x, rw (e, handle_open) eq, ix)

-- A packet for a local socket acts on a live one of the list, or does nothing.
on_local-Safe :
    (id : ℕ) (f : ℕ → Asocket → State → Option State) (w : State)
    → IsSound w
    → ((s : ℕ) (a : Asocket) → w.cell s ≡ some a → IsLocal a → Safe (f s a w))
    → Safe (on_local id f w)
unfolding on_local find_local_socket
on_local-Safe id f w i h =
    elim (find_in-member id w.cell w.local_socket_list
      λ q m. let (a, e, l) = i.listed q m in (a, e)) [
        | inl absent ↦ (w, rw (absent, on_local), i)
        | inr (s, found, m) ↦
            let (a, e, l) = i.listed s m in
            let (v, eq, iv) = h s a e l in (v, rw (found, e, on_local) eq, iv)
      ]

okay_at-Safe :
    (remote t s : ℕ) (a : Asocket) (o : Option ℕ) (w : State)
    → IsSound w
    → w.cell s ≡ some a
    → IsLocal a
    → a.peer ≡ o
    → Safe (handle_okay_at remote t s a w)
unfolding handle_okay_at
okay_at-Safe remote t s a none w i e l h =
    let (v, eq, iv) =
      ready_socket-Safe s (record a { peer = some w.break }) (attach_remote remote t s a w)
        (attach-IsSound remote t s a w i e h l) (attach_self remote t s a w i e h l) l in
    (v, rw (h, handle_okay_at) eq, iv)
okay_at-Safe remote t s a (some p) w i e l h =
    let (v, eq, iv) = ready_socket-Safe s a w i e l in (v, rw (h, handle_okay_at) eq, iv)

clse_at-Safe :
    (s : ℕ) (a : Asocket) (w : State) → IsSound w → w.cell s ≡ some a → Safe (close_socket s w)
clse_at-Safe s a w i e = let (v, eq, iv, _) = close_socket-IsSound s a w i e in (v, eq, iv)

-- Data for a local socket.
module _ (ws : List Acceptance) (s : ℕ) (a : Asocket) (x : Bytes) (w : State) (i : IsSound w)
    (e : w.cell s ≡ some a) where
  Taken : Type 0
  Taken = (v : State) × (n : EnqueueResult) × (enqueue_local ws s a x w ≡ some (v, n)) × IsSound v

  abbrev written : State
  written = tell a.fd (gone x (flush_new ws x).left) w

  written-IsSound : IsSound written
  written-IsSound = same_heap w _ refl refl refl refl i

  queue-IsSound : (y : Bytes) (z : State) → IsSound z → z.cell s ≡ some a → IsSound (queue s a y z)
  queue-IsSound y z iz ez = store-IsSound s a _ z iz ez refl ((λ k. k), λ k. k)

  enqueue_backlog : is_empty a.pkts ≡ false → Taken
  unfolding Taken enqueue_local
  enqueue_backlog h = (queue s a x w, not_ready, rw h, queue-IsSound x w i e)

  enqueue_first : (k : FlushEnd) → (flush_new ws x).why ≡ k → is_empty a.pkts ≡ true → Taken
  unfolding Taken enqueue_local
  enqueue_first flushed k h = (written, ready_for_more, rw (h, k), written-IsSound)
  enqueue_first would_block k h =
      let y = (flush_new ws x).left in
      (queue s a y written, not_ready, rw (h, k), queue-IsSound y written written-IsSound e)
  enqueue_first broken k h =
      let (u, eu, iu) = clse_at-Safe s a written written-IsSound e in
      (u, not_ready, rw (h, k, eu), iu)

  enqueue-Safe : Taken
  enqueue-Safe = elim (Bool-cases (is_empty a.pkts)) [
    | inl empty ↦ enqueue_first (flush_new ws x).why refl empty
    | inr backlog ↦ enqueue_backlog backlog
  ]

-- The acknowledgement that follows.
answered :
    (ws : List Acceptance) (remote t : ℕ) (x : Bytes) (s : ℕ) (a : Asocket) (w v : State)
    (n : EnqueueResult)
    → enqueue_local ws s a x w ≡ some (v, n)
    → IsSound v
    → Safe (handle_wrte_at ws remote t x s a w)
unfolding handle_wrte_at
answered ws remote t x s a w v ready_for_more eq iv =
    (send_ready a.id remote t v, rw (eq, handle_wrte_at), acknowledged a.id remote t v iv)
answered ws remote t x s a w v not_ready eq iv = (v, rw (eq, handle_wrte_at), iv)
answered ws remote t x s a w v closed_both eq iv = (v, rw (eq, handle_wrte_at), iv)

wrte_at-Safe :
    (ws : List Acceptance) (remote t : ℕ) (x : Bytes) (s : ℕ) (a : Asocket) (w : State)
    → IsSound w
    → w.cell s ≡ some a
    → Safe (handle_wrte_at ws remote t x s a w)
unfolding Taken
wrte_at-Safe ws remote t x s a w i e =
    let (v, n, eq, iv) = enqueue-Safe ws s a x w i e in answered ws remote t x s a w v n eq iv

dispatch_packet-Safe : (t : ℕ) (p : Incoming) (w : State) → IsSound w → Safe (dispatch_packet t p w)
unfolding dispatch_packet handle_okay handle_clse handle_wrte
dispatch_packet-Safe t (open_packet service remote) w i = handle_open-Safe service remote t w i
dispatch_packet-Safe t (okay_packet remote local) w i =
    on_local-Safe local (handle_okay_at remote t) w i
      λ s a e l. okay_at-Safe remote t s a a.peer w i e l refl
dispatch_packet-Safe t (clse_packet remote local) w i =
    on_local-Safe local (λ s a v. close_socket s v) w i λ s a e l. clse_at-Safe s a w i e
dispatch_packet-Safe t (wrte_packet ws remote local x) w i =
    on_local-Safe local (handle_wrte_at ws remote t x) w i
      λ s a e l. wrte_at-Safe ws remote t x s a w i e

-- In a sound heap, no packet of the remote side, whatever its ids and data, and whatever the
-- writes of the descriptors give, makes `handle_packet` follow a dangling or a null pointer; the
-- heap that it leaves is sound again.
pub handle_packet-IsSound :
    (online : Bool) (t : ℕ) (p : Incoming) (w : State)
    → IsSound w
    → Safe (handle_packet online t p w)
unfolding handle_packet
handle_packet-IsSound true t p w i = dispatch_packet-Safe t p w i
handle_packet-IsSound false t p w i = (w, refl, i)

packets-Safe :
    (online : Bool) (t : ℕ) (ps : List Incoming) (w : State)
    → IsSound w
    → Safe (handle_packets online t ps w)
unfolding handle_packets
packets-Safe online t [] w i = (w, refl, i)
packets-Safe online t (p ∷ ps) w i =
    let (v, e, iv) = handle_packet-IsSound online t p w i in
    let (u, eq, iu) = packets-Safe online t ps v iv in (u, rw (e, handle_packets) eq, iu)

pub initial-IsSound : IsSound initial_state
unfolding member Distinct
initial-IsSound = record {
  fresh = λ q a e. cc;
  paired = λ q a p e h. cc;
  listed = λ q m. cc;
  waiting = λ q m. cc;
  once = record {};
}

-- From the state that the server starts in, no sequence of packets, whatever their ids and data, and
-- whatever services and writes give, leads to a dangling or a null pointer; the heap stays sound.
pub handle_packets-initial_state :
    (online : Bool) (t : ℕ) (ps : List Incoming) → Safe (handle_packets online t ps initial_state)
handle_packets-initial_state online t ps = packets-Safe online t ps initial_state initial-IsSound
