-- ===== src/Sockets/Sound/Broken.antt =====
-- The read half of `local_socket_event_func` (ADBTestCE/adb/sockets.cpp) for a socket whose peer is a
-- local socket too.
use mathlib.Core.Path.{subst}
use adbtest_ce.Prelude.{
  Bool, Bytes, List, ap, arith, none, refl, some, subst, suc, sym, true, ℕ, ◌∙◌, ◌∷◌, ◌≡◌, ◌≢◌,
}
use adbtest_ce.Sockets.State.{Asocket, State, local_socket_close, local_socket_enqueue, store, tell}
use adbtest_ce.Sockets.Close.{
  close_peer, close_self, close_socket, close_within, dispatch_close, is_empty,
  local_socket_close_locked, settle, then_close,
}
use adbtest_ce.Io.{Acceptance, Arrival}
use adbtest_ce.Packet.{max_payload}
use adbtest_ce.Sockets.Reading.{after_enqueue, dispatch_enqueue, event_read, fill, pass_on}
use adbtest_ce.Sockets.Reading.{event_read, pass_on, dispatch_enqueue, after_enqueue}
use adbtest_ce.Sockets.Requests.{Answers}
use adbtest_ce.Sockets.Serve.{EnqueueResult, broken, enqueue_local, flush_new, gone, not_ready}
use adbtest_ce.Sockets.Sound.{IsSound}

settle_freed :
    (s : ℕ) (a : Asocket) (w : State) → is_empty a.pkts ≡ true → (settle s a w).cell s ≡ none
unfolding settle
settle_freed s a w h = ground (arith, h)

settle_other : (s q : ℕ) (a : Asocket) (w : State) → q ≢ s → (settle s a w).cell q ≡ w.cell q
unfolding settle
settle_other s q a w n = ground (arith, n)

within_local :
    (depth s : ℕ) (c : Asocket) (w : State)
    → w.cell s ≡ some c
    → c.close ≡ local_socket_close
    → close_within (suc depth) s w
      ≡ then_close (close_peer (close_within depth) c.peer w) (close_self s)
unfolding close_within dispatch_close local_socket_close_locked
within_local depth s c w e f =
    let eq : close_within (suc depth) s w ≡ dispatch_close (close_within depth) c.close s c w =
      rw (e, close_within) refl in
    eq ∙ ap (λ k. dispatch_close (close_within depth) k s c w) f

-- `close_self`, where the socket is live.
self_settles :
    (s : ℕ) (c : Asocket) (w : State)
    → w.cell s ≡ some c
    → close_self s w
      ≡ some (settle s (record c { peer = none }) (store s (record c { peer = none }) w))
self_settles s c w e = rw (e, close_self) refl

-- Two local sockets, the first one with an empty queue; the second one closes.
module _ (s p : ℕ) (a b : Asocket) (w : State) (e : w.cell s ≡ some a) (e' : w.cell p ≡ some b)
    (hb : b.peer ≡ some s) (ne : p ≢ s) (f : a.close ≡ local_socket_close)
    (f' : b.close ≡ local_socket_close) (h : is_empty a.pkts ≡ true) where
  abbrev lone : Asocket
  lone = record a { peer = none }

  abbrev detached : State
  detached = store s lone w

  abbrev peerless : State
  peerless = settle s lone (store s lone detached)

  peer_closes : close_peer (close_within 1) (some s) w ≡ some peerless
  peer_closes =
      let es : detached.cell s ≡ some lone = ground arith in
      let eq : close_peer (close_within 1) (some s) w ≡ close_within 1 s detached =
        rw (e, close_peer) refl in
      eq ∙ within_local 0 s lone detached es f ∙ self_settles s lone detached es

  peer_freed : (v : State) × (close_socket p w ≡ some v) × (v.cell s ≡ none)
  unfolding close_socket
  peer_freed =
      let u = peerless in
      let ep : u.cell p ≡ some b =
        settle_other s p lone (store s lone detached) ne ∙ ground (arith, e', ne) in
      let c : Asocket = record b { peer = none } in
      (
        settle p c (store p c u),
        within_local 1 p b w e' f'
            ∙ ap (λ o. then_close (close_peer (close_within 1) o w) (close_self p)) hb
            ∙ ap (λ o. then_close o (close_self p)) peer_closes
            ∙ self_settles p b u ep,
        settle_other p s c (store p c u) (λ z. ne (sym z))
            ∙ ground (arith, ne, settle_freed s lone (store s lone detached) h),
      )

freed_stops :
    (force_eof is_eof : Bool) (s : ℕ) (u : State)
    → u.cell s ≡ none
    → after_enqueue force_eof is_eof s (u, not_ready) ≡ none
unfolding after_enqueue
freed_stops force_eof is_eof s u e = rw (e, after_enqueue) refl

pass_on_eq :
    (env : Answers) (force_eof is_eof : Bool) (s p : ℕ) (b : Asocket) (x : Bytes) (w u : State)
    (n : EnqueueResult)
    → w.cell p ≡ some b
    → dispatch_enqueue b.enqueue env p b x w ≡ some (u, n)
    → pass_on env force_eof is_eof s p x w ≡ after_enqueue force_eof is_eof s (u, n)
unfolding pass_on
pass_on_eq env force_eof is_eof s p b x w u n e q = rw (e, pass_on, q) refl

enqueue_eq :
    (ws : List Acceptance) (p : ℕ) (b : Asocket) (x : Bytes) (w u : State)
    → is_empty b.pkts ≡ true
    → (flush_new ws x).why ≡ broken
    → close_socket p (tell b.fd (gone x (flush_new ws x).left) w) ≡ some u
    → enqueue_local ws p b x w ≡ some (u, not_ready)
unfolding enqueue_local
enqueue_eq ws p b x w u m k q = rw (m, enqueue_local, k, q, then_close) refl

-- A live local socket with an empty queue reads bytes for a local peer with an empty queue, and the
-- peer's descriptor refuses them: `local_socket_enqueue` closes the peer, which frees the reader, and
-- gives 1, "not ready"; `local_socket_event_func` then goes on with the freed socket.
pub event_read-freed :
    (env : Answers) (evs : List Arrival) (force_eof : Bool) (s p : ℕ) (a b : Asocket) (c : ℕ)
    (x : Bytes) (w : State)
    → IsSound w
    → w.cell s ≡ some a
    → w.cell p ≡ some b
    → a.peer ≡ some p
    → a.close ≡ local_socket_close
    → b.close ≡ local_socket_close
    → b.enqueue ≡ local_socket_enqueue
    → is_empty a.pkts ≡ true
    → is_empty b.pkts ≡ true
    → (fill evs max_payload).bytes ≡ c ∷ x
    → (flush_new env.writes (c ∷ x)).why ≡ broken
    → event_read env evs force_eof s a w ≡ none
unfolding event_read dispatch_enqueue
event_read-freed env evs force_eof s p a b c x w i e e' h f f' q m m' r k =
    let (b', eb, hb, ne, _) = i.paired s a p e h in
    let same : b' ≡ b = cc in
    let v = tell b.fd (gone (c ∷ x) (flush_new env.writes (c ∷ x)).left) w in
    let (u, eu, freed) =
      peer_freed s p a b v e e' (subst (λ z. z.peer ≡ some s) same hb) ne f f' m in
    let is_eof = (fill evs max_payload).is_eof in
    let sent : dispatch_enqueue b.enqueue env p b (c ∷ x) w ≡ some (u, not_ready) =
      ap (λ g. dispatch_enqueue g env p b (c ∷ x) w) q
      ∙ enqueue_eq env.writes p b (c ∷ x) w u m' k eu in
    let stop : pass_on env force_eof is_eof s p (fill evs max_payload).bytes w ≡ none =
      ap (λ y. pass_on env force_eof is_eof s p y w) r
      ∙ pass_on_eq env force_eof is_eof s p b (c ∷ x) w u not_ready e' sent
      ∙ freed_stops force_eof is_eof s u freed in
    rw (r, event_read, h) stop
