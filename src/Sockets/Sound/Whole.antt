-- ===== src/Sockets/Sound/Whole.antt =====
-- `local_socket_event_func` (ADBTestCE/adb/sockets.cpp) as a whole, and the invariant of the heap.
use adbtest_ce.Prelude.{
  Bool, Bool-cases, List, Option-cases, arith, false, inl, inr, none, not, refl, some, subst, sym,
  true, ℕ, ◌&&◌, ◌∙◌, ◌≡◌, ◌≢◌,
}
use adbtest_ce.Packet.{max_payload}
use adbtest_ce.Sockets.State.{Asocket, State, store}
use adbtest_ce.Sockets.Close.{then_close}
use adbtest_ce.Sockets.Serve.{
  FlushEnd, after_drain, broken, dispatch_ready, drain, event_write, flush_new, flushed,
  ready_socket, would_block,
}
use adbtest_ce.Sockets.Reading.{fill, is_flushed, local_socket_event_func, read_now}
use adbtest_ce.Io.{Acceptance, Arrival}
use adbtest_ce.Sockets.Serve.{
  after_drain, dispatch_ready, drain, event_write, flushed, ready_socket,
}
use adbtest_ce.Sockets.Sound.{IsSound}
use adbtest_ce.Sockets.Sound.Events.{event_write-IsSound, rest, resumes, wrote_out}
use adbtest_ce.Sockets.Sound.Reading.{Reaches, event_read-IsSound, ready-At, ready-OnlyAt}
use adbtest_ce.Sockets.State.{State, Asocket}
use adbtest_ce.Sockets.Requests.{Answers}
use adbtest_ce.Sockets.Sound.Store.{Safe}

some_same : {x y : ℕ} → some x ≡ some y → x ≡ y
some_same e = cc

-- The write half that goes on to the read half: the queue is empty, and the peer was called.
resumes_peer :
    (ws : List Acceptance) (s : ℕ) (a : Asocket) (p : ℕ) (w : State)
    → (drain ws a.pkts).end ≡ flushed
    → a.closing ≡ false
    → a.peer ≡ some p
    → event_write ws s a w
      ≡ ready_socket p (store s (record (rest ws s a w) { writes = false }) (wrote_out ws s a w))
unfolding event_write
resumes_peer ws s a p w d c h =
    let eq : event_write ws s a w ≡ after_drain s (rest ws s a w) (wrote_out ws s a w) =
      rw (d, event_write) in
    eq ∙ resumes s (rest ws s a w) p (wrote_out ws s a w) h c

-- A ready function leaves other sockets live.
ready-keeps :
    (p q : ℕ) (c : Asocket) (w v : State)
    → ready_socket p w ≡ some v
    → w.cell q ≡ some c
    → q ≢ p
    → v.cell q ≡ some c
unfolding ready_socket
ready-keeps p q c w v h e n = elim (Option-cases (w.cell p)) [
  | inl dead ↦ let no : none ≡ some v = sym (rw (dead, ready_socket)) ∙ h in cc
  | inr (b, live) ↦
      let eq : ready_socket p w ≡ dispatch_ready b.ready p b w = rw (live, ready_socket) in
      ready-OnlyAt b.ready p b w v q (sym eq ∙ h) n ∙ e
]

-- Nor does it change the function or the transport of the socket that is called.
ready-keeps_own :
    (p : ℕ) (b c : Asocket) (w v : State)
    → ready_socket p w ≡ some v
    → w.cell p ≡ some b
    → v.cell p ≡ some c
    → (c.enqueue ≡ b.enqueue) × (c.transport ≡ b.transport)
unfolding ready_socket
ready-keeps_own p b c w v h live e =
    let eq : ready_socket p w ≡ dispatch_ready b.ready p b w = rw (live, ready_socket) in
    ready-At b.ready p b c w v live (sym eq ∙ h) e

-- After such a write half, the socket is live.
module _ (ws : List Acceptance) (s p : ℕ) (a : Asocket) (w v : State) (i : IsSound w)
    (e : w.cell s ≡ some a) (h : a.peer ≡ some p) (d : (drain ws a.pkts).end ≡ flushed)
    (c₀ : a.closing ≡ false) where
  still_live :
      event_write ws s a w ≡ some v → v.cell s ≡ some (record (rest ws s a w) { writes = false })
  still_live eq =
      let (b, _, _, ne, _) = i.paired s a p e h in
      ready-keeps p s (record (rest ws s a w) { writes = false })
        (store s (record (rest ws s a w) { writes = false }) (wrote_out ws s a w)) v
        (sym (resumes_peer ws s a p w d c₀ h) ∙ eq) (ground arith) (λ z. ne (sym z))

  still-Reaches :
      (env : Answers)
      → Reaches env a w
      → event_write ws s a w ≡ some v
      → Reaches env (record (rest ws s a w) { writes = false }) v
  still-Reaches env there eq q c hq live smart t ht =
      let (b, e', _, ne, _) = i.paired s a p e h in
      let same : q ≡ p = some_same (sym hq ∙ h) in
      let (f, g) =
        ready-keeps_own p b c
          (store s (record (rest ws s a w) { writes = false }) (wrote_out ws s a w)) v
          (sym (resumes_peer ws s a p w d c₀ h) ∙ eq) (ground (arith, ne, e'))
          (subst (λ z. v.cell z ≡ some c) same live) in
      there p b h e' (sym f ∙ smart) t (sym g ∙ ht)

-- Both halves.
module _ (ws : List Acceptance) (env : Answers) (evs : List Arrival) (force_eof : Bool) (s : ℕ)
    (a : Asocket) (w : State) (i : IsSound w) (e : w.cell s ≡ some a)
    (alone : a.peer ≡ none → a.closing ≡ true) (there : Reaches env a w)
    (writes : (flush_new env.writes (fill evs max_payload).bytes).why ≢ broken) where
  both-Safe :
      (drain ws a.pkts).end ≡ flushed
      → a.closing ≡ false
      → Safe (then_close (event_write ws s a w) (read_now env evs force_eof s))
  both-Safe d c = elim (Option-cases a.peer) [
    | inl h ↦ let no : false ≡ true = sym c ∙ alone h in cc
    | inr (p, h) ↦
        let (v, eq, iv) = event_write-IsSound ws s a w i e alone in
        let live = still_live ws s p a w v i e h d c eq in
        let x = record (rest ws s a w) { writes = false } in
        let (u, eu, iu) =
          event_read-IsSound env evs force_eof s x v iv live (λ _ _ _ _ _. writes)
            (still-Reaches ws s p a w v i e h d c env there eq) in
        (u, rw (eq, then_close, live, read_now) eu, iu)
  ]

  flushed_so : (k : FlushEnd) → is_flushed k ≡ true → k ≡ flushed
  flushed_so flushed h = refl
  flushed_so would_block h = cc
  flushed_so broken h = cc

  writable-Safe :
      (readable : Bool) → Safe (local_socket_event_func true readable ws env evs force_eof s a w)
  unfolding local_socket_event_func
  writable-Safe readable =
      let on = is_flushed (drain ws a.pkts).end && not a.closing && readable in
      elim (Bool-cases (is_flushed (drain ws a.pkts).end && not a.closing && readable)) [
        | inl goes ↦
            let d = flushed_so (drain ws a.pkts).end (ground (arith, goes)) in
            rw goes (both-Safe d (ground (arith, goes)))
        | inr stops ↦ rw stops (event_write-IsSound ws s a w i e alone)
      ]

  event_func-Safe :
      (writable readable : Bool)
      → Safe (local_socket_event_func writable readable ws env evs force_eof s a w)
  unfolding local_socket_event_func
  event_func-Safe true readable = writable-Safe readable
  event_func-Safe false true =
      event_read-IsSound env evs force_eof s a w i e (λ _ _ _ _ _. writes) there
  event_func-Safe false false = (w, refl, i)

-- An event of a live socket of a sound heap, where the socket has a peer or is closing, no write to a
-- local peer fails, and the transport of a smart peer, if it has one, was not freed: whichever of the two bits are set and whatever the descriptors and the rest
-- of the server answer, `local_socket_event_func` meets no bad pointer and leaves a sound heap.
pub local_socket_event_func-IsSound :
    (writable readable : Bool) (ws : List Acceptance) (env : Answers) (evs : List Arrival)
    (force_eof : Bool) (s : ℕ) (a : Asocket) (w : State)
    → IsSound w
    → w.cell s ≡ some a
    → (a.peer ≡ none → a.closing ≡ true)
    → (flush_new env.writes (fill evs max_payload).bytes).why ≢ broken
    → Reaches env a w
    → Safe (local_socket_event_func writable readable ws env evs force_eof s a w)
local_socket_event_func-IsSound writable readable ws env evs force_eof s a w i e alone writes
      there =
    event_func-Safe ws env evs force_eof s a w i e alone there writes writable readable
