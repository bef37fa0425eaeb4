-- ===== src/Sockets/Sound/Disconnect.antt =====
-- `remote_socket_disconnect` of ADBTestCE/adb/sockets.cpp and the invariant of the heap.
use mathlib.Core.Path.{subst}
use adbtest_ce.Prelude.{Option, Option-cases, ap, inl, inr, none, refl, some, sym, ℕ, ◌∙◌, ◌≡◌}
use adbtest_ce.Sockets.State.{Asocket, State, free, remote_socket_close, remove}
use adbtest_ce.Sockets.Close.{close_peer, close_within, remote_socket_disconnect, then_close}
use adbtest_ce.Sockets.Close.Effect.{
  Closes, IsClosed, Unlists, Unlists-forgets, free-Closes, pair_Closes,
}
use adbtest_ce.Sockets.Sound.{HasClosed, IsSound, alone-IsSound, only_peer, pair-IsSound}

-- The end of the callback.
abbrev pub forgotten : ℕ → State → Option State
forgotten s v = some (free s (record v { disconnects = remove s v.disconnects }))

forgotten-Closes : (s : ℕ) (w : State) → Closes remote_socket_close s w (forgotten s w)
forgotten-Closes s w =
    let v : State = record w { disconnects = remove s w.disconnects } in
    free-Closes remote_socket_close s w v ((λ q ne. refl), refl) (Unlists-forgets s w v refl refl)

pub disconnect_eq :
    (s : ℕ) (a : Asocket) (w : State)
    → w.cell s ≡ some a
    → remote_socket_disconnect s w ≡ then_close (close_peer (close_within 1) a.peer w) (forgotten s)
unfolding remote_socket_disconnect
disconnect_eq s a w e = rw (e, remote_socket_disconnect)

module _ (s : ℕ) (a : Asocket) (w : State) (i : IsSound w) (e : w.cell s ≡ some a)
    (l : a.close ≡ remote_socket_close) where
  disconnect_alone :
      a.peer ≡ none
      → (v : State) × (remote_socket_disconnect s w ≡ some v) × IsSound v × HasClosed s a w v
  disconnect_alone h =
      let (v, eq, c, o, un) = forgotten-Closes s w in
      let call : remote_socket_disconnect s w ≡ forgotten s w =
        disconnect_eq s a w e
        ∙ ap (λ o. then_close (close_peer (close_within 1) o w) (forgotten s)) h in
      (
        v,
        call ∙ eq,
        alone-IsSound s a w v i e h c o (subst (λ b. Unlists b s w v) (sym l) un),
        record { closed = c; peer_closed = λ p hp. cc; others = λ q n m. o.0 q n },
      )

  disconnect_pair :
      (p : ℕ)
      → a.peer ≡ some p
      → (v : State) × (remote_socket_disconnect s w ≡ some v) × IsSound v × HasClosed s a w v
  disconnect_pair p h =
      let (b, e', h', ne, _) = i.paired s a p e h in
      let (v, eq, c, c', same, brk, un, un') =
        pair_Closes remote_socket_close (forgotten s) s p b w ne e' (λ v o. forgotten-Closes s v) in
      let call =
        disconnect_eq s a w e
        ∙ ap (λ o. then_close (close_peer (close_within 1) o w) (forgotten s)) h in
      (
        v,
        call ∙ eq,
        pair-IsSound s p a b w v i e h e' c c' same brk (subst (λ b. Unlists b s w v) (sym l) un)
            un',
        record {
          closed = c;
          peer_closed = λ r hr. subst (λ z. IsClosed (v.cell z)) (only_peer a a p r refl h hr) c';
          others = λ q n m. same q n (λ at. m (rw (h, at)));
        },
      )

-- When the transport of a live remote socket of a sound heap goes away, the callback meets no bad
-- pointer. Afterwards the heap is sound; the socket and its peer are freed, or closing with no peer;
-- every other socket is as it was.
pub remote_socket_disconnect-IsSound :
    (s : ℕ) (a : Asocket) (w : State)
    → IsSound w
    → w.cell s ≡ some a
    → a.close ≡ remote_socket_close
    → (v : State) × (remote_socket_disconnect s w ≡ some v) × IsSound v × HasClosed s a w v
remote_socket_disconnect-IsSound s a w i e r = elim (Option-cases a.peer) [
  | inl h ↦ disconnect_alone s a w i e r h
  | inr (p, h) ↦ disconnect_pair s a w i e r p h
]
