-- ===== src/Sockets/Sound/Shutdown.antt =====
-- `run_transport_disconnects` (ADBTestCE/adb/transport.cpp) and the invariant of the heap.
use mathlib.Core.Path.{subst}
use adbtest_ce.Prelude.{
  Bool-cases, List, Option, [], arith, false, inl, inr, none, refl, some, sym, true, ℕ, ◌==◌, ◌∙◌,
  ◌∷◌, ◌≡◌, ◌≢◌,
}
use adbtest_ce.Sockets.State.{Asocket, Distinct, State, member}
use adbtest_ce.Sockets.Close.{close_peer, close_within, remote_socket_disconnect, then_close}
use adbtest_ce.Sockets.Shutdown.{
  disconnects_at, run_disconnects, run_transport_disconnects, socket_is_at,
}
use adbtest_ce.Sockets.Sound.{HasClosed, IsLocal, IsRemote, IsSound}
use adbtest_ce.Sockets.Sound.Disconnect.{disconnect_eq, forgotten, remote_socket_disconnect-IsSound}
use adbtest_ce.Sockets.Sound.Requests.{local_ne_remote}

disconnects_at-member :
    (t : ℕ) (cell : ℕ → Option Asocket) (q : ℕ) (l : List ℕ)
    → member q (disconnects_at t cell l) ≡ true
    → member q l ≡ true
unfolding disconnects_at member
disconnects_at-member t cell q [] m = m
disconnects_at-member t cell q (s ∷ l) m = ground (arith, disconnects_at-member t cell q l)

disconnects_at-Distinct :
    (t : ℕ) (cell : ℕ → Option Asocket) (l : List ℕ)
    → Distinct l
    → Distinct (disconnects_at t cell l)
unfolding disconnects_at Distinct
disconnects_at-Distinct t cell [] d = d
disconnects_at-Distinct t cell (s ∷ l) d = elim (Bool-cases (socket_is_at t (cell s))) [
  | inl at ↦ rw at ((absent, disconnects_at-Distinct t cell l d.1))
  | inr other ↦ rw other (disconnects_at-Distinct t cell l d.1)
]
  where
    absent : member s (disconnects_at t cell l) ≡ false
    absent = elim (Bool-cases (member s (disconnects_at t cell l))) [
      | inl there ↦
          let m = disconnects_at-member t cell s l there in
          let no : true ≡ false = sym m ∙ d.0 in cc
      | inr gone ↦ gone
    ]

-- The callback frees its socket.
disconnect_frees :
    (s : ℕ) (a : Asocket) (w v : State)
    → w.cell s ≡ some a
    → remote_socket_disconnect s w ≡ some v
    → v.cell s ≡ none
disconnect_frees s a w v e h =
    freed (close_peer (close_within 1) a.peer w) (sym (disconnect_eq s a w e) ∙ h)
  where
    freed : (m : Option State) → then_close m (forgotten s) ≡ some v → v.cell s ≡ none
    freed none k = cc
    freed (some u) k = ground (arith, k)

-- Two remote sockets are not each other's peer.
remote_apart :
    (s q : ℕ) (a b : Asocket) (w : State)
    → IsSound w
    → w.cell s ≡ some a
    → IsRemote a
    → a.peer ≡ some q
    → w.cell q ≡ some b
    → IsRemote b
    → ⊥
remote_apart s q a b w i e r h eb rb =
    let (c, ec, _, _, one) = i.paired s a q e h in
    let same : c ≡ b = cc in
    elim one [
      | inl la ↦ local_ne_remote a la r
      | inr lc ↦ local_ne_remote b (subst IsLocal same lc) rb
    ]

-- The walk: the sockets of the list are live remote ones, each once.
abbrev Waiting : State → List ℕ → Type 0
Waiting w l =
    Distinct l × ((q : ℕ) → member q l ≡ true → (a : Asocket) × (w.cell q ≡ some a) × IsRemote a)

-- A socket that is dead stays dead.
stays_dead :
    (s q : ℕ) (a : Asocket) (w v : State)
    → IsSound w
    → w.cell s ≡ some a
    → HasClosed s a w v
    → q ≢ s
    → w.cell q ≡ none
    → v.cell q ≡ none
stays_dead s q a w v i e h n dead =
    h.others q n (λ k.
      let (b, eb, _, _, _) = i.paired s a q e k in let no : none ≡ some b = sym dead ∙ eb in cc)
    ∙ dead

walk :
    (l : List ℕ) (w : State)
    → IsSound w
    → Waiting w l
    → (v : State) × (run_disconnects l w ≡ some v)
      × IsSound v
      × ((q : ℕ) → member q l ≡ true → v.cell q ≡ none)
      × ((q : ℕ) → member q l ≡ false → w.cell q ≡ none → v.cell q ≡ none)
unfolding run_disconnects member Distinct
walk [] w i k = (w, refl, i, (λ q m. cc), λ q m dead. dead)
walk (s ∷ l) w i (d, k) =
    let (a, e, r) = k s (ground arith) in
    let (v, eq, iv, closed) = remote_socket_disconnect-IsSound s a w i e r.0 in
    let dead = disconnect_frees s a w v e eq in
    let (u, eu, iu, all, others) = walk l v iv (d.1, λ q m. kept a e r v closed q m) in
    (
      u,
      rw (eq, then_close) eu,
      iu,
      (λ q m. elim (Bool-cases (q == s)) [
        | inl at ↦ ground (arith, others s d.0 dead)
        | inr other ↦ all q (ground (arith, m))
      ]),
      λ q m no.
          others q (ground (arith, m)) (stays_dead s q a w v i e closed (ground (arith, m)) no),
    )
  where
    kept :
        (a : Asocket)
        → w.cell s ≡ some a
        → IsRemote a
        → (v : State) → HasClosed s a w v
        → (q : ℕ) → member q l ≡ true
        → (b : Asocket) × (v.cell q ≡ some b) × IsRemote b
    kept a e r v closed q m =
        let (b, eb, rb) = k q (ground (arith, m)) in
        let n : q ≢ s = λ at. ground (arith, at, m, d.0) in
        (b, closed.others q n (λ h. remote_apart s q a b w i e r h eb rb) ∙ eb, rb)

-- When a transport of a sound heap goes offline, the walk over its remote sockets meets no bad
-- pointer, though each callback frees its node and may close a local socket. Afterwards the heap is
-- sound, and every remote socket that waited for that transport is freed.
pub run_transport_disconnects-IsSound :
    (t : ℕ) (w : State)
    → IsSound w
    → (v : State) × (run_transport_disconnects t w ≡ some v)
      × IsSound v
      × ((q : ℕ) → member q (disconnects_at t w.cell w.disconnects) ≡ true → v.cell q ≡ none)
unfolding run_transport_disconnects
run_transport_disconnects-IsSound t w i =
    let l = disconnects_at t w.cell w.disconnects in
    let (v, eq, iv, all, _) = walk l w i (
      disconnects_at-Distinct t w.cell w.disconnects i.once,
      λ q m. i.waiting q (disconnects_at-member t w.cell q w.disconnects m),
    ) in
    (v, eq, iv, all)
