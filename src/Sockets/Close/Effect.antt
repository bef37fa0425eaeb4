-- ===== src/Sockets/Close/Effect.antt =====
-- The close functions of ADBTestCE/adb/sockets.cpp and their effect on the heap.
use mathlib.Core.Path.{subst}
use adbtest_ce.Prelude.{
  Bool, List, Option, arith, false, none, refl, some, suc, sym, true, ℕ, ◌∙◌, ◌≡◌, ◌≢◌,
}
use adbtest_ce.Sockets.State.{
  Asocket, CloseFunc, Distinct, Distinct-remove, Outgoing, State, free, local_socket_close,
  local_socket_close_notify, local_socket_ready, member, member-remove, member_ne,
  remote_socket_close, remove, send, smart_socket_close, store, tell,
}
use adbtest_ce.Sockets.Close.{
  close_peer, close_self, close_within, closed_text, dispatch_close, local_socket_close_locked,
  settle, then_close,
}

-- The socket is gone, or it is closing and has no peer.
abbrev pub IsClosed : Option Asocket → Type 0
IsClosed none = Unit
IsClosed (some a) = (a.peer ≡ none) × (a.closing ≡ true)

-- All sockets but `s` are as they were.
abbrev pub OnlyAt : ℕ → State → State → Type 0
OnlyAt s w v = ((q : ℕ) → q ≢ s → v.cell q ≡ w.cell q) × (v.break ≡ w.break)

settle-IsClosed :
    (s : ℕ) (a : Asocket) (w : State) → a.peer ≡ none → IsClosed ((settle s a w).cell s)
unfolding settle
settle-IsClosed s a w h = ground arith

settle-OnlyAt : (s : ℕ) (a : Asocket) (w : State) → OnlyAt s w (settle s a w)
unfolding settle
settle-OnlyAt s a w = ((λ q ne. ground arith), ground arith)

abbrev pub is_local : CloseFunc → Bool
is_local local_socket_close = true
is_local local_socket_close_notify = true
is_local _ = false

abbrev pub is_remote : CloseFunc → Bool
is_remote remote_socket_close = true
is_remote _ = false

-- No socket joins a list, and one that leaves it does so if its close function is such.
abbrev pub Shrinks : (State → List ℕ) → Bool → ℕ → State → State → Type 0
Shrinks list leaves s w v =
    (q : ℕ) → member q (list v) ≡ true → (member q (list w) ≡ true) × (leaves ≡ true → q ≢ s)

abbrev pub listed_of : State → List ℕ
listed_of w = w.local_socket_list

abbrev pub waiting_of : State → List ℕ
waiting_of w = w.disconnects

-- A socket `s` with the close function `f` leaves the list of local sockets, or that of those which
-- wait for their transport.
abbrev pub Unlists : CloseFunc → ℕ → State → State → Type 0
Unlists f s w v =
    Shrinks listed_of (is_local f) s w v
    × Shrinks waiting_of (is_remote f) s w v
    × (Distinct w.disconnects → Distinct v.disconnects)

pub Unlists-same :
    (f : CloseFunc) (s : ℕ) (w v : State)
    → v.local_socket_list ≡ w.local_socket_list
    → v.disconnects ≡ w.disconnects
    → is_local f ≡ false
    → is_remote f ≡ false
    → Unlists f s w v
Unlists-same f s w v l d no_local no_remote =
    ((λ q h. (rw (← l) h, λ e. cc)), (λ q h. (rw (← d) h, λ e. cc)), λ k. rw d k)

pub Unlists-forgets :
    (s : ℕ) (w v : State)
    → v.local_socket_list ≡ w.local_socket_list
    → v.disconnects ≡ remove s w.disconnects
    → Unlists remote_socket_close s w v
Unlists-forgets s w v l d = (
  (λ q h. (rw (← l) h, λ e. cc)),
  (λ q h. let (old, ne) = member-remove s q w.disconnects (rw d at h) in (old, λ _. ne)),
  λ k. rw d (Distinct-remove s w.disconnects k),
)

settle-Unlists :
    (s : ℕ) (a : Asocket) (w : State) (q : ℕ)
    → member q (settle s a w).local_socket_list ≡ true
    → (member q w.local_socket_list ≡ true) × (q ≢ s)
unfolding settle
settle-Unlists s a w q h =
    ground (arith, member-remove s q w.local_socket_list, member_ne s q w.local_socket_list)

settle-disconnects : (s : ℕ) (a : Asocket) (w : State) → (settle s a w).disconnects ≡ w.disconnects
unfolding settle
settle-disconnects s a w = ground arith

-- The call `m` on `w` gives a state in which `s` is closed, and nothing else has changed.
abbrev pub Closes : CloseFunc → ℕ → State → Option State → Type 0
Closes f s w m = (v : State) × (m ≡ some v) × IsClosed (v.cell s) × OnlyAt s w v × Unlists f s w v

-- The same with a second socket `p`.
abbrev pub ClosesPair : CloseFunc → CloseFunc → ℕ → ℕ → State → Option State → Type 0
ClosesPair f f' s p w m =
    (v : State) × (m ≡ some v)
    × IsClosed (v.cell s)
    × IsClosed (v.cell p)
    × ((q : ℕ) → q ≢ s → q ≢ p → v.cell q ≡ w.cell q)
    × (v.break ≡ w.break)
    × Unlists f s w v
    × Unlists f' p w v

close_self-Closes :
    (s : ℕ) (a : Asocket) (w : State)
    → w.cell s ≡ some a
    → Closes local_socket_close s w (close_self s w)
close_self-Closes s a w e =
    let b = record a { peer = none } in
    let (same, brk) = settle-OnlyAt s b (store s b w) in
    (
      settle s b (store s b w),
      rw (e, close_self),
      settle-IsClosed s b (store s b w) refl,
      ((λ q ne. same q ne ∙ ground arith), brk),
      (
        (λ q h. let (old, other) = settle-Unlists s b (store s b w) q h in (old, λ _. other)),
        (λ q h. (rw (← settle-disconnects s b (store s b w)) h, λ z. cc)),
        λ k. rw (settle-disconnects s b (store s b w)) k,
      ),
    )

pub free-Closes :
    (f : CloseFunc) (s : ℕ) (w v : State)
    → OnlyAt s w v
    → Unlists f s w v
    → Closes f s w (some (free s v))
free-Closes f s w v o un =
    (free s v, refl, ground arith, ((λ q ne. ground (arith, o.0 q ne)), o.1), un)

-- A remote socket says CLSE, forgets its transport and is freed.
remote-Closes :
    (p : Outgoing) (s : ℕ) (w : State)
    → Closes remote_socket_close s w
        (some (free s (record (send p w) { disconnects = remove s w.disconnects })))
remote-Closes p s w =
    let v : State = record (send p w) { disconnects = remove s w.disconnects } in
    free-Closes remote_socket_close s w v ((λ q ne. refl), refl) (Unlists-forgets s w v refl refl)

-- What the notifying socket is before it closes.
abbrev renewed : Asocket → Asocket
renewed a = record a { ready = local_socket_ready; close = local_socket_close }

abbrev notified : ℕ → Asocket → State → State
notified s a w = tell a.fd closed_text (store s (renewed a) w)

notified-cell : (s : ℕ) (a : Asocket) (w : State) → (notified s a w).cell s ≡ some (renewed a)
notified-cell s a w = ground arith

-- A socket with no peer closes by itself, whatever its close function.
pub dispatch_alone :
    (f : CloseFunc) (call : ℕ → State → Option State) (s : ℕ) (a : Asocket) (w : State)
    → w.cell s ≡ some a
    → a.peer ≡ none
    → Closes f s w (dispatch_close call f s a w)
unfolding dispatch_close local_socket_close_locked
dispatch_alone local_socket_close call s a w e h = rw h (close_self-Closes s a w e)
dispatch_alone local_socket_close_notify call s a w e h =
    let (v, eq, cl, (same, brk), un) =
      close_self-Closes s (renewed a) (notified s a w) (notified-cell s a w) in
    subst
      (λ o.
        Closes local_socket_close_notify s w
          (then_close (close_peer call o (notified s a w)) (close_self s)))
      (sym h) (v, eq, cl, ((λ q ne. same q ne ∙ ground arith), brk), un)
dispatch_alone remote_socket_close call s a w e h = rw h (remote-Closes _ s w)
dispatch_alone smart_socket_close call s a w e h = rw h (
    free-Closes smart_socket_close s w w ((λ q ne. refl), refl)
      (Unlists-same smart_socket_close s w w refl refl refl refl))

pub close_alone :
    (depth s : ℕ) (a : Asocket) (w : State)
    → w.cell s ≡ some a
    → a.peer ≡ none
    → Closes a.close s w (close_within (suc depth) s w)
unfolding close_within
close_alone depth s a w e h =
    rw (e, close_within) (dispatch_alone a.close (close_within depth) s a w e h)

-- With a peer: the peer closes by itself first, then the rest `f` sees the socket as it was.
module _ (k : CloseFunc) (f : State → Option State) (s p : ℕ) (b : Asocket) (w : State) (ne : p ≢ s)
    (e : w.cell p ≡ some b) where
  pub pair_Closes :
      ((v : State) → OnlyAt p w v → Closes k s v (f v))
      → ClosesPair k b.close s p w (then_close (close_peer (close_within 1) (some p) w) f)
  pair_Closes rest =
      let d = record b { peer = none } in
      let u = store p d w in
      let (v, eq, cl, (same, brk), un) = close_alone 0 p d u (ground arith) refl in
      let (x, eq', cl', (same', brk'), un') = rest v ((λ q n. same q n ∙ ground arith), brk) in
      (
        x,
        rw (e, close_peer, eq, then_close) eq',
        cl',
        rw (same' p ne) cl,
        (λ q n m. same' q n ∙ same q m ∙ ground arith),
        brk' ∙ brk,
        (
          (λ q h. ((un.0 q (un'.0 q h).0).0, (un'.0 q h).1)),
          (λ q h. ((un.1 q (un'.1 q h).0).0, (un'.1 q h).1)),
          λ k. un'.2 (un.2 k),
        ),
        ((λ q h. un.0 q (un'.0 q h).0), (λ q h. un.1 q (un'.1 q h).0), λ k. un'.2 (un.2 k)),
      )

module _ (s p : ℕ) (a b : Asocket) (w : State) (ne : p ≢ s) (h : a.peer ≡ some p)
    (e : w.cell s ≡ some a) (e' : w.cell p ≡ some b) where
  pub dispatch_pair :
      (f : CloseFunc) → ClosesPair f b.close s p w (dispatch_close (close_within 1) f s a w)
  unfolding dispatch_close local_socket_close_locked
  dispatch_pair local_socket_close = rw h (
      pair_Closes local_socket_close (close_self s) s p b w ne e'
        (λ v o. close_self-Closes s a v (o.0 s (λ q. ne (sym q)) ∙ e)))
  dispatch_pair local_socket_close_notify =
      let u = notified s a w in
      let (v, eq, cl, cl', same, brk, un, un') =
        pair_Closes local_socket_close (close_self s) s p b u ne (ground (arith, e')) (λ v o.
          close_self-Closes s (renewed a) v (o.0 s (λ q. ne (sym q)) ∙ notified-cell s a w)) in
      subst
        (λ o.
          ClosesPair local_socket_close_notify b.close s p w
            (then_close (close_peer (close_within 1) o (notified s a w)) (close_self s)))
        (sym h) (v, eq, cl, cl', (λ q n m. same q n m ∙ ground arith), brk, un, un')
  dispatch_pair remote_socket_close =
      rw h (pair_Closes remote_socket_close _ s p b w ne e' (λ v o. remote-Closes _ s v))
  dispatch_pair smart_socket_close = rw h (
      pair_Closes smart_socket_close _ s p b w ne e' (λ v o.
        free-Closes smart_socket_close s v v ((λ q n. refl), refl)
          (Unlists-same smart_socket_close s v v refl refl refl refl)))

  pub close_pair : ClosesPair a.close b.close s p w (close_within 2 s w)
  unfolding close_within
  close_pair = rw (e, close_within) (dispatch_pair a.close)
