-- ===== src/Sockets/Sound.antt =====
-- The invariant of the heap of sockets (ADBTestCE/adb/sockets.cpp), and closing.
pub mod Store
pub mod Attach
pub mod Detach
pub mod Requests
pub mod Answers
pub mod Reading
pub mod Shutdown
pub mod CloseAll
pub mod Whole
pub mod Server
pub mod Reach
pub mod Online
pub mod Broken
pub mod Packets
pub mod Events
pub mod Disconnect
use mathlib.Core.Path.{subst}
use adbtest_ce.Prelude.{
  ==_iff, Bool, Bool-cases, Option, arith, false, inl, inr, none, refl, some, sym, true, ℕ, ◌<◌,
  ◌==◌, ◌∙◌, ◌≡◌, ◌≢◌, ◌⊎◌,
}
use adbtest_ce.Sockets.State.{
  Asocket, Distinct, ReadyFunc, State, local_socket_enqueue, local_socket_ready,
  local_socket_ready_notify, member, remote_socket_close, remote_socket_ready,
}
use adbtest_ce.Sockets.Close.Effect.{
  IsClosed, OnlyAt, Unlists, close_alone, close_pair, is_local, is_remote,
}
use adbtest_ce.Sockets.Close.{close_socket, close_within}

abbrev pub is_local_ready : ReadyFunc → Bool
is_local_ready local_socket_ready = true
is_local_ready local_socket_ready_notify = true
is_local_ready _ = false

-- A socket over a descriptor, with one of the two ready and close functions of such.
abbrev pub IsLocal : Asocket → Type 0
IsLocal a =
    (is_local a.close ≡ true) × (is_local_ready a.ready ≡ true) × (a.enqueue ≡ local_socket_enqueue)

abbrev pub IsRemote : Asocket → Type 0
IsRemote a = (a.close ≡ remote_socket_close) × (a.ready ≡ remote_socket_ready)

-- Pointers lie below the break; peers point at each other, and one of them is local; the list of local sockets holds live
-- sockets, which are closed and fed as local sockets are; live remote sockets wait for transports,
-- each once.
pub record IsSound (w : State) : Type 0 where
  pub fresh : (q : ℕ) (a : Asocket) → w.cell q ≡ some a → q < w.break
  pub paired :
      (q : ℕ) (a : Asocket) (p : ℕ)
      → w.cell q ≡ some a
      → a.peer ≡ some p
      → (b : Asocket) × (w.cell p ≡ some b) × (b.peer ≡ some q) × (p ≢ q) × (IsLocal a ⊎ IsLocal b)
  pub listed :
      (q : ℕ)
      → member q w.local_socket_list ≡ true
      → (a : Asocket) × (w.cell q ≡ some a) × IsLocal a
  pub waiting :
      (q : ℕ) → member q w.disconnects ≡ true → (a : Asocket) × (w.cell q ≡ some a) × IsRemote a
  pub once : Distinct w.disconnects

-- After a call that closes `s`.
pub record HasClosed (s : ℕ) (a : Asocket) (w v : State) : Type 0 where
  pub closed : IsClosed (v.cell s)
  pub peer_closed : (p : ℕ) → a.peer ≡ some p → IsClosed (v.cell p)
  pub others : (q : ℕ) → q ≢ s → a.peer ≢ some q → v.cell q ≡ w.cell q

IsClosed-peer :
    (o : Option Asocket) (a : Asocket) (p : ℕ) → IsClosed o → o ≡ some a → a.peer ≢ some p
IsClosed-peer none a p c e = cc
IsClosed-peer (some b) a p c e = ground (arith, c.0)

-- A socket that a call leaves alone, or closes together with its peer.
abbrev Touched : State → State → ℕ → Type 0
Touched w v q =
    (v.cell q ≡ w.cell q)
    ⊎ (q < w.break)
      × IsClosed (v.cell q)
      × ((b : Asocket) (p : ℕ) → w.cell q ≡ some b → b.peer ≡ some p → IsClosed (v.cell p))

module _ (w v : State) (i : IsSound w) (brk : v.break ≡ w.break) (touched : (q : ℕ) → Touched w v q)
    (listing : (q : ℕ)
      → member q v.local_socket_list ≡ true
      → (member q w.local_socket_list ≡ true) × (v.cell q ≡ w.cell q))
    (waits : (q : ℕ)
      → member q v.disconnects ≡ true
      → (member q w.disconnects ≡ true) × (v.cell q ≡ w.cell q))
    (once : Distinct v.disconnects) where
  touched-fresh : (q : ℕ) (a : Asocket) → v.cell q ≡ some a → q < v.break
  touched-fresh q a e = elim (touched q) [
    | inl same ↦ rw brk (i.fresh q a (sym same ∙ e))
    | inr (lt, c, _) ↦ rw brk lt
  ]

  touched-paired :
      (q : ℕ) (a : Asocket) (p : ℕ)
      → v.cell q ≡ some a
      → a.peer ≡ some p
      → (b : Asocket) × (v.cell p ≡ some b) × (b.peer ≡ some q) × (p ≢ q) × (IsLocal a ⊎ IsLocal b)
  touched-paired q a p e h = elim (touched q) [
    | inr (lt, c, _) ↦ absurd (IsClosed-peer (v.cell q) a p c e h)
    | inl same ↦
        let (b, eb, hb, ne, k) = i.paired q a p (sym same ∙ e) h in
        elim (touched p) [
          | inl same' ↦ (b, same' ∙ eb, hb, ne, k)
          | inr (lt, c, both) ↦ absurd (IsClosed-peer (v.cell q) a p (both b q eb hb) e h)
        ]
  ]

  touched-IsSound : IsSound v
  touched-IsSound = record {
    fresh = touched-fresh;
    paired = touched-paired;
    listed =
        λ q h. let (old, same) = listing q h in let (a, e, l) = i.listed q old in (a, same ∙ e, l);
    waiting =
        λ q h. let (old, same) = waits q h in let (a, e, l) = i.waiting q old in (a, same ∙ e, l);
    once = once;
  }

-- Of a socket that is listed, the close function is a local one.
listed-ne :
    (w : State) (s q : ℕ) (a : Asocket)
    → IsSound w
    → w.cell s ≡ some a
    → member q w.local_socket_list ≡ true
    → (is_local a.close ≡ true → q ≢ s)
    → q ≢ s
listed-ne w s q a i e m h =
    λ eq. let (b, eb, l) = i.listed q m in let same : a ≡ b = cc in h (rw same l.0) eq

-- Of a socket that waits, the close function is the remote one.
waiting-ne :
    (w : State) (s q : ℕ) (a : Asocket)
    → IsSound w
    → w.cell s ≡ some a
    → member q w.disconnects ≡ true
    → (is_remote a.close ≡ true → q ≢ s)
    → q ≢ s
waiting-ne w s q a i e m h =
    λ eq. let (b, eb, l) = i.waiting q m in let same : a ≡ b = cc in h (rw (same, l.0)) eq

pub some_ne_none : (a b : Asocket) (p : ℕ) → some a ≡ some b → a.peer ≡ none → b.peer ≡ some p → ⊥
some_ne_none a b p e h hb = ground arith

pub only_peer :
    (a b : Asocket) (p r : ℕ) → some a ≡ some b → a.peer ≡ some p → b.peer ≡ some r → p ≡ r
only_peer a b p r e h hb = ground arith

pub alone-IsSound :
    (s : ℕ) (a : Asocket) (w v : State)
    → IsSound w
    → w.cell s ≡ some a
    → a.peer ≡ none
    → IsClosed (v.cell s)
    → OnlyAt s w v
    → Unlists a.close s w v
    → IsSound v
alone-IsSound s a w v i e h c (same, brk) un =
    touched-IsSound w v i brk
      (λ q. elim (Bool-cases (q == s)) [
        | inl at ↦
            subst (Touched w v) (sym ((==_iff q s).0 at))
              (inr (i.fresh s a e, c, λ b p eb hb. absurd (some_ne_none a b p (sym e ∙ eb) h hb)))
        | inr other ↦ inl (same q (ground arith))
      ])
      (λ q m. let (old, ne) = un.0 q m in (old, same q (listed-ne w s q a i e old ne)))
      (λ q m. let (old, ne) = un.1 q m in (old, same q (waiting-ne w s q a i e old ne)))
      (un.2 i.once)

-- A heap in which `s` and its peer `p` were closed.
module _ (s p : ℕ) (a b : Asocket) (w v : State) (i : IsSound w) (e : w.cell s ≡ some a)
    (h : a.peer ≡ some p) (e' : w.cell p ≡ some b) (c : IsClosed (v.cell s))
    (c' : IsClosed (v.cell p)) where
  pair-Touched :
      ((q : ℕ) → q ≢ s → q ≢ p → v.cell q ≡ w.cell q) → b.peer ≡ some s → (q : ℕ) → Touched w v q
  pair-Touched same h' q = elim (Bool-cases (q == s)) [
    | inl at ↦ subst (Touched w v) (sym ((==_iff q s).0 at)) (
        inr (
          i.fresh s a e,
          c,
          λ x r ex hx. subst (λ z. IsClosed (v.cell z)) (only_peer a x p r (sym e ∙ ex) h hx) c',
        ))
    | inr other ↦ elim (Bool-cases (q == p)) [
      | inl at ↦ subst (Touched w v) (sym ((==_iff q p).0 at)) (
          inr (
            i.fresh p b e',
            c',
            λ x r ex hx. subst (λ z. IsClosed (v.cell z)) (only_peer b x s r (sym e' ∙ ex) h' hx) c,
          ))
      | inr other' ↦ inl (same q (ground arith) (ground arith))
    ]
  ]

  pub pair-IsSound :
      ((q : ℕ) → q ≢ s → q ≢ p → v.cell q ≡ w.cell q)
      → v.break ≡ w.break
      → Unlists a.close s w v
      → Unlists b.close p w v
      → IsSound v
  pair-IsSound same brk un un' =
      let (x, ex, hx, _, _) = i.paired s a p e h in
      touched-IsSound w v i brk (pair-Touched same (paired_back x ex hx))
        (λ q m.
          let (old, n) = un.0 q m in
          (old, same q (listed-ne w s q a i e old n) (listed-ne w p q b i e' old (un'.0 q m).1)))
        (λ q m.
          let (old, n) = un.1 q m in
          (old, same q (waiting-ne w s q a i e old n) (waiting-ne w p q b i e' old (un'.1 q m).1)))
        (un.2 i.once)
    where
      paired_back : (x : Asocket) → w.cell p ≡ some x → x.peer ≡ some s → b.peer ≡ some s
      paired_back x ex hx = let eq : x ≡ b = cc in subst (λ z. z.peer ≡ some s) eq hx

close_within-IsSound :
    (s : ℕ) (a : Asocket) (w : State) (o : Option ℕ)
    → IsSound w
    → w.cell s ≡ some a
    → a.peer ≡ o
    → (v : State) × (close_within 2 s w ≡ some v) × IsSound v × HasClosed s a w v
close_within-IsSound s a w none i e h =
    let (v, eq, c, o, un) = close_alone 1 s a w e h in
    (
      v,
      eq,
      alone-IsSound s a w v i e h c o un,
      record { closed = c; peer_closed = λ p hp. cc; others = λ q n m. o.0 q n },
    )
close_within-IsSound s a w (some p) i e h =
    let (b, e', h', ne, _) = i.paired s a p e h in
    let (v, eq, c, c', same, brk, un, un') = close_pair s p a b w ne h e e' in
    (
      v,
      eq,
      pair-IsSound s p a b w v i e h e' c c' same brk un un',
      record {
        closed = c;
        peer_closed = λ r hr. subst (λ z. IsClosed (v.cell z)) (only_peer a a p r refl h hr) c';
        others = λ q n m. same q n (λ at. m (rw (h, at)));
      },
    )

-- Closing a live socket of a sound heap meets no dangling and no null pointer and never calls
-- deeper than the peer. Afterwards the heap is sound; the socket and its peer are freed, or closing
-- with no peer; every other socket is as it was.
pub close_socket-IsSound :
    (s : ℕ) (a : Asocket) (w : State)
    → IsSound w
    → w.cell s ≡ some a
    → (v : State) × (close_socket s w ≡ some v) × IsSound v × HasClosed s a w v
unfolding close_socket
close_socket-IsSound s a w i e = close_within-IsSound s a w a.peer i e refl
