-- ===== src/Sockets/Sound/Store.antt =====
-- Writes to one socket and the ready functions (ADBTestCE/adb/sockets.cpp), and the invariant of the
-- heap.
use mathlib.Core.Path.{subst}
use adbtest_ce.Prelude.{
  ==_iff, ==_self, Bool-cases, Option, ap, arith, codes, false, inl, inr, refl, some, sym, true, ℕ,
  ◌==◌, ◌∙◌, ◌≡◌, ◌≢◌, ◌⊎◌,
}
use adbtest_ce.Sockets.State.{
  Asocket, ReadyFunc, State, local_socket_close, local_socket_ready, local_socket_ready_notify,
  member, remote_socket_ready, smart_socket_ready, store, tell, update,
}
use adbtest_ce.Sockets.Serve.{dispatch_ready, ready_socket}
use adbtest_ce.Sockets.Sound.{IsLocal, IsRemote, IsSound}

-- The call meets no fault, and leaves a sound heap.
abbrev pub Safe : Option State → Type 0
Safe m = (v : State) × (m ≡ some v) × IsSound v

-- What does not touch the heap keeps it sound.
pub same_heap :
    (w v : State)
    → v.cell ≡ w.cell
    → v.break ≡ w.break
    → v.local_socket_list ≡ w.local_socket_list
    → v.disconnects ≡ w.disconnects
    → IsSound w
    → IsSound v
same_heap w v c b l d i = record {
  fresh = λ q a e. rw b (i.fresh q a (rw c at e));
  paired = λ q a p e h. rw c (i.paired q a p (rw c at e) h);
  listed = λ q m. rw c (i.listed q (rw l at m));
  waiting = λ q m. rw c (i.waiting q (rw d at m));
  once = rw d i.once;
}

-- A cell of a heap in which `s` was written.
pub update-cases :
    (f : ℕ → Option Asocket) (s q : ℕ) (o : Option Asocket) (x : Asocket)
    → update f s o q ≡ some x
    → (q ≡ s) × (o ≡ some x) ⊎ (q ≢ s) × (f q ≡ some x)
update-cases f s q o x e = elim (Bool-cases (q == s)) [
  | inl at ↦ inl (ground arith, ground arith)
  | inr other ↦ inr (ground arith, ground arith)
]

update_self : (f : ℕ → Option Asocket) (s : ℕ) (o : Option Asocket) → update f s o s ≡ o
update_self f s o = rw ==_self

pub update_ne :
    (f : ℕ → Option Asocket) (s q : ℕ) (o : Option Asocket) → q ≢ s → update f s o q ≡ f q
update_ne f s q o ne = ground arith

-- The second socket is local or remote where the first one is.
abbrev pub SameKind : Asocket → Asocket → Type 0
SameKind a b = (IsLocal a → IsLocal b) × (IsRemote a → IsRemote b)

-- A socket may change all but its peer and the kind of its functions.
module _ (s : ℕ) (a b : Asocket) (w : State) (i : IsSound w) (e : w.cell s ≡ some a)
    (h : b.peer ≡ a.peer) (l : SameKind a b) where
  store-partner :
      (q p : ℕ) (c : Asocket)
      → w.cell p ≡ some c
      → c.peer ≡ some q
      → (d : Asocket) × (update w.cell s (some b) p ≡ some d)
        × (d.peer ≡ some q)
        × (IsLocal c → IsLocal d)
  store-partner q p c ec hc = elim (Bool-cases (p == s)) [
    | inl at ↦
        let same : c ≡ a = ground arith in
        (b, ground arith, ground arith, λ k. l.0 (subst IsLocal same k))
    | inr other ↦ (c, ground arith, hc, λ k. k)
  ]

  store-paired :
      (q : ℕ) (x : Asocket) (p : ℕ)
      → update w.cell s (some b) q ≡ some x
      → x.peer ≡ some p
      → (d : Asocket) × (update w.cell s (some b) p ≡ some d)
        × (d.peer ≡ some q)
        × (p ≢ q)
        × (IsLocal x ⊎ IsLocal d)
  store-paired q x p ex hx = elim (update-cases w.cell s q (some b) x ex) [
    | inl (at, eq) ↦
        let (c, ec, hc, ne, k) = i.paired q a p (ground arith) (ground arith) in
        let (d, ed, hd, kd) = store-partner q p c ec hc in
        let same : b ≡ x = cc in
        (
          d,
          ed,
          hd,
          ne,
          elim k [ inl ka ↦ inl (subst IsLocal same (l.0 ka)) | inr kc ↦ inr (kd kc) ],
        )
    | inr (other, eq) ↦
        let (c, ec, hc, ne, k) = i.paired q x p eq hx in
        let (d, ed, hd, kd) = store-partner q p c ec hc in
        (d, ed, hd, ne, elim k [ inl kx ↦ inl kx | inr kc ↦ inr (kd kc) ])
  ]

  store-listed :
      (q : ℕ)
      → member q w.local_socket_list ≡ true
      → (x : Asocket) × (update w.cell s (some b) q ≡ some x) × IsLocal x
  store-listed q m =
      let (x, ex, lx) = i.listed q m in
      elim (Bool-cases (q == s)) [
        | inl at ↦
            let at' = (==_iff q s).0 at in
            let same : x ≡ a = cc in (b, ground arith, l.0 (subst IsLocal same lx))
        | inr other ↦ (x, ground arith, lx)
      ]

  store-waiting :
      (q : ℕ)
      → member q w.disconnects ≡ true
      → (x : Asocket) × (update w.cell s (some b) q ≡ some x) × IsRemote x
  store-waiting q m =
      let (x, ex, lx) = i.waiting q m in
      elim (Bool-cases (q == s)) [
        | inl at ↦
            let at' = (==_iff q s).0 at in
            let same : x ≡ a = cc in (b, ground arith, l.1 (subst IsRemote same lx))
        | inr other ↦ (x, ground arith, lx)
      ]

  pub store-IsSound : IsSound (store s b w)
  store-IsSound = record {
    fresh = λ q x ex. elim (update-cases w.cell s q (some b) x ex) [
      | inl (at, _) ↦ i.fresh q a (ap w.cell at ∙ e)
      | inr (_, eq) ↦ i.fresh q x eq
    ];
    paired = store-paired;
    listed = store-listed;
    waiting = store-waiting;
    once = i.once;
  }

-- A socket that notifies, after its ready function.
abbrev awake : Asocket → Asocket
awake a = record a { ready = local_socket_ready; close = local_socket_close; reads = true }

-- It is local, and stays so.
awake-SameKind : (a : Asocket) → a.ready ≡ local_socket_ready_notify → SameKind a (awake a)
awake-SameKind a h = (
  (λ l. (refl, refl, l.2)),
  λ k. let no : local_socket_ready_notify ≡ remote_socket_ready = sym h ∙ k.1 in cc,
)

pub notify-Safe :
    (s : ℕ) (a : Asocket) (w : State)
    → IsSound w
    → w.cell s ≡ some a
    → a.ready ≡ local_socket_ready_notify
    → Safe (dispatch_ready local_socket_ready_notify s a w)
unfolding dispatch_ready
notify-Safe s a w i e h =
    let v = store s (awake a) w in
    (
      tell a.fd (codes "OKAY") v,
      refl,
      same_heap v _ refl refl refl refl
          (store-IsSound s a (awake a) w i e refl (awake-SameKind a h)),
    )

-- The ready functions of a local socket.
ready-Safe :
    (f : ReadyFunc) (s : ℕ) (a : Asocket) (w : State)
    → IsSound w
    → w.cell s ≡ some a
    → a.ready ≡ f
    → IsLocal a
    → Safe (dispatch_ready f s a w)
unfolding dispatch_ready
ready-Safe local_socket_ready s a w i e h l =
    (_, refl, store-IsSound s a _ w i e refl ((λ k. k), λ k. k))
ready-Safe local_socket_ready_notify s a w i e h l = notify-Safe s a w i e h
ready-Safe remote_socket_ready s a w i e h l = let no : false ≡ true = rw h at l.1 in cc
ready-Safe smart_socket_ready s a w i e h l = (w, refl, i)

pub ready_socket-Safe :
    (s : ℕ) (a : Asocket) (w : State)
    → IsSound w
    → w.cell s ≡ some a
    → IsLocal a
    → Safe (ready_socket s w)
unfolding ready_socket
ready_socket-Safe s a w i e l =
    let (v, eq, iv) = ready-Safe a.ready s a w i e refl l in (v, rw (e, ready_socket) eq, iv)
