-- ===== src/Sockets/Sound/Attach.antt =====
-- `create_local_socket` and `create_remote_socket` (ADBTestCE/adb/sockets.cpp) and the invariant of the
-- heap.
use mathlib.Core.Path.{subst}
use adbtest_ce.Prelude.{
  ==_iff, Bool-cases, Option, ap, arith, false, inl, inr, none, refl, some, sym, true, ℕ, ◌+◌, ◌<◌,
  ◌==◌, ◌∙◌, ◌≡◌, ◌≢◌, ◌⊎◌,
}
use adbtest_ce.Sockets.State.{Asocket, Distinct, Distinct-concat, State, member, member-concat}
use adbtest_ce.Sockets.Serve.{blank, create_local_socket, create_remote_socket, remote_asocket}
use adbtest_ce.Sockets.Protocol.{attach, attach_remote}
use adbtest_ce.Sockets.Sound.{IsLocal, IsRemote, IsSound, some_ne_none}
use adbtest_ce.Sockets.Sound.Store.{update-cases, update_ne}

abbrev peer_of : Asocket → Option ℕ
peer_of a = a.peer

-- A socket with no peer gets the new socket `c` for its peer, in a state `v` that has made room for
-- it.
module _ (c : Asocket) (s : ℕ) (a : Asocket) (w v : State) (i : IsSound w) (e : w.cell s ≡ some a)
    (h : a.peer ≡ none) (l : IsLocal a) (room : (q : ℕ) → q ≢ w.break → v.cell q ≡ w.cell q)
    (brk : v.break ≡ w.break + 1)
    (lists : (q : ℕ)
      → member q v.local_socket_list ≡ true
      → (member q w.local_socket_list ≡ true) ⊎ (q ≡ w.break) × IsLocal c)
    (waits : (q : ℕ)
      → member q v.disconnects ≡ true
      → (member q w.disconnects ≡ true) ⊎ (q ≡ w.break) × IsRemote c)
    (once : Distinct v.disconnects) where
  abbrev attached : State
  attached = attach w.break c s a v

  attach-cell :
      (q : ℕ) (x : Asocket)
      → attached.cell q ≡ some x
      → (q ≡ w.break) × (x ≡ record c { peer = some s })
        ⊎ (q ≡ s) × (x ≡ record a { peer = some w.break })
        ⊎ (q ≢ w.break) × (q ≢ s) × (w.cell q ≡ some x)
  attach-cell q x ex = ground (arith, i.fresh s a e, room q)

  pub attached_self : attached.cell s ≡ some (record a { peer = some w.break })
  attached_self = ground (arith, i.fresh s a e)

  pub attached_new : attached.cell w.break ≡ some (record c { peer = some s })
  attached_new = ground (arith, i.fresh s a e)

  attach_old : (q : ℕ) (x : Asocket) → w.cell q ≡ some x → q ≢ s → attached.cell q ≡ w.cell q
  attach_old q x ex ne = ground (arith, i.fresh q x ex, room q)

  other_than_self : (p : ℕ) (b : Asocket) (q : ℕ) → w.cell p ≡ some b → b.peer ≡ some q → p ≢ s
  other_than_self p b q eb hb = λ at.
      let same : a ≡ b = cc in let no : some q ≡ none = sym hb ∙ ap peer_of (sym same) ∙ h in cc

  attach-paired :
      (q : ℕ) (x : Asocket) (p : ℕ)
      → attached.cell q ≡ some x
      → x.peer ≡ some p
      → (b : Asocket) × (attached.cell p ≡ some b)
        × (b.peer ≡ some q)
        × (p ≢ q)
        × (IsLocal x ⊎ IsLocal b)
  attach-paired q x p ex hx = elim (attach-cell q x ex) [
    | inl (at, eq) ↦
        let same : p ≡ s = ground arith in
        (
          record a { peer = some w.break },
          ap attached.cell same ∙ attached_self,
          ground arith,
          ground (arith, i.fresh s a e),
          inr l,
        )
    | inr (inl (at, eq)) ↦
        let same : p ≡ w.break = ground arith in
        (
          record c { peer = some s },
          ap attached.cell same ∙ attached_new,
          ground arith,
          ground (arith, i.fresh s a e),
          inl (subst IsLocal (sym eq) l),
        )
    | inr (inr (other, ne, old)) ↦
        let (b, eb, hb, n, k) = i.paired q x p old hx in
        (b, attach_old p b eb (λ at. other_than_self p b q eb hb at) ∙ eb, hb, n, k)
  ]

  -- A socket of one of the lists, which may be `s` itself.
  attach_kept :
      (P : Asocket → Type 0) (keeps : P a → P (record a { peer = some w.break })) (q : ℕ)
      → (x : Asocket) × (w.cell q ≡ some x) × P x
      → (x : Asocket) × (attached.cell q ≡ some x) × P x
  attach_kept P keeps q (x, ex, lx) = elim (Bool-cases (q == s)) [
    | inl at ↦
        let at' = (==_iff q s).0 at in
        let same : x ≡ a = cc in
        (
          record a { peer = some w.break },
          ap attached.cell at' ∙ attached_self,
          keeps (subst P same lx),
        )
    | inr other ↦ (x, attach_old q x ex (ground arith) ∙ ex, lx)
  ]

  attach-fresh : (q : ℕ) (x : Asocket) → attached.cell q ≡ some x → q < attached.break
  attach-fresh q x ex = elim (attach-cell q x ex) [
    | inl (at, _) ↦ omega (arith, brk)
    | inr (inl (at, _)) ↦ omega (arith, brk, i.fresh s a e)
    | inr (inr (_, _, old)) ↦ omega (arith, brk, i.fresh q x old)
  ]

  attach-waiting :
      (q : ℕ)
      → member q attached.disconnects ≡ true
      → (x : Asocket) × (attached.cell q ≡ some x) × IsRemote x
  attach-waiting q m = elim (waits q m) [
    | inl old ↦ attach_kept IsRemote (λ k. k) q (i.waiting q old)
    | inr (at, k) ↦ (record c { peer = some s }, ap attached.cell at ∙ attached_new, k)
  ]

  pub attached-IsSound : IsSound attached
  attached-IsSound = record {
    fresh = attach-fresh;
    paired = attach-paired;
    listed = λ q m. elim (lists q m) [
      | inl old ↦ attach_kept IsLocal (λ k. k) q (i.listed q old)
      | inr (at, k) ↦ (record c { peer = some s }, ap attached.cell at ∙ attached_new, k)
    ];
    waiting = attach-waiting;
    once = once;
  }

-- The new socket is a remote one.
module _ (id t s : ℕ) (a : Asocket) (w : State) (i : IsSound w) (e : w.cell s ≡ some a)
    (h : a.peer ≡ none) (l : IsLocal a) where
  remote_room : (q : ℕ) → q ≢ w.break → (create_remote_socket id t w).cell q ≡ w.cell q
  unfolding create_remote_socket
  remote_room q ne = ground arith

  waits_new :
      (q : ℕ)
      → member q (create_remote_socket id t w).disconnects ≡ true
      → (member q w.disconnects ≡ true) ⊎ (q ≡ w.break) × IsRemote (remote_asocket id t)
  unfolding create_remote_socket
  waits_new q m = elim (member-concat w.break q w.disconnects m) [
    | inl old ↦ inl old
    | inr at ↦ inr (sym at, (refl, refl))
  ]

  new_waits : member w.break w.disconnects ≡ false
  new_waits = elim (Bool-cases (member w.break w.disconnects)) [
    | inl there ↦
        let (x, ex, _) = i.waiting w.break there in absurd (omega (arith, i.fresh w.break x ex))
    | inr absent ↦ absent
  ]

  remote_once : Distinct (create_remote_socket id t w).disconnects
  unfolding create_remote_socket
  remote_once = Distinct-concat w.break w.disconnects new_waits i.once

  pub attach_self : (attach_remote id t s a w).cell s ≡ some (record a { peer = some w.break })
  unfolding attach_remote
  attach_self =
      attached_self (remote_asocket id t) s a w (create_remote_socket id t w) i e h l remote_room
        refl (λ q m. inl m) waits_new remote_once

  pub attach-IsSound : IsSound (attach_remote id t s a w)
  unfolding attach_remote
  attach-IsSound =
      attached-IsSound (remote_asocket id t) s a w (create_remote_socket id t w) i e h l remote_room
        refl (λ q m. inl m) waits_new remote_once

-- A new local socket.
abbrev pub created : ℕ → State → Asocket
created fd w = record blank { fd = fd; id = w.local_socket_next_id }

module _ (fd : ℕ) (w : State) (i : IsSound w) where
  pub create_self : (create_local_socket fd w).cell w.break ≡ some (created fd w)
  unfolding create_local_socket
  create_self = ground arith

  create-fresh :
      (q : ℕ) (x : Asocket) → (create_local_socket fd w).cell q ≡ some x → q < w.break + 1
  unfolding create_local_socket
  create-fresh q x ex = elim (update-cases w.cell w.break q (some (created fd w)) x ex) [
    | inl (at, _) ↦ omega arith
    | inr (_, eq) ↦ omega (arith, i.fresh q x eq)
  ]

  create-paired :
      (q : ℕ) (x : Asocket) (p : ℕ)
      → (create_local_socket fd w).cell q ≡ some x
      → x.peer ≡ some p
      → (b : Asocket) × ((create_local_socket fd w).cell p ≡ some b)
        × (b.peer ≡ some q)
        × (p ≢ q)
        × (IsLocal x ⊎ IsLocal b)
  unfolding create_local_socket
  create-paired q x p ex hx = elim (update-cases w.cell w.break q (some (created fd w)) x ex) [
    | inl (at, eq) ↦ absurd (some_ne_none (created fd w) x p eq refl hx)
    | inr (ne, eq) ↦
        let (b, eb, hb, n, k) = i.paired q x p eq hx in
        let lt = i.fresh p b eb in (b, update_ne w.cell w.break p _ (omega arith) ∙ eb, hb, n, k)
  ]

  create-listed :
      (q : ℕ)
      → member q (create_local_socket fd w).local_socket_list ≡ true
      → (x : Asocket) × ((create_local_socket fd w).cell q ≡ some x) × IsLocal x
  unfolding create_local_socket
  create-listed q m = elim (member-concat w.break q w.local_socket_list m) [
    | inl old ↦
        let (x, ex, lx) = i.listed q old in
        let lt = i.fresh q x ex in (x, update_ne w.cell w.break q _ (omega arith) ∙ ex, lx)
    | inr at ↦ (created fd w, ground (arith, at), (refl, refl, refl))
  ]

  create-waiting :
      (q : ℕ)
      → member q w.disconnects ≡ true
      → (x : Asocket) × ((create_local_socket fd w).cell q ≡ some x) × IsRemote x
  unfolding create_local_socket
  create-waiting q m =
      let (x, ex, lx) = i.waiting q m in
      let lt = i.fresh q x ex in (x, update_ne w.cell w.break q _ (omega arith) ∙ ex, lx)

  pub create-IsSound : IsSound (create_local_socket fd w)
  unfolding create_local_socket
  create-IsSound = record {
    fresh = create-fresh;
    paired = create-paired;
    listed = create-listed;
    waiting = create-waiting;
    once = i.once;
  }
