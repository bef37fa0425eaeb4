-- ===== src/Sockets/Sound/Requests.antt =====
-- The smart socket of ADBTestCE/adb/sockets.cpp and the invariant of the heap.
use mathlib.Core.Path.{fun_ext}
use adbtest_ce.Prelude.{
  Bool-cases, Bytes, Option, [], arith, codes, drop, false, inl, inr, length, length-take, ltb,
  none, refl, some, sym, take, true, ℕ, ◌++◌, ◌+◌, ◌∙◌, ◌∷◌, ◌≡◌, ◌≢◌, ◌≤◌,
}
use adbtest_ce.Sockets.State.{
  Asocket, State, local_socket_close, local_socket_ready, member-concat, store, tell,
}
use adbtest_ce.Smart.{decode, feed_request, smart_feed}
use adbtest_ce.Packet.{max_payload}
use adbtest_ce.Sockets.Protocol.{attach}
use adbtest_ce.Wire.{unhex}
use adbtest_ce.Sockets.Serve.{
  EnqueueResult, blank, closed_both, create_local_socket, dispatch_ready, ready_socket,
}
use adbtest_ce.Sockets.Requests.{
  Answers, bind_service, c_string, connect_to_smartsocket, create_smart_socket, give_up,
  smart_asocket,
}
use adbtest_ce.Sockets.Sound.{IsLocal, IsRemote, IsSound, close_socket-IsSound}
use adbtest_ce.Sockets.Sound.Store.{Safe, SameKind, ready_socket-Safe, same_heap, store-IsSound}
use adbtest_ce.Sockets.Sound.Attach.{attached-IsSound, attached_self}
use adbtest_ce.Sockets.Close.{close_socket, then_close}
use adbtest_ce.Sockets.Sound.Detach.{detached-IsSound}

-- The call meets no fault and leaves a sound heap; the sender at `s` is live, unless the result says
-- that it was closed.
abbrev pub Delivers : ℕ → Option (State × EnqueueResult) → Type 0
Delivers s m =
    (v : State) × (n : EnqueueResult) × (m ≡ some (v, n))
    × IsSound v
    × (n ≢ closed_both → (c : Asocket) × (v.cell s ≡ some c))

-- A client that connects.
module _ (s : ℕ) (a : Asocket) (w : State) (i : IsSound w) (e : w.cell s ≡ some a)
    (h : a.peer ≡ none) (l : IsLocal a) where
  smart_room : (q : ℕ) → q ≢ w.break → (create_smart_socket w).cell q ≡ w.cell q
  unfolding create_smart_socket
  smart_room q ne = ground arith

  pub connect_to_smartsocket-Safe : Safe (connect_to_smartsocket s a w)
  unfolding connect_to_smartsocket create_smart_socket
  connect_to_smartsocket-Safe =
      let v = create_smart_socket w in
      ready_socket-Safe s (record a { peer = some w.break }) (attach w.break smart_asocket s a v)
        (attached-IsSound smart_asocket s a w v i e h l smart_room refl (λ q m. inl m)
          (λ q m. inl m) i.once)
        (attached_self smart_asocket s a w v i e h l smart_room refl (λ q m. inl m) (λ q m. inl m)
          i.once)
        l

pub local_ne_remote : (a : Asocket) → IsLocal a → IsRemote a → ⊥
local_ne_remote a l r = let no : false ≡ true = rw r.0 at l.0 in cc

-- A local socket may become another local one.
pub local-SameKind : (a b : Asocket) → IsLocal a → IsLocal b → SameKind a b
local-SameKind a b l k = ((λ _. k), λ r. absurd (local_ne_remote a l r))

pub give_up-Delivers :
    (s p : ℕ) (a : Asocket) (w : State) → IsSound w → w.cell s ≡ some a → Delivers p (give_up s w)
give_up-Delivers s p a w i e =
    let (v, eq, iv, _) = close_socket-IsSound s a w i e in
    (v, closed_both, rw eq refl, iv, λ k. absurd (k refl))

pub length-c_string : (x : Bytes) → length (c_string x) ≤ length x
unfolding c_string
length-c_string [] = ground arith
length-c_string (c ∷ x) = ground (arith, length-c_string x)

decode-length : (p r : Bytes) → decode p ≡ feed_request r → length r ≤ 1024
unfolding decode
decode-length p r h = let n = length-take (unhex (take 4 p)) (drop 4 p) in ground (arith, n)

pub smart_feed-length :
    (first : Option Bytes) (p r : Bytes) → smart_feed first p ≡ feed_request r → length r ≤ 1024
unfolding smart_feed
smart_feed-length none p r h = decode-length p r h
smart_feed-length (some x) p r h = elim (Bool-cases (ltb max_payload (length x + length p))) [
  | inl over ↦ ground arith
  | inr fits ↦ decode-length (x ++ p) r (ground arith)
]

-- The request itself: the smart socket `a` at `s`, and its client `b` at `p`.
module _ (env : Answers) (s p : ℕ) (a b : Asocket) (w : State) (i : IsSound w)
    (e : w.cell s ≡ some a) (h : a.peer ≡ some p) (e' : w.cell p ≡ some b) (ne : p ≢ s)
    (l : IsLocal b) where
  -- The smart socket alone, and the client with other functions.
  abbrev pub alone : Asocket
  alone = record a { peer = none }

  abbrev plain : Asocket
  plain = record b { ready = local_socket_ready; close = local_socket_close; peer = none }

  abbrev served : ℕ → Asocket
  served fd = record blank { fd = fd; id = w.local_socket_next_id }

  abbrev pub parted : Asocket → State
  parted b' = store s alone (store p b' w)

  pub parted-IsSound : (b' : Asocket) → b'.peer ≡ none → IsLocal b' → IsSound (parted b')
  parted-IsSound b' alone' l' =
      detached-IsSound s p a b alone b' w i e h e' refl alone' ((λ k. k), λ k. k)
        (local-SameKind b b' l l')

  -- The heap in which the client has the new service socket for its peer.
  abbrev joined : ℕ → State
  joined fd = attach w.break (served fd) p plain (create_local_socket fd (parted plain))

  joined-IsSound : (fd : ℕ) → IsSound (joined fd)
  unfolding create_local_socket
  joined-IsSound fd =
      let u = parted plain in
      attached-IsSound (served fd) p plain u (create_local_socket fd u)
        (parted-IsSound plain refl (refl, refl, l.2)) (ground arith) refl (refl, refl, l.2)
        (λ q n. ground arith) refl
        (λ q m. elim (member-concat w.break q w.local_socket_list m) [
          | inl old ↦ inl old
          | inr at ↦ inr (sym at, (refl, refl, refl))
        ])
        (λ q m. inl m) i.once

  abbrev bound : ℕ → State
  bound fd = store s alone (
      store w.break (record (served fd) { peer = some p })
        (store p (record plain { peer = some w.break })
          (tell b.fd (codes "OKAY") (create_local_socket fd w))))

  bound-IsSound : (fd : ℕ) → IsSound (bound fd)
  unfolding create_local_socket
  bound-IsSound fd =
      let lt = i.fresh s a e in
      same_heap (joined fd) (bound fd) (fun_ext (λ q. ground (arith, lt, ne))) refl refl refl
        (joined-IsSound fd)

  -- The smart socket is closed, and the service socket gets ready.
  bound_closed :
      (fd : ℕ) (v : State)
      → close_socket s (bound fd) ≡ some v
      → IsSound v
      → v.cell w.break ≡ some (record (served fd) { peer = some p })
      → v.cell p ≡ some (record plain { peer = some w.break })
      → p ≢ w.break
      → (u : State) × (bind_service fd s a p b w ≡ some u)
        × IsSound u
        × ((c : Asocket) × (u.cell p ≡ some c))
  unfolding bind_service ready_socket dispatch_ready
  bound_closed fd v eq iv er ep new =
      let c : Asocket = record (served fd) { peer = some p } in
      let c' : Asocket = record c { reads = true } in
      (
        store w.break c' v,
        rw (eq, then_close, er, ready_socket) refl,
        store-IsSound w.break c c' v iv er refl ((λ k. k), λ k. k),
        (record plain { peer = some w.break }, ground (arith, ep, new)),
      )

  pub bind_service-Safe :
      (fd : ℕ)
      → (u : State) × (bind_service fd s a p b w ≡ some u)
        × IsSound u
        × ((c : Asocket) × (u.cell p ≡ some c))
  bind_service-Safe fd =
      let lt = i.fresh s a e in
      let lt' = i.fresh p b e' in
      let (v, eq, iv, closed) =
        close_socket-IsSound s alone (bound fd) (bound-IsSound fd) (ground arith) in
      bound_closed fd v eq iv (closed.others w.break (ground arith) (λ z. cc) ∙ ground (arith, lt))
        (closed.others p ne (λ z. cc) ∙ ground (arith, lt', ne)) (ground arith)
