-- ===== src/Sockets/Sound/Answers.antt =====
-- The answers of `smart_socket_enqueue` (ADBTestCE/adb/sockets.cpp) and the invariant of the heap.
use adbtest_ce.Prelude.{
  Bool, Bytes, Option, Option-cases, [], after_prefix, arith, codes, false, inl, inr, length, ltb,
  none, refl, some, sym, true, ℕ, ◌++◌, ◌+◌, ◌-◌, ◌∙◌, ◌∷◌, ◌≡◌, ◌≢◌, ◌≤◌,
}
use adbtest_ce.Packet.{max_payload}
use adbtest_ce.Sockets.State.{
  Asocket, Outgoing, State, a_open, local_socket_enqueue, send, smart_socket_enqueue, store, tell,
}
use adbtest_ce.Sockets.Close.{then_close}
use adbtest_ce.Sockets.Serve.{connect_to_remote, not_ready, ready_for_more}
use adbtest_ce.Wire.Failure.{fail_message}
use adbtest_ce.Sockets.Requests.{
  Answers, HostReply, bind_service, c_string, device_request, enqueue_smart, first_packet,
  forward_request, give_up, handled, host_request, notifying, passed, smart_request,
}
use adbtest_ce.Sockets.Sound.{IsLocal, IsSound, close_socket-IsSound}
use adbtest_ce.Sockets.Sound.Store.{same_heap, store-IsSound}
use adbtest_ce.Sockets.Sound.Requests.{
  Delivers, bind_service-Safe, give_up-Delivers, length-c_string, parted, parted-IsSound,
  smart_feed-length,
}
use adbtest_ce.Smart.{
  Feed, HostTarget, feed_bad_size, feed_overflow, feed_request, feed_wait, host_target, smart_feed,
}

-- The transport of a smart socket, if it has one, was not freed.
abbrev pub HasTransport : Answers → Asocket → Type 0
HasTransport env a = (t : ℕ) → a.transport ≡ some t → env.offline t ≢ none

-- What was told, or a change of the smart socket alone, keeps the client and the smart socket.
module _ (env : Answers) (s p : ℕ) (a b : Asocket) (w : State) (i : IsSound w)
    (e : w.cell s ≡ some a) (h : a.peer ≡ some p) (e' : w.cell p ≡ some b) (ne : p ≢ s)
    (l : IsLocal b) (there : HasTransport env a) where
  abbrev request : ℕ → Bytes → Outgoing
  request t d = record {
    command = a_open;
    arg0 = b.id;
    arg1 = 0;
    payload = d ++ 0 ∷ [];
    via = some t;
  }

  connected :
      (t : ℕ) (d : Bytes)
      → length d ≤ 1024
      → connect_to_remote p d (store p (notifying (some t) b) w)
        ≡ some (send (request t d) (store p (notifying (some t) b) w))
  unfolding connect_to_remote
  connected t d n =
      let live : (store p (notifying (some t) b) w).cell p ≡ some (notifying (some t) b) =
        ground arith in
      let fits : ltb (max_payload - 1) (length d + 1) ≡ false = ground (arith, n) in
      rw (live, connect_to_remote, fits) refl

  forward_request-Delivers :
      (t : ℕ) (d : Bytes)
      → length d ≤ 1024
      → (v : State) × (forward_request t s a p b d w ≡ some v)
        × IsSound v
        × ((c : Asocket) × (v.cell p ≡ some c))
  unfolding forward_request
  forward_request-Delivers t d n =
      let b' = notifying (some t) b in
      let x = parted env s p a b w i e h e' ne l b' in
      let u : State = store s (record a { peer = none }) (send (request t d) (store p b' w)) in
      let iu =
        same_heap x u refl refl refl refl
          (parted-IsSound env s p a b w i e h e' ne l b' refl (refl, refl, l.2)) in
      let (v, eq, iv, closed) =
        close_socket-IsSound s (record a { peer = none }) u iu (ground arith) in
      (
        v,
        rw (connected t d n, then_close) eq,
        iv,
        (b', closed.others p ne (λ z. cc) ∙ ground (arith, ne)),
      )

  refused-Delivers : (x : Bytes) → Delivers p (give_up s (tell b.fd x w))
  refused-Delivers x =
      give_up-Delivers s p a (tell b.fd x w) (same_heap w _ refl refl refl refl i) e

  device-Delivers :
      (t' : ℕ) (d : Bytes)
      → a.transport ≡ some t'
      → length d ≤ 1024
      → (o : Option Bool) → env.offline t' ≡ o
      → Delivers p (device_request env s a p b d w)
  unfolding device_request
  device-Delivers t' d t n none q = absurd (there t' t q)
  device-Delivers t' d t n (some true) q =
      rw (t, device_request, q) (refused-Delivers (fail_message (codes "device offline (x)")))
  device-Delivers t' d t n (some false) q =
      let (v, eq, iv, k) = forward_request-Delivers t' d n in
      (v, not_ready, rw (t, device_request, q, eq, then_close) refl, iv, λ _. k)

  device_request-Delivers :
      (o : Option ℕ) (d : Bytes)
      → a.transport ≡ o
      → length d ≤ 1024
      → Delivers p (device_request env s a p b d w)
  unfolding device_request
  device_request-Delivers none d t n =
      rw (t, device_request) (refused-Delivers (fail_message (codes "device offline (x)")))
  device_request-Delivers (some t') d t n = device-Delivers t' d t n (env.offline t') refl

  -- The state after `handle_host_request` has left the request.
  abbrev moved : Option ℕ → Asocket
  moved t = record a { transport = t }

  abbrev told_of : Option ℕ → Bytes → State
  told_of t reply = store s (moved t) (tell b.fd reply w)

  told_of-IsSound : (t : Option ℕ) (reply : Bytes) → IsSound (told_of t reply)
  told_of-IsSound t reply =
      store-IsSound s a (moved t) (tell b.fd reply w) (same_heap w _ refl refl refl refl i) e refl
        ((λ k. k), λ k. k)

  -- The request goes on, as a service of the server.
  service-Delivers :
      (t : Option ℕ) (reply : Bytes) (o : Option ℕ)
      → let v = told_of t reply in
        Delivers p (elim o [
          | none ↦ give_up s (tell b.fd (fail_message (codes "unknown host service")) v)
          | some fd ↦ then_close (bind_service fd s (moved t) p b v) λ u. some (u, ready_for_more)
        ])
  service-Delivers t reply none =
      let v = told_of t reply in
      give_up-Delivers s p (moved t) (tell b.fd (fail_message (codes "unknown host service")) v)
        (same_heap v _ refl refl refl refl (told_of-IsSound t reply)) (ground arith)
  service-Delivers t reply (some fd) =
      let v = told_of t reply in
      let (u, eq, iu, k) =
        bind_service-Safe env s p (moved t) b v (told_of-IsSound t reply) (ground arith) h
          (ground (arith, ne)) ne l fd in
      (u, ready_for_more, rw (eq, then_close) refl, iu, λ _. k)

  host_request-Delivers :
      (r : HostReply) (service : Bytes)
      → env.host ≡ r
      → Delivers p (host_request env s a p b service w)
  unfolding host_request
  host_request-Delivers (handled reply) service q = rw (q, host_request) (refused-Delivers reply)
  host_request-Delivers (passed t reply) service q =
      elim (Option-cases (after_prefix (codes "transport") service)) [
        | inl other ↦ rw (q, host_request, other) (service-Delivers t reply env.service)
        | inr (rest, switch) ↦
            let v = told_of t reply in
            let c : Asocket = record (moved t) { pkts = [] ∷ [] } in
            (
              store s c v,
              ready_for_more,
              rw (q, host_request, switch) refl,
              store-IsSound s (moved t) c v (told_of-IsSound t reply) (ground arith) refl
                  ((λ k. k), λ k. k),
              λ _. (b, ground (arith, ne)),
            )
      ]

  whole-Delivers :
      (o : Option HostTarget) (d : Bytes)
      → host_target d ≡ o
      → length d ≤ 1024
      → Delivers p (smart_request env s a d w)
  unfolding smart_request
  whole-Delivers none d t n =
      rw (h, smart_request, e', t) (device_request-Delivers a.transport d refl n)
  whole-Delivers (some x) d t n =
      rw (h, smart_request, e', t) (host_request-Delivers env.host x.service refl)

  feed-Delivers :
      (f : Feed) (x : Bytes)
      → smart_feed (first_packet a.pkts) x ≡ f
      → Delivers p (enqueue_smart env s a x w)
  unfolding enqueue_smart
  feed-Delivers (feed_wait y) x f =
      let c : Asocket = record a { pkts = y ∷ [] } in
      (
        store s c w,
        ready_for_more,
        rw (f, enqueue_smart) refl,
        store-IsSound s a c w i e refl ((λ k. k), λ k. k),
        λ _. (b, ground (arith, ne)),
      )
  feed-Delivers feed_overflow x f = rw (f, enqueue_smart) (give_up-Delivers s p a w i e)
  feed-Delivers feed_bad_size x f = rw (f, enqueue_smart) (give_up-Delivers s p a w i e)
  feed-Delivers (feed_request r) x f =
      let d = c_string r in
      let n : length d ≤ 1024 =
        omega (arith, length-c_string r, smart_feed-length (first_packet a.pkts) x r f) in
      rw (f, enqueue_smart) (whole-Delivers (host_target d) d refl n)

-- Bytes of a client for its smart socket, in a sound heap, where the smart socket's transport, if it has
-- one, was not freed: whatever else the rest of the server answers, `smart_socket_enqueue` meets no bad pointer and leaves a sound heap, and unless it reports that it
-- has closed both, the client's socket is still live.
pub enqueue_smart-IsSound :
    (env : Answers) (s p : ℕ) (a : Asocket) (x : Bytes) (w : State)
    → IsSound w
    → w.cell s ≡ some a
    → a.peer ≡ some p
    → a.enqueue ≡ smart_socket_enqueue
    → HasTransport env a
    → Delivers p (enqueue_smart env s a x w)
enqueue_smart-IsSound env s p a x w i e h smart there =
    let (b, e', _, ne, k) = i.paired s a p e h in
    let l : IsLocal b = elim k [
      | inl la ↦ (let no : smart_socket_enqueue ≡ local_socket_enqueue = sym smart ∙ la.2 in cc)
      | inr lb ↦ lb
    ] in
    feed-Delivers env s p a b w i e h e' ne l there (smart_feed (first_packet a.pkts) x) x refl
