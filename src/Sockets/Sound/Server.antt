-- ===== src/Sockets/Sound/Server.antt =====
-- Packets, clients, events and lost transports together (ADBTestCE/adb/adb.cpp, sockets.cpp and
-- transport.cpp), and the invariant of the heap.
use adbtest_ce.Prelude.{
  Bool-cases, Bytes, Option, [], arith, false, inl, inr, length, ltb, none, refl, some, true, ℕ,
  ◌++◌, ◌+◌, ◌-◌, ◌==◌, ◌||◌, ◌∷◌, ◌≡◌, ◌≢◌, ◌≤◌,
}
use adbtest_ce.Packet.{max_payload}
use adbtest_ce.Sockets.State.{Asocket, Outgoing, State, a_open, send, store}
use adbtest_ce.Sockets.Serve.{broken, connect_to_remote, create_local_socket, flush_new}
use adbtest_ce.Sockets.Reading.{fill}
use adbtest_ce.Sockets.Protocol.{handle_packet}
use adbtest_ce.Sockets.Connection.{
  Input, Message, Server, accept_client, client, cnxn_packet, descriptor, echo, forward_client,
  forwarded, greet, handle_cnxn, handle_message, handle_offline, handle_sync, has_nul, is_offline,
  lift, lose_transport, lost, message, offline_at, other_packet, send_connect, set_transport,
  socket_packet, step, sync_packet, welcome, with_sockets,
}
use adbtest_ce.Sockets.Sound.{IsSound}
use adbtest_ce.Sockets.Sound.Store.{Safe, same_heap, store-IsSound}
use adbtest_ce.Sockets.Shutdown.{run_transport_disconnects}
use adbtest_ce.Sockets.Sound.Attach.{create-IsSound, create_self, created}
use adbtest_ce.Sockets.Sound.Packets.{handle_packet-IsSound}
use adbtest_ce.Sockets.Sound.Requests.{alone, connect_to_smartsocket-Safe}
use adbtest_ce.Sockets.Sound.Shutdown.{run_transport_disconnects-IsSound}
use adbtest_ce.Sockets.Sound.Reading.{Reaches}
use adbtest_ce.Sockets.Sound.Whole.{local_socket_event_func-IsSound}
use adbtest_ce.Transport.{cs_offline}

-- The call meets no fault, and the heap that it leaves is sound.
abbrev pub Keeps : Option Server → Type 0
Keeps m = (k : Server) × (m ≡ some k) × IsSound k.sockets

lift-Keeps : (k : Server) (m : Option State) → Safe m → Keeps (lift k m)
lift-Keeps k m (w, eq, i) = (with_sockets k w, rw eq refl, i)

sent-IsSound : (p : Outgoing) (w : State) → IsSound w → IsSound (send p w)
sent-IsSound p w i = same_heap w (send p w) refl refl refl refl i

offline-Keeps : (t : ℕ) (k : Server) → IsSound k.sockets → Keeps (handle_offline t k)
unfolding handle_offline
offline-Keeps t k i =
    let (v, eq, iv, _) = run_transport_disconnects-IsSound t k.sockets i in
    lift-Keeps (set_transport t (record (k.transports t) { online = false }) k)
      (run_transport_disconnects t k.sockets) (v, eq, iv)

pub welcome-sockets : (t : ℕ) (banner : Bytes) (k : Server) → (greet t banner k).sockets ≡ k.sockets
unfolding greet
welcome-sockets t banner k = refl

welcome-Keeps :
    (t : ℕ) (banner : Bytes) (k : Server)
    → IsSound k.sockets
    → has_nul banner ≡ true
    → Keeps (welcome t banner k)
unfolding welcome
welcome-Keeps t banner k i nul = (greet t banner k, rw nul refl, rw (welcome-sockets t banner k) i)

cnxn-Keeps :
    (t : ℕ) (banner : Bytes) (k : Server)
    → IsSound k.sockets
    → has_nul banner ≡ true
    → Keeps (handle_cnxn t banner k)
unfolding handle_cnxn
cnxn-Keeps t banner k i nul = elim (Bool-cases (is_offline (k.transports t).connection_state)) [
  | inl off ↦ rw off (welcome-Keeps t banner k i nul)
  | inr on ↦
      let (k', eq, i') =
        offline-Keeps t
          (set_transport t (record (k.transports t) { connection_state = cs_offline }) k) i in
      rw (on, eq) (welcome-Keeps t banner k' i' nul)
]

sync-Keeps :
    (t arg0 arg1 : ℕ) (x : Bytes) (k : Server)
    → IsSound k.sockets
    → Keeps (handle_sync t arg0 arg1 x k)
unfolding handle_sync send_connect
sync-Keeps t arg0 arg1 x k i = elim (Bool-cases (arg0 == 0)) [
  | inl zero_arg ↦
      let (k', eq, i') =
        offline-Keeps t
          (set_transport t (record (k.transports t) { connection_state = cs_offline }) k) i in
      let w = send (echo t arg0 arg1 x) k'.sockets in
      (with_sockets k' w, rw (zero_arg, eq) refl, sent-IsSound (echo t arg0 arg1 x) k'.sockets i')
  | inr other ↦
      let w = send (echo t arg0 arg1 x) k.sockets in
      (
        with_sockets k (send_connect t w),
        rw other refl,
        sent-IsSound _ w (sent-IsSound (echo t arg0 arg1 x) k.sockets i),
      )
]

-- A banner ends with a NUL.
abbrev pub Terminated : Message → Type 0
Terminated (cnxn_packet banner) = has_nul banner ≡ true
Terminated _ = Unit

message-Keeps :
    (t : ℕ) (m : Message) (k : Server)
    → IsSound k.sockets
    → Terminated m
    → Keeps (handle_message t m k)
unfolding handle_message
message-Keeps t (sync_packet arg0 arg1 x) k i ends = sync-Keeps t arg0 arg1 x k i
message-Keeps t (cnxn_packet banner) k i ends = cnxn-Keeps t banner k i ends
message-Keeps t (socket_packet p) k i ends =
    lift-Keeps k (handle_packet (k.transports t).online t p k.sockets)
      (handle_packet-IsSound (k.transports t).online t p k.sockets i)
message-Keeps t other_packet k i ends = (k, refl, i)

client-Safe : (fd : ℕ) (w : State) → IsSound w → Safe (accept_client fd w)
unfolding accept_client
client-Safe fd w i =
    let e = create_self fd w i in
    let (v, eq, iv) =
      connect_to_smartsocket-Safe w.break (created fd w) (create_local_socket fd w)
        (create-IsSound fd w i) e refl (refl, refl, refl) in
    (v, rw (e, accept_client) eq, iv)

forward-Safe :
    (fd t : ℕ) (d : Bytes) (w : State)
    → IsSound w
    → length d + 1 ≤ max_payload - 1
    → Safe (forward_client fd t d w)
unfolding forward_client connect_to_remote
forward-Safe fd t d w i n =
    let s = w.break in
    let v = create_local_socket fd w in
    let e = create_self fd w i in
    let a : Asocket = record (created fd w) { transport = some t } in
    let u = store s a v in
    let iu = store-IsSound s (created fd w) a v (create-IsSound fd w i) e refl ((λ k. k), λ k. k) in
    let request : Outgoing = record {
      command = a_open;
      arg0 = a.id;
      arg1 = 0;
      payload = d ++ 0 ∷ [];
      via = some t;
    } in
    let eu : u.cell s ≡ some a = ground arith in
    let fits : ltb (max_payload - 1) (length d + 1) ≡ false = ground (arith, n) in
    (
      send request u,
      rw (e, forward_client, eu, connect_to_remote, fits) refl,
      sent-IsSound request u iu,
    )

-- What the theorems ask of an input: a packet is of a transport that was not freed, and a banner ends
-- with a NUL; a listener's transport was not freed, and its destination fits a packet; an event is of a
-- live socket, which has a peer or is closing, no write to a local peer fails, and the transport of a
-- smart peer was not freed; a transport is lost once.
unfoldable pub Allowed : Input → Server → Type 0
Allowed (message t m) k = (k.freed t ≡ false) × Terminated m
Allowed (lost t) k = k.freed t ≡ false
Allowed (forwarded fd t d) k = (k.freed t ≡ false) × (length d + 1 ≤ max_payload - 1)
Allowed (descriptor writable readable ws env evs force_eof s) k =
    (a : Asocket) × (k.sockets.cell s ≡ some a)
    × (a.peer ≡ none → a.closing ≡ true)
    × ((flush_new env.writes (fill evs max_payload).bytes).why ≢ broken)
    × Reaches (record env { offline = offline_at k }) a k.sockets
Allowed _ k = Unit

pub step-Keeps : (x : Input) (k : Server) → IsSound k.sockets → Allowed x k → Keeps (step x k)
unfolding step Allowed lose_transport
step-Keeps (message t m) k i (here, ends) =
    let (k', eq, i') = message-Keeps t m k i ends in (k', rw here eq, i')
step-Keeps (client fd) k i ok =
    lift-Keeps k (accept_client fd k.sockets) (client-Safe fd k.sockets i)
step-Keeps (forwarded fd t d) k i (here, fits) =
    let (k', eq, i') =
      lift-Keeps k (forward_client fd t d k.sockets) (forward-Safe fd t d k.sockets i fits) in
    (k', rw here eq, i')
step-Keeps (descriptor writable readable ws env evs force_eof s) k i (a, e, alone, writes, there) =
    let (v, eq, iv) =
      local_socket_event_func-IsSound writable readable ws (record env { offline = offline_at k })
        evs force_eof s a k.sockets i e alone writes there in
    (with_sockets k v, rw (e, step, eq) refl, iv)
step-Keeps (lost t) k i ok =
    let (v, eq, iv, _) = run_transport_disconnects-IsSound t k.sockets i in
    let later = record k { freed = λ u. u == t || k.freed u } in
    let (k', ek, i') = lift-Keeps later (run_transport_disconnects t k.sockets) (v, eq, iv) in
    (k', rw ok ek, i')
