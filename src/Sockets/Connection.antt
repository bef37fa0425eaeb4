-- ===== src/Sockets/Connection.antt =====
-- The packets that concern a whole transport, of ADBTestCE/adb/adb.cpp: SYNC and CNXN in
-- `handle_packet`, `handle_online`, `handle_offline` and `send_connect`, as the host compiles them; a
-- client that connects (`ss_listener_event_func`); and what the server's main loop hands out.
use adbtest_ce.Prelude.{
  Bool, Bytes, List, Option, [], codes, false, if◌then◌else◌, none, some, true, ℕ, ◌++◌, ◌==◌, ◌||◌,
  ◌∷◌,
}
use adbtest_ce.Io.{Acceptance, Arrival}
use adbtest_ce.Packet.{max_payload}
use adbtest_ce.Transport.{Atransport, ConnectionState, cs_offline}
use adbtest_ce.Banner.{parse_banner}
use adbtest_ce.Sockets.State.{Outgoing, State, a_cnxn, a_sync, send, store}
use adbtest_ce.Sockets.Serve.{connect_to_remote, create_local_socket}
use adbtest_ce.Sockets.Protocol.{Incoming, handle_packet}
use adbtest_ce.Sockets.Requests.{Answers, c_string, connect_to_smartsocket}
use adbtest_ce.Sockets.Reading.{local_socket_event_func}
use adbtest_ce.Sockets.Shutdown.{run_transport_disconnects}

-- The sockets, the transport at each pointer, and the pointers whose transport was freed.
pub record Server : Type 0 where
  pub sockets : State
  pub transports : ℕ → Atransport
  pub freed : ℕ → Bool

abbrev pub set_transport : ℕ → Atransport → Server → Server
set_transport t a k = record k { transports = λ u. if u == t then a else k.transports u }

abbrev pub with_sockets : Server → State → Server
with_sockets k w = record k { sockets = w }

abbrev pub lift : Server → Option State → Option Server
lift k none = none
lift k (some w) = some (with_sockets k w)

unfoldable pub handle_online : ℕ → Server → Server
handle_online t k = set_transport t (record (k.transports t) { online = true }) k

unfoldable pub handle_offline : ℕ → Server → Option Server
handle_offline t k =
    let off = set_transport t (record (k.transports t) { online = false }) k in
    lift off (run_transport_disconnects t k.sockets)

-- `t->connection_state = CS_OFFLINE; handle_offline(t)`.
abbrev pub go_offline : ℕ → Server → Option Server
go_offline t k =
    handle_offline t (set_transport t (record (k.transports t) { connection_state = cs_offline }) k)

abbrev pub a_version : ℕ
a_version = 0x01000000

-- `send_connect`, where `fill_connect_data` gives `host::` and its NUL.
unfoldable pub send_connect : ℕ → State → State
send_connect t w =
    let cp : Outgoing = record {
      command = a_cnxn;
      arg0 = a_version;
      arg1 = max_payload;
      payload = codes "host::" ++ 0 ∷ [];
      via = some t;
    } in
    send cp w

-- A packet, with what the environment answers to it where it is for a socket; a command that is none
-- of these is dropped.
pub data Message : Type 0 where
  sync_packet : ℕ → ℕ → Bytes → Message
  cnxn_packet : Bytes → Message
  socket_packet : Incoming → Message
  other_packet : Message

-- The SYNC packet goes back as it came.
abbrev pub echo : ℕ → ℕ → ℕ → Bytes → Outgoing
echo t arg0 arg1 x = record {
  command = a_sync;
  arg0 = arg0;
  arg1 = arg1;
  payload = x;
  via = some t;
}

abbrev pub is_offline : ConnectionState → Bool
is_offline cs_offline = true
is_offline _ = false

-- There is a NUL byte.
unfoldable pub has_nul : Bytes → Bool
has_nul [] = false
has_nul (c ∷ x) = c == 0 || has_nul x

-- The banner is read up to its NUL.
unfoldable pub greet : ℕ → Bytes → Server → Server
unfolding handle_online
greet t banner k =
    handle_online t (set_transport t (parse_banner (c_string banner) (k.transports t)) k)

-- With no NUL, `parse_banner` runs on behind the packet's data.
unfoldable pub welcome : ℕ → Bytes → Server → Option Server
unfolding greet
welcome t banner k = if has_nul banner then some (greet t banner k) else none

-- CNXN: a transport that is not offline goes offline first.
unfoldable pub handle_cnxn : ℕ → Bytes → Server → Option Server
handle_cnxn t banner k =
    if is_offline (k.transports t).connection_state
    then welcome t banner k
    else elim (go_offline t k) [ none ↦ none | some k' ↦ welcome t banner k' ]

-- SYNC, where `send_packet` sends the packet itself.
unfoldable pub handle_sync : ℕ → ℕ → ℕ → Bytes → Server → Option Server
unfolding send_connect
handle_sync t arg0 arg1 x k =
    let p = echo t arg0 arg1 x in
    if arg0 == 0
    then elim (go_offline t k) [
      | none ↦ none
      | some k' ↦ some (with_sockets k' (send p k'.sockets))
    ]
    else some (with_sockets k (send_connect t (send p k.sockets)))

unfoldable pub handle_message : ℕ → Message → Server → Option Server
handle_message t (sync_packet arg0 arg1 x) k = handle_sync t arg0 arg1 x k
handle_message t (cnxn_packet banner) k = handle_cnxn t banner k
handle_message t (socket_packet p) k = lift k (handle_packet (k.transports t).online t p k.sockets)
handle_message t other_packet k = some k

-- `ss_listener_event_func`, once `adb_socket_accept` gives a descriptor.
unfoldable pub accept_client : ℕ → State → Option State
accept_client fd w =
    let s = w.break in
    let v = create_local_socket fd w in
    elim (v.cell s) [ none ↦ none | some a ↦ connect_to_smartsocket s a v ]

-- `listener_event_func`, likewise: a client of the listener's port goes to `l->connect_to` at the
-- listener's transport.
unfoldable pub forward_client : ℕ → ℕ → Bytes → State → Option State
forward_client fd t connect_to w =
    let s = w.break in
    let v = create_local_socket fd w in
    elim (v.cell s) [
      | none ↦ none
      | some a ↦ connect_to_remote s connect_to (store s (record a { transport = some t }) v)
    ]

-- What the main loop hands out: a packet of a transport, a client, a client of a listener, the two
-- bits of an event of a socket's descriptor with the answers to it, or the end of a transport.
pub data Input : Type 0 where
  message : ℕ → Message → Input
  client : ℕ → Input
  forwarded : ℕ → ℕ → Bytes → Input
  descriptor : Bool → Bool → List Acceptance → Answers → List Arrival → Bool → ℕ → Input
  lost : ℕ → Input

-- What is read of the transport at a pointer: whether it is offline.
abbrev pub offline_at : Server → ℕ → Option Bool
offline_at k t = if k.freed t then none else some (is_offline (k.transports t).connection_state)

-- `transport_registration_func` with `action` 0: the transport's disconnects run, and it is freed.
unfoldable pub lose_transport : ℕ → Server → Option Server
lose_transport t k =
    let later = record k { freed = λ u. u == t || k.freed u } in
    lift later (run_transport_disconnects t k.sockets)

-- A transport that was freed is a fault wherever it is used; what the smart socket reads of its
-- transport is what the server has there.
unfoldable pub step : Input → Server → Option Server
unfolding lose_transport
step (message t m) k = if k.freed t then none else handle_message t m k
step (client fd) k = lift k (accept_client fd k.sockets)
step (forwarded fd t connect_to) k =
    if k.freed t then none else lift k (forward_client fd t connect_to k.sockets)
step (descriptor writable readable ws env evs force_eof s) k = elim (k.sockets.cell s) [
  | none ↦ none
  | some a ↦
      let here = record env { offline = offline_at k } in
      lift k (local_socket_event_func writable readable ws here evs force_eof s a k.sockets)
]
step (lost t) k = if k.freed t then none else lose_transport t k
