-- ===== src/Sockets/Requests.antt =====
-- The smart socket of ADBTestCE/adb/sockets.cpp: `create_smart_socket`, `connect_to_smartsocket`, and
-- what `smart_socket_enqueue` does with a request once it has it.
use adbtest_ce.Prelude.{
  Bool, Bytes, List, Option, [], after_prefix, codes, false, if◌then◌else◌, none, some, true, ℕ,
  ◌+◌, ◌==◌, ◌∷◌,
}
use adbtest_ce.Io.{Acceptance}
use adbtest_ce.Smart.{feed_request, feed_wait, host_target, smart_feed}
use adbtest_ce.Wire.Failure.{fail_message}
use adbtest_ce.Sockets.State.{
  Asocket, State, local_socket_close, local_socket_close_notify, local_socket_ready,
  local_socket_ready_notify, smart_socket_close, smart_socket_enqueue, smart_socket_ready, store,
  tell, update,
}
use adbtest_ce.Sockets.Close.{close_socket, then_close}
use adbtest_ce.Sockets.Serve.{
  EnqueueResult, blank, closed_both, connect_to_remote, create_local_socket, not_ready,
  ready_for_more, ready_socket,
}
use adbtest_ce.Sockets.Protocol.{attach}

-- What `handle_host_request` does: it answers the client and is done; or it leaves the request to the
-- caller, with the transport that the smart socket has then, and what the client was told.
pub data HostReply : Type 0 where
  handled : Bytes → HostReply
  passed : Option ℕ → Bytes → HostReply

-- What the rest of the server answers: the results of `adb_write` on the receiver's descriptor,
-- `handle_host_request`, the descriptor of the host service, and which transports are offline: a
-- transport that was freed has no answer.
pub record Answers : Type 0 where
  pub writes : List Acceptance
  pub host : HostReply
  pub service : Option ℕ
  pub offline : ℕ → Option Bool

abbrev pub smart_asocket : Asocket
smart_asocket = record blank {
  enqueue = smart_socket_enqueue;
  ready = smart_socket_ready;
  close = smart_socket_close;
}

-- `create_smart_socket`: the new socket is in no list.
unfoldable pub create_smart_socket : State → State
create_smart_socket w = record w {
  cell = update w.cell w.break (some smart_asocket);
  break = w.break + 1;
}

-- `connect_to_smartsocket`, for a socket `a` at `s`.
unfoldable pub connect_to_smartsocket : ℕ → Asocket → State → Option State
unfolding create_smart_socket
connect_to_smartsocket s a w =
    ready_socket s (attach w.break smart_asocket s a (create_smart_socket w))

-- The bytes in front of the first NUL.
unfoldable pub c_string : Bytes → Bytes
c_string [] = []
c_string (c ∷ x) = let later = c_string x in if c == 0 then [] else c ∷ later

-- The end of `smart_socket_enqueue` at `fail`.
abbrev pub give_up : ℕ → State → Option (State × EnqueueResult)
give_up s w = then_close (close_socket s w) λ v. some (v, closed_both)

-- The client's socket `b` at `p` becomes a plain one, bound to the new service socket at `r`; then
-- the smart socket `a` at `s` closes. `w` is the state before the service socket is made.
unfoldable pub bind_service : ℕ → ℕ → Asocket → ℕ → Asocket → State → Option State
unfolding create_local_socket
bind_service fd s a p b w =
    let r = w.break in
    let c = record blank { fd = fd; id = w.local_socket_next_id } in
    let b' = record b { ready = local_socket_ready; close = local_socket_close; peer = some r } in
    let v = tell b.fd (codes "OKAY") (create_local_socket fd w) in
    let u =
      store s (record a { peer = none }) (store r (record c { peer = some p }) (store p b' v)) in
    then_close (close_socket s u) (ready_socket r)

-- A request for the server itself.
unfoldable pub host_request :
    Answers → ℕ → Asocket → ℕ → Asocket → Bytes → State → Option (State × EnqueueResult)
host_request env s a p b service w = elim env.host [
  | handled reply ↦ give_up s (tell b.fd reply w)
  | passed t reply ↦
      let a' = record a { transport = t } in
      let v = store s a' (tell b.fd reply w) in
      elim (after_prefix (codes "transport") service) [
        | some _ ↦ some (store s (record a' { pkts = [] ∷ [] }) v, ready_for_more)
        | none ↦ elim env.service [
          | none ↦ give_up s (tell b.fd (fail_message (codes "unknown host service")) v)
          | some fd ↦ then_close (bind_service fd s a' p b v) λ u. some (u, ready_for_more)
        ]
      ]
]

-- The client's socket as it waits for the device's answer.
abbrev pub notifying : Option ℕ → Asocket → Asocket
notifying t b = record b {
  ready = local_socket_ready_notify;
  close = local_socket_close_notify;
  peer = none;
  transport = t;
}

-- A request for the device at the transport `t`: the client's socket is left to the remote side.
unfoldable pub forward_request : ℕ → ℕ → Asocket → ℕ → Asocket → Bytes → State → Option State
forward_request t s a p b destination w =
    let v = connect_to_remote p destination (store p (notifying (some t) b) w) in
    then_close v λ u. close_socket s (store s (record a { peer = none }) u)

-- A request for a device: `s->transport->connection_state` is read with no test that the transport is
-- still there.
unfoldable pub device_request :
    Answers → ℕ → Asocket → ℕ → Asocket → Bytes → State → Option (State × EnqueueResult)
device_request env s a p b destination w =
    let refused = give_up s (tell b.fd (fail_message (codes "device offline (x)")) w) in
    elim a.transport [
      | none ↦ refused
      | some t ↦ elim (env.offline t) [
        | none ↦ none
        | some true ↦ refused
        | some false ↦ then_close (forward_request t s a p b destination w) λ u. some (u, not_ready)
      ]
    ]

-- The whole request, for the smart socket `a` at `s`: `s->peer` is read with no test.
unfoldable pub smart_request :
    Answers → ℕ → Asocket → Bytes → State → Option (State × EnqueueResult)
smart_request env s a request w = elim a.peer [
  | none ↦ none
  | some p ↦ elim (w.cell p) [
    | none ↦ none
    | some b ↦ elim (host_target request) [
      | some x ↦ host_request env s a p b x.service w
      | none ↦ device_request env s a p b request w
    ]
  ]
]

-- `s->pkt_first`; a smart socket keeps no second packet.
abbrev pub first_packet : List Bytes → Option Bytes
first_packet [] = none
first_packet (x ∷ _) = some x

unfoldable pub enqueue_smart :
    Answers → ℕ → Asocket → Bytes → State → Option (State × EnqueueResult)
enqueue_smart env s a x w = elim (smart_feed (first_packet a.pkts) x) [
  | feed_wait y ↦ some (store s (record a { pkts = y ∷ [] }) w, ready_for_more)
  | feed_request r ↦ smart_request env s a (c_string r) w
  | _ ↦ give_up s w
]
