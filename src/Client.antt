-- ===== src/Client.antt =====
-- The client's side of the text protocol, ADBTestCE/adb/adb_client.cpp: `switch_socket_transport`,
-- `_adb_connect`, and in Client.Session `adb_connect`, `adb_command` and `adb_query`, as the program compiles them, with no
-- server of its own to start. A descriptor is what its calls give, and a failed call of
-- `socket_loopback_client` is none. What reads or writes outside a buffer gives the fault `none`.
pub mod Session
pub mod Answers
pub mod Handshake
use adbtest_ce.Prelude.{
  Bool, Bytes, List, Option, [], after_prefix, codes, false, if◌then◌else◌, leb, length, none, some,
  true, ◌++◌,
}
use adbtest_ce.Io.{Acceptance, Arrival, Outcome, write_blocked, write_both, write_refused, written}
use adbtest_ce.Smart.{TransportType, transport_any, transport_host, transport_local, transport_usb}
use adbtest_ce.Wire.{Reply, accepted, adb_status, connect_request, hex4, rejected, reply_blocked}

-- A connection to the server: what arrives, and what the writes give.
pub record Connection : Type 0 where
  pub arrivals : List Arrival
  pub acceptances : List Acceptance

-- `__adb_serial` and `__adb_transport`.
pub record Target : Type 0 where
  pub adb_serial : Option Bytes
  pub adb_transport : TransportType

-- A descriptor with what is still to come on it; -1 with the text of `__adb_error`; -2; 0 with no
-- connection; or it waits.
pub data Dialled : Type 0 where
  connected : Connection → Dialled
  failed : Bytes → Dialled
  no_daemon started dial_blocked : Dialled

-- With the bytes that were written.
pub record Dial : Type 0 where
  pub result : Dialled
  pub sent : Bytes

abbrev pub write_failure : Bytes
write_failure = codes "write failure during connection"

unfoldable pub after_status : Reply → List Acceptance → Bytes → Dial
after_status (accepted rest) later sent = record {
  result = connected (record { arrivals = rest; acceptances = later });
  sent = sent;
}
after_status (rejected e) later sent = record { result = failed e; sent = sent }
after_status reply_blocked later sent = record { result = dial_blocked; sent = sent }

unfoldable pub after_write : Outcome → List Arrival → List Acceptance → Bytes → Dial
after_write written evs later sent = after_status (adb_status evs) later sent
after_write write_refused evs later sent = record { result = failed write_failure; sent = sent }
after_write write_blocked evs later sent = record { result = dial_blocked; sent = sent }

-- `if (writex(fd, tmp, 4) || writex(fd, service, len)) …; if (adb_status(fd)) …`
unfoldable pub send_service : Bytes → Connection → Dial
unfolding after_write after_status
send_service service c =
    let w = write_both c.acceptances (hex4 (length service)) service in
    after_write w.outcome c.arrivals w.later w.sent

-- The service that chooses the transport, in its 64 bytes; `some none` where no switch is needed.
unfoldable pub transport_service : Target → Option (Option Bytes)
transport_service t = elim t.adb_serial [
  | some serial ↦
      let text = codes "host:transport:" ++ serial in
      if leb 64 (length text) then none else some (some text)
  | none ↦ elim t.adb_transport [
    | transport_usb ↦ some (some (codes "host:transport-usb"))
    | transport_local ↦ some (some (codes "host:transport-local"))
    | transport_any ↦ some (some (codes "host:transport-any"))
    | transport_host ↦ some none
  ]
]

unfoldable pub switch_socket_transport : Target → Connection → Option Dial
switch_socket_transport t c = elim (transport_service t) [
  | none ↦ none
  | some none ↦ some (record { result = connected c; sent = [] })
  | some (some service) ↦ some (send_service service c)
]

-- After the switch, the service itself.
unfoldable pub after_switch : Bytes → Dial → Dial
after_switch service d = elim d.result [
  | connected c ↦
      let e = send_service service c in record { result = e.result; sent = d.sent ++ e.sent }
  | other ↦ d
]

-- `memcmp(service, "host", 4) == 0`.
abbrev pub is_host : Bytes → Bool
is_host service = elim (after_prefix (codes "host") service) [ some _ ↦ true | none ↦ false ]

unfoldable pub dial_service : Target → Bytes → Option Connection → Option Dial
dial_service t service none = some (record { result = no_daemon; sent = [] })
dial_service t service (some c) =
    if is_host service
    then some (send_service service c)
    else elim (switch_socket_transport t c) [ none ↦ none | some d ↦ some (after_switch service d) ]

-- `_adb_connect`.
unfoldable pub adb_connect_once : Target → Bytes → Option Connection → Option Dial
unfolding dial_service after_switch switch_socket_transport
adb_connect_once t service conn = elim (connect_request service) [
  | none ↦ some (record { result = failed (codes "service name too long"); sent = [] })
  | some _ ↦ dial_service t service conn
]
