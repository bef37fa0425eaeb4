-- ===== src/Host/Requests.antt =====
-- `handle_host_request` of ADBTestCE/adb/adb.cpp: the requests to forward a port, and the whole.
use adbtest_ce.Prelude.{
  Bool, Bytes, List, Option, [], after_prefix, codes, equal, false, if◌then◌else◌, none, some, true,
  ℕ, ◌∷◌,
}
use adbtest_ce.Smart.{TransportType, split_at}
use adbtest_ce.Wire.{hex4}
use adbtest_ce.Wire.Failure.{fail_message}
use adbtest_ce.Transport.{acquired, attempt, refused}
use adbtest_ce.Listeners.{
  Alistener, Installing, bad_pointer, cannot_bind, install_listener, installed, is_special,
  not_repurposed, remove_listener,
}
use adbtest_ce.Host.{
  Host, HostOutcome, Platform, answered, bad_read, connection_state_name, connects_local, describe,
  devices_request, ends, error_text, handled, not_ours, reply_text, transport_request,
}
use adbtest_ce.Host.Network.{connect_host_request, disconnect_host_request}

-- The name, and where it is to lead; none for a malformed text.
unfoldable pub forward_spec : Bytes → Option (Bytes × Bytes)
forward_spec spec = elim (split_at b';' spec) [
  | none ↦ none
  | some ([], remote) ↦ none
  | some (c ∷ local, []) ↦ none
  | some (c ∷ local, d ∷ remote) ↦
      if is_special (d ∷ remote) then none else some (c ∷ local, d ∷ remote)
]

-- The first OKAY is for the connection, the second one for the status.
unfoldable pub forwarded : Host → Installing → HostOutcome
forwarded h (installed ls) = answered (codes "OKAYOKAY") (record h { listeners = ls }) []
forwarded h not_repurposed = answered (fail_message (codes "cannot rebind smartsocket")) h []
forwarded h cannot_bind = answered (fail_message (codes "cannot bind socket")) h []
forwarded h bad_pointer = bad_read

unfoldable pub unforwarded : Host → Option (List Alistener) → HostOutcome
unforwarded h (some ls) = answered (codes "OKAYOKAY") (record h { listeners = ls }) []
unforwarded h none = answered (fail_message (codes "cannot remove listener")) h []

unfoldable pub forward_port_request :
    Platform → Bool → Bytes → TransportType → Option Bytes → Host → HostOutcome
unfolding forward_spec forwarded unforwarded
forward_port_request sys create_forward spec ttype serial h = elim (forward_spec spec) [
  | none ↦ answered (fail_message (codes "malformed forward spec")) h []
  | some (local, remote) ↦ elim (attempt none ttype serial h.transports) [
    | refused e ambiguous ↦ answered (fail_message (error_text e)) h []
    | acquired t ↦
        if create_forward
        then forwarded h
            (install_listener sys.local_fd local remote (some (sys.address t)) h.listeners)
        else unforwarded h (remove_listener local remote (some (sys.address t)) h.listeners)
  ]
]

unfoldable pub state_request : TransportType → Option Bytes → Host → HostOutcome
unfolding reply_text
state_request ttype serial h = elim (attempt none ttype serial h.transports) [
  | acquired t ↦ reply_text (connection_state_name t.connection_state) h []
  | refused e ambiguous ↦ reply_text (codes "unknown") h []
]

-- `ADB_SERVER_VERSION`.
abbrev pub version_text : Bytes
version_text = hex4 31

abbrev pub declined : Host → HostOutcome
declined h = handled (record { verdict = not_ours; reply = []; host = h; effects = [] })

-- The services behind the trackers of devices.
unfoldable pub later_request : Platform → Bytes → TransportType → Option Bytes → Host → HostOutcome
unfolding forward_port_request state_request describe
later_request sys service ttype serial h = elim (after_prefix (codes "get-serialno") service) [
  | some _ ↦ describe (λ t. t.serial) ttype serial h
  | none ↦ elim (after_prefix (codes "get-devpath") service) [
    | some _ ↦ describe (λ t. t.devpath) ttype serial h
    | none ↦ elim (after_prefix (codes "emulator:") service) [
      | some port ↦ answered [] h (connects_local port ∷ [])
      | none ↦ elim (after_prefix (codes "forward:") service) [
        | some spec ↦ forward_port_request sys true spec ttype serial h
        | none ↦ elim (after_prefix (codes "killforward:") service) [
          | some spec ↦ forward_port_request sys false spec ttype serial h
          | none ↦ elim (after_prefix (codes "get-state") service) [
            | some _ ↦ state_request ttype serial h
            | none ↦ declined h
          ]
        ]
      ]
    ]
  ]
]

-- `devices` and `devices-l`; any other text behind `devices` is no request of the server.
unfoldable pub wants_devices : Bytes → Option Bool
wants_devices service =
    if equal service (codes "devices")
    then some false
    else if equal service (codes "devices-l")
    then some true
    else none

-- `old` is the transport that the smart socket has.
unfoldable pub handle_host_request :
    Platform → Option ℕ → Bytes → TransportType → Option Bytes → Host → HostOutcome
unfolding later_request wants_devices devices_request transport_request connect_host_request
    disconnect_host_request reply_text
handle_host_request sys old service ttype serial h =
    if equal service (codes "kill")
    then handled (record { verdict = ends; reply = codes "OKAY"; host = h; effects = [] })
    else elim (after_prefix (codes "transport") service) [
      | some _ ↦ transport_request sys old service serial h
      | none ↦ elim (wants_devices service) [
        | some use_long ↦ devices_request use_long h
        | none ↦ elim (after_prefix (codes "connect:") service) [
          | some host ↦ connect_host_request sys host h
          | none ↦ elim (after_prefix (codes "disconnect:") service) [
            | some name ↦ disconnect_host_request sys name h
            | none ↦
                if equal service (codes "version")
                then reply_text version_text h []
                else later_request sys service ttype serial h
          ]
        ]
      ]
    ]
