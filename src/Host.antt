-- ===== src/Host.antt =====
-- What the server answers itself, `handle_host_request` and `connect_device` of ADBTestCE/adb/adb.cpp,
-- with `find_transport` and the ways that transports go, of ADBTestCE/adb/transport.cpp. A text
-- that fills its buffer is left with no NUL, since `snprintf` is `_snprintf`
-- (ADBTestCE/include/win32_adb.h); reading such a text, or a number that was never set, is the fault
-- `bad_read`.
pub mod Network
pub mod Requests
pub mod Truth
pub mod Queries
pub mod Switching
pub mod Forwarding
mod Examples
use adbtest_ce.Prelude.{
  Bool, Bytes, List, Option, [], after_prefix, codes, if◌then◌else◌, leb, length, none, some, ℕ,
  ◌++◌,
}
use adbtest_ce.Smart.{TransportType, transport_any, transport_local, transport_usb}
use adbtest_ce.Wire.{hex4}
use adbtest_ce.Wire.Failure.{fail_message}
use adbtest_ce.Transport.{
  AcquireError, Atransport, ConnectionState, acquired, attempt, cs_bootloader, cs_device,
  cs_offline, device_not_found, device_offline, insufficient_permissions, invalid_device_state,
  more_than_one_device, more_than_one_device_emulator, more_than_one_emulator, refused,
}
use adbtest_ce.Listing.{list_long, list_transports}
use adbtest_ce.Listeners.{Alistener}

-- What the code asks of the system: `local_name_to_fd`, whether `socket_network_client` and
-- `init_socket_transport` succeed for a host and a port, the address of a transport, and its
-- `adb_port`.
pub record Platform : Type 0 where
  pub local_fd : Option ℕ
  pub reaches : Bytes → ℕ → Bool
  pub address : Atransport → ℕ
  pub adb_port : Atransport → ℕ

-- The state of the server that requests change.
pub record Host : Type 0 where
  pub listeners : List Alistener
  pub transports : List Atransport

-- What goes to other threads and to the system: a new transport for registration, a transport that is
-- kicked and loses a reference, the port of a new emulator.
pub data Effect : Type 0 where
  registers : Bytes → ℕ → Effect
  unregisters : Atransport → Effect
  connects_local : Bytes → Effect

-- What is written on the reply's descriptor, and what becomes of the request: it is done (0), it is for
-- the device at a transport (1), the caller goes on (-1), or the server ends.
pub data Verdict : Type 0 where
  done_with : Verdict
  switched : Option ℕ → Verdict
  not_ours ends : Verdict

pub record Handled : Type 0 where
  pub verdict : Verdict
  pub reply : Bytes
  pub host : Host
  pub effects : List Effect

pub data HostOutcome : Type 0 where
  handled : Handled → HostOutcome
  bad_read : HostOutcome

abbrev pub answered : Bytes → Host → List Effect → HostOutcome
answered reply h es =
    handled (record { verdict = done_with; reply = reply; host = h; effects = es })

-- A buffer of `size` bytes as a C string after `snprintf`.
unfoldable pub printed : ℕ → Bytes → Option Bytes
printed size text = if leb size (length text) then none else some text

-- `snprintf(buf, sizeof(buf), "OKAY%04x%s", …); writex(reply_fd, buf, strlen(buf))`.
unfoldable pub okay_text : Bytes → Bytes
okay_text text = codes "OKAY" ++ (hex4 (length text) ++ text)

unfoldable pub reply_text : Bytes → Host → List Effect → HostOutcome
unfolding printed
reply_text text h es = elim (printed 4096 (okay_text text)) [
  | none ↦ bad_read
  | some x ↦ answered x h es
]

unfoldable pub error_text : AcquireError → Bytes
error_text device_not_found = codes "device not found"
error_text insufficient_permissions = codes "insufficient permissions for device"
error_text more_than_one_device = codes "more than one device"
error_text more_than_one_emulator = codes "more than one emulator"
error_text more_than_one_device_emulator = codes "more than one device emulator"
error_text device_offline = codes "device offline"
error_text invalid_device_state = codes "invalid device state"

-- The type that a service `transport…` names, and its serial number.
unfoldable pub switch_target : Bytes → Option Bytes → TransportType × Option Bytes
switch_target service serial = elim (after_prefix (codes "transport-usb") service) [
  | some _ ↦ (transport_usb, serial)
  | none ↦ elim (after_prefix (codes "transport-local") service) [
    | some _ ↦ (transport_local, serial)
    | none ↦ elim (after_prefix (codes "transport-any") service) [
      | some _ ↦ (transport_any, serial)
      | none ↦ elim (after_prefix (codes "transport:") service) [
        | some name ↦ (transport_any, some name)
        | none ↦ (transport_any, serial)
      ]
    ]
  ]
]

-- `acquire_one_transport(CS_ANY, …)`, which never waits: the first try decides.
unfoldable pub transport_request : Platform → Option ℕ → Bytes → Option Bytes → Host → HostOutcome
unfolding switch_target
transport_request sys old service serial h =
    let (type, name) = switch_target service serial in
    elim (attempt none type name h.transports) [
      | acquired t ↦ handled (record {
        verdict = switched (some (sys.address t));
        reply = codes "OKAY";
        host = h;
        effects = [];
      })
      | refused e ambiguous ↦ handled (record {
        verdict = switched old;
        reply = fail_message (error_text e);
        host = h;
        effects = [];
      })
    ]

-- `get-serialno` and `get-devpath`: a text of the transport, or "unknown".
unfoldable pub describe :
    (Atransport → Option Bytes) → TransportType → Option Bytes → Host → HostOutcome
unfolding reply_text
describe field ttype serial h = elim (attempt none ttype serial h.transports) [
  | acquired t ↦ elim (field t) [
    | none ↦ reply_text (codes "unknown") h []
    | some x ↦ reply_text x h []
  ]
  | refused e ambiguous ↦ reply_text (codes "unknown") h []
]

unfoldable pub connection_state_name : ConnectionState → Bytes
connection_state_name cs_bootloader = codes "bootloader"
connection_state_name cs_device = codes "device"
connection_state_name cs_offline = codes "offline"
connection_state_name _ = codes "unknown"

unfoldable pub devices_request : Bool → Host → HostOutcome
unfolding reply_text
devices_request use_long h =
    elim (if use_long then list_long 4096 h.transports [] else list_transports 4096 h.transports) [
      | none ↦ bad_read
      | some text ↦ reply_text text h []
    ]
