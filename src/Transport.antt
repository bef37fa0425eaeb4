-- ===== src/Transport.antt =====
-- Transports (`atransport` of ADBTestCE/adb/adb.h) and the choice of one for a client's request:
-- `qual_match` and `acquire_one_transport` of ADBTestCE/adb/transport.cpp. A C string is its bytes
-- before the NUL, and a null pointer is `none`.
pub mod Match
pub mod Acquire
pub mod Count
mod Examples
use adbtest_ce.Prelude.{
  Bool, Bytes, List, Option, [], after_prefix, codes, equal, false, if◌then◌else◌, leb, none, not,
  some, true, ℕ, ◌&&◌, ◌==◌, ◌||◌, ◌∷◌,
}
use adbtest_ce.Smart.{TransportType, transport_any, transport_local, transport_usb}

pub data ConnectionState : Type 0 where
  cs_offline cs_bootloader cs_device cs_host cs_recovery cs_noperm cs_sideload : ConnectionState

-- The numbers of the states.
unfoldable pub state_code : ConnectionState → ℕ
state_code cs_offline = 0
state_code cs_bootloader = 1
state_code cs_device = 2
state_code cs_host = 3
state_code cs_recovery = 4
state_code cs_noperm = 5
state_code cs_sideload = 6

pub record Atransport : Type 0 where
  pub connection_state : ConnectionState
  pub online : Bool
  pub ttype : TransportType
  pub serial : Option Bytes
  pub product : Option Bytes
  pub model : Option Bytes
  pub device : Option Bytes
  pub devpath : Option Bytes

unfoldable pub qual_char_is_invalid : ℕ → Bool
qual_char_is_invalid ch =
    if leb b'A' ch && leb ch b'Z'
    then false
    else if leb b'a' ch && leb ch b'z'
    then false
    else if leb b'0' ch && leb ch b'9'
    then false
    else true

-- One character of the qualifier, as it is compared.
abbrev pub qual_char : Bool → ℕ → ℕ
qual_char sanitize_qual ch = if sanitize_qual && qual_char_is_invalid ch then b'_' else ch

-- `while (*qual)`, up to the NUL of the qualifier.
pub qual_loop : Bool → Bytes → Bytes → Bool
qual_loop sanitize_qual [] [] = true
qual_loop sanitize_qual [] (c ∷ to_test) = false
qual_loop sanitize_qual (q ∷ qual) [] = false
qual_loop sanitize_qual (q ∷ qual) (c ∷ to_test) =
    let rest = qual_loop sanitize_qual qual to_test in
    if qual_char sanitize_qual q == c then rest else false

is_null_string : Option Bytes → Bool
is_null_string none = true
is_null_string (some []) = true
is_null_string (some (c ∷ s)) = false

-- The loops, for a string that is not empty and a qualifier that is there. All calls have a prefix.
unfoldable pub qual_loops : Bytes → Bytes → Bytes → Bool → Bool
qual_loops to_test prefix qual sanitize_qual = elim (after_prefix prefix to_test) [
  | none ↦ false
  | some rest ↦ qual_loop sanitize_qual qual rest
]

unfoldable pub qual_match : Option Bytes → Bytes → Option Bytes → Bool → Bool
unfolding is_null_string qual_loops
qual_match none prefix qual sanitize_qual = is_null_string qual
qual_match (some []) prefix qual sanitize_qual = is_null_string qual
qual_match (some (c ∷ s)) prefix none sanitize_qual = false
qual_match (some (c ∷ s)) prefix (some qual) sanitize_qual =
    qual_loops (c ∷ s) prefix qual sanitize_qual

-- The texts for `error_out`.
pub data AcquireError : Type 0 where
  device_not_found insufficient_permissions more_than_one_device : AcquireError
  more_than_one_emulator more_than_one_device_emulator : AcquireError
  device_offline invalid_device_state : AcquireError

-- `t->serial && !strcmp(serial, t->serial)`.
unfoldable pub same_string : Bytes → Option Bytes → Bool
same_string s none = false
same_string s (some t) = equal s t

unfoldable pub serial_matches : Bytes → Atransport → Bool
unfolding same_string
serial_matches serial t =
    same_string serial t.serial
    || same_string serial t.devpath
    || qual_match (some serial) (codes "product:") t.product false
    || qual_match (some serial) (codes "model:") t.model true
    || qual_match (some serial) (codes "device:") t.device false

-- What the loop tests for one transport: `none` where it passes it by, and else the text for the
-- case that it is the second such.
type_candidate : TransportType → TransportType → Option AcquireError
type_candidate transport_usb transport_usb = some more_than_one_device
type_candidate transport_local transport_local = some more_than_one_emulator
type_candidate transport_any _ = some more_than_one_device_emulator
type_candidate _ _ = none

unfoldable pub candidate : TransportType → Option Bytes → Atransport → Option AcquireError
unfolding type_candidate
candidate ttype (some serial) t =
    if serial_matches serial t then some more_than_one_device else none
candidate ttype none t = type_candidate ttype t.ttype

unfoldable pub is_noperm : Atransport → Bool
is_noperm t = state_code t.connection_state == state_code cs_noperm

-- `result`, `*error_out` and `ambiguous` after the loop.
pub record Scan : Type 0 where
  pub result : Option Atransport
  pub error : AcquireError
  pub ambiguous : Bool

unfoldable pub scan :
    TransportType → Option Bytes → List Atransport → Option Atransport → AcquireError → Scan
scan ttype serial [] result error = record { result = result; error = error; ambiguous = false }
scan ttype serial (t ∷ ts) result error =
    let denied = scan ttype serial ts result insufficient_permissions in
    let passed = scan ttype serial ts result error in
    let first = scan ttype serial ts (some t) error in
    if is_noperm t then denied else elim (candidate ttype serial t) [
      | none ↦ passed
      | some why ↦ elim result [
        | none ↦ first
        | some other ↦ record { result = none; error = why; ambiguous = true }
      ]
    ]

-- `state != CS_ANY && t->connection_state != state`; `none` is CS_ANY.
unfoldable pub wrong_state : Option ConnectionState → Atransport → Bool
wrong_state none t = false
wrong_state (some state) t = not (state_code t.connection_state == state_code state)

-- What a try comes to.
pub data Attempt : Type 0 where
  acquired : Atransport → Attempt
  refused : AcquireError → Bool → Attempt

unfoldable pub settle_scan : Option ConnectionState → Scan → Attempt
settle_scan state s = elim s.result [
  | none ↦ refused s.error s.ambiguous
  | some t ↦
      if state_code t.connection_state == state_code cs_offline
      then refused device_offline s.ambiguous
      else if wrong_state state t
      then refused invalid_device_state s.ambiguous
      else acquired t
]

unfoldable pub attempt :
    Option ConnectionState → TransportType → Option Bytes → List Atransport → Attempt
attempt state ttype serial ts = settle_scan state (scan ttype serial ts none device_not_found)

-- `state != CS_ANY && (serial || !ambiguous)`: sleep for a second, and try again.
unfoldable pub tries_again : Option ConnectionState → Option Bytes → Bool → Bool
tries_again none serial ambiguous = false
tries_again (some state) (some serial) ambiguous = true
tries_again (some state) none ambiguous = not ambiguous

-- The list of transports as each try finds it; `none` where the function is still waiting.
unfoldable pub acquire_one_transport :
    Option ConnectionState → TransportType → Option Bytes → List (List Atransport) → Option Attempt
acquire_one_transport state ttype serial [] = none
acquire_one_transport state ttype serial (ts ∷ later) =
    let again = acquire_one_transport state ttype serial later in
    elim (attempt state ttype serial ts) [
      | acquired t ↦ some (acquired t)
      | refused e ambiguous ↦
          if tries_again state serial ambiguous then again else some (refused e ambiguous)
    ]
