-- ===== src/Smart.antt =====
-- The smart socket of ADBTestCE/adb/sockets.cpp, which reads one request from a client: how
-- `smart_socket_enqueue` collects it, `skip_host_serial`, and how the request is taken apart.
-- What the server then does with the request is in Sockets.Requests.
pub mod Framing
pub mod Target
mod Examples
use adbtest_ce.Wire.{unhex}
use adbtest_ce.Prelude.{
  Bool, Bytes, List, Option, [], after_prefix, codes, drop, if◌then◌else◌, leb, length, ltb, none,
  some, take, ℕ, ◌&&◌, ◌++◌, ◌+◌, ◌==◌, ◌||◌, ◌∷◌,
}
use adbtest_ce.Packet.{max_payload}

-- What `smart_socket_enqueue` knows after a packet: it waits for more, closes with a failure, or has
-- the request, which is the bytes from `p->data + 4` up to the NUL that it puts at `len + 4`.
pub data Feed : Type 0 where
  feed_wait : Bytes → Feed
  feed_overflow feed_bad_size : Feed
  feed_request : Bytes → Feed

unfoldable pub decode : Bytes → Feed
decode p =
    let len = unhex (take 4 p) in
    if ltb (length p) 4
    then feed_wait p
    else if ltb len 1 || ltb 1024 len
    then feed_bad_size
    else if ltb (length p) (len + 4)
    then feed_wait p
    else feed_request (take len (drop 4 p))

-- `first` is the content of `s->pkt_first`, if it is set.
unfoldable pub smart_feed : Option Bytes → Bytes → Feed
smart_feed none p = decode p
smart_feed (some first) p =
    if ltb max_payload (length first + length p) then feed_overflow else decode (first ++ p)

-- The packets of a client, one after another, until something else than waiting comes out.
unfoldable pub smart_feed_all : Option Bytes → List Bytes → Option Feed
smart_feed_all first [] = none
smart_feed_all first (p ∷ ps) = elim (smart_feed first p) [
  | feed_wait q ↦ smart_feed_all (some q) ps
  | other ↦ some other
]

-- The part up to a byte and the part behind it (`strchr`).
unfoldable pub split_at : ℕ → Bytes → Option (Bytes × Bytes)
split_at c [] = none
split_at c (b ∷ s) =
    let later = split_at c s in
    if b == c then some ([], s) else elim later [ none ↦ none | some (x, y) ↦ some (b ∷ x, y) ]

abbrev pub is_digit : ℕ → Bool
is_digit c = leb b'0' c && leb c b'9'

-- The digits at the front, and what follows them.
pub digits_then : Bytes → Bytes × Bytes
digits_then [] = ([], [])
digits_then (c ∷ s) =
    let later = digits_then s in if is_digit c then (c ∷ later.0, later.1) else ([], c ∷ s)

-- After the first colon: digits up to another colon belong to the serial number.
port_end : Bytes → Bytes → Bytes × Bytes
port_end host [] = (host, [])
port_end host (c ∷ s) =
    let plain : Bytes × Bytes = (host, c ∷ s) in
    let port = digits_then (c ∷ s) in
    if is_digit c
    then elim port.1 [
      | [] ↦ plain
      | b ∷ rest ↦ if b == b':' then (host ++ (b':' ∷ port.0), rest) else plain
    ]
    else plain

pub qualified : Bytes → Bytes → Option (Bytes × Bytes)
qualified prefix rest = elim (split_at b':' rest) [
  | none ↦ none
  | some (x, y) ↦ some (prefix ++ x, y)
]

unfoldable pub prefixes : List Bytes
prefixes = codes "usb:" ∷ codes "product:" ∷ codes "model:" ∷ codes "device:" ∷ []

unfoldable pub after_prefixes : List Bytes → Bytes → Option (Option (Bytes × Bytes))
after_prefixes [] service = none
after_prefixes (p ∷ ps) service =
    let later = after_prefixes ps service in
    elim (after_prefix p service) [ none ↦ later | some rest ↦ some (qualified p rest) ]

-- The serial number and the service that `skip_host_serial` parts, if it finds a colon.
unfoldable pub skip_host_serial : Bytes → Option (Bytes × Bytes)
unfolding qualified port_end
skip_host_serial service = elim (after_prefixes prefixes service) [
  | some found ↦ found
  | none ↦ elim (split_at b':' service) [
    | none ↦ none
    | some (host, rest) ↦ some (port_end host rest)
  ]
]

pub data TransportType : Type 0 where
  transport_usb transport_local transport_any transport_host : TransportType

-- The service, the transport type and the serial number that a request names; `none` for a service
-- of the device.
pub record HostTarget : Type 0 where
  pub service : Bytes
  pub ttype : TransportType
  pub serial : Option Bytes

abbrev pub target : Bytes → TransportType → HostTarget
target service ttype = record { service = service; ttype = ttype; serial = none }

-- `service` behind `host-serial:`.
serial_target : Bytes → HostTarget
serial_target rest = elim (skip_host_serial rest) [
  | none ↦ target rest transport_any
  | some (serial, service) ↦ record {
    service = service;
    ttype = transport_any;
    serial = some serial;
  }
]

unfoldable pub host_target : Bytes → Option HostTarget
unfolding serial_target
host_target request = elim (after_prefix (codes "host-serial:") request) [
  | some rest ↦ some (serial_target rest)
  | none ↦ elim (after_prefix (codes "host-usb:") request) [
    | some rest ↦ some (target rest transport_usb)
    | none ↦ elim (after_prefix (codes "host-local:") request) [
      | some rest ↦ some (target rest transport_local)
      | none ↦ elim (after_prefix (codes "host:") request) [
        | some rest ↦ some (target rest transport_any)
        | none ↦ none
      ]
    ]
  ]
]

-- What `format_host_command` of ADBTestCE/adb/commandline.cpp, the client's side of `host_target`, prints.
abbrev pub host_command : Bytes → TransportType → Option Bytes → Bytes
host_command command ttype (some serial) = codes "host-serial:" ++ serial ++ (b':' ∷ command)
host_command command transport_usb none = codes "host-usb:" ++ command
host_command command transport_local none = codes "host-local:" ++ command
host_command command _ none = codes "host:" ++ command

-- `snprintf`, which is `_snprintf`, into a buffer of `buflen` bytes: there is no NUL, and no text, where
-- the text fills the buffer or is longer.
unfoldable pub format_host_command : ℕ → Bytes → TransportType → Option Bytes → Option Bytes
format_host_command buflen command ttype serial =
    let text = host_command command ttype serial in
    if ltb (length text) buflen then some text else none
