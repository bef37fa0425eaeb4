-- ===== src/Host/Network.antt =====
-- Devices at an address of the network: `connect_device` and the requests `connect:` and
-- `disconnect:` of `handle_host_request` (ADBTestCE/adb/adb.cpp), with `find_transport`,
-- `unregister_transport` and `unregister_all_tcp_transports` (ADBTestCE/adb/transport.cpp).
use adbtest_ce.Prelude.{
  Bool, Bytes, List, Option, [], after_prefix, codes, false, if◌then◌else◌, leb, length, ltb, none,
  some, suc, zero, ℕ, ◌%◌, ◌*◌, ◌++◌, ◌+◌, ◌-◌, ◌/◌, ◌==◌, ◌∷◌,
}
use adbtest_ce.Smart.{is_digit, split_at, transport_local}
use adbtest_ce.Transport.{Atransport, same_string}
use adbtest_ce.Host.{
  Effect, Host, HostOutcome, Platform, bad_read, printed, registers, reply_text, unregisters,
}

-- `%d` of a port, for at most `fuel` digits.
unfoldable pub digits_of : ℕ → ℕ → Bytes
digits_of zero n = []
digits_of (suc fuel) n =
    let before = digits_of fuel (n / 10) in
    if ltb n 10 then (b'0' + n) ∷ [] else before ++ (b'0' + n % 10) ∷ []

unfoldable pub show_port : ℕ → Bytes
unfolding digits_of
show_port n = digits_of 20 n

-- `sscanf(s, "%d", &port)` and `atoi`, for a port that is not negative: a number, no number, or the end
-- of the text before any, where `sscanf` gives -1 and sets nothing.
pub data Scanned : Type 0 where
  scanned : ℕ → Scanned
  no_number at_end : Scanned

unfoldable pub digits_value : ℕ → Bytes → ℕ
digits_value n [] = n
digits_value n (c ∷ s) = if is_digit c then digits_value (n * 10 + (c - b'0')) s else n

unfoldable pub scan_port : Bytes → Scanned
unfolding digits_value
scan_port [] = at_end
scan_port (c ∷ s) = if is_digit c then scanned (digits_value 0 (c ∷ s)) else no_number

unfoldable pub find_transport : Bytes → List Atransport → Option Atransport
find_transport serial [] = none
find_transport serial (t ∷ ts) =
    let later = find_transport serial ts in if same_string serial t.serial then some t else later

-- What is done for a host and a port, with the printed answer.
pub record Connecting : Type 0 where
  pub text : Bytes
  pub effects : List Effect

abbrev pub says : Bytes → List Effect → Option Connecting
says text es = some (record { text = text; effects = es })

unfoldable pub connect_at : Platform → Bytes → ℕ → List Atransport → Bytes → Option Connecting
unfolding show_port
connect_at sys hostbuf port ts host = elim (printed 100 (hostbuf ++ (b':' ∷ show_port port))) [
  | none ↦ none
  | some serial ↦ elim (find_transport serial ts) [
    | some _ ↦ says (codes "already connected to " ++ serial) []
    | none ↦
        if sys.reaches hostbuf port
        then says (codes "connected to " ++ serial) (registers serial port ∷ [])
        else says (codes "unable to connect to " ++ (host ++ (b':' ∷ show_port port))) []
  ]
]

-- `hostbuf` has 100 bytes, of which `strncpy` sets 99 and need not put a NUL.
unfoldable pub connect_device : Platform → Bytes → List Atransport → Option Connecting
unfolding connect_at scan_port
connect_device sys host ts = elim (split_at b':' host) [
  | some (name, port) ↦
      if leb 100 (length name)
      then says (codes "bad host name " ++ host) []
      else elim (scan_port port) [
        | at_end ↦ none
        | no_number ↦ says (codes "bad port number " ++ (b':' ∷ port)) []
        | scanned n ↦ connect_at sys name n ts host
      ]
  | none ↦ if leb 99 (length host) then none else connect_at sys host 5555 ts host
]

-- The answer of an emulator is read of a buffer that nothing has written.
unfoldable pub connect_host_request : Platform → Bytes → Host → HostOutcome
unfolding connect_device reply_text
connect_host_request sys host h = elim (after_prefix (codes "emu:") host) [
  | some _ ↦ bad_read
  | none ↦ elim (connect_device sys host h.transports) [
    | none ↦ bad_read
    | some c ↦ elim (printed 4096 c.text) [
      | none ↦ bad_read
      | some text ↦ reply_text text h c.effects
    ]
  ]
]

-- `unregister_transport`: the first transport of the serial number leaves the list.
unfoldable pub without_transport : Bytes → List Atransport → List Atransport
without_transport serial [] = []
without_transport serial (t ∷ ts) =
    let later = t ∷ without_transport serial ts in if same_string serial t.serial then ts else later

unfoldable pub is_tcp : Platform → Atransport → Bool
is_tcp sys t = elim t.ttype [ transport_local ↦ sys.adb_port t == 0 | _ ↦ false ]

unfoldable pub without_tcp : Platform → List Atransport → List Atransport
unfolding is_tcp
without_tcp sys [] = []
without_tcp sys (t ∷ ts) =
    let later = without_tcp sys ts in if is_tcp sys t then later else t ∷ later

unfoldable pub tcp_unregistered : Platform → List Atransport → List Effect
tcp_unregistered sys [] = []
tcp_unregistered sys (t ∷ ts) =
    let later = tcp_unregistered sys ts in if is_tcp sys t then unregisters t ∷ later else later

-- Port 5555 where the serial number has no colon; its buffer of 100 bytes gets 99.
unfoldable pub full_serial : Bytes → Option Bytes
full_serial serial = elim (split_at b':' serial) [
  | some _ ↦ some serial
  | none ↦ printed 99 (serial ++ codes ":5555")
]

unfoldable pub disconnect_serial : Bytes → Host → HostOutcome
unfolding full_serial without_transport find_transport reply_text
disconnect_serial name h = elim (full_serial name) [
  | none ↦ bad_read
  | some serial ↦ elim (find_transport serial h.transports) [
    | some t ↦
        reply_text [] (record h { transports = without_transport serial h.transports })
          (unregisters t ∷ [])
    | none ↦ elim (printed 4096 (codes "No such device " ++ serial)) [
      | none ↦ bad_read
      | some text ↦ reply_text text h []
    ]
  ]
]

unfoldable pub disconnect_host_request : Platform → Bytes → Host → HostOutcome
unfolding disconnect_serial without_tcp tcp_unregistered reply_text
disconnect_host_request sys [] h =
    reply_text [] (record h { transports = without_tcp sys h.transports })
      (tcp_unregistered sys h.transports)
disconnect_host_request sys (c ∷ s) h = disconnect_serial (c ∷ s) h
