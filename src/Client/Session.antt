-- ===== src/Client/Session.antt =====
-- What the client does over several connections, ADBTestCE/adb/adb_client.cpp: `adb_connect`, which asks
-- for the server's version first, `adb_command` and `adb_query`.
use adbtest_ce.Prelude.{
  Bool, Bytes, List, Option, [], codes, drop, equal, false, if◌then◌else◌, leb, length, ltb, none,
  some, take, true, ℕ, ◌++◌, ◌==◌, ◌^◌, ◌∷◌,
}
use adbtest_ce.Io.{Reading, read_all, read_blocked, read_refused, readx}
use adbtest_ce.Wire.{accepted, adb_status, hex_value, rejected, reply_blocked, strtoul_hex}
use adbtest_ce.Client.{
  Connection, Dial, Dialled, Target, adb_connect_once, connected, dial_blocked, failed, no_daemon,
  started,
}

abbrev pub adb_server_version : ℕ
adb_server_version = 31

-- `sscanf(buf, "%04x", &version)` on four bytes at most, with no blank in front.
unfoldable pub scan_hex : Bytes → Option ℕ
scan_hex [] = none
scan_hex (c ∷ s) = elim (hex_value c) [ none ↦ none | some _ ↦ some (strtoul_hex (take 4 (c ∷ s))) ]

-- What the client makes of the answer to `host:version`: the version, an error, or it waits.
pub data Version : Type 0 where
  version : ℕ → Version
  version_error version_blocked : Version

-- `buf` holds the `n` bytes of the text, then what is left of the header, and its NUL.
unfoldable pub version_of : Bytes → Reading → Version
version_of header (read_all x rest) = elim (scan_hex (x ++ drop (length x) header)) [
  | none ↦ version_error
  | some v ↦ version v
]
version_of header read_refused = version_error
version_of header read_blocked = version_blocked

-- `n` is signed, so that a large one passes the test and the read leaves the buffer.
unfoldable pub read_version : Reading → Option Version
unfolding version_of
read_version (read_all x rest) =
    let n = strtoul_hex x in
    if leb (2 ^ 31) n
    then none
    else if ltb 100 n
    then some version_error
    else some (version_of x (readx rest n))
read_version read_refused = some version_error
read_version read_blocked = some version_blocked

-- The calls of `socket_loopback_client` in their order, and the result of the whole.
pub record Session : Type 0 where
  pub result : Dialled
  pub sent : List Bytes

abbrev pub first_of : List (Option Connection) → Option Connection
first_of [] = none
first_of (c ∷ cs) = c

abbrev pub rest_of : List (Option Connection) → List (Option Connection)
rest_of [] = []
rest_of (c ∷ cs) = cs

abbrev pub session : Bytes → Dial → Session
session before d = record { result = d.result; sent = before ∷ d.sent ∷ [] }

-- The server is asked for the service, unless all that was wanted is a server.
unfoldable pub ask_service : Target → Bytes → Bytes → List (Option Connection) → Option Session
ask_service t service before conns =
    if equal service (codes "host:start-server")
    then some (record { result = started; sent = before ∷ [] })
    else elim (adb_connect_once t service (first_of conns)) [
      | none ↦ none
      | some d ↦ some (record { result = d.result; sent = before ∷ d.sent ∷ [] })
    ]

-- The server is told to go, whatever it answers; it is not started again.
unfoldable pub replace_server : Target → Bytes → Bytes → List (Option Connection) → Option Session
unfolding ask_service
replace_server t service before conns =
    elim (adb_connect_once t (codes "host:kill") (first_of conns)) [
      | none ↦ none
      | some k ↦ elim (ask_service t service k.sent (rest_of conns)) [
        | none ↦ none
        | some s ↦ some (record s { sent = before ∷ s.sent })
      ]
    ]

unfoldable pub after_version :
    Target → Bytes → Bytes → List (Option Connection) → Version → Option Session
after_version t service before conns (version v) =
    if v == adb_server_version
    then ask_service t service before conns
    else replace_server t service before conns
after_version t service before conns version_error =
    some (record { result = failed []; sent = before ∷ [] })
after_version t service before conns version_blocked =
    some (record { result = dial_blocked; sent = before ∷ [] })

-- `adb_connect`.
unfoldable pub adb_connect : Target → Bytes → List (Option Connection) → Option Session
unfolding ask_service replace_server after_version read_version
adb_connect t service conns = elim (adb_connect_once t (codes "host:version") (first_of conns)) [
  | none ↦ none
  | some d ↦ elim d.result [
    | no_daemon ↦ ask_service t service d.sent (rest_of conns)
    | started ↦ none
    | connected c ↦ elim (read_version (readx c.arrivals 4)) [
      | none ↦ none
      | some v ↦ after_version t service d.sent (rest_of conns) v
    ]
    | failed e ↦
        if equal e (codes "unknown host service")
        then replace_server t service d.sent (rest_of conns)
        else some (record { result = failed e; sent = d.sent ∷ [] })
    | dial_blocked ↦ some (record { result = dial_blocked; sent = d.sent ∷ [] })
  ]
]

-- The text that the server sends behind its length; none where the client gives up.
pub data Answer : Type 0 where
  answer : Bytes → Answer
  no_answer answer_blocked : Answer

unfoldable pub answer_text : Reading → Answer
answer_text (read_all x rest) = answer x
answer_text read_refused = no_answer
answer_text read_blocked = answer_blocked

unfoldable pub answer_length : Reading → Answer
unfolding answer_text
answer_length (read_all x rest) =
    let n = strtoul_hex x in if ltb 1024 n then no_answer else answer_text (readx rest n)
answer_length read_refused = no_answer
answer_length read_blocked = answer_blocked

-- A result of 0 with no connection is used as a descriptor: a fault.
unfoldable pub adb_query : Target → Bytes → List (Option Connection) → Option Answer
unfolding answer_length
adb_query t service conns = elim (adb_connect t service conns) [
  | none ↦ none
  | some s ↦ elim s.result [
    | connected c ↦ some (answer_length (readx c.arrivals 4))
    | failed e ↦ some no_answer
    | no_daemon ↦ some no_answer
    | started ↦ none
    | dial_blocked ↦ some answer_blocked
  ]
]

-- `adb_command`: 0 is true.
unfoldable pub adb_command : Target → Bytes → List (Option Connection) → Option (Option Bool)
adb_command t service conns = elim (adb_connect t service conns) [
  | none ↦ none
  | some s ↦ elim s.result [
    | connected c ↦ elim (adb_status c.arrivals) [
      | accepted rest ↦ some (some true)
      | rejected e ↦ some (some false)
      | reply_blocked ↦ some none
    ]
    | failed e ↦ some (some false)
    | no_daemon ↦ some (some false)
    | started ↦ none
    | dial_blocked ↦ some none
  ]
]
