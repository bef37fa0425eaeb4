-- ===== src/Client/Handshake.antt =====
-- The client's question for the server's version, and what follows it (`adb_connect`, `adb_query` and
-- `adb_command`, ADBTestCE/adb/adb_client.cpp).
use adbtest_ce.Prelude.{
  All, Bytes, List, Option, [], after_prefix, ap, append_assoc, arith, codes, equal, false,
  if◌then◌else◌, length, ltb, refl, some, true, ◌++◌, ◌<◌, ◌∙◌, ◌∷◌, ◌≡◌, ◌≤◌,
}
use adbtest_ce.Io.{readx}
use adbtest_ce.Wire.Hex.{length-hex4}
use adbtest_ce.Io.ReadLoop.{IsHealthy, stream}
use adbtest_ce.Wire.{connect_request, hex4}
use adbtest_ce.Host.{okay_text}
use adbtest_ce.Client.{Connection, Dial, Target, adb_connect_once, connected, is_host, send_service}
use adbtest_ce.Client.Session.{
  Session, Version, adb_connect, adb_query, adb_server_version, after_version, answer,
  answer_length, ask_service, first_of, no_answer, read_version, rest_of, version,
}
use adbtest_ce.Client.Answers.{Takes, answer_length-hex4, read_version-hex4, send_service-okay}

-- A connection to a server of the client's version, which answers `host:version`.
pub record IsCurrent (c : Connection) : Type 0 where
  pub takes : Takes c (codes "host:version")
  pub healthy : All IsHealthy c.arrivals
  pub more : Bytes
  pub answers : stream c.arrivals ≡ okay_text (hex4 adb_server_version) ++ more

-- A service of the server, of a length that it allows, and not the one that is answered with no
-- connection.
pub record IsHostService (service : Bytes) : Type 0 where
  pub for_host : is_host service ≡ true
  pub not_empty : 0 < length service
  pub not_long : length service ≤ 1024
  pub not_start : equal service (codes "host:start-server") ≡ false

abbrev pub frame : Bytes → Bytes
frame service = hex4 (length service) ++ service

once_host :
    (t : Target) (service : Bytes) (c : Connection)
    → IsHostService service
    → adb_connect_once t service (some c) ≡ some (send_service service c)
unfolding adb_connect_once connect_request
once_host t service c h = ground (arith, h.for_host, h.not_empty, h.not_long)

version_service : IsHostService (codes "host:version")
unfolding after_prefix equal
version_service = record {
  for_host = refl;
  not_empty = omega arith;
  not_long = omega arith;
  not_start = refl;
}

-- The parts of an answer.
pub okay_text-append :
    (text more : Bytes)
    → okay_text text ++ more ≡ codes "OKAY" ++ (hex4 (length text) ++ (text ++ more))
unfolding okay_text
okay_text-append text more =
    ap (λ z. codes "OKAY" ++ z) (append_assoc (hex4 (length text)) text more)

ask_turn :
    (t : Target) (service before : Bytes) (conns : List (Option Connection)) (d : Dial)
    → equal service (codes "host:start-server") ≡ false
    → adb_connect_once t service (first_of conns) ≡ some d
    → ask_service t service before conns
      ≡ some (record { result = d.result; sent = before ∷ d.sent ∷ [] })
unfolding ask_service
ask_turn t service before conns d other e = ground (arith, other, e)

connect_turn :
    (t : Target) (service : Bytes) (conns : List (Option Connection)) (d : Dial) (c : Connection)
    (v : Version)
    → adb_connect_once t (codes "host:version") (first_of conns) ≡ some d
    → d.result ≡ connected c
    → read_version (readx c.arrivals 4) ≡ some v
    → adb_connect t service conns ≡ after_version t service d.sent (rest_of conns) v
unfolding adb_connect
connect_turn t service conns d c v once result read = ground (arith, once, result, read)

-- A server of the right version is asked for the service next, on a new connection.
pub adb_connect-IsCurrent :
    (t : Target) (service : Bytes) (c : Connection) (conns : List (Option Connection))
    → IsCurrent c
    → adb_connect t service (some c ∷ conns)
      ≡ ask_service t service (frame (codes "host:version")) conns
unfolding after_version
adb_connect-IsCurrent t service c conns cur =
    let (d, sd, st, hd) =
      send_service-okay (codes "host:version") c (hex4 4 ++ (hex4 adb_server_version ++ cur.more))
        cur.takes cur.healthy
        (cur.answers
          ∙ okay_text-append (hex4 adb_server_version) cur.more
          ∙ ap (λ n. codes "OKAY" ++ (hex4 n ++ (hex4 adb_server_version ++ cur.more)))
              (length-hex4 adb_server_version)) in
    connect_turn t service (some c ∷ conns)
      (record { result = connected d; sent = frame (codes "host:version") }) d
      (version adb_server_version)
      (once_host t (codes "host:version") c version_service ∙ ap some sd) refl
      (read_version-hex4 d.arrivals cur.more hd st)

query_turn :
    (t : Target) (service : Bytes) (conns : List (Option Connection)) (s : Session) (b : Connection)
    → adb_connect t service conns ≡ some s
    → s.result ≡ connected b
    → adb_query t service conns ≡ some (answer_length (readx b.arrivals 4))
unfolding adb_query
query_turn t service conns s b e r = ground (arith, e, r)

-- The client's question on a connection that answers a text: the text, if it is not too long.
pub adb_query-okay_text :
    (t : Target) (service text more : Bytes) (c d : Connection) (conns : List (Option Connection))
    → IsCurrent c
    → IsHostService service
    → Takes d service
    → All IsHealthy d.arrivals
    → length text < 65536
    → stream d.arrivals ≡ okay_text text ++ more
    → adb_query t service (some c ∷ some d ∷ conns)
      ≡ some (if ltb 1024 (length text) then no_answer else answer text)
adb_query-okay_text t service text more c d conns cur host takes healthy small e =
    let (b, sb, st, hb) =
      send_service-okay service d (hex4 (length text) ++ (text ++ more)) takes healthy
        (e ∙ okay_text-append text more) in
    let asked =
      adb_connect-IsCurrent t service c (some d ∷ conns) cur
      ∙ ask_turn t service (frame (codes "host:version")) (some d ∷ conns)
          (record { result = connected b; sent = frame service }) host.not_start
          (once_host t service d host ∙ ap some sb) in
    query_turn t service (some c ∷ some d ∷ conns) _ b asked refl
    ∙ ap some (answer_length-hex4 b.arrivals text more hb small st)
