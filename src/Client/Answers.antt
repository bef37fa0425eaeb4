-- ===== src/Client/Answers.antt =====
-- How a client reads what the server answers (`adb_status`, and the ends of `adb_connect` and
-- `adb_query`, ADBTestCE/adb/adb_client.cpp).
use adbtest_ce.Prelude.{
  All, Bytes, List, [], ap, append-nil, arith, codes, equal, if◌then◌else◌, length, ltb, none, refl,
  some, sym, ◌++◌, ◌<◌, ◌∙◌, ◌≡◌,
}
use adbtest_ce.Io.{Acceptance, Arrival, readx, write_both, written}
use adbtest_ce.Io.ReadLoop.{IsHealthy, readx_front, stream}
use adbtest_ce.Wire.{accepted, adb_status, hex4, hex_digit, hex_value}
use adbtest_ce.Wire.Hex.{length-hex4, strtoul_hex-hex4}
use adbtest_ce.Client.{Connection, Dial, connected, send_service}
use adbtest_ce.Client.Session.{
  adb_server_version, answer, answer_length, no_answer, read_version, scan_hex, version,
  version_error,
}
use adbtest_ce.Io.WriteLoop.{write_both-append}

-- After OKAY the rest of the stream is still to come.
pub adb_status-okay :
    (evs : List Arrival) (more : Bytes)
    → All IsHealthy evs
    → stream evs ≡ codes "OKAY" ++ more
    → (rest : List Arrival) × (adb_status evs ≡ accepted rest)
      × (stream rest ≡ more)
      × All IsHealthy rest
unfolding adb_status equal
adb_status-okay evs more h e =
    let (rest, r, s, hr) = readx_front evs 4 (codes "OKAY") more h e refl in
    (rest, rw r refl, s, hr)

-- A text behind its length is read whole, if it is not too long for the client.
pub answer_length-hex4 :
    (evs : List Arrival) (text more : Bytes)
    → All IsHealthy evs
    → length text < 65536
    → stream evs ≡ hex4 (length text) ++ (text ++ more)
    → answer_length (readx evs 4) ≡ (if ltb 1024 (length text) then no_answer else answer text)
unfolding answer_length
answer_length-hex4 evs text more h small e =
    let (rest, r, s, hr) =
      readx_front evs 4 (hex4 (length text)) (text ++ more) h e (length-hex4 (length text)) in
    let (rest', r', s', hr') = readx_front rest (length text) text more hr s refl in
    rw (r, strtoul_hex-hex4 (length text) small, r')

scan_version : scan_hex (hex4 adb_server_version ++ []) ≡ some adb_server_version
unfolding scan_hex hex4 hex_digit hex_value
scan_version = ap some (strtoul_hex-hex4 adb_server_version (omega arith))

-- The version that the server prints is the one that the client wants.
pub read_version-hex4 :
    (evs : List Arrival) (more : Bytes)
    → All IsHealthy evs
    → stream evs ≡ hex4 4 ++ (hex4 adb_server_version ++ more)
    → read_version (readx evs 4) ≡ some (version adb_server_version)
unfolding read_version
read_version-hex4 evs more h e =
    let (rest, r, s, hr) =
      readx_front evs 4 (hex4 4) (hex4 adb_server_version ++ more) h e (length-hex4 4) in
    let (rest', r', s', hr') =
      readx_front rest 4 (hex4 adb_server_version) more hr s (length-hex4 adb_server_version) in
    rw (r, strtoul_hex-hex4 4 (omega arith), r')
      (unfold hex4 in
        ap (λ o. some (elim o [ none ↦ version_error | some v ↦ version v ])) scan_version)

-- The connection takes the request for a service whole.
abbrev pub Takes : Connection → Bytes → Type 0
Takes c service = (write_both c.acceptances (hex4 (length service)) service).outcome ≡ written

sent_all :
    (ws : List Acceptance) (x y : Bytes)
    → (write_both ws x y).outcome ≡ written
    → (write_both ws x y).sent ≡ x ++ y
sent_all ws x y h =
    let (whole, all) = write_both-append ws x y in
    sym (append-nil (write_both ws x y).sent)
    ∙ ap (λ z. (write_both ws x y).sent ++ z) (sym (all h))
    ∙ whole

-- A request that the server accepts: the client has written its frame, and goes on with the connection.
pub send_service-okay :
    (service : Bytes) (c : Connection) (more : Bytes)
    → Takes c service
    → All IsHealthy c.arrivals
    → stream c.arrivals ≡ codes "OKAY" ++ more
    → (d : Connection) × (send_service service c
        ≡ record { result = connected d; sent = hex4 (length service) ++ service })
      × (stream d.arrivals ≡ more)
      × All IsHealthy d.arrivals
unfolding send_service
send_service-okay service c more takes h e =
    let (rest, r, s, hr) = adb_status-okay c.arrivals more h e in
    let w = write_both c.acceptances (hex4 (length service)) service in
    (
      record { arrivals = rest; acceptances = w.later },
      rw (takes, r)
          (ap
            (λ z.
              let d : Dial = record {
                result = connected (record { arrivals = rest; acceptances = w.later });
                sent = z;
              } in
              d)
            (sent_all c.acceptances (hex4 (length service)) service takes)),
      s,
      hr,
    )
