-- ===== src/Host/Switching.antt =====
-- How a client chooses a device: `switch_socket_transport` (ADBTestCE/adb/adb_client.cpp) on its one
-- side, `handle_host_request` (ADBTestCE/adb/adb.cpp) on the other.
use adbtest_ce.Prelude.{
  All, Bytes, Option, [], after_prefix, ap, arith, codes, equal, length, none, refl, some, take, ℕ,
  ◌++◌, ◌<◌, ◌∙◌, ◌≡◌,
}
use adbtest_ce.Io.ReadLoop.{IsHealthy, stream}
use adbtest_ce.Smart.{host_target, target, transport_any}
use adbtest_ce.Transport.{Attempt, acquired, attempt, refused}
use adbtest_ce.Wire.Failure.{adb_status-fail_message, fail_message}
use adbtest_ce.Host.{
  Handled, Host, HostOutcome, Platform, error_text, handled, switched, transport_request,
}
use adbtest_ce.Host.Queries.{reply_of}
use adbtest_ce.Host.Requests.{handle_host_request}
use adbtest_ce.Client.{
  Connection, Dial, Target, connected, failed, send_service, switch_socket_transport,
  transport_service,
}
use adbtest_ce.Io.{write_both}
use adbtest_ce.Wire.{hex4}
use adbtest_ce.Client.Answers.{Takes, send_service-okay}

abbrev pub switch_request : Bytes → Bytes
switch_request serial = codes "host:transport:" ++ serial

-- The server takes the request of the client for one of its own.
pub host_target-switch_request :
    (serial : Bytes)
    → host_target (switch_request serial)
      ≡ some (target (codes "transport:" ++ serial) transport_any)
unfolding host_target after_prefix
host_target-switch_request serial = refl

-- What the server does with it.
abbrev pub switch_outcome : Platform → Option ℕ → Bytes → Host → HostOutcome
switch_outcome sys old serial h =
    handle_host_request sys old (codes "transport:" ++ serial) transport_any none h

-- The client and the server agree: the one goes on with its connection, and the other has taken the
-- transport; or the client has the reason, and the server keeps what it had.
abbrev pub Agrees : Platform → Option ℕ → Option Dial → HostOutcome → Host → Attempt → Type 0
Agrees sys old d o h (acquired t) =
    ((c : Connection) × (s : Bytes) × (d ≡ some (record { result = connected c; sent = s })))
    × ((r : Handled) × (o ≡ handled r)
        × (r.verdict ≡ switched (some (sys.address t)))
        × (r.host ≡ h))
Agrees sys old d o h (refused e ambiguous) =
    ((s : Bytes) × (d ≡ some (record { result = failed (take 255 (error_text e)); sent = s })))
    × ((r : Handled) × (o ≡ handled r) × (r.verdict ≡ switched old) × (r.host ≡ h))

switch_lem :
    (t : Target) (c : Connection) (serial : Bytes)
    → t.adb_serial ≡ some serial
    → length serial < 49
    → switch_socket_transport t c ≡ some (send_service (switch_request serial) c)
unfolding switch_socket_transport transport_service
switch_lem t c serial e short = ground (arith, e)

send_service-failed :
    (service : Bytes) (c : Connection) (reason more : Bytes)
    → Takes c service
    → All IsHealthy c.arrivals
    → stream c.arrivals ≡ fail_message reason ++ more
    → (s : Bytes) × (send_service service c
        ≡ record { result = failed (take 255 reason); sent = s })
unfolding send_service
send_service-failed service c reason more takes h e = (
  (write_both c.acceptances (hex4 (length service)) service).sent,
  rw (takes, adb_status-fail_message c.arrivals reason more h e) refl,
)

abbrev outcome_of : Platform → Option ℕ → Host → Attempt → HostOutcome
outcome_of sys old h a = elim a [
  | acquired t ↦ handled (record {
    verdict = switched (some (sys.address t));
    reply = codes "OKAY";
    host = h;
    effects = [];
  })
  | refused e ambiguous ↦ handled (record {
    verdict = switched old;
    reply = fail_message (error_text e);
    host = h;
    effects = [];
  })
]

switch_served :
    (sys : Platform) (old : Option ℕ) (serial : Bytes) (h : Host)
    → switch_outcome sys old serial h
      ≡ outcome_of sys old h (attempt none transport_any (some serial) h.transports)
unfolding handle_host_request transport_request after_prefix equal
switch_served sys old serial h = refl

-- One result of the server's search for the transport.
switch_outcome-Agrees :
    (sys : Platform) (old : Option ℕ) (t : Target) (c : Connection) (serial more : Bytes) (h : Host)
    (a : Attempt)
    → attempt none transport_any (some serial) h.transports ≡ a
    → t.adb_serial ≡ some serial
    → length serial < 49
    → Takes c (switch_request serial)
    → All IsHealthy c.arrivals
    → stream c.arrivals ≡ reply_of (switch_outcome sys old serial h) ++ more
    → Agrees sys old (switch_socket_transport t c) (switch_outcome sys old serial h) h a
switch_outcome-Agrees sys old t c serial more h (acquired u) e has short takes healthy s =
    let r : Handled = record {
      verdict = switched (some (sys.address u));
      reply = codes "OKAY";
      host = h;
      effects = [];
    } in
    let served : switch_outcome sys old serial h ≡ handled r =
      switch_served sys old serial h ∙ ap (outcome_of sys old h) e in
    let (d, sd, st, hd) =
      send_service-okay (switch_request serial) c more takes healthy
        (s ∙ ap (λ o. reply_of o ++ more) served) in
    (
      (
        d,
        hex4 (length (switch_request serial)) ++ switch_request serial,
        switch_lem t c serial has short ∙ ap some sd,
      ),
      (r, served, refl, refl),
    )
switch_outcome-Agrees sys old t c serial more h (refused why b) e has short takes healthy s =
    let r : Handled = record {
      verdict = switched old;
      reply = fail_message (error_text why);
      host = h;
      effects = [];
    } in
    let served : switch_outcome sys old serial h ≡ handled r =
      switch_served sys old serial h ∙ ap (outcome_of sys old h) e in
    let (w, sent) =
      send_service-failed (switch_request serial) c (error_text why) more takes healthy
        (s ∙ ap (λ o. reply_of o ++ more) served) in
    ((w, switch_lem t c serial has short ∙ ap some sent), (r, served, refl, refl))

-- A client with a serial number of at most 48 bytes asks for its device, on a connection that takes
-- the request whole and gives what the server answers: the client goes on exactly where the server
-- takes a transport, the only one that is meant and not offline; else the client has the first 255
-- bytes of the reason, and the server keeps the transport that it had.
pub switch_socket_transport-Agrees :
    (sys : Platform) (old : Option ℕ) (t : Target) (c : Connection) (serial more : Bytes) (h : Host)
    → t.adb_serial ≡ some serial
    → length serial < 49
    → Takes c (switch_request serial)
    → All IsHealthy c.arrivals
    → stream c.arrivals ≡ reply_of (switch_outcome sys old serial h) ++ more
    → Agrees sys old
        (switch_socket_transport t c)
        (switch_outcome sys old serial h)
        h
        (attempt none transport_any (some serial) h.transports)
switch_socket_transport-Agrees sys old t c serial more h has short takes healthy s =
    switch_outcome-Agrees sys old t c serial more h _ refl has short takes healthy s
