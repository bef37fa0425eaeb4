-- ===== src/Host/Queries.antt =====
-- The questions that a client puts to the server, from `adb_query` (ADBTestCE/adb/adb_client.cpp) to
-- `handle_host_request` (ADBTestCE/adb/adb.cpp) and back.
use adbtest_ce.Prelude.{
  All, Bytes, Option, Option-cases, [], after_prefix, ap, arith, codes, equal, false, if◌then◌else◌,
  inl, inr, length, ltb, none, refl, some, subst, sym, ℕ, ◌++◌, ◌<◌, ◌∙◌, ◌∷◌, ◌≡◌,
}
use adbtest_ce.Wire.{hex4}
use adbtest_ce.Smart.{HostTarget, TransportType, host_target}
use adbtest_ce.Transport.{Atransport, Attempt, acquired, attempt, refused}
use adbtest_ce.Listing.{list_transports}
use adbtest_ce.Host.{
  Host, HostOutcome, Platform, answered, bad_read, connection_state_name, describe, devices_request,
  handled, okay_text, reply_text,
}
use adbtest_ce.Host.Truth.{
  Query, ask_devices, ask_devpath, ask_serialno, ask_state, ask_version, known, server_text,
  server_text-truth, truth,
}
use adbtest_ce.Host.Requests.{handle_host_request, state_request}
use adbtest_ce.Wire.Hex.{length-hex4}
use adbtest_ce.Client.Answers.{Takes}
use adbtest_ce.Client.{Connection, Target}
use adbtest_ce.Client.Handshake.{IsCurrent, IsHostService, adb_query-okay_text}
use adbtest_ce.Client.Session.{adb_query, answer, no_answer}
use adbtest_ce.Io.ReadLoop.{IsHealthy, stream}

abbrev pub command_of : Query → Bytes
command_of ask_version = codes "version"
command_of ask_state = codes "get-state"
command_of ask_serialno = codes "get-serialno"
command_of ask_devpath = codes "get-devpath"
command_of ask_devices = codes "devices"

reply_text-answered :
    (text : Bytes) (h : Host)
    → length text < 4088
    → reply_text text h [] ≡ answered (okay_text text) h []
unfolding reply_text okay_text hex4
reply_text-answered text h small = ground arith

devices_lem :
    (h : Host) (text : Bytes)
    → list_transports 4096 h.transports ≡ some text
    → devices_request false h ≡ reply_text text h []
unfolding devices_request
devices_lem h text e = rw (devices_request, e) refl

-- The two shapes of an answer about a transport.
field_answered :
    (a : Attempt) (f : Atransport → Option Bytes) (h : Host)
    → length (elim a [ acquired t ↦ known (f t) | refused e b ↦ codes "unknown" ]) < 4088
    → (elim a [
      | acquired t ↦ elim (f t) [
        | none ↦ reply_text (codes "unknown") h []
        | some x ↦ reply_text x h []
      ]
      | refused e b ↦ reply_text (codes "unknown") h []
    ])
      ≡ answered
          (okay_text (elim a [ acquired t ↦ known (f t) | refused e b ↦ codes "unknown" ]))
          h
          []
field_answered (acquired t) f h small = elim (Option-cases (f t)) [
  | inl missing ↦ rw missing (reply_text-answered (codes "unknown") h (omega arith))
  | inr (x, there) ↦
      rw there (reply_text-answered x h (subst (λ o. length (known o) < 4088) there small))
]
field_answered (refused e b) f h small = reply_text-answered (codes "unknown") h small

name_answered :
    (a : Attempt) (f : Atransport → Bytes) (h : Host)
    → length (elim a [ acquired t ↦ f t | refused e b ↦ codes "unknown" ]) < 4088
    → (elim a [
      | acquired t ↦ reply_text (f t) h []
      | refused e b ↦ reply_text (codes "unknown") h []
    ])
      ≡ answered (okay_text (elim a [ acquired t ↦ f t | refused e b ↦ codes "unknown" ])) h []
name_answered (acquired t) f h small = reply_text-answered (f t) h small
name_answered (refused e b) f h small = reply_text-answered (codes "unknown") h small

some_injective : (x y : Bytes) → some x ≡ some y → x ≡ y
some_injective x y e = cc

-- The server answers with its text, and changes nothing.
pub handle_host_request-server_text :
    (q : Query) (sys : Platform) (old : Option ℕ) (ttype : TransportType) (serial : Option Bytes)
    (h : Host) (text : Bytes)
    → server_text q ttype serial h ≡ some text
    → length text < 4088
    → handle_host_request sys old (command_of q) ttype serial h ≡ answered (okay_text text) h []
unfolding handle_host_request after_prefix equal
handle_host_request-server_text ask_version sys old ttype serial h text e small =
    subst (λ z. reply_text (hex4 31) h [] ≡ answered (okay_text z) h []) (some_injective _ text e)
      (reply_text-answered (hex4 31) h (omega (arith, length-hex4 31)))
handle_host_request-server_text ask_state sys old ttype serial h text e small =
    let same = some_injective _ text e in
    subst (λ z. state_request ttype serial h ≡ answered (okay_text z) h []) same
      (unfold state_request in
        name_answered (attempt none ttype serial h.transports)
          (λ t. connection_state_name t.connection_state) h
          (subst (λ z. length z < 4088) (sym same) small))
handle_host_request-server_text ask_serialno sys old ttype serial h text e small =
    let same = some_injective _ text e in
    subst (λ z. describe (λ t. t.serial) ttype serial h ≡ answered (okay_text z) h []) same
      (unfold describe in
        field_answered (attempt none ttype serial h.transports) (λ t. t.serial) h
          (subst (λ z. length z < 4088) (sym same) small))
handle_host_request-server_text ask_devpath sys old ttype serial h text e small =
    let same = some_injective _ text e in
    subst (λ z. describe (λ t. t.devpath) ttype serial h ≡ answered (okay_text z) h []) same
      (unfold describe in
        field_answered (attempt none ttype serial h.transports) (λ t. t.devpath) h
          (subst (λ z. length z < 4088) (sym same) small))
handle_host_request-server_text ask_devices sys old ttype serial h text e small =
    rw (devices_lem h text e) (reply_text-answered text h small)

abbrev pub reply_of : HostOutcome → Bytes
reply_of (handled r) = r.reply
reply_of bad_read = []

-- A client asks a question of the server, by whatever service the server takes for it, on connections
-- that take its requests whole, to a server of its own version, and what is true has less than 4088
-- bytes: the client gets exactly that, or nothing where it has more than 1024 bytes. True is: the version;
-- the state, the serial number or the path of the only transport that the request may mean, those without
-- permissions apart, or "unknown" where there is no such one or it is offline; or one line for each
-- transport.
pub adb_query-truth :
    (t : Target) (service : Bytes) (x : HostTarget) (q : Query) (sys : Platform) (old : Option ℕ)
    (h : Host) (more : Bytes) (c d : Connection)
    → IsCurrent c
    → IsHostService service
    → host_target service ≡ some x
    → x.service ≡ command_of q
    → length (truth q x.ttype x.serial h) < 4088
    → Takes d service
    → All IsHealthy d.arrivals
    → stream d.arrivals
      ≡ reply_of (handle_host_request sys old x.service x.ttype x.serial h) ++ more
    → let text = truth q x.ttype x.serial h in
      adb_query t service (some c ∷ some d ∷ [])
      ≡ some (if ltb 1024 (length text) then no_answer else answer text)
adb_query-truth t service x q sys old h more c d cur host _ asks small takes healthy s =
    let text = truth q x.ttype x.serial h in
    let served : handle_host_request sys old x.service x.ttype x.serial h
        ≡ answered (okay_text text) h [] =
      ap (λ z. handle_host_request sys old z x.ttype x.serial h) asks
      ∙ handle_host_request-server_text q sys old x.ttype x.serial h text
          (server_text-truth q x.ttype x.serial h small) small in
    adb_query-okay_text t service text more c d [] cur host takes healthy (omega arith)
      (s ∙ ap (λ o. reply_of o ++ more) served)
