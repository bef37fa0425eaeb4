-- ===== src/Host/Examples.antt =====
-- A server with one device, and the theorems on it (ADBTestCE/adb/adb.cpp, ADBTestCE/adb/adb_client.cpp).
use adbtest_ce.Prelude.{
  List, [], after_prefix, append-nil, arith, codes, equal, if◌then◌else◌, length, ltb, none, refl,
  some, sym, true, ◌<◌, ◌∙◌, ◌∷◌, ◌≡◌,
}
use adbtest_ce.Io.{Acceptance, got, write_both, write_loop, writex, wrote}
use adbtest_ce.Wire.{hex4, hex_digit}
use adbtest_ce.Smart.{host_target, target, transport_any, transport_usb}
use adbtest_ce.Transport.{
  Atransport, acquired, attempt, candidate, cs_device, is_noperm, same_string, scan, serial_matches,
  settle_scan, state_code, wrong_state,
}
use adbtest_ce.Host.{
  Host, Platform, connection_state_name, okay_text, printed, reply_text, switch_target,
  transport_request,
}
use adbtest_ce.Client.{Connection, Target, switch_socket_transport}
use adbtest_ce.Client.Answers.{Takes}
use adbtest_ce.Client.Handshake.{IsCurrent, IsHostService}
use adbtest_ce.Client.Session.{adb_query, answer, no_answer}
use adbtest_ce.Host.Forwarding.{Forwards, forward_service, handle_host_request-Forwards}
use adbtest_ce.Host.Truth.{ask_state, truth}
use adbtest_ce.Host.Queries.{adb_query-truth, reply_of}
use adbtest_ce.Transport.Acquire.{matches}
use adbtest_ce.Host.Requests.{handle_host_request, later_request, state_request, wants_devices}
use adbtest_ce.Host.Switching.{Agrees, switch_outcome, switch_socket_transport-Agrees}

abbrev pixel : Atransport
pixel = record {
  connection_state = cs_device;
  online = true;
  ttype = transport_usb;
  serial = some (codes "01");
  product = none;
  model = none;
  device = none;
  devpath = none;
}

abbrev one_device : Host
one_device = record { listeners = []; transports = pixel ∷ [] }

abbrev system : Platform
system = record {
  local_fd = some 5;
  reaches = λ host port. true;
  address = λ t. 9;
  adb_port = λ t. 0;
}

abbrev big_writes : List Acceptance
big_writes = wrote 100 ∷ wrote 100 ∷ []

abbrev version_connection : Connection
version_connection = record { arrivals = got (codes "OKAY0004001f") ∷ []; acceptances = big_writes }

abbrev state_connection : Connection
state_connection = record {
  arrivals = got (codes "OKAY0006dev") ∷ got (codes "ice") ∷ [];
  acceptances = big_writes;
}

abbrev any_target : Target
any_target = record { adb_serial = none; adb_transport = transport_any }

current : IsCurrent version_connection
unfolding write_both writex write_loop hex4 hex_digit okay_text
current = record { takes = refl; healthy = ((λ e. cc), tt); more = []; answers = refl }

state_service : IsHostService (codes "host:get-state")
unfolding after_prefix equal
state_service = record {
  for_host = refl;
  not_empty = omega arith;
  not_long = omega arith;
  not_start = refl;
}

state_taken : Takes state_connection (codes "host:get-state")
unfolding write_both writex write_loop hex4 hex_digit
state_taken = refl

state_target :
    host_target (codes "host:get-state") ≡ some (target (codes "get-state") transport_any)
unfolding host_target after_prefix
state_target = refl

pixel_acquired : attempt none transport_any none (pixel ∷ []) ≡ acquired pixel
unfolding attempt settle_scan scan candidate is_noperm state_code wrong_state
pixel_acquired = refl

pixel_named : attempt none transport_any (some (codes "01")) (pixel ∷ []) ≡ acquired pixel
unfolding attempt settle_scan scan candidate serial_matches same_string equal is_noperm state_code
    wrong_state
pixel_named = refl

state_reply :
    reply_of (handle_host_request system none (codes "get-state") transport_any none one_device)
    ≡ codes "OKAY0006device"
unfolding handle_host_request later_request wants_devices state_request connection_state_name
    reply_text printed okay_text hex4 hex_digit after_prefix equal attempt settle_scan scan
    candidate is_noperm state_code wrong_state
state_reply = refl

device_state : truth ask_state transport_any none one_device ≡ codes "device"
unfolding matches candidate is_noperm state_code
device_state = refl

short_state : length (truth ask_state transport_any none one_device) < 4088
short_state = rw device_state (omega arith)

adb_query-truth_example :
    adb_query any_target
      (codes "host:get-state")
      (some version_connection ∷ some state_connection ∷ [])
    ≡ some (
        if ltb 1024 (length (truth ask_state transport_any none one_device))
        then no_answer
        else answer (truth ask_state transport_any none one_device))
adb_query-truth_example =
    adb_query-truth any_target (codes "host:get-state") (target (codes "get-state") transport_any)
      ask_state system none one_device [] version_connection state_connection current state_service
      state_target refl short_state state_taken ((λ e. cc), ((λ e. cc), tt))
      (sym (append-nil _ ∙ state_reply))

abbrev serial_target : Target
serial_target = record { adb_serial = some (codes "01"); adb_transport = transport_any }

abbrev switch_connection : Connection
switch_connection = record { arrivals = got (codes "OKAY") ∷ []; acceptances = big_writes }

switch_taken : Takes switch_connection (codes "host:transport:01")
unfolding write_both writex write_loop hex4 hex_digit
switch_taken = refl

switch_reply : reply_of (switch_outcome system none (codes "01") one_device) ≡ codes "OKAY"
unfolding handle_host_request transport_request switch_target after_prefix equal attempt settle_scan
    scan candidate serial_matches same_string is_noperm state_code wrong_state
switch_reply = refl

switch_socket_transport-Agrees_example :
    Agrees system none
      (switch_socket_transport serial_target switch_connection)
      (switch_outcome system none (codes "01") one_device)
      one_device
      (attempt none transport_any (some (codes "01")) (pixel ∷ []))
switch_socket_transport-Agrees_example =
    switch_socket_transport-Agrees system none serial_target switch_connection (codes "01") []
      one_device refl (omega arith) switch_taken ((λ e. cc), tt) (sym (append-nil _ ∙ switch_reply))

handle_host_request-Forwards_example : Forwards (codes "tcp:80") (codes "tcp:81") 9 one_device (
    handle_host_request system none
      (forward_service (codes "tcp:80") (codes "tcp:81"))
      transport_any
      none
      one_device)
handle_host_request-Forwards_example =
    handle_host_request-Forwards system none b't' b't' (codes "cp:80") (codes "cp:81") transport_any
      none one_device pixel (omega arith) (omega arith) tt pixel_acquired
