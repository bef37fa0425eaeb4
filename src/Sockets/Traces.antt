-- ===== src/Sockets/Traces.antt =====
-- Heaps, events and inputs at which the theorems on the whole server apply.
use adbtest_ce.Io.{got, other_errno, write_failed, wrote}
use adbtest_ce.Prelude.{[], arith, codes, false, none, refl, some, true, ℕ, ◌++◌, ◌∷◌, ◌≡◌, ◌≢◌}
use adbtest_ce.Transport.{Atransport, cs_device}
use adbtest_ce.Smart.{transport_usb}
use adbtest_ce.Sockets.State.{Asocket, Distinct, State, member}
use adbtest_ce.Sockets.Serve.{blank, flush_new}
use adbtest_ce.Sockets.Requests.{Answers, enqueue_smart, passed, smart_asocket}
use adbtest_ce.Sockets.Reading.{event_read, fill, local_socket_event_func}
use adbtest_ce.Sockets.Connection.{
  Input, Server, client, cnxn_packet, handle_cnxn, has_nul, message, step,
}
use adbtest_ce.Sockets.Examples.{heap, heap-IsSound, heap_of, heap_of-IsSound, shell}
use adbtest_ce.Sockets.Sound.{IsSound}
use adbtest_ce.Sockets.Sound.Reach.{Reachable, Reachable-IsSound, Reachable-step, start}
use adbtest_ce.Sockets.Close.{is_empty}
use adbtest_ce.Sockets.Protocol.{initial_state}
use adbtest_ce.Sockets.Shutdown.{close_all_sockets, disconnects_at, run_transport_disconnects}
use adbtest_ce.Sockets.Sound.Answers.{enqueue_smart-IsSound}
use adbtest_ce.Sockets.Sound.Broken.{event_read-freed}
use adbtest_ce.Sockets.Sound.CloseAll.{NoneAt, close_all_sockets-IsSound}
use adbtest_ce.Sockets.Sound.Requests.{Delivers}
use adbtest_ce.Sockets.Sound.Server.{Allowed}
use adbtest_ce.Sockets.Sound.Shutdown.{run_transport_disconnects-IsSound}
use adbtest_ce.Sockets.Sound.Store.{Safe}
use adbtest_ce.Sockets.Sound.Whole.{local_socket_event_func-IsSound}
use adbtest_ce.Sockets.Sound.Online.{handle_cnxn-online}

abbrev answers : Answers
answers = record {
  writes = [];
  host = passed none [];
  service = some 11;
  offline = λ t. some false;
}

abbrev nexus : Atransport
nexus = record {
  connection_state = cs_device;
  online = true;
  ttype = transport_usb;
  serial = none;
  product = none;
  model = none;
  device = none;
  devpath = none;
}

abbrev fresh_server : Server
fresh_server = record { sockets = initial_state; transports = λ t. nexus; freed = λ t. false }

-- A device connects, and then two clients.
abbrev hello : Input
hello = message 7 (cnxn_packet (codes "device::" ++ 0 ∷ []))

after_hello : (k : Server) × (step hello fresh_server ≡ some k) × Reachable k
unfolding Allowed has_nul
after_hello = Reachable-step fresh_server hello (start (λ t. nexus)) (refl, refl)

after_client : (k : Server) × (step (client 5) after_hello.0 ≡ some k) × Reachable k
unfolding Allowed
after_client = Reachable-step after_hello.0 (client 5) after_hello.2 (record {})

after_clients : (k : Server) × (step (client 6) after_client.0 ≡ some k) × Reachable k
unfolding Allowed
after_clients = Reachable-step after_client.0 (client 6) after_client.2 (record {})

Reachable-IsSound_example : IsSound after_clients.0.sockets
Reachable-IsSound_example = Reachable-IsSound after_clients.0 after_clients.2

-- `ab` goes out, and `xy` comes in.
local_socket_event_func-IsSound_example : Safe (
    local_socket_event_func true true
      (wrote 2 ∷ [])
      answers
      (got (codes "xy") ∷ [])
      false
      1
      shell
      heap)
unfolding fill flush_new
local_socket_event_func-IsSound_example =
    local_socket_event_func-IsSound true true (wrote 2 ∷ []) answers (got (codes "xy") ∷ []) false 1
      shell heap heap-IsSound refl (λ e. cc) (λ e. cc) (λ p b hp e q t ht ft. cc)

run_transport_disconnects-IsSound_example :
    (v : State) × (run_transport_disconnects 7 heap ≡ some v)
    × IsSound v
    × ((q : ℕ) → member q (disconnects_at 7 heap.cell heap.disconnects) ≡ true → v.cell q ≡ none)
run_transport_disconnects-IsSound_example = run_transport_disconnects-IsSound 7 heap heap-IsSound

close_all_sockets-IsSound_example :
    (v : State) × (close_all_sockets 7 heap ≡ some v) × IsSound v × NoneAt 7 v v.local_socket_list
close_all_sockets-IsSound_example = close_all_sockets-IsSound 7 heap heap-IsSound

-- A client with a smart socket, and two local sockets.
abbrev caller : Asocket
caller = record blank { id = 1; fd = 9; peer = some 2 }

abbrev smart : Asocket
smart = record smart_asocket { peer = some 1 }

abbrev caller_heap : State
caller_heap = heap_of caller smart (1 ∷ []) []

caller_heap-IsSound : IsSound caller_heap
unfolding member Distinct
caller_heap-IsSound =
    heap_of-IsSound caller smart (1 ∷ []) [] refl refl (refl, refl, refl)
      (λ q m. (caller, ground arith, (refl, refl, refl))) (λ q m. cc) (record {})

enqueue_smart-IsSound_example :
    Delivers 1 (enqueue_smart answers 2 smart (codes "000ehost:track-jdwp") caller_heap)
enqueue_smart-IsSound_example =
    enqueue_smart-IsSound answers 2 1 smart (codes "000ehost:track-jdwp") caller_heap
      caller_heap-IsSound refl refl refl (λ t e f. cc)

abbrev service : Asocket
service = record blank { id = 2; fd = 10; peer = some 1 }

abbrev both_heap : State
both_heap = heap_of caller service (1 ∷ []) []

both_heap-IsSound : IsSound both_heap
unfolding member Distinct
both_heap-IsSound =
    heap_of-IsSound caller service (1 ∷ []) [] refl refl (refl, refl, refl)
      (λ q m. (caller, ground arith, (refl, refl, refl))) (λ q m. cc) (record {})

abbrev refusing : Answers
refusing = record answers { writes = write_failed other_errno ∷ [] }

event_read-freed_example :
    event_read refusing (got (codes "x") ∷ []) false 1 caller both_heap ≡ none
unfolding is_empty fill flush_new
event_read-freed_example =
    event_read-freed refusing (got (codes "x") ∷ []) false 1 2 caller service b'x' [] both_heap
      both_heap-IsSound refl refl refl refl refl refl refl refl refl refl

-- A device comes back on transport 7, with a remote socket in use.
abbrev busy_server : Server
busy_server = record { sockets = heap; transports = λ t. nexus; freed = λ t. false }

handle_cnxn-online_example :
    (k : Server) × (handle_cnxn 7 (codes "device::" ++ 0 ∷ []) busy_server ≡ some k)
    × IsSound k.sockets
    × ((k.transports 7).online ≡ true)
    × ((q : ℕ)
        → member q (disconnects_at 7 heap.cell heap.disconnects) ≡ true
        → k.sockets.cell q ≡ none)
    × ((u : ℕ) → u ≢ 7 → k.transports u ≡ busy_server.transports u)
unfolding has_nul
handle_cnxn-online_example =
    handle_cnxn-online 7 (codes "device::" ++ 0 ∷ []) busy_server heap-IsSound (λ e. cc) refl
