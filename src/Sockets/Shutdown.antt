-- ===== src/Sockets/Shutdown.antt =====
-- A transport goes away: `run_transport_disconnects` (ADBTestCE/adb/transport.cpp) over the remote
-- sockets that wait for it, and `close_all_sockets` (ADBTestCE/adb/sockets.cpp).
use adbtest_ce.Prelude.{
  Bool, List, Option, [], false, if◌then◌else◌, none, some, suc, true, zero, ℕ, ◌==◌, ◌∷◌,
}
use adbtest_ce.Sockets.State.{Asocket, State}
use adbtest_ce.Sockets.Close.{
  close_within, local_socket_close_locked, remote_socket_disconnect, then_close,
}

unfoldable pub is_at : ℕ → Option ℕ → Bool
is_at t none = false
is_at t (some u) = u == t

abbrev pub socket_is_at : ℕ → Option Asocket → Bool
socket_is_at t none = false
socket_is_at t (some a) = is_at t a.transport

-- `t->disconnects`: the sockets of the list whose transport is `t`.
unfoldable pub disconnects_at : ℕ → (ℕ → Option Asocket) → List ℕ → List ℕ
unfolding is_at
disconnects_at t cell [] = []
disconnects_at t cell (s ∷ l) =
    let later = disconnects_at t cell l in if socket_is_at t (cell s) then s ∷ later else later

-- `while (dis != &t->disconnects)`: `next` is read from a node before its callback runs, which
-- frees that node and no other one of the list.
unfoldable pub run_disconnects : List ℕ → State → Option State
run_disconnects [] w = some w
run_disconnects (s ∷ next) w = then_close (remote_socket_disconnect s w) (run_disconnects next)

unfoldable pub run_transport_disconnects : ℕ → State → Option State
run_transport_disconnects t w = run_disconnects (disconnects_at t w.cell w.disconnects) w

-- `s->transport == t || (s->peer && s->peer->transport == t)`, for a live socket `a`.
unfoldable pub concerns : ℕ → (ℕ → Option Asocket) → Asocket → Option Bool
unfolding is_at
concerns t cell a = elim a.peer [
  | none ↦ some (is_at t a.transport)
  | some p ↦
      if is_at t a.transport
      then some true
      else elim (cell p) [ none ↦ none | some b ↦ some (is_at t b.transport) ]
]

-- The `for` loop: the first socket of the list that the test holds for.
unfoldable pub first_at : ℕ → (ℕ → Option Asocket) → List ℕ → Option (Option ℕ)
unfolding concerns
first_at t cell [] = some none
first_at t cell (s ∷ l) =
    let later = first_at t cell l in
    elim (cell s) [
      | none ↦ none
      | some a ↦ elim (concerns t cell a) [
        | none ↦ none
        | some test ↦ if test then some (some s) else later
      ]
    ]

-- `goto restart`, with fuel.
unfoldable pub close_all_in : ℕ → ℕ → State → Option State
close_all_in zero t w = none
close_all_in (suc fuel) t w = elim (first_at t w.cell w.local_socket_list) [
  | none ↦ none
  | some none ↦ some w
  | some (some s) ↦ elim (w.cell s) [
    | none ↦ none
    | some a ↦ then_close (local_socket_close_locked (close_within 1) s a w) (close_all_in fuel t)
  ]
]

-- Each round takes a socket off the list, and no socket lies beyond the break.
unfoldable pub close_all_sockets : ℕ → State → Option State
unfolding close_all_in
close_all_sockets t w = close_all_in (suc w.break) t w
