-- ===== src/Sockets/Examples.antt =====
-- Heaps of sockets at which the theorems on sockets apply.
use mathlib.Core.Path.{subst}
use adbtest_ce.Io.{wrote}
use adbtest_ce.Prelude.{
  Bool-cases, List, Option, [], arith, codes, false, if◌then◌else◌, inl, inr, none, refl, some,
  subst, true, ℕ, ◌==◌, ◌∷◌, ◌≡◌, ◌≢◌, ◌⊎◌,
}
use adbtest_ce.Sockets.State.{
  Asocket, Distinct, State, member, remote_socket_close, remote_socket_enqueue, remote_socket_ready,
}
use adbtest_ce.Sockets.Serve.{blank, drain, flush_queued, flushed}
use adbtest_ce.Sockets.Sound.{HasClosed, IsLocal, IsRemote, IsSound, close_socket-IsSound}
use adbtest_ce.Sockets.Close.{close_socket}
use adbtest_ce.Sockets.Protocol.{handle_packet, wrte_packet}
use adbtest_ce.Sockets.Sound.Packets.{handle_packet-IsSound}
use adbtest_ce.Sockets.Sound.Store.{Safe}

-- A local socket (1) that a remote one (2) feeds, with `ab` in its queue.
abbrev pub shell : Asocket
shell = record blank { id = 1; fd = 9; peer = some 2; pkts = codes "ab" ∷ []; writes = true }

abbrev pub device : Asocket
device = record blank {
  id = 40;
  peer = some 1;
  enqueue = remote_socket_enqueue;
  ready = remote_socket_ready;
  close = remote_socket_close;
  transport = some 7;
}

abbrev pub cells_of : Asocket → Asocket → ℕ → Option Asocket
cells_of x y q = if q == 1 then some x else if q == 2 then some y else none

-- A heap of two sockets.
abbrev pub heap_of : Asocket → Asocket → List ℕ → List ℕ → State
heap_of x y listed waiting = record {
  cell = cells_of x y;
  break = 3;
  local_socket_list = listed;
  local_socket_closing_list = [];
  local_socket_next_id = 2;
  disconnects = waiting;
  packets = [];
  told = [];
  exited = false;
}

module _ (x y : Asocket) (listed waiting : List ℕ) (hx : x.peer ≡ some 2) (hy : y.peer ≡ some 1)
    (l : IsLocal x)
    (is_listed : (q : ℕ)
      → member q listed ≡ true
      → (a : Asocket) × (cells_of x y q ≡ some a) × IsLocal a)
    (waits : (q : ℕ)
      → member q waiting ≡ true
      → (a : Asocket) × (cells_of x y q ≡ some a) × IsRemote a)
    (once : Distinct waiting) where
  of_paired :
      (q : ℕ) (a : Asocket) (p : ℕ)
      → cells_of x y q ≡ some a
      → a.peer ≡ some p
      → (b : Asocket) × (cells_of x y p ≡ some b)
        × (b.peer ≡ some q)
        × (p ≢ q)
        × (IsLocal a ⊎ IsLocal b)
  of_paired q a p e h = elim (Bool-cases (q == 1)) [
    | inl at ↦
        let same : x ≡ a = ground (arith, at, e) in
        (
          y,
          ground (arith, hx, at, e, h),
          ground (arith, hy, at),
          ground (arith, hx, at, e, h),
          inl (subst IsLocal same l),
        )
    | inr other ↦ (
      x,
      ground (arith, hy, other, e, h),
      ground (arith, hx, other, e),
      ground (arith, hy, other, e, h),
      inr l,
    )
  ]

  pub heap_of-IsSound : IsSound (heap_of x y listed waiting)
  heap_of-IsSound = record {
    fresh = λ q a e. ground arith;
    paired = λ q a p e h. of_paired q a p e h;
    listed = is_listed;
    waiting = waits;
    once = once;
  }

abbrev pub heap : State
heap = heap_of shell device (1 ∷ []) (2 ∷ [])

pub heap-IsSound : IsSound heap
unfolding member Distinct
heap-IsSound =
    heap_of-IsSound shell device (1 ∷ []) (2 ∷ []) refl refl (refl, refl, refl)
      (λ q m. (shell, ground arith, (refl, refl, refl)))
      (λ q m. (device, ground arith, (refl, refl))) (refl, record {})

close_socket-IsSound_example :
    (v : State) × (close_socket 1 heap ≡ some v) × IsSound v × HasClosed 1 shell heap v
close_socket-IsSound_example = close_socket-IsSound 1 shell heap heap-IsSound refl

-- Data for the local socket, from the remote side.
handle_packet-IsSound_example :
    Safe (handle_packet true 7 (wrte_packet (wrote 2 ∷ []) 40 1 (codes "cd")) heap)
handle_packet-IsSound_example =
    handle_packet-IsSound true 7 (wrte_packet (wrote 2 ∷ []) 40 1 (codes "cd")) heap heap-IsSound

abbrev lone : Asocket
lone = record shell { peer = none }

lone_drains : (drain (wrote 2 ∷ []) lone.pkts).end ≡ flushed
unfolding drain flush_queued
lone_drains = refl
