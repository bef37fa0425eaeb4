-- ===== src/Sockets/Sound/Reach.antt =====
-- The states that the server of ADBTestCE/adb can get to.
use mathlib.Core.Path.{subst}
use adbtest_ce.Prelude.{false, some, subst, ℕ, ◌≡◌}
use adbtest_ce.Transport.{Atransport}
use adbtest_ce.Sockets.Connection.{Input, Server, step}
use adbtest_ce.Sockets.Sound.{IsSound}
use adbtest_ce.Sockets.Protocol.{initial_state}
use adbtest_ce.Sockets.Sound.Packets.{initial-IsSound}
use adbtest_ce.Sockets.Sound.Server.{Allowed, step-Keeps}

-- From the empty heap, by inputs one after another, with any transports at the start.
pub data Reachable : Server → Type 0 where
  start :
      (transports : ℕ → Atransport)
      → Reachable (record { sockets = initial_state; transports = transports; freed = λ t. false })
  next : {k k' : Server} (x : Input) → Reachable k → Allowed x k → step x k ≡ some k' → Reachable k'

-- The heap is sound in every state that the server gets to by inputs where no transport is used that was
-- freed (by a packet, a listener or a smart socket that still points at it), a banner ends with a NUL, a
-- listener's destination fits a packet, an event is of a live socket that has a peer or is closing, and
-- no write to a local peer fails.
pub Reachable-IsSound : (k : Server) → Reachable k → IsSound k.sockets
Reachable-IsSound k (start transports) = initial-IsSound
Reachable-IsSound k (next {k = j} x r ok e) =
    let (k', eq, i) = step-Keeps x j (Reachable-IsSound j r) ok in
    let same : k' ≡ k = cc in subst (λ z. IsSound z.sockets) same i

pub Reachable-step :
    (k : Server) (x : Input)
    → Reachable k
    → Allowed x k
    → (k' : Server) × (step x k ≡ some k') × Reachable k'
Reachable-step k x r ok =
    let (k', eq, _) = step-Keeps x k (Reachable-IsSound k r) ok in (k', eq, next x r ok eq)
