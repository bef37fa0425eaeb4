-- ===== src/Io/Examples.antt =====
-- Descriptors at which the theorems of Io/ReadLoop and Io/WriteLoop apply.
use adbtest_ce.Prelude.{All, List, [], arith, codes, refl, ◌∷◌, ◌≡◌}
use adbtest_ce.Io.{
  Acceptance, Arrival, eintr, got, read_all, read_failed, read_loop, readx, write_failed, wrote,
}
use adbtest_ce.Io.ReadLoop.{IsHealthy, readx-stream, stream}

-- `OKAYab` in three pieces, with an interruption.
abbrev pieces : List Arrival
pieces = got (codes "O") ∷ read_failed eintr ∷ got (codes "KA") ∷ got (codes "Yab") ∷ []

pieces-IsHealthy : All IsHealthy pieces
pieces-IsHealthy = ((λ e. cc), (refl, ((λ e. cc), ((λ e. cc), tt))))

-- A read of four bytes, which leaves a part of the last piece.
pieces_read : readx pieces 4 ≡ read_all (codes "OKAY") (got (codes "ab") ∷ [])
unfolding readx read_loop
pieces_read = refl

readx-stream_example :
    (rest : List Arrival) × (readx pieces 4 ≡ read_all (codes "OKAY") rest)
    × (stream rest ≡ codes "ab")
    × All IsHealthy rest
readx-stream_example = readx-stream pieces 4 pieces-IsHealthy (omega arith)

abbrev calls : List Acceptance
calls = wrote 2 ∷ write_failed eintr ∷ wrote 9 ∷ wrote 0 ∷ []
