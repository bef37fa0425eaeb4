-- ===== src/Pair/Examples.antt =====
-- Buffers and uses at which the theorems on socket pairs apply (ADBTestCE/adb/sysdeps_win32.cpp).
use adbtest_ce.Prelude.{[], arith, codes, false, inl, inr, refl, true, ◌++◌, ◌∷◌, ◌≡◌}
use adbtest_ce.Pair.{BipBuffer, bip_buffer_read, bip_buffer_write}
use adbtest_ce.Pair.Fifo.{IsBip, content}
use adbtest_ce.Pair.Fifo.Refines.{
  Intact, bip_buffer_read-fifo_read, bip_buffer_write-fifo_write, fifo_of, fifo_read, fifo_write,
  seen,
}
use adbtest_ce.Pair.Steps.{a_fd, adb_socketpair, b_fd, pair_read, pair_write, use_all}
use adbtest_ce.Pair.Steps.Order.{use_all-adb_socketpair}

-- Region A goes to the end of the array, and three bytes lie in region B.
abbrev wrapped : BipBuffer
wrapped = record {
  a_start = 4094;
  a_end = 4096;
  b_end = 3;
  closed = false;
  can_write = true;
  can_read = true;
  buff = λ q. 7;
}

wrapped-IsBip : IsBip wrapped
wrapped-IsBip = record {
  start_le = omega arith;
  end_le = omega arith;
  b_le = omega arith;
  b_used = inr refl;
  writes = refl;
  reads = refl;
  empty = inl (omega arith);
}

bip_buffer_write-fifo_write_example :
    (seen (bip_buffer_write wrapped (codes "abc")) ≡ fifo_write (fifo_of wrapped) (codes "abc"))
    × Intact (bip_buffer_write wrapped (codes "abc"))
bip_buffer_write-fifo_write_example =
    bip_buffer_write-fifo_write wrapped (codes "abc") wrapped-IsBip

bip_buffer_read-fifo_read_example :
    (seen (bip_buffer_read wrapped 4) ≡ fifo_read (fifo_of wrapped) 4)
    × Intact (bip_buffer_read wrapped 4)
bip_buffer_read-fifo_read_example = bip_buffer_read-fifo_read wrapped 4 wrapped-IsBip

use_all-adb_socketpair_example :
    let p =
      use_all
        (pair_write a_fd (codes "ab") ∷ pair_read b_fd 1 ∷ [])
        (adb_socketpair (λ q. 0) (λ q. 0)) in
    (p.a2b.was_read ++ content p.a2b.bip ≡ p.a2b.written)
    × (p.b2a.was_read ++ content p.b2a.bip ≡ p.b2a.written)
use_all-adb_socketpair_example =
    use_all-adb_socketpair (pair_write a_fd (codes "ab") ∷ pair_read b_fd 1 ∷ []) (λ q. 0) (λ q. 0)
