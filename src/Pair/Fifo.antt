-- ===== src/Pair/Fifo.antt =====
-- `BipBuffer` (ADBTestCE/adb/sysdeps_win32.cpp) as a bounded queue.
pub mod WriteB
pub mod Write
pub mod Read
pub mod Refines
use adbtest_ce.Prelude.{
  Bytes, ap, arith, length, length-append, length-take, ltb, not, sym, take, ℕ, ◌&&◌, ◌++◌, ◌+◌,
  ◌-◌, ◌<◌, ◌==◌, ◌∙◌, ◌≡◌, ◌≢◌, ◌≤◌, ◌⊎◌,
}
use adbtest_ce.Pair.{BipBuffer, at_most, paste, slice}
use adbtest_ce.Pair.Slice.{length-slice, slice-append, slice-paste, slice-paste_before}

-- The bytes that wait, oldest first.
unfoldable pub content : BipBuffer → Bytes
content b = slice b.buff b.a_start (b.a_end - b.a_start) ++ slice b.buff 0 b.b_end

-- Region A lies in the array, region B in front of it, and B is used only where A goes to the end;
-- the two flags say whether there is room and whether there are bytes; no byte, and all is at 0.
pub record IsBip (b : BipBuffer) : Type 0 where
  pub start_le : b.a_start ≤ b.a_end
  pub end_le : b.a_end ≤ 4096
  pub b_le : b.b_end ≤ b.a_start
  pub b_used : (b.b_end ≡ 0) ⊎ (b.a_end ≡ 4096)
  pub writes : b.can_write ≡ not (b.a_end == 4096 && b.b_end == b.a_start)
  pub reads : b.can_read ≡ ltb b.a_start b.a_end
  pub empty : (b.a_start ≢ b.a_end) ⊎ (b.a_start ≡ 0)

pub length-content : (b : BipBuffer) → length (content b) ≡ (b.a_end - b.a_start) + b.b_end
unfolding content
length-content b = omega (
  arith,
  length-append (slice b.buff b.a_start (b.a_end - b.a_start)) (slice b.buff 0 b.b_end),
  length-slice b.buff b.a_start (b.a_end - b.a_start),
  length-slice b.buff 0 b.b_end,
)

-- Bytes that are pasted at the end of a region.
pub paste_end :
    (f : ℕ → ℕ) (from n : ℕ) (x : Bytes) (k : ℕ)
    → length x ≡ k
    → slice (paste f (from + n) x) from (n + k) ≡ slice f from n ++ x
paste_end f from n x k h =
    let g = paste f (from + n) x in
    slice-append g from n k
    ∙ ap (◌++◌ (slice g from n)) (ap (slice g (from + n)) (sym h) ∙ slice-paste f (from + n) x)
    ∙ ap (λ y. y ++ x) (slice-paste_before f (from + n) x from n (omega arith))

pub at_most_le : (m n : ℕ) → (at_most m n ≤ m) × (at_most m n ≤ n)
unfolding at_most
at_most_le m n = (ground arith, ground arith)

pub at_most_full : (m n : ℕ) → at_most m n < n → at_most m n ≡ m
unfolding at_most
at_most_full m n h = ground (arith, h)

pub taken : (n : ℕ) (src : Bytes) → n ≤ length src → length (take n src) ≡ n
taken n src h = omega (arith, length-take n src, h)

-- The buffer `c` holds what `b` does and the first `k` bytes of `src`.
abbrev pub Wrote : BipBuffer → Bytes → BipBuffer × ℕ → Type 0
Wrote b src (c, k) =
    IsBip c
    × (content c ≡ content b ++ take k src)
    × (k ≡ at_most (4096 - length (content b)) (length src))
    × (c.closed ≡ b.closed)
