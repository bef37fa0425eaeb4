-- ===== src/Pair/Fifo/WriteB.antt =====
-- The part of the writer of `BipBuffer` (ADBTestCE/adb/sysdeps_win32.cpp) that fills region B.
use adbtest_ce.Prelude.{
  Bool-cases, Bytes, [], ap, append_assoc, arith, drop, false, inl, inr, length, refl, suc, sym,
  take, true, zero, ℕ, ◌++◌, ◌+◌, ◌-◌, ◌<◌, ◌==◌, ◌∙◌, ◌∷◌, ◌≡◌,
}
use adbtest_ce.Pair.{BipBuffer, at_most, paste, slice, write_b}
use adbtest_ce.Pair.Slice.{slice-paste_behind, suc_add}
use adbtest_ce.Pair.Fifo.{IsBip, Wrote, at_most_le, content, length-content, paste_end, taken}

-- The bytes in region B, which begins at 0.
module _ (b : BipBuffer) (src : Bytes) (i : IsBip b) (full : b.a_end ≡ 4096)
    (room : b.b_end < b.a_start) where
  abbrev size_b : ℕ
  size_b = at_most (b.a_start - b.b_end) (length src)

  abbrev filled_b : BipBuffer
  filled_b = record b { b_end = b.b_end + size_b; buff = paste b.buff b.b_end (take size_b src) }

  content-filled_b : content filled_b ≡ content b ++ take size_b src
  unfolding content
  content-filled_b =
      let n = size_b in
      let (le, le') = at_most_le (b.a_start - b.b_end) (length src) in
      let len = taken n src le' in
      let a = slice b.buff b.a_start (b.a_end - b.a_start) in
      let behind =
        slice-paste_behind b.buff b.b_end (take n src) b.a_start (b.a_end - b.a_start)
          (omega (arith, len, le, room)) in
      let ends = paste_end b.buff 0 b.b_end (take n src) n len in
      let zero_add : 0 + b.b_end ≡ b.b_end = omega arith in
      ap (λ y. y ++ slice filled_b.buff 0 (b.b_end + n)) behind
      ∙ ap (λ k. a ++ slice (paste b.buff k (take n src)) 0 (b.b_end + n)) (sym zero_add)
      ∙ ap (◌++◌ a) ends
      ∙ sym (append_assoc a (slice b.buff 0 b.b_end) (take n src))

  -- What `write_b` leaves, whichever way its last test goes.
  pub write_b-IsBip :
      (count : ℕ)
      → (c : BipBuffer) × (write_b b src count ≡ (c, count + size_b))
        × IsBip c
        × (content c ≡ content b ++ take size_b src)
        × (c.closed ≡ b.closed)
  unfolding write_b content
  write_b-IsBip count =
      let n = size_b in
      let (le, le') = at_most_le (b.a_start - b.b_end) (length src) in
      elim (Bool-cases (b.b_end + n == b.a_start)) [
        | inl same ↦ (
          record filled_b { can_write = false; can_read = true },
          rw same refl,
          record {
            start_le = i.start_le;
            end_le = i.end_le;
            b_le = omega (arith, le, room);
            b_used = inr full;
            writes = ground (arith, same, full);
            reads = ground (arith, i.start_le, room, full, i.empty);
            empty = i.empty;
          },
          content-filled_b,
          refl,
        )
        | inr other ↦ (
          record filled_b { can_read = true },
          rw other refl,
          record {
            start_le = i.start_le;
            end_le = i.end_le;
            b_le = omega (arith, le, room);
            b_used = inr full;
            writes = i.writes ∙ ground (arith, other, full, room);
            reads = ground (arith, i.start_le, room, full, i.empty);
            empty = i.empty;
          },
          content-filled_b,
          refl,
        )
      ]

take_nil : (k : ℕ) → take {A = ℕ} k [] ≡ []
take_nil zero = refl
take_nil (suc k) = refl

pub take_more : (m n : ℕ) (x : Bytes) → take (m + n) x ≡ take m x ++ take n (drop m x)
take_more zero n x = let none_yet : 0 + n ≡ n = omega arith in ap (λ k. take k x) none_yet
take_more (suc m) n [] = take_nil (suc m + n) ∙ sym (take_nil n)
take_more (suc m) n (c ∷ x) = ap (λ k. take k (c ∷ x)) (suc_add m n) ∙ ap (◌∷◌ c) (take_more m n x)

-- The writer that starts with region B.
pub write_b-Wrote :
    (b : BipBuffer) (src : Bytes)
    → IsBip b
    → b.can_write ≡ true
    → b.a_end ≡ 4096
    → Wrote b src (write_b b src 0)
write_b-Wrote b src i can full =
    let room : b.b_end < b.a_start = ground (arith, i.writes, i.b_le, can, full) in
    let n = at_most (b.a_start - b.b_end) (length src) in
    let (c, eq, ic, held, same) = write_b-IsBip b src i full room 0 in
    let zero_add : 0 + n ≡ n = omega arith in
    rw eq (
      ic,
      held ∙ ap (λ k. content b ++ take k src) (sym zero_add),
      zero_add
          ∙ ap (λ k. at_most k (length src))
              (omega (arith, length-content b, full, room, i.start_le, i.b_le)),
      same,
    )
