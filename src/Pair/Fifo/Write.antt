-- ===== src/Pair/Fifo/Write.antt =====
-- The writer of `BipBuffer` (ADBTestCE/adb/sysdeps_win32.cpp).
use adbtest_ce.Prelude.{
  Bool, Bool-cases, Bytes, [], ap, append-nil, append_assoc, arith, drop, false, inl, inr, length,
  length-drop, ltb, not, refl, sym, take, true, ℕ, ◌&&◌, ◌++◌, ◌+◌, ◌-◌, ◌<◌, ◌==◌, ◌∙◌, ◌≡◌, ◌≢◌,
  ◌⊎◌,
}
use adbtest_ce.Pair.{BipBuffer, at_most, exit_write, paste, slice, write_b, write_locked}
use adbtest_ce.Pair.Fifo.{
  IsBip, Wrote, at_most_full, at_most_le, content, length-content, paste_end, taken,
}
use adbtest_ce.Pair.Fifo.WriteB.{write_b-Wrote, write_b-IsBip, take_more}

-- The bytes behind region A, where there is room.
module _ (b : BipBuffer) (src : Bytes) (i : IsBip b) (room : b.a_end < 4096) where
  abbrev size_a : ℕ
  size_a = at_most (4096 - b.a_end) (length src)

  abbrev filled_a : BipBuffer
  filled_a = record b { a_end = b.a_end + size_a; buff = paste b.buff b.a_end (take size_a src) }

  no_b : b.b_end ≡ 0
  no_b = elim i.b_used [
    | inl none_there ↦ none_there
    | inr full ↦ absurd (omega (arith, full, room))
  ]

  content-filled_a : content filled_a ≡ content b ++ take size_a src
  unfolding content slice
  content-filled_a =
      let n = size_a in
      let (le, le') = at_most_le (4096 - b.a_end) (length src) in
      let len = taken n src le' in
      let y = take n src in
      let width = b.a_end - b.a_start in
      let at_end : b.a_start + width ≡ b.a_end = omega (arith, i.start_le) in
      let wider : b.a_end + n - b.a_start ≡ width + n = omega (arith, i.start_le) in
      let a = slice b.buff b.a_start width in
      ap
        (λ k.
          slice (paste b.buff b.a_end y) b.a_start (b.a_end + n - b.a_start)
          ++ slice (paste b.buff b.a_end y) 0 k)
        no_b
      ∙ ap (λ k. slice (paste b.buff b.a_end y) b.a_start k ++ []) wider
      ∙ ap (λ k. slice (paste b.buff k y) b.a_start (width + n) ++ []) (sym at_end)
      ∙ ap (λ z. z ++ []) (paste_end b.buff b.a_start width y n len)
      ∙ append_assoc a y []
      ∙ ap (◌++◌ a) (append-nil y)
      ∙ ap (λ z. z ++ y) (sym (append-nil a) ∙ ap (λ k. a ++ slice b.buff 0 k) (sym no_b))

  -- The buffer after the first part of the writer, if there is room in front of region A or not.
  filled_a-IsBip :
      (w r : Bool)
      → w ≡ not (b.a_end + size_a == 4096 && b.b_end == b.a_start)
      → r ≡ ltb b.a_start (b.a_end + size_a)
      → (b.a_start ≢ b.a_end + size_a) ⊎ (b.a_start ≡ 0)
      → IsBip (record filled_a { can_write = w; can_read = r })
  filled_a-IsBip w r hw hr he =
      let (le, le') = at_most_le (4096 - b.a_end) (length src) in
      record {
        start_le = omega (arith, i.start_le);
        end_le = omega (arith, le, room);
        b_le = i.b_le;
        b_used = inl no_b;
        writes = hw;
        reads = hr;
        empty = he;
      }

-- The writer that starts behind region A.
module _ (b : BipBuffer) (src : Bytes) (i : IsBip b) (can : b.can_write ≡ true)
    (room : b.a_end < 4096) (some_byte : 0 < length src) where
  abbrev part : ℕ
  part = at_most (4096 - b.a_end) (length src)

  -- It fills the array to the end, and region A begins at 0.
  write_end :
      b.a_end + part ≡ 4096
      → b.a_start ≡ 0
      → Wrote b src (exit_write (record (filled_a b src i room) { can_write = false }) part)
  unfolding at_most content
  write_end at_end from = (
    filled_a-IsBip b src i room false true (ground (arith, at_end, from, no_b b src i room))
        (ground (arith, at_end, from)) (inr from),
    content-filled_a b src i room,
    ap (λ k. at_most k (length src)) (omega (arith, length-content b, no_b b src i room, from)),
    refl,
  )

  -- It takes all bytes.
  write_all :
      length src ≡ part
      → (b.a_end + part == 4096 && b.a_start == 0) ≡ false
      → Wrote b src (exit_write (filled_a b src i room) part)
  unfolding at_most content
  write_all all not_full =
      let no = no_b b src i room in
      let s_le = i.start_le in
      (
        filled_a-IsBip b src i room b.can_write true (can ∙ ground (arith, not_full, no))
            (ground (arith, all, some_byte, s_le)) (inl (omega (arith, all, some_byte, s_le))),
        content-filled_a b src i room,
        ground (arith, length-content b, no, all, s_le),
        refl,
      )

  -- It fills the array to the end, and goes on at its front.
  write_both_regions :
      part < length src
      → b.a_start ≢ 0
      → Wrote b src (write_b (filled_a b src i room) (drop part src) part)
  unfolding at_most content
  write_both_regions more from =
      let a = filled_a b src i room in
      let no = no_b b src i room in
      let s_le = i.start_le in
      let n = part in
      let rest = drop n src in
      let m = at_most (b.a_start - b.b_end) (length rest) in
      let at_end : b.a_end + n ≡ 4096 = ground (arith, more) in
      let held : b.a_start ≢ b.a_end = ground (arith, i.empty, from) in
      let ia : IsBip a =
        filled_a-IsBip b src i room b.can_write b.can_read (can ∙ ground (arith, no, from))
          (i.reads ∙ ground (arith, held, s_le)) (inl (omega (arith, held, s_le))) in
      let (c, eq, ic, grown, same) = write_b-IsBip a rest ia at_end (omega (arith, no, from)) n in
      rw eq (
        ic,
        grown
            ∙ ap (λ z. z ++ take m rest) (content-filled_a b src i room)
            ∙ append_assoc (content b) (take n src) (take m rest)
            ∙ ap (◌++◌ (content b)) (sym (take_more n m src)),
        ground (arith, length-content b, length-drop n src, no, more, s_le, held, room),
        same,
      )

-- A buffer that can be written takes bytes to its end, as many as fit.
pub write_locked-Wrote :
    (b : BipBuffer) (src : Bytes)
    → IsBip b
    → b.can_write ≡ true
    → 0 < length src
    → Wrote b src (write_locked b src)
unfolding write_locked
write_locked-Wrote b src i can some_byte = elim (Bool-cases (ltb 0 (4096 - b.a_end))) [
  | inr none_left ↦ rw none_left (write_b-Wrote b src i can (ground (arith, none_left, i.end_le)))
  | inl left ↦
      let room : b.a_end < 4096 = ground (arith, left) in
      let n = at_most (4096 - b.a_end) (length src) in
      elim (Bool-cases (b.a_end + n == 4096 && b.a_start == 0)) [
        | inl full ↦
            rw (left, full)
              (write_end b src i can room some_byte (ground (arith, full)) (ground (arith, full)))
        | inr space ↦ elim (Bool-cases (length src == n)) [
          | inl all ↦
              rw (left, space, all)
                (write_all b src i can room some_byte (ground (arith, all)) space)
          | inr more ↦
              let (_, le) = at_most_le (4096 - b.a_end) (length src) in
              let part_lt : n < length src = ground (arith, more, le) in
              let whole = at_most_full (4096 - b.a_end) (length src) part_lt in
              let from : b.a_start ≢ 0 = λ z. ground (arith, space, z, whole, room) in
              rw (left, space, more) (write_both_regions b src i can room some_byte part_lt from)
        ]
      ]
]
