-- ===== src/Pair/Fifo/Read.antt =====
-- The reader of `BipBuffer` (ADBTestCE/adb/sysdeps_win32.cpp).
use mathlib.Core.Path.{subst}
use adbtest_ce.Prelude.{
  Bool-cases, Bytes, ap, append-nil, append_assoc, arith, false, inl, inr, length, length-append,
  ltb, refl, sym, true, ℕ, ◌++◌, ◌+◌, ◌-◌, ◌<◌, ◌∙◌, ◌≡◌, ◌≤◌,
}
use adbtest_ce.Pair.{BipBuffer, at_most, exit_read, read_b, read_locked, slice}
use adbtest_ce.Pair.Slice.{length-slice, slice-append}
use adbtest_ce.Pair.Fifo.{IsBip, at_most_le, content, length-content}

-- The bytes `x` were the first ones of `b`, as many as were asked for or as there were; `c` has the
-- others.
abbrev pub Took : BipBuffer → ℕ → BipBuffer × Bytes → Type 0
Took b len (c, x) =
    IsBip c
    × (x ++ content c ≡ content b)
    × (length x ≡ at_most (length (content b)) len)
    × (c.closed ≡ b.closed)

slice_cut :
    (f : ℕ → ℕ) (from n width : ℕ)
    → n ≤ width
    → slice f from n ++ slice f (from + n) (width - n) ≡ slice f from width
slice_cut f from n width h =
    let whole : n + (width - n) ≡ width = omega (arith, h) in
    sym (slice-append f from n (width - n)) ∙ ap (slice f from) whole

module _ (b : BipBuffer) (len : ℕ) (i : IsBip b) (can : b.can_read ≡ true) (asked : 0 < len) where
  abbrev width : ℕ
  width = b.a_end - b.a_start

  abbrev part : ℕ
  part = at_most width len

  abbrev dst : Bytes
  dst = slice b.buff b.a_start part

  held : b.a_start < b.a_end
  held = ground (arith, can, i.reads)

  -- Region A has bytes left.
  read_a :
      b.a_start + part < b.a_end
      → Took b len (exit_read (record b { a_start = b.a_start + part }) dst)
  unfolding content at_most
  read_a more =
      let rest : b.a_end - (b.a_start + part) ≡ width - part = omega arith in
      let (le, _) = at_most_le width len in
      let s_le = i.start_le in
      let e_le = i.end_le in
      let b_le = i.b_le in
      (
        record {
          start_le = omega (arith, more);
          end_le = i.end_le;
          b_le = omega (arith, i.b_le);
          b_used = i.b_used;
          writes = ground (arith, e_le, b_le, asked, held, more);
          reads = can ∙ ground (arith, more);
          empty = inl (omega (arith, more));
        },
        sym (append_assoc dst _ (slice b.buff 0 b.b_end))
            ∙ ap (λ k. (dst ++ slice b.buff (b.a_start + part) k) ++ slice b.buff 0 b.b_end) rest
            ∙ ap (λ z. z ++ slice b.buff 0 b.b_end) (slice_cut b.buff b.a_start part width le),
        length-slice b.buff b.a_start part ∙ ground (arith, length-content b, more),
        refl,
      )

  -- Region A is read to its end.
  module _ (all : b.a_end ≤ b.a_start + part) where
    whole : part ≡ width
    whole = let (le, _) = at_most_le width len in omega (arith, all, le, i.start_le)

    dst_is : dst ≡ slice b.buff b.a_start width
    dst_is = ap (slice b.buff b.a_start) whole

    abbrev more_b : ℕ
    more_b = at_most b.b_end (len - part)

    -- Region B takes its place, and has bytes left.
    read_swapped :
        more_b < b.b_end
        → Took b len (
            exit_read
              (record b { a_start = more_b; a_end = b.b_end; b_end = 0 })
              (dst ++ slice b.buff 0 more_b))
    unfolding content at_most slice
    read_swapped left =
        let n = more_b in
        let w = whole in
        let e_le = i.end_le in
        let b_le = i.b_le in
        let cut = slice_cut b.buff 0 n b.b_end (omega (arith, left)) in
        let zero_add : 0 + n ≡ n = omega arith in
        (
          record {
            start_le = omega (arith, left);
            end_le = omega (arith, i.b_le, i.start_le, i.end_le);
            b_le = omega arith;
            b_used = inl refl;
            writes = ground (arith, e_le, b_le, held);
            reads = can ∙ ground (arith, left);
            empty = inl (omega (arith, left));
          },
          ap (◌++◌ (dst ++ slice b.buff 0 n)) (append-nil (slice b.buff n (b.b_end - n)))
              ∙ append_assoc dst (slice b.buff 0 n) (slice b.buff n (b.b_end - n))
              ∙ ap (λ k. dst ++ (slice b.buff 0 n ++ slice b.buff k (b.b_end - n))) (sym zero_add)
              ∙ ap (◌++◌ dst) cut
              ∙ ap (λ z. z ++ slice b.buff 0 b.b_end) dst_is,
          length-append dst (slice b.buff 0 n)
              ∙ ground (
                arith,
                length-slice b.buff b.a_start part,
                length-slice b.buff 0 n,
                length-content b,
                w,
                left,
              ),
          refl,
        )

    abbrev emptied : BipBuffer
    emptied = record b { a_start = 0; a_end = 0; b_end = 0; can_read = false }

    -- Region B is read too.
    read_emptied : more_b ≡ b.b_end → Took b len (exit_read emptied (dst ++ slice b.buff 0 more_b))
    unfolding content at_most slice
    read_emptied none_left =
        let n = more_b in
        let w = whole in
        (
          record {
            start_le = omega arith;
            end_le = omega arith;
            b_le = omega arith;
            b_used = inl refl;
            writes = refl;
            reads = refl;
            empty = inr refl;
          },
          append-nil (dst ++ slice b.buff 0 n)
              ∙ ap (λ k. dst ++ slice b.buff 0 k) none_left
              ∙ ap (λ z. z ++ slice b.buff 0 b.b_end) dst_is,
          length-append dst (slice b.buff 0 n)
              ∙ ground (
                arith,
                length-slice b.buff b.a_start part,
                length-slice b.buff 0 n,
                length-content b,
                w,
                none_left,
              ),
          refl,
        )

    -- There is no region B.
    read_none : b.b_end ≡ 0 → Took b len (exit_read emptied dst)
    unfolding at_most slice
    read_none absent =
        let nothing : more_b ≡ 0 = ground (arith, absent) in
        let same : dst ++ slice b.buff 0 more_b ≡ dst =
          ap (λ k. dst ++ slice b.buff 0 k) nothing ∙ append-nil dst in
        subst (λ z. Took b len (exit_read emptied z)) same (read_emptied (nothing ∙ sym absent))

    read_b-Took : Took b len (read_b b (len - part) dst)
    unfolding read_b
    read_b-Took = elim (Bool-cases (ltb 0 b.b_end)) [
      | inr absent ↦ rw absent (read_none (ground (arith, absent)))
      | inl there ↦ elim (Bool-cases (ltb more_b b.b_end)) [
        | inl left ↦ rw (there, left) (read_swapped (ground (arith, left)))
        | inr gone ↦
            let (le, _) = at_most_le b.b_end (len - part) in
            rw (there, gone) (read_emptied (ground (arith, gone, le)))
      ]
    ]

-- A buffer that can be read gives its first bytes, as many as are asked for or as there are.
pub read_locked-Took :
    (b : BipBuffer) (len : ℕ)
    → IsBip b
    → b.can_read ≡ true
    → 0 < len
    → Took b len (read_locked b len)
unfolding read_locked
read_locked-Took b len i can asked =
    elim (Bool-cases (ltb (b.a_start + at_most (b.a_end - b.a_start) len) b.a_end)) [
      | inl more ↦ rw more (read_a b len i can asked (ground (arith, more)))
      | inr all ↦ rw all (read_b-Took b len i can asked (ground (arith, all)))
    ]
