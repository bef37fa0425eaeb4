-- ===== src/Pair/Fifo/Refines.antt =====
-- `bip_buffer_write` and `bip_buffer_read` (ADBTestCE/adb/sysdeps_win32.cpp) and a bounded queue.
use mathlib.Core.Path.{subst}
use adbtest_ce.Prelude.{
  Bool, Bool-cases, Bytes, [], ap, append-nil, arith, drop, drop-append, false, if◌then◌else◌, inl,
  inr, length, length-append, length-drop, length_zero, ltb, refl, sym, take, take-append,
  take_of_le, ℕ, ◌++◌, ◌-◌, ◌==◌, ◌∙◌, ◌≡◌, ◌≤◌,
}
use adbtest_ce.Pair.{
  BipBuffer, Transfer, at_most, bip_buffer_read, bip_buffer_write, broken_pipe, moved, must_wait,
  read_locked, write_locked,
}
use adbtest_ce.Pair.Fifo.{IsBip, Wrote, content, length-content}
use adbtest_ce.Pair.Fifo.Read.{Took, read_locked-Took}
use adbtest_ce.Pair.Fifo.Write.{write_locked-Wrote}

-- A queue that holds at most 4096 bytes.
pub record Fifo : Type 0 where
  pub bytes : Bytes
  pub closed : Bool

-- A write takes what fits; a full queue makes the writer wait, or fails when it is closed.
unfoldable pub fifo_write : Fifo → Bytes → Transfer (Fifo × ℕ)
fifo_write q src =
    let k = at_most (4096 - length q.bytes) (length src) in
    if length src == 0
    then moved (q, 0)
    else if ltb (length q.bytes) 4096
    then moved (record q { bytes = q.bytes ++ take k src }, k)
    else if q.closed
    then broken_pipe
    else must_wait

-- A read takes from the front; an empty queue makes the reader wait, or fails when it is closed.
unfoldable pub fifo_read : Fifo → ℕ → Transfer (Fifo × Bytes)
fifo_read q len =
    if len == 0
    then moved (q, [])
    else if ltb 0 (length q.bytes)
    then moved (record q { bytes = drop len q.bytes }, take len q.bytes)
    else if q.closed
    then broken_pipe
    else must_wait

-- The queue that a buffer stands for.
unfoldable pub fifo_of : BipBuffer → Fifo
fifo_of b = record { bytes = content b; closed = b.closed }

abbrev pub seen : {A : Type 0} → Transfer (BipBuffer × A) → Transfer (Fifo × A)
seen (moved (b, x)) = moved (fifo_of b, x)
seen broken_pipe = broken_pipe
seen must_wait = must_wait

-- Whatever is left of the buffer is one again.
abbrev pub Intact : {A : Type 0} → Transfer (BipBuffer × A) → Type 0
Intact (moved (b, x)) = IsBip b
Intact broken_pipe = Unit
Intact must_wait = Unit

-- The flags say what the length of the queue says.
can_write_iff : (b : BipBuffer) → IsBip b → b.can_write ≡ ltb (length (content b)) 4096
can_write_iff b i =
    let s_le = i.start_le in
    let e_le = i.end_le in
    let b_le = i.b_le in
    let used = i.b_used in i.writes ∙ ground (arith, length-content b, s_le, e_le, b_le, used)

can_read_iff : (b : BipBuffer) → IsBip b → b.can_read ≡ ltb 0 (length (content b))
can_read_iff b i =
    let s_le = i.start_le in
    let b_le = i.b_le in
    let none_left = i.empty in i.reads ∙ ground (arith, length-content b, s_le, b_le, none_left)

abbrev entry : {A : Type 0} → Bytes → Bool → A → Fifo × A
entry x closed a = (record { bytes = x; closed = closed }, a)

-- A call that moved bytes, seen as one of the queue.
written_queue :
    (b : BipBuffer) (src : Bytes) (r : BipBuffer × ℕ)
    → Wrote b src r
    → let k = at_most (4096 - length (content b)) (length src) in
      (fifo_of r.0, r.1) ≡ entry (content b ++ take k src) b.closed k
unfolding fifo_of
written_queue b src (c, k) (ic, held, count, same) =
    ap (λ x. entry x c.closed k) held
    ∙ ap (λ z. entry (content b ++ take k src) z k) same
    ∙ ap (λ j. entry (content b ++ take j src) b.closed j) count

front_of :
    (x rest t : Bytes) (len : ℕ)
    → x ++ rest ≡ t
    → length x ≡ at_most (length t) len
    → (take len t ≡ x) × (drop len t ≡ rest)
unfolding at_most
front_of x rest t len e n = elim (Bool-cases (ltb len (length t))) [
  | inl fewer ↦
      let m : length x ≡ len = n ∙ ground (arith, fewer) in
      (
        ap (take len) (sym e) ∙ ap (λ k. take k (x ++ rest)) (sym m) ∙ take-append x rest,
        ap (drop len) (sym e) ∙ ap (λ k. drop k (x ++ rest)) (sym m) ∙ drop-append x rest,
      )
  | inr all ↦
      let m : length x ≡ length t = n ∙ ground (arith, all) in
      let none_left : rest ≡ [] =
        length_zero rest (omega (arith, m, ap length e, length-append x rest)) in
      let le : length t ≤ len = ground (arith, all) in
      let gone = length_zero (drop len t) (omega (arith, length-drop len t, le)) in
      let whole : x ≡ t = sym (append-nil x) ∙ ap (◌++◌ x) (sym none_left) ∙ e in
      (take_of_le len t le ∙ sym whole, gone ∙ sym none_left)
]

read_queue :
    (b : BipBuffer) (len : ℕ) (r : BipBuffer × Bytes)
    → Took b len r
    → (fifo_of r.0, r.1) ≡ entry (drop len (content b)) b.closed (take len (content b))
unfolding fifo_of
read_queue b len (c, x) (ic, whole, count, same) =
    let (front, others) = front_of x (content c) (content b) len whole count in
    ap (λ y. entry y c.closed x) (sym others)
    ∙ ap (λ z. entry (drop len (content b)) z x) same
    ∙ ap (entry (drop len (content b)) b.closed) (sym front)

-- The two tests in front of a call under the lock.
guarded : {A : Type 0} → Bool → Bool → Bool → A → A → Transfer A
guarded empty_call can closed nothing result =
    if empty_call
    then moved nothing
    else if can
    then moved result
    else if closed
    then broken_pipe
    else must_wait

-- `bip_buffer_write` does to the bytes that wait what a queue of 4096 bytes does: it takes as many
-- bytes as fit, to the end, and gives their number; it waits, or fails where the pair is closed, only
-- when the queue is full.
pub bip_buffer_write-fifo_write :
    (b : BipBuffer) (src : Bytes)
    → IsBip b
    → (seen (bip_buffer_write b src) ≡ fifo_write (fifo_of b) src) × Intact (bip_buffer_write b src)
unfolding bip_buffer_write fifo_write fifo_of guarded
bip_buffer_write-fifo_write b src i =
    let P : Bool → Bool → Bool → Type 0 = λ e c s.
      (seen (guarded e c s (b, 0) (write_locked b src)) ≡ fifo_write (fifo_of b) src)
      × Intact (guarded e c s (b, 0) (write_locked b src)) in
    let e = length src == 0 in
    elim (Bool-cases e) [
      | inl h ↦ subst (λ t. P t b.can_write b.closed) (sym h) (rw h refl, i)
      | inr h ↦ elim (Bool-cases b.can_write) [
        | inl can ↦
            let room = sym (can_write_iff b i) ∙ can in
            let r = write_locked-Wrote b src i can (ground (arith, h)) in
            let spec : moved (entry _ b.closed _) ≡ fifo_write (fifo_of b) src =
              rw (h, room) refl in
            subst (λ t. P t b.can_write b.closed) (sym h)
              (subst (λ t. P false t b.closed) (sym can)
                (ap moved (written_queue b src (write_locked b src) r) ∙ spec, r.0))
        | inr cannot ↦
            let full = sym (can_write_iff b i) ∙ cannot in
            subst (λ t. P t b.can_write b.closed) (sym h)
              (subst (λ t. P false t b.closed) (sym cannot)
                (elim (Bool-cases b.closed) [
                  | inl shut ↦ subst (P false false) (sym shut) (rw (h, full, shut) refl, record {})
                  | inr open_yet ↦
                      subst (P false false) (sym open_yet) (rw (h, full, open_yet) refl, record {})
                ]))
      ]
    ]

-- `bip_buffer_read` gives what a queue gives: its first bytes, as many as are asked for or as there
-- are; it waits, or fails where the pair is closed, only when the queue is empty.
pub bip_buffer_read-fifo_read :
    (b : BipBuffer) (len : ℕ)
    → IsBip b
    → (seen (bip_buffer_read b len) ≡ fifo_read (fifo_of b) len) × Intact (bip_buffer_read b len)
unfolding bip_buffer_read fifo_read fifo_of guarded
bip_buffer_read-fifo_read b len i =
    let P : Bool → Bool → Bool → Type 0 = λ e c s.
      (seen (guarded e c s (b, []) (read_locked b len)) ≡ fifo_read (fifo_of b) len)
      × Intact (guarded e c s (b, []) (read_locked b len)) in
    let e = len == 0 in
    elim (Bool-cases e) [
      | inl h ↦ subst (λ t. P t b.can_read b.closed) (sym h) (rw h refl, i)
      | inr h ↦ elim (Bool-cases b.can_read) [
        | inl can ↦
            let there = sym (can_read_iff b i) ∙ can in
            let r = read_locked-Took b len i can (ground (arith, h)) in
            let spec : moved (entry _ b.closed _) ≡ fifo_read (fifo_of b) len =
              rw (h, there) refl in
            subst (λ t. P t b.can_read b.closed) (sym h)
              (subst (λ t. P false t b.closed) (sym can)
                (ap moved (read_queue b len (read_locked b len) r) ∙ spec, r.0))
        | inr cannot ↦
            let none_there = sym (can_read_iff b i) ∙ cannot in
            subst (λ t. P t b.can_read b.closed) (sym h)
              (subst (λ t. P false t b.closed) (sym cannot)
                (elim (Bool-cases b.closed) [
                  | inl shut ↦
                      subst (P false false) (sym shut) (rw (h, none_there, shut) refl, record {})
                  | inr open_yet ↦
                      subst (P false false) (sym open_yet)
                        (rw (h, none_there, open_yet) refl, record {})
                ]))
      ]
    ]
