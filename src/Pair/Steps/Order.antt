-- ===== src/Pair/Steps/Order.antt =====
-- What goes through an emulated socket pair (ADBTestCE/adb/sysdeps_win32.cpp).
use mathlib.Core.Path.{subst}
use adbtest_ce.Prelude.{
  Bool-cases, Bytes, List, [], ap, append-nil, append_assoc, arith, drop, inl, inr, length, ltb,
  refl, sym, take, take-append-drop, ℕ, ◌++◌, ◌-◌, ◌==◌, ◌∙◌, ◌∷◌, ◌≡◌,
}
use adbtest_ce.Pair.{
  BipBuffer, Transfer, at_most, bip_buffer_close, bip_buffer_init, bip_buffer_read,
  bip_buffer_write, broken_pipe, moved, must_wait, slice,
}
use adbtest_ce.Pair.Fifo.{IsBip, content}
use adbtest_ce.Pair.Fifo.Refines.{
  Fifo, Intact, bip_buffer_read-fifo_read, bip_buffer_write-fifo_write, fifo_of, fifo_read,
  fifo_write, seen,
}
use adbtest_ce.Pair.Steps.{
  Line, SocketPair, PairUse, a_fd, adb_socketpair, b_fd, has_pair, line_close, line_read,
  line_write, new_line, pair_close, pair_read, pair_write, use_all, use_open, use_pair,
}

-- What was read, and then what waits, is what was written.
pub record IsLine (l : Line) : Type 0 where
  pub intact : IsBip l.bip
  pub order : l.was_read ++ content l.bip ≡ l.written

fifo_write-moved :
    (q v : Fifo) (src : Bytes) (k : ℕ)
    → moved (v, k) ≡ fifo_write q src
    → v.bytes ≡ q.bytes ++ take k src
unfolding fifo_write
fifo_write-moved q v src k h = elim (Bool-cases (length src == 0)) [
  | inl e ↦
      let now : moved (v, k) ≡ moved (q, 0) = h ∙ rw e refl in
      let same : v ≡ q = cc in
      let count : k ≡ 0 = cc in
      ap (λ z. z.bytes) same
      ∙ sym (append-nil q.bytes)
      ∙ ap (λ j. q.bytes ++ take j src) (sym count)
  | inr e ↦ elim (Bool-cases (ltb (length q.bytes) 4096)) [
    | inl room ↦
        let n = at_most (4096 - length q.bytes) (length src) in
        let u : Fifo = record q { bytes = q.bytes ++ take n src } in
        let now : moved (v, k) ≡ moved (u, n) = h ∙ rw (e, room) refl in
        let same : v ≡ u = cc in
        let count : k ≡ n = cc in
        ap (λ z. z.bytes) same ∙ ap (λ j. q.bytes ++ take j src) (sym count)
    | inr full ↦ elim (Bool-cases q.closed) [
      | inl shut ↦ let now : moved (v, k) ≡ broken_pipe = h ∙ rw (e, full, shut) refl in cc
      | inr open_yet ↦ let now : moved (v, k) ≡ must_wait = h ∙ rw (e, full, open_yet) refl in cc
    ]
  ]
]

fifo_read-moved :
    (q v : Fifo) (len : ℕ) (x : Bytes) → moved (v, x) ≡ fifo_read q len → x ++ v.bytes ≡ q.bytes
unfolding fifo_read
fifo_read-moved q v len x h = elim (Bool-cases (len == 0)) [
  | inl e ↦
      let now : moved (v, x) ≡ moved (q, []) = h ∙ rw e refl in
      let same : v ≡ q = cc in
      let nothing : x ≡ [] = cc in ap (λ z. x ++ z.bytes) same ∙ ap (λ y. y ++ q.bytes) nothing
  | inr e ↦ elim (Bool-cases (ltb 0 (length q.bytes))) [
    | inl there ↦
        let u : Fifo = record q { bytes = drop len q.bytes } in
        let now : moved (v, x) ≡ moved (u, take len q.bytes) = h ∙ rw (e, there) refl in
        let same : v ≡ u = cc in
        let front : x ≡ take len q.bytes = cc in
        ap (λ z. x ++ z.bytes) same
        ∙ ap (λ y. y ++ drop len q.bytes) front
        ∙ take-append-drop len q.bytes
    | inr none_there ↦ elim (Bool-cases q.closed) [
      | inl shut ↦ let now : moved (v, x) ≡ broken_pipe = h ∙ rw (e, none_there, shut) refl in cc
      | inr open_yet ↦
          let now : moved (v, x) ≡ must_wait = h ∙ rw (e, none_there, open_yet) refl in cc
    ]
  ]
]

-- The three calls keep a line.
line_write-IsLine : (src : Bytes) (l : Line) → IsLine l → IsLine (line_write src l)
unfolding line_write fifo_of
line_write-IsLine src l i = go (bip_buffer_write l.bip src) refl
  where
    go : (r : Transfer (BipBuffer × ℕ)) → bip_buffer_write l.bip src ≡ r → IsLine (line_write src l)
    go (moved (b, k)) e =
        let (same, kept) = bip_buffer_write-fifo_write l.bip src i.intact in
        let now : moved (fifo_of b, k) ≡ fifo_write (fifo_of l.bip) src = sym (ap seen e) ∙ same in
        let grown = fifo_write-moved (fifo_of l.bip) (fifo_of b) src k now in
        let kb : IsBip b = subst Intact e kept in
        rw (e, line_write)
          (record {
            intact = kb;
            order =
                ap (◌++◌ l.was_read) grown
                ∙ sym (append_assoc l.was_read (content l.bip) (take k src))
                ∙ ap (λ z. z ++ take k src) i.order;
          })
    go broken_pipe e = rw (e, line_write) i
    go must_wait e = rw (e, line_write) i

line_read-IsLine : (len : ℕ) (l : Line) → IsLine l → IsLine (line_read len l)
unfolding line_read fifo_of
line_read-IsLine len l i = go (bip_buffer_read l.bip len) refl
  where
    go :
        (r : Transfer (BipBuffer × Bytes))
        → bip_buffer_read l.bip len ≡ r
        → IsLine (line_read len l)
    go (moved (b, x)) e =
        let (same, kept) = bip_buffer_read-fifo_read l.bip len i.intact in
        let now : moved (fifo_of b, x) ≡ fifo_read (fifo_of l.bip) len = sym (ap seen e) ∙ same in
        let front = fifo_read-moved (fifo_of l.bip) (fifo_of b) len x now in
        let kb : IsBip b = subst Intact e kept in
        rw (e, line_read)
          (record {
            intact = kb;
            order = append_assoc l.was_read x (content b) ∙ ap (◌++◌ l.was_read) front ∙ i.order;
          })
    go broken_pipe e = rw (e, line_read) i
    go must_wait e = rw (e, line_read) i

line_close-IsLine : (l : Line) → IsLine l → IsLine (line_close l)
unfolding line_close bip_buffer_close content
line_close-IsLine l i =
    let k = i.intact in
    record {
      intact = record {
        start_le = k.start_le;
        end_le = k.end_le;
        b_le = k.b_le;
        b_used = k.b_used;
        writes = k.writes;
        reads = k.reads;
        empty = k.empty;
      };
      order = i.order;
    }

-- Both lines of the pair.
abbrev BothLines : SocketPair → Type 0
BothLines p = IsLine p.a2b × IsLine p.b2a

use_open-IsLine : (u : PairUse) (p : SocketPair) → BothLines p → BothLines (use_open u p)
unfolding use_open
use_open-IsLine (pair_write a_fd buf) p (i, j) = (line_write-IsLine buf p.a2b i, j)
use_open-IsLine (pair_write b_fd buf) p (i, j) = (i, line_write-IsLine buf p.b2a j)
use_open-IsLine (pair_read a_fd len) p (i, j) = (i, line_read-IsLine len p.b2a j)
use_open-IsLine (pair_read b_fd len) p (i, j) = (line_read-IsLine len p.a2b i, j)
use_open-IsLine (pair_close a_fd) p (i, j) = (line_close-IsLine p.a2b i, line_close-IsLine p.b2a j)
use_open-IsLine (pair_close b_fd) p (i, j) = (line_close-IsLine p.a2b i, line_close-IsLine p.b2a j)

use_pair-IsLine : (u : PairUse) (p : SocketPair) → BothLines p → BothLines (use_pair u p)
unfolding use_pair
use_pair-IsLine u p i = elim (Bool-cases (has_pair u p)) [
  | inl has ↦ rw (has, use_pair) (use_open-IsLine u p i)
  | inr gone ↦ rw (gone, use_pair) i
]

use_all-IsLine : (us : List PairUse) (p : SocketPair) → BothLines p → BothLines (use_all us p)
unfolding use_all
use_all-IsLine [] p i = i
use_all-IsLine (u ∷ us) p i = use_all-IsLine us (use_pair u p) (use_pair-IsLine u p i)

new-IsLine : (f : ℕ → ℕ) → IsLine (new_line f)
unfolding bip_buffer_init content slice
new-IsLine f = record {
  intact = record {
    start_le = omega arith;
    end_le = omega arith;
    b_le = omega arith;
    b_used = inl refl;
    writes = refl;
    reads = refl;
    empty = inr refl;
  };
  order = refl;
}

-- However the two descriptors of a new pair are written, read and closed: in each direction, the bytes
-- that were read, followed by those that wait in the buffer, are the bytes that were written; none is
-- lost, doubled or moved.
pub use_all-adb_socketpair :
    (us : List PairUse) (f g : ℕ → ℕ)
    → let p = use_all us (adb_socketpair f g) in
      (p.a2b.was_read ++ content p.a2b.bip ≡ p.a2b.written)
      × (p.b2a.was_read ++ content p.b2a.bip ≡ p.b2a.written)
unfolding adb_socketpair
use_all-adb_socketpair us f g =
    let (i, j) = use_all-IsLine us (adb_socketpair f g) (new-IsLine f, new-IsLine g) in
    (i.order, j.order)
