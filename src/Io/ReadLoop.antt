-- ===== src/Io/ReadLoop.antt =====
-- `readx` (ADBTestCE/adb/transport.cpp) and the stream of bytes of its descriptor.
use adbtest_ce.Prelude.{
  All, Bool-cases, Bytes, List, [], ap, append_assoc, arith, drop, drop_of_length, inl, inr, leb,
  leb→le, length, length-append, length-drop, length-take, refl, suc, sym, take, take-append-drop,
  take_of_length, zero, ℕ, ◌++◌, ◌-◌, ◌∙◌, ◌∷◌, ◌≡◌, ◌≢◌, ◌≤◌,
}
use adbtest_ce.Io.{
  Arrival, Reading, eagain, eintr, got, other_errno, prepend, read_all, read_blocked, read_failed,
  read_loop, read_refused, readx,
}

-- All bytes that a descriptor will deliver.
abbrev pub stream : List Arrival → Bytes
stream [] = []
stream (got bs ∷ evs) = bs ++ stream evs
stream (read_failed e ∷ evs) = stream evs

-- No end of the stream and no error but an interruption.
abbrev pub IsHealthy : Arrival → Type 0
IsHealthy (got bs) = bs ≢ []
IsHealthy (read_failed e) = e ≡ eintr

pub prepend-eq-read_all :
    (bs : Bytes) (r : Reading) (x : Bytes) (rest : List Arrival)
    → prepend bs r ≡ read_all x rest
    → (y : Bytes) × (r ≡ read_all y rest) × (x ≡ bs ++ y)
unfolding prepend
prepend-eq-read_all bs (read_all y rs) x rest h = (y, ground arith, ground arith)
prepend-eq-read_all bs read_refused x rest h = cc
prepend-eq-read_all bs read_blocked x rest h = cc

-- The bytes read are `len`, and they are the front of the stream: none is lost, doubled or moved.
pub read_loop-stream :
    (evs : List Arrival) (len : ℕ) (x : Bytes) (rest : List Arrival)
    → read_loop evs len ≡ read_all x rest
    → (length x ≡ len) × (stream evs ≡ x ++ stream rest)
unfolding read_loop
read_loop-stream evs zero x rest h = ground arith
read_loop-stream [] (suc len) x rest h = cc
read_loop-stream (read_failed eintr ∷ evs) (suc len) x rest h =
    read_loop-stream evs (suc len) x rest h
read_loop-stream (read_failed eagain ∷ evs) (suc len) x rest h = cc
read_loop-stream (read_failed other_errno ∷ evs) (suc len) x rest h = cc
read_loop-stream (got [] ∷ evs) (suc len) x rest h = cc
read_loop-stream (got (b ∷ bs) ∷ evs) (suc len) x rest h = elim (Bool-cases (leb (length bs) len)) [
  | inl le ↦
      let (y, e, xe) =
        prepend-eq-read_all (b ∷ bs) (read_loop evs (len - length bs)) x rest (rw le at h) in
      let (l, st) = read_loop-stream evs (len - length bs) y rest e in
      (
        omega (arith, leb→le _ _ le, ap length xe, length-append bs y),
        rw (xe, st) (ap (◌∷◌ b) (sym (append_assoc bs y (stream rest)))),
      )
  | inr gt ↦ ground (
    arith,
    length-take len bs,
    ap (λ (y : Bytes). b ∷ (y ++ stream evs)) (take-append-drop len bs),
    append_assoc (b ∷ take len bs) (drop len bs) (stream evs),
  )
]

-- On a healthy descriptor the loop ends well as soon as the bytes are there.
pub read_loop_total :
    (evs : List Arrival) (len : ℕ)
    → All IsHealthy evs
    → len ≤ length (stream evs)
    → (x : Bytes) × (rest : List Arrival) × (read_loop evs len ≡ read_all x rest)
      × All IsHealthy rest
unfolding read_loop prepend
read_loop_total evs zero h le = ([], evs, ground arith, h)
read_loop_total [] (suc len) h le = absurd (omega arith)
read_loop_total (read_failed eintr ∷ evs) (suc len) h le = read_loop_total evs (suc len) h.1 le
read_loop_total (read_failed eagain ∷ evs) (suc len) h le = cc
read_loop_total (read_failed other_errno ∷ evs) (suc len) h le = cc
read_loop_total (got [] ∷ evs) (suc len) h le = absurd (h.0 refl)
read_loop_total (got (b ∷ bs) ∷ evs) (suc len) h le = elim (Bool-cases (leb (length bs) len)) [
  | inl e ↦
      let (x, rest, eq, hr) =
        read_loop_total evs (len - length bs) h.1
          (omega (arith, length-append bs (stream evs), leb→le _ _ e)) in
      (b ∷ (bs ++ x), rest, rw (e, eq), hr)
  | inr gt ↦ (
    b ∷ take len bs,
    got (drop len bs) ∷ evs,
    rw gt,
    ((λ e. ground (arith, ap length e, length-drop len bs)), h.1),
  )
]

-- Where no call fails or ends the stream, interruptions apart, and the bytes are there, a read ends
-- well with the next bytes of the stream, however they are cut into arrivals, and leaves the rest.
pub readx-stream :
    (evs : List Arrival) (len : ℕ)
    → All IsHealthy evs
    → len ≤ length (stream evs)
    → (rest : List Arrival) × (readx evs len ≡ read_all (take len (stream evs)) rest)
      × (stream rest ≡ drop len (stream evs))
      × All IsHealthy rest
unfolding readx
readx-stream evs len h le =
    let (x, rest, e, hr) = read_loop_total evs len h le in
    let (lx, st) = read_loop-stream evs len x rest e in
    (
      rest,
      e ∙ ap (λ y. read_all y rest) (sym (rw st (take_of_length x (stream rest) lx))),
      sym (rw st (drop_of_length x (stream rest) lx)),
      hr,
    )

-- Reading a block off the front of the stream.
pub readx_front :
    (evs : List Arrival) (len : ℕ) (x y : Bytes)
    → All IsHealthy evs
    → stream evs ≡ x ++ y
    → length x ≡ len
    → (rest : List Arrival) × (readx evs len ≡ read_all x rest)
      × (stream rest ≡ y)
      × All IsHealthy rest
readx_front evs len x y h e l =
    let enough : len ≤ length (stream evs) = rw e (omega (arith, length-append x y)) in
    let (rest, r, s, hr) = readx-stream evs len h enough in
    (
      rest,
      r ∙ ap (λ z. read_all z rest) (ap (take len) e ∙ take_of_length x y l),
      s ∙ ap (drop len) e ∙ drop_of_length x y l,
      hr,
    )
