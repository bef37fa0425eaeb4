-- ===== src/Sockets/Sound/CloseAll.antt =====
-- `close_all_sockets` (ADBTestCE/adb/sockets.cpp) and the invariant of the heap.
use adbtest_ce.Prelude.{
  Bool, Bool-cases, List, Option, Option-cases, [], ap, arith, false, if◌then◌else◌, inl, inr, none,
  refl, some, suc, sym, true, zero, ℕ, ◌+◌, ◌<◌, ◌==◌, ◌∙◌, ◌∷◌, ◌≡◌, ◌≢◌, ◌≤◌, ◌⊎◌,
}
use adbtest_ce.Sockets.State.{
  Asocket, CloseFunc, State, local_socket_close, local_socket_close_notify, member,
  remote_socket_close, smart_socket_close,
}
use adbtest_ce.Sockets.Close.{close_within, dispatch_close, local_socket_close_locked, then_close}
use adbtest_ce.Sockets.Shutdown.{close_all_in, close_all_sockets, concerns, first_at, is_at}
use adbtest_ce.Sockets.Sound.{IsLocal, IsSound, alone-IsSound, pair-IsSound}
use adbtest_ce.Sockets.Close.Effect.{Unlists, dispatch_alone, dispatch_pair, is_local}

-- How many numbers below a bound a test holds for.
count : ℕ → (ℕ → Bool) → ℕ
count zero f = 0
count (suc n) f = let rest = count n f in if f n then 1 + rest else rest

count_le : (n : ℕ) (f g : ℕ → Bool) → ((q : ℕ) → g q ≡ true → f q ≡ true) → count n g ≤ count n f
unfolding count
count_le zero f g h = ground arith
count_le (suc n) f g h = ground (arith, count_le n f g h, h n)

count_lt :
    (n s : ℕ) (f g : ℕ → Bool)
    → ((q : ℕ) → g q ≡ true → f q ≡ true)
    → s < n
    → f s ≡ true
    → g s ≡ false
    → count n g < count n f
unfolding count
count_lt zero s f g h lt fs gs = absurd (omega (arith, lt))
count_lt (suc n) s f g h lt fs gs = elim (Bool-cases (s == n)) [
  | inl at ↦
      let same : s ≡ n = ground arith in
      let fn : f n ≡ true = ap f (sym same) ∙ fs in
      let gn : g n ≡ false = ap g (sym same) ∙ gs in ground (arith, count_le n f g h, fn, gn)
  | inr other ↦ ground (arith, count_lt n s f g h (ground (arith, lt)) fs gs, h n)
]

count_bound : (n : ℕ) (f : ℕ → Bool) → count n f ≤ n
unfolding count
count_bound zero f = ground arith
count_bound (suc n) f = ground (arith, count_bound n f)

-- A local close takes a socket off the list whichever of the two close functions it has.
Unlists-local :
    (f : CloseFunc) (s : ℕ) (w v : State)
    → is_local f ≡ true
    → Unlists local_socket_close s w v
    → Unlists f s w v
Unlists-local local_socket_close s w v l un = un
Unlists-local local_socket_close_notify s w v l un = un
Unlists-local remote_socket_close s w v l un = cc
Unlists-local smart_socket_close s w v l un = cc

-- `local_socket_close_locked` of a socket of the list.
abbrev Locked : ℕ → Asocket → State → Type 0
Locked s a w =
    (v : State) × (local_socket_close_locked (close_within 1) s a w ≡ some v)
    × IsSound v
    × (v.break ≡ w.break)
    × ((q : ℕ)
        → member q v.local_socket_list ≡ true
        → (member q w.local_socket_list ≡ true) × (q ≢ s))

listed-Locked :
    (s : ℕ) (a : Asocket) (o : Option ℕ) (w : State)
    → IsSound w
    → w.cell s ≡ some a
    → IsLocal a
    → a.peer ≡ o
    → Locked s a w
unfolding dispatch_close
listed-Locked s a none w i e l h =
    let (v, eq, c, o, un) = dispatch_alone local_socket_close (close_within 1) s a w e h in
    (
      v,
      eq,
      alone-IsSound s a w v i e h c o (Unlists-local a.close s w v l.0 un),
      o.1,
      λ q m. let (old, ne) = un.0 q m in (old, ne refl),
    )
listed-Locked s a (some p) w i e l h =
    let (b, e', h', ne, _) = i.paired s a p e h in
    let (v, eq, c, c', same, brk, un, un') = dispatch_pair s p a b w ne h e e' local_socket_close in
    (
      v,
      eq,
      pair-IsSound s p a b w v i e h e' c c' same brk (Unlists-local a.close s w v l.0 un) un',
      brk,
      λ q m. let (old, n) = un.0 q m in (old, n refl),
    )

-- The test of the loop reads live sockets alone.
concerns-live :
    (t s : ℕ) (a : Asocket) (w : State)
    → IsSound w
    → w.cell s ≡ some a
    → (test : Bool) × (concerns t w.cell a ≡ some test)
unfolding concerns
concerns-live t s a w i e = elim (Option-cases a.peer) [
  | inl h ↦ (is_at t a.transport, rw h refl)
  | inr (p, h) ↦
      let (b, eb, _, _, _) = i.paired s a p e h in
      elim (Bool-cases (is_at t a.transport)) [
        | inl at ↦ (true, rw (h, at) refl)
        | inr other ↦ (is_at t b.transport, rw (h, other, eb) refl)
      ]
]

-- No socket of the list concerns the transport.
abbrev pub NoneAt : ℕ → State → List ℕ → Type 0
NoneAt t w l =
    (q : ℕ) (a : Asocket) → member q l ≡ true → w.cell q ≡ some a → concerns t w.cell a ≡ some false

-- The `for` loop over live sockets ends at one that concerns the transport, or there is none.
first_at-found :
    (t : ℕ) (w : State) (l : List ℕ)
    → IsSound w
    → ((q : ℕ) → member q l ≡ true → (a : Asocket) × (w.cell q ≡ some a) × IsLocal a)
    → (first_at t w.cell l ≡ some none) × NoneAt t w l
      ⊎ ((s : ℕ) × (first_at t w.cell l ≡ some (some s)) × (member s l ≡ true))
unfolding first_at member
first_at-found t w [] i live = inl (refl, λ q a m. cc)
first_at-found t w (s ∷ l) i live =
    let (a, e, _) = live s (ground arith) in
    let (test, c) = concerns-live t s a w i e in
    at_head a e test c (first_at-found t w l i (λ q m. live q (ground (arith, m))))
  where
    at_head :
        (a : Asocket)
        → w.cell s ≡ some a
        → (test : Bool) → concerns t w.cell a ≡ some test
        → (first_at t w.cell l ≡ some none) × NoneAt t w l
          ⊎ ((r : ℕ) × (first_at t w.cell l ≡ some (some r)) × (member r l ≡ true))
        → (first_at t w.cell (s ∷ l) ≡ some none) × NoneAt t w (s ∷ l)
          ⊎ ((r : ℕ) × (first_at t w.cell (s ∷ l) ≡ some (some r)) × (member r (s ∷ l) ≡ true))
    at_head a e true c later = inr (s, rw (e, first_at, c) refl, ground arith)
    at_head a e false c (inr (r, found, m)) = inr (r, rw (e, first_at, c) found, ground (arith, m))
    at_head a e false c (inl (absent, others)) = inl (
      rw (e, first_at, c) absent,
      λ q x m ex. elim (Bool-cases (q == s)) [
        | inl at ↦ let same : a ≡ x = ground arith in ap (concerns t w.cell) (sym same) ∙ c
        | inr other ↦ others q x (ground (arith, m)) ex
      ],
    )

-- `goto restart`: each round leaves fewer sockets on the list.
abbrev listed_count : State → ℕ
listed_count w = count w.break (λ q. member q w.local_socket_list)

rounds :
    (fuel t : ℕ) (w : State)
    → IsSound w
    → listed_count w < fuel
    → (v : State) × (close_all_in fuel t w ≡ some v) × IsSound v × NoneAt t v v.local_socket_list
unfolding close_all_in
rounds zero t w i lt = absurd (omega (arith, lt))
rounds (suc fuel) t w i lt = elim (first_at-found t w w.local_socket_list i i.listed) [
  | inl (absent, others) ↦ (w, rw (absent, close_all_in) refl, i, others)
  | inr (s, found, m) ↦
      let (a, e, l) = i.listed s m in
      let (v, eq, iv, brk, fewer) = listed-Locked s a a.peer w i e l refl in
      let (u, eu, iu, none_at) = rounds fuel t v iv (less s v brk fewer m (i.fresh s a e)) in
      (u, rw (found, close_all_in, e, eq, then_close) eu, iu, none_at)
]
  where
    less :
        (s : ℕ) (v : State)
        → v.break ≡ w.break
        → ((q : ℕ)
            → member q v.local_socket_list ≡ true
            → (member q w.local_socket_list ≡ true) × (q ≢ s))
        → member s w.local_socket_list ≡ true
        → s < w.break
        → listed_count v < fuel
    less s v brk fewer m below =
        let f : ℕ → Bool = λ q. member q w.local_socket_list in
        let g : ℕ → Bool = λ q. member q v.local_socket_list in
        let off : g s ≡ false = elim (Bool-cases (g s)) [
          | inl there ↦ absurd ((fewer s there).1 refl)
          | inr gone ↦ gone
        ] in
        let n = count_lt w.break s f g (λ q h. (fewer q h).0) below m off in
        let same : count v.break g ≡ count w.break g = ap (λ b. count b g) brk in
        omega (arith, n, same, lt)

-- In a sound heap `close_all_sockets` ends, with no bad pointer, though each close changes the list
-- that the loop walks and may free the peer as well. Afterwards the heap is sound, and neither a
-- socket of the list nor its peer belongs to the transport.
pub close_all_sockets-IsSound :
    (t : ℕ) (w : State)
    → IsSound w
    → (v : State) × (close_all_sockets t w ≡ some v) × IsSound v × NoneAt t v v.local_socket_list
unfolding close_all_sockets
close_all_sockets-IsSound t w i =
    rounds (suc w.break) t w i
      (omega (arith, count_bound w.break (λ q. member q w.local_socket_list)))
