-- ===== src/Transport/Count.antt =====
-- How long a transport lives: `kick_transport`, `transport_unref` and `transport_unref_locked` of
-- ADBTestCE/adb/transport.cpp. The two threads of a transport each hold a reference; anybody kicks.
use adbtest_ce.Prelude.{
  Bool, Bool-cases, List, Option, [], arith, false, if◌then◌else◌, inl, inr, none, refl, some, suc,
  true, ℕ, ◌+◌, ◌-◌, ◌<◌, ◌==◌, ◌∙◌, ◌∷◌, ◌≡◌, ◌≤◌,
}

-- `kicks`, `closes` and `removals` count the calls of `t->kick`, `t->close` and `remove_transport`.
pub record Counted : Type 0 where
  pub ref_count : ℕ
  pub kicked : Bool
  pub kicks : ℕ
  pub closes : ℕ
  pub removals : ℕ

unfoldable pub kick_transport : Counted → Counted
kick_transport t = if t.kicked then t else record t { kicked = true; kicks = t.kicks + 1 }

-- A count below zero is of a transport that is gone.
unfoldable pub transport_unref_locked : Counted → Option Counted
unfolding kick_transport
transport_unref_locked t =
    let u = kick_transport t in
    let gone : Counted = record u {
      ref_count = 0;
      closes = u.closes + 1;
      removals = u.removals + 1;
    } in
    let kept : Counted = record t { ref_count = t.ref_count - 1 } in
    if t.ref_count == 0 then none else if t.ref_count - 1 == 0 then some gone else some kept

pub data Use : Type 0 where
  kick unref : Use

-- The uses of a transport in the order of the lock.
unfoldable pub run_uses : List Use → Counted → Option Counted
run_uses [] t = some t
run_uses (kick ∷ us) t = run_uses us (kick_transport t)
run_uses (unref ∷ us) t = elim (transport_unref_locked t) [ none ↦ none | some u ↦ run_uses us u ]

abbrev pub unrefs : List Use → ℕ
unrefs [] = 0
unrefs (kick ∷ us) = unrefs us
unrefs (unref ∷ us) = suc (unrefs us)

abbrev pub new_transport : ℕ → Counted
new_transport n = record { ref_count = n; kicked = false; kicks = 0; closes = 0; removals = 0 }

-- Kicked as the flag says, and closed and removed exactly where the last reference is gone.
abbrev pub IsCounted : Counted → Type 0
IsCounted t =
    (t.kicks ≡ (if t.kicked then 1 else 0))
    × (t.closes ≡ (if t.ref_count == 0 then 1 else 0))
    × (t.removals ≡ t.closes)
    × (t.ref_count ≡ 0 → t.kicked ≡ true)

kick-IsCounted : (t : Counted) → IsCounted t → IsCounted (kick_transport t)
unfolding kick_transport
kick-IsCounted t h = ground (arith, h.0, h.1, h.2, h.3)

kick_ref_count : (t : Counted) → (kick_transport t).ref_count ≡ t.ref_count
unfolding kick_transport
kick_ref_count t = ground arith

kick_closes : (t : Counted) → (kick_transport t).closes ≡ t.closes
unfolding kick_transport
kick_closes t = ground arith

kick_kicked : (t : Counted) → (kick_transport t).kicked ≡ true
unfolding kick_transport
kick_kicked t = ground arith

unref-IsCounted :
    (t : Counted) (n : ℕ)
    → t.ref_count ≡ suc n
    → IsCounted t
    → (u : Counted) × (transport_unref_locked t ≡ some u) × (u.ref_count ≡ n) × IsCounted u
unfolding transport_unref_locked
unref-IsCounted t n e h =
    let u = kick_transport t in
    let gone : Counted = record u {
      ref_count = 0;
      closes = u.closes + 1;
      removals = u.removals + 1;
    } in
    elim (Bool-cases (n == 0)) [
      | inl last ↦
          let k = kick-IsCounted t h in
          let open_yet : t.closes ≡ 0 = ground (arith, e, h.1) in
          let once : gone.closes ≡ 1 = omega (arith, kick_closes t, open_yet) in
          let both : gone.removals ≡ gone.closes = omega (arith, k.2) in
          (
            gone,
            ground (arith, e, last),
            ground (arith, last),
            (k.0, once, both, (λ _. kick_kicked t)),
          )
      | inr more ↦ (
        record t { ref_count = n },
        ground (arith, e, more),
        refl,
        (h.0, ground (arith, e, h.1, more), h.2, (λ z. ground (arith, z, more))),
      )
    ]

-- Uses with no more unrefs than references run, and keep the counts.
run_uses-IsCounted :
    (us : List Use) (t : Counted)
    → IsCounted t
    → unrefs us ≤ t.ref_count
    → (u : Counted) × (run_uses us t ≡ some u)
      × (u.ref_count + unrefs us ≡ t.ref_count)
      × IsCounted u
unfolding run_uses
run_uses-IsCounted [] t h le = (t, refl, omega arith, h)
run_uses-IsCounted (kick ∷ us) t h le =
    let e = kick_ref_count t in
    let (u, eq, c, i) =
      run_uses-IsCounted us (kick_transport t) (kick-IsCounted t h) (omega arith) in
    (u, eq, c ∙ e, i)
run_uses-IsCounted (unref ∷ us) t h le =
    let n = t.ref_count - 1 in
    let (v, e, r, i) = unref-IsCounted t n (omega arith) h in
    let (u, eq, c, j) = run_uses-IsCounted us v i (omega (arith, r)) in
    (u, rw (e, run_uses) eq, omega (arith, c, r), j)

new-IsCounted : (n : ℕ) → 0 < n → IsCounted (new_transport n)
new-IsCounted n pos = (refl, ground arith, refl, (λ z. absurd (omega (arith, z))))

-- From a transport that is neither kicked nor closed, with `n` references: any sequence of uses with
-- at most `n` unrefs runs. In the end the transport was kicked at most once; it was closed and
-- removed once, and kicked, where there were `n` unrefs, and not at all where there were fewer.
pub run_uses-new_transport :
    (n : ℕ) (us : List Use)
    → 0 < n
    → unrefs us ≤ n
    → (u : Counted) × (run_uses us (new_transport n) ≡ some u)
      × (u.kicks ≤ 1)
      × (u.closes ≡ (if unrefs us == n then 1 else 0))
      × (u.removals ≡ u.closes)
      × (u.closes ≤ u.kicks)
run_uses-new_transport n us pos le =
    let (u, eq, c, i) = run_uses-IsCounted us (new_transport n) (new-IsCounted n pos) le in
    (u, eq, ground (arith, i.0), ground (arith, i.1, c), i.2, ground (arith, i.0, i.1, i.3))
