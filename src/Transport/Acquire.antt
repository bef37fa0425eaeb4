-- ===== src/Transport/Acquire.antt =====
-- `acquire_one_transport` of ADBTestCE/adb/transport.cpp: which transport a request gets.
use mathlib.Core.Path.{subst}
use adbtest_ce.Prelude.{
  All, Bool, Bool-cases, Bytes, List, Option, [], ap, arith, false, get_elem?, if◌then◌else◌, inl,
  inr, none, not, refl, some, suc, sym, true, ℕ, ◌++◌, ◌==◌, ◌↔◌, ◌∙◌, ◌∷◌, ◌≡◌, ◌≢◌, ◌⊎◌,
}
use adbtest_ce.Smart.{TransportType}
use adbtest_ce.Transport.{
  AcquireError, Atransport, Attempt, ConnectionState, Scan, acquire_one_transport, acquired,
  attempt, candidate, cs_bootloader, cs_device, cs_host, cs_noperm, cs_offline, cs_recovery,
  cs_sideload, device_not_found, device_offline, insufficient_permissions, invalid_device_state,
  is_noperm, refused, scan, settle_scan, state_code, tries_again, wrong_state,
}

-- The transports that a request may mean.
abbrev usable : TransportType → Option Bytes → Atransport → Bool
usable ttype serial t = elim (candidate ttype serial t) [
  | none ↦ false
  | some why ↦ not (is_noperm t)
]

unfoldable pub matches : TransportType → Option Bytes → List Atransport → List Atransport
matches ttype serial [] = []
matches ttype serial (t ∷ ts) =
    let rest = matches ttype serial ts in if usable ttype serial t then t ∷ rest else rest

-- The element of a list of one.
abbrev pub only : List Atransport → Option Atransport
only (t ∷ []) = some t
only _ = none

abbrev pub several : List Atransport → Bool
several (t ∷ u ∷ ts) = true
several _ = false

abbrev held : Option Atransport → List Atransport → List Atransport
held none ts = ts
held (some t) ts = t ∷ ts

-- The loop finds the transport that is meant where there is one, and says whether there are several.
scan-matches :
    (ttype : TransportType) (serial : Option Bytes) (ts : List Atransport)
    (result : Option Atransport) (error : AcquireError)
    → let s = scan ttype serial ts result error in
      let l = held result (matches ttype serial ts) in
      (s.result ≡ only l) × (s.ambiguous ≡ several l)
unfolding scan matches
scan-matches ttype serial [] none error = (refl, refl)
scan-matches ttype serial [] (some t) error = (refl, refl)
scan-matches ttype serial (t ∷ ts) none error = ground (
  arith,
  scan-matches ttype serial ts none error,
  scan-matches ttype serial ts none insufficient_permissions,
  scan-matches ttype serial ts (some t) error,
)
scan-matches ttype serial (t ∷ ts) (some u) error = ground (
  arith,
  scan-matches ttype serial ts (some u) error,
  scan-matches ttype serial ts (some u) insufficient_permissions,
)

-- Neither offline nor, where a state is asked for, in another one.
abbrev pub IsReady : Option ConnectionState → Atransport → Type 0
IsReady state t = (t.connection_state ≢ cs_offline) × (wrong_state state t ≡ false)

offline_iff :
    (c : ConnectionState) → ((state_code c == state_code cs_offline) ≡ true) ↔ (c ≡ cs_offline)
unfolding state_code
offline_iff cs_offline = ((λ _. refl), λ _. refl)
offline_iff cs_bootloader = ((λ e. cc), λ e. cc)
offline_iff cs_device = ((λ e. cc), λ e. cc)
offline_iff cs_host = ((λ e. cc), λ e. cc)
offline_iff cs_recovery = ((λ e. cc), λ e. cc)
offline_iff cs_noperm = ((λ e. cc), λ e. cc)
offline_iff cs_sideload = ((λ e. cc), λ e. cc)

only-singleton : (l : List Atransport) (t : Atransport) → (only l ≡ some t) ↔ (l ≡ t ∷ [])
only-singleton [] t = ((λ e. cc), λ e. cc)
only-singleton (u ∷ []) t = ground arith
only-singleton (u ∷ v ∷ l) t = ground arith

settle_found :
    (state : Option ConnectionState) (e : AcquireError) (b : Bool) (u t : Atransport)
    → (settle_scan state (record { result = some u; error = e; ambiguous = b }) ≡ acquired t)
      ↔ (some u ≡ some t) × IsReady state t
unfolding settle_scan
settle_found state e b u t =
    let s : Scan = record { result = some u; error = e; ambiguous = b } in
    elim (Bool-cases (state_code u.connection_state == state_code cs_offline)) [
      | inl off ↦
          let at = (offline_iff u.connection_state).0 off in
          let out : settle_scan state s ≡ refused device_offline b = rw off in
          (
            λ h. let clash : refused device_offline b ≡ acquired t = sym out ∙ h in cc,
            λ h.
                let same : u ≡ t = cc in
                absurd (h.1.0 (ap (λ x. x.connection_state) (sym same) ∙ at)),
          )
      | inr on ↦
          let up : u.connection_state ≢ cs_offline =
            λ at. ground (arith, on, offline_iff u.connection_state) in
          elim (Bool-cases (wrong_state state u)) [
            | inl wrong ↦
                let out : settle_scan state s ≡ refused invalid_device_state b = rw (on, wrong) in
                (
                  λ h. let clash : refused invalid_device_state b ≡ acquired t = sym out ∙ h in cc,
                  λ h.
                      let same : u ≡ t = cc in
                      let clash : true ≡ false = sym wrong ∙ ap (wrong_state state) same ∙ h.1.1 in
                      cc,
                )
            | inr right ↦
                let out : settle_scan state s ≡ acquired u = rw (on, right) in
                (
                  λ h.
                      let same : u ≡ t = cc in
                      (ap some same, subst (IsReady state) same (up, right)),
                  λ h. let same : u ≡ t = cc in out ∙ ap acquired same,
                )
          ]
    ]

abbrev scanned : Option Atransport → Scan → Scan
scanned o s = record s { result = o }

settle_scan_iff :
    (state : Option ConnectionState) (s : Scan) (t : Atransport)
    → (settle_scan state s ≡ acquired t) ↔ (s.result ≡ some t) × IsReady state t
unfolding settle_scan
settle_scan_iff state s t = go s.result refl
  where
    go :
        (o : Option Atransport)
        → s.result ≡ o
        → (settle_scan state s ≡ acquired t) ↔ (s.result ≡ some t) × IsReady state t
    go none h = ground (arith, h)
    go (some u) h =
        subst
          (λ (z : Scan). (settle_scan state z ≡ acquired t) ↔ (z.result ≡ some t) × IsReady state t)
          (ap (λ o. scanned o s) (sym h)) (settle_found state s.error s.ambiguous u t)

-- One try takes a transport exactly where it is the only one of the list, those without permissions
-- apart, that the request may mean, and it is ready.
pub attempt_iff :
    (state : Option ConnectionState) (ttype : TransportType) (serial : Option Bytes)
    (ts : List Atransport) (t : Atransport)
    → (attempt state ttype serial ts ≡ acquired t)
      ↔ (matches ttype serial ts ≡ t ∷ []) × IsReady state t
unfolding attempt
attempt_iff state ttype serial ts t =
    let s = scan ttype serial ts none device_not_found in
    let found = (scan-matches ttype serial ts none device_not_found).0 in
    let i = settle_scan_iff state s t in
    let o = only-singleton (matches ttype serial ts) t in
    ((λ h. (o.0 (sym found ∙ (i.0 h).0), (i.0 h).1)), λ h. i.1 (found ∙ o.1 h.0, h.1))

pub attempt-cases :
    (a : Attempt)
    → ((t : Atransport) × (a ≡ acquired t)) ⊎ ((e : AcquireError) × (b : Bool) × (a ≡ refused e b))
attempt-cases (acquired t) = inl (t, refl)
attempt-cases (refused e b) = inr (e, b, refl)

-- Whatever lists the tries find: a transport that the function gives was the only one that the
-- request may mean in one of these lists, those without permissions apart, and was ready.
pub acquire-matches :
    (state : Option ConnectionState) (ttype : TransportType) (serial : Option Bytes)
    (lists : List (List Atransport)) (t : Atransport)
    → acquire_one_transport state ttype serial lists ≡ some (acquired t)
    → (i : ℕ) × (ts : List Atransport) × (get_elem? lists i ≡ some ts)
      × (matches ttype serial ts ≡ t ∷ [])
      × IsReady state t
unfolding acquire_one_transport
acquire-matches state ttype serial [] t h = cc
acquire-matches state ttype serial (ts ∷ later) t h =
    elim (attempt-cases (attempt state ttype serial ts)) [
      | inl (u, e) ↦
          let out : acquire_one_transport state ttype serial (ts ∷ later) ≡ some (acquired u) =
            rw (e, acquire_one_transport) in
          let same : acquired u ≡ acquired t = cc in
          let (m, r) = (attempt_iff state ttype serial ts t).0 (e ∙ same) in (0, ts, refl, m, r)
      | inr (e, b, eq) ↦ elim (Bool-cases (tries_again state serial b)) [
        | inl again ↦
            let out : acquire_one_transport state ttype serial (ts ∷ later)
                ≡ acquire_one_transport state ttype serial later =
              rw (eq, again, acquire_one_transport) in
            let (i, us, at, m, r) = acquire-matches state ttype serial later t (sym out ∙ h) in
            (suc i, us, at, m, r)
        | inr stop ↦
            let out : acquire_one_transport state ttype serial (ts ∷ later) ≡ some (refused e b) =
              rw (eq, stop, acquire_one_transport) in
            let clash : some (refused e b) ≡ some (acquired t) = sym out ∙ h in cc
      ]
    ]

-- For CS_ANY the function never waits: its first try decides.
pub acquire-any :
    (ttype : TransportType) (serial : Option Bytes) (ts : List Atransport)
    (later : List (List Atransport))
    → acquire_one_transport none ttype serial (ts ∷ later) ≡ some (attempt none ttype serial ts)
unfolding acquire_one_transport tries_again
acquire-any ttype serial ts later = elim (attempt-cases (attempt none ttype serial ts)) [
  | inl (u, e) ↦ rw (e, acquire_one_transport)
  | inr (e, b, eq) ↦ rw (eq, acquire_one_transport)
]

acquire_now :
    (state : Option ConnectionState) (ttype : TransportType) (serial : Option Bytes)
    (ts : List Atransport) (later : List (List Atransport)) (t : Atransport)
    → attempt state ttype serial ts ≡ acquired t
    → acquire_one_transport state ttype serial (ts ∷ later) ≡ some (acquired t)
unfolding acquire_one_transport
acquire_now state ttype serial ts later t e = rw (e, acquire_one_transport)

-- A request for a serial number in a state waits through all lists in which no transport is to be
-- had, and gets the transport of the first list in which one is the only one meant, and ready.
pub acquire-ready :
    (state : ConnectionState) (ttype : TransportType) (serial : Bytes)
    (before : List (List Atransport)) (ts : List Atransport) (later : List (List Atransport))
    (t : Atransport)
    → All (λ us. (u : Atransport) → attempt (some state) ttype (some serial) us ≢ acquired u) before
    → matches ttype (some serial) ts ≡ t ∷ []
    → IsReady (some state) t
    → acquire_one_transport (some state) ttype (some serial) (before ++ ts ∷ later)
      ≡ some (acquired t)
unfolding acquire_one_transport tries_again
acquire-ready state ttype serial [] ts later t w m r =
    acquire_now (some state) ttype (some serial) ts later t
      ((attempt_iff (some state) ttype (some serial) ts t).1 (m, r))
acquire-ready state ttype serial (us ∷ before) ts later t w m r =
    elim (attempt-cases (attempt (some state) ttype (some serial) us)) [
      | inl (u, e) ↦ absurd (w.0 u e)
      | inr (e, b, eq) ↦
          rw (eq, acquire_one_transport)
            (acquire-ready state ttype serial before ts later t w.1 m r)
    ]
