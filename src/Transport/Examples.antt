-- ===== src/Transport/Examples.antt =====
-- Lists of transports at which the theorems on `acquire_one_transport` apply.
use adbtest_ce.Prelude.{
  List, [], after_prefix, arith, codes, equal, false, get_elem?, map, none, refl, some, sym, true,
  ℕ, ◌++◌, ◌↔◌, ◌∙◌, ◌∷◌, ◌≡◌, ◌≢◌, ◌≤◌,
}
use adbtest_ce.Smart.{transport_any, transport_usb}
use adbtest_ce.Transport.{
  Atransport, acquire_one_transport, acquired, attempt, candidate, cs_device, cs_noperm, cs_offline,
  device_offline, is_noperm, qual_char, qual_loop, qual_loops, qual_match, refused, scan,
  serial_matches, settle_scan, state_code, wrong_state,
}
use adbtest_ce.Transport.Count.{
  Counted, kick, new_transport, run_uses, run_uses-new_transport, unref,
}
use adbtest_ce.Transport.Match.{qual_match_iff}
use adbtest_ce.Transport.Acquire.{IsReady, acquire-matches, acquire-ready, attempt_iff, matches}

abbrev phone : Atransport
phone = record {
  connection_state = cs_device;
  online = true;
  ttype = transport_usb;
  serial = some (codes "0123");
  product = some (codes "soju");
  model = some (codes "Nexus S");
  device = none;
  devpath = none;
}

abbrev locked : Atransport
locked = record phone { connection_state = cs_noperm; serial = some (codes "4567") }

abbrev asleep : Atransport
asleep = record phone { connection_state = cs_offline }

qual_match_iff_example :
    (qual_match (some (codes "model:Nexus_S")) (codes "model:") (some (codes "Nexus S")) true
      ≡ true)
    ↔ (codes "model:Nexus_S" ≡ codes "model:" ++ map (qual_char true) (codes "Nexus S"))
qual_match_iff_example =
    qual_match_iff b'm' (codes "odel:Nexus_S") (codes "model:") (codes "Nexus S") true

phone-matches : matches transport_any (some (codes "0123")) (locked ∷ phone ∷ []) ≡ phone ∷ []
unfolding matches candidate serial_matches qual_match qual_loops qual_loop after_prefix equal
    is_noperm state_code
phone-matches = refl

phone-IsReady : IsReady (some cs_device) phone
unfolding wrong_state state_code
phone-IsReady = ((λ e. cc), refl)

attempt_iff_example :
    (attempt (some cs_device) transport_any (some (codes "0123")) (locked ∷ phone ∷ [])
      ≡ acquired phone)
    ↔ (matches transport_any (some (codes "0123")) (locked ∷ phone ∷ []) ≡ phone ∷ [])
      × IsReady (some cs_device) phone
attempt_iff_example =
    attempt_iff (some cs_device) transport_any (some (codes "0123")) (locked ∷ phone ∷ []) phone

asleep_offline :
    attempt (some cs_device) transport_any (some (codes "0123")) (asleep ∷ [])
    ≡ refused device_offline false
unfolding attempt settle_scan scan candidate serial_matches qual_match qual_loops qual_loop
    after_prefix equal is_noperm state_code
asleep_offline = refl

asleep_refused :
    (u : Atransport)
    → attempt (some cs_device) transport_any (some (codes "0123")) (asleep ∷ []) ≢ acquired u
asleep_refused u =
    λ e. let clash : refused device_offline false ≡ acquired u = sym asleep_offline ∙ e in cc

-- The phone is asleep at the first try, and awake at the second.
abbrev lists : List (List Atransport)
lists = (asleep ∷ []) ∷ (locked ∷ phone ∷ []) ∷ []

acquire-ready_example :
    acquire_one_transport (some cs_device) transport_any (some (codes "0123")) lists
    ≡ some (acquired phone)
acquire-ready_example =
    acquire-ready cs_device transport_any (codes "0123") ((asleep ∷ []) ∷ []) (locked ∷ phone ∷ [])
      [] phone (asleep_refused, tt) phone-matches phone-IsReady

phone_had :
    acquire_one_transport
      (some cs_device)
      transport_any
      (some (codes "0123"))
      ((locked ∷ phone ∷ []) ∷ [])
    ≡ some (acquired phone)
phone_had =
    acquire-ready cs_device transport_any (codes "0123") [] (locked ∷ phone ∷ []) [] phone tt
      phone-matches phone-IsReady

acquire-matches_example :
    (i : ℕ) × (ts : List Atransport) × (get_elem? ((locked ∷ phone ∷ []) ∷ []) i ≡ some ts)
    × (matches transport_any (some (codes "0123")) ts ≡ phone ∷ [])
    × IsReady (some cs_device) phone
acquire-matches_example =
    acquire-matches (some cs_device) transport_any (some (codes "0123"))
      ((locked ∷ phone ∷ []) ∷ []) phone phone_had

run_uses-new_transport_example :
    (u : Counted) × (run_uses (kick ∷ unref ∷ unref ∷ []) (new_transport 2) ≡ some u)
    × (u.kicks ≤ 1)
    × (u.closes ≡ 1)
    × (u.removals ≡ u.closes)
    × (u.closes ≤ u.kicks)
run_uses-new_transport_example =
    run_uses-new_transport 2 (kick ∷ unref ∷ unref ∷ []) (omega arith) (omega arith)
