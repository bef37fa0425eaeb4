-- ===== src/Sockets/Sound/Online.antt =====
-- CNXN in `handle_packet` (ADBTestCE/adb/adb.cpp): the transport that comes back.
use adbtest_ce.Prelude.{Bytes, arith, false, none, refl, some, true, ℕ, ◌∙◌, ◌≡◌, ◌≢◌}
use adbtest_ce.Transport.{
  Atransport, ConnectionState, cs_bootloader, cs_device, cs_host, cs_noperm, cs_offline,
  cs_recovery, cs_sideload,
}
use adbtest_ce.Sockets.State.{member}
use adbtest_ce.Sockets.Connection.{
  Server, greet, handle_cnxn, handle_offline, has_nul, is_offline, set_transport, welcome,
  with_sockets,
}
use adbtest_ce.Sockets.Sound.{IsSound}
use adbtest_ce.Sockets.Shutdown.{disconnects_at}
use adbtest_ce.Sockets.Sound.Server.{welcome-sockets}
use adbtest_ce.Sockets.Sound.Shutdown.{run_transport_disconnects-IsSound}

not_offline : (c : ConnectionState) → c ≢ cs_offline → is_offline c ≡ false
not_offline cs_offline h = absurd (h refl)
not_offline cs_bootloader h = refl
not_offline cs_device h = refl
not_offline cs_host h = refl
not_offline cs_recovery h = refl
not_offline cs_noperm h = refl
not_offline cs_sideload h = refl

welcomed :
    (t : ℕ) (banner : Bytes) (k : Server)
    → (((greet t banner k).transports t).online ≡ true)
      × ((u : ℕ) → u ≢ t → (greet t banner k).transports u ≡ k.transports u)
unfolding greet
welcomed t banner k = (ground arith, λ u ne. ground arith)

-- CNXN with a banner that ends with a NUL, for a transport that is not offline, in a sound heap: it is handled without a bad pointer, and
-- afterwards the heap is sound, the transport is online, every remote socket that waited for it is
-- freed, and the other transports are as they were.
pub handle_cnxn-online :
    (t : ℕ) (banner : Bytes) (k : Server)
    → IsSound k.sockets
    → (k.transports t).connection_state ≢ cs_offline
    → has_nul banner ≡ true
    → (k' : Server) × (handle_cnxn t banner k ≡ some k')
      × IsSound k'.sockets
      × ((k'.transports t).online ≡ true)
      × ((q : ℕ)
          → member q (disconnects_at t k.sockets.cell k.sockets.disconnects) ≡ true
          → k'.sockets.cell q ≡ none)
      × ((u : ℕ) → u ≢ t → k'.transports u ≡ k.transports u)
unfolding handle_cnxn handle_offline welcome
handle_cnxn-online t banner k i h nul =
    let (v, eq, iv, freed) = run_transport_disconnects-IsSound t k.sockets i in
    let a : Atransport = record (k.transports t) { connection_state = cs_offline } in
    let k₀ = set_transport t a k in
    let k₁ = with_sockets (set_transport t (record (k₀.transports t) { online = false }) k₀) v in
    let k₂ = greet t banner k₁ in
    let same = welcome-sockets t banner k₁ in
    let (online, others) = welcomed t banner k₁ in
    let on = not_offline (k.transports t).connection_state h in
    (
      k₂,
      rw (on, eq, nul) refl,
      rw same iv,
      online,
      (λ q m. rw same (freed q m)),
      λ u ne. others u ne ∙ ground (arith, ne),
    )
