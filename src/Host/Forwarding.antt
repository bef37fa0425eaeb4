-- ===== src/Host/Forwarding.antt =====
-- The request to forward a port (`handle_host_request`, ADBTestCE/adb/adb.cpp).
use adbtest_ce.Prelude.{
  All, Bytes, Option, [], after_prefix, arith, codes, equal, inl, inr, none, refl, some, subst, sym,
  ℕ, ◌++◌, ◌∷◌, ◌≡◌, ◌≢◌, ◌⊎◌,
}
use adbtest_ce.Smart.{TransportType}
use adbtest_ce.Smart.Target.{split_at-append}
use adbtest_ce.Transport.{Atransport, acquired, attempt}
use adbtest_ce.Wire.Failure.{fail_message}
use adbtest_ce.Listeners.{
  Installing, bad_pointer, cannot_bind, install_listener, installed, is_special, not_repurposed,
}
use adbtest_ce.Listeners.Installed.{Installs, IsListener, install_listener-Installs, target_of}
use adbtest_ce.Host.{Handled, Host, HostOutcome, Platform, done_with, handled}
use adbtest_ce.Host.Requests.{
  forward_port_request, forward_spec, forwarded, handle_host_request, later_request, wants_devices,
}

-- The request was carried out or refused with a reason, and nothing else has changed.
abbrev pub Forwards : Bytes → Bytes → ℕ → Host → HostOutcome → Type 0
Forwards local remote t h o =
    (r : Handled) × (o ≡ handled r)
    × (r.verdict ≡ done_with)
    × All IsListener r.host.listeners
    × (r.host.transports ≡ h.transports)
    × ((other : Bytes)
        → other ≢ local
        → target_of other r.host.listeners ≡ target_of other h.listeners)
    × ((r.reply ≡ codes "OKAYOKAY") × (target_of local r.host.listeners ≡ some (remote, some t))
        ⊎ (reason : Bytes) × (r.reply ≡ fail_message reason) × (r.host.listeners ≡ h.listeners))

forwarded-Forwards :
    (fd : Option ℕ) (local remote : Bytes) (t : ℕ) (h : Host) (i : Installing)
    → All IsListener h.listeners
    → Installs fd local remote t h.listeners i
    → Forwards local remote t h (forwarded h i)
unfolding forwarded
forwarded-Forwards fd local remote t h (installed ls) all (ok, to, same) = (
  record {
    verdict = done_with;
    reply = codes "OKAYOKAY";
    host = record h { listeners = ls };
    effects = [];
  },
  refl,
  refl,
  ok,
  refl,
  same,
  inl (refl, to),
)
forwarded-Forwards fd local remote t h not_repurposed all i =
    let reason = codes "cannot rebind smartsocket" in
    (
      record { verdict = done_with; reply = fail_message reason; host = h; effects = [] },
      refl,
      refl,
      all,
      refl,
      (λ other ne. refl),
      inr (reason, refl, refl),
    )
forwarded-Forwards fd local remote t h cannot_bind all i =
    let reason = codes "cannot bind socket" in
    (
      record { verdict = done_with; reply = fail_message reason; host = h; effects = [] },
      refl,
      refl,
      all,
      refl,
      (λ other ne. refl),
      inr (reason, refl, refl),
    )
forwarded-Forwards fd local remote t h bad_pointer all i = absurd i

forward_spec_lem :
    (c d : ℕ) (local remote : Bytes)
    → All (λ b. b ≢ b';') (c ∷ local)
    → d ≢ b'*'
    → forward_spec ((c ∷ local) ++ (b';' ∷ (d ∷ remote))) ≡ some (c ∷ local, d ∷ remote)
unfolding forward_spec is_special
forward_spec_lem c d local remote free plain =
    rw (split_at-append b';' (c ∷ local) (d ∷ remote) free, forward_spec) (ground arith)

abbrev pub forward_service : Bytes → Bytes → Bytes
forward_service local remote = codes "forward:" ++ (local ++ (b';' ∷ remote))

forward_lem :
    (sys : Platform) (old : Option ℕ) (c d : ℕ) (local remote : Bytes) (ttype : TransportType)
    (serial : Option Bytes) (h : Host) (t : Atransport)
    → All (λ b. b ≢ b';') (c ∷ local)
    → d ≢ b'*'
    → attempt none ttype serial h.transports ≡ acquired t
    → handle_host_request sys old (forward_service (c ∷ local) (d ∷ remote)) ttype serial h
      ≡ forwarded h (
          install_listener sys.local_fd (c ∷ local) (d ∷ remote) (some (sys.address t)) h.listeners)
unfolding handle_host_request later_request wants_devices after_prefix equal forward_port_request
forward_lem sys old c d local remote ttype serial h t free plain got =
    ground (arith, forward_spec_lem c d local remote free plain, got)

-- A request to forward a name, with no semicolon in it, to a target that is not one of the server's
-- own, for the one transport that is meant, on listeners that wait for their transports: it goes
-- through no null pointer. Either the client gets its two OKAYs and the name leads to the target at
-- that transport, or the client gets a reason and the listeners are as before. Every other name leads
-- where it did, and the listeners still wait for their transports.
pub handle_host_request-Forwards :
    (sys : Platform) (old : Option ℕ) (c d : ℕ) (local remote : Bytes) (ttype : TransportType)
    (serial : Option Bytes) (h : Host) (t : Atransport)
    → All (λ b. b ≢ b';') (c ∷ local)
    → d ≢ b'*'
    → All IsListener h.listeners
    → attempt none ttype serial h.transports ≡ acquired t
    → Forwards
        (c ∷ local)
        (d ∷ remote)
        (sys.address t)
        h
        (handle_host_request sys old (forward_service (c ∷ local) (d ∷ remote)) ttype serial h)
handle_host_request-Forwards sys old c d local remote ttype serial h t free plain all got =
    subst (Forwards (c ∷ local) (d ∷ remote) (sys.address t) h)
      (sym (forward_lem sys old c d local remote ttype serial h t free plain got))
      (forwarded-Forwards sys.local_fd (c ∷ local) (d ∷ remote) (sys.address t) h _ all (
        install_listener-Installs sys.local_fd (c ∷ local) (d ∷ remote) (sys.address t) h.listeners
          all))
