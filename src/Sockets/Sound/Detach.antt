-- ===== src/Sockets/Sound/Detach.antt =====
-- The smart socket of ADBTestCE/adb/sockets.cpp lets go of its client, and the invariant of the heap.
use mathlib.Core.Path.{subst}
use adbtest_ce.Prelude.{
  Bool-cases, ap, arith, inl, inr, none, refl, some, sym, ℕ, ◌<◌, ◌==◌, ◌∙◌, ◌≡◌, ◌≢◌, ◌⊎◌,
}
use adbtest_ce.Sockets.State.{Asocket, State, store}
use adbtest_ce.Sockets.Sound.{IsLocal, IsRemote, IsSound, only_peer, some_ne_none}
use adbtest_ce.Sockets.Sound.Store.{SameKind}

-- Two sockets that are each other's peer, and what they are without: `a'` and `b'`.
module _ (s p : ℕ) (a b a' b' : Asocket) (w : State) (i : IsSound w) (e : w.cell s ≡ some a)
    (h : a.peer ≡ some p) (e' : w.cell p ≡ some b) (no : a'.peer ≡ none) (no' : b'.peer ≡ none)
    (k : SameKind a a') (k' : SameKind b b') where
  abbrev pub detached : State
  detached = store s a' (store p b' w)

  detached-cell :
      (q : ℕ) (x : Asocket)
      → detached.cell q ≡ some x
      → (q ≡ s) × (a' ≡ x) ⊎ (q ≡ p) × (b' ≡ x) ⊎ (q ≢ s) × (q ≢ p) × (w.cell q ≡ some x)
  detached-cell q x ex = ground arith

  detached_old : (q : ℕ) → q ≢ s → q ≢ p → detached.cell q ≡ w.cell q
  detached_old q n m = ground arith

  -- What a third socket's peer is.
  third :
      (q r : ℕ) (c : Asocket)
      → q ≢ s
      → q ≢ p
      → w.cell r ≡ some c
      → c.peer ≡ some q
      → b.peer ≡ some s
      → (r ≢ s) × (r ≢ p)
  third q r c n m ec hc hb = (
    (λ at. let same : a ≡ c = ground arith in m (only_peer a a q p refl (rw same hc) h)),
    λ at. let same : b ≡ c = ground arith in n (only_peer b b q s refl (rw same hc) hb),
  )

  detached-paired :
      b.peer ≡ some s
      → (q : ℕ) (x : Asocket) (r : ℕ) → detached.cell q ≡ some x
      → x.peer ≡ some r
      → (c : Asocket) × (detached.cell r ≡ some c)
        × (c.peer ≡ some q)
        × (r ≢ q)
        × (IsLocal x ⊎ IsLocal c)
  detached-paired hb q x r ex hx = elim (detached-cell q x ex) [
    | inl (_, eq) ↦ absurd (some_ne_none a' x r (ap some eq) no hx)
    | inr (inl (_, eq)) ↦ absurd (some_ne_none b' x r (ap some eq) no' hx)
    | inr (inr (n, m, old)) ↦
        let (c, ec, hc, ne, kc) = i.paired q x r old hx in
        let (n', m') = third q r c n m ec hc hb in (c, detached_old r n' m' ∙ ec, hc, ne, kc)
  ]

  -- A socket of a list stays of its kind.
  detached_kept :
      (P : Asocket → Type 0) (ka : P a → P a') (kb : P b → P b') (q : ℕ)
      → (x : Asocket) × (w.cell q ≡ some x) × P x
      → (x : Asocket) × (detached.cell q ≡ some x) × P x
  detached_kept P ka kb q (x, ex, px) = elim (Bool-cases (q == s)) [
    | inl at ↦ let same : x ≡ a = ground arith in (a', ground arith, ka (subst P same px))
    | inr other ↦ elim (Bool-cases (q == p)) [
      | inl at ↦ let same : x ≡ b = ground arith in (b', ground arith, kb (subst P same px))
      | inr other' ↦ (x, ground arith, px)
    ]
  ]

  detached-fresh : (q : ℕ) (x : Asocket) → detached.cell q ≡ some x → q < w.break
  detached-fresh q x ex = elim (detached-cell q x ex) [
    | inl (at, _) ↦ subst (λ z. z < w.break) (sym at) (i.fresh s a e)
    | inr (inl (at, _)) ↦ subst (λ z. z < w.break) (sym at) (i.fresh p b e')
    | inr (inr (_, _, old)) ↦ i.fresh q x old
  ]

  pub detached-IsSound : IsSound detached
  detached-IsSound =
      let (x, ex, hx, _, _) = i.paired s a p e h in
      let same : x ≡ b = cc in
      record {
        fresh = detached-fresh;
        paired = detached-paired (subst (λ z. z.peer ≡ some s) same hx);
        listed = λ q m. detached_kept IsLocal k.0 k'.0 q (i.listed q m);
        waiting = λ q m. detached_kept IsRemote k.1 k'.1 q (i.waiting q m);
        once = i.once;
      }
