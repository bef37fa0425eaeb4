-- ===== src/Io/WriteLoop.antt =====
-- `writex` and two writes in a row (ADBTestCE/adb/transport.cpp): the bytes that went out.
use adbtest_ce.Prelude.{
  All, Bytes, List, [], ap, append-nil, append_assoc, ap₂, arith, drop, refl, suc, sym, take,
  take-append-drop, zero, ◌++◌, ◌<◌, ◌↔◌, ◌∙◌, ◌∷◌, ◌≡◌, ◌≢◌,
}
use adbtest_ce.Io.{
  Acceptance, Outcome, Writing, eagain, eintr, other_errno, then_write, write_blocked, write_both,
  write_failed, write_loop, write_refused, writex, written, wrote,
}

-- Calls that take at least one byte, or are interrupted.
abbrev pub Accepts : Acceptance → Type 0
Accepts (wrote r) = 0 < r
Accepts (write_failed e) = e ≡ eintr

-- On every way out, what went out and what did not are the data in its order.
pub write_loop-append :
    (ws : List Acceptance) (x : Bytes)
    → let w = write_loop ws x in (w.sent ++ w.unsent ≡ x) × (w.outcome ≡ written ↔ w.unsent ≡ [])
unfolding write_loop
write_loop-append ws [] = (refl, ((λ _. refl), λ _. refl))
write_loop-append [] (b ∷ x) = ground arith
write_loop-append (write_failed eintr ∷ ws) (b ∷ x) = write_loop-append ws (b ∷ x)
write_loop-append (write_failed eagain ∷ ws) (b ∷ x) = ground arith
write_loop-append (write_failed other_errno ∷ ws) (b ∷ x) = ground arith
write_loop-append (wrote zero ∷ ws) (b ∷ x) = ground arith
write_loop-append (wrote (suc r) ∷ ws) (b ∷ x) =
    let (e, i) = write_loop-append ws (drop r x) in
    (ap (◌∷◌ b) (append_assoc (take r x) _ _ ∙ ap (◌++◌ (take r x)) e ∙ take-append-drop r x), i)

-- Where every call takes something, and there is a call for each byte, all is written.
pub write_loop_total :
    (ws : List Acceptance) (x : Bytes) → All Accepts ws → (write_loop ws x).outcome ≢ write_refused
unfolding write_loop
write_loop_total ws [] h = λ e. cc
write_loop_total [] (b ∷ x) h = λ e. cc
write_loop_total (write_failed eintr ∷ ws) (b ∷ x) h = write_loop_total ws (b ∷ x) h.1
write_loop_total (write_failed eagain ∷ ws) (b ∷ x) h = cc
write_loop_total (write_failed other_errno ∷ ws) (b ∷ x) h = cc
write_loop_total (wrote zero ∷ ws) (b ∷ x) h = absurd (omega arith)
write_loop_total (wrote (suc r) ∷ ws) (b ∷ x) h = write_loop_total ws (drop r x) h.1

then_write-append :
    (o : Outcome) (w : Writing) (x y : Bytes)
    → w.outcome ≡ o
    → (w.sent ++ w.unsent ≡ x) × (w.outcome ≡ written ↔ w.unsent ≡ [])
    → let v = then_write o w y in
      (v.sent ++ v.unsent ≡ x ++ y) × (v.outcome ≡ written → v.unsent ≡ [])
unfolding then_write writex
then_write-append written w x y o h =
    let (e, i) = write_loop-append w.later y in
    (
      append_assoc w.sent _ _
          ∙ ap₂ ◌++◌ (sym (append-nil w.sent) ∙ ap (◌++◌ w.sent) (sym (h.1.0 o)) ∙ h.0) e,
      i.0,
    )
then_write-append write_refused w x y o h =
    (sym (append_assoc w.sent _ _) ∙ ap (λ z. z ++ y) h.0, λ e. cc)
then_write-append write_blocked w x y o h =
    (sym (append_assoc w.sent _ _) ∙ ap (λ z. z ++ y) h.0, λ e. cc)

-- Whatever the writes give, two writes in a row put out a front of the two texts in their order, and
-- all of it if both end well.
pub write_both-append :
    (ws : List Acceptance) (x y : Bytes)
    → let v = write_both ws x y in
      (v.sent ++ v.unsent ≡ x ++ y) × (v.outcome ≡ written → v.unsent ≡ [])
unfolding write_both writex
write_both-append ws x y = then_write-append _ (write_loop ws x) x y refl (write_loop-append ws x)
