-- ===== src/Sync/Sent.antt =====
-- `sync_send` with a package (ADBTestCE/adb/file_sync_client.cpp) against the loop of
-- `file_sync_service` (ADBTestCE/adb/file_sync_service.c), where `adb_write` never fails.
use adbtest_ce.Prelude.{
  All, Bool, Bool-cases, Bytes, List, Option, [], ap, append_assoc, arith, drop, false, inl, inr,
  length, length-append, ltb, none, refl, some, subst, suc, sym, take, true, zero, ℕ, ◌%◌, ◌++◌,
  ◌+◌, ◌<◌, ◌^◌, ◌∙◌, ◌∷◌, ◌≡◌, ◌≢◌, ◌≤◌, ◌⊎◌,
}
use adbtest_ce.Io.{
  Acceptance, Arrival, Outcome, eagain, eintr, other_errno, write_blocked, write_failed, write_loop,
  write_refused, writex, written, wrote,
}
use adbtest_ce.Io.WriteLoop.{Accepts, write_loop_total}
use adbtest_ce.Sync.{
  Sending, count_of, id_data, id_done, id_okay, id_send, message, then_chunks, verify_apk,
  write_chunks, write_data_buffer,
}
use adbtest_ce.Sync.Send.{
  SendResult, apk_file, bad_package, copied, package_overrun, send_data, send_done, send_name,
  send_request, send_result, show_mode, sync_send, then_send,
}
use adbtest_ce.Sync.Blocks.{writex_all}
use adbtest_ce.Io.ReadLoop.{IsHealthy, stream}
use adbtest_ce.Sync.Commands.{Disk, and_later, copied_mode, service_loop}
use adbtest_ce.Sync.Delivered.{service_loop-send_name}
use adbtest_ce.Sync.Service.{created, open_push}
use adbtest_ce.Zip.Lookup.{HasNoNul}

write_loop_later :
    (ws : List Acceptance) (x : Bytes) → All Accepts ws → All Accepts (write_loop ws x).later
unfolding write_loop
write_loop_later ws [] h = h
write_loop_later [] (b ∷ x) h = tt
write_loop_later (write_failed eintr ∷ ws) (b ∷ x) h = write_loop_later ws (b ∷ x) h.1
write_loop_later (write_failed eagain ∷ ws) (b ∷ x) h = h.1
write_loop_later (write_failed other_errno ∷ ws) (b ∷ x) h = h.1
write_loop_later (wrote zero ∷ ws) (b ∷ x) h = h.1
write_loop_later (wrote (suc r) ∷ ws) (b ∷ x) h = write_loop_later ws (drop r x) h.1

-- A write that waits has used up the calls.
write_loop_waits :
    (ws : List Acceptance) (x : Bytes)
    → (write_loop ws x).outcome ≡ write_blocked
    → (write_loop ws x).later ≡ []
unfolding write_loop
write_loop_waits ws [] e = cc
write_loop_waits [] (b ∷ x) e = refl
write_loop_waits (write_failed eintr ∷ ws) (b ∷ x) e = write_loop_waits ws (b ∷ x) e
write_loop_waits (write_failed eagain ∷ ws) (b ∷ x) e = cc
write_loop_waits (write_failed other_errno ∷ ws) (b ∷ x) e = cc
write_loop_waits (wrote zero ∷ ws) (b ∷ x) e = cc
write_loop_waits (wrote (suc r) ∷ ws) (b ∷ x) e = write_loop_waits ws (drop r x) e

abbrev Whole : Outcome → List Acceptance → Type 0
Whole o later = (o ≡ written) ⊎ ((o ≡ write_blocked) × (later ≡ []))

write_loop_ends :
    (ws : List Acceptance) (x : Bytes) (o : Outcome)
    → All Accepts ws
    → (write_loop ws x).outcome ≡ o
    → Whole o (write_loop ws x).later
write_loop_ends ws x written h e = inl refl
write_loop_ends ws x write_blocked h e = inr (refl, write_loop_waits ws x e)
write_loop_ends ws x write_refused h e = absurd (write_loop_total ws x h e)

writex-Whole :
    (ws : List Acceptance) (x : Bytes)
    → All Accepts ws
    → Whole (writex ws x).outcome (writex ws x).later
unfolding writex
writex-Whole ws x h = write_loop_ends ws x _ h refl

then_chunks-Whole :
    (sent : Bytes) (later : List Acceptance) (o : Outcome) (s : Sending)
    → Whole o later
    → Whole s.outcome s.later
    → let t = then_chunks sent later o s in Whole t.outcome t.later
then_chunks-Whole sent later written s h k = k
then_chunks-Whole sent later write_refused s h k = h
then_chunks-Whole sent later write_blocked s h k = h

-- All blocks go out, or the client waits with no call left.
write_chunks-Whole :
    (n : ℕ) (ws : List Acceptance) (x : Bytes)
    → All Accepts ws
    → Whole (write_chunks n ws x).outcome (write_chunks n ws x).later
unfolding write_chunks
write_chunks-Whole zero ws x h = inl refl
write_chunks-Whole (suc n) ws [] h = inl refl
write_chunks-Whole (suc n) ws (b ∷ x) h =
    let count = count_of (b ∷ x) in
    let block = message id_data count ++ take count (b ∷ x) in
    let w = writex ws block in
    then_chunks-Whole w.sent w.later w.outcome (write_chunks n w.later (drop count (b ∷ x)))
      (writex-Whole ws block h)
      (write_chunks-Whole n w.later (drop count (b ∷ x))
        (unfold writex in write_loop_later ws block h))

then_send-copied :
    (sent : Bytes) (o : Outcome) (next : Bytes → SendResult)
    → (then_send sent o next).end ≡ copied
    → (o ≡ written) × (then_send sent o next ≡ next sent)
then_send-copied sent written next e = (refl, refl)
then_send-copied sent write_refused next e = cc
then_send-copied sent write_blocked next e = cc

written_some : (m : Bytes) → 0 < length m → (writex [] m).outcome ≢ written
unfolding writex write_loop
written_some [] h = absurd (omega arith)
written_some (b ∷ m) h = λ e. cc

Whole-written : (o : Outcome) (later : List Acceptance) → Whole o later → later ≢ [] → o ≡ written
Whole-written o later (inl e) h = e
Whole-written o later (inr e) h = absurd (h e.1)

four_parts :
    (a b c x y z w : Bytes) → a ≡ x → b ≡ y → c ≡ z → ((a ++ b) ++ c) ++ w ≡ x ++ ((y ++ z) ++ w)
four_parts a b c x y z w e f g =
    ap (λ q. ((q ++ b) ++ c) ++ w) e
    ∙ ap (λ q. ((x ++ q) ++ c) ++ w) f
    ∙ ap (λ q. ((x ++ y) ++ q) ++ w) g
    ∙ ap (λ q. q ++ w) (append_assoc x y z)
    ∙ append_assoc x (y ++ z) w

send_done-copied :
    (mtime : ℕ) (ws : List Acceptance) (revs : List Arrival) (sent : Bytes)
    → (send_done mtime ws revs sent).end ≡ copied
    → (ws ≢ []) × ((send_done mtime ws revs sent).sent ≡ sent ++ message id_done mtime)
unfolding send_done
send_done-copied mtime ws revs sent h =
    let m = message id_done mtime in
    let (o, e) = then_send-copied (sent ++ (writex ws m).sent) (writex ws m).outcome _ h in
    (
      λ empty. written_some m (omega arith) (subst (λ z. (writex z m).outcome ≡ written) empty o),
      ap (λ r. r.sent) e ∙ ap (λ z. sent ++ z) (writex_all ws m o),
    )

send_data-copied :
    (x : Bytes) (mode mtime : ℕ) (ws : List Acceptance) (revs : List Arrival) (sent : Bytes)
    → All Accepts ws
    → (send_data (apk_file x) mode mtime ws revs sent).end ≡ copied
    → ((write_data_buffer ws x).outcome ≡ written)
      × ((send_data (apk_file x) mode mtime ws revs sent).sent
          ≡ sent ++ ((write_data_buffer ws x).sent ++ message id_done mtime))
unfolding send_data
send_data-copied x mode mtime ws revs sent h e =
    let d = write_data_buffer ws x in
    let (more, all) = send_done-copied mtime d.later revs (sent ++ d.sent) e in
    let ended : Whole d.outcome d.later =
      unfold write_data_buffer in write_chunks-Whole (length x) ws x h in
    (Whole-written d.outcome d.later ended more, all ∙ append_assoc sent d.sent _)

-- Where no call of `adb_write` fails and the client ends well, it has sent the request, the blocks of
-- the file and DONE.
send_request-copied :
    (rpath x : Bytes) (mode mtime : ℕ) (ws : List Acceptance) (revs : List Arrival)
    → All Accepts ws
    → (send_request rpath mode (apk_file x) mtime ws revs).end ≡ copied
    → (ws' : List Acceptance) × ((write_data_buffer ws' x).outcome ≡ written)
      × ((send_request rpath mode (apk_file x) mtime ws revs).sent
          ≡ message id_send (length (send_name rpath mode))
            ++ (send_name rpath mode ++ ((write_data_buffer ws' x).sent ++ message id_done mtime)))
unfolding send_request send_name
send_request-copied rpath x mode mtime ws revs h e =
    let text : Bytes = b',' ∷ show_mode mode in
    let m = message id_send (length rpath + length text) in
    let w₁ = writex ws m in
    let h₁ : All Accepts w₁.later = unfold writex in write_loop_later ws m h in
    let w₂ = writex w₁.later rpath in
    let h₂ : All Accepts w₂.later = unfold writex in write_loop_later w₁.later rpath h₁ in
    let w₃ = writex w₂.later text in
    let h₃ : All Accepts w₃.later = unfold writex in write_loop_later w₂.later text h₂ in
    let (o₁, e₁) = then_send-copied w₁.sent w₁.outcome _ e in
    let c₁ = ap (λ r. r.end) (sym e₁) ∙ e in
    let (o₂, e₂) = then_send-copied (w₁.sent ++ w₂.sent) w₂.outcome _ c₁ in
    let c₂ = ap (λ r. r.end) (sym e₂) ∙ c₁ in
    let (o₃, e₃) = then_send-copied ((w₁.sent ++ w₂.sent) ++ w₃.sent) w₃.outcome _ c₂ in
    let c₃ = ap (λ r. r.end) (sym e₃) ∙ c₂ in
    let (done, all) =
      send_data-copied x mode mtime w₃.later revs ((w₁.sent ++ w₂.sent) ++ w₃.sent) h₃ c₃ in
    let body = (write_data_buffer w₃.later x).sent ++ message id_done mtime in
    (
      w₃.later,
      done,
      ap (λ r. r.sent) (e₁ ∙ e₂ ∙ e₃)
          ∙ all
          ∙ four_parts _ _ _ _ _ _ body (writex_all ws m o₁) (writex_all w₁.later rpath o₂)
              (writex_all w₂.later text o₃)
          ∙ ap (λ n. message id_send n ++ ((rpath ++ text) ++ body))
              (sym (length-append rpath text)),
    )

if_tested :
    (test : Option Bool) (r : SendResult)
    → let s : SendResult = elim test [
      | none ↦ send_result package_overrun []
      | some false ↦ send_result bad_package []
      | some true ↦ r
    ] in
      s.end ≡ copied → s ≡ r
if_tested none r e = cc
if_tested (some false) r e = cc
if_tested (some true) r e = refl

-- A package that is refused is not sent.
sync_send-copied :
    (rpath x : Bytes) (mode mtime : ℕ) (ws : List Acceptance) (revs : List Arrival)
    → (sync_send rpath mode (apk_file x) mtime ws revs).end ≡ copied
    → sync_send rpath mode (apk_file x) mtime ws revs
      ≡ send_request rpath mode (apk_file x) mtime ws revs
unfolding sync_send
sync_send-copied rpath x mode mtime ws revs = elim (Bool-cases (ltb 1024 (length rpath))) [
  | inl long ↦ rw long (λ e. cc)
  | inr fits ↦
      rw fits (if_tested (verify_apk x) (send_request rpath mode (apk_file x) mtime ws revs))
]

-- The client sends a package, no call of `adb_write` fails, and the client ends well; the name of its
-- request has 1024 bytes at most and no NUL byte, and the mode is below 2 ^ 31. Then the device, which
-- gets what the client sent in any pieces, opens a new file, with the mode that is asked for, and has room
-- for it, stores one file: at the client's path, with the
-- permissions of the client's mode whose owner's bits are copied, the package's bytes and its time; it
-- answers OKAY, and goes on with what follows.
pub service_loop-sync_send :
    (fuel : ℕ) (disk : Disk) (rpath x more : Bytes) (mode mtime : ℕ) (ws : List Acceptance)
    (revs evs : List Arrival)
    → HasNoNul rpath
    → length (send_name rpath mode) ≤ 1024
    → mode < 2 ^ 31
    → mtime < 2 ^ 32
    → open_push (disk.openings rpath) ≡ created
    → disk.full rpath ≡ []
    → All Accepts ws
    → (sync_send rpath mode (apk_file x) mtime ws revs).end ≡ copied
    → All IsHealthy evs
    → stream evs ≡ (sync_send rpath mode (apk_file x) mtime ws revs).sent ++ more
    → (rest : List Arrival) × (stream rest ≡ more)
      × (service_loop (suc fuel) disk evs
          ≡ and_later
              (message id_okay 0)
              (record { path = rpath; mode = copied_mode (mode % 512); bytes = x; time = mtime }
                ∷ [])
              (service_loop fuel disk rest))
service_loop-sync_send fuel disk rpath x more mode mtime ws revs evs nul fits m t makes full k c h
      e =
    let same = sync_send-copied rpath x mode mtime ws revs c in
    let (ws', o, all) =
      send_request-copied rpath x mode mtime ws revs k (ap (λ r. r.end) (sym same) ∙ c) in
    let name = send_name rpath mode in
    let head = message id_send (length name) in
    let d = (write_data_buffer ws' x).sent in
    service_loop-send_name fuel disk rpath x more mode mtime ws' evs nul fits m t makes full o h (
      e
      ∙ ap (λ r. r.sent ++ more) same
      ∙ ap (λ z. z ++ more) all
      ∙ append_assoc head (name ++ (d ++ message id_done mtime)) more
      ∙ ap (λ z. head ++ z)
          (append_assoc name (d ++ message id_done mtime) more
            ∙ ap (λ z. name ++ z) (append_assoc d (message id_done mtime) more)))
