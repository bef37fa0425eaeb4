-- ===== src/Wire/Failure.antt =====
-- `sendfailmsg` (ADBTestCE/adb/sockets.cpp) and `adb_status` (ADBTestCE/adb/adb_client.cpp).
use Prim.Native.Nat.{min}
use adbtest_ce.Prelude.{
  All, Bool-cases, Bytes, List, [], ap, append_assoc, arith, codes, drop, equal, if◌then◌else◌, inl,
  inr, length, length-take, ltb, refl, sym, take, take-append-drop, take-take, take_of_le, ℕ, ◌++◌,
  ◌<◌, ◌∙◌, ◌≡◌, ◌≤◌,
}
use adbtest_ce.Io.{Acceptance, Arrival, written}
use adbtest_ce.Io.ReadLoop.{IsHealthy, readx_front, stream}
use adbtest_ce.Wire.{adb_status, fail_length, failmsg_header, hex4, rejected, sendfailmsg}
use adbtest_ce.Wire.Hex.{length-hex4, strtoul_hex-hex4}
use adbtest_ce.Io.WriteLoop.{write_both-append}

abbrev pub fail_message : Bytes → Bytes
fail_message reason = failmsg_header reason ++ take (fail_length reason) reason

fail_length-lt : (reason : Bytes) → fail_length reason < 65536
fail_length-lt reason = ground arith

capped :
    (a b m : ℕ) → a ≤ b → min a m ≡ (let c = (if ltb b m then b else m) in if ltb a c then a else c)
capped a b m h = ground arith

-- How much of the reason is read back.
length-reason :
    (reason : Bytes)
    → length (take 255 reason) ≡ (if ltb 255 (fail_length reason) then 255 else fail_length reason)
length-reason reason = length-take 255 reason ∙ capped 255 0xffff (length reason) (omega arith)

take-fail_length : (reason : Bytes) → take 255 (take (fail_length reason) reason) ≡ take 255 reason
take-fail_length reason = elim (Bool-cases (ltb 255 (length reason))) [
  | inl long ↦ take-take 255 _ reason (ground arith)
  | inr short ↦ ap (take 255) (take_of_le _ reason (ground arith))
]

reason_front :
    (reason : Bytes)
    → take (fail_length reason) reason
      ≡ take 255 reason ++ drop 255 (take (fail_length reason) reason)
reason_front reason =
    sym (take-append-drop 255 (take (fail_length reason) reason))
    ∙ ap (λ z. z ++ drop 255 (take (fail_length reason) reason)) (take-fail_length reason)

-- Whatever a client receives of a report, in whatever pieces: `adb_status` gives the first 255
-- bytes of the reason.
pub adb_status-fail_message :
    (evs : List Arrival) (reason more : Bytes)
    → All IsHealthy evs
    → stream evs ≡ fail_message reason ++ more
    → adb_status evs ≡ rejected (take 255 reason)
unfolding failmsg_header adb_status equal
adb_status-fail_message evs reason more h e =
    let len = fail_length reason in
    let body = take len reason ++ more in
    let (rest₁, r₁, s₁, h₁) =
      readx_front evs 4 (codes "FAIL") (hex4 len ++ body) h
        (e ∙ ap (λ z. codes "FAIL" ++ z) (append_assoc (hex4 len) _ _)) refl in
    let (rest₂, r₂, s₂, h₂) = readx_front rest₁ 4 (hex4 len) body h₁ s₁ (length-hex4 len) in
    let (rest₃, r₃, s₃, h₃) =
      readx_front rest₂ _ (take 255 reason) (drop 255 (take len reason) ++ more) h₂
        (s₂ ∙ ap (λ z. z ++ more) (reason_front reason) ∙ append_assoc (take 255 reason) _ _)
        (length-reason reason) in
    rw (r₁, r₂, strtoul_hex-hex4 len (fail_length-lt reason), r₃)

-- What `sendfailmsg` writes is a front of the report, and all of it if both writes end well.
pub sendfailmsg-sent :
    (ws : List Acceptance) (reason : Bytes)
    → let w = sendfailmsg ws reason in
      (w.sent ++ w.unsent ≡ fail_message reason) × (w.outcome ≡ written → w.unsent ≡ [])
unfolding sendfailmsg
sendfailmsg-sent ws reason =
    write_both-append ws (failmsg_header reason) (take (fail_length reason) reason)
