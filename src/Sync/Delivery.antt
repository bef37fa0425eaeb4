-- ===== src/Sync/Delivery.antt =====
-- `sync_send` (ADBTestCE/adb/file_sync_client.cpp) against `file_sync_service`
-- (ADBTestCE/adb/file_sync_service.c): the path, the mode and the file.
use adbtest_ce.Prelude.{
  All, Bool-cases, Bytes, [], ap, arith, false, inl, inr, leb, ltb, ltb→lt, none, refl, some, suc,
  sym, zero, ℕ, ◌%◌, ◌*◌, ◌++◌, ◌+◌, ◌-◌, ◌/◌, ◌<◌, ◌^◌, ◌∙◌, ◌∷◌, ◌≡◌, ◌≢◌, ◌≤◌,
}
use adbtest_ce.Wire.{hex_value}
use adbtest_ce.Host.Network.{digits_of, show_port}
use adbtest_ce.Sync.Commands.{digits_in, path_mode, split_last, strtoul_any}
use adbtest_ce.Sync.Send.{send_name, show_mode}

abbrev ten_to : ℕ → ℕ
ten_to zero = 1
ten_to (suc n) = 10 * ten_to n

abbrev pub AreDigits : Bytes → Type 0
AreDigits = All (λ c. (b'0' ≤ c) × (c ≤ b'9'))

AreDigits-append : (x y : Bytes) → AreDigits x → AreDigits y → AreDigits (x ++ y)
AreDigits-append [] y h k = k
AreDigits-append (c ∷ x) y h k = (h.0, AreDigits-append x y h.1 k)

pub digits_of-AreDigits : (fuel n : ℕ) → AreDigits (digits_of fuel n)
unfolding digits_of
digits_of-AreDigits zero n = tt
digits_of-AreDigits (suc fuel) n = elim (Bool-cases (ltb n 10)) [
  | inl last ↦ rw last (omega (arith, ltb→lt n 10 last), tt)
  | inr more ↦ rw more (
      AreDigits-append (digits_of fuel (n / 10)) _ (digits_of-AreDigits fuel (n / 10))
        (omega arith, tt))
]

digit_value : (c : ℕ) → b'0' ≤ c → c ≤ b'9' → hex_value c ≡ some (c - b'0')
unfolding hex_value
digit_value c lo hi = ground arith

digits_in_digit :
    (n c : ℕ) (s : Bytes)
    → b'0' ≤ c
    → c ≤ b'9'
    → digits_in 10 n (c ∷ s) ≡ digits_in 10 (n * 10 + (c - b'0')) s
unfolding digits_in
digits_in_digit n c s lo hi = ground (arith, digit_value c lo hi)

digits_in-append :
    (n : ℕ) (x y : Bytes)
    → AreDigits x
    → digits_in 10 n (x ++ y) ≡ digits_in 10 (digits_in 10 n x) y
digits_in-append n [] y h = unfold digits_in in refl
digits_in-append n (c ∷ x) y h =
    digits_in_digit n c (x ++ y) h.0.0 h.0.1
    ∙ digits_in-append (n * 10 + (c - b'0')) x y h.1
    ∙ ap (λ k. digits_in 10 k y) (sym (digits_in_digit n c x h.0.0 h.0.1))

one_digit : (n d : ℕ) → d < 10 → digits_in 10 n ((b'0' + d) ∷ []) ≡ n * 10 + d
one_digit n d h =
    digits_in_digit n (b'0' + d) [] (omega arith) (omega arith) ∙ unfold digits_in in omega arith

-- The digits of a number are read back.
digits_in-digits_of : (fuel n : ℕ) → n < ten_to fuel → digits_in 10 0 (digits_of fuel n) ≡ n
unfolding digits_of
digits_in-digits_of zero n h = unfold digits_in in omega arith
digits_in-digits_of (suc fuel) n h = elim (Bool-cases (ltb n 10)) [
  | inl last ↦ rw last (one_digit 0 n (ltb→lt n 10 last) ∙ omega arith)
  | inr more ↦ rw more (
      digits_in-append 0 (digits_of fuel (n / 10)) _ (digits_of-AreDigits fuel (n / 10))
      ∙ ap (λ k. digits_in 10 k ((b'0' + n % 10) ∷ []))
          (digits_in-digits_of fuel (n / 10) (omega arith))
      ∙ one_digit (n / 10) (n % 10) (omega arith)
      ∙ omega arith)
]

-- No digit 0 stands in front.
digits_of_front :
    (fuel n : ℕ)
    → 0 < n
    → n < ten_to fuel
    → (c : ℕ) × (s : Bytes) × (digits_of fuel n ≡ c ∷ s) × (c ≢ b'0')
unfolding digits_of
digits_of_front zero n pos h = absurd (omega arith)
digits_of_front (suc fuel) n pos h = elim (Bool-cases (ltb n 10)) [
  | inl last ↦ (b'0' + n, [], rw last refl, omega arith)
  | inr more ↦
      let (c, s, e, ne) = digits_of_front fuel (n / 10) (ground (arith, more)) (omega arith) in
      (c, s ++ ((b'0' + n % 10) ∷ []), rw (more, e) refl, ne)
]

strtoul_any_plain : (c : ℕ) (s : Bytes) → c ≢ b'0' → strtoul_any (c ∷ s) ≡ digits_in 10 0 (c ∷ s)
unfolding strtoul_any
strtoul_any_plain c [] ne = refl
strtoul_any_plain c (d ∷ s) ne = ground arith

-- The mode that is printed is read back.
strtoul_any-show_port : (n : ℕ) → n < 2 ^ 32 → strtoul_any (show_port n) ≡ n
unfolding show_port
strtoul_any-show_port zero h = unfold digits_of strtoul_any digits_in hex_value in refl
strtoul_any-show_port (suc n) h =
    let (c, s, e, ne) = digits_of_front 20 (suc n) (omega arith) (omega arith) in
    ap strtoul_any e
    ∙ strtoul_any_plain c s ne
    ∙ ap (digits_in 10 0) (sym e)
    ∙ digits_in-digits_of 20 (suc n) (omega arith)

split_last-none : (y : Bytes) → AreDigits y → split_last b',' y ≡ none
unfolding split_last
split_last-none [] h = refl
split_last-none (c ∷ y) h = ground (arith, split_last-none y h.1, h.0)

split_last-append : (x y : Bytes) → AreDigits y → split_last b',' (x ++ (b',' ∷ y)) ≡ some (x, y)
unfolding split_last
split_last-append [] y h = ground (arith, split_last-none y h)
split_last-append (c ∷ x) y h = ground (arith, split_last-append x y h)

-- A mode below 2 ^ 31 has no sign.
pub send_name_plain :
    (rpath : Bytes) (mode : ℕ)
    → mode < 2 ^ 31
    → send_name rpath mode ≡ rpath ++ (b',' ∷ show_port mode)
unfolding send_name show_mode
send_name_plain rpath mode h = let plain : leb (2 ^ 31) mode ≡ false = ground arith in rw plain refl

-- The path and the mode of the client's name come out again, whatever commas the path has.
pub path_mode-send_name :
    (rpath : Bytes) (mode : ℕ)
    → mode < 2 ^ 31
    → path_mode (send_name rpath mode) ≡ (rpath, mode % 512)
unfolding path_mode
path_mode-send_name rpath mode h = ground (
  arith,
  send_name_plain rpath mode h,
  split_last-append rpath (show_port mode) (unfold show_port in digits_of-AreDigits 20 mode),
  strtoul_any-show_port mode (omega (arith, h)),
)
