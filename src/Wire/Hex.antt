-- ===== src/Wire/Hex.antt =====
-- The format `%04x` and its two readers, `unhex` and `strtoul`.
use adbtest_ce.Prelude.{
  Bytes, arith, length, refl, some, ℕ, ◌%◌, ◌*◌, ◌+◌, ◌<◌, ◌^◌, ◌∷◌, ◌≡◌, ◌≤◌, ◌⊎◌,
}
use adbtest_ce.Wire.{hex4, hex_digit, hex_digits_from, hex_value, strtoul_hex, unhex, unhex_from}

hex_value-hex_digit : (d : ℕ) → hex_value (hex_digit (d % 16)) ≡ some (d % 16)
unfolding hex_value hex_digit
hex_value-hex_digit d = ground arith

unhex_from-hex_digit :
    (n d : ℕ) (s : Bytes)
    → unhex_from n (hex_digit (d % 16) ∷ s) ≡ unhex_from (n * 16 % 2 ^ 32 + d % 16) s
unfolding unhex_from
unhex_from-hex_digit n d s = rw (hex_value-hex_digit d, unhex_from)

hex_digits_from-hex_digit :
    (n d : ℕ) (s : Bytes)
    → hex_digits_from n (hex_digit (d % 16) ∷ s) ≡ hex_digits_from (n * 16 + d % 16) s
unfolding hex_digits_from
hex_digits_from-hex_digit n d s = rw (hex_value-hex_digit d, hex_digits_from)

unhex-unhex_from : (s : Bytes) → unhex s ≡ unhex_from 0 s
unfolding unhex
unhex-unhex_from s = refl

-- `unhex` reads back what `%04x` prints.
pub unhex-hex4 : (n : ℕ) → n < 65536 → unhex (hex4 n) ≡ n
unfolding hex4
unhex-hex4 n h =
    rw
      (
        unhex-unhex_from,
        unhex_from-hex_digit 0,
        unhex_from-hex_digit,
        unhex_from-hex_digit,
        unhex_from-hex_digit,
      )
      (unfold unhex_from in omega arith)

hex_digit_range :
    (d : ℕ)
    → (b'0' ≤ hex_digit (d % 16)) × (hex_digit (d % 16) ≤ b'9')
      ⊎ (b'a' ≤ hex_digit (d % 16)) × (hex_digit (d % 16) ≤ b'f')
unfolding hex_digit
hex_digit_range d = ground arith

-- A hexadecimal digit is no blank, no sign and no `x`, so the digits are read at once.
strtoul_hex-hex_digit :
    (a b : ℕ) (s : Bytes)
    → strtoul_hex (hex_digit (a % 16) ∷ hex_digit (b % 16) ∷ s)
      ≡ hex_digits_from 0 (hex_digit (a % 16) ∷ hex_digit (b % 16) ∷ s)
unfolding strtoul_hex
strtoul_hex-hex_digit a b s = ground (arith, hex_digit_range a, hex_digit_range b)

-- `strtoul` in base 16 reads back what `%04x` prints.
pub strtoul_hex-hex4 : (n : ℕ) → n < 65536 → strtoul_hex (hex4 n) ≡ n
unfolding hex4
strtoul_hex-hex4 n h =
    rw
      (
        strtoul_hex-hex_digit,
        hex_digits_from-hex_digit 0,
        hex_digits_from-hex_digit,
        hex_digits_from-hex_digit,
        hex_digits_from-hex_digit,
      )
      (unfold hex_digits_from in omega arith)

pub length-hex4 : (n : ℕ) → length (hex4 n) ≡ 4
unfolding hex4
length-hex4 n = refl
