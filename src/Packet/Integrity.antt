-- ===== src/Packet/Integrity.antt =====
-- The magic and the checksum of a packet (ADBTestCE/adb/transport.cpp).
use adbtest_ce.Prelude.{
  Bytes, Option-cases, [], ap, arith, get_elem?, if◌then◌else◌, inl, inr, length, length-set, refl,
  set, some, suc, zero, ℕ, ◌%◌, ◌+◌, ◌<◌, ◌==◌, ◌^◌, ◌∙◌, ◌∷◌, ◌≡◌, ◌≢◌, ◌≤◌,
}
use adbtest_ce.Packet.{
  Apacket, Status, check_data, check_header, max_payload, minus_one, send_packet, sum_bytes,
  zero_status,
}

-- The sum is taken whenever the bytes are there.
pub sum_bytes_total :
    (n : ℕ) (x : Bytes) (sum : ℕ) → n ≤ length x → (s : ℕ) × (sum_bytes n x sum ≡ some s)
unfolding sum_bytes
sum_bytes_total zero x sum h = (sum, refl)
sum_bytes_total (suc n) [] sum h = absurd (omega arith)
sum_bytes_total (suc n) (b ∷ x) sum h = sum_bytes_total n x ((sum + b) % 2 ^ 32) (omega arith)

-- `sum_bytes` as a sum without wrapping, reduced at the end.
byte_total : ℕ → Bytes → ℕ
byte_total zero x = 0
byte_total (suc n) [] = 0
byte_total (suc n) (b ∷ x) = b + byte_total n x

sum_bytes-byte_total :
    (n : ℕ) (x : Bytes) (sum s : ℕ)
    → sum_bytes n x sum ≡ some s
    → s % 2 ^ 32 ≡ (sum + byte_total n x) % 2 ^ 32
unfolding sum_bytes byte_total
sum_bytes-byte_total zero x sum s h = ground arith
sum_bytes-byte_total (suc n) [] sum s h = ground arith
sum_bytes-byte_total (suc n) (b ∷ x) sum s h =
    omega (arith, sum_bytes-byte_total n x ((sum + b) % 2 ^ 32) s h)

sum_bytes-lt :
    (n : ℕ) (x : Bytes) (sum s : ℕ) → sum < 2 ^ 32 → sum_bytes n x sum ≡ some s → s < 2 ^ 32
unfolding sum_bytes
sum_bytes-lt zero x sum s h e = ground arith
sum_bytes-lt (suc n) [] sum s h e = ground arith
sum_bytes-lt (suc n) (b ∷ x) sum s h e = sum_bytes-lt n x ((sum + b) % 2 ^ 32) s (omega arith) e

-- The checksum of the bytes, where they are there.
sum_bytes-eq : (n : ℕ) (x : Bytes) → n ≤ length x → sum_bytes n x 0 ≡ some (byte_total n x % 2 ^ 32)
sum_bytes-eq n x h =
    let (s, e) = sum_bytes_total n x 0 h in
    e
    ∙ ap some (omega (arith, sum_bytes-byte_total n x 0 s e, sum_bytes-lt n x 0 s (omega arith) e))

byte_total-set :
    (n i : ℕ) (x : Bytes) (b c : ℕ)
    → i < n
    → get_elem? x i ≡ some b
    → byte_total n (set x i c) + b ≡ byte_total n x + c
unfolding byte_total
byte_total-set zero i x b c h e = absurd (omega arith)
byte_total-set (suc n) i [] b c h e = ground arith
byte_total-set (suc n) zero (y ∷ x) b c h e = ground arith
byte_total-set (suc n) (suc i) (y ∷ x) b c h e =
    omega (arith, byte_total-set n i x b c (omega arith) e)

-- What `send_packet` puts on the wire passes both tests of the receiver, if it fits a packet.
check-send_packet :
    (p q : Apacket)
    → send_packet p ≡ some q
    → p.msg.data_length ≤ max_payload
    → (check_header q ≡ zero_status) × (check_data q ≡ some zero_status)
unfolding send_packet check_header check_data
check-send_packet p q h le = elim (Option-cases (sum_bytes p.msg.data_length p.content 0)) [
  | inl e ↦ ground arith
  | inr (s, e) ↦ ground arith
]

-- A packet that passes the header test is summed with no read outside the array.
pub check_data-check_header :
    (p : Apacket)
    → length p.content ≡ max_payload
    → check_header p ≡ zero_status
    → (s : Status) × (check_data p ≡ some s)
unfolding check_header check_data
check_data-check_header p len h =
    let (s, e) = sum_bytes_total p.msg.data_length p.content 0 (ground arith) in
    (if s == p.msg.data_check then zero_status else minus_one, ground arith)

-- One wrong byte of the payload is always found by `check_data`.
pub check_data-set :
    (p : Apacket) (i b c : ℕ)
    → p.msg.data_length ≤ length p.content
    → check_data p ≡ some zero_status
    → i < p.msg.data_length
    → get_elem? p.content i ≡ some b
    → b < 256
    → c < 256
    → c ≢ b
    → check_data (record p { content = set p.content i c }) ≡ some minus_one
unfolding check_data
check_data-set p i b c le h lt e hb hc ne = ground (
  arith,
  sum_bytes-eq p.msg.data_length p.content le,
  sum_bytes-eq p.msg.data_length (set p.content i c) (rw length-set le),
  byte_total-set p.msg.data_length i p.content b c lt e,
)
