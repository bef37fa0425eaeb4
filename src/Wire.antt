-- ===== src/Wire.antt =====
-- The text framing between adb's clients and its server: four hexadecimal digits and a body.
-- `unhex` and `sendfailmsg` of ADBTestCE/adb/sockets.cpp, `adb_status` and the frame that
-- `_adb_connect` sends, of ADBTestCE/adb/adb_client.cpp.
pub mod Hex
pub mod Failure
mod Examples
use adbtest_ce.Prelude.{
  Bool, Bytes, List, Option, [], codes, equal, if◌then◌else◌, leb, length, ltb, none, not, some,
  take, ℕ, ◌%◌, ◌&&◌, ◌*◌, ◌++◌, ◌+◌, ◌-◌, ◌/◌, ◌==◌, ◌^◌, ◌||◌, ◌∷◌,
}
use adbtest_ce.Io.{
  Acceptance, Arrival, Reading, Writing, read_all, read_blocked, read_refused, readx, write_both,
}

-- One digit of `%x`, and `%04x` of a number below 2 ^ 16, which all of the source's are.
unfoldable pub hex_digit : ℕ → ℕ
hex_digit d = if ltb d 10 then b'0' + d else b'a' + (d - 10)

unfoldable pub hex4 : ℕ → Bytes
hex4 n =
    hex_digit (n / 4096 % 16)
    ∷ hex_digit (n / 256 % 16)
    ∷ hex_digit (n / 16 % 16)
    ∷ hex_digit (n % 16)
    ∷ []

abbrev pub hex2 : ℕ → Bytes
hex2 n = hex_digit (n / 16 % 16) ∷ hex_digit (n % 16) ∷ []

-- The cases of the switch in `unhex`.
unfoldable pub hex_value : ℕ → Option ℕ
hex_value c =
    if leb b'0' c && leb c b'9'
    then some (c - b'0')
    else if leb b'a' c && leb c b'f'
    then some (c - b'a' + 10)
    else if leb b'A' c && leb c b'F'
    then some (c - b'A' + 10)
    else none

-- The loop of `unhex`, over a 32-bit `n`.
pub unhex_from : ℕ → Bytes → ℕ
unhex_from n [] = n
unhex_from n (c ∷ s) = elim (hex_value c) [
  | none ↦ 0xffffffff
  | some v ↦ unhex_from (n * 16 % 2 ^ 32 + v) s
]

unfoldable pub unhex : Bytes → ℕ
unfolding unhex_from
unhex s = unhex_from 0 s

-- The text of a failure report: `FAIL`, the length and the reason, cut at 0xffff bytes.
abbrev pub fail_length : Bytes → ℕ
fail_length reason = if ltb 0xffff (length reason) then 0xffff else length reason

unfoldable pub failmsg_header : Bytes → Bytes
failmsg_header reason = codes "FAIL" ++ hex4 (fail_length reason)

unfoldable pub sendfailmsg : List Acceptance → Bytes → Writing
sendfailmsg ws reason = write_both ws (failmsg_header reason) (take (fail_length reason) reason)

-- `strtoul(s, 0, 16)` of the C library: blanks, a sign, `0x`, and digits up to the first other byte.
is_space : ℕ → Bool
is_space c = c == b' ' || (leb 9 c && leb c 13)

pub hex_digits_from : ℕ → Bytes → ℕ
hex_digits_from n [] = n
hex_digits_from n (c ∷ s) = elim (hex_value c) [
  | none ↦ n
  | some v ↦ hex_digits_from (n * 16 + v) s
]

after_0x : Bytes → Bytes
after_0x (a ∷ b ∷ s) = if a == b'0' && (b == b'x' || b == b'X') then s else a ∷ b ∷ s
after_0x s = s

signed_hex : Bytes → ℕ
unfolding after_0x
signed_hex [] = 0
signed_hex (c ∷ s) =
    if c == b'-'
    then (2 ^ 32 - hex_digits_from 0 (after_0x s)) % 2 ^ 32
    else if c == b'+'
    then hex_digits_from 0 (after_0x s)
    else hex_digits_from 0 (after_0x (c ∷ s))

unfoldable pub strtoul_hex : Bytes → ℕ
unfolding signed_hex is_space
strtoul_hex [] = 0
strtoul_hex (c ∷ s) = let later = strtoul_hex s in if is_space c then later else signed_hex (c ∷ s)

-- What `adb_status` makes of the bytes on the descriptor: 0 with the rest of the stream, or -1 with
-- the text of `__adb_error`; or it waits.
pub data Reply : Type 0 where
  accepted : List Arrival → Reply
  rejected : Bytes → Reply
  reply_blocked : Reply

abbrev fault_text : Bytes → Bytes
fault_text [] = []
fault_text (c ∷ []) = hex2 c
fault_text (c ∷ s) = hex2 c ++ (b' ' ∷ fault_text s)

-- After `FAIL`: the length, at most 255 of the reason's bytes.
read_reason : Reading → Bytes → Reply
read_reason (read_all x rest) fault = rejected x
read_reason read_refused fault = rejected fault
read_reason read_blocked fault = reply_blocked

read_length : Reading → Reply
unfolding read_reason
read_length (read_all x rest) =
    let len = strtoul_hex x in
    read_reason (readx rest (if ltb 255 len then 255 else len))
      (codes "protocol fault (status read)")
read_length read_refused = rejected (codes "protocol fault (status len)")
read_length read_blocked = reply_blocked

read_status : Reading → Reply
unfolding read_length equal
read_status (read_all x rest) =
    if equal x (codes "OKAY")
    then accepted rest
    else if not (equal x (codes "FAIL"))
    then rejected (codes "protocol fault (status " ++ fault_text x ++ codes "?!)")
    else read_length (readx rest 4)
read_status read_refused = rejected (codes "protocol fault (no status)")
read_status read_blocked = reply_blocked

unfoldable pub adb_status : List Arrival → Reply
unfolding read_status
adb_status evs = read_status (readx evs 4)

-- The request that `_adb_connect` writes for a service, if its length is allowed.
unfoldable pub connect_request : Bytes → Option Bytes
connect_request service =
    if ltb (length service) 1 || ltb 1024 (length service)
    then none
    else some (hex4 (length service) ++ service)
