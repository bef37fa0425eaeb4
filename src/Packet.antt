-- ===== src/Packet.antt =====
-- Messages and packets (ADBTestCE/adb/adb.h), and what ADBTestCE/adb/transport.cpp does with their
-- headers: `send_packet` fills in the magic and the checksum, `check_header` and `check_data` test
-- them. A read past the end of the array `data` is the fault `none`.
pub mod Integrity
mod Examples
use adbtest_ce.Prelude.{
  Bytes, Option, [], bit_xor, if◌then◌else◌, ltb, none, not, some, suc, zero, ℕ, ◌%◌, ◌+◌, ◌==◌,
  ◌^◌, ◌∷◌,
}

abbrev pub max_payload : ℕ
max_payload = 4096

-- The fields are 32-bit unsigned.
pub record Amessage : Type 0 where
  pub command : ℕ
  pub arg0 : ℕ
  pub arg1 : ℕ
  pub data_length : ℕ
  pub data_check : ℕ
  pub magic : ℕ

-- `content` is the array `data[MAX_PAYLOAD]`.
pub record Apacket : Type 0 where
  pub msg : Amessage
  pub content : Bytes

-- The C functions return 0 or -1.
pub data Status : Type 0 where
  zero_status minus_one : Status

-- `while (count-- > 0) sum += *x++`, over a 32-bit sum.
pub sum_bytes : ℕ → Bytes → ℕ → Option ℕ
sum_bytes zero x sum = some sum
sum_bytes (suc count) [] sum = none
sum_bytes (suc count) (b ∷ x) sum = sum_bytes count x ((sum + b) % 2 ^ 32)

-- `send_packet`, up to the write to the transport's socket: the packet that is written.
unfoldable pub send_packet : Apacket → Option Apacket
send_packet p = elim (sum_bytes p.msg.data_length p.content 0) [
  | none ↦ none
  | some sum ↦ some (record p {
    msg = record (p.msg) { magic = bit_xor p.msg.command 0xffffffff; data_check = sum };
  })
]

unfoldable pub check_header : Apacket → Status
check_header p =
    if not (p.msg.magic == bit_xor p.msg.command 0xffffffff)
    then minus_one
    else if ltb max_payload p.msg.data_length
    then minus_one
    else zero_status

unfoldable pub check_data : Apacket → Option Status
check_data p = elim (sum_bytes p.msg.data_length p.content 0) [
  | none ↦ none
  | some sum ↦ some (if sum == p.msg.data_check then zero_status else minus_one)
]
