-- ===== src/Packet/Examples.antt =====
-- Packets at which the theorems of Packet/Integrity apply.
use adbtest_ce.Prelude.{Bytes, [], ap, arith, codes, length, refl, some, suc, zero, ℕ, ◌∷◌, ◌≡◌}
use adbtest_ce.Packet.{
  Apacket, check_data, check_header, max_payload, minus_one, send_packet, sum_bytes, zero_status,
}
use adbtest_ce.Packet.Integrity.{check_data-set}

abbrev zeros : ℕ → Bytes
zeros zero = []
zeros (suc n) = 0 ∷ zeros n

length-zeros : (n : ℕ) → length (zeros n) ≡ n
length-zeros zero = refl
length-zeros (suc n) = ap suc (length-zeros n)

-- A WRTE packet of the three bytes `abc`.
abbrev plain : Apacket
plain = record {
  msg = record {
    command = 0x45545257;
    arg0 = 1;
    arg1 = 2;
    data_length = 3;
    data_check = 0;
    magic = 0;
  };
  content = codes "abc";
}

abbrev sealed : Apacket
sealed = record plain { msg = record (plain.msg) { magic = 0xbaabada8; data_check = 294 } }

abbrev roomy : Apacket
roomy = record sealed { content = zeros max_payload }

sealed_sent : send_packet plain ≡ some sealed
unfolding send_packet sum_bytes
sealed_sent = refl

sealed_sums : check_data sealed ≡ some zero_status
unfolding check_data sum_bytes
sealed_sums = refl

roomy_header : check_header roomy ≡ zero_status
unfolding check_header
roomy_header = refl

check_data-set_example : check_data (record sealed { content = codes "axc" }) ≡ some minus_one
check_data-set_example =
    check_data-set sealed 1 b'b' b'x' (omega arith) sealed_sums (omega arith) refl (omega arith)
      (omega arith) (omega arith)
