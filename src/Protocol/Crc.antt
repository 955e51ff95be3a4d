-- ===== src/Protocol/Crc.antt =====
-- `crc16_le` of foxess_local_cloud/protocol.py: the bit-serial CRC-16 of Modbus.
pub mod Detect
use foxess_local_gateway.Prelude.{
  ℕ, zero, suc, ◌/◌, ◌%◌, List, [], ◌∷◌, bit_and, bit_xor, ◌==◌, if◌then◌else◌,
}

-- One round of the inner loop.
unfoldable pub shift_round : ℕ → ℕ
shift_round crc = if bit_and crc 1 == 1 then bit_xor (crc / 2) 0xa001 else crc / 2

-- `for _ in range(n)` over the round.
unfoldable pub shift_rounds : ℕ → ℕ → ℕ
shift_rounds zero crc = crc
shift_rounds (suc n) crc = shift_rounds n (shift_round crc)

unfoldable pub crc_byte : ℕ → ℕ → ℕ
crc_byte crc byte = shift_rounds 8 (bit_xor crc byte)

unfoldable pub crc_loop : ℕ → List ℕ → ℕ
crc_loop crc [] = crc
crc_loop crc (byte ∷ rest) = crc_loop (crc_byte crc byte) rest

-- `crc.to_bytes(2, "little")`
unfoldable pub crc16_le : List ℕ → List ℕ
unfolding crc_loop crc_byte shift_rounds shift_round
crc16_le bytes = let crc = crc_loop 0xffff bytes in crc % 256 ∷ crc / 256 ∷ []
