-- ===== src/Crc.antt =====
-- The bitwise CRC-16 loop that hdlcFcs (lib/protocols/dlms_cosem/hdlc.cpp) and modbus_crc
-- (lib/protocols/modbus_rtu/modbus_rtu.cpp) share, over a reflected polynomial.
use io_t_firmware.Base.{
  ℕ, zero, suc, ◌/◌, ◌^◌, ◌<◌, bit_and, bit_xor, List, [], ◌∷◌, arith, ◌==◌, if◌then◌else◌, u16,
}

-- One round of the inner loop.
abbrev pub crc_shift : ℕ → ℕ → ℕ
crc_shift poly crc = if bit_and crc 1 == 0 then crc / 2 else u16 (bit_xor (crc / 2) poly)

-- The eight rounds for one byte.
unfoldable pub crc_rounds : ℕ → ℕ → ℕ → ℕ
crc_rounds poly zero crc = crc
crc_rounds poly (suc n) crc = crc_rounds poly n (crc_shift poly crc)

unfoldable pub crc_loop : ℕ → ℕ → List ℕ → ℕ
crc_loop poly crc [] = crc
crc_loop poly crc (b ∷ bs) = crc_loop poly (crc_rounds poly 8 (u16 (bit_xor crc b))) bs

crc_rounds-lt : (poly n crc : ℕ) → crc < 2 ^ 16 → crc_rounds poly n crc < 2 ^ 16
unfolding crc_rounds
crc_rounds-lt poly zero crc h = h
crc_rounds-lt poly (suc n) crc h = crc_rounds-lt poly n (crc_shift poly crc) (ground arith)

pub crc_loop-lt : (poly crc : ℕ) (bs : List ℕ) → crc < 2 ^ 16 → crc_loop poly crc bs < 2 ^ 16
unfolding crc_loop
crc_loop-lt poly crc [] h = h
crc_loop-lt poly crc (b ∷ bs) h =
    crc_loop-lt poly (crc_rounds poly 8 (u16 (bit_xor crc b))) bs
      (crc_rounds-lt poly 8 (u16 (bit_xor crc b)) (omega arith))
