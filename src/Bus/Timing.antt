-- ===== src/Bus/Timing.antt =====
-- lib/buses/bus_checks/bus_checks.cpp, charTimeUs: the time of one character on the wire.
use native.Mathlib.Nat.{div-add-mod', mod-lt}
use io_t_firmware.Base.{
  ℕ, ◌+◌, ◌-◌, ◌*◌, ◌/◌, ◌^◌, ◌≤◌, ◌<◌, bit_and, ◌≡◌, arith, bit_and_step, bit_and_three, u32,
}
use io_t_firmware.Bus.{char_bits, char_time_us}

data_bits_bound : (format : ℕ) → bit_and format 0x0C ≤ 12
data_bits_bound format =
    omega
      (arith, bit_and_step format 12, bit_and_step (format / 2) 6, bit_and_three (format / 2 / 2))

-- The bits of a character, whatever the format word: a start bit, 5 to 8 data bits, at most one parity
-- bit and one or two stop bits.
char_bits_range : (format : ℕ) → (7 ≤ char_bits format) × (char_bits format ≤ 12)
unfolding char_bits
char_bits_range format = ground (arith, data_bits_bound format)

-- For a rate of at least one baud for which the sum does not wrap, the time of a character is that of
-- its 7 to 12 bits at this rate, in microseconds, rounded up.
char_time_us_bounds :
    (baud format : ℕ)
    → 0 < baud
    → baud ≤ 4282967295
    → let t = char_time_us baud format in
      let bits = char_bits format in
      (bits * 1000000 ≤ t * baud) × (t * baud < bits * 1000000 + baud) × (7 ≤ bits) × (bits ≤ 12)
unfolding char_time_us
char_time_us_bounds baud format l h =
    let k = char_bits format * 1000000 in
    let (few, many) = char_bits_range format in
    let sum : u32 (k + baud + (2 ^ 32 - 1)) ≡ (k + baud) - 1 = omega arith in
    let n = (k + baud) - 1 in
    let whole = div-add-mod' n baud in
    let left = mod-lt n l in rw sum (omega arith, omega arith, few, many)
