-- ===== src/Modbus/Silence.antt =====
-- lib/protocols/modbus_rtu: init with its T3.5, and the wait for silence in front of each request.
-- The float arithmetic of T3.5 at 19200 baud and below is a parameter, over the length of a character
-- in half bits and the rate; micros() is a list of what it returns at the tests of the wait.
pub mod Gaps
use io_t_firmware.Base.{
  ℕ, ◌+◌, ◌*◌, ◌/◌, bit_and, Bool, true, false, Option, none, some, List, [], ◌∷◌, ltb, ◌==◌,
  if◌then◌else◌, sub32,
}
use io_t_firmware.Modbus.{ModbusRtuConfig, Value, Exchange, read_register, probe}

-- t35_us and last_rx_us
pub record ModbusRtuReader : Type 0 where
  pub t35_us : ℕ
  pub last_rx_us : ℕ

-- DATA_BITS_MASK, PARITY_MASK and STOP_MASK
abbrev pub data_bits_mask : ℕ
data_bits_mask = 12

abbrev pub parity_mask : ℕ
parity_mask = 2

abbrev pub stop_mask : ℕ
stop_mask = 48

-- char_len, twice over: the data bits, parity, stop bits and the start bit.
unfoldable pub char_halves : ℕ → Option ℕ
char_halves format =
    let data_bits = bit_and format data_bits_mask / 4 + 5 in
    let parity = if bit_and format parity_mask == 0 then 0 else 1 in
    let flag = bit_and format stop_mask / 16 in
    let halves = 2 * (data_bits + parity) in
    if flag == 1
    then some (halves + 2 + 2)
    else if flag == 2
    then some (halves + 3 + 2)
    else (if flag == 3 then some (halves + 4 + 2) else none)

-- init, without the module that it keeps.
unfoldable pub init : (ℕ → ℕ → ℕ) → ℕ → ℕ → ModbusRtuReader → Bool × ModbusRtuReader
init scaled format baud r = elim (char_halves format) [
  | none ↦ (false, r)
  | some halves ↦ (true, record r { t35_us = if ltb 19200 baud then 1750 else scaled halves baud })
]

-- The wait at the head of read_register and probe: micros() at the test that ends it.
unfoldable pub wait_silence : ModbusRtuReader → List ℕ → Option ℕ
wait_silence r [] = none
wait_silence r (us ∷ more) =
    let on = wait_silence r more in if ltb (sub32 us r.last_rx_us) r.t35_us then on else some us

-- What a call leaves: when its request went out, the request, the result and the reader.
pub record Done (A : Type 0) : Type 0 where
  pub asked_us : ℕ
  pub request : List ℕ
  pub result : A
  pub reader : ModbusRtuReader

abbrev behind_wait :
    {A : Type 0} → ModbusRtuReader → Option ℕ → List ℕ × Option (A × ℕ) → Option (Done A)
behind_wait r (some us) (request, some (v, last)) = some (record {
  asked_us = us;
  request = request;
  result = v;
  reader = record r { last_rx_us = last };
})
behind_wait r (some us) (request, none) = none
behind_wait r none asked = none

-- read_register and probe with their wait.
unfoldable pub read_register_quiet :
    ModbusRtuConfig → List ℕ → ℕ → Exchange → ModbusRtuReader → Option (Done (Option Value))
read_register_quiet c waits address x r =
    behind_wait r (wait_silence r waits) (read_register c r.t35_us r.last_rx_us address x)

unfoldable pub probe_quiet :
    ModbusRtuConfig → List ℕ → Exchange → ModbusRtuReader → Option (Done Bool)
probe_quiet c waits x r = behind_wait r (wait_silence r waits) (probe c r.t35_us r.last_rx_us x)
