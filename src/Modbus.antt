-- ===== src/Modbus.antt =====
-- lib/protocols/modbus_rtu/modbus_rtu.h and modbus_rtu.cpp: the Modbus RTU master that reads a
-- meter. The bus and the clocks are inputs: a list of polls says, for each round of the read loop,
-- what millis() returns at the loop's test, what readByte() returns, and what micros() returns
-- after it. A list that ends before the loop does gives `none`. Log lines are left out.
pub mod Accept
pub mod Answer
pub mod Silence
use mathlib.Core.Option
use io_t_firmware.Base.{
  ℕ, ◌+◌, ◌-◌, ◌*◌, ◌/◌, bit_and, Bool, false, not, ◌&&◌, ◌||◌, Option, none, some, List, [], ◌∷◌,
  ◌++◌, map, ltb, leb, ◌==◌, if◌then◌else◌, bytes_eq, length, get_or, take, u8, sub32,
}
use io_t_firmware.Crc.{crc_loop}

abbrev pub request_len : ℕ
request_len = 8

abbrev pub response_len : ℕ
response_len = 9

abbrev pub min_frame_len : ℕ
min_frame_len = 4

abbrev pub probe_frame_len : ℕ
probe_frame_len = 8

abbrev pub exception_len : ℕ
exception_len = 5

abbrev pub timeout : ℕ
timeout = 500

-- RegisterFormat; `unknown_format` is any value that the code does not name.
pub data RegisterFormat : Type 0 where
  ieee_754_float scaled_int unknown_format : RegisterFormat

-- The fields of ModbusRtuConfig that the reader uses.
pub record ModbusRtuConfig : Type 0 where
  pub slave_address : ℕ
  pub function_code : ℕ
  pub import_address : ℕ
  pub export_address : ℕ
  pub voltage_address : ℕ
  pub register_format : RegisterFormat

-- One round of the loop of read_frame: `byte` is `none` where readByte() returns -1.
pub record Poll : Type 0 where
  pub ms : ℕ
  pub byte : Option ℕ
  pub us : ℕ

-- modbus_crc
unfoldable pub modbus_crc : List ℕ → ℕ
modbus_crc bs = crc_loop 0xA001 0xFFFF bs

-- A frame with its CRC behind it, low byte first.
abbrev pub with_crc : List ℕ → List ℕ
with_crc bs = bs ++ (bit_and (modbus_crc bs) 0x00FF ∷ bit_and (modbus_crc bs) 0xFF00 / 256 ∷ [])

-- build_request
unfoldable pub build_request : ModbusRtuConfig → ℕ → List ℕ
build_request c address = with_crc (
    c.slave_address
    ∷ c.function_code
    ∷ bit_and address 0xFF00 / 256
    ∷ bit_and address 0x00FF
    ∷ 0x00
    ∷ 0x02
    ∷ [])

-- The loop of read_frame: what it has read, `index` of which the bytes past `max` are only counted,
-- and when the last byte came.
pub record Capture : Type 0 where
  pub buffer : List ℕ
  pub index : ℕ
  pub last_us : ℕ

unfoldable pub capture_byte : ℕ → ℕ → ℕ → Capture → Capture
capture_byte max b us k = record {
  buffer = if ltb k.index max then k.buffer ++ (u8 b ∷ []) else k.buffer;
  index = k.index + 1;
  last_us = us;
}

unfoldable pub read_loop : ℕ → ℕ → ℕ → List Poll → Capture → Option Capture
read_loop t35 max start [] k = none
read_loop t35 max start (p ∷ ps) k =
    let on = read_loop t35 max start ps k in
    let more = λ (b : ℕ). read_loop t35 max start ps (capture_byte max b p.us k) in
    if not (ltb (sub32 p.ms start) timeout) then some k else elim p.byte [
      | some b ↦ more b
      | none ↦ if ltb 0 k.index && leb t35 (sub32 p.us k.last_us) then some k else on
    ]

-- The checks of read_frame on what the loop read; `none` is EXIT_FAILURE.
unfoldable pub check_frame : ModbusRtuConfig → ℕ → Capture → Option (List ℕ)
check_frame c max k =
    let b = k.buffer in
    let crc = get_or b (k.index - 2) 0 + 256 * get_or b (k.index - 1) 0 in
    if ltb k.index min_frame_len
    then none
    else if ltb max k.index
    then none
    else if not (get_or b 0 0 == c.slave_address)
    then none
    else (if not (modbus_crc (take (k.index - 2) b) == crc) then none else some b)

-- The checks of read_response on a frame that read_frame accepted.
unfoldable pub check_response : ModbusRtuConfig → List ℕ → Option (List ℕ)
check_response c b =
    if not (bit_and (get_or b 1 0) 0x80 == 0)
    then none
    else if not (length b == response_len)
    then none
    else if not (get_or b 1 0 == c.function_code)
    then none
    else (if not (get_or b 2 0 == 4) then none else some b)

-- What read_register makes of a response: the raw register pair, high register first.
abbrev pub raw_value : List ℕ → ℕ
raw_value b = 16777216 * get_or b 3 0 + 65536 * get_or b 4 0 + 256 * get_or b 5 0 + get_or b 6 0

-- The decoded value: a float by its bit pattern, or a count of thousandths.
pub data Value : Type 0 where
  float_bits : ℕ → Value
  thousandths : ℕ → Value

unfoldable pub decode_value : RegisterFormat → ℕ → Option Value
decode_value ieee_754_float raw = some (float_bits raw)
decode_value scaled_int raw = some (thousandths raw)
decode_value unknown_format raw = none

-- What one request meets: the result of Module::send(), millis() and micros() as read_frame starts,
-- and the rounds of its loop.
pub record Exchange : Type 0 where
  pub send_ok : Bool
  pub start_ms : ℕ
  pub start_us : ℕ
  pub polls : List Poll

-- read_frame with its loop: `none` while the loop runs on, `some none` for EXIT_FAILURE.
unfoldable pub read_frame : ModbusRtuConfig → ℕ → ℕ → Exchange → Option (Option (List ℕ) × ℕ)
read_frame c t35 max x =
    Option.map (λ k. (check_frame c max k, k.last_us))
      (read_loop t35 max x.start_ms x.polls
        (record { buffer = []; index = 0; last_us = x.start_us }))

-- read_register behind its wait for silence: the request that goes out, the outcome, and last_rx_us.
unfoldable pub read_register :
    ModbusRtuConfig → ℕ → ℕ → ℕ → Exchange → List ℕ × Option (Option Value × ℕ)
read_register c t35 last_rx address x =
    let answer =
      Option.map
        (λ (f, us). (
          Option.bind (Option.bind f (check_response c))
              (λ b. decode_value c.register_format (raw_value b)),
          us,
        ))
        (read_frame c t35 response_len x) in
    (build_request c address, if not x.send_ok then some (none, last_rx) else answer)

-- The request of probe.
unfoldable pub probe_request : ModbusRtuConfig → List ℕ
probe_request c = with_crc (c.slave_address ∷ 0x08 ∷ 0x00 ∷ 0x00 ∷ 0xA5 ∷ 0x5A ∷ [])

-- The verdict of probe on a frame.
unfoldable pub check_probe : List ℕ → List ℕ → Bool
check_probe request b =
    (length b == exception_len && get_or b 1 0 == 0x88)
    || (length b == probe_frame_len && bytes_eq b request)

-- probe behind its wait for silence: the request that goes out, whether the meter is there, and
-- last_rx_us.
unfoldable pub probe : ModbusRtuConfig → ℕ → ℕ → Exchange → List ℕ × Option (Bool × ℕ)
probe c t35 last_rx x =
    let request = probe_request c in
    let answer =
      Option.map (λ (f, us). ((elim f [ none ↦ false | some b ↦ check_probe request b ]), us))
        (read_frame c t35 probe_frame_len x) in
    (request, if not x.send_ok then some (false, last_rx) else answer)

-- get_import, get_export and get_voltage
unfoldable pub get_import : ModbusRtuConfig → ℕ → ℕ → Exchange → List ℕ × Option (Option Value × ℕ)
get_import c t35 last_rx x = read_register c t35 last_rx c.import_address x

unfoldable pub get_export : ModbusRtuConfig → ℕ → ℕ → Exchange → List ℕ × Option (Option Value × ℕ)
get_export c t35 last_rx x = read_register c t35 last_rx c.export_address x

unfoldable pub get_voltage : ModbusRtuConfig → ℕ → ℕ → Exchange → List ℕ × Option (Option Value × ℕ)
get_voltage c t35 last_rx x = read_register c t35 last_rx c.voltage_address x
