-- ===== src/Tests/Rtu.antt =====
-- The theorems on the Modbus reader at a meter that answers with 230.0 as a float.
use mathlib.Core.Option
use io_t_firmware.Base.{
  ℕ, ◌+◌, ◌*◌, ◌≤◌, ◌<◌, ◌≡◌, refl, ◌⊎◌, true, false, none, some, List, [], ◌∷◌, ◌++◌, map, arith,
  take, All, sub32,
}
use io_t_firmware.Crc.{crc_loop, crc_rounds}
use io_t_firmware.Modbus.{
  read_frame, read_loop, capture_byte, check_frame, modbus_crc, check_response, ModbusRtuConfig,
  Exchange, Poll, float_bits, ieee_754_float, read_register, decode_value, raw_value, with_crc,
}
use io_t_firmware.Modbus.Accept.{received, IsResponse, read_register_sound}
use io_t_firmware.Modbus.Answer.{Hears, heard, silent, answer_of}
use io_t_firmware.Modbus.Silence.{init, char_halves, read_register_quiet}
use io_t_firmware.Modbus.Silence.Gaps.{answered_read}
use io_t_firmware.Modbus.{build_request}

abbrev meter : ModbusRtuConfig
meter = record {
  slave_address = 1;
  function_code = 3;
  import_address = 0;
  export_address = 2;
  voltage_address = 4;
  register_format = ieee_754_float;
}

-- The meter's answer, 230.0 as a float.
abbrev response : List ℕ
response = with_crc (1 ∷ 3 ∷ 4 ∷ 0x43 ∷ 0x66 ∷ 0 ∷ 0 ∷ [])

abbrev poll_of : ℕ → Poll
poll_of b = record { ms = 10; byte = some b; us = 100 }

abbrev served : Exchange
served = record {
  send_ok = true;
  start_ms = 0;
  start_us = 0;
  polls = map poll_of response ++ (record { ms = 20; byte = none; us = 9000 } ∷ []);
}

-- The polls of `served` as the answer that they bring.
abbrev rest_of : List ℕ → List Poll
rest_of bs = map poll_of bs ++ (record { ms = 20; byte = none; us = 9000 } ∷ [])

hears_all : (bs : List ℕ) → All (λ b. b < 256) bs → Hears 4000 0 100 true bs (rest_of bs) 100
hears_all [] a = silent 100 20 9000 [] (omega arith) (omega arith)
hears_all (b ∷ bs) (lt, a) =
    heard 100 true 10 100 b bs (rest_of bs) 100 (omega arith) lt (hears_all bs a)

served_hears : Hears 4000 0 0 false (answer_of meter 0x43 0x66 0 0) served.polls 100
unfolding modbus_crc crc_loop crc_rounds
served_hears =
    let behind : List ℕ = 3 ∷ 4 ∷ 67 ∷ 102 ∷ 0 ∷ 0 ∷ 15 ∷ 168 ∷ [] in
    let bytes : All (λ b. b < 256) behind = (
      omega arith,
      (
        omega arith,
        (
          omega arith,
          (omega arith, (omega arith, (omega arith, (omega arith, (omega arith, tt))))),
        ),
      ),
    ) in
    heard 0 false 10 100 1 behind (rest_of behind) 100 (omega arith) (omega arith)
      (hears_all behind bytes)

-- 9600 baud, 8N1, and a clock that has run 5 ms since the last byte.
answered_read_example :
    (at : ℕ) × (read_register_quiet meter
        (5 ∷ 5000 ∷ [])
        4
        served
        (record { t35_us = 4000; last_rx_us = 0 })
      ≡ some (record {
        asked_us = at;
        request = build_request meter 4;
        result = decode_value meter.register_format (16777216 * 0x43 + 65536 * 0x66 + 256 * 0 + 0);
        reader = record { t35_us = 4000; last_rx_us = 100 };
      }))
    × (4000 ≤ sub32 at 0)
    × ((9600 ≤ 19200) ⊎ (◌≡◌ {A = ℕ} 4000 1750))
unfolding init char_halves
answered_read_example =
    answered_read (λ h b. 4000) 0x800001C 9600 (record { t35_us = 0; last_rx_us = 0 })
      (record { t35_us = 4000; last_rx_us = 0 }) meter (5 ∷ []) [] 5000 4 0x43 0x66 0 0 100 served
      refl (omega arith) refl refl served_hears

served_value : (read_register meter 4000 0 4 served).1 ≡ some (some (float_bits 0x43660000), 100)
unfolding read_register read_frame read_loop capture_byte Option.bind check_frame modbus_crc
    crc_loop crc_rounds check_response decode_value
served_value = refl

read_register_sound_example :
    (true ≡ true)
    × (n : ℕ) × IsResponse meter (received (take n served.polls))
    × (decode_value ieee_754_float (raw_value (received (take n served.polls)))
        ≡ some (float_bits 0x43660000))
read_register_sound_example =
    read_register_sound meter 4000 0 4 served (float_bits 0x43660000) 100 served_value
