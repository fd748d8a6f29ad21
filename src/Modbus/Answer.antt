-- ===== src/Modbus/Answer.antt =====
-- modbus_rtu.cpp: the answer of a meter that follows the protocol is read.
use io_t_firmware.Base.{
  ap, ℕ, ◌+◌, ◌*◌, ◌/◌, ◌%◌, ◌≤◌, ◌<◌, bit_and, ◌≡◌, refl, sym, ◌∙◌, Bool, true, false, Option,
  none, some, List, [], ◌∷◌, ◌++◌, arith, ltb, leb, ◌==◌, ==_refl, bit_and_step, bit_and_ff, length,
  u8, sub32,
}
use mathlib.Core.Option
use mathlib.Core.List.{append-nil, append_assoc}
use io_t_firmware.Crc.{crc_loop-lt}
use io_t_firmware.Modbus.{
  response_len, timeout, ModbusRtuConfig, Poll, modbus_crc, with_crc, Capture, capture_byte,
  read_loop, check_frame, check_response, decode_value, Exchange, read_frame, read_register,
}

-- The polls of a read that hears the bytes in time, each gap between two of them shorter than `t35`,
-- and is closed by silence or by the timeout; `last` is when the last byte came, `on` whether one has,
-- and the last index when the last one comes in all.
pub data Hears (t35 start : ℕ) : ℕ → Bool → List ℕ → List Poll → ℕ → Type 0 where
  heard :
      (last : ℕ) (on : Bool) (ms us b : ℕ) (bs : List ℕ) (ps : List Poll) (end : ℕ)
      → sub32 ms start < timeout
      → b < 256
      → Hears t35 start us true bs ps end
      → Hears t35 start last on (b ∷ bs) (record { ms = ms; byte = some b; us = us } ∷ ps) end
  waited :
      (last ms us : ℕ) (bs : List ℕ) (ps : List Poll) (end : ℕ)
      → sub32 ms start < timeout
      → Hears t35 start last false bs ps end
      → Hears t35 start last false bs (record { ms = ms; byte = none; us = us } ∷ ps) end
  paused :
      (last ms us : ℕ) (bs : List ℕ) (ps : List Poll) (end : ℕ)
      → sub32 ms start < timeout
      → sub32 us last < t35
      → Hears t35 start last true bs ps end
      → Hears t35 start last true bs (record { ms = ms; byte = none; us = us } ∷ ps) end
  silent :
      (last ms us : ℕ) (ps : List Poll)
      → sub32 ms start < timeout
      → t35 ≤ sub32 us last
      → Hears t35 start last true [] (record { ms = ms; byte = none; us = us } ∷ ps) last
  timed_out :
      (last us ms : ℕ) (on : Bool) (b : Option ℕ) (ps : List Poll)
      → timeout ≤ sub32 ms start
      → Hears t35 start last on [] (record { ms = ms; byte = b; us = us } ∷ ps) last

abbrev captured : List ℕ → ℕ → ℕ → Capture
captured b i us = record { buffer = b; index = i; last_us = us }

bit_and_twice : (x y : ℕ) → bit_and x (2 * y) ≡ 2 * bit_and (x / 2) y
bit_and_twice x y =
    let h : 2 * y / 2 ≡ y = omega arith in bit_and_step x (2 * y) ∙ rw h (omega arith)

bit_and_high : (x : ℕ) → bit_and x 0xFF00 / 256 ≡ x / 256 % 256
bit_and_high x = omega (
  arith,
  bit_and_twice x 0x7F80,
  bit_and_twice (x / 2) 0x3FC0,
  bit_and_twice (x / 2 / 2) 0x1FE0,
  bit_and_twice (x / 2 / 2 / 2) 0xFF0,
  bit_and_twice (x / 2 / 2 / 2 / 2) 0x7F8,
  bit_and_twice (x / 2 / 2 / 2 / 2 / 2) 0x3FC,
  bit_and_twice (x / 2 / 2 / 2 / 2 / 2 / 2) 0x1FE,
  bit_and_twice (x / 2 / 2 / 2 / 2 / 2 / 2 / 2) 0xFF,
  bit_and_ff (x / 2 / 2 / 2 / 2 / 2 / 2 / 2 / 2),
)

crc_bytes :
    (bs : List ℕ)
    → bit_and (modbus_crc bs) 0x00FF + 256 * (bit_and (modbus_crc bs) 0xFF00 / 256) ≡ modbus_crc bs
unfolding modbus_crc
crc_bytes bs =
    let c = modbus_crc bs in
    omega (arith, bit_and_ff c, bit_and_high c, crc_loop-lt 0xA001 0xFFFF bs (omega arith))

-- Captures with equal fields are equal.
same_capture :
    {b c : List ℕ} {i j us vs : ℕ}
    → b ≡ c
    → i ≡ j
    → us ≡ vs
    → some (captured b i us) ≡ some (captured c j vs)
same_capture {b} {c} {i} {j} {us} {vs} p q r =
    ap (λ x. some (captured x i us)) p
    ∙ ap (λ n. some (captured c n us)) q
    ∙ ap (λ n. some (captured c j n)) r

-- Where no byte comes any more.
finished :
    (k : Capture) {last : ℕ}
    → k.last_us ≡ last
    → some k ≡ some (captured (k.buffer ++ []) (k.index + 0) last)
finished k l = same_capture (sym (append-nil k.buffer)) (omega arith) l

read_loop-Hears :
    (t35 max start : ℕ) (k : Capture) {last : ℕ} {on : Bool} {bs : List ℕ} {ps : List Poll}
    {end : ℕ}
    → Hears t35 start last on bs ps end
    → k.last_us ≡ last
    → ltb 0 k.index ≡ on
    → k.index + length bs ≤ max
    → read_loop t35 max start ps k ≡ some (captured (k.buffer ++ bs) (k.index + length bs) end)
unfolding read_loop capture_byte
read_loop-Hears t35 max start k (heard last on ms us b bs ps end h lt r) l o m =
    let in_time : ltb (sub32 ms start) timeout ≡ true = ground arith in
    let room : ltb k.index max ≡ true = ground arith in
    let byte : u8 b ≡ b = omega arith in
    let begun : ltb 0 (k.index + 1) ≡ true = ground arith in
    let k' = captured (k.buffer ++ (b ∷ [])) (k.index + 1) us in
    let next : capture_byte max b us k ≡ k' = rw (room, byte) refl in
    rw (in_time, next)
      (read_loop-Hears t35 max start k' r refl begun (omega arith)
        ∙ same_capture (append_assoc k.buffer (b ∷ []) bs) (omega arith) refl)
read_loop-Hears t35 max start k (waited last ms us bs ps end h r) l o m =
    let in_time : ltb (sub32 ms start) timeout ≡ true = ground arith in
    rw (in_time, o) (read_loop-Hears t35 max start k r l o m)
read_loop-Hears t35 max start k (paused last ms us bs ps end h g r) l o m =
    let in_time : ltb (sub32 ms start) timeout ≡ true = ground arith in
    let short : leb t35 (sub32 us k.last_us) ≡ false = rw l (ground arith) in
    rw (in_time, o, short) (read_loop-Hears t35 max start k r l o m)
read_loop-Hears t35 max start k (silent last ms us ps h g) l o m =
    let in_time : ltb (sub32 ms start) timeout ≡ true = ground arith in
    let long : leb t35 (sub32 us k.last_us) ≡ true = rw l (ground arith) in
    rw (in_time, o, long) (finished k l)
read_loop-Hears t35 max start k (timed_out last us ms on b ps h) l o m =
    let late : ltb (sub32 ms start) timeout ≡ false = ground arith in rw late (finished k l)

-- The answer to a request: the slave, the function code, the count of the data bytes, the register
-- pair with its high register first, and the check sequence.
abbrev pub answer_of : ModbusRtuConfig → ℕ → ℕ → ℕ → ℕ → List ℕ
answer_of c d0 d1 d2 d3 = with_crc (c.slave_address ∷ c.function_code ∷ 4 ∷ d0 ∷ d1 ∷ d2 ∷ d3 ∷ [])

answer_accepted :
    (c : ModbusRtuConfig) (d0 d1 d2 d3 end : ℕ)
    → let b = answer_of c d0 d1 d2 d3 in check_frame c response_len (captured b 9 end) ≡ some b
unfolding check_frame
answer_accepted c d0 d1 d2 d3 end =
    let body = c.slave_address ∷ c.function_code ∷ 4 ∷ d0 ∷ d1 ∷ d2 ∷ d3 ∷ [] in
    let slave : (c.slave_address == c.slave_address) ≡ true = ==_refl c.slave_address in
    let whole = ==_refl (modbus_crc body) in rw (slave, crc_bytes body, whole) refl

answer_checked :
    (c : ModbusRtuConfig) (d0 d1 d2 d3 : ℕ)
    → bit_and c.function_code 0x80 ≡ 0
    → let b = answer_of c d0 d1 d2 d3 in check_response c b ≡ some b
unfolding check_response
answer_checked c d0 d1 d2 d3 f = rw (f, ==_refl c.function_code) refl

-- Where the request goes out and the meter answers it, each byte in time and without a gap of T3.5
-- inside the answer, read_register gives the value of the four data bytes, unless the format is
-- unknown, and notes when the last byte came.
pub read_register-answered :
    (c : ModbusRtuConfig) (t35 last_rx address : ℕ) (x : Exchange) (d0 d1 d2 d3 end : ℕ)
    → x.send_ok ≡ true
    → bit_and c.function_code 0x80 ≡ 0
    → Hears t35 x.start_ms x.start_us false (answer_of c d0 d1 d2 d3) x.polls end
    → (read_register c t35 last_rx address x).1
      ≡ some (decode_value c.register_format (16777216 * d0 + 65536 * d1 + 256 * d2 + d3), end)
unfolding read_register read_frame Option.bind decode_value
read_register-answered c t35 last_rx address x d0 d1 d2 d3 end sent f h =
    let k0 = captured [] 0 x.start_us in
    let loop = read_loop-Hears t35 response_len x.start_ms k0 h refl refl (omega arith) in
    rw (sent, loop, answer_accepted c d0 d1 d2 d3 end, answer_checked c d0 d1 d2 d3 f) refl
