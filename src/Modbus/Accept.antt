-- ===== src/Modbus/Accept.antt =====
-- modbus_rtu.cpp: which frames read_register takes a value from.
use mathlib.Core.Option
use mathlib.Core.Path.{subst}
use mathlib.Core.List.{append-nil, append_assoc}
use io_t_firmware.Base.{
  ap, ℕ, suc, ◌+◌, ◌-◌, ◌*◌, ◌≤◌, ◌≡◌, refl, sym, ◌∙◌, inl, inr, Bool, true, false, not, ◌&&◌,
  Option, none, some, List, [], ◌∷◌, ◌++◌, arith, ltb, leb, if◌then◌else◌, Bool-cases, Option-cases,
  bind-eq-some, map-eq-some, length, get_or, take, length-append, u8, sub32,
}
use io_t_firmware.Modbus.{
  ModbusRtuConfig, Poll, Capture, capture_byte, read_loop, check_frame, check_response, Exchange,
  response_len, timeout, read_frame, read_register, modbus_crc, decode_value, raw_value, Value,
}

-- The bytes that a list of polls brings.
abbrev pub received : List Poll → List ℕ
received [] = []
received (p ∷ ps) = elim p.byte [ none ↦ received ps | some b ↦ u8 b ∷ received ps ]

-- What a run of the loop has added to a capture: the bytes of its first polls, all counted, and, while
-- there is room, all kept.
record Adds (max : ℕ) (ps : List Poll) (k l : Capture) : Type 0 where
  heard : ℕ
  counted : l.index ≡ k.index + length (received (take heard ps))
  kept :
      k.index ≤ max
      → length k.buffer ≡ k.index
      → l.index ≤ max
      → l.buffer ≡ k.buffer ++ received (take heard ps)

Adds-none : (max : ℕ) (ps : List Poll) (k l : Capture) → k ≡ l → Adds max ps k l
Adds-none max ps k l e =
    rw⁻¹ e (record { heard = 0; counted = omega arith; kept = λ m a n. sym (append-nil k.buffer) })

Adds-idle :
    (max : ℕ) (p : Poll) (ps : List Poll) (k l : Capture)
    → p.byte ≡ none
    → Adds max ps k l
    → Adds max (p ∷ ps) k l
Adds-idle max p ps k l e a = record {
  heard = suc a.heard;
  counted = rw e a.counted;
  kept = rw e a.kept;
}

Adds-byte :
    (max : ℕ) (p : Poll) (ps : List Poll) (b : ℕ) (k l : Capture)
    → p.byte ≡ some b
    → Adds max ps (capture_byte max b p.us k) l
    → Adds max (p ∷ ps) k l
unfolding capture_byte
Adds-byte max p ps b k l e a =
    let rest = received (take a.heard ps) in
    record {
      heard = suc a.heard;
      counted = rw e (omega (arith, a.counted));
      kept = λ m n f.
          let room : ltb k.index max ≡ true = ground (arith, a.counted, f) in
          let size = length-append k.buffer (u8 b ∷ []) in
          let grown : l.buffer ≡ (k.buffer ++ (u8 b ∷ [])) ++ rest =
            (rw room at a.kept) (omega arith) (omega (arith, size)) f in
          rw e (grown ∙ append_assoc k.buffer (u8 b ∷ []) rest);
    }

read_loop-Adds :
    (t35 max start : ℕ) (ps : List Poll) (k l : Capture)
    → read_loop t35 max start ps k ≡ some l
    → Adds max ps k l
unfolding read_loop
read_loop-Adds t35 max start [] k l e = absurd (ground arith)
read_loop-Adds t35 max start (p ∷ ps) k l e = elim (Bool-cases (ltb (sub32 p.ms start) timeout)) [
  | inr t ↦ Adds-none max (p ∷ ps) k l (ground arith)
  | inl t ↦ elim (Option-cases p.byte) [
    | inr (b, n) ↦
        Adds-byte max p ps b k l n
          (read_loop-Adds t35 max start ps (capture_byte max b p.us k) l (ground arith))
    | inl n ↦ elim (Bool-cases (ltb 0 k.index && leb t35 (sub32 p.us k.last_us))) [
      | inl s ↦ Adds-none max (p ∷ ps) k l (ground arith)
      | inr s ↦ Adds-idle max p ps k l n (read_loop-Adds t35 max start ps k l (ground arith))
    ]
  ]
]

-- From an empty buffer, a capture that has not run over is what the first polls brought.
captured_whole :
    (max : ℕ) (ps : List Poll) (us : ℕ) (l : Capture)
    → Adds max ps (record { buffer = []; index = 0; last_us = us }) l
    → l.index ≤ max
    → (n : ℕ) × (l.buffer ≡ received (take n ps)) × (length l.buffer ≡ l.index)
captured_whole max ps us l a f =
    let whole = a.kept (omega arith) refl f in
    (a.heard, whole, ap length whole ∙ omega (arith, a.counted))

-- A response that answers the request: nine bytes from the slave, with the function code, a count of
-- four data bytes and the check sequence of the bytes before it.
pub record IsResponse (c : ModbusRtuConfig) (b : List ℕ) : Type 0 where
  size : length b ≡ response_len
  slave : get_or b 0 0 ≡ c.slave_address
  function : get_or b 1 0 ≡ c.function_code
  data_count : get_or b 2 0 ≡ 4
  checked : modbus_crc (take 7 b) ≡ get_or b 7 0 + 256 * get_or b 8 0

check_frame_sound :
    (c : ModbusRtuConfig) (max : ℕ) (k : Capture) (b : List ℕ)
    → check_frame c max k ≡ some b
    → (k.buffer ≡ b)
      × (k.index ≤ max)
      × (get_or k.buffer 0 0 ≡ c.slave_address)
      × (modbus_crc (take (k.index - 2) k.buffer)
          ≡ get_or k.buffer (k.index - 2) 0 + 256 * get_or k.buffer (k.index - 1) 0)
unfolding check_frame
check_frame_sound c max k b e = ground arith

check_response_sound :
    (c : ModbusRtuConfig) (b d : List ℕ)
    → check_response c b ≡ some d
    → (b ≡ d) × (length b ≡ response_len) × (get_or b 1 0 ≡ c.function_code) × (get_or b 2 0 ≡ 4)
unfolding check_response
check_response_sound c b d e = ground arith

sent_some :
    (b : Bool) (l us : ℕ) (v : Value) (o : Option (Option Value × ℕ))
    → (if not b then some (none, l) else o) ≡ some (some v, us)
    → (b ≡ true) × (o ≡ some (some v, us))
sent_some true l us v o e = (refl, e)
sent_some false l us v o e = absurd (ground arith)

accepted-IsResponse :
    (c : ModbusRtuConfig) (max : ℕ) (k : Capture) (d : List ℕ)
    → (k.index ≤ max → length k.buffer ≡ k.index)
    → Option.bind (check_frame c max k) (check_response c) ≡ some d
    → IsResponse c d × (k.buffer ≡ d) × (k.index ≤ max)
accepted-IsResponse c max k d v f =
    let (b, e, g) = bind-eq-some (check_frame c max k) (check_response c) d f in
    let (held, fits, slave, crc) = check_frame_sound c max k b e in
    let (same, size, function, count) = check_response_sound c b d g in
    let nine : k.index ≡ 9 = sym (v fits) ∙ ap length held ∙ size in
    (
      rw⁻¹ same (
          rw⁻¹ held (record {
            size = ap length held ∙ size;
            slave = slave;
            function = rw held function;
            data_count = rw held count;
            checked =
                subst
                  (λ i.
                    modbus_crc (take (i - 2) k.buffer)
                    ≡ get_or k.buffer (i - 2) 0 + 256 * get_or k.buffer (i - 1) 0)
                  nine crc;
          })),
      held ∙ same,
      fits,
    )

-- Where read_register returns a value, Module::send() succeeded, and the bytes that came in over the
-- first polls of its loop are, all together, a frame that answers the request: nine bytes from the
-- slave, with the function code, a count of four data bytes and the right check sequence; and the
-- value is that of the frame's four data bytes.
pub read_register_sound :
    (c : ModbusRtuConfig) (t35 last_rx address : ℕ) (x : Exchange) (v : Value) (us : ℕ)
    → (read_register c t35 last_rx address x).1 ≡ some (some v, us)
    → (x.send_ok ≡ true)
      × (n : ℕ) × IsResponse c (received (take n x.polls))
      × (decode_value c.register_format (raw_value (received (take n x.polls))) ≡ some v)
unfolding read_register read_frame
read_register_sound c t35 last_rx address x v us e =
    let k0 : Capture = record { buffer = []; index = 0; last_us = x.start_us } in
    let (sent, answer) = sent_some x.send_ok last_rx us v _ e in
    let (fu, er, eq) = map-eq-some (read_frame c t35 response_len x) _ _ answer in
    let (k, ek, eqk) = map-eq-some (read_loop t35 response_len x.start_ms x.polls k0) _ _ er in
    let (d, ed, dec) = bind-eq-some (Option.bind fu.0 (check_response c)) _ v (ap (λ p. p.0) eq) in
    let added = read_loop-Adds t35 response_len x.start_ms x.polls k0 k ek in
    let aligned = λ (f : k.index ≤ response_len).
      (captured_whole response_len x.polls x.start_us k added f).2 in
    let (good, held, fits) =
      accepted-IsResponse c response_len k d aligned
        (ap (λ p. Option.bind p.0 (check_response c)) eqk ∙ ed) in
    let (n, whole, size) = captured_whole response_len x.polls x.start_us k added fits in
    let frame = sym held ∙ whole in (sent, n, rw⁻¹ frame good, rw⁻¹ frame dec)
