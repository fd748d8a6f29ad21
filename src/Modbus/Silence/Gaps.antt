-- ===== src/Modbus/Silence/Gaps.antt =====
-- modbus_rtu.cpp: a call of the reader from init on.
use io_t_firmware.Base.{
  ap, ℕ, ◌+◌, ◌*◌, ◌≤◌, bit_and, ◌≡◌, refl, sym, ◌∙◌, ◌⊎◌, inl, inr, true, false, some, List, [],
  ◌∷◌, ◌++◌, arith, ltb, if◌then◌else◌, Bool-cases, Option-cases, sub32,
}
use io_t_firmware.Modbus.{ModbusRtuConfig, build_request, decode_value, Exchange, read_register}
use io_t_firmware.Modbus.Answer.{Hears, answer_of, read_register-answered}
use io_t_firmware.Modbus.Silence.{
  ModbusRtuReader, char_halves, init, wait_silence, read_register_quiet,
}

-- The wait ends once the line has been silent, and not before.
wait_silence-ends :
    (r : ModbusRtuReader) (ws : List ℕ) (us : ℕ) (more : List ℕ)
    → r.t35_us ≤ sub32 us r.last_rx_us
    → (at : ℕ) × (wait_silence r (ws ++ (us ∷ more)) ≡ some at) × (r.t35_us ≤ sub32 at r.last_rx_us)
unfolding wait_silence
wait_silence-ends r [] us more q =
    let over : ltb (sub32 us r.last_rx_us) r.t35_us ≡ false = ground arith in (us, rw over refl, q)
wait_silence-ends r (w ∷ ws) us more q = elim (Bool-cases (ltb (sub32 w r.last_rx_us) r.t35_us)) [
  | inl busy ↦ let (at, e, l) = wait_silence-ends r ws us more q in (at, rw busy e, l)
  | inr quiet ↦ (w, rw quiet refl, ground arith)
]

-- The request does not depend on what comes back.
read_register-asks :
    (c : ModbusRtuConfig) (t35 last address : ℕ) (x : Exchange)
    → (read_register c t35 last address x).0 ≡ build_request c address
unfolding read_register
read_register-asks c t35 last address x = refl

init-some :
    (scaled : ℕ → ℕ → ℕ) (format baud : ℕ) (r : ModbusRtuReader) (h : ℕ)
    → char_halves format ≡ some h
    → init scaled format baud r
      ≡ (true, record r { t35_us = if ltb 19200 baud then 1750 else scaled h baud })
unfolding init
init-some scaled format baud r h e = rw (e, init) refl

init_sets :
    (scaled : ℕ → ℕ → ℕ) (format baud : ℕ) (r0 r : ModbusRtuReader)
    → init scaled format baud r0 ≡ (true, r)
    → (r.last_rx_us ≡ r0.last_rx_us) × ((baud ≤ 19200) ⊎ (r.t35_us ≡ 1750))
unfolding init
init_sets scaled format baud r0 r i = elim (Option-cases (char_halves format)) [
  | inl e ↦ absurd (ground (arith, i, e))
  | inr (h, e) ↦
      let set : record r0 { t35_us = if ltb 19200 baud then 1750 else scaled h baud } ≡ r =
        sym (ap (λ o. o.1) (init-some scaled format baud r0 h e)) ∙ ap (λ o. o.1) i in
      (
        sym (ap (λ q. q.last_rx_us) set),
        elim (Bool-cases (ltb 19200 baud)) [
          | inl fast ↦ inr (sym (ap (λ q. q.t35_us) set) ∙ rw fast refl)
          | inr slow ↦ inl (ground arith)
        ],
      )
]

-- Behind an init that succeeded, a call of read_register whose line falls silent and whose meter
-- answers ends: its request has gone out behind T3.5 of silence, which is 1750 us above 19200 baud,
-- the result is the value of the four data bytes, unless the format is unknown, and the reader knows
-- when the last byte came.
pub answered_read :
    (scaled : ℕ → ℕ → ℕ) (format baud : ℕ) (r0 r : ModbusRtuReader) (c : ModbusRtuConfig)
    (ws more : List ℕ) (us address d0 d1 d2 d3 end : ℕ) (x : Exchange)
    → init scaled format baud r0 ≡ (true, r)
    → r.t35_us ≤ sub32 us r.last_rx_us
    → x.send_ok ≡ true
    → bit_and c.function_code 0x80 ≡ 0
    → Hears r.t35_us x.start_ms x.start_us false (answer_of c d0 d1 d2 d3) x.polls end
    → (at : ℕ) × (read_register_quiet c (ws ++ (us ∷ more)) address x r
        ≡ some (record {
          asked_us = at;
          request = build_request c address;
          result = decode_value c.register_format (16777216 * d0 + 65536 * d1 + 256 * d2 + d3);
          reader = record r { last_rx_us = end };
        }))
      × (r.t35_us ≤ sub32 at r0.last_rx_us)
      × ((baud ≤ 19200) ⊎ (r.t35_us ≡ 1750))
unfolding read_register_quiet
answered_read scaled format baud r0 r c ws more us address d0 d1 d2 d3 end x i q sent f h =
    let (last, fast) = init_sets scaled format baud r0 r i in
    let (at, waited, quiet) = wait_silence-ends r ws us more q in
    let read = read_register-answered c r.t35_us r.last_rx_us address x d0 d1 d2 d3 end sent f h in
    let request = read_register-asks c r.t35_us r.last_rx_us address x in
    (at, rw (waited, request, read) refl, rw⁻¹ last quiet, fast)
