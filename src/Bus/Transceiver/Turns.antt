-- ===== src/Bus/Transceiver/Turns.antt =====
-- lib/buses/sp3485/sp3485.cpp: the driver of the bus over a sequence of calls.
use io_t_firmware.Base.{
  ℕ, ◌≡◌, refl, ap, Bool, true, false, not, ◌&&◌, List, [], ◌∷◌, ◌++◌, arith, take,
}
use io_t_firmware.Bus.Transceiver.{
  Event, level, listen, write, flush, Transceiver, send, read_byte, Call, sending, reading,
  arriving, turn, turns, drain_loop,
}

-- The rule of a half-duplex line: bytes are written with the driver on, it is turned only when they
-- have left, and at the end it is off. `on` is the driver, `left` that no byte is on its way.
unfoldable pub obeys : Bool → Bool → List Event → Bool
obeys on left [] = not on && left
obeys on left (level b ∷ es) = left && obeys b true es
obeys on left (listen ∷ es) = false
obeys on left (write bs ∷ es) = on && obeys on false es
obeys on left (flush ∷ es) = obeys on true es

-- The bytes that the events put on the line.
unfoldable pub on_line : List Event → List ℕ
on_line [] = []
on_line (level b ∷ es) = on_line es
on_line (listen ∷ es) = on_line es
on_line (write bs ∷ es) = bs ++ on_line es
on_line (flush ∷ es) = on_line es

-- The bytes that the calls ask for and the UART takes.
unfoldable pub asked : List Call → List ℕ
asked [] = []
asked (sending taken bytes ∷ cs) = take taken bytes ++ asked cs
asked (reading ∷ cs) = asked cs
asked (arriving bs ∷ cs) = asked cs

read_byte_turns_nothing : (t : Transceiver) → t.driving ≡ false → (read_byte t).0 ≡ []
unfolding read_byte
read_byte_turns_nothing t off = ground arith

-- A reader that starts with the driver off turns the line around by the rule, whatever it sends and
-- reads and whatever arrives; it puts on the line exactly the bytes of its frames that the UART takes,
-- in order; and it leaves the driver off.
pub turns_obey :
    (cs : List Call) (t : Transceiver)
    → t.driving ≡ false
    → let (es, t') = turns cs t in
      (obeys false true es ≡ true) × (on_line es ≡ asked cs) × (t'.driving ≡ false)
unfolding turns turn send read_byte obeys on_line asked
turns_obey [] t off = (refl, refl, off)
turns_obey (sending taken bytes ∷ cs) t off =
    let quiet : Transceiver = record { driving = false; waiting = drain_loop t.waiting } in
    let (kept, same, at_end) = turns_obey cs quiet refl in
    (kept, ap (λ bs. take taken bytes ++ bs) same, at_end)
turns_obey (reading ∷ cs) t off =
    rw (read_byte_turns_nothing t off) (turns_obey cs (read_byte t).2 refl)
turns_obey (arriving bs ∷ cs) t off = turns_obey cs (record t { waiting = t.waiting ++ bs }) off
