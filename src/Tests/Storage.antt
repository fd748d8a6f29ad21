-- ===== src/Tests/Storage.antt =====
-- The theorems on reading_buffer.cpp at a buffer that holds readings of two meters.
use io_t_firmware.Base.{
  ◌<◌, ◌≡◌, refl, ◌⊎◌, true, false, some, List, [], ◌∷◌, arith, if◌then◌else◌, replicate,
}
use io_t_firmware.Wire.{uid_equals}
use io_t_firmware.Buffer.{
  Buffer, clear, push, peek, pop, reading_of, slot_at, max_nodes, next_filled, find_or_claim_slot,
  scan_slots, zero_slot, push_at, push_slot, store, claimed,
}
use io_t_firmware.Buffer.Ring.{enqueue}
use io_t_firmware.Buffer.Invariant.{IsValid}
use io_t_firmware.Buffer.Preserve.{clear-IsValid, push-IsValid, peek-IsValid}
use io_t_firmware.Wire.{Payload}
use io_t_firmware.Buffer.Refine.{queue, push_refines}
use io_t_firmware.Buffer.Rotation.{peek-pop_refines, rotation_is_fair, filled, ahead}
use io_t_firmware.Buffer.Holding.{push_all, pop_takes_peeked}
use io_t_firmware.Tests.{sample, reading_from, meter_a, meter_b}

-- One reading of the first meter, then two.
abbrev held : Buffer
held = (push sample clear).1

held-IsValid : IsValid held
held-IsValid = push-IsValid sample clear clear-IsValid

abbrev peeked : Buffer
peeked = (peek sample held).2

peeked-IsValid : IsValid peeked
peeked-IsValid = peek-IsValid sample held held-IsValid

push_refines_example :
    let (stored, b') = push (reading_from meter_a 42) held in
    (stored ≡ true
      → queue b' meter_a ≡ (
          if uid_equals meter_a meter_a
          then enqueue (queue held meter_a) (reading_of (reading_from meter_a 42))
          else queue held meter_a))
    × (stored ≡ false → b' ≡ held)
push_refines_example = push_refines (reading_from meter_a 42) held meter_a held-IsValid

held_found : (peek sample held).0 ≡ true
unfolding push peek clear replicate next_filled find_or_claim_slot scan_slots zero_slot push_at
    push_slot store claimed
held_found = refl

peek-pop_refines_example :
    let (found, p, b') = peek sample held in
    (queue b' meter_a ≡ queue held meter_a)
    × (queue held p.uid ≡ reading_of p ∷ queue (pop b') p.uid)
    × (uid_equals p.uid meter_a ≡ false → queue (pop b') meter_a ≡ queue held meter_a)
peek-pop_refines_example = peek-pop_refines sample held meter_a held-IsValid held_found

held_filled : filled (slot_at held.slots 0) ≡ true
unfolding push clear replicate find_or_claim_slot scan_slots zero_slot push_at push_slot store
    claimed
held_filled = refl

rotation_is_fair_example :
    let (found, p, b') = peek sample held in
    (found ≡ true)
    × (ahead held 0 < max_nodes)
    × ((b'.peeked_slot ≡ some 0) ⊎ (ahead (pop b') 0 < ahead held 0))
rotation_is_fair_example = rotation_is_fair sample held 0 held-IsValid (omega arith) held_filled

-- Two readings come in behind the peek, one of them of the peeked node.
abbrev between : List Payload
between = reading_from meter_a 2 ∷ reading_from meter_b 3 ∷ []

pop_takes_peeked_example :
    let p = (peek sample held).1 in
    let b' = push_all between (peek sample held).2 in
    (queue (pop b') meter_a ≡ queue b' meter_a)
    ⊎ ((meter_a ≡ p.uid) × (queue b' meter_a ≡ reading_of p ∷ queue (pop b') meter_a))
pop_takes_peeked_example = pop_takes_peeked sample held between meter_a held-IsValid
