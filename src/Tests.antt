-- ===== src/Tests.antt =====
-- Concrete inputs on which the children apply the development's theorems.
mod Storage
mod Radio
mod Station
mod Meters
mod Rtu
mod Protocols
mod Nodes
mod Settings
mod Simulation
use io_t_firmware.Base.{
  ℕ, zero, suc, ◌+◌, ◌-◌, ◌<◌, ◌≡◌, arith, length, replicate, length-replicate,
}
use io_t_firmware.Wire.{Uid, Payload, IsBytes, IsPayload}

-- Sixteen equal bytes.
abbrev pub uid_of : ℕ → Uid
uid_of b = replicate 16 b

abbrev pub meter_a : Uid
meter_a = uid_of 7

abbrev pub meter_b : Uid
meter_b = uid_of 9

abbrev pub reading_from : Uid → ℕ → Payload
reading_from u n = record {
  uid = u;
  seq = n;
  kwh_import = 1000 + n;
  kwh_export = 3;
  voltage = 230;
  community_id = 1;
  unit_id = 2;
  node_type = 0;
}

abbrev pub sample : Payload
sample = reading_from meter_a 41

replicate-IsBytes : (n b : ℕ) → b < 256 → IsBytes (replicate n b)
unfolding replicate
replicate-IsBytes zero b h = tt
replicate-IsBytes (suc n) b h = (h, replicate-IsBytes n b h)

pub meter_a-IsBytes : IsBytes meter_a
meter_a-IsBytes = replicate-IsBytes 16 7 (omega arith)

pub length-meter_a : length meter_a ≡ 16
length-meter_a = length-replicate 16 7

pub sample-IsPayload : IsPayload sample
sample-IsPayload = record {
  uid_size = length-meter_a;
  uid_bytes = meter_a-IsBytes;
  seq_word = omega arith;
  import_word = omega arith;
  export_word = omega arith;
  voltage_word = omega arith;
  community_byte = omega arith;
  unit_byte = omega arith;
  type_byte = omega arith;
}
