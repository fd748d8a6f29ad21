-- ===== src/Polling.antt =====
-- src/nodes/cv_node.cpp and src/nodes/ir_node.cpp: the loops of the camera node and of the optical
-- node, which read and send once in a cycle. The getters of the Reader, the radio and the clock are
-- inputs. A float is its bit pattern. Log lines are left out.
pub mod Cycles
pub mod Optical
use io_t_firmware.Base.{
  ℕ, Bool, true, false, not, Option, none, some, List, ltb, if◌then◌else◌, sub32,
}
use io_t_firmware.Wire.{Payload}
use io_t_firmware.MeterGate.{MeterGate, ready, report_read}
use io_t_firmware.SubstationLink.{Run, Try, Packet, send}
use io_t_firmware.Node.{seq_next}

-- The variables of either file, with the counter behind seqNext.
pub record Poller : Type 0 where
  pub setup_ok : Bool
  pub gate : MeterGate
  pub poll_interval_ms : ℕ
  pub last_poll : ℕ
  pub payload : Payload
  pub seq : ℕ
  pub link : Run

-- What a cycle meets: millis() and probe() in the gate, millis() behind a closed gate, at the test of
-- the interval and behind it, the getters (`none` for EXIT_FAILURE), and the radio in send.
pub record Cycle : Type 0 where
  pub gate_now : ℕ
  pub probe_ok : Bool
  pub closed_now : ℕ
  pub test_now : ℕ
  pub poll_now : ℕ
  pub import_read : Option ℕ
  pub export_read : Option ℕ
  pub waiting : List (Option Packet)
  pub tries : ℕ → Try

-- A closed gate makes the next reading due at once.
abbrev pub held_off : Cycle → Poller → Poller
held_off x n = record n { last_poll = sub32 x.closed_now n.poll_interval_ms }

abbrev pub reported : Bool → Poller → Poller
reported read_ok n = record n { gate = report_read read_ok n.gate }

-- The end of a cycle that has read its values.
unfoldable pub send_reading : Cycle → ℕ → ℕ → Poller → Poller
send_reading x import_val export_val n =
    let p = record n.payload {
      kwh_import = import_val;
      kwh_export = export_val;
      seq = seq_next n.seq;
    } in
    record n { payload = p; seq = seq_next n.seq; link = (send x.waiting x.tries p n.link).1 }

-- cvNodeLoop, behind the test of the interval; `has_export` says that an export flow is configured.
unfoldable pub cv_read : Bool → Cycle → Poller → Poller
cv_read has_export x n = elim x.import_read [
  | none ↦ reported false n
  | some i ↦
      let without = send_reading x i n.payload.kwh_export (reported true n) in
      let with_export : Poller = elim x.export_read [
        | none ↦ reported false n
        | some e ↦ send_reading x i e (reported true n)
      ] in
      if has_export then with_export else without
]

-- cvNodeLoop
unfoldable pub cv_node_loop : Bool → Cycle → Poller → Poller
cv_node_loop has_export x n =
    let g = ready x.gate_now x.probe_ok n.gate in
    let m : Poller = record n { gate = g.1 } in
    if not n.setup_ok
    then n
    else if not g.0
    then held_off x m
    else if ltb (sub32 x.test_now n.last_poll) n.poll_interval_ms
    then m
    else cv_read has_export x (record m { last_poll = x.poll_now })

-- irNodeLoop, behind the test of the interval.
unfoldable pub ir_read : Cycle → Poller → Poller
ir_read x n = elim x.import_read [
  | none ↦ reported false n
  | some i ↦
      send_reading x i (elim x.export_read [ none ↦ n.payload.kwh_export | some e ↦ e ])
        (reported true n)
]

-- irNodeLoop
unfoldable pub ir_node_loop : Cycle → Poller → Poller
ir_node_loop x n =
    let g = ready x.gate_now x.probe_ok n.gate in
    let m : Poller = record n { gate = g.1 } in
    if not n.setup_ok
    then n
    else if not g.0
    then held_off x m
    else if ltb (sub32 x.test_now n.last_poll) n.poll_interval_ms
    then m
    else ir_read x (record m { last_poll = x.poll_now })
