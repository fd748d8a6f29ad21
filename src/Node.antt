-- ===== src/Node.antt =====
-- src/nodes/rs485_node.cpp, the loop of a node that reads a meter over RS485, with seqNext of
-- lib/buffering/seq_counter/seq_counter.cpp. The getters of the Reader, the radio and the clock are
-- inputs: a round says what the calls made in it return. A float is its bit pattern.
pub mod Sending
use io_t_firmware.Base.{
  ℕ, ◌+◌, ◌*◌, Bool, true, false, not, Option, none, some, List, leb, if◌then◌else◌, u32, sub32,
}
use io_t_firmware.Wire.{Payload}
use io_t_firmware.MeterGate.{MeterGate, ready, report_read}
use io_t_firmware.SubstationLink.{Run, Try, Packet, send}

-- States, without the unused REQUEST
pub data States : Type 0 where
  reading sleeping sending : States

abbrev pub poll_interval_ms : ℕ
poll_interval_ms = 60 * 1000

pub record Node : Type 0 where
  pub setup_ok : Bool
  pub gate : MeterGate
  pub state : States
  pub last_poll : ℕ
  pub payload : Payload
  pub seq : ℕ
  pub link : Run

-- What a round meets: millis() and probe() in the gate, the getters (`none` for EXIT_FAILURE), the
-- radio in send, and millis() behind a send or in the wait.
pub record Round : Type 0 where
  pub gate_now : ℕ
  pub probe_ok : Bool
  pub import_read : Option ℕ
  pub export_read : Option ℕ
  pub voltage_read : Option ℕ
  pub waiting : List (Option Packet)
  pub tries : ℕ → Try
  pub now : ℕ

-- seqNext
unfoldable pub seq_next : ℕ → ℕ
seq_next seq = u32 (seq + 1)

abbrev pub read_failed : Node → Node
read_failed n = record n { gate = report_read false n.gate }

-- The step READ: each getter's value is stored before the next is called.
unfoldable pub read_step : Round → Node → Node
read_step x n = elim x.import_read [
  | none ↦ read_failed n
  | some i ↦
      let n1 : Node = record n { payload = record n.payload { kwh_import = i } } in
      elim x.export_read [
        | none ↦ read_failed n1
        | some e ↦
            let n2 : Node = record n1 { payload = record n1.payload { kwh_export = e } } in
            elim x.voltage_read [
              | none ↦ read_failed n2
              | some v ↦ record n2 {
                payload = record n2.payload { voltage = v };
                gate = report_read true n2.gate;
                state = sending;
              }
            ]
      ]
]

-- The step SEND: whether the send succeeds or not, the node sleeps next.
unfoldable pub send_step : Round → Node → Node
send_step x n =
    let p = record n.payload { seq = seq_next n.seq } in
    record n {
      payload = p;
      seq = seq_next n.seq;
      link = (send x.waiting x.tries p n.link).1;
      last_poll = x.now;
      state = sleeping;
    }

-- The step SLEEP
unfoldable pub sleep_step : Round → Node → Node
sleep_step x n =
    if leb poll_interval_ms (sub32 x.now n.last_poll) then record n { state = reading } else n

-- rs485NodeLoop
unfoldable pub node_loop : Round → Node → Node
node_loop x n =
    let g = ready x.gate_now x.probe_ok n.gate in
    let m : Node = record n { gate = g.1 } in
    if not n.setup_ok then n else if not g.0 then m else elim n.state [
      | reading ↦ read_step x m
      | sending ↦ send_step x m
      | sleeping ↦ sleep_step x m
    ]
