-- ===== src/NodeSetup.antt =====
-- src/nodes: the set-ups of the meter nodes, from the settings in flash to a node that may loop, and
-- src/end_node_main.cpp, which picks one of them. What the devices report depends on what was built,
-- so it is a function of the choice. Log lines are left out.
pub mod Choice
use io_t_firmware.Base.{
  ℕ, Bool, true, false, not, Option, none, some, List, [], ◌∷◌, ◌==◌, if◌then◌else◌,
}
use io_t_firmware.Config.{
  ReaderType, modbus_rtu, iec62056, iems, modbus_tcp, cam_http, dlms_cosem, dlms_tcp, other_type,
  IrHeadMode, real_head, simulated_head, tcp_sim, other_mode, Rs485NodeConfig, IrNodeConfig,
  CvNodeConfig,
}
use io_t_firmware.NvsConfig.{Preferences}
use io_t_firmware.NvsConfig.Loaders.{
  Target, load_rs485_node_config, load_ir_node_config, load_cv_node_config,
}
use io_t_firmware.NvsConfig.Console.{Console, Reply, poll_serial}
use io_t_firmware.MeterGate.{new_gate}
use io_t_firmware.Wire.{rs485, ir, cv}
use io_t_firmware.BringUp.{
  BusPolicy, required, tolerated, EndNodeParts, Devices, Start, Started, end_node_bring_up,
}
use io_t_firmware.SubstationLink.{Run, SubstationLink}
use io_t_firmware.Node.{Node, Round, reading, node_loop}
use io_t_firmware.Polling.{Poller, Cycle, ir_node_loop, cv_node_loop}

-- The bus and the reader that rs485NodeSetup builds.
pub data Wiring : Type 0 where
  sp3485_modbus : Wiring
  sp3485_dlms : Wiring
  tcp_modbus : Wiring
  tcp_dlms : Wiring

-- The switch of rs485NodeSetup: `none` where it leaves the node idle.
unfoldable pub wiring_of : ReaderType → Option Wiring
wiring_of modbus_rtu = some sp3485_modbus
wiring_of dlms_cosem = some sp3485_dlms
wiring_of modbus_tcp = some tcp_modbus
wiring_of dlms_tcp = some tcp_dlms
wiring_of iems = none
wiring_of iec62056 = none
wiring_of cam_http = none
wiring_of other_type = none

-- Over TCP the node hosts an access point and tolerates a bus that is not up.
unfoldable pub is_tcp : Wiring → Bool
is_tcp sp3485_modbus = false
is_tcp sp3485_dlms = false
is_tcp tcp_modbus = true
is_tcp tcp_dlms = true

abbrev pub policy_of : Bool → BusPolicy
policy_of over_tcp = if over_tcp then tolerated else required

abbrev pub probe_retry_ms : ℕ
probe_retry_ms = 5000

abbrev pub reads_before_lost : ℕ
reads_before_lost = 3

-- The link of a node that has started, before its loop has sent anything.
abbrev pub first_run : SubstationLink → Run
first_run l = record { link = l; calls = [] }

abbrev pub rs485_parts : Rs485NodeConfig → Wiring → EndNodeParts
rs485_parts c w = record {
  node_type = rs485;
  uid = c.uid;
  community_id = c.community_id;
  unit_id = c.unit_id;
  has_ap = is_tcp w;
  bus_policy = policy_of (is_tcp w);
}

-- The end of rs485NodeSetup.
unfoldable pub rs485_started : Started → Node → Node
rs485_started s n = elim s.link [
  | none ↦ record n { seq = s.seq }
  | some l ↦ if not s.success then record n { seq = s.seq } else record {
    setup_ok = true;
    gate = new_gate probe_retry_ms reads_before_lost;
    state = reading;
    last_poll = n.last_poll;
    payload = s.payload;
    seq = s.seq;
    link = first_run l;
  }
]

-- irNodeSetup and cvNodeSetup end alike.
unfoldable pub poller_started : ℕ → Started → Poller → Poller
poller_started poll_interval_ms s n = elim s.link [
  | none ↦ record n { seq = s.seq }
  | some l ↦ if not s.success then record n { seq = s.seq } else record {
    setup_ok = true;
    gate = new_gate probe_retry_ms reads_before_lost;
    poll_interval_ms = poll_interval_ms;
    last_poll = n.last_poll;
    payload = s.payload;
    seq = s.seq;
    link = first_run l;
  }
]

-- The head that irNodeSetup builds, `simulated_head` for a mode that is not named.
unfoldable pub head_of : IrHeadMode → IrHeadMode
head_of real_head = real_head
head_of tcp_sim = tcp_sim
head_of simulated_head = simulated_head
head_of other_mode = simulated_head

abbrev pub is_tcp_head : IrHeadMode → Bool
is_tcp_head tcp_sim = true
is_tcp_head _ = false

abbrev pub ir_parts : IrNodeConfig → EndNodeParts
ir_parts c = record {
  node_type = ir;
  uid = c.uid;
  community_id = c.community_id;
  unit_id = c.unit_id;
  has_ap = is_tcp_head (head_of c.head_mode);
  bus_policy = policy_of (is_tcp_head (head_of c.head_mode));
}

abbrev pub cv_parts : CvNodeConfig → EndNodeParts
cv_parts c = record {
  node_type = cv;
  uid = c.uid;
  community_id = c.community_id;
  unit_id = c.unit_id;
  has_ap = true;
  bus_policy = required;
}

module _ (P : Preferences) (target : Target) where
  -- rs485NodeSetup: what it built, the steps it took, and the node.
  unfoldable pub rs485_node_setup :
      Rs485NodeConfig → (Wiring → Devices) → P.Store → Node → Option Wiring × List Start × Node
  rs485_node_setup cfg devices s n =
      let (ok, c) = load_rs485_node_config P target cfg s in
      if not ok then (none, [], n) else elim (wiring_of c.reader_type) [
        | none ↦ (none, [], n)
        | some w ↦
            let st = end_node_bring_up (rs485_parts c w) (devices w) n.seq n.payload in
            (some w, st.steps, rs485_started st n)
      ]

  -- irNodeSetup
  unfoldable pub ir_node_setup :
      IrNodeConfig → (IrHeadMode → Devices) → P.Store → Poller → List Start × Poller
  ir_node_setup cfg devices s n =
      let (ok, c) = load_ir_node_config P target cfg s in
      let st = end_node_bring_up (ir_parts c) (devices (head_of c.head_mode)) n.seq n.payload in
      if not ok then ([], n) else (st.steps, poller_started c.poll_interval_ms st n)

  -- cvNodeSetup
  unfoldable pub cv_node_setup : CvNodeConfig → Devices → P.Store → Poller → List Start × Poller
  cv_node_setup cfg devices s n =
      let (ok, c) = load_cv_node_config P target cfg s in
      let st = end_node_bring_up (cv_parts c) devices n.seq n.payload in
      if not ok then ([], n) else (st.steps, poller_started c.poll_interval_ms st n)

-- ModuleType of end_node_main.cpp
pub data ModuleType : Type 0 where
  unknown : ModuleType
  rs485_node : ModuleType
  ir_node : ModuleType
  cv_node : ModuleType

-- readModuleType: each round of its loop finds a byte or none, and it ends at '1', '2' or '3'. A list
-- that ends without is a board that still waits.
unfoldable pub read_module_type : List (Option ℕ) → Option ModuleType
read_module_type [] = none
read_module_type (none ∷ bs) = read_module_type bs
read_module_type (some c ∷ bs) =
    let more = read_module_type bs in
    if c == 0x31
    then some rs485_node
    else if c == 0x32
    then some ir_node
    else if c == 0x33
    then some cv_node
    else more

-- What a board holds: its role, its console, and the variables of each node's file.
pub record Board (P : Preferences) : Type 0 where
  pub module_type : ModuleType
  pub console : Console P
  pub rs485_vars : Node
  pub ir_vars : Poller
  pub cv_vars : Poller

-- What one call of loop() meets: the bytes at the serial port, and what each node's round would meet.
pub record BoardRound : Type 0 where
  pub serial : List ℕ
  pub rs485_round : Round
  pub cycle : Cycle
  pub has_export : Bool

-- The switch of loop(); the reminder of an idle board is left out.
unfoldable pub run_node : {P : Preferences} → ModuleType → BoardRound → Board P → Board P
run_node unknown x b = b
run_node rs485_node x b = record b { rs485_vars = node_loop x.rs485_round b.rs485_vars }
run_node ir_node x b = record b { ir_vars = ir_node_loop x.cycle b.ir_vars }
run_node cv_node x b = record b { cv_vars = cv_node_loop x.has_export x.cycle b.cv_vars }

-- loop() of end_node_main.cpp; a board that restarts in the console does not come to the node.
unfoldable pub board_loop : {P : Preferences} → BoardRound → Board P → List Reply × Board P
board_loop {P} x b =
    let (replies, k) = poll_serial P x.serial b.console in
    let b' : Board P = record b { console = k } in
    if k.gone then (replies, b') else (replies, run_node b.module_type x b')
