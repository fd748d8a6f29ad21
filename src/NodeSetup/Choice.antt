-- ===== src/NodeSetup/Choice.antt =====
-- src/nodes/rs485_node.cpp: what a setting decides about a node at its start.
use io_t_firmware.Base.{
  ℕ, ◌%◌, ◌≡◌, refl, ◌∙◌, ◌⊎◌, inl, inr, Bool, true, false, ◌&&◌, Option, none, some, List, [], ◌∷◌,
  arith, ◌==◌, if◌then◌else◌, Bool-cases, Option-cases, codes,
}
use io_t_firmware.Config.{reader_type_of, Rs485NodeConfig}
use io_t_firmware.NvsConfig.{Preferences, IsPreferences}
use io_t_firmware.NvsConfig.Console.{Console, number_from}
use io_t_firmware.NvsConfig.Loaders.{Target, load_rs485_node_config}
use io_t_firmware.NvsConfig.Loaders.Typed.{IsSetting, typed_store, typed_reader_loads}
use io_t_firmware.BringUp.{Devices, seq_counter_begin, bus_fatal, end_node_bring_up}
use io_t_firmware.Node.Sending.{node_rounds}
use io_t_firmware.Node.{Node, Round, node_loop}
use io_t_firmware.NodeSetup.{
  Wiring, sp3485_modbus, sp3485_dlms, tcp_modbus, tcp_dlms, wiring_of, is_tcp, rs485_parts,
  rs485_started, rs485_node_setup,
}

idle_round : (x : Round) (n : Node) → n.setup_ok ≡ false → node_loop x n ≡ n
unfolding node_loop
idle_round x n i = rw (i, node_loop) refl

idle_stays : (xs : List Round) (n : Node) → n.setup_ok ≡ false → node_rounds xs n ≡ n
idle_stays [] n i = refl
idle_stays (x ∷ xs) n i = rw (idle_round x n i) (idle_stays xs n i)

-- What a node builds for a value of "reader".
abbrev pub built_for : ℕ → Option Wiring
built_for n =
    if n == 0
    then some sp3485_modbus
    else if n == 3
    then some tcp_modbus
    else if n == 5
    then some sp3485_dlms
    else if n == 6
    then some tcp_dlms
    else none

wiring_of-reader_type_of : (n : ℕ) → wiring_of (reader_type_of n) ≡ built_for n
unfolding wiring_of reader_type_of
wiring_of-reader_type_of n = ground arith

-- Whether the devices of a wiring let a node start: over TCP the access point must be up and the bus
-- may be down, and otherwise the transceiver must be up.
abbrev pub comes_up : (Wiring → Devices) → Option Wiring → Bool
comes_up devices none = false
comes_up devices (some w) =
    let d = devices w in
    d.nvs_ok && (if is_tcp w then d.ap_ok else d.bus_ok) && d.reader_ok && d.radio_ok

started_ok :
    (c : Rs485NodeConfig) (w : Wiring) (d : Devices) (n : Node)
    → n.setup_ok ≡ false
    → (rs485_started (end_node_bring_up (rs485_parts c w) d n.seq n.payload) n).setup_ok
      ≡ (d.nvs_ok && (if is_tcp w then d.ap_ok else d.bus_ok) && d.reader_ok && d.radio_ok)
unfolding rs485_started end_node_bring_up seq_counter_begin bus_fatal is_tcp
started_ok c sp3485_modbus d n f = ground arith
started_ok c sp3485_dlms d n f = ground arith
started_ok c tcp_modbus d n f = ground arith
started_ok c tcp_dlms d n f = ground arith

module _ (P : Preferences) (target : Target) where
  setup_starts :
      (cfg c : Rs485NodeConfig) (devices : Wiring → Devices) (s : P.Store) (n : Node)
      → n.setup_ok ≡ false
      → load_rs485_node_config P target cfg s ≡ (true, c)
      → let (built, _, n') = rs485_node_setup P target cfg devices s n in
        (built ≡ wiring_of c.reader_type)
        × (n'.setup_ok ≡ comes_up devices (wiring_of c.reader_type))
  unfolding rs485_node_setup
  setup_starts cfg c devices s n f l = elim (Option-cases (wiring_of c.reader_type)) [
    | inl e ↦ rw (l, rs485_node_setup, e) (refl, f)
    | inr (w, e) ↦
        rw (l, rs485_node_setup, e)
          (refl, started_ok (load_rs485_node_config P target cfg s).1 w (devices w) n f)
  ]

  -- The number typed for "reader" decides what an RS485 node builds at its next start: the transceiver
  -- with Modbus for 0 and with DLMS for 5, TCP with Modbus for 3 and with DLMS for 6, and nothing for
  -- any other lowest byte. The node is set up exactly if it built something whose devices come up, and
  -- a node that is not set up stays as it is through all its rounds.
  pub typed_reader_decides :
      IsPreferences P
      → (k : Console P) (digits : List ℕ) (cfg : Rs485NodeConfig) (devices : Wiring → Devices)
        (n : Node) (xs : List Round)
      → IsSetting P k (codes "reader") digits
      → P.begin k.store ≡ true
      → n.setup_ok ≡ false
      → let (built, _, n') =
          rs485_node_setup P target cfg devices (typed_store P k (codes "reader") digits) n in
        (built ≡ built_for (number_from 0 digits % 256))
        × (n'.setup_ok ≡ comes_up devices built)
        × ((n'.setup_ok ≡ true) ⊎ (node_rounds xs n' ≡ n'))
  typed_reader_decides ip k digits cfg devices n xs i b f =
      let loads = typed_reader_loads P target ip k digits cfg i b in
      let (built, up) = setup_starts cfg _ devices _ n f loads in
      let o = rs485_node_setup P target cfg devices (typed_store P k (codes "reader") digits) n in
      (
        built ∙ wiring_of-reader_type_of (number_from 0 digits % 256),
        rw built up,
        elim (Bool-cases o.2.setup_ok) [ inl on ↦ inl on | inr off ↦ inr (idle_stays xs o.2 off) ],
      )
