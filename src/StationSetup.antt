-- ===== src/StationSetup.antt =====
-- src/nodes/substation.cpp, substationSetup, and src/lora_main.cpp, which picks what a LoRa board is.
-- What the radios report as they are started is an input. Log lines are left out.
pub mod Coherent
use io_t_firmware.Base.{
  ℕ, Bool, true, not, Option, none, some, List, [], ◌∷◌, ◌==◌, if◌then◌else◌, u32,
}
use io_t_firmware.Config.{SubstationConfig, GatewayConfig}
use io_t_firmware.NvsConfig.{Preferences}
use io_t_firmware.NvsConfig.Loaders.{Target, load_substation_config, load_gateway_config}
use io_t_firmware.NvsConfig.Console.{Console, Reply, poll_serial}
use io_t_firmware.Substation.{Substation, Tick, Sent, substation_loop}
use io_t_firmware.Gateway.{GatewayReading, Gateway, gateway_setup}
use io_t_firmware.Queue.{Queue}

-- What the module's and the link's init(), the uplink's init(), addPeer() and esp_random() give.
pub record StationReports : Type 0 where
  pub radio_ok : Bool
  pub link_ok : Bool
  pub uplink_ok : Bool
  pub peer_ok : Bool
  pub random : ℕ

-- What gatewaySetup meets behind its config.
pub record GatewayReports : Type 0 where
  pub link_ok : Bool
  pub queue_ok : Bool
  pub task_ok : Bool

-- ModuleType of lora_main.cpp
pub data LoraModuleType : Type 0 where
  substation_board : LoraModuleType
  gateway_board : LoraModuleType

-- readModuleType: the loop ends at '4' or '5'.
unfoldable pub read_lora_type : List (Option ℕ) → Option LoraModuleType
read_lora_type [] = none
read_lora_type (none ∷ bs) = read_lora_type bs
read_lora_type (some c ∷ bs) =
    let more = read_lora_type bs in
    if c == 0x34 then some substation_board else if c == 0x35 then some gateway_board else more

module _ (P : Preferences) (target : Target) where
  -- substationSetup: the config, and the station behind it.
  unfoldable pub substation_setup :
      StationReports → SubstationConfig → P.Store → Substation → SubstationConfig × Substation
  substation_setup x cfg store s =
      let (ok, c) = load_substation_config P target cfg store in
      if not ok
      then (c, s)
      else if not x.radio_ok
      then (c, s)
      else if not x.link_ok
      then (c, s)
      else if not x.uplink_ok
      then (c, s)
      else if not x.peer_ok
      then (c, s)
      else (c, record s { epoch = u32 x.random; ready = true })

  -- gatewaySetup, from the settings.
  unfoldable pub gateway_start :
      (Q : Queue GatewayReading)
      → GatewayReports
      → GatewayConfig
      → P.Store
      → GatewayConfig × Gateway Q.Handle
  gateway_start Q x cfg store =
      let (ok, c) = load_gateway_config P target cfg store in
      (c, gateway_setup Q c.mqtt.enabled ok x.link_ok x.queue_ok x.task_ok)

-- A board that plays a substation.
pub record StationBoard (P : Preferences) : Type 0 where
  pub console : Console P
  pub config : SubstationConfig
  pub station : Substation

-- loop() of lora_main.cpp on such a board: the console, and the substation's loop unless the board has
-- restarted in it.
unfoldable pub station_board_loop :
    {P : Preferences} → List ℕ → Tick → StationBoard P → List Reply × List Sent × StationBoard P
station_board_loop {P} bytes t b =
    let (replies, k) = poll_serial P bytes b.console in
    let b' : StationBoard P = record b { console = k } in
    let (sent, _, s) = substation_loop b.config.link t b.station in
    if k.gone then (replies, [], b') else (replies, sent, record b' { station = s })
