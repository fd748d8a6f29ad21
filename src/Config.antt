-- ===== src/Config.antt =====
-- lib/config/node_config: the settings of each node, as its loader fills them. The structs of the
-- readers and of the LoRa link are those of their modules, with what the readers do not look at
-- beside them. A char array is the list of its bytes, the 0 and what is behind it included.
use io_t_firmware.Base.{ℕ, Bool, List, ◌==◌, if◌then◌else◌}
use io_t_firmware.Wire.{Uid}
use io_t_firmware.Modbus.{ModbusRtuConfig}
use io_t_firmware.Dlms.Session.{DlmsCosemConfig}
use io_t_firmware.CamHttp.{CamHttpConfig}
use io_t_firmware.LoraLink.{LoRaLinkConfig}

pub record SoftApConfig : Type 0 where
  pub ssid : List ℕ
  pub password : List ℕ
  pub dhcp_start : ℕ

pub record EspNowConfig : Type 0 where
  pub channel : ℕ
  pub send_timeout_ms : ℕ

pub record LoRaPins : Type 0 where
  pub sck : ℕ
  pub miso : ℕ
  pub mosi : ℕ
  pub ss : ℕ
  pub rst : ℕ
  pub dio0 : ℕ

pub record LoRaConfig : Type 0 where
  pub band : ℕ
  pub spreading_factor : ℕ
  pub bandwidth : ℕ
  pub sync_word : ℕ
  pub tx_power : ℕ
  pub pins : LoRaPins

-- ReaderType; `other_type` is any value that the enum does not name.
pub data ReaderType : Type 0 where
  modbus_rtu : ReaderType
  iec62056 : ReaderType
  iems : ReaderType
  modbus_tcp : ReaderType
  cam_http : ReaderType
  dlms_cosem : ReaderType
  dlms_tcp : ReaderType
  other_type : ReaderType

unfoldable pub reader_type_of : ℕ → ReaderType
reader_type_of n =
    if n == 0
    then modbus_rtu
    else if n == 1
    then iec62056
    else if n == 2
    then iems
    else if n == 3
    then modbus_tcp
    else if n == 4
    then cam_http
    else if n == 5
    then dlms_cosem
    else if n == 6
    then dlms_tcp
    else other_type

-- IrHeadMode
pub data IrHeadMode : Type 0 where
  real_head : IrHeadMode
  simulated_head : IrHeadMode
  tcp_sim : IrHeadMode
  other_mode : IrHeadMode

unfoldable pub head_mode_of : ℕ → IrHeadMode
head_mode_of n =
    if n == 0
    then real_head
    else if n == 1
    then simulated_head
    else if n == 2
    then tcp_sim
    else other_mode

pub record Rs485Config : Type 0 where
  pub rx : ℕ
  pub tx : ℕ
  pub dere : ℕ
  pub baud_rate : ℕ
  pub format : ℕ

pub record TcpBusConfig : Type 0 where
  pub host : List ℕ
  pub port : ℕ
  pub connect_timeout_ms : ℕ

pub record Rs485NodeConfig : Type 0 where
  pub uid : Uid
  pub community_id : ℕ
  pub unit_id : ℕ
  pub reader_type : ReaderType
  pub ap : SoftApConfig
  pub esp_now : EspNowConfig
  pub meter_model : ℕ
  pub poll_interval_ms : ℕ
  pub bus : Rs485Config
  pub modbus : ModbusRtuConfig
  pub tcp : TcpBusConfig
  pub dlms : DlmsCosemConfig

pub record IrConfig : Type 0 where
  pub rx : ℕ
  pub tx : ℕ
  pub baud_rate : ℕ
  pub format : ℕ
  pub tx_invert : Bool
  pub rx_invert : Bool

-- `poll_interval_ms` and `bus` are `iec` of the source.
pub record IrNodeConfig : Type 0 where
  pub uid : Uid
  pub community_id : ℕ
  pub unit_id : ℕ
  pub head_mode : IrHeadMode
  pub ap : SoftApConfig
  pub esp_now : EspNowConfig
  pub poll_interval_ms : ℕ
  pub bus : IrConfig
  pub tcp : TcpBusConfig

pub record HttpBusConfig : Type 0 where
  pub request_timeout_ms : ℕ
  pub http_user : List ℕ
  pub http_pass : List ℕ

pub record CvNodeConfig : Type 0 where
  pub uid : Uid
  pub community_id : ℕ
  pub unit_id : ℕ
  pub ap : SoftApConfig
  pub esp_now : EspNowConfig
  pub poll_interval_ms : ℕ
  pub bus : HttpBusConfig
  pub cam : CamHttpConfig

pub record SubstationConfig : Type 0 where
  pub lora : LoRaConfig
  pub link : LoRaLinkConfig
  pub esp_now_channel : ℕ
  pub esp_now_timeout_ms : ℕ

pub record WifiStationConfig : Type 0 where
  pub ssid : List ℕ
  pub password : List ℕ

pub record MqttConfig : Type 0 where
  pub enabled : Bool
  pub server : List ℕ
  pub port : ℕ
  pub topic : List ℕ
  pub username : List ℕ
  pub password : List ℕ

pub record GatewayConfig : Type 0 where
  pub lora : LoRaConfig
  pub link : LoRaLinkConfig
  pub wifi : WifiStationConfig
  pub mqtt : MqttConfig
