-- ===== src/NvsConfig/Loaders.antt =====
-- lib/config/nvs_config, the loaders: what each node runs with, from the settings in flash, the
-- firmware's defaults and the board's wiring. Each gives whether it loaded, and the node's config
-- behind it. lib/config/secrets holds the defaults that are texts.
pub mod Typed
use io_t_firmware.Base.{
  ℕ, ◌-◌, ◌/◌, Bool, true, false, not, List, [], ◌∷◌, ◌==◌, if◌then◌else◌, codes, replicate, u8,
  u16,
}
use io_t_firmware.Wire.{Uid}
use io_t_firmware.Config.{
  LoRaPins, LoRaConfig, reader_type_of, head_mode_of, Rs485NodeConfig, IrNodeConfig, CvNodeConfig,
  SubstationConfig, GatewayConfig,
}
use io_t_firmware.LoraLink.{LoRaLinkConfig}
use io_t_firmware.Modbus.{ieee_754_float}
use io_t_firmware.NvsConfig.{Preferences, open_config_nvs, read_u32, read_str, c_string}

-- What the build fixes: whether the target is the chip of the smaller boards, whose eFuses alone are
-- read for the UID, that UID, and the values of SERIAL_8N1 and SERIAL_7E1 in the Arduino core.
pub record Target : Type 0 where
  pub is_c3 : Bool
  pub efuse_uid : Uid
  pub serial_8n1 : ℕ
  pub serial_7e1 : ℕ

abbrev pub uid_of : Target → Uid
uid_of t = if t.is_c3 then t.efuse_uid else replicate 16 0

-- LORA_PINS
abbrev pub lora_pins : Target → LoRaPins
lora_pins t =
    if t.is_c3
    then record { sck = 8; miso = 9; mosi = 10; ss = 6; rst = 4; dio0 = 3 }
    else record { sck = 5; miso = 19; mosi = 27; ss = 18; rst = 23; dio0 = 26 }

pub record MeterModelEntry : Type 0 where
  pub model : ℕ
  pub voltage : ℕ
  pub import_energy : ℕ
  pub export_energy : ℕ

-- The first row of METER_MODELS, MeterModel::Simulated_Serial, and the rows behind it.
abbrev pub first_model : MeterModelEntry
first_model = record { model = 0; voltage = 0; import_energy = 4; export_energy = 2 }

abbrev pub meter_models : List MeterModelEntry
meter_models =
    first_model ∷ record { model = 1; voltage = 0; import_energy = 4; export_energy = 2 } ∷ []

-- lookupMeterModel: the loop over the rows, with what it gives behind them.
unfoldable pub find_model : ℕ → List MeterModelEntry → MeterModelEntry
find_model model [] = first_model
find_model model (e ∷ es) = let rest = find_model model es in if e.model == model then e else rest

abbrev pub lookup_meter_model : ℕ → MeterModelEntry
lookup_meter_model model = find_model model meter_models

-- DLMS_IMPORT_OBIS, DLMS_EXPORT_OBIS and DLMS_VOLTAGE_OBIS
abbrev pub dlms_import_obis : List ℕ
dlms_import_obis = 1 ∷ 0 ∷ 1 ∷ 8 ∷ 0 ∷ 255 ∷ []

abbrev pub dlms_export_obis : List ℕ
dlms_export_obis = 1 ∷ 0 ∷ 2 ∷ 8 ∷ 0 ∷ 255 ∷ []

abbrev pub dlms_voltage_obis : List ℕ
dlms_voltage_obis = 1 ∷ 0 ∷ 32 ∷ 7 ∷ 0 ∷ 255 ∷ []

module _ (P : Preferences) (target : Target) where
  -- loadLoRaConfig
  unfoldable pub load_lora_config : P.Store → LoRaConfig
  load_lora_config s = record {
    band = read_u32 P (codes "lora_band") 433000000 s;
    spreading_factor = u8 (read_u32 P (codes "lora_sf") 10 s);
    bandwidth = read_u32 P (codes "lora_bw") 125000 s;
    sync_word = u8 (read_u32 P (codes "lora_sync") 0xF3 s);
    tx_power = u8 (read_u32 P (codes "lora_txpwr") 14 s);
    pins = lora_pins target;
  }

  -- loadLoRaLinkConfig
  unfoldable pub load_lora_link_config : P.Store → LoRaLinkConfig
  load_lora_link_config s = record {
    max_retries = u8 (read_u32 P (codes "lora_retries") 3 s);
    ack_timeout_ms = read_u32 P (codes "lora_ack_ms") 1500 s;
  }

  -- What loadRs485NodeConfig fills in, behind openConfigNvs().
  unfoldable pub rs485_settings : P.Store → Rs485NodeConfig
  rs485_settings s =
      let model = u8 (read_u32 P (codes "meter_model") 1 s) in
      let entry = lookup_meter_model model in
      record {
        uid = uid_of target;
        community_id = u8 (read_u32 P (codes "comm_id") 0 s);
        unit_id = u8 (read_u32 P (codes "unit_id") 0 s);
        reader_type = reader_type_of (u8 (read_u32 P (codes "reader") 0 s));
        ap = record {
          ssid = read_str P (codes "ap_ssid") (codes "kaizen-rs485") 33 s;
          password = read_str P (codes "ap_pass") (codes "kaizen123") 65 s;
          dhcp_start = 0;
        };
        esp_now = record {
          channel = u8 (read_u32 P (codes "espnow_chan") 6 s);
          send_timeout_ms = read_u32 P (codes "espnow_to_ms") 100 s;
        };
        meter_model = model;
        poll_interval_ms = read_u32 P (codes "poll_ms") 1000 s;
        bus = record {
          rx = 1;
          tx = 9;
          dere = 10;
          baud_rate = read_u32 P (codes "baud") 9600 s;
          format = target.serial_8n1;
        };
        modbus = record {
          slave_address = u8 (read_u32 P (codes "slave_addr") 1 s);
          function_code = 0x03;
          import_address = entry.import_energy;
          export_address = entry.export_energy;
          voltage_address = entry.voltage;
          register_format = ieee_754_float;
        };
        tcp = record {
          host = read_str P (codes "tcp_host") (codes "192.168.4.2") 64 s;
          port = u16 (read_u32 P (codes "tcp_port") 5020 s);
          connect_timeout_ms = 3000;
        };
        dlms = record {
          client_sap = u8 (read_u32 P (codes "dlms_client") 16 s);
          server_logical = u16 (read_u32 P (codes "dlms_logical") 1 s);
          server_physical = u16 (read_u32 P (codes "dlms_physical") 0 s);
          server_addr_len = u8 (read_u32 P (codes "dlms_addr_len") 1 s);
          import_obis = dlms_import_obis;
          export_obis = dlms_export_obis;
          voltage_obis = dlms_voltage_obis;
        };
      }

  -- A loader fails where the namespace does not open, and then leaves the config as it was.
  abbrev loaded : {A : Type 0} → (P.Store → A) → A → P.Store → Bool × A
  loaded settings cfg s = if not (open_config_nvs P s) then (false, cfg) else (true, settings s)

  -- loadRs485NodeConfig
  unfoldable pub load_rs485_node_config : Rs485NodeConfig → P.Store → Bool × Rs485NodeConfig
  load_rs485_node_config cfg s = loaded rs485_settings cfg s

  unfoldable pub ir_settings : P.Store → IrNodeConfig
  ir_settings s = record {
    uid = uid_of target;
    community_id = u8 (read_u32 P (codes "comm_id") 0 s);
    unit_id = u8 (read_u32 P (codes "unit_id") 0 s);
    head_mode = head_mode_of (u8 (read_u32 P (codes "simulate") 1 s));
    ap = record {
      ssid = read_str P (codes "ap_ssid") (codes "kaizen-rs485") 33 s;
      password = read_str P (codes "ap_pass") (codes "kaizen123") 65 s;
      dhcp_start = 0;
    };
    esp_now = record {
      channel = u8 (read_u32 P (codes "espnow_chan") 6 s);
      send_timeout_ms = read_u32 P (codes "espnow_to_ms") 100 s;
    };
    poll_interval_ms = read_u32 P (codes "poll_ms") 60000 s;
    bus = record {
      rx = 20;
      tx = 21;
      baud_rate = 300;
      format = target.serial_7e1;
      tx_invert = not (read_u32 P (codes "ir_tx_inv") 0 s == 0);
      rx_invert = not (read_u32 P (codes "ir_rx_inv") 0 s == 0);
    };
    tcp = record {
      host = read_str P (codes "tcp_host") (codes "192.168.4.2") 64 s;
      port = u16 (read_u32 P (codes "tcp_port") 5021 s);
      connect_timeout_ms = 3000;
    };
  }

  -- loadIrNodeConfig
  unfoldable pub load_ir_node_config : IrNodeConfig → P.Store → Bool × IrNodeConfig
  load_ir_node_config cfg s = loaded ir_settings cfg s

  -- The reader takes its names as C strings.
  unfoldable pub cv_settings : P.Store → CvNodeConfig
  cv_settings s = record {
    uid = uid_of target;
    community_id = u8 (read_u32 P (codes "comm_id") 0 s);
    unit_id = u8 (read_u32 P (codes "unit_id") 0 s);
    ap = record {
      ssid = read_str P (codes "ap_ssid") (codes "AMR_Base") 33 s;
      password = read_str P (codes "ap_pass") (codes "AMR12345") 65 s;
      dhcp_start = 100;
    };
    esp_now = record {
      channel = u8 (read_u32 P (codes "espnow_chan") 1 s);
      send_timeout_ms = read_u32 P (codes "espnow_to_ms") 200 s;
    };
    poll_interval_ms = read_u32 P (codes "poll_ms") 30000 s;
    bus = record {
      request_timeout_ms = 5000;
      http_user = read_str P (codes "cam_user") [] 32 s;
      http_pass = read_str P (codes "cam_pass") [] 64 s;
    };
    cam = record {
      host = c_string (read_str P (codes "cam_host") (codes "192.168.4.2") 64 s);
      path = codes "/json";
      flow_name = c_string (read_str P (codes "cam_flow") (codes "main") 32 s);
      export_flow_name = c_string (read_str P (codes "cam_flow_exp") [] 32 s);
    };
  }

  -- loadCvNodeConfig
  unfoldable pub load_cv_node_config : CvNodeConfig → P.Store → Bool × CvNodeConfig
  load_cv_node_config cfg s = loaded cv_settings cfg s

  unfoldable pub substation_settings : P.Store → SubstationConfig
  substation_settings s = record {
    lora = load_lora_config s;
    link = load_lora_link_config s;
    esp_now_channel = u8 (read_u32 P (codes "espnow_chan") 6 s);
    esp_now_timeout_ms = read_u32 P (codes "espnow_to_ms") 100 s;
  }

  -- loadSubstationConfig
  unfoldable pub load_substation_config : SubstationConfig → P.Store → Bool × SubstationConfig
  load_substation_config cfg s = loaded substation_settings cfg s

  unfoldable pub gateway_settings : P.Store → GatewayConfig
  gateway_settings s = record {
    lora = load_lora_config s;
    link = load_lora_link_config s;
    wifi = record {
      ssid = read_str P (codes "wifi_ssid") (codes "Seiji") 33 s;
      password = read_str P (codes "wifi_pass") (codes "123456777") 65 s;
    };
    mqtt = record {
      enabled = not (read_u32 P (codes "mqtt_on") 1 s == 0);
      server = read_str P (codes "mqtt_host") (codes "broker.hivemq.com") 64 s;
      port = u16 (read_u32 P (codes "mqtt_port") 8883 s);
      topic = read_str P (codes "mqtt_topic") (codes "qut_ems_project_888/ems/ZoneA/meters") 64 s;
      username = read_str P (codes "mqtt_user") [] 32 s;
      password = read_str P (codes "mqtt_pass") [] 64 s;
    };
  }

  -- loadGatewayConfig
  unfoldable pub load_gateway_config : GatewayConfig → P.Store → Bool × GatewayConfig
  load_gateway_config cfg s = loaded gateway_settings cfg s
