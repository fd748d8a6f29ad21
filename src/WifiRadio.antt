-- ===== src/WifiRadio.antt =====
-- lib/links/wifi_radio/wifi_radio.h and wifi_radio.cpp: who owns the radio, and on which channel. What
-- the calls of the Wi-Fi library report is an input. The address pool and log lines are left out.
pub mod Channel
use io_t_firmware.Base.{ℕ, Bool, true, false, not, ◌||◌, List, [], ◌∷◌, ◌==◌, if◌then◌else◌}

-- The file's variables.
pub record WifiRadio : Type 0 where
  pub ap_up : Bool
  pub station_up : Bool
  pub radio_channel : ℕ

-- channelAvailable
abbrev pub channel_available : ℕ → WifiRadio → Bool
channel_available channel r = r.radio_channel == 0 || r.radio_channel == channel

-- wifiRadioStartAp, with the result of WiFi.softAP.
unfoldable pub wifi_radio_start_ap : Bool → ℕ → WifiRadio → Bool × WifiRadio
wifi_radio_start_ap started channel r =
    if not (channel_available channel r)
    then (false, r)
    else if started
    then (true, record r { ap_up = true; radio_channel = channel })
    else (false, record r { ap_up = false })

-- wifiRadioStartStation, with whether the channel could be set.
unfoldable pub wifi_radio_start_station : Bool → ℕ → WifiRadio → Bool × WifiRadio
wifi_radio_start_station set_ok channel r =
    if not (channel_available channel r)
    then (false, r)
    else if r.station_up
    then (true, r)
    else if set_ok
    then (true, record r { station_up = true; radio_channel = channel })
    else (false, record r { station_up = false })

-- A start that some part of the firmware asks for.
pub data Request : Type 0 where
  start_ap : Bool → ℕ → Request
  start_station : Bool → ℕ → Request

abbrev pub wanted : Request → ℕ
wanted (start_ap ok channel) = channel
wanted (start_station ok channel) = channel

unfoldable pub serve : Request → WifiRadio → Bool × WifiRadio
serve (start_ap ok channel) r = wifi_radio_start_ap ok channel r
serve (start_station ok channel) r = wifi_radio_start_station ok channel r

unfoldable pub serve_all : List Request → WifiRadio → WifiRadio
serve_all [] r = r
serve_all (q ∷ qs) r = serve_all qs (serve q r).1
