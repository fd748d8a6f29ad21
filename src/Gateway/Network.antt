-- ===== src/Gateway/Network.antt =====
-- src/nodes/gateway.cpp, setup_wifi and reconnect_mqtt: the two loops that wait for the network. What
-- WiFi.status() says, and what the MQTT client reports, are inputs, one for each round; a list that ends
-- before the loop gives `none`. The random client id is left out.
pub mod Ends
use mathlib.Core.Option
use io_t_firmware.Base.{
  ℕ, ◌+◌, Bool, true, false, Option, none, some, List, [], ◌∷◌, map, ltb, if◌then◌else◌,
}

-- The loop of setup_wifi: whether the network was joined, and the delays of 500 ms that it took.
unfoldable pub wifi_loop : ℕ → List Bool → Option (Bool × ℕ)
wifi_loop counter [] = none
wifi_loop counter (connected ∷ rest) =
    let on = wifi_loop (counter + 1) rest in
    if connected
    then some (true, counter)
    else if ltb 20 (counter + 1)
    then some (false, counter + 1)
    else on

-- setup_wifi
abbrev pub setup_wifi : List Bool → Option (Bool × ℕ)
setup_wifi statuses = wifi_loop 0 statuses

-- What connected() says, and what connect() gives where it is called.
pub record Broker : Type 0 where
  pub connected : Bool
  pub connects : Bool

-- reconnect_mqtt: the delays of 5 s behind the attempts that failed.
unfoldable pub reconnect_mqtt : List Broker → Option ℕ
reconnect_mqtt [] = none
reconnect_mqtt (x ∷ rest) =
    let on = reconnect_mqtt rest in
    if x.connected then some 0 else (if x.connects then on else Option.map (λ n. n + 1) on)
