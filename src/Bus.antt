-- ===== src/Bus.antt =====
-- lib/buses/bus_checks/bus_checks.h and bus_checks.cpp, and lib/buses/sp3485: the checks of a bus at
-- start-up, and the RS485 transceiver. Levels of pins are Booleans, true for HIGH. What a pin or the
-- UART gives is an input, and what is asked of them is a list of commands. Log lines and delays are
-- left out.
pub mod Http
pub mod Tcp
pub mod Module
pub mod Transceiver
pub mod Head
pub mod Timing
pub mod Loopback
use io_t_firmware.Base.{
  ℕ, ◌+◌, ◌-◌, ◌*◌, ◌/◌, ◌^◌, bit_and, Bool, true, false, not, ◌||◌, Option, none, some, List, [],
  ◌∷◌, ◌++◌, ltb, ◌==◌, if◌then◌else◌, u32, sub32,
}

-- PinDrive
pub data PinDrive : Type 0 where
  driven_high : PinDrive
  driven_low : PinDrive
  floating : PinDrive
  unstable : PinDrive

-- classifyPin
unfoldable pub classify_pin : Bool → Bool → PinDrive
classify_pin true true = driven_high
classify_pin false false = driven_low
classify_pin true false = floating
classify_pin false true = unstable

-- probePin: the level that a pin shows under each pull, true for the pull up.
abbrev pub probe_pin : (Bool → Bool) → PinDrive
probe_pin level = classify_pin (level true) (level false)

-- rxDriveIsIdle
unfoldable pub rx_drive_is_idle : PinDrive → Bool → Bool
rx_drive_is_idle driven_high rx_invert = not rx_invert
rx_drive_is_idle driven_low rx_invert = rx_invert
rx_drive_is_idle floating rx_invert = false
rx_drive_is_idle unstable rx_invert = false

-- rxIdleCheck
abbrev pub rx_idle_check : (Bool → Bool) → Bool → Bool
rx_idle_check level rx_invert = rx_drive_is_idle (probe_pin level) rx_invert

-- charTimeUs; the format is the SerialConfig word.
unfoldable pub char_bits : ℕ → ℕ
char_bits format =
    let data_bits = bit_and format 0x0C / 4 + 5 in
    let parity = if bit_and format 0x02 == 0 then 0 else 1 in
    let stop = if bit_and format 0x30 / 16 == 1 then 1 else 2 in 1 + data_bits + parity + stop

unfoldable pub char_time_us : ℕ → ℕ → ℕ
char_time_us baud format = u32 (char_bits format * 1000000 + baud + (2 ^ 32 - 1)) / baud

abbrev pub loopback_byte : ℕ
loopback_byte = 0x55

abbrev pub loopback_min_wait_ms : ℕ
loopback_min_wait_ms = 50

abbrev pub loopback_wait_chars : ℕ
loopback_wait_chars = 20

-- What a loopback test asks of the UART.
pub data Command : Type 0 where
  set_rx_invert : Bool → Command
  set_loop_back : Bool → Command
  write : ℕ → Command
  drain : Command

-- One round of the wait for the echo: millis(), and whether a byte is there.
pub record Poll : Type 0 where
  pub ms : ℕ
  pub available : Bool

-- What the test meets: whether the UART is known, millis() as the wait starts, its polls, whether a
-- byte has come when the wait has run out, and the bytes read, the second one if there is one.
pub record EchoAir : Type 0 where
  pub port_known : Bool
  pub start : ℕ
  pub polls : List Poll
  pub late : Bool
  pub first_byte : ℕ
  pub extra_byte : Option ℕ

-- The time to wait for the echo.
unfoldable pub wait_ms : ℕ → ℕ
wait_ms char_us =
    let w = u32 (loopback_wait_chars * char_us + 999) / 1000 in
    if ltb w loopback_min_wait_ms then loopback_min_wait_ms else w

-- The wait: whether a byte has come. A list that ends stands for a clock that has passed the limit.
unfoldable pub wait_echo : ℕ → ℕ → List Poll → Bool
wait_echo start limit [] = false
wait_echo start limit (p ∷ ps) =
    let rest = wait_echo start limit ps in
    if p.available then true else if ltb (sub32 p.ms start) limit then rest else false

-- endLoopback
abbrev pub end_loopback : Bool → List Command
end_loopback rx_invert = set_loop_back false ∷ set_rx_invert rx_invert ∷ drain ∷ []

-- uartLoopbackTest
unfoldable pub uart_loopback_test : EchoAir → ℕ → ℕ → Bool → Bool → List Command × Bool
uart_loopback_test air baud format tx_invert rx_invert =
    let started = drain ∷ set_rx_invert tx_invert ∷ set_loop_back true ∷ write loopback_byte ∷ [] in
    let commands = started ++ end_loopback rx_invert in
    let echoed = wait_echo air.start (wait_ms (char_time_us baud format)) air.polls in
    if not air.port_known
    then ([], false)
    else if not (echoed || air.late)
    then (commands, false)
    else if not (air.first_byte == loopback_byte)
    then (commands, false)
    else elim air.extra_byte [ none ↦ (commands, true) | some b ↦ (commands, false) ]

-- Sp3485::probe: the levels given to the pin that drives DE/RE, and the result, by what RX shows in
-- receive and with the pin high.
unfoldable pub sp3485_found : PinDrive → PinDrive → List Bool × Bool
sp3485_found floating sending = (false ∷ [], false)
sp3485_found unstable sending = (false ∷ [], false)
sp3485_found receiving floating = (false ∷ true ∷ false ∷ [], true)
sp3485_found receiving sending = (false ∷ true ∷ false ∷ [], false)

abbrev pub sp3485_probe : (Bool → Bool) → (Bool → Bool) → List Bool × Bool
sp3485_probe receiving sending = sp3485_found (probe_pin receiving) (probe_pin sending)

-- Sp3485::init, with whether the UART starts: the levels of the pin, the commands and the result.
unfoldable pub sp3485_init :
    (Bool → Bool) → (Bool → Bool) → Bool → EchoAir → ℕ → ℕ → List Bool × List Command × Bool
sp3485_init receiving sending started air baud format =
    let (levels, fitted) = sp3485_probe receiving sending in
    let (commands, echoed) = uart_loopback_test air baud format false false in
    if not fitted
    then (levels, [], false)
    else if not started
    then (levels, [], false)
    else (levels ++ (false ∷ []), commands, echoed)
