-- ===== src/Bus/Head.antt =====
-- lib/buses/ir_head/real_ir_head.cpp and uartStartChecked of lib/buses/bus_checks: the optical head at a
-- UART. The UART driver is an input: whether the pins are ones that it takes, and whether it runs
-- behind begin(). setBaudRate only logs that a restart failed.
pub mod Follows
use io_t_firmware.Base.{
  ℕ, ◌+◌, Bool, true, false, not, ◌||◌, Option, none, some, List, [], ◌∷◌, ◌++◌, ◌==◌,
  if◌then◌else◌, length, take,
}
use io_t_firmware.Bus.{Command, EchoAir, rx_idle_check, uart_loopback_test}
use io_t_firmware.Config.{IrConfig}

-- What is asked of the driver: end(), begin() with its rate, format, pins and inversion,
-- setRxInvert(), write() with the bytes that it took, flush(), and the commands of the loopback test.
pub data Event : Type 0 where
  stop : Event
  begin : ℕ → ℕ → ℕ → ℕ → Bool → Event
  invert_rx : Bool → Event
  write : List ℕ → Event
  flush : Event
  test : List Command → Event

pub record UartAir : Type 0 where
  pub rx_valid : Bool
  pub tx_valid : Bool
  pub running : Bool

pub record RealIrHead : Type 0 where
  pub rx : ℕ
  pub tx : ℕ
  pub baud_rate : ℕ
  pub serial_config : ℕ
  pub tx_invert : Bool
  pub rx_invert : Bool

-- The constructor.
abbrev pub new_head : IrConfig → RealIrHead
new_head c = record {
  rx = c.rx;
  tx = c.tx;
  baud_rate = c.baud_rate;
  serial_config = c.format;
  tx_invert = c.tx_invert;
  rx_invert = c.rx_invert;
}

-- uartStartChecked
unfoldable pub uart_start_checked : UartAir → ℕ → ℕ → ℕ → ℕ → Bool → List Event × Bool
uart_start_checked x baud format rx tx invert =
    if not x.rx_valid || not x.tx_valid
    then ([], false)
    else (begin baud format rx tx invert ∷ [], x.running)

-- start
unfoldable pub start : UartAir → RealIrHead → List Event × Bool
start x h =
    let (events, ok) = uart_start_checked x h.baud_rate h.serial_config h.rx h.tx h.tx_invert in
    if not ok
    then (stop ∷ events, false)
    else (stop ∷ (events ++ (invert_rx h.rx_invert ∷ [])), true)

-- init, by what RX shows under its two pulls and what the loopback test meets.
unfoldable pub init : (Bool → Bool) → UartAir → EchoAir → RealIrHead → List Event × Bool
init level x echo h =
    let (events, started) = start x h in
    let (commands, echoed) =
      uart_loopback_test echo h.baud_rate h.serial_config h.tx_invert h.rx_invert in
    if not (rx_idle_check level h.rx_invert)
    then ([], false)
    else if not started
    then (events, false)
    else (events ++ (test commands ∷ []), echoed)

-- send, of which the driver takes `written` bytes.
unfoldable pub send : ℕ → List ℕ → List Event × Bool
send written bytes = (write (take written bytes) ∷ flush ∷ [], written == length bytes)

-- setBaudRate
unfoldable pub set_baud_rate : UartAir → ℕ → RealIrHead → List Event × RealIrHead
set_baud_rate x baud h = let h' = record h { baud_rate = baud } in ((start x h').0, h')

-- readByte and available, on the bytes that wait in the driver.
unfoldable pub read_byte : List ℕ → Option ℕ × List ℕ
read_byte [] = (none, [])
read_byte (b ∷ bs) = (some b, bs)
