-- ===== src/Bus/Head/Follows.antt =====
-- real_ir_head.cpp under iec62056_21.cpp: how the UART stands as the reader's messages go out.
use io_t_firmware.Base.{
  ap, ℕ, ◌≡◌, refl, ◌∙◌, Bool, true, false, Option, none, some, List, [], ◌∷◌, ◌++◌, arith, length,
  All,
}
use io_t_firmware.Bus.{Command, EchoAir, rx_idle_check}
use io_t_firmware.Bus.Loopback.{uart_after, uart_loopback_test_lem}
use io_t_firmware.Bus.Head.{
  Event, stop, begin, invert_rx, write, flush, test, UartAir, RealIrHead, uart_start_checked, start,
  init, send, set_baud_rate,
}
use io_t_firmware.Iec62056.{Reader, Call, calls, start_baud}
use io_t_firmware.Iec62056
use io_t_firmware.Iec62056.Speed.{rate_after, send_rates, calls_keep_the_speed}

-- How a UART that runs stands; begin() inverts both lines alike.
pub record Settings : Type 0 where
  pub baud : ℕ
  pub format : ℕ
  pub rx : ℕ
  pub tx : ℕ
  pub tx_inverted : Bool
  pub rx_inverted : Bool
  pub loop_back : Bool

-- What a head wants of its UART.
abbrev pub settings : RealIrHead → Settings
settings h = record {
  baud = h.baud_rate;
  format = h.serial_config;
  rx = h.rx;
  tx = h.tx;
  tx_inverted = h.tx_invert;
  rx_inverted = h.rx_invert;
  loop_back = false;
}

abbrev tested : List Command → Settings → Settings
tested cs s =
    let u = uart_after (record { loop_back = s.loop_back; rx_inverted = s.rx_inverted }) cs in
    record s { loop_back = u.loop_back; rx_inverted = u.rx_inverted }

-- The UART behind an event, `none` while it is off.
abbrev pub after_event : Option Settings → Event → Option Settings
after_event p stop = none
after_event p (begin baud format rx tx invert) = some (record {
  baud = baud;
  format = format;
  rx = rx;
  tx = tx;
  tx_inverted = invert;
  rx_inverted = invert;
  loop_back = false;
})
after_event (some s) (invert_rx b) = some (record s { rx_inverted = b })
after_event none (invert_rx b) = none
after_event p (write bytes) = p
after_event p flush = p
after_event (some s) (test cs) = some (tested cs s)
after_event none (test cs) = none

abbrev pub port_after : Option Settings → List Event → Option Settings
port_after p [] = p
port_after p (e ∷ es) = port_after (after_event p e) es

-- The messages written, each with how the UART stood.
abbrev pub messages : Option Settings → List Event → List (Option Settings × List ℕ)
messages p [] = []
messages p (write bytes ∷ es) = (p, bytes) ∷ messages p es
messages p (e ∷ es) = messages (after_event p e) es

-- The reader's commands at a head whose UART starts as it did before, and takes every message whole.
abbrev pub drive : UartAir → List Iec62056.Command → RealIrHead → List Event × RealIrHead
drive x [] h = ([], h)
drive x (Iec62056.set_baud_rate b ∷ cs) h =
    let (es, h') = set_baud_rate x b h in let (fs, h'') = drive x cs h' in (es ++ fs, h'')
drive x (Iec62056.send m ∷ cs) h =
    let (es, ok) = send (length m) m in let (fs, h') = drive x cs h in (es ++ fs, h')

-- Pins that the driver takes, and a driver that runs.
abbrev Works : UartAir → Type 0
Works x = (x.rx_valid ≡ true) × (x.tx_valid ≡ true) × (x.running ≡ true)

abbrev start_events : RealIrHead → List Event
start_events h =
    stop ∷ begin h.baud_rate h.serial_config h.rx h.tx h.tx_invert ∷ invert_rx h.rx_invert ∷ []

start_lem : (x : UartAir) (h : RealIrHead) → Works x → start x h ≡ (start_events h, true)
unfolding start uart_start_checked
start_lem x h (a, b, c) = rw (a, b, c) refl

-- A start that succeeds is one of a driver that works.
start-Works : (x : UartAir) (h : RealIrHead) → (start x h).1 ≡ true → Works x
unfolding start uart_start_checked
start-Works x h e = ground arith

drive-Follows :
    (x : UartAir) (cs : List Iec62056.Command) (h : RealIrHead) (p : Option Settings)
    → Works x
    → p ≡ some (settings h)
    → All (λ b. b ≡ start_baud) (send_rates h.baud_rate cs)
    → let es = (drive x cs h).0 in
      All (λ (q, m). q ≡ some (settings (record h { baud_rate = start_baud }))) (messages p es)
      × (port_after p es ≡ some (settings (record h { baud_rate = rate_after h.baud_rate cs })))
unfolding set_baud_rate send
drive-Follows x [] h p w e a = (tt, e)
drive-Follows x (Iec62056.set_baud_rate b ∷ cs) h p w e a =
    let h' : RealIrHead = record h { baud_rate = b } in
    rw (start_lem x h' w) (drive-Follows x cs h' (some (settings h')) w refl a)
drive-Follows x (Iec62056.send m ∷ cs) h p w e (slow, a) =
    let (ms, left) = drive-Follows x cs h p w e a in
    ((e ∙ ap (λ b. some (settings (record h { baud_rate = b }))) slow, ms), left)

init-Follows :
    (level : Bool → Bool) (x : UartAir) (echo : EchoAir) (h : RealIrHead)
    → (init level x echo h).1 ≡ true
    → Works x × (port_after none (init level x echo h).0 ≡ some (settings h))
unfolding init
init-Follows level x echo h e =
    let idle : rx_idle_check level h.rx_invert ≡ true = ground (arith, e) in
    let started : (start x h).1 ≡ true = ground (arith, e) in
    let w = start-Works x h started in
    let (restored, a, b) =
      uart_loopback_test_lem echo h.baud_rate h.serial_config h.tx_invert h.rx_invert in
    (w, rw (idle, start_lem x h w, restored) refl)

module _ (strtof : List ℕ → ℕ × ℕ) where
  -- Behind an init of the head that succeeds at the rate that the reader has noted, and as long as its
  -- UART starts again as it did, every message of any sequence of reads and probes is written while
  -- the UART runs at 300 baud with the head's pins, format and polarities and without its loopback,
  -- and the UART is left running so at the rate that the reader has noted.
  pub head_follows_reader :
      (level : Bool → Bool) (x : UartAir) (echo : EchoAir) (h : RealIrHead) (cs : List Call)
      (r : Reader)
      → (init level x echo h).1 ≡ true
      → h.baud_rate ≡ r.current_baud
      → let (ds, r') = calls strtof cs r in
        let (es, h') = drive x ds h in
        let p = port_after none (init level x echo h).0 in
        All (λ (q, m). q ≡ some (settings (record h { baud_rate = start_baud }))) (messages p es)
        × (port_after p es ≡ some (settings (record h { baud_rate = r'.current_baud })))
  head_follows_reader level x echo h cs r e same =
      let (w, up) = init-Follows level x echo h e in
      let (slow, left) = calls_keep_the_speed strtof cs r in
      let ds = (calls strtof cs r).0 in
      let (ms, port) =
        drive-Follows x ds h (port_after none (init level x echo h).0) w up (rw same slow) in
      (ms, port ∙ ap (λ b. some (settings (record h { baud_rate = b }))) (rw same left))
