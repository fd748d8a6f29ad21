-- ===== src/Bus/Loopback.antt =====
-- lib/buses/bus_checks/bus_checks.cpp and lib/buses/sp3485/sp3485.cpp: what the checks at start-up show
-- and what they leave behind.
use io_t_firmware.Base.{
  ℕ, ◌-◌, ◌≡◌, refl, ◌↔◌, ◌⊎◌, inl, inr, Bool, true, false, ◌||◌, none, List, [], ◌∷◌, ◌++◌, arith,
  if◌then◌else◌, Bool-cases, length, get_or, length-append,
}
use io_t_firmware.Bus.{
  sp3485_found, PinDrive, driven_high, driven_low, floating, unstable, classify_pin, probe_pin,
  char_time_us, loopback_byte, Command, set_rx_invert, set_loop_back, write, drain, EchoAir,
  wait_ms, wait_echo, uart_loopback_test, sp3485_probe, sp3485_init,
}

-- A UART's loopback and the inversion of its RX line.
pub record Uart : Type 0 where
  pub loop_back : Bool
  pub rx_inverted : Bool

abbrev pub uart_after : Uart → List Command → Uart
uart_after u [] = u
uart_after u (set_rx_invert b ∷ cs) = uart_after (record u { rx_inverted = b }) cs
uart_after u (set_loop_back b ∷ cs) = uart_after (record u { loop_back = b }) cs
uart_after u (write b ∷ cs) = uart_after u cs
uart_after u (drain ∷ cs) = uart_after u cs

-- The bytes that leave the chip: those written with the loopback off.
abbrev pub bus_bytes : Uart → List Command → List ℕ
bus_bytes u [] = []
bus_bytes u (set_rx_invert b ∷ cs) = bus_bytes (record u { rx_inverted = b }) cs
bus_bytes u (set_loop_back b ∷ cs) = bus_bytes (record u { loop_back = b }) cs
bus_bytes u (write b ∷ cs) = if u.loop_back then bus_bytes u cs else b ∷ bus_bytes u cs
bus_bytes u (drain ∷ cs) = bus_bytes u cs

-- Whatever it meets, a loopback test leaves the UART with its loopback off and its RX polarity as
-- given, and no byte of it reaches the bus; and it succeeds exactly if the UART is known, a byte
-- comes, and what is read is the test byte alone.
pub uart_loopback_test_lem :
    (air : EchoAir) (baud format : ℕ) (tx_invert rx_invert : Bool)
    → let (cs, ok) = uart_loopback_test air baud format tx_invert rx_invert in
      let u : Uart = record { loop_back = false; rx_inverted = rx_invert } in
      (uart_after u cs ≡ u)
      × (bus_bytes u cs ≡ [])
      × ((ok ≡ true) ↔ (
          (air.port_known ≡ true)
          × ((wait_echo air.start (wait_ms (char_time_us baud format)) air.polls || air.late)
              ≡ true)
          × (air.first_byte ≡ loopback_byte)
          × (air.extra_byte ≡ none)))
unfolding uart_loopback_test
uart_loopback_test_lem air baud format tx_invert rx_invert = ground arith

-- The two ways for a probe to end.
sp3485_found_cases :
    (d e : PinDrive)
    → let (levels, ok) = sp3485_found d e in
      (get_or (levels ++ (false ∷ [])) (length levels) true ≡ false)
      × (get_or levels (length levels - 1) true ≡ false)
      × (ok ≡ true → ((d ≡ driven_high) ⊎ (d ≡ driven_low)) × (e ≡ floating))
unfolding sp3485_found
sp3485_found_cases floating e = (refl, refl, λ h. absurd (ground arith))
sp3485_found_cases unstable e = (refl, refl, λ h. absurd (ground arith))
sp3485_found_cases driven_high floating = (refl, refl, λ h. (inl refl, refl))
sp3485_found_cases driven_high driven_high = (refl, refl, λ h. absurd (ground arith))
sp3485_found_cases driven_high driven_low = (refl, refl, λ h. absurd (ground arith))
sp3485_found_cases driven_high unstable = (refl, refl, λ h. absurd (ground arith))
sp3485_found_cases driven_low floating = (refl, refl, λ h. (inr refl, refl))
sp3485_found_cases driven_low driven_high = (refl, refl, λ h. absurd (ground arith))
sp3485_found_cases driven_low driven_low = (refl, refl, λ h. absurd (ground arith))
sp3485_found_cases driven_low unstable = (refl, refl, λ h. absurd (ground arith))

driven : (a b : Bool) → (classify_pin a b ≡ driven_high) ⊎ (classify_pin a b ≡ driven_low) → a ≡ b
unfolding classify_pin
driven true true h = refl
driven false false h = refl
driven true false h = absurd (ground arith)
driven false true h = absurd (ground arith)

floats : (a b : Bool) → classify_pin a b ≡ floating → (a ≡ true) × (b ≡ false)
unfolding classify_pin
floats true false h = (refl, refl)
floats true true h = absurd (ground arith)
floats false false h = absurd (ground arith)
floats false true h = absurd (ground arith)

-- Whatever it meets, the set-up of the RS485 transceiver puts no byte on the bus and leaves the pin
-- that enables its driver low; and where it succeeds, something drove RX to one level under both
-- pulls in receive, and with the pin high RX followed each pull.
pub sp3485_init_drives_nothing :
    (receiving sending : Bool → Bool) (started : Bool) (air : EchoAir) (baud format : ℕ)
    → let (levels, cs, ok) = sp3485_init receiving sending started air baud format in
      (get_or levels (length levels - 1) true ≡ false)
      × (bus_bytes (record { loop_back = false; rx_inverted = false }) cs ≡ [])
      × (ok ≡ true
          → (receiving true ≡ receiving false) × (sending true ≡ true) × (sending false ≡ false))
unfolding sp3485_init
sp3485_init_drives_nothing receiving sending started air baud format =
    let (low_added, low, found) = sp3485_found_cases (probe_pin receiving) (probe_pin sending) in
    let (settled, quiet, echoed) = uart_loopback_test_lem air baud format false false in
    let levels = (sp3485_probe receiving sending).0 in
    let size = length-append levels (false ∷ []) in
    elim (Bool-cases (sp3485_probe receiving sending).1) [
      | inr f ↦ rw f (low, refl, λ h. absurd (ground arith))
      | inl f ↦
          let (same, pulled) = found f in
          let (up, down) = floats (sending true) (sending false) pulled in
          let one = driven (receiving true) (receiving false) same in
          let last : length (levels ++ (false ∷ [])) - 1 ≡ length levels = omega arith in
          elim (Bool-cases started) [
            | inr g ↦ rw (f, g) (low, refl, λ h. absurd (ground arith))
            | inl g ↦ rw (f, g) (rw last low_added, quiet, λ h. (one, up, down))
          ]
    ]
