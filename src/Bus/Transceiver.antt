-- ===== src/Bus/Transceiver.antt =====
-- lib/buses/sp3485/sp3485.cpp, behind its set-up: sending a frame and reading a byte. The UART driver
-- is not under this repository: how many bytes of a frame its write() takes is an input, and so is
-- what arrives between two calls. The pin that drives DE/RE reads the level last given to it.
pub mod Turns
use io_t_firmware.Base.{
  ℕ, ◌+◌, Bool, true, false, Option, none, some, List, [], ◌∷◌, ◌++◌, ◌==◌, if◌then◌else◌, length,
  take, drop,
}

-- What the code asks of the pin and of the UART, in order; `listen` is pinMode(derePin, INPUT).
pub data Event : Type 0 where
  level : Bool → Event
  listen : Event
  write : List ℕ → Event
  flush : Event

-- The level of the pin, and the bytes that wait in the UART.
pub record Transceiver : Type 0 where
  pub driving : Bool
  pub waiting : List ℕ

-- The loop of drainRX.
unfoldable pub drain_loop : List ℕ → List ℕ
drain_loop [] = []
drain_loop (b ∷ bs) = drain_loop bs

-- drainRX
abbrev pub drain_rx : Transceiver → Transceiver
drain_rx t = record t { waiting = drain_loop t.waiting }

-- send, whose write takes `taken` bytes: what it asks for, and its result.
unfoldable pub send : ℕ → List ℕ → Transceiver → List Event × Bool × Transceiver
send taken bytes t =
    let drained = drain_rx t in
    let sent = take taken bytes in
    (
      level true ∷ write sent ∷ flush ∷ level false ∷ [],
      length sent == length bytes,
      record drained { driving = false },
    )

-- readByte
unfoldable pub read_byte : Transceiver → List Event × Option ℕ × Transceiver
read_byte t =
    let turned = if t.driving then listen ∷ level false ∷ [] else [] in
    let first : Option ℕ = elim t.waiting [ [] ↦ none | b ∷ bs ↦ some b ] in
    (turned, first, record { driving = false; waiting = drop 1 t.waiting })

-- What a reader does with its bus, and what the line does.
pub data Call : Type 0 where
  sending : ℕ → List ℕ → Call
  reading : Call
  arriving : List ℕ → Call

unfoldable pub turn : Call → Transceiver → List Event × Transceiver
turn (sending taken bytes) t = let (es, ok, t') = send taken bytes t in (es, t')
turn reading t = let (es, b, t') = read_byte t in (es, t')
turn (arriving bs) t = ([], record t { waiting = t.waiting ++ bs })

unfoldable pub turns : List Call → Transceiver → List Event × Transceiver
turns [] t = ([], t)
turns (c ∷ cs) t = let (es, t') = turn c t in let (fs, t'') = turns cs t' in (es ++ fs, t'')
