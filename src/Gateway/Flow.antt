-- ===== src/Gateway/Flow.antt =====
-- gateway.cpp: no acknowledged reading is lost between the LoRa task and the broker.
use io_t_firmware.Base.{ℕ, ◌≤◌, ◌<◌, ◌≡◌, true, some, List, [], ◌∷◌, ◌++◌, map, length}
use io_t_firmware.Wire.{encode_ack}
use io_t_firmware.LoraLink.Receive.{payload}
use io_t_firmware.Gateway.{readings_depth, GatewayReading, Gateway, Out}
use io_t_firmware.Queue.{Queue, IsQueue}

-- The acknowledgement of a reading.
abbrev pub ack_frame : GatewayReading → List ℕ
ack_frame r = encode_ack (record { uid = r.payload.uid; seq = r.payload.seq })

abbrev pub acks : List GatewayReading → List (List ℕ)
acks = map ack_frame

module _ (Q : Queue GatewayReading) (laws : IsQueue Q readings_depth) where
  abbrev held : Gateway Q.Handle → List GatewayReading
  held g = Q.items g.readings

  -- The queue has room where the task counts on it, and what the loop has peeked is its head.
  record IsOpen (g : Gateway Q.Handle) : Type 0 where
    bounded : length (held g) ≤ readings_depth
    roomy : g.room ≡ true → length (held g) < readings_depth
    headed : (r : GatewayReading) → g.peeked ≡ some r → (q : List GatewayReading) × (held g ≡ r ∷ q)

  -- One step: what it acknowledges goes to the end of the queue, what it forwards leaves its head.
  record Kept (g : Gateway Q.Handle) (r : Out × Gateway Q.Handle) : Type 0 where
    open_after : IsOpen r.1
    balance : acks (held g) ++ r.0.frames ≡ acks (r.0.forwarded ++ held r.1)

  -- A gateway with a new queue and idle tasks.
  abbrev IsFresh : Gateway Q.Handle → Type 0
  IsFresh g = IsOpen g × (held g ≡ [])
