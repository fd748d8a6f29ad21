-- ===== src/LoraLink.antt =====
-- lib/links/lora_link: the acknowledgement and retry protocol over LoRa, as a step function.
-- The radio and the clock are inputs: each poll is given what the calls that it makes return. A
-- packet's bytes live in the radio until the next parsePacket(), so the loops that drain the rest
-- of a packet leave nothing behind and have no counterpart. Log lines are left out.
pub mod Ack
pub mod Receive
pub mod Retry
pub mod Send
use mathlib.Core.Option
use io_t_firmware.Base.{
  ℕ, zero, suc, ◌+◌, Bool, true, false, not, ◌&&◌, Option, none, some, List, [], ◌∷◌, ◌++◌, map,
  ltb, leb, ◌==◌, if◌then◌else◌, length, u8, sub32,
}
use io_t_firmware.Wire.{
  Payload, payload_size, ack_payload_size, encode_payload, decode_payload, encode_ack, decode_ack,
  uid_equals,
}

-- LoRaSendStatus; `idle_status` is its Idle.
pub data LoRaSendStatus : Type 0 where
  idle_status status_pending acked failed : LoRaSendStatus

-- LoRaLink::SendPhase
pub data SendPhase : Type 0 where
  idle transmit await_ack backoff : SendPhase

pub record LoRaLinkConfig : Type 0 where
  pub max_retries : ℕ
  pub ack_timeout_ms : ℕ

-- The members of LoRaLink that change.
pub record LoRaLink : Type 0 where
  pub pending : Payload
  pub attempt : ℕ
  pub phase : SendPhase
  pub phase_start : ℕ

-- LoRaLink::SEND_BACKOFF_MS
abbrev pub send_backoff_ms : ℕ
send_backoff_ms = 500

-- What one call of pollSend() meets: the result of radio.send(), the size that radio.parsePacket()
-- reports with the bytes that can then be read, millis() when a timer is tested, and millis() when
-- a phase is entered.
pub record Air : Type 0 where
  pub send_ok : Bool
  pub packet_size : ℕ
  pub fifo : List ℕ
  pub now : ℕ
  pub entered : ℕ

-- LoRaLink::readFrame: the bytes read, or `none` for the return value false.
unfoldable pub read_frame : List ℕ → ℕ → Option (List ℕ)
read_frame fifo zero = some []
read_frame [] (suc n) = none
read_frame (x ∷ fifo) (suc n) = Option.map (λ r. u8 x ∷ r) (read_frame fifo n)

-- LoRaLink::enterPhase
unfoldable pub enter_phase : SendPhase → ℕ → LoRaLink → LoRaLink
enter_phase next now l = record l { phase = next; phase_start = now }

-- LoRaLink::beginSend; true is EXIT_SUCCESS.
unfoldable pub begin_send : List ℕ → ℕ → LoRaLink → Bool × LoRaLink
unfolding enter_phase
begin_send buf now l = if not (length buf == payload_size) then (false, l) else elim l.phase [
  | idle ↦ (true, enter_phase transmit now (record l { pending = decode_payload buf; attempt = 0 }))
  | _ ↦ (false, l)
]

-- The test for the acknowledgement that the link waits for.
unfoldable pub ack_matches : Option (List ℕ) → Payload → Bool
ack_matches none p = false
ack_matches (some b) p = uid_equals (decode_ack b).uid p.uid && (decode_ack b).seq == p.seq

abbrev pub is_acked : LoRaSendStatus → Bool
is_acked acked = true
is_acked _ = false

module _ (c : LoRaLinkConfig) where
  -- case SendPhase::Transmit, with the frames that go out.
  unfoldable pub poll_transmit : Air → LoRaLink → LoRaSendStatus × List (List ℕ) × LoRaLink
  unfolding enter_phase
  poll_transmit air l =
      let l' = record l { attempt = u8 (l.attempt + 1) } in
      let frame = encode_payload l.pending in
      if air.send_ok
      then (status_pending, frame ∷ [], enter_phase await_ack air.entered l')
      else (status_pending, frame ∷ [], enter_phase backoff air.entered l')

  -- case SendPhase::AwaitAck
  unfoldable pub poll_await : Air → LoRaLink → LoRaSendStatus × List (List ℕ) × LoRaLink
  unfolding enter_phase
  poll_await air l =
      if air.packet_size == ack_payload_size
        && ack_matches (read_frame air.fifo ack_payload_size) l.pending
      then (acked, [], record l { phase = idle })
      else if leb c.ack_timeout_ms (sub32 air.now l.phase_start)
      then (status_pending, [], enter_phase backoff air.entered l)
      else (status_pending, [], l)

  -- case SendPhase::Backoff
  unfoldable pub poll_backoff : Air → LoRaLink → LoRaSendStatus × List (List ℕ) × LoRaLink
  unfolding enter_phase
  poll_backoff air l =
      if ltb (sub32 air.now l.phase_start) send_backoff_ms
      then (status_pending, [], l)
      else if leb c.max_retries l.attempt
      then (failed, [], record l { phase = idle })
      else (status_pending, [], enter_phase transmit air.entered l)

  -- LoRaLink::pollSend
  unfoldable pub poll_send : Air → LoRaLink → LoRaSendStatus × List (List ℕ) × LoRaLink
  poll_send air l = elim l.phase [
    | idle ↦ (idle_status, [], l)
    | transmit ↦ poll_transmit air l
    | await_ack ↦ poll_await air l
    | backoff ↦ poll_backoff air l
  ]

  -- The loop of LoRaLink::sendPacket over successive polls: the status that ends it, with all the
  -- frames that went out; `none` while it still runs after the last poll given.
  unfoldable pub poll_until_done :
      List Air → LoRaLink → Option LoRaSendStatus × List (List ℕ) × LoRaLink
  poll_until_done [] l = (none, [], l)
  poll_until_done (air ∷ airs) l =
      let r = poll_send air l in
      let rest = poll_until_done airs r.2 in
      elim r.0 [ status_pending ↦ (rest.0, r.1 ++ rest.1, rest.2) | s ↦ (some s, r.1, r.2) ]

  -- LoRaLink::sendPacket; `some true` is EXIT_SUCCESS.
  unfoldable pub send_packet :
      List ℕ → ℕ → List Air → LoRaLink → Option Bool × List (List ℕ) × LoRaLink
  unfolding poll_until_done
  send_packet buf now airs l =
      let b = begin_send buf now l in
      let r = poll_until_done airs b.1 in
      if b.0 then (Option.map is_acked r.0, r.1, r.2) else (some false, [], b.1)

-- How LoRaLink::receivePacket ends.
pub data Received : Type 0 where
  nothing : Received
  too_small : Received
  got : List ℕ → Received

-- LoRaLink::receivePacket: -1, -2 or sizeof(Payload) with the bytes, and the ACK that goes out.
-- parsePacket() reports `size`, and `fifo` can then be read; `buf_len` is the room at `buf`.
unfoldable pub receive_packet : ℕ → List ℕ → ℕ → Received × List (List ℕ)
receive_packet size fifo buf_len =
    if size == 0
    then (nothing, [])
    else if size == ack_payload_size
    then (nothing, [])
    else if not (size == payload_size)
    then (nothing, [])
    else if ltb buf_len payload_size
    then (too_small, [])
    else elim (read_frame fifo payload_size) [
      | none ↦ (nothing, [])
      | some b ↦
          let p = decode_payload b in (got b, encode_ack (record { uid = p.uid; seq = p.seq }) ∷ [])
    ]
