-- ===== src/Gateway.antt =====
-- src/nodes/gateway.cpp: the gateway's LoRa task and its publishing loop, which share a queue.
-- They are tasks of their own, and one may run between any two calls that the other makes, so both are
-- cut into steps at the calls that touch the queue, and an interleaving is a list of steps. The queue
-- is a parameter; the radio, the MQTT client and the clock are inputs. Log lines are left out. The two
-- loops that wait for the network change nothing of this state; they are in Network.
pub mod Flow
pub mod Network
use io_t_firmware.Base.{
  ℕ, ◌+◌, Bool, true, false, not, Option, none, some, List, [], ◌∷◌, ◌++◌, ◌==◌, if◌then◌else◌,
  length,
}
use io_t_firmware.Queue.{Queue}
use io_t_firmware.Wire.{Payload, payload_size, decode_payload}
use io_t_firmware.LoraLink.{Received, receive_packet, got}

-- READINGS_DEPTH
abbrev pub readings_depth : ℕ
readings_depth = 32

-- GatewayReading; `snr` is the float's bit pattern.
pub record GatewayReading : Type 0 where
  pub payload : Payload
  pub rssi : ℕ
  pub snr : ℕ

-- The file's variables that change, with `room` for a task that has seen space in the queue, and
-- `peeked` for the reading that the loop has peeked and not yet dealt with.
pub record Gateway (Handle : Type 0) : Type 0 where
  pub mqtt_enabled : Bool
  pub ready : Bool
  pub readings : Handle
  pub room : Bool
  pub peeked : Option GatewayReading

-- What the radio holds as the task looks: the packet's size, its bytes, and its signal.
pub record RxAir : Type 0 where
  pub packet_size : ℕ
  pub fifo : List ℕ
  pub rssi : ℕ
  pub snr : ℕ

-- What a step puts out: LoRa frames, and the readings that it forwards to the broker, or that it lets
-- go where MQTT is off.
pub record Out : Type 0 where
  pub frames : List (List ℕ)
  pub forwarded : List GatewayReading

abbrev pub silent : Out
silent = record { frames = []; forwarded = [] }

-- The steps of the two tasks.
pub data Step : Type 0 where
  check : Step
  receive : RxAir → Step
  peek : Step
  publish : Bool → Bool → Step

module _ (Q : Queue GatewayReading) where
  -- loraRxTask, up to its test of the space in the queue.
  unfoldable pub rx_check : Gateway Q.Handle → Gateway Q.Handle
  rx_check g = if Q.spaces_available g.readings == 0 then g else record g { room = true }

  -- What loraRxTask does with what receivePacket() gave it and sent.
  unfoldable pub deliver :
      RxAir → Received × List (List ℕ) → Gateway Q.Handle → Out × Gateway Q.Handle
  deliver air r g =
      let done : Gateway Q.Handle = record g { room = false } in
      let out : Out = record { frames = r.1; forwarded = [] } in
      elim r.0 [
        | got bytes ↦ if not (length bytes == payload_size) then (out, done) else (
          out,
          record done {
            readings =
                (Q.queue_send
                  (record { payload = decode_payload bytes; rssi = air.rssi; snr = air.snr })
                  g.readings).1;
          },
        )
        | _ ↦ (out, done)
      ]

  -- loraRxTask, behind its test of the space.
  unfoldable pub rx_receive : RxAir → Gateway Q.Handle → Out × Gateway Q.Handle
  rx_receive air g =
      let r = deliver air (receive_packet air.packet_size air.fifo payload_size) g in
      if not g.room then (silent, g) else r

  -- gatewayLoop, up to xQueuePeek, which copies the head of the queue out.
  unfoldable pub loop_peek : Gateway Q.Handle → Gateway Q.Handle
  loop_peek g =
      if not g.ready
      then g
      else elim (Q.queue_peek g.readings) [ none ↦ g | some r ↦ record g { peeked = some r } ]

  -- gatewayLoop, behind xQueuePeek, with the reading that it copied out: whether the client is
  -- connected, and the result of publish().
  unfoldable pub publish_peeked :
      Bool → Bool → Option GatewayReading → Gateway Q.Handle → Out × Gateway Q.Handle
  publish_peeked connected pub_success none g = (silent, g)
  publish_peeked connected pub_success (some r) g =
      let done : Gateway Q.Handle = record g { peeked = none } in
      let gone : Out × Gateway Q.Handle = (
        record { frames = []; forwarded = r ∷ [] },
        record done { readings = (Q.queue_receive g.readings).1 },
      ) in
      if not g.mqtt_enabled
      then gone
      else if not connected
      then (silent, done)
      else if pub_success
      then gone
      else (silent, done)

  unfoldable pub loop_publish : Bool → Bool → Gateway Q.Handle → Out × Gateway Q.Handle
  loop_publish connected pub_success g = publish_peeked connected pub_success g.peeked g

  unfoldable pub step : Step → Gateway Q.Handle → Out × Gateway Q.Handle
  step check g = (silent, rx_check g)
  step (receive air) g = rx_receive air g
  step peek g = (silent, loop_peek g)
  step (publish connected pub_success) g = loop_publish connected pub_success g

  -- An interleaving.
  unfoldable pub run : List Step → Gateway Q.Handle → Out × Gateway Q.Handle
  run [] g = (silent, g)
  run (s ∷ ss) g =
      let a = step s g in
      let b = run ss a.1 in
      (
        record { frames = a.0.frames ++ b.0.frames; forwarded = a.0.forwarded ++ b.0.forwarded },
        b.1,
      )

  -- gatewaySetup: what loading the config, the link's init() and the creation of the queue and of the
  -- task report.
  unfoldable pub gateway_setup : Bool → Bool → Bool → Bool → Bool → Gateway Q.Handle
  gateway_setup mqtt_enabled config_ok link_ok queue_ok task_ok =
      let g : Gateway Q.Handle = record {
        mqtt_enabled = mqtt_enabled;
        ready = false;
        readings = Q.create;
        room = false;
        peeked = none;
      } in
      if not config_ok
      then g
      else if not link_ok
      then g
      else if not queue_ok
      then g
      else if not task_ok
      then g
      else record g { ready = true }
