-- ===== src/EspNow.antt =====
-- lib/links/esp_now_uplink/esp_now_uplink.h and esp_now_uplink.cpp: the ESP-NOW link. The radio's
-- callbacks are events; the queue of received frames and the longest frame of the radio are
-- parameters, the binary semaphore is a flag, and what the radio's calls return is an input.
-- Log lines are left out.
pub mod Window
pub mod Sending
use io_t_firmware.Base.{
  ℕ, Bool, true, false, not, ◌||◌, Option, none, some, List, [], ◌∷◌, ltb, ◌==◌, if◌then◌else◌,
  length, take,
}
use io_t_firmware.Queue.{Queue}

abbrev pub rx_queue_depth : ℕ
rx_queue_depth = 4

-- RxFrame, with `len` the length of its data.
pub record RxFrame : Type 0 where
  pub mac : List ℕ
  pub data_bytes : List ℕ

-- EspNowUplink; `initialised` says whether `instance` is set.
pub record EspNowUplink (Handle : Type 0) : Type 0 where
  pub initialised : Bool
  pub rx_queue : Handle
  pub send_done : Bool
  pub delivery_success : Bool

-- A call of onSent, with whether the status is success, or of onReceived.
pub data Callback : Type 0 where
  sent_status : Bool → Callback
  frame_in : List ℕ → List ℕ → Callback

-- What the calls in init report.
pub record InitAir : Type 0 where
  pub station_ok : Bool
  pub queue_ok : Bool
  pub semaphore_ok : Bool
  pub esp_now_ok : Bool

-- What a send meets: whether esp_now_send takes the frame, and the callbacks that run from the clearing
-- of the semaphore to the end of the wait.
pub record SendAir : Type 0 where
  pub accepted : Bool
  pub callbacks : List Callback

-- The results -1, -2 and the length of receivePacket, with what it copies out.
pub data RxResult : Type 0 where
  nothing_waiting : RxResult
  too_small : RxResult
  frame : List ℕ → List ℕ → RxResult

-- The errors of esp_now_add_peer and esp_now_del_peer.
pub data EspError : Type 0 where
  esp_ok : EspError
  peer_exists : EspError
  peer_not_found : EspError
  esp_other : EspError

-- addPeer
unfoldable pub add_peer : EspError → Bool
add_peer esp_ok = true
add_peer peer_exists = true
add_peer peer_not_found = false
add_peer esp_other = false

-- removePeer
unfoldable pub remove_peer : EspError → Bool
remove_peer esp_ok = true
remove_peer peer_exists = false
remove_peer peer_not_found = true
remove_peer esp_other = false

-- receivePacket, behind the queue.
unfoldable pub hand_over : ℕ → Option RxFrame → RxResult
hand_over buf_len none = nothing_waiting
hand_over buf_len (some f) =
    if ltb buf_len (length f.data_bytes) then too_small else frame f.mac f.data_bytes

module _ (max_data_len : ℕ) (Q : Queue RxFrame) where
  abbrev pub Uplink : Type 0
  Uplink = EspNowUplink Q.Handle

  -- init
  unfoldable pub init : InitAir → Uplink → Bool × Uplink
  init x u =
      let queued : Uplink = record u { rx_queue = Q.create } in
      let signalled : Uplink = record queued { send_done = false } in
      if not x.station_ok
      then (false, u)
      else if not x.queue_ok
      then (false, u)
      else if not x.semaphore_ok
      then (false, queued)
      else if not x.esp_now_ok
      then (false, signalled)
      else (true, record signalled { initialised = true })

  -- onSent
  unfoldable pub on_sent : Bool → Uplink → Uplink
  on_sent success u =
      if not u.initialised then u else record u { delivery_success = success; send_done = true }

  -- onReceived
  unfoldable pub on_received : List ℕ → List ℕ → Uplink → Uplink
  on_received mac bytes u =
      let copy_len = if ltb max_data_len (length bytes) then max_data_len else length bytes in
      let f : RxFrame = record { mac = mac; data_bytes = take copy_len bytes } in
      let (queued, q) = Q.queue_send f u.rx_queue in
      let q' = (Q.queue_send f (Q.queue_receive q).1).1 in
      if not u.initialised
      then u
      else if not queued
      then record u { rx_queue = q' }
      else record u { rx_queue = q }

  unfoldable pub run_callback : Callback → Uplink → Uplink
  run_callback (sent_status success) u = on_sent success u
  run_callback (frame_in mac bytes) u = on_received mac bytes u

  -- xSemaphoreTake with a timeout, while the callbacks run.
  unfoldable pub wait_done : List Callback → Uplink → Bool × Uplink
  wait_done [] u = (u.send_done, record u { send_done = false })
  wait_done (c ∷ cs) u =
      let rest = wait_done cs (run_callback c u) in
      if u.send_done then (true, record u { send_done = false }) else rest

  -- sendPacket
  unfoldable pub send_packet : SendAir → List ℕ → Uplink → Bool × Uplink
  send_packet air buf u =
      let cleared : Uplink = record u { send_done = false } in
      let (done, u') = wait_done air.callbacks cleared in
      if length buf == 0 || ltb max_data_len (length buf)
      then (false, u)
      else if not air.accepted
      then (false, cleared)
      else if not done
      then (false, u')
      else (u'.delivery_success, u')

  -- receivePacket, into a buffer of a length.
  unfoldable pub receive_packet : ℕ → Uplink → RxResult × Uplink
  receive_packet buf_len u =
      let (f, q) = Q.queue_receive u.rx_queue in (hand_over buf_len f, record u { rx_queue = q })
