-- ===== src/EspNow/Sending.antt =====
-- lib/links/esp_now_uplink/esp_now_uplink.cpp, sendPacket: whose report it waits for.
use io_t_firmware.Base.{
  ℕ, ◌≤◌, ◌<◌, ◌≡◌, refl, ap, ◌∙◌, ◌↔◌, ◌⊎◌, inl, inr, Bool, true, false, Option, none, some, List,
  [], ◌∷◌, arith, length,
}
use io_t_firmware.Queue.{Queue}
use io_t_firmware.EspNow.{
  RxFrame, Callback, sent_status, frame_in, SendAir, Uplink, on_sent, on_received, run_callback,
  wait_done, send_packet,
}

-- The first report among the callbacks.
abbrev pub first_status : List Callback → Option Bool
first_status [] = none
first_status (sent_status s ∷ cs) = some s
first_status (frame_in mac bytes ∷ cs) = first_status cs

module _ (max_data_len : ℕ) (Q : Queue RxFrame) where
  wait_done_full :
      (cs : List Callback) (u : Uplink max_data_len Q)
      → u.send_done ≡ true
      → wait_done max_data_len Q cs u ≡ (true, record u { send_done = false })
  unfolding wait_done
  wait_done_full [] u h = ground arith
  wait_done_full (c ∷ cs) u h = rw h refl

  on_received_keeps :
      (mac bytes : List ℕ) (u : Uplink max_data_len Q)
      → let u' = on_received max_data_len Q mac bytes u in
        (u'.initialised ≡ u.initialised)
        × (u'.send_done ≡ u.send_done)
        × (u'.delivery_success ≡ u.delivery_success)
  unfolding on_received
  on_received_keeps mac bytes u = ground arith

  wait_done_step :
      (c : Callback) (cs : List Callback) (u : Uplink max_data_len Q)
      → u.send_done ≡ false
      → wait_done max_data_len Q (c ∷ cs) u
        ≡ wait_done max_data_len Q cs (run_callback max_data_len Q c u)
  unfolding wait_done
  wait_done_step c cs u h = rw h refl

  on_sent_report :
      (s : Bool) (u : Uplink max_data_len Q)
      → u.initialised ≡ true
      → run_callback max_data_len Q (sent_status s) u
        ≡ record u { delivery_success = s; send_done = true }
  unfolding run_callback on_sent
  on_sent_report s u i = rw i refl

  -- How a wait for the first report ends.
  abbrev Waited : List Callback → Bool × Uplink max_data_len Q → Type 0
  Waited cs r =
      ((first_status cs ≡ none) × (r.0 ≡ false))
      ⊎ ((s : Bool) × (first_status cs ≡ some s) × (r.0 ≡ true) × (r.1.delivery_success ≡ s))

  wait_done-Waited :
      (cs : List Callback) (u : Uplink max_data_len Q)
      → u.initialised ≡ true
      → u.send_done ≡ false
      → Waited cs (wait_done max_data_len Q cs u)
  unfolding run_callback wait_done
  wait_done-Waited [] u i h = inl (refl, h)
  wait_done-Waited (sent_status s ∷ cs) u i h =
      let next : Uplink max_data_len Q = record u { delivery_success = s; send_done = true } in
      let ends : wait_done max_data_len Q (sent_status s ∷ cs) u
          ≡ (true, record next { send_done = false }) =
        wait_done_step (sent_status s) cs u h
        ∙ ap (wait_done max_data_len Q cs) (on_sent_report s u i)
        ∙ wait_done_full cs next refl in
      rw ends (inr (s, refl, refl, refl))
  wait_done-Waited (frame_in mac bytes ∷ cs) u i h =
      let (same, idle, kept) = on_received_keeps mac bytes u in
      rw (wait_done_step (frame_in mac bytes) cs u h)
        (wait_done-Waited cs (on_received max_data_len Q mac bytes u) (same ∙ i) (idle ∙ h))

  -- On an initialised link, a send reports success exactly if the frame has 1 to the longest length of
  -- bytes, the radio takes it, and the first delivery report between the clearing of the semaphore and
  -- the end of the wait is a success, whatever an earlier send has left behind.
  pub send_packet_succeeds :
      (air : SendAir) (buf : List ℕ) (u : Uplink max_data_len Q)
      → u.initialised ≡ true
      → ((send_packet max_data_len Q air buf u).0 ≡ true) ↔ (
          (0 < length buf)
          × (length buf ≤ max_data_len)
          × (air.accepted ≡ true)
          × (first_status air.callbacks ≡ some true))
  unfolding send_packet
  send_packet_succeeds air buf u i =
      let waited = wait_done-Waited air.callbacks (record u { send_done = false }) i refl in
      ground (arith, waited)
