-- ===== src/Tests/Nodes.antt =====
-- The theorems on the gateway, on a node and a substation that meet, on the ESP-NOW link, and on the
-- cycles and the start of a node.
use io_t_firmware.Base.{
  ◌≤◌, ◌<◌, ◌≡◌, refl, ◌↔◌, Bool, true, false, some, List, [], ◌∷◌, arith, ltb, if◌then◌else◌, take,
  replicate,
}
use io_t_firmware.Wire.{encode_payload, payload_size, rs485}
use io_t_firmware.Queue.Lists.{list_queue, list_queue-IsQueue}
use io_t_firmware.Gateway
use io_t_firmware.Gateway.{RxAir}
use io_t_firmware.EspNow
use io_t_firmware.EspNow.{RxFrame, rx_queue_depth, Uplink, SendAir}
use io_t_firmware.EspNow.Window
use io_t_firmware.EspNow.Window.{link_run, window_run, link_run_refines}
use io_t_firmware.EspNow.Sending.{first_status, send_packet_succeeds}
use io_t_firmware.BringUp
use io_t_firmware.BringUp.{EndNodeParts, Devices, end_node_bring_up}
use io_t_firmware.Gateway.Network.{setup_wifi}
use io_t_firmware.Gateway.Network.Ends.{failures, setup_wifi_lem}
use io_t_firmware.BringUp.Order.{
  all_steps, goes_on, up_to_failure, all_go_on, end_node_bring_up_lem,
}
use io_t_firmware.Tests.{sample, meter_a}

abbrev packet : RxAir
packet = record { packet_size = payload_size; fifo = encode_payload sample; rssi = 90; snr = 7 }

abbrev steps : List Gateway.Step
steps = Gateway.check ∷ Gateway.receive packet ∷ Gateway.peek ∷ Gateway.publish true true ∷ []

abbrev link_up : Uplink 250 (list_queue RxFrame rx_queue_depth)
link_up = record { initialised = true; rx_queue = []; send_done = true; delivery_success = false }

abbrev events : List Window.Event
events =
    Window.called_back (EspNow.frame_in (1 ∷ []) (7 ∷ []))
    ∷ Window.taken 250
    ∷ Window.taken 250
    ∷ []

link_run_refines_example :
    let Q = list_queue RxFrame rx_queue_depth in
    let (r, u') = link_run 250 Q events link_up in
    let (o, fs) = window_run 250 events [] in (r ≡ o) × (Q.items u'.rx_queue ≡ fs)
link_run_refines_example =
    link_run_refines 250 (list_queue RxFrame rx_queue_depth)
      (list_queue-IsQueue RxFrame rx_queue_depth) events link_up refl (omega arith)

abbrev delivered : SendAir
delivered = record { accepted = true; callbacks = EspNow.sent_status true ∷ [] }

send_packet_succeeds_example :
    ((EspNow.send_packet 250 (list_queue RxFrame rx_queue_depth) delivered (1 ∷ []) link_up).0
      ≡ true)
    ↔ ((0 < 1) × (1 ≤ 250) × (true ≡ true) × (first_status delivered.callbacks ≡ some true))
send_packet_succeeds_example =
    send_packet_succeeds 250 (list_queue RxFrame rx_queue_depth) delivered (1 ∷ []) link_up refl

abbrev parts : EndNodeParts
parts = record {
  node_type = rs485;
  uid = meter_a;
  community_id = 1;
  unit_id = 2;
  has_ap = true;
  bus_policy = BringUp.tolerated;
}

abbrev devices : Devices
devices = record {
  nvs_ok = true;
  stored_seq = some 41;
  ap_ok = true;
  bus_ok = false;
  reader_ok = true;
  radio_ok = true;
  after_join = λ l. l;
}

end_node_bring_up_lem_example :
    let s = end_node_bring_up parts devices 0 sample in
    let ok = goes_on parts devices in
    (s.steps ≡ up_to_failure ok (all_steps parts))
    × (s.success ≡ all_go_on ok (all_steps parts))
    × (s.payload ≡ (if s.success then BringUp.identify parts sample else sample))
end_node_bring_up_lem_example = end_node_bring_up_lem parts devices 0 sample

-- Three readings of the status before the network is there.
abbrev joining : List Bool
joining = false ∷ false ∷ false ∷ replicate 20 true

setup_wifi_lem_example :
    let n = failures (take 21 joining) in setup_wifi joining ≡ some (ltb n 21, n)
unfolding replicate
setup_wifi_lem_example = setup_wifi_lem joining (omega arith)
