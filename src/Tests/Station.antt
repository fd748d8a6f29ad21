-- ===== src/Tests/Station.antt =====
-- The theorems on substation.cpp at a substation with one joined node, and those on
-- end_node.cpp.
use io_t_firmware.Base.{
  ℕ, ◌≡◌, refl, sym, ◌∙◌, ◌⊎◌, true, false, some, List, [], ◌∷◌, arith, if◌then◌else◌, bytes_eq,
  codes, length, replicate, length-replicate,
}
use io_t_firmware.Wire.{
  uid_equals, link_frame_parse, encode_payload, decode_payload, payload_size, ack_payload_size,
  decode_ack,
}
use io_t_firmware.Buffer.{push, find_or_claim_slot, scan_slots, zero_slot, clear, reading_of}
use io_t_firmware.Buffer.Preserve.{clear-IsValid}
use io_t_firmware.Buffer.Refine.{queue}
use io_t_firmware.LoraLink.{LoRaLinkConfig, idle, await_ack, read_frame}
use io_t_firmware.Substation.{
  handle_reading, Mac, JoinedNode, Substation, Incoming, Tick, find_joined, enter_joined, new_node,
  handle_frame, relay_step, delivery_ack,
}
use io_t_firmware.Substation.Joined.{IsTable, enter_joined-IsTable}
use io_t_firmware.Substation.Delivery.{Outcome, reading-Outcome, resend_is_kept_once}
use io_t_firmware.Substation.Relay.{IsCoherent, relay_step_queues}
use io_t_firmware.Config.{SubstationConfig}
use io_t_firmware.NvsConfig.Memory.{memory, memory-IsPreferences}
use io_t_firmware.NvsConfig.Console.{newline}
use io_t_firmware.NvsConfig.Loaders.{load_lora_config}
use io_t_firmware.StationSetup.{StationReports, substation_setup, StationBoard}
use io_t_firmware.StationSetup.Coherent.{powered_on, station_rounds, board_rounds-IsCoherent}
use io_t_firmware.SeqCounter.Delivered.{new_reading_is_no_copy}
use io_t_firmware.Buffer.Ring.{enqueue}
use io_t_firmware.Tests.Settings.{lives, handed, c3, fresh}
use io_t_firmware.Handshake.{join_completes, delivery_completes, request_from, from_station}
use io_t_firmware.SubstationLink.{SubstationLink, join_ack_in, delivery_ack_in}
use io_t_firmware.Tests.{sample-IsPayload, sample, meter_a, meter_b}

abbrev mac_a : Mac
mac_a = 1 ∷ 2 ∷ 3 ∷ 4 ∷ 5 ∷ 6 ∷ []

abbrev mac_b : Mac
mac_b = 1 ∷ 2 ∷ 3 ∷ 4 ∷ 5 ∷ 7 ∷ []

abbrev one_node : List JoinedNode
one_node = new_node mac_a meter_a ∷ []

first_entered : enter_joined mac_a meter_a [] ≡ some one_node
unfolding enter_joined find_joined
first_entered = refl

one_node-IsTable : IsTable one_node
one_node-IsTable =
    enter_joined-IsTable mac_a meter_a [] one_node (record { bounded = omega arith; distinct = tt })
      first_entered

abbrev two_nodes : List JoinedNode
two_nodes = new_node mac_a meter_a ∷ new_node mac_b meter_b ∷ []

second_entered : enter_joined mac_b meter_b one_node ≡ some two_nodes
unfolding enter_joined find_joined bytes_eq
second_entered = refl

abbrev station : Substation
station = record {
  joined = one_node;
  epoch = 1234;
  next_beacon_at = 0;
  next_send_at = 0;
  in_flight = sample;
  ready = true;
  buffer = clear;
  lora = record { pending = sample; attempt = 0; phase = idle; phase_start = 0 };
}

station-IsCoherent : IsCoherent station
station-IsCoherent = record {
  buffer_valid = clear-IsValid;
  table = one_node-IsTable;
  sends = λ ne. absurd (ne refl);
  holds = λ ne. absurd (ne refl);
}

abbrev incoming : Incoming
incoming = record { mac = mac_a; frame = encode_payload sample; peer_ok = true }

length-incoming : length incoming.frame ≡ payload_size
unfolding encode_payload replicate
length-incoming = refl

found_a : find_joined mac_a one_node ≡ some 0
unfolding find_joined bytes_eq
found_a = refl

reading-Outcome_example :
    Outcome mac_a 0 (decode_payload (encode_payload sample)) station (handle_frame incoming station)
reading-Outcome_example = reading-Outcome incoming station 0 clear-IsValid length-incoming found_a

answered : (handle_frame incoming station).0 ≡ delivery_ack mac_a sample ∷ []
unfolding handle_frame link_frame_parse encode_payload replicate find_joined bytes_eq handle_reading
    push find_or_claim_slot scan_slots clear zero_slot decode_payload
answered = refl

resend_is_kept_once_example :
    let (out, s') = handle_frame incoming station in handle_frame incoming s' ≡ (out, s')
resend_is_kept_once_example =
    resend_is_kept_once incoming station 0 clear-IsValid length-incoming found_a
      (λ e. let f = sym answered ∙ e in absurd (ground arith))

abbrev two_tries : LoRaLinkConfig
two_tries = record { max_retries = 2; ack_timeout_ms = 2000 }

abbrev tick : Tick
tick = record {
  beacon_now = 10;
  beacon_set_now = 10;
  incoming = incoming ∷ [];
  air = record { send_ok = true; packet_size = 0; fifo = []; now = 20; entered = 20 };
  relay_now = 20;
  begin_now = 20;
}

relay_step_queues_example :
    let s' = (relay_step two_tries tick station).1 in
    (queue s'.buffer meter_a ≡ queue station.buffer meter_a)
    ⊎ ((station.lora.phase ≡ await_ack)
        × ((b : List ℕ) × (read_frame tick.air.fifo ack_payload_size ≡ some b)
            × ((decode_ack b).uid ≡ sample.uid)
            × ((decode_ack b).seq ≡ sample.seq))
        × (meter_a ≡ sample.uid)
        × (queue station.buffer meter_a ≡ reading_of sample ∷ queue s'.buffer meter_a))
relay_step_queues_example = relay_step_queues two_tries tick station meter_a station-IsCoherent

abbrev all_up : StationReports
all_up = record { radio_ok = true; link_ok = true; uplink_ok = true; peer_ok = true; random = 77 }

abbrev unset : SubstationConfig
unset = record {
  lora = load_lora_config memory c3 [];
  link = two_tries;
  esp_now_channel = 0;
  esp_now_timeout_ms = 0;
}

abbrev two_rounds : List (List ℕ × Tick)
two_rounds = (codes "set espnow_chan 11", tick) ∷ (newline ∷ [], tick) ∷ []

board_rounds-IsCoherent_example :
    let (c, s) = substation_setup memory c3 all_up unset [] (powered_on sample) in
    let b : StationBoard memory = record { console = fresh; config = c; station = s } in
    IsCoherent (station_rounds two_rounds b).station
    × ((s.ready ≡ true) ⊎ ((station_rounds two_rounds b).station ≡ powered_on sample))
board_rounds-IsCoherent_example = board_rounds-IsCoherent c3 all_up unset [] fresh sample two_rounds

join_completes_example :
    let (out, s') = handle_frame (request_from mac_b station.epoch meter_b true) station in
    (s'.joined ≡ two_nodes)
    × (((true ≡ true)
          × (b : List ℕ) × (out ≡ (mac_b, b) ∷ [])
          × (join_ack_in meter_b mac_a station.epoch (from_station mac_a b) ≡ some tt))
        ⊎ ((true ≡ false) × (out ≡ [])))
join_completes_example =
    join_completes mac_b mac_a meter_b true station two_nodes (omega arith) (length-replicate 16 9)
      second_entered

abbrev joined_link : SubstationLink
joined_link = record { uid = meter_a; joined = true; substation_mac = mac_b; epoch = 1234 }

delivery_completes_example :
    let out = (handle_frame incoming station).0 in
    ((b : List ℕ) × (out ≡ (mac_a, b) ∷ [])
      × (delivery_ack_in joined_link sample.seq (from_station mac_b b) ≡ some tt))
    ⊎ ((out ≡ []) × ((push sample station.buffer).0 ≡ false))
delivery_completes_example =
    delivery_completes mac_a joined_link sample station 0 clear-IsValid sample-IsPayload refl
      found_a

-- The fourth number comes behind one that was lost, at a substation that has noted the second.
abbrev fourth : Incoming
fourth = record { mac = mac_a; frame = encode_payload (record sample { seq = 4 }); peer_ok = true }

abbrev noted_station : Substation
noted_station = record station {
  joined = record (new_node mac_a meter_a) { last_seq = 2; has_seq = true } ∷ [];
}

length-fourth : length fourth.frame ≡ payload_size
unfolding encode_payload replicate
length-fourth = refl

fourth_number : (decode_payload fourth.frame).seq ≡ 4
unfolding encode_payload decode_payload replicate
fourth_number = refl

fourth_found : find_joined mac_a noted_station.joined ≡ some 0
unfolding find_joined bytes_eq
fourth_found = refl

new_reading_is_no_copy_example :
    let p = decode_payload fourth.frame in
    let (out, s') = handle_frame fourth noted_station in
    ((out ≡ delivery_ack mac_a p ∷ [])
      × (queue s'.buffer meter_b ≡ (
          if uid_equals p.uid meter_b
          then enqueue (queue clear p.uid) (reading_of p)
          else queue clear meter_b)))
    ⊎ (((push p clear).0 ≡ false) × (handle_frame fourth noted_station ≡ ([], noted_station)))
new_reading_is_no_copy_example =
    new_reading_is_no_copy memory memory-IsPreferences (λ n s. refl) [] lives 2 4 (1 ∷ []) [] []
      fourth noted_station 0 meter_b refl (omega arith) handed clear-IsValid length-fourth
      fourth_found refl fourth_number
