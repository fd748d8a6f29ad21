-- ===== src/Tests/Radio.antt =====
-- The theorems on lora_link.cpp at a link that has sent a reading.
use io_t_firmware.Base.{
  ℕ, ◌+◌, ◌≤◌, ◌≡◌, refl, ap, Bool, true, false, some, List, [], ◌∷◌, arith, length, replicate, All,
}
use io_t_firmware.Wire.{encode_payload, decode_payload, encode_ack, payload_size, ack_payload_size}
use io_t_firmware.LoraLink.{
  LoRaLinkConfig, LoRaLink, Air, acked, transmit, await_ack, idle, poll_send, receive_packet,
  send_packet, poll_await, poll_transmit, poll_backoff, enter_phase,
}
use io_t_firmware.LoraLink.Ack.{ack_of, receive_packet-encode_payload, ack_completes_send}
use io_t_firmware.LoraLink.Retry.{budget, waits}
use io_t_firmware.LoraLink.Send.{send_packet_frames, send_packet_ends}
use io_t_firmware.Tests.{sample, sample-IsPayload}

abbrev three_tries : LoRaLinkConfig
three_tries = record { max_retries = 3; ack_timeout_ms = 2000 }

abbrev waiting_link : LoRaLink
waiting_link = record { pending = sample; attempt = 1; phase = await_ack; phase_start = 100 }

abbrev idle_link : LoRaLink
idle_link = record { pending = sample; attempt = 0; phase = idle; phase_start = 0 }

abbrev sample_ack : List ℕ
sample_ack = encode_ack (ack_of sample)

abbrev ack_air : Air
ack_air = record {
  send_ok = true;
  packet_size = ack_payload_size;
  fifo = sample_ack;
  now = 150;
  entered = 150;
}

answered : (receive_packet payload_size (encode_payload sample) payload_size).1 ≡ sample_ack ∷ []
answered =
    ap (λ r. r.1) (receive_packet-encode_payload sample payload_size sample-IsPayload (omega arith))

ack_completes_send_example : (poll_send three_tries ack_air waiting_link).0 ≡ acked
ack_completes_send_example =
    ack_completes_send three_tries ack_air waiting_link sample-IsPayload refl refl answered

length-sample : length (encode_payload sample) ≡ payload_size
unfolding encode_payload replicate
length-sample = refl

-- The radio transmits, and then holds the acknowledgement.
abbrev late_air : Air
late_air = record ack_air { now = 5000 }

abbrev good_airs : List Air
good_airs =
    ack_air ∷ ack_air ∷ ack_air ∷ ack_air ∷ ack_air ∷ ack_air ∷ ack_air ∷ ack_air ∷ ack_air
    ∷ ack_air ∷ []

send_packet_frames_example :
    let (result, frames, l') =
      send_packet three_tries (encode_payload sample) 100 good_airs idle_link in
    All (λ f. f ≡ encode_payload (decode_payload (encode_payload sample))) frames
    × (length frames ≤ budget three_tries)
    × (result ≡ some false → length frames ≡ budget three_tries)
    × (result ≡ some true → 1 ≤ length frames)
send_packet_frames_example =
    send_packet_frames three_tries (encode_payload sample) 100 idle_link (omega arith) length-sample
      refl good_airs

-- The radio transmits, and hears nothing until each timer has run out.
abbrev dead_air : Air
dead_air = record { send_ok = true; packet_size = 0; fifo = []; now = 5000; entered = 150 }

abbrev dead_airs : List Air
dead_airs = replicate 10 dead_air

abbrev sending_link : LoRaLink
sending_link = record {
  pending = decode_payload (encode_payload sample);
  attempt = 0;
  phase = transmit;
  phase_start = 100;
}

no_waits : waits three_tries dead_airs sending_link + 10 ≡ length dead_airs
unfolding waits replicate poll_send poll_await poll_transmit poll_backoff enter_phase
no_waits = refl

send_packet_ends_example :
    (s : Bool) × ((send_packet three_tries (encode_payload sample) 100 dead_airs idle_link).0
      ≡ some s)
send_packet_ends_example =
    send_packet_ends three_tries (encode_payload sample) 100 idle_link (omega arith) length-sample
      refl dead_airs (omega (arith, no_waits))
