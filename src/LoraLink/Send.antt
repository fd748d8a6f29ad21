-- ===== src/LoraLink/Send.antt =====
-- lora_link.cpp, sendPacket: what a blocking send puts on the air, and that it comes back.
use mathlib.Core.Option
use io_t_firmware.Base.{
  ℕ, ◌+◌, ◌*◌, ◌≤◌, ◌<◌, ◌≡◌, ap, inl, inr, Bool, true, false, some, List, arith, Option-cases,
  length, All,
}
use io_t_firmware.Wire.{payload_size, encode_payload, decode_payload}
use io_t_firmware.LoraLink.{
  acked, failed, idle, transmit, LoRaLinkConfig, LoRaLink, Air, begin_send, is_acked,
  poll_until_done, send_packet,
}
use io_t_firmware.LoraLink.Retry.{budget, waits, Ran, poll_until_done-Ran}

module _ (c : LoRaLinkConfig) (buf : List ℕ) (now : ℕ) (l : LoRaLink) (m : c.max_retries < 256)
    (size : length buf ≡ payload_size) (free : l.phase ≡ idle) where
  -- What beginSend() makes of an idle link.
  abbrev started : LoRaLink
  started = record {
    pending = decode_payload buf;
    attempt = 0;
    phase = transmit;
    phase_start = now;
  }

  begin_send_idle : begin_send buf now l ≡ (true, started)
  unfolding begin_send
  begin_send_idle = ground arith

  started-Ran : (airs : List Air) → Ran c airs started (poll_until_done c airs started)
  started-Ran airs = poll_until_done-Ran c airs started m (λ e. cc) (omega arith)

  -- How the result of the loop is told from that of the call.
  refused :
      (airs : List Air)
      → Option.map is_acked (poll_until_done c airs started).0 ≡ some false
      → (poll_until_done c airs started).0 ≡ some failed
  refused airs h = elim (Option-cases (poll_until_done c airs started).0) [
    | inl e ↦ ground arith
    | inr (s, e) ↦ ground (arith, (started-Ran airs).outcome s e)
  ]

  delivered :
      (airs : List Air)
      → Option.map is_acked (poll_until_done c airs started).0 ≡ some true
      → (poll_until_done c airs started).0 ≡ some acked
  delivered airs h = elim (Option-cases (poll_until_done c airs started).0) [
    | inl e ↦ ground arith
    | inr (s, e) ↦ ground (arith, (started-Ran airs).outcome s e)
  ]

  -- With maxRetries below 256, a send of a payload-sized buffer over an idle link transmits that reading and nothing else, at most
  -- max(1, maxRetries) times, exactly that often when it fails, and at least once when it succeeds.
  pub send_packet_frames :
      (airs : List Air)
      → let (result, frames, l') = send_packet c buf now airs l in
        All (λ f. f ≡ encode_payload (decode_payload buf)) frames
        × (length frames ≤ budget c)
        × (result ≡ some false → length frames ≡ budget c)
        × (result ≡ some true → 1 ≤ length frames)
  unfolding send_packet
  send_packet_frames airs =
      let r = started-Ran airs in
      rw begin_send_idle (
        r.frames,
        omega (arith, r.at_most, r.counted),
        λ h. omega (arith, r.counted, r.gave_up (refused airs h)),
        λ h. omega (arith, r.counted, r.accepted (delivered airs h)),
      )

  -- With maxRetries below 256, the loop of sendPacket() ends on an idle link: it goes round at most 3 * max(1, maxRetries) + 1 times, not counting
  -- the polls made while a timer runs.
  pub send_packet_ends :
      (airs : List Air)
      → waits c airs started + 3 * budget c + 1 ≤ length airs
      → (s : Bool) × ((send_packet c buf now airs l).0 ≡ some s)
  unfolding send_packet
  send_packet_ends airs h =
      rw begin_send_idle (elim (Option-cases (poll_until_done c airs started).0) [
        | inl e ↦ absurd (omega (arith, (started-Ran airs).ends e))
        | inr (s, e) ↦ (is_acked s, ap (Option.map is_acked) e)
      ])
