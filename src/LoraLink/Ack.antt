-- ===== src/LoraLink/Ack.antt =====
-- lora_link.cpp: which packets end a send, and that the receiver's acknowledgement is one of them.
use io_t_firmware.Base.{
  ℕ, zero, suc, ◌≤◌, ◌<◌, ◌≡◌, refl, ap, ◌∙◌, ◌↔◌, inl, inr, none, some, List, [], ◌∷◌, arith,
  Option-cases, length, take, take_all,
}
use io_t_firmware.Wire.{
  Payload, AckPayload, payload_size, ack_payload_size, IsBytes, IsPayload, encode_payload,
  encode_ack, decode_ack,
}
use io_t_firmware.Wire.RoundTrip.{
  decode_payload-encode_payload, length-encode_payload, decode_ack-encode_ack, length-encode_ack,
  encode_payload-IsBytes, encode_ack-IsBytes,
}
use io_t_firmware.Buffer.Keys.{uid_equals→eq, uid_equals_refl}
use io_t_firmware.LoraLink.{
  acked, await_ack, LoRaLinkConfig, LoRaLink, Air, read_frame, ack_matches, poll_transmit,
  poll_await, poll_backoff, poll_send, got, receive_packet,
}

-- readFrame reads the first `n` bytes of what the radio holds, if there are that many.
read_frame_lem :
    (fifo : List ℕ) (n : ℕ)
    → IsBytes fifo
    → n ≤ length fifo
    → read_frame fifo n ≡ some (take n fifo)
unfolding read_frame
read_frame_lem fifo zero v h = refl
read_frame_lem [] (suc n) v h = absurd (omega arith)
read_frame_lem (x ∷ fifo) (suc n) v h = ground (arith, read_frame_lem fifo n)

read_frame_whole : (b : List ℕ) (n : ℕ) → IsBytes b → length b ≡ n → read_frame b n ≡ some b
read_frame_whole b n v h = read_frame_lem b n v (omega arith) ∙ ap some (take_all n b h)

-- A packet too short for the read makes it fail.
pub read_frame_short : (fifo : List ℕ) (n : ℕ) → length fifo < n → read_frame fifo n ≡ none
unfolding read_frame
read_frame_short fifo zero h = absurd (omega arith)
read_frame_short [] (suc n) h = refl
read_frame_short (x ∷ fifo) (suc n) h = ground (arith, read_frame_short fifo n)

-- A poll reports Acked exactly when the link waits for an acknowledgement and the radio holds a
-- packet of the size of one, complete, with the UID and sequence number of the reading in flight.
pub poll_send_acked :
    (c : LoRaLinkConfig) (air : Air) (l : LoRaLink)
    → ((poll_send c air l).0 ≡ acked) ↔ (
        (l.phase ≡ await_ack)
        × (air.packet_size ≡ ack_payload_size)
        × ((b : List ℕ) × (read_frame air.fifo ack_payload_size ≡ some b)
            × ((decode_ack b).uid ≡ l.pending.uid)
            × ((decode_ack b).seq ≡ l.pending.seq)))
unfolding poll_send poll_await poll_transmit poll_backoff ack_matches
poll_send_acked c air l = (
  λ h. elim (Option-cases (read_frame air.fifo ack_payload_size)) [
    | inl e ↦ ground arith
    | inr (b, e) ↦
        let u = uid_equals→eq (decode_ack b).uid l.pending.uid in
        (ground arith, ground arith, (b, e, ground (arith, u), ground arith))
  ],
  λ (p, z, (b, e, u, s)). ground (arith, uid_equals_refl l.pending.uid),
)

-- The acknowledgement that receivePacket() sends for a payload.
abbrev pub ack_of : Payload → AckPayload
ack_of p = record { uid = p.uid; seq = p.seq }

-- receivePacket(), given the bytes of a payload whose fields fit their types and room for them,
-- hands them over and sends the acknowledgement with the payload's UID and sequence number.
pub receive_packet-encode_payload :
    (p : Payload) (n : ℕ)
    → IsPayload p
    → payload_size ≤ n
    → receive_packet payload_size (encode_payload p) n
      ≡ (got (encode_payload p), encode_ack (ack_of p) ∷ [])
unfolding receive_packet
receive_packet-encode_payload p n v h =
    let whole : read_frame (encode_payload p) payload_size ≡ some (encode_payload p) =
      read_frame_whole (encode_payload p) payload_size (encode_payload-IsBytes p v)
        (length-encode_payload p v.uid_size) in
    ground (arith, whole, decode_payload-encode_payload p v)

-- A link that waits with a payload whose fields fit their types, and that finds in its radio what
-- receivePacket() answers to the bytes of that payload, reports Acked at the next poll.
pub ack_completes_send :
    (c : LoRaLinkConfig) (air : Air) (l : LoRaLink)
    → IsPayload l.pending
    → l.phase ≡ await_ack
    → air.packet_size ≡ ack_payload_size
    → (receive_packet payload_size (encode_payload l.pending) payload_size).1 ≡ air.fifo ∷ []
    → (poll_send c air l).0 ≡ acked
ack_completes_send c air l v ph sz rx =
    let a = ack_of l.pending in
    let sent : air.fifo ≡ encode_ack a =
      ground (arith, receive_packet-encode_payload l.pending payload_size v (omega arith)) in
    let read : read_frame air.fifo ack_payload_size ≡ some (encode_ack a) = rw sent (
      read_frame_whole (encode_ack a) ack_payload_size (encode_ack-IsBytes a v.uid_bytes)
        (length-encode_ack a v.uid_size)) in
    let back : decode_ack (encode_ack a) ≡ a = decode_ack-encode_ack a v.uid_size v.seq_word in
    (poll_send_acked c air l).1 (
      ph,
      sz,
      (
        encode_ack a,
        read,
        ap (λ (x : AckPayload). x.uid) back,
        ap (λ (x : AckPayload). x.seq) back,
      ),
    )
