-- ===== src/LoraLink/Receive.antt =====
-- lora_link.cpp, receivePacket: what it hands over, and what it then sends.
use io_t_firmware.Base.{
  ℕ, zero, suc, ◌≡◌, sym, ap, ◌∙◌, inl, inr, not, some, List, [], ◌∷◌, arith, ltb, ◌==◌,
  if◌then◌else◌, Option-cases, if_both, map-eq-some, length,
}
use io_t_firmware.Wire.{payload_size, ack_payload_size, decode_payload, encode_ack}
use io_t_firmware.LoraLink.{Received, nothing, too_small, got, read_frame, receive_packet}

read_frame-length : (fifo : List ℕ) (n : ℕ) (b : List ℕ) → read_frame fifo n ≡ some b → length b ≡ n
unfolding read_frame
read_frame-length fifo zero b h = ground arith
read_frame-length [] (suc n) b h = ground arith
read_frame-length (x ∷ fifo) (suc n) b h =
    let (c, e, k) = map-eq-some (read_frame fifo n) _ b h in
    ap length (sym k) ∙ ap suc (read_frame-length fifo n c e)

-- What the receiving side hands over is a payload, and it is then acknowledged; else nothing is sent.
pub data Handed : Received × List (List ℕ) → Type 0 where
  payload :
      (b : List ℕ)
      → length b ≡ payload_size
      → Handed (
        got b,
        encode_ack (record { uid = (decode_payload b).uid; seq = (decode_payload b).seq }) ∷ [],
      )
  none_here : Handed (nothing, [])
  no_room : Handed (too_small, [])

guards-Handed :
    (size n : ℕ) {x : Received × List (List ℕ)}
    → Handed x
    → Handed (
        if size == 0
        then (nothing, [])
        else if size == ack_payload_size
        then (nothing, [])
        else if not (size == payload_size)
        then (nothing, [])
        else if ltb n payload_size
        then (too_small, [])
        else x)
guards-Handed size n h = if_both Handed (size == 0) none_here (
    if_both Handed (size == ack_payload_size) none_here (
      if_both Handed (not (size == payload_size)) none_here
        (if_both Handed (ltb n payload_size) no_room h)))

pub receive_packet-Handed : (size : ℕ) (fifo : List ℕ) (n : ℕ) → Handed (receive_packet size fifo n)
unfolding receive_packet
receive_packet-Handed size fifo n = elim (Option-cases (read_frame fifo payload_size)) [
  | inl e ↦ rw e (guards-Handed size n none_here)
  | inr (b, e) ↦ rw e (guards-Handed size n (payload b (read_frame-length fifo payload_size b e)))
]
