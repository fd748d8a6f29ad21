-- ===== src/Handshake.antt =====
-- src/nodes/substation.cpp and lib/links/substation_link/substation_link.cpp together: what the
-- substation answers is what the node waits for.
use io_t_firmware.Base.{
  ap, ℕ, ◌^◌, ◌<◌, ◌≡◌, refl, ◌∙◌, ◌⊎◌, inl, inr, Bool, true, false, some, List, [], ◌∷◌, arith,
  if◌then◌else◌, ==_refl, bytes_eq_refl, length,
}
use io_t_firmware.Wire.{
  link_frame_parse, LinkFrame, uid_len, Uid, Payload, AckPayload, IsPayload, encode_payload,
  encode_ack, encode_link_frame, join, join_ack, link_frame_code, link_frame_make, uid_equals,
}
use io_t_firmware.Wire.RoundTrip.{
  link_frame_parse-make, decode_payload-encode_payload, length-encode_payload,
  decode_ack-encode_ack, length-encode_ack,
}
use io_t_firmware.Substation.{
  Substation, Incoming, JoinedNode, handle_frame, handle_join, enter_joined, find_joined, Mac,
  delivery_ack,
}
use io_t_firmware.Substation.Delivery.{duplicate, kept, refused, reading-Outcome}
use io_t_firmware.Buffer.Invariant.{IsValid}
use io_t_firmware.Buffer
use io_t_firmware.SubstationLink.{SubstationLink, Packet, join_ack_in, delivery_ack_in}

-- A frame as the node's radio hands it over.
abbrev pub from_station : Mac → List ℕ → Packet
from_station m b = record { from = m; bytes = b }

-- The frame of a Join from the node with the UID `u`.
abbrev join_request : ℕ → Uid → List ℕ
join_request epoch u = encode_link_frame (link_frame_make join epoch (some u))

-- Such a frame as it comes in, with what addPeer() gives for its sender.
abbrev pub request_from : Mac → ℕ → Uid → Bool → Incoming
request_from mac epoch u peer_ok = record {
  mac = mac;
  frame = join_request epoch u;
  peer_ok = peer_ok;
}

-- The substation's answer to it.
abbrev join_reply : ℕ → Uid → List ℕ
join_reply epoch u = encode_link_frame (link_frame_make join_ack epoch (some u))

handle_frame_join :
    (e : Incoming) (f : LinkFrame) (s : Substation) (ns : List JoinedNode)
    → link_frame_parse e.frame ≡ some f
    → f.type ≡ 2
    → f.epoch ≡ s.epoch
    → enter_joined e.mac f.uid s.joined ≡ some ns
    → handle_frame e s ≡ (
      (if e.peer_ok then (e.mac, join_reply s.epoch f.uid) ∷ [] else []),
      record s { joined = ns },
    )
unfolding handle_frame handle_join link_frame_code
handle_frame_join e f s ns parsed typed same entered = ground arith

join_answered :
    (mac : Mac) (u : Uid) (peer_ok : Bool) (s : Substation) (ns : List JoinedNode)
    → s.epoch < 2 ^ 32
    → length u ≡ uid_len
    → enter_joined mac u s.joined ≡ some ns
    → handle_frame (request_from mac s.epoch u peer_ok) s
      ≡ ((if peer_ok then (mac, join_reply s.epoch u) ∷ [] else []), record s { joined = ns })
unfolding link_frame_make link_frame_code
join_answered mac u peer_ok s ns w l e =
    handle_frame_join (request_from mac s.epoch u peer_ok) (link_frame_make join s.epoch (some u)) s
      ns (link_frame_parse-make join s.epoch u w l) refl refl e

join_ack_in_frame :
    (u : Uid) (station : Mac) (epoch : ℕ) (k : Packet) (f : LinkFrame)
    → link_frame_parse k.bytes ≡ some f
    → f.type ≡ 3
    → f.epoch ≡ epoch
    → f.uid ≡ u
    → k.from ≡ station
    → join_ack_in u station epoch k ≡ some tt
unfolding join_ack_in uid_equals link_frame_code
join_ack_in_frame u station epoch k f parsed typed same mine here =
    ground (arith, bytes_eq_refl u, bytes_eq_refl station)

join_ack_taken :
    (station : Mac) (u : Uid) (epoch : ℕ)
    → epoch < 2 ^ 32
    → length u ≡ uid_len
    → join_ack_in u station epoch (from_station station (join_reply epoch u)) ≡ some tt
unfolding link_frame_make link_frame_code
join_ack_taken station u epoch w l =
    join_ack_in_frame u station epoch (from_station station (join_reply epoch u))
      (link_frame_make join_ack epoch (some u)) (link_frame_parse-make join_ack epoch u w l) refl
      refl refl refl

-- A Join by a node that has the substation's epoch, and that its table takes, is entered there. Where
-- addPeer() succeeds for the node, it is answered with one frame, and that frame, from the
-- substation, ends the node's wait for its JoinAck; where addPeer() fails, nothing is answered.
pub join_completes :
    (mac station : Mac) (u : Uid) (peer_ok : Bool) (s : Substation) (ns : List JoinedNode)
    → s.epoch < 2 ^ 32
    → length u ≡ uid_len
    → enter_joined mac u s.joined ≡ some ns
    → let (out, s') = handle_frame (request_from mac s.epoch u peer_ok) s in
      (s'.joined ≡ ns)
      × (((peer_ok ≡ true)
            × (b : List ℕ) × (out ≡ (mac, b) ∷ [])
            × (join_ack_in u station s.epoch (from_station station b) ≡ some tt))
          ⊎ ((peer_ok ≡ false) × (out ≡ [])))
join_completes mac station u true s ns w l e =
    let h = join_answered mac u true s ns w l e in
    let taken = join_ack_taken station u s.epoch w l in
    (ap (λ r. r.1.joined) h, inl (refl, join_reply s.epoch u, ap (λ r. r.0) h, taken))
join_completes mac station u false s ns w l e =
    let h = join_answered mac u false s ns w l e in
    (ap (λ r. r.1.joined) h, inr (refl, ap (λ r. r.0) h))

delivery_ack_taken :
    (l : SubstationLink) (p : Payload)
    → IsPayload p
    → p.uid ≡ l.uid
    → delivery_ack_in l p.seq
        (from_station l.substation_mac (encode_ack (record { uid = p.uid; seq = p.seq })))
      ≡ some tt
unfolding delivery_ack_in uid_equals
delivery_ack_taken l p v e =
    let a : AckPayload = record { uid = p.uid; seq = p.seq } in
    let back = decode_ack-encode_ack a v.uid_size v.seq_word in
    let long = length-encode_ack a v.uid_size in
    rw (back, long, bytes_eq_refl l.substation_mac, e, bytes_eq_refl l.uid, ==_refl p.seq) refl

-- A reading of a joined node with the link's UID is answered by the acknowledgement that ends the
-- wait of the node's send, or it was refused by a buffer without room and nothing is answered.
pub delivery_completes :
    (mac : Mac) (l : SubstationLink) (p : Payload) (s : Substation) (i : ℕ)
    → IsValid s.buffer
    → IsPayload p
    → p.uid ≡ l.uid
    → find_joined mac s.joined ≡ some i
    → let out =
        (handle_frame (record { mac = mac; frame = encode_payload p; peer_ok = true }) s).0 in
      ((b : List ℕ) × (out ≡ (mac, b) ∷ [])
        × (delivery_ack_in l p.seq (from_station l.substation_mac b) ≡ some tt))
      ⊎ ((out ≡ []) × ((Buffer.push p s.buffer).0 ≡ false))
unfolding delivery_ack
delivery_completes mac l p s i v w e h =
    let back = decode_payload-encode_payload p w in
    let b = encode_ack (record { uid = p.uid; seq = p.seq }) in
    let taken = delivery_ack_taken l p w e in
    let acked = ap {B = List (Mac × List ℕ)} (λ q. delivery_ack mac q ∷ []) back in
    elim (reading-Outcome (record { mac = mac; frame = encode_payload p; peer_ok = true }) s i v
      (length-encode_payload p w.uid_size) h) [
        | duplicate d r ↦ inl (b, ap (λ t. t.0) r ∙ acked, taken)
        | kept r q ↦ inl (b, r ∙ acked, taken)
        | refused f r ↦ inr (ap (λ t. t.0) r, rw back at f)
      ]
