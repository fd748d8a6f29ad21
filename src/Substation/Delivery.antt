-- ===== src/Substation/Delivery.antt =====
-- substation.cpp, handleIncoming: when a reading is acknowledged to its node, and what is then kept.
use io_t_firmware.Base.{
  ℕ, ◌≡◌, refl, ◌∙◌, ◌≢◌, ◌⊎◌, inl, inr, true, false, ◌&&◌, some, List, [], ◌∷◌, arith, ◌==◌,
  if◌then◌else◌, Bool-cases, length, set, get_or-set_self,
}
use io_t_firmware.Wire.{Uid, Payload, payload_size, decode_payload, uid_equals}
use io_t_firmware.Wire.RoundTrip.{link_frame_parse_size}
use io_t_firmware.Buffer.{Buffer, reading_of}
use io_t_firmware.Buffer
use io_t_firmware.Buffer.Ring.{enqueue}
use io_t_firmware.Buffer.Invariant.{IsValid}
use io_t_firmware.Buffer.Refine.{queue, push_refines}
use io_t_firmware.Substation.Joined.{find_joined-set, find_joined_sound}
use io_t_firmware.Substation.{
  Mac, JoinedNode, Substation, Sent, Incoming, find_joined, zero_node, node_at, delivery_ack,
  handle_reading, handle_frame,
}

-- The entry of a node whose reading was acknowledged.
abbrev acked_node : JoinedNode → Payload → JoinedNode
acked_node n p = record n { last_seq = p.seq; has_seq = true }

-- The three ways in which handleIncoming deals with a reading of a joined node.
module _ (m : Mac) (i : ℕ) (p : Payload) (s : Substation) where
  abbrev pub IsDuplicate : Type 0
  IsDuplicate = ((node_at s.joined i).has_seq ≡ true) × ((node_at s.joined i).last_seq ≡ p.seq)

  handle_duplicate : IsDuplicate → handle_reading m i p s ≡ (delivery_ack m p ∷ [], s)
  unfolding handle_reading
  handle_duplicate d = ground arith

  -- The substation with the reading in its buffer and noted as the node's last.
  abbrev pub with_reading : Substation
  with_reading = record s {
    joined = set s.joined i (acked_node (node_at s.joined i) p);
    buffer = (Buffer.push p s.buffer).1;
  }

  handle_kept :
      ¬ IsDuplicate
      → (Buffer.push p s.buffer).0 ≡ true
      → handle_reading m i p s ≡ (delivery_ack m p ∷ [], with_reading)
  unfolding handle_reading
  handle_kept d h = ground arith

  handle_refused :
      ¬ IsDuplicate
      → IsValid s.buffer
      → (Buffer.push p s.buffer).0 ≡ false
      → handle_reading m i p s ≡ ([], s)
  unfolding handle_reading
  handle_refused d v h = ground (arith, (push_refines p s.buffer p.uid v).1 h)

  duplicate-cases : IsDuplicate ⊎ (¬ IsDuplicate)
  duplicate-cases =
      elim (Bool-cases ((node_at s.joined i).has_seq && (node_at s.joined i).last_seq == p.seq)) [
        | inl e ↦ inl (ground arith)
        | inr e ↦ inr (λ d. ground arith)
      ]

-- A frame of a reading's size from a joined node is taken as a reading.
handle_frame_reading :
    (e : Incoming) (s : Substation) (i : ℕ)
    → length e.frame ≡ payload_size
    → find_joined e.mac s.joined ≡ some i
    → handle_frame e s ≡ handle_reading e.mac i (decode_payload e.frame) s
unfolding handle_frame
handle_frame_reading e s i l h = ground (arith, link_frame_parse_size e.frame)

-- What becomes of a reading: `out` goes back to the node, `s'` is the substation afterwards.
pub data Outcome (m : Mac) (i : ℕ) (p : Payload) (s : Substation) (r : List Sent × Substation)
    : Type 0 where
  -- It was acknowledged before: it is acknowledged again, and nothing changes.
  duplicate : IsDuplicate m i p s → r ≡ (delivery_ack m p ∷ [], s) → Outcome m i p s r
  -- It is now the newest reading in the queue of its UID, and acknowledged.
  kept :
      r.0 ≡ delivery_ack m p ∷ []
      → ((u : Uid)
          → queue r.1.buffer u ≡ (
              if uid_equals p.uid u
              then enqueue (queue s.buffer p.uid) (reading_of p)
              else queue s.buffer u))
      → Outcome m i p s r
  -- The buffer has no room for a new UID: nothing changes, and the node hears nothing.
  refused : (Buffer.push p s.buffer).0 ≡ false → r ≡ ([], s) → Outcome m i p s r

-- With a well-formed buffer, for a frame of the size of a payload from a joined node, one of three
-- things happens: it has the sequence number last acknowledged to that node, is acknowledged again
-- and changes nothing; or it is now the newest reading in the queue of its UID, and acknowledged;
-- or the buffer refuses it, nothing changes and nothing is sent.
pub reading-Outcome :
    (e : Incoming) (s : Substation) (i : ℕ)
    → IsValid s.buffer
    → length e.frame ≡ payload_size
    → find_joined e.mac s.joined ≡ some i
    → Outcome e.mac i (decode_payload e.frame) s (handle_frame e s)
reading-Outcome e s i v l h =
    let p = decode_payload e.frame in
    rw (handle_frame_reading e s i l h) (elim (duplicate-cases e.mac i p s) [
      | inl d ↦ Outcome.duplicate d (handle_duplicate e.mac i p s d)
      | inr n ↦ elim (Bool-cases (Buffer.push p s.buffer).0) [
        | inl k ↦
            rw (handle_kept e.mac i p s n k)
              (Outcome.kept refl (λ u. (push_refines p s.buffer u v).0 k))
        | inr k ↦ Outcome.refused k (handle_refused e.mac i p s n v k)
      ]
    ])

-- The node stays joined, and its last reading is noted.
still_joined :
    (e : Incoming) (s : Substation) (i : ℕ)
    → find_joined e.mac s.joined ≡ some i
    → find_joined e.mac (with_reading e.mac i (decode_payload e.frame) s).joined ≡ some i
still_joined e s i h = find_joined-set e.mac s.joined i _ refl ∙ h

noted :
    (e : Incoming) (s : Substation) (i : ℕ)
    → find_joined e.mac s.joined ≡ some i
    → IsDuplicate e.mac i (decode_payload e.frame) (with_reading e.mac i (decode_payload e.frame) s)
noted e s i h =
    let p = decode_payload e.frame in
    rw
      (get_or-set_self s.joined i (acked_node (node_at s.joined i) p) zero_node
        (find_joined_sound e.mac s.joined i h).0)
      (refl, refl)

-- With a well-formed buffer, a payload-sized frame of a joined node that was answered and that
-- comes a second time is answered the same way again, and the second copy changes nothing.
pub resend_is_kept_once :
    (e : Incoming) (s : Substation) (i : ℕ)
    → IsValid s.buffer
    → length e.frame ≡ payload_size
    → find_joined e.mac s.joined ≡ some i
    → let (out, s') = handle_frame e s in out ≢ [] → handle_frame e s' ≡ (out, s')
resend_is_kept_once e s i v l h =
    let p = decode_payload e.frame in
    rw (handle_frame_reading e s i l h) (elim (duplicate-cases e.mac i p s) [
      | inl d ↦
          rw (handle_duplicate e.mac i p s d)
            (λ ne. handle_frame_reading e s i l h ∙ handle_duplicate e.mac i p s d)
      | inr n ↦ elim (Bool-cases (Buffer.push p s.buffer).0) [
        | inl k ↦ rw (handle_kept e.mac i p s n k) (λ ne.
            handle_frame_reading e (with_reading e.mac i p s) i l (still_joined e s i h)
            ∙ handle_duplicate e.mac i p (with_reading e.mac i p s) (noted e s i h))
        | inr k ↦ rw (handle_refused e.mac i p s n v k) (λ ne. absurd (ne refl))
      ]
    ])
