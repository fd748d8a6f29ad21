-- ===== src/Substation/Loop.antt =====
-- substation.cpp: every state that the substation reaches from its start is coherent.
use io_t_firmware.Base.{
  ℕ, ◌≡◌, refl, ◌≢◌, inl, inr, Bool, true, false, ◌&&◌, some, List, [], ◌∷◌, arith, ◌==◌,
  if◌then◌else◌, Bool-cases, Option-cases, length,
}
use io_t_firmware.Wire.{
  Payload, LinkFrame, payload_size, decode_payload, join, link_frame_code, link_frame_parse,
}
use io_t_firmware.Buffer.{Buffer}
use io_t_firmware.Buffer
use io_t_firmware.Buffer.Preserve.{push-IsValid, clear-IsValid}
use io_t_firmware.Buffer.Holding.{Holding, push-Holding}
use io_t_firmware.LoraLink.{idle, LoRaLinkConfig}
use io_t_firmware.Substation.Joined.{IsTable-set, enter_joined-IsTable}
use io_t_firmware.Substation.Relay.{IsCoherent, relay_step-IsCoherent}
use io_t_firmware.Substation.{
  Sent, Mac, JoinedNode, Substation, Incoming, not_yet, find_joined, node_at, beacon_if_due,
  enter_joined, handle_join, handle_reading, handle_frame, handle_incoming, Tick, substation_loop,
}

-- Each handler keeps the parts in agreement.
handle_join-IsCoherent :
    (m : Mac) (ok : Bool) (f : LinkFrame) (s : Substation)
    → IsCoherent s
    → IsCoherent (handle_join m ok f s).1
unfolding handle_join
handle_join-IsCoherent m ok f s v = elim (Bool-cases (f.epoch == s.epoch)) [
  | inr k ↦ rw (k, handle_join) v
  | inl k ↦ elim (Option-cases (enter_joined m f.uid s.joined)) [
    | inl h ↦ rw (k, h, handle_join) v
    | inr (ns, h) ↦ elim (Bool-cases ok) [
      | inl o ↦ rw (k, h, o, handle_join) (joined ns h)
      | inr o ↦ rw (k, h, o, handle_join) (joined ns h)
    ]
  ]
]
  where
    joined :
        (ns : List JoinedNode)
        → enter_joined m f.uid s.joined ≡ some ns
        → IsCoherent (record s { joined = ns })
    joined ns h = record {
      buffer_valid = v.buffer_valid;
      table = enter_joined-IsTable m f.uid s.joined ns v.table h;
      sends = v.sends;
      holds = v.holds;
    }

handle_reading-IsCoherent :
    (m : Mac) (i : ℕ) (p : Payload) (s : Substation)
    → IsCoherent s
    → IsCoherent (handle_reading m i p s).1
unfolding handle_reading
handle_reading-IsCoherent m i p s v =
    elim (Bool-cases ((node_at s.joined i).has_seq && (node_at s.joined i).last_seq == p.seq)) [
      | inl k ↦ rw (k, handle_reading) v
      | inr k ↦ elim (Bool-cases (Buffer.push p s.buffer).0) [
        | inl h ↦
            rw (k, h, handle_reading)
              (record {
                buffer_valid = push-IsValid p s.buffer v.buffer_valid;
                table = IsTable-set s.joined i _ refl v.table;
                sends = v.sends;
                holds = pushed_holds;
              })
        | inr h ↦
            rw (k, h, handle_reading)
              (record {
                buffer_valid = push-IsValid p s.buffer v.buffer_valid;
                table = v.table;
                sends = v.sends;
                holds = pushed_holds;
              })
      ]
    ]
  where
    pushed_holds : s.lora.phase ≢ idle → Holding (Buffer.push p s.buffer).1 s.in_flight
    pushed_holds ne = push-Holding p s.buffer s.in_flight v.buffer_valid (v.holds ne)

handle_frame-IsCoherent :
    (e : Incoming) (s : Substation) → IsCoherent s → IsCoherent (handle_frame e s).1
unfolding handle_frame
handle_frame-IsCoherent e s v = elim (Option-cases (link_frame_parse e.frame)) [
  | inr (f, h) ↦ elim (Bool-cases (f.type == link_frame_code join)) [
    | inl j ↦ rw (h, j, handle_frame) (handle_join-IsCoherent e.mac e.peer_ok f s v)
    | inr j ↦ rw (h, j, handle_frame) v
  ]
  | inl h ↦ elim (Bool-cases (length e.frame == payload_size)) [
    | inr l ↦ rw (h, l, handle_frame) v
    | inl l ↦ elim (Option-cases (find_joined e.mac s.joined)) [
      | inl j ↦ rw (h, l, j, handle_frame) v
      | inr (i, j) ↦
          rw (h, l, j, handle_frame)
            (handle_reading-IsCoherent e.mac i (decode_payload e.frame) s v)
    ]
  ]
]

handle_incoming-IsCoherent :
    (es : List Incoming) (s : Substation) → IsCoherent s → IsCoherent (handle_incoming es s).1
unfolding handle_incoming
handle_incoming-IsCoherent [] s v = v
handle_incoming-IsCoherent (e ∷ es) s v =
    handle_incoming-IsCoherent es _ (handle_frame-IsCoherent e s v)

beacon_if_due-IsCoherent :
    (n k : ℕ) (s : Substation) → IsCoherent s → IsCoherent (beacon_if_due n k s).1
unfolding beacon_if_due
beacon_if_due-IsCoherent n k s v = elim (Bool-cases (not_yet n s.next_beacon_at)) [
  | inl h ↦ rw (h, beacon_if_due) v
  | inr h ↦
      rw (h, beacon_if_due)
        (record {
          buffer_valid = v.buffer_valid;
          table = v.table;
          sends = v.sends;
          holds = v.holds;
        })
]

either :
    (b : Bool) (x y : List Sent × List (List ℕ) × Substation)
    → IsCoherent x.2
    → IsCoherent y.2
    → IsCoherent (if b then x else y).2
either true x y v w = v
either false x y v w = w

-- One pass of substationLoop keeps a coherent substation coherent.
pub substation_loop-IsCoherent :
    (c : LoRaLinkConfig) (t : Tick) (s : Substation)
    → IsCoherent s
    → IsCoherent (substation_loop c t s).2
unfolding substation_loop
substation_loop-IsCoherent c t s v =
    either s.ready _ _
      (relay_step-IsCoherent c t _ (
        handle_incoming-IsCoherent t.incoming _
          (beacon_if_due-IsCoherent t.beacon_now t.beacon_set_now s v)))
      v

-- The state of the file's variables when setup has succeeded, with the epoch drawn.
pub booted : ℕ → Payload → Substation
booted e p = record {
  joined = [];
  epoch = e;
  next_beacon_at = 0;
  next_send_at = 0;
  in_flight = p;
  ready = true;
  buffer = Buffer.clear;
  lora = record { pending = p; attempt = 0; phase = idle; phase_start = 0 };
}

-- The states that a running substation comes through.
pub data Reach (c : LoRaLinkConfig) (start : Substation) : Substation → Type 0 where
  here : Reach c start start
  pass : (t : Tick) {s : Substation} → Reach c start s → Reach c start (substation_loop c t s).2

booted-IsCoherent : (e : ℕ) (p : Payload) → IsCoherent (booted e p)
unfolding booted
booted-IsCoherent e p = record {
  buffer_valid = clear-IsValid;
  table = record { bounded = omega arith; distinct = tt };
  sends = λ ne. absurd (ne refl);
  holds = λ ne. absurd (ne refl);
}

-- Whatever frames arrive and whatever the radio and the clock do, the substation stays coherent
-- from its start on: the buffer is well formed, at most eight nodes are joined, each MAC once, and
-- the link sends the reading in flight, which is still the one to be popped unless its slot
-- overflowed.
pub Reach-IsCoherent :
    (c : LoRaLinkConfig) (e : ℕ) (p : Payload) {s : Substation}
    → Reach c (booted e p) s
    → IsCoherent s
Reach-IsCoherent c e p here = booted-IsCoherent e p
Reach-IsCoherent c e p (pass t r) = substation_loop-IsCoherent c t _ (Reach-IsCoherent c e p r)
