-- ===== src/Substation/Relay.antt =====
-- substation.cpp, relayStep: a reading leaves the buffer only when the gateway has acknowledged it.
use io_t_firmware.Base.{
  ℕ, ◌+◌, ◌≡◌, refl, ◌∙◌, ◌≢◌, ◌⊎◌, inl, inr, some, List, ◌∷◌, arith, Bool-cases, u32,
}
use io_t_firmware.Wire.{Uid, Payload, ack_payload_size, encode_payload, decode_payload, decode_ack}
use io_t_firmware.Buffer.{Buffer, reading_of}
use io_t_firmware.Buffer
use io_t_firmware.Buffer.Invariant.{IsValid}
use io_t_firmware.Buffer.Preserve.{peek-IsValid, pop-IsValid}
use io_t_firmware.Buffer.Refine.{queue}
use io_t_firmware.Buffer.Rotation.{queue-peek}
use io_t_firmware.Buffer.Holding.{Holding, peek-Holding, pop_takes_held}
use io_t_firmware.LoraLink.{
  LoRaSendStatus, idle_status, status_pending, acked, failed, SendPhase, idle, transmit, await_ack,
  backoff, LoRaLinkConfig, LoRaLink, Air, read_frame, begin_send, poll_transmit, poll_await,
  poll_backoff, poll_send,
}
use io_t_firmware.LoraLink.Ack.{poll_send_acked}
use io_t_firmware.Substation.Joined.{IsTable}
use io_t_firmware.Substation.{retry_backoff_ms, Substation, not_yet, Tick, start_relay, relay_step}

-- The parts of the substation agree: while a send is under way the link sends the reading in
-- flight, and that reading is the one at the head of the peeked slot, if a slot is still peeked.
pub record IsCoherent (s : Substation) : Type 0 where
  pub buffer_valid : IsValid s.buffer
  pub table : IsTable s.joined
  pub sends : s.lora.phase ≢ idle → s.lora.pending ≡ decode_payload (encode_payload s.in_flight)
  pub holds : s.lora.phase ≢ idle → Holding s.buffer s.in_flight

-- A poll changes the phase only from one under way, and never what is being sent.
poll_send_pending :
    (c : LoRaLinkConfig) (air : Air) (l : LoRaLink)
    → ((poll_send c air l).2.pending ≡ l.pending)
      × ((poll_send c air l).2.phase ≢ idle → l.phase ≢ idle)
      × ((poll_send c air l).0 ≡ acked → (poll_send c air l).2.phase ≡ idle)
      × ((poll_send c air l).0 ≡ idle_status → (l.phase ≡ idle) × ((poll_send c air l).2 ≡ l))
unfolding poll_send poll_transmit poll_await poll_backoff
poll_send_pending c air l = go l.phase refl
  where
    go :
        (ph : SendPhase)
        → l.phase ≡ ph
        → ((poll_send c air l).2.pending ≡ l.pending)
          × ((poll_send c air l).2.phase ≢ idle → l.phase ≢ idle)
          × ((poll_send c air l).0 ≡ acked → (poll_send c air l).2.phase ≡ idle)
          × ((poll_send c air l).0 ≡ idle_status → (l.phase ≡ idle) × ((poll_send c air l).2 ≡ l))
    go idle e = ground arith
    go transmit e = ground arith
    go await_ack e = ground arith
    go backoff e = ground arith

-- What starting a relay makes of the buffer and the link.
queue-start_relay :
    (t : Tick) (s : Substation) (u : Uid) → queue (start_relay t s).buffer u ≡ queue s.buffer u
unfolding start_relay
queue-start_relay t s u = ground (arith, queue-peek s.in_flight s.buffer u)

-- What beginSend() of a reading makes of an idle link.
begin_send_pending :
    (p : Payload) (now : ℕ) (l : LoRaLink)
    → l.phase ≡ idle
    → let l' = (begin_send (encode_payload p) now l).1 in
      l'.phase ≢ idle → l'.pending ≡ decode_payload (encode_payload p)
unfolding begin_send
begin_send_pending p now l e = ground arith

start_relay-IsCoherent :
    (t : Tick) (s : Substation) → s.lora.phase ≡ idle → IsCoherent s → IsCoherent (start_relay t s)
unfolding start_relay
start_relay-IsCoherent t s e v = elim (Bool-cases (not_yet t.relay_now s.next_send_at)) [
  | inl k ↦ rw (k, start_relay) v
  | inr k ↦
      rw (k, start_relay)
        (elim (Bool-cases (Buffer.peek s.in_flight s.buffer).0) [
          | inl f ↦
              rw (f, start_relay)
                (record {
                  buffer_valid = peek-IsValid s.in_flight s.buffer v.buffer_valid;
                  table = v.table;
                  sends = begin_send_pending _ t.begin_now s.lora e;
                  holds = λ ne. peek-Holding s.in_flight s.buffer;
                })
          | inr f ↦
              rw (f, start_relay)
                (record {
                  buffer_valid = peek-IsValid s.in_flight s.buffer v.buffer_valid;
                  table = v.table;
                  sends = λ ne. absurd (ne e);
                  holds = λ ne. absurd (ne e);
                })
        ])
]

module _ (c : LoRaLinkConfig) (t : Tick) (s : Substation) where
  -- The substation with the link as the poll leaves it.
  abbrev polled : Substation
  polled = record s { lora = (poll_send c t.air s.lora).2 }

  relay_step_by :
      (r : LoRaSendStatus)
      → (poll_send c t.air s.lora).0 ≡ r
      → (relay_step c t s).1 ≡ (elim r [
        | status_pending ↦ polled
        | acked ↦ record polled { buffer = Buffer.pop s.buffer }
        | failed ↦ record polled { next_send_at = u32 (t.relay_now + retry_backoff_ms) }
        | idle_status ↦ start_relay t polled
      ])
  unfolding relay_step
  relay_step_by r e = ground arith

  -- On a coherent substation, relayStep takes a reading off the buffer only when the link waits for an acknowledgement and
  -- finds that of the reading in flight, by UID and sequence number; what goes is that reading, at
  -- the head of its queue. In every other case all queues stay as they are.
  pub relay_step_queues :
      (u : Uid)
      → IsCoherent s
      → let s' = (relay_step c t s).1 in
        (queue s'.buffer u ≡ queue s.buffer u)
        ⊎ ((s.lora.phase ≡ await_ack)
            × ((b : List ℕ) × (read_frame t.air.fifo ack_payload_size ≡ some b)
                × ((decode_ack b).uid ≡ s.lora.pending.uid)
                × ((decode_ack b).seq ≡ s.lora.pending.seq))
            × (u ≡ s.in_flight.uid)
            × (queue s.buffer u ≡ reading_of s.in_flight ∷ queue s'.buffer u))
  relay_step_queues u v = go (poll_send c t.air s.lora).0 refl
    where
      go :
          (r : LoRaSendStatus)
          → (poll_send c t.air s.lora).0 ≡ r
          → (queue (relay_step c t s).1.buffer u ≡ queue s.buffer u)
            ⊎ ((s.lora.phase ≡ await_ack)
                × ((b : List ℕ) × (read_frame t.air.fifo ack_payload_size ≡ some b)
                    × ((decode_ack b).uid ≡ s.lora.pending.uid)
                    × ((decode_ack b).seq ≡ s.lora.pending.seq))
                × (u ≡ s.in_flight.uid)
                × (queue s.buffer u ≡ reading_of s.in_flight ∷ queue (relay_step c t s).1.buffer u))
      go idle_status e = rw (relay_step_by idle_status e) (inl (queue-start_relay t polled u))
      go status_pending e = rw (relay_step_by status_pending e) (inl refl)
      go failed e = rw (relay_step_by failed e) (inl refl)
      go acked e =
          let a = (poll_send_acked c t.air s.lora).0 e in
          rw (relay_step_by acked e)
            (elim (pop_takes_held s.buffer s.in_flight u v.buffer_valid (v.holds (ground arith))) [
              | inl q ↦ inl q
              | inr (q, r) ↦ inr (a.0, a.2, q, r)
            ])

  -- relayStep keeps a coherent substation coherent.
  pub relay_step-IsCoherent : IsCoherent s → IsCoherent (relay_step c t s).1
  relay_step-IsCoherent v = go (poll_send c t.air s.lora).0 refl
    where
      polled-IsCoherent : IsCoherent polled
      polled-IsCoherent =
          let q = poll_send_pending c t.air s.lora in
          record {
            buffer_valid = v.buffer_valid;
            table = v.table;
            sends = λ ne. q.0 ∙ v.sends (q.1 ne);
            holds = λ ne. v.holds (q.1 ne);
          }

      go : (r : LoRaSendStatus) → (poll_send c t.air s.lora).0 ≡ r → IsCoherent (relay_step c t s).1
      go idle_status e =
          let q = (poll_send_pending c t.air s.lora).3 e in
          rw (relay_step_by idle_status e)
            (start_relay-IsCoherent t polled (ground arith) polled-IsCoherent)
      go status_pending e = rw (relay_step_by status_pending e) polled-IsCoherent
      go failed e = rw (relay_step_by failed e) (record {
        buffer_valid = v.buffer_valid;
        table = v.table;
        sends = polled-IsCoherent.sends;
        holds = polled-IsCoherent.holds;
      })
      go acked e =
          let q = (poll_send_pending c t.air s.lora).2 e in
          rw (relay_step_by acked e) (record {
            buffer_valid = pop-IsValid s.buffer v.buffer_valid;
            table = v.table;
            sends = λ ne. absurd (ne q);
            holds = λ ne. absurd (ne q);
          })
