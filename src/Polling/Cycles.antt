-- ===== src/Polling/Cycles.antt =====
-- cv_node.cpp and ir_node.cpp: what a cycle sends, and when.
use io_t_firmware.Base.{
  ℕ, ◌≤◌, ◌≡◌, refl, inl, inr, Bool, not, Option, none, some, arith, ltb, if◌then◌else◌, Bool-cases,
  Option-cases, if_either, if_both, sub32,
}
use io_t_firmware.MeterGate.{ready, MeterGate}
use io_t_firmware.SubstationLink.{send}
use io_t_firmware.Node.{seq_next}
use io_t_firmware.Polling.{
  Poller, Cycle, send_reading, cv_read, cv_node_loop, ir_read, ir_node_loop,
}

-- A cycle leaves the link, the counter and the reading alone, or it sends one reading of the meter with
-- the import and the export given, under the next number, a whole interval behind the last.
pub data Polled (x : Cycle) (n m : Poller) (export_val : Option ℕ) : Type 0 where
  quiet : m.link ≡ n.link → m.seq ≡ n.seq → m.payload ≡ n.payload → Polled x n m export_val
  sent :
      (i e : ℕ)
      → x.import_read ≡ some i
      → export_val ≡ some e
      → n.poll_interval_ms ≤ sub32 x.test_now n.last_poll
      → m.last_poll ≡ x.poll_now
      → m.payload ≡ record n.payload { kwh_import = i; kwh_export = e; seq = seq_next n.seq }
      → m.link ≡ (send x.waiting x.tries m.payload n.link).1
      → m.seq ≡ m.payload.seq
      → Polled x n m export_val

-- The export of a camera reading, and of an optical one.
abbrev pub cv_export : Bool → Cycle → Poller → Option ℕ
cv_export has_export x n = if has_export then x.export_read else some n.payload.kwh_export

abbrev pub ir_export : Cycle → Poller → Option ℕ
ir_export x n = some (elim x.export_read [ none ↦ n.payload.kwh_export | some e ↦ e ])

abbrev polling : Cycle → MeterGate → Poller → Poller
polling x g n = record n { gate = g; last_poll = x.poll_now }

cv_read-Polled :
    (has_export : Bool) (x : Cycle) (g : MeterGate) (n : Poller)
    → n.poll_interval_ms ≤ sub32 x.test_now n.last_poll
    → Polled x n (cv_read has_export x (polling x g n)) (cv_export has_export x n)
unfolding cv_read send_reading
cv_read-Polled has_export x g n d = elim (Option-cases x.import_read) [
  | inl e ↦ rw (cv_read, e) (quiet refl refl refl)
  | inr (i, e) ↦ elim (Bool-cases has_export) [
    | inr f ↦ rw (f, e) (sent i n.payload.kwh_export refl refl d refl refl refl refl)
    | inl f ↦ elim (Option-cases x.export_read) [
      | inl h ↦ rw (f, e, h) (quiet refl refl refl)
      | inr (j, h) ↦ rw (f, e, h) (sent i j refl refl d refl refl refl refl)
    ]
  ]
]

ir_read-Polled :
    (x : Cycle) (g : MeterGate) (n : Poller)
    → n.poll_interval_ms ≤ sub32 x.test_now n.last_poll
    → Polled x n (ir_read x (polling x g n)) (ir_export x n)
unfolding ir_read send_reading
ir_read-Polled x g n d = elim (Option-cases x.import_read) [
  | inl e ↦ rw e (quiet refl refl refl)
  | inr (i, e) ↦ rw e (
      sent i (elim x.export_read [ none ↦ n.payload.kwh_export | some k ↦ k ]) refl refl d refl refl
        refl refl)
]

-- A cycle of the camera node sends only a reading whose import was read in this cycle, and whose export
-- was too, where a flow for it is configured, and is the last one otherwise; it then uses the next
-- sequence number, a whole interval behind the last poll. Any other cycle leaves the link, the counter
-- and the reading as they were.
pub cv_node_loop-Polled :
    (has_export : Bool) (x : Cycle) (n : Poller)
    → Polled x n (cv_node_loop has_export x n) (cv_export has_export x n)
unfolding cv_node_loop
cv_node_loop-Polled has_export x n =
    let g = ready x.gate_now x.probe_ok n.gate in
    let P = λ (m : Poller). Polled x n m (cv_export has_export x n) in
    if_both P (not n.setup_ok) (quiet refl refl refl) (
      if_both P (not g.0) (quiet refl refl refl) (
        if_either P (ltb (sub32 x.test_now n.last_poll) n.poll_interval_ms)
          (λ e. quiet refl refl refl) (λ e. cv_read-Polled has_export x g.1 n (ground arith))))

-- A cycle of the optical node sends only a reading whose import was read in this cycle, and whose
-- export is that of this cycle if it was read, and the last one otherwise; it then uses the next
-- sequence number, a whole interval behind the last poll. Any other cycle leaves the link, the counter
-- and the reading as they were.
pub ir_node_loop-Polled : (x : Cycle) (n : Poller) → Polled x n (ir_node_loop x n) (ir_export x n)
unfolding ir_node_loop
ir_node_loop-Polled x n =
    let g = ready x.gate_now x.probe_ok n.gate in
    let P = λ (m : Poller). Polled x n m (ir_export x n) in
    if_both P (not n.setup_ok) (quiet refl refl refl) (
      if_both P (not g.0) (quiet refl refl refl) (
        if_either P (ltb (sub32 x.test_now n.last_poll) n.poll_interval_ms)
          (λ e. quiet refl refl refl) (λ e. ir_read-Polled x g.1 n (ground arith))))
