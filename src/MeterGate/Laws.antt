-- ===== src/MeterGate/Laws.antt =====
-- end_node_bringup.cpp, MeterGate: when a gate opens and when it closes.
use io_t_firmware.Base.{
  ℕ, zero, suc, ◌+◌, ◌%◌, ◌≤◌, ◌<◌, ◌≡◌, refl, ap, ◌∙◌, ◌⊎◌, inl, inr, Bool, true, false, not, ◌&&◌,
  ◌||◌, arith, ltb, ltb→lt, Bool-cases, sub32,
}
use io_t_firmware.MeterGate.{MeterGate, ready, report_read}

-- A number of failed reads in a row.
unfoldable pub report_failures : ℕ → MeterGate → MeterGate
report_failures zero g = g
report_failures (suc n) g = report_failures n (report_read false g)

report_failures_closed :
    (n : ℕ) (g : MeterGate) → g.is_ready ≡ false → (report_failures n g).is_ready ≡ false
unfolding report_failures report_read
report_failures_closed zero g h = h
report_failures_closed (suc n) g h = report_failures_closed n (report_read false g) (ground arith)

report_read_counts :
    (g : MeterGate)
    → g.is_ready ≡ true
    → g.failed_reads < g.lost_after
    → g.lost_after < 256
    → (report_read false g ≡ record g { failed_reads = g.failed_reads + 1 })
        × (g.failed_reads + 1 < g.lost_after)
      ⊎ (((report_read false g).is_ready ≡ false) × (g.lost_after ≤ g.failed_reads + 1))
unfolding report_read
report_read_counts g h lo hi =
    let e : (g.failed_reads + 1) % 256 ≡ g.failed_reads + 1 = omega arith in
    rw (h, e)
      (elim (Bool-cases (ltb (g.failed_reads + 1) g.lost_after)) [
        | inl k ↦ rw k (inl (refl, ltb→lt (g.failed_reads + 1) g.lost_after k))
        | inr k ↦ rw k (inr (refl, ground arith))
      ])

-- An open gate with fewer failures than its limit, which is at most 255, is still open after a
-- number of failed reads in a row exactly when they leave the count of its failures below the
-- limit.
pub report_failures_lost :
    (n : ℕ) (g : MeterGate)
    → g.is_ready ≡ true
    → g.failed_reads < g.lost_after
    → g.lost_after < 256
    → (report_failures n g).is_ready ≡ ltb (n + g.failed_reads) g.lost_after
unfolding report_failures
report_failures_lost zero g h lo hi = ground arith
report_failures_lost (suc n) g h lo hi = elim (report_read_counts g h lo hi) [
  | inl (e, m) ↦
      ap (λ k. (report_failures n k).is_ready) e
      ∙ report_failures_lost n (record g { failed_reads = g.failed_reads + 1 }) h m hi
      ∙ ground arith
  | inr (e, m) ↦ report_failures_closed n (report_read false g) e ∙ ground arith
]

-- ready answers whether the gate is then open: an open gate stays open, and a closed one opens
-- exactly when a probe is due or the last is as old as the retry time, and the probe succeeds.
pub ready_opens :
    (now : ℕ) (probe_ok : Bool) (g : MeterGate)
    → ((ready now probe_ok g).0 ≡ (ready now probe_ok g).1.is_ready)
      × ((ready now probe_ok g).0 ≡ (
          g.is_ready
          || ((g.probe_due || not (ltb (sub32 now g.last_probe_ms) g.retry_ms)) && probe_ok)))
unfolding ready
ready_opens now probe_ok g = ground arith
