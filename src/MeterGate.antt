-- ===== src/MeterGate.antt =====
-- lib/bringup/end_node_bringup/end_node_bringup.h and end_node_bringup.cpp, MeterGate: whether a
-- node may read its meter. The clock and the result of Reader::probe() are arguments. Log lines
-- are left out.
pub mod Laws
use io_t_firmware.Base.{ℕ, ◌+◌, ◌%◌, Bool, true, false, not, ◌&&◌, ltb, if◌then◌else◌, sub32}

pub record MeterGate : Type 0 where
  pub retry_ms : ℕ
  pub lost_after : ℕ
  pub is_ready : Bool
  pub probe_due : Bool
  pub last_probe_ms : ℕ
  pub failed_reads : ℕ

-- The constructor
unfoldable pub new_gate : ℕ → ℕ → MeterGate
new_gate retry_ms lost_after = record {
  retry_ms = retry_ms;
  lost_after = lost_after;
  is_ready = false;
  probe_due = true;
  last_probe_ms = 0;
  failed_reads = 0;
}

-- ready: what millis() returns, and whether probe() succeeds if it is called.
unfoldable pub ready : ℕ → Bool → MeterGate → Bool × MeterGate
ready now probe_ok g =
    let tried = record g { probe_due = false; last_probe_ms = now } in
    if g.is_ready
    then (true, g)
    else if not g.probe_due && ltb (sub32 now g.last_probe_ms) g.retry_ms
    then (false, g)
    else if not probe_ok
    then (false, tried)
    else (true, record tried { is_ready = true; failed_reads = 0 })

-- reportRead, with whether the read succeeded.
unfoldable pub report_read : Bool → MeterGate → MeterGate
report_read read_ok g =
    let failed = (g.failed_reads + 1) % 256 in
    if not g.is_ready
    then g
    else if read_ok
    then record g { failed_reads = 0 }
    else if ltb failed g.lost_after
    then record g { failed_reads = failed }
    else record g { failed_reads = failed; is_ready = false; probe_due = true }
