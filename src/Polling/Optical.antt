-- ===== src/Polling/Optical.antt =====
-- src/nodes/ir_node.cpp over lib/protocols/iec62056_21: the optical node with its reader.
use mathlib.Core.Option
use io_t_firmware.Base.{ℕ, ◌≡◌, ap, ap₂, ◌⊎◌, inl, inr, Option, none, some, List, arith}
use io_t_firmware.SubstationLink.{send}
use io_t_firmware.Node.{seq_next}
use io_t_firmware.Iec62056.{
  ReadAir, Reader, get_import, get_export, identify, read_identification, read_until, block_end,
  data_timeout_ms,
}
use io_t_firmware.Iec62056.Import.{reported, get_import_reports}
use io_t_firmware.Polling.{Poller, Cycle, ir_node_loop}
use io_t_firmware.Polling.Cycles.{quiet, sent, ir_node_loop-Polled}

module _ (strtof : List ℕ → ℕ × ℕ) where
  -- What the reader can report in a cycle.
  abbrev pub meter_values : ReadAir → Option (ℕ × ℕ)
  meter_values air =
      reported strtof (identify (read_identification air.first air.second)).code air.tail
        (read_until block_end data_timeout_ms air.data_block)

  -- The cycle, with the reader's results for those of its getters.
  abbrev pub with_reader : ReadAir → Reader → Cycle → Cycle
  with_reader air r x =
      let (cs, v, r') = get_import strtof air r in
      record x { import_read = v; export_read = get_export r' }

  values_sent :
      (o : Option (ℕ × ℕ)) (v e : Option ℕ) (old i k : ℕ)
      → v ≡ Option.map (λ (a, b). a) o
      → e ≡ Option.map (λ (a, b). b) o
      → v ≡ some i
      → some (elim e [ none ↦ old | some b ↦ b ]) ≡ some k
      → o ≡ some (i, k)
  values_sent none v e old i k p q h j = absurd (ground arith)
  values_sent (some (a, b)) v e old i k p q h j =
      let first : a ≡ i = ground arith in
      let picked : (elim e as (λ t. ℕ) [ none ↦ old | some c ↦ c ]) ≡ b =
        ap (λ (t : Option ℕ). elim t as (λ u. ℕ) [ none ↦ old | some c ↦ c ]) q in
      let second : b ≡ k = ground arith in ap some (ap₂ (λ s t. (s, t)) first second)

  -- With the optical reader for its getters, whatever that reader holds from earlier reads, a cycle of
  -- the optical node leaves the reading and the link alone, or it sends the import and the export
  -- of one and the same data block, which was in order.
  pub ir_node_sends_one_block :
      (air : ReadAir) (r : Reader) (x : Cycle) (n : Poller)
      → let m = ir_node_loop (with_reader air r x) n in
        ((m.payload ≡ n.payload) × (m.link ≡ n.link))
        ⊎ ((i e : ℕ) × (meter_values air ≡ some (i, e))
            × (m.payload
                ≡ record n.payload { kwh_import = i; kwh_export = e; seq = seq_next n.seq })
            × (m.link ≡ (send x.waiting x.tries m.payload n.link).1))
  ir_node_sends_one_block air r x n =
      let x' = with_reader air r x in
      let (imported, exported) = get_import_reports strtof air r in
      elim (ir_node_loop-Polled x' n) [
        | quiet l s p ↦ inl (p, l)
        | sent i e read value due t p l s ↦ inr (
          i,
          e,
          values_sent (meter_values air) x'.import_read x'.export_read n.payload.kwh_export i e
              imported exported read value,
          p,
          l,
        )
      ]
