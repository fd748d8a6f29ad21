-- ===== src/BringUp/Order.antt =====
-- end_node_bringup.cpp: the order in which a node starts, and when it has started.
use io_t_firmware.Base.{ℕ, ◌≡◌, Bool, true, not, ◌&&◌, List, [], ◌∷◌, ◌++◌, arith, if◌then◌else◌}
use io_t_firmware.Wire.{Payload}
use io_t_firmware.BringUp.{
  EndNodeParts, Devices, Start, seq_counter, access_point, bus, reader, radio, join,
  seq_counter_begin, identify, bus_fatal, end_node_bring_up,
}

-- The whole start of a node.
abbrev pub all_steps : EndNodeParts → List Start
all_steps parts =
    (seq_counter ∷ (if parts.has_ap then access_point ∷ [] else []))
    ++ (bus ∷ reader ∷ radio ∷ join ∷ [])

-- Whether what a step's device reports lets the start go on: a bus may fail where it is tolerated.
abbrev pub goes_on : EndNodeParts → Devices → Start → Bool
goes_on parts d seq_counter = d.nvs_ok
goes_on parts d access_point = d.ap_ok
goes_on parts d bus = not (bus_fatal parts.bus_policy d.bus_ok)
goes_on parts d reader = d.reader_ok
goes_on parts d radio = d.radio_ok
goes_on parts d join = true

-- The steps up to the first that fails, that one included.
abbrev pub up_to_failure : (Start → Bool) → List Start → List Start
up_to_failure ok [] = []
up_to_failure ok (s ∷ ss) = s ∷ (if ok s then up_to_failure ok ss else [])

abbrev pub all_go_on : (Start → Bool) → List Start → Bool
all_go_on ok [] = true
all_go_on ok (s ∷ ss) = ok s && all_go_on ok ss

-- Whatever the devices report, a start takes the steps in their order up to the first whose failure is
-- fatal, that one included and none behind it; it succeeds exactly if no step fails so, and then the
-- payload has the identity of the node, and otherwise the payload is as it was.
pub end_node_bring_up_lem :
    (parts : EndNodeParts) (d : Devices) (seq : ℕ) (p : Payload)
    → let s = end_node_bring_up parts d seq p in
      let ok = goes_on parts d in
      (s.steps ≡ up_to_failure ok (all_steps parts))
      × (s.success ≡ all_go_on ok (all_steps parts))
      × (s.payload ≡ (if s.success then identify parts p else p))
unfolding end_node_bring_up seq_counter_begin
end_node_bring_up_lem parts d seq p = ground arith
