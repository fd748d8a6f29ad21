-- ===== src/BringUp.antt =====
-- lib/bringup/end_node_bringup/end_node_bringup.cpp, endNodeBringUp, with seqCounterBegin of
-- lib/buffering/seq_counter: the start of an end node. What each device reports is an input, and the
-- steps that were taken are an output. The flash is the counter that it holds. Log lines are left out.
pub mod Order
use io_t_firmware.Base.{
  ℕ, ◌+◌, Bool, true, false, not, ◌&&◌, Option, none, some, List, [], ◌∷◌, ◌++◌, if◌then◌else◌,
}
use io_t_firmware.Wire.{Payload, Uid, NodeType, node_type_code}
use io_t_firmware.SubstationLink.{SubstationLink}

-- BusPolicy
pub data BusPolicy : Type 0 where
  required : BusPolicy
  tolerated : BusPolicy

-- EndNodeParts, with whether there is an access point to host.
pub record EndNodeParts : Type 0 where
  pub node_type : NodeType
  pub uid : Uid
  pub community_id : ℕ
  pub unit_id : ℕ
  pub has_ap : Bool
  pub bus_policy : BusPolicy

-- What the devices report as they are started, the counter in flash, and the link behind join().
pub record Devices : Type 0 where
  pub nvs_ok : Bool
  pub stored_seq : Option ℕ
  pub ap_ok : Bool
  pub bus_ok : Bool
  pub reader_ok : Bool
  pub radio_ok : Bool
  pub after_join : SubstationLink → SubstationLink

-- The steps of the start.
pub data Start : Type 0 where
  seq_counter : Start
  access_point : Start
  bus : Start
  reader : Start
  radio : Start
  join : Start

-- What a node has behind its start.
pub record Started : Type 0 where
  pub steps : List Start
  pub seq : ℕ
  pub link : Option SubstationLink
  pub payload : Payload
  pub success : Bool

-- seqCounterBegin: a missing key reads as 0.
unfoldable pub seq_counter_begin : Devices → ℕ → Bool × ℕ
seq_counter_begin d seq =
    if not d.nvs_ok then (false, seq) else (true, elim d.stored_seq [ none ↦ 0 | some s ↦ s ])

abbrev pub identify : EndNodeParts → Payload → Payload
identify parts p = record p {
  uid = parts.uid;
  community_id = parts.community_id;
  unit_id = parts.unit_id;
  node_type = node_type_code parts.node_type;
}

-- A bus whose init() failed is fatal only where it is required.
unfoldable pub bus_fatal : BusPolicy → Bool → Bool
bus_fatal required bus_ok = not bus_ok
bus_fatal tolerated bus_ok = false

-- endNodeBringUp
unfoldable pub end_node_bring_up : EndNodeParts → Devices → ℕ → Payload → Started
end_node_bring_up parts d seq payload =
    let (nvs, seq') = seq_counter_begin d seq in
    let link : SubstationLink = record {
      uid = parts.uid;
      joined = false;
      substation_mac = [];
      epoch = 0;
    } in
    let failed : List Start → ℕ → Option SubstationLink → Started =
      λ ss q l. record { steps = ss; seq = q; link = l; payload = payload; success = false } in
    let hosted = if parts.has_ap then access_point ∷ [] else [] in
    let up_to_ap = seq_counter ∷ hosted in
    if not nvs
    then failed (seq_counter ∷ []) seq' none
    else if parts.has_ap && not d.ap_ok
    then failed up_to_ap seq' none
    else if bus_fatal parts.bus_policy d.bus_ok
    then failed (up_to_ap ++ (bus ∷ [])) seq' none
    else if not d.reader_ok
    then failed (up_to_ap ++ (bus ∷ reader ∷ [])) seq' none
    else if not d.radio_ok
    then failed (up_to_ap ++ (bus ∷ reader ∷ radio ∷ [])) seq' (some link)
    else record {
      steps = up_to_ap ++ (bus ∷ reader ∷ radio ∷ join ∷ []);
      seq = seq';
      link = some (d.after_join link);
      payload = identify parts payload;
      success = true;
    }
