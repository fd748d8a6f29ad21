-- ===== src/Buffer.antt =====
-- lib/buffering/reading_buffer: the substation's store and forward buffer, one ring of readings
-- for each meter node. A slot of the C++ array is named by its index; a pointer to a slot is that
-- index, and `peeked_slot` is none where the source holds -1. Log lines are left out.
-- `head` and `count` stay below 289, so their uint16_t arithmetic never wraps (Buffer.Invariant).
pub mod Keys
pub mod Ring
pub mod Invariant
pub mod Preserve
pub mod Refine
pub mod Dequeue
pub mod Rotation
pub mod Holding
use io_t_firmware.Base.{
  ℕ, zero, suc, ◌+◌, ◌-◌, ◌%◌, Bool, true, false, ◌&&◌, ◌||◌, not, Option, none, some, List, [],
  ◌∷◌, ◌==◌, if◌then◌else◌, get_or, set, replicate,
}
use io_t_firmware.Wire.{Uid, uid_len, uid_equals, Payload}

-- READING_BUFFER_MAX_NODES
abbrev pub max_nodes : ℕ
max_nodes = 8

-- READINGS_PER_NODE
abbrev pub readings_per_node : ℕ
readings_per_node = 288

pub record Reading : Type 0 where
  pub seq : ℕ
  pub kwh_import : ℕ
  pub kwh_export : ℕ
  pub voltage : ℕ

pub record NodeSlot : Type 0 where
  pub used : Bool
  pub uid : Uid
  pub community_id : ℕ
  pub unit_id : ℕ
  pub node_type : ℕ
  pub ring : List Reading
  pub head : ℕ
  pub count : ℕ

-- The three static variables of the file.
pub record Buffer : Type 0 where
  pub slots : List NodeSlot
  pub next_slot : ℕ
  pub peeked_slot : Option ℕ

pub zero_reading : Reading
zero_reading = record { seq = 0; kwh_import = 0; kwh_export = 0; voltage = 0 }

-- What `memset(slot, 0, sizeof(NodeSlot))` leaves.
unfoldable pub zero_slot : NodeSlot
zero_slot = record {
  used = false;
  uid = replicate uid_len 0;
  community_id = 0;
  unit_id = 0;
  node_type = 0;
  ring = replicate readings_per_node zero_reading;
  head = 0;
  count = 0;
}

-- `slots[i]`; the indices that the code uses are in range.
abbrev pub slot_at : List NodeSlot → ℕ → NodeSlot
slot_at ss i = get_or ss i zero_slot

-- readingBufferClear, which also gives the state at boot.
unfoldable pub clear : Buffer
clear = record { slots = replicate max_nodes zero_slot; next_slot = 0; peeked_slot = none }

-- How the search of findOrClaimSlot ends.
pub data Found : Type 0 where
  hit : ℕ → Found
  free : ℕ → Found
  full : Found

abbrev pub is_none : Option ℕ → Bool
is_none none = true
is_none (some i) = false

-- The loop of findOrClaimSlot: `i` is the index of the first slot of the list, `fr` is freeSlot.
unfoldable pub scan_slots : Uid → List NodeSlot → ℕ → Option ℕ → Found
scan_slots uid [] i none = full
scan_slots uid [] i (some j) = free j
scan_slots uid (s ∷ ss) i fr =
    let rest = scan_slots uid ss (i + 1) (if not s.used && is_none fr then some i else fr) in
    if s.used && uid_equals s.uid uid then hit i else rest

-- What claiming a free slot leaves in it.
unfoldable pub claimed : Uid → NodeSlot
claimed uid = record zero_slot { used = true; uid = uid }

-- findOrClaimSlot: the index of the slot and the slots, or `none` for the null pointer.
unfoldable pub find_or_claim_slot : Uid → List NodeSlot → Option (ℕ × List NodeSlot)
find_or_claim_slot uid ss = elim (scan_slots uid ss 0 none) [
  | hit i ↦ some (i, ss)
  | free i ↦ some (i, set ss i (claimed uid))
  | full ↦ none
]

-- The oldest reading leaves the ring.
unfoldable pub drop_oldest : NodeSlot → NodeSlot
drop_oldest s = record s { head = (s.head + 1) % readings_per_node; count = s.count - 1 }

-- A reading goes behind the newest.
unfoldable pub store : NodeSlot → Reading → NodeSlot
store s r = record s {
  ring = set s.ring ((s.head + s.count) % readings_per_node) r;
  count = s.count + 1;
}

abbrev pub reading_of : Payload → Reading
reading_of p = record {
  seq = p.seq;
  kwh_import = p.kwh_import;
  kwh_export = p.kwh_export;
  voltage = p.voltage;
}

-- The per-node fields take the latest values that the node sent.
abbrev pub relabel : NodeSlot → Payload → NodeSlot
relabel s p = record s {
  community_id = p.community_id;
  unit_id = p.unit_id;
  node_type = p.node_type;
}

-- What readingBufferPush makes of the node's slot.
unfoldable pub push_slot : NodeSlot → Payload → NodeSlot
push_slot s p =
    let t = relabel s p in
    store (if t.count == readings_per_node then drop_oldest t else t) (reading_of p)

-- `peekedSlot >= 0 && slot == &slots[peekedSlot]`
abbrev pub points_to : Option ℕ → ℕ → Bool
points_to none i = false
points_to (some j) i = j == i

-- What readingBufferPush does once slot `i` of `ss` is the node's.
unfoldable pub push_at : Payload → Buffer → ℕ → List NodeSlot → Buffer
push_at p b i ss = record b {
  slots = set ss i (push_slot (slot_at ss i) p);
  peeked_slot =
      if (slot_at ss i).count == readings_per_node && points_to b.peeked_slot i
      then none
      else b.peeked_slot;
}

-- readingBufferPush
unfoldable pub push : Payload → Buffer → Bool × Buffer
push p b = elim (find_or_claim_slot p.uid b.slots) [
  | none ↦ (false, b)
  | some (i, ss) ↦ (true, push_at p b i ss)
]

-- The loop of readingBufferPeek: the first slot from `next` on that holds a reading.
unfoldable pub next_filled : List NodeSlot → ℕ → ℕ → ℕ → Option ℕ
next_filled ss next zero i = none
next_filled ss next (suc left) i =
    let index = (next + i) % max_nodes in
    let rest = next_filled ss next left (i + 1) in
    if not (slot_at ss index).used || (slot_at ss index).count == 0 then rest else some index

-- The reading at the head of a slot, with the node's fields.
abbrev pub oldest : NodeSlot → Reading
oldest s = get_or s.ring s.head zero_reading

unfoldable pub payload_of : NodeSlot → Payload
payload_of s = record {
  uid = s.uid;
  seq = (oldest s).seq;
  kwh_import = (oldest s).kwh_import;
  kwh_export = (oldest s).kwh_export;
  voltage = (oldest s).voltage;
  community_id = s.community_id;
  unit_id = s.unit_id;
  node_type = s.node_type;
}

-- readingBufferPeek: the payload is what `out` holds afterwards.
unfoldable pub peek : Payload → Buffer → Bool × Payload × Buffer
peek out b = elim (next_filled b.slots b.next_slot max_nodes 0) [
  | none ↦ (false, out, record b { peeked_slot = none })
  | some i ↦ (true, payload_of (slot_at b.slots i), record b { peeked_slot = some i })
]

-- What readingBufferPop makes of the peeked slot.
unfoldable pub pop_slot : NodeSlot → NodeSlot
pop_slot s =
    let t = if s.count == 0 then s else drop_oldest s in
    if t.count == 0 then record t { used = false } else t

-- readingBufferPop
unfoldable pub pop : Buffer → Buffer
pop b = elim b.peeked_slot [
  | none ↦ b
  | some i ↦ record b {
    slots = set b.slots i (pop_slot (slot_at b.slots i));
    next_slot = (i + 1) % max_nodes;
    peeked_slot = none;
  }
]

-- readingBufferCount
unfoldable pub sum_counts : List NodeSlot → ℕ
sum_counts [] = 0
sum_counts (s ∷ ss) = s.count + sum_counts ss

unfoldable pub count : Buffer → ℕ
count b = sum_counts b.slots
