-- ===== src/Buffer/Ring.antt =====
-- reading_buffer.cpp, NodeSlot: the ring of one node as the queue of its readings.
use io_t_firmware.Base.{
  ℕ, zero, suc, ◌+◌, ◌-◌, ◌%◌, ◌≤◌, ◌<◌, ◌≡◌, refl, ap, ap₂, ◌∙◌, List, [], ◌∷◌, ◌++◌, ◌==◌,
  if◌then◌else◌, length, get_or, set, arith, get_or-set_self, get_or-set_ne, length-set, drop,
  Bool-cases, ==→eq, inl, inr, sym,
}
use io_t_firmware.Wire.{Payload}
use io_t_firmware.Buffer.{
  Reading, NodeSlot, zero_reading, readings_per_node, drop_oldest, store, push_slot, pop_slot,
  reading_of, relabel, oldest,
}

-- The `n` readings from index `h` on, going round at the end of the array.
unfoldable pub items : List Reading → ℕ → ℕ → List Reading
items ring h zero = []
items ring h (suc n) = get_or ring h zero_reading ∷ items ring ((h + 1) % readings_per_node) n

abbrev pub contents : NodeSlot → List Reading
contents s = items s.ring s.head s.count

pub record SlotIsValid (s : NodeSlot) : Type 0 where
  pub ring_size : length s.ring ≡ readings_per_node
  pub head_in : s.head < readings_per_node
  pub count_in : s.count ≤ readings_per_node

pub length-items : (ring : List Reading) (h n : ℕ) → length (items ring h n) ≡ n
unfolding items
length-items ring h zero = refl
length-items ring h (suc n) = ap suc (length-items ring ((h + 1) % readings_per_node) n)

-- Writing just behind the items adds one at their end.
items-set :
    (ring : List Reading) (r : Reading) (n h : ℕ)
    → length ring ≡ readings_per_node
    → h < readings_per_node
    → n < readings_per_node
    → items (set ring ((h + n) % readings_per_node) r) h (suc n) ≡ items ring h n ++ (r ∷ [])
unfolding items
items-set ring r zero h l hh hn =
    ap (λ t. t ∷ []) (get_or_at ((h + 0) % readings_per_node) (omega arith))
  where
    get_or_at : (k : ℕ) → k ≡ h → get_or (set ring k r) h zero_reading ≡ r
    get_or_at k e = rw e (get_or-set_self ring h r zero_reading (omega arith))
items-set ring r (suc n) h l hh hn =
    ap₂ ◌∷◌ (get_or-set_ne ring ((h + suc n) % readings_per_node) h r zero_reading (omega arith)) (
      ap (λ k. items (set ring k r) ((h + 1) % readings_per_node) (suc n)) (omega arith)
      ∙ items-set ring r n ((h + 1) % readings_per_node) l (omega arith) (omega arith))

items_pos :
    (ring : List Reading) (h n : ℕ)
    → 0 < n
    → items ring h n ≡ get_or ring h zero_reading ∷ items ring ((h + 1) % readings_per_node) (n - 1)
unfolding items
items_pos ring h zero k = absurd (omega arith)
items_pos ring h (suc n) k =
    ap (λ m. get_or ring h zero_reading ∷ items ring ((h + 1) % readings_per_node) m) (omega arith)

-- Every step on a slot keeps it valid.
pub relabel-SlotIsValid : (s : NodeSlot) (p : Payload) → SlotIsValid s → SlotIsValid (relabel s p)
relabel-SlotIsValid s p v = ground arith

pub drop_oldest-SlotIsValid : (s : NodeSlot) → SlotIsValid s → SlotIsValid (drop_oldest s)
unfolding drop_oldest
drop_oldest-SlotIsValid s v = ground arith

count-drop_oldest : (s : NodeSlot) → (drop_oldest s).count ≡ s.count - 1
unfolding drop_oldest
count-drop_oldest s = refl

pub store-SlotIsValid :
    (s : NodeSlot) (r : Reading)
    → SlotIsValid s
    → s.count < readings_per_node
    → SlotIsValid (store s r)
unfolding store
store-SlotIsValid s r v h =
    ground (arith, length-set s.ring ((s.head + s.count) % readings_per_node) r)

-- A push leaves a slot in use, under the same UID, with one reading more unless it was full.
pub record IsPushed (s t : NodeSlot) : Type 0 where
  pub valid : SlotIsValid t
  pub used : t.used ≡ s.used
  pub uid : t.uid ≡ s.uid
  pub filled : 0 < t.count
  pub count : t.count ≡ (if s.count == readings_per_node then s.count else s.count + 1)

pub push_slot-IsPushed : (s : NodeSlot) (p : Payload) → SlotIsValid s → IsPushed s (push_slot s p)
unfolding push_slot store drop_oldest
push_slot-IsPushed s p v = ground (
  arith,
  length-set s.ring ((s.head + s.count) % readings_per_node) (reading_of p),
  length-set s.ring (((s.head + 1) % readings_per_node + (s.count - 1)) % readings_per_node)
      (reading_of p),
)

pub pop_slot-SlotIsValid : (s : NodeSlot) → SlotIsValid s → SlotIsValid (pop_slot s)
unfolding pop_slot drop_oldest
pop_slot-SlotIsValid s v = ground arith

-- The ring drops its head.
pub contents-drop_oldest :
    (s : NodeSlot) → 0 < s.count → contents s ≡ oldest s ∷ contents (drop_oldest s)
unfolding drop_oldest
contents-drop_oldest s h = items_pos s.ring s.head s.count h

pub contents-store :
    (s : NodeSlot) (r : Reading)
    → SlotIsValid s
    → s.count < readings_per_node
    → contents (store s r) ≡ contents s ++ (r ∷ [])
unfolding store
contents-store s r v h =
    ap (items (set s.ring ((s.head + s.count) % readings_per_node) r) s.head) (omega arith)
    ∙ items-set s.ring r s.count s.head v.ring_size v.head_in h

-- A bounded queue takes a reading: its oldest makes room when it is full.
pub enqueue : List Reading → Reading → List Reading
enqueue q r = (if length q == readings_per_node then drop 1 q else q) ++ (r ∷ [])

contents-push_slot_full :
    (s : NodeSlot) (p : Payload)
    → SlotIsValid s
    → s.count ≡ readings_per_node
    → contents (store (drop_oldest (relabel s p)) (reading_of p))
      ≡ drop 1 (contents s) ++ (reading_of p ∷ [])
contents-push_slot_full s p v h =
    contents-store (drop_oldest (relabel s p)) (reading_of p)
      (drop_oldest-SlotIsValid (relabel s p) (relabel-SlotIsValid s p v))
      (omega (arith, count-drop_oldest (relabel s p)))
    ∙ ap (λ q. drop 1 q ++ (reading_of p ∷ []))
        (sym (contents-drop_oldest (relabel s p) (omega arith)))

-- readingBufferPush makes the node's ring take the reading as a bounded queue does.
pub contents-push_slot :
    (s : NodeSlot) (p : Payload)
    → SlotIsValid s
    → contents (push_slot s p) ≡ enqueue (contents s) (reading_of p)
unfolding push_slot enqueue
contents-push_slot s p v =
    rw (length-items s.ring s.head s.count) (elim (Bool-cases (s.count == readings_per_node)) [
      | inl e ↦ rw e (contents-push_slot_full s p v (==→eq _ _ e))
      | inr e ↦
          rw e
            (contents-store (relabel s p) (reading_of p) (relabel-SlotIsValid s p v) (ground arith))
    ])

pub contents_empty : (s : NodeSlot) → s.count ≡ 0 → contents s ≡ []
unfolding items
contents_empty s h = rw (h, items) refl

pop_slot_rest :
    (s : NodeSlot)
    → 0 < s.count
    → ((pop_slot s).ring ≡ (drop_oldest s).ring)
      × ((pop_slot s).head ≡ (drop_oldest s).head)
      × ((pop_slot s).count ≡ (drop_oldest s).count)
unfolding pop_slot
pop_slot_rest s h = ground arith

-- readingBufferPop takes the oldest reading of the slot off.
pub contents-pop_slot : (s : NodeSlot) → 0 < s.count → contents s ≡ oldest s ∷ contents (pop_slot s)
contents-pop_slot s h = contents-drop_oldest s h ∙ ap (λ t. oldest s ∷ t) (sym same)
  where
    same : contents (pop_slot s) ≡ contents (drop_oldest s)
    same = let r = pop_slot_rest s h in cc (r.0, r.1, r.2)
