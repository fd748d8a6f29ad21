-- ===== src/Buffer/Preserve.antt =====
-- reading_buffer.cpp: clear, push, peek and pop keep the buffer well formed.
use io_t_firmware.Base.{
  ℕ, zero, suc, ◌+◌, ◌-◌, ◌%◌, ◌<◌, ◌≡◌, ◌≢◌, refl, sym, ◌∙◌, inl, inr, true, false, none, some,
  List, ◌==◌, if◌then◌else◌, length, set, arith, All-set, All-get_or, get_or-set_self,
  get_or-set_ne, length-set, length-replicate, replicate, Option-cases, Bool-cases, ==→eq,
}
use io_t_firmware.Wire.{Payload}
use io_t_firmware.Buffer.{
  NodeSlot, Buffer, max_nodes, readings_per_node, zero_slot, slot_at, push_slot, pop_slot, push,
  peek, pop, clear, next_filled, drop_oldest,
}
use io_t_firmware.Buffer.Keys.{
  Distinct, Distinct-set_same, Distinct-set_claim, Distinct-set_release,
}
use io_t_firmware.Buffer.Ring.{IsPushed, push_slot-IsPushed}
use io_t_firmware.Buffer.Invariant.{IsSlot, IsValid, Target, pushed, push_cases}

-- What stands at index `j` after a write at index `i`.
pub slot_at-set :
    (ss : List NodeSlot) (i j : ℕ) (t : NodeSlot)
    → i < length ss
    → slot_at (set ss i t) j ≡ (if i == j then t else slot_at ss j)
slot_at-set ss i j t h = elim (Bool-cases (i == j)) [
  | inl e ↦ rw (e, ← ==→eq i j e) (get_or-set_self ss i t zero_slot h)
  | inr e ↦ rw e (get_or-set_ne ss i j t zero_slot (λ q. ground arith))
]

zero_slot-used : zero_slot.used ≡ false
unfolding zero_slot
zero_slot-used = refl

zero_slot-IsSlot : IsSlot zero_slot
unfolding zero_slot
zero_slot-IsSlot = record {
  valid = record {
    ring_size = length-replicate readings_per_node _;
    head_in = omega arith;
    count_in = omega arith;
  };
  in_use = refl;
}

-- The buffer at boot, and after readingBufferClear, is well formed.
pub clear-IsValid : IsValid clear
unfolding clear replicate
clear-IsValid = record {
  eight = refl;
  slots = (z, (z, (z, (z, (z, (z, (z, (z, tt))))))));
  distinct = (n, (n, (n, (n, (n, (n, (n, (n, tt))))))));
  next_in = omega arith;
  peeked_in = λ i e. cc;
}
  where
    z : IsSlot zero_slot
    z = zero_slot-IsSlot

    n : {A : Type 0} → zero_slot.used ≡ true → A
    n e = cc (zero_slot-used, e)

module _ {p : Payload} {b : Buffer} (v : IsValid b) {i : ℕ} {s : NodeSlot}
    (t : Target p b i s) where
  pushed-Distinct : Distinct (set b.slots i (push_slot s p))
  pushed-Distinct = elim t.origin [
    | inl (h, e) ↦
        Distinct-set_same b.slots i (push_slot s p) (rw (← e) q.used) (rw (← e) q.uid) v.distinct
    | inr (h, k, e) ↦
        Distinct-set_claim b.slots i (push_slot s p) (omega (arith, t.in_range, v.eight)) k
          (q.used ∙ t.used) (rw (q.uid ∙ t.uid) h) v.distinct
  ]
    where
      q : IsPushed s (push_slot s p)
      q = push_slot-IsPushed s p t.valid

  pushed-IsValid : IsValid (pushed p b i s)
  pushed-IsValid =
      let q = push_slot-IsPushed s p t.valid in
      record {
        eight = length-set b.slots i _ ∙ v.eight;
        slots =
            All-set IsSlot b.slots i _ v.slots
              (record { valid = q.valid; in_use = ground (arith, q.used, t.used, q.filled) });
        distinct = pushed-Distinct;
        next_in = v.next_in;
        peeked_in = λ j e. ground (
          arith,
          v.peeked_in j,
          slot_at-set b.slots i j (push_slot s p),
          v.eight,
          t.in_range,
          q.used,
          t.used,
        );
      }

-- readingBufferPush keeps the buffer well formed.
pub push-IsValid : (p : Payload) (b : Buffer) → IsValid b → IsValid (push p b).1
push-IsValid p b v = elim (push_cases p b v) [
  | inl r ↦ rw r.result v
  | inr (i, s, t) ↦ rw t.result (pushed-IsValid v t)
]

-- The search of readingBufferPeek ends at a slot that holds a reading.
pub next_filled_sound :
    (ss : List NodeSlot) (next left k i : ℕ)
    → next_filled ss next left k ≡ some i
    → (i < max_nodes) × ((slot_at ss i).used ≡ true) × ((slot_at ss i).count ≢ 0)
unfolding next_filled
next_filled_sound ss next zero k i h = cc
next_filled_sound ss next (suc left) k i h =
    ground (arith, next_filled_sound ss next left (k + 1) i)

-- readingBufferPeek keeps the buffer well formed.
pub peek-IsValid : (out : Payload) (b : Buffer) → IsValid b → IsValid (peek out b).2
unfolding peek
peek-IsValid out b v = elim (Option-cases (next_filled b.slots b.next_slot max_nodes 0)) [
  | inl e ↦
      rw (e, peek)
        (record {
          eight = v.eight;
          slots = v.slots;
          distinct = v.distinct;
          next_in = v.next_in;
          peeked_in = λ i q. cc;
        })
  | inr (i, e) ↦
      let f = next_filled_sound b.slots b.next_slot max_nodes 0 i e in
      rw (e, peek)
        (record {
          eight = v.eight;
          slots = v.slots;
          distinct = v.distinct;
          next_in = v.next_in;
          peeked_in = λ j q. ground (arith, f);
        })
]

-- A pop takes one reading off, and gives the slot up with its last.
pub record IsPopped (s t : NodeSlot) : Type 0 where
  pub valid : IsSlot t
  pub uid : t.uid ≡ s.uid
  pub count : t.count ≡ s.count - 1

pub pop_slot-IsPopped : (s : NodeSlot) → IsSlot s → IsPopped s (pop_slot s)
unfolding pop_slot drop_oldest
pop_slot-IsPopped s v = ground arith

-- The buffer after a pop of slot `i`.
abbrev pub popped : Buffer → ℕ → Buffer
popped b i = record b {
  slots = set b.slots i (pop_slot (slot_at b.slots i));
  next_slot = (i + 1) % max_nodes;
  peeked_slot = none;
}

module _ {b : Buffer} (v : IsValid b) {i : ℕ} (e : b.peeked_slot ≡ some i) where
  popped-Distinct : Distinct (set b.slots i (pop_slot (slot_at b.slots i)))
  popped-Distinct =
      let k = v.peeked_in i e in
      let l : i < length b.slots = omega (arith, v.eight) in
      let t = pop_slot (slot_at b.slots i) in
      let q =
        pop_slot-IsPopped (slot_at b.slots i) (All-get_or IsSlot b.slots i zero_slot v.slots l) in
      elim (Bool-cases t.used) [
        | inl u ↦ Distinct-set_same b.slots i t (u ∙ sym k.1) q.uid v.distinct
        | inr u ↦ Distinct-set_release b.slots i t l k.1 u v.distinct
      ]

  popped-IsValid : IsValid (popped b i)
  popped-IsValid =
      let k = v.peeked_in i e in
      let l : i < length b.slots = omega (arith, v.eight) in
      let q =
        pop_slot-IsPopped (slot_at b.slots i) (All-get_or IsSlot b.slots i zero_slot v.slots l) in
      record {
        eight = length-set b.slots i _ ∙ v.eight;
        slots = All-set IsSlot b.slots i _ v.slots q.valid;
        distinct = popped-Distinct;
        next_in = omega arith;
        peeked_in = λ j h. cc;
      }

-- readingBufferPop keeps the buffer well formed.
pub pop-IsValid : (b : Buffer) → IsValid b → IsValid (pop b)
unfolding pop
pop-IsValid b v = elim (Option-cases b.peeked_slot) [
  | inl e ↦ rw (e, pop) v
  | inr (i, e) ↦ rw (e, pop) (popped-IsValid v e)
]
