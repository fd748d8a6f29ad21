-- ===== src/Buffer/Dequeue.antt =====
-- reading_buffer.cpp: peek shows the head of a queue, and pop takes that reading off.
use io_t_firmware.Base.{
  ◌==◌, get_or-set_self, ℕ, ◌<◌, ◌≡◌, refl, sym, ap, ◌∙◌, inl, inr, false, none, some, ◌∷◌,
  if◌then◌else◌, length, arith, All-get_or, Option-cases, Bool-cases,
}
use io_t_firmware.Wire.{Uid, uid_equals}
use io_t_firmware.Buffer.{oldest, Buffer, NodeSlot, zero_slot, slot_at, pop_slot}
use io_t_firmware.Buffer.Keys.{
  find_used_sound, uid_equals_refl, find_used, find_used_own, find_used-set_same,
  find_used-set_release, uid_equals→eq,
}
use io_t_firmware.Buffer.Ring.{contents_empty, contents-pop_slot, contents}
use io_t_firmware.Buffer.Invariant.{IsSlot, IsValid}
use io_t_firmware.Buffer.Preserve.{IsPopped, pop_slot-IsPopped, popped, slot_at-set}
use io_t_firmware.Buffer.Refine.{queue, queue-none, queue-some}

module _ {b : Buffer} (v : IsValid b) {i : ℕ} (e : b.peeked_slot ≡ some i) where
  abbrev peeked_node : NodeSlot
  peeked_node = slot_at b.slots i

  peeked_in_range : i < length b.slots
  peeked_in_range = omega (arith, v.peeked_in i e, v.eight)

  peeked-IsPopped : IsPopped peeked_node (pop_slot peeked_node)
  peeked-IsPopped =
      pop_slot-IsPopped peeked_node (All-get_or IsSlot b.slots i zero_slot v.slots peeked_in_range)

  peeked_own : find_used peeked_node.uid b.slots ≡ some i
  peeked_own = find_used_own b.slots i v.distinct peeked_in_range (v.peeked_in i e).1

  find_used-popped :
      (u : Uid)
      → find_used u (popped b i).slots ≡ (
          if uid_equals peeked_node.uid u
          then (if (pop_slot peeked_node).used then some i else none)
          else find_used u b.slots)
  find_used-popped u = elim (Bool-cases (pop_slot peeked_node).used) [
    | inl k ↦ ground (
      arith,
      find_used-set_same u b.slots i (pop_slot peeked_node),
      k,
      (v.peeked_in i e).1,
      peeked-IsPopped.uid,
      peeked_own,
      uid_equals→eq peeked_node.uid u,
    )
    | inr k ↦ ground (
      arith,
      find_used-set_release u b.slots i (pop_slot peeked_node),
      k,
      v.distinct,
      peeked_in_range,
      (v.peeked_in i e).1,
    )
  ]

  peeked_filled : 0 < peeked_node.count
  peeked_filled =
      let o = All-get_or IsSlot b.slots i zero_slot v.slots peeked_in_range in
      ground (arith, o.in_use, v.peeked_in i e)

  -- The popped slot holds what is left of the queue of its UID.
  queue-popped_own :
      (u : Uid) → peeked_node.uid ≡ u → queue (popped b i) u ≡ contents (pop_slot peeked_node)
  queue-popped_own u h = elim (Bool-cases (pop_slot peeked_node).used) [
    | inl k ↦
        queue-some (popped b i) u i (find_used-popped u ∙ rw (h, uid_equals_refl u, k) refl)
        ∙ ap contents (get_or-set_self b.slots i (pop_slot peeked_node) zero_slot peeked_in_range)
    | inr k ↦
        queue-none (popped b i) u (find_used-popped u ∙ rw (h, uid_equals_refl u, k) refl)
        ∙ sym (contents_empty (pop_slot peeked_node) (ground (arith, peeked-IsPopped.valid.in_use)))
  ]

  -- The queue of the peeked UID starts with the peeked reading, and the pop leaves the rest.
  pub queue-popped_head :
      queue b peeked_node.uid ≡ oldest peeked_node ∷ queue (popped b i) peeked_node.uid
  queue-popped_head =
      queue-some b peeked_node.uid i peeked_own
      ∙ contents-pop_slot peeked_node peeked_filled
      ∙ ap (λ t. oldest peeked_node ∷ t) (sym (queue-popped_own peeked_node.uid refl))

  -- No other queue changes.
  pub queue-popped_other :
      (u : Uid) → uid_equals peeked_node.uid u ≡ false → queue (popped b i) u ≡ queue b u
  queue-popped_other u h = elim (Option-cases (find_used u b.slots)) [
    | inl k ↦ queue-none (popped b i) u (find_used-popped u ∙ rw h k) ∙ sym (queue-none b u k)
    | inr (j, k) ↦
        queue-some (popped b i) u j (find_used-popped u ∙ rw h k)
        ∙ ap contents (same j k)
        ∙ sym (queue-some b u j k)
  ]
    where
      other : (j : ℕ) → find_used u b.slots ≡ some j → (i == j) ≡ false
      other j k = ground (arith, find_used_sound u b.slots j k, uid_equals_refl u)

      same :
          (j : ℕ) → find_used u b.slots ≡ some j → slot_at (popped b i).slots j ≡ slot_at b.slots j
      same j k =
          slot_at-set b.slots i j (pop_slot peeked_node) peeked_in_range ∙ rw (other j k) refl
