-- ===== src/Buffer/Refine.antt =====
-- reading_buffer.cpp as one bounded queue for each UID: what push, peek and pop do to the queues.
use io_t_firmware.Base.{
  ℕ, ◌<◌, ◌≡◌, refl, sym, ap, ◌∙◌, inl, inr, true, false, none, some, List, [], ◌==◌, if◌then◌else◌,
  length, set, arith, get_or-set_self, Option-cases, Bool-cases,
}
use io_t_firmware.Wire.{Uid, Payload, uid_equals}
use io_t_firmware.Buffer.{
  NodeSlot, Buffer, Reading, zero_slot, slot_at, claimed, push_slot, push, reading_of,
}
use io_t_firmware.Buffer.Keys.{
  find_used, find_used-set_same, find_used-set_claim, uid_equals→eq, uid_equals_refl,
  find_used_sound,
}
use io_t_firmware.Buffer.Ring.{
  IsPushed, contents, enqueue, push_slot-IsPushed, contents-push_slot, items,
}
use io_t_firmware.Buffer.Invariant.{IsValid, Target, pushed, push_cases}
use io_t_firmware.Buffer.Preserve.{slot_at-set}

-- The readings held for a UID, oldest first.
unfoldable pub queue : Buffer → Uid → List Reading
queue b u = elim (find_used u b.slots) [ none ↦ [] | some i ↦ contents (slot_at b.slots i) ]

pub queue-none : (b : Buffer) (u : Uid) → find_used u b.slots ≡ none → queue b u ≡ []
unfolding queue
queue-none b u h = rw (h, queue) refl

pub queue-some :
    (b : Buffer) (u : Uid) (i : ℕ)
    → find_used u b.slots ≡ some i
    → queue b u ≡ contents (slot_at b.slots i)
unfolding queue
queue-some b u i h = rw (h, queue) refl

contents-claimed : (u : Uid) → contents (claimed u) ≡ []
unfolding claimed zero_slot items
contents-claimed u = refl

-- What the target of a push held is the queue of its UID.
contents-Target :
    {p : Payload} {b : Buffer} {i : ℕ} {s : NodeSlot} → Target p b i s → contents s ≡ queue b p.uid
contents-Target {p} {b} {i} t = elim t.origin [
  | inl (h, e) ↦ rw e (sym (queue-some b p.uid i h))
  | inr (h, k, e) ↦ rw e (contents-claimed p.uid ∙ sym (queue-none b p.uid h))
]

module _ {p : Payload} {b : Buffer} (v : IsValid b) {i : ℕ} {s : NodeSlot}
    (t : Target p b i s) where
  find_used_pushed :
      (u : Uid)
      → find_used u (set b.slots i (push_slot s p))
        ≡ (if uid_equals p.uid u then some i else find_used u b.slots)
  find_used_pushed u = elim t.origin [
    | inl (h, e) ↦
        ground (arith, find_used-set_same u b.slots i (push_slot s p), q, h, uid_equals→eq p.uid u)
    | inr (h, k, e) ↦ ground (
      arith,
      find_used-set_claim u b.slots i (push_slot s p),
      q,
      t.uid,
      t.used,
      t.in_range,
      v.eight,
    )
  ]
    where
      q : IsPushed s (push_slot s p)
      q = push_slot-IsPushed s p t.valid

  -- Another UID is served by another slot.
  target_other :
      (u : Uid) (j : ℕ)
      → uid_equals p.uid u ≡ false
      → find_used u b.slots ≡ some j
      → (i == j) ≡ false
  target_other u j ne h = elim (Bool-cases (i == j)) [
    | inr e ↦ e
    | inl e ↦ elim t.origin [
      | inl (k, o) ↦ ground (
        arith,
        find_used_sound u b.slots j h,
        find_used_sound p.uid b.slots i k,
        uid_equals_refl u,
      )
      | inr (k, w, o) ↦ ground (arith, find_used_sound u b.slots j h)
    ]
  ]

  slot_at_other :
      (j : ℕ) → (i == j) ≡ false → slot_at (set b.slots i (push_slot s p)) j ≡ slot_at b.slots j
  slot_at_other j h =
      slot_at-set b.slots i j (push_slot s p) (omega (arith, t.in_range, v.eight)) ∙ rw h refl

  queue-pushed :
      (u : Uid)
      → queue (pushed p b i s) u
        ≡ (if uid_equals p.uid u then enqueue (queue b p.uid) (reading_of p) else queue b u)
  queue-pushed u = elim (Bool-cases (uid_equals p.uid u)) [
    | inl e ↦ rw e (queue-some (pushed p b i s) u i (find_used_pushed u ∙ rw e refl) ∙ own)
    | inr e ↦ rw e (elim (Option-cases (find_used u b.slots)) [
      | inl h ↦ queue-none (pushed p b i s) u (find_used_pushed u ∙ rw e h) ∙ sym (queue-none b u h)
      | inr (j, h) ↦
          queue-some (pushed p b i s) u j (find_used_pushed u ∙ rw e h)
          ∙ ap contents (slot_at_other j (target_other u j e h))
          ∙ sym (queue-some b u j h)
    ])
  ]
    where
      in_range : i < length b.slots
      in_range = omega (arith, t.in_range, v.eight)

      own :
          contents (slot_at (set b.slots i (push_slot s p)) i)
          ≡ enqueue (queue b p.uid) (reading_of p)
      own =
          ap contents (get_or-set_self b.slots i (push_slot s p) zero_slot in_range)
          ∙ contents-push_slot s p t.valid
          ∙ ap (λ q. enqueue q (reading_of p)) (contents-Target t)

-- On a well-formed buffer, readingBufferPush, when it stores a reading, puts it at the end of the queue of its UID, whose
-- oldest reading makes room when 288 are held, and leaves every other queue alone; when it
-- refuses, the buffer is unchanged.
pub push_refines :
    (p : Payload) (b : Buffer) (u : Uid)
    → IsValid b
    → let (stored, b') = push p b in
      (stored ≡ true
        → queue b' u
          ≡ (if uid_equals p.uid u then enqueue (queue b p.uid) (reading_of p) else queue b u))
      × (stored ≡ false → b' ≡ b)
push_refines p b u v = elim (push_cases p b v) [
  | inl r ↦ rw r.result (λ e. cc, λ e. refl)
  | inr (i, s, t) ↦ rw t.result (λ e. queue-pushed v t u, λ e. cc)
]
