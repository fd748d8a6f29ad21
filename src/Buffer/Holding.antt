-- ===== src/Buffer/Holding.antt =====
-- reading_buffer.cpp: the reading that was peeked stays the one that pop takes off, whatever is
-- pushed in between, or the pop is cancelled.
use io_t_firmware.Buffer.Keys.{uid_equals→eq}
use io_t_firmware.Buffer.Preserve.{popped, slot_at-set, push-IsValid, peek-IsValid}
use io_t_firmware.Buffer.Dequeue.{queue-popped_head, queue-popped_other}
use io_t_firmware.Base.{
  ap, ℕ, ◌+◌, ◌%◌, ◌<◌, ◌≡◌, refl, sym, ◌∙◌, ◌⊎◌, inl, inr, true, none, some, List, [], ◌∷◌, arith,
  ◌==◌, ==→eq, Bool-cases, Option-cases, length, set, get_or-set_ne, All-get_or,
}
use io_t_firmware.Wire.{Uid, Payload, uid_equals}
use io_t_firmware.Buffer.{
  zero_slot, zero_reading, max_nodes, next_filled, Buffer, NodeSlot, slot_at, push, pop, peek,
  push_slot, oldest, reading_of, readings_per_node, store, payload_of,
}
use io_t_firmware.Buffer.Ring.{push_slot-IsPushed, SlotIsValid}
use io_t_firmware.Buffer.Invariant.{IsSlot, IsValid, Target, pushed, push_cases}
use io_t_firmware.Buffer.Refine.{queue}
use io_t_firmware.Buffer.Rotation.{peek-none, peek-some}

-- The peeked slot, if any, still has `p` at its head.
abbrev pub Holding : Buffer → Payload → Type 0
Holding b p =
    (i : ℕ)
    → b.peeked_slot ≡ some i
    → ((slot_at b.slots i).uid ≡ p.uid) × (oldest (slot_at b.slots i) ≡ reading_of p)

-- A push into a ring with room leaves the head alone.
oldest-push_slot :
    (s : NodeSlot) (q : Payload)
    → SlotIsValid s
    → 0 < s.count
    → s.count < readings_per_node
    → oldest (push_slot s q) ≡ oldest s
unfolding push_slot store
oldest-push_slot s q v l h = elim (Bool-cases (s.count == readings_per_node)) [
  | inl e ↦ ground arith
  | inr e ↦ rw e (
      get_or-set_ne s.ring ((s.head + s.count) % readings_per_node) s.head (reading_of q)
        zero_reading (omega (arith, v.head_in)))
]

-- After a successful peek the buffer holds what was handed out.
pub peek-Holding : (out : Payload) (b : Buffer) → Holding (peek out b).2 (peek out b).1
unfolding peek payload_of
peek-Holding out b = elim (Option-cases (next_filled b.slots b.next_slot max_nodes 0)) [
  | inl h ↦ rw (peek-none out b h) (λ i e. cc)
  | inr (i, h) ↦ rw (peek-some out b i h) (λ j e. ground arith)
]

-- A push into the peeked slot finds it in use, and with room unless it cancels the peek.
push_into_peeked :
    {q : Payload} {b : Buffer} {i : ℕ} {s : NodeSlot} (j : ℕ)
    → IsValid b
    → Target q b i s
    → (pushed q b i s).peeked_slot ≡ some j
    → (i == j) ≡ true
    → (b.peeked_slot ≡ some j)
      × (s ≡ slot_at b.slots j)
      × (s.count < readings_per_node)
      × (0 < s.count)
push_into_peeked {q} {b} {i} {s} j v t e k =
    let same : i ≡ j = ==→eq i j k in
    let old : b.peeked_slot ≡ some j = ground arith in
    let l : j < length b.slots = omega (arith, v.peeked_in j old, v.eight) in
    let o = All-get_or IsSlot b.slots j zero_slot v.slots l in
    let at : s ≡ slot_at b.slots j = elim t.origin [
      | inl (f, w) ↦ rw (← same) w
      | inr (f, n, w) ↦ cc (n, same, (v.peeked_in j old).1)
    ] in
    (old, at, ground (arith, t.valid.count_in), ground (arith, o.in_use, t.used))

held :
    {q : Payload} {b : Buffer} (p : Payload) {i : ℕ} {s : NodeSlot} (j : ℕ)
    → IsValid b
    → Holding b p
    → Target q b i s
    → (pushed q b i s).peeked_slot ≡ some j
    → (i == j) ≡ true
    → ((slot_at (set b.slots i (push_slot s q)) j).uid ≡ p.uid)
      × (oldest (slot_at (set b.slots i (push_slot s q)) j) ≡ reading_of p)
held {q} {b} p {i} {s} j v h t e k =
    let f = push_into_peeked j v t e k in
    let old = h j f.0 in
    rw (slot_at-set b.slots i j (push_slot s q) (omega (arith, t.in_range, v.eight)), k)
      (
        (push_slot-IsPushed s q t.valid).uid ∙ ap (λ (n : NodeSlot). n.uid) f.1 ∙ old.0,
        oldest-push_slot s q t.valid f.3 f.2 ∙ ap (λ (n : NodeSlot). oldest n) f.1 ∙ old.1,
      )

-- On a well-formed buffer, readingBufferPush keeps what was peeked, or cancels the peek.
pub push-Holding :
    (q : Payload) (b : Buffer) (p : Payload) → IsValid b → Holding b p → Holding (push q b).1 p
push-Holding q b p v h = elim (push_cases q b v) [
  | inl r ↦ rw r.result h
  | inr (i, s, t) ↦ rw t.result (λ j e. elim (Bool-cases (i == j)) [
    | inl k ↦ held p j v h t e k
    | inr k ↦
        rw (slot_at-set b.slots i j (push_slot s q) (omega (arith, t.in_range, v.eight)), k)
          (h j (ground arith))
  ])
]

pub pop-none : (b : Buffer) → b.peeked_slot ≡ none → pop b ≡ b
unfolding pop
pop-none b e = ground arith

pub pop-some : (b : Buffer) (i : ℕ) → b.peeked_slot ≡ some i → pop b ≡ popped b i
unfolding pop
pop-some b i e = rw (e, pop) refl

-- On a well-formed buffer that holds what was peeked, if anything, readingBufferPop takes that off and
-- nothing else: each queue is as before, or it is that of the peeked UID and loses that reading.
pub pop_takes_held :
    (b : Buffer) (p : Payload) (u : Uid)
    → IsValid b
    → Holding b p
    → (queue (pop b) u ≡ queue b u) ⊎ ((u ≡ p.uid) × (queue b u ≡ reading_of p ∷ queue (pop b) u))
pop_takes_held b p u v h = elim (Option-cases b.peeked_slot) [
  | inl e ↦ rw (pop-none b e) (inl refl)
  | inr (i, e) ↦ rw (pop-some b i e) (elim (Bool-cases (uid_equals (slot_at b.slots i).uid u)) [
    | inr k ↦ inl (queue-popped_other v e u k)
    | inl k ↦ inr (
      sym (uid_equals→eq _ _ k) ∙ (h i e).0,
      rw (← uid_equals→eq _ _ k) (
          queue-popped_head v e
          ∙ ap (λ r. r ∷ queue (popped b i) (slot_at b.slots i).uid) (h i e).1),
    )
  ])
]

-- Pushes of readings, the first first.
abbrev pub push_all : List Payload → Buffer → Buffer
push_all [] b = b
push_all (q ∷ qs) b = push_all qs (push q b).1

push_all-Holding :
    (qs : List Payload) (b : Buffer) (p : Payload)
    → IsValid b
    → Holding b p
    → IsValid (push_all qs b) × Holding (push_all qs b) p
push_all-Holding [] b p v h = (v, h)
push_all-Holding (q ∷ qs) b p v h =
    push_all-Holding qs (push q b).1 p (push-IsValid q b v) (push-Holding q b p v h)

-- On a well-formed buffer, whatever readings are pushed between a peek and a pop, into the peeked ring
-- also when it is full, the pop takes off the reading that was peeked and nothing else: each queue is
-- as the pushes have left it, or it is that of the peeked UID and loses that reading from its head.
pub pop_takes_peeked :
    (out : Payload) (b : Buffer) (qs : List Payload) (u : Uid)
    → IsValid b
    → let p = (peek out b).1 in
      let b' = push_all qs (peek out b).2 in
      (queue (pop b') u ≡ queue b' u)
      ⊎ ((u ≡ p.uid) × (queue b' u ≡ reading_of p ∷ queue (pop b') u))
pop_takes_peeked out b qs u v =
    let (w, h) =
      push_all-Holding qs (peek out b).2 (peek out b).1 (peek-IsValid out b v)
        (peek-Holding out b) in
    pop_takes_held (push_all qs (peek out b).2) (peek out b).1 u w h
