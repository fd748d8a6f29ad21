-- ===== src/Buffer/Rotation.antt =====
-- reading_buffer.cpp: which slot a peek takes, and that no node waits for ever.
use io_t_firmware.Base.{
  ℕ, zero, suc, ◌+◌, ◌-◌, ◌%◌, ◌≤◌, ◌<◌, ◌≡◌, refl, sym, ap, ◌∙◌, ◌≢◌, ◌⊎◌, inl, inr, Bool, true,
  false, not, ◌&&◌, Option, none, some, List, ◌∷◌, arith, ltb, ◌==◌, ltb→lt, ==→eq, Bool-cases,
  Option-cases,
}
use io_t_firmware.Wire.{Uid, Payload, uid_equals}
use io_t_firmware.Buffer.{
  Buffer, NodeSlot, slot_at, pop, peek, next_filled, payload_of, reading_of, max_nodes,
}
use io_t_firmware.Buffer.Invariant.{IsValid}
use io_t_firmware.Buffer.Preserve.{peek-IsValid}
use io_t_firmware.Buffer.Refine.{queue}
use io_t_firmware.Buffer.Dequeue.{queue-popped_head, queue-popped_other}

-- A slot that a peek may take.
abbrev pub filled : NodeSlot → Bool
filled s = s.used && not (s.count == 0)

pub peek-none :
    (out : Payload) (b : Buffer)
    → next_filled b.slots b.next_slot max_nodes 0 ≡ none
    → peek out b ≡ (false, out, record b { peeked_slot = none })
unfolding peek
peek-none out b h = rw (h, peek) refl

pub peek-some :
    (out : Payload) (b : Buffer) (i : ℕ)
    → next_filled b.slots b.next_slot max_nodes 0 ≡ some i
    → peek out b ≡ (true, payload_of (slot_at b.slots i), record b { peeked_slot = some i })
unfolding peek
peek-some out b i h = rw (h, peek) refl

queue_same :
    (b : Buffer) (o : Option ℕ) (u : Uid) → queue (record b { peeked_slot = o }) u ≡ queue b u
unfolding queue
queue_same b o u = refl

-- A peek changes no queue.
pub queue-peek : (out : Payload) (b : Buffer) (u : Uid) → queue (peek out b).2 u ≡ queue b u
queue-peek out b u = elim (Option-cases (next_filled b.slots b.next_slot max_nodes 0)) [
  | inl h ↦ rw (peek-none out b h) (queue_same b none u)
  | inr (i, h) ↦ rw (peek-some out b i h) (queue_same b (some i) u)
]

-- What pop does to the queues, once a peek has found slot `i`.
peeked_pop :
    (b : Buffer) (i : ℕ) (u : Uid)
    → let b' = record b { peeked_slot = some i } in
      let p = payload_of (slot_at b.slots i) in
      IsValid b'
      → (queue b p.uid ≡ reading_of p ∷ queue (pop b') p.uid)
        × (uid_equals p.uid u ≡ false → queue (pop b') u ≡ queue b u)
unfolding pop payload_of
peeked_pop b i u v = (
  sym (queue_same b (some i) (slot_at b.slots i).uid) ∙ queue-popped_head v refl,
  λ h. queue-popped_other v refl u h ∙ queue_same b (some i) u,
)

-- On a well-formed buffer, what peek hands out is the head of a queue, and pop takes exactly that reading off: the other
-- queues, and all queues until the pop, stay as they were.
pub peek-pop_refines :
    (out : Payload) (b : Buffer) (u : Uid)
    → IsValid b
    → let (found, p, b') = peek out b in
      found ≡ true
      → (queue b' u ≡ queue b u)
        × (queue b p.uid ≡ reading_of p ∷ queue (pop b') p.uid)
        × (uid_equals p.uid u ≡ false → queue (pop b') u ≡ queue b u)
peek-pop_refines out b u v = elim (Option-cases (next_filled b.slots b.next_slot max_nodes 0)) [
  | inl h ↦ rw (peek-none out b h) (λ e. cc)
  | inr (i, h) ↦
      let w = rw (peek-some out b i h) at (peek-IsValid out b v) in
      let q = peeked_pop b i u w in
      rw (peek-some out b i h) (λ e. (queue_same b (some i) u, q.0, q.1))
]

module _ (ss : List NodeSlot) (next : ℕ) where
  -- The slot that is looked at in round `m` of the search.
  abbrev round : ℕ → NodeSlot
  round m = slot_at ss ((next + m) % max_nodes)

  next_filled_hit :
      (left k : ℕ)
      → filled (round k) ≡ true
      → next_filled ss next (suc left) k ≡ some ((next + k) % max_nodes)
  unfolding next_filled
  next_filled_hit left k h = ground arith

  next_filled_skip :
      (left k : ℕ)
      → filled (round k) ≡ false
      → next_filled ss next (suc left) k ≡ next_filled ss next left (k + 1)
  unfolding next_filled
  next_filled_skip left k h = ground arith

  -- The search takes the first filled slot, in the order of the rotation.
  next_filled_first :
      (left k i : ℕ)
      → next_filled ss next left k ≡ some i
      → (m : ℕ) × (i ≡ (next + m) % max_nodes)
        × (m < k + left)
        × ((e : ℕ) → k ≤ e → e < m → filled (round e) ≡ false)
  unfolding next_filled
  next_filled_first zero k i h = cc
  next_filled_first (suc left) k i h = elim (Bool-cases (filled (round k))) [
    | inl f ↦
        (k, ground (arith, next_filled_hit left k f), omega arith, λ e p q. absurd (omega arith))
    | inr f ↦
        let r = next_filled_first left (k + 1) i (sym (next_filled_skip left k f) ∙ h) in
        (
          r.0,
          r.1,
          omega (arith, r.2),
          λ e p q. elim (Bool-cases (e == k)) [
            | inl c ↦ rw (==→eq e k c) f
            | inr c ↦ r.3 e (ground arith) q
          ],
        )
  ]

  next_filled-none :
      (left k m : ℕ)
      → next_filled ss next left k ≡ none
      → k ≤ m
      → m < k + left
      → filled (round m) ≡ false
  next_filled-none zero k m h p l = absurd (omega arith)
  next_filled-none (suc left) k m h p l = elim (Bool-cases (filled (round k))) [
    | inl f ↦ cc (next_filled_hit left k f)
    | inr f ↦ elim (Bool-cases (m == k)) [
      | inl c ↦ rw (==→eq m k c) f
      | inr c ↦
          next_filled-none left (k + 1) m (sym (next_filled_skip left k f) ∙ h) (ground arith)
            (omega arith)
    ]
  ]

-- How many slots the rotation looks at before slot `j`.
abbrev pub ahead : Buffer → ℕ → ℕ
ahead b j = (j + max_nodes - b.next_slot) % max_nodes

-- On a well-formed buffer, peek and pop either serve a given slot that holds readings or bring it
-- at least one place nearer to its turn, and there are at most seven places before its own.
pub rotation_is_fair :
    (out : Payload) (b : Buffer) (j : ℕ)
    → IsValid b
    → j < max_nodes
    → filled (slot_at b.slots j) ≡ true
    → let (found, p, b') = peek out b in
      (found ≡ true)
      × (ahead b j < max_nodes)
      × ((b'.peeked_slot ≡ some j) ⊎ (ahead (pop b') j < ahead b j))
unfolding pop
rotation_is_fair out b j v l f = elim (Option-cases (next_filled b.slots b.next_slot max_nodes 0)) [
  | inl h ↦ cc (
    f,
    ap (λ k. filled (slot_at b.slots k)) back,
    next_filled-none b.slots b.next_slot max_nodes 0 (ahead b j) h (omega arith) (omega arith),
  )
  | inr (i, h) ↦ rw (peek-some out b i h) (
    refl,
    omega arith,
    elim (Bool-cases (i == j)) [
      | inl e ↦ inl (ap some (==→eq i j e))
      | inr e ↦ inr (nearer i h (ground arith))
    ],
  )
]
  where
    back : (b.next_slot + ahead b j) % max_nodes ≡ j
    back = omega (arith, v.next_in)

    reached :
        (m : ℕ)
        → ((e : ℕ)
            → 0 ≤ e
            → e < m
            → filled (slot_at b.slots ((b.next_slot + e) % max_nodes)) ≡ false)
        → m ≤ ahead b j
    reached m skipped = elim (Bool-cases (ltb (ahead b j) m)) [
      | inl q ↦ cc (
        f,
        ap (λ k. filled (slot_at b.slots k)) back,
        skipped (ahead b j) (omega arith) (ltb→lt _ _ q),
      )
      | inr q ↦ ground arith
    ]

    nearer :
        (i : ℕ)
        → next_filled b.slots b.next_slot max_nodes 0 ≡ some i
        → i ≢ j
        → (j + max_nodes - (i + 1) % max_nodes) % max_nodes < ahead b j
    nearer i h ne =
        let r = next_filled_first b.slots b.next_slot max_nodes 0 i h in
        omega (arith, r.1, r.2, reached r.0 r.3, v.next_in, ne)
