-- ===== src/Buffer/Invariant.antt =====
-- reading_buffer.cpp: the well-formedness of the buffer, which every operation keeps.
use io_t_firmware.Base.{
  ℕ, ◌<◌, ◌≡◌, refl, ap, ◌∙◌, List, ◌⊎◌, inl, inr, true, false, ◌&&◌, none, some, ◌==◌, ltb,
  if◌then◌else◌, length, set, arith, All, All-get_or, set-set, get_or-set_self, length-replicate,
  Option-cases,
}
use io_t_firmware.Wire.{Uid, Payload}
use io_t_firmware.Buffer.{
  NodeSlot, Buffer, max_nodes, readings_per_node, zero_slot, slot_at, claimed, points_to, push_slot,
  push_at, push, find_or_claim_slot,
}
use io_t_firmware.Buffer.Keys.{
  Distinct, find_used, find_free, find_used_sound, find_free_sound, scan_slots_lem,
}
use io_t_firmware.Buffer.Ring.{SlotIsValid}

-- A slot is in use exactly when it holds a reading.
pub record IsSlot (s : NodeSlot) : Type 0 where
  pub valid : SlotIsValid s
  pub in_use : s.used ≡ ltb 0 s.count

pub record IsValid (b : Buffer) : Type 0 where
  pub eight : length b.slots ≡ max_nodes
  pub slots : All IsSlot b.slots
  pub distinct : Distinct b.slots
  pub next_in : b.next_slot < max_nodes
  -- What was peeked is still there.
  pub peeked_in :
      (i : ℕ) → b.peeked_slot ≡ some i → (i < max_nodes) × ((slot_at b.slots i).used ≡ true)

-- The buffer with a reading put into slot `i`, which held `s`.
abbrev pub pushed : Payload → Buffer → ℕ → NodeSlot → Buffer
pushed p b i s = record b {
  slots = set b.slots i (push_slot s p);
  peeked_slot =
      if s.count == readings_per_node && points_to b.peeked_slot i then none else b.peeked_slot;
}

-- The slot `i`, with what it holds before the reading goes in, that serves a pushed reading.
pub record Target (p : Payload) (b : Buffer) (i : ℕ) (s : NodeSlot) : Type 0 where
  pub in_range : i < max_nodes
  pub result : push p b ≡ (true, pushed p b i s)
  pub valid : SlotIsValid s
  pub used : s.used ≡ true
  pub uid : s.uid ≡ p.uid
  pub origin :
      ((find_used p.uid b.slots ≡ some i) × (s ≡ slot_at b.slots i))
      ⊎ ((find_used p.uid b.slots ≡ none)
          × ((slot_at b.slots i).used ≡ false)
          × (s ≡ claimed p.uid))

pub record Refused (p : Payload) (b : Buffer) : Type 0 where
  pub result : push p b ≡ (false, b)
  pub unknown : find_used p.uid b.slots ≡ none
  pub no_room : find_free b.slots ≡ none

claimed-SlotIsValid : (u : Uid) → SlotIsValid (claimed u)
unfolding claimed zero_slot
claimed-SlotIsValid u = record {
  ring_size = length-replicate readings_per_node _;
  head_in = omega arith;
  count_in = omega arith;
}

-- How findOrClaimSlot ends.
find_or_claim_hit :
    (u : Uid) (ss : List NodeSlot) (i : ℕ)
    → find_used u ss ≡ some i
    → find_or_claim_slot u ss ≡ some (i, ss)
unfolding find_or_claim_slot
find_or_claim_hit u ss i h = ground (arith, scan_slots_lem u ss)

find_or_claim_free :
    (u : Uid) (ss : List NodeSlot) (i : ℕ)
    → find_used u ss ≡ none
    → find_free ss ≡ some i
    → find_or_claim_slot u ss ≡ some (i, set ss i (claimed u))
unfolding find_or_claim_slot
find_or_claim_free u ss i h k = ground (arith, scan_slots_lem u ss)

find_or_claim_full :
    (u : Uid) (ss : List NodeSlot)
    → find_used u ss ≡ none
    → find_free ss ≡ none
    → find_or_claim_slot u ss ≡ none
unfolding find_or_claim_slot
find_or_claim_full u ss h k = ground (arith, scan_slots_lem u ss)

push-some :
    (p : Payload) (b : Buffer) (i : ℕ) (ss : List NodeSlot)
    → find_or_claim_slot p.uid b.slots ≡ some (i, ss)
    → push p b ≡ (true, push_at p b i ss)
unfolding push
push-some p b i ss h = rw (h, push) refl

push_at_claimed :
    (p : Payload) (b : Buffer) (i : ℕ) (c : NodeSlot)
    → i < length b.slots
    → push_at p b i (set b.slots i c) ≡ pushed p b i c
unfolding push_at
push_at_claimed p b i c h = rw (get_or-set_self b.slots i c zero_slot h, set-set b.slots i c) refl

module _ (p : Payload) (b : Buffer) (v : IsValid b) where
  push_hit : (i : ℕ) → find_used p.uid b.slots ≡ some i → Target p b i (slot_at b.slots i)
  unfolding push_at
  push_hit i h =
      let f = find_used_sound p.uid b.slots i h in
      record {
        in_range = omega (arith, v.eight, f.0);
        result = push-some p b i b.slots (find_or_claim_hit p.uid b.slots i h);
        valid = (All-get_or IsSlot b.slots i zero_slot v.slots f.0).valid;
        used = f.1;
        uid = f.2;
        origin = inl (h, refl);
      }

  push_claim :
      (i : ℕ)
      → find_used p.uid b.slots ≡ none
      → find_free b.slots ≡ some i
      → Target p b i (claimed p.uid)
  unfolding claimed
  push_claim i h k =
      let f = find_free_sound b.slots i k in
      record {
        in_range = omega (arith, v.eight, f.0);
        result =
            push-some p b i _ (find_or_claim_free p.uid b.slots i h k)
            ∙ ap (λ t. (true, t)) (push_at_claimed p b i (claimed p.uid) f.0);
        valid = claimed-SlotIsValid p.uid;
        used = refl;
        uid = refl;
        origin = inr (h, f.1, refl);
      }

  push-Refused : find_used p.uid b.slots ≡ none → find_free b.slots ≡ none → Refused p b
  push-Refused h k = record {
    result = unfold push in rw (find_or_claim_full p.uid b.slots h k, push) refl;
    unknown = h;
    no_room = k;
  }

  -- A push is refused, or it writes one slot.
  pub push_cases : Refused p b ⊎ ((i : ℕ) × (s : NodeSlot) × Target p b i s)
  push_cases = elim (Option-cases (find_used p.uid b.slots)) [
    | inl h ↦ elim (Option-cases (find_free b.slots)) [
      | inl k ↦ inl (push-Refused h k)
      | inr (i, k) ↦ inr (i, claimed p.uid, push_claim i h k)
    ]
    | inr (i, h) ↦ inr (i, slot_at b.slots i, push_hit i h)
  ]
