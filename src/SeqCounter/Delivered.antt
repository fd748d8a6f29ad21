-- ===== src/SeqCounter/Delivered.antt =====
-- lib/buffering/seq_counter under src/nodes/substation.cpp: the numbers of a node over its restarts, at
-- the substation that tells copies from new readings by them.
use io_t_firmware.Base.{
  ℕ, ◌^◌, ◌<◌, ◌≡◌, sym, ◌∙◌, ◌≢◌, ◌⊎◌, inl, inr, true, false, some, List, [], ◌∷◌, ◌++◌,
  if◌then◌else◌, length, All,
}
use io_t_firmware.NvsConfig.{Preferences, IsPreferences}
use io_t_firmware.SeqCounter.{seq_key, Life, boot, handed_out}
use io_t_firmware.SeqCounter.Persist.{DistinctNumbers, no_number_twice}
use io_t_firmware.Wire.{Uid, payload_size, decode_payload, uid_equals}
use io_t_firmware.Buffer
use io_t_firmware.Buffer.{reading_of}
use io_t_firmware.Buffer.Ring.{enqueue}
use io_t_firmware.Buffer.Invariant.{IsValid}
use io_t_firmware.Buffer.Refine.{queue}
use io_t_firmware.Substation.{
  Substation, Incoming, node_at, find_joined, handle_frame, delivery_ack,
}
use io_t_firmware.Substation.Delivery.{Outcome, reading-Outcome}

later_apart : (a b : ℕ) (bs cs : List ℕ) → All (λ m. m ≢ a) (bs ++ (b ∷ cs)) → b ≢ a
later_apart a b [] cs (ne, all) = ne
later_apart a b (x ∷ bs) cs (ne, all) = later_apart a b bs cs all

numbers_apart :
    (a b : ℕ) (earlier bs cs : List ℕ) → DistinctNumbers (earlier ++ (a ∷ (bs ++ (b ∷ cs)))) → b ≢ a
numbers_apart a b [] bs cs (all, d) = later_apart a b bs cs all
numbers_apart a b (x ∷ xs) bs cs (all, d) = numbers_apart a b xs bs cs d

module _ (P : Preferences) (ip : IsPreferences P)
    (room : (n : ℕ) (s : P.Store) → (P.put_uint seq_key n s).0 ≡ true) where
  -- A reading with a number that a node hands out later than the one that the substation has noted for
  -- it, whatever restarts and lost numbers lie between them, is never taken for a copy: it becomes
  -- the newest reading in the queue of its UID and is acknowledged, or the buffer has no room for its
  -- UID, nothing changes and nothing is sent. Every write of the node's flash succeeds, fewer than
  -- 2^32 events happen to the node, and the substation's buffer is well formed.
  pub new_reading_is_no_copy :
      (flash : P.Store) (xs : List Life) (a b : ℕ) (earlier between later : List ℕ)
      → (e : Incoming) (s : Substation) (i : ℕ) (u : Uid) → P.begin flash ≡ true
      → length xs < 2 ^ 32
      → handed_out P xs (boot P flash) ≡ earlier ++ (a ∷ (between ++ (b ∷ later)))
      → IsValid s.buffer
      → length e.frame ≡ payload_size
      → find_joined e.mac s.joined ≡ some i
      → (node_at s.joined i).last_seq ≡ a
      → (decode_payload e.frame).seq ≡ b
      → let p = decode_payload e.frame in
        let (out, s') = handle_frame e s in
        ((out ≡ delivery_ack e.mac p ∷ [])
          × (queue s'.buffer u ≡ (
              if uid_equals p.uid u
              then enqueue (queue s.buffer p.uid) (reading_of p)
              else queue s.buffer u)))
        ⊎ (((Buffer.push p s.buffer).0 ≡ false) × (handle_frame e s ≡ ([], s)))
  new_reading_is_no_copy flash xs a b earlier between later e s i u opens few handed v l h last
        now =
      let d : DistinctNumbers (earlier ++ (a ∷ (between ++ (b ∷ later)))) =
        rw⁻¹ handed (no_number_twice P ip room flash xs opens few) in
      let apart = numbers_apart a b earlier between later d in
      elim (reading-Outcome e s i v l h) [
        | Outcome.duplicate same r ↦ absurd (apart (sym now ∙ sym same.1 ∙ last))
        | Outcome.kept out q ↦ inl (out, q u)
        | Outcome.refused full r ↦ inr (full, r)
      ]
