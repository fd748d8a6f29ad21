-- ===== src/Buffer/Keys.antt =====
-- reading_buffer.cpp, findOrClaimSlot: which slot serves a UID, and how writing one slot changes
-- that. `find_used` is the plain search that the loop of the source carries out.
use mathlib.Core.Option
use io_t_firmware.Base.{
  ℕ, zero, suc, ◌+◌, ◌<◌, ◌≡◌, refl, ◌∙◌, Bool, true, false, ◌&&◌, Option, none, some, List, [],
  ◌∷◌, if◌then◌else◌, length, set, arith, bytes_eq→eq, bytes_eq_refl, bytes_eq_sym,
}
use io_t_firmware.Wire.{Uid, uid_equals}
use io_t_firmware.Buffer.{NodeSlot, slot_at, Found, hit, free, full, scan_slots}

abbrev pub serves : NodeSlot → Uid → Bool
serves s u = s.used && uid_equals s.uid u

pub find_used : Uid → List NodeSlot → Option ℕ
find_used u [] = none
find_used u (s ∷ ss) = if serves s u then some 0 else Option.map suc (find_used u ss)

pub find_free : List NodeSlot → Option ℕ
find_free [] = none
find_free (s ∷ ss) = if s.used then Option.map suc (find_free ss) else some 0

abbrev first_free : Option ℕ → ℕ → Option ℕ → Found
first_free (some j) i o = free j
first_free none i none = full
first_free none i (some k) = free (i + k)

abbrev found : Option ℕ → Option ℕ → ℕ → Option ℕ → Found
found (some k) fr i o = hit (i + k)
found none fr i o = first_free fr i o

-- The loop finds the slot that serves the UID, else the first free one.
scan_slots-found :
    (u : Uid) (ss : List NodeSlot) (i : ℕ) (fr : Option ℕ)
    → scan_slots u ss i fr ≡ found (find_used u ss) fr i (find_free ss)
unfolding scan_slots find_used find_free
scan_slots-found u [] i none = refl
scan_slots-found u [] i (some j) = refl
scan_slots-found u (s ∷ ss) i none =
    ground (arith, scan_slots-found u ss (i + 1) none, scan_slots-found u ss (i + 1) (some i))
scan_slots-found u (s ∷ ss) i (some j) = ground (arith, scan_slots-found u ss (i + 1) (some j))

pub scan_slots_lem :
    (u : Uid) (ss : List NodeSlot)
    → scan_slots u ss 0 none ≡ (elim (find_used u ss) [
      | some k ↦ hit k
      | none ↦ elim (find_free ss) [ some k ↦ free k | none ↦ full ]
    ])
scan_slots_lem u ss = ground (arith, scan_slots-found u ss 0 none)

pub uid_equals→eq : (a b : Uid) → uid_equals a b ≡ true → a ≡ b
unfolding uid_equals
uid_equals→eq a b h = bytes_eq→eq a b h

pub uid_equals_refl : (a : Uid) → uid_equals a a ≡ true
unfolding uid_equals
uid_equals_refl a = bytes_eq_refl a

pub uid_equals_sym : (a b : Uid) → uid_equals a b ≡ uid_equals b a
unfolding uid_equals
uid_equals_sym a b = bytes_eq_sym a b

-- What the search finds.
pub find_used_sound :
    (u : Uid) (ss : List NodeSlot) (i : ℕ)
    → find_used u ss ≡ some i
    → (i < length ss) × ((slot_at ss i).used ≡ true) × ((slot_at ss i).uid ≡ u)
unfolding find_used
find_used_sound u [] i h = ground arith
find_used_sound u (s ∷ ss) zero h = ground (arith, uid_equals→eq s.uid u)
find_used_sound u (s ∷ ss) (suc i) h = ground (arith, find_used_sound u ss i)

pub find_free_sound :
    (ss : List NodeSlot) (i : ℕ)
    → find_free ss ≡ some i
    → (i < length ss) × ((slot_at ss i).used ≡ false)
unfolding find_free
find_free_sound [] i h = ground arith
find_free_sound (s ∷ ss) zero h = ground arith
find_free_sound (s ∷ ss) (suc i) h = ground (arith, find_free_sound ss i)

pub find_free-none :
    (ss : List NodeSlot) (i : ℕ) → find_free ss ≡ none → i < length ss → (slot_at ss i).used ≡ true
unfolding find_free
find_free-none [] i h k = absurd (omega arith)
find_free-none (s ∷ ss) zero h k = ground arith
find_free-none (s ∷ ss) (suc i) h k = ground (arith, find_free-none ss i)

-- A write that keeps the slot's key changes no search.
pub find_used-set_same :
    (v : Uid) (ss : List NodeSlot) (i : ℕ) (t : NodeSlot)
    → t.used ≡ (slot_at ss i).used
    → t.uid ≡ (slot_at ss i).uid
    → find_used v (set ss i t) ≡ find_used v ss
unfolding find_used
find_used-set_same v [] i t h k = refl
find_used-set_same v (s ∷ ss) zero t h k = rw (h, k)
find_used-set_same v (s ∷ ss) (suc i) t h k = rw (find_used-set_same v ss i t h k)

-- A free slot that is claimed for a new UID serves that UID from then on, and no other.
pub find_used-set_claim :
    (v : Uid) (ss : List NodeSlot) (i : ℕ) (t : NodeSlot)
    → i < length ss
    → (slot_at ss i).used ≡ false
    → t.used ≡ true
    → find_used t.uid ss ≡ none
    → find_used v (set ss i t) ≡ (if uid_equals t.uid v then some i else find_used v ss)
unfolding find_used
find_used-set_claim v [] i t l h k n = absurd (omega arith)
find_used-set_claim v (s ∷ ss) zero t l h k n = ground arith
find_used-set_claim v (s ∷ ss) (suc i) t l h k n =
    ground (arith, find_used-set_claim v ss i t, uid_equals→eq t.uid v)

-- Each used slot has a UID of its own.
abbrev pub Distinct : List NodeSlot → Type 0
Distinct [] = Unit
Distinct (s ∷ ss) = (s.used ≡ true → find_used s.uid ss ≡ none) × Distinct ss

-- So every used slot is the one that its UID is served by.
pub find_used_own :
    (ss : List NodeSlot) (i : ℕ)
    → Distinct ss
    → i < length ss
    → (slot_at ss i).used ≡ true
    → find_used (slot_at ss i).uid ss ≡ some i
unfolding find_used
find_used_own [] i d l h = absurd (omega arith)
find_used_own (s ∷ ss) zero d l h = ground (arith, uid_equals_refl s.uid)
find_used_own (s ∷ ss) (suc i) d l h =
    ground (arith, find_used_own ss i, uid_equals→eq s.uid (slot_at ss i).uid)

-- A slot that is given up serves nobody.
pub find_used-set_release :
    (v : Uid) (ss : List NodeSlot) (i : ℕ) (t : NodeSlot)
    → Distinct ss
    → i < length ss
    → (slot_at ss i).used ≡ true
    → t.used ≡ false
    → find_used v (set ss i t) ≡ (if uid_equals (slot_at ss i).uid v then none else find_used v ss)
unfolding find_used
find_used-set_release v [] i t d l h k = absurd (omega arith)
find_used-set_release v (s ∷ ss) zero t d l h k = ground (arith, uid_equals→eq s.uid v, d.0)
find_used-set_release v (s ∷ ss) (suc i) t d l h k = ground (
  arith,
  find_used-set_release v ss i t,
  find_used_own ss i,
  uid_equals→eq s.uid v,
  uid_equals→eq (slot_at ss i).uid v,
  d.0,
)

pub Distinct-set_same :
    (ss : List NodeSlot) (i : ℕ) (t : NodeSlot)
    → t.used ≡ (slot_at ss i).used
    → t.uid ≡ (slot_at ss i).uid
    → Distinct ss
    → Distinct (set ss i t)
Distinct-set_same [] i t h k d = d
Distinct-set_same (s ∷ ss) zero t h k d = rw (h, k) d
Distinct-set_same (s ∷ ss) (suc i) t h k d =
    (λ e. find_used-set_same s.uid ss i t h k ∙ d.0 e, Distinct-set_same ss i t h k d.1)

-- Nobody in a list serves a UID: neither its head nor its tail does.
find_used_cons_none :
    (u : Uid) (s : NodeSlot) (ss : List NodeSlot)
    → find_used u (s ∷ ss) ≡ none
    → (serves s u ≡ false) × (find_used u ss ≡ none)
unfolding find_used
find_used_cons_none u s ss h = ground arith

pub Distinct-set_claim :
    (ss : List NodeSlot) (i : ℕ) (t : NodeSlot)
    → i < length ss
    → (slot_at ss i).used ≡ false
    → t.used ≡ true
    → find_used t.uid ss ≡ none
    → Distinct ss
    → Distinct (set ss i t)
Distinct-set_claim [] i t l h k n d = d
Distinct-set_claim (s ∷ ss) zero t l h k n d = (λ e. (find_used_cons_none t.uid s ss n).1, d.1)
Distinct-set_claim (s ∷ ss) (suc i) t l h k n d =
    let o = find_used_cons_none t.uid s ss n in
    (
      λ e. ground (arith, find_used-set_claim s.uid ss i t, uid_equals_sym s.uid t.uid, d.0 e, o),
      Distinct-set_claim ss i t (omega arith) h k o.1 d.1,
    )

pub Distinct-set_release :
    (ss : List NodeSlot) (i : ℕ) (t : NodeSlot)
    → i < length ss
    → (slot_at ss i).used ≡ true
    → t.used ≡ false
    → Distinct ss
    → Distinct (set ss i t)
Distinct-set_release [] i t l h k d = d
Distinct-set_release (s ∷ ss) zero t l h k d = (λ e. cc (e, k), d.1)
Distinct-set_release (s ∷ ss) (suc i) t l h k d = (
  λ e. ground (arith, find_used-set_release s.uid ss i t, d),
  Distinct-set_release ss i t (omega arith) h k d.1,
)
