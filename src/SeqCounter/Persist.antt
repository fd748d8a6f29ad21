-- ===== src/SeqCounter/Persist.antt =====
-- lib/buffering/seq_counter over restarts: no number twice.
use io_t_firmware.Base.{
  ap, ℕ, suc, ◌+◌, ◌^◌, ◌≤◌, ◌<◌, ◌≡◌, refl, ◌∙◌, ◌≢◌, true, List, [], ◌∷◌, arith, bytes_eq,
  bytes_eq_refl, length, All, u32,
}
use io_t_firmware.NvsConfig.{Preferences, IsPreferences}
use io_t_firmware.Node.{seq_next}
use io_t_firmware.SeqCounter.{
  seq_key, SeqCounter, begin, next, powered_on, Life, called, begun_again, restarted, cut_off, boot,
  live, handed_out,
}

-- Numbers that go up from `v` by at least one at a time and by at most `k` in all, modulo 2^32.
abbrev Ahead : ℕ → ℕ → List ℕ → Type 0
Ahead v k [] = Unit
Ahead v k (n ∷ ns) = (i : ℕ) × (j : ℕ) × (1 ≤ i) × (i + j ≤ k) × (n ≡ u32 (v + i)) × Ahead n j ns

-- Between one and `k` above `v`, modulo 2^32.
abbrev Within : ℕ → ℕ → ℕ → Type 0
Within v k m = (i : ℕ) × (1 ≤ i) × (i ≤ k) × (m ≡ u32 (v + i))

-- No two of the numbers are the same.
abbrev pub DistinctNumbers : List ℕ → Type 0
DistinctNumbers [] = Unit
DistinctNumbers (n ∷ ns) = All (λ m. m ≢ n) ns × DistinctNumbers ns

Ahead-weaken : (v j k : ℕ) (ns : List ℕ) → j ≤ k → Ahead v j ns → Ahead v k ns
Ahead-weaken v j k [] le a = tt
Ahead-weaken v j k (n ∷ ns) le (i, l, one, sum, e, a) = (i, l, one, omega arith, e, a)

Ahead-skip : (v k : ℕ) (ns : List ℕ) → Ahead (u32 (v + 1)) k ns → Ahead v (suc k) ns
Ahead-skip v k [] a = tt
Ahead-skip v k (n ∷ ns) (i, l, one, sum, e, a) =
    (suc i, l, omega arith, omega arith, omega arith, a)

Ahead-Within : (v k : ℕ) (ns : List ℕ) → Ahead v k ns → All (Within v k) ns
Ahead-Within v k [] a = tt
Ahead-Within v k (n ∷ ns) (i, l, one, sum, e, a) =
    ((i, one, omega arith, e), further v k n i l ns one sum e (Ahead-Within n l ns a))
  where
    further :
        (v k n i l : ℕ) (ns : List ℕ)
        → 1 ≤ i
        → i + l ≤ k
        → n ≡ u32 (v + i)
        → All (Within n l) ns
        → All (Within v k) ns
    further v k n i l [] one sum e a = tt
    further v k n i l (m ∷ ms) one sum e ((j, o, le, f), a) =
        ((i + j, omega arith, omega arith, omega arith), further v k n i l ms one sum e a)

Within-ne :
    (v k : ℕ) (ns : List ℕ) → v < 2 ^ 32 → k < 2 ^ 32 → All (Within v k) ns → All (λ m. m ≢ v) ns
Within-ne v k [] b l a = tt
Within-ne v k (n ∷ ns) b l ((i, one, le, e), a) = ((λ same. omega arith), Within-ne v k ns b l a)

Ahead-Distinct : (v k : ℕ) (ns : List ℕ) → k < 2 ^ 32 → Ahead v k ns → DistinctNumbers ns
Ahead-Distinct v k [] l a = tt
Ahead-Distinct v k (n ∷ ns) l (i, j, one, sum, e, a) = (
  Within-ne n j ns (omega arith) (omega arith) (Ahead-Within n j ns a),
  Ahead-Distinct n j ns (omega arith) a,
)

module _ (P : Preferences) where
  -- The counter is open and its number is in the flash.
  pub record IsSaved (c : SeqCounter P) : Type 0 where
    pub opened : c.opened ≡ true
    pub opens : P.begin c.flash ≡ true
    pub stored : P.get_uint seq_key 0 c.flash ≡ c.seq

  begin-IsSaved :
      (c : SeqCounter P)
      → P.begin c.flash ≡ true
      → IsSaved (begin P c).1 × ((begin P c).1.seq ≡ P.get_uint seq_key 0 c.flash)
  unfolding begin
  begin-IsSaved c b = rw (b, begin) (record { opened = refl; opens = b; stored = refl }, refl)

  module _ (ip : IsPreferences P)
      (room : (n : ℕ) (s : P.Store) → (P.put_uint seq_key n s).0 ≡ true) where
    next-IsSaved : (c : SeqCounter P) → IsSaved c → IsSaved (next P c).1
    unfolding next
    next-IsSaved c v =
        let n = seq_next c.seq in
        let key : bytes_eq seq_key seq_key ≡ true = bytes_eq_refl seq_key in
        let back : P.get_uint seq_key 0 (P.put_uint seq_key n c.flash).1 ≡ n =
          ip.get_uint-put_uint seq_key seq_key n 0 c.flash ∙ rw (room n c.flash, key) refl in
        rw v.opened (record {
          opened = refl;
          opens = ip.begin-put_uint seq_key n c.flash ∙ v.opens;
          stored = back;
        })

    -- Opening the counter on the flash of one that is saved gives its number back.
    reopened :
        (c d : SeqCounter P)
        → IsSaved c
        → d.flash ≡ c.flash
        → IsSaved (begin P d).1 × ((begin P d).1.seq ≡ c.seq)
    reopened c d v e =
        let (w, s) = begin-IsSaved d (ap P.begin e ∙ v.opens) in
        (w, s ∙ ap (P.get_uint seq_key 0) e ∙ v.stored)

    handed_out-Ahead :
        (xs : List Life) (c : SeqCounter P) (n : ℕ)
        → IsSaved c
        → c.seq ≡ n
        → Ahead n (length xs) (handed_out P xs c)
    unfolding handed_out live next seq_next
    handed_out-Ahead [] c n v e = tt
    handed_out-Ahead (called ∷ xs) c n v e =
        let c' = (next P c).1 in
        let rest = handed_out-Ahead xs c' c'.seq (next-IsSaved c v) refl in
        (1, length xs, omega arith, omega arith, ap (λ m. u32 (m + 1)) e, rest)
    handed_out-Ahead (begun_again ∷ xs) c n v e =
        let (w, same) = reopened c c v refl in
        Ahead-weaken n (length xs) (suc (length xs)) _ (omega arith)
          (handed_out-Ahead xs (begin P c).1 n w (same ∙ e))
    handed_out-Ahead (restarted ∷ xs) c n v e =
        let (w, same) = reopened c (powered_on P c.flash) v refl in
        Ahead-weaken n (length xs) (suc (length xs)) _ (omega arith)
          (handed_out-Ahead xs (boot P c.flash) n w (same ∙ e))
    handed_out-Ahead (cut_off ∷ xs) c n v e =
        let c' = (next P c).1 in
        let (w, same) = reopened c' (powered_on P c'.flash) (next-IsSaved c v) refl in
        Ahead-skip n (length xs) _
          (handed_out-Ahead xs (boot P c'.flash) (u32 (n + 1)) w (same ∙ ap (λ m. u32 (m + 1)) e))

    -- Where every write to the flash succeeds and the namespace opens, a node never uses a number
    -- twice, however often it restarts or loses its power, also in the middle of a call, until 2^32
    -- such events have gone by.
    pub no_number_twice :
        (flash : P.Store) (xs : List Life)
        → P.begin flash ≡ true
        → length xs < 2 ^ 32
        → DistinctNumbers (handed_out P xs (boot P flash))
    no_number_twice flash xs b l =
        let (w, e) = begin-IsSaved (powered_on P flash) b in
        Ahead-Distinct (boot P flash).seq (length xs) _ l
          (handed_out-Ahead xs (boot P flash) (boot P flash).seq w refl)
