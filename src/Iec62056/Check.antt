-- ===== src/Iec62056/Check.antt =====
-- lib/protocols/iec62056_21/iec62056_21.cpp, checkFrame: what the block check character detects.
use mathlib.Core.List.{append_assoc}
use io_t_firmware.Base.{
  ap, ℕ, ◌+◌, bit_xor, ◌≡◌, refl, sym, ◌∙◌, ◌≢◌, inl, inr, true, false, not, ◌||◌, none, some, List,
  [], ◌∷◌, ◌++◌, arith, ◌==◌, if◌then◌else◌, Bool-cases, bit_xor_comm, bit_xor_cancel, length,
  get_or, drop, length-append, drop-append, All,
}
use io_t_firmware.Iec62056.{
  bcc_timeout_ms, stx, etx, Wait, starts_with, read_bytes, index_of, bcc_of, check_frame,
}

-- The check loses nothing of where it starts, and nothing of a byte that it covers.
bcc_of_cancel : (bs : List ℕ) (x y : ℕ) → bcc_of x bs ≡ bcc_of y bs → x ≡ y
unfolding bcc_of
bcc_of_cancel [] x y e = e
bcc_of_cancel (b ∷ bs) x y e =
    bit_xor_cancel b x y
      (bit_xor_comm b x ∙ bcc_of_cancel bs (bit_xor x b) (bit_xor y b) e ∙ bit_xor_comm y b)

bcc_of_byte :
    (xs ys : List ℕ) (a b c : ℕ) → bcc_of a (xs ++ (b ∷ ys)) ≡ bcc_of a (xs ++ (c ∷ ys)) → b ≡ c
unfolding bcc_of
bcc_of_byte [] ys a b c e = bit_xor_cancel a b c (bcc_of_cancel ys (bit_xor a b) (bit_xor a c) e)
bcc_of_byte (x ∷ xs) ys a b c e = bcc_of_byte xs ys (bit_xor a x) b c e

-- A byte that can stand in front of STX: neither STX nor 0.
abbrev pub IsNoise : ℕ → Type 0
IsNoise b = (b ≢ stx) × (b ≢ 0)

-- Where the first STX stands, behind noise without STX and without a byte 0.
index_of-stx :
    (pre bs : List ℕ)
    → All IsNoise pre
    → index_of (stx ∷ []) (pre ++ (stx ∷ bs)) ≡ some (length pre)
unfolding index_of starts_with
index_of-stx [] bs e = refl
index_of-stx (x ∷ pre) bs ((no_stx, no_nul), e) = ground (arith, index_of-stx pre bs e)

check_frame-framed :
    (w : Wait) (pre bs : List ℕ)
    → All IsNoise pre
    → let tail = read_bytes 2 bcc_timeout_ms w in
      check_frame w (pre ++ (stx ∷ bs)) ≡ (
        if not (length tail == 2) || not (get_or tail 0 0 == etx)
        then false
        else bit_xor (bcc_of 0 bs) etx == get_or tail 1 0)
unfolding check_frame
check_frame-framed w pre bs n =
    let regroup = append_assoc pre (stx ∷ []) bs in
    let size = length-append pre (stx ∷ []) in
    let behind : drop (length pre + 1) (pre ++ (stx ∷ bs)) ≡ bs =
      ap (drop (length pre + 1)) (sym regroup)
      ∙ drop-append (length pre + 1) (pre ++ (stx ∷ [])) bs size in
    rw (check_frame, index_of-stx pre bs n, behind) refl

-- A block with STX behind noise that has neither STX nor a byte 0 in it, which checkFrame accepts with
-- ETX and the check character as they came, is rejected with any single one of the bytes behind its
-- STX changed.
pub check_frame_detects :
    (w : Wait) (pre xs ys : List ℕ) (b c : ℕ)
    → All IsNoise pre
    → b ≢ c
    → check_frame w (pre ++ (stx ∷ (xs ++ (b ∷ ys)))) ≡ true
    → check_frame w (pre ++ (stx ∷ (xs ++ (c ∷ ys)))) ≡ false
check_frame_detects w pre xs ys b c n d e =
    let tail = read_bytes 2 bcc_timeout_ms w in
    let before = check_frame-framed w pre (xs ++ (b ∷ ys)) n in
    let after = check_frame-framed w pre (xs ++ (c ∷ ys)) n in
    let x = bcc_of 0 (xs ++ (b ∷ ys)) in
    let y = bcc_of 0 (xs ++ (c ∷ ys)) in
    elim (Bool-cases (check_frame w (pre ++ (stx ∷ (xs ++ (c ∷ ys)))))) [
      | inr h ↦ h
      | inl h ↦
          let sums : bit_xor x etx ≡ bit_xor y etx = ground (arith, before, after) in
          let swapped = bit_xor_comm etx x ∙ sums ∙ bit_xor_comm y etx in
          absurd (d (bcc_of_byte xs ys 0 b c (bit_xor_cancel etx x y swapped)))
    ]

index_of-nul : (pre bs : List ℕ) → All IsNoise pre → index_of (stx ∷ []) (pre ++ (0 ∷ bs)) ≡ none
unfolding index_of starts_with
index_of-nul [] bs e = refl
index_of-nul (x ∷ pre) bs ((no_stx, no_nul), e) = ground (arith, index_of-nul pre bs e)

-- A block with a byte 0 in front of its STX is taken for an unframed one, whatever it holds.
pub check_frame-nul :
    (w : Wait) (pre bs : List ℕ) → All IsNoise pre → check_frame w (pre ++ (0 ∷ bs)) ≡ true
unfolding check_frame
check_frame-nul w pre bs n = rw (check_frame, index_of-nul pre bs n) refl
