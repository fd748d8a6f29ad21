-- ===== src/Hdlc/Address.antt =====
-- lib/protocols/dlms_cosem/hdlc.cpp: the addresses that hdlcAddress encodes and parseAddress reads.
use io_t_firmware.Base.{
  ℕ, zero, suc, ◌+◌, ◌*◌, ◌/◌, ◌%◌, ◌≤◌, ◌<◌, bit_and, bit_or, ◌≡◌, refl, ◌⊎◌, inl, inr, some, List,
  [], ◌∷◌, ◌++◌, arith, bit_and-one, bit_or-one_even, length, get_or, drop, u8,
}
use io_t_firmware.Hdlc.{mark_last, hdlc_address, HdlcAddress, read_address, parse_address}

-- The bytes of an address carry their lowest bit clear, but for the last, which has it set.
abbrev pub IsMarked : List ℕ → Type 0
IsMarked [] = ⊥
IsMarked (x ∷ []) = x % 2 ≡ 1
IsMarked (x ∷ y ∷ xs) = (x % 2 ≡ 0) × IsMarked (y ∷ xs)

-- An address as it stands on the wire.
pub record IsAddress (a : HdlcAddress) : Type 0 where
  pub marked : IsMarked a
  pub size : (length a ≡ 1) ⊎ (length a ≡ 2) ⊎ (length a ≡ 4)

pub at_drop :
    (buf : List ℕ) (pos x : ℕ) (xs : List ℕ) → drop pos buf ≡ x ∷ xs → get_or buf pos 0 ≡ x
at_drop [] zero x xs d = absurd (ground arith)
at_drop [] (suc pos) x xs d = absurd (ground arith)
at_drop (y ∷ buf) zero x xs d = ground arith
at_drop (y ∷ buf) (suc pos) x xs d = at_drop buf pos x xs d

pub drop_next :
    (buf : List ℕ) (pos x : ℕ) (xs : List ℕ) → drop pos buf ≡ x ∷ xs → drop (suc pos) buf ≡ xs
drop_next [] zero x xs d = absurd (ground arith)
drop_next [] (suc pos) x xs d = absurd (ground arith)
drop_next (y ∷ buf) zero x xs d = ground arith
drop_next (y ∷ buf) (suc pos) x xs d = drop_next buf pos x xs d

pub drop_over :
    (buf a rest : List ℕ) (pos n : ℕ)
    → drop pos buf ≡ a ++ rest
    → n ≡ pos + length a
    → drop n buf ≡ rest
drop_over buf [] rest pos n d e = let same : n ≡ pos = omega arith in rw same d
drop_over buf (x ∷ a) rest pos n d e =
    drop_over buf a rest (suc pos) n (drop_next buf pos x (a ++ rest) d) (omega arith)

-- From a position where the marked bytes stand, the loop of parseAddress reads them.
read_address_at :
    (buf : List ℕ) (end pos left : ℕ) (a rest : List ℕ)
    → IsMarked a
    → drop pos buf ≡ a ++ rest
    → length a ≤ left
    → pos + length a ≤ end
    → read_address buf end pos left ≡ some (a, pos + length a)
unfolding read_address
read_address_at buf end pos left [] rest m d l e = absurd m
read_address_at buf end pos zero (x ∷ a) rest m d l e = absurd (omega arith)
read_address_at buf end pos (suc left) (x ∷ []) rest m d l e =
    let here = at_drop buf pos x rest d in let odd = bit_and-one x in rw here (ground arith)
read_address_at buf end pos (suc left) (x ∷ y ∷ a) rest m d l e =
    let here = at_drop buf pos x ((y ∷ a) ++ rest) d in
    let step : pos + 1 ≡ suc pos = omega arith in
    let below = drop_next buf pos x ((y ∷ a) ++ rest) d in
    let next =
      read_address_at buf end (suc pos) left (y ∷ a) rest m.1 below (omega arith) (omega arith) in
    let even = bit_and-one x in
    let far : suc pos + length (y ∷ a) ≡ pos + length (x ∷ y ∷ a) = omega arith in
    rw (here, step, next) (ground (arith, even, far))

pub nonempty : (a : HdlcAddress) → IsAddress a → 0 < length a
nonempty a v = ground (arith, v.size)

pub parse_address_at :
    (buf : List ℕ) (end pos : ℕ) (a rest : List ℕ)
    → IsAddress a
    → drop pos buf ≡ a ++ rest
    → pos + length a ≤ end
    → parse_address buf end pos ≡ some (a, pos + length a)
unfolding parse_address
parse_address_at buf end pos a rest v d e =
    let r = read_address_at buf end pos 4 a rest v.marked d (ground (arith, v.size)) e in
    rw (parse_address, r) (ground (arith, v.size))

even_or : (a : ℕ) → a % 2 ≡ 0 → bit_or a 1 % 2 ≡ 1
even_or a e =
    let half : a ≡ a / 2 * 2 = omega arith in rw half (omega (arith, bit_or-one_even (a / 2)))

-- The shapes of an address, before its last byte is marked.
hdlc_address-shape :
    (upper lower size : ℕ) (a : HdlcAddress)
    → hdlc_address upper lower size ≡ some a
    → (a ≡ mark_last (u8 (upper * 2) ∷ []))
      ⊎ (a ≡ mark_last (u8 (upper * 2) ∷ u8 (lower * 2) ∷ []))
      ⊎ (a
          ≡ mark_last (
              u8 (upper / 128 * 2)
              ∷ u8 (bit_and upper 0x7F * 2)
              ∷ u8 (lower / 128 * 2)
              ∷ u8 (bit_and lower 0x7F * 2)
              ∷ []))
unfolding hdlc_address
hdlc_address-shape upper lower size a e = ground arith

even_byte : (i : ℕ) → u8 (i * 2) % 2 ≡ 0
even_byte i = omega arith

last_byte : (i : ℕ) → bit_or (u8 (i * 2)) 1 % 2 ≡ 1
last_byte i = even_or (u8 (i * 2)) (even_byte i)

-- What hdlcAddress makes is an address as the wire has it.
pub hdlc_address-IsAddress :
    (upper lower size : ℕ) (a : HdlcAddress) → hdlc_address upper lower size ≡ some a → IsAddress a
unfolding mark_last
hdlc_address-IsAddress upper lower size a e = elim (hdlc_address-shape upper lower size a e) [
  | inl s ↦ rw s (record { marked = last_byte upper; size = inl refl })
  | inr (inl s) ↦
      rw s (record { marked = (even_byte upper, last_byte lower); size = inr (inl refl) })
  | inr (inr s) ↦ rw s (record {
    marked = (
      even_byte (upper / 128),
      (even_byte (bit_and upper 0x7F), (even_byte (lower / 128), last_byte (bit_and lower 0x7F))),
    );
    size = inr (inr refl);
  })
]
