-- ===== src/Wire/RoundTrip.antt =====
-- shared_payload.h: what is written over the air is read back, and no frame is taken for another.
use mathlib.Core.Logic.{◌≢◌}
use io_t_firmware.Base.{
  All-append, ℕ, zero, suc, ◌+◌, ◌/◌, ◌%◌, ◌≤◌, ◌<◌, ◌^◌, ◌≡◌, refl, sym, ap, ◌∙◌, true, none, some,
  List, [], ◌∷◌, ◌++◌, length, take, drop, arith, le32, of_le32-le32, length-append, take-append,
  drop-append, bytes_eq, bytes_eq→eq, bit_and_15, get_or, ◌-◌, if◌then◌else◌, ltb, ◌==◌, ==→eq,
  holds_below, holds_below_at, le32-of_le32, drop-eq-cons, take-append-drop,
}
use io_t_firmware.Wire.{
  Uid, uid_len, Payload, IsPayload, AckPayload, LinkFrame, LinkFrameType, beacon, join, join_ack,
  link_frame_code, encode_payload, encode_ack, encode_link_frame, decode_payload, decode_ack,
  decode_link_frame, link_frame_make, link_frame_parse, uid_to_hex, hex_digits, payload_size,
  ack_payload_size, link_frame_size, link_frame_magic, IsBytes,
}

-- A payload whose fields fit their types is read back unchanged from its bytes.
pub decode_payload-encode_payload :
    (p : Payload) → IsPayload p → decode_payload (encode_payload p) ≡ p
unfolding decode_payload encode_payload
decode_payload-encode_payload p v =
    rw (take-append 16 p.uid _ v.uid_size, drop-append 16 p.uid _ v.uid_size)
      (ground (
        arith,
        v,
        of_le32-le32 p.seq,
        of_le32-le32 p.kwh_import,
        of_le32-le32 p.kwh_export,
        of_le32-le32 p.voltage,
      ))

pub length-encode_payload :
    (p : Payload) → length p.uid ≡ uid_len → length (encode_payload p) ≡ payload_size
unfolding encode_payload
length-encode_payload p h = rw (length-append p.uid, h)

-- An acknowledgement whose UID has sixteen bytes and whose sequence number fits 32 bits is read
-- back unchanged.
pub decode_ack-encode_ack :
    (a : AckPayload) → length a.uid ≡ uid_len → a.seq < 2 ^ 32 → decode_ack (encode_ack a) ≡ a
unfolding decode_ack encode_ack
decode_ack-encode_ack a h s =
    rw (take-append 16 a.uid _ h, drop-append 16 a.uid _ h) (ground (arith, of_le32-le32 a.seq))

pub length-encode_ack :
    (a : AckPayload) → length a.uid ≡ uid_len → length (encode_ack a) ≡ ack_payload_size
unfolding encode_ack
length-encode_ack a h = rw (length-append a.uid, h)

-- A frame that linkFrameMake builds from a UID of sixteen bytes and a 32-bit epoch is accepted by
-- linkFrameParse and comes out unchanged.
pub link_frame_parse-make :
    (t : LinkFrameType) (e : ℕ) (u : Uid)
    → e < 2 ^ 32
    → length u ≡ uid_len
    → link_frame_parse (encode_link_frame (link_frame_make t e (some u)))
      ≡ some (link_frame_make t e (some u))
unfolding link_frame_parse encode_link_frame link_frame_make decode_link_frame bytes_eq
    link_frame_code
link_frame_parse-make beacon e u h l = ground (arith, of_le32-le32 e, l)
link_frame_parse-make join e u h l = ground (arith, of_le32-le32 e)
link_frame_parse-make join_ack e u h l = ground (arith, of_le32-le32 e)

get_or-lt : (b : List ℕ) (i : ℕ) → IsBytes b → get_or b i 0 < 256
get_or-lt [] i v = omega arith
get_or-lt (x ∷ xs) zero v = v.0
get_or-lt (x ∷ xs) (suc i) v = get_or-lt xs i v.1

drop_two :
    (b : List ℕ)
    → length b ≡ link_frame_size
    → drop 2 b ≡ get_or b 2 0 ∷ get_or b 3 0 ∷ get_or b 4 0 ∷ get_or b 5 0 ∷ get_or b 6 0 ∷ drop 7 b
drop_two b h = cc (
  drop-eq-cons 2 b 0 (omega arith),
  drop-eq-cons 3 b 0 (omega arith),
  drop-eq-cons 4 b 0 (omega arith),
  drop-eq-cons 5 b 0 (omega arith),
  drop-eq-cons 6 b 0 (omega arith),
)

-- The bytes of a buffer of the frame's size are those of the frame read from it.
encode_link_frame-decode_link_frame :
    (b : List ℕ)
    → IsBytes b
    → length b ≡ link_frame_size
    → encode_link_frame (decode_link_frame b) ≡ b
unfolding encode_link_frame decode_link_frame
encode_link_frame-decode_link_frame b v h =
    ap (λ w. take 2 b ++ (get_or b 2 0 ∷ (w ++ drop 7 b)))
      (le32-of_le32 (get_or b 3 0) (get_or b 4 0) (get_or b 5 0) (get_or b 6 0) (get_or-lt b 3 v)
        (get_or-lt b 4 v) (get_or-lt b 5 v) (get_or-lt b 6 v))
    ∙ ap (λ t. take 2 b ++ t) (sym (drop_two b h))
    ∙ take-append-drop 2 b

known_type : (n : ℕ) → 1 ≤ n → n ≤ 3 → (t : LinkFrameType) × (n ≡ link_frame_code t)
unfolding link_frame_code
known_type zero h k = absurd (omega arith)
known_type (suc zero) h k = (beacon, refl)
known_type (suc (suc zero)) h k = (join, refl)
known_type (suc (suc (suc zero))) h k = (join_ack, refl)
known_type (suc (suc (suc (suc n)))) h k = absurd (omega arith)

link_frame_parse_inversion :
    (b : List ℕ) (f : LinkFrame)
    → link_frame_parse b ≡ some f
    → (length b ≡ link_frame_size)
      × (f ≡ decode_link_frame b)
      × (f.magic ≡ link_frame_magic)
      × (1 ≤ f.type)
      × (f.type ≤ 3)
unfolding link_frame_parse link_frame_code
link_frame_parse_inversion b f h =
    ground (arith, bytes_eq→eq (decode_link_frame b).magic link_frame_magic)

-- Whatever bytes linkFrameParse accepts are the encoding of the frame that it returns, with the
-- magic and one of the three known types.
pub link_frame_parse_sound :
    (b : List ℕ) (f : LinkFrame)
    → IsBytes b
    → link_frame_parse b ≡ some f
    → (encode_link_frame f ≡ b)
      × (f.magic ≡ link_frame_magic)
      × ((t : LinkFrameType) × (f.type ≡ link_frame_code t))
link_frame_parse_sound b f v h =
    let i = link_frame_parse_inversion b f h in
    (
      ap encode_link_frame i.1 ∙ encode_link_frame-decode_link_frame b v i.0,
      i.2,
      known_type f.type i.3 i.4,
    )

-- A frame of a reading's or an acknowledgement's size is never taken for a LinkFrame.
pub link_frame_parse_size : (b : List ℕ) → length b ≢ link_frame_size → link_frame_parse b ≡ none
unfolding link_frame_parse
link_frame_parse_size b h = ground arith

-- The value of a hexadecimal digit.
abbrev hex_value : ℕ → ℕ
hex_value d = if ltb d b'a' then d - b'0' else d - b'a' + 10

hex_value-hex_digits : (n : ℕ) → n < 16 → hex_value (get_or hex_digits n 0) ≡ n
unfolding holds_below
hex_value-hex_digits n h =
    ==→eq _ n (holds_below_at (λ k. hex_value (get_or hex_digits k 0) == k) 16 n h table)
  where
    table : holds_below (λ k. hex_value (get_or hex_digits k 0) == k) 16 ≡ true
    table = refl

-- Two UIDs, as bytes, with the same hex text are the same UID.
pub uid_to_hex_injective : (a b : Uid) → IsBytes a → IsBytes b → uid_to_hex a ≡ uid_to_hex b → a ≡ b
unfolding uid_to_hex
uid_to_hex_injective [] [] v w h = refl
uid_to_hex_injective [] (y ∷ ys) v w h = cc
uid_to_hex_injective (x ∷ xs) [] v w h = cc
uid_to_hex_injective (x ∷ xs) (y ∷ ys) v w h = ground (
  arith,
  bit_and_15 x,
  bit_and_15 y,
  uid_to_hex_injective xs ys v.1 w.1,
  hex_value-hex_digits (x / 16),
  hex_value-hex_digits (x % 16),
  hex_value-hex_digits (y / 16),
  hex_value-hex_digits (y % 16),
)

le32-IsBytes : (w : ℕ) → IsBytes (le32 w)
le32-IsBytes w = omega arith

pub encode_payload-IsBytes : (p : Payload) → IsPayload p → IsBytes (encode_payload p)
unfolding encode_payload
encode_payload-IsBytes p v =
    All-append (λ b. b < 256) p.uid _ v.uid_bytes
      (ground (arith, v.community_byte, v.unit_byte, v.type_byte))

pub encode_ack-IsBytes : (a : AckPayload) → IsBytes a.uid → IsBytes (encode_ack a)
unfolding encode_ack
encode_ack-IsBytes a v = All-append (λ b. b < 256) a.uid _ v (le32-IsBytes a.seq)
