-- ===== src/Wire.antt =====
-- lib/interfaces/shared/shared_payload.h: the packed over-the-air structs, their bytes as `memcpy`
-- between a struct and a buffer sees them (little endian, no padding), and the UID helpers.
-- A byte is a number below 256. The floats are only copied here, so a float field holds the 32-bit
-- pattern that stands for it.
pub mod RoundTrip
use io_t_firmware.Base.{
  ℕ, ◌+◌, ◌/◌, ◌<◌, ◌^◌, ◌≡◌, Bool, ◌||◌, not, Option, none, some, List, [], ◌∷◌, ◌++◌, ltb, ◌==◌,
  if◌then◌else◌, bytes_eq, length, get_or, take, drop, le32, of_le32, All, bit_and, replicate,
}

-- UID_LEN
abbrev pub uid_len : ℕ
uid_len = 16

abbrev pub Uid : Type 0
Uid = List ℕ

-- enum class NodeType
pub data NodeType : Type 0 where
  rs485 cv ir : NodeType

unfoldable pub node_type_code : NodeType → ℕ
node_type_code rs485 = 0
node_type_code cv = 1
node_type_code ir = 2

pub record Payload : Type 0 where
  pub uid : Uid
  pub seq : ℕ
  pub kwh_import : ℕ
  pub kwh_export : ℕ
  pub voltage : ℕ
  pub community_id : ℕ
  pub unit_id : ℕ
  pub node_type : ℕ

pub record AckPayload : Type 0 where
  pub uid : Uid
  pub seq : ℕ

pub record LinkFrame : Type 0 where
  pub magic : List ℕ
  pub type : ℕ
  pub epoch : ℕ
  pub uid : Uid

-- sizeof of the three packed structs
abbrev pub payload_size : ℕ
payload_size = 35

abbrev pub ack_payload_size : ℕ
ack_payload_size = 20

abbrev pub link_frame_size : ℕ
link_frame_size = 23

-- Which numbers the fields of the C++ types can hold.
abbrev pub IsBytes : List ℕ → Type 0
IsBytes = All (λ b. b < 256)

pub record IsPayload (p : Payload) : Type 0 where
  pub uid_size : length p.uid ≡ uid_len
  pub uid_bytes : IsBytes p.uid
  pub seq_word : p.seq < 2 ^ 32
  pub import_word : p.kwh_import < 2 ^ 32
  pub export_word : p.kwh_export < 2 ^ 32
  pub voltage_word : p.voltage < 2 ^ 32
  pub community_byte : p.community_id < 256
  pub unit_byte : p.unit_id < 256
  pub type_byte : p.node_type < 256

-- `reinterpret_cast<const uint8_t *>(&p)`: the bytes of each struct.
unfoldable pub encode_payload : Payload → List ℕ
encode_payload p =
    p.uid
    ++ (le32 p.seq
        ++ (le32 p.kwh_import
            ++ (le32 p.kwh_export
                ++ (le32 p.voltage ++ (p.community_id ∷ p.unit_id ∷ p.node_type ∷ [])))))

unfoldable pub encode_ack : AckPayload → List ℕ
encode_ack a = a.uid ++ le32 a.seq

unfoldable pub encode_link_frame : LinkFrame → List ℕ
encode_link_frame f = f.magic ++ (f.type ∷ (le32 f.epoch ++ f.uid))

-- The word that stands at offset `i` of a buffer.
abbrev pub word_at : List ℕ → ℕ → ℕ
word_at b i = of_le32 (get_or b i 0) (get_or b (i + 1) 0) (get_or b (i + 2) 0) (get_or b (i + 3) 0)

-- `memcpy(&p, buf, sizeof(p))`: the struct that a buffer of its size holds.
unfoldable pub decode_payload : List ℕ → Payload
decode_payload b =
    let r = drop 16 b in
    record {
      uid = take 16 b;
      seq = word_at r 0;
      kwh_import = word_at r 4;
      kwh_export = word_at r 8;
      voltage = word_at r 12;
      community_id = get_or r 16 0;
      unit_id = get_or r 17 0;
      node_type = get_or r 18 0;
    }

unfoldable pub decode_ack : List ℕ → AckPayload
decode_ack b = record { uid = take 16 b; seq = word_at (drop 16 b) 0 }

unfoldable pub decode_link_frame : List ℕ → LinkFrame
decode_link_frame b = record {
  magic = take 2 b;
  type = get_or b 2 0;
  epoch = word_at b 3;
  uid = drop 7 b;
}

-- LINK_FRAME_MAGIC, "KZ"
abbrev pub link_frame_magic : List ℕ
link_frame_magic = b'K' ∷ b'Z' ∷ []

-- enum class LinkFrameType
pub data LinkFrameType : Type 0 where
  beacon join join_ack : LinkFrameType

unfoldable pub link_frame_code : LinkFrameType → ℕ
link_frame_code beacon = 1
link_frame_code join = 2
link_frame_code join_ack = 3

-- linkFrameMake; `none` is the null pointer, which leaves the UID all zero.
unfoldable pub link_frame_make : LinkFrameType → ℕ → Option Uid → LinkFrame
link_frame_make t epoch u = record {
  magic = link_frame_magic;
  type = link_frame_code t;
  epoch = epoch;
  uid = elim u [ none ↦ replicate uid_len 0 | some w ↦ w ];
}

-- linkFrameParse; `none` is the return value false. The buffer holds the received bytes, so its
-- length is the argument `len`.
unfoldable pub link_frame_parse : List ℕ → Option LinkFrame
link_frame_parse buf =
    let f = decode_link_frame buf in
    if not (length buf == link_frame_size)
    then none
    else if not (bytes_eq f.magic link_frame_magic)
    then none
    else if ltb f.type (link_frame_code beacon) || ltb (link_frame_code join_ack) f.type
    then none
    else some f

-- uidToHex: two lower-case digits for each byte (the terminating NUL is not part of the text).
abbrev pub hex_digits : List ℕ
hex_digits =
    b'0' ∷ b'1' ∷ b'2' ∷ b'3' ∷ b'4' ∷ b'5' ∷ b'6' ∷ b'7' ∷ b'8' ∷ b'9' ∷ b'a' ∷ b'b' ∷ b'c' ∷ b'd'
    ∷ b'e' ∷ b'f' ∷ []

pub uid_to_hex : Uid → List ℕ
uid_to_hex [] = []
uid_to_hex (x ∷ xs) =
    get_or hex_digits (x / 16) 0 ∷ get_or hex_digits (bit_and x 0x0f) 0 ∷ uid_to_hex xs

-- uidEquals: `memcmp(a, b, UID_LEN) == 0`.
unfoldable pub uid_equals : Uid → Uid → Bool
uid_equals a b = bytes_eq a b
