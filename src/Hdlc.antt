-- ===== src/Hdlc.antt =====
-- lib/protocols/dlms_cosem/hdlc.h and hdlc.cpp: HDLC framing for DLMS/COSEM. A function that
-- returns EXIT_FAILURE returns `none` here. A buffer with its length is one list of bytes.
pub mod Address
pub mod RoundTrip
use mathlib.Core.Option
use io_t_firmware.Base.{
  ℕ, zero, suc, ◌+◌, ◌-◌, ◌*◌, ◌/◌, bit_and, bit_or, Bool, not, ◌&&◌, ◌||◌, Option, none, some,
  List, [], ◌∷◌, ◌++◌, map, ltb, leb, ◌==◌, if◌then◌else◌, length, get_or, take, drop, u8,
}
use io_t_firmware.Crc.{crc_loop}

abbrev pub hdlc_address_max : ℕ
hdlc_address_max = 4

abbrev pub hdlc_info_max : ℕ
hdlc_info_max = 128

abbrev pub hdlc_frame_max : ℕ
hdlc_frame_max = 128 + 19

abbrev pub hdlc_flag : ℕ
hdlc_flag = 0x7E

abbrev pub hdlc_format_type_a : ℕ
hdlc_format_type_a = 0xA0

-- HdlcAddress: its wire bytes, of which there are `len`.
abbrev pub HdlcAddress : Type 0
HdlcAddress = List ℕ

-- HdlcFrame; an empty `info` is the null pointer with length 0.
pub record HdlcFrame : Type 0 where
  pub dest : HdlcAddress
  pub src : HdlcAddress
  pub control : ℕ
  pub info : List ℕ

-- hdlcFcs: `~crc` is the complement on 16 bits.
unfoldable pub hdlc_fcs : List ℕ → ℕ
hdlc_fcs bs = 0xffff - crc_loop 0x8408 0xffff bs

-- `bytes[size - 1] |= 1`
unfoldable pub mark_last : List ℕ → List ℕ
mark_last [] = []
mark_last (x ∷ []) = bit_or x 1 ∷ []
mark_last (x ∷ y ∷ xs) = x ∷ mark_last (y ∷ xs)

-- hdlcAddress
unfoldable pub hdlc_address : ℕ → ℕ → ℕ → Option HdlcAddress
unfolding mark_last
hdlc_address upper lower size =
    let max = if size == 4 then 0x3FFF else 0x7F in
    if ltb max upper || (ltb 1 size && ltb max lower)
    then none
    else if size == 1
    then some (mark_last (u8 (upper * 2) ∷ []))
    else if size == 2
    then some (mark_last (u8 (upper * 2) ∷ u8 (lower * 2) ∷ []))
    else if size == 4
    then some (
        mark_last (
          u8 (upper / 128 * 2)
          ∷ u8 (bit_and upper 0x7F * 2)
          ∷ u8 (lower / 128 * 2)
          ∷ u8 (bit_and lower 0x7F * 2)
          ∷ []))
    else none

-- The value of the frame's length field.
abbrev pub frame_length : HdlcAddress → HdlcAddress → List ℕ → ℕ
frame_length dest src info =
    let base = 2 + length dest + length src + 1 + 2 in
    if ltb 0 (length info) then base + (2 + length info) else base

-- The frame from its format field up to the control byte.
abbrev pub frame_header : HdlcAddress → HdlcAddress → ℕ → List ℕ → List ℕ
frame_header dest src control info =
    let n = frame_length dest src info in
    bit_or hdlc_format_type_a (n / 256) ∷ bit_and n 0xFF ∷ (dest ++ (src ++ (control ∷ [])))

-- A check sequence, low byte first.
abbrev pub check_bytes : ℕ → List ℕ
check_bytes crc = bit_and crc 0xFF ∷ crc / 256 ∷ []

-- hdlcBuildFrame
unfoldable pub hdlc_build_frame : HdlcAddress → HdlcAddress → ℕ → List ℕ → Option (List ℕ)
hdlc_build_frame dest src control info =
    let h = frame_header dest src control info in
    let body = if ltb 0 (length info) then h ++ (check_bytes (hdlc_fcs h) ++ info) else h in
    if ltb hdlc_info_max (length info)
    then none
    else some (hdlc_flag ∷ (body ++ (check_bytes (hdlc_fcs body) ++ (hdlc_flag ∷ []))))

-- The loop of parseAddress; `left` is what `n` lacks to HDLC_ADDRESS_MAX.
unfoldable pub read_address : List ℕ → ℕ → ℕ → ℕ → Option (HdlcAddress × ℕ)
read_address buf end pos zero = none
read_address buf end pos (suc left) =
    let b = get_or buf pos 0 in
    let rest = read_address buf end (pos + 1) left in
    if leb end pos
    then none
    else if bit_and b 1 == 0
    then Option.map (λ (a, p). (b ∷ a, p)) rest
    else some (b ∷ [], pos + 1)

-- parseAddress, with the position behind the address.
unfoldable pub parse_address : List ℕ → ℕ → ℕ → Option (HdlcAddress × ℕ)
parse_address buf end pos = elim (read_address buf end pos hdlc_address_max) [
  | none ↦ none
  | some (a, p) ↦ if length a == 3 then none else some (a, p)
]

-- The bytes of `buf` from 1 up to `pos`, which the check sequences cover.
abbrev pub covered : List ℕ → ℕ → List ℕ
covered buf pos = take (pos - 1) (drop 1 buf)

-- A check sequence stands at `pos`.
abbrev pub checks : List ℕ → ℕ → ℕ → Bool
checks buf pos crc = get_or buf pos 0 == bit_and crc 0xFF && get_or buf (pos + 1) 0 == crc / 256

-- The part of hdlcParseFrame behind the addresses: `pos` is the index of the control byte.
unfoldable pub parse_body : List ℕ → ℕ → HdlcAddress → HdlcAddress → ℕ → Option HdlcFrame
parse_body buf fcs_pos dest src pos =
    let control = get_or buf pos 0 in
    let p = pos + 1 in
    let rest = fcs_pos - p in
    let frame : List ℕ → HdlcFrame =
      λ i. record { dest = dest; src = src; control = control; info = i } in
    let sealed = checks buf fcs_pos (hdlc_fcs (covered buf fcs_pos)) in
    if leb fcs_pos pos
    then none
    else if rest == 0
    then (if sealed then some (frame []) else none)
    else if ltb rest 3
    then none
    else if not (checks buf p (hdlc_fcs (covered buf p)))
    then none
    else (if sealed then some (frame (take (rest - 2) (drop (p + 2) buf))) else none)

-- hdlcParseFrame
unfoldable pub hdlc_parse_frame : List ℕ → Option HdlcFrame
hdlc_parse_frame buf =
    let len = length buf in
    let fcs_pos = len - 3 in
    let n = bit_or (bit_and (get_or buf 1 0) 0x07 * 256) (get_or buf 2 0) in
    if ltb len 9 || (not (get_or buf 0 0 == hdlc_flag) || not (get_or buf (len - 1) 0 == hdlc_flag))
    then none
    else if not (bit_and (get_or buf 1 0) 0xF8 == hdlc_format_type_a)
    then none
    else if not (n == len - 2)
    then none
    else elim (parse_address buf fcs_pos 3) [
      | none ↦ none
      | some (dest, p) ↦ elim (parse_address buf fcs_pos p) [
        | none ↦ none
        | some (src, q) ↦ parse_body buf fcs_pos dest src q
      ]
    ]
