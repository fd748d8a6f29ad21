-- ===== src/Dlms.antt =====
-- lib/protocols/dlms_cosem/dlms_cosem.h and dlms_cosem.cpp: the APDUs of the DLMS/COSEM reader,
-- without state. A buffer with its length is one list of bytes; a function that returns
-- EXIT_FAILURE returns `none`. Log lines are left out, and so is the double arithmetic of
-- applyScaler: a register's value is its number with its power of ten.
pub mod Association
pub mod Frames
pub mod Session
use mathlib.Core.Option
use io_t_firmware.Base.{
  ℕ, zero, suc, ◌+◌, ◌-◌, ◌*◌, ◌/◌, ◌%◌, ◌^◌, bit_and, Bool, false, not, ◌&&◌, ◌||◌, Option, none,
  some, List, [], ◌∷◌, ◌++◌, ltb, leb, ◌==◌, if◌then◌else◌, length, get_or, take, drop,
}

abbrev pub dlms_llc_len : ℕ
dlms_llc_len = 3

abbrev pub dlms_apdu_max : ℕ
dlms_apdu_max = 128 - 3

abbrev pub dlms_class_register : ℕ
dlms_class_register = 3

abbrev pub dlms_attr_value : ℕ
dlms_attr_value = 2

abbrev pub dlms_attr_scaler_unit : ℕ
dlms_attr_scaler_unit = 3

abbrev pub dlms_get_response_header_len : ℕ
dlms_get_response_header_len = 4

abbrev pub llc_send : List ℕ
llc_send = 0xE6 ∷ 0xE6 ∷ 0x00 ∷ []

abbrev pub llc_recv : List ℕ
llc_recv = 0xE6 ∷ 0xE7 ∷ 0x00 ∷ []

-- AARQ, with what buildAarq copies
abbrev pub aarq : List ℕ
aarq =
    (0x60 ∷ 0x1D ∷ 0xA1 ∷ 0x09 ∷ 0x06 ∷ 0x07 ∷ 0x60 ∷ 0x85 ∷ 0x74 ∷ 0x05 ∷ 0x08 ∷ 0x01 ∷ 0x01 ∷ [])
    ++ (0xBE
        ∷ 0x10
        ∷ 0x04
        ∷ 0x0E
        ∷ 0x01
        ∷ 0x00
        ∷ 0x00
        ∷ 0x00
        ∷ 0x06
        ∷ 0x5F
        ∷ 0x1F
        ∷ 0x04
        ∷ 0x00
        ∷ 0x00
        ∷ 0x00
        ∷ 0x10
        ∷ dlms_apdu_max / 256
        ∷ bit_and dlms_apdu_max 0xFF
        ∷ [])

-- readBerLength: the length, and the position behind it.
unfoldable pub read_ber_length : List ℕ → ℕ → ℕ → Option (ℕ × ℕ)
read_ber_length buf end pos =
    let first = get_or buf pos 0 in
    if leb end pos
    then none
    else if ltb first 0x80
    then some (first, pos + 1)
    else if first == 0x81 && ltb (pos + 1) end
    then some (get_or buf (pos + 1) 0, pos + 2)
    else none

-- The locals of checkAare that its fields set; `none` is -1.
pub record Aare : Type 0 where
  pub result : Option ℕ
  pub diagnostic : Option ℕ
  pub initiated : Bool

-- The switch of checkAare on one field, whose value stands at `pos`.
unfoldable pub aare_field : List ℕ → ℕ → ℕ → ℕ → Aare → Aare
aare_field apdu tag pos len a =
    let value = λ (i : ℕ). get_or apdu (pos + i) 0 in
    if tag == 0xA2
    then (if len == 3 && value 0 == 0x02 && value 1 == 0x01
        then record a { result = some (value 2) }
        else a)
    else if tag == 0xA3
    then (if len == 5 && value 2 == 0x02 && value 3 == 0x01
        then record a { diagnostic = some (value 4) }
        else a)
    else if tag == 0xBE
    then (if leb 3 len && value 0 == 0x04 then record a { initiated = value 2 == 0x08 } else a)
    else a

-- The loop of checkAare, on fuel.
unfoldable pub aare_fields : ℕ → List ℕ → ℕ → ℕ → Aare → Option Aare
aare_fields zero apdu end pos a = none
aare_fields (suc n) apdu end pos a =
    if leb end pos then some a else elim (read_ber_length apdu end (pos + 1)) [
      | none ↦ none
      | some (len, p) ↦
          let rest =
            aare_fields n apdu end (p + len) (aare_field apdu (get_or apdu pos 0) p len a) in
          if ltb (end - p) len then none else rest
    ]

-- The verdict of checkAare behind its loop.
abbrev pub aare_accepted : Aare → Bool
aare_accepted a = (elim a.result [ none ↦ false | some r ↦ r == 0 ]) && a.initiated

-- checkAare
unfoldable pub check_aare : List ℕ → Bool
check_aare apdu =
    let len = length apdu in
    if ltb len 2 || not (get_or apdu 0 0 == 0x61)
    then false
    else elim (read_ber_length apdu len 1) [
      | none ↦ false
      | some (body, pos) ↦
          if ltb (len - pos) body
          then false
          else elim (aare_fields (suc len) apdu (pos + body) pos
              (record { result = none; diagnostic = none; initiated = false })) [
                | none ↦ false
                | some a ↦ aare_accepted a
              ]
    ]

-- buildGetRequest
unfoldable pub build_get_request : List ℕ → ℕ → List ℕ
build_get_request obis attribute =
    (0xC0 ∷ 0x01 ∷ 0xC1 ∷ dlms_class_register / 256 ∷ bit_and dlms_class_register 0xFF ∷ [])
    ++ (take 6 obis ++ (attribute ∷ 0x00 ∷ []))

-- parseGetResponse
unfoldable pub parse_get_response : List ℕ → Option (List ℕ)
parse_get_response apdu =
    let len = length apdu in
    let at = λ (i : ℕ). get_or apdu i 0 in
    if ltb len dlms_get_response_header_len || not (at 0 == 0xC4)
    then none
    else if at 1 == 0x02
    then none
    else if not (at 1 == 0x01) || not (at 2 == 0xC1)
    then none
    else if at 3 == 0x01 && ltb dlms_get_response_header_len len
    then none
    else if not (at 3 == 0x00) || len == dlms_get_response_header_len
    then none
    else some (drop dlms_get_response_header_len apdu)

-- A number as decodeNumber reads it: an integer by its size and sign, or a float32 by its bits.
pub data Number : Type 0 where
  positive negative float32 : ℕ → Number

-- A value of `modulus` patterns in two's complement.
unfoldable pub signed : ℕ → ℕ → Number
signed modulus raw =
    if ltb (raw % modulus) (modulus / 2)
    then positive (raw % modulus)
    else negative (modulus - raw % modulus)

-- The first switch of decodeNumber
unfoldable pub number_size : ℕ → Option ℕ
number_size tag =
    if tag == 0x0F || tag == 0x11
    then some 1
    else if tag == 0x10 || tag == 0x12
    then some 2
    else if tag == 0x05 || (tag == 0x06 || tag == 0x17)
    then some 4
    else (if tag == 0x15 then some 8 else none)

-- The loop of decodeNumber over the value's bytes
unfoldable pub big_endian : ℕ → List ℕ → ℕ
big_endian raw [] = raw
big_endian raw (b ∷ bs) = big_endian (raw * 256 % 2 ^ 64 + b) bs

-- The second switch of decodeNumber
unfoldable pub number_of : ℕ → ℕ → Number
number_of tag raw =
    if tag == 0x0F
    then signed (2 ^ 8) raw
    else if tag == 0x10
    then signed (2 ^ 16) raw
    else if tag == 0x05
    then signed (2 ^ 32) raw
    else (if tag == 0x17 then float32 (raw % 2 ^ 32) else positive raw)

-- decodeNumber
unfoldable pub decode_number : List ℕ → Option Number
decode_number [] = none
decode_number (tag ∷ data_bytes) = elim (number_size tag) [
  | none ↦ none
  | some size ↦
      if ltb (length data_bytes) size
      then none
      else some (number_of tag (big_endian 0 (take size data_bytes)))
]

-- decodeScalerUnit, with the scaler as a signed byte
unfoldable pub decode_scaler_unit : List ℕ → ℕ → Option Number
decode_scaler_unit b unit =
    let at = λ (i : ℕ). get_or b i 0 in
    if not (length b == 6)
      || (not (at 0 == 0x02) || (not (at 1 == 0x02) || (not (at 2 == 0x0F) || not (at 4 == 0x16))))
    then none
    else if not (at 5 == unit)
    then none
    else some (signed (2 ^ 8) (at 3))
