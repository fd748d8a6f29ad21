-- ===== src/PayloadJson.antt =====
-- lib/protocols/payload_json/payload_json.h and payload_json.cpp: the text that the gateway publishes
-- for a reading. `strftime` at the local time, of the C library, is a parameter: given the clock and a
-- buffer it returns its length and the buffer. The document is the list of its fields; the JSON
-- library that writes it out is left out. A float is its bit pattern.
pub mod Laws
use Prim.Native.String.{String}
use io_t_firmware.Base.{
  ℕ, ◌+◌, ◌-◌, Bool, true, false, ◌||◌, List, [], ◌∷◌, ltb, ◌==◌, if◌then◌else◌, length, get_or,
  set, replicate,
}
use io_t_firmware.Wire.{Payload, uid_to_hex}

abbrev pub min_valid_epoch : ℕ
min_valid_epoch = 1700000000

abbrev pub timestamp_len : ℕ
timestamp_len = 32

-- A JSON value.
pub data Json : Type 0 where
  null : Json
  text : List ℕ → Json
  whole : ℕ → Json
  real : ℕ → Json

-- nodeTypeName, with the null pointer as `null`: "rs485", "cv" and "ir".
unfoldable pub node_type_name : ℕ → Json
node_type_name type =
    if type == 0
    then text (0x72 ∷ 0x73 ∷ 0x34 ∷ 0x38 ∷ 0x35 ∷ [])
    else if type == 1
    then text (0x63 ∷ 0x76 ∷ [])
    else if type == 2
    then text (0x69 ∷ 0x72 ∷ [])
    else null

module _ (strftime : ℕ → List ℕ → ℕ × List ℕ) where
  -- formatTimestamp, with `out` of its length.
  unfoldable pub format_timestamp : ℕ → List ℕ → Bool × List ℕ
  format_timestamp now out =
      let (len, b0) = strftime now out in
      let b1 = set b0 (len + 1) 0 in
      let b2 = set b1 len (get_or b1 (len - 1) 0) in
      let b3 = set b2 (len - 1) (get_or b2 (len - 2) 0) in
      let b4 = set b3 (len - 2) 0x3A in
      if ltb now min_valid_epoch
      then (false, out)
      else if ltb len 2 || ltb (length out) (len + 2)
      then (false, b0)
      else (true, b4)

  -- buildPayloadJson, up to serializeJson.
  unfoldable pub payload_fields : Payload → ℕ → ℕ → ℕ → List (String × Json)
  payload_fields p rssi snr now =
      let (stamped, ts) = format_timestamp now (replicate timestamp_len 0) in
      ("ts", if stamped then text ts else null)
      ∷ ("uid", text (uid_to_hex p.uid))
      ∷ ("seq", whole p.seq)
      ∷ ("kwh_import", real p.kwh_import)
      ∷ ("kwh_export", real p.kwh_export)
      ∷ ("voltage", real p.voltage)
      ∷ ("community_id", whole p.community_id)
      ∷ ("unit_id", whole p.unit_id)
      ∷ ("node_type", node_type_name p.node_type)
      ∷ ("rssi", whole rssi)
      ∷ ("snr", real snr)
      ∷ []
