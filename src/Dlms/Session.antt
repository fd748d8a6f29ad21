-- ===== src/Dlms/Session.antt =====
-- lib/protocols/dlms_cosem/dlms_cosem.h and dlms_cosem.cpp: the sessions of DlmsCosemReader. The
-- bus is an input: a turn says what Module::send() returns for one frame, what millis() returns as
-- readFrame starts, and what readFrame's loop polls. A session that asks for more turns than it is
-- given meets a bus that fails to send.
pub mod Closing
use mathlib.Core.Option
use io_t_firmware.Base.{
  ℕ, ◌+◌, ◌*◌, ◌/◌, bit_and, bit_or, Bool, not, ◌&&◌, ◌||◌, Option, none, some, List, [], ◌∷◌, ◌++◌,
  map, ltb, ◌==◌, if◌then◌else◌, bytes_eq, length, take, drop, u8,
}
use io_t_firmware.Hdlc.{
  hdlc_info_max, HdlcAddress, HdlcFrame, hdlc_address, hdlc_build_frame, hdlc_parse_frame,
}
use io_t_firmware.Dlms.{
  dlms_llc_len, dlms_apdu_max, dlms_attr_value, dlms_attr_scaler_unit, llc_send, llc_recv, aarq,
  check_aare, build_get_request, parse_get_response, Number, decode_number, decode_scaler_unit,
}
use io_t_firmware.Dlms.Frames.{Poll, read_frame}

abbrev pub hdlc_snrm : ℕ
hdlc_snrm = 0x93

abbrev pub hdlc_ua : ℕ
hdlc_ua = 0x73

abbrev pub hdlc_disc : ℕ
hdlc_disc = 0x53

abbrev pub hdlc_dm : ℕ
hdlc_dm = 0x1F

abbrev pub hdlc_pf : ℕ
hdlc_pf = 0x10

pub record Turn : Type 0 where
  pub send_ok : Bool
  pub start_ms : ℕ
  pub polls : List Poll

-- What DlmsCosemConfig says of the registers, as OBIS codes of 6 bytes, and of the addresses.
pub record DlmsCosemConfig : Type 0 where
  pub client_sap : ℕ
  pub server_logical : ℕ
  pub server_physical : ℕ
  pub server_addr_len : ℕ
  pub import_obis : List ℕ
  pub export_obis : List ℕ
  pub voltage_obis : List ℕ

-- DlmsCosemReader without its config and module.
pub record DlmsCosemReader : Type 0 where
  pub client : HdlcAddress
  pub server : HdlcAddress
  pub vs : ℕ
  pub vr : ℕ

-- The reader in a session: the turns to come, and the frames given to Module::send() so far.
pub record Session : Type 0 where
  pub reader : DlmsCosemReader
  pub turns : List Turn
  pub sent : List (List ℕ)

-- A step of a session: `none` is EXIT_FAILURE.
abbrev pub Step : Type 0 → Type 0
Step A = Session → Option A × Session

-- The next step, where the step before returned EXIT_SUCCESS.
infixr 2 ◌then_do◌
abbrev pub ◌then_do◌ : {A B : Type 0} → Option A × Session → (A → Step B) → Option B × Session
(r, s) then_do k = elim r [ none ↦ (none, s) | some a ↦ k a s ]

-- init
unfoldable pub init : DlmsCosemConfig → Option DlmsCosemReader
init c = elim (hdlc_address c.client_sap 0 1) [
  | none ↦ none
  | some client ↦
      Option.map (λ server. record { client = client; server = server; vs = 0; vr = 0 })
        (hdlc_address c.server_logical c.server_physical c.server_addr_len)
]

-- sameAddress
unfoldable pub same_address : HdlcAddress → HdlcAddress → Bool
same_address a b = bytes_eq a b

-- The checks of receive on what readFrame returned.
unfoldable pub check_received : DlmsCosemReader → Option (List ℕ) → Option HdlcFrame
check_received d none = none
check_received d (some buf) = elim (hdlc_parse_frame buf) [
  | none ↦ none
  | some f ↦
      if not (same_address f.dest d.client) || not (same_address f.src d.server)
      then none
      else some f
]

-- sendFrame and, where it succeeds, receive: every caller runs the one behind the other.
unfoldable pub turn_frame : ℕ → List ℕ → Step HdlcFrame
turn_frame control info s = elim (hdlc_build_frame s.reader.server s.reader.client control info) [
  | none ↦ (none, s)
  | some buf ↦ elim s.turns [
    | [] ↦ (none, record s { sent = s.sent ++ (buf ∷ []) })
    | t ∷ ts ↦
        let s1 : Session = record s { turns = ts; sent = s.sent ++ (buf ∷ []) } in
        let got = check_received s.reader (read_frame t.start_ms t.polls) in
        (if t.send_ok then got else none, s1)
  ]
]

-- connect, behind its exchange of frames.
unfoldable pub link_up : HdlcFrame → Step Unit
link_up f s =
    if f.control == hdlc_dm
    then (none, s)
    else if not (f.control == hdlc_ua)
    then (none, s)
    else (some tt, record s { reader = record s.reader { vs = 0; vr = 0 } })

-- connect
unfoldable pub connect : Step Unit
connect s = turn_frame hdlc_snrm [] s then_do link_up

-- disconnect
unfoldable pub disconnect : Step Unit
disconnect s = turn_frame hdlc_disc [] s then_do (λ f t.
    if not (f.control == hdlc_ua) && not (f.control == hdlc_dm) then (none, t) else (some tt, t))

-- exchange, behind its exchange of frames.
unfoldable pub accept_reply : HdlcFrame → Step (List ℕ)
accept_reply f s =
    let d = s.reader in
    let ns = bit_and (f.control / 2) 0x07 in
    let nr = f.control / 32 in
    if not (bit_and f.control 1 == 0)
    then (none, s)
    else if bit_and f.control hdlc_pf == 0
    then (none, s)
    else if not (ns == d.vr) || not (nr == bit_and (d.vs + 1) 0x07)
    then (none, s)
    else if ltb (length f.info) dlms_llc_len
        || (ltb hdlc_info_max (length f.info) || not (bytes_eq (take dlms_llc_len f.info) llc_recv))
    then (none, s)
    else (
      some (drop dlms_llc_len f.info),
      record s { reader = record d { vs = bit_and (d.vs + 1) 0x07; vr = bit_and (d.vr + 1) 0x07 } },
    )

-- The control byte of the I-frame that exchange sends.
abbrev pub i_frame_control : DlmsCosemReader → ℕ
i_frame_control d = u8 (bit_or (bit_or (d.vr * 32) hdlc_pf) (d.vs * 2))

-- exchange
unfoldable pub exchange : List ℕ → Step (List ℕ)
exchange apdu s =
    if ltb dlms_apdu_max (length apdu)
    then (none, s)
    else (turn_frame (i_frame_control s.reader) (llc_send ++ apdu) s then_do accept_reply)

-- associate
unfoldable pub associate : Step Unit
associate s = exchange aarq s then_do (λ resp t. (if check_aare resp then some tt else none, t))

-- getAttribute
unfoldable pub get_attribute : List ℕ → ℕ → Step (List ℕ)
get_attribute obis attribute s =
    exchange (build_get_request obis attribute) s then_do (λ resp t. (parse_get_response resp, t))

-- readAssociated: the number and its power of ten, before applyScaler.
unfoldable pub read_associated : List ℕ → ℕ → Step (Number × Number)
read_associated obis unit s = associate s then_do (λ _. λ s1.
    get_attribute obis dlms_attr_scaler_unit s1 then_do (λ scaler_data. λ s2.
      (decode_scaler_unit scaler_data unit, s2) then_do (λ scaler. λ s3.
        get_attribute obis dlms_attr_value s3 then_do (λ value_data.
          λ s4. (Option.map (λ raw. (raw, scaler)) (decode_number value_data), s4)))))

-- A session: connect, the work, and disconnect, whose result is ignored.
abbrev pub in_session : {A : Type 0} → Step A → Step A
in_session work s =
    connect s then_do (λ _ s1. let done = work s1 in (done.0, (disconnect done.1).1))

-- readRegister
unfoldable pub read_register : List ℕ → ℕ → Step (Number × Number)
read_register obis unit s = in_session (read_associated obis unit) s

-- probe
unfoldable pub probe : Step Unit
probe s = in_session associate s

-- get_import, get_export and get_voltage, before their conversions of the double.
unfoldable pub get_import : DlmsCosemConfig → Step (Number × Number)
get_import c s = read_register c.import_obis 30 s

unfoldable pub get_export : DlmsCosemConfig → Step (Number × Number)
get_export c s = read_register c.export_obis 30 s

unfoldable pub get_voltage : DlmsCosemConfig → Step (Number × Number)
get_voltage c s = read_register c.voltage_obis 35 s
