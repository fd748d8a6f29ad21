-- ===== src/Iec62056.antt =====
-- lib/protocols/iec62056_21/iec62056_21.h and iec62056_21.cpp: the optical meter's reader. A String
-- is the list of its bytes, and a missing byte reads as 0, the String's end. What the reader asks of
-- the head is a list of commands, in order. The bytes that are thrown away before a request, the wait
-- behind a probe, which change nothing here, and log lines are left out. `strtof`, of the C library,
-- gives a value (its bit pattern) and the number of characters that it used.
use mathlib.Core.Option
pub mod Receive
unfoldable pub use Receive.*
pub mod Heard
pub mod Speed
pub mod Check
pub mod Import
pub mod Obis
use io_t_firmware.Base.{
  ℕ, zero, suc, ◌+◌, ◌*◌, Bool, true, false, not, ◌&&◌, ◌||◌, Option, none, some, List, [], ◌∷◌,
  ◌++◌, ltb, ◌==◌, if◌then◌else◌, bytes_eq, length, get_or, drop,
}

abbrev pub start_baud : ℕ
start_baud = 300

-- Iec6205621Reader
pub record Reader : Type 0 where
  pub current_baud : ℕ
  pub cached_export : ℕ
  pub export_valid : Bool

-- What the reader asks of its head.
pub data Command : Type 0 where
  set_baud_rate : ℕ → Command
  send : List ℕ → Command

-- init
abbrev pub init : Reader → Reader
init r = record r { current_baud = start_baud }

-- baudRateFromId
unfoldable pub baud_rate_from_id : ℕ → Option ℕ
baud_rate_from_id code =
    if code == 0x30
    then some 300
    else if code == 0x31
    then some 600
    else if code == 0x32
    then some 1200
    else if code == 0x33
    then some 2400
    else if code == 0x34
    then some 4800
    else if code == 0x35
    then some 9600
    else if code == 0x36
    then some 19200
    else none

-- The results 0, -1, -2 and -3 of the handshake.
pub data Code : Type 0 where
  agreed : Code
  no_answer : Code
  malformed : Code
  unknown_baud : Code

-- requestIdentification: its result, the identification and the offered rate, 0 where it sets none.
pub record Identified : Type 0 where
  pub code : Code
  pub identification : List ℕ
  pub offered_baud : ℕ

-- "\r\n", "/?!\r\n" and "!\r\n"
abbrev pub line_end : List ℕ
line_end = 0x0D ∷ 0x0A ∷ []

abbrev pub request : List ℕ
request = 0x2F ∷ 0x3F ∷ 0x21 ∷ 0x0D ∷ 0x0A ∷ []

abbrev pub block_end : List ℕ
block_end = 0x21 ∷ 0x0D ∷ 0x0A ∷ []

-- Step 0: back to the starting rate.
unfoldable pub restart : Reader → List Command × Reader
restart r =
    if r.current_baud == start_baud
    then ([], r)
    else (set_baud_rate start_baud ∷ [], record r { current_baud = start_baud })

-- Step 2: the identification, behind an echo of the request if there is one.
unfoldable pub read_identification : Wait → Wait → List ℕ
read_identification first second =
    let heard = read_until line_end id_timeout_ms first in
    if bytes_eq heard request then read_until line_end id_timeout_ms second else heard

-- What requestIdentification makes of it.
unfoldable pub identify : List ℕ → Identified
identify id =
    let answer : Code → ℕ → Identified =
      λ c b. record { code = c; identification = id; offered_baud = b } in
    if length id == 0
    then answer no_answer 0
    else if ltb (length id) 7 || not (get_or id 0 0 == 0x2F)
    then answer malformed 0
    else elim (baud_rate_from_id (get_or id 4 0)) [
      | none ↦ answer unknown_baud 0
      | some b ↦ answer agreed b
    ]

-- requestIdentification; the wait for the identification, and that behind an echo.
unfoldable pub request_identification : Wait → Wait → Reader → List Command × Identified × Reader
request_identification first second r =
    let (commands, r') = restart r in
    (commands ++ (send request ∷ []), identify (read_identification first second), r')

-- handshake, behind the identification: its result, and the negotiated rate, 0 where it sets none.
unfoldable pub acknowledge : Code → Identified → Reader → List Command × (Code × ℕ) × Reader
acknowledge agreed i r =
    let ack = 0x06 ∷ 0x30 ∷ get_or i.identification 4 0 ∷ 0x30 ∷ line_end in
    let b = i.offered_baud in
    (send ack ∷ set_baud_rate b ∷ [], (agreed, b), record r { current_baud = b })
acknowledge no_answer i r = ([], (no_answer, i.offered_baud), r)
acknowledge malformed i r = ([], (malformed, i.offered_baud), r)
acknowledge unknown_baud i r = ([], (unknown_baud, i.offered_baud), r)

-- handshake
unfoldable pub handshake : Wait → Wait → Reader → List Command × (Code × ℕ) × Reader
handshake first second r =
    let (asked, i, r') = request_identification first second r in
    let (answered, h, r'') = acknowledge i.code i r' in (asked ++ answered, h, r'')

-- The loop of parseObisFloat that looks for the code with a bracket behind it.
unfoldable pub code_loop : ℕ → List ℕ → List ℕ → Option ℕ → Option ℕ
code_loop zero code block idx = none
code_loop (suc fuel) code block none = none
code_loop (suc fuel) code block (some idx) =
    let rest = code_loop fuel code block (index_from code block (idx + 1)) in
    if get_or block (idx + length code) 0 == 0x28 then some idx else rest

abbrev pub code_index : List ℕ → List ℕ → Option ℕ
code_index code block = code_loop (length block + 2) code block (index_from code block 0)

-- "1-0:1.8.0" and "1-0:2.8.0"
abbrev pub import_code : List ℕ
import_code = 0x31 ∷ 0x2D ∷ 0x30 ∷ 0x3A ∷ 0x31 ∷ 0x2E ∷ 0x38 ∷ 0x2E ∷ 0x30 ∷ []

abbrev pub export_code : List ℕ
export_code = 0x31 ∷ 0x2D ∷ 0x30 ∷ 0x3A ∷ 0x32 ∷ 0x2E ∷ 0x38 ∷ 0x2E ∷ 0x30 ∷ []

-- The waits of a read, in order.
pub record ReadAir : Type 0 where
  pub first : Wait
  pub second : Wait
  pub data_block : Wait
  pub tail : Wait

-- get_export
unfoldable pub get_export : Reader → Option ℕ
get_export r = if not r.export_valid then none else some r.cached_export

-- get_voltage
abbrev pub get_voltage : Reader → Option ℕ
get_voltage r = none

-- probe: whether the meter identified itself.
unfoldable pub probe : Wait → Wait → Reader → List Command × Bool × Reader
probe first second r =
    let (commands, i, r') = request_identification first second r in
    (commands, elim i.code [ agreed ↦ true | _ ↦ false ], r')

-- The calls that a node makes of the reader, with what the head gives them.
pub data Call : Type 0 where
  importing : ReadAir → Call
  exporting : Call
  probing : Wait → Wait → Call

module _ (strtof : List ℕ → ℕ × ℕ) where
  -- parseObisFloat, behind its search.
  unfoldable pub number_at : List ℕ → ℕ → Option ℕ
  number_at block from =
      let start = drop from block in
      let (value, used) = strtof start in
      let behind = get_or start used 0 in
      if used == 0 || (not (behind == 0x2A) && not (behind == 0x29)) then none else some value

  -- parseObisFloat
  unfoldable pub parse_obis_float : List ℕ → List ℕ → Option ℕ
  parse_obis_float block code = elim (code_index code block) [
    | none ↦ none
    | some idx ↦ number_at block (idx + length code + 1)
  ]

  -- get_import, behind the handshake: the block that has come, and whether it was in order.
  unfoldable pub import_block : Wait → List ℕ → Reader → Option ℕ × Reader
  import_block tail block r =
      if length block == 0 || not (check_frame tail block)
      then (none, r)
      else elim (parse_obis_float block import_code) [
        | none ↦ (none, r)
        | some i ↦ elim (parse_obis_float block export_code) [
          | none ↦ (none, r)
          | some e ↦ (some i, record r { cached_export = e; export_valid = true })
        ]
      ]

  -- get_import, behind the handshake.
  unfoldable pub read_block : Code → ReadAir → Reader → Option ℕ × Reader
  read_block agreed air r =
      import_block air.tail (read_until block_end data_timeout_ms air.data_block) r
  read_block no_answer air r = (none, r)
  read_block malformed air r = (none, r)
  read_block unknown_baud air r = (none, r)

  -- get_import
  unfoldable pub get_import : ReadAir → Reader → List Command × Option ℕ × Reader
  get_import air r =
      let (commands, h, r') = handshake air.first air.second (record r { export_valid = false }) in
      let (v, r'') = read_block h.0 air r' in (commands, v, r'')

  abbrev pub call : Call → Reader → List Command × Reader
  call (importing air) r = let (cs, v, r') = get_import air r in (cs, r')
  call exporting r = ([], r)
  call (probing first second) r = let (cs, v, r') = probe first second r in (cs, r')

  unfoldable pub calls : List Call → Reader → List Command × Reader
  calls [] r = ([], r)
  calls (c ∷ cs) r = let (ds, r') = call c r in let (es, r'') = calls cs r' in (ds ++ es, r'')
