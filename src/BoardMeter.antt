-- ===== src/BoardMeter.antt =====
-- IrSim/board_meter/src/main.cpp: the board that answers the optical node as a meter does. The UART,
-- the console and the clock are inputs; what it sends is listed with the rate of the UART. The text of
-- a data block, which snprintf makes of the counters, is a parameter: a function of the number of
-- reads. Log lines, the set-up and the delay before a data block are left out.
pub mod Session
use io_t_firmware.Base.{
  ℕ, ◌+◌, ◌-◌, Bool, true, false, not, ◌&&◌, ◌||◌, List, [], ◌∷◌, ◌++◌, ltb, leb, ◌==◌,
  if◌then◌else◌, length, get_or, sub32,
}
use io_t_firmware.Iec62056.{starts_with, ends_with, bcc_of}

abbrev pub start_baud : ℕ
start_baud = 300

abbrev pub ack_timeout_ms : ℕ
ack_timeout_ms = 2000

abbrev pub line_timeout_ms : ℕ
line_timeout_ms = 1500

abbrev pub stx : ℕ
stx = 0x02

abbrev pub etx : ℕ
etx = 0x03

abbrev pub ack : ℕ
ack = 0x06

-- The file's variables, with the rate at which the UART runs.
pub record Board : Type 0 where
  pub tx_invert : Bool
  pub rx_invert : Bool
  pub reads : ℕ
  pub awaiting_ack : Bool
  pub id_sent_at : ℕ
  pub line : List ℕ
  pub last_byte_at : ℕ
  pub baud : ℕ

-- What leaves the board: a rate and bytes.
abbrev pub Sent : Type 0
Sent = ℕ × List ℕ

-- beginIr
abbrev pub begin_ir : ℕ → Board → Board
begin_ir baud b = record b { baud = baud }

-- dataBlock, around its text.
unfoldable pub data_block : List ℕ → List ℕ
data_block body =
    let after_stx = body ++ (etx ∷ []) in stx ∷ (after_stx ++ (bcc_of 0 after_stx ∷ []))

-- "/EMH5EM211\r\n", "/?" and "!\r\n"
abbrev pub id_message : List ℕ
id_message = 0x2F ∷ 0x45 ∷ 0x4D ∷ 0x48 ∷ 0x35 ∷ 0x45 ∷ 0x4D ∷ 0x32 ∷ 0x31 ∷ 0x31 ∷ 0x0D ∷ 0x0A ∷ []

abbrev pub request_start : List ℕ
request_start = 0x2F ∷ 0x3F ∷ []

abbrev pub request_end : List ℕ
request_end = 0x21 ∷ 0x0D ∷ 0x0A ∷ []

abbrev pub rates : List ℕ
rates = 300 ∷ 600 ∷ 1200 ∷ 2400 ∷ 4800 ∷ 9600 ∷ 19200 ∷ []

-- One byte of the UART, with millis() as it is read and as its line is answered.
pub record Heard : Type 0 where
  pub byte : ℕ
  pub read_now : ℕ
  pub answer_now : ℕ

-- handleConsole, for one character, in lower case.
unfoldable pub handle_console : ℕ → Board → Board
handle_console c b =
    let idle : Board = record (begin_ir start_baud b) { line = []; awaiting_ack = false } in
    if c == 0x74
    then record idle { tx_invert = not b.tx_invert }
    else if c == 0x72
    then record idle { rx_invert = not b.rx_invert }
    else b

unfoldable pub console : List ℕ → Board → Board
console [] b = b
console (c ∷ cs) b = console cs (handle_console c b)

-- loop, behind its bytes: the timeouts of a line and of a session.
unfoldable pub drop_stale : ℕ → ℕ → Board → Board
drop_stale line_now ack_now b =
    let kept : Board =
      if ltb 0 (length b.line) && ltb line_timeout_ms (sub32 line_now b.last_byte_at)
      then record b { line = [] }
      else b in
    if kept.awaiting_ack && ltb ack_timeout_ms (sub32 ack_now kept.id_sent_at)
    then record kept { awaiting_ack = false }
    else kept

module _ (body_of : ℕ → List ℕ) where
  -- handleLine
  unfoldable pub handle_line : ℕ → List ℕ → Board → List Sent × Board
  handle_line now msg b =
      let mode = get_or msg 1 0 in
      let baud_id = get_or msg 2 0 in
      let answered : Board = record b { awaiting_ack = false } in
      let baud = get_or rates (baud_id - 0x30) 0 in
      let block = data_block (body_of (b.reads + 1)) in
      let done : Board = record answered { reads = b.reads + 1; line = []; baud = start_baud } in
      if starts_with request_start msg && ends_with request_end msg
      then ((b.baud, id_message) ∷ [], record b { awaiting_ack = true; id_sent_at = now })
      else if b.awaiting_ack && (leb 3 (length msg) && get_or msg 0 0 == ack)
      then (if not (mode == 0x30) || (ltb baud_id 0x30 || ltb 0x36 baud_id)
          then ([], answered)
          else ((baud, block) ∷ [], done))
      else ([], b)

  -- loop, for one byte of the UART.
  unfoldable pub handle_byte : Heard → Board → List Sent × Board
  handle_byte h b =
      let longer = b.line ++ (h.byte ∷ []) in
      let noted : Board = record b { line = longer; last_byte_at = h.read_now } in
      let (out, b') = handle_line h.answer_now longer noted in
      if h.byte == 0x0A
      then (out, record b' { line = [] })
      else if ltb 80 (length longer)
      then ([], record noted { line = [] })
      else ([], noted)

  unfoldable pub handle_bytes : List Heard → Board → List Sent × Board
  handle_bytes [] b = ([], b)
  handle_bytes (h ∷ hs) b =
      let (out, b') = handle_byte h b in let (more, b'') = handle_bytes hs b' in (out ++ more, b'')

  -- loop
  unfoldable pub board_loop : List ℕ → List Heard → ℕ → ℕ → Board → List Sent × Board
  board_loop chars hs line_now ack_now b =
      let (out, b') = handle_bytes hs (console chars b) in (out, drop_stale line_now ack_now b')
