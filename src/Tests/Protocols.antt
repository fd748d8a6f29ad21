-- ===== src/Tests/Protocols.antt =====
-- The theorems on the readers of meters, on HDLC frames, on the checks of buses and on JSON.
use mathlib.Core.Option
use io_t_firmware.Base.{
  ℕ, ◌≡◌, refl, true, false, none, some, List, [], ◌∷◌, ◌++◌, map, arith, get_or, All,
}
use io_t_firmware.Hdlc.{hdlc_address, hdlc_build_frame, hdlc_parse_frame, mark_last, hdlc_fcs}
use io_t_firmware.Crc.{crc_loop, crc_rounds}
use io_t_firmware.Hdlc.Address.{hdlc_address-IsAddress}
use io_t_firmware.Hdlc.RoundTrip.{hdlc_parse_frame-hdlc_build_frame}
use io_t_firmware.Iec62056.{
  bcc_timeout_ms, read_bytes, send, set_baud_rate, agreed, acknowledge, request, data_timeout_ms,
  start_baud, stx, Wait, Reader, starts_with, read_until, read_bytes_loop, index_of, bcc_of,
  check_frame, block_end, read_identification, identify, code_index, import_code, export_code,
  ReadAir, get_export, importing, probing, get_import, calls,
}
use io_t_firmware.Iec62056
use io_t_firmware.Bus.Head
use io_t_firmware.Bus.Head.{RealIrHead, UartAir, new_head, uart_start_checked}
use io_t_firmware.Bus.Head.Follows.{settings, port_after, messages, drive, head_follows_reader}
use io_t_firmware.Iec62056.Obis.{bracketed, code_index_lem}
use io_t_firmware.Iec62056.Check.{check_frame_detects}
use io_t_firmware.Iec62056.Import.{reported, get_import_reports}
use io_t_firmware.Bus.{EchoAir, uart_loopback_test, rx_drive_is_idle, classify_pin, wait_echo}
use io_t_firmware.Bus.Transceiver.{Transceiver, Call, sending, reading, arriving, turns}
use io_t_firmware.Bus.Transceiver.Turns.{obeys, on_line, asked, turns_obey}
use io_t_firmware.BoardMeter
use io_t_firmware.BoardMeter.{Board, id_message}
use io_t_firmware.BoardMeter.Session.{session_completes}
use io_t_firmware.WifiRadio.{start_station, start_ap, serve, serve_all, wifi_radio_start_station}
use io_t_firmware.WifiRadio.Channel.{channel_stays}

-- The SNRM frame of a client with the address 0x10 to the server with the address 1.
abbrev snrm : List ℕ
snrm = 0x7E ∷ 0xA0 ∷ 0x07 ∷ 0x03 ∷ 0x21 ∷ 0x93 ∷ 0x0F ∷ 0x01 ∷ 0x7E ∷ []

snrm_built : hdlc_build_frame (0x03 ∷ []) (0x21 ∷ []) 0x93 [] ≡ some snrm
unfolding hdlc_build_frame hdlc_fcs crc_loop crc_rounds
snrm_built = refl

server_made : hdlc_address 1 0 1 ≡ some (0x03 ∷ [])
unfolding hdlc_address mark_last
server_made = refl

client_made : hdlc_address 0x10 0 1 ≡ some (0x21 ∷ [])
unfolding hdlc_address mark_last
client_made = refl

hdlc_parse_frame-hdlc_build_frame_example :
    hdlc_parse_frame snrm
    ≡ some (record { dest = 0x03 ∷ []; src = 0x21 ∷ []; control = 0x93; info = [] })
hdlc_parse_frame-hdlc_build_frame_example =
    hdlc_parse_frame-hdlc_build_frame (0x03 ∷ []) (0x21 ∷ []) [] snrm 0x93
      (hdlc_address-IsAddress 1 0 1 (0x03 ∷ []) server_made)
      (hdlc_address-IsAddress 0x10 0 1 (0x21 ∷ []) client_made) snrm_built

-- A head that gives some bytes, one in each round.
abbrev heard : List ℕ → Wait
heard bs = record { start = 0; polls = map (λ b. record { ms = 1; byte = some b }) bs }

abbrev optical : Reader
optical = record { current_baud = 9600; cached_export = 5; export_valid = true }

abbrev identification : Wait
identification = heard (0x2F ∷ 0x41 ∷ 0x42 ∷ 0x43 ∷ 0x35 ∷ 0x0D ∷ 0x0A ∷ [])

-- A number of one character.
abbrev digit : List ℕ → ℕ × ℕ
digit s = (get_or s 0 0, 1)

abbrev import_air : ReadAir
import_air = record {
  first = identification;
  second = heard [];
  data_block =
      heard
        (import_code ++ (0x28 ∷ 0x37 ∷ 0x29 ∷ (export_code ++ (0x28 ∷ 0x38 ∷ 0x29 ∷ block_end))));
  tail = heard [];
}

abbrev two_lines : List ℕ
two_lines = import_code ++ (0x2E ∷ (import_code ++ (0x28 ∷ 0x37 ∷ 0x29 ∷ [])))

code_index_lem_example :
    code_index import_code two_lines ≡ index_of (bracketed import_code) two_lines
code_index_lem_example = code_index_lem import_code two_lines (omega arith)

-- One byte of noise, and a framed block.
framed_accepted :
    check_frame (heard (0x03 ∷ 0x26 ∷ [])) (0xFF ∷ 0x02 ∷ 0x31 ∷ 0x32 ∷ 0x21 ∷ 0x0D ∷ 0x0A ∷ [])
    ≡ true
unfolding check_frame read_bytes_loop index_of starts_with bcc_of
framed_accepted = refl

check_frame_detects_example :
    check_frame (heard (0x03 ∷ 0x26 ∷ [])) (0xFF ∷ 0x02 ∷ 0x31 ∷ 0x39 ∷ 0x21 ∷ 0x0D ∷ 0x0A ∷ [])
    ≡ false
check_frame_detects_example =
    check_frame_detects (heard (0x03 ∷ 0x26 ∷ [])) (0xFF ∷ []) (0x31 ∷ []) (0x21 ∷ 0x0D ∷ 0x0A ∷ [])
      0x32 0x39 (((λ e. omega arith), (λ e. omega arith)), tt) (λ e. ground arith) framed_accepted

get_import_reports_example :
    let (cs, v, r') = get_import digit import_air optical in
    let i = identify (read_identification import_air.first import_air.second) in
    let o =
      reported digit i.code import_air.tail
        (read_until block_end data_timeout_ms import_air.data_block) in
    (v ≡ Option.map (λ (i, e). i) o) × (get_export r' ≡ Option.map (λ (i, e). e) o)
get_import_reports_example = get_import_reports digit import_air optical

abbrev echo : EchoAir
echo = record {
  port_known = true;
  start = 0;
  polls = record { ms = 1; available = true } ∷ [];
  late = false;
  first_byte = 0x55;
  extra_byte = none;
}

-- A head on pins 4 and 5 at 300 baud.
abbrev head : RealIrHead
head = new_head (record {
  rx = 4;
  tx = 5;
  baud_rate = 300;
  format = 0x800001A;
  tx_invert = false;
  rx_invert = false;
})

abbrev uart : UartAir
uart = record { rx_valid = true; tx_valid = true; running = true }

abbrev at_start : Reader
at_start = record optical { current_baud = 300 }

abbrev two_calls : List Iec62056.Call
two_calls = importing import_air ∷ probing identification identification ∷ []

head_comes_up : (Head.init (λ up. true) uart echo head).1 ≡ true
unfolding Head.init Head.start uart_start_checked uart_loopback_test rx_drive_is_idle classify_pin
    wait_echo
head_comes_up = refl

head_follows_reader_example :
    let (ds, r') = calls digit two_calls at_start in
    let (es, h') = drive uart ds head in
    let p = port_after none (Head.init (λ up. true) uart echo head).0 in
    All (λ (q, m). q ≡ some (settings head)) (messages p es)
    × (port_after p es ≡ some (settings (record head { baud_rate = r'.current_baud })))
head_follows_reader_example =
    head_follows_reader digit (λ up. true) uart echo head two_calls at_start head_comes_up refl

abbrev board : Board
board = record {
  tx_invert = false;
  rx_invert = false;
  reads = 3;
  awaiting_ack = false;
  id_sent_at = 0;
  line = [];
  last_byte_at = 0;
  baud = 300;
}

session_completes_example :
    let body_of : ℕ → List ℕ = λ n. n ∷ block_end in
    let (out, b') = BoardMeter.handle_line body_of 10 request board in
    let i = identify id_message in
    let (commands, h, r') = acknowledge i.code i optical in
    let body = body_of 4 in
    (out ≡ (300, id_message) ∷ [])
    × (i.code ≡ agreed)
    × (r'.current_baud ≡ 9600)
    × (msg : List ℕ) × (commands ≡ send msg ∷ set_baud_rate 9600 ∷ [])
    × (let (block_out, b'') = BoardMeter.handle_line body_of 20 msg b' in
        (block_out
          ≡ (
            9600,
            BoardMeter.stx
                ∷ (body ++ (BoardMeter.etx ∷ bcc_of 0 (body ++ (BoardMeter.etx ∷ [])) ∷ [])),
          )
            ∷ [])
        × (b''.baud ≡ BoardMeter.start_baud))
    × ((w : Wait)
        → read_bytes 2 bcc_timeout_ms w
          ≡ BoardMeter.etx ∷ bcc_of 0 (body ++ (BoardMeter.etx ∷ [])) ∷ []
        → check_frame w (BoardMeter.stx ∷ body) ≡ true)
session_completes_example = session_completes (λ n. n ∷ block_end) 10 20 board optical refl

channel_stays_example :
    (serve_all
      (start_station true 6 ∷ start_ap true 11 ∷ [])
      (record { ap_up = false; station_up = false; radio_channel = 0 })).radio_channel
    ≡ 6
unfolding serve wifi_radio_start_station
channel_stays_example =
    channel_stays (start_station true 6) (start_ap true 11 ∷ [])
      (record { ap_up = false; station_up = false; radio_channel = 0 }) (λ e. ground arith)
      (λ e. ground arith) ((λ e. ground arith), tt) refl

-- A request, of which the UART takes both bytes, the answer to it, and the read of its first byte.
abbrev request_answered : List Call
request_answered =
    sending 2 (1 ∷ 3 ∷ []) ∷ arriving (1 ∷ 0x83 ∷ []) ∷ reading ∷ sending 1 (2 ∷ 3 ∷ []) ∷ []

abbrev listening : Transceiver
listening = record { driving = false; waiting = 9 ∷ [] }

turns_obey_example :
    let (es, t) = turns request_answered listening in
    (obeys false true es ≡ true) × (on_line es ≡ asked request_answered) × (t.driving ≡ false)
turns_obey_example = turns_obey request_answered listening refl
