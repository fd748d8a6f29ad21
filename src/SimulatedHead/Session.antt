-- ===== src/SimulatedHead/Session.antt =====
-- lib/protocols/iec62056_21 over lib/buses/ir_head/simulated_ir_head.cpp: what the optical reader
-- reads from the simulated head.
use mathlib.Core.List.{append_assoc}
use io_t_firmware.Base.{
  ap, ℕ, ◌+◌, ◌<◌, ◌≡◌, refl, true, false, none, some, List, [], ◌∷◌, ◌++◌, map, bytes_eq, length,
  drop, All, u32,
}
use io_t_firmware.Iec62056.Receive.{
  read_until, data_timeout_ms, id_timeout_ms, Wait, starts_with, index_of, check_frame,
}
use io_t_firmware.Iec62056.{
  read_until, Reader, Command, set_baud_rate, send, baud_rate_from_id, agreed, line_end, request,
  block_end, restart, read_identification, identify, request_identification, acknowledge, handshake,
  code_loop, code_index, import_code, export_code, ReadAir, get_export, number_at, parse_obis_float,
  import_block, read_block, get_import,
}
use io_t_firmware.Iec62056.Heard.{read_until_heard, polls_at, ends_first}
use io_t_firmware.SimulatedHead
use io_t_firmware.SimulatedHead.{Head, done, awaiting_ack, id_response, data_block, after_response}

-- "\x06050\r\n"
abbrev pub ack_message : List ℕ
ack_message = 0x06 ∷ 0x30 ∷ 0x35 ∷ 0x30 ∷ line_end

id_played :
    (h : Head)
    → SimulatedHead.read_bytes 12 (SimulatedHead.send request h)
      ≡ (map some id_response, record { state = awaiting_ack; pending = none })
unfolding SimulatedHead.read_bytes SimulatedHead.read_byte SimulatedHead.send after_response
    bytes_eq
id_played h = refl

block_played :
    SimulatedHead.read_bytes 57
      (SimulatedHead.send ack_message (record { state = awaiting_ack; pending = none }))
    ≡ (map some data_block, record { state = done; pending = none })
unfolding SimulatedHead.read_bytes SimulatedHead.read_byte SimulatedHead.send after_response
    bytes_eq
block_played = refl

id_ends : ends_first line_end [] id_response ≡ true
unfolding ends_first bytes_eq
id_ends = refl

block_ends : ends_first block_end [] data_block ≡ true
unfolding ends_first bytes_eq
block_ends = refl

not_an_echo : bytes_eq id_response request ≡ false
unfolding bytes_eq
not_an_echo = refl

identified :
    identify id_response
    ≡ record { code = agreed; identification = id_response; offered_baud = 9600 }
unfolding identify baud_rate_from_id
identified = refl

-- A block without STX has no check.
block_unchecked : (tail : Wait) → check_frame tail data_block ≡ true
unfolding check_frame index_of starts_with
block_unchecked tail = refl

import_place : code_index import_code data_block ≡ some 0
unfolding code_loop index_of starts_with
import_place = refl

export_place : code_index export_code data_block ≡ some 27
unfolding code_loop index_of starts_with
export_place = refl

-- What the reader asks of its head in a read, behind what brings it back to 300 baud.
abbrev pub asked : Reader → List Command
asked r = (restart r).0 ++ (send request ∷ send ack_message ∷ set_baud_rate 9600 ∷ [])

handshake_done :
    (first second : Wait) (r : Reader)
    → read_until line_end id_timeout_ms first ≡ id_response
    → handshake first second r
      ≡ (asked r, (agreed, 9600), record (restart r).1 { current_baud = 9600 })
unfolding handshake request_identification acknowledge read_identification
handshake_done first second r heard =
    rw (heard, not_an_echo, identified)
      (ap (λ cs. (cs, (agreed, 9600), record (restart r).1 { current_baud = 9600 }))
        (append_assoc (restart r).0 (send request ∷ [])
          (send ack_message ∷ set_baud_rate 9600 ∷ [])))

module _ (strtof : List ℕ → ℕ × ℕ) (i e : ℕ) where
  import_parsed :
      strtof (drop 10 data_block) ≡ (i, 10)
      → parse_obis_float strtof data_block import_code ≡ some i
  unfolding parse_obis_float number_at
  import_parsed p = rw (import_place, p, parse_obis_float) refl

  export_parsed :
      strtof (drop 37 data_block) ≡ (e, 10)
      → parse_obis_float strtof data_block export_code ≡ some e
  unfolding parse_obis_float number_at
  export_parsed q = rw (export_place, q, parse_obis_float) refl

  block_values :
      (tail : Wait) (r : Reader)
      → strtof (drop 10 data_block) ≡ (i, 10)
      → strtof (drop 37 data_block) ≡ (e, 10)
      → import_block strtof tail data_block r
        ≡ (some i, record r { cached_export = e; export_valid = true })
  unfolding import_block
  block_values tail r p q =
      rw (block_unchecked tail, import_parsed p, export_parsed q, import_block) refl

  get_import_done :
      (air : ReadAir) (r : Reader)
      → strtof (drop 10 data_block) ≡ (i, 10)
      → strtof (drop 37 data_block) ≡ (e, 10)
      → read_until line_end id_timeout_ms air.first ≡ id_response
      → read_until block_end data_timeout_ms air.data_block ≡ data_block
      → let (commands, v, r') = get_import strtof air r in
        (commands ≡ asked (record r { export_valid = false }))
        × (v ≡ some i)
        × (get_export r' ≡ some e)
  unfolding get_import read_block get_export
  get_import_done air r p q first block =
      let off : Reader = record r { export_valid = false } in
      let shaken : Reader = record (restart off).1 { current_baud = 9600 } in
      let values = block_values air.tail shaken p q in
      rw (handshake_done air.first air.second off first, block, values) (refl, refl, refl)

  -- Whatever state the simulated head is in, a read of the reader over it that hears a byte at each
  -- of its polls, in time, gives the import of the canned data block, keeps its export, and leaves the head at the end
  -- of its session: the reader asks for the identification, acknowledges 9600 baud with the message
  -- that makes the head play the block, and sets that rate. strtof takes the ten digits of either
  -- value.
  pub simulated_read :
      (h : Head) (r : Reader) (second tail : Wait) (start1 start2 : ℕ) (t1 t2 : List ℕ)
      → strtof (drop 10 data_block) ≡ (i, 10)
      → strtof (drop 37 data_block) ≡ (e, 10)
      → All (λ t. t < u32 (start1 + id_timeout_ms)) t1
      → length t1 ≡ 12
      → All (λ t. t < u32 (start2 + data_timeout_ms)) t2
      → length t2 ≡ 57
      → let (replies, h1) = SimulatedHead.read_bytes 12 (SimulatedHead.send request h) in
        let (block, h2) = SimulatedHead.read_bytes 57 (SimulatedHead.send ack_message h1) in
        let air : ReadAir = record {
          first = record { start = start1; polls = polls_at t1 replies };
          second = second;
          data_block = record { start = start2; polls = polls_at t2 block };
          tail = tail;
        } in
        let (commands, v, r') = get_import strtof air r in
        (commands
          ≡ (restart (record r { export_valid = false })).0
            ++ (send request ∷ send ack_message ∷ set_baud_rate 9600 ∷ []))
        × (v ≡ some i)
        × (get_export r' ≡ some e)
        × (h2.state ≡ done)
  simulated_read h r second tail start1 start2 t1 t2 p q a1 l1 a2 l2 =
      let id_heard = read_until_heard line_end id_response t1 id_timeout_ms start1 a1 l1 id_ends in
      let block_heard =
        read_until_heard block_end data_block t2 data_timeout_ms start2 a2 l2 block_ends in
      let air : ReadAir = record {
        first = record { start = start1; polls = polls_at t1 (map some id_response) };
        second = second;
        data_block = record { start = start2; polls = polls_at t2 (map some data_block) };
        tail = tail;
      } in
      let (commands, v, x) = get_import_done air r p q id_heard block_heard in
      rw (id_played h, block_played) (commands, v, x, refl)
