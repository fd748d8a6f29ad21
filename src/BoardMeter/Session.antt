-- ===== src/BoardMeter/Session.antt =====
-- IrSim/board_meter/src/main.cpp with lib/protocols/iec62056_21: a session of the reader with the board.
use mathlib.Core.List.{append_assoc}
use io_t_firmware.Base.{
  ap, ℕ, ◌+◌, ◌≤◌, bit_xor, ◌≡◌, refl, true, not, ◌&&◌, ◌||◌, List, [], ◌∷◌, ◌++◌, arith, ltb, leb,
  ◌==◌, ==_refl, bytes_eq, if_either, if_both, length, get_or,
}
use io_t_firmware.Iec62056
use io_t_firmware.Iec62056.{
  ends_with, Wait, Reader, agreed, request, identify, acknowledge, check_frame, starts_with,
  index_of, bcc_of, read_bytes, bcc_timeout_ms, baud_rate_from_id, set_baud_rate, send,
}
use io_t_firmware.BoardMeter.{
  ends_with, start_baud, stx, etx, ack, Board, Sent, data_block, id_message, request_start,
  request_end, Heard, handle_console, console, drop_stale, handle_line, handle_byte, handle_bytes,
  board_loop,
}

-- The bytes of a list, one behind the other.
bcc_of-append : (xs ys : List ℕ) (a : ℕ) → bcc_of a (xs ++ ys) ≡ bcc_of (bcc_of a xs) ys
unfolding bcc_of
bcc_of-append [] ys a = refl
bcc_of-append (x ∷ xs) ys a = bcc_of-append xs ys (bit_xor a x)

-- checkFrame accepts a block of the board, with the two bytes that it sends behind it.
check_frame-data_block :
    (w : Wait) (body : List ℕ)
    → read_bytes 2 bcc_timeout_ms w ≡ etx ∷ bcc_of 0 (body ++ (etx ∷ [])) ∷ []
    → check_frame w (stx ∷ body) ≡ true
unfolding check_frame index_of starts_with bcc_of
check_frame-data_block w body r =
    let sum : bcc_of 0 (body ++ (etx ∷ [])) ≡ bit_xor (bcc_of 0 body) etx =
      bcc_of-append body (etx ∷ []) 0 in
    rw (check_frame, r, sum) (==_refl (bit_xor (bcc_of 0 body) etx))

-- Whatever the board has done before, as long as it runs at 300 baud: it answers the reader's request
-- with an identification at 300 baud in which the reader finds 9600 baud, and the acknowledgement that
-- the reader then sends with a data block at 9600 baud, the rate that the reader has set its head to,
-- behind which the board is back at 300 baud; and checkFrame accepts that block where the last two of
-- its bytes follow in time.
pub session_completes :
    (body_of : ℕ → List ℕ) (t u : ℕ) (b : Board) (r : Reader)
    → b.baud ≡ start_baud
    → let (out, b') = handle_line body_of t request b in
      let i = identify id_message in
      let (commands, h, r') = acknowledge i.code i r in
      let body = body_of (b.reads + 1) in
      (out ≡ (300, id_message) ∷ [])
      × (i.code ≡ agreed)
      × (r'.current_baud ≡ 9600)
      × (msg : List ℕ) × (commands ≡ send msg ∷ set_baud_rate 9600 ∷ [])
      × (let (block_out, b'') = handle_line body_of u msg b' in
          (block_out ≡ (9600, stx ∷ (body ++ (etx ∷ bcc_of 0 (body ++ (etx ∷ [])) ∷ []))) ∷ [])
          × (b''.baud ≡ start_baud))
      × ((w : Wait)
          → read_bytes 2 bcc_timeout_ms w ≡ etx ∷ bcc_of 0 (body ++ (etx ∷ [])) ∷ []
          → check_frame w (stx ∷ body) ≡ true)
unfolding handle_line identify acknowledge starts_with data_block baud_rate_from_id bytes_eq
session_completes body_of t u b r e =
    let body = body_of (b.reads + 1) in
    let tail = append_assoc body (etx ∷ []) (bcc_of 0 (body ++ (etx ∷ [])) ∷ []) in
    (
      ap (λ n. (n, id_message) ∷ []) e,
      refl,
      refl,
      ack ∷ 0x30 ∷ 0x35 ∷ 0x30 ∷ Iec62056.line_end,
      refl,
      (ap (λ t. (9600, stx ∷ t) ∷ []) tail, refl),
      λ w r. check_frame-data_block w body r,
    )

-- The board between two bytes.
abbrev IsSettled : Board → Type 0
IsSettled b = (b.baud ≡ start_baud) × (length b.line ≤ 80)

console-IsSettled : (cs : List ℕ) (b : Board) → IsSettled b → IsSettled (console cs b)
unfolding console handle_console
console-IsSettled [] b v = v
console-IsSettled (c ∷ cs) b v = console-IsSettled cs (handle_console c b) (ground (arith, v))

drop_stale-IsSettled : (t u : ℕ) (b : Board) → IsSettled b → IsSettled (drop_stale t u b)
unfolding drop_stale
drop_stale-IsSettled t u b v = ground (arith, v)

module _ (body_of : ℕ → List ℕ) where
  handle_line_baud :
      (t : ℕ) (msg : List ℕ) (b : Board)
      → b.baud ≡ start_baud
      → (handle_line body_of t msg b).1.baud ≡ start_baud
  unfolding handle_line
  handle_line_baud t msg b e =
      let P = λ (o : List Sent × Board). o.1.baud ≡ start_baud in
      if_both P (starts_with request_start msg && ends_with request_end msg) e (
        if_both P (b.awaiting_ack && (leb 3 (length msg) && get_or msg 0 0 == ack))
          (if_both P
            (not (get_or msg 1 0 == 0x30)
              || (ltb (get_or msg 2 0) 0x30 || ltb 0x36 (get_or msg 2 0)))
            e refl)
          e)

  handle_byte-IsSettled :
      (h : Heard) (b : Board) → IsSettled b → IsSettled (handle_byte body_of h b).1
  unfolding handle_byte
  handle_byte-IsSettled h b v =
      let longer = b.line ++ (h.byte ∷ []) in
      let noted : Board = record b { line = longer; last_byte_at = h.read_now } in
      let P = λ (o : List Sent × Board). IsSettled o.1 in
      if_both P (h.byte == 0x0A) (handle_line_baud h.answer_now longer noted v.0, omega arith)
        (if_either P (ltb 80 (length longer)) (λ f. (v.0, omega arith)) (λ f. (v.0, ground arith)))

  handle_bytes-IsSettled :
      (hs : List Heard) (b : Board) → IsSettled b → IsSettled (handle_bytes body_of hs b).1
  unfolding handle_bytes
  handle_bytes-IsSettled [] b v = v
  handle_bytes-IsSettled (h ∷ hs) b v =
      handle_bytes-IsSettled hs (handle_byte body_of h b).1 (handle_byte-IsSettled h b v)

-- One pass of the board's loop from 300 baud with a line of at most 80 bytes ends there again.
pub board_loop_settles :
    (body_of : ℕ → List ℕ) (chars : List ℕ) (hs : List Heard) (line_now ack_now : ℕ) (b : Board)
    → b.baud ≡ start_baud
    → length b.line ≤ 80
    → let b' = (board_loop body_of chars hs line_now ack_now b).1 in
      (b'.baud ≡ start_baud) × (length b'.line ≤ 80)
unfolding board_loop
board_loop_settles body_of chars hs line_now ack_now b e l =
    drop_stale-IsSettled line_now ack_now (handle_bytes body_of hs (console chars b)).1
      (handle_bytes-IsSettled body_of hs (console chars b) (console-IsSettled chars b (e, l)))
