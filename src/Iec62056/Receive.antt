-- ===== src/Iec62056/Receive.antt =====
-- lib/protocols/iec62056_21/iec62056_21.cpp: what the optical reader takes from its head, and the
-- check of a data block. A wait for the head is the list of its polls, as for the DLMS reader, with
-- the clock at its start.
use mathlib.Core.Option
use io_t_firmware.Base.{
  ℕ, zero, suc, ◌+◌, ◌-◌, bit_xor, Bool, true, false, not, ◌&&◌, ◌||◌, Option, none, some, List, [],
  ◌∷◌, ◌++◌, ltb, leb, ◌==◌, if◌then◌else◌, bytes_eq, length, get_or, drop, u8, u32,
}
use io_t_firmware.Dlms.Frames.{Poll}

abbrev pub id_timeout_ms : ℕ
id_timeout_ms = 2000

abbrev pub data_timeout_ms : ℕ
data_timeout_ms = 3000

abbrev pub bcc_timeout_ms : ℕ
bcc_timeout_ms = 500

abbrev pub stx : ℕ
stx = 0x02

abbrev pub etx : ℕ
etx = 0x03

-- millis() as a wait begins, and its polls.
pub record Wait : Type 0 where
  pub start : ℕ
  pub polls : List Poll

-- String::endsWith and a String's start.
unfoldable pub starts_with : List ℕ → List ℕ → Bool
starts_with [] bs = true
starts_with (x ∷ xs) [] = false
starts_with (x ∷ xs) (b ∷ bs) = x == b && starts_with xs bs

abbrev pub ends_with : List ℕ → List ℕ → Bool
ends_with s bs = leb (length s) (length bs) && bytes_eq (drop (length bs - length s) bs) s

-- The loop of readUntil.
unfoldable pub read_until_loop : List ℕ → ℕ → List Poll → List ℕ → List ℕ
read_until_loop terminator deadline [] result = result
read_until_loop terminator deadline (p ∷ ps) result =
    let idle_on = read_until_loop terminator deadline ps result in
    let more = λ (b : ℕ).
      (let longer = result ++ (b ∷ []) in
        let on = read_until_loop terminator deadline ps longer in
        if ends_with terminator longer then longer else on) in
    if not (ltb p.ms deadline)
    then result
    else elim p.byte [ none ↦ idle_on | some b ↦ more (u8 b) ]

-- readUntil
abbrev pub read_until : List ℕ → ℕ → Wait → List ℕ
read_until terminator timeout_ms w =
    read_until_loop terminator (u32 (w.start + timeout_ms)) w.polls []

-- The loop of readBytes, with what `got` lacks to `count`.
unfoldable pub read_bytes_loop : ℕ → ℕ → List Poll → List ℕ
read_bytes_loop zero deadline ps = []
read_bytes_loop (suc left) deadline [] = []
read_bytes_loop (suc left) deadline (p ∷ ps) =
    let idle_on = read_bytes_loop (suc left) deadline ps in
    let on = read_bytes_loop left deadline ps in
    if not (ltb p.ms deadline) then [] else elim p.byte [ none ↦ idle_on | some b ↦ u8 b ∷ on ]

-- readBytes
abbrev pub read_bytes : ℕ → ℕ → Wait → List ℕ
read_bytes count timeout_ms w = read_bytes_loop count (u32 (w.start + timeout_ms)) w.polls

-- String::indexOf: strchr and strstr, which see nothing from a byte 0 on.
unfoldable pub index_of : List ℕ → List ℕ → Option ℕ
index_of s [] = if starts_with s [] then some 0 else none
index_of s (b ∷ bs) =
    let later = Option.map suc (index_of s bs) in
    let at_end = if starts_with s [] then some 0 else none in
    if b == 0 then at_end else if starts_with s (b ∷ bs) then some 0 else later

-- String::indexOf from a position.
abbrev pub index_from : List ℕ → List ℕ → ℕ → Option ℕ
index_from s bs from = Option.map (λ i. from + i) (index_of s (drop from bs))

-- The loop over the bytes behind STX.
unfoldable pub bcc_of : ℕ → List ℕ → ℕ
bcc_of bcc [] = bcc
bcc_of bcc (b ∷ bs) = bcc_of (bit_xor bcc b) bs

-- checkFrame; `w` is the wait for ETX and BCC.
unfoldable pub check_frame : Wait → List ℕ → Bool
check_frame w block =
    let tail = read_bytes 2 bcc_timeout_ms w in
    elim (index_of (stx ∷ []) block) [
      | none ↦ true
      | some i ↦
          if not (length tail == 2) || not (get_or tail 0 0 == etx)
          then false
          else bit_xor (bcc_of 0 (drop (i + 1) block)) etx == get_or tail 1 0
    ]
