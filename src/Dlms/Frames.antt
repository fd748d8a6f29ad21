-- ===== src/Dlms/Frames.antt =====
-- lib/protocols/dlms_cosem/dlms_cosem.cpp, readFrame: the hunt for a frame in what the bus gives.
-- A poll is one round of the loop: millis() at its test, and readByte(), `none` for -1. A list that
-- ends stands for a clock that passes DLMS_TIMEOUT behind it.
pub mod Bounds
use io_t_firmware.Base.{
  ℕ, ◌+◌, ◌*◌, bit_and, bit_or, Bool, not, ◌&&◌, ◌||◌, Option, none, some, List, [], ◌∷◌, ◌++◌, ltb,
  leb, ◌==◌, if◌then◌else◌, length, get_or, u8, sub32,
}
use io_t_firmware.Hdlc.{hdlc_frame_max, hdlc_flag, hdlc_format_type_a}

abbrev pub dlms_timeout : ℕ
dlms_timeout = 1000

pub record Poll : Type 0 where
  pub ms : ℕ
  pub byte : Option ℕ

-- `buf` up to `index`, and `total`.
pub record Hunt : Type 0 where
  pub buf : List ℕ
  pub total : ℕ

abbrev pub restart : Hunt → Hunt
restart h = record h { buf = [] }

abbrev pub keep : ℕ → Hunt → Hunt
keep b h = record h { buf = h.buf ++ (b ∷ []) }

-- The length field of a frame.
abbrev pub length_field : List ℕ → ℕ
length_field buf = bit_or (bit_and (get_or buf 1 0) 0x07 * 256) (get_or buf 2 0)

-- The body of the loop behind its idle and flag tests: a byte is stored, and the third one gives
-- the length.
unfoldable pub store_byte : ℕ → Hunt → Hunt
store_byte b h =
    let k = keep b h in
    let n = length_field k.buf in
    if not (length k.buf == 3)
    then k
    else if ltb n 7 || ltb hdlc_frame_max (n + 2)
    then restart k
    else record k { total = n + 2 }

-- One byte of the loop.
unfoldable pub hunt_byte : ℕ → Hunt → Hunt
hunt_byte b h =
    if length h.buf == 0
    then (if b == hdlc_flag then keep b h else h)
    else if length h.buf == 1 && b == hdlc_flag
    then h
    else if length h.buf == 1 && not (bit_and b 0xF0 == bit_and hdlc_format_type_a 0xF0)
    then restart h
    else store_byte b h

-- `index == total` behind a stored byte. Before the length is known, `total` is 0 or that of a
-- frame that was given up, and what the loop holds is shorter than either.
abbrev pub complete : Hunt → Bool
complete h = leb 3 (length h.buf) && length h.buf == h.total

unfoldable pub read_loop : ℕ → List Poll → Hunt → Option (List ℕ)
read_loop start [] h = none
read_loop start (p ∷ ps) h =
    let idle_on = read_loop start ps h in
    let more = λ (b : ℕ).
      (let k = hunt_byte b h in
        let on = read_loop start ps k in if complete k then some k.buf else on) in
    if not (ltb (sub32 p.ms start) dlms_timeout)
    then none
    else elim p.byte [ none ↦ idle_on | some b ↦ more (u8 b) ]

-- readFrame, entered at `start`.
unfoldable pub read_frame : ℕ → List Poll → Option (List ℕ)
read_frame start ps = read_loop start ps (record { buf = []; total = 0 })
