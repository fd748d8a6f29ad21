-- ===== src/Hdlc/RoundTrip.antt =====
-- lib/protocols/dlms_cosem/hdlc.cpp: a frame that hdlcBuildFrame builds is parsed back by hdlcParseFrame.
use mathlib.Core.List.{append_assoc}
use Prim.Native.Nat.{bit_or-bitwise}
use io_t_firmware.Base.{
  ℕ, zero, suc, ◌+◌, ◌-◌, ◌/◌, ◌≤◌, ◌<◌, bit_and, bit_or, ◌≡◌, refl, sym, ap, ◌∙◌, true, some, List,
  [], ◌∷◌, ◌++◌, arith, bit_and_ff, length, get_or, take, drop, length-append, take-append,
}
use io_t_firmware.Hdlc.{
  frame_header, frame_length, hdlc_info_max, hdlc_build_frame, hdlc_format_type_a, hdlc_parse_frame,
  hdlc_flag, HdlcAddress, HdlcFrame, hdlc_fcs, check_bytes, parse_address, covered, checks,
  parse_body,
}
use io_t_firmware.Hdlc.Address.{IsAddress, at_drop, drop_over, nonempty, parse_address_at}

get_or-append_at :
    (xs ys : List ℕ) (n k : ℕ) → n ≡ length xs + k → get_or (xs ++ ys) n 0 ≡ get_or ys k 0
get_or-append_at [] ys n k e = let same : n ≡ k = omega arith in rw same refl
get_or-append_at (x ∷ xs) ys zero k e = absurd (omega arith)
get_or-append_at (x ∷ xs) ys (suc n) k e = get_or-append_at xs ys n k (omega arith)

-- A check sequence that stands behind the bytes that it covers is accepted.
checks_self :
    (x : ℕ) (b rest : List ℕ) (n : ℕ)
    → n ≡ length b + 1
    → let buf = x ∷ (b ++ (check_bytes (hdlc_fcs b) ++ rest)) in
      checks buf n (hdlc_fcs (covered buf n)) ≡ true
checks_self x b rest n e =
    let c = check_bytes (hdlc_fcs b) ++ rest in
    let body = take-append (n - 1) b c (omega arith) in
    let first = get_or-append_at (x ∷ b) c n 0 (omega arith) in
    let second = get_or-append_at (x ∷ b) c (n + 1) 1 (omega arith) in
    rw (body, first, second) (ground arith)

-- The frame that hdlcParseFrame makes of what it has read.
abbrev frame_of : HdlcAddress → HdlcAddress → ℕ → List ℕ → HdlcFrame
frame_of dest src control info = record { dest = dest; src = src; control = control; info = info }

-- A frame without information, behind its addresses: `h` goes up to the control byte.
parse_body_plain :
    (dest src h : List ℕ) (control pos : ℕ)
    → let buf = hdlc_flag ∷ (h ++ (check_bytes (hdlc_fcs h) ++ (hdlc_flag ∷ []))) in
      pos ≡ length h
      → get_or buf pos 0 ≡ control
      → parse_body buf (length h + 1) dest src pos ≡ some (frame_of dest src control [])
unfolding parse_body
parse_body_plain dest src h control pos e c =
    let ok = checks_self hdlc_flag h (hdlc_flag ∷ []) (length h + 1) refl in
    rw (c, ok) (ground arith)

-- A frame with information, of which the two check sequences and the contents are known.
parse_body_sealed :
    (buf dest src info : List ℕ) (fcs_pos pos control : ℕ)
    → fcs_pos ≡ pos + 3 + length info
    → 0 < length info
    → get_or buf pos 0 ≡ control
    → checks buf fcs_pos (hdlc_fcs (covered buf fcs_pos)) ≡ true
    → checks buf (pos + 1) (hdlc_fcs (covered buf (pos + 1))) ≡ true
    → take (length info) (drop (pos + 3) buf) ≡ info
    → parse_body buf fcs_pos dest src pos ≡ some (frame_of dest src control info)
unfolding parse_body
parse_body_sealed buf dest src info fcs_pos pos control e l c whole head taken =
    let n : (fcs_pos - (pos + 1)) - 2 ≡ length info = omega arith in
    let from : (pos + 1) + 2 ≡ pos + 3 = omega arith in
    rw (c, whole, head, n, from, taken) (ground arith)

parse_body_info :
    (dest src h info : List ℕ) (control pos : ℕ)
    → let body = h ++ (check_bytes (hdlc_fcs h) ++ info) in
      let buf = hdlc_flag ∷ (body ++ (check_bytes (hdlc_fcs body) ++ (hdlc_flag ∷ []))) in
      pos ≡ length h
      → get_or buf pos 0 ≡ control
      → 0 < length info
      → parse_body buf (length body + 1) dest src pos ≡ some (frame_of dest src control info)
parse_body_info dest src h info control pos e c some_info =
    let q = check_bytes (hdlc_fcs h) in
    let body = h ++ (q ++ info) in
    let z = check_bytes (hdlc_fcs body) ++ (hdlc_flag ∷ []) in
    let same : body ++ z ≡ h ++ (q ++ (info ++ z)) = append_assoc h (q ++ info) z in
    let buf = hdlc_flag ∷ (h ++ (q ++ (info ++ z))) in
    let behind = drop_over buf (hdlc_flag ∷ h) (q ++ (info ++ z)) 0 (pos + 1) refl (omega arith) in
    let inside = drop_over buf q (info ++ z) (pos + 1) (pos + 3) behind (omega arith) in
    parse_body_sealed (hdlc_flag ∷ (body ++ z)) dest src info (length body + 1) pos control
      (omega (arith, length-append h (q ++ info))) some_info c
      (checks_self hdlc_flag body (hdlc_flag ∷ []) (length body + 1) refl)
      (rw same (checks_self hdlc_flag h (info ++ z) (pos + 1) (omega arith)))
      (rw (same, inside) (take-append (length info) info z refl))

zero_bit_or : (n : ℕ) → bit_or 0 n ≡ n
zero_bit_or n = simp bit_or-bitwise (omega arith)

parse_known :
    (buf dest src : List ℕ) (n p q : ℕ)
    → 9 ≤ length buf
    → get_or buf 0 0 ≡ hdlc_flag
    → get_or buf 1 0 ≡ hdlc_format_type_a
    → get_or buf 2 0 ≡ n
    → get_or buf (length buf - 1) 0 ≡ hdlc_flag
    → n ≡ length buf - 2
    → parse_address buf (length buf - 3) 3 ≡ some (dest, p)
    → parse_address buf (length buf - 3) p ≡ some (src, q)
    → hdlc_parse_frame buf ≡ parse_body buf (length buf - 3) dest src q
unfolding hdlc_parse_frame
parse_known buf dest src n p q l b₀ b₁ b₂ last count read_dest read_src =
    let field = zero_bit_or n in rw (b₀, b₁, b₂, last, read_dest, read_src) (ground arith)

-- A frame whose start is in order is parsed from behind its addresses.
hdlc_parse-head :
    (dest src rest tail : List ℕ) (control n c d : ℕ)
    → let body = hdlc_format_type_a ∷ n ∷ rest in
      let buf = hdlc_flag ∷ (body ++ (c ∷ d ∷ hdlc_flag ∷ [])) in
      rest ≡ dest ++ (src ++ (control ∷ tail))
      → n ≡ length body + 2
      → IsAddress dest
      → IsAddress src
      → let pos = (3 + length dest) + length src in
        (get_or buf pos 0 ≡ control)
        × (hdlc_parse_frame buf ≡ parse_body buf (length body + 1) dest src pos)
unfolding hdlc_parse_frame
hdlc_parse-head dest src rest tail control n c d e l a b =
    let z = c ∷ d ∷ hdlc_flag ∷ [] in
    let buf = hdlc_flag ∷ hdlc_format_type_a ∷ n ∷ (rest ++ z) in
    let one : rest ++ z ≡ dest ++ ((src ++ (control ∷ tail)) ++ z) =
      ap (λ t. t ++ z) e ∙ append_assoc dest (src ++ (control ∷ tail)) z in
    let two : (src ++ (control ∷ tail)) ++ z ≡ src ++ (control ∷ (tail ++ z)) =
      append_assoc src (control ∷ tail) z in
    let whole : rest ++ z ≡ dest ++ (src ++ (control ∷ (tail ++ z))) =
      one ∙ ap (λ t. dest ++ t) two in
    let behind_dest =
      drop_over buf dest (src ++ (control ∷ (tail ++ z))) 3 (3 + length dest) whole (omega arith) in
    let behind_src =
      drop_over buf src (control ∷ (tail ++ z)) (3 + length dest) ((3 + length dest) + length src)
        behind_dest (omega arith) in
    let size : length (rest ++ z) ≡ length rest + 3 = length-append rest z in
    let sizes : length rest ≡ length dest + (length src + suc (length tail)) = omega (
      arith,
      ap length e,
      length-append dest (src ++ (control ∷ tail)),
      length-append src (control ∷ tail),
    ) in
    let last =
      get_or-append_at (hdlc_flag ∷ hdlc_format_type_a ∷ n ∷ rest) z (length buf - 1) 2
        (omega arith) in
    let read_dest =
      parse_address_at buf (length buf - 3) 3 dest (src ++ (control ∷ (tail ++ z))) a whole
        (omega arith) in
    let read_src =
      parse_address_at buf (length buf - 3) (3 + length dest) src (control ∷ (tail ++ z)) b
        behind_dest (omega arith) in
    let end : length buf - 3 ≡ suc (suc (length rest)) + 1 = omega arith in
    let three = nonempty dest a in
    let more = nonempty src b in
    (
      at_drop buf ((3 + length dest) + length src) control (tail ++ z) behind_src,
      parse_known buf dest src n (3 + length dest) ((3 + length dest) + length src) (omega arith)
            refl refl refl last (omega arith) read_dest read_src
          ∙ ap (λ t. parse_body buf t dest src ((3 + length dest) + length src)) end,
    )

frame_header_bytes :
    (dest src info : List ℕ) (control : ℕ)
    → IsAddress dest
    → IsAddress src
    → length info ≤ hdlc_info_max
    → frame_header dest src control info
      ≡ hdlc_format_type_a ∷ frame_length dest src info ∷ (dest ++ (src ++ (control ∷ [])))
frame_header_bytes dest src info control v w l =
    let n = frame_length dest src info in
    let small : n < 256 = ground (arith, v.size, w.size) in
    let high : n / 256 ≡ 0 = omega arith in
    let low : bit_and n 0xFF ≡ n = omega (arith, bit_and_ff n) in rw (high, low) refl

-- Behind its header a frame carries nothing, or a check sequence and its information.
abbrev header : HdlcAddress → HdlcAddress → ℕ → List ℕ → List ℕ
header dest src control info =
    hdlc_format_type_a ∷ frame_length dest src info ∷ (dest ++ (src ++ (control ∷ [])))

length-header :
    (dest src info : List ℕ) (control : ℕ)
    → length (header dest src control info) ≡ (3 + length dest) + length src
length-header dest src info control =
    omega (arith, length-append dest (src ++ (control ∷ [])), length-append src (control ∷ []))

round_trip_plain :
    (dest src : List ℕ) (control : ℕ)
    → IsAddress dest
    → IsAddress src
    → let h = header dest src control [] in
      hdlc_parse_frame (hdlc_flag ∷ (h ++ (check_bytes (hdlc_fcs h) ++ (hdlc_flag ∷ []))))
      ≡ some (frame_of dest src control [])
round_trip_plain dest src control v w =
    let h = header dest src control [] in
    let size = length-header dest src [] control in
    let (c, p) =
      hdlc_parse-head dest src (dest ++ (src ++ (control ∷ []))) [] control
        (frame_length dest src []) (bit_and (hdlc_fcs h) 0xFF) (hdlc_fcs h / 256) refl
        (omega (arith, size)) v w in
    p ∙ parse_body_plain dest src h control ((3 + length dest) + length src) (sym size) c

round_trip_info :
    (dest src info : List ℕ) (control : ℕ)
    → IsAddress dest
    → IsAddress src
    → 0 < length info
    → let h = header dest src control info in
      let body = h ++ (check_bytes (hdlc_fcs h) ++ info) in
      hdlc_parse_frame (hdlc_flag ∷ (body ++ (check_bytes (hdlc_fcs body) ++ (hdlc_flag ∷ []))))
      ≡ some (frame_of dest src control info)
round_trip_info dest src info control v w l =
    let h = header dest src control info in
    let size = length-header dest src info control in
    let q = check_bytes (hdlc_fcs h) ++ info in
    let body = h ++ q in
    let spread : (dest ++ (src ++ (control ∷ []))) ++ q ≡ dest ++ (src ++ (control ∷ q)) =
      append_assoc dest (src ++ (control ∷ [])) q
      ∙ ap (λ t. dest ++ t) (append_assoc src (control ∷ []) q) in
    let (c, p) =
      hdlc_parse-head dest src ((dest ++ (src ++ (control ∷ []))) ++ q) q control
        (frame_length dest src info) (bit_and (hdlc_fcs body) 0xFF) (hdlc_fcs body / 256) spread
        (ground (arith, size, length-append h q)) v w in
    p ∙ parse_body_info dest src h info control ((3 + length dest) + length src) (sym size) c l

-- What hdlcBuildFrame encloses in flags, behind its check sequence.
abbrev sealed : List ℕ → List ℕ
sealed body = hdlc_flag ∷ (body ++ (check_bytes (hdlc_fcs body) ++ (hdlc_flag ∷ [])))

abbrev with_info : List ℕ → List ℕ → List ℕ
with_info info h = h ++ (check_bytes (hdlc_fcs h) ++ info)

hdlc_build_frame-some :
    (dest src info b : List ℕ) (control : ℕ)
    → 0 < length info
    → hdlc_build_frame dest src control info ≡ some b
    → (length info ≤ hdlc_info_max)
      × (b ≡ sealed (with_info info (frame_header dest src control info)))
unfolding hdlc_build_frame
hdlc_build_frame-some dest src info b control l e = ground arith

-- A frame that hdlcBuildFrame builds, to and from addresses as the wire has them, is parsed back to
-- the same addresses, control byte and information.
pub hdlc_parse_frame-hdlc_build_frame :
    (dest src info b : List ℕ) (control : ℕ)
    → IsAddress dest
    → IsAddress src
    → hdlc_build_frame dest src control info ≡ some b
    → hdlc_parse_frame b ≡ some (record { dest = dest; src = src; control = control; info = info })
unfolding hdlc_build_frame
hdlc_parse_frame-hdlc_build_frame dest src [] b control v w e =
    let h = frame_header_bytes dest src [] control v w (omega arith) in
    let built : sealed (header dest src control []) ≡ b = sym (ap sealed h) ∙ ground arith in
    ap hdlc_parse_frame (sym built) ∙ round_trip_plain dest src control v w
hdlc_parse_frame-hdlc_build_frame dest src (x ∷ info) b control v w e =
    let (l, built) = hdlc_build_frame-some dest src (x ∷ info) b control (omega arith) e in
    let h = frame_header_bytes dest src (x ∷ info) control v w l in
    ap hdlc_parse_frame (built ∙ ap (λ t. sealed (with_info (x ∷ info) t)) h)
    ∙ round_trip_info dest src (x ∷ info) control v w (omega arith)
