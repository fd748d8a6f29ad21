-- ===== src/Dlms/Frames/Bounds.antt =====
-- dlms_cosem.cpp, readFrame: what the hunt keeps in its buffer, and what it returns.
use io_t_firmware.Base.{
  ℕ, ◌+◌, ◌≤◌, ◌<◌, bit_and, ◌≡◌, refl, sym, ap, ◌∙◌, inl, inr, true, not, ◌&&◌, ◌||◌, some, List,
  [], ◌∷◌, ◌++◌, arith, ltb, ◌==◌, if◌then◌else◌, Bool-cases, Option-cases, if_either, length,
  get_or, length-append, get_or-append, u8, sub32,
}
use io_t_firmware.Hdlc.{hdlc_format_type_a, hdlc_flag, hdlc_frame_max}
use io_t_firmware.Dlms.Frames.{
  Poll, Hunt, restart, keep, length_field, store_byte, hunt_byte, complete, read_loop, read_frame,
  dlms_timeout,
}

-- What the hunt holds: nothing, or a frame's beginning whose length field, once it is there, is that
-- of a frame that fits the buffer.
record IsHunt (h : Hunt) : Type 0 where
  flagged : 0 < length h.buf → get_or h.buf 0 0 ≡ hdlc_flag
  sized : 3 ≤ length h.buf → h.total ≡ length_field h.buf + 2
  least : 3 ≤ length h.buf → 9 ≤ h.total
  fits : 3 ≤ length h.buf → h.total ≤ hdlc_frame_max
  whole : 3 ≤ length h.buf → length h.buf ≤ h.total

length_field-append : (xs ys : List ℕ) → 3 ≤ length xs → length_field (xs ++ ys) ≡ length_field xs
length_field-append [] ys h = absurd (omega arith)
length_field-append (a ∷ []) ys h = absurd (omega arith)
length_field-append (a ∷ b ∷ []) ys h = absurd (omega arith)
length_field-append (a ∷ b ∷ c ∷ xs) ys h = refl

head-append : (xs ys : List ℕ) → 0 < length xs → get_or (xs ++ ys) 0 0 ≡ get_or xs 0 0
head-append [] ys h = absurd (omega arith)
head-append (a ∷ xs) ys h = refl

restart-IsHunt : (h : Hunt) → IsHunt (restart h)
restart-IsHunt h = record {
  flagged = λ k. absurd (omega arith);
  sized = λ k. absurd (omega arith);
  least = λ k. absurd (omega arith);
  fits = λ k. absurd (omega arith);
  whole = λ k. absurd (omega arith);
}

store_byte-IsHunt :
    (b : ℕ) (h : Hunt)
    → IsHunt h
    → 0 < length h.buf
    → (3 ≤ length h.buf → length h.buf < h.total)
    → IsHunt (store_byte b h)
unfolding store_byte
store_byte-IsHunt b h v p q =
    let k = keep b h in
    let n = length_field k.buf in
    let more : length k.buf ≡ length h.buf + 1 = length-append h.buf (b ∷ []) in
    let flag = head-append h.buf (b ∷ []) p ∙ v.flagged p in
    let same = length_field-append h.buf (b ∷ []) in
    let sized : Hunt = record k { total = n + 2 } in
    if_either IsHunt (not (length k.buf == 3))
      (λ e.
        let u : ¬ (length k.buf ≡ 3) = ground arith in
        record {
          flagged = λ _. flag;
          sized = λ m. v.sized (omega arith) ∙ ap (λ x. x + 2) (sym (same (omega arith)));
          least = λ m. v.least (omega arith);
          fits = λ m. v.fits (omega arith);
          whole = λ m. omega (arith, q (omega arith));
        })
      (λ e.
        if_either IsHunt (ltb n 7 || ltb hdlc_frame_max (n + 2)) {y = sized} (λ _. restart-IsHunt k)
          (λ m. record {
            flagged = λ _. flag;
            sized = λ _. refl;
            least = λ _. ground arith;
            fits = λ _. ground arith;
            whole = λ _. ground arith;
          }))

first-IsHunt : (b : ℕ) (h : Hunt) → length h.buf ≡ 0 → b ≡ hdlc_flag → IsHunt (keep b h)
first-IsHunt b h e f =
    let more : length (keep b h).buf ≡ length h.buf + 1 = length-append h.buf (b ∷ []) in
    record {
      flagged = λ _. ap (λ i. get_or (h.buf ++ (b ∷ [])) i 0) (sym e) ∙ get_or-append h.buf b 0 ∙ f;
      sized = λ k. absurd (omega arith);
      least = λ k. absurd (omega arith);
      fits = λ k. absurd (omega arith);
      whole = λ k. absurd (omega arith);
    }

hunt_byte-IsHunt :
    (b : ℕ) (h : Hunt)
    → IsHunt h
    → (3 ≤ length h.buf → length h.buf < h.total)
    → IsHunt (hunt_byte b h)
unfolding hunt_byte
hunt_byte-IsHunt b h v q =
    let bad = length h.buf == 1 && not (bit_and b 0xF0 == bit_and hdlc_format_type_a 0xF0) in
    if_either IsHunt (length h.buf == 0)
      (λ e.
        if_either IsHunt (b == hdlc_flag) (λ f. first-IsHunt b h (ground arith) (ground arith))
          (λ _. v))
      (λ e.
        if_either IsHunt (length h.buf == 1 && b == hdlc_flag)
          {y = if bad then restart h else store_byte b h} (λ _. v)
          (λ _.
            if_either IsHunt bad (λ _. restart-IsHunt h)
              (λ _. store_byte-IsHunt b h v (ground arith) q)))

-- What readFrame returns: a flag, and as many bytes as the length field gives, which are at least 9
-- and fit a buffer of HDLC_FRAME_MAX.
pub record IsRead (buf : List ℕ) : Type 0 where
  flag_first : get_or buf 0 0 ≡ hdlc_flag
  as_announced : length buf ≡ length_field buf + 2
  at_least : 9 ≤ length buf
  in_buffer : length buf ≤ hdlc_frame_max

complete-IsRead : (h : Hunt) → IsHunt h → complete h ≡ true → IsRead h.buf
complete-IsRead h v e =
    let big : 3 ≤ length h.buf = ground arith in
    let full : length h.buf ≡ h.total = ground arith in
    record {
      flag_first = v.flagged (omega arith);
      as_announced = full ∙ v.sized big;
      at_least = omega (arith, v.least big);
      in_buffer = omega (arith, v.fits big);
    }

read_loop-IsRead :
    (start : ℕ) (ps : List Poll) (h : Hunt) (buf : List ℕ)
    → IsHunt h
    → (3 ≤ length h.buf → length h.buf < h.total)
    → read_loop start ps h ≡ some buf
    → IsRead buf
unfolding read_loop
read_loop-IsRead start [] h buf v q e = absurd (ground arith)
read_loop-IsRead start (p ∷ ps) h buf v q e =
    elim (Bool-cases (ltb (sub32 p.ms start) dlms_timeout)) [
      | inr t ↦ absurd (ground arith)
      | inl t ↦ elim (Option-cases p.byte) [
        | inl n ↦ read_loop-IsRead start ps h buf v q (ground arith)
        | inr (b, n) ↦
            let k = hunt_byte (u8 b) h in
            let w = hunt_byte-IsHunt (u8 b) h v q in
            elim (Bool-cases (complete k)) [
              | inl c ↦ let found : k.buf ≡ buf = ground arith in rw⁻¹ found (complete-IsRead k w c)
              | inr c ↦
                  read_loop-IsRead start ps k buf w (λ m. let le = w.whole m in ground arith)
                    (ground arith)
            ]
      ]
    ]

-- A frame that readFrame returns starts with a flag, has the length that its length field gives, and
-- fits the buffer.
pub read_frame-IsRead :
    (start : ℕ) (ps : List Poll) (buf : List ℕ) → read_frame start ps ≡ some buf → IsRead buf
unfolding read_frame
read_frame-IsRead start ps buf e =
    let h : Hunt = record { buf = []; total = 0 } in
    read_loop-IsRead start ps h buf (restart-IsHunt h) (λ k. absurd (omega arith)) e
