-- ===== src/Iec62056/Heard.antt =====
-- lib/protocols/iec62056_21/iec62056_21.cpp, readUntil: a message that comes in time is heard whole.
use mathlib.Core.List.{append_assoc}
use io_t_firmware.Base.{
  ℕ, ◌+◌, ◌<◌, ◌≡◌, refl, ◌∙◌, inl, inr, Bool, true, false, ◌&&◌, Option, some, List, [], ◌∷◌, ◌++◌,
  map, arith, ltb, ◌==◌, if◌then◌else◌, Bool-cases, length, All, u8, u32,
}
use io_t_firmware.Dlms.Frames.{Poll}
use io_t_firmware.Iec62056.Receive.{ends_with, read_until_loop, read_until}

-- The polls of a wait: the times of its rounds, and what readByte() gives in them.
abbrev pub polls_at : List ℕ → List (Option ℕ) → List Poll
polls_at [] bs = []
polls_at (t ∷ ts) [] = []
polls_at (t ∷ ts) (b ∷ bs) = record { ms = t; byte = b } ∷ polls_at ts bs

-- Behind `acc`, a message of bytes ends at the first place where the terminator stands.
unfoldable pub ends_first : List ℕ → List ℕ → List ℕ → Bool
ends_first terminator acc [] = false
ends_first terminator acc (b ∷ bs) =
    let longer = acc ++ (b ∷ []) in
    let on = ends_first terminator longer bs in
    ltb b 256 && (if ends_with terminator longer then length bs == 0 else on)

length-eq-zero : (bs : List ℕ) → length bs ≡ 0 → bs ≡ []
length-eq-zero [] h = refl
length-eq-zero (b ∷ bs) h = absurd (omega arith)

read_until_loop_heard :
    (terminator acc message ts : List ℕ) (deadline : ℕ)
    → All (λ t. t < deadline) ts
    → length ts ≡ length message
    → ends_first terminator acc message ≡ true
    → read_until_loop terminator deadline (polls_at ts (map some message)) acc ≡ acc ++ message
unfolding read_until_loop ends_first
read_until_loop_heard terminator acc [] ts deadline a l e = absurd (ground arith)
read_until_loop_heard terminator acc (b ∷ bs) [] deadline a l e = absurd (omega arith)
read_until_loop_heard terminator acc (b ∷ bs) (t ∷ ts) deadline a l e =
    let longer = acc ++ (b ∷ []) in
    let in_time : ltb t deadline ≡ true = ground arith in
    let byte : u8 b ≡ b = ground arith in
    elim (Bool-cases (ends_with terminator longer)) [
      | inl stop ↦
          let last : (length bs == 0) ≡ true = ground arith in
          let empty : bs ≡ [] = length-eq-zero bs (ground arith) in
          rw (in_time, byte, stop, empty) refl
      | inr go ↦
          let rest : ends_first terminator longer bs ≡ true = ground arith in
          let ih = read_until_loop_heard terminator longer bs ts deadline a.1 (omega arith) rest in
          rw (in_time, byte, go) (ih ∙ append_assoc acc (b ∷ []) bs)
    ]

-- A message that comes in time, and in which the terminator stands at the end only, is heard whole.
pub read_until_heard :
    (terminator message ts : List ℕ) (timeout_ms start : ℕ)
    → All (λ t. t < u32 (start + timeout_ms)) ts
    → length ts ≡ length message
    → ends_first terminator [] message ≡ true
    → read_until terminator timeout_ms
        (record { start = start; polls = polls_at ts (map some message) })
      ≡ message
read_until_heard terminator message ts timeout_ms start a l e =
    read_until_loop_heard terminator [] message ts (u32 (start + timeout_ms)) a l e
