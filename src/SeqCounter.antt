-- ===== src/SeqCounter.antt =====
-- lib/buffering/seq_counter/seq_counter.cpp: the counter of readings, kept in its own namespace of the
-- flash over the Preferences library as a parameter, and what becomes of it over restarts of a node.
pub mod Persist
pub mod Delivered
use io_t_firmware.Base.{ℕ, ◌+◌, Bool, true, false, not, List, [], ◌∷◌, ◌++◌, if◌then◌else◌, codes}
use io_t_firmware.NvsConfig.{Preferences}
use io_t_firmware.Node.{seq_next}

-- SEQ_KEY
abbrev pub seq_key : List ℕ
seq_key = codes "seq"

-- What happens to a node: a call of seqNext, another call of seqCounterBegin, a restart between two
-- calls, and one in a call of seqNext, behind its write, so that its number is never used.
pub data Life : Type 0 where
  called : Life
  begun_again : Life
  restarted : Life
  cut_off : Life

module _ (P : Preferences) where
  -- The flash of the namespace "runtime", whether `prefs` is open, and `seq`.
  pub record SeqCounter : Type 0 where
    pub flash : P.Store
    pub opened : Bool
    pub seq : ℕ

  -- The variables of the file as the program starts.
  abbrev pub powered_on : P.Store → SeqCounter
  powered_on s = record { flash = s; opened = false; seq = 0 }

  -- seqCounterBegin: it closes `prefs` first.
  unfoldable pub begin : SeqCounter → Bool × SeqCounter
  begin c =
      let closed : SeqCounter = record c { opened = false } in
      if not (P.begin c.flash)
      then (false, closed)
      else (true, record closed { opened = true; seq = P.get_uint seq_key 0 c.flash })

  -- seqNext; a write through `prefs` that is not open does nothing.
  unfoldable pub next : SeqCounter → ℕ × SeqCounter
  next c =
      let n = seq_next c.seq in
      let written = if c.opened then (P.put_uint seq_key n c.flash).1 else c.flash in
      (n, record c { flash = written; seq = n })

  abbrev pub boot : P.Store → SeqCounter
  boot s = (begin (powered_on s)).1

  -- The numbers handed out, and the counter behind.
  unfoldable pub live : Life → SeqCounter → List ℕ × SeqCounter
  live called c = let (n, c') = next c in (n ∷ [], c')
  live begun_again c = ([], (begin c).1)
  live restarted c = ([], boot c.flash)
  live cut_off c = ([], boot (next c).1.flash)

  unfoldable pub handed_out : List Life → SeqCounter → List ℕ
  handed_out [] c = []
  handed_out (x ∷ xs) c = (live x c).0 ++ handed_out xs (live x c).1
