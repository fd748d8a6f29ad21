-- ===== src/Dlms/Session/Closing.antt =====
-- dlms_cosem.cpp: how a session ends, and the sequence numbers of exchange.
use io_t_firmware.Base.{
  ℕ, ◌+◌, ◌%◌, bit_and, ◌≡◌, refl, ap, ap₂, ◌∙◌, ◌⊎◌, inl, inr, not, Option, none, some, List, [],
  ◌∷◌, ◌++◌, arith, ltb, ◌==◌, Option-cases, if_both, bit_and_7, length,
}
use io_t_firmware.Hdlc.{hdlc_build_frame, HdlcFrame}
use io_t_firmware.Dlms.{dlms_apdu_max, llc_send}
use io_t_firmware.Dlms.Session.{
  DlmsCosemReader, Session, Step, ◌then_do◌, turn_frame, accept_reply, exchange, i_frame_control,
  hdlc_disc, hdlc_pf, disconnect, connect, in_session, read_register, read_associated, probe,
  associate,
}

-- The reader after an exchange: as it was, behind a failure; with both counters advanced by one,
-- modulo 8, behind an answer.
pub data Counted (d : DlmsCosemReader) : Option (List ℕ) × Session → Type 0 where
  kept : (t : Session) → t.reader ≡ d → Counted d (none, t)
  advanced :
      (resp : List ℕ) (t : Session)
      → t.reader ≡ record d { vs = (d.vs + 1) % 8; vr = (d.vr + 1) % 8 }
      → Counted d (some resp, t)

then_do-Counted :
    {A : Type 0} (d : DlmsCosemReader) (x : Option A × Session) (k : A → Step (List ℕ))
    → x.1.reader ≡ d
    → ((a : A) (t : Session) → t.reader ≡ d → Counted d (k a t))
    → Counted d (x then_do k)
then_do-Counted d (none, t) k h c = kept t h
then_do-Counted d (some a, t) k h c = c a t h

-- Both counters advanced, as the code masks them.
abbrev advance : DlmsCosemReader → DlmsCosemReader
advance e = record e { vs = bit_and (e.vs + 1) 0x07; vr = bit_and (e.vr + 1) 0x07 }

abbrev numbered : DlmsCosemReader → ℕ → ℕ → DlmsCosemReader
numbered e v w = record e { vs = v; vr = w }

accept_reply-Counted :
    (d : DlmsCosemReader) (f : HdlcFrame) (t : Session)
    → t.reader ≡ d
    → Counted d (accept_reply f t)
unfolding accept_reply
accept_reply-Counted d f t h =
    let P = Counted d in
    let no = kept t h in
    let yes_counted =
      ap advance h ∙ ap₂ (numbered d) (bit_and_7 (d.vs + 1)) (bit_and_7 (d.vr + 1)) in
    if_both P (not (bit_and f.control 1 == 0)) no (
      if_both P (bit_and f.control hdlc_pf == 0) no
        (if_both P _ no (if_both P _ no (advanced _ _ yes_counted))))

turn_frame-reader :
    (control : ℕ) (info : List ℕ) (s : Session) → (turn_frame control info s).1.reader ≡ s.reader
unfolding turn_frame
turn_frame-reader control info s = ground arith

-- exchange either fails and leaves the reader, or it returns an answer and advances both sequence
-- counters by one, modulo 8.
pub exchange-Counted : (apdu : List ℕ) (s : Session) → Counted s.reader (exchange apdu s)
unfolding exchange
exchange-Counted apdu s =
    if_both (Counted s.reader) (ltb dlms_apdu_max (length apdu)) (kept s refl) (
      then_do-Counted s.reader (turn_frame (i_frame_control s.reader) (llc_send ++ apdu) s)
        accept_reply (turn_frame-reader (i_frame_control s.reader) (llc_send ++ apdu) s)
        (accept_reply-Counted s.reader))

turn_frame-sent :
    (control : ℕ) (info b : List ℕ) (s : Session)
    → hdlc_build_frame s.reader.server s.reader.client control info ≡ some b
    → (turn_frame control info s).1.sent ≡ s.sent ++ (b ∷ [])
unfolding turn_frame
turn_frame-sent control info b s e = ground arith

disc_frame-built :
    (d : DlmsCosemReader)
    → (b : List ℕ) × (hdlc_build_frame d.server d.client hdlc_disc [] ≡ some b)
unfolding hdlc_build_frame
disc_frame-built d = (_, refl)

-- A session `o` that did the work `w` and then sent DISC: its result is that of the work, and one
-- frame, the DISC from the client to the server, is sent behind those of the work.
pub record Closed {A : Type 0} (w o : Option A × Session) : Type 0 where
  pub result : o.0 ≡ w.0
  pub closing :
      (b : List ℕ) × (hdlc_build_frame w.1.reader.server w.1.reader.client hdlc_disc [] ≡ some b)
      × (o.1.sent ≡ w.1.sent ++ (b ∷ []))

disconnect-sent :
    (s : Session) (b : List ℕ)
    → hdlc_build_frame s.reader.server s.reader.client hdlc_disc [] ≡ some b
    → (disconnect s).1.sent ≡ s.sent ++ (b ∷ [])
unfolding disconnect
disconnect-sent s b e = let h = turn_frame-sent hdlc_disc [] b s e in ground arith

work-closes : {A : Type 0} (w : Option A × Session) → Closed w (w.0, (disconnect w.1).1)
work-closes w =
    let (b, e) = disc_frame-built w.1.reader in
    record { result = refl; closing = (b, e, disconnect-sent w.1 b e) }

-- What a session is, by the way its connect ends.
abbrev pub IsSession : {A : Type 0} → Step A → Session → Option A × Session → Type 0
IsSession work s o =
    (((connect s).0 ≡ none) × (o ≡ (none, (connect s).1)))
    ⊎ (((connect s).0 ≡ some tt) × Closed (work (connect s).1) o)

in_session-closes :
    {A : Type 0} (work : Step A) (s : Session) → IsSession work s (in_session work s)
in_session-closes work s = elim (Option-cases (connect s).0) [
  | inl e ↦ inl (e, rw e refl)
  | inr (tt, e) ↦ inr (e, rw e (work-closes (work (connect s).1)))
]

-- A read of a register whose connect fails does no more; one whose link came up gives the result of
-- its reads, and sends one DISC frame behind them, even when they failed.
pub read_register-closes :
    (obis : List ℕ) (unit : ℕ) (s : Session)
    → IsSession (read_associated obis unit) s (read_register obis unit s)
unfolding read_register
read_register-closes obis unit s = in_session-closes (read_associated obis unit) s

pub probe-closes : (s : Session) → IsSession associate s (probe s)
unfolding probe
probe-closes s = in_session-closes associate s
