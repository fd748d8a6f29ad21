-- ===== src/Iec62056/Speed.antt =====
-- lib/protocols/iec62056_21/iec62056_21.cpp: the speed of the line. The head keeps the rate that it was
-- last set to, so the rate at which a message goes out follows from the commands before it.
use io_t_firmware.Base.{
  ℕ, ◌≡◌, refl, sym, ap, ◌∙◌, false, List, [], ◌∷◌, ◌++◌, arith, ◌==◌, if_either, All, All-append,
}
use io_t_firmware.Iec62056.{exporting}
use io_t_firmware.Iec62056.{
  probing, importing, call, calls, acknowledge, Call, read_block, data_timeout_ms, start_baud, Wait,
  Reader, Command, set_baud_rate, send, read_until, Code, agreed, no_answer, malformed,
  unknown_baud, Identified, request, block_end, restart, request_identification, handshake, ReadAir,
  probe, import_block, get_import,
}

-- The head's rate behind a list of commands.
abbrev pub rate_after : ℕ → List Command → ℕ
rate_after rate [] = rate
rate_after rate (set_baud_rate b ∷ cs) = rate_after b cs
rate_after rate (send m ∷ cs) = rate_after rate cs

-- The rates at which the messages of a list of commands go out.
abbrev pub send_rates : ℕ → List Command → List ℕ
send_rates rate [] = []
send_rates rate (set_baud_rate b ∷ cs) = send_rates b cs
send_rates rate (send m ∷ cs) = rate ∷ send_rates rate cs

rate_after-append :
    (rate : ℕ) (cs ds : List Command)
    → rate_after rate (cs ++ ds) ≡ rate_after (rate_after rate cs) ds
rate_after-append rate [] ds = refl
rate_after-append rate (set_baud_rate b ∷ cs) ds = rate_after-append b cs ds
rate_after-append rate (send m ∷ cs) ds = rate_after-append rate cs ds

send_rates-append :
    (rate : ℕ) (cs ds : List Command)
    → send_rates rate (cs ++ ds) ≡ send_rates rate cs ++ send_rates (rate_after rate cs) ds
send_rates-append rate [] ds = refl
send_rates-append rate (set_baud_rate b ∷ cs) ds = send_rates-append b cs ds
send_rates-append rate (send m ∷ cs) ds = ap (λ t. rate ∷ t) (send_rates-append rate cs ds)

-- Commands issued to a head at one rate that leave it at another, and send at the starting rate only.
record Keeps (from : ℕ) (cs : List Command) (to : ℕ) : Type 0 where
  left_at : rate_after from cs ≡ to
  slow : All (λ b. b ≡ start_baud) (send_rates from cs)

Keeps-append :
    (a b c : ℕ) (cs ds : List Command) → Keeps a cs b → Keeps b ds c → Keeps a (cs ++ ds) c
Keeps-append a b c cs ds k l = record {
  left_at = rate_after-append a cs ds ∙ ap (λ t. rate_after t ds) k.left_at ∙ l.left_at;
  slow =
      rw (send_rates-append a cs ds, k.left_at)
        (All-append (λ t. t ≡ start_baud) (send_rates a cs) (send_rates b ds) k.slow l.slow);
}

restart-Keeps :
    (r : Reader)
    → Keeps r.current_baud (restart r).0 start_baud × ((restart r).1.current_baud ≡ start_baud)
unfolding restart
restart-Keeps r =
    if_either
      (λ (o : List Command × Reader).
        Keeps r.current_baud o.0 start_baud × (o.1.current_baud ≡ start_baud))
      (r.current_baud == start_baud)
      (λ e.
        let same : r.current_baud ≡ start_baud = ground arith in
        (record { left_at = same; slow = tt }, same))
      (λ e. (record { left_at = refl; slow = tt }, refl))

request_identification-Keeps :
    (a b : Wait) (r : Reader)
    → let (cs, i, r') = request_identification a b r in
      Keeps r.current_baud cs start_baud × (r'.current_baud ≡ start_baud)
unfolding request_identification
request_identification-Keeps a b r =
    let (k, e) = restart-Keeps r in
    (
      Keeps-append r.current_baud start_baud start_baud (restart r).0 (send request ∷ []) k
          (record { left_at = refl; slow = (refl, tt) }),
      e,
    )

acknowledge-Keeps :
    (c : Code) (i : Identified) (r : Reader)
    → r.current_baud ≡ start_baud
    → let (cs, h, r') = acknowledge c i r in Keeps start_baud cs r'.current_baud
unfolding acknowledge
acknowledge-Keeps agreed i r e = record { left_at = refl; slow = (refl, tt) }
acknowledge-Keeps no_answer i r e = record { left_at = sym e; slow = tt }
acknowledge-Keeps malformed i r e = record { left_at = sym e; slow = tt }
acknowledge-Keeps unknown_baud i r e = record { left_at = sym e; slow = tt }

handshake-Keeps :
    (a b : Wait) (r : Reader)
    → let (cs, h, r') = handshake a b r in Keeps r.current_baud cs r'.current_baud
unfolding handshake
handshake-Keeps a b r =
    let (k, e) = request_identification-Keeps a b r in
    let (asked, i, r') = request_identification a b r in
    let (answered, h, r'') = acknowledge i.code i r' in
    Keeps-append r.current_baud start_baud r''.current_baud asked answered k
      (acknowledge-Keeps i.code i r' e)

module _ (strtof : List ℕ → ℕ × ℕ) where
  import_block_baud :
      (tail : Wait) (block : List ℕ) (r : Reader)
      → (import_block strtof tail block r).1.current_baud ≡ r.current_baud
  unfolding import_block
  import_block_baud tail block r = ground arith

  read_block_baud :
      (c : Code) (air : ReadAir) (r : Reader)
      → (read_block strtof c air r).1.current_baud ≡ r.current_baud
  unfolding read_block
  read_block_baud agreed air r =
      import_block_baud air.tail (read_until block_end data_timeout_ms air.data_block) r
  read_block_baud no_answer air r = refl
  read_block_baud malformed air r = refl
  read_block_baud unknown_baud air r = refl

  call-Keeps :
      (c : Call) (r : Reader)
      → let (cs, r') = call strtof c r in Keeps r.current_baud cs r'.current_baud
  unfolding get_import probe
  call-Keeps (importing air) r =
      let r₀ : Reader = record r { export_valid = false } in
      let (cs, h, r') = handshake air.first air.second r₀ in
      let same = read_block_baud h.0 air r' in rw same (handshake-Keeps air.first air.second r₀)
  call-Keeps exporting r = record { left_at = refl; slow = tt }
  call-Keeps (probing a b) r = let (k, e) = request_identification-Keeps a b r in rw e k

  calls-Keeps :
      (cs : List Call) (r : Reader)
      → let (ds, r') = calls strtof cs r in Keeps r.current_baud ds r'.current_baud
  unfolding calls
  calls-Keeps [] r = record { left_at = refl; slow = tt }
  calls-Keeps (c ∷ cs) r =
      let (ds, r') = call strtof c r in
      let (es, r'') = calls strtof cs r' in
      Keeps-append r.current_baud r'.current_baud r''.current_baud ds es (call-Keeps c r)
        (calls-Keeps cs r')

  -- From a head that stands at the rate that the reader has noted, any sequence of reads and probes
  -- sends every one of its messages at 300 baud, and leaves the head at the rate that it has noted.
  pub calls_keep_the_speed :
      (cs : List Call) (r : Reader)
      → let (ds, r') = calls strtof cs r in
        All (λ b. b ≡ start_baud) (send_rates r.current_baud ds)
        × (rate_after r.current_baud ds ≡ r'.current_baud)
  calls_keep_the_speed cs r = let k = calls-Keeps cs r in (k.slow, k.left_at)
