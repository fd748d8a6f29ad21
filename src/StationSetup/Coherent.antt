-- ===== src/StationSetup/Coherent.antt =====
-- src/nodes/substation.cpp and src/lora_main.cpp: a substation from its start on.
use io_t_firmware.Base.{
  ap, ℕ, ◌≡◌, refl, ◌∙◌, ◌⊎◌, inl, inr, Bool, true, false, not, List, [], ◌∷◌, arith, if_both, u32,
}
use io_t_firmware.Config.{SubstationConfig}
use io_t_firmware.NvsConfig.{Preferences}
use io_t_firmware.NvsConfig.Console.{poll_serial, Reply, Console}
use io_t_firmware.NvsConfig.Loaders.{load_substation_config, Target}
use io_t_firmware.Wire.{Payload}
use io_t_firmware.Buffer
use io_t_firmware.Buffer.Preserve.{clear-IsValid}
use io_t_firmware.LoraLink.{idle}
use io_t_firmware.Substation.{Substation, Sent, Tick, substation_loop}
use io_t_firmware.Substation.Relay.{IsCoherent}
use io_t_firmware.Substation.Loop.{substation_loop-IsCoherent}
use io_t_firmware.StationSetup.{StationReports, substation_setup, StationBoard, station_board_loop}

-- The variables of the file as the program starts.
abbrev pub powered_on : Payload → Substation
powered_on p = record {
  joined = [];
  epoch = 0;
  next_beacon_at = 0;
  next_send_at = 0;
  in_flight = p;
  ready = false;
  buffer = Buffer.clear;
  lora = record { pending = p; attempt = 0; phase = idle; phase_start = 0 };
}

powered_on-IsCoherent : (p : Payload) → IsCoherent (powered_on p)
powered_on-IsCoherent p = record {
  buffer_valid = clear-IsValid;
  table = record { bounded = omega arith; distinct = tt };
  sends = λ ne. absurd (ne refl);
  holds = λ ne. absurd (ne refl);
}

-- Coherence says nothing of the epoch and of whether the station is ready.
restarted-IsCoherent :
    (s : Substation) (e : ℕ) (b : Bool)
    → IsCoherent s
    → IsCoherent (record s { epoch = e; ready = b })
restarted-IsCoherent s e b v = record {
  buffer_valid = v.buffer_valid;
  table = v.table;
  sends = v.sends;
  holds = v.holds;
}

-- The set-up leaves the station alone, or gives it an epoch and makes it ready.
abbrev pub IsSetUp : ℕ → Substation → SubstationConfig × Substation → Type 0
IsSetUp e s o = (o.1 ≡ s) ⊎ (o.1 ≡ record s { epoch = e; ready = true })

setup-IsSetUp :
    (P : Preferences) (target : Target) (x : StationReports) (cfg : SubstationConfig)
    (store : P.Store)
    → (s : Substation) → IsSetUp (u32 x.random) s (substation_setup P target x cfg store s)
unfolding substation_setup
setup-IsSetUp P target x cfg store s =
    let Q = IsSetUp (u32 x.random) s in
    if_both Q (not (load_substation_config P target cfg store).0) (inl refl) (
      if_both Q (not x.radio_ok) (inl refl) (
        if_both Q (not x.link_ok) (inl refl) (
          if_both Q (not x.uplink_ok) (inl refl)
            (if_both Q (not x.peer_ok) (inl refl) (inr refl)))))

module _ {P : Preferences} where
  -- The passes of the board's loop, with what is typed and what the radios do in each.
  abbrev pub station_rounds : List (List ℕ × Tick) → StationBoard P → StationBoard P
  station_rounds [] b = b
  station_rounds ((bytes, t) ∷ xs) b = station_rounds xs (station_board_loop bytes t b).2

  board_loop-IsCoherent :
      (bytes : List ℕ) (t : Tick) (b : StationBoard P)
      → IsCoherent b.station
      → IsCoherent (station_board_loop bytes t b).2.station
  unfolding station_board_loop
  board_loop-IsCoherent bytes t b v =
      let Q = λ (o : List Reply × List Sent × StationBoard P). IsCoherent o.2.station in
      if_both Q (poll_serial P bytes b.console).1.gone v
        (substation_loop-IsCoherent b.config.link t b.station v)

  board_loop_idle :
      (bytes : List ℕ) (t : Tick) (b : StationBoard P)
      → b.station.ready ≡ false
      → (station_board_loop bytes t b).2.station ≡ b.station
  unfolding station_board_loop substation_loop
  board_loop_idle bytes t b i =
      let Q = λ (o : List Reply × List Sent × StationBoard P). o.2.station ≡ b.station in
      if_both Q (poll_serial P bytes b.console).1.gone refl (rw i refl)

  station_rounds-IsCoherent :
      (xs : List (List ℕ × Tick)) (b : StationBoard P)
      → IsCoherent b.station
      → IsCoherent (station_rounds xs b).station
  station_rounds-IsCoherent [] b v = v
  station_rounds-IsCoherent ((bytes, t) ∷ xs) b v =
      station_rounds-IsCoherent xs _ (board_loop-IsCoherent bytes t b v)

  idle_rounds :
      (xs : List (List ℕ × Tick)) (b : StationBoard P)
      → b.station.ready ≡ false
      → (station_rounds xs b).station ≡ b.station
  idle_rounds [] b i = refl
  idle_rounds ((bytes, t) ∷ xs) b i =
      let same = board_loop_idle bytes t b i in
      idle_rounds xs (station_board_loop bytes t b).2 (rw same i) ∙ same

  -- A substation that has gone through its set-up, whatever the settings say and the radios report, is
  -- coherent behind every pass of its loop, whatever is typed, comes in and goes out; and one
  -- that the set-up has not made ready stays as the program started.
  pub board_rounds-IsCoherent :
      (target : Target) (x : StationReports) (cfg : SubstationConfig) (store : P.Store)
      → (k : Console P) (p : Payload) (xs : List (List ℕ × Tick))
      → let (c, s) = substation_setup P target x cfg store (powered_on p) in
        let b : StationBoard P = record { console = k; config = c; station = s } in
        IsCoherent (station_rounds xs b).station
        × ((s.ready ≡ true) ⊎ ((station_rounds xs b).station ≡ powered_on p))
  board_rounds-IsCoherent target x cfg store k p xs =
      let o = substation_setup P target x cfg store (powered_on p) in
      let b : StationBoard P = record { console = k; config = o.0; station = o.1 } in
      elim (setup-IsSetUp P target x cfg store (powered_on p)) [
        | inl off ↦ (
          station_rounds-IsCoherent xs b (rw off (powered_on-IsCoherent p)),
          inr (idle_rounds xs b (ap (λ q. q.ready) off) ∙ off),
        )
        | inr on ↦ (
          station_rounds-IsCoherent xs b (
              rw on (
                restarted-IsCoherent (powered_on p) (u32 x.random) true (powered_on-IsCoherent p))),
          inl (ap (λ q. q.ready) on),
        )
      ]
