-- ===== src/Tests/Meters.antt =====
-- The theorems on the meter readers and their gate at a few sessions.
use io_t_firmware.Base.{ℕ, ◌≡◌, refl, ◌⊎◌, true, false, some, List, [], ◌∷◌, ◌++◌, map, get_or}
use io_t_firmware.Polling.{Poller, Cycle, ir_node_loop}
use io_t_firmware.Polling.Optical.{meter_values, with_reader, ir_node_sends_one_block}
use io_t_firmware.Iec62056
use io_t_firmware.SubstationLink
use io_t_firmware.Node.{reading, seq_next, Node, Round, node_loop}
use io_t_firmware.Node.Sending.{node_rounds, Sends, node_loop-Sends}
use io_t_firmware.SubstationLink.{Wait}
use io_t_firmware.Tests.{sample, meter_a}
use io_t_firmware.MeterGate.{MeterGate}
use io_t_firmware.Dlms.Frames.Bounds.{IsRead, read_frame-IsRead}
use io_t_firmware.Dlms
use io_t_firmware.Dlms.{check_aare}
use io_t_firmware.Dlms.Association.{ResultField, InitiateField, check_aare_sound}
use io_t_firmware.Dlms.Session.{Session}
use io_t_firmware.Dlms.Session.Closing.{IsSession, read_register-closes}
use io_t_firmware.Dlms.Session
use io_t_firmware.Dlms.Frames

abbrev open_gate : MeterGate
open_gate = record {
  retry_ms = 30000;
  lost_after = 3;
  is_ready = true;
  probe_due = false;
  last_probe_ms = 5;
  failed_reads = 1;
}

-- Noise, an idle flag, and a frame of nine bytes.
abbrev line : List ℕ
line = 0x00 ∷ 0x7E ∷ 0x7E ∷ 0xA0 ∷ 0x07 ∷ 0x03 ∷ 0x21 ∷ 0x1F ∷ 0x11 ∷ 0x22 ∷ 0x7E ∷ []

abbrev nine_bytes : List ℕ
nine_bytes = 0x7E ∷ 0xA0 ∷ 0x07 ∷ 0x03 ∷ 0x21 ∷ 0x1F ∷ 0x11 ∷ 0x22 ∷ 0x7E ∷ []

abbrev line_polls : List Frames.Poll
line_polls = map (λ b. record { ms = 10; byte = some b }) line

hunted : Frames.read_frame 0 line_polls ≡ some nine_bytes
unfolding Frames.read_frame Frames.read_loop Frames.hunt_byte Frames.store_byte
hunted = refl

read_frame-IsRead_example : IsRead nine_bytes
read_frame-IsRead_example = read_frame-IsRead 0 line_polls nine_bytes hunted

abbrev dlms_session : Session
dlms_session = record {
  reader = record { client = 0x21 ∷ []; server = 0x03 ∷ []; vs = 7; vr = 2 };
  turns = record { send_ok = true; start_ms = 0; polls = line_polls } ∷ [];
  sent = [];
}

read_register-closes_example :
    IsSession
      (Session.read_associated (1 ∷ 0 ∷ 1 ∷ 8 ∷ 0 ∷ 255 ∷ []) 30)
      dlms_session
      (Session.read_register (1 ∷ 0 ∷ 1 ∷ 8 ∷ 0 ∷ 255 ∷ []) 30 dlms_session)
read_register-closes_example = read_register-closes (1 ∷ 0 ∷ 1 ∷ 8 ∷ 0 ∷ 255 ∷ []) 30 dlms_session

abbrev reading_node : Node
reading_node = record {
  setup_ok = true;
  gate = open_gate;
  state = reading;
  last_poll = 0;
  payload = sample;
  seq = 41;
  link = record {
    link = record { uid = meter_a; joined = true; substation_mac = []; epoch = 5 };
    calls = [];
  };
}

abbrev silence : Wait
silence = record { start = 0; polls = [] }

abbrev pub quiet_round : Round
quiet_round = record {
  gate_now = 10;
  probe_ok = true;
  import_read = some 1;
  export_read = some 2;
  voltage_read = some 3;
  waiting = [];
  tries = λ n. record {
    joining = record {
      beacon_wait = silence;
      peer_ok = true;
      attempts = λ k. record { send_ok = true; wait = silence };
    };
    attempt = record { send_ok = true; wait = silence };
  };
  now = 20;
}

-- A round of reading, and one of sending.
node_loop-Sends_example :
    let n = node_rounds (quiet_round ∷ []) reading_node in
    Sends (quiet_round ∷ []) reading_node quiet_round n (node_loop quiet_round n)
node_loop-Sends_example = node_loop-Sends (quiet_round ∷ []) quiet_round reading_node refl

abbrev poller : Poller
poller = record {
  setup_ok = true;
  gate = open_gate;
  poll_interval_ms = 1000;
  last_poll = 0;
  payload = sample;
  seq = 41;
  link = reading_node.link;
}

abbrev cycle : Cycle
cycle = record {
  gate_now = 10;
  probe_ok = true;
  closed_now = 11;
  test_now = 2000;
  poll_now = 2001;
  import_read = some 1;
  export_read = some 2;
  waiting = [];
  tries = quiet_round.tries;
}

abbrev digit : List ℕ → ℕ × ℕ
digit s = (get_or s 0 0, 1)

abbrev unheard : Iec62056.Wait
unheard = record { start = 0; polls = [] }

abbrev no_answer : Iec62056.ReadAir
no_answer = record { first = unheard; second = unheard; data_block = unheard; tail = unheard }

abbrev stale : Iec62056.Reader
stale = record { current_baud = 300; cached_export = 9; export_valid = true }

ir_node_sends_one_block_example :
    let m = ir_node_loop (with_reader digit no_answer stale cycle) poller in
    ((m.payload ≡ sample) × (m.link ≡ poller.link))
    ⊎ ((i e : ℕ) × (meter_values digit no_answer ≡ some (i, e))
        × (m.payload ≡ record sample { kwh_import = i; kwh_export = e; seq = seq_next 41 })
        × (m.link ≡ (SubstationLink.send cycle.waiting cycle.tries m.payload poller.link).1))
ir_node_sends_one_block_example = ir_node_sends_one_block digit no_answer stale cycle poller

-- The response with which a meter accepts an association.
abbrev aare : List ℕ
aare =
    (0x61 ∷ 0x29 ∷ 0xA1 ∷ 0x09 ∷ 0x06 ∷ 0x07 ∷ 0x60 ∷ 0x85 ∷ 0x74 ∷ 0x05 ∷ 0x08 ∷ 0x01 ∷ 0x01 ∷ [])
    ++ ((0xA2 ∷ 0x03 ∷ 0x02 ∷ 0x01 ∷ 0x00 ∷ 0xA3 ∷ 0x05 ∷ 0xA1 ∷ 0x03 ∷ 0x02 ∷ 0x01 ∷ 0x00 ∷ [])
        ++ (0xBE ∷ 0x10 ∷ 0x04 ∷ 0x0E ∷ 0x08 ∷ 0x00 ∷ 0x06 ∷ 0x5F ∷ 0x1F ∷ 0x04 ∷ 0x00 ∷ 0x00 ∷ 0x10
            ∷ 0x10 ∷ 0x00 ∷ 0x80 ∷ 0x00 ∷ 0x07 ∷ []))

accepted : check_aare aare ≡ true
unfolding Dlms.check_aare Dlms.read_ber_length Dlms.aare_fields Dlms.aare_field
accepted = refl

check_aare_sound_example : (get_or aare 0 0 ≡ 0x61) × ResultField aare 0 × InitiateField aare
check_aare_sound_example = check_aare_sound aare accepted
