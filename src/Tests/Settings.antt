-- ===== src/Tests/Settings.antt =====
-- The theorems on the settings at a board with an empty flash.
use io_t_firmware.Base.{
  ◌%◌, ◌<◌, ◌≡◌, refl, ◌⊎◌, true, false, some, List, [], ◌∷◌, arith, bytes_eq, codes, length,
  replicate,
}
use io_t_firmware.Config.{Rs485NodeConfig}
use io_t_firmware.NvsConfig.{read_str, copy_string}
use io_t_firmware.NvsConfig.Memory.{memory, memory-IsPreferences}
use io_t_firmware.NvsConfig.Console.{line_size, number_from, Console, poll_serial}
use io_t_firmware.NvsConfig.Console.Lines.{poll_serial-within}
use io_t_firmware.NvsConfig.Console.Commands.{IsKey, set_line, typed_text}
use io_t_firmware.NvsConfig.Loaders.{rs485_settings, Target}
use io_t_firmware.NvsConfig.Loaders.Typed.{IsSetting, typed_store}
use io_t_firmware.BringUp.{Devices}
use io_t_firmware.Node.{Node, Round, reading}
use io_t_firmware.NodeSetup.{first_run, rs485_node_setup}
use io_t_firmware.NodeSetup.Choice.{built_for, typed_reader_decides, comes_up}
use io_t_firmware.MeterGate.{new_gate}
use io_t_firmware.NvsConfig.Console
use io_t_firmware.SeqCounter
use io_t_firmware.SeqCounter.{Life, called, begun_again, restarted, cut_off, boot, live, handed_out}
use io_t_firmware.SeqCounter.Persist.{DistinctNumbers, no_number_twice}
use io_t_firmware.Node.Sending.{node_rounds}
use io_t_firmware.Node.{seq_next}
use io_t_firmware.Tests.Meters.{quiet_round}
use io_t_firmware.Tests.{sample, meter_a}

abbrev pub fresh : Console memory
fresh = record { line = []; store = []; gone = false }

poll_serial-within_example : length (poll_serial memory (replicate 300 65) fresh).1.line < line_size
poll_serial-within_example = poll_serial-within memory (replicate 300 65) fresh (omega arith)

ssid-IsKey : IsKey (codes "ap_ssid")
ssid-IsKey = record {
  some_byte = omega arith;
  fits = omega arith;
  typed = omega arith;
  one_word = omega arith;
}

-- `set ap_ssid "my "net""`
typed_text_example :
    read_str memory
      (codes "ap_ssid")
      (codes "kaizen-rs485")
      33
      (poll_serial memory (set_line (codes "ap_ssid") (codes "\"my \"net\"\"")) fresh).1.store
    ≡ copy_string (codes "my \"net\"") 33
unfolding copy_string bytes_eq
typed_text_example =
    typed_text memory memory-IsPreferences (codes "ap_ssid") (codes "my \"net\"") fresh refl refl
      ssid-IsKey (omega arith) (omega arith) (codes "ap_ssid") (codes "kaizen-rs485") 33

abbrev pub c3 : Target
c3 = record { is_c3 = true; efuse_uid = meter_a; serial_8n1 = 0x800001C; serial_7e1 = 0x800001A }

reader_typed : IsSetting memory fresh (codes "reader") (codes "5")
unfolding Console.number_from
reader_typed = record {
  running = refl;
  empty = refl;
  key_typed = record {
    some_byte = omega arith;
    fits = omega arith;
    typed = omega arith;
    one_word = omega arith;
  };
  digits_typed = (refl, tt);
  some_digit = omega arith;
  line_fits = omega arith;
  number_fits = omega arith;
  written = refl;
}

abbrev all_well : Devices
all_well = record {
  nvs_ok = true;
  stored_seq = some 40;
  ap_ok = true;
  bus_ok = true;
  reader_ok = true;
  radio_ok = true;
  after_join = λ l. record l { joined = true };
}

abbrev new_node : Node
new_node = record {
  setup_ok = false;
  gate = new_gate 5000 3;
  state = reading;
  last_poll = 0;
  payload = sample;
  seq = 0;
  link = first_run (record { uid = meter_a; joined = false; substation_mac = []; epoch = 0 });
}

abbrev defaults : Rs485NodeConfig
defaults = rs485_settings memory c3 []

abbrev one_round : List Round
one_round = quiet_round ∷ []

typed_reader_decides_example :
    let s = typed_store memory fresh (codes "reader") (codes "5") in
    let (built, _, n') = rs485_node_setup memory c3 defaults (λ w. all_well) s new_node in
    (built ≡ built_for (number_from 0 (codes "5") % 256))
    × (n'.setup_ok ≡ comes_up (λ w. all_well) built)
    × ((n'.setup_ok ≡ true) ⊎ (node_rounds one_round n' ≡ n'))
typed_reader_decides_example =
    typed_reader_decides memory c3 memory-IsPreferences fresh (codes "5") defaults (λ w. all_well)
      new_node one_round reader_typed refl refl

-- Two numbers, a third lost with the power in the middle of its call, and one behind another restart.
abbrev pub lives : List Life
lives = called ∷ called ∷ cut_off ∷ restarted ∷ begun_again ∷ called ∷ []

pub handed : handed_out memory lives (boot memory []) ≡ 1 ∷ 2 ∷ 4 ∷ []
unfolding handed_out live SeqCounter.next SeqCounter.begin seq_next bytes_eq
handed = refl

no_number_twice_example : DistinctNumbers (handed_out memory lives (boot memory []))
no_number_twice_example =
    no_number_twice memory memory-IsPreferences (λ n s. refl) [] lives refl (omega arith)
