-- ===== src/Tests/Simulation.antt =====
-- The theorems on the buses, and the one on the simulated optical head in the middle of a session.
use io_t_firmware.Base.{ℕ, ◌≡◌, refl, true, false, some, List, [], ◌∷◌, arith, length, replicate}
use io_t_firmware.Iec62056.Receive.{Wait}
use io_t_firmware.Iec62056.{Reader, request, ReadAir, get_export, get_import}
use io_t_firmware.Iec62056.Heard.{polls_at}
use io_t_firmware.Config.{HttpBusConfig}
use io_t_firmware.Bus.Module.{Forgets}
use io_t_firmware.Bus.Module.Buses.{sp3485_module, tcp_module, http_module, buses_forget}
use io_t_firmware.SimulatedHead
use io_t_firmware.SimulatedHead.{Head, sending_data, done, data_block}
use io_t_firmware.SimulatedHead.Session.{ack_message, asked, simulated_read}

-- The length of a text as its value, and ten characters used.
abbrev ten_used : List ℕ → ℕ × ℕ
ten_used bs = (length bs, 10)

abbrev interrupted : Head
interrupted = record { state = sending_data; pending = some (7 ∷ []) }

abbrev read_before : Reader
read_before = record { current_baud = 9600; cached_export = 5; export_valid = true }

abbrev nothing_heard : Wait
nothing_heard = record { start = 0; polls = [] }

simulated_read_example :
    let (replies, h1) = SimulatedHead.read_bytes 12 (SimulatedHead.send request interrupted) in
    let (block, h2) = SimulatedHead.read_bytes 57 (SimulatedHead.send ack_message h1) in
    let air : ReadAir = record {
      first = record { start = 0; polls = polls_at (replicate 12 4) replies };
      second = nothing_heard;
      data_block = record { start = 5; polls = polls_at (replicate 57 9) block };
      tail = nothing_heard;
    } in
    let (commands, v, r') = get_import ten_used air read_before in
    (commands ≡ asked (record read_before { export_valid = false }))
    × (v ≡ some 47)
    × (get_export r' ≡ some 20)
    × (h2.state ≡ done)
unfolding replicate
simulated_read_example =
    simulated_read ten_used 47 20 interrupted read_before nothing_heard nothing_heard 0 5
      (replicate 12 4) (replicate 57 9) refl refl (omega arith) refl (omega arith) refl

abbrev camera : HttpBusConfig
camera = record { request_timeout_ms = 5000; http_user = 0 ∷ []; http_pass = 0 ∷ [] }

buses_forget_example : Forgets sp3485_module × Forgets tcp_module × Forgets (http_module camera)
buses_forget_example = buses_forget camera
