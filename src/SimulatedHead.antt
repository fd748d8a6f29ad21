-- ===== src/SimulatedHead.antt =====
-- lib/buses/ir_head/simulated_ir_head.cpp: the optical head that plays a meter from canned responses.
-- A response that is played is what is left of it, `none` for the null pointer. setBaudRate only logs.
pub mod Session
use io_t_firmware.Base.{
  ℕ, zero, suc, ◌+◌, ◌-◌, ◌*◌, ◌/◌, Bool, true, false, ◌&&◌, Option, none, some, List, [], ◌∷◌,
  ◌++◌, leb, ◌==◌, if◌then◌else◌, bytes_eq, codes, length, get_or,
}
use io_t_firmware.Iec62056.{request}

pub data State : Type 0 where
  awaiting_request : State
  sending_id : State
  awaiting_ack : State
  sending_data : State
  done : State

-- ID_RESPONSE, "/EMH5EM211\r\n"
abbrev pub id_response : List ℕ
id_response = codes "/EMH5EM211" ++ (0x0D ∷ 0x0A ∷ [])

-- DATA_BLOCK
abbrev pub data_block : List ℕ
data_block =
    codes "1-0:1.8.0(001234.567*kWh)"
    ++ (0x0D
        ∷ 0x0A
        ∷ (codes "1-0:2.8.0(000045.123*kWh)" ++ (0x0D ∷ 0x0A ∷ 0x21 ∷ 0x0D ∷ 0x0A ∷ [])))

-- SimulatedIrHead
pub record Head : Type 0 where
  pub state : State
  pub pending : Option (List ℕ)

-- queueResponse
abbrev pub queue_response : List ℕ → Head → Head
queue_response response h = record h { pending = some response }

-- init, which always succeeds.
unfoldable pub init : Head → Head
init h = record { state = awaiting_request; pending = none }

abbrev pub is_awaiting_ack : State → Bool
is_awaiting_ack awaiting_ack = true
is_awaiting_ack _ = false

-- send, which always succeeds.
unfoldable pub send : List ℕ → Head → Head
send bytes h =
    if bytes_eq bytes request
    then record (queue_response id_response h) { state = sending_id }
    else if is_awaiting_ack h.state && (leb 1 (length bytes) && get_or bytes 0 0 == 0x06)
    then record (queue_response data_block h) { state = sending_data }
    else h

-- The state behind the last byte of a response.
unfoldable pub after_response : State → State
after_response sending_id = awaiting_ack
after_response sending_data = done
after_response awaiting_request = awaiting_request
after_response awaiting_ack = awaiting_ack
after_response done = done

-- readByte; available() is a response with a byte left.
unfoldable pub read_byte : Head → Option ℕ × Head
read_byte h = elim h.pending [
  | none ↦ (none, h)
  | some [] ↦ (none, h)
  | some (b ∷ []) ↦ (some b, record { state = after_response h.state; pending = none })
  | some (b ∷ c ∷ cs) ↦ (some b, record h { pending = some (c ∷ cs) })
]

-- readByte at each of a number of polls.
unfoldable pub read_bytes : ℕ → Head → List (Option ℕ) × Head
read_bytes zero h = ([], h)
read_bytes (suc n) h = let (b, h') = read_byte h in let (bs, h'') = read_bytes n h' in (b ∷ bs, h'')
