-- ===== src/SubstationLink.antt =====
-- lib/links/substation_link/substation_link.h and substation_link.cpp: a node's link to its
-- substation. The radio is an input: a poll says what millis() returns at a wait loop's test and
-- what receivePacket() gives there (`none` for a negative result, which the code answers with a
-- delay); a list of polls that ends stands for a clock that passes the wait behind it. The calls
-- of EspNowUplink that have an effect are logged. Log lines are left out.
pub mod Joining
pub mod Delivering
use io_t_firmware.Base.{
  ℕ, zero, suc, ◌+◌, Bool, true, false, not, ◌&&◌, ◌||◌, Option, none, some, List, [], ◌∷◌, ◌++◌,
  ltb, ◌==◌, if◌then◌else◌, bytes_eq, length, sub32,
}
use io_t_firmware.Wire.{
  Uid, Payload, ack_payload_size, encode_payload, encode_link_frame, decode_ack, beacon, join,
  join_ack, link_frame_code, link_frame_make, link_frame_parse, uid_equals,
}

abbrev pub join_beacon_wait_ms : ℕ
join_beacon_wait_ms = 3000

abbrev pub join_ack_wait_ms : ℕ
join_ack_wait_ms = 1000

abbrev pub delivery_ack_wait_ms : ℕ
delivery_ack_wait_ms = 1000

abbrev pub join_attempts : ℕ
join_attempts = 3

abbrev pub send_attempts : ℕ
send_attempts = 2

abbrev pub Mac : Type 0
Mac = List ℕ

pub record SubstationLink : Type 0 where
  pub uid : Uid
  pub joined : Bool
  pub substation_mac : Mac
  pub epoch : ℕ

-- A packet that receivePacket() hands over, with its sender.
pub record Packet : Type 0 where
  pub from : Mac
  pub bytes : List ℕ

pub record Poll : Type 0 where
  pub ms : ℕ
  pub packet : Option Packet

-- A wait: millis() at its start, and its polls.
pub record Wait : Type 0 where
  pub start : ℕ
  pub polls : List Poll

-- The loop that the three waits share: it ends at the first packet that the test takes.
unfoldable pub wait_for : {A : Type 0} → (Packet → Option A) → ℕ → ℕ → List Poll → Option A
wait_for test limit start [] = none
wait_for test limit start (p ∷ ps) =
    let on = wait_for test limit start ps in
    if not (ltb (sub32 p.ms start) limit)
    then none
    else elim p.packet [ none ↦ on | some k ↦ elim (test k) [ none ↦ on | some a ↦ some a ] ]

-- waitForBeacon
unfoldable pub beacon_in : Packet → Option (Mac × ℕ)
beacon_in k = elim (link_frame_parse k.bytes) [
  | none ↦ none
  | some f ↦ if f.type == link_frame_code beacon then some (k.from, f.epoch) else none
]

unfoldable pub wait_for_beacon : Wait → Option (Mac × ℕ)
wait_for_beacon w = wait_for beacon_in join_beacon_wait_ms w.start w.polls

-- waitForJoinAck
unfoldable pub join_ack_in : Uid → Mac → ℕ → Packet → Option (Unit {0})
join_ack_in uid mac expect_epoch k = elim (link_frame_parse k.bytes) [
  | none ↦ none
  | some f ↦
      if not (f.type == link_frame_code join_ack)
        || (not (bytes_eq k.from mac)
            || (not (f.epoch == expect_epoch) || not (uid_equals f.uid uid)))
      then none
      else some tt
]

unfoldable pub wait_for_join_ack : Uid → Mac → ℕ → Wait → Option (Unit {0})
wait_for_join_ack uid mac epoch w =
    wait_for (join_ack_in uid mac epoch) join_ack_wait_ms w.start w.polls

-- waitForDeliveryAck
unfoldable pub delivery_ack_in : SubstationLink → ℕ → Packet → Option (Unit {0})
delivery_ack_in l seq k =
    let ack = decode_ack k.bytes in
    if not (length k.bytes == ack_payload_size) || not (bytes_eq k.from l.substation_mac)
    then none
    else if not (uid_equals ack.uid l.uid) || not (ack.seq == seq)
    then none
    else some tt

unfoldable pub wait_for_delivery_ack : SubstationLink → ℕ → Wait → Option (Unit {0})
wait_for_delivery_ack l seq w =
    wait_for (delivery_ack_in l seq) delivery_ack_wait_ms w.start w.polls

-- The calls of the uplink, with the bytes that are sent.
pub data Call : Type 0 where
  add_peer remove_peer : Mac → Call
  send_packet : Mac → List ℕ → Call

-- A link with the calls it has made.
pub record Run : Type 0 where
  pub link : SubstationLink
  pub calls : List Call

abbrev pub call : Call → Run → Run
call c r = record r { calls = r.calls ++ (c ∷ []) }

-- One frame sent: the result of sendPacket() is EXIT_SUCCESS, and the wait behind it.
pub record Attempt : Type 0 where
  pub send_ok : Bool
  pub wait : Wait

-- What a join meets: the beacon wait, the result of addPeer(), and each attempt by how many are left behind it.
pub record JoinAir : Type 0 where
  pub beacon_wait : Wait
  pub peer_ok : Bool
  pub attempts : ℕ → Attempt

-- The loop of join, with `left` attempts to go, and its end.
unfoldable pub try_join : ℕ → (ℕ → Attempt) → Mac → ℕ → Run → Bool × Run
try_join zero attempts mac epoch r = (false, call (remove_peer mac) r)
try_join (suc left) attempts mac epoch r =
    let request = link_frame_make join epoch (some r.link.uid) in
    let a = attempts left in
    let r1 = call (send_packet mac (encode_link_frame request)) r in
    let rest = try_join left attempts mac epoch r1 in
    let heard = wait_for_join_ack r.link.uid mac epoch a.wait in
    if not a.send_ok then rest else elim heard [
      | none ↦ rest
      | some _ ↦ (
        true,
        record r1 { link = record r.link { joined = true; substation_mac = mac; epoch = epoch } },
      )
    ]

-- join: true is EXIT_SUCCESS.
unfoldable pub join_substation : JoinAir → Run → Bool × Run
join_substation air r =
    if r.link.joined then (true, r) else elim (wait_for_beacon air.beacon_wait) [
      | none ↦ (false, r)
      | some (mac, epoch) ↦
          let r1 = call (add_peer mac) r in
          if not air.peer_ok then (false, r1) else try_join join_attempts air.attempts mac epoch r1
    ]

-- forget
unfoldable pub forget : Run → Run
forget r =
    call (remove_peer r.link.substation_mac) (record r { link = record r.link { joined = false } })

-- The loop of drainReceived on the packets that are waiting; `none` is a negative result but -1.
unfoldable pub drain_packet : Option Packet → Run → Run
drain_packet none r = r
drain_packet (some k) r = if not r.link.joined then r else elim (link_frame_parse k.bytes) [
  | none ↦ r
  | some f ↦
      if f.type == link_frame_code beacon
        && (bytes_eq k.from r.link.substation_mac && not (f.epoch == r.link.epoch))
      then forget r
      else r
]

unfoldable pub drain_received : List (Option Packet) → Run → Run
drain_received [] r = r
drain_received (p ∷ ps) r = drain_received ps (drain_packet p r)

-- What one try of send meets.
pub record Try : Type 0 where
  pub joining : JoinAir
  pub attempt : Attempt

-- The loop of send, with `left` tries to go.
unfoldable pub try_send : ℕ → (ℕ → Try) → Payload → Run → Bool × Run
try_send zero tries p r = (false, r)
try_send (suc left) tries p r =
    let t = tries left in
    let j = join_substation t.joining r in
    let r1 = call (send_packet j.1.link.substation_mac (encode_payload p)) j.1 in
    let rest = try_send left tries p (forget r1) in
    let heard = wait_for_delivery_ack r1.link p.seq t.attempt.wait in
    if not j.0
    then (false, j.1)
    else if not t.attempt.send_ok
    then rest
    else elim heard [ none ↦ rest | some _ ↦ (true, r1) ]

-- send
unfoldable pub send : List (Option Packet) → (ℕ → Try) → Payload → Run → Bool × Run
send waiting tries p r = try_send send_attempts tries p (drain_received waiting r)
