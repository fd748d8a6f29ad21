-- ===== src/Substation.antt =====
-- src/nodes/substation.cpp: the relay node between the meter nodes (ESP-NOW) and the gateway (LoRa).
-- The static variables are one record. What the calls of other parts return (frames waiting in the
-- ESP-NOW queue, results of addPeer(), the radio, millis()) is the input of a step, and the ESP-NOW
-- frames that go out, with the MAC that they go to, are its output. The source ignores what
-- EspNowUplink::sendPacket() returns. Log lines are left out.
pub mod Joined
pub mod Delivery
pub mod Relay
pub mod Loop
use mathlib.Core.Option
use io_t_firmware.Base.{
  ℕ, suc, ◌+◌, ◌*◌, ◌^◌, Bool, true, false, not, ◌&&◌, Option, none, some, List, [], ◌∷◌, ◌++◌, map,
  leb, ◌==◌, if◌then◌else◌, bytes_eq, length, get_or, set, u32, sub32,
}
use io_t_firmware.Wire.{
  Uid, Payload, LinkFrame, payload_size, encode_payload, encode_ack, encode_link_frame,
  decode_payload, beacon, join, join_ack, link_frame_code, link_frame_make, link_frame_parse,
  uid_equals,
}
use io_t_firmware.Buffer.{Buffer, max_nodes}
use io_t_firmware.Buffer
use io_t_firmware.LoraLink.{
  LoRaLink, LoRaLinkConfig, idle_status, status_pending, acked, failed, Air, poll_send, begin_send,
}

abbrev pub Mac : Type 0
Mac = List ℕ

-- ESP_NOW_BROADCAST_MAC
abbrev pub broadcast_mac : Mac
broadcast_mac = 255 ∷ 255 ∷ 255 ∷ 255 ∷ 255 ∷ 255 ∷ []

abbrev pub retry_backoff_ms : ℕ
retry_backoff_ms = 30 * 1000

abbrev pub beacon_interval_ms : ℕ
beacon_interval_ms = 1000

pub record JoinedNode : Type 0 where
  pub mac : Mac
  pub uid : Uid
  pub last_seq : ℕ
  pub has_seq : Bool

-- `joined` holds the first `joinedCount` entries of the array; the entries behind them are as the
-- program's start left them, all zero.
pub record Substation : Type 0 where
  pub joined : List JoinedNode
  pub epoch : ℕ
  pub next_beacon_at : ℕ
  pub next_send_at : ℕ
  pub in_flight : Payload
  pub ready : Bool
  pub buffer : Buffer
  pub lora : LoRaLink

-- A frame for the ESP-NOW link, with the MAC that it goes to.
abbrev pub Sent : Type 0
Sent = Mac × List ℕ

-- A frame that receivePacket() hands over, with the sender's MAC, and whether addPeer() succeeds
-- should the frame be a Join.
pub record Incoming : Type 0 where
  pub mac : Mac
  pub frame : List ℕ
  pub peer_ok : Bool

-- `static_cast<long>(millis() - at) < 0`: the 32-bit difference as a signed number.
abbrev pub not_yet : ℕ → ℕ → Bool
not_yet now at = leb (2 ^ 31) (sub32 now at)

-- findJoined: `none` is -1.
unfoldable pub find_joined : Mac → List JoinedNode → Option ℕ
find_joined m [] = none
find_joined m (n ∷ ns) = if bytes_eq n.mac m then some 0 else Option.map suc (find_joined m ns)

abbrev pub zero_node : JoinedNode
zero_node = record { mac = []; uid = []; last_seq = 0; has_seq = false }

abbrev pub node_at : List JoinedNode → ℕ → JoinedNode
node_at ns i = get_or ns i zero_node

-- beaconIfDue: `now` is the first millis(), `set_now` the second.
unfoldable pub beacon_if_due : ℕ → ℕ → Substation → List Sent × Substation
beacon_if_due now set_now s = if not_yet now s.next_beacon_at then ([], s) else (
  (broadcast_mac, encode_link_frame (link_frame_make beacon s.epoch none)) ∷ [],
  record s { next_beacon_at = u32 (set_now + beacon_interval_ms) },
)

-- The entry of a node that joins for the first time.
abbrev pub new_node : Mac → Uid → JoinedNode
new_node m u = record { mac = m; uid = u; last_seq = 0; has_seq = false }

-- The entry of a MAC that joins again: another device there has no last reading.
abbrev pub renewed : Uid → JoinedNode → JoinedNode
renewed u n = record n { uid = u; has_seq = if not (uid_equals n.uid u) then false else n.has_seq }

-- The joined table with a Join from `m` by the device `u` entered; `none` if it is refused.
unfoldable pub enter_joined : Mac → Uid → List JoinedNode → Option (List JoinedNode)
enter_joined m u ns = elim (find_joined m ns) [
  | none ↦ if length ns == max_nodes then none else some (ns ++ (new_node m u ∷ []))
  | some i ↦ some (set ns i (renewed u (node_at ns i)))
]

-- handleJoin
unfoldable pub handle_join : Mac → Bool → LinkFrame → Substation → List Sent × Substation
handle_join m peer_ok f s =
    if not (f.epoch == s.epoch) then ([], s) else elim (enter_joined m f.uid s.joined) [
      | none ↦ ([], s)
      | some ns ↦
          let s' = record s { joined = ns } in
          if peer_ok
          then ((m, encode_link_frame (link_frame_make join_ack s.epoch (some f.uid))) ∷ [], s')
          else ([], s')
    ]

-- sendDeliveryAck
unfoldable pub delivery_ack : Mac → Payload → Sent
delivery_ack m p = (m, encode_ack (record { uid = p.uid; seq = p.seq }))

-- The part of handleIncoming's loop for a reading of the joined node `i`.
unfoldable pub handle_reading : Mac → ℕ → Payload → Substation → List Sent × Substation
handle_reading m i p s =
    let n = node_at s.joined i in
    let r = Buffer.push p s.buffer in
    if n.has_seq && n.last_seq == p.seq
    then (delivery_ack m p ∷ [], s)
    else if not r.0
    then ([], record s { buffer = r.1 })
    else (
      delivery_ack m p ∷ [],
      record s {
        joined = set s.joined i (record n { last_seq = p.seq; has_seq = true });
        buffer = r.1;
      },
    )

-- One round of handleIncoming's loop.
unfoldable pub handle_frame : Incoming → Substation → List Sent × Substation
handle_frame e s = elim (link_frame_parse e.frame) [
  | some f ↦ if f.type == link_frame_code join then handle_join e.mac e.peer_ok f s else ([], s)
  | none ↦
      if not (length e.frame == payload_size) then ([], s) else elim (find_joined e.mac s.joined) [
        | none ↦ ([], s)
        | some i ↦ handle_reading e.mac i (decode_payload e.frame) s
      ]
]

-- handleIncoming, over the frames that wait in the queue.
unfoldable pub handle_incoming : List Incoming → Substation → List Sent × Substation
handle_incoming [] s = ([], s)
handle_incoming (e ∷ es) s =
    let r = handle_frame e s in let rest = handle_incoming es r.1 in (r.0 ++ rest.0, rest.1)

-- The readings of millis() that a step takes, and what the radio does in it.
pub record Tick : Type 0 where
  pub beacon_now : ℕ
  pub beacon_set_now : ℕ
  pub incoming : List Incoming
  pub air : Air
  pub relay_now : ℕ
  pub begin_now : ℕ

-- The part of relayStep that starts the next relay, when no send is under way.
unfoldable pub start_relay : Tick → Substation → Substation
start_relay t s =
    let k = Buffer.peek s.in_flight s.buffer in
    let s' = record s { in_flight = k.1; buffer = k.2 } in
    if not_yet t.relay_now s.next_send_at
    then s
    else if not k.0
    then s'
    else record s' { lora = (begin_send (encode_payload k.1) t.begin_now s.lora).1 }

-- relayStep, with the LoRa frames that go out.
unfoldable pub relay_step : LoRaLinkConfig → Tick → Substation → List (List ℕ) × Substation
relay_step c t s =
    let r = poll_send c t.air s.lora in
    let s' = record s { lora = r.2 } in
    elim r.0 [
      | status_pending ↦ (r.1, s')
      | acked ↦ (r.1, record s' { buffer = Buffer.pop s.buffer })
      | failed ↦ (r.1, record s' { next_send_at = u32 (t.relay_now + retry_backoff_ms) })
      | idle_status ↦ (r.1, start_relay t s')
    ]

-- substationLoop: the ESP-NOW frames and the LoRa frames that go out, and the new state.
unfoldable pub substation_loop :
    LoRaLinkConfig → Tick → Substation → List Sent × List (List ℕ) × Substation
substation_loop c t s =
    let b = beacon_if_due t.beacon_now t.beacon_set_now s in
    let h = handle_incoming t.incoming b.1 in
    let r = relay_step c t h.1 in if s.ready then (b.0 ++ h.0, r.0, r.1) else ([], [], s)
