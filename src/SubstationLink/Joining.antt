-- ===== src/SubstationLink/Joining.antt =====
-- substation_link.cpp: what join leaves behind.
use io_t_firmware.Wire.{join, link_frame_make, encode_link_frame}
use io_t_firmware.Base.{
  ℕ, zero, suc, ◌≡◌, sym, inl, inr, false, some, arith, Bool-cases, Option-cases,
}
use io_t_firmware.SubstationLink.{
  wait_for_beacon, join_attempts, Mac, add_peer, send_packet, Run, call, Attempt, JoinAir, try_join,
  join_substation,
}

-- An attempt to join succeeds exactly when it leaves the link joined.
pub try_join-joined :
    (n : ℕ) (attempts : ℕ → Attempt) (mac : Mac) (epoch : ℕ) (r : Run)
    → r.link.joined ≡ false
    → (try_join n attempts mac epoch r).0 ≡ (try_join n attempts mac epoch r).1.link.joined
unfolding try_join
try_join-joined zero attempts mac epoch r h = sym h
try_join-joined (suc n) attempts mac epoch r h =
    let r1 =
      call (send_packet mac (encode_link_frame (link_frame_make join epoch (some r.link.uid)))) r in
    let ih = try_join-joined n attempts mac epoch r1 h in ground arith

-- A join returns success exactly when it leaves the link joined.
pub join-joined :
    (air : JoinAir) (r : Run) → (join_substation air r).0 ≡ (join_substation air r).1.link.joined
unfolding join_substation
join-joined air r = elim (Bool-cases r.link.joined) [
  | inl h ↦ ground arith
  | inr h ↦ elim (Option-cases (wait_for_beacon air.beacon_wait)) [
    | inl e ↦ ground arith
    | inr ((mac, epoch), e) ↦
        let ih = try_join-joined join_attempts air.attempts mac epoch (call (add_peer mac) r) h in
        ground arith
  ]
]
