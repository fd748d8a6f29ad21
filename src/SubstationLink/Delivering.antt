-- ===== src/SubstationLink/Delivering.antt =====
-- substation_link.cpp: what send leaves behind.
use io_t_firmware.Base.{
  ℕ, zero, suc, ◌≡◌, refl, sym, ◌∙◌, inl, inr, false, Option, List, arith, Bool-cases, Option-cases,
}
use io_t_firmware.Wire.{Payload, encode_payload}
use io_t_firmware.SubstationLink.{
  try_send, send, Try, Run, Packet, send_attempts, forget, call, join_substation, send_packet,
  wait_for_delivery_ack, drain_received,
}
use io_t_firmware.SubstationLink.Joining.{join-joined}

-- A send that succeeds leaves the link joined; one that fails leaves it not joined.
try_send-joined :
    (n : ℕ) (tries : ℕ → Try) (p : Payload) (r : Run)
    → (n ≡ 0 → r.link.joined ≡ false)
    → (try_send n tries p r).0 ≡ (try_send n tries p r).1.link.joined
unfolding try_send forget
try_send-joined zero tries p r h = sym (h refl)
try_send-joined (suc n) tries p r h =
    let t = tries n in
    let j = join_substation t.joining r in
    let r1 = call (send_packet j.1.link.substation_mac (encode_payload p)) j.1 in
    let ih = try_send-joined n tries p (forget r1) (λ _. refl) in
    let jj = join-joined t.joining r in
    elim (Bool-cases j.0) [
      | inr k ↦ rw k (sym k ∙ jj)
      | inl k ↦ rw k (elim (Bool-cases t.attempt.send_ok) [
        | inr m ↦ rw m ih
        | inl m ↦ rw m (elim (Option-cases (wait_for_delivery_ack r1.link p.seq t.attempt.wait)) [
          | inl e ↦ rw e ih
          | inr (_, e) ↦ rw e (sym k ∙ jj)
        ])
      ])
    ]

-- A send of a reading returns success exactly when it leaves the link joined.
pub send-joined :
    (waiting : List (Option Packet)) (tries : ℕ → Try) (p : Payload) (r : Run)
    → (send waiting tries p r).0 ≡ (send waiting tries p r).1.link.joined
unfolding send
send-joined waiting tries p r =
    try_send-joined send_attempts tries p (drain_received waiting r) (λ z. ground arith)
