-- ===== src/PayloadJson/Laws.antt =====
-- payload_json.cpp: the timestamp's colon, and that a published document determines its reading.
use Prim.Native.String.{String}
use io_t_firmware.Base.{
  ℕ, zero, suc, ◌+◌, ◌-◌, ◌≤◌, ◌<◌, ◌≡◌, refl, ap, true, List, [], ◌∷◌, ◌++◌, arith, length, get_or,
  set, length-append,
}
use io_t_firmware.Wire.{Payload, IsPayload}
use io_t_firmware.Wire.RoundTrip.{uid_to_hex_injective}
use io_t_firmware.PayloadJson.{
  min_valid_epoch, Json, null, text, whole, real, node_type_name, format_timestamp, payload_fields,
}

set-append :
    (pre ys : List ℕ) (n k v : ℕ) → n ≡ length pre + k → set (pre ++ ys) n v ≡ pre ++ set ys k v
set-append [] ys n k v e = let same : n ≡ k = omega arith in rw same refl
set-append (x ∷ pre) ys zero k v e = absurd (omega arith)
set-append (x ∷ pre) ys (suc n) k v e = ap (λ t. x ∷ t) (set-append pre ys n k v (omega arith))

get_or-append_at :
    (pre ys : List ℕ) (n k : ℕ) → n ≡ length pre + k → get_or (pre ++ ys) n 0 ≡ get_or ys k 0
get_or-append_at [] ys n k e = let same : n ≡ k = omega arith in rw same refl
get_or-append_at (x ∷ pre) ys zero k e = absurd (omega arith)
get_or-append_at (x ∷ pre) ys (suc n) k e = get_or-append_at pre ys n k (omega arith)

names_apart : (a b : ℕ) → a < 3 → b < 3 → node_type_name a ≡ node_type_name b → a ≡ b
unfolding node_type_name
names_apart a b h k e = ground arith

text_injective : {a b : List ℕ} → text a ≡ text b → a ≡ b
text_injective e = ground arith

whole_injective : {a b : ℕ} → whole a ≡ whole b → a ≡ b
whole_injective e = ground arith

real_injective : {a b : ℕ} → real a ≡ real b → a ≡ b
real_injective e = ground arith

payload_eq :
    (p q : Payload)
    → p.uid ≡ q.uid
    → p.seq ≡ q.seq
    → p.kwh_import ≡ q.kwh_import
    → p.kwh_export ≡ q.kwh_export
    → p.voltage ≡ q.voltage
    → p.community_id ≡ q.community_id
    → p.unit_id ≡ q.unit_id
    → p.node_type ≡ q.node_type
    → p ≡ q
payload_eq p q a b c d e f g h = ground arith

module _ (strftime : ℕ → List ℕ → ℕ × List ℕ) where
  -- Once the clock is set, and where strftime has written a text of two digits behind `pre` and leaves
  -- room for two bytes more, the buffer holds the same text with a colon before the two digits, and ends it with a 0.
  format_timestamp-colon :
      (now x y a b : ℕ) (pre rest out : List ℕ)
      → min_valid_epoch ≤ now
      → length out ≡ length (pre ++ (a ∷ b ∷ x ∷ y ∷ rest))
      → strftime now out ≡ (length pre + 2, pre ++ (a ∷ b ∷ x ∷ y ∷ rest))
      → format_timestamp strftime now out ≡ (true, pre ++ (0x3A ∷ a ∷ b ∷ 0 ∷ rest))
  unfolding format_timestamp
  format_timestamp-colon now x y a b pre rest out t l s =
      let n = length pre in
      let b0 = pre ++ (a ∷ b ∷ x ∷ y ∷ rest) in
      let e1 = set-append pre (a ∷ b ∷ x ∷ y ∷ rest) (n + 2 + 1) 3 0 (omega arith) in
      let g1 = get_or-append_at pre (a ∷ b ∷ x ∷ 0 ∷ rest) (n + 2 - 1) 1 (omega arith) in
      let e2 = set-append pre (a ∷ b ∷ x ∷ 0 ∷ rest) (n + 2) 2 b (omega arith) in
      let g2 = get_or-append_at pre (a ∷ b ∷ b ∷ 0 ∷ rest) (n + 2 - 2) 0 (omega arith) in
      let e3 = set-append pre (a ∷ b ∷ b ∷ 0 ∷ rest) (n + 2 - 1) 1 a (omega arith) in
      let e4 = set-append pre (a ∷ a ∷ b ∷ 0 ∷ rest) (n + 2 - 2) 0 0x3A (omega arith) in
      let size = length-append pre (a ∷ b ∷ x ∷ y ∷ rest) in
      rw (format_timestamp, s, e1, g1, e2, g2, e3, e4) (ground (arith, size, l))

  -- Readings of nodes whose type is known that are published in the same document are the same.
  pub payload_fields_injective :
      (p q : Payload) (rssi snr now : ℕ)
      → IsPayload p
      → IsPayload q
      → p.node_type < 3
      → q.node_type < 3
      → payload_fields strftime p rssi snr now ≡ payload_fields strftime q rssi snr now
      → p ≡ q
  unfolding payload_fields
  payload_fields_injective p q rssi snr now v w h k e =
      let value = λ (i : ℕ). ap (λ (l : List (String × Json)). (get_or l i ("", null)).1) e in
      let u = uid_to_hex_injective p.uid q.uid v.uid_bytes w.uid_bytes (text_injective (value 1)) in
      let t = names_apart p.node_type q.node_type h k (value 8) in
      payload_eq p q u (whole_injective (value 2)) (real_injective (value 3))
        (real_injective (value 4)) (real_injective (value 5)) (whole_injective (value 6))
        (whole_injective (value 7)) t
