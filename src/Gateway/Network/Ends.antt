-- ===== src/Gateway/Network/Ends.antt =====
-- src/nodes/gateway.cpp: how long the waits for the network take.
use io_t_firmware.Base.{
  ap, ℕ, zero, suc, ◌+◌, ◌≤◌, ◌≡◌, refl, ap₂, ◌∙◌, Bool, true, false, some, List, [], ◌∷◌, arith,
  ltb, length, take,
}
use io_t_firmware.Gateway.Network.{wifi_loop, setup_wifi}

-- How many readings come before the first that is true.
abbrev pub failures : List Bool → ℕ
failures [] = 0
failures (true ∷ bs) = 0
failures (false ∷ bs) = suc (failures bs)

wifi_loop-ends :
    (k c : ℕ) (bs : List Bool)
    → c + k ≡ 20
    → suc k ≤ length bs
    → let n = failures (take (suc k) bs) in wifi_loop c bs ≡ some (ltb n (suc k), c + n)
unfolding wifi_loop
wifi_loop-ends k c [] e l = absurd (omega arith)
wifi_loop-ends k c (true ∷ bs) e l =
    let first : true ≡ ltb 0 (suc k) = ground arith in
    ap₂ (λ (b : Bool) (n : ℕ). some (b, n)) first (omega arith)
wifi_loop-ends zero c (false ∷ bs) e l =
    let over : ltb 20 (c + 1) ≡ true = ground arith in rw over refl
wifi_loop-ends (suc k) c (false ∷ bs) e l =
    let under : ltb 20 (c + 1) ≡ false = ground arith in
    let n = failures (take (suc k) bs) in
    let later : ltb n (suc k) ≡ ltb (suc n) (suc (suc k)) = ground arith in
    rw under (
      wifi_loop-ends k (c + 1) bs (omega arith) (omega arith)
      ∙ ap₂ (λ (b : Bool) (m : ℕ). some (b, m)) later (omega arith))

-- Given 21 readings of the status, setup_wifi ends: it reports the network as joined exactly if one of
-- them says so, and has waited 500 ms for each reading before the first that does, or for all 21.
pub setup_wifi_lem :
    (bs : List Bool)
    → 21 ≤ length bs
    → let n = failures (take 21 bs) in setup_wifi bs ≡ some (ltb n 21, n)
setup_wifi_lem bs l =
    let n = failures (take 21 bs) in
    wifi_loop-ends 20 0 bs refl l ∙ ap (λ (m : ℕ). some (ltb n 21, m)) (omega arith)
