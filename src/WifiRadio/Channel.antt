-- ===== src/WifiRadio/Channel.antt =====
-- wifi_radio.cpp: the access point and the station share one channel for good.
use io_t_firmware.Base.{◌≡◌, refl, sym, ◌∙◌, ◌≢◌, true, List, [], ◌∷◌, arith, All}
use io_t_firmware.WifiRadio.{
  WifiRadio, wifi_radio_start_ap, wifi_radio_start_station, Request, start_ap, start_station,
  wanted, serve, serve_all,
}

-- A radio has a channel exactly once something has started on it, as the file's comment says.
abbrev IsOwned : WifiRadio → Type 0
IsOwned r = r.station_up ≡ true → r.radio_channel ≢ 0

serve_step :
    (q : Request) (r : WifiRadio)
    → IsOwned r
    → wanted q ≢ 0
    → let (ok, r') = serve q r in
      IsOwned r'
      × (r.radio_channel ≢ 0 → r'.radio_channel ≡ r.radio_channel)
      × (ok ≡ true → r'.radio_channel ≡ wanted q)
unfolding serve wifi_radio_start_ap wifi_radio_start_station
serve_step (start_ap ok channel) r v n = ground (arith, v, n)
serve_step (start_station ok channel) r v n = ground (arith, v, n)

serve_all_step :
    (qs : List Request) (r : WifiRadio)
    → IsOwned r
    → All (λ q. wanted q ≢ 0) qs
    → r.radio_channel ≢ 0
    → (serve_all qs r).radio_channel ≡ r.radio_channel
unfolding serve_all
serve_all_step [] r v n c = refl
serve_all_step (q ∷ qs) r v n c =
    let (owned, same, ok) = serve_step q r v n.0 in
    let kept = same c in serve_all_step qs (serve q r).1 owned n.1 (λ e. c (sym kept ∙ e)) ∙ kept

-- From a radio whose station, if it is up, has a channel, a start on a channel other than 0 that
-- reports success leaves the radio on that channel, and whatever starts on such channels follow,
-- successful or not, the radio stays on it.
pub channel_stays :
    (q : Request) (qs : List Request) (r : WifiRadio)
    → (r.station_up ≡ true → r.radio_channel ≢ 0)
    → wanted q ≢ 0
    → All (λ p. wanted p ≢ 0) qs
    → (serve q r).0 ≡ true
    → (serve_all (q ∷ qs) r).radio_channel ≡ wanted q
unfolding serve_all
channel_stays q qs r v n ns h =
    let (owned, same, ok) = serve_step q r v n in
    let here = ok h in serve_all_step qs (serve q r).1 owned ns (λ e. n (sym here ∙ e)) ∙ here
