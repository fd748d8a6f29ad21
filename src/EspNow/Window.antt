-- ===== src/EspNow/Window.antt =====
-- lib/links/esp_now_uplink/esp_now_uplink.cpp: the queue of received frames keeps the newest ones.
use io_t_firmware.Base.{
  ℕ, zero, suc, ◌-◌, ◌≤◌, ◌<◌, ◌≡◌, refl, sym, ap, ap₂, ◌∙◌, inl, inr, true, false, not, none, some,
  List, [], ◌∷◌, ◌++◌, arith, ltb, if◌then◌else◌, ltb→lt, Bool-cases, if_either, length, get_elem?,
  take, drop, length-append, length-drop, take_all,
}
use io_t_firmware.Queue.{Queue, IsQueue}
use io_t_firmware.EspNow.{
  rx_queue_depth, RxFrame, Callback, sent_status, frame_in, RxResult, nothing_waiting, hand_over,
  Uplink, on_sent, on_received, run_callback, receive_packet,
}

-- The newest items of a list, up to a number of them.
abbrev pub newest {ℓ} : {A : Type ℓ} → ℕ → List A → List A
newest n xs = drop (length xs - n) xs

take_short {ℓ} : {A : Type ℓ} (n : ℕ) (xs : List A) → length xs ≤ n → take n xs ≡ xs
take_short zero [] l = refl
take_short zero (x ∷ xs) l = absurd (omega arith)
take_short (suc n) [] l = refl
take_short (suc n) (x ∷ xs) l = ap (λ t. x ∷ t) (take_short n xs (omega arith))

-- What the link's owner and the radio do, in order.
pub data Event : Type 0 where
  called_back : Callback → Event
  taken : ℕ → Event

-- What the frames that wait become, and what receivePacket returns, as the owner sees it: a frame that
-- comes in joins them, cut to the longest length, and at most the newest four stay.
unfoldable pub window_step : ℕ → Event → List RxFrame → List RxResult × List RxFrame
window_step max (called_back (sent_status s)) fs = ([], fs)
window_step max (called_back (frame_in mac bytes)) fs =
    ([], newest rx_queue_depth (fs ++ (record { mac = mac; data_bytes = take max bytes } ∷ [])))
window_step max (taken buf_len) [] = (nothing_waiting ∷ [], [])
window_step max (taken buf_len) (f ∷ fs) = (hand_over buf_len (some f) ∷ [], fs)

unfoldable pub window_run : ℕ → List Event → List RxFrame → List RxResult × List RxFrame
window_run max [] fs = ([], fs)
window_run max (e ∷ es) fs =
    let (r, gs) = window_step max e fs in let (rs, hs) = window_run max es gs in (r ++ rs, hs)

module _ (max_data_len : ℕ) (Q : Queue RxFrame) where
  abbrev pub link_step : Event → Uplink max_data_len Q → List RxResult × Uplink max_data_len Q
  link_step (called_back c) u = ([], run_callback max_data_len Q c u)
  link_step (taken buf_len) u =
      let (r, u') = receive_packet max_data_len Q buf_len u in (r ∷ [], u')

  unfoldable pub link_run :
      List Event → Uplink max_data_len Q → List RxResult × Uplink max_data_len Q
  link_run [] u = ([], u)
  link_run (e ∷ es) u = let (r, v) = link_step e u in let (rs, w) = link_run es v in (r ++ rs, w)

module _ (max_data_len : ℕ) (Q : Queue RxFrame) (laws : IsQueue Q rx_queue_depth) where
  abbrev waiting : Uplink max_data_len Q → List RxFrame
  waiting u = Q.items u.rx_queue

  -- One step of the link against one of the window.
  record Matches (o : List RxResult × List RxFrame) (r : List RxResult × Uplink max_data_len Q)
      : Type 0 where
    results : r.0 ≡ o.0
    frames : waiting r.1 ≡ o.1
    live : r.1.initialised ≡ true
    bounded : length (waiting r.1) ≤ rx_queue_depth

  take_cut :
      (max : ℕ) (bs : List ℕ)
      → take (if ltb max (length bs) then max else length bs) bs ≡ take max bs
  take_cut max bs =
      if_either (λ n. take n bs ≡ take max bs) (ltb max (length bs)) (λ e. refl)
        (λ e. take_all (length bs) bs refl ∙ sym (take_short max bs (ground arith)))

  drop_one :
      (fs : List RxFrame) (f : RxFrame)
      → 0 < length fs
      → drop 1 (fs ++ (f ∷ [])) ≡ drop 1 fs ++ (f ∷ [])
  drop_one [] f l = absurd (omega arith)
  drop_one (g ∷ fs) f l = refl

  -- What onReceived makes of the queue.
  abbrev pushed : RxFrame → Q.Handle → Q.Handle
  pushed f h =
      let (queued, q) = Q.queue_send f h in
      if not queued then (Q.queue_send f (Q.queue_receive q).1).1 else q

  items-pushed :
      (f : RxFrame) (h : Q.Handle)
      → length (Q.items h) ≤ rx_queue_depth
      → Q.items (pushed f h) ≡ newest rx_queue_depth (Q.items h ++ (f ∷ []))
  items-pushed f h l =
      let fs = Q.items h in
      let size = length-append fs (f ∷ []) in
      let said = laws.sent f h in
      let kept = laws.items-send f h in
      let q = (Q.queue_send f h).1 in
      elim (Bool-cases (ltb (length fs) rx_queue_depth)) [
        | inl e ↦
            let none_over : length (fs ++ (f ∷ [])) - rx_queue_depth ≡ 0 =
              omega (arith, ltb→lt (length fs) rx_queue_depth e) in
            let taken : (Q.queue_send f h).0 ≡ true = said ∙ e in
            rw (taken, none_over) (kept ∙ ap (λ b. if b then fs ++ (f ∷ []) else fs) e)
        | inr e ↦
            let full : length fs ≡ rx_queue_depth = ground arith in
            let one_over : length (fs ++ (f ∷ [])) - rx_queue_depth ≡ 1 = omega arith in
            let refused : (Q.queue_send f h).0 ≡ false = said ∙ e in
            let same : Q.items q ≡ fs = kept ∙ ap (λ b. if b then fs ++ (f ∷ []) else fs) e in
            let room : Q.items (Q.queue_receive q).1 ≡ drop 1 fs =
              laws.items-receive q ∙ ap (drop 1) same in
            let three = length-drop 1 fs in
            let fits : ltb (length (Q.items (Q.queue_receive q).1)) rx_queue_depth ≡ true =
              rw room (ground arith) in
            let again = laws.items-send f (Q.queue_receive q).1 in
            rw (refused, one_over, drop_one fs f (omega arith))
              (again
                ∙ ap
                    (λ b.
                      if b
                      then Q.items (Q.queue_receive q).1 ++ (f ∷ [])
                      else Q.items (Q.queue_receive q).1)
                    fits
                ∙ ap (λ t. t ++ (f ∷ [])) room)
      ]

  abbrev cut : List ℕ → List ℕ → RxFrame
  cut mac bytes = record { mac = mac; data_bytes = take max_data_len bytes }

  on_received-pushed :
      (mac bytes : List ℕ) (u : Uplink max_data_len Q)
      → u.initialised ≡ true
      → on_received max_data_len Q mac bytes u
        ≡ record u { rx_queue = pushed (cut mac bytes) u.rx_queue }
  unfolding on_received
  on_received-pushed mac bytes u i = elim (Bool-cases (Q.queue_send (cut mac bytes) u.rx_queue).0) [
    | inl e ↦ rw (i, take_cut max_data_len bytes, e) refl
    | inr e ↦ rw (i, take_cut max_data_len bytes, e) refl
  ]

  length-newest : (n : ℕ) (fs : List RxFrame) → length (newest n fs) ≤ n
  length-newest n fs = omega (arith, length-drop (length fs - n) fs)

  taken-Matches :
      (buf_len : ℕ) (u : Uplink max_data_len Q) (fs : List RxFrame)
      → waiting u ≡ fs
      → u.initialised ≡ true
      → length (waiting u) ≤ rx_queue_depth
      → Matches
          (window_step max_data_len (taken buf_len) fs)
          (link_step max_data_len Q (taken buf_len) u)
  unfolding window_step receive_packet hand_over
  taken-Matches buf_len u [] e i l =
      let none_here : (Q.queue_receive u.rx_queue).0 ≡ none =
        laws.received u.rx_queue ∙ ap (λ q. get_elem? q 0) e in
      let left = laws.items-receive u.rx_queue ∙ ap (drop 1) e in
      record {
        results = ap (λ f. hand_over buf_len f ∷ []) none_here;
        frames = left;
        live = i;
        bounded = omega (arith, ap length left);
      }
  taken-Matches buf_len u (f ∷ fs) e i l =
      let first : (Q.queue_receive u.rx_queue).0 ≡ some f =
        laws.received u.rx_queue ∙ ap (λ q. get_elem? q 0) e in
      let left = laws.items-receive u.rx_queue ∙ ap (drop 1) e in
      record {
        results = ap (λ g. hand_over buf_len g ∷ []) first;
        frames = left;
        live = i;
        bounded = omega (arith, ap length left, ap length e, l);
      }

  link_step-Matches :
      (e : Event) (u : Uplink max_data_len Q)
      → u.initialised ≡ true
      → length (waiting u) ≤ rx_queue_depth
      → Matches (window_step max_data_len e (waiting u)) (link_step max_data_len Q e u)
  unfolding window_step run_callback on_sent receive_packet
  link_step-Matches (called_back (sent_status s)) u i l =
      rw i (record { results = refl; frames = refl; live = refl; bounded = l })
  link_step-Matches (called_back (frame_in mac bytes)) u i l =
      let f = cut mac bytes in
      let now = items-pushed f u.rx_queue l in
      rw (on_received-pushed mac bytes u i) (record {
        results = refl;
        frames = now;
        live = i;
        bounded = rw now (length-newest rx_queue_depth (waiting u ++ (f ∷ [])));
      })
  link_step-Matches (taken buf_len) u i l = taken-Matches buf_len u (waiting u) refl i l

  -- On any queue with room for four frames, from an initialised link whose queue holds at most four,
  -- any sequence of callbacks and of calls of receivePacket returns the results of a list to which each
  -- frame that comes in is appended, cut to the longest length, of which the newest four stay, and
  -- from which each call takes the first; the frames that wait behind it are those of that list.
  pub link_run_refines :
      (es : List Event) (u : Uplink max_data_len Q)
      → u.initialised ≡ true
      → length (Q.items u.rx_queue) ≤ rx_queue_depth
      → let (r, u') = link_run max_data_len Q es u in
        let (o, fs) = window_run max_data_len es (Q.items u.rx_queue) in
        (r ≡ o) × (Q.items u'.rx_queue ≡ fs)
  unfolding link_run window_run
  link_run_refines [] u i l = (refl, refl)
  link_run_refines (e ∷ es) u i l =
      let m = link_step-Matches e u i l in
      let (r, f) = link_run_refines es (link_step max_data_len Q e u).1 m.live m.bounded in
      (
        ap₂ (λ a b. a ++ b) m.results (r ∙ ap (λ fs. (window_run max_data_len es fs).0) m.frames),
        f ∙ ap (λ fs. (window_run max_data_len es fs).1) m.frames,
      )
