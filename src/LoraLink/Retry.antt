-- ===== src/LoraLink/Retry.antt =====
-- lora_link.cpp: how often a reading is sent, and that every send comes to an end.
use io_t_firmware.Base.{
  ℕ, ◌+◌, ◌-◌, ◌*◌, ◌≤◌, ◌<◌, ◌≡◌, refl, ◌≢◌, ◌⊎◌, inl, inr, Bool, false, Option, none, some, List,
  [], ◌∷◌, ◌++◌, arith, ltb, if◌then◌else◌, length, length-append, All, All-append, sub32,
}
use Prim.Native.Nat.{max}
use io_t_firmware.Wire.{encode_payload}
use io_t_firmware.LoraLink.{
  poll_until_done, LoRaSendStatus, idle_status, status_pending, acked, failed, SendPhase, idle,
  transmit, await_ack, backoff, LoRaLinkConfig, LoRaLink, send_backoff_ms, Air, poll_transmit,
  poll_await, poll_backoff, poll_send,
}

module _ (c : LoRaLinkConfig) where
  -- The attempts that a send may make: the first is made whatever the configured number.
  abbrev pub budget : ℕ
  budget = max 1 c.max_retries

  -- The attempts made so far, by phase.
  abbrev pub Attempts : SendPhase → ℕ → Type 0
  Attempts idle a = Unit
  Attempts transmit a = a < budget
  Attempts await_ack a = (1 ≤ a) × (a ≤ budget)
  Attempts backoff a = (1 ≤ a) × (a ≤ budget)

  -- A bound on the polls to come, but for those that wait on a timer.
  abbrev pub rank : SendPhase → ℕ → ℕ
  rank idle a = 0
  rank transmit a = 3 * (budget - a) + 1
  rank await_ack a = 3 * (budget - a) + 3
  rank backoff a = 3 * (budget - a) + 2

  -- The poll waits: its timer runs, and no acknowledgement has come.
  abbrev pub waiting : Air → LoRaLink → Bool
  waiting air l = elim l.phase [
    | await_ack ↦ ltb (sub32 air.now l.phase_start) c.ack_timeout_ms
    | backoff ↦ ltb (sub32 air.now l.phase_start) send_backoff_ms
    | _ ↦ false
  ]

  pub record Polled (air : Air) (l : LoRaLink) (r : LoRaSendStatus × List (List ℕ) × LoRaLink)
      : Type 0 where
    pub same : r.2.pending ≡ l.pending
    pub counted : r.2.attempt ≡ l.attempt + length r.1
    pub frames : All (λ f. f ≡ encode_payload l.pending) r.1
    pub attempts : Attempts r.2.phase r.2.attempt
    -- A send that has not ended is under way, and nearer its end unless the poll had to wait.
    pub going :
        r.0 ≡ status_pending
        → (r.2.phase ≢ idle)
          × (rank r.2.phase r.2.attempt < rank l.phase l.attempt + (if waiting air l then 1 else 0))
    pub ended : r.0 ≡ failed → r.2.attempt ≡ budget
    pub accepted : r.0 ≡ acked → (1 ≤ r.2.attempt) × (r.2.attempt ≤ budget)
    pub busy : r.0 ≢ idle_status

  Polled-phase :
      (ph : SendPhase) (air : Air) (l : LoRaLink)
      → c.max_retries < 256
      → l.phase ≡ ph
      → ph ≢ idle
      → Attempts ph l.attempt
      → Polled air l (poll_send c air l)
  unfolding poll_send poll_transmit poll_await poll_backoff
  Polled-phase idle air l m e ne v = absurd (ne refl)
  Polled-phase transmit air l m e ne v = ground arith
  Polled-phase await_ack air l m e ne v = ground arith
  Polled-phase backoff air l m e ne v = ground arith

  Attempts-le : (ph : SendPhase) (a : ℕ) → ph ≢ idle → Attempts ph a → a ≤ budget
  Attempts-le idle a ne h = absurd (ne refl)
  Attempts-le transmit a ne h = omega arith
  Attempts-le await_ack a ne h = h.1
  Attempts-le backoff a ne h = h.1

  -- The polls of a send that had to wait on a timer.
  unfoldable pub waits : List Air → LoRaLink → ℕ
  waits [] l = 0
  waits (air ∷ airs) l =
      let rest = waits airs (poll_send c air l).2 in (if waiting air l then 1 else 0) + rest

  pub record Ran (airs : List Air) (l : LoRaLink)
      (r : Option LoRaSendStatus × List (List ℕ) × LoRaLink) : Type 0 where
    pub counted : r.2.attempt ≡ l.attempt + length r.1
    pub frames : All (λ f. f ≡ encode_payload l.pending) r.1
    pub at_most : r.2.attempt ≤ budget
    pub gave_up : r.0 ≡ some failed → r.2.attempt ≡ budget
    pub accepted : r.0 ≡ some acked → 1 ≤ r.2.attempt
    pub outcome : (s : LoRaSendStatus) → r.0 ≡ some s → (s ≡ acked) ⊎ (s ≡ failed)
    pub ends : r.0 ≡ none → length airs < waits airs l + rank l.phase l.attempt

  rank_pos : (ph : SendPhase) (a : ℕ) → ph ≢ idle → 0 < rank ph a
  rank_pos idle a ne = absurd (ne refl)
  rank_pos transmit a ne = omega arith
  rank_pos await_ack a ne = omega arith
  rank_pos backoff a ne = omega arith

  -- A poll that ends the send.
  Ran-last :
      (air : Air) (airs : List Air) (l : LoRaLink) (s : LoRaSendStatus)
      → Polled air l (poll_send c air l)
      → (poll_send c air l).0 ≡ s
      → (s ≡ acked) ⊎ (s ≡ failed)
      → Ran (air ∷ airs) l (some s, (poll_send c air l).1, (poll_send c air l).2)
  Ran-last air airs l s q e d = record {
    counted = q.counted;
    frames = q.frames;
    at_most = ground (arith, q.ended, q.accepted);
    gave_up = λ h. q.ended (ground arith);
    accepted = λ h. (q.accepted (ground arith)).0;
    outcome = λ t h. ground arith;
    ends = λ h. cc;
  }

  -- A poll after which the send goes on.
  Ran-next :
      (air : Air) (airs : List Air) (l : LoRaLink)
      (r : Option LoRaSendStatus × List (List ℕ) × LoRaLink)
      → Polled air l (poll_send c air l)
      → (poll_send c air l).0 ≡ status_pending
      → Ran airs (poll_send c air l).2 r
      → Ran (air ∷ airs) l (r.0, (poll_send c air l).1 ++ r.1, r.2)
  unfolding waits
  Ran-next air airs l r q e n = record {
    counted = omega (arith, n.counted, q.counted, length-append (poll_send c air l).1 r.1);
    frames =
        All-append (λ f. f ≡ encode_payload l.pending) (poll_send c air l).1 r.1 q.frames
          (rw (← q.same) n.frames);
    at_most = n.at_most;
    gave_up = n.gave_up;
    accepted = n.accepted;
    outcome = n.outcome;
    ends = λ h. omega (arith, n.ends h, (q.going e).1);
  }

  pub poll_until_done-Ran :
      (airs : List Air) (l : LoRaLink)
      → c.max_retries < 256
      → l.phase ≢ idle
      → Attempts l.phase l.attempt
      → Ran airs l (poll_until_done c airs l)
  unfolding poll_until_done
  poll_until_done-Ran [] l m ne v = record {
    counted = omega arith;
    frames = tt;
    at_most = Attempts-le l.phase l.attempt ne v;
    gave_up = λ h. cc;
    accepted = λ h. cc;
    outcome = λ s h. cc;
    ends = λ h. omega (arith, rank_pos l.phase l.attempt ne);
  }
  poll_until_done-Ran (air ∷ airs) l m ne v =
      go (poll_send c air l).0 refl (poll_until_done-Ran airs (poll_send c air l).2 m)
    where
      l' : LoRaLink
      l' = (poll_send c air l).2

      q : Polled air l (poll_send c air l)
      q = Polled-phase l.phase air l m refl ne v

      go :
          (s : LoRaSendStatus)
          → (poll_send c air l).0 ≡ s
          → (l'.phase ≢ idle
              → Attempts l'.phase l'.attempt
              → Ran airs l' (poll_until_done c airs l'))
          → Ran (air ∷ airs) l (elim s [
            | status_pending ↦ (
              (poll_until_done c airs l').0,
              (poll_send c air l).1 ++ (poll_until_done c airs l').1,
              (poll_until_done c airs l').2,
            )
            | t ↦ (some t, (poll_send c air l).1, l')
          ])
      go idle_status e ih = absurd (q.busy e)
      go status_pending e ih = Ran-next air airs l _ q e (ih (q.going e).0 q.attempts)
      go acked e ih = Ran-last air airs l acked q e (inl refl)
      go failed e ih = Ran-last air airs l failed q e (inr refl)
