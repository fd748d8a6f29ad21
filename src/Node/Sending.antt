-- ===== src/Node/Sending.antt =====
-- rs485_node.cpp: what a node sends, and with which sequence numbers.
use io_t_firmware.Base.{
  ap, ◌≡◌, refl, sym, ◌∙◌, ◌≢◌, ◌⊎◌, inl, inr, some, List, [], ◌∷◌, ◌++◌, arith, Bool-cases,
}
use io_t_firmware.SubstationLink.{send}
use io_t_firmware.MeterGate.{ready}
use io_t_firmware.Wire.{Payload}
use io_t_firmware.Node.{
  States, reading, sleeping, sending, Node, Round, seq_next, read_step, send_step, sleep_step,
  node_loop,
}

-- The rounds of rs485NodeLoop.
abbrev pub node_rounds : List Round → Node → Node
node_rounds [] n = n
node_rounds (x ∷ xs) n = node_rounds xs (node_loop x n)

-- A payload has the three values that the getters gave in a round.
pub record IsReadIn (x : Round) (p : Payload) : Type 0 where
  pub import_held : x.import_read ≡ some p.kwh_import
  pub export_held : x.export_read ≡ some p.kwh_export
  pub voltage_held : x.voltage_read ≡ some p.voltage

-- The reading of `m` is the one that round `y` of `xs` read, begun at `n`, and the counter stands as it
-- did in that round.
pub data Fresh (xs : List Round) (n m : Node) : Type 0 where
  read_in :
      (before : List Round) (y : Round) (after : List Round)
      → xs ≡ before ++ (y ∷ after)
      → (node_rounds before n).state ≡ reading
      → IsReadIn y m.payload
      → (node_rounds before n).seq ≡ m.seq
      → Fresh xs n m

-- A node that is about to send was so before, with the same reading, or has read it in this round.
data Origin (x : Round) (n m : Node) : Type 0 where
  waited : n.state ≡ sending → m.payload ≡ n.payload → m.seq ≡ n.seq → Origin x n m
  just_read : n.state ≡ reading → IsReadIn x m.payload → m.seq ≡ n.seq → Origin x n m

read_step-values :
    (x : Round) (n : Node)
    → n.state ≡ reading
    → (read_step x n).state ≡ sending
    → let p = (read_step x n).payload in
      (x.import_read ≡ some p.kwh_import)
      × (x.export_read ≡ some p.kwh_export)
      × (x.voltage_read ≡ some p.voltage)
      × ((read_step x n).seq ≡ n.seq)
unfolding read_step
read_step-values x n s e = ground arith

states-cases : (s : States) → (s ≡ reading) ⊎ (s ≡ sending) ⊎ (s ≡ sleeping)
states-cases reading = inl refl
states-cases sending = inr (inl refl)
states-cases sleeping = inr (inr refl)

sleep_step-rests : (x : Round) (n : Node) → n.state ≡ sleeping → (sleep_step x n).state ≢ sending
unfolding sleep_step
sleep_step-rests x n s e = ground arith

node_loop-Origin :
    (x : Round) (n : Node) → (node_loop x n).state ≡ sending → Origin x n (node_loop x n)
unfolding node_loop send_step
node_loop-Origin x n =
    let g = ready x.gate_now x.probe_ok n.gate in
    let m : Node = record n { gate = g.1 } in
    elim (Bool-cases n.setup_ok) [
      | inr h ↦ rw h (λ s. waited s refl refl)
      | inl h ↦ rw h (elim (Bool-cases g.0) [
        | inr k ↦ rw k (λ s. waited s refl refl)
        | inl k ↦ rw k (elim (states-cases n.state) [
          | inl e ↦ rw e (λ s.
              let (i, o, v, same) = read_step-values x m e s in
              just_read refl (record { import_held = i; export_held = o; voltage_held = v }) same)
          | inr (inl e) ↦ rw e (λ s. absurd (ground arith))
          | inr (inr e) ↦ rw e (λ s. absurd (sleep_step-rests x m e s))
        ])
      ])
    ]

-- Where a node is about to send behind some rounds, it was so before them, with the same reading and
-- number, or the reading is fresh from one of them.
rounds-Fresh :
    (xs : List Round) (n : Node)
    → let m = node_rounds xs n in
      m.state ≡ sending
      → ((n.state ≡ sending) × (m.payload ≡ n.payload) × (m.seq ≡ n.seq)) ⊎ Fresh xs n m
rounds-Fresh [] n s = inl (s, refl, refl)
rounds-Fresh (x ∷ xs) n s = elim (rounds-Fresh xs (node_loop x n) s) [
  | inr (read_in before y after e r v q) ↦
      inr (read_in (x ∷ before) y after (ap (λ t. x ∷ t) e) r v q)
  | inl (now, payload, seq) ↦ elim (node_loop-Origin x n now) [
    | waited was same kept ↦ inl (was, payload ∙ same, seq ∙ kept)
    | just_read was v kept ↦ inr (read_in [] x xs refl was (rw payload v) (sym (seq ∙ kept)))
  ]
]

-- What a round does to the link and the counter of a node that has come through some rounds: nothing,
-- or the send of a fresh reading under the next number.
pub data Sends (xs : List Round) (start : Node) (x : Round) (n m : Node) : Type 0 where
  quiet : m.link ≡ n.link → m.seq ≡ n.seq → Sends xs start x n m
  sent :
      Fresh xs start n
      → m.payload ≡ record n.payload { seq = seq_next n.seq }
      → m.link ≡ (send x.waiting x.tries m.payload n.link).1
      → m.seq ≡ m.payload.seq
      → m.state ≡ sleeping
      → Sends xs start x n m

read_step-quiet :
    (x : Round) (n : Node) → ((read_step x n).link ≡ n.link) × ((read_step x n).seq ≡ n.seq)
unfolding read_step
read_step-quiet x n = ground arith

sleep_step-quiet :
    (x : Round) (n : Node) → ((sleep_step x n).link ≡ n.link) × ((sleep_step x n).seq ≡ n.seq)
unfolding sleep_step
sleep_step-quiet x n = ground arith

-- A node that starts in its reading step uses its link only to send a reading, once: import, export and
-- voltage are what the getters gave in one and the same earlier round, which found the node in its
-- reading step and its counter as it is now, the reading goes out under the next number, and the node
-- then sleeps. In every other round the link and the counter stay as they are.
pub node_loop-Sends :
    (xs : List Round) (x : Round) (start : Node)
    → start.state ≡ reading
    → let n = node_rounds xs start in Sends xs start x n (node_loop x n)
unfolding node_loop send_step
node_loop-Sends xs x start r =
    let n = node_rounds xs start in
    let g = ready x.gate_now x.probe_ok n.gate in
    let m : Node = record n { gate = g.1 } in
    let fresh : n.state ≡ sending → Fresh xs start n = λ s. elim (rounds-Fresh xs start s) [
      | inl (was, payload, seq) ↦ absurd (let e = sym r ∙ was in ground arith)
      | inr f ↦ f
    ] in
    elim (Bool-cases n.setup_ok) [
      | inr h ↦ rw h (quiet refl refl)
      | inl h ↦ rw h (elim (Bool-cases g.0) [
        | inr k ↦ rw k (quiet refl refl)
        | inl k ↦ rw k (elim (states-cases n.state) [
          | inl e ↦ rw e (quiet (read_step-quiet x m).0 (read_step-quiet x m).1)
          | inr (inl e) ↦ rw e (sent (fresh e) refl refl refl refl)
          | inr (inr e) ↦ rw e (quiet (sleep_step-quiet x m).0 (sleep_step-quiet x m).1)
        ])
      ])
    ]
