-- ===== src/Iec62056/Import.antt =====
-- lib/protocols/iec62056_21/iec62056_21.cpp: what a read returns, and its results on every branch.
use mathlib.Core.Option
use io_t_firmware.Base.{
  ℕ, ◌-◌, ◌*◌, ◌^◌, ◌≤◌, ◌<◌, ◌≡◌, refl, ◌∙◌, ◌≢◌, ◌⊎◌, inl, inr, false, not, ◌||◌, Option, none,
  some, List, arith, ltb, ◌==◌, if◌then◌else◌, Bool-cases, Option-cases, if_either, length, get_or,
}
use io_t_firmware.Iec62056.{
  export_code, data_timeout_ms, block_end, read_until, read_identification, ReadAir, check_frame,
  handshake, get_export, import_code, Wait, request_identification, read_block, parse_obis_float,
  acknowledge, Code, get_import, restart, Reader, import_block, baud_rate_from_id, agreed,
  no_answer, malformed, unknown_baud, Identified, identify,
}

-- The rate that a digit stands for.
baud_rate_from_id-digit :
    (c b : ℕ) → baud_rate_from_id c ≡ some b → (0x30 ≤ c) × (c ≤ 0x36) × (b ≡ 300 * 2 ^ (c - 0x30))
unfolding baud_rate_from_id
baud_rate_from_id-digit c b e = ground arith

baud_rate_from_id-none : (c : ℕ) → baud_rate_from_id c ≡ none → (c < 0x30) ⊎ (0x36 < c)
unfolding baud_rate_from_id
baud_rate_from_id-none c e = ground arith

-- The four results of an identification, by what stands in it.
abbrev pub Answered : List ℕ → Identified → Type 0
Answered id i =
    let c = get_or id 4 0 in
    ((length id ≡ 0) × (i.code ≡ no_answer))
    ⊎ ((0 < length id) × ((length id < 7) ⊎ (get_or id 0 0 ≢ 0x2F)) × (i.code ≡ malformed))
    ⊎ ((7 ≤ length id)
        × (get_or id 0 0 ≡ 0x2F)
        × ((c < 0x30) ⊎ (0x36 < c))
        × (i.code ≡ unknown_baud))
    ⊎ ((7 ≤ length id)
        × (get_or id 0 0 ≡ 0x2F)
        × (0x30 ≤ c)
        × (c ≤ 0x36)
        × (i.code ≡ agreed)
        × (i.offered_baud ≡ 300 * 2 ^ (c - 0x30)))

identify-Answered : (id : List ℕ) → Answered id (identify id)
unfolding identify
identify-Answered id =
    let c = get_or id 4 0 in
    if_either (Answered id) (length id == 0) (λ e. inl (ground arith, refl))
      (λ some_answer.
        if_either (Answered id) (ltb (length id) 7 || not (get_or id 0 0 == 0x2F))
          (λ e. inr (inl (ground arith, ground arith, refl)))
          (λ e. elim (Option-cases (baud_rate_from_id c)) [
            | inl n ↦
                rw n
                  (inr (inr (inl (ground arith, ground arith, baud_rate_from_id-none c n, refl))))
            | inr (b, f) ↦
                let (low, high, rate) = baud_rate_from_id-digit c b f in
                rw f (inr (inr (inr (ground arith, ground arith, low, high, refl, rate))))
          ]))

-- Whatever the waits hear, requestIdentification reports by the identification that it has read: no
-- answer if it is empty, a malformed one if it is shorter than 7 bytes or does not start with "/", an
-- unknown rate if its fifth byte is no digit from 0 to 6, and otherwise agreement at 300 baud times 2
-- to the power of that digit.
pub request_identification-Answered :
    (first second : Wait) (r : Reader)
    → let (cs, i, r') = request_identification first second r in
      (i.identification ≡ read_identification first second) × Answered i.identification i
unfolding request_identification identify
request_identification-Answered first second r =
    let id = read_identification first second in
    let same : (identify id).identification ≡ id = ground arith in
    (same, rw same (identify-Answered id))

module _ (strtof : List ℕ → ℕ × ℕ) where
  -- The two values of a data block in which both codes have one.
  abbrev pub values : List ℕ → Option (ℕ × ℕ)
  values block = elim (parse_obis_float strtof block import_code) [
    | none ↦ none
    | some i ↦ Option.map (λ e. (i, e)) (parse_obis_float strtof block export_code)
  ]

  -- What a read can report: nothing without an agreed rate and a data block in order, else its values.
  abbrev pub reported : Code → Wait → List ℕ → Option (ℕ × ℕ)
  reported agreed tail block =
      if length block == 0 || not (check_frame tail block) then none else values block
  reported no_answer tail block = none
  reported malformed tail block = none
  reported unknown_baud tail block = none

  -- A result and the reader behind it agree with what could be reported.
  record Reports (o : Option (ℕ × ℕ)) (r : Option ℕ × Reader) : Type 0 where
    imported : r.0 ≡ Option.map (λ (i, e). i) o
    exported : get_export r.1 ≡ Option.map (λ (i, e). e) o

  import_block-Reports :
      (tail : Wait) (block : List ℕ) (r : Reader)
      → r.export_valid ≡ false
      → Reports (reported agreed tail block) (import_block strtof tail block r)
  unfolding import_block get_export
  import_block-Reports tail block r f =
      elim (Bool-cases (length block == 0 || not (check_frame tail block))) [
        | inl e ↦ rw (import_block, e) (record { imported = refl; exported = rw f refl })
        | inr e ↦ elim (Option-cases (parse_obis_float strtof block import_code)) [
          | inl n ↦
              rw (import_block, values, e, n) (record { imported = refl; exported = rw f refl })
          | inr (i, p) ↦ elim (Option-cases (parse_obis_float strtof block export_code)) [
            | inl n ↦
                rw (import_block, values, e, p, n)
                  (record { imported = refl; exported = rw f refl })
            | inr (x, q) ↦
                rw (import_block, values, e, p, q) (record { imported = refl; exported = refl })
          ]
        ]
      ]

  read_block-Reports :
      (c : Code) (air : ReadAir) (r : Reader)
      → r.export_valid ≡ false
      → Reports
          (reported c air.tail (read_until block_end data_timeout_ms air.data_block))
          (read_block strtof c air r)
  unfolding read_block get_export
  read_block-Reports agreed air r f =
      import_block-Reports air.tail (read_until block_end data_timeout_ms air.data_block) r f
  read_block-Reports no_answer air r f = record { imported = refl; exported = ground arith }
  read_block-Reports malformed air r f = record { imported = refl; exported = ground arith }
  read_block-Reports unknown_baud air r f = record { imported = refl; exported = ground arith }

  acknowledge_keeps :
      (c : Code) (i : Identified) (r : Reader)
      → let (cs, h, r') = acknowledge c i r in (h.0 ≡ c) × (r'.export_valid ≡ r.export_valid)
  unfolding acknowledge
  acknowledge_keeps agreed i r = (refl, refl)
  acknowledge_keeps no_answer i r = (refl, refl)
  acknowledge_keeps malformed i r = (refl, refl)
  acknowledge_keeps unknown_baud i r = (refl, refl)

  restart_keeps : (r : Reader) → (restart r).1.export_valid ≡ r.export_valid
  unfolding restart
  restart_keeps r = ground arith

  -- Whatever an earlier read has left in the reader, get_import and the get_export behind it give the
  -- two values of the same data block, if the meter agreed to a rate, the block is not empty and its
  -- check is in order, and both codes have a value in it, and neither gives any value otherwise.
  pub get_import_reports :
      (air : ReadAir) (r : Reader)
      → let (cs, v, r') = get_import strtof air r in
        let i = identify (read_identification air.first air.second) in
        let o = reported i.code air.tail (read_until block_end data_timeout_ms air.data_block) in
        (v ≡ Option.map (λ (i, e). i) o) × (get_export r' ≡ Option.map (λ (i, e). e) o)
  unfolding get_import handshake request_identification
  get_import_reports air r =
      let i = identify (read_identification air.first air.second) in
      let r₀ : Reader = record r { export_valid = false } in
      let r₁ = (restart r₀).1 in
      let (code, valid) = acknowledge_keeps i.code i r₁ in
      let k =
        read_block-Reports i.code air (acknowledge i.code i r₁).2 (valid ∙ restart_keeps r₀) in
      rw code (k.imported, k.exported)
