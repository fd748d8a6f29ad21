-- ===== src/Dlms/Association.antt =====
-- lib/protocols/dlms_cosem/dlms_cosem.cpp, checkAare: the loop over the fields of the response to an
-- association request, and its fuel.
use io_t_firmware.Base.{
  ℕ, zero, suc, ◌+◌, ◌-◌, ◌≤◌, ◌<◌, ◌≡◌, refl, sym, inl, inr, true, false, ◌&&◌, none, some, List,
  arith, leb, ◌==◌, Bool-cases, Option-cases, length, get_or,
}
use io_t_firmware.Dlms.{check_aare, read_ber_length, Aare, aare_field, aare_fields}

-- The value of a field stands behind its tag and its length.
read_ber_length_ahead :
    (buf : List ℕ) (end pos len p : ℕ) → read_ber_length buf end pos ≡ some (len, p) → suc pos ≤ p
unfolding read_ber_length
read_ber_length_ahead buf end pos len p e = ground arith

read_ber_length_near :
    (buf : List ℕ) (end pos len p : ℕ) → read_ber_length buf end pos ≡ some (len, p) → p ≤ pos + 2
unfolding read_ber_length
read_ber_length_near buf end pos len p e = ground arith

read_ber_length_inside :
    (buf : List ℕ) (end pos len p : ℕ) → read_ber_length buf end pos ≡ some (len, p) → p ≤ end
unfolding read_ber_length
read_ber_length_inside buf end pos len p e = ground arith

-- With fuel for each byte that is left, more fuel changes nothing.
pub aare_fields_enough :
    (n m : ℕ) (apdu : List ℕ) (end pos : ℕ) (a : Aare)
    → end - pos < n
    → n ≤ m
    → aare_fields m apdu end pos a ≡ aare_fields n apdu end pos a
unfolding aare_fields
aare_fields_enough zero zero apdu end pos a h l = refl
aare_fields_enough zero (suc m) apdu end pos a h l = absurd (omega arith)
aare_fields_enough (suc n) zero apdu end pos a h l = absurd (omega arith)
aare_fields_enough (suc n) (suc m) apdu end pos a h l = elim (Bool-cases (leb end pos)) [
  | inl done ↦ rw done refl
  | inr on ↦ elim (Option-cases (read_ber_length apdu end (pos + 1))) [
    | inl e ↦ rw (on, e) refl
    | inr ((len, p), e) ↦
        let inside : pos < end = ground arith in
        let ahead = read_ber_length_ahead apdu end (pos + 1) len p e in
        let next = aare_field apdu (get_or apdu pos 0) p len a in
        rw (on, e, aare_fields_enough n m apdu end (p + len) next (omega arith) (omega arith)) refl
  ]
]

-- An association-result field whose one integer is `r`: its tag stands at `t`, its value at `q`,
-- with a length of one or two bytes in between.
abbrev pub ResultField : List ℕ → ℕ → Type 0
ResultField apdu r =
    (t : ℕ) × (q : ℕ) × (t + 2 ≤ q)
    × (q ≤ t + 3)
    × (q + 3 ≤ length apdu)
    × (get_or apdu t 0 ≡ 0xA2)
    × (get_or apdu (q + 0) 0 ≡ 0x02)
    × (get_or apdu (q + 1) 0 ≡ 0x01)
    × (get_or apdu (q + 2) 0 ≡ r)

-- A user-information field that holds an initiate response.
abbrev pub InitiateField : List ℕ → Type 0
InitiateField apdu =
    (t : ℕ) × (q : ℕ) × (t + 2 ≤ q)
    × (q ≤ t + 3)
    × (q + 3 ≤ length apdu)
    × (get_or apdu t 0 ≡ 0xBE)
    × (get_or apdu (q + 0) 0 ≡ 0x04)
    × (get_or apdu (q + 2) 0 ≡ 0x08)

abbrev Told : List ℕ → Aare → Type 0
Told apdu a =
    ((r : ℕ) → a.result ≡ some r → ResultField apdu r) × (a.initiated ≡ true → InitiateField apdu)

aare_field-result :
    (apdu : List ℕ) (pos p len : ℕ) (a : Aare)
    → pos + 2 ≤ p
    → p ≤ pos + 3
    → p + len ≤ length apdu
    → Told apdu a
    → (r : ℕ) → (aare_field apdu (get_or apdu pos 0) p len a).result ≡ some r
    → ResultField apdu r
unfolding aare_field
aare_field-result apdu pos p len a l k b told r e =
    elim (Bool-cases (
      get_or apdu pos 0 == 0xA2
      && (len == 3 && get_or apdu (p + 0) 0 == 0x02 && get_or apdu (p + 1) 0 == 0x01))) [
        | inl taken ↦
            (pos, p, l, k, ground arith, ground arith, ground arith, ground arith, ground arith)
        | inr kept ↦ let same : a.result ≡ some r = ground arith in told.0 r same
      ]

aare_field-initiated :
    (apdu : List ℕ) (pos p len : ℕ) (a : Aare)
    → pos + 2 ≤ p
    → p ≤ pos + 3
    → p + len ≤ length apdu
    → Told apdu a
    → (aare_field apdu (get_or apdu pos 0) p len a).initiated ≡ true
    → InitiateField apdu
unfolding aare_field
aare_field-initiated apdu pos p len a l k b told e =
    elim (Bool-cases (get_or apdu pos 0 == 0xBE && (leb 3 len && get_or apdu (p + 0) 0 == 0x04))) [
      | inl taken ↦ (pos, p, l, k, ground arith, ground arith, ground arith, ground arith)
      | inr kept ↦ let same : a.initiated ≡ true = ground arith in told.1 same
    ]

aare_fields-Told :
    (n : ℕ) (apdu : List ℕ) (end pos : ℕ) (a b : Aare)
    → end ≤ length apdu
    → Told apdu a
    → aare_fields n apdu end pos a ≡ some b
    → Told apdu b
unfolding aare_fields
aare_fields-Told zero apdu end pos a b l told e = absurd (ground arith)
aare_fields-Told (suc n) apdu end pos a b l told e = elim (Bool-cases (leb end pos)) [
  | inl done ↦ let same : a ≡ b = ground arith in rw (sym same) told
  | inr on ↦ elim (Option-cases (read_ber_length apdu end (pos + 1))) [
    | inl bad ↦ absurd (ground arith)
    | inr ((len, p), good) ↦
        let ahead = read_ber_length_ahead apdu end (pos + 1) len p good in
        let near : p ≤ pos + 3 =
          omega (arith, read_ber_length_near apdu end (pos + 1) len p good) in
        let next = aare_field apdu (get_or apdu pos 0) p len a in
        let rest : aare_fields n apdu end (p + len) next ≡ some b = ground arith in
        let fits : p + len ≤ length apdu =
          ground (arith, read_ber_length_inside apdu end (pos + 1) len p good) in
        aare_fields-Told n apdu end (p + len) next b l
          (
            aare_field-result apdu pos p len a (omega arith) near fits told,
            aare_field-initiated apdu pos p len a (omega arith) near fits told,
          )
          rest
  ]
]

-- An accepted response is an AARE that holds a result field with the result 0, which is accepted, and
-- a user-information field with an initiate response, both inside the bytes received.
pub check_aare_sound :
    (apdu : List ℕ)
    → check_aare apdu ≡ true
    → (get_or apdu 0 0 ≡ 0x61) × ResultField apdu 0 × InitiateField apdu
unfolding check_aare
check_aare_sound apdu e = elim (Option-cases (read_ber_length apdu (length apdu) 1)) [
  | inl bad ↦ absurd (ground arith)
  | inr ((body, pos), good) ↦
      let start : Aare = record { result = none; diagnostic = none; initiated = false } in
      elim (Option-cases (aare_fields (suc (length apdu)) apdu (pos + body) pos start)) [
        | inl cut ↦ absurd (ground arith)
        | inr (a, all) ↦
            let fits : pos + body ≤ length apdu =
              ground (arith, read_ber_length_inside apdu (length apdu) 1 body pos good) in
            let told =
              aare_fields-Told (suc (length apdu)) apdu (pos + body) pos start a fits
                ((λ r h. absurd (ground arith)), λ h. absurd (ground arith)) all in
            let zero_result : a.result ≡ some 0 = ground arith in
            let begun : a.initiated ≡ true = ground arith in
            (ground arith, told.0 0 zero_result, told.1 begun)
      ]
]
