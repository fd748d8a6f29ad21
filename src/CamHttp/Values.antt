-- ===== src/CamHttp/Values.antt =====
-- cam_http.cpp: when the camera gives a value.
use mathlib.Core.Option
use io_t_firmware.Base.{
  ℕ, ◌<◌, ◌≡◌, refl, sym, ap, ◌∙◌, ◌⊎◌, inl, inr, true, Option, some, List, [], ◌∷◌, ◌++◌, arith,
  bytes_eq, bytes_eq→eq, bind-eq-some, length,
}
use io_t_firmware.CamHttp.{
  CamHttpConfig, Flow, HttpAir, drain_body, read_response, http_prefix, no_error, fetch, flow_value,
  read_flow,
}

module _ {Doc : Type 0} (deserialize : List ℕ → Option Doc) (flow_of : Doc → List ℕ → Option Flow)
    (atof : List ℕ → ℕ) where
  -- A flow whose value may be read.
  record IsGood (f : Flow) : Type 0 where
    no_fault : (f.error ≡ []) ⊎ (f.error ≡ no_error)
    has_value : 0 < length f.value

  empty : (xs : List ℕ) → length xs ≡ 0 → xs ≡ []
  empty [] e = refl
  empty (x ∷ xs) e = absurd (omega arith)

  flow_value-IsGood :
      (f : Flow) (v : ℕ)
      → flow_value deserialize flow_of atof f ≡ some v
      → IsGood f × (v ≡ atof f.value)
  unfolding flow_value
  flow_value-IsGood f v e =
      let fault : (length f.error ≡ 0) ⊎ (bytes_eq f.error no_error ≡ true) = ground arith in
      let clean : (f.error ≡ []) ⊎ (f.error ≡ no_error) = elim fault [
        | inl h ↦ inl (empty f.error h)
        | inr h ↦ inr (bytes_eq→eq f.error no_error h)
      ] in
      (record { no_fault = clean; has_value = ground arith }, ground arith)

  -- A read of a flow gives a value only if the request was sent, the bytes that came back before the
  -- first failed read are not empty and are a document, and that has the flow with an empty error or
  -- "no error" and with a value that is not empty, which is then the one given.
  pub read_flow_sound :
      (c : CamHttpConfig) (air : HttpAir) (flow : List ℕ) (v : ℕ)
      → read_flow deserialize flow_of atof c air flow ≡ some v
      → (doc : Doc) × (f : Flow) × (air.send_ok (http_prefix ++ (c.host ++ c.path)) ≡ true)
        × (0 < length (drain_body air.bytes))
        × (deserialize (drain_body air.bytes) ≡ some doc)
        × (flow_of doc flow ≡ some f)
        × ((f.error ≡ []) ⊎ (f.error ≡ no_error))
        × (0 < length f.value)
        × (v ≡ atof f.value)
  unfolding read_flow fetch read_response
  read_flow_sound c air flow v e =
      let (doc, fetched, next) =
        bind-eq-some (fetch deserialize flow_of atof c air)
          (λ t. Option.bind (flow_of t flow) (flow_value deserialize flow_of atof)) v e in
      let (f, there, read) =
        bind-eq-some (flow_of doc flow) (flow_value deserialize flow_of atof) v next in
      let (good, value) = flow_value-IsGood f v read in
      let sent : air.send_ok (http_prefix ++ (c.host ++ c.path)) ≡ true = ground arith in
      let answer : Option.bind (read_response air.bytes) deserialize ≡ some doc = ground arith in
      let (body, got, parsed) = bind-eq-some (read_response air.bytes) deserialize doc answer in
      let same : body ≡ drain_body air.bytes = ground arith in
      (
        doc,
        f,
        sent,
        ground arith,
        ap deserialize (sym same) ∙ parsed,
        there,
        good.no_fault,
        good.has_value,
        value,
      )
