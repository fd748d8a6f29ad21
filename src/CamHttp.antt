-- ===== src/CamHttp.antt =====
-- lib/protocols/cam_http/cam_http.h and cam_http.cpp: the reader of the camera's HTTP interface.
-- The bus is an input. The JSON library and `atof` are parameters: a text has a document or none, and a
-- document has for a name the "error" and the "value" of that flow, each empty where it is no string,
-- or nothing if it is null. A float is its bit pattern. Log lines are left out.
pub mod Values
use mathlib.Core.Option
use io_t_firmware.Base.{
  ℕ, ◌+◌, Bool, true, false, not, ◌&&◌, ◌||◌, Option, none, some, List, [], ◌∷◌, ◌++◌, ◌==◌,
  if◌then◌else◌, bytes_eq, length, u8,
}

-- CamHttpConfig; an empty name is the empty C string.
pub record CamHttpConfig : Type 0 where
  pub host : List ℕ
  pub path : List ℕ
  pub flow_name : List ℕ
  pub export_flow_name : List ℕ

-- A flow in the document.
pub record Flow : Type 0 where
  pub error : List ℕ
  pub value : List ℕ

-- The bus: whether send() succeeds for a URL, and what readByte() gives while available() holds, `none`
-- for a negative result.
pub record HttpAir : Type 0 where
  pub send_ok : List ℕ → Bool
  pub bytes : List (Option ℕ)

-- init
unfoldable pub init : CamHttpConfig → Bool
init c = not (length c.host == 0) && not (length c.flow_name == 0)

-- read_response
unfoldable pub drain_body : List (Option ℕ) → List ℕ
drain_body [] = []
drain_body (none ∷ bs) = []
drain_body (some b ∷ bs) = u8 b ∷ drain_body bs

unfoldable pub read_response : List (Option ℕ) → Option (List ℕ)
read_response bs = let out = drain_body bs in if length out == 0 then none else some out

-- "http://" and "no error"
abbrev pub http_prefix : List ℕ
http_prefix = 0x68 ∷ 0x74 ∷ 0x74 ∷ 0x70 ∷ 0x3A ∷ 0x2F ∷ 0x2F ∷ []

abbrev pub no_error : List ℕ
no_error = 0x6E ∷ 0x6F ∷ 0x20 ∷ 0x65 ∷ 0x72 ∷ 0x72 ∷ 0x6F ∷ 0x72 ∷ []

module _ {Doc : Type 0} (deserialize : List ℕ → Option Doc) (flow_of : Doc → List ℕ → Option Flow)
    (atof : List ℕ → ℕ) where
  -- fetch
  unfoldable pub fetch : CamHttpConfig → HttpAir → Option Doc
  fetch c air =
      let answer = Option.bind (read_response air.bytes) deserialize in
      if not (air.send_ok (http_prefix ++ (c.host ++ c.path))) then none else answer

  -- read_flow, behind fetch.
  unfoldable pub flow_value : Flow → Option ℕ
  flow_value f =
      if not (length f.error == 0) && not (bytes_eq f.error no_error)
      then none
      else if length f.value == 0
      then none
      else some (atof f.value)

  -- read_flow
  unfoldable pub read_flow : CamHttpConfig → HttpAir → List ℕ → Option ℕ
  read_flow c air flow =
      Option.bind (fetch c air) (λ doc. Option.bind (flow_of doc flow) flow_value)

  -- get_import
  abbrev pub get_import : CamHttpConfig → HttpAir → Option ℕ
  get_import c air = read_flow c air c.flow_name

  -- get_export
  unfoldable pub get_export : CamHttpConfig → HttpAir → Option ℕ
  get_export c air =
      if length c.export_flow_name == 0 then none else read_flow c air c.export_flow_name

  -- get_voltage
  abbrev pub get_voltage : CamHttpConfig → HttpAir → Option ℕ
  get_voltage c air = none

  -- probe: the document must have each flow that is configured.
  unfoldable pub has_flows : CamHttpConfig → Doc → Bool
  has_flows c doc =
      let there = λ (name : List ℕ). elim (flow_of doc name) as (λ f. Bool) [
        | none ↦ false
        | some f ↦ true
      ] in
      there c.flow_name && (length c.export_flow_name == 0 || there c.export_flow_name)

  unfoldable pub probe : CamHttpConfig → HttpAir → Bool
  probe c air = elim (fetch c air) [ none ↦ false | some doc ↦ has_flows c doc ]
