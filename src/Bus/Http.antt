-- ===== src/Bus/Http.antt =====
-- lib/buses/http_bus/http_bus.cpp: the bus on which a request is a URL and the answer the document.
-- The Wi-Fi radio and HTTPClient are inputs: whether the access point is up and has a station, and the
-- status and the body that a GET of a URL gives.
use io_t_firmware.Base.{
  ℕ, ◌+◌, Bool, true, false, not, Option, none, some, List, [], ◌∷◌, ltb, ◌==◌, if◌then◌else◌,
  length, get_or, u8,
}
use io_t_firmware.Config.{HttpBusConfig}
use io_t_firmware.NvsConfig.{c_string}

-- HTTP_CODE_OK
abbrev pub http_code_ok : ℕ
http_code_ok = 200

-- A GET: its URL, its timeout, and the user and password if it is authorized.
pub record Request : Type 0 where
  pub url : List ℕ
  pub timeout_ms : ℕ
  pub authorization : Option (List ℕ × List ℕ)

pub record Web : Type 0 where
  pub ap_up : Bool
  pub has_stations : Bool
  pub get : Request → ℕ × List ℕ

-- The members of HttpBus that change.
pub record HttpBus : Type 0 where
  pub response : List ℕ
  pub read_index : ℕ

-- init
abbrev pub init : Web → Bool
init w = w.ap_up

abbrev pub request_for : HttpBusConfig → List ℕ → Request
request_for c url = record {
  url = url;
  timeout_ms = c.request_timeout_ms;
  authorization =
      if ltb 0 (length (c_string c.http_user))
      then some (c_string c.http_user, c_string c.http_pass)
      else none;
}

-- send: the requests made, and the result.
unfoldable pub send : HttpBusConfig → Web → List ℕ → HttpBus → List Request × Bool × HttpBus
send c w bytes b =
    let cleared : HttpBus = record { response = []; read_index = 0 } in
    let made = request_for c bytes in
    let (status, body) = w.get made in
    if not w.ap_up
    then ([], false, cleared)
    else if not w.has_stations
    then ([], false, cleared)
    else if not (status == http_code_ok)
    then (made ∷ [], false, cleared)
    else (made ∷ [], true, record cleared { response = body })

abbrev pub available : HttpBus → Bool
available b = ltb b.read_index (length b.response)

-- readByte
unfoldable pub read_byte : HttpBus → Option ℕ × HttpBus
read_byte b =
    if not (available b)
    then (none, b)
    else (some (u8 (get_or b.response b.read_index 0)), record b { read_index = b.read_index + 1 })
