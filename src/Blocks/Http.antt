-- ===== src/Blocks/Http.antt =====
-- src/adapters/blocks/HttpRequestBlock.cpp: a request with its headers, and what its status means.
-- The HTTP client is a parameter.
use Prim.Native.Char.{code}
use Prim.Native.String.{◌++◌ as cat}
use esp32_sequencer.Base.{
  ℕ, ◌-◌, String, Bool, true, false, not, ◌&&◌, ◌||◌, Option, none, some, List, [], ◌∷◌, str_eq,
  ◌==◌, leb, ltb, if◌then◌else◌,
}
use esp32_sequencer.Base.Int.{ℤ, pos, negsuc, to_uint32}
use esp32_sequencer.Base.Decimal.{to_string}
use esp32_sequencer.Json.{Json, ArduinoJson, as_text, text_or, get, or_default}
use esp32_sequencer.Model.{FieldType, BlockSchema}
use esp32_sequencer.Query.{same_codes, codes}
use esp32_sequencer.Registry.{RunResult, failed}
use esp32_sequencer.Settings.{non_empty}
use esp32_sequencer.Settings.Form.{strip_prefix}
use esp32_sequencer.Blocks.{field_def}
use esp32_sequencer.Blocks.Text.{cut, trim, pieces}
use esp32_sequencer.Blocks.Wifi.{given}

unfoldable pub http_request_schema : BlockSchema
http_request_schema = record {
  type = "http-request";
  label = "HTTP request";
  category = "Network";
  fields =
      field_def "url" FieldType.string "URL (http:// or https://)" none none true
      ∷ field_def "method" FieldType.enum "Method" (some "GET") (some "GET,POST,PUT,DELETE,PATCH")
          false
      ∷ field_def "body" FieldType.string "Request body" (some "") none false
      ∷ field_def "content_type" FieldType.string "Content-Type" (some "application/json") none
          false
      ∷ field_def "headers" FieldType.string_list "Extra headers (one per line: Name: Value)"
          (some "") none false
      ∷ field_def "timeout_ms" FieldType.int "Timeout (ms)" (some "5000") none false
      ∷ field_def "expected_status" FieldType.int "Expected status (0 = any 2xx)" (some "0") none
          false
      ∷ [];
  child_slots = [];
}

abbrev pub Headers : Type 0
Headers = List (String × String)

-- A line with a colon that is not its first character.
abbrev pub split_line : Option (String × String) → Headers → Headers
split_line none hs = hs
split_line (some (name, value)) hs = if non_empty name then (trim name, trim value) ∷ hs else hs

abbrev pub is_separator : ℕ → Bool
is_separator c = c == b'\n' || c == b','

unfoldable pub header_lines : List String → Headers
header_lines [] = []
header_lines (line ∷ lines) = split_line (cut b':' (trim line)) (header_lines lines)

-- `addHeaders`: the headers that it adds, in turn.
unfoldable pub add_headers : String → Headers
add_headers raw = if str_eq raw "" then [] else header_lines (pieces is_separator raw)

-- `toUpperCase`
unfoldable pub to_upper : String → List ℕ
to_upper String.[] = []
to_upper (String.◌∷◌ c s) =
    (if leb b'a' (code c) && leb (code c) b'z' then code c - 32 else code c) ∷ to_upper s

-- The methods of the client, and what is sent.
pub data Method : Type 0 where
  get_ post put delete patch : Method

pub record HttpClient (W : Type 0) : Type 0 where
  pub wifi_connected : W → Bool
  -- Over TLS or not.
  pub begin : Bool → String → W → Bool × W
  pub set_timeout : ℕ → W → W
  pub add_header : String → String → W → W
  -- With the body, none for GET.
  pub request : Method → Option String → W → ℤ × W
  pub end : W → W

-- The method that a text names, in any case.
unfoldable pub method_of : String → Option Method
method_of s =
    let m = to_upper s in
    if same_codes m (codes "GET")
    then some Method.get_
    else if same_codes m (codes "POST")
    then some Method.post
    else if same_codes m (codes "PUT")
    then some Method.put
    else if same_codes m (codes "DELETE")
    then some Method.delete
    else if same_codes m (codes "PATCH")
    then some Method.patch
    else none

abbrev pub body_for : Method → String → Option String
body_for Method.get_ body = none
body_for Method.post body = some body
body_for Method.put body = some body
body_for Method.delete body = some body
body_for Method.patch body = some body

abbrev pub accepts : ℤ → ℕ → Bool
accepts (negsuc e) m = false
accepts (pos e) m = if e == 0 then leb 200 m && ltb m 300 else m == e

abbrev pub is_some {ℓ} : {A : Type ℓ} → Option A → Bool
is_some none = false
is_some (some a) = true

-- `strncmp(url, "https://", 8) == 0`
abbrev pub is_https : String → Bool
is_https url = is_some (strip_prefix "https://" url)

-- What a status code means, where `expected` is zero for any success.
unfoldable pub status_result : ℤ → ℤ → RunResult
status_result expected (negsuc n) = failed (cat "http: transport error " (to_string (negsuc n)))
status_result expected (pos n) =
    if n == 0
    then failed (cat "http: transport error " (to_string (pos n)))
    else if accepts expected n
    then RunResult.ok
    else failed (cat "http: status " (to_string (pos n)))

module _ {W : Type 0} (lib : ArduinoJson) (http : HttpClient W) where
  unfoldable pub add_all : Headers → W → W
  add_all [] w = w
  add_all ((name, value) ∷ hs) w = add_all hs (http.add_header name value w)

  abbrev pub done_with : ℤ → ℤ × W → RunResult × W
  done_with expected (code, w) = (status_result expected code, http.end w)

  abbrev pub requested : Json → String → String → Option Method → W → RunResult × W
  requested params name body none w = (failed (cat "http: unsupported method " name), http.end w)
  requested params name body (some m) w =
      done_with (or_default (lib.as_int (get params "expected_status")) (pos 0))
        (http.request m (body_for m body) w)

  abbrev pub begun : Json → Bool × W → RunResult × W
  begun params (false, w) = (failed "http: begin failed", w)
  begun params (true, w) =
      let ms = to_uint32 (or_default (lib.as_int (get params "timeout_ms")) (pos 5000)) in
      let body = text_or (get params "body") "" in
      let name = text_or (get params "method") "GET" in
      let w' = http.set_timeout ms w in
      let w'' =
        if non_empty body
        then http.add_header "Content-Type" (text_or (get params "content_type") "application/json")
            w'
        else w' in
      requested params name body (method_of name)
        (add_all (add_headers (text_or (get params "headers") "")) w'')

  abbrev pub with_url : Json → Option String → W → RunResult × W
  with_url params none w = (failed "http: missing url", w)
  with_url params (some url) w =
      if not (http.wifi_connected w)
      then (failed "http: wifi not connected", w)
      else begun params (http.begin (is_https url) url w)

  -- `run`
  unfoldable pub run_http_request : Json → W → RunResult × W
  run_http_request params w = with_url params (given (as_text (get params "url"))) w
