-- ===== src/Settings/Form.antt =====
-- src/ConfigForm.{h,cpp}: the form of the settings, and what it saves.
use Prim.Native.Char.{Char, code}
use Prim.Native.String.{◌++◌ as cat}
use esp32_sequencer.Base.{
  ℕ, zero, suc, String, Bool, true, false, Option, none, some, ◌==◌, if◌then◌else◌,
}
use esp32_sequencer.Base.Map.{Map, find}
use esp32_sequencer.Settings.{Preferences, Config, save, non_empty, or_value}

-- What stands for a character in an attribute.
unfoldable pub escape_char : Char → String
escape_char c =
    if code c == b'&'
    then "&amp;"
    else if code c == b'<'
    then "&lt;"
    else if code c == b'>'
    then "&gt;"
    else if code c == b'"'
    then "&quot;"
    else if code c == b'\''
    then "&#39;"
    else String.◌∷◌ c String.[]

-- `htmlAttrEscape`
unfoldable pub html_attr_escape : String → String
html_attr_escape String.[] = String.[]
html_attr_escape (String.◌∷◌ c s) = cat (escape_char c) (html_attr_escape s)

-- The text behind a prefix, if it starts with it.
abbrev pub strip_prefix : String → String → Option String
strip_prefix String.[] s = some s
strip_prefix (String.◌∷◌ p ps) String.[] = none
strip_prefix (String.◌∷◌ p ps) (String.◌∷◌ c s) =
    if code p == code c then strip_prefix ps s else none

-- `String::replace`: every occurrence, from the left; `skip` counts the characters of an occurrence
-- that are still to be passed over.
unfoldable pub replace_from : ℕ → String → String → ℕ → String → String
replace_from width old new skip String.[] = String.[]
replace_from width old new (suc skip) (String.◌∷◌ c s) = replace_from width old new skip s
replace_from width old new zero (String.◌∷◌ c s) = elim (strip_prefix old (String.◌∷◌ c s)) [
  | some _ ↦ cat new (replace_from width old new width s)
  | none ↦ String.◌∷◌ c (replace_from width old new zero s)
]

-- The characters of a text behind its first.
abbrev pub width : String → ℕ
width String.[] = 0
width (String.◌∷◌ c String.[]) = 0
width (String.◌∷◌ c (String.◌∷◌ d s)) = suc (width (String.◌∷◌ d s))

unfoldable pub replace : String → String → String → String
replace old new s = replace_from (width old) old new zero s

-- A request's body parameters.
abbrev pub Params : Type 0
Params = Map String

-- `arg`
unfoldable pub arg : Params → String → String
arg req name = or_value (find name req) ""

abbrev pub has_param : Params → String → Bool
has_param req name = elim (find name req) [ none ↦ false | some _ ↦ true ]

-- `renderHtml`, of the page's text.
unfoldable pub render_html : String → Config → String
render_html index_html cfg =
    let html = replace "{{idleSsid}}" (html_attr_escape cfg.idle_ssid) index_html in
    let html' =
      replace "{{idlePassHint}}"
        (if non_empty cfg.idle_pass then "(saved — leave empty to keep)" else "") html in
    replace "{{sFbChecked}}" (if cfg.setup_fallback then "checked" else "") html'

-- `applySave`: the settings, and the flash that they are saved in.
unfoldable pub apply_save : {P : Type 0} → Preferences P → Params → Config → P → Config × P
apply_save prefs req cfg p =
    let pass = arg req "idlePass" in
    let cfg' = record cfg {
      idle_ssid = arg req "idleSsid";
      idle_pass = if non_empty pass then pass else cfg.idle_pass;
      setup_fallback = has_param req "sFb";
    } in
    (cfg', save prefs cfg' p)
