-- ===== src/Blocks/Samsung.antt =====
-- src/adapters/blocks/SamsungTizenKeysBlock.cpp: keys for a television, over one session that is kept.
pub mod Session
pub mod Tests
use esp32_sequencer.Base.{
  ℕ, String, Bool, true, false, not, ◌||◌, Option, none, some, List, [], ◌∷◌, str_eq, ltb,
  if◌then◌else◌,
}
use esp32_sequencer.Base.Int.{pos, to_uint32}
use esp32_sequencer.Json.{Json, ArduinoJson, as_text, get, or_default}
use esp32_sequencer.Model.{FieldType, BlockSchema}
use esp32_sequencer.Registry.{RunResult, failed}
use esp32_sequencer.Settings.{Preferences, Config, save, non_empty}
use esp32_sequencer.Clock.{Clock, millis, since}
use esp32_sequencer.Tv.{Socket, Tv, Line, configure, connect_with_retry, send_key, pump, disconnect}
use esp32_sequencer.Blocks.{field_def}

unfoldable pub samsung_schema : BlockSchema
samsung_schema = record {
  type = "samsung-key";
  label = "Samsung TV: send key";
  category = "TV (Samsung)";
  fields =
      field_def "ip" FieldType.string "TV IP address" none none true
      ∷ field_def "key" FieldType.string "Tizen key (e.g. KEY_SOURCE)" none none true
      ∷ field_def "connect_timeout_ms" FieldType.int "Connect timeout (ms)" (some "60000") none
          false
      ∷ [];
  child_slots = [];
}

-- The session, `tv`, `tvIp` and `tvLastMs`, with the device's settings and their flash.
pub record Remote (P W : Type 0) : Type 0 where
  pub line : Line (Config × P) W
  pub tv_ip : String
  pub tv_last_ms : ℕ

module _ {P W : Type 0} (lib : ArduinoJson) (prefs : Preferences P) (clock : Clock W)
    (socket : Socket W) where
  -- The callback: a new token is saved.
  unfoldable pub keep_token : String → Config × P → Config × P
  keep_token token (cfg, p) =
      let cfg' = record cfg { tv_token = token } in
      if not (str_eq token cfg.tv_token) then (cfg', save prefs cfg' p) else (cfg, p)

  unfoldable pub need_connect : String → Remote P W → Bool
  need_connect ip r =
      not (str_eq r.tv_ip ip)
      || str_eq r.tv_ip ""
      || ltb 30000 (since clock r.tv_last_ms r.line.world)

  -- The end of a run: the last sending's time.
  abbrev pub pumped : Remote P W → Option (Line (Config × P) W) → Option (RunResult × Remote P W)
  pumped r none = none
  pumped r (some l) = some (RunResult.ok, record r { line = l; tv_last_ms = millis clock l.world })

  abbrev pub sent : ℕ → Remote P W → Bool × Line (Config × P) W → Option (RunResult × Remote P W)
  sent fuel r (false, l) =
      some (failed "samsung-key: send failed", record r { line = l; tv_ip = "" })
  sent fuel r (true, l) = pumped r (pump lib clock socket keep_token fuel 80 l)

  abbrev pub send_on :
      ℕ → String → Remote P W → Option (Line (Config × P) W) → Option (RunResult × Remote P W)
  send_on fuel key r none = none
  send_on fuel key r (some l) = sent fuel r (send_key lib clock socket keep_token key l)

  abbrev pub connected_to :
      ℕ
      → String
      → String
      → Remote P W
      → Option (Bool × Line (Config × P) W)
      → Option (RunResult × Remote P W)
  connected_to fuel ip key r none = none
  connected_to fuel ip key r (some (false, l)) =
      some (failed "samsung-key: ws connect failed", record r { line = l })
  connected_to fuel ip key r (some (true, l)) =
      send_on fuel key (record r { tv_ip = ip }) (pump lib clock socket keep_token fuel 200 l)

  -- The session when the connection begins.
  abbrev pub opened : String → Remote P W → Remote P W
  opened ip r =
      let l = if non_empty r.tv_ip then disconnect lib clock socket keep_token r.line else r.line in
      record r { tv_ip = ""; line = record l { tv = configure ip l.client.0.tv_token l.tv } }

  abbrev pub press : ℕ → ℕ → String → String → Remote P W → Option (RunResult × Remote P W)
  press fuel timeout ip key r =
      let r' = opened ip r in
      if need_connect ip r
      then connected_to fuel ip key r'
          (connect_with_retry lib clock socket keep_token fuel timeout r'.line)
      else send_on fuel key r (pump lib clock socket keep_token fuel 20 r.line)

  abbrev pub with_key :
      ℕ → ℕ → String → Option String → Remote P W → Option (RunResult × Remote P W)
  with_key fuel timeout ip none r = some (failed "samsung-key: missing key", r)
  with_key fuel timeout ip (some key) r =
      if str_eq key ""
      then some (failed "samsung-key: missing key", r)
      else press fuel timeout ip key r

  abbrev pub with_ip :
      ℕ → ℕ → Option String → Option String → Remote P W → Option (RunResult × Remote P W)
  with_ip fuel timeout none key r = some (failed "samsung-key: missing ip", r)
  with_ip fuel timeout (some ip) key r =
      if str_eq ip ""
      then some (failed "samsung-key: missing ip", r)
      else with_key fuel timeout ip key r

  -- `run`; `none` where the fuel of a loop ran out.
  unfoldable pub run_samsung_key : ℕ → Json → Remote P W → Option (RunResult × Remote P W)
  run_samsung_key fuel params r =
      with_ip fuel
        (to_uint32 (or_default (lib.as_int (get params "connect_timeout_ms")) (pos 60000)))
        (as_text (get params "ip")) (as_text (get params "key")) r
