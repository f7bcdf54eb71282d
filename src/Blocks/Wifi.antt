-- ===== src/Blocks/Wifi.antt =====
-- src/adapters/blocks/WifiHopBlock.cpp and src/adapters/predicates: hopping between networks, and the
-- predicates about them.
use esp32_sequencer.Base.{
  ℕ, ◌%◌, ◌^◌, String, Bool, true, false, ◌&&◌, Option, none, some, [], ◌∷◌, str_eq, if◌then◌else◌,
}
use esp32_sequencer.Base.Int.{pos, to_uint32}
use esp32_sequencer.Json.{Json, ArduinoJson, as_text, text_or_empty, get, or_default}
use esp32_sequencer.Model.{FieldType, BlockSchema, PredicateSchema}
use esp32_sequencer.Registry.{RunResult, failed}
use esp32_sequencer.Clock.{Clock}
use esp32_sequencer.Net.{Radio, NetworkManager, connect}
use esp32_sequencer.Blocks.{field_def}

unfoldable pub wifi_hop_schema : BlockSchema
wifi_hop_schema = record {
  type = "wifi-hop";
  label = "WiFi hop";
  category = "Network";
  fields =
      field_def "ssid" FieldType.string "SSID" none none true
      ∷ field_def "password" FieldType.string "Password" none none false
      ∷ field_def "static_ip" FieldType.string "Static IP (optional)" none none false
      ∷ field_def "gateway" FieldType.string "Gateway (with static IP)" none none false
      ∷ field_def "timeout_ms" FieldType.int "Connect timeout (ms)" (some "15000") none false
      ∷ [];
  child_slots = [];
}

unfoldable pub on_wifi_schema : PredicateSchema
on_wifi_schema = record {
  type = "on-wifi";
  label = "On WiFi network";
  fields = field_def "ssid" FieldType.string "SSID" none none true ∷ [];
}

unfoldable pub host_reachable_schema : PredicateSchema
host_reachable_schema = record {
  type = "host-reachable";
  label = "Host reachable (TCP)";
  fields =
      field_def "ip" FieldType.string "IP address" none none true
      ∷ field_def "port" FieldType.int "TCP port (default 80)" (some "80") none false
      ∷ field_def "timeout_ms" FieldType.int "Timeout (ms)" (some "500") none false
      ∷ [];
}

-- `ip[0]` and the like, of a text that may not be there.
abbrev pub given : Option String → Option String
given none = none
given (some s) = if str_eq s "" then none else some s

module _ {W : Type 0} (lib : ArduinoJson) where
  module _ (clock : Clock W) (radio : Radio W) where
    abbrev pub hopped : Option (Bool × NetworkManager × W) → Option (RunResult × NetworkManager × W)
    hopped none = none
    hopped (some (true, n, w)) = some (RunResult.ok, n, w)
    hopped (some (false, n, w)) = some (failed "wifi-hop: connect failed", n, w)

    -- `toMs`, of `params["timeout_ms"] | 15000`.
    abbrev pub hop_timeout : Json → ℕ
    hop_timeout params = to_uint32 (or_default (lib.as_int (get params "timeout_ms")) (pos 15000))

    abbrev pub hop_to :
        ℕ → Json → Option String → NetworkManager → W → Option (RunResult × NetworkManager × W)
    hop_to fuel params none n w = some (failed "wifi-hop: missing ssid", n, w)
    hop_to fuel params (some ssid) n w =
        if str_eq n.current ssid && radio.connected w
        then some (RunResult.ok, n, w)
        else hopped (
            connect clock radio fuel ssid (text_or_empty (get params "password"))
              (text_or_empty (get params "static_ip")) (text_or_empty (get params "gateway"))
              (hop_timeout params) n w)

    -- `WifiHopBlock::run`, with a network manager; `none` where the fuel of the waiting ran out.
    unfoldable pub run_wifi_hop :
        ℕ → Json → NetworkManager → W → Option (RunResult × NetworkManager × W)
    run_wifi_hop fuel params n w = hop_to fuel params (given (as_text (get params "ssid"))) n w

  abbrev pub on_network : Radio W → Option String → NetworkManager → W → Bool
  on_network radio none n w = false
  on_network radio (some ssid) n w = radio.connected w && str_eq n.current ssid

  -- `OnWifiPredicate::test`, with a network manager.
  unfoldable pub on_wifi : Radio W → Json → NetworkManager → W → Bool
  on_wifi radio params n w = on_network radio (as_text (get params "ssid")) n w

  abbrev pub reach : (String → ℕ → ℕ → W → Bool × W) → Json → Option String → W → Bool × W
  reach probe params none w = (false, w)
  reach probe params (some ip) w =
      probe ip (to_uint32 (or_default (lib.as_int (get params "port")) (pos 80)) % 2 ^ 16)
        (to_uint32 (or_default (lib.as_int (get params "timeout_ms")) (pos 500))) w

  -- `HostReachablePredicate::test`; the probe of an address and a port is a parameter.
  unfoldable pub host_reachable : (String → ℕ → ℕ → W → Bool × W) → Json → W → Bool × W
  host_reachable probe params w = reach probe params (given (as_text (get params "ip"))) w
