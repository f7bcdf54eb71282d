-- ===== src/Blocks/Ws.antt =====
-- src/adapters/blocks/WsSendBlock.cpp: a message over a web socket that is opened for it. The web
-- socket library is a parameter, as is `String::toInt`.
use esp32_sequencer.Base.{
  ℕ, ◌+◌, ◌%◌, ◌^◌, String, Bool, true, false, not, Option, none, some, List, [], ◌∷◌, ◌==◌, ltb,
  if◌then◌else◌,
}
use esp32_sequencer.Base.Int.{ℤ, pos, to_uint32}
use esp32_sequencer.Json.{Json, ArduinoJson, as_text, text_or, get, or_default}
use esp32_sequencer.Model.{FieldType, BlockSchema}
use esp32_sequencer.Registry.{RunResult, failed}
use esp32_sequencer.Settings.{non_empty}
use esp32_sequencer.Settings.Form.{strip_prefix}
use esp32_sequencer.Clock.{Clock, millis, Round, again, stop, while_below, while_until}
use esp32_sequencer.Blocks.{field_def}
use esp32_sequencer.Blocks.Text.{cut}
use esp32_sequencer.Blocks.Wifi.{given}

unfoldable pub ws_send_schema : BlockSchema
ws_send_schema = record {
  type = "ws-send";
  label = "WebSocket send";
  category = "Network";
  fields =
      field_def "url" FieldType.string "URL (ws:// or wss://)" none none true
      ∷ field_def "message" FieldType.string "Message" (some "") none true
      ∷ field_def "wait_response_ms" FieldType.int "Wait for response (ms, 0 = none)" (some "0")
          none false
      ∷ field_def "timeout_ms" FieldType.int "Connect timeout (ms)" (some "5000") none false
      ∷ [];
  child_slots = [];
}

-- Where a URL leads.
pub record WsUrl : Type 0 where
  pub is_secure : Bool
  pub host : String
  pub port : ℕ
  pub path : String

-- `WStype_t`; `message` is a text or binary data.
pub data WsEvent : Type 0 where
  opened closed message other : WsEvent

pub record WsClient (W : Type 0) : Type 0 where
  pub wifi_connected : W → Bool
  pub begin : WsUrl → W → W
  pub loop : W → List WsEvent × W
  pub send_text : String → W → Bool × W
  pub disconnect : W → W

-- The three flags of the callback, and the world.
pub record WsSession (W : Type 0) : Type 0 where
  pub connected : Bool
  pub got_message : Bool
  pub disconnected : Bool
  pub world : W

module _ (to_int : String → ℤ) where
  abbrev pub default_port : Bool → ℕ
  default_port secure = if secure then 443 else 80

  abbrev pub port_or : Bool → ℕ → ℕ
  port_or secure n = if n == 0 then default_port secure else n

  -- The authority's part of `parseWsUrl`, with the path.
  abbrev pub at_authority : Bool → String → String → Option (String × String) → Option WsUrl
  at_authority secure path authority none =
      if non_empty authority
      then some
          (record { is_secure = secure; host = authority; port = default_port secure; path = path })
      else none
  at_authority secure path authority (some (host, port)) =
      if non_empty host
      then some (record {
        is_secure = secure;
        host = host;
        port = port_or secure (to_uint32 (to_int port) % 2 ^ 16);
        path = path;
      })
      else none

  abbrev pub at_path : Bool → String → Option (String × String) → Option WsUrl
  at_path secure rest none = at_authority secure "/" rest (cut b':' rest)
  at_path secure rest (some (authority, path)) =
      at_authority secure (String.◌∷◌ "/" path) authority (cut b':' authority)

  abbrev pub with_scheme : Option String → Option String → Option WsUrl
  with_scheme (some rest) plain = at_path true rest (cut b'/' rest)
  with_scheme none (some rest) = at_path false rest (cut b'/' rest)
  with_scheme none none = none

  -- `parseWsUrl`, with `none` for false.
  unfoldable pub parse_ws_url : String → Option WsUrl
  parse_ws_url url = with_scheme (strip_prefix "wss://" url) (strip_prefix "ws://" url)

  module _ {W : Type 0} (lib : ArduinoJson) (clock : Clock W) (ws : WsClient W) where
    -- `onEvent`
    unfoldable pub on_event : WsEvent → WsSession W → WsSession W
    on_event WsEvent.opened s = record s { connected = true }
    on_event WsEvent.closed s = record s { disconnected = true; connected = false }
    on_event WsEvent.message s = record s { got_message = true }
    on_event WsEvent.other s = s

    unfoldable pub on_events : List WsEvent → WsSession W → WsSession W
    on_events [] s = s
    on_events (e ∷ es) s = on_events es (on_event e s)

    -- `ws.loop()`
    abbrev pub serviced : WsSession W → WsSession W
    serviced s = let (es, w) = ws.loop s.world in on_events es (record s { world = w })

    abbrev pub pause : WsSession W → WsSession W
    pause s = record s { world = clock.delay 10 s.world }

    -- A round that ends the loop where the connection is lost.
    abbrev pub unless_lost : WsSession W → Round (WsSession W) (WsSession W)
    unless_lost s = if s.disconnected then stop s else again (pause s)

    abbrev pub connect_round : WsSession W → Round (WsSession W) (WsSession W)
    connect_round s = if s.connected then stop s else unless_lost (serviced s)

    -- The loop that waits for the connection.
    unfoldable pub await_connected : ℕ → ℕ → WsSession W → Option (WsSession W)
    await_connected fuel timeout s =
        while_below clock (λ s'. s'.world) connect_round (λ s'. s') fuel (millis clock s.world)
          timeout s

    abbrev pub flush_round : WsSession W → Round (WsSession W) (WsSession W)
    flush_round s = again (pause (serviced s))

    -- The loop in which the message leaves.
    unfoldable pub flush : ℕ → WsSession W → Option (WsSession W)
    flush fuel s =
        while_until clock (λ s'. s'.world) flush_round (λ s'. s') fuel
          ((millis clock s.world + 80) % 2 ^ 32) s

    abbrev pub answer_round : WsSession W → Round (WsSession W) (WsSession W)
    answer_round s = if s.got_message then stop s else unless_lost (serviced s)

    -- The loop that waits for an answer.
    unfoldable pub await_answer : ℕ → ℕ → WsSession W → Option (WsSession W)
    await_answer fuel ms s =
        if ltb 0 ms
        then while_until clock (λ s'. s'.world) answer_round (λ s'. s') fuel
            ((millis clock s.world + ms) % 2 ^ 32) s
        else some s

    abbrev pub closed_after : Bool → Option (WsSession W) → Option (RunResult × W)
    closed_after sent none = none
    closed_after sent (some s) =
        some (if sent then RunResult.ok else failed "ws-send: send failed", ws.disconnect s.world)

    abbrev pub flushed : ℕ → ℕ → Bool → Option (WsSession W) → Option (RunResult × W)
    flushed fuel wait_ms sent none = none
    flushed fuel wait_ms sent (some s) = closed_after sent (await_answer fuel wait_ms s)

    abbrev pub sent_on : ℕ → ℕ → WsSession W → Bool × W → Option (RunResult × W)
    sent_on fuel wait_ms s (sent, w) =
        flushed fuel wait_ms sent (flush fuel (record s { world = w }))

    abbrev pub connected_on : ℕ → ℕ → String → Option (WsSession W) → Option (RunResult × W)
    connected_on fuel wait_ms text none = none
    connected_on fuel wait_ms text (some s) =
        if not s.connected
        then some (failed "ws-send: connect failed", ws.disconnect s.world)
        else sent_on fuel wait_ms s (ws.send_text text s.world)

    -- The session when the connection begins: the flags are reset.
    abbrev pub begun : WsUrl → W → WsSession W
    begun url w = record {
      connected = false;
      got_message = false;
      disconnected = false;
      world = ws.begin url w;
    }

    abbrev pub send_to : ℕ → Json → Option WsUrl → W → Option (RunResult × W)
    send_to fuel params none w = some (failed "ws-send: bad url (need ws:// or wss://)", w)
    send_to fuel params (some url) w =
        connected_on fuel
          (to_uint32 (or_default (lib.as_int (get params "wait_response_ms")) (pos 0)))
          (text_or (get params "message") "")
          (await_connected fuel
            (to_uint32 (or_default (lib.as_int (get params "timeout_ms")) (pos 5000)))
            (begun url w))

    abbrev pub with_url : ℕ → Json → Option String → W → Option (RunResult × W)
    with_url fuel params none w = some (failed "ws-send: missing url", w)
    with_url fuel params (some url) w =
        if not (ws.wifi_connected w)
        then some (failed "ws-send: wifi not connected", w)
        else send_to fuel params (parse_ws_url url) w

    -- `run`; `none` where the fuel of a loop ran out.
    unfoldable pub run_ws_send : ℕ → Json → W → Option (RunResult × W)
    run_ws_send fuel params w = with_url fuel params (given (as_text (get params "url"))) w
