-- ===== src/Tv.antt =====
-- src/TvController.{h,cpp}: the connection to the television. Lines on the console are left out; the
-- base64 text of the program's name is a parameter, as is the web socket.
pub mod Address
use Prim.Native.String
use Prim.Native.String.{◌++◌ as cat}
use esp32_sequencer.Base.{
  ℕ, zero, suc, String, Bool, true, false, not, ◌&&◌, Option, none, some, List, [], ◌∷◌, str_eq,
  ltb, if◌then◌else◌,
}
use esp32_sequencer.Json.{Json, str, obj, end, field, ArduinoJson, get, text_or}
use esp32_sequencer.Settings.{non_empty}
use esp32_sequencer.Clock.{Clock, millis, Round, again, stop, while_below}

-- `WStype_t`, with the text of a message; `other` is any type that is not looked at.
pub data Event : Type 0 where
  opened closed other : Event
  message : String → Event

-- The web socket library, and a probe of a port by TCP. `loop` gives the events that it reports.
pub record Socket (W : Type 0) : Type 0 where
  pub probe : String → ℕ → W → Bool × W
  pub begin_ssl : String → ℕ → String → W → W
  pub loop : W → List Event × W
  pub send_text : String → W → Bool × W
  pub disconnect : W → W
  pub encoded_name : String

-- `TvController`, without the socket and the callback.
pub record Tv : Type 0 where
  pub ip : String
  pub token : String
  pub connected : Bool

-- A controller, the state `C` that its callback changes, and the world.
pub record Line (C W : Type 0) : Type 0 where
  pub tv : Tv
  pub client : C
  pub world : W

-- `configure`; the callback is an argument of what may call it.
unfoldable pub configure : String → String → Tv → Tv
configure ip token tv = record tv { ip = ip; token = token }

unfoldable pub build_path : String → Tv → String
build_path name tv =
    let path = cat "/api/v2/channels/samsung.remote.control?name=" name in
    if non_empty tv.token then cat path (cat "&token=" tv.token) else path

-- The text that `sendKey` sends.
unfoldable pub key_message : String → Json
key_message key = obj (
    field "method" (str "ms.remote.control") (
      field "params"
        (obj (
          field "Cmd" (str "Click") (
            field "DataOfCmd" (str key)
              (field "Option" (str "false") (field "TypeOfRemote" (str "SendRemoteKey") end)))))
        end))

module _ {C W : Type 0} (lib : ArduinoJson) (clock : Clock W) (socket : Socket W)
    (on_token : String → C → C) where
  -- A token that is not empty and not the one known.
  abbrev pub take_token : String → Line C W → Line C W
  take_token token l =
      if non_empty token && not (str_eq token l.tv.token)
      then record l { tv = record l.tv { token = token }; client = on_token token l.client }
      else l

  abbrev pub on_document : Option Json → Line C W → Line C W
  on_document none l = l
  on_document (some doc) l =
      if str_eq (text_or (get doc "event") "") "ms.channel.connect"
      then take_token (text_or (get (get doc "data") "token") "")
          (record l { tv = record l.tv { connected = true } })
      else l

  unfoldable pub on_event : Event → Line C W → Line C W
  on_event Event.opened l = l
  on_event Event.closed l = record l { tv = record l.tv { connected = false } }
  on_event (Event.message payload) l = on_document (lib.deserialize payload) l
  on_event Event.other l = l

  unfoldable pub on_events : List Event → Line C W → Line C W
  on_events [] l = l
  on_events (e ∷ es) l = on_events es (on_event e l)

  -- `ws_.loop()`, with the events that it reports.
  unfoldable pub service : Line C W → Line C W
  service l = let (es, w) = socket.loop l.world in on_events es (record l { world = w })

  abbrev pub wait : ℕ → Line C W → Line C W
  wait ms l = record l { world = clock.delay ms l.world }

  abbrev pub probed : Bool × W → Line C W → Round (Line C W) (Bool × Line C W)
  probed (true, w) l = stop (true, record l { world = w })
  probed (false, w) l = again (wait 2000 (record l { world = w }))

  abbrev pub tcp_round : Line C W → Round (Line C W) (Bool × Line C W)
  tcp_round l = probed (socket.probe l.tv.ip 8002 l.world) l

  -- The loop that probes the television's port.
  unfoldable pub await_tcp : ℕ → ℕ → ℕ → Line C W → Option (Bool × Line C W)
  await_tcp = while_below clock (λ l. l.world) tcp_round (λ l. (false, l))

  abbrev pub open_round : Line C W → Round (Line C W) (Bool × Line C W)
  open_round l =
      let l' = service l in if l'.tv.connected then stop (true, l') else again (wait 50 l')

  -- The loop that waits for the connection.
  unfoldable pub await_open : ℕ → ℕ → ℕ → Line C W → Option (Bool × Line C W)
  await_open = while_below clock (λ l. l.world) open_round (λ l. (false, l))

  abbrev pub open_line : ℕ → ℕ → ℕ → Option (Bool × Line C W) → Option (Bool × Line C W)
  open_line fuel start budget none = none
  open_line fuel start budget (some (false, l)) = some (false, l)
  open_line fuel start budget (some (true, l)) = await_open fuel start budget (record l {
    world = socket.begin_ssl l.tv.ip 8002 (build_path socket.encoded_name l.tv) l.world;
  })

  -- `connectWithRetry`; `none` where the fuel ran out.
  unfoldable pub connect_with_retry : ℕ → ℕ → Line C W → Option (Bool × Line C W)
  connect_with_retry fuel budget l =
      let start = millis clock l.world in
      open_line fuel start budget (await_tcp fuel start budget l)

  -- `sendKey`
  unfoldable pub send_key : String → Line C W → Bool × Line C W
  send_key key l =
      let (sent, w) = socket.send_text (lib.serialize (key_message key)) l.world in
      if l.tv.connected then (sent, record l { world = w }) else (false, l)

  abbrev pub pump_round : Line C W → Round (Line C W) (Line C W)
  pump_round l = again (wait 10 (service l))

  -- `pump`
  unfoldable pub pump : ℕ → ℕ → Line C W → Option (Line C W)
  pump fuel ms l =
      while_below clock (λ l'. l'.world) pump_round (λ l'. l') fuel (millis clock l.world) ms l

  -- `disconnect`
  unfoldable pub disconnect : Line C W → Line C W
  disconnect l = record l {
    world = socket.disconnect l.world;
    tv = record l.tv { connected = false };
  }
