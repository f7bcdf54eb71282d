-- ===== src/Triggers.antt =====
-- src/core/TriggerManager.{h,cpp} and src/adapters/triggers: the bindings that are active, and what
-- they fire.
pub mod Manager
pub mod Bindings
pub mod Cooldown
pub mod Replies
pub mod Tests
use Prim.Native.Char.{code}
use Prim.Native.String
use Prim.Native.String.{◌++◌ as cat}
use esp32_sequencer.Base.{
  ℕ, ◌+◌, ◌-◌, ◌^◌, ◌%◌, String, Bool, true, false, Option, none, some, List, [], ◌∷◌, str_eq, ltb,
  leb, ◌&&◌, not, if◌then◌else◌,
}
use esp32_sequencer.Base.Result.{Result, ok, err}
use esp32_sequencer.Base.Map.{Map, find, insert, erase}
use esp32_sequencer.Json.{Json, Fields, obj, ArduinoJson, as_text, get, or_default}
use esp32_sequencer.Model.{TriggerSchema, TriggerBinding, Sequence, ParamDef}
use esp32_sequencer.Registry.{Registry, resolve_trigger}
use esp32_sequencer.Query.{coerce_query_args, same_codes}

-- What a trigger does with its bindings, by the trigger's type: `Trigger::bind` and `unbind`.
pub record Adapters (S : Type 0) : Type 0 where
  pub bind : String → TriggerBinding → S → S
  pub unbind : String → String → S → S

-- `TriggerManager`, with the state of the triggers. `active` holds the type of the trigger.
pub record TriggerManager (S : Type 0) : Type 0 where
  pub active : Map String
  pub any_pauses : Bool
  pub triggers : S

module _ {W S : Type 0} (registry : Registry W) (adapters : Adapters S) where
  abbrev pub unbind_all : Map String → S → S
  unbind_all [] s = s
  unbind_all ((id, type) ∷ m) s = unbind_all m (adapters.unbind type id s)

  abbrev pub bind_known :
      TriggerBinding → Option TriggerSchema → TriggerManager S → TriggerManager S
  bind_known b none m = m
  bind_known b (some schema) m = record {
    active = insert b.id b.type m.active;
    any_pauses = if schema.pauses_ble_scan then true else m.any_pauses;
    triggers = adapters.bind b.type b m.triggers;
  }

  -- One round of the loop of `applyBindings`.
  unfoldable pub apply_binding : TriggerBinding → TriggerManager S → TriggerManager S
  apply_binding b m = if not b.enabled then m else bind_known b (resolve_trigger b.type registry) m

  unfoldable pub apply_all : List TriggerBinding → TriggerManager S → TriggerManager S
  apply_all [] m = m
  apply_all (b ∷ bs) m = apply_all bs (apply_binding b m)

  unfoldable pub apply_bindings : List TriggerBinding → TriggerManager S → TriggerManager S
  apply_bindings bs m =
      apply_all bs
        (record { active = []; any_pauses = false; triggers = unbind_all m.active m.triggers })

-- `toLower`
unfoldable pub to_lower : String → List ℕ
to_lower String.[] = []
to_lower (String.◌∷◌ c s) =
    (if leb b'A' (code c) && leb (code c) b'Z' then code c + 32 else code c) ∷ to_lower s

-- BleMacTrigger: `Active`, without the callback. Times are `uint32_t` milliseconds.
pub record BleActive : Type 0 where
  pub mac : List ℕ
  pub sequence_id : String
  pub cooldown_ms : ℕ
  pub last_fire_ms : ℕ
  pub args : Json

-- HttpRouteTrigger: `Active`, without the callbacks.
pub record RouteActive : Type 0 where
  pub path : String
  pub sequence_id : String
  pub default_args : Json

-- Both triggers' `g_active`, and the paths of the handlers with the binding each looks up.
pub record Bound : Type 0 where
  pub ble : Map BleActive
  pub routes : Map RouteActive
  pub handlers : List (String × String)

-- What the callback is given.
abbrev pub Fire : Type 0
Fire = String × Json

module _ (lib : ArduinoJson) where
  -- `BleMacTrigger::bind`
  unfoldable pub bind_ble : TriggerBinding → Bound → Bound
  bind_ble b s = elim (as_text (get b.params "mac")) [
    | none ↦ s
    | some mac ↦ record s {
      ble =
          insert b.id
            (record {
              mac = to_lower mac;
              sequence_id = b.sequence_id;
              cooldown_ms = or_default (lib.as_uint (get b.params "cooldown_ms")) 60000;
              last_fire_ms = 0;
              args = b.args;
            })
            s.ble;
    }
  ]

  -- `HttpRouteTrigger::bind`, with its `registerHandler` (the server is set by then).
  abbrev pub bind_path : TriggerBinding → String → Bound → Bound
  bind_path b path s = if str_eq path "" then s else record s {
    routes =
        insert b.id (record { path = path; sequence_id = b.sequence_id; default_args = b.args })
          s.routes;
    handlers = (path, b.id) ∷ s.handlers;
  }

  unfoldable pub bind_route : TriggerBinding → Bound → Bound
  bind_route b s = elim (as_text (get b.params "path")) [
    | none ↦ s
    | some path ↦ bind_path b path s
  ]

  unfoldable pub unbind_ble : String → Bound → Bound
  unbind_ble id s = record s { ble = erase id s.ble }

  unfoldable pub unbind_route : String → Bound → Bound
  unbind_route id s = record s { routes = erase id s.routes }

  -- The two triggers of the program.
  abbrev pub adapters : Adapters Bound
  adapters = record {
    bind = λ type b s.
        if str_eq type "ble-mac"
        then bind_ble b s
        else if str_eq type "http-route"
        then bind_route b s
        else s;
    unbind = λ type id s.
        if str_eq type "ble-mac"
        then unbind_ble id s
        else if str_eq type "http-route"
        then unbind_route id s
        else s;
  }

-- `now - lastFireMs`, on `uint32_t`.
unfoldable pub since_fire : ℕ → BleActive → ℕ
since_fire now a = (now + 2 ^ 32 - a.last_fire_ms) % 2 ^ 32

-- One round of the loop of `onHit`: whether the binding fires.
unfoldable pub fires : ℕ → List ℕ → BleActive → Bool
fires now mac a =
    if not (same_codes a.mac mac)
    then false
    else if ltb (since_fire now a) a.cooldown_ms
    then false
    else true

unfoldable pub after_hit : ℕ → List ℕ → BleActive → BleActive
after_hit now mac a = if fires now mac a then record a { last_fire_ms = now } else a

-- `BleMacTrigger::onHit`
unfoldable pub on_hit : ℕ → List ℕ → Map BleActive → Map BleActive × List Fire
on_hit now mac [] = ([], [])
on_hit now mac ((id, a) ∷ m) =
    let (m', fs) = on_hit now mac m in
    ((id, after_hit now mac a) ∷ m', if fires now mac a then (a.sequence_id, a.args) ∷ fs else fs)

-- `q.emplace`: the first value of a name stays.
unfoldable pub emplace_all : List (String × String) → Map String → Map String
emplace_all [] q = q
emplace_all ((k, v) ∷ ps) q = emplace_all ps (elim (find k q) [ none ↦ insert k v q | some _ ↦ q ])

abbrev pub params_of : Option Sequence → List ParamDef
params_of none = []
params_of (some s) = s.params

-- A reply: its code and its body.
abbrev pub Reply : Type 0
Reply = ℕ × String

abbrev pub error_body : String → String
error_body e = cat "{\"error\":\"" (cat e "\"}")

abbrev pub answer : String → Result Fields → Reply × Option Fire
answer sid (err e) = ((400, error_body e), none)
answer sid (ok fs) = ((200, "queued"), some (sid, obj fs))

abbrev pub respond :
    (String → Option Sequence) → List (String × String) → Option RouteActive → Reply × Option Fire
respond lookup params none = ((410, "{\"error\":\"binding gone\"}"), none)
respond lookup params (some a) =
    answer a.sequence_id
      (coerce_query_args a.default_args (params_of (lookup a.sequence_id)) (emplace_all params []))

-- The handler of a binding's route, with what it fires.
unfoldable pub handle :
    (String → Option Sequence)
    → List (String × String)
    → String
    → Map RouteActive
    → Reply × Option Fire
handle lookup params id routes = respond lookup params (find id routes)
