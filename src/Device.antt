-- ===== src/Device.antt =====
-- src/main.cpp: the device's state, its queue of one run, and a step of its loop. What the hardware
-- and the radio do is a parameter.
pub mod Runs
pub mod Seeding
pub mod Boot
pub mod Modes
pub mod Progress
pub mod Requests
pub mod Tests
use Prim.Native.String.{◌++◌ as cat}
use esp32_sequencer.Base.{
  ℕ, ◌+◌, String, Bool, true, false, Option, none, some, List, [], ◌∷◌, ◌%◌, ◌^◌, ltb, leb, not,
  ◌&&◌, ◌||◌, if◌then◌else◌,
}
use esp32_sequencer.Base.Int.{pos}
use esp32_sequencer.Json.{Json, null, bool, int, str, obj, end, field, ArduinoJson}
use esp32_sequencer.Model.{Sequence, TriggerBinding}
use esp32_sequencer.Registry.{RunResult, failed, Registry}
use esp32_sequencer.Interp.{Env, Ctx, Outcome, run_sequence}
use esp32_sequencer.Store.{
  Persistence, find_by_id, replace_all, save_sequences, replace_triggers, save_triggers,
}
use esp32_sequencer.Led.{LedState, StatusLed, set_state, tick}
use esp32_sequencer.Triggers.{TriggerManager, Bound, adapters, apply_bindings}
use esp32_sequencer.Defaults.{default_sequences, default_triggers}

-- The board, the radio and the network, over the world `W` in which the blocks act.
pub record Hardware (W : Type 0) : Type 0 where
  pub millis : W → ℕ
  pub connected : W → Bool
  pub on_idle_network : W → Bool
  pub connect_idle : W → Bool × W
  pub disconnect : W → W
  pub enter_setup : W → W
  pub begin_http : W → W
  pub start_scan : W → W
  pub stop_scan : W → W
  pub delay : ℕ → W → W
  pub setup_fallback : Bool

-- The globals; `P` is the flash storage and `G` the state of `std::rand`.
pub record Device (W P G : Type 0) : Type 0 where
  pub sequences : List Sequence
  pub triggers : List TriggerBinding
  pub manager : TriggerManager Bound
  pub pending : Bool
  pub pending_seq_id : String
  pub pending_args : Json
  pub running : Bool
  pub last_error : String
  pub last_run_ms : ℕ
  pub led : StatusLed
  pub in_runtime : Bool
  pub wifi_ready : Bool
  pub http_started : Bool
  pub ble_started : Bool
  pub wifi_failures : ℕ
  pub next_wifi_retry_ms : ℕ
  pub flash : P
  pub random : G
  pub world : W

abbrev pub is_empty {ℓ} : {A : Type ℓ} → List A → Bool
is_empty [] = true
is_empty (x ∷ xs) = false

module _ {W P G : Type 0} where
  -- `enqueueRun`
  unfoldable pub enqueue_run : String → Json → Device W P G → Device W P G
  enqueue_run id args d =
      if d.pending then d else record d { pending_seq_id = id; pending_args = args; pending = true }

  -- `statusJson`
  unfoldable pub status_json : ArduinoJson → Device W P G → String
  status_json lib d = lib.serialize (
      obj (
        field "running" (bool d.running)
          (field "lastRunMs" (int (pos d.last_run_ms)) (field "lastError" (str d.last_error) end))))

  module _ (lib : ArduinoJson) (persistence : Persistence P) (rand : G → ℕ × G) where
    abbrev pub store_sequences : List Sequence → Device W P G → Device W P G
    store_sequences ss d =
        let (ss', g) = replace_all lib rand ss d.random in
        record d { sequences = ss'; random = g; flash = save_sequences lib persistence ss' d.flash }

    abbrev pub store_triggers : List TriggerBinding → Device W P G → Device W P G
    store_triggers ts d =
        let (ts', g) = replace_triggers rand ts d.random in
        record d { triggers = ts'; random = g; flash = save_triggers lib persistence ts' d.flash }

    -- `seedDefaultsIfEmpty`
    unfoldable pub seed_defaults_if_empty : Device W P G → Device W P G
    seed_defaults_if_empty d =
        if not (is_empty d.sequences) && not (is_empty d.triggers)
        then d
        else (let d' = if is_empty d.sequences then store_sequences default_sequences d else d in
            if is_empty d'.triggers then store_triggers default_triggers d' else d')

  module _ (hw : Hardware W) (lib : ArduinoJson) (registry : Registry W) where
    abbrev pub pauses_scan : Device W P G → Bool
    pauses_scan d = d.ble_started && d.manager.any_pauses

    -- The interpreter's environment: the lookup is in the store.
    abbrev pub run_env : Device W P G → Env W
    run_env d = record {
      lib = lib;
      registry = registry;
      sequence_lookup = some (λ id. find_by_id id d.sequences);
      delay = hw.delay;
    }

    -- The queue is emptied before the lookup.
    abbrev pub taken : Device W P G → Device W P G
    taken d = record d { pending = false; pending_seq_id = "" }

    abbrev pub begun : Device W P G → Device W P G
    begun d = record d {
      led = set_state LedState.running d.led;
      running = true;
      last_error = "";
      world = if pauses_scan d then hw.stop_scan d.world else d.world;
    }

    abbrev pub reported : RunResult → Device W P G → Device W P G
    reported RunResult.ok d = record d { led = set_state LedState.success d.led }
    reported (failed e) d = record d { last_error = e; led = set_state LedState.error d.led }

    abbrev pub resumed : Device W P G → Device W P G
    resumed d = if pauses_scan d then record d { world = hw.start_scan d.world } else d

    -- After a run that left the idle network, the device connects again.
    abbrev pub checked_network : Device W P G → Device W P G
    checked_network d =
        if not (hw.connected d.world) || not (hw.on_idle_network d.world)
        then record d {
          wifi_ready = false;
          next_wifi_retry_ms = (hw.millis d.world + 1000) % 2 ^ 32;
        }
        else d

    abbrev pub ended : Device W P G → Outcome W → Option (Device W P G)
    ended d none = none
    ended d (some (r, c)) = some (
        checked_network (
          resumed (
            reported r (record d {
              world = c.world;
              running = false;
              last_run_ms = hw.millis c.world;
              pending_args = null;
            }))))

    abbrev pub run_found : ℕ → String → Option Sequence → Device W P G → Option (Device W P G)
    run_found fuel sid none d = some (record d { last_error = cat "unknown sequence: " sid })
    run_found fuel sid (some s) d = ended (begun d) (
        run_sequence fuel (run_env d) s d.pending_args
          (record { world = (begun d).world; scope_stack = []; call_stack = [] }))

    -- The branch of `loop` for a pending run; `none` where the fuel for nested calls ran out.
    unfoldable pub run_pending : ℕ → Device W P G → Option (Device W P G)
    run_pending fuel d =
        run_found fuel d.pending_seq_id (find_by_id d.pending_seq_id d.sequences) (taken d)

    -- `startRuntimeHttp`, without the pages.
    unfoldable pub start_runtime_http : Device W P G → Device W P G
    start_runtime_http d = if d.http_started then d else record d {
      manager = apply_bindings registry (adapters lib) d.triggers d.manager;
      world = hw.begin_http d.world;
      http_started = true;
    }

    -- `startBle`; `activeCount` is the number of the bound devices.
    unfoldable pub start_ble : Device W P G → Device W P G
    start_ble d =
        if d.ble_started
        then d
        else if is_empty d.manager.triggers.ble
        then d
        else record d { world = hw.start_scan d.world; ble_started = true }

    abbrev pub connected_idle : Device W P G → Device W P G
    connected_idle d = start_ble (
        start_runtime_http
          (record d { led = set_state LedState.idle d.led; wifi_ready = true; wifi_failures = 0 }))

    abbrev pub failed_idle : Device W P G → Device W P G
    failed_idle d =
        let failures = d.wifi_failures + 1 in
        if hw.setup_fallback && leb 40 failures
        then record d {
          wifi_failures = failures;
          in_runtime = false;
          led = set_state LedState.setup d.led;
          world = hw.enter_setup (hw.disconnect d.world);
        }
        else record d {
          wifi_failures = failures;
          led = set_state LedState.error d.led;
          next_wifi_retry_ms = (hw.millis d.world + 15000) % 2 ^ 32;
        }

    -- `tryConnectIdle`
    unfoldable pub try_connect_idle : Device W P G → Device W P G
    try_connect_idle d =
        if ltb (hw.millis d.world) d.next_wifi_retry_ms
        then d
        else (let (up, w) = hw.connect_idle d.world in
            if up
            then connected_idle (record d { world = w })
            else failed_idle (record d { world = w }))

    abbrev pub lost_network : Device W P G → Device W P G
    lost_network d = record d {
      wifi_ready = false;
      next_wifi_retry_ms = (hw.millis d.world + 1000) % 2 ^ 32;
      led = set_state LedState.error d.led;
    }

    abbrev pub runtime_step : ℕ → Device W P G → Option (Device W P G)
    runtime_step fuel d =
        if not d.wifi_ready
        then some (try_connect_idle d)
        else if not (hw.connected d.world)
        then some (lost_network d)
        else if d.pending
        then run_pending fuel d
        else some d

    abbrev pub delayed : Option (Device W P G) → Option (Device W P G)
    delayed none = none
    delayed (some d) = some (record d { world = hw.delay 10 d.world })

    -- A round of `loop`.
    unfoldable pub loop_step : ℕ → Device W P G → Option (Device W P G)
    loop_step fuel d =
        let d' = record d { led = tick (hw.millis d.world) d.led } in
        delayed (if d'.in_runtime then runtime_step fuel d' else some d')
