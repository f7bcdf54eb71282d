-- ===== src/System.antt =====
-- What may happen to a device that runs: requests to src/ApiServer.cpp, hits and routes of the
-- triggers, and rounds of the loop of src/main.cpp, one after another.
pub mod Unchanged
pub mod Saved
pub mod Restart
pub mod Sound
pub mod Routed
pub mod Started
pub mod Tests
use esp32_sequencer.Base.{ℕ, String, Bool, Option, none, some, List, [], ◌∷◌, ◌≡◌}
use esp32_sequencer.Base.Map.{Map}
use esp32_sequencer.Json.{Json, ArduinoJson}
use esp32_sequencer.Registry.{Registry}
use esp32_sequencer.Store.{Persistence, find_by_id}
use esp32_sequencer.Triggers.{Fire, BleActive, Reply, on_hit, handle}
use esp32_sequencer.Device.{Hardware, Device, enqueue_run, loop_step}
use esp32_sequencer.Api.{
  post_run, post_run_json, put_sequences, put_sequence, delete_sequence, put_triggers,
}

module _ {W P G : Type 0} where
  -- The callback of the trigger manager, `enqueueRun`, for each of the bindings that fire.
  unfoldable pub fire_all : List Fire → Device W P G → Device W P G
  fire_all [] d = d
  fire_all ((sid, args) ∷ fs) d = fire_all fs (enqueue_run sid args d)

  abbrev pub struck : Map BleActive × List Fire → Device W P G → Device W P G
  struck (m, fs) d =
      fire_all fs (record d {
        manager = record d.manager { triggers = record d.manager.triggers { ble = m } };
      })

  -- The scanner's callback, at the time `now`.
  unfoldable pub ble_hit : ℕ → List ℕ → Device W P G → Device W P G
  ble_hit now mac d = struck (on_hit now mac d.manager.triggers.ble) d

  abbrev pub routed : Reply × Option Fire → Device W P G → Reply × Device W P G
  routed (reply, none) d = (reply, d)
  routed (reply, some (sid, args)) d = (reply, enqueue_run sid args d)

  -- A request to a binding's route, with the query.
  unfoldable pub route_request :
      List (String × String) → String → Device W P G → Reply × Device W P G
  route_request params id d =
      routed (handle (λ sid. find_by_id sid d.sequences) params id d.manager.triggers.routes) d

  module _ (hw : Hardware W) (lib : ArduinoJson) (registry : Registry W)
      (persistence : Persistence P) (rand : G → ℕ × G) (known : String → Bool) where
    -- A step of the device. A round of the loop is one step, a run included.
    pub data Step : Device W P G → Device W P G → Type 0 where
      sequences_put :
          (json : Json) (d : Device W P G)
          → Step d (put_sequences lib persistence rand known json d).1
      sequence_put :
          (json : Json) (d : Device W P G)
          → Step d (put_sequence lib persistence rand known json d).1
      sequence_deleted :
          (id : Option String) (d : Device W P G)
          → Step d (delete_sequence lib persistence rand id d).1
      triggers_put :
          (json : Json) (d : Device W P G)
          → Step d (put_triggers lib persistence rand registry json d).1
      run_posted : (id : Option String) (d : Device W P G) → Step d (post_run id d).1
      run_posted_json :
          (id : Option String) (json : Json) (d : Device W P G) → Step d (post_run_json id json d).1
      hit : (now : ℕ) (mac : List ℕ) (d : Device W P G) → Step d (ble_hit now mac d)
      requested :
          (params : List (String × String)) (id : String) (d : Device W P G)
          → Step d (route_request params id d).1
      looped :
          (fuel : ℕ) (d d' : Device W P G) → loop_step hw lib registry fuel d ≡ some d' → Step d d'

    pub data Reach (d : Device W P G) : Device W P G → Type 0 where
      here : Reach d d
      next : {e f : Device W P G} → Reach d e → Step e f → Reach d f
