-- ===== src/System/Unchanged.antt =====
-- The steps that change neither what is stored nor what the flash holds: runs, hits and routes.
use mathlib.Core.Path.{subst}
use esp32_sequencer.Base.{
  ℕ, String, ◌≡◌, refl, ◌∙◌, Bool, true, false, not, Option, none, some, List, [], ◌∷◌, arith,
  Bool-cases, inl, inr, if◌then◌else◌,
}
use esp32_sequencer.Json.{Json, ArduinoJson}
use esp32_sequencer.Model.{Sequence}
use esp32_sequencer.Registry.{RunResult, failed, Registry}
use esp32_sequencer.Interp.{Outcome}
use esp32_sequencer.Triggers.{Fire, Reply, on_hit}
use esp32_sequencer.Device.{
  Hardware, Device, enqueue_run, taken, begun, reported, resumed, checked_network, ended, run_found,
  run_pending, start_runtime_http, start_ble, connected_idle, try_connect_idle, runtime_step,
  delayed, loop_step,
}
use esp32_sequencer.Led.{tick}
use esp32_sequencer.Api.{post_run, post_run_json, queue_id, queue_found}
use esp32_sequencer.System.{fire_all, ble_hit, routed, route_request}

module _ {W P G : Type 0} where
  abbrev pub Unchanged : Device W P G → Device W P G → Type 0
  Unchanged d d' = (d'.sequences ≡ d.sequences) × (d'.triggers ≡ d.triggers) × (d'.flash ≡ d.flash)

  Unchanged-trans : (d e f : Device W P G) → Unchanged d e → Unchanged e f → Unchanged d f
  Unchanged-trans d e f a b = (b.0 ∙ a.0, b.1 ∙ a.1, b.2 ∙ a.2)

  enqueue_run-Unchanged :
      (id : String) (args : Json) (d : Device W P G) → Unchanged d (enqueue_run id args d)
  unfolding enqueue_run
  enqueue_run-Unchanged id args d = (ground arith, ground arith, ground arith)

  fire_all-Unchanged : (fs : List Fire) (d : Device W P G) → Unchanged d (fire_all fs d)
  unfolding fire_all
  fire_all-Unchanged [] d = (refl, refl, refl)
  fire_all-Unchanged ((sid, args) ∷ fs) d =
      Unchanged-trans d (enqueue_run sid args d) (fire_all fs (enqueue_run sid args d))
        (enqueue_run-Unchanged sid args d) (fire_all-Unchanged fs (enqueue_run sid args d))

  pub ble_hit-Unchanged :
      (now : ℕ) (mac : List ℕ) (d : Device W P G) → Unchanged d (ble_hit now mac d)
  unfolding ble_hit
  ble_hit-Unchanged now mac d =
      let o = on_hit now mac d.manager.triggers.ble in
      fire_all-Unchanged o.1 (record d {
        manager = record d.manager { triggers = record d.manager.triggers { ble = o.0 } };
      })

  routed-Unchanged : (o : Reply × Option Fire) (d : Device W P G) → Unchanged d (routed o d).1
  routed-Unchanged (reply, none) d = (refl, refl, refl)
  routed-Unchanged (reply, some (sid, args)) d = enqueue_run-Unchanged sid args d

  pub route_request-Unchanged :
      (params : List (String × String)) (id : String) (d : Device W P G)
      → Unchanged d (route_request params id d).1
  unfolding route_request
  route_request-Unchanged params id d = routed-Unchanged _ d

  queue_found-Unchanged :
      (o : Option Sequence) (args : Json) (d : Device W P G) → Unchanged d (queue_found o args d).1
  queue_found-Unchanged none args d = (refl, refl, refl)
  queue_found-Unchanged (some s) args d = elim (Bool-cases s.broken) [
    | inl broken ↦ rw broken (refl, refl, refl)
    | inr whole ↦ rw whole (enqueue_run-Unchanged s.id args d)
  ]

  queue_id-Unchanged :
      (id : Option String) (args : Json) (d : Device W P G) → Unchanged d (queue_id id args d).1
  queue_id-Unchanged none args d = (refl, refl, refl)
  queue_id-Unchanged (some id) args d = queue_found-Unchanged _ args d

  pub post_run-Unchanged : (id : Option String) (d : Device W P G) → Unchanged d (post_run id d).1
  unfolding post_run
  post_run-Unchanged id d = queue_id-Unchanged id _ d

  pub post_run_json-Unchanged :
      (id : Option String) (json : Json) (d : Device W P G)
      → Unchanged d (post_run_json id json d).1
  unfolding post_run_json
  post_run_json-Unchanged id json d = queue_id-Unchanged id _ d

  abbrev Kept : Device W P G → Option (Device W P G) → Type 0
  Kept d none = Unit
  Kept d (some d') = Unchanged d d'

  module _ (hw : Hardware W) (lib : ArduinoJson) (registry : Registry W) where
    reported-Unchanged :
        (r : RunResult) (d : Device W P G) → Unchanged d (reported hw lib registry r d)
    reported-Unchanged RunResult.ok d = (refl, refl, refl)
    reported-Unchanged (failed e) d = (refl, refl, refl)

    closing-Unchanged :
        (d : Device W P G)
        → Unchanged d (checked_network hw lib registry (resumed hw lib registry d))
    closing-Unchanged d = (ground arith, ground arith, ground arith)

    ended-Kept : (d : Device W P G) (o : Outcome W) → Kept d (ended hw lib registry d o)
    ended-Kept d none = tt
    ended-Kept d (some (r, c)) =
        let d' = record d {
          world = c.world;
          running = false;
          last_run_ms = hw.millis c.world;
          pending_args = Json.null;
        } in
        let e = reported hw lib registry r d' in
        Unchanged-trans d' e (checked_network hw lib registry (resumed hw lib registry e))
          (reported-Unchanged r d') (closing-Unchanged e)

    run_found-Kept :
        (fuel : ℕ) (sid : String) (o : Option Sequence) (d : Device W P G)
        → Kept d (run_found hw lib registry fuel sid o d)
    run_found-Kept fuel sid none d = (refl, refl, refl)
    run_found-Kept fuel sid (some s) d = ended-Kept (begun hw lib registry d) _

    run_pending-Kept : (fuel : ℕ) (d : Device W P G) → Kept d (run_pending hw lib registry fuel d)
    unfolding run_pending
    run_pending-Kept fuel d = run_found-Kept fuel d.pending_seq_id _ (taken hw lib registry d)

    connected_idle-Unchanged : (d : Device W P G) → Unchanged d (connected_idle hw lib registry d)
    unfolding start_ble start_runtime_http
    connected_idle-Unchanged d = (ground arith, ground arith, ground arith)

    try_connect_idle-Unchanged :
        (d : Device W P G) → Unchanged d (try_connect_idle hw lib registry d)
    unfolding try_connect_idle
    try_connect_idle-Unchanged d =
        let (up, w) = hw.connect_idle d.world in
        let c = connected_idle-Unchanged (record d { world = w }) in
        (ground (arith, c.0), ground (arith, c.1), ground (arith, c.2))

    if-Kept :
        (b : Bool) (d : Device W P G) (o o' : Option (Device W P G))
        → Kept d o
        → Kept d o'
        → Kept d (if b then o else o')
    if-Kept true d o o' h k = h
    if-Kept false d o o' h k = k

    runtime_step-Kept : (fuel : ℕ) (d : Device W P G) → Kept d (runtime_step hw lib registry fuel d)
    runtime_step-Kept fuel d = if-Kept (not d.wifi_ready) d _ _ (try_connect_idle-Unchanged d) (
        if-Kept (not (hw.connected d.world)) d _ _ (refl, refl, refl)
          (if-Kept d.pending d _ _ (run_pending-Kept fuel d) (refl, refl, refl)))

    delayed-Kept :
        (d : Device W P G) (o : Option (Device W P G))
        → Kept d o
        → Kept d (delayed hw lib registry o)
    delayed-Kept d none h = tt
    delayed-Kept d (some d') h = h

    loop_step-Kept : (fuel : ℕ) (d : Device W P G) → Kept d (loop_step hw lib registry fuel d)
    unfolding loop_step
    loop_step-Kept fuel d =
        let d' = record d { led = tick (hw.millis d.world) d.led } in
        delayed-Kept d (if d.in_runtime then runtime_step hw lib registry fuel d' else some d')
          (if-Kept d.in_runtime d _ _ (runtime_step-Kept fuel d') (refl, refl, refl))

    pub loop_step-Unchanged :
        (fuel : ℕ) (d d' : Device W P G)
        → loop_step hw lib registry fuel d ≡ some d'
        → Unchanged d d'
    loop_step-Unchanged fuel d d' h = subst (Kept d) h (loop_step-Kept fuel d)
