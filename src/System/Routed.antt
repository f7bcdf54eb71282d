-- ===== src/System/Routed.antt =====
-- The routes of the bindings on a device that runs, and their handlers on the server (src/main.cpp,
-- src/ApiServer.cpp, src/adapters/triggers/HttpRouteTrigger.cpp).
use mathlib.Core.Path.{subst}
use esp32_sequencer.Base.{
  ℕ, String, ◌≡◌, Bool, true, false, not, ◌||◌, ◌&&◌, ◌+◌, ltb, leb, Option, none, some, List, [],
  ◌∷◌, if◌then◌else◌, Bool-cases, inl, inr,
}
use esp32_sequencer.Base.Map.{find}
use esp32_sequencer.Json.{Json, ArduinoJson}
use esp32_sequencer.Model.{Sequence}
use esp32_sequencer.Registry.{RunResult, failed, Registry}
use esp32_sequencer.Interp.{Outcome}
use esp32_sequencer.Store.{Persistence, load_sequences, load_triggers}
use esp32_sequencer.Triggers.{Fire, Reply}
use esp32_sequencer.Device.{
  Hardware, Device, enqueue_run, taken, begun, reported, resumed, pauses_scan, checked_network,
  ended, run_found, run_pending, start_runtime_http, start_ble, connected_idle, failed_idle,
  try_connect_idle, runtime_step, delayed, loop_step, is_empty, seed_defaults_if_empty,
  store_sequences,
}
use esp32_sequencer.Defaults.{default_sequences}
use esp32_sequencer.Device.Boot.{powered, enter_runtime_mode}
use esp32_sequencer.Led.{tick}
use esp32_sequencer.Api.{
  upsert_first, removed, queue_id, queue_found, post_run, post_run_json, put_sequences,
  put_sequence, delete_sequence, put_triggers,
}
use esp32_sequencer.System.{
  fire_all, ble_hit, routed, route_request, Step, sequences_put, sequence_put, sequence_deleted,
  triggers_put, run_posted, run_posted_json, hit, requested, looped, Reach, here, next,
}
use esp32_sequencer.Web.Bindings.{Attached, apply_bindings-Attached}

module _ {W P G : Type 0} where
  abbrev pub HasRoutes : Device W P G → Type 0
  HasRoutes d = Attached d.manager.triggers

  abbrev Kept : Option (Device W P G) → Type 0
  Kept none = Unit
  Kept (some d) = HasRoutes d

  if-HasRoutes :
      (b : Bool) (d e : Device W P G) → HasRoutes d → HasRoutes e → HasRoutes (if b then d else e)
  if-HasRoutes true d e h k = h
  if-HasRoutes false d e h k = k

  if-Kept :
      (b : Bool) (o o' : Option (Device W P G)) → Kept o → Kept o' → Kept (if b then o else o')
  if-Kept true o o' h k = h
  if-Kept false o o' h k = k

  enqueue_run-HasRoutes :
      (id : String) (args : Json) (d : Device W P G)
      → HasRoutes d
      → HasRoutes (enqueue_run id args d)
  unfolding enqueue_run
  enqueue_run-HasRoutes id args d h = if-HasRoutes d.pending d _ h h

  fire_all-HasRoutes : (fs : List Fire) (d : Device W P G) → HasRoutes d → HasRoutes (fire_all fs d)
  unfolding fire_all
  fire_all-HasRoutes [] d h = h
  fire_all-HasRoutes ((sid, args) ∷ fs) d h =
      fire_all-HasRoutes fs (enqueue_run sid args d) (enqueue_run-HasRoutes sid args d h)

  ble_hit-HasRoutes :
      (now : ℕ) (mac : List ℕ) (d : Device W P G) → HasRoutes d → HasRoutes (ble_hit now mac d)
  unfolding ble_hit
  ble_hit-HasRoutes now mac d h = fire_all-HasRoutes _ _ h

  routed-HasRoutes :
      (o : Reply × Option Fire) (d : Device W P G) → HasRoutes d → HasRoutes (routed o d).1
  routed-HasRoutes (reply, none) d h = h
  routed-HasRoutes (reply, some (sid, args)) d h = enqueue_run-HasRoutes sid args d h

  route_request-HasRoutes :
      (params : List (String × String)) (id : String) (d : Device W P G)
      → HasRoutes d
      → HasRoutes (route_request params id d).1
  unfolding route_request
  route_request-HasRoutes params id d h = routed-HasRoutes _ d h

  queue_found-HasRoutes :
      (o : Option Sequence) (args : Json) (d : Device W P G)
      → HasRoutes d
      → HasRoutes (queue_found o args d).1
  queue_found-HasRoutes none args d h = h
  queue_found-HasRoutes (some s) args d h = elim (Bool-cases s.broken) [
    | inl broken ↦ rw broken h
    | inr whole ↦ rw whole (enqueue_run-HasRoutes s.id args d h)
  ]

  queue_id-HasRoutes :
      (id : Option String) (args : Json) (d : Device W P G)
      → HasRoutes d
      → HasRoutes (queue_id id args d).1
  queue_id-HasRoutes none args d h = h
  queue_id-HasRoutes (some id) args d h = queue_found-HasRoutes _ args d h

  module _ (hw : Hardware W) (lib : ArduinoJson) (registry : Registry W) where
    reported-HasRoutes :
        (r : RunResult) (d : Device W P G) → HasRoutes d → HasRoutes (reported hw lib registry r d)
    reported-HasRoutes RunResult.ok d h = h
    reported-HasRoutes (failed e) d h = h

    closing-HasRoutes :
        (d : Device W P G)
        → HasRoutes d
        → HasRoutes (checked_network hw lib registry (resumed hw lib registry d))
    closing-HasRoutes d h =
        let r = resumed hw lib registry d in
        let k =
          if-HasRoutes (pauses_scan hw lib registry d) (record d { world = hw.start_scan d.world })
            d h h in
        if-HasRoutes (not (hw.connected r.world) || not (hw.on_idle_network r.world)) _ r k k

    ended-Kept : (d : Device W P G) (o : Outcome W) → HasRoutes d → Kept (ended hw lib registry d o)
    ended-Kept d none h = tt
    ended-Kept d (some (r, c)) h = closing-HasRoutes (reported hw lib registry r _) (
        reported-HasRoutes r
          (record d {
            world = c.world;
            running = false;
            last_run_ms = hw.millis c.world;
            pending_args = Json.null;
          })
          h)

    run_found-Kept :
        (fuel : ℕ) (sid : String) (o : Option Sequence) (d : Device W P G)
        → HasRoutes d
        → Kept (run_found hw lib registry fuel sid o d)
    run_found-Kept fuel sid none d h = h
    run_found-Kept fuel sid (some s) d h = ended-Kept (begun hw lib registry d) _ h

    run_pending-Kept :
        (fuel : ℕ) (d : Device W P G) → HasRoutes d → Kept (run_pending hw lib registry fuel d)
    unfolding run_pending
    run_pending-Kept fuel d h = run_found-Kept fuel d.pending_seq_id _ (taken hw lib registry d) h

    start_runtime_http-HasRoutes :
        (d : Device W P G) → HasRoutes d → HasRoutes (start_runtime_http hw lib registry d)
    unfolding start_runtime_http
    start_runtime_http-HasRoutes d h =
        if-HasRoutes d.http_started d _ h
          (apply_bindings-Attached lib registry d.triggers d.manager h)

    start_ble-HasRoutes : (d : Device W P G) → HasRoutes d → HasRoutes (start_ble hw lib registry d)
    unfolding start_ble
    start_ble-HasRoutes d h =
        if-HasRoutes d.ble_started d _ h (if-HasRoutes (is_empty d.manager.triggers.ble) d _ h h)

    connected_idle-HasRoutes :
        (d : Device W P G) → HasRoutes d → HasRoutes (connected_idle hw lib registry d)
    connected_idle-HasRoutes d h = start_ble-HasRoutes _ (start_runtime_http-HasRoutes _ h)

    failed_idle-HasRoutes :
        (d : Device W P G) → HasRoutes d → HasRoutes (failed_idle hw lib registry d)
    failed_idle-HasRoutes d h =
        if-HasRoutes (hw.setup_fallback && leb 40 (d.wifi_failures + 1)) _ _ h h

    try_connect_idle-HasRoutes :
        (d : Device W P G) → HasRoutes d → HasRoutes (try_connect_idle hw lib registry d)
    unfolding try_connect_idle
    try_connect_idle-HasRoutes d h =
        let (up, w) = hw.connect_idle d.world in
        if-HasRoutes (ltb (hw.millis d.world) d.next_wifi_retry_ms) d _ h (
          if-HasRoutes up _ _ (connected_idle-HasRoutes (record d { world = w }) h)
            (failed_idle-HasRoutes (record d { world = w }) h))

    runtime_step-Kept :
        (fuel : ℕ) (d : Device W P G) → HasRoutes d → Kept (runtime_step hw lib registry fuel d)
    runtime_step-Kept fuel d h = if-Kept (not d.wifi_ready) _ _ (try_connect_idle-HasRoutes d h) (
        if-Kept (not (hw.connected d.world)) _ _ h
          (if-Kept d.pending _ _ (run_pending-Kept fuel d h) h))

    delayed-Kept : (o : Option (Device W P G)) → Kept o → Kept (delayed hw lib registry o)
    delayed-Kept none h = tt
    delayed-Kept (some d) h = h

    loop_step-HasRoutes :
        (fuel : ℕ) (d d' : Device W P G)
        → loop_step hw lib registry fuel d ≡ some d'
        → HasRoutes d
        → HasRoutes d'
    unfolding loop_step
    loop_step-HasRoutes fuel d d' e h =
        let ticked = record d { led = tick (hw.millis d.world) d.led } in
        subst Kept e (
          delayed-Kept
            (if d.in_runtime then runtime_step hw lib registry fuel ticked else some ticked)
            (if-Kept d.in_runtime _ _ (runtime_step-Kept fuel ticked h) h))

  module _ (lib : ArduinoJson) (persistence : Persistence P) (rand : G → ℕ × G)
      (known : String → Bool) where
    upsert_first-HasRoutes :
        (ss : List Sequence) (d : Device W P G)
        → HasRoutes d
        → HasRoutes (upsert_first lib persistence rand ss d).1
    upsert_first-HasRoutes [] d h = h
    upsert_first-HasRoutes (s ∷ ss) d h = h

    removed-HasRoutes :
        (o : Bool × List Sequence) (d : Device W P G)
        → HasRoutes d
        → HasRoutes (removed lib persistence rand o d).1
    removed-HasRoutes (false, all) d h = h
    removed-HasRoutes (true, all) d h = h

    delete_sequence-HasRoutes :
        (id : Option String) (d : Device W P G)
        → HasRoutes d
        → HasRoutes (delete_sequence lib persistence rand id d).1
    unfolding delete_sequence
    delete_sequence-HasRoutes none d h = h
    delete_sequence-HasRoutes (some id) d h = removed-HasRoutes _ d h

    Step-HasRoutes :
        (hw : Hardware W) (registry : Registry W) {d d' : Device W P G}
        → Step hw lib registry persistence rand known d d'
        → HasRoutes d
        → HasRoutes d'
    unfolding put_sequences put_sequence put_triggers post_run post_run_json
    Step-HasRoutes hw registry (sequences_put json d) h = h
    Step-HasRoutes hw registry (sequence_put json d) h = upsert_first-HasRoutes _ d h
    Step-HasRoutes hw registry (sequence_deleted id d) h = delete_sequence-HasRoutes id d h
    Step-HasRoutes hw registry (triggers_put json d) h =
        apply_bindings-Attached lib registry _ d.manager h
    Step-HasRoutes hw registry (run_posted id d) h = queue_id-HasRoutes id _ d h
    Step-HasRoutes hw registry (run_posted_json id json d) h = queue_id-HasRoutes id _ d h
    Step-HasRoutes hw registry (hit now mac d) h = ble_hit-HasRoutes now mac d h
    Step-HasRoutes hw registry (requested params id d) h = route_request-HasRoutes params id d h
    Step-HasRoutes hw registry (looped fuel d d' e) h =
        loop_step-HasRoutes hw lib registry fuel d d' e h

    pub Reach-HasRoutes :
        (hw : Hardware W) (registry : Registry W) {d d' : Device W P G}
        → Reach hw lib registry persistence rand known d d'
        → HasRoutes d
        → HasRoutes d'
    Reach-HasRoutes hw registry here h = h
    Reach-HasRoutes hw registry (next r s) h =
        Step-HasRoutes hw registry s (Reach-HasRoutes hw registry r h)

    seed_defaults_if_empty-HasRoutes :
        (d : Device W P G) → HasRoutes d → HasRoutes (seed_defaults_if_empty lib persistence rand d)
    unfolding seed_defaults_if_empty
    seed_defaults_if_empty-HasRoutes d h =
        let seeded =
          if is_empty d.sequences
          then store_sequences lib persistence rand default_sequences d
          else d in
        let k = if-HasRoutes (is_empty d.sequences) _ d h h in
        if-HasRoutes (not (is_empty d.sequences) && not (is_empty d.triggers)) d _ h
          (if-HasRoutes (is_empty seeded.triggers) _ seeded k k)

    -- A device that starts has no routes.
    pub enter_runtime_mode-HasRoutes :
        (p : P) (g : G) (w : W)
        → HasRoutes (enter_runtime_mode lib persistence rand known (powered p g w))
    unfolding enter_runtime_mode powered find
    enter_runtime_mode-HasRoutes p g w =
        seed_defaults_if_empty-HasRoutes
          (record (powered p g w) {
            sequences = load_sequences lib persistence known p;
            triggers = load_triggers lib persistence p;
          })
          (λ id a e. cc)
