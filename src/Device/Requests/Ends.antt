-- ===== src/Device/Requests/Ends.antt =====
-- The end of a run beside which requests came in (src/main.cpp).
use esp32_sequencer.Base.{
  ℕ, String, ◌≡◌, refl, ap, ◌∙◌, sym, Bool, true, false, Option, none, some, List, [], ◌∷◌, ◌%◌,
  ◌^◌, if◌then◌else◌, ◌<◌, ◌+◌, not, ◌||◌,
}
use mathlib.Core.Option.{map}
use esp32_sequencer.Json.{Json, null, ArduinoJson}
use esp32_sequencer.Model.{Sequence}
use esp32_sequencer.Registry.{RunResult, failed, Registry}
use esp32_sequencer.Interp.{Ctx, Outcome}
use esp32_sequencer.Interp.Simulation.{at, Follows, run_sequence-Follows}
use esp32_sequencer.Store.{find_by_id}
use esp32_sequencer.Device.{
  Hardware, Device, pauses_scan, reported, resumed, checked_network, ended, begun, taken, run_found,
  run_pending,
}
use esp32_sequencer.Device.Runs.{run_pending_ends}
use esp32_sequencer.Device.Requests.{
  Request, Traffic, Busy, logged, busy_registry, busy_delay, ended_busy, run_found_busy,
  run_pending_busy,
}
use esp32_sequencer.Device.Requests.Beside.{
  queued, after, enqueue_all-after, Beside, blocks-Agree, predicates-Agree, delay-Beside,
}

module _ {W P G : Type 0} (traffic : Traffic W) (hw : Hardware W) (lib : ArduinoJson)
    (registry : Registry W) where
  -- The device with a request that has lost its arguments.
  abbrev pub waiting_for : String → Device W P G → Device W P G
  waiting_for id d = record d { pending_seq_id = id; pending_args = null; pending = true }

  if-waiting_for :
      (id : String) (b : Bool) (x y : Device W P G)
      → (if b then waiting_for id x else waiting_for id y) ≡ waiting_for id (if b then x else y)
  if-waiting_for id true x y = refl
  if-waiting_for id false x y = refl

  reported-waiting_for :
      (id : String) (r : RunResult) (d : Device W P G)
      → reported hw lib registry r (waiting_for id d)
        ≡ waiting_for id (reported hw lib registry r d)
  reported-waiting_for id RunResult.ok d = refl
  reported-waiting_for id (failed e) d = refl

  resumed-waiting_for :
      (id : String) (d : Device W P G)
      → resumed hw lib registry (waiting_for id d) ≡ waiting_for id (resumed hw lib registry d)
  resumed-waiting_for id d =
      if-waiting_for id (pauses_scan hw lib registry d) (record d { world = hw.start_scan d.world })
        d

  checked_network-waiting_for :
      (id : String) (d : Device W P G)
      → checked_network hw lib registry (waiting_for id d)
        ≡ waiting_for id (checked_network hw lib registry d)
  checked_network-waiting_for id d =
      if-waiting_for id (not (hw.connected d.world) || not (hw.on_idle_network d.world))
        (record d { wifi_ready = false; next_wifi_retry_ms = (hw.millis d.world + 1000) % 2 ^ 32 })
        d

  -- What the loop does at the end of a run forgets the arguments of a request, and keeps its id.
  ended-queued :
      (id : String) (args : Json) (d e : Device W P G) (r : RunResult) (c : Ctx W)
      → ended hw lib registry d (some (r, c)) ≡ some e
      → ended hw lib registry (queued id args d) (some (r, c)) ≡ some (waiting_for id e)
  ended-queued id args d e r c h =
      let base = record d {
        world = c.world;
        running = false;
        last_run_ms = hw.millis c.world;
        pending_args = null;
      } in
      let shown = reported hw lib registry r base in
      ap (λ x. some (checked_network hw lib registry (resumed hw lib registry x)))
        (reported-waiting_for id r base)
      ∙ ap (λ x. some (checked_network hw lib registry x)) (resumed-waiting_for id shown)
      ∙ ap some (checked_network-waiting_for id (resumed hw lib registry shown))
      ∙ ap (map (waiting_for id)) h

  -- The device that a run left as `e`, after the requests that came in during the run: the first
  -- of them waits.
  abbrev pub left_by : List Request → Device W P G → Device W P G
  left_by [] e = e
  left_by ((id, args) ∷ rs) e = waiting_for id e

  ended-after :
      (rs : List Request) (d e : Device W P G) (r : RunResult) (c : Ctx W)
      → ended hw lib registry d (some (r, c)) ≡ some e
      → ended hw lib registry (after rs d) (some (r, c)) ≡ some (left_by rs e)
  ended-after [] d e r c h = h
  ended-after ((id, args) ∷ rs) d e r c h = ended-queued id args d e r c h

  -- The run was the quiet one, with a log of the requests that came in during it.
  abbrev pub LeftBy : Device W P G → Option (List Request × Device W P G) → Type 0
  LeftBy e o = (rs : List Request) × (o ≡ some (rs, left_by rs e))

  ended_busy-LeftBy :
      (d e : Device W P G) (o : Outcome (Busy W P G)) (o' : Outcome W)
      → d.pending ≡ false
      → Follows (Beside d) o o'
      → ended hw lib registry d o' ≡ some e
      → LeftBy e (ended_busy traffic hw lib registry o)
  ended_busy-LeftBy d e none o' free p h =
      absurd (some_is_none (ap (ended hw lib registry d) (sym p) ∙ h))
    where
      some_is_none : none ≡ some e → ⊥
      some_is_none q = cc
  ended_busy-LeftBy d e (some (r, c)) o' free (w, rel, p) h = (
    c.world.1,
    ap (logged traffic hw lib registry c.world.1) (
        ap (λ x. ended hw lib registry x (some (r, at c.world.0 c)))
          (rel.1 ∙ enqueue_all-after c.world.1 d free)
        ∙ ended-after c.world.1 d e r (at c.world.0 c) (
            ap (λ x. ended hw lib registry d (some (r, at x c))) rel.0
            ∙ ap (ended hw lib registry d) (sym p)
            ∙ h)),
  )

  run_found_busy-LeftBy :
      (fuel : ℕ) (sid : String) (o : Option Sequence) (d e : Device W P G)
      → d.pending ≡ false
      → run_found hw lib registry fuel sid o d ≡ some e
      → LeftBy e (run_found_busy traffic hw lib registry fuel sid o d)
  run_found_busy-LeftBy fuel sid none d e free h = ([], ap (logged traffic hw lib registry []) h)
  run_found_busy-LeftBy fuel sid (some s) d e free h =
      ended_busy-LeftBy (begun hw lib registry d) e _ _ free
        (run_sequence-Follows (Beside (begun hw lib registry d)) lib
          (some (λ id. find_by_id id d.sequences)) (busy_registry traffic registry) registry
          (busy_delay traffic hw.delay) hw.delay
          (blocks-Agree (begun hw lib registry d) traffic registry)
          (predicates-Agree (begun hw lib registry d) traffic registry)
          (delay-Beside (begun hw lib registry d) traffic hw.delay) fuel s d.pending_args _ _
          (refl, sym (enqueue_all-after [] (begun hw lib registry d) free)))
        h

  -- With fuel for nine activations, on a device that runs nothing, and whatever requests for runs
  -- come in while the blocks, the predicates and the waits of a run are at work: the run has the
  -- effects on the device and its world that it has without them. Where none came in, the device
  -- is the same one; else it differs from it in that a run waits: the first request that came in,
  -- with its id and without its arguments. The others are dropped.
  pub run_pending_busy-left_by :
      (fuel : ℕ) (d : Device W P G)
      → 8 < fuel
      → d.running ≡ false
      → (e : Device W P G) × (rs : List Request) × (run_pending hw lib registry fuel d ≡ some e)
        × (run_pending_busy traffic hw lib registry fuel d ≡ some (rs, left_by rs e))
  unfolding run_pending run_pending_busy find_by_id
  run_pending_busy-left_by fuel d h idle =
      let quiet = run_pending_ends hw lib registry fuel d h idle in
      let busy =
        run_found_busy-LeftBy fuel d.pending_seq_id (find_by_id d.pending_seq_id d.sequences)
          (taken hw lib registry d) quiet.0 refl quiet.1 in
      (quiet.0, busy.0, quiet.1, busy.1)
