-- ===== src/Device/Runs.antt =====
-- Pending runs in the loop of src/main.cpp.
use Prim.Native.String.{◌++◌ as cat}
use esp32_sequencer.Base.{
  ℕ, ◌<◌, String, ◌≡◌, refl, ap, ◌∙◌, ◌⊎◌, inl, inr, Bool-cases, true, false, Option, none, some,
  List, [], arith,
}
use esp32_sequencer.Json.{Json, null, ArduinoJson}
use esp32_sequencer.Model.{Sequence}
use esp32_sequencer.Registry.{RunResult, failed, Registry}
use esp32_sequencer.Interp.{Outcome, Ctx, run_sequence}
use esp32_sequencer.Interp.Stacks.{Kept, run_sequence_ends}
use esp32_sequencer.Store.{find_by_id}
use esp32_sequencer.Led.{LedState, StatusLed, set_state}
use esp32_sequencer.Device.{
  Hardware, Device, enqueue_run, reported, resumed, checked_network, ended, begun, taken, run_found,
  run_pending, run_env,
}

set_state_lem : (s : LedState) (led : StatusLed) → (set_state s led).state ≡ s
unfolding set_state
set_state_lem s led = refl

module _ {W P G : Type 0} where
  -- What the end of a run shows: success without an error, or the error of the run.
  abbrev pub Shown : RunResult → Device W P G → Type 0
  Shown RunResult.ok d = (d.led.state ≡ LedState.success) × (d.last_error ≡ "")
  Shown (failed e) d = (d.led.state ≡ LedState.error) × (d.last_error ≡ e)

  -- The queue and the running flag are free, and the sequences are the same.
  abbrev pub Free : Device W P G → Device W P G → Type 0
  Free d d' = (d'.pending ≡ false) × (d'.running ≡ false) × (d'.sequences ≡ d.sequences)

  -- What a device does with a run that it is given: where the queue is free the run is in it after,
  -- and where a run is waiting the new one is dropped, and the device is the same.
  abbrev pub Offered : String → Json → Device W P G → Device W P G → Type 0
  Offered id args d d' =
      ((d.pending ≡ false)
        × (d' ≡ record d { pending_seq_id = id; pending_args = args; pending = true }))
      ⊎ ((d.pending ≡ true) × (d' ≡ d))

  pub enqueue_run-Offered :
      (id : String) (args : Json) (d : Device W P G) → Offered id args d (enqueue_run id args d)
  unfolding enqueue_run
  enqueue_run-Offered id args d = elim (Bool-cases d.pending) [
    | inl full ↦ inr (full, rw full refl)
    | inr free ↦ inl (free, rw free refl)
  ]

  abbrev pub Same : Device W P G → Device W P G → Type 0
  Same d d' =
      (d'.pending ≡ d.pending)
      × (d'.running ≡ d.running)
      × (d'.sequences ≡ d.sequences)
      × (d'.led ≡ d.led)
      × (d'.last_error ≡ d.last_error)

  module _ (hw : Hardware W) (lib : ArduinoJson) (registry : Registry W) where
    resumed-Same : (d : Device W P G) → Same d (resumed hw lib registry d)
    resumed-Same d = (ground arith, ground arith, ground arith, ground arith, ground arith)

    checked_network-Same : (d : Device W P G) → Same d (checked_network hw lib registry d)
    checked_network-Same d = (ground arith, ground arith, ground arith, ground arith, ground arith)

    closing-Same :
        (d : Device W P G) → Same d (checked_network hw lib registry (resumed hw lib registry d))
    closing-Same d =
        let a = resumed-Same d in
        let b = checked_network-Same (resumed hw lib registry d) in
        (b.0 ∙ a.0, b.1 ∙ a.1, b.2 ∙ a.2, b.3 ∙ a.3, b.4 ∙ a.4)

    -- The device after a run that ended with `r` in the frame `c`.
    abbrev closed : RunResult → Ctx W → Device W P G → Device W P G
    closed r c d = reported hw lib registry r (record d {
      world = c.world;
      running = false;
      last_run_ms = hw.millis c.world;
      pending_args = null;
    })

    Shown-of :
        (r : RunResult) (d d' : Device W P G)
        → d'.led ≡ d.led
        → d'.last_error ≡ d.last_error
        → Shown r d
        → Shown r d'
    Shown-of RunResult.ok d d' l e s = (ap (λ x. x.state) l ∙ s.0, e ∙ s.1)
    Shown-of (failed m) d d' l e s = (ap (λ x. x.state) l ∙ s.0, e ∙ s.1)

    ended_lem :
        (ss : List _) (cs : List String) (d : Device W P G) (o : Outcome W)
        → d.pending ≡ false
        → d.last_error ≡ ""
        → Kept ss cs o
        → (d' : Device W P G) × (ended hw lib registry d o ≡ some d')
          × Free d d'
          × ((r : RunResult) × (c : Ctx W) × (o ≡ some (r, c)) × Shown r d')
    ended_lem ss cs d none free clear h = absurd h
    ended_lem ss cs d (some (RunResult.ok, c)) free clear h =
        let s = closing-Same (closed RunResult.ok c d) in
        (
          _,
          refl,
          (s.0 ∙ free, s.1, s.2),
          (
            RunResult.ok,
            c,
            refl,
            Shown-of RunResult.ok (closed RunResult.ok c d)
                (checked_network hw lib registry
                  (resumed hw lib registry (closed RunResult.ok c d)))
                s.3 s.4 (set_state_lem LedState.success d.led, clear),
          ),
        )
    ended_lem ss cs d (some (failed e, c)) free clear h =
        let s = closing-Same (closed (failed e) c d) in
        (
          _,
          refl,
          (s.0 ∙ free, s.1, s.2),
          (
            failed e,
            c,
            refl,
            Shown-of (failed e) (closed (failed e) c d)
                (checked_network hw lib registry (resumed hw lib registry (closed (failed e) c d)))
                s.3 s.4 (set_state_lem LedState.error d.led, refl),
          ),
        )

    -- The run of a sequence that the device begins.
    abbrev pub run_of : ℕ → Device W P G → Sequence → Outcome W
    run_of fuel d s =
        run_sequence fuel (run_env hw lib registry d) s d.pending_args
          (record { world = (begun hw lib registry d).world; scope_stack = []; call_stack = [] })

    run_found_lem :
        (fuel : ℕ) (sid : String) (o : Option Sequence) (d : Device W P G)
        → 8 < fuel
        → d.pending ≡ false
        → d.running ≡ false
        → (d' : Device W P G) × (run_found hw lib registry fuel sid o d ≡ some d')
          × Free d d'
          × (((o ≡ none) × (d'.last_error ≡ cat "unknown sequence: " sid))
              ⊎ ((s : Sequence) × (r : RunResult) × (c : Ctx W) × (o ≡ some s)
                  × (run_of fuel d s ≡ some (r, c))
                  × Shown r d'))
    run_found_lem fuel sid none d h free idle = (_, refl, (free, idle, refl), inl (refl, refl))
    run_found_lem fuel sid (some s) d h free idle =
        let e =
          ended_lem [] [] (begun hw lib registry d) _ free refl
            (run_sequence_ends fuel (run_env hw lib registry d) s d.pending_args _ h) in
        (e.0, e.1, e.2, inr (s, e.3.0, e.3.1, refl, e.3.2, e.3.3))

    -- With fuel for nine activations, the loop's step for a pending run ends on a device that runs
    -- nothing. It leaves the queue and the running flag free and the sequences as they are. It
    -- reports an unknown sequence, or the run of the stored sequence ended: ok, and the light shows
    -- success and there is no error, or failed, and the light shows an error, the run's.
    pub run_pending_ends :
        (fuel : ℕ) (d : Device W P G)
        → 8 < fuel
        → d.running ≡ false
        → (d' : Device W P G) × (run_pending hw lib registry fuel d ≡ some d')
          × Free d d'
          × (((find_by_id d.pending_seq_id d.sequences ≡ none)
                × (d'.last_error ≡ cat "unknown sequence: " d.pending_seq_id))
              ⊎ ((s : Sequence) × (r : RunResult) × (c : Ctx W) × (find_by_id d.pending_seq_id
                      d.sequences
                    ≡ some s)
                  × (run_of fuel d s ≡ some (r, c))
                  × Shown r d'))
    unfolding run_pending
    run_pending_ends fuel d h idle =
        run_found_lem fuel d.pending_seq_id (find_by_id d.pending_seq_id d.sequences)
          (taken hw lib registry d) h refl idle

    -- A request that comes in while a sequence runs stays in the queue after the run, but without its
    -- arguments, which the end of the run clears.
    pub enqueue_run_while_running :
        (id : String) (args : Json) (r : RunResult) (c : Ctx W) (d : Device W P G)
        → d.pending ≡ false
        → (d' : Device W P G) × (ended hw lib registry (enqueue_run id args d) (some (r, c))
            ≡ some d')
          × (d'.pending ≡ true)
          × (d'.pending_seq_id ≡ id)
          × (d'.pending_args ≡ null)
    unfolding enqueue_run
    enqueue_run_while_running id args RunResult.ok c d free =
        rw free ((_, refl, ground arith, ground arith, ground arith))
    enqueue_run_while_running id args (failed e) c d free =
        rw free ((_, refl, ground arith, ground arith, ground arith))
