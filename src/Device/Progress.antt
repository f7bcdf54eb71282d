-- ===== src/Device/Progress.antt =====
-- A queued run is begun and ends (the loop of src/main.cpp).
use esp32_sequencer.Base.{
  ℕ, zero, suc, ◌≤◌, ◌<◌, ◌≡◌, refl, ap, ◌∙◌, Bool, true, false, not, Option, none, some, ltb,
  arith, if◌then◌else◌, ◌⊎◌, inl, inr,
}
use esp32_sequencer.Json.{ArduinoJson}
use esp32_sequencer.Registry.{Registry}
use esp32_sequencer.Led.{tick}
use esp32_sequencer.Device.{
  Hardware, Device, start_runtime_http, start_ble, connected_idle, try_connect_idle, run_pending,
  delayed, loop_step,
}
use esp32_sequencer.Device.Runs.{Free, run_pending_ends}

if_true {ℓ} : {A : Type ℓ} (b : Bool) (x y : A) → b ≡ true → (if b then x else y) ≡ x
if_true b x y h = rw h refl

if_false {ℓ} : {A : Type ℓ} (b : Bool) (x y : A) → b ≡ false → (if b then x else y) ≡ y
if_false b x y h = rw h refl

module _ {W P G : Type 0} where
  -- The device waits for the same run, over the same sequences.
  abbrev pub Waits : Device W P G → Device W P G → Type 0
  Waits d e =
      (e.pending ≡ true)
      × (e.running ≡ false)
      × (e.in_runtime ≡ true)
      × (e.pending_seq_id ≡ d.pending_seq_id)
      × (e.pending_args ≡ d.pending_args)
      × (e.sequences ≡ d.sequences)

  module _ (hw : Hardware W) (lib : ArduinoJson) (registry : Registry W) where
    abbrev onward :
        (Device W P G → Option (Device W P G)) → Option (Device W P G) → Option (Device W P G)
    onward k none = none
    onward k (some d) = k d

    -- Some rounds of `loop`, one after another.
    unfoldable pub rounds : ℕ → ℕ → Device W P G → Option (Device W P G)
    rounds fuel zero d = some d
    rounds fuel (suc n) d = onward (rounds fuel n) (loop_step hw lib registry fuel d)

    -- The run of `d` was begun on `e`, ended, and left `f` after `n` rounds.
    abbrev pub Ran : ℕ → ℕ → Device W P G → Type 0
    Ran fuel n d =
        (e : Device W P G) × (f : Device W P G) × Waits d e
        × (run_pending hw lib registry fuel e ≡ some f)
        × (rounds fuel n d ≡ some (record f { world = hw.delay 10 f.world }))
        × Free e f

    -- A round of the loop on a device that is connected and has a run waiting.
    loop_step_run :
        (fuel : ℕ) (d : Device W P G)
        → hw.connected d.world ≡ true
        → d.wifi_ready ≡ true
        → d.pending ≡ true
        → d.in_runtime ≡ true
        → loop_step hw lib registry fuel d
          ≡ delayed hw lib registry
              (run_pending hw lib registry fuel (record d { led = tick (hw.millis d.world) d.led }))
    unfolding loop_step
    loop_step_run fuel d up ready waiting runtime = ap (delayed hw lib registry) (
        if_true d.in_runtime _ _ runtime
        ∙ if_false (not d.wifi_ready) _ _ (ap not ready)
        ∙ if_false (not (hw.connected d.world)) _ _ (ap not up)
        ∙ if_true d.pending _ _ waiting)

    ready_lem :
        (fuel : ℕ) (d c : Device W P G)
        → 8 < fuel
        → hw.connected d.world ≡ true
        → d.wifi_ready ≡ true
        → Waits c d
        → (e : Device W P G) × (f : Device W P G) × Waits c e
          × (run_pending hw lib registry fuel e ≡ some f)
          × (loop_step hw lib registry fuel d ≡ some (record f { world = hw.delay 10 f.world }))
          × Free e f
    ready_lem fuel d c enough up ready w =
        let e = record d { led = tick (hw.millis d.world) d.led } in
        let r = run_pending_ends hw lib registry fuel e enough w.1 in
        (
          e,
          r.0,
          w,
          r.1,
          loop_step_run fuel d up ready w.0 w.2 ∙ ap (delayed hw lib registry) r.1,
          r.2,
        )

    -- A round on a device that is not connected, when it is time and the network is there.
    connected_idle-Waits :
        (d : Device W P G)
        → Waits d d
        → Waits d (connected_idle hw lib registry d)
          × ((connected_idle hw lib registry d).wifi_ready ≡ true)
    unfolding start_ble start_runtime_http
    connected_idle-Waits d (waiting, idle, runtime, id, args, sequences) = (
      (
        ground (arith, waiting),
        ground (arith, idle),
        ground (arith, runtime),
        ground arith,
        ground arith,
        ground arith,
      ),
      ground arith,
    )

    away_lem :
        (fuel : ℕ) (d : Device W P G)
        → d.in_runtime ≡ true
        → d.wifi_ready ≡ false
        → d.next_wifi_retry_ms ≤ hw.millis d.world
        → (hw.connect_idle d.world).0 ≡ true
        → loop_step hw lib registry fuel d
          ≡ delayed hw lib registry (
              some (
                connected_idle hw lib registry (record d {
                  led = tick (hw.millis d.world) d.led;
                  world = (hw.connect_idle d.world).1;
                })))
    unfolding loop_step try_connect_idle
    away_lem fuel d runtime away due there = ap (delayed hw lib registry) (
        if_true d.in_runtime _ _ runtime
        ∙ if_true (not d.wifi_ready) _ _ (ap not away)
        ∙ ap some (
            if_false (ltb (hw.millis d.world) d.next_wifi_retry_ms) _ _ (ground arith)
            ∙ if_true (hw.connect_idle d.world).0 _ _ there))

    -- The device after a connection to the idle network that succeeds, at the end of the round.
    abbrev pub joined : Device W P G → Device W P G
    joined d =
        let c = connected_idle hw lib registry (record d {
          led = tick (hw.millis d.world) d.led;
          world = (hw.connect_idle d.world).1;
        }) in
        record c { world = hw.delay 10 c.world }

    -- The loop finds the device connected, in this round or the next: either it is, or it is time to
    -- connect, the connection succeeds and it is still up when the round is over.
    abbrev pub Joins : Device W P G → Type 0
    Joins d =
        ((d.wifi_ready ≡ true) × (hw.connected d.world ≡ true))
        ⊎ ((d.wifi_ready ≡ false)
            × (d.next_wifi_retry_ms ≤ hw.millis d.world)
            × ((hw.connect_idle d.world).0 ≡ true)
            × (hw.connected (joined d).world ≡ true))

    -- With fuel for nine activations: take a device in the runtime mode that runs nothing, has a run
    -- waiting, and is connected, or finds the retry time reached, connects with success and is
    -- still connected when the round of the loop is over. The run that waits is begun in one of the
    -- next two rounds of the loop, with its arguments and over the sequences that the device has; it
    -- ends, and leaves the queue and the running flag free.
    pub rounds_lem :
        (fuel : ℕ) (d : Device W P G)
        → 8 < fuel
        → d.pending ≡ true
        → d.running ≡ false
        → d.in_runtime ≡ true
        → Joins d
        → (n : ℕ) × (n ≤ 2) × Ran fuel n d
    unfolding rounds
    rounds_lem fuel d enough waiting idle runtime (inl (ready, up)) =
        let r = ready_lem fuel d d enough up ready (waiting, idle, runtime, refl, refl, refl) in
        (1, omega arith, (r.0, r.1, r.2, r.3, ap (onward (rounds fuel 0)) r.4, r.5))
    rounds_lem fuel d enough waiting idle runtime (inr (away, due, there, up)) =
        let w =
          connected_idle-Waits
            (record d { led = tick (hw.millis d.world) d.led; world = (hw.connect_idle d.world).1 })
            (waiting, idle, runtime, refl, refl, refl) in
        let r = ready_lem fuel (joined d) d enough up w.1 w.0 in
        (
          2,
          omega arith,
          (
            r.0,
            r.1,
            r.2,
            r.3,
            ap (onward (rounds fuel 1)) (away_lem fuel d runtime away due there)
                ∙ ap (onward (rounds fuel 0)) r.4,
            r.5,
          ),
        )
