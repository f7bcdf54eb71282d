-- ===== src/Program/Demo.antt =====
-- The default sequence of src/core/DefaultSequences.cpp on the program's registry.
use esp32_sequencer.Base.{
  ℕ, suc, ◌<◌, ◌%◌, ◌^◌, String, ◌≡◌, refl, ap, inl, inr, true, false, Option, some, List, ◌∷◌, leb,
  length, arith,
}
use esp32_sequencer.Base.Int.{pos}
use esp32_sequencer.Json.{
  Json, set_field, null, int, str, obj, end, field, ArduinoJson, IsLawful, get,
}
use esp32_sequencer.Model.{ParamScope, Slots, Sequence, nil, cons, slot}
use esp32_sequencer.Registry.{resolve_block, register_predicate, register_trigger}
use esp32_sequencer.Resolve.{resolve, param_name, resolve_text, has_open}
use esp32_sequencer.Defaults.{leaf, example}
use esp32_sequencer.Interp.{
  Env, Ctx, Outcome, and_then, done, run_sequence, run_node, run_child, dispatch, is_disabled,
  run_block, run_repeat, rounds, pause, check, build_scope,
}
use esp32_sequencer.Base.Result.{ok}
use esp32_sequencer.Blocks.{Board, wait_block, waited}
use esp32_sequencer.Program.{
  Network, program_registry, blocks, predicates, register_predicates, empty_registry,
}
use esp32_sequencer.Program.Order.{resolve_block-In, blocks-HasTypesOnce}

module _ {W : Type 0} (lib : ArduinoJson) (lawful : IsLawful lib) (board : Board W)
    (net : Network W) (delay : ℕ → W → W) (lookup : Option (String → Option Sequence)) where
  abbrev pub demo_env : Env W
  demo_env = record {
    lib = lib;
    registry = program_registry lib board net;
    sequence_lookup = lookup;
    delay = delay;
  }

  the_wait : resolve_block "wait" demo_env.registry ≡ some (wait_block board lib)
  unfolding program_registry register_predicates predicates register_trigger register_predicate
      resolve_block wait_block blocks
  the_wait =
      resolve_block-In (wait_block board lib) (blocks lib board net) empty_registry
        (inr (inr (inr (inr (inr (inr (inl refl))))))) (blocks-HasTypesOnce lib board net)

  abbrev framed : W → ParamScope → List ParamScope → List String → Ctx W
  framed w scope ss cs = record { world = w; scope_stack = scope ∷ ss; call_stack = cs }

  -- A node `wait` in a frame, with parameters that refer to nothing.
  run_block-wait :
      (n : ℕ) (params : Json) (w : W) (scope : ParamScope) (ss : List ParamScope) (cs : List String)
      → resolve lib scope params ≡ ok params
      → lib.as_int (get params "ms") ≡ some (pos n)
      → run_block demo_env "wait" params Slots.end (framed w scope ss cs)
        ≡ done (framed (waited board (n % 2 ^ 32) w) scope ss cs)
  unfolding run_block check wait_block
  run_block-wait n params w scope ss cs closed ms = rw (the_wait, closed, ms) refl

  abbrev short : Json
  short = obj (field "ms" (int (pos 50)) end)

  run_block-short :
      (w : W) (scope : ParamScope) (ss : List ParamScope) (cs : List String)
      → run_block demo_env "wait" short Slots.end (framed w scope ss cs)
        ≡ done (framed (board.delay 50 w) scope ss cs)
  unfolding resolve param_name set_field
  run_block-short w scope ss cs =
      run_block-wait 50 short w scope ss cs refl (lawful.as_int-int (pos 50) (omega arith))

  abbrev first_wait : Json
  first_wait = obj (field "ms" (int (pos 500)) (field "_label" (str "Pause briefly") end))

  run_block-first_wait :
      (w : W) (scope : ParamScope) (ss : List ParamScope) (cs : List String)
      → run_block demo_env "wait" first_wait Slots.end (framed w scope ss cs)
        ≡ done (framed (board.delay 500 w) scope ss cs)
  unfolding resolve param_name set_field resolve_text has_open
  run_block-first_wait w scope ss cs =
      run_block-wait 500 first_wait w scope ss cs refl (lawful.as_int-int (pos 500) (omega arith))

  abbrev pulses : Json
  pulses = obj (
      field "count" (int (pos 3)) (
        field "interval_ms" (int (pos 250))
          (field "_label" (str "Three short pulses, 250ms apart") end)))

  -- Three short waits, and two pauses between them.
  abbrev pulsed : W → W
  pulsed w = board.delay 50 (delay 250 (board.delay 50 (delay 250 (board.delay 50 w))))

  run_repeat-pulses :
      (child : String → Ctx W → Outcome W) (w : W) (scope : ParamScope) (ss : List ParamScope)
      (cs : List String)
      → ((v : W)
          → child "body" (framed v scope ss cs) ≡ done (framed (board.delay 50 v) scope ss cs))
      → run_repeat demo_env pulses true child (framed w scope ss cs)
        ≡ done (framed (pulsed w) scope ss cs)
  unfolding run_repeat check resolve param_name set_field resolve_text has_open rounds pause
  run_repeat-pulses child w scope ss cs h =
      rw
        (
          lawful.as_int-int (pos 3) (omega arith),
          lawful.as_int-int (pos 250) (omega arith),
          h w,
          h (delay 250 (board.delay 50 w)),
          h (delay 250 (board.delay 50 (delay 250 (board.delay 50 w)))),
        )
        refl

  -- With a library that reads values as documented, and the program's registry: from any context whose
  -- call stack has room, the default sequence runs ok, whatever the blocks of the network would do. It
  -- waits 500 ms, then three times 50 ms with pauses of 250 ms between, and leaves the stacks as they
  -- were.
  pub run_sequence-example :
      (fuel : ℕ) (c : Ctx W)
      → length c.call_stack < 8
      → run_sequence (suc fuel) demo_env example null c
        ≡ done (record c { world = pulsed (board.delay 500 c.world) })
  unfolding run_sequence run_node dispatch is_disabled leaf
  run_sequence-example fuel c h =
      let scope = build_scope example null in
      let first = run_block-first_wait c.world scope c.scope_stack ("example" ∷ c.call_stack) in
      let body =
        run_child demo_env (run_sequence fuel demo_env)
          (slot "body" (cons (leaf "wait" (field "ms" (int (pos 50)) end)) nil) Slots.end) in
      let three =
        run_repeat-pulses body (board.delay 500 c.world) scope c.scope_stack
          ("example" ∷ c.call_stack)
          (λ v.
            ap (λ o. and_then o done)
              (run_block-short v scope c.scope_stack ("example" ∷ c.call_stack))) in
      rw (shallow, first, three) refl
    where
      shallow : leb 8 (length c.call_stack) ≡ false
      shallow = ground (arith, h)
