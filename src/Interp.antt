-- ===== src/Interp.antt =====
-- src/core/Interpreter.{h,cpp}: running sequences, with the frames of `RunCtx` (src/core/Block.h).
pub mod Stacks
pub mod Guards
pub mod Scope
pub mod Repeat
pub mod Simulation
pub mod Known
pub mod Tests
use Prim.Native.String.{◌++◌ as cat}
use esp32_sequencer.Base.{
  ℕ, zero, suc, String, Bool, true, false, Option, none, some, List, [], ◌∷◌, str_eq, ◌==◌, ltb,
  leb, if◌then◌else◌, length, contains, not, ◌&&◌,
}
use esp32_sequencer.Base.Int.{ℤ, pos, pos_part, to_uint32}
use esp32_sequencer.Base.Result.{Result, ok, err, or_err}
use esp32_sequencer.Base.Map.{insert}
use esp32_sequencer.Json.{
  Json, null, Fields, end, field, ArduinoJson, is_null, as_text, as_fields, get, or_default,
}
use esp32_sequencer.Model.{
  ParamScope, ParamDef, Sequence, Node, node, Nodes, nil, cons, Slots, slot,
}
use esp32_sequencer.Registry.{
  RunResult, failed, Block, Predicate, Registry, resolve_block, resolve_predicate,
}
use esp32_sequencer.Resolve.{resolve}

-- What stays the same during a run. `delay` is the wait of `interpDelay`.
pub record Env (W : Type 0) : Type 0 where
  pub lib : ArduinoJson
  pub registry : Registry W
  pub sequence_lookup : Option (String → Option Sequence)
  pub delay : ℕ → W → W

-- `RunCtx`; the head of a list is the back of the vector.
pub record Ctx (W : Type 0) : Type 0 where
  pub world : W
  pub scope_stack : List ParamScope
  pub call_stack : List String

-- How a run ends: `none` where the fuel for nested calls ran out.
abbrev pub Outcome : Type 0 → Type 0
Outcome W = Option (RunResult × Ctx W)

abbrev pub max_call_depth : ℕ
max_call_depth = 8

unfoldable pub seed_defaults : List ParamDef → ParamScope → ParamScope
seed_defaults [] sc = sc
seed_defaults (p ∷ ps) sc =
    seed_defaults ps (if is_null p.default_value then sc else insert p.key p.default_value sc)

unfoldable pub overlay : Fields → ParamScope → ParamScope
overlay end sc = sc
overlay (field k v fs) sc = overlay fs (insert k v sc)

unfoldable pub build_scope : Sequence → Json → ParamScope
unfolding seed_defaults overlay
build_scope s args = overlay (as_fields args) (seed_defaults s.params [])

abbrev pub not_empty : Option String → String → Result String
not_empty none e = err e
not_empty (some s) e = if str_eq s "" then err e else ok s

abbrev pub has_slot : String → Slots → Bool
has_slot k Slots.end = false
has_slot k (slot j ns rest) = if str_eq j k then true else has_slot k rest

abbrev pub refuse_if : Bool → String → Result (Unit {0})
refuse_if true e = err e
refuse_if false e = ok tt

abbrev pub callee_broken : String → Sequence → String
callee_broken sid callee = cat "callee broken: " (cat sid (cat " (" (cat callee.broken_reason ")")))

module _ {W : Type 0} where
  abbrev pub done : Ctx W → Outcome W
  done c = some (RunResult.ok, c)

  abbrev pub fail : String → Ctx W → Outcome W
  fail e c = some (failed e, c)

  -- The rest is run where the first part succeeded.
  abbrev pub and_then : Outcome W → (Ctx W → Outcome W) → Outcome W
  and_then none k = none
  and_then (some (RunResult.ok, c)) k = k c
  and_then (some (failed e, c)) k = some (failed e, c)

  -- A check before a node acts: if it fails, so does the run of the node.
  unfoldable pub check {ℓ} : {A : Type ℓ} → Ctx W → Result A → (A → Outcome W) → Outcome W
  check c (err e) k = fail e c
  check c (ok a) k = k a

  abbrev pub top_scope : Ctx W → Result ParamScope
  top_scope c = elim c.scope_stack [ [] ↦ err "internal: no scope" | sc ∷ _ ↦ ok sc ]

  unfoldable pub is_disabled : Env W → Json → Bool
  is_disabled env params =
      let flag = get params "_disabled" in not (is_null flag) && env.lib.as_bool flag

  unfoldable pub run_if : Env W → Json → (String → Ctx W → Outcome W) → Ctx W → Outcome W
  run_if env params child c =
      let pp = get params "predicate" in
      check c (top_scope c) λ scope.
        check c (or_err (as_text (get pp "type")) "if: missing predicate.type") λ ptype.
          check c (or_err (resolve_predicate ptype env.registry) (cat "unknown predicate: " ptype))
            λ p. check c (resolve env.lib scope (get pp "params")) λ doc.
              let (holds, w) = p.test doc c.world in
              child (if holds then "then" else "else") (record c { world = w })

  unfoldable pub pause : Env W → ℕ → ℕ → Ctx W → Ctx W
  pause env interval left c =
      if not (interval == 0) && ltb 0 left
      then record c { world = env.delay interval c.world }
      else c

  -- The loop of `repeat`, over the rounds that are left.
  unfoldable pub rounds : Env W → ℕ → (Ctx W → Outcome W) → ℕ → Ctx W → Outcome W
  rounds env interval body zero c = done c
  rounds env interval body (suc left) c =
      and_then (body c) (λ c'. rounds env interval body left (pause env interval left c'))

  unfoldable pub run_repeat : Env W → Json → Bool → (String → Ctx W → Outcome W) → Ctx W → Outcome W
  run_repeat env params has_body child c = check c (top_scope c) λ scope.
      check c (resolve env.lib scope params) λ doc.
        let count = or_default (env.lib.as_int (get doc "count")) (pos 1) in
        let interval = to_uint32 (or_default (env.lib.as_int (get doc "interval_ms")) (pos 0)) in
        if has_body then rounds env interval (child "body") (pos_part count) c else done c

  unfoldable pub run_call : Env W → (Sequence → Json → Ctx W → Outcome W) → Json → Ctx W → Outcome W
  run_call env call params c = check c (top_scope c) λ scope.
      check c (or_err env.sequence_lookup "call-sequence: no lookup") λ lookup.
        check c (resolve env.lib scope params) λ doc.
          check c (not_empty (as_text (get doc "sequenceId")) "call-sequence: missing sequenceId")
            λ sid. check c (refuse_if (contains sid c.call_stack) (cat "cycle: " sid)) λ _.
              check c (or_err (lookup sid) (cat "unknown sequence: " sid)) λ callee.
                check c (refuse_if callee.broken (callee_broken sid callee))
                  λ _. call callee (get doc "args") c

  unfoldable pub run_block : Env W → String → Json → Slots → Ctx W → Outcome W
  run_block env type params kids c =
      check c (or_err (resolve_block type env.registry) (cat "unknown block: " type)) λ b.
        check c (top_scope c) λ scope.
          check c (resolve env.lib scope params)
            λ doc. let (r, w) = b.run doc kids c.world in some (r, record c { world = w })

  -- `runNode`, given how its child slots are run.
  unfoldable pub dispatch :
      Env W
      → (Sequence → Json → Ctx W → Outcome W)
      → Node
      → (String → Ctx W → Outcome W)
      → Ctx W
      → Outcome W
  dispatch env call (node type params kids) child c =
      if is_disabled env params
      then done c
      else if str_eq type "divider"
      then done c
      else if str_eq type "if"
      then run_if env params child c
      else if str_eq type "repeat"
      then run_repeat env params (has_slot "body" kids) child c
      else if str_eq type "call-sequence"
      then run_call env call params c
      else run_block env type params kids c

  -- `runNode`, `runSlot`, and the slot of a key in a node's children: a missing slot runs nothing.
  unfoldable mutual
    pub run_node : Env W → (Sequence → Json → Ctx W → Outcome W) → Node → Ctx W → Outcome W
    run_node env call (node type params kids) c =
        dispatch env call (node type params kids) (run_child env call kids) c

    pub run_slot : Env W → (Sequence → Json → Ctx W → Outcome W) → Nodes → Ctx W → Outcome W
    run_slot env call nil c = done c
    run_slot env call (cons n ns) c = and_then (run_node env call n c) (run_slot env call ns)

    pub run_child :
        Env W → (Sequence → Json → Ctx W → Outcome W) → Slots → String → Ctx W → Outcome W
    run_child env call Slots.end k c = done c
    run_child env call (slot j ns rest) k c =
        let here = run_slot env call ns c in
        let there = run_child env call rest k c in if str_eq j k then here else there

  -- `scopeStack.pop_back()` and `callStack.pop_back()`.
  abbrev pub pop_frame : Ctx W → Ctx W
  pop_frame c = record c {
    scope_stack = elim c.scope_stack [ [] ↦ [] | _ ∷ rest ↦ rest ];
    call_stack = elim c.call_stack [ [] ↦ [] | _ ∷ rest ↦ rest ];
  }

  abbrev pub push_frame : Sequence → Json → Ctx W → Ctx W
  push_frame s args c = record c {
    scope_stack = build_scope s args ∷ c.scope_stack;
    call_stack = s.id ∷ c.call_stack;
  }

  abbrev pub popped : Outcome W → Outcome W
  popped none = none
  popped (some (r, c)) = some (r, pop_frame c)

  -- `runSequence`. The fuel is for nested calls, of which there are fewer than `max_call_depth`.
  unfoldable pub run_sequence : ℕ → Env W → Sequence → Json → Ctx W → Outcome W
  run_sequence zero env s args c = none
  run_sequence (suc fuel) env s args c =
      let body = popped (run_slot env (run_sequence fuel env) s.nodes (push_frame s args c)) in
      if leb max_call_depth (length c.call_stack) then fail "call depth exceeded" c else body
