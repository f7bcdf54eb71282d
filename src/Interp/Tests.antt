-- ===== src/Interp/Tests.antt =====
-- Runs of src/core/Interpreter.cpp on small sequences, after test/test_interpreter and
-- test/test_call_sequence, and the theorems about it at concrete runs.
use esp32_sequencer.Base.{
  String, ◌≡◌, refl, true, false, Option, none, some, List, [], ◌∷◌, ◌++◌, str_eq, if◌then◌else◌,
  arith, eq_iff, ap,
}
use mathlib.Core.Option.{some-injective}
use esp32_sequencer.Json.{Items}
use esp32_sequencer.Base.Int.{pos, negsuc}
use esp32_sequencer.Base.Decimal.{to_string}
use esp32_sequencer.Base.Result.{ok, err}
use esp32_sequencer.Base.Map.{find, insert}
use esp32_sequencer.Json.{
  Json, null, bool, int, str, arr, obj, Fields, end, field, ArduinoJson, get, text_or_empty,
  set_field,
}
use esp32_sequencer.Model.{
  FieldType, Sequence, Node, node, Nodes, nil, cons, Slots, slot, BlockSchema,
}
use esp32_sequencer.Registry.{RunResult, failed, Block, Registry, resolve_block, resolve_predicate}
use esp32_sequencer.Resolve.{
  resolve, resolve_text, interpolate, placeholder, before_brace, has_open, param_name, stringify,
}
use esp32_sequencer.Resolve.Refs.{refs, text_refs, first_missing, resolve_lem}
use esp32_sequencer.Resolve.Closed.{resolve_closed}
use esp32_sequencer.Resolve.Template.{verbatim, param, interpolate-render}
use esp32_sequencer.Interp.{
  Env, Ctx, Outcome, done, run_sequence, run_slot, dispatch, run_if, run_call, run_repeat,
  run_block, rounds, pause, check, build_scope, is_disabled,
}
use esp32_sequencer.Interp.Stacks.{Kept, run_sequence_ends}
use esp32_sequencer.Interp.Scope.{find-build_scope}
use esp32_sequencer.Interp.Guards.{FindsById, guarded, run_slot-guarded}

-- A library that reads every integer, and prints nothing but them.
abbrev pub test_lib : ArduinoJson
test_lib = record {
  as_bool = λ v. elim v [ bool b ↦ b | _ ↦ false ];
  as_int = λ v. elim v [ int z ↦ some z | _ ↦ none ];
  as_uint = λ v. elim v [ int z ↦ (elim z [ pos n ↦ some n | negsuc n ↦ none ]) | _ ↦ none ];
  is_variant = λ o. elim o [ none ↦ false | some _ ↦ true ];
  serialize = λ _. "{}";
  deserialize = λ _. none;
}

-- The world of the tests is the log of what was done.
abbrev Log : Type 0
Log = List String

abbrev schema_of : String → BlockSchema
schema_of t = record { type = t; label = t; category = "Test"; fields = []; child_slots = [] }

-- Blocks of test/fakes/FakeBlock.h: one logs a parameter, one fails.
abbrev say : Block Log
say = record {
  schema = schema_of "say";
  run = λ params kids w. (RunResult.ok, w ++ text_or_empty (get params "text") ∷ []);
}

abbrev boom : Block Log
boom = record {
  schema = schema_of "boom";
  run = λ params kids w. (failed "boom", w ++ "boom" ∷ []);
}

abbrev registry : Registry Log
registry = record { blocks = ("boom", boom) ∷ ("say", say) ∷ []; predicates = []; triggers = [] }

abbrev leaf : String → Fields → Node
leaf t fs = node t (obj fs) Slots.end

abbrev one : Node → Nodes
one n = cons n nil

abbrev sequence : String → Nodes → Sequence
sequence id ns = record {
  id = id;
  name = id;
  cooldown_ms = 0;
  params = [];
  nodes = ns;
  broken = false;
  broken_reason = "";
}

abbrev call_to : String → Node
call_to id = leaf "call-sequence" (field "sequenceId" (str id) end)

-- `loop` calls itself; `greet` says its parameter twice, with a wait between.
abbrev greet : Sequence
greet = record {
  id = "greet";
  name = "greet";
  cooldown_ms = 0;
  broken = false;
  broken_reason = "";
  params =
      record {
        key = "who";
        type = FieldType.string;
        label = "";
        default_value = str "you";
        enum_values = "";
        required = false;
      }
      ∷ [];
  nodes = one (
      node "repeat" (obj (field "count" (int (pos 2)) (field "interval_ms" (int (pos 5)) end)))
        (slot "body" (one (leaf "say" (field "text" (str "hi ${who}") end))) Slots.end));
}

abbrev looping : Sequence
looping = sequence "loop" (cons (leaf "say" (field "text" (str "in") end)) (one (call_to "loop")))

abbrev lookup : String → Option Sequence
lookup id =
    if str_eq id "greet" then some greet else if str_eq id "loop" then some looping else none

abbrev env : Env Log
env = record {
  lib = test_lib;
  registry = registry;
  sequence_lookup = some lookup;
  delay = λ ms w. w ++ "wait" ∷ [];
}

abbrev fresh : Ctx Log
fresh = record { world = []; scope_stack = []; call_stack = [] }

lookup_by_id : FindsById env
lookup_by_id f sid s e h =
    ground
      (arith, eq_iff sid "greet", eq_iff sid "loop", ap (λ g. g sid) (some-injective lookup f e))

run : Sequence → Json → Outcome Log
unfolding run_sequence run_slot dispatch run_if run_call run_repeat run_block rounds pause check
    build_scope is_disabled resolve resolve_text interpolate placeholder before_brace has_open
    param_name stringify find insert resolve_block resolve_predicate set_field to_string
run s args = run_sequence 9 env s args fresh

greets : run greet null ≡ done (record fresh { world = "hi you" ∷ "wait" ∷ "hi you" ∷ [] })
unfolding run
greets = refl

greets_by_name :
    run greet (obj (field "who" (str "Ann") end))
    ≡ done (record fresh { world = "hi Ann" ∷ "wait" ∷ "hi Ann" ∷ [] })
unfolding run
greets_by_name = refl

loop_is_cut : run looping null ≡ some (failed "cycle: loop", record fresh { world = "in" ∷ [] })
unfolding run
loop_is_cut = refl

-- The theorems at these runs.
resolve_lem_example :
    resolve test_lib (("a", int (pos 1)) ∷ []) (str "${a} ${who}") ≡ err "unknown param: who"
unfolding first_missing refs text_refs has_open placeholder before_brace find
resolve_lem_example = resolve_lem test_lib (("a", int (pos 1)) ∷ []) (str "${a} ${who}")

abbrev plain : Json
plain =
    obj
      (field "ip" (str "10.0.0.1") (field "ports" (arr (Items.cons (int (pos 80)) Items.nil)) end))

resolve_closed_example : resolve test_lib [] plain ≡ ok plain
unfolding refs has_open param_name
resolve_closed_example =
    resolve_closed test_lib [] plain ((refl, (refl, tt)), (tt, ((tt, tt), tt))) refl

interpolate-render_example :
    interpolate test_lib (("who", int (pos 7)) ∷ []) "hi ${who}!" 0 ≡ ok "hi 7!"
unfolding find stringify to_string
interpolate-render_example =
    interpolate-render test_lib (("who", int (pos 7)) ∷ [])
      (verbatim "hi " ∷ param "who" ∷ verbatim "!" ∷ [])
      ((refl, (refl, (refl, tt))), ((refl, (refl, (refl, tt))), ((refl, tt), tt)))

run_sequence_ends_example : Kept [] [] (run_sequence 9 env looping null fresh)
run_sequence_ends_example = run_sequence_ends 9 env looping null fresh (omega arith)

find-build_scope_example :
    find "who" (build_scope greet (obj (field "who" (str "Ann") end))) ≡ some (str "Ann")
find-build_scope_example = find-build_scope "who" greet (obj (field "who" (str "Ann") end))

abbrev log_x : Ctx Log → Ctx Log
log_x c = record c { world = c.world ++ "x" ∷ [] }

run_slot-guarded_example :
    run_slot env (run_sequence 8 env) (one (call_to "loop")) fresh
    ≡ run_slot env (guarded env (run_sequence 8 env)) (one (call_to "loop")) fresh
run_slot-guarded_example =
    run_slot-guarded env (run_sequence 8 env) lookup_by_id (one (call_to "loop")) fresh
