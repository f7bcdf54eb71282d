-- ===== src/Device/Requests.antt =====
-- src/main.cpp: a run during which requests for runs come in, from the task of the web server.
pub mod Beside
pub mod Ends
use esp32_sequencer.Base.{
  ℕ, String, ◌≡◌, refl, ap, ◌∙◌, sym, ◌⊎◌, inl, inr, Bool, true, false, Option, none, some, List,
  [], ◌∷◌, if◌then◌else◌, ◌++◌, arith, ◌<◌, ◌+◌, not, ◌||◌,
}
use mathlib.Core.Option.{map}
use esp32_sequencer.Base.Map.{find, map_values, find-map_values}
use esp32_sequencer.Json.{Json, null, ArduinoJson}
use esp32_sequencer.Model.{Sequence}
use esp32_sequencer.Registry.{
  RunResult, failed, Block, Predicate, Registry, resolve_block, resolve_predicate,
}
use esp32_sequencer.Interp.{Env, Ctx, Outcome, run_sequence}
use esp32_sequencer.Interp.Simulation.{
  at, Follows, BlocksAgree, PredicatesAgree, run_sequence-Follows,
}
use esp32_sequencer.Store.{find_by_id}
use esp32_sequencer.Device.{
  Hardware, Device, enqueue_run, pauses_scan, reported, resumed, checked_network, ended, begun,
  taken, run_found, run_pending,
}
use esp32_sequencer.Device.Runs.{run_pending_ends}

-- A request for a run: the sequence's id and the arguments.
abbrev pub Request : Type 0
Request = String × Json

module _ {W P G : Type 0} where
  unfoldable pub enqueue_all : List Request → Device W P G → Device W P G
  enqueue_all [] d = d
  enqueue_all ((id, args) ∷ rs) d = enqueue_all rs (enqueue_run id args d)

-- The requests that come in during a wait, and while a block or a predicate of a type works.
pub record Traffic (W : Type 0) : Type 0 where
  pub waiting : ℕ → W → List Request
  pub acting : String → Json → W → List Request

-- A run acts on the world, and the handlers on the device meanwhile; the requests are logged.
abbrev pub Busy : Type 0 → Type 0 → Type 0 → Type 0
Busy W P G = W × List Request × Device W P G

module _ {W P G : Type 0} (traffic : Traffic W) where
  abbrev pub busy_block : Block W → Block (Busy W P G)
  busy_block b = record {
    schema = b.schema;
    run = λ doc kids v. (
      (b.run doc kids v.0).0,
      (
        (b.run doc kids v.0).1,
        v.1 ++ traffic.acting b.schema.type doc v.0,
        enqueue_all (traffic.acting b.schema.type doc v.0) v.2,
      ),
    );
  }

  abbrev pub busy_predicate : Predicate W → Predicate (Busy W P G)
  busy_predicate p = record {
    schema = p.schema;
    test = λ doc v. (
      (p.test doc v.0).0,
      (
        (p.test doc v.0).1,
        v.1 ++ traffic.acting p.schema.type doc v.0,
        enqueue_all (traffic.acting p.schema.type doc v.0) v.2,
      ),
    );
  }

  abbrev pub busy_registry : Registry W → Registry (Busy W P G)
  busy_registry r = record {
    blocks = map_values busy_block r.blocks;
    predicates = map_values busy_predicate r.predicates;
    triggers = r.triggers;
  }

  abbrev pub busy_delay : (ℕ → W → W) → ℕ → Busy W P G → Busy W P G
  busy_delay delay ms v =
      (delay ms v.0, v.1 ++ traffic.waiting ms v.0, enqueue_all (traffic.waiting ms v.0) v.2)

module _ {W P G : Type 0} (traffic : Traffic W) (hw : Hardware W) (lib : ArduinoJson)
    (registry : Registry W) where
  -- The environment of a run beside which the web server works: the lookup is in the store.
  abbrev pub busy_env : Device W P G → Env (Busy W P G)
  busy_env d = record {
    lib = lib;
    registry = busy_registry traffic registry;
    sequence_lookup = some (λ id. find_by_id id d.sequences);
    delay = busy_delay traffic hw.delay;
  }

  abbrev pub logged : List Request → Option (Device W P G) → Option (List Request × Device W P G)
  logged rs none = none
  logged rs (some d) = some (rs, d)

  -- What the loop does after the run it does to the device as the handlers left it.
  abbrev pub ended_busy : Outcome (Busy W P G) → Option (List Request × Device W P G)
  ended_busy none = none
  ended_busy (some (r, c)) =
      logged c.world.1 (ended hw lib registry c.world.2 (some (r, at c.world.0 c)))

  abbrev pub run_found_busy :
      ℕ → String → Option Sequence → Device W P G → Option (List Request × Device W P G)
  run_found_busy fuel sid none d = logged [] (run_found hw lib registry fuel sid none d)
  run_found_busy fuel sid (some s) d = ended_busy (
      run_sequence fuel (busy_env d) s d.pending_args (record {
        world = ((begun hw lib registry d).world, [], begun hw lib registry d);
        scope_stack = [];
        call_stack = [];
      }))

  -- The branch of `loop` for a pending run, with the requests that come in during the run: they
  -- are the log that is returned with the device.
  unfoldable pub run_pending_busy : ℕ → Device W P G → Option (List Request × Device W P G)
  run_pending_busy fuel d =
      run_found_busy fuel d.pending_seq_id (find_by_id d.pending_seq_id d.sequences)
        (taken hw lib registry d)
