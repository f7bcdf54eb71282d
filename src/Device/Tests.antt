-- ===== src/Device/Tests.antt =====
-- Small devices, and the theorems about the loop and the first boot of src/main.cpp on them.
use Prim.Native.String.{◌++◌ as cat}
use esp32_sequencer.Base.{
  ℕ, ◌≤◌, ◌&&◌, ◌||◌, if◌then◌else◌, String, ◌≡◌, refl, ◌⊎◌, inr, ◌+◌, Bool, true, false, none,
  some, List, [], ◌∷◌, arith, eq_refl,
}
use esp32_sequencer.Base.Int.{pos}
use esp32_sequencer.Base.Map.{Map, find, insert, find-insert}
use esp32_sequencer.Json.{null, int}
use esp32_sequencer.Model.{Sequence, node, nil, cons, Slots}
use esp32_sequencer.Registry.{RunResult, Registry}
use esp32_sequencer.Store.{Persistence, find_by_id}
use esp32_sequencer.Led.{initial}
use esp32_sequencer.Interp.{Ctx}
use esp32_sequencer.Interp.Tests.{test_lib}
use esp32_sequencer.Device.{Hardware, Device, run_pending, start_runtime_http, start_ble}
use esp32_sequencer.Device.Runs.{run_of, Free, Shown, run_pending_ends}
use esp32_sequencer.Device.Requests.{Request, Traffic, run_pending_busy}
use esp32_sequencer.Device.Requests.Ends.{left_by, run_pending_busy-left_by}
use esp32_sequencer.Settings.{non_empty}
use esp32_sequencer.Settings.Form.{arg}
use esp32_sequencer.Settings.Tests.{Flash, prefs, storage, blank, home}
use esp32_sequencer.Device.Boot.{
  enter_setup_mode, enter_runtime_mode, setup, post_save, post_reset, post_setup,
}
use esp32_sequencer.Device.Modes.{setup_after}
use esp32_sequencer.Device.Progress.{Ran, rounds_lem}

-- The world is a clock that stands still, on the idle network.
abbrev pub board : Hardware ℕ
board = record {
  millis = λ w. w;
  connected = λ w. true;
  on_idle_network = λ w. true;
  connect_idle = λ w. (true, w);
  disconnect = λ w. w;
  enter_setup = λ w. w;
  begin_http = λ w. w;
  start_scan = λ w. w;
  stop_scan = λ w. w;
  delay = λ ms w. w;
  setup_fallback = false;
}

abbrev pub registry : Registry ℕ
registry = record { blocks = []; predicates = []; triggers = [] }

abbrev pub flash : Persistence (Map String)
flash = record {
  load = λ k p. elim (find k p) [ none ↦ "" | some s ↦ s ];
  save = λ k s p. insert k s p;
  holds = λ s. true;
  load-save = λ k s p h. ground (arith, find-insert k k s p, eq_refl k);
}

abbrev nothing : Sequence
nothing = record {
  id = "nothing";
  name = "";
  cooldown_ms = 0;
  params = [];
  nodes = nil;
  broken = false;
  broken_reason = "";
}

abbrev device_in : {W : Type 0} → W → Device W (Map String) ℕ
device_in w = record {
  sequences = nothing ∷ [];
  triggers = [];
  manager = record {
    active = [];
    any_pauses = false;
    triggers = record { ble = []; routes = []; handlers = [] };
  };
  pending = true;
  pending_seq_id = "nothing";
  pending_args = null;
  running = false;
  last_error = "";
  last_run_ms = 0;
  led = initial;
  in_runtime = true;
  wifi_ready = true;
  http_started = true;
  ble_started = false;
  wifi_failures = 0;
  next_wifi_retry_ms = 0;
  flash = [];
  random = 7;
  world = w;
}

abbrev pub device : Device ℕ (Map String) ℕ
device = device_in 50

run_pending_ends_example :
    (d' : Device ℕ (Map String) ℕ) × (run_pending board test_lib registry 9 device ≡ some d')
    × Free device d'
    × (((find_by_id "nothing" (nothing ∷ []) ≡ none)
          × (d'.last_error ≡ cat "unknown sequence: " "nothing"))
        ⊎ ((s : Sequence) × (r : RunResult) × (c : Ctx ℕ) × (find_by_id "nothing" (nothing ∷ [])
              ≡ some s)
            × (run_of board test_lib registry 9 device s ≡ some (r, c))
            × Shown r d'))
run_pending_ends_example = run_pending_ends board test_lib registry 9 device (omega arith) refl

abbrev busy : Device ℕ (Map String) ℕ
busy = record device { pending = false; running = true }

-- A block that takes a second, during which a request comes in.
abbrev working : Registry ℕ
working = record {
  blocks =
      (
        "work",
        record {
          schema = record {
            type = "work";
            label = "";
            category = "";
            fields = [];
            child_slots = [];
          };
          run = λ doc kids w. (RunResult.ok, w + 1000);
        },
      )
      ∷ [];
  predicates = [];
  triggers = [];
}

abbrev one_request : Traffic ℕ
one_request = record { waiting = λ ms w. []; acting = λ t doc w. ("again", int (pos 1)) ∷ [] }

abbrev worker : Device ℕ (Map String) ℕ
worker = record device {
  sequences = record nothing { nodes = cons (node "work" null Slots.end) nil } ∷ [];
}

run_pending_busy-left_by_example :
    (e : Device ℕ (Map String) ℕ) × (rs : List Request) × (run_pending board test_lib working 9
        worker
      ≡ some e)
    × (run_pending_busy one_request board test_lib working 9 worker
        ≡ some (rs, left_by one_request board test_lib working rs e))
run_pending_busy-left_by_example =
    run_pending_busy-left_by one_request board test_lib working 9 worker (omega arith) refl

-- A radio with a link, which a connection brings up and a disconnection takes down, and a clock.
abbrev radio : Hardware (Bool × ℕ)
radio = record {
  millis = λ w. w.1;
  connected = λ w. w.0;
  on_idle_network = λ w. w.0;
  connect_idle = λ w. (true, (true, w.1 + 700));
  disconnect = λ w. (false, w.1);
  enter_setup = λ w. (false, w.1);
  begin_http = λ w. w;
  start_scan = λ w. w;
  stop_scan = λ w. w;
  delay = λ ms w. (w.0, w.1 + ms);
  setup_fallback = false;
}

abbrev no_blocks : Registry (Bool × ℕ)
no_blocks = record { blocks = []; predicates = []; triggers = [] }

-- The link is down, and the retry time is reached.
abbrev away : Device (Bool × ℕ) (Map String) ℕ
away = record (device_in (false, 2000)) { wifi_ready = false; next_wifi_retry_ms = 1500 }

rounds_lem_example : (n : ℕ) × (n ≤ 2) × Ran radio test_lib no_blocks 9 n away
unfolding start_runtime_http start_ble
rounds_lem_example =
    rounds_lem radio test_lib no_blocks 9 away (omega arith) refl refl refl
      (inr (refl, omega arith, refl, refl))

abbrev start : Flash → Device ℕ (Map String) ℕ → Device ℕ (Map String) ℕ
start = setup test_lib flash (λ g. (g, g)) (λ t. true) board prefs

setup_after_example :
    (start (post_setup prefs home blank).prefs device ≡ start blank device)
    × (start (post_reset prefs home blank).prefs device ≡ enter_setup_mode board device)
    × (start (post_save prefs (("idleSsid", "home") ∷ []) home blank).prefs device ≡ (
        if non_empty (arg (("idleSsid", "home") ∷ []) "idleSsid")
          && (non_empty (arg (("idleSsid", "home") ∷ []) "idlePass") || non_empty "secret")
        then enter_runtime_mode test_lib flash (λ g. (g, g)) (λ t. true) device
        else enter_setup_mode board device))
setup_after_example =
    setup_after prefs storage test_lib flash (λ g. (g, g)) (λ t. true) board
      (("idleSsid", "home") ∷ []) home blank device
