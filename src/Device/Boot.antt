-- ===== src/Device/Boot.antt =====
-- The start of src/main.cpp, and the pages of its web server that change the settings and restart.
use esp32_sequencer.Base.{ℕ, String, Bool, true, false, [], if◌then◌else◌}
use esp32_sequencer.Json.{null, ArduinoJson}
use esp32_sequencer.Store.{Persistence, load_sequences, load_triggers}
use esp32_sequencer.Led.{LedState, initial, set_state}
use esp32_sequencer.Settings.{Preferences, Config, has_all, load, clear, request_setup_on_next_boot}
use esp32_sequencer.Settings.Form.{Params, apply_save}
use esp32_sequencer.Settings.Page.{config_page}
use esp32_sequencer.Settings.Setup.{Served}
use esp32_sequencer.Device.{Hardware, Device, seed_defaults_if_empty}

-- The globals as the program starts, with a flash, a seed of `std::rand` and a world.
unfoldable pub powered : {W P G : Type 0} → P → G → W → Device W P G
powered p g w = record {
  sequences = [];
  triggers = [];
  manager = record {
    active = [];
    any_pauses = false;
    triggers = record { ble = []; routes = []; handlers = [] };
  };
  pending = false;
  pending_seq_id = "";
  pending_args = null;
  running = false;
  last_error = "";
  last_run_ms = 0;
  led = initial;
  in_runtime = false;
  wifi_ready = false;
  http_started = false;
  ble_started = false;
  wifi_failures = 0;
  next_wifi_retry_ms = 0;
  flash = p;
  random = g;
  world = w;
}

module _ {W P G : Type 0} where
  -- `enterSetupMode`; the server's start is the hardware's.
  unfoldable pub enter_setup_mode : Hardware W → Device W P G → Device W P G
  enter_setup_mode hw d = record d {
    led = set_state LedState.setup d.led;
    world = hw.enter_setup d.world;
  }

  module _ (lib : ArduinoJson) (persistence : Persistence P) (rand : G → ℕ × G)
      (known : String → Bool) where
    -- `enterRuntimeMode`
    unfoldable pub enter_runtime_mode : Device W P G → Device W P G
    enter_runtime_mode d =
        let d' = seed_defaults_if_empty lib persistence rand (record d {
          sequences = load_sequences lib persistence known d.flash;
          triggers = load_triggers lib persistence d.flash;
        }) in
        record d' { in_runtime = true; next_wifi_retry_ms = 0 }

    -- `setup`: the mode is that of the settings in their flash.
    unfoldable pub setup :
        {F : Type 0} → Hardware W → Preferences F → F → Device W P G → Device W P G
    setup hw prefs f d =
        if has_all (load prefs f) then enter_runtime_mode d else enter_setup_mode hw d

-- The pages of `startRuntimeHttp` with the settings: GET /settings, POST /save, /reset and /setup.
module _ {F : Type 0} (prefs : Preferences F) where
  unfoldable pub get_settings : Config → F → Served F
  get_settings cfg f = record {
    status = 200;
    body = config_page cfg;
    config = cfg;
    prefs = f;
    restarts = false;
  }

  unfoldable pub post_save : Params → Config → F → Served F
  post_save req cfg f =
      let (cfg', f') = apply_save prefs req cfg f in
      record {
        status = 200;
        body = "saved — rebooting in 2s";
        config = cfg';
        prefs = f';
        restarts = true;
      }

  unfoldable pub post_reset : Config → F → Served F
  post_reset cfg f = record {
    status = 200;
    body = "cleared — rebooting";
    config = cfg;
    prefs = clear prefs f;
    restarts = true;
  }

  unfoldable pub post_setup : Config → F → Served F
  post_setup cfg f = record {
    status = 200;
    body = "entering setup mode — rebooting";
    config = cfg;
    prefs = request_setup_on_next_boot prefs f;
    restarts = true;
  }
