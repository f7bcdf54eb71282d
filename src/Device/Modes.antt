-- ===== src/Device/Modes.antt =====
-- Which mode the pages of src/main.cpp that restart the device lead to.
use esp32_sequencer.Base.{String, ◌≡◌, refl, Bool, true, false, ◌&&◌, ◌||◌, ℕ, arith, if◌then◌else◌}
use esp32_sequencer.Json.{ArduinoJson}
use esp32_sequencer.Store.{Persistence}
use esp32_sequencer.Settings.{
  Preferences, IsStorage, Config, non_empty, has_all, load, clear, request_setup_on_next_boot,
}
use esp32_sequencer.Settings.Form.{Params, arg, apply_save}
use esp32_sequencer.Settings.Kept.{load-save}
use esp32_sequencer.Device.{Hardware, Device}
use esp32_sequencer.Device.Boot.{
  enter_setup_mode, enter_runtime_mode, setup, post_save, post_reset, post_setup,
}

module _ {F : Type 0} (prefs : Preferences F) (storage : IsStorage prefs) where
  load-request : (f : F) → load prefs (request_setup_on_next_boot prefs f) ≡ load prefs f
  unfolding load request_setup_on_next_boot
  load-request f = rw (
    storage.get_string-put_bool "idleSsid" "forceSetup" true f refl,
    storage.get_string-put_bool "idlePass" "forceSetup" true f refl,
    storage.get_string-put_bool "tvTok" "forceSetup" true f refl,
    storage.get_bool-put_bool "sFb" "forceSetup" true f,
  )

  has_all-clear : (f : F) → has_all (load prefs (clear prefs f)) ≡ false
  unfolding load clear has_all
  has_all-clear f = rw (storage.get_string-clear "idleSsid" f) refl

  module _ {W P G : Type 0} (lib : ArduinoJson) (persistence : Persistence P) (rand : G → ℕ × G)
      (known : String → Bool) (hw : Hardware W) where
    abbrev start : F → Device W P G → Device W P G
    start = setup lib persistence rand known hw prefs

    -- Where the flash keeps its keys: the request for the setup mode that POST /setup leaves in the
    -- flash has no effect on the mode of the next start; after POST /reset it is the setup mode; and
    -- after POST /save it is the runtime mode just if the form names a network, and a password is in
    -- the form or was known.
    pub setup_after :
        (req : Params) (cfg : Config) (f : F) (d : Device W P G)
        → (start (post_setup prefs cfg f).prefs d ≡ start f d)
          × (start (post_reset prefs cfg f).prefs d ≡ enter_setup_mode hw d)
          × (start (post_save prefs req cfg f).prefs d ≡ (
              if non_empty (arg req "idleSsid")
                && (non_empty (arg req "idlePass") || non_empty cfg.idle_pass)
              then enter_runtime_mode lib persistence rand known d
              else enter_setup_mode hw d))
    unfolding setup post_setup post_reset post_save apply_save has_all
    setup_after req cfg f d = (
      rw (load-request f) refl,
      rw (has_all-clear f) refl,
      rw (load-save prefs storage (apply_save prefs req cfg f).0 f) (ground arith),
    )
