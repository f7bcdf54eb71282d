-- ===== src/Settings/Setup.antt =====
-- src/SetupServer.{h,cpp}: the access point's server. Opening the access point and the name server is
-- the caller's `enter_setup`.
use esp32_sequencer.Base.{ℕ, String, Bool, true, false}
use esp32_sequencer.Settings.{Preferences, Config, clear}
use esp32_sequencer.Settings.Form.{Params, render_html, apply_save}

-- What a request gets, the settings and the flash behind it, and whether the device restarts.
pub record Served (P : Type 0) : Type 0 where
  pub status : ℕ
  pub body : String
  pub config : Config
  pub prefs : P
  pub restarts : Bool

module _ {P : Type 0} (prefs : Preferences P) where
  unfoldable pub handle_root : String → Config → P → Served P
  handle_root page cfg p = record {
    status = 200;
    body = render_html page cfg;
    config = cfg;
    prefs = p;
    restarts = false;
  }

  unfoldable pub handle_save : Params → Config → P → Served P
  handle_save req cfg p =
      let (cfg', p') = apply_save prefs req cfg p in
      record {
        status = 200;
        body = "saved — rebooting in 2s";
        config = cfg';
        prefs = p';
        restarts = true;
      }

  unfoldable pub handle_reset : Config → P → Served P
  handle_reset cfg p = record {
    status = 200;
    body = "cleared — rebooting";
    config = cfg;
    prefs = clear prefs p;
    restarts = true;
  }
