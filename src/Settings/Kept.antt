-- ===== src/Settings/Kept.antt =====
-- What the flash keeps of the settings (src/Config.cpp) over a restart.
use esp32_sequencer.Base.{String, ◌≡◌, refl, ◌∙◌, true, false, some, str_eq, if◌then◌else◌}
use esp32_sequencer.Settings.{
  Preferences, IsStorage, Config, load, save, request_setup_on_next_boot, consume_setup_request,
}

module _ {P : Type 0} (prefs : Preferences P) (storage : IsStorage prefs) where
  -- What `save` leaves under a key of a text.
  saved_text :
      (j : String) (c : Config) (p : P)
      → str_eq "sFb" j ≡ false
      → prefs.get_string j (save prefs c p) ≡ (
          if str_eq "tvTok" j
          then some c.tv_token
          else if str_eq "idlePass" j
          then some c.idle_pass
          else if str_eq "idleSsid" j
          then some c.idle_ssid
          else prefs.get_string j p)
  unfolding save
  saved_text j c p other =
      rw (storage.get_string-put_bool j "sFb" c.setup_fallback _ other)
        (simp storage.get_string-put_string)

  saved_flag : (c : Config) (p : P) → prefs.get_bool "sFb" (save prefs c p) ≡ some c.setup_fallback
  unfolding save
  saved_flag c p = storage.get_bool-put_bool "sFb" "sFb" c.setup_fallback _

  -- The settings that were saved are loaded again.
  pub load-save : (c : Config) (p : P) → load prefs (save prefs c p) ≡ c
  unfolding load
  load-save c p = rw (
    saved_text "idleSsid" c p refl,
    saved_text "idlePass" c p refl,
    saved_text "tvTok" c p refl,
    saved_flag c p,
  )

  -- Saving the settings keeps a request for the setup mode.
  saved_request :
      (c : Config) (p : P)
      → prefs.get_bool "forceSetup" (save prefs c p) ≡ prefs.get_bool "forceSetup" p
  unfolding save
  saved_request c p =
      storage.get_bool-put_bool "forceSetup" "sFb" c.setup_fallback _
      ∙ storage.get_bool-put_string "forceSetup" "tvTok" c.tv_token _ refl
      ∙ storage.get_bool-put_string "forceSetup" "idlePass" c.idle_pass _ refl
      ∙ storage.get_bool-put_string "forceSetup" "idleSsid" c.idle_ssid _ refl

  -- A request for the setup mode is kept while settings are saved, is answered by the first that
  -- consumes it, and by no second.
  pub consume_setup_request_once :
      (c : Config) (p : P)
      → let p' = save prefs c (request_setup_on_next_boot prefs p) in
        ((consume_setup_request prefs p').0 ≡ true)
        × ((consume_setup_request prefs (consume_setup_request prefs p').1).0 ≡ false)
  unfolding consume_setup_request request_setup_on_next_boot
  consume_setup_request_once c p =
      let kept : prefs.get_bool "forceSetup" (save prefs c (prefs.put_bool "forceSetup" true p))
          ≡ some true =
        saved_request c (prefs.put_bool "forceSetup" true p)
        ∙ storage.get_bool-put_bool "forceSetup" "forceSetup" true p in
      (
        rw kept refl,
        rw
            (
              kept,
              storage.get_bool-remove "forceSetup" "forceSetup"
                  (save prefs c (prefs.put_bool "forceSetup" true p)),
            )
            refl,
      )
