-- ===== src/Store/Nvs.antt =====
-- src/adapters/persistence/NvsPersistence.cpp: the stores' persistence over the flash library.
use esp32_sequencer.Base.{String, ◌≡◌, refl, Bool, true, false, some, str_eq}
use esp32_sequencer.Settings.{Preferences, or_value}
use esp32_sequencer.Store.{Persistence}

-- `load` and `save`; where the namespace is not there, no key is.
unfoldable pub nvs_load : {F : Type 0} → Preferences F → String → F → String
nvs_load prefs key f = or_value (prefs.get_string key f) ""

unfoldable pub nvs_save : {F : Type 0} → Preferences F → String → String → F → F
nvs_save prefs key blob f = prefs.put_string key blob f

-- `holds` is for the texts that the flash takes: its strings have a limit, and `save` ignores the
-- answer of `putString`.
module _ {F : Type 0} (prefs : Preferences F) (holds : String → Bool)
    (fits : (k blob : String) (f : F)
      → holds blob ≡ true
      → prefs.get_string k (prefs.put_string k blob f) ≡ some blob)
    (apart : (j k blob : String) (f : F)
      → str_eq k j ≡ false
      → prefs.get_string j (prefs.put_string k blob f) ≡ prefs.get_string j f) where
  pub nvs_load-nvs_save :
      (k blob : String) (f : F)
      → holds blob ≡ true
      → nvs_load prefs k (nvs_save prefs k blob f) ≡ blob
  unfolding nvs_load nvs_save
  nvs_load-nvs_save k blob f h = rw (fits k blob f h) refl

  -- The persistence that the stores take.
  abbrev pub nvs : Persistence F
  nvs = record {
    load = nvs_load prefs;
    save = nvs_save prefs;
    holds = holds;
    load-save = nvs_load-nvs_save;
  }

  -- It keeps its keys apart.
  pub nvs_apart :
      (j k blob : String) (f : F)
      → str_eq k j ≡ false
      → nvs.load j (nvs.save k blob f) ≡ nvs.load j f
  unfolding nvs_load nvs_save
  nvs_apart j k blob f other = rw (apart j k blob f other) refl
