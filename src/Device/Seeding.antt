-- ===== src/Device/Seeding.antt =====
-- The first boot of src/main.cpp: `seedDefaultsIfEmpty`.
use esp32_sequencer.Base.{ℕ, ◌≡◌, refl, false, arith}
use esp32_sequencer.Json.{ArduinoJson}
use esp32_sequencer.Store.{
  Persistence, replace_all, assign_ids, validate, validate_from, replace_triggers,
}
use esp32_sequencer.Device.{
  Device, is_empty, store_sequences, store_triggers, seed_defaults_if_empty,
}
use esp32_sequencer.Defaults.{default_sequences, default_triggers}

module _ {W P G : Type 0} (lib : ArduinoJson) (persistence : Persistence P) (rand : G → ℕ × G) where
  seeds_sequences :
      (d : Device W P G)
      → is_empty (store_sequences lib persistence rand default_sequences d).sequences ≡ false
  unfolding replace_all assign_ids validate validate_from default_sequences
  seeds_sequences d = refl

  seeds_triggers :
      (d : Device W P G)
      → is_empty (store_triggers lib persistence rand default_triggers d).triggers ≡ false
  unfolding replace_triggers default_triggers
  seeds_triggers d = refl

  -- After the seeding a device has sequences and bindings; what it had of either is as it was.
  pub seed_defaults_if_empty_lem :
      (d : Device W P G)
      → (is_empty (seed_defaults_if_empty lib persistence rand d).sequences ≡ false)
        × (is_empty (seed_defaults_if_empty lib persistence rand d).triggers ≡ false)
        × (is_empty d.sequences ≡ false
            → (seed_defaults_if_empty lib persistence rand d).sequences ≡ d.sequences)
        × (is_empty d.triggers ≡ false
            → (seed_defaults_if_empty lib persistence rand d).triggers ≡ d.triggers)
  unfolding seed_defaults_if_empty
  seed_defaults_if_empty_lem d = (
    ground (arith, seeds_sequences d),
    ground (
      arith,
      seeds_triggers d,
      seeds_triggers (store_sequences lib persistence rand default_sequences d),
    ),
    (λ h. ground (arith, h)),
    (λ h. ground (arith, h)),
  )
