-- ===== src/Triggers/Cooldown.antt =====
-- The cooldown of src/adapters/triggers/BleMacTrigger.cpp.
use esp32_sequencer.Base.{ℕ, ◌+◌, ◌-◌, ◌^◌, ◌%◌, ◌<◌, ◌≡◌, true, List, [], some, leb, arith, String}
use esp32_sequencer.Json.{ArduinoJson, as_text, get, or_default}
use esp32_sequencer.Base.Map.{insert}
use esp32_sequencer.Model.{TriggerBinding}
use esp32_sequencer.Triggers.{BleActive, since_fire, fires, after_hit, on_hit, bind_ble}

-- A binding that fired at a hit fires at a later hit of its device if, and only if, the cooldown is
-- over then, where the time between is counted on the 32-bit clock, also across its wrap-around.
pub fires-after_hit :
    (now now' : ℕ) (mac : List ℕ) (a : BleActive)
    → fires now mac a ≡ true
    → fires now' mac (after_hit now mac a) ≡ leb a.cooldown_ms ((now' + 2 ^ 32 - now) % 2 ^ 32)
unfolding fires after_hit since_fire
fires-after_hit now now' mac a h = ground (arith, h)

-- A binding made alone does not fire while the clock is below its cooldown: the last firing is 0 in
-- a new binding, as if it had fired when the device was started.
pub on_hit-bind_ble :
    (lib : ArduinoJson) (b : TriggerBinding) (address : String) (now : ℕ) (mac : List ℕ)
    → as_text (get b.params "mac") ≡ some address
    → now < or_default (lib.as_uint (get b.params "cooldown_ms")) 60000
    → now < 2 ^ 32
    → (on_hit now mac (bind_ble lib b (record { ble = []; routes = []; handlers = [] })).ble).1 ≡ []
unfolding on_hit bind_ble fires since_fire insert
on_hit-bind_ble lib b address now mac e h w = rw (e, on_hit, bind_ble) (ground (arith, h))
