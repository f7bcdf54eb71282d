-- ===== src/Triggers/Tests.antt =====
-- Bindings after test/test_triggermanager, at concrete data.
use esp32_sequencer.Base.{
  ◌≡◌, refl, String, true, false, [], ◌∷◌, arith, inl, inr, str_eq, Bool-cases,
}
use esp32_sequencer.Base.Int.{pos}
use esp32_sequencer.Base.Map.{Map, find}
use esp32_sequencer.Json.{null, int, str, obj, end, field}
use esp32_sequencer.Model.{TriggerBinding, TriggerSchema}
use esp32_sequencer.Registry.{Registry, resolve_trigger}
use esp32_sequencer.Interp.Tests.{test_lib}
use esp32_sequencer.Triggers.{
  TriggerManager, BleActive, RouteActive, Bound, adapters, apply_bindings, fires, after_hit, on_hit,
  bind_ble, since_fire,
}
use esp32_sequencer.Triggers.Manager.{last_bound, apply_bindings_active}
use esp32_sequencer.Triggers.Bindings.{last_ble, IsTracked, apply_bindings-ble}
use esp32_sequencer.Triggers.Cooldown.{fires-after_hit, on_hit-bind_ble}

abbrev ble_schema : TriggerSchema
ble_schema = record { type = "ble-mac"; label = "BLE"; fields = []; pauses_ble_scan = true }

abbrev registry : Registry (Unit {0})
registry = record { blocks = []; predicates = []; triggers = ("ble-mac", ble_schema) ∷ [] }

abbrev remote : TriggerBinding
remote = record {
  id = "r1";
  type = "ble-mac";
  sequence_id = "movie";
  args = null;
  enabled = true;
  params = obj (field "mac" (str "AA:BB") (field "cooldown_ms" (int (pos 5000)) end));
}

abbrev bound : Bound
bound = record { ble = []; routes = []; handlers = [] }

abbrev manager : TriggerManager Bound
manager = record { active = ("old", "ble-mac") ∷ []; any_pauses = false; triggers = bound }

apply_bindings_active_example :
    ((id : String)
      → find id (apply_bindings registry (adapters test_lib) (remote ∷ []) manager).active
        ≡ last_bound registry (adapters test_lib) id (remote ∷ []))
    × ((apply_bindings registry (adapters test_lib) (remote ∷ []) manager).any_pauses ≡ true)
unfolding resolve_trigger find
apply_bindings_active_example =
    apply_bindings_active registry (adapters test_lib) (remote ∷ []) manager

abbrev fired : BleActive
fired = record {
  mac = 97 ∷ [];
  sequence_id = "movie";
  cooldown_ms = 5000;
  last_fire_ms = 0;
  args = null;
}

-- The clock wraps between the two hits.
fires-after_hit_example : fires 200 (97 ∷ []) (after_hit 4294967290 (97 ∷ []) fired) ≡ false
unfolding fires since_fire
fires-after_hit_example = fires-after_hit 4294967290 200 (97 ∷ []) fired refl

on_hit-bind_ble_example : (on_hit 4999 (97 ∷ []) (bind_ble test_lib remote bound).ble).1 ≡ []
on_hit-bind_ble_example =
    on_hit-bind_ble test_lib remote "AA:BB" 4999 (97 ∷ []) refl (omega arith) (omega arith)

abbrev route : RouteActive
route = record { path = "/play"; sequence_id = "movie"; default_args = null }

abbrev routes : Map RouteActive
routes = ("w", route) ∷ []

-- A device that is bound is unbound where the new list leaves it out.
abbrev stale : Bound
stale = record { ble = ("old", fired) ∷ []; routes = []; handlers = [] }

abbrev busy : TriggerManager Bound
busy = record { active = ("old", "ble-mac") ∷ []; any_pauses = false; triggers = stale }

stale-IsTracked : IsTracked test_lib registry busy.active busy.triggers
unfolding find
stale-IsTracked id = elim (Bool-cases (str_eq "old" id)) [
  | inl same ↦ inr (rw same refl)
  | inr other ↦ inl (rw other refl)
]

abbrev bound_anew : TriggerManager Bound
bound_anew = apply_bindings registry (adapters test_lib) (remote ∷ []) busy

apply_bindings-ble_example :
    ((id : String) → find id bound_anew.triggers.ble ≡ last_ble test_lib registry id (remote ∷ []))
    × IsTracked test_lib registry bound_anew.active bound_anew.triggers
apply_bindings-ble_example =
    apply_bindings-ble test_lib registry (remote ∷ []) busy stale-IsTracked (tt, tt)
