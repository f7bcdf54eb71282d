-- ===== src/Triggers/Manager.antt =====
-- What `TriggerManager::applyBindings` (src/core/TriggerManager.cpp) leaves active.
use esp32_sequencer.Base.{
  String, ◌≡◌, refl, ap, ◌∙◌, Bool, true, false, ◌&&◌, ◌||◌, Option, none, some, List, [], ◌∷◌,
  str_eq, if◌then◌else◌, arith,
}
use esp32_sequencer.Base.Map.{find, find-insert}
use esp32_sequencer.Model.{TriggerSchema, TriggerBinding}
use esp32_sequencer.Registry.{Registry, resolve_trigger}
use esp32_sequencer.Triggers.{Adapters, TriggerManager, apply_binding, apply_all, apply_bindings}

abbrev pub known : Option TriggerSchema → Bool
known none = false
known (some s) = true

abbrev pub pausing : Option TriggerSchema → Bool
pausing none = false
pausing (some s) = s.pauses_ble_scan

abbrev pub or_else : Option String → Option String → Option String
or_else none o = o
or_else (some t) o = some t

or_else-none : (o : Option String) → or_else o none ≡ o
or_else-none none = refl
or_else-none (some t) = refl

module _ {W S : Type 0} (registry : Registry W) (adapters : Adapters S) where
  -- Some binding that is enabled is of a registered trigger that pauses the scan.
  abbrev pub any_pausing : List TriggerBinding → Bool
  any_pausing [] = false
  any_pausing (b ∷ bs) = (b.enabled && pausing (resolve_trigger b.type registry)) || any_pausing bs

  -- The type of the last binding of an id that is enabled and of a registered trigger.
  abbrev pub last_bound : String → List TriggerBinding → Option String
  last_bound id [] = none
  last_bound id (b ∷ bs) = or_else (last_bound id bs) (
      if b.enabled && known (resolve_trigger b.type registry) && str_eq b.id id
      then some b.type
      else none)

  apply_binding_pauses :
      (b : TriggerBinding) (m : TriggerManager S)
      → (apply_binding registry adapters b m).any_pauses
        ≡ (b.enabled && pausing (resolve_trigger b.type registry)) || m.any_pauses
  unfolding apply_binding
  apply_binding_pauses b m = ground arith

  apply_binding_active :
      (id : String) (b : TriggerBinding) (m : TriggerManager S)
      → find id (apply_binding registry adapters b m).active ≡ (
          if b.enabled && known (resolve_trigger b.type registry) && str_eq b.id id
          then some b.type
          else find id m.active)
  unfolding apply_binding
  apply_binding_active id b m = ground (arith, find-insert id b.id b.type m.active)

  apply_all_pauses :
      (bs : List TriggerBinding) (m : TriggerManager S)
      → (apply_all registry adapters bs m).any_pauses ≡ any_pausing bs || m.any_pauses
  unfolding apply_all
  apply_all_pauses [] m = refl
  apply_all_pauses (b ∷ bs) m =
      apply_all_pauses bs (apply_binding registry adapters b m)
      ∙ ap (λ p. any_pausing bs || p) (apply_binding_pauses b m)
      ∙ ground arith

  apply_all_active :
      (id : String) (bs : List TriggerBinding) (m : TriggerManager S)
      → find id (apply_all registry adapters bs m).active
        ≡ or_else (last_bound id bs) (find id m.active)
  unfolding apply_all
  apply_all_active id [] m = refl
  apply_all_active id (b ∷ bs) m =
      apply_all_active id bs (apply_binding registry adapters b m)
      ∙ ap (or_else (last_bound id bs)) (apply_binding_active id b m)
      ∙ ground arith

  -- Whatever was bound before, after `applyBindings` the active triggers are those of the last
  -- enabled binding of each id whose type is registered, and the BLE scan is to be paused just if
  -- some enabled binding is of a registered type that pauses it.
  pub apply_bindings_active :
      (bs : List TriggerBinding) (m : TriggerManager S)
      → ((id : String) → find id (apply_bindings registry adapters bs m).active ≡ last_bound id bs)
        × ((apply_bindings registry adapters bs m).any_pauses ≡ any_pausing bs)
  unfolding apply_bindings find
  apply_bindings_active bs m = (
    (λ id. apply_all_active id bs _ ∙ or_else-none (last_bound id bs)),
    apply_all_pauses bs _ ∙ ground arith,
  )
