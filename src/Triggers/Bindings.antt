-- ===== src/Triggers/Bindings.antt =====
-- The BLE bindings after `TriggerManager::applyBindings` (src/core/TriggerManager.cpp,
-- src/adapters/triggers/BleMacTrigger.cpp).
use mathlib.Core.Path.{subst}
use esp32_sequencer.Base.{
  String, ◌≡◌, refl, sym, ap, ◌∙◌, Bool, true, false, not, ◌&&◌, Option, none, some, List, [], ◌∷◌,
  str_eq, eq_iff, if◌then◌else◌, arith, Bool-cases, ◌⊎◌, inl, inr,
}
use esp32_sequencer.Base.Map.{Map, find, find-insert, find-erase}
use esp32_sequencer.Json.{ArduinoJson, as_text, get, or_default}
use esp32_sequencer.Model.{TriggerSchema, TriggerBinding}
use esp32_sequencer.Registry.{Registry, resolve_trigger}
use esp32_sequencer.Triggers.{
  TriggerManager, Bound, BleActive, adapters, to_lower, bind_ble, bind_path, bind_route, unbind_ble,
  unbind_route, unbind_all, bind_known, apply_binding, apply_all, apply_bindings,
}
use esp32_sequencer.Triggers.Manager.{known, last_bound, apply_bindings_active}

abbrev pub or_else : Option BleActive → Option BleActive → Option BleActive
or_else none o = o
or_else (some a) o = some a

or_else_assoc : (a b c : Option BleActive) → or_else (or_else a b) c ≡ or_else a (or_else b c)
or_else_assoc none b c = refl
or_else_assoc (some a) b c = refl

or_else-none : (a : Option BleActive) → or_else a none ≡ a
or_else-none none = refl
or_else-none (some a) = refl

if-some :
    (c : Bool) (type : String) (o : Option String)
    → (if c then some type else o) ≡ some "ble-mac"
    → ((c ≡ true) × (type ≡ "ble-mac")) ⊎ (o ≡ some "ble-mac")
if-some true type o h = inl (refl, cc)
if-some false type o h = inr h

module _ (lib : ArduinoJson) where
  -- What a binding of a device is active with: its MAC, cooldown and arguments, not fired yet.
  abbrev pub ble_at : TriggerBinding → Option String → Option BleActive
  ble_at b none = none
  ble_at b (some mac) = some (record {
    mac = to_lower mac;
    sequence_id = b.sequence_id;
    cooldown_ms = or_default (lib.as_uint (get b.params "cooldown_ms")) 60000;
    last_fire_ms = 0;
    args = b.args;
  })

  abbrev pub ble_of : TriggerBinding → Option BleActive
  ble_of b = ble_at b (as_text (get b.params "mac"))

  bind_ble-at :
      (j : String) (b : TriggerBinding) (o : Option String) (s : Bound)
      → as_text (get b.params "mac") ≡ o
      → find j (bind_ble lib b s).ble
        ≡ (if str_eq b.id j then or_else (ble_at b o) (find j s.ble) else find j s.ble)
  unfolding bind_ble
  bind_ble-at j b none s e = rw (e, bind_ble) (ground arith)
  bind_ble-at j b (some mac) s e = rw (e, bind_ble) (find-insert j b.id _ s.ble ∙ ground arith)

  bind_path-ble :
      (b : TriggerBinding) (path : String) (s : Bound) → (bind_path lib b path s).ble ≡ s.ble
  bind_path-ble b path s = ground arith

  bind_route-at :
      (b : TriggerBinding) (o : Option String) (s : Bound)
      → as_text (get b.params "path") ≡ o
      → (bind_route lib b s).ble ≡ s.ble
  unfolding bind_route
  bind_route-at b none s e = rw (e, bind_route) refl
  bind_route-at b (some path) s e = rw (e, bind_route) (bind_path-ble b path s)

  bind-ble :
      (j : String) (b : TriggerBinding) (s : Bound)
      → find j ((adapters lib).bind b.type b s).ble
        ≡ or_else
            (if str_eq b.type "ble-mac" && str_eq b.id j then ble_of b else none)
            (find j s.ble)
  bind-ble j b s =
      let device = bind_ble-at j b (as_text (get b.params "mac")) s refl in
      let route = bind_route-at b (as_text (get b.params "path")) s refl in
      elim (Bool-cases (str_eq b.type "ble-mac")) [
        | inl ble ↦ rw ble (device ∙ ground arith)
        | inr other ↦ elim (Bool-cases (str_eq b.type "http-route")) [
          | inl http ↦ rw (other, http) (ap (find j) route)
          | inr neither ↦ rw (other, neither) refl
        ]
      ]

  module _ {W : Type 0} (registry : Registry W) where
    abbrev pub own_ble : String → TriggerBinding → Option TriggerSchema → Option BleActive
    own_ble j b o =
        if b.enabled && (known o && str_eq b.type "ble-mac" && str_eq b.id j)
        then ble_of b
        else none

    -- The last binding of an id that is enabled, of the registered type `ble-mac`, and has a MAC.
    abbrev pub last_ble : String → List TriggerBinding → Option BleActive
    last_ble id [] = none
    last_ble id (b ∷ bs) = or_else (last_ble id bs) (own_ble id b (resolve_trigger b.type registry))

    bind_known-ble :
        (j : String) (b : TriggerBinding) (m : TriggerManager Bound) (o : Option TriggerSchema)
        → find j (bind_known registry (adapters lib) b o m).triggers.ble
          ≡ or_else
              (if known o && str_eq b.type "ble-mac" && str_eq b.id j then ble_of b else none)
              (find j m.triggers.ble)
    bind_known-ble j b m none = refl
    bind_known-ble j b m (some schema) = bind-ble j b m.triggers

    if_enabled :
        (j : String) (enabled fits : Bool) (a : Option BleActive) (m n : TriggerManager Bound)
        → find j n.triggers.ble ≡ or_else (if fits then a else none) (find j m.triggers.ble)
        → find j (if not enabled then m else n).triggers.ble
          ≡ or_else (if enabled && fits then a else none) (find j m.triggers.ble)
    if_enabled j true fits a m n h = h
    if_enabled j false fits a m n h = refl

    apply_binding-ble :
        (j : String) (b : TriggerBinding) (m : TriggerManager Bound)
        → find j (apply_binding registry (adapters lib) b m).triggers.ble
          ≡ or_else (own_ble j b (resolve_trigger b.type registry)) (find j m.triggers.ble)
    unfolding apply_binding
    apply_binding-ble j b m =
        if_enabled j b.enabled
          (known (resolve_trigger b.type registry) && str_eq b.type "ble-mac" && str_eq b.id j)
          (ble_of b) m (bind_known registry (adapters lib) b (resolve_trigger b.type registry) m)
          (bind_known-ble j b m (resolve_trigger b.type registry))

    apply_all-ble :
        (j : String) (bs : List TriggerBinding) (m : TriggerManager Bound)
        → find j (apply_all registry (adapters lib) bs m).triggers.ble
          ≡ or_else (last_ble j bs) (find j m.triggers.ble)
    unfolding apply_all
    apply_all-ble j [] m = refl
    apply_all-ble j (b ∷ bs) m =
        apply_all-ble j bs (apply_binding registry (adapters lib) b m)
        ∙ ap (or_else (last_ble j bs)) (apply_binding-ble j b m)
        ∙ sym (or_else_assoc (last_ble j bs) _ (find j m.triggers.ble))

    unbind-ble :
        (j type id : String) (s : Bound)
        → find j ((adapters lib).unbind type id s).ble
          ≡ (if str_eq type "ble-mac" && str_eq id j then none else find j s.ble)
    unfolding unbind_ble unbind_route
    unbind-ble j type id s = ground (arith, find-erase j id s.ble)

    -- A device that is bound is one that the manager knows to unbind.
    abbrev pub IsTracked : Map String → Bound → Type 0
    IsTracked active s = (id : String) → (find id s.ble ≡ none) ⊎ (find id active ≡ some "ble-mac")

    unbind_all-ble :
        (j : String) (active : Map String) (s : Bound)
        → (find j s.ble ≡ none) ⊎ (find j active ≡ some "ble-mac")
        → find j (unbind_all registry (adapters lib) active s).ble ≡ none
    unfolding find
    unbind_all-ble j [] s (inl h) = h
    unbind_all-ble j [] s (inr h) = cc
    unbind_all-ble j ((id, type) ∷ m) s (inl h) =
        unbind_all-ble j m ((adapters lib).unbind type id s)
          (inl (unbind-ble j type id s ∙ ground (arith, h)))
    unbind_all-ble j ((id, type) ∷ m) s (inr h) = elim (if-some (str_eq id j) type (find j m) h) [
      | inl (same, ble) ↦
          unbind_all-ble j m ((adapters lib).unbind type id s)
            (inl (unbind-ble j type id s ∙ ground (arith, same, ble, eq_iff type "ble-mac")))
      | inr later ↦ unbind_all-ble j m ((adapters lib).unbind type id s) (inr later)
    ]

    -- No binding has the id; no two bindings have one.
    abbrev pub IsFresh : String → List TriggerBinding → Type 0
    IsFresh id [] = Unit
    IsFresh id (b ∷ bs) = (str_eq b.id id ≡ false) × IsFresh id bs

    abbrev pub HasIdsOnce : List TriggerBinding → Type 0
    HasIdsOnce [] = Unit
    HasIdsOnce (b ∷ bs) = IsFresh b.id bs × HasIdsOnce bs

    fresh_lem :
        (id : String) (bs : List TriggerBinding)
        → IsFresh id bs
        → (last_ble id bs ≡ none) × (last_bound registry (adapters lib) id bs ≡ none)
    fresh_lem id [] h = (refl, refl)
    fresh_lem id (b ∷ bs) h =
        let rest = fresh_lem id bs h.1 in (ground (arith, h.0, rest.0), ground (arith, h.0, rest.1))

    tracked_lem :
        (id : String) (bs : List TriggerBinding)
        → HasIdsOnce bs
        → (last_ble id bs ≡ none) ⊎ (last_bound registry (adapters lib) id bs ≡ some "ble-mac")
    tracked_lem id [] h = inl refl
    tracked_lem id (b ∷ bs) h = elim (Bool-cases (str_eq b.id id)) [
      | inr other ↦ elim (tracked_lem id bs h.1) [
        | inl unbound ↦ inl (ground (arith, other, unbound))
        | inr there ↦ inr (ground (arith, other, there))
      ]
      | inl same ↦
          let alone = fresh_lem id bs (subst (λ x. IsFresh x bs) ((eq_iff b.id id).0 same) h.0) in
          elim (Bool-cases (str_eq b.type "ble-mac")) [
            | inr other ↦ inl (ground (arith, alone.0, other))
            | inl ble ↦ elim (Bool-cases (b.enabled && known (resolve_trigger b.type registry))) [
              | inl on ↦ inr (ground (arith, alone.1, on, same, eq_iff b.type "ble-mac", ble))
              | inr off ↦ inl (ground (arith, alone.0, off))
            ]
          ]
    ]

    replaced :
        (id : String) (bs : List TriggerBinding) (m : TriggerManager Bound)
        → IsTracked m.active m.triggers
        → find id (apply_bindings registry (adapters lib) bs m).triggers.ble ≡ last_ble id bs
    unfolding apply_bindings
    replaced id bs m tracked =
        apply_all-ble id bs _
        ∙ ap (or_else (last_ble id bs)) (unbind_all-ble id m.active m.triggers (tracked id))
        ∙ or_else-none (last_ble id bs)

    -- Where every device that is bound is one that the manager knows, and no two of the new bindings
    -- have one id: after `applyBindings` the devices that are bound are those of the new bindings
    -- that are enabled, of the registered type `ble-mac` and with a MAC, with their values and not
    -- fired yet, so that no device of an earlier list stays bound; and the manager again knows every
    -- device that is bound.
    pub apply_bindings-ble :
        (bs : List TriggerBinding) (m : TriggerManager Bound)
        → IsTracked m.active m.triggers
        → HasIdsOnce bs
        → let m' = apply_bindings registry (adapters lib) bs m in
          ((id : String) → find id m'.triggers.ble ≡ last_ble id bs)
          × IsTracked m'.active m'.triggers
    apply_bindings-ble bs m tracked once = (
      (λ id. replaced id bs m tracked),
      λ id. elim (tracked_lem id bs once) [
        | inl h ↦ inl (replaced id bs m tracked ∙ h)
        | inr h ↦ inr ((apply_bindings_active registry (adapters lib) bs m).0 id ∙ h)
      ],
    )
