-- ===== src/Web/Bindings.antt =====
-- The routes of the bindings (src/adapters/triggers/HttpRouteTrigger.cpp) on the device's server.
use esp32_sequencer.Base.{
  String, ◌≡◌, refl, sym, ◌∙◌, ◌⊎◌, inl, inr, Bool, true, false, Option, none, some, List, [], ◌∷◌,
  if◌then◌else◌, Bool-cases, not, str_eq, eq_iff, arith,
}
use esp32_sequencer.Base.Map.{Map, find, find-insert, find-erase}
use esp32_sequencer.Json.{ArduinoJson, as_text, get}
use esp32_sequencer.Model.{TriggerSchema, TriggerBinding}
use esp32_sequencer.Registry.{Registry, resolve_trigger}
use esp32_sequencer.Triggers.{
  TriggerManager, Bound, RouteActive, adapters, bind_ble, bind_path, bind_route, unbind_ble,
  unbind_route, unbind_all, bind_known, apply_binding, apply_all, apply_bindings,
}

-- The handler of the path and the binding is attached.
abbrev pub IsAttached : String → String → List (String × String) → Type 0
IsAttached path id [] = ⊥
IsAttached path id ((p, i) ∷ hs) = ((p ≡ path) × (i ≡ id)) ⊎ IsAttached path id hs

-- Every route that is bound has a handler.
abbrev pub Attached : Bound → Type 0
Attached s =
    (id : String) (a : RouteActive) → find id s.routes ≡ some a → IsAttached a.path id s.handlers

module _ (lib : ArduinoJson) where
  bind_ble-Attached :
      (b : TriggerBinding) (o : Option String) (s : Bound)
      → as_text (get b.params "mac") ≡ o
      → Attached s
      → Attached (bind_ble lib b s)
  unfolding bind_ble
  bind_ble-Attached b none s e h = rw (e, bind_ble) h
  bind_ble-Attached b (some mac) s e h = rw (e, bind_ble) h

  bind_path-Attached :
      (b : TriggerBinding) (path : String) (s : Bound)
      → Attached s
      → Attached (bind_path lib b path s)
  bind_path-Attached b path s h = elim (Bool-cases (str_eq path "")) [
    | inl empty ↦ rw empty h
    | inr given ↦
        rw given
          λ id a e. bound id a (str_eq b.id id) refl (sym (find-insert id b.id _ s.routes) ∙ e)
  ]
    where
      bound :
          (id : String) (a : RouteActive) (same : Bool)
          → str_eq b.id id ≡ same
          → (if str_eq b.id id
              then some (record { path = path; sequence_id = b.sequence_id; default_args = b.args })
              else find id s.routes)
            ≡ some a
          → IsAttached a.path id ((path, b.id) ∷ s.handlers)
      bound id a same e f = ground (arith, h id a, eq_iff b.id id)

  bind_route-Attached :
      (b : TriggerBinding) (o : Option String) (s : Bound)
      → as_text (get b.params "path") ≡ o
      → Attached s
      → Attached (bind_route lib b s)
  unfolding bind_route
  bind_route-Attached b none s e h = rw (e, bind_route) h
  bind_route-Attached b (some path) s e h = rw (e, bind_route) (bind_path-Attached b path s h)

  if-Attached : (c : Bool) (s t : Bound) → Attached s → Attached t → Attached (if c then s else t)
  if-Attached true s t h k = h
  if-Attached false s t h k = k

  bind-Attached :
      (b : TriggerBinding) (s : Bound) → Attached s → Attached ((adapters lib).bind b.type b s)
  bind-Attached b s h =
      if-Attached (str_eq b.type "ble-mac") _ _ (bind_ble-Attached b _ s refl h)
        (if-Attached (str_eq b.type "http-route") _ _ (bind_route-Attached b _ s refl h) h)

  unbind_route-Attached : (j : String) (s : Bound) → Attached s → Attached (unbind_route lib j s)
  unfolding unbind_route
  unbind_route-Attached j s h id a e = kept (sym (find-erase id j s.routes) ∙ e)
    where
      kept :
          (if str_eq j id then none else find id s.routes) ≡ some a
          → IsAttached a.path id s.handlers
      kept f = ground (arith, h id a)

  unbind-Attached :
      (type id : String) (s : Bound) → Attached s → Attached ((adapters lib).unbind type id s)
  unfolding unbind_ble
  unbind-Attached type id s h =
      if-Attached (str_eq type "ble-mac") _ _ h
        (if-Attached (str_eq type "http-route") _ _ (unbind_route-Attached id s h) h)

  module _ {W : Type 0} (registry : Registry W) where
    unbind_all-Attached :
        (m : Map String) (s : Bound)
        → Attached s
        → Attached (unbind_all registry (adapters lib) m s)
    unbind_all-Attached [] s h = h
    unbind_all-Attached ((id, type) ∷ m) s h =
        unbind_all-Attached m ((adapters lib).unbind type id s) (unbind-Attached type id s h)

    bind_known-Attached :
        (b : TriggerBinding) (o : Option TriggerSchema) (m : TriggerManager Bound)
        → Attached m.triggers
        → Attached (bind_known registry (adapters lib) b o m).triggers
    bind_known-Attached b none m h = h
    bind_known-Attached b (some schema) m h = bind-Attached b m.triggers h

    apply_binding-Attached :
        (b : TriggerBinding) (m : TriggerManager Bound)
        → Attached m.triggers
        → Attached (apply_binding registry (adapters lib) b m).triggers
    unfolding apply_binding
    apply_binding-Attached b m h = by_enabled b.enabled
      where
        by_enabled :
            (on : Bool)
            → Attached
                (if not on
                  then m
                  else bind_known registry
                      (adapters lib)
                      b
                      (resolve_trigger b.type registry)
                      m).triggers
        by_enabled true = bind_known-Attached b (resolve_trigger b.type registry) m h
        by_enabled false = h

    apply_all-Attached :
        (bs : List TriggerBinding) (m : TriggerManager Bound)
        → Attached m.triggers
        → Attached (apply_all registry (adapters lib) bs m).triggers
    unfolding apply_all
    apply_all-Attached [] m h = h
    apply_all-Attached (b ∷ bs) m h =
        apply_all-Attached bs (apply_binding registry (adapters lib) b m)
          (apply_binding-Attached b m h)

    -- If every route that is bound has a handler for its path, so it is after `applyBindings`.
    pub apply_bindings-Attached :
        (bs : List TriggerBinding) (m : TriggerManager Bound)
        → Attached m.triggers
        → Attached (apply_bindings registry (adapters lib) bs m).triggers
    unfolding apply_bindings
    apply_bindings-Attached bs m h =
        apply_all-Attached bs _ (unbind_all-Attached m.active m.triggers h)
