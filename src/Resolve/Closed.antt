-- ===== src/Resolve/Closed.antt =====
-- Documents without references pass through src/core/ResolveParams.cpp unchanged.
use Prim.Native.String.{String, [], ◌∷◌}
use mathlib.Core.List.{List, ◌++◌}
use esp32_sequencer.Base.{◌≡◌, refl, sym, ap, inl, inr, none, Bool-cases, Option-cases}
use esp32_sequencer.Base.Result.{ok, map_ok}
use esp32_sequencer.Json.{
  Json, null, bool, int, float, str, arr, obj, Items, nil, cons, Fields, end, field, ArduinoJson,
  find_field,
}
use esp32_sequencer.Json.Object.{append, append_assoc, append-end, set_field_new}
use esp32_sequencer.Model.{ParamScope}
use esp32_sequencer.Resolve.{
  param_name, placeholder, has_open, interpolate, resolve_text, resolve, resolve_items,
  resolve_fields,
}
use esp32_sequencer.Resolve.Refs.{refs, refs_items, refs_fields, text_refs}

-- Each key is new when it is reached behind `done`.
abbrev pub Unrepeated : Fields → Fields → Type 0
Unrepeated done end = Unit
Unrepeated done (field k v fs) =
    (find_field k done ≡ none) × Unrepeated (append done (field k v end)) fs

-- No object of the document repeats a key.
abbrev mutual
  pub HasKeysOnce : Json → Type 0
  HasKeysOnce (obj fs) = Unrepeated end fs × FieldsOnce fs
  HasKeysOnce (arr xs) = ItemsOnce xs
  HasKeysOnce _ = Unit

  pub ItemsOnce : Items → Type 0
  ItemsOnce nil = Unit
  ItemsOnce (cons v xs) = HasKeysOnce v × ItemsOnce xs

  pub FieldsOnce : Fields → Type 0
  FieldsOnce end = Unit
  FieldsOnce (field k v fs) = HasKeysOnce v × FieldsOnce fs

append-eq-nil :
    {A : Type 0} (xs ys : List A) → (xs ++ ys) ≡ List.[] → (xs ≡ List.[]) × (ys ≡ List.[])
append-eq-nil List.[] ys h = (refl, h)
append-eq-nil (List.◌∷◌ x xs) ys h = cc h

module _ (lib : ArduinoJson) (scope : ParamScope) where
  interpolate_closed : (s : String) → text_refs s 0 ≡ List.[] → interpolate lib scope s 0 ≡ ok s
  unfolding interpolate text_refs
  interpolate_closed [] h = refl
  interpolate_closed (c ∷ s) h = elim (Option-cases (placeholder c s)) [
    | inl e ↦
        rw (e, interpolate)
          (ap (map_ok (λ out. c ∷ out)) (interpolate_closed s (rw (e, text_refs) at h)))
    | inr (n, e) ↦ cc (rw (e, text_refs) at h)
  ]

  mutual
    unfolding resolve refs resolve_text

    resolve_eq : (v : Json) → HasKeysOnce v → refs v ≡ List.[] → resolve lib scope v ≡ ok v
    resolve_eq (obj fs) w h = elim (Option-cases (param_name fs)) [
      | inl e ↦ rw e (ap (map_ok obj) (resolve_fields_eq fs end w.0 w.1 (rw e at h)))
      | inr (n, e) ↦ cc (rw e at h)
    ]
    resolve_eq (arr xs) w h = ap (map_ok arr) (resolve_items_eq xs w h)
    resolve_eq (str s) w h = elim (Bool-cases (has_open s)) [
      | inl e ↦ rw e (ap (map_ok str) (interpolate_closed s (rw e at h)))
      | inr e ↦ rw e
    ]
    resolve_eq null w h = refl
    resolve_eq (bool b) w h = refl
    resolve_eq (int z) w h = refl
    resolve_eq (float t) w h = refl

    resolve_items_eq :
        (xs : Items) → ItemsOnce xs → refs_items xs ≡ List.[] → resolve_items lib scope xs ≡ ok xs
    resolve_items_eq nil w h = refl
    resolve_items_eq (cons v xs) w h =
        let (p, q) = append-eq-nil (refs v) (refs_items xs) h in
        rw (resolve_eq v w.0 p, resolve_items_eq xs w.1 q)

    resolve_fields_eq :
        (fs done : Fields)
        → Unrepeated done fs
        → FieldsOnce fs
        → refs_fields fs ≡ List.[]
        → resolve_fields lib scope fs done ≡ ok (append done fs)
    resolve_fields_eq end done u w h = ap ok (sym (append-end done))
    resolve_fields_eq (field k v fs) done u w h =
        let (p, q) = append-eq-nil (refs v) (refs_fields fs) h in
        rw
          (
            resolve_eq v w.0 p,
            set_field_new k v done u.0,
            resolve_fields_eq fs (append done (field k v end)) u.1 w.1 q,
          )
          (ap ok (append_assoc done (field k v end) fs))

  -- A document that refers to no parameter, and repeats no key in an object, is its own
  -- resolution in every scope.
  pub resolve_closed : (v : Json) → HasKeysOnce v → refs v ≡ List.[] → resolve lib scope v ≡ ok v
  resolve_closed v w h = resolve_eq v w h
