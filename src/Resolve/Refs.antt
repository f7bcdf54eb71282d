-- ===== src/Resolve/Refs.antt =====
-- The parameters a document refers to, in document order: an account of src/core/ResolveParams.cpp
-- that builds no document.
use Prim.Native.Nat.{ℕ, zero, suc, ◌+◌}
use Prim.Native.String.{String, [], ◌∷◌, count}
use mathlib.Core.List.{List, ◌++◌}
use esp32_sequencer.Base.{
  ◌≡◌, refl, inl, inr, Option, none, some, Bool-cases, Option-cases, if◌then◌else◌,
}
use esp32_sequencer.Base.Result.{Result, ok, err, ◌>>=◌, map_ok, or_err}
use esp32_sequencer.Base.Map.{find}
use esp32_sequencer.Json.{
  Json, null, bool, int, float, str, arr, obj, Items, nil, cons, Fields, end, field, ArduinoJson,
  set_field,
}
use esp32_sequencer.Model.{ParamScope}
use esp32_sequencer.Resolve.{
  param_name, placeholder, has_open, unknown_param, interpolate, resolve_text, resolve,
  resolve_items, resolve_fields,
}

unfoldable pub text_refs : String → ℕ → List String
text_refs [] skip = List.[]
text_refs (c ∷ s) (suc skip) = text_refs s skip
text_refs (c ∷ s) zero =
    let plain = text_refs s 0 in
    let after = λ (name : String). List.◌∷◌ name (text_refs s (count name + 2)) in
    elim (placeholder c s) [ none ↦ plain | some name ↦ after name ]

abbrev name_or : Option String → List String → List String
name_or none names = names
name_or (some name) names = List.◌∷◌ name List.[]

unfoldable mutual
  pub refs : Json → List String
  refs (obj fs) = name_or (param_name fs) (refs_fields fs)
  refs (arr xs) = refs_items xs
  refs (str s) = if has_open s then text_refs s 0 else List.[]
  refs null = List.[]
  refs (bool b) = List.[]
  refs (int z) = List.[]
  refs (float t) = List.[]

  pub refs_items : Items → List String
  refs_items nil = List.[]
  refs_items (cons v xs) = refs v ++ refs_items xs

  pub refs_fields : Fields → List String
  refs_fields end = List.[]
  refs_fields (field k v fs) = refs v ++ refs_fields fs

-- The first name that the scope does not bind.
unfoldable pub first_missing : ParamScope → List String → Option String
first_missing scope List.[] = none
first_missing scope (List.◌∷◌ n ns) = elim (find n scope) [
  | none ↦ some n
  | some _ ↦ first_missing scope ns
]

-- A result is the error of the name, or succeeds where there is no name.
abbrev pub Reports {ℓ} : {A : Type ℓ} → Option String → Result A → Type ℓ
Reports {A} none r = (a : A) × (r ≡ ok a)
Reports (some n) r = r ≡ err (unknown_param n)

module _ {ℓ κ} {A : Type ℓ} {B : Type κ} where
  pub Reports-map_ok :
      (f : A → B) (o : Option String) (r : Result A) → Reports o r → Reports o (map_ok f r)
  Reports-map_ok f none (ok a) h = (f a, refl)
  Reports-map_ok f none (err e) h = cc (h.1)
  Reports-map_ok f (some n) (ok a) h = cc h
  Reports-map_ok f (some n) (err e) h = cc h

  pub Reports-bind :
      (scope : ParamScope) (ns ms : List String) (r : Result A) (f : A → Result B)
      → Reports (first_missing scope ns) r
      → ((a : A) → Reports (first_missing scope ms) (f a))
      → Reports (first_missing scope (ns ++ ms)) (r >>= f)
  unfolding first_missing
  Reports-bind scope List.[] ms (ok a) f h k = k a
  Reports-bind scope List.[] ms (err e) f h k = cc (h.1)
  Reports-bind scope (List.◌∷◌ n ns) ms r f h k = elim (Option-cases (find n scope)) [
    | inl e ↦ rw (e, first_missing) (rw (rw (e, first_missing) at h))
    | inr (v, e) ↦
        rw (e, first_missing) (Reports-bind scope ns ms r f (rw (e, first_missing) at h) k)
  ]

-- One name, looked up.
pub Reports-lookup {ℓ} :
    {A : Type ℓ} (scope : ParamScope) (n : String) (ms : List String) (f : Json → Result A)
    → ((v : Json) → Reports (first_missing scope ms) (f v))
    → Reports (first_missing scope (List.◌∷◌ n ms)) (or_err (find n scope) (unknown_param n) >>= f)
unfolding first_missing
Reports-lookup scope n ms f k = elim (Option-cases (find n scope)) [
  | inl e ↦ rw (e, first_missing)
  | inr (v, e) ↦ rw (e, first_missing) (k v)
]

module _ (lib : ArduinoJson) (scope : ParamScope) where
  interpolate-Reports :
      (s : String) (skip : ℕ)
      → Reports (first_missing scope (text_refs s skip)) (interpolate lib scope s skip)
  unfolding interpolate text_refs first_missing
  interpolate-Reports [] skip = ([], refl)
  interpolate-Reports (c ∷ s) (suc skip) = interpolate-Reports s skip
  interpolate-Reports (c ∷ s) zero = elim (Option-cases (placeholder c s)) [
    | inl e ↦
        rw (e, interpolate, text_refs)
          (Reports-map_ok (λ out. c ∷ out) _ _ (interpolate-Reports s 0))
    | inr (n, e) ↦
        rw (e, interpolate, text_refs)
          (Reports-lookup scope n _ _
            (λ v. Reports-map_ok _ _ _ (interpolate-Reports s (count n + 2))))
  ]

  resolve_text-Reports :
      (s : String) → Reports (first_missing scope (refs (str s))) (resolve_text lib scope s)
  unfolding resolve_text refs first_missing
  resolve_text-Reports s = elim (Bool-cases (has_open s)) [
    | inl e ↦ rw e (Reports-map_ok str _ _ (interpolate-Reports s 0))
    | inr e ↦ rw e (str s, refl)
  ]

  lookup-Reports :
      (n : String)
      → Reports (first_missing scope (List.◌∷◌ n List.[])) (or_err (find n scope) (unknown_param n))
  unfolding first_missing
  lookup-Reports n = elim (Option-cases (find n scope)) [
    | inl e ↦ rw (e, first_missing)
    | inr (v, e) ↦ rw (e, first_missing) (v, refl)
  ]

  mutual
    unfolding resolve refs first_missing

    resolve-Reports : (v : Json) → Reports (first_missing scope (refs v)) (resolve lib scope v)
    resolve-Reports (obj fs) = elim (Option-cases (param_name fs)) [
      | inl e ↦ rw e (Reports-map_ok obj _ _ (resolve_fields-Reports fs end))
      | inr (n, e) ↦ rw e (lookup-Reports n)
    ]
    resolve-Reports (arr xs) = Reports-map_ok arr _ _ (resolve_items-Reports xs)
    resolve-Reports (str s) = resolve_text-Reports s
    resolve-Reports null = (null, refl)
    resolve-Reports (bool b) = (bool b, refl)
    resolve-Reports (int z) = (int z, refl)
    resolve-Reports (float t) = (float t, refl)

    resolve_items-Reports :
        (xs : Items) → Reports (first_missing scope (refs_items xs)) (resolve_items lib scope xs)
    resolve_items-Reports nil = (nil, refl)
    resolve_items-Reports (cons v xs) =
        Reports-bind scope (refs v) (refs_items xs) _ _ (resolve-Reports v)
          (λ w. Reports-map_ok (cons w) _ _ (resolve_items-Reports xs))

    resolve_fields-Reports :
        (fs done : Fields)
        → Reports (first_missing scope (refs_fields fs)) (resolve_fields lib scope fs done)
    resolve_fields-Reports end done = (done, refl)
    resolve_fields-Reports (field k v fs) done =
        Reports-bind scope (refs v) (refs_fields fs) _ _ (resolve-Reports v)
          (λ w. resolve_fields-Reports fs (set_field k w done))

  -- Resolving succeeds when the scope binds every parameter that the document refers to, and
  -- otherwise fails with the error for the first one, in document order, that it does not bind.
  -- The types of the bound values do not matter.
  pub resolve_lem : (v : Json) → Reports (first_missing scope (refs v)) (resolve lib scope v)
  resolve_lem v = resolve-Reports v
