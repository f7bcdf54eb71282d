-- ===== src/Store/Lookup.antt =====
-- Looking a sequence up behind the operations of src/core/SequenceStore.cpp.
use esp32_sequencer.Base.{
  ℕ, String, ◌≡◌, ◌≢◌, refl, ap, ◌∙◌, true, Option, none, some, List, [], ◌∷◌, map, str_eq, eq_iff,
  arith, if◌then◌else◌,
}
use mathlib.Core.Option
use esp32_sequencer.Json.{ArduinoJson}
use esp32_sequencer.Model.{ParamDef, Sequence}
use esp32_sequencer.Store.{
  find_by_id, put, erase_by_id, mark, callees_in, validate, remove_by_id, upsert, with_id,
}
use esp32_sequencer.Store.Validate.{mark_id, validate-map}

-- No two sequences have one id.
abbrev pub HasIdsOnce : List Sequence → Type 0
HasIdsOnce [] = Unit
HasIdsOnce (s ∷ ss) = (find_by_id s.id ss ≡ none) × HasIdsOnce ss

find_by_id-put :
    (j : String) (s : Sequence) (all : List Sequence)
    → find_by_id j (put s all) ≡ (if str_eq s.id j then some s else find_by_id j all)
unfolding find_by_id put
find_by_id-put j s [] = refl
find_by_id-put j s (t ∷ all) =
    ground (arith, eq_iff t.id s.id, eq_iff t.id j, eq_iff s.id j, find_by_id-put j s all)

put-HasIdsOnce : (s : Sequence) (all : List Sequence) → HasIdsOnce all → HasIdsOnce (put s all)
unfolding find_by_id put
put-HasIdsOnce s [] h = (refl, tt)
put-HasIdsOnce s (t ∷ all) h =
    ground (
      arith,
      eq_iff t.id s.id,
      eq_iff s.id t.id,
      find_by_id-put t.id s all,
      put-HasIdsOnce s all h.1,
    )

find_by_id-erase_by_id :
    (j id : String) (all : List Sequence)
    → HasIdsOnce all
    → find_by_id j (erase_by_id id all) ≡ (if str_eq id j then none else find_by_id j all)
unfolding find_by_id erase_by_id
find_by_id-erase_by_id j id [] h = ground arith
find_by_id-erase_by_id j id (t ∷ all) h =
    ground (arith, eq_iff t.id id, eq_iff t.id j, eq_iff id j, find_by_id-erase_by_id j id all h.1)

erase_by_id-HasIdsOnce :
    (id : String) (all : List Sequence) → HasIdsOnce all → HasIdsOnce (erase_by_id id all)
unfolding find_by_id erase_by_id
erase_by_id-HasIdsOnce id [] h = tt
erase_by_id-HasIdsOnce id (t ∷ all) h = ground (
  arith,
  eq_iff t.id id,
  find_by_id-erase_by_id t.id id all h.1,
  erase_by_id-HasIdsOnce id all h.1,
)

module _ (lib : ArduinoJson) where
  find_by_id-map-mark :
      (f : String → Option (List ParamDef)) (j : String) (all : List Sequence)
      → find_by_id j (map (mark lib f) all) ≡ Option.map (mark lib f) (find_by_id j all)
  unfolding find_by_id
  find_by_id-map-mark f j [] = refl
  find_by_id-map-mark f j (t ∷ all) = ground (arith, mark_id lib f t, find_by_id-map-mark f j all)

  map-mark-HasIdsOnce :
      (f : String → Option (List ParamDef)) (all : List Sequence)
      → HasIdsOnce all
      → HasIdsOnce (map (mark lib f) all)
  map-mark-HasIdsOnce f [] h = tt
  map-mark-HasIdsOnce f (t ∷ all) h =
      (rw (mark_id lib f t, find_by_id-map-mark f t.id all, h.0), map-mark-HasIdsOnce f all h.1)

  find_by_id-validate :
      (j : String) (all : List Sequence)
      → find_by_id j (validate lib all) ≡ Option.map (mark lib (callees_in all)) (find_by_id j all)
  find_by_id-validate j all = rw (validate-map lib all) (find_by_id-map-mark (callees_in all) j all)

  validate-HasIdsOnce : (all : List Sequence) → HasIdsOnce all → HasIdsOnce (validate lib all)
  validate-HasIdsOnce all h = rw (validate-map lib all) (map-mark-HasIdsOnce (callees_in all) all h)

  module _ {G : Type 0} (rand : G → ℕ × G) (s : Sequence) (all : List Sequence) (g : G) where
    with_id_named : s.id ≢ "" → (with_id rand s g).0 ≡ s
    with_id_named named = ground (arith, eq_iff s.id "")

    -- Where ids stand once, behind an `upsert` of a sequence with an id, a lookup of that id finds the new sequence and
    -- one of another id finds what it found before, each marked by the validation of the new list;
    -- no id comes to stand twice.
    pub upsert-find_by_id :
        (j : String)
        → s.id ≢ ""
        → HasIdsOnce all
        → (find_by_id j (upsert lib rand s all g).1
            ≡ Option.map
                (mark lib (callees_in (put s all)))
                (if str_eq s.id j then some s else find_by_id j all))
          × HasIdsOnce (upsert lib rand s all g).1
    unfolding upsert
    upsert-find_by_id j named once = rw (with_id_named named) (
      find_by_id-validate j (put s all)
          ∙ ap (Option.map (mark lib (callees_in (put s all)))) (find_by_id-put j s all),
      validate-HasIdsOnce (put s all) (put-HasIdsOnce s all once),
    )

    passed_over :
        (j : String) (t : Sequence)
        → s.id ≢ j
        → find_by_id j all ≡ some t
        → (if str_eq s.id j then some s else find_by_id j all) ≡ some t
    passed_over j t other found = ground (arith, eq_iff s.id j)

    mark_broken :
        (f : String → Option (List ParamDef)) (t : Sequence) → t.broken ≡ true → mark lib f t ≡ t
    unfolding mark
    mark_broken f t h = ground arith

    -- A stored sequence that is broken stays so, with its reason, whatever other sequence
    -- with an id is upserted: also if that is the callee whose absence broke it.
    pub upsert_keeps_broken :
        (j : String) (t : Sequence)
        → s.id ≢ ""
        → s.id ≢ j
        → find_by_id j all ≡ some t
        → t.broken ≡ true
        → find_by_id j (upsert lib rand s all g).1 ≡ some t
    unfolding upsert
    upsert_keeps_broken j t named other found broken = rw (with_id_named named) (
        find_by_id-validate j (put s all)
        ∙ ap (Option.map (mark lib (callees_in (put s all))))
            (find_by_id-put j s all ∙ passed_over j t other found)
        ∙ ap some (mark_broken (callees_in (put s all)) t broken))

  -- Where ids stand once, `removeById` of a stored id answers true. Behind it that id is not found,
  -- any other is found as before, marked by the validation of the shorter list, and ids still stand
  -- once.
  pub remove_by_id-find_by_id :
      (id j : String) (all : List Sequence) (s : Sequence)
      → HasIdsOnce all
      → find_by_id id all ≡ some s
      → ((remove_by_id lib id all).0 ≡ true)
        × (find_by_id j (remove_by_id lib id all).1
            ≡ Option.map
                (mark lib (callees_in (erase_by_id id all)))
                (if str_eq id j then none else find_by_id j all))
        × HasIdsOnce (remove_by_id lib id all).1
  unfolding remove_by_id
  remove_by_id-find_by_id id j all s once found =
      let rest = erase_by_id id all in
      rw (found, remove_by_id)
        (
          refl,
          find_by_id-validate j rest
              ∙ ap (Option.map (mark lib (callees_in rest))) (find_by_id-erase_by_id j id all once),
          validate-HasIdsOnce rest (erase_by_id-HasIdsOnce id all once),
        )
