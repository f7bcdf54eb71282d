-- ===== src/Store/Order.antt =====
-- Properties of every sequence under the operations of src/core/SequenceStore.cpp.
use mathlib.Core.Bool.{false≢true}
use esp32_sequencer.Base.{
  ℕ, String, ◌≡◌, refl, sym, Bool, true, false, Option, none, some, List, [], ◌∷◌, map, All, str_eq,
  if◌then◌else◌, Bool-cases, Option-cases, inl, inr,
}
use esp32_sequencer.Json.{ArduinoJson}
use esp32_sequencer.Model.{ParamDef, Sequence}
use esp32_sequencer.Codec.RoundTrip.{IsSequence}
use esp32_sequencer.Codec.Known.{IsSound}
use esp32_sequencer.Store.{
  find_by_id, put, erase_by_id, marked, mark, callees_in, validate, with_id, assign_ids,
  remove_by_id, replace_all,
}
use esp32_sequencer.Store.Validate.{validate-map}

abbrev pub Stable : (Sequence → Type 0) → Type 0
Stable P =
    ((s : Sequence) (id : String) → P s → P (record s { id = id }))
    × ((s : Sequence) (reason : String)
        → P s
        → P (record s { broken = true; broken_reason = reason }))

pub IsSequence-Stable : Stable IsSequence
IsSequence-Stable = (λ s id h. h, λ s reason h. h)

pub IsSound-Stable : (known : String → Bool) → Stable (IsSound known)
IsSound-Stable known = (λ s id h. h, λ s reason h e. absurd (false≢true (sym e)))

module _ (P : Sequence → Type 0) (stable : Stable P) where
  marked-Stable : (s : Sequence) (o : Option String) → P s → P (marked s o)
  marked-Stable s none h = h
  marked-Stable s (some reason) h = stable.1 s reason h

  if-Stable : (b : Bool) (s t : Sequence) → P s → P t → P (if b then s else t)
  if-Stable true s t h k = h
  if-Stable false s t h k = k

  mark-Stable :
      (lib : ArduinoJson) (f : String → Option (List ParamDef)) (s : Sequence)
      → P s
      → P (mark lib f s)
  unfolding mark
  mark-Stable lib f s h = if-Stable s.broken s _ h (marked-Stable s _ h)

  map-All :
      (lib : ArduinoJson) (f : String → Option (List ParamDef)) (ss : List Sequence)
      → All P ss
      → All P (map (mark lib f) ss)
  map-All lib f [] h = tt
  map-All lib f (s ∷ ss) h = (mark-Stable lib f s h.0, map-All lib f ss h.1)

  pub validate-All : (lib : ArduinoJson) (ss : List Sequence) → All P ss → All P (validate lib ss)
  validate-All lib ss h = rw (validate-map lib ss) (map-All lib (callees_in ss) ss h)

  pub put-All : (s : Sequence) (ss : List Sequence) → P s → All P ss → All P (put s ss)
  unfolding put
  put-All s [] h k = (h, tt)
  put-All s (t ∷ ss) h k = elim (Bool-cases (str_eq t.id s.id)) [
    | inl same ↦ rw same (h, k.1)
    | inr other ↦ rw other (k.0, put-All s ss h k.1)
  ]

  erase_by_id-All : (id : String) (ss : List Sequence) → All P ss → All P (erase_by_id id ss)
  unfolding erase_by_id
  erase_by_id-All id [] h = tt
  erase_by_id-All id (s ∷ ss) h = elim (Bool-cases (str_eq s.id id)) [
    | inl same ↦ rw same h.1
    | inr other ↦ rw other (h.0, erase_by_id-All id ss h.1)
  ]

  pub remove_by_id-All :
      (lib : ArduinoJson) (id : String) (ss : List Sequence)
      → All P ss
      → All P (remove_by_id lib id ss).1
  unfolding remove_by_id
  remove_by_id-All lib id ss h = elim (Option-cases (find_by_id id ss)) [
    | inl missing ↦ rw (missing, All, remove_by_id) h
    | inr (s, there) ↦
        rw (there, All, remove_by_id)
          (validate-All lib (erase_by_id id ss) (erase_by_id-All id ss h))
  ]

  pub remove_by_id-missing :
      (lib : ArduinoJson) (id : String) (ss : List Sequence)
      → (remove_by_id lib id ss).0 ≡ false
      → (remove_by_id lib id ss).1 ≡ ss
  unfolding remove_by_id
  remove_by_id-missing lib id ss = elim (Option-cases (find_by_id id ss)) [
    | inl missing ↦ rw (missing, remove_by_id) (λ _. refl)
    | inr (s, there) ↦ rw (there, remove_by_id) (λ e. cc)
  ]

  module _ {G : Type 0} (rand : G → ℕ × G) where
    pub with_id-Stable : (s : Sequence) (g : G) → P s → P (with_id rand s g).0
    with_id-Stable s g h = elim (Bool-cases (str_eq s.id "")) [
      | inl new ↦ rw new (stable.0 s _ h)
      | inr old ↦ rw old h
    ]

    assign_ids-All : (ss : List Sequence) (g : G) → All P ss → All P (assign_ids rand ss g).0
    unfolding assign_ids
    assign_ids-All [] g h = tt
    assign_ids-All (s ∷ ss) g h =
        (with_id-Stable s g h.0, assign_ids-All ss (with_id rand s g).1 h.1)

    pub replace_all-All :
        (lib : ArduinoJson) (ss : List Sequence) (g : G)
        → All P ss
        → All P (replace_all lib rand ss g).0
    unfolding replace_all
    replace_all-All lib ss g h = validate-All lib _ (assign_ids-All ss g h)
