-- ===== src/System/Saved.antt =====
-- What the flash of a device holds while it runs: src/ApiServer.cpp saves what it changes.
use esp32_sequencer.Base.{
  ℕ, ◌<◌, ◌^◌, String, ◌≡◌, refl, sym, ◌∙◌, ◌⊎◌, inl, inr, Bool-cases, Bool, true, false, Option,
  none, some, List, [], ◌∷◌, All, str_eq,
}
use mathlib.Core.Bool.{false≢true}
use esp32_sequencer.Json.{Json, arr, Items, ArduinoJson}
use esp32_sequencer.Model.{Sequence, TriggerBinding}
use esp32_sequencer.Registry.{Registry}
use esp32_sequencer.Codec.{decode_list, decode_triggers, encode_list, encode_triggers}
use esp32_sequencer.Codec.RoundTrip.{IsSequence}
use esp32_sequencer.Codec.Ordered.{decode_list-IsSequence}
use esp32_sequencer.Store.{
  Persistence, put, validate, with_id, remove_by_id, upsert, replace_all, replace_triggers,
  save_sequences, save_triggers,
}
use esp32_sequencer.Store.Order.{
  IsSequence-Stable, validate-All, put-All, remove_by_id-All, remove_by_id-missing, with_id-Stable,
  replace_all-All,
}
use esp32_sequencer.Device.{Hardware, Device, store_sequences, store_triggers}
use esp32_sequencer.Api.{
  upsert_first, removed, post_run, post_run_json, put_sequences, put_sequence, delete_sequence,
  put_triggers,
}
use esp32_sequencer.System.{
  ble_hit, route_request, Step, sequences_put, sequence_put, sequence_deleted, triggers_put,
  run_posted, run_posted_json, hit, requested, looped, Reach, here, next,
}
use esp32_sequencer.System.Unchanged.{
  Unchanged, ble_hit-Unchanged, route_request-Unchanged, post_run-Unchanged,
  post_run_json-Unchanged, loop_step-Unchanged,
}

module _ {P : Type 0} (persistence : Persistence P) where
  -- The flash holds a text under a key, where it is one that the flash takes.
  abbrev pub Holds : String → String → P → Type 0
  Holds key text p = (persistence.holds text ≡ false) ⊎ (persistence.load key p ≡ text)

  pub saved-Holds : (key text : String) (p : P) → Holds key text (persistence.save key text p)
  saved-Holds key text p = elim (Bool-cases (persistence.holds text)) [
    | inl fits ↦ inr (persistence.load-save key text p fits)
    | inr long ↦ inl long
  ]

  pub Holds-when :
      (key text : String) (p : P)
      → Holds key text p
      → persistence.holds text ≡ true
      → persistence.load key p ≡ text
  Holds-when key text p (inl long) fits = absurd (false≢true (sym long ∙ fits))
  Holds-when key text p (inr h) fits = h

  Holds-apart :
      (j k text blob : String) (p : P)
      → persistence.load j (persistence.save k blob p) ≡ persistence.load j p
      → Holds j text p
      → Holds j text (persistence.save k blob p)
  Holds-apart j k text blob p same (inl long) = inl long
  Holds-apart j k text blob p same (inr h) = inr (same ∙ h)

module _ {W P G : Type 0} (lib : ArduinoJson) (persistence : Persistence P) where
  -- The flash holds the texts of the sequences and of the bindings, and the sequences are in order.
  abbrev pub Saved : Device W P G → Type 0
  Saved d =
      (persistence.load "sequences" d.flash ≡ lib.serialize (encode_list d.sequences))
      × (persistence.load "triggers" d.flash ≡ lib.serialize (encode_triggers d.triggers))
      × All IsSequence d.sequences

  -- The flash holds the texts of the sequences and of the bindings, each where it is one that the
  -- flash takes, and the sequences are in order.
  abbrev pub Kept : Device W P G → Type 0
  Kept d =
      Holds persistence "sequences" (lib.serialize (encode_list d.sequences)) d.flash
      × Holds persistence "triggers" (lib.serialize (encode_triggers d.triggers)) d.flash
      × All IsSequence d.sequences

  pub Kept-Saved :
      (d : Device W P G)
      → persistence.holds (lib.serialize (encode_list d.sequences)) ≡ true
      → persistence.holds (lib.serialize (encode_triggers d.triggers)) ≡ true
      → Kept d
      → Saved d
  Kept-Saved d s t h = (
    Holds-when persistence "sequences" _ d.flash h.0 s,
    Holds-when persistence "triggers" _ d.flash h.1 t,
    h.2,
  )

  pub Unchanged-Kept : (d d' : Device W P G) → Unchanged d d' → Kept d → Kept d'
  Unchanged-Kept d d' (s, t, f) h = rw (s, t, f) h

  -- What is saved under one key leaves the other as it was.
  module _
      (apart : (j k blob : String) (p : P)
        → str_eq k j ≡ false
        → persistence.load j (persistence.save k blob p) ≡ persistence.load j p) where
    pub sequences-Kept :
        (ss : List Sequence) (g : G) (d : Device W P G)
        → All IsSequence ss
        → Holds persistence "triggers" (lib.serialize (encode_triggers d.triggers)) d.flash
        → Kept (record d {
          sequences = ss;
          random = g;
          flash = save_sequences lib persistence ss d.flash;
        })
    unfolding save_sequences
    sequences-Kept ss g d h t = (
      saved-Holds persistence "sequences" (lib.serialize (encode_list ss)) d.flash,
      Holds-apart persistence "triggers" "sequences" (lib.serialize (encode_triggers d.triggers))
          (lib.serialize (encode_list ss)) d.flash
          (apart "triggers" "sequences" (lib.serialize (encode_list ss)) d.flash refl) t,
      h,
    )

    pub triggers-Kept :
        (ts : List TriggerBinding) (g : G) (d : Device W P G)
        → All IsSequence d.sequences
        → Holds persistence "sequences" (lib.serialize (encode_list d.sequences)) d.flash
        → Kept (record d {
          triggers = ts;
          random = g;
          flash = save_triggers lib persistence ts d.flash;
        })
    unfolding save_triggers
    triggers-Kept ts g d h s = (
      Holds-apart persistence "sequences" "triggers" (lib.serialize (encode_list d.sequences))
          (lib.serialize (encode_triggers ts)) d.flash
          (apart "sequences" "triggers" (lib.serialize (encode_triggers ts)) d.flash refl) s,
      saved-Holds persistence "triggers" (lib.serialize (encode_triggers ts)) d.flash,
      h,
    )

    module _ (rand : G → ℕ × G) (known : String → Bool)
        (bounded : (v : Json) (n : ℕ) → lib.as_uint v ≡ some n → n < 2 ^ 32) where
      removed-Kept :
          (o : Bool × List Sequence) (d : Device W P G)
          → All IsSequence o.1
          → (o.0 ≡ false → o.1 ≡ d.sequences)
          → Kept d
          → Kept (removed lib persistence rand o d).1
      removed-Kept (false, all) d a same h = rw (same refl) h
      removed-Kept (true, all) d a same h = sequences-Kept all d.random d a h.1

      delete_sequence-Kept :
          (id : Option String) (d : Device W P G)
          → Kept d
          → Kept (delete_sequence lib persistence rand id d).1
      unfolding delete_sequence
      delete_sequence-Kept none d h = h
      delete_sequence-Kept (some id) d h =
          removed-Kept (remove_by_id lib id d.sequences) d
            (remove_by_id-All IsSequence IsSequence-Stable lib id d.sequences h.2)
            (remove_by_id-missing IsSequence IsSequence-Stable lib id d.sequences) h

      upsert_first-Kept :
          (ss : List Sequence) (d : Device W P G)
          → All IsSequence ss
          → Kept d
          → Kept (upsert_first lib persistence rand ss d).1
      unfolding upsert
      upsert_first-Kept [] d a h = h
      upsert_first-Kept (s ∷ ss) d a h =
          let (s', g) = with_id rand s d.random in
          sequences-Kept (validate lib (put s' d.sequences)) g d
            (validate-All IsSequence IsSequence-Stable lib _ (
              put-All IsSequence IsSequence-Stable s' d.sequences
                (with_id-Stable IsSequence IsSequence-Stable rand s d.random a.0) h.2))
            h.1

      put_sequence-Kept :
          (json : Json) (d : Device W P G)
          → Kept d
          → Kept (put_sequence lib persistence rand known json d).1
      unfolding put_sequence
      put_sequence-Kept json d h =
          upsert_first-Kept _ d
            (decode_list-IsSequence lib known bounded (arr (Items.cons json Items.nil))) h

      pub store_sequences-Kept :
          (ss : List Sequence) (d : Device W P G)
          → All IsSequence ss
          → Holds persistence "triggers" (lib.serialize (encode_triggers d.triggers)) d.flash
          → Kept (store_sequences lib persistence rand ss d)
      store_sequences-Kept ss d a t =
          let (ss', g) = replace_all lib rand ss d.random in
          sequences-Kept ss' g d
            (replace_all-All IsSequence IsSequence-Stable rand lib ss d.random a) t

      put_sequences-Kept :
          (json : Json) (d : Device W P G)
          → Kept d
          → Kept (put_sequences lib persistence rand known json d).1
      unfolding put_sequences
      put_sequences-Kept json d h =
          store_sequences-Kept (decode_list lib known json)
            (record d { sequences = []; random = (replace_all lib rand [] d.random).1 })
            (decode_list-IsSequence lib known bounded json) h.1

      pub store_triggers-Kept :
          (ts : List TriggerBinding) (d : Device W P G)
          → All IsSequence d.sequences
          → Holds persistence "sequences" (lib.serialize (encode_list d.sequences)) d.flash
          → Kept (store_triggers lib persistence rand ts d)
      store_triggers-Kept ts d a s =
          let (ts', g) = replace_triggers rand ts d.random in triggers-Kept ts' g d a s

      put_triggers-Kept :
          (registry : Registry W) (json : Json) (d : Device W P G)
          → Kept d
          → Kept (put_triggers lib persistence rand registry json d).1
      unfolding put_triggers
      put_triggers-Kept registry json d h = store_triggers-Kept (decode_triggers lib json) d h.2 h.0

      Step-Kept :
          (hw : Hardware W) (registry : Registry W) {d d' : Device W P G}
          → Step hw lib registry persistence rand known d d'
          → Kept d
          → Kept d'
      Step-Kept hw registry (sequences_put json d) h = put_sequences-Kept json d h
      Step-Kept hw registry (sequence_put json d) h = put_sequence-Kept json d h
      Step-Kept hw registry (sequence_deleted id d) h = delete_sequence-Kept id d h
      Step-Kept hw registry (triggers_put json d) h = put_triggers-Kept registry json d h
      Step-Kept hw registry (run_posted id d) h =
          Unchanged-Kept d (post_run id d).1 (post_run-Unchanged id d) h
      Step-Kept hw registry (run_posted_json id json d) h =
          Unchanged-Kept d (post_run_json id json d).1 (post_run_json-Unchanged id json d) h
      Step-Kept hw registry (hit now mac d) h =
          Unchanged-Kept d (ble_hit now mac d) (ble_hit-Unchanged now mac d) h
      Step-Kept hw registry (requested params id d) h =
          Unchanged-Kept d (route_request params id d).1 (route_request-Unchanged params id d) h
      Step-Kept hw registry (looped fuel d d' e) h =
          Unchanged-Kept d d' (loop_step-Unchanged hw lib registry fuel d d' e) h

      -- Where the flash keeps its keys apart and loads the texts that are short enough for it as
      -- they were saved, and the library reads as `uint32_t` only what is below 2 ^ 32: take a
      -- device whose sequences are in order, and whose flash holds the text of its sequences and
      -- that of its bindings, each unless it is too long for the flash. Every device that requests,
      -- hits and rounds of the loop lead to is such a device. A save of a text that is too long may
      -- leave anything under its key.
      pub Reach-Kept :
          (hw : Hardware W) (registry : Registry W) {d d' : Device W P G}
          → Reach hw lib registry persistence rand known d d'
          → Kept d
          → Kept d'
      Reach-Kept hw registry here h = h
      Reach-Kept hw registry (next r s) h = Step-Kept hw registry s (Reach-Kept hw registry r h)
