-- ===== src/System/Restart.antt =====
-- A restart of a device (src/main.cpp): what it loads is what it had.
use esp32_sequencer.Base.{
  ℕ, ◌<◌, ◌^◌, String, ◌≡◌, refl, sym, ap, ◌∙◌, inr, Bool, true, false, Option, none, some, List,
  [], ◌∷◌, map, All, str_eq, arith, if◌then◌else◌,
}
use esp32_sequencer.Json.{Json, ArduinoJson, IsLawful}
use esp32_sequencer.Model.{ParamDef, Sequence}
use esp32_sequencer.Codec.{encode_sequence, encode_list, encode_triggers}
use esp32_sequencer.Codec.RoundTrip.{reread, IsSequence, decode_list-encode_list}
use esp32_sequencer.Codec.Again.{encode_list-reread, encode_list-map}
use esp32_sequencer.Codec.Ordered.{decode_list-IsSequence}
use esp32_sequencer.Store.{Persistence, marked, mark, callees_in, validate, save_sequences}
use esp32_sequencer.Store.Validate.{validate-map}
use esp32_sequencer.Store.Order.{IsSequence-Stable, validate-All, replace_all-All}
use esp32_sequencer.Store.Reload.{PrintsBack, load_sequences_lem, load_triggers_lem}
use esp32_sequencer.Defaults.{leaf, default_sequences, default_triggers}
use esp32_sequencer.Device.{Hardware, Device, is_empty, store_sequences, seed_defaults_if_empty}
use esp32_sequencer.Registry.{Registry}
use esp32_sequencer.System.{Reach}
use esp32_sequencer.Device.Boot.{powered, enter_runtime_mode}
use esp32_sequencer.System.Saved.{
  Saved, Kept, Kept-Saved, saved-Holds, store_triggers-Kept, Reach-Kept,
}

default_sequences-IsSequence : All IsSequence default_sequences
unfolding default_sequences leaf
default_sequences-IsSequence =
    ((omega arith, ((tt, tt), ((tt, tt), (((tt, tt), (((tt, tt), tt), tt)), ((tt, tt), tt))))), tt)

encode_marked :
    (s : Sequence) (o : Option String) → encode_sequence (marked s o) ≡ encode_sequence s
unfolding encode_sequence
encode_marked s none = refl
encode_marked s (some reason) = refl

encode_if :
    (b : Bool) (s t : Sequence)
    → encode_sequence t ≡ encode_sequence s
    → encode_sequence (if b then s else t) ≡ encode_sequence s
encode_if true s t h = refl
encode_if false s t h = h

encode_sequence-mark :
    (lib : ArduinoJson) (f : String → Option (List ParamDef)) (s : Sequence)
    → encode_sequence (mark lib f s) ≡ encode_sequence s
unfolding mark
encode_sequence-mark lib f s = encode_if s.broken s _ (encode_marked s _)

encode_list-validate :
    (lib : ArduinoJson) (ss : List Sequence) → encode_list (validate lib ss) ≡ encode_list ss
encode_list-validate lib ss =
    rw (validate-map lib ss)
      (encode_list-map (mark lib (callees_in ss)) ss (encode_sequence-mark lib (callees_in ss)))

is_empty-map {ℓ} : {A : Type ℓ} (f : A → A) (xs : List A) → is_empty (map f xs) ≡ is_empty xs
is_empty-map f [] = refl
is_empty-map f (x ∷ xs) = refl

is_empty-validate :
    (lib : ArduinoJson) (ss : List Sequence) → is_empty (validate lib ss) ≡ is_empty ss
is_empty-validate lib ss = rw (validate-map lib ss) (is_empty-map (mark lib (callees_in ss)) ss)

reread-IsSequence :
    (lib : ArduinoJson) (known : String → Bool) (ss : List Sequence)
    → IsLawful lib
    → ((v : Json) (n : ℕ) → lib.as_uint v ≡ some n → n < 2 ^ 32)
    → All IsSequence ss
    → All IsSequence (map (reread known) ss)
reread-IsSequence lib known ss lawful bounded h =
    rw⁻¹ (decode_list-encode_list lib lawful known ss h)
      (decode_list-IsSequence lib known bounded (encode_list ss))

-- What the sequences of a device are after a restart.
abbrev pub reloaded : ArduinoJson → (String → Bool) → List Sequence → List Sequence
reloaded lib known ss = validate lib (map (reread known) ss)

is_empty-reloaded :
    (lib : ArduinoJson) (known : String → Bool) (ss : List Sequence)
    → is_empty (reloaded lib known ss) ≡ is_empty ss
is_empty-reloaded lib known ss =
    is_empty-validate lib (map (reread known) ss) ∙ is_empty-map (reread known) ss

encode_list-reloaded :
    (lib : ArduinoJson) (known : String → Bool) (ss : List Sequence)
    → encode_list (reloaded lib known ss) ≡ encode_list ss
encode_list-reloaded lib known ss =
    encode_list-validate lib (map (reread known) ss) ∙ encode_list-reread known ss

module _ {W P G : Type 0} (lib : ArduinoJson) (persistence : Persistence P) (rand : G → ℕ × G) where
  seed_none :
      (d : Device W P G)
      → is_empty d.sequences ≡ false
      → is_empty d.triggers ≡ false
      → seed_defaults_if_empty lib persistence rand d ≡ d
  unfolding seed_defaults_if_empty
  seed_none d s t = ground (arith, s, t)

  -- Where the library reads values as documented, and as `uint32_t` only what is below 2 ^ 32, and
  -- parses what it printed of the device's sequences and bindings: a device that is saved and has
  -- some sequence and some binding restarts with its bindings, and with its sequences as a reader
  -- of them sees them, marked by the validation; and it is saved again.
  pub enter_runtime_mode-Saved :
      (known : String → Bool) (d : Device W P G) (g : G) (w : W)
      → IsLawful lib
      → ((v : Json) (n : ℕ) → lib.as_uint v ≡ some n → n < 2 ^ 32)
      → Saved lib persistence d
      → is_empty d.sequences ≡ false
      → is_empty d.triggers ≡ false
      → PrintsBack lib (encode_list d.sequences)
      → PrintsBack lib (encode_triggers d.triggers)
      → let d' = enter_runtime_mode lib persistence rand known (powered d.flash g w) in
        (d'.sequences ≡ validate lib (map (reread known) d.sequences))
        × (d'.triggers ≡ d.triggers)
        × Saved lib persistence d'
  unfolding enter_runtime_mode powered
  enter_runtime_mode-Saved known d g w lawful bounded h some_sequence some_trigger prints prints' =
      let s = load_sequences_lem lib lawful persistence known d.sequences d.flash h.0 h.2 prints in
      let t = load_triggers_lem lib lawful persistence d.triggers d.flash h.1 prints' in
      let same =
        seed_none
          (record (powered d.flash g w) {
            sequences = reloaded lib known d.sequences;
            triggers = d.triggers;
          })
          (is_empty-reloaded lib known d.sequences ∙ some_sequence) some_trigger in
      let again = encode_list-reloaded lib known d.sequences in
      rw (s, t, same)
        (
          refl,
          refl,
          (
            h.0 ∙ ap lib.serialize (sym again),
            h.1,
            validate-All IsSequence IsSequence-Stable lib (map (reread known) d.sequences)
                (reread-IsSequence lib known d.sequences lawful bounded h.2),
          ),
        )

  -- A device that finds nothing in its flash keeps the defaults in it, each text where it fits.
  pub seeded-Kept :
      (apart : (j k blob : String) (p : P)
        → str_eq k j ≡ false
        → persistence.load j (persistence.save k blob p) ≡ persistence.load j p)
      (bounded : (v : Json) (n : ℕ) → lib.as_uint v ≡ some n → n < 2 ^ 32) (known : String → Bool)
      (d : Device W P G)
      → is_empty d.sequences ≡ true
      → is_empty d.triggers ≡ true
      → Kept lib persistence (seed_defaults_if_empty lib persistence rand d)
  unfolding seed_defaults_if_empty save_sequences
  seeded-Kept apart bounded known d s t =
      let d' = store_sequences lib persistence rand default_sequences d in
      rw (s, t)
        (store_triggers-Kept lib persistence apart rand known bounded default_triggers d'
          (replace_all-All IsSequence IsSequence-Stable rand lib default_sequences d.random
            default_sequences-IsSequence)
          (saved-Holds persistence "sequences" (lib.serialize (encode_list d'.sequences)) d.flash))

-- Where the flash keeps its keys apart and loads the texts that are short enough for it as they were
-- saved, and the library reads values as documented, as `uint32_t` only what is below 2 ^ 32, and
-- parses what it printed: take a device whose sequences are in order and whose flash holds the texts
-- of its sequences and bindings, and any device that requests, hits and rounds of the loop lead to.
-- If that one has some sequence and some binding, and the texts of its sequences and of its bindings
-- are short enough, it restarts with its bindings, and with its sequences as a reader of them sees
-- them, marked by the validation.
pub enter_runtime_mode-Reach :
    {W P G : Type 0} (lib : ArduinoJson) (persistence : Persistence P) (rand : G → ℕ × G)
    (known : String → Bool) (hw : Hardware W) (registry : Registry W) (d d' : Device W P G) (g : G)
    (w : W)
    → ((j k blob : String) (p : P)
        → str_eq k j ≡ false
        → persistence.load j (persistence.save k blob p) ≡ persistence.load j p)
    → IsLawful lib
    → ((v : Json) (n : ℕ) → lib.as_uint v ≡ some n → n < 2 ^ 32)
    → Saved lib persistence d
    → Reach hw lib registry persistence rand known d d'
    → is_empty d'.sequences ≡ false
    → is_empty d'.triggers ≡ false
    → persistence.holds (lib.serialize (encode_list d'.sequences)) ≡ true
    → persistence.holds (lib.serialize (encode_triggers d'.triggers)) ≡ true
    → PrintsBack lib (encode_list d'.sequences)
    → PrintsBack lib (encode_triggers d'.triggers)
    → let e = enter_runtime_mode lib persistence rand known (powered d'.flash g w) in
      (e.sequences ≡ validate lib (map (reread known) d'.sequences)) × (e.triggers ≡ d'.triggers)
enter_runtime_mode-Reach lib persistence rand known hw registry d d' g w apart lawful bounded saved
      reach some_sequence some_trigger fits fits' prints prints' =
    let kept =
      Reach-Kept lib persistence apart rand known bounded hw registry reach
        (inr saved.0, inr saved.1, saved.2) in
    let r =
      enter_runtime_mode-Saved lib persistence rand known d' g w lawful bounded
        (Kept-Saved lib persistence d' fits fits' kept) some_sequence some_trigger prints prints' in
    (r.0, r.1)
