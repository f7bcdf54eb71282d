-- ===== src/System/Started.antt =====
-- Runs on a device that has started as src/main.cpp starts it, and the blocks that they ask for.
use mathlib.Core.Path.{subst}
use mathlib.Core.Option.{some-injective}
use esp32_sequencer.Base.{
  ℕ, String, ◌≡◌, refl, sym, ap, ◌∙◌, Bool, true, false, not, ◌&&◌, Option, none, some, List, [],
  ◌∷◌, All, Bool-cases, inl, inr, str_eq, if◌then◌else◌,
}
use esp32_sequencer.Base.Map.{Map}
use esp32_sequencer.Json.{Json, ArduinoJson}
use esp32_sequencer.Model.{Sequence}
use esp32_sequencer.Registry.{Block, Registry, resolve_block}
use esp32_sequencer.Codec.{decode_list, decode_list_text}
use esp32_sequencer.Codec.Known.{IsSound, decode_list-IsSound}
use esp32_sequencer.Store.{Persistence, find_by_id, load_sequences, load_triggers}
use esp32_sequencer.Store.Order.{IsSound-Stable, validate-All, replace_all-All}
use esp32_sequencer.Defaults.{leaf, default_sequences, default_triggers}
use esp32_sequencer.Interp.Known.{registered, FindsSound, run_sequence-with_blocks}
use esp32_sequencer.Device.{
  Hardware, Device, is_empty, run_env, store_sequences, store_triggers, seed_defaults_if_empty,
}
use esp32_sequencer.Device.Boot.{enter_runtime_mode}
use esp32_sequencer.Device.Runs.{run_of}
use esp32_sequencer.System.{Reach}
use esp32_sequencer.System.Sound.{AllSound, Reach-AllSound}

find_by_id-All :
    (P : Sequence → Type 0) (id : String) (ss : List Sequence) (s : Sequence)
    → find_by_id id ss ≡ some s
    → All P ss
    → P s
unfolding find_by_id
find_by_id-All P id [] s h all = absurd (none_is_some h)
  where
    none_is_some : none ≡ some s → ⊥
    none_is_some e = cc
find_by_id-All P id (t ∷ ts) s h all = elim (Bool-cases (str_eq t.id id)) [
  | inl e ↦
      subst P (some-injective t s (sym (ap (λ b. if b then some t else find_by_id id ts) e) ∙ h))
        all.0
  | inr e ↦
      find_by_id-All P id ts s (sym (ap (λ b. if b then some t else find_by_id id ts) e) ∙ h) all.1
]

module _ (known : String → Bool) where
  decode_list_text-All :
      (lib : ArduinoJson) (text : String) → All (IsSound known) (decode_list_text lib known text)
  unfolding decode_list_text
  decode_list_text-All lib text = by_document (lib.deserialize text)
    where
      by_document :
          (o : Option Json)
          → All (IsSound known) (elim o [ none ↦ [] | some doc ↦ decode_list lib known doc ])
      by_document none = tt
      by_document (some doc) = decode_list-IsSound known lib doc

  default_sequences-All : known "wait" ≡ true → All (IsSound known) default_sequences
  unfolding default_sequences leaf
  default_sequences-All h =
      (λ _. ((refl, tt), ((h, tt), ((refl, (((h, tt), tt), tt)), ((refl, tt), tt)))), tt)

module _ {W P G : Type 0} (lib : ArduinoJson) (persistence : Persistence P) (rand : G → ℕ × G)
    (known : String → Bool) where
  if-AllSound :
      (b : Bool) (d e : Device W P G)
      → AllSound known d
      → AllSound known e
      → AllSound known (if b then d else e)
  if-AllSound true d e h k = h
  if-AllSound false d e h k = k

  store_sequences-AllSound :
      (d : Device W P G)
      → known "wait" ≡ true
      → AllSound known (store_sequences lib persistence rand default_sequences d)
  store_sequences-AllSound d h =
      replace_all-All (IsSound known) (IsSound-Stable known) rand lib default_sequences d.random
        (default_sequences-All known h)

  seed_defaults_if_empty-AllSound :
      (d : Device W P G)
      → known "wait" ≡ true
      → AllSound known d
      → AllSound known (seed_defaults_if_empty lib persistence rand d)
  unfolding seed_defaults_if_empty
  seed_defaults_if_empty-AllSound d h sound =
      if-AllSound (not (is_empty d.sequences) && not (is_empty d.triggers)) d _ sound (
        if-AllSound (is_empty seeded.triggers)
          (store_triggers lib persistence rand default_triggers seeded) seeded seeded-AllSound
          seeded-AllSound)
    where
      seeded : Device W P G
      seeded =
          if is_empty d.sequences
          then store_sequences lib persistence rand default_sequences d
          else d

      seeded-AllSound : AllSound known seeded
      seeded-AllSound = if-AllSound (is_empty d.sequences) _ d (store_sequences-AllSound d h) sound

  enter_runtime_mode-AllSound :
      (d : Device W P G)
      → known "wait" ≡ true
      → AllSound known (enter_runtime_mode lib persistence rand known d)
  unfolding enter_runtime_mode load_sequences
  enter_runtime_mode-AllSound d h =
      seed_defaults_if_empty-AllSound
        (record d {
          sequences = load_sequences lib persistence known d.flash;
          triggers = load_triggers lib persistence d.flash;
        })
        h
        (validate-All (IsSound known) (IsSound-Stable known) lib _
          (decode_list_text-All known lib _))

module _ {W P G : Type 0} (lib : ArduinoJson) (persistence : Persistence P) (rand : G → ℕ × G)
    (hw : Hardware W) (registry : Registry W) where
  run_env-FindsSound :
      (d : Device W P G) → AllSound (registered registry) d → FindsSound (run_env hw lib registry d)
  run_env-FindsSound d sound lookup sid s e found whole =
      find_by_id-All (IsSound (registered registry)) sid d.sequences s
        (ap (λ f. f sid) (some-injective (λ id. find_by_id id d.sequences) lookup e) ∙ found) sound
        whole

  -- On a device that has started with its registered blocks, `wait` among them, and behind any
  -- requests, hits and rounds of the loop: the run of a stored sequence that is not broken, the runs
  -- of the sequences that it calls included, asks for registered blocks only. Whatever blocks
  -- are registered besides, for the types that are not registered, the run stays as it is.
  pub run_of-registered :
      (fuel : ℕ) (d e : Device W P G) (id : String) (s : Sequence) (more : Map (Block W))
      → registered registry "wait" ≡ true
      → Reach hw lib registry persistence rand
          (registered registry)
          (enter_runtime_mode lib persistence rand (registered registry) d)
          e
      → find_by_id id e.sequences ≡ some s
      → s.broken ≡ false
      → ((t : String) (b : Block W)
          → resolve_block t registry ≡ some b
          → resolve_block t (record registry { blocks = more }) ≡ some b)
      → run_of hw lib registry fuel e s ≡ run_of hw lib (record registry { blocks = more }) fuel e s
  run_of-registered fuel d e id s more wait reach found whole extends =
      let sound =
        Reach-AllSound (registered registry) lib persistence rand hw registry reach
          (enter_runtime_mode-AllSound lib persistence rand (registered registry) d wait) in
      run_sequence-with_blocks (run_env hw lib registry e) more extends fuel s e.pending_args _
        (run_env-FindsSound e sound)
        (find_by_id-All (IsSound (registered registry)) id e.sequences s found sound whole)
