-- ===== src/Program/Order.antt =====
-- The order in which the blocks of src/adapters/blocks register themselves.
use mathlib.Core.Path.{subst}
use mathlib.Core.Bool.{false≢true}
use esp32_sequencer.Base.{
  String, ◌≡◌, refl, sym, ap, ◌∙◌, ◌⊎◌, inl, inr, Bool, true, false, not, ◌&&◌, some, List, [], ◌∷◌,
  All, str_eq, eq_iff, eq_refl, Bool-cases, if◌then◌else◌,
}
use esp32_sequencer.Base.Map.{find-insert}
use esp32_sequencer.Json.{ArduinoJson}
use esp32_sequencer.Registry.{
  Block, Registry, register_block, register_predicate, register_trigger, resolve_block,
}
use esp32_sequencer.Blocks.{
  Board, divider_block, repeat_block, if_block, wait_for_trigger_block, log_block, wait_block,
  wol_block,
}
use esp32_sequencer.Blocks.Wifi.{wifi_hop_schema}
use esp32_sequencer.Blocks.Ws.{ws_send_schema}
use esp32_sequencer.Blocks.Http.{http_request_schema}
use esp32_sequencer.Blocks.Samsung.{samsung_schema}
use esp32_sequencer.Program.{
  Network, blocks, predicates, empty_registry, register_blocks, register_predicates,
  program_registry,
}

not_and : (a b : Bool) → (not a && b) ≡ true → (a ≡ false) × (b ≡ true)
not_and true b h = absurd (false≢true h)
not_and false b h = (refl, h)

and_both : (a b : Bool) → (a && b) ≡ true → (a ≡ true) × (b ≡ true)
and_both true b h = (refl, h)
and_both false b h = absurd (false≢true h)

module _ {W : Type 0} where
  abbrev pub In : Block W → List (Block W) → Type 0
  In b [] = ⊥
  In b (c ∷ cs) = (b ≡ c) ⊎ In b cs

  -- No block of the list has the type.
  abbrev pub Lacks : String → List (Block W) → Type 0
  Lacks t bs = All (λ b. str_eq b.schema.type t ≡ false) bs

  abbrev pub HasTypesOnce : List (Block W) → Type 0
  HasTypesOnce [] = Unit
  HasTypesOnce (b ∷ bs) = Lacks b.schema.type bs × HasTypesOnce bs

  resolve_block-register_block :
      (t : String) (b : Block W) (r : Registry W)
      → resolve_block t (register_block b r)
        ≡ (if str_eq b.schema.type t then some b else resolve_block t r)
  unfolding resolve_block register_block
  resolve_block-register_block t b r = find-insert t b.schema.type b r.blocks

  resolve_block-Lacks :
      (t : String) (bs : List (Block W)) (r : Registry W)
      → Lacks t bs
      → resolve_block t (register_blocks bs r) ≡ resolve_block t r
  unfolding register_blocks
  resolve_block-Lacks t [] r h = refl
  resolve_block-Lacks t (b ∷ bs) r h =
      resolve_block-Lacks t bs (register_block b r) h.1
      ∙ resolve_block-register_block t b r
      ∙ ap (λ x. if x then some b else resolve_block t r) h.0

  pub resolve_block-In :
      (b : Block W) (bs : List (Block W)) (r : Registry W)
      → In b bs
      → HasTypesOnce bs
      → resolve_block b.schema.type (register_blocks bs r) ≡ some b
  unfolding register_blocks
  resolve_block-In b [] r i h = absurd i
  resolve_block-In b (c ∷ cs) r (inr i) h = resolve_block-In b cs (register_block c r) i h.1
  resolve_block-In b (c ∷ cs) r (inl e) h =
      resolve_block-Lacks b.schema.type cs (register_block c r)
        (subst (λ x. Lacks x.schema.type cs) (sym e) h.0)
      ∙ resolve_block-register_block b.schema.type c r
      ∙ ap (λ x. if x then some c else resolve_block b.schema.type r)
          (ap (λ x. str_eq c.schema.type x.schema.type) e ∙ eq_refl c.schema.type)
      ∙ ap some (sym e)

  In-or_Lacks :
      (t : String) (bs : List (Block W))
      → ((b : Block W) × In b bs × (b.schema.type ≡ t)) ⊎ Lacks t bs
  In-or_Lacks t [] = inr tt
  In-or_Lacks t (b ∷ bs) = elim (Bool-cases (str_eq b.schema.type t)) [
    | inl e ↦ inl (b, inl refl, (eq_iff b.schema.type t).0 e)
    | inr e ↦ elim (In-or_Lacks t bs) [ inl (c, i, f) ↦ inl (c, inr i, f) | inr h ↦ inr (e, h) ]
  ]

  Lacks-In : (b : Block W) (bs : List (Block W)) → In b bs → Lacks b.schema.type bs → ⊥
  Lacks-In b [] i h = i
  Lacks-In b (c ∷ cs) (inl e) h =
      false≢true (sym h.0 ∙ ap (λ x. str_eq c.schema.type x.schema.type) e ∙ eq_refl c.schema.type)
  Lacks-In b (c ∷ cs) (inr i) h = Lacks-In b cs i h.1

  register_blocks_order :
      (bs cs : List (Block W)) (r : Registry W) (t : String)
      → HasTypesOnce bs
      → HasTypesOnce cs
      → ((b : Block W) → In b bs → In b cs)
      → ((b : Block W) → In b cs → In b bs)
      → resolve_block t (register_blocks bs r) ≡ resolve_block t (register_blocks cs r)
  register_blocks_order bs cs r t once once' to from = elim (In-or_Lacks t bs) [
    | inl (b, i, e) ↦
        subst (λ x. resolve_block x (register_blocks bs r) ≡ resolve_block x (register_blocks cs r))
          e (resolve_block-In b bs r i once ∙ sym (resolve_block-In b cs r (to b i) once'))
    | inr h ↦ elim (In-or_Lacks t cs) [
      | inr h' ↦ resolve_block-Lacks t bs r h ∙ sym (resolve_block-Lacks t cs r h')
      | inl (b, i, e) ↦ absurd (Lacks-In b bs (from b i) (subst (λ x. Lacks x bs) (sym e) h))
    ]
  ]

  abbrev lacks : String → List (Block W) → Bool
  lacks t [] = true
  lacks t (b ∷ bs) = not (str_eq b.schema.type t) && lacks t bs

  abbrev has_types_once : List (Block W) → Bool
  has_types_once [] = true
  has_types_once (b ∷ bs) = lacks b.schema.type bs && has_types_once bs

  lacks-Lacks : (t : String) (bs : List (Block W)) → lacks t bs ≡ true → Lacks t bs
  lacks-Lacks t [] h = tt
  lacks-Lacks t (b ∷ bs) h =
      let both = not_and (str_eq b.schema.type t) (lacks t bs) h in
      (both.0, lacks-Lacks t bs both.1)

  pub has_types_once-HasTypesOnce :
      (bs : List (Block W)) → has_types_once bs ≡ true → HasTypesOnce bs
  has_types_once-HasTypesOnce [] h = tt
  has_types_once-HasTypesOnce (b ∷ bs) h =
      let both = and_both (lacks b.schema.type bs) (has_types_once bs) h in
      (lacks-Lacks b.schema.type bs both.0, has_types_once-HasTypesOnce bs both.1)

  module _ (lib : ArduinoJson) (board : Board W) (net : Network W) where
    pub blocks-HasTypesOnce : HasTypesOnce (blocks lib board net)
    unfolding blocks divider_block http_request_schema if_block log_block repeat_block
        samsung_schema wait_block wait_for_trigger_block wifi_hop_schema wol_block ws_send_schema
    blocks-HasTypesOnce = has_types_once-HasTypesOnce (blocks lib board net) refl

    -- In whichever order the program's blocks are registered, each once: the registry finds the same
    -- block, or none, for every type, as the program's registry does.
    pub program_registry_order :
        (bs : List (Block W)) (t : String)
        → HasTypesOnce bs
        → ((b : Block W) → In b bs → In b (blocks lib board net))
        → ((b : Block W) → In b (blocks lib board net) → In b bs)
        → resolve_block t (register_blocks bs empty_registry)
          ≡ resolve_block t (program_registry lib board net)
    unfolding program_registry register_predicates predicates register_trigger register_predicate
        resolve_block
    program_registry_order bs t once to from =
        register_blocks_order bs (blocks lib board net) empty_registry t once blocks-HasTypesOnce to
          from
