-- ===== src/Interp/Known.antt =====
-- The blocks that src/core/Interpreter.cpp asks the registry for, and the types that the codec
-- (src/core/SequenceCodec.cpp) looks up.
use Prim.Native.String.{◌++◌ as cat}
use mathlib.Core.Bool.{false≢true}
use esp32_sequencer.Base.{
  ℕ, zero, suc, String, ◌≡◌, refl, ap, sym, ◌∙◌, Bool, true, false, ◌||◌, Option, none, some,
  if◌then◌else◌, str_eq, leb, length,
}
use esp32_sequencer.Base.Map.{Map}
use esp32_sequencer.Base.Result.{or_err}
use esp32_sequencer.Json.{Json, get}
use esp32_sequencer.Model.{Sequence, Node, node, Nodes, nil, cons, Slots, slot}
use esp32_sequencer.Registry.{Block, Registry, resolve_block, resolve_predicate}
use esp32_sequencer.Resolve.{resolve}
use esp32_sequencer.Codec.{is_control}
use esp32_sequencer.Codec.Known.{NodeKnown, NodesKnown, SlotsKnown}
use esp32_sequencer.Interp.{
  Env, Ctx, Outcome, and_then, check, is_disabled, run_if, pause, rounds, run_repeat, run_call,
  run_block, dispatch, run_node, run_slot, run_child, run_sequence, popped, push_frame, has_slot,
  top_scope,
}
use esp32_sequencer.Interp.Guards.{check-ext, or_err-ok, refuse_if-ok}

abbrev pub is_there {ℓ} : {A : Type ℓ} → Option A → Bool
is_there none = false
is_there (some a) = true

-- `resolveBlock(type)`, as the codec's condition.
abbrev pub registered : {W : Type 0} → Registry W → String → Bool
registered r t = is_there (resolve_block t r)

-- The lookup finds no unbroken sequence with a node of a type that is not registered.
abbrev pub FindsSound : {W : Type 0} → Env W → Type 0
FindsSound env =
    (lookup : String → Option Sequence) (sid : String) (s : Sequence)
    → env.sequence_lookup ≡ some lookup
    → lookup sid ≡ some s
    → s.broken ≡ false
    → NodesKnown (registered env.registry) s.nodes

module _ {W : Type 0} (env : Env W) (more : Map (Block W)) where
  -- The environment with other blocks.
  abbrev pub with_blocks : Env W
  with_blocks = record env { registry = record env.registry { blocks = more } }

  -- They hold every block that was registered.
  abbrev pub Extends : Type 0
  Extends =
      (t : String) (b : Block W)
      → resolve_block t env.registry ≡ some b
      → resolve_block t with_blocks.registry ≡ some b

  if-eq :
      (b : Bool) (x y x' y' : Outcome W)
      → (b ≡ true → x ≡ x')
      → (b ≡ false → y ≡ y')
      → (if b then x else y) ≡ (if b then x' else y')
  if-eq true x y x' y' h k = h refl
  if-eq false x y x' y' h k = k refl

  registered-some : (o : Option (Block W)) → is_there o ≡ true → (b : Block W) × (o ≡ some b)
  registered-some none h = absurd (false≢true h)
  registered-some (some b) h = (b, refl)

  or-right : (a b : Bool) → a ≡ false → (a || b) ≡ true → b ≡ true
  or-right true b e h = absurd (false≢true (sym e))
  or-right false b e h = h

  module _ (extends : Extends) where
    run_block_eq :
        (type : String) (params : Json) (kids : Slots) (c : Ctx W)
        → registered env.registry type ≡ true
        → run_block env type params kids c ≡ run_block with_blocks type params kids c
    unfolding run_block
    run_block_eq type params kids c h =
        let there = registered-some (resolve_block type env.registry) h in
        ap
          (λ o. check c (or_err o (cat "unknown block: " type)) λ b. check c (top_scope c) λ scope.
            check c (resolve env.lib scope params)
              λ doc. let (r, w) = b.run doc kids c.world in some (r, record c { world = w }))
          (there.1 ∙ sym (extends type there.0 there.1))

    run_if_eq :
        (params : Json) (child child' : String → Ctx W → Outcome W) (c : Ctx W)
        → ((k : String) (d : Ctx W) → child k d ≡ child' k d)
        → run_if env params child c ≡ run_if with_blocks params child' c
    unfolding run_if resolve_predicate
    run_if_eq params child child' c h = ap (λ f. run_if env params f c) (λ i k d. h k d i)

    rounds_eq :
        (interval : ℕ) (body body' : Ctx W → Outcome W) (left : ℕ) (c : Ctx W)
        → ((d : Ctx W) → body d ≡ body' d)
        → rounds env interval body left c ≡ rounds with_blocks interval body' left c
    unfolding rounds pause
    rounds_eq interval body body' zero c h = refl
    rounds_eq interval body body' (suc left) c h = λ i.
        and_then (h c i) (λ d. rounds_eq interval body body' left (pause env interval left d) h i)

    run_repeat_eq :
        (params : Json) (has_body : Bool) (child child' : String → Ctx W → Outcome W) (c : Ctx W)
        → ((k : String) (d : Ctx W) → child k d ≡ child' k d)
        → run_repeat env params has_body child c ≡ run_repeat with_blocks params has_body child' c
    unfolding run_repeat
    run_repeat_eq params has_body child child' c h =
        check-ext env (λ s a d. none) c _ _ _
          λ scope _.
            check-ext env (λ s a d. none) c _ _ _
              λ doc _.
                if-eq has_body _ _ _ _
                  (λ _. rounds_eq _ (child "body") (child' "body") _ c (h "body")) (λ _. refl)

    abbrev Known : Sequence → Type 0
    Known s = NodesKnown (registered env.registry) s.nodes

    module _ (call call' : Sequence → Json → Ctx W → Outcome W)
        (same : (s : Sequence) (args : Json) (c : Ctx W) → Known s → call s args c ≡ call' s args c)
        (sound : FindsSound env) where
      run_call_eq :
          (params : Json) (c : Ctx W)
          → run_call env call params c ≡ run_call with_blocks call' params c
      unfolding run_call
      run_call_eq params c = check-ext env call c _ _ _ λ scope _.
          check-ext env call c _ _ _ λ lookup found. check-ext env call c _ _ _ λ doc _.
            check-ext env call c _ _ _ λ sid _. check-ext env call c _ _ _ λ u _.
              check-ext env call c _ _ _ λ callee known. check-ext env call c _ _ _ λ v whole.
                same callee (get doc "args") c (
                  sound lookup sid callee (or_err-ok env call _ _ _ found)
                    (or_err-ok env call _ _ _ known) (refuse_if-ok env call _ _ _ whole))

      dispatch_eq :
          (n : Node) (child child' : String → Ctx W → Outcome W) (c : Ctx W)
          → NodeKnown (registered env.registry) n
          → ((k : String) (d : Ctx W) → child k d ≡ child' k d)
          → dispatch env call n child c ≡ dispatch with_blocks call' n child' c
      unfolding dispatch is_disabled
      dispatch_eq (node type params kids) child child' c h same_child =
          if-eq (is_disabled env params) _ _ _ _ (λ _. refl)
            λ _.
              if-eq (str_eq type "divider") _ _ _ _ (λ _. refl)
                λ no_divider.
                  if-eq (str_eq type "if") _ _ _ _ (λ _. run_if_eq params child child' c same_child)
                    λ no_if.
                      if-eq (str_eq type "repeat") _ _ _ _
                        (λ _. run_repeat_eq params (has_slot "body" kids) child child' c same_child)
                        λ no_repeat.
                          if-eq (str_eq type "call-sequence") _ _ _ _ (λ _. run_call_eq params c)
                            λ no_call. run_block_eq type params kids c (
                              or-right (is_control type) (registered env.registry type)
                                (λ i. no_if i || no_repeat i || no_call i || no_divider i) h.0)

      mutual
        unfolding run_node

        run_node_eq :
            (n : Node) (c : Ctx W)
            → NodeKnown (registered env.registry) n
            → run_node env call n c ≡ run_node with_blocks call' n c
        run_node_eq (node type params kids) c h =
            dispatch_eq (node type params kids) _ _ c h (λ k d. run_child_eq kids k d h.1)

        run_slot_eq :
            (ns : Nodes) (c : Ctx W)
            → NodesKnown (registered env.registry) ns
            → run_slot env call ns c ≡ run_slot with_blocks call' ns c
        run_slot_eq nil c h = refl
        run_slot_eq (cons n ns) c h =
            λ i. and_then (run_node_eq n c h.0 i) (λ d. run_slot_eq ns d h.1 i)

        run_child_eq :
            (kids : Slots) (k : String) (c : Ctx W)
            → SlotsKnown (registered env.registry) kids
            → run_child env call kids k c ≡ run_child with_blocks call' kids k c
        run_child_eq Slots.end k c h = refl
        run_child_eq (slot j ns rest) k c h =
            λ i. if str_eq j k then run_slot_eq ns c h.0 i else run_child_eq rest k c h.1 i

    -- Where a lookup finds no unbroken sequence with a node of a type that is neither registered nor
    -- run by the interpreter itself, and the sequence has no such node: its run, the runs of the
    -- sequences that it calls included, asks for registered blocks only. Whatever blocks are
    -- registered besides, for the types that are not registered, every run stays as it is.
    pub run_sequence-with_blocks :
        (fuel : ℕ) (s : Sequence) (args : Json) (c : Ctx W)
        → FindsSound env
        → NodesKnown (registered env.registry) s.nodes
        → run_sequence fuel env s args c ≡ run_sequence fuel with_blocks s args c
    unfolding run_sequence
    run_sequence-with_blocks zero s args c sound h = refl
    run_sequence-with_blocks (suc fuel) s args c sound h =
        if-eq (leb 8 (length c.call_stack)) _ _ _ _ (λ _. refl)
          λ _. ap popped (
            run_slot_eq (run_sequence fuel env) (run_sequence fuel with_blocks)
              (λ t a d k. run_sequence-with_blocks fuel t a d sound k) sound s.nodes
              (push_frame s args c) h)
