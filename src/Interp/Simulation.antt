-- ===== src/Interp/Simulation.antt =====
-- Runs of src/core/Interpreter.cpp over two worlds.
use esp32_sequencer.Base.{
  ℕ, zero, suc, String, ◌≡◌, refl, ap, Bool, true, false, Option, none, some, leb, if◌then◌else◌,
  length, ◌==◌, ◌&&◌, not, ltb, str_eq,
}
use esp32_sequencer.Base.Result.{Result, ok, err, or_err}
use esp32_sequencer.Json.{Json, ArduinoJson}
use esp32_sequencer.Model.{Sequence, Node, node, Nodes, nil, cons, Slots, slot}
use esp32_sequencer.Registry.{
  RunResult, failed, Block, Predicate, Registry, resolve_block, resolve_predicate,
}
use esp32_sequencer.Interp.{
  Env, Ctx, Outcome, and_then, check, is_disabled, run_if, pause, rounds, run_repeat, run_call,
  run_block, dispatch, run_node, run_slot, run_child, run_sequence, popped, push_frame, has_slot,
}

-- A frame of a run, with another world.
abbrev pub at : {V W : Type 0} → W → Ctx V → Ctx W
at w c = record { world = w; scope_stack = c.scope_stack; call_stack = c.call_stack }

module _ {V W : Type 0} (R : V → W → Type 0) where
  -- The second run ends as the first does, with the same stacks and in a related world.
  abbrev pub Follows : Outcome V → Outcome W → Type 0
  Follows none o = o ≡ none
  Follows (some (r, c)) o = (w : W) × R c.world w × (o ≡ some (r, at w c))

  -- From related worlds, the same parameters give the same result and related worlds.
  abbrev pub Agree : {A : Type 0} → (V → A × V) → (W → A × W) → Type 0
  Agree f g = (v : V) (w : W) → R v w → ((g w).0 ≡ (f v).0) × R (f v).1 (g w).1

  abbrev pub BlocksAgree : Option (Block V) → Option (Block W) → Type 0
  BlocksAgree none o = o ≡ none
  BlocksAgree (some b) o =
      (b' : Block W) × (o ≡ some b')
      × ((doc : Json) (kids : Slots) → Agree (b.run doc kids) (b'.run doc kids))

  abbrev pub PredicatesAgree : Option (Predicate V) → Option (Predicate W) → Type 0
  PredicatesAgree none o = o ≡ none
  PredicatesAgree (some p) o =
      (p' : Predicate W) × (o ≡ some p') × ((doc : Json) → Agree (p.test doc) (p'.test doc))

  abbrev Steps : (Ctx V → Outcome V) → (Ctx W → Outcome W) → Type 0
  Steps act act' = (c : Ctx V) (w : W) → R c.world w → Follows (act c) (act' (at w c))

  Follows-check {ℓ} :
      {A : Type ℓ} (c : Ctx V) (w : W) (m : Result A) (f : A → Outcome V) (g : A → Outcome W)
      → R c.world w
      → ((a : A) → Follows (f a) (g a))
      → Follows (check c m f) (check (at w c) m g)
  unfolding check
  Follows-check c w (ok a) f g rel h = h a
  Follows-check c w (err e) f g rel h = (w, rel, refl)

  Follows-check_block :
      (c : Ctx V) (w : W) (o : Option (Block V)) (o' : Option (Block W)) (e : String)
      (f : Block V → Outcome V) (g : Block W → Outcome W)
      → R c.world w
      → BlocksAgree o o'
      → ((b : Block V) (b' : Block W)
          → ((doc : Json) (kids : Slots) → Agree (b.run doc kids) (b'.run doc kids))
          → Follows (f b) (g b'))
      → Follows (check c (or_err o e) f) (check (at w c) (or_err o' e) g)
  unfolding check
  Follows-check_block c w none o' e f g rel agree h = rw agree (w, rel, refl)
  Follows-check_block c w (some b) o' e f g rel agree h = rw (agree.1) (h b agree.0 agree.2)

  Follows-check_predicate :
      (c : Ctx V) (w : W) (o : Option (Predicate V)) (o' : Option (Predicate W)) (e : String)
      (f : Predicate V → Outcome V) (g : Predicate W → Outcome W)
      → R c.world w
      → PredicatesAgree o o'
      → ((p : Predicate V) (p' : Predicate W)
          → ((doc : Json) → Agree (p.test doc) (p'.test doc))
          → Follows (f p) (g p'))
      → Follows (check c (or_err o e) f) (check (at w c) (or_err o' e) g)
  unfolding check
  Follows-check_predicate c w none o' e f g rel agree h = rw agree (w, rel, refl)
  Follows-check_predicate c w (some p) o' e f g rel agree h = rw (agree.1) (h p agree.0 agree.2)

  Follows-and_then :
      (o : Outcome V) (o' : Outcome W) (k : Ctx V → Outcome V) (k' : Ctx W → Outcome W)
      → Follows o o'
      → Steps k k'
      → Follows (and_then o k) (and_then o' k')
  Follows-and_then none o' k k' h step = rw h refl
  Follows-and_then (some (RunResult.ok, c)) o' k k' h step = rw (h.2) (step c h.0 h.1)
  Follows-and_then (some (failed e, c)) o' k k' h step = rw (h.2) (h.0, h.1, refl)

  Follows-popped : (o : Outcome V) (o' : Outcome W) → Follows o o' → Follows (popped o) (popped o')
  Follows-popped none o' h = rw h refl
  Follows-popped (some (r, c)) o' h = rw (h.2) (h.0, h.1, refl)

  Follows-if :
      (b : Bool) (x y : Outcome V) (x' y' : Outcome W)
      → Follows x x'
      → Follows y y'
      → Follows (if b then x else y) (if b then x' else y')
  Follows-if true x y x' y' h k = h
  Follows-if false x y x' y' h k = k

module _ {V W : Type 0} (R : V → W → Type 0) (lib : ArduinoJson)
    (lookup : Option (String → Option Sequence)) (registry : Registry V) (registry' : Registry W)
    (delay : ℕ → V → V) (delay' : ℕ → W → W)
    (blocks-agree : (t : String)
      → BlocksAgree R (resolve_block t registry) (resolve_block t registry'))
    (predicates-agree : (t : String)
      → PredicatesAgree R (resolve_predicate t registry) (resolve_predicate t registry'))
    (delays-agree : (ms : ℕ) (v : V) (w : W) → R v w → R (delay ms v) (delay' ms w)) where
  abbrev first : Env V
  first = record { lib = lib; registry = registry; sequence_lookup = lookup; delay = delay }

  abbrev second : Env W
  second = record { lib = lib; registry = registry'; sequence_lookup = lookup; delay = delay' }

  run_if-Follows :
      (params : Json) (child : String → Ctx V → Outcome V) (child' : String → Ctx W → Outcome W)
      → ((k : String) → Steps R (child k) (child' k))
      → Steps R (run_if first params child) (run_if second params child')
  unfolding run_if
  run_if-Follows params child child' h c w rel = Follows-check R c w _ _ _ rel λ scope.
      Follows-check R c w _ _ _ rel λ ptype.
        Follows-check_predicate R c w _ _ _ _ _ rel (predicates-agree ptype) λ p p' agree.
          Follows-check R c w _ _ _ rel λ doc.
            let a = agree doc c.world w rel in
            rw (a.0) (
              h (if (p.test doc c.world).0 then "then" else "else")
                (record c { world = (p.test doc c.world).1 }) (p'.test doc w).1 a.1)

  pause-Follows :
      (interval left : ℕ) (c : Ctx V) (w : W)
      → R c.world w
      → (w' : W) × R (pause first interval left c).world w'
        × (pause second interval left (at w c) ≡ at w' (pause first interval left c))
  unfolding pause
  pause-Follows interval left c w rel = by_test (not (interval == 0) && ltb 0 left)
    where
      by_test :
          (b : Bool)
          → (w' : W) × R (if b then record c { world = delay interval c.world } else c).world w'
            × ((if b then record (at w c) { world = delay' interval w } else at w c)
                ≡ at w' (if b then record c { world = delay interval c.world } else c))
      by_test true = (delay' interval w, delays-agree interval c.world w rel, refl)
      by_test false = (w, rel, refl)

  rounds-Follows :
      (interval : ℕ) (body : Ctx V → Outcome V) (body' : Ctx W → Outcome W) (left : ℕ)
      → Steps R body body'
      → Steps R (rounds first interval body left) (rounds second interval body' left)
  unfolding rounds
  rounds-Follows interval body body' zero h c w rel = (w, rel, refl)
  rounds-Follows interval body body' (suc left) h c w rel =
      Follows-and_then R _ _ _ _ (h c w rel) λ c' w' rel'.
        let p = pause-Follows interval left c' w' rel' in
        rw (p.2) (rounds-Follows interval body body' left h (pause first interval left c') p.0 p.1)

  run_repeat-Follows :
      (params : Json) (has_body : Bool) (child : String → Ctx V → Outcome V)
      (child' : String → Ctx W → Outcome W)
      → ((k : String) → Steps R (child k) (child' k))
      → Steps R (run_repeat first params has_body child) (run_repeat second params has_body child')
  unfolding run_repeat
  run_repeat-Follows params has_body child child' h c w rel = Follows-check R c w _ _ _ rel λ scope.
      Follows-check R c w _ _ _ rel λ doc.
        Follows-if R has_body _ _ _ _ (rounds-Follows _ _ _ _ (h "body") c w rel) (w, rel, refl)

  run_block-Follows :
      (type : String) (params : Json) (kids : Slots)
      → Steps R (run_block first type params kids) (run_block second type params kids)
  unfolding run_block
  run_block-Follows type params kids c w rel =
      Follows-check_block R c w _ _ _ _ _ rel (blocks-agree type) λ b b' agree.
        Follows-check R c w _ _ _ rel λ scope. Follows-check R c w _ _ _ rel λ doc.
          let a = agree doc kids c.world w rel in
          ((b'.run doc kids w).1, a.1, ap (λ r. some (r, at (b'.run doc kids w).1 c)) a.0)

  module _ (call : Sequence → Json → Ctx V → Outcome V)
      (call' : Sequence → Json → Ctx W → Outcome W)
      (call-Follows : (s : Sequence) (args : Json) → Steps R (call s args) (call' s args)) where
    run_call-Follows :
        (params : Json) → Steps R (run_call first call params) (run_call second call' params)
    unfolding run_call
    run_call-Follows params c w rel = Follows-check R c w _ _ _ rel λ scope.
        Follows-check R c w _ _ _ rel λ look. Follows-check R c w _ _ _ rel λ doc.
          Follows-check R c w _ _ _ rel λ sid. Follows-check R c w _ _ _ rel λ _.
            Follows-check R c w _ _ _ rel
              λ callee. Follows-check R c w _ _ _ rel λ _. call-Follows callee _ c w rel

    dispatch-Follows :
        (n : Node) (child : String → Ctx V → Outcome V) (child' : String → Ctx W → Outcome W)
        → ((k : String) → Steps R (child k) (child' k))
        → Steps R (dispatch first call n child) (dispatch second call' n child')
    unfolding dispatch is_disabled
    dispatch-Follows (node type params kids) child child' h c w rel =
        Follows-if R (is_disabled first params) _ _ _ _ (w, rel, refl)
          (Follows-if R (str_eq type "divider") _ _ _ _ (w, rel, refl)
            (Follows-if R (str_eq type "if") _ _ _ _ (run_if-Follows params child child' h c w rel)
              (Follows-if R (str_eq type "repeat") _ _ _ _
                (run_repeat-Follows params (has_slot "body" kids) child child' h c w rel)
                (Follows-if R (str_eq type "call-sequence") _ _ _ _
                  (run_call-Follows params c w rel) (run_block-Follows type params kids c w rel)))))

    mutual
      unfolding run_node

      run_node-Follows : (n : Node) → Steps R (run_node first call n) (run_node second call' n)
      run_node-Follows (node type params kids) c w rel =
          dispatch-Follows (node type params kids) _ _ (run_child-Follows kids) c w rel

      run_slot-Follows : (ns : Nodes) → Steps R (run_slot first call ns) (run_slot second call' ns)
      run_slot-Follows nil c w rel = (w, rel, refl)
      run_slot-Follows (cons n ns) c w rel =
          Follows-and_then R _ _ _ _ (run_node-Follows n c w rel) (run_slot-Follows ns)

      run_child-Follows :
          (kids : Slots) (k : String)
          → Steps R (run_child first call kids k) (run_child second call' kids k)
      run_child-Follows Slots.end k c w rel = (w, rel, refl)
      run_child-Follows (slot j ns rest) k c w rel =
          Follows-if R (str_eq j k) _ _ _ _ (run_slot-Follows ns c w rel)
            (run_child-Follows rest k c w rel)

  -- Two registries whose blocks and predicates agree, over worlds that a relation links, and waits
  -- that keep the relation: from related worlds a sequence runs to the same result in both, with
  -- the same stacks, to worlds that are related again.
  pub run_sequence-Follows :
      (fuel : ℕ) (s : Sequence) (args : Json) (c : Ctx V) (w : W)
      → R c.world w
      → Follows R (run_sequence fuel first s args c) (run_sequence fuel second s args (at w c))
  unfolding run_sequence
  run_sequence-Follows zero s args c w rel = refl
  run_sequence-Follows (suc fuel) s args c w rel =
      Follows-if R (leb 8 (length c.call_stack)) _ _ _ _ (w, rel, refl)
        (Follows-popped R _ _ (
          run_slot-Follows (run_sequence fuel first) (run_sequence fuel second)
            (run_sequence-Follows fuel) s.nodes (push_frame s args c) w rel))
