-- ===== src/Interp/Stacks.antt =====
-- The frames of src/core/Interpreter.cpp: every run ends, and leaves the frames as it found them.
use esp32_sequencer.Base.{
  ℕ, zero, suc, String, ◌≡◌, refl, ap, ◌<◌, ◌-◌, Bool, true, false, none, some, List, ◌∷◌, leb,
  if◌then◌else◌, length, Bool-cases, inl, inr, arith,
}
use esp32_sequencer.Base.Result.{Result, ok, err}
use esp32_sequencer.Json.{Json}
use esp32_sequencer.Model.{ParamScope, Sequence, Node, node, Nodes, nil, cons, Slots, slot}
use esp32_sequencer.Registry.{RunResult, failed}
use esp32_sequencer.Interp.{
  Env, Ctx, Outcome, done, and_then, check, run_if, pause, rounds, run_repeat, run_call, run_block,
  dispatch, run_node, run_slot, run_child, run_sequence, popped, push_frame, build_scope, has_slot,
}

module _ {W : Type 0} where
  -- The two stacks of a context.
  abbrev pub Fits : List ParamScope → List String → Ctx W → Type 0
  Fits ss cs c = (c.scope_stack ≡ ss) × (c.call_stack ≡ cs)

  -- The run has ended, ok or failed, with these stacks.
  abbrev pub Kept : List ParamScope → List String → Outcome W → Type 0
  Kept ss cs none = ⊥
  Kept ss cs (some (r, c)) = Fits ss cs c

  module _ (ss : List ParamScope) (cs : List String) where
    pub Kept-check {ℓ} :
        {A : Type ℓ} (c : Ctx W) (m : Result A) (f : A → Outcome W)
        → Fits ss cs c
        → ((a : A) → Kept ss cs (f a))
        → Kept ss cs (check c m f)
    unfolding check
    Kept-check c (ok a) f h k = k a
    Kept-check c (err e) f h k = h

    pub Kept-and_then :
        (o : Outcome W) (k : Ctx W → Outcome W)
        → Kept ss cs o
        → ((c : Ctx W) → Fits ss cs c → Kept ss cs (k c))
        → Kept ss cs (and_then o k)
    Kept-and_then none k h step = h
    Kept-and_then (some (RunResult.ok, c)) k h step = step c h
    Kept-and_then (some (failed e, c)) k h step = h

    pub Kept-popped :
        (sc : ParamScope) (id : String) (o : Outcome W)
        → Kept (sc ∷ ss) (id ∷ cs) o
        → Kept ss cs (popped o)
    Kept-popped sc id none h = h
    Kept-popped sc id (some (r, c)) h = (rw (h.0), rw (h.1))

  module _ (env : Env W) (call : Sequence → Json → Ctx W → Outcome W) (ss : List ParamScope)
      (cs : List String)
      (call-Kept : (s : Sequence) (args : Json) (c : Ctx W)
        → Fits ss cs c
        → Kept ss cs (call s args c)) where
    abbrev Keeps : (Ctx W → Outcome W) → Type 0
    Keeps act = (c : Ctx W) → Fits ss cs c → Kept ss cs (act c)

    run_if-Kept :
        (params : Json) (child : String → Ctx W → Outcome W)
        → ((k : String) → Keeps (child k))
        → Keeps (run_if env params child)
    unfolding run_if
    run_if-Kept params child h c fits = Kept-check ss cs c _ _ fits λ scope.
        Kept-check ss cs c _ _ fits
          λ ptype. Kept-check ss cs c _ _ fits λ p. Kept-check ss cs c _ _ fits λ doc. h _ _ fits

    pause-Fits :
        (interval left : ℕ) (c : Ctx W) → Fits ss cs c → Fits ss cs (pause env interval left c)
    unfolding pause
    pause-Fits interval left c fits = ground arith

    rounds-Kept :
        (interval : ℕ) (body : Ctx W → Outcome W) (left : ℕ)
        → Keeps body
        → Keeps (rounds env interval body left)
    unfolding rounds
    rounds-Kept interval body zero h c fits = fits
    rounds-Kept interval body (suc left) h c fits =
        Kept-and_then ss cs _ _ (h c fits)
          λ c' fits'. rounds-Kept interval body left h _ (pause-Fits interval left c' fits')

    body-Kept :
        (has_body : Bool) (interval : ℕ) (body : Ctx W → Outcome W) (count : ℕ)
        → Keeps body
        → Keeps (λ c. if has_body then rounds env interval body count c else done c)
    body-Kept true interval body count h c fits = rounds-Kept interval body count h c fits
    body-Kept false interval body count h c fits = fits

    run_repeat-Kept :
        (params : Json) (has_body : Bool) (child : String → Ctx W → Outcome W)
        → ((k : String) → Keeps (child k))
        → Keeps (run_repeat env params has_body child)
    unfolding run_repeat
    run_repeat-Kept params has_body child h c fits = Kept-check ss cs c _ _ fits λ scope.
        Kept-check ss cs c _ _ fits λ doc. body-Kept has_body _ (child "body") _ (h "body") c fits

    run_call-Kept : (params : Json) → Keeps (run_call env call params)
    unfolding run_call
    run_call-Kept params c fits = Kept-check ss cs c _ _ fits λ scope.
        Kept-check ss cs c _ _ fits λ lookup. Kept-check ss cs c _ _ fits λ doc.
          Kept-check ss cs c _ _ fits λ sid. Kept-check ss cs c _ _ fits λ _.
            Kept-check ss cs c _ _ fits
              λ callee. Kept-check ss cs c _ _ fits λ _. call-Kept callee _ c fits

    run_block-Kept :
        (type : String) (params : Json) (kids : Slots) → Keeps (run_block env type params kids)
    unfolding run_block
    run_block-Kept type params kids c fits =
        Kept-check ss cs c _ _ fits
          λ b. Kept-check ss cs c _ _ fits λ scope. Kept-check ss cs c _ _ fits λ doc. fits

    dispatch-Kept :
        (n : Node) (child : String → Ctx W → Outcome W)
        → ((k : String) → Keeps (child k))
        → Keeps (dispatch env call n child)
    unfolding dispatch
    dispatch-Kept (node type params kids) child h c fits = ground (
      arith,
      run_if-Kept params child h c fits,
      run_repeat-Kept params (has_slot "body" kids) child h c fits,
      run_call-Kept params c fits,
      run_block-Kept type params kids c fits,
    )

    mutual
      unfolding run_node

      run_node-Kept : (n : Node) → Keeps (run_node env call n)
      run_node-Kept (node type params kids) c fits =
          dispatch-Kept (node type params kids) _ (run_child-Kept kids) c fits

      run_slot-Kept : (ns : Nodes) → Keeps (run_slot env call ns)
      run_slot-Kept nil c fits = fits
      run_slot-Kept (cons n ns) c fits =
          Kept-and_then ss cs _ _ (run_node-Kept n c fits) (run_slot-Kept ns)

      run_child-Kept : (kids : Slots) (k : String) → Keeps (run_child env call kids k)
      run_child-Kept Slots.end k c fits = fits
      run_child-Kept (slot j ns rest) k c fits =
          ground (arith, run_slot-Kept ns c fits, run_child-Kept rest k c fits)

  run_sequence-Kept :
      (fuel : ℕ) (env : Env W) (s : Sequence) (args : Json) (ss : List ParamScope)
      (cs : List String) (c : Ctx W)
      → Fits ss cs c
      → 8 - length cs < fuel
      → Kept ss cs (run_sequence fuel env s args c)
  unfolding run_sequence
  run_sequence-Kept zero env s args ss cs c fits h = absurd (omega arith)
  run_sequence-Kept (suc fuel) env s args ss cs c fits h =
      elim (Bool-cases (leb 8 (length c.call_stack))) [
        | inl deep ↦ rw deep fits
        | inr shallow ↦ rw shallow (
            Kept-popped ss cs (build_scope s args) s.id _ (
              run_slot-Kept env (run_sequence fuel env) (build_scope s args ∷ ss) (s.id ∷ cs)
                (λ t a d f. run_sequence-Kept fuel env t a _ _ d f (room shallow)) s.nodes
                (push_frame s args c)
                (ap (λ x. build_scope s args ∷ x) fits.0, ap (λ x. s.id ∷ x) fits.1)))
      ]
    where
      room : leb 8 (length c.call_stack) ≡ false → 8 - length (s.id ∷ cs) < fuel
      room e = ground (arith, ap length fits.1)

  -- With fuel for the nested calls that are still allowed, a run of a sequence ends, ok or failed,
  -- and the scope stack and the call stack are then what they were.
  pub run_sequence_ends :
      (fuel : ℕ) (env : Env W) (s : Sequence) (args : Json) (c : Ctx W)
      → 8 - length c.call_stack < fuel
      → Kept c.scope_stack c.call_stack (run_sequence fuel env s args c)
  run_sequence_ends fuel env s args c h = run_sequence-Kept fuel env s args _ _ c (refl, refl) h
