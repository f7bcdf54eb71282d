-- ===== src/Interp/Guards.antt =====
-- Which calls src/core/Interpreter.cpp makes: never one of a sequence that is running already, nor
-- of a broken one.
use esp32_sequencer.Base.{
  String, ◌≡◌, refl, ap, ◌∙◌, Bool, true, false, ◌||◌, Option, none, some, contains, str_eq,
  if◌then◌else◌, arith,
}
use esp32_sequencer.Base.Result.{Result, ok, err, or_err}
use esp32_sequencer.Json.{Json, get}
use esp32_sequencer.Model.{Sequence, Node, node, Nodes, nil, cons, Slots, slot}
use esp32_sequencer.Interp.{
  Env, Ctx, Outcome, and_then, check, run_call, dispatch, run_node, run_slot, run_child, refuse_if,
}

-- The store's lookup answers with a sequence of the id that was asked for.
abbrev pub FindsById : {W : Type 0} → Env W → Type 0
FindsById env =
    (lookup : String → Option Sequence) (sid : String) (s : Sequence)
    → env.sequence_lookup ≡ some lookup
    → lookup sid ≡ some s
    → s.id ≡ sid

module _ {W : Type 0} (env : Env W) (call : Sequence → Json → Ctx W → Outcome W) where
  -- The same calls, but one of a running or broken sequence has no outcome at all.
  pub guarded : Sequence → Json → Ctx W → Outcome W
  guarded s args c = if contains s.id c.call_stack || s.broken then none else call s args c

  pub check-ext {ℓ} :
      {A : Type ℓ} (c : Ctx W) (m : Result A) (k k' : A → Outcome W)
      → ((a : A) → m ≡ ok a → k a ≡ k' a)
      → check c m k ≡ check c m k'
  unfolding check
  check-ext c (ok a) k k' h = h a refl
  check-ext c (err e) k k' h = refl

  pub refuse_if-ok : (b : Bool) (e : String) (a : Unit {0}) → refuse_if b e ≡ ok a → b ≡ false
  refuse_if-ok true e a h = cc
  refuse_if-ok false e a h = refl

  pub or_err-ok : {A : Type 0} (o : Option A) (e : String) (a : A) → or_err o e ≡ ok a → o ≡ some a
  or_err-ok none e a h = cc
  or_err-ok (some b) e a h = ground arith

  module _ (finds : FindsById env) where
    call_eq :
        (s : Sequence) (sid : String) (args : Json) (c : Ctx W)
        → s.id ≡ sid
        → contains sid c.call_stack ≡ false
        → s.broken ≡ false
        → call s args c ≡ guarded s args c
    unfolding guarded
    call_eq s sid args c e h b =
        let fresh : contains s.id c.call_stack ≡ false = ap (λ x. contains x c.call_stack) e ∙ h in
        rw (fresh, b)

    run_call_eq :
        (params : Json) (c : Ctx W) → run_call env call params c ≡ run_call env guarded params c
    unfolding run_call
    run_call_eq params c = check-ext c _ _ _ λ scope _. check-ext c _ _ _ λ lookup found.
        check-ext c _ _ _ λ doc _. check-ext c _ _ _ λ sid _. check-ext c _ _ _ λ u fresh.
          check-ext c _ _ _ λ callee known. check-ext c _ _ _ λ v whole.
            call_eq callee sid (get doc "args") c
              (finds lookup sid callee (or_err-ok _ _ _ found) (or_err-ok _ _ _ known))
              (refuse_if-ok _ _ _ fresh) (refuse_if-ok _ _ _ whole)

    dispatch_eq :
        (n : Node) (child : String → Ctx W → Outcome W) (c : Ctx W)
        → dispatch env call n child c ≡ dispatch env guarded n child c
    unfolding dispatch
    dispatch_eq (node type params kids) child c = rw (run_call_eq params c)

    mutual
      unfolding run_node

      run_node_eq : (n : Node) (c : Ctx W) → run_node env call n c ≡ run_node env guarded n c
      run_node_eq (node type params kids) c =
          dispatch_eq (node type params kids) _ c
          ∙ ap (λ child. dispatch env guarded (node type params kids) child c)
              (λ i k d. run_child_eq kids k d i)

      run_slot_eq : (ns : Nodes) (c : Ctx W) → run_slot env call ns c ≡ run_slot env guarded ns c
      run_slot_eq nil c = refl
      run_slot_eq (cons n ns) c = λ i. and_then (run_node_eq n c i) (λ d. run_slot_eq ns d i)

      run_child_eq :
          (kids : Slots) (k : String) (c : Ctx W)
          → run_child env call kids k c ≡ run_child env guarded kids k c
      run_child_eq Slots.end k c = refl
      run_child_eq (slot j ns rest) k c =
          λ i. if str_eq j k then run_slot_eq ns c i else run_child_eq rest k c i

    -- With a lookup by id, a run makes no call of a sequence that is on the call stack or broken:
    -- if such a call had no outcome at all, every run would end as before.
    pub run_slot-guarded :
        (ns : Nodes) (c : Ctx W) → run_slot env call ns c ≡ run_slot env guarded ns c
    run_slot-guarded ns c = run_slot_eq ns c
