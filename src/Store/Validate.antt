-- ===== src/Store/Validate.antt =====
-- `validateCallSequenceArgs` of src/core/SequenceStore.cpp: which sequences it marks as broken.
use mathlib.Core.List.{append_assoc, append-nil}
use esp32_sequencer.Base.{
  String, ◌≡◌, ◌≢◌, refl, sym, ap, ◌∙◌, fun_ext, true, false, Option, none, some, List, [], ◌∷◌,
  ◌++◌, map, ◌↔◌, ◌⊎◌, inl, inr, All, arith, str_eq-cases,
}
use esp32_sequencer.Json.{Json, ArduinoJson, is_null, as_text, get, member}
use esp32_sequencer.Model.{ParamDef, Sequence, Node, node, Nodes, nil, cons, Slots, slot}
use esp32_sequencer.Store.{
  find_by_id, walk_node, walk_nodes, walk_slots, missing_arg, visit, mark, marked, callees_in,
  call_fault, callee_fault, missing_reason, validate_from, validate,
}

-- What a call has to look like: it names a sequence that is there, and gives every parameter that
-- is required and has no default.
module _ (lib : ArduinoJson) where
  abbrev pub Gives : Json → ParamDef → Type 0
  Gives args p =
      (p.required ≡ false)
      ⊎ (is_null p.default_value ≡ false)
      ⊎ ((is_null args ≡ false) × (lib.is_variant (member args p.key) ≡ true))

  abbrev pub FitsCall : (String → Option (List ParamDef)) → Json → Type 0
  FitsCall callees params =
      (cid : String) × (ps : List ParamDef) × (as_text (get params "sequenceId") ≡ some cid)
      × (callees cid ≡ some ps)
      × All (Gives (get params "args")) ps

  abbrev mutual
    pub NodeFits : (String → Option (List ParamDef)) → Node → Type 0
    NodeFits callees (node type params kids) =
        ((type ≢ "call-sequence") ⊎ FitsCall callees params) × SlotsFit callees kids

    pub NodesFit : (String → Option (List ParamDef)) → Nodes → Type 0
    NodesFit callees nil = Unit
    NodesFit callees (cons n ns) = NodeFits callees n × NodesFit callees ns

    pub SlotsFit : (String → Option (List ParamDef)) → Slots → Type 0
    SlotsFit callees Slots.end = Unit
    SlotsFit callees (slot k ns rest) = NodesFit callees ns × SlotsFit callees rest

  missing_arg-none :
      (args : Json) (ps : List ParamDef) → missing_arg lib args ps ≡ none → All (Gives args) ps
  unfolding missing_arg
  missing_arg-none args [] h = tt
  missing_arg-none args (p ∷ ps) h = (ground arith, missing_arg-none args ps (ground arith))

  none-missing_arg :
      (args : Json) (ps : List ParamDef) → All (Gives args) ps → missing_arg lib args ps ≡ none
  unfolding missing_arg
  none-missing_arg args [] h = refl
  none-missing_arg args (p ∷ ps) h = ground (arith, none-missing_arg args ps h.1)

  module _ (callees : String → Option (List ParamDef)) where
    callee_fault-none :
        (cid : String) (args : Json) (o : Option (List ParamDef))
        → callee_fault lib cid args o ≡ none
        → (ps : List ParamDef) × (o ≡ some ps) × All (Gives args) ps
    callee_fault-none cid args none h = cc
    callee_fault-none cid args (some ps) h =
        (ps, refl, missing_arg-none args ps (reason_none (missing_arg lib args ps) h))
      where
        reason_none : (o : Option String) → missing_reason cid o ≡ none → o ≡ none
        reason_none none e = refl
        reason_none (some k) e = cc

    call_fault-none :
        (params : Json) (o : Option String)
        → as_text (get params "sequenceId") ≡ o
        → call_fault lib callees params o ≡ none
        → FitsCall callees params
    call_fault-none params none e h = cc
    call_fault-none params (some cid) e h =
        let (ps, found, given) = callee_fault-none cid (get params "args") (callees cid) h in
        (cid, ps, e, found, given)

    none-call_fault :
        (params : Json)
        → FitsCall callees params
        → call_fault lib callees params (as_text (get params "sequenceId")) ≡ none
    none-call_fault params (cid, ps, e, found, given) =
        rw (e, call_fault, found, none-missing_arg (get params "args") ps given)

    mutual
      unfolding walk_node visit

      walk_node-some : (n : Node) (r : String) → walk_node (visit lib callees) n (some r) ≡ some r
      walk_node-some (node type params kids) r = walk_slots-some kids r

      walk_nodes-some :
          (ns : Nodes) (r : String) → walk_nodes (visit lib callees) ns (some r) ≡ some r
      walk_nodes-some nil r = refl
      walk_nodes-some (cons n ns) r = rw (walk_node-some n r) (walk_nodes-some ns r)

      walk_slots-some :
          (kids : Slots) (r : String) → walk_slots (visit lib callees) kids (some r) ≡ some r
      walk_slots-some Slots.end r = refl
      walk_slots-some (slot k ns rest) r = rw (walk_nodes-some ns r) (walk_slots-some rest r)

    -- No fault at the end of a walk means that there was none in its middle.
    before_none :
        (f : Option String → Option String) (o : Option String)
        → ((r : String) → f (some r) ≡ some r)
        → f o ≡ none
        → o ≡ none
    before_none f none keeps h = refl
    before_none f (some r) keeps h = cc (keeps r)

    visit-none :
        (type : String) (params : Json) (kids : Slots)
        → visit lib callees (node type params kids) none ≡ none
        → (type ≢ "call-sequence") ⊎ FitsCall callees params
    unfolding visit
    visit-none type params kids h = elim (str_eq-cases type "call-sequence") [
      | inl (_, e) ↦ inr (call_fault-none params _ refl (rw e at h))
      | inr (differ, _) ↦ inl differ
    ]

    none-visit :
        (type : String) (params : Json) (kids : Slots)
        → (type ≢ "call-sequence") ⊎ FitsCall callees params
        → visit lib callees (node type params kids) none ≡ none
    unfolding visit
    none-visit type params kids h = elim (str_eq-cases type "call-sequence") [
      | inl (same, e) ↦
          rw e
            (elim h [ inl differ ↦ absurd (differ same) | inr fits ↦ none-call_fault params fits ])
      | inr (_, e) ↦ rw e
    ]

    mutual
      unfolding walk_node

      walk_node-none : (n : Node) → walk_node (visit lib callees) n none ≡ none → NodeFits callees n
      walk_node-none (node type params kids) h =
          let v =
            before_none (walk_slots (visit lib callees) kids)
              (visit lib callees (node type params kids) none) (walk_slots-some kids) h in
          (visit-none type params kids v, walk_slots-none kids (rw v at h))

      walk_nodes-none :
          (ns : Nodes) → walk_nodes (visit lib callees) ns none ≡ none → NodesFit callees ns
      walk_nodes-none nil h = tt
      walk_nodes-none (cons n ns) h =
          let v =
            before_none (walk_nodes (visit lib callees) ns) (walk_node (visit lib callees) n none)
              (walk_nodes-some ns) h in
          (walk_node-none n v, walk_nodes-none ns (rw v at h))

      walk_slots-none :
          (kids : Slots) → walk_slots (visit lib callees) kids none ≡ none → SlotsFit callees kids
      walk_slots-none Slots.end h = tt
      walk_slots-none (slot k ns rest) h =
          let v =
            before_none (walk_slots (visit lib callees) rest)
              (walk_nodes (visit lib callees) ns none) (walk_slots-some rest) h in
          (walk_nodes-none ns v, walk_slots-none rest (rw v at h))

    mutual
      unfolding walk_node

      none-walk_node : (n : Node) → NodeFits callees n → walk_node (visit lib callees) n none ≡ none
      none-walk_node (node type params kids) h =
          rw (none-visit type params kids h.0) (none-walk_slots kids h.1)

      none-walk_nodes :
          (ns : Nodes) → NodesFit callees ns → walk_nodes (visit lib callees) ns none ≡ none
      none-walk_nodes nil h = refl
      none-walk_nodes (cons n ns) h = rw (none-walk_node n h.0) (none-walk_nodes ns h.1)

      none-walk_slots :
          (kids : Slots) → SlotsFit callees kids → walk_slots (visit lib callees) kids none ≡ none
      none-walk_slots Slots.end h = refl
      none-walk_slots (slot k ns rest) h = rw (none-walk_nodes ns h.0) (none-walk_slots rest h.1)

    -- A sequence that was not broken is marked exactly if one of its calls does not fit.
    pub mark-broken_iff :
        (s : Sequence)
        → s.broken ≡ false
        → ((mark lib callees s).broken ≡ false) ↔ NodesFit callees s.nodes
    unfolding mark
    mark-broken_iff s h = (
      λ e. walk_nodes-none s.nodes (unmarked found (ap (λ t. t.broken) (sym same) ∙ e)),
      λ fits. ap (λ t. t.broken) (same ∙ ap (marked s) (none-walk_nodes s.nodes fits)) ∙ h,
    )
      where
        found : Option String
        found = walk_nodes (visit lib callees) s.nodes none

        same : mark lib callees s ≡ marked s found
        same = ground arith

        unmarked : (o : Option String) → (marked s o).broken ≡ false → o ≡ none
        unmarked none e = refl
        unmarked (some r) e = cc

  -- Marking changes no id and no parameters, so that the calls look the same to later callers.
  pub mark_id :
      (callees : String → Option (List ParamDef)) (s : Sequence) → (mark lib callees s).id ≡ s.id
  unfolding mark
  mark_id callees s = ground arith

  mark_params :
      (callees : String → Option (List ParamDef)) (s : Sequence)
      → (mark lib callees s).params ≡ s.params
  unfolding mark
  mark_params callees s = ground arith

  callees_in-mark :
      (f : String → Option (List ParamDef)) (done rest : List Sequence) (s : Sequence) (id : String)
      → callees_in (done ++ mark lib f s ∷ rest) id ≡ callees_in (done ++ s ∷ rest) id
  unfolding callees_in find_by_id
  callees_in-mark f [] rest s id = rw (mark_id f s) (ground (arith, mark_params f s))
  callees_in-mark f (t ∷ done) rest s id = ground (arith, callees_in-mark f done rest s id)

  validate_from-map :
      (done rest : List Sequence)
      → validate_from lib done rest ≡ done ++ map (mark lib (callees_in (done ++ rest))) rest
  unfolding validate_from
  validate_from-map done [] = sym (append-nil done)
  validate_from-map done (s ∷ rest) =
      let f = callees_in (done ++ s ∷ rest) in
      validate_from-map (done ++ mark lib f s ∷ []) rest
      ∙ rw (append_assoc done (mark lib f s ∷ []) rest, fun_ext (callees_in-mark f done rest s))
          (append_assoc done (mark lib f s ∷ []) (map (mark lib f) rest))

  -- The validation marks each sequence by the ids and parameters of the list that it is given.
  pub validate-map : (all : List Sequence) → validate lib all ≡ map (mark lib (callees_in all)) all
  unfolding validate
  validate-map all = validate_from-map [] all
