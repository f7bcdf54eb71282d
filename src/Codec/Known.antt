-- ===== src/Codec/Known.antt =====
-- The types of the nodes that src/core/SequenceCodec.cpp reads, and what it finds broken.
use esp32_sequencer.Base.{
  String, ◌≡◌, refl, ap, sym, ◌∙◌, Bool, true, false, ◌&&◌, ◌||◌, not, inl, inr, Bool-cases, All,
  str_eq, eq_iff, if◌then◌else◌,
}
use esp32_sequencer.Json.{
  Json, null, bool, int, str, arr, obj, Items, Fields, end, field, ArduinoJson, get, as_items,
  text_or_empty,
}
use esp32_sequencer.Model.{Sequence, Node, node, Nodes, nil, cons, Slots, slot}
use esp32_sequencer.Codec.{
  is_control, blame, append_nodes, add_slot, finish, decode_node, decode_children, decode_slots,
  decode_slot_fields, decode_nodes, decode_items, decode_sequence, decode_sequences, decode_list,
}
use esp32_sequencer.Codec.Keys.{compare-cases}
use Prim.Native.String.append
use Prim.Native.String.{◌++◌ as cat, compare}
use mathlib.Core.Bool.{false≢true}

abbrev has_text : String → Bool
has_text String.[] = false
has_text (String.◌∷◌ c u) = true

has_text-cat : (s t : String) → has_text s ≡ true → has_text (cat s t) ≡ true
has_text-cat String.[] t h = absurd (false≢true h)
has_text-cat (String.◌∷◌ c s) t h = rw append.cons refl

module _ (known : String → Bool) where
  -- The interpreter runs the type itself, or the type is known.
  abbrev pub IsKnown : String → Type 0
  IsKnown t = (is_control t || known t) ≡ true

  abbrev mutual
    pub NodeKnown : Node → Type 0
    NodeKnown (node type params kids) = IsKnown type × SlotsKnown kids

    pub NodesKnown : Nodes → Type 0
    NodesKnown nil = Unit
    NodesKnown (cons n ns) = NodeKnown n × NodesKnown ns

    pub SlotsKnown : Slots → Type 0
    SlotsKnown Slots.end = Unit
    SlotsKnown (slot k ns rest) = NodesKnown ns × SlotsKnown rest

  -- A sequence that is not broken has only known types.
  abbrev pub IsSound : Sequence → Type 0
  IsSound s = s.broken ≡ false → NodesKnown s.nodes

  append_nodes-NodesKnown :
      (ns ms : Nodes) → NodesKnown ns → NodesKnown ms → NodesKnown (append_nodes ns ms)
  append_nodes-NodesKnown nil ms a b = b
  append_nodes-NodesKnown (cons n ns) ms a b = (a.0, append_nodes-NodesKnown ns ms a.1 b)

  add_slot-SlotsKnown :
      (k : String) (ns : Nodes) (ks : Slots)
      → NodesKnown ns
      → SlotsKnown ks
      → SlotsKnown (add_slot k ns ks)
  unfolding add_slot
  add_slot-SlotsKnown k ns Slots.end o s = (o, tt)
  add_slot-SlotsKnown k ns (slot j ms rest) o s = elim (compare-cases (compare k j)) [
    | inl lt ↦ rw (lt, add_slot) (o, s)
    | inr (inl eq) ↦ rw (eq, add_slot) (append_nodes-NodesKnown ms ns s.0 o, s.1)
    | inr (inr gt) ↦ rw (gt, add_slot) (s.0, add_slot-SlotsKnown k ns rest o s.1)
  ]

  -- The reason stays empty only at a known type.
  blame_empty : (t reason : String) → blame known t reason ≡ "" → (reason ≡ "") × IsKnown t
  unfolding blame
  blame_empty t reason h = by_tests (is_control t) (known t) (str_eq reason "") refl h
    where
      said : cat "unknown block type: " t ≡ "" → ⊥
      said q = false≢true (sym (ap has_text q) ∙ has_text-cat "unknown block type: " t refl)

      by_tests :
          (a b c : Bool)
          → str_eq reason "" ≡ c
          → (if not a && not b && c then cat "unknown block type: " t else reason) ≡ ""
          → (reason ≡ "") × ((a || b) ≡ true)
      by_tests true b c e h = (h, refl)
      by_tests false true c e h = (h, refl)
      by_tests false false true e h = absurd (said h)
      by_tests false false false e h = absurd (false≢true (sym e ∙ (eq_iff reason "").1 h))

  -- If the reason is empty behind a part that is read, it was empty before, and the types are known.
  abbrev Sound {ℓ} : {A : Type ℓ} → (A → Type 0) → String → A × String → Type 0
  Sound P reason o = o.1 ≡ "" → (reason ≡ "") × P o.0

  module _ (lib : ArduinoJson) where
    finish-Sound :
        (fs : Fields) (reason : String) (o : Slots × String)
        → Sound SlotsKnown reason o
        → Sound NodeKnown reason (finish lib known fs o)
    unfolding finish
    finish-Sound fs reason (ks, r) h e =
        let b = blame_empty (text_or_empty (get (obj fs) "type")) r e in
        let k = h b.0 in (k.0, (b.1, k.1))

    leaf-Sound :
        (reason : String) → Sound NodeKnown reason (finish lib known end (Slots.end, reason))
    leaf-Sound reason = finish-Sound end reason (Slots.end, reason) (λ e. (e, tt))

    mutual
      unfolding decode_node

      decode_node-Sound :
          (v : Json) (reason : String) → Sound NodeKnown reason (decode_node lib known v reason)
      decode_node-Sound (obj fs) reason =
          finish-Sound fs reason (decode_children lib known fs reason)
            (decode_children-Sound fs reason)
      decode_node-Sound null reason = leaf-Sound reason
      decode_node-Sound (bool b) reason = leaf-Sound reason
      decode_node-Sound (int z) reason = leaf-Sound reason
      decode_node-Sound (Json.float s) reason = leaf-Sound reason
      decode_node-Sound (str s) reason = leaf-Sound reason
      decode_node-Sound (arr xs) reason = leaf-Sound reason

      decode_children-Sound :
          (fs : Fields) (reason : String)
          → Sound SlotsKnown reason (decode_children lib known fs reason)
      decode_children-Sound end reason = λ e. (e, tt)
      decode_children-Sound (field k v fs) reason = elim (Bool-cases (str_eq k "children")) [
        | inl this ↦ rw this (decode_slots-Sound v reason)
        | inr other ↦ rw other (decode_children-Sound fs reason)
      ]

      decode_slots-Sound :
          (v : Json) (reason : String) → Sound SlotsKnown reason (decode_slots lib known v reason)
      decode_slots-Sound (obj fs) reason =
          decode_slot_fields-Sound fs Slots.end reason reason (λ e. (e, tt))
      decode_slots-Sound null reason = λ e. (e, tt)
      decode_slots-Sound (bool b) reason = λ e. (e, tt)
      decode_slots-Sound (int z) reason = λ e. (e, tt)
      decode_slots-Sound (Json.float s) reason = λ e. (e, tt)
      decode_slots-Sound (str s) reason = λ e. (e, tt)
      decode_slots-Sound (arr xs) reason = λ e. (e, tt)

      decode_slot_fields-Sound :
          (fs : Fields) (done : Slots) (first reason : String)
          → Sound SlotsKnown first (done, reason)
          → Sound SlotsKnown first (decode_slot_fields lib known fs done reason)
      decode_slot_fields-Sound end done first reason h = h
      decode_slot_fields-Sound (field k v fs) done first reason h =
          let ns = decode_nodes lib known v reason in
          decode_slot_fields-Sound fs (add_slot k ns.0 done) first ns.1 λ e.
            let n = decode_nodes-Sound v reason e in
            let d = h n.0 in (d.0, add_slot-SlotsKnown k ns.0 done n.1 d.1)

      decode_nodes-Sound :
          (v : Json) (reason : String) → Sound NodesKnown reason (decode_nodes lib known v reason)
      decode_nodes-Sound (arr xs) reason = decode_items-Sound xs reason
      decode_nodes-Sound null reason = λ e. (e, tt)
      decode_nodes-Sound (bool b) reason = λ e. (e, tt)
      decode_nodes-Sound (int z) reason = λ e. (e, tt)
      decode_nodes-Sound (Json.float s) reason = λ e. (e, tt)
      decode_nodes-Sound (str s) reason = λ e. (e, tt)
      decode_nodes-Sound (obj fs) reason = λ e. (e, tt)

      decode_items-Sound :
          (xs : Items) (reason : String)
          → Sound NodesKnown reason (decode_items lib known xs reason)
      decode_items-Sound Items.nil reason = λ e. (e, tt)
      decode_items-Sound (Items.cons v xs) reason = λ e.
          let later = decode_items-Sound xs (decode_node lib known v reason).1 e in
          let this = decode_node-Sound v reason later.0 in (this.0, (this.1, later.1))

    decode_sequence-IsSound : (v : Json) → IsSound (decode_sequence lib known v)
    unfolding decode_sequence
    decode_sequence-IsSound v h =
        let nodes = decode_nodes lib known (get v "nodes") "" in
        (decode_nodes-Sound (get v "nodes") ""
          ((eq_iff nodes.1 "").0 (not_false (str_eq nodes.1 "") h))).1
      where
        not_false : (b : Bool) → not b ≡ false → b ≡ true
        not_false true e = refl
        not_false false e = absurd (false≢true (sym e))

    decode_sequences-IsSound : (xs : Items) → All IsSound (decode_sequences lib known xs)
    unfolding decode_sequences
    decode_sequences-IsSound Items.nil = tt
    decode_sequences-IsSound (Items.cons v xs) =
        (decode_sequence-IsSound v, decode_sequences-IsSound xs)

    -- Of the sequences that are read from any document, those that are not marked broken have, in
    -- nodes of any depth, only types that the interpreter runs itself or that are known.
    pub decode_list-IsSound : (v : Json) → All IsSound (decode_list lib known v)
    unfolding decode_list
    decode_list-IsSound v = decode_sequences-IsSound (as_items v)
