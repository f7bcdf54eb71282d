-- ===== src/Codec/Trees.antt =====
-- Nodes there and back through src/core/SequenceCodec.cpp.
use Prim.Native.Nat.{Ordering}
use Prim.Native.String.{compare}
use esp32_sequencer.Base.{
  String, ◌≡◌, refl, sym, ap, ◌∙◌, Bool, some, arith, List, [], ◌∷◌, ◌++◌, if◌then◌else◌,
}
use esp32_sequencer.Json.{Json, obj, end, ArduinoJson, IsLawful, is_null}
use esp32_sequencer.Model.{Node, node, Nodes, nil, cons, Slots, slot}
use esp32_sequencer.Codec.{
  blame, copied, add_slot, finish, decode_node, decode_slot_fields, decode_items, encode_node,
  encode_slots, encode_nodes,
}

abbrev pub append : Slots → Slots → Slots
append Slots.end ms = ms
append (slot k ns rest) ms = slot k ns (append rest ms)

append_assoc : (ks ls ms : Slots) → append (append ks ls) ms ≡ append ks (append ls ms)
append_assoc Slots.end ls ms = refl
append_assoc (slot k ns rest) ls ms = ap (slot k ns) (append_assoc rest ls ms)

append-end : (ks : Slots) → append ks Slots.end ≡ ks
append-end Slots.end = refl
append-end (slot k ns rest) = ap (slot k ns) (append-end rest)

abbrev pub keys : Slots → List String
keys Slots.end = []
keys (slot k ns rest) = k ∷ keys rest

keys-append :
    (ks : Slots) (k : String) (ns : Nodes)
    → keys (append ks (slot k ns Slots.end)) ≡ keys ks ++ k ∷ []
keys-append Slots.end k ns = refl
keys-append (slot j ms rest) k ns = ap (λ x. j ∷ x) (keys-append rest k ns)

-- A key stands behind some keys.
abbrev pub Behind : String → List String → Type 0
Behind k [] = Unit
Behind k (j ∷ js) = (compare k j ≡ Ordering.gt) × Behind k js

-- The keys ascend, as in a `std::map`: each stands behind the ones before it.
abbrev pub Ascending : List String → Slots → Type 0
Ascending before Slots.end = Unit
Ascending before (slot k ns rest) = Behind k before × Ascending (before ++ k ∷ []) rest

abbrev mutual
  pub IsOrdered : Node → Type 0
  IsOrdered (node type params kids) = Ascending [] kids × SlotsOrdered kids

  pub NodesOrdered : Nodes → Type 0
  NodesOrdered nil = Unit
  NodesOrdered (cons n ns) = IsOrdered n × NodesOrdered ns

  pub SlotsOrdered : Slots → Type 0
  SlotsOrdered Slots.end = Unit
  SlotsOrdered (slot k ns rest) = NodesOrdered ns × SlotsOrdered rest

-- Parameters that are null come back as an empty object.
unfoldable mutual
  pub filled : Node → Node
  filled (node type params kids) =
      node type (if is_null params then obj end else params) (filled_slots kids)

  pub filled_nodes : Nodes → Nodes
  filled_nodes nil = nil
  filled_nodes (cons n ns) = cons (filled n) (filled_nodes ns)

  pub filled_slots : Slots → Slots
  filled_slots Slots.end = Slots.end
  filled_slots (slot k ns rest) = slot k (filled_nodes ns) (filled_slots rest)

-- The reason for which a tree is broken: its first unknown type, children before their parent.
module _ (known : String → Bool) where
  unfoldable mutual
    pub blamed : Node → String → String
    blamed (node type params kids) reason = blame known type (blamed_slots kids reason)

    pub blamed_nodes : Nodes → String → String
    blamed_nodes nil reason = reason
    blamed_nodes (cons n ns) reason = blamed_nodes ns (blamed n reason)

    pub blamed_slots : Slots → String → String
    blamed_slots Slots.end reason = reason
    blamed_slots (slot k ns rest) reason = blamed_slots rest (blamed_nodes ns reason)

add_slot_last :
    (k : String) (ns : Nodes) (ms : Slots)
    → Behind k (keys ms)
    → add_slot k ns ms ≡ append ms (slot k ns Slots.end)
unfolding add_slot
add_slot_last k ns Slots.end h = refl
add_slot_last k ns (slot j ks rest) h =
    rw (h.0, add_slot) (ap (slot j ks) (add_slot_last k ns rest h.1))

module _ (lib : ArduinoJson) (lawful : IsLawful lib) (known : String → Bool) where
  copied_filled :
      (params : Json)
      → copied lib (some (if is_null params then obj end else params))
        ≡ (if is_null params then obj end else params)
  unfolding copied
  copied_filled params =
      ground (arith, lawful.is_variant-some params, lawful.is_variant-some (obj end))

  mutual
    unfolding decode_node encode_node blamed filled finish

    decode-encode_node :
        (n : Node) (reason : String)
        → IsOrdered n
        → decode_node lib known (encode_node n) reason ≡ (filled n, blamed known n reason)
    decode-encode_node (node type params kids) reason h =
        rw (decode-encode_slots kids Slots.end reason h.0 h.1, copied_filled params)

    decode-encode_slots :
        (kids done : Slots) (reason : String)
        → Ascending (keys done) kids
        → SlotsOrdered kids
        → decode_slot_fields lib known (encode_slots kids) done reason
          ≡ (append done (filled_slots kids), blamed_slots known kids reason)
    decode-encode_slots Slots.end done reason a h = ap (λ ks. (ks, reason)) (sym (append-end done))
    decode-encode_slots (slot k ns rest) done reason a h =
        rw (decode-encode_nodes ns reason h.0, add_slot_last k (filled_nodes ns) done a.0)
          (decode-encode_slots rest (append done (slot k (filled_nodes ns) Slots.end))
              (blamed_nodes known ns reason) (rw (keys-append done k (filled_nodes ns)) a.1) h.1
            ∙ ap (λ ks. (ks, blamed_slots known rest (blamed_nodes known ns reason)))
                (append_assoc done (slot k (filled_nodes ns) Slots.end) (filled_slots rest)))

    pub decode-encode_nodes :
        (ns : Nodes) (reason : String)
        → NodesOrdered ns
        → decode_items lib known (encode_nodes ns) reason
          ≡ (filled_nodes ns, blamed_nodes known ns reason)
    decode-encode_nodes nil reason h = refl
    decode-encode_nodes (cons n ns) reason h =
        rw (decode-encode_node n reason h.0, decode-encode_nodes ns (blamed known n reason) h.1)
