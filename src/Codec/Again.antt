-- ===== src/Codec/Again.antt =====
-- What src/core/SequenceCodec.cpp writes of sequences that were read or marked.
use esp32_sequencer.Base.{String, ◌≡◌, refl, Bool, List, [], ◌∷◌, map, arith}
use esp32_sequencer.Model.{Sequence, Node, node, Nodes, nil, cons, Slots, slot}
use esp32_sequencer.Codec.{
  encode_node, encode_slots, encode_nodes, encode_sequence, encode_sequences, encode_list,
}
use esp32_sequencer.Codec.Trees.{filled, filled_nodes, filled_slots}
use esp32_sequencer.Codec.RoundTrip.{reread}

-- Null parameters are written as the object that they are read as.
mutual
  unfolding encode_node filled

  encode_node-filled : (n : Node) → encode_node (filled n) ≡ encode_node n
  encode_node-filled (node type params kids) = rw (encode_slots-filled_slots kids) (ground arith)

  encode_slots-filled_slots : (ks : Slots) → encode_slots (filled_slots ks) ≡ encode_slots ks
  encode_slots-filled_slots Slots.end = refl
  encode_slots-filled_slots (slot k ns rest) =
      rw (encode_nodes-filled_nodes ns, encode_slots-filled_slots rest)

  encode_nodes-filled_nodes : (ns : Nodes) → encode_nodes (filled_nodes ns) ≡ encode_nodes ns
  encode_nodes-filled_nodes nil = refl
  encode_nodes-filled_nodes (cons n ns) = rw (encode_node-filled n, encode_nodes-filled_nodes ns)

encode_sequences-map :
    (f : Sequence → Sequence) (ss : List Sequence)
    → ((s : Sequence) → encode_sequence (f s) ≡ encode_sequence s)
    → encode_sequences (map f ss) ≡ encode_sequences ss
unfolding encode_sequences
encode_sequences-map f [] h = refl
encode_sequences-map f (s ∷ ss) h = rw (h s, encode_sequences-map f ss h)

encode_sequence-reread :
    (known : String → Bool) (s : Sequence) → encode_sequence (reread known s) ≡ encode_sequence s
unfolding encode_sequence
encode_sequence-reread known s = rw (encode_nodes-filled_nodes s.nodes)

-- Sequences that were read back are written as they were.
pub encode_list-reread :
    (known : String → Bool) (ss : List Sequence)
    → encode_list (map (reread known) ss) ≡ encode_list ss
unfolding encode_list
encode_list-reread known ss =
    rw (encode_sequences-map (reread known) ss (encode_sequence-reread known))

-- So are sequences that differ in their marks.
pub encode_list-map :
    (f : Sequence → Sequence) (ss : List Sequence)
    → ((s : Sequence) → encode_sequence (f s) ≡ encode_sequence s)
    → encode_list (map f ss) ≡ encode_list ss
unfolding encode_list
encode_list-map f ss h = rw (encode_sequences-map f ss h)
