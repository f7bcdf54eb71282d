-- ===== src/Codec/Ordered.antt =====
-- The sequences that src/core/SequenceCodec.cpp reads are in order.
use esp32_sequencer.Base.{
  ℕ, ◌<◌, ◌^◌, String, ◌≡◌, refl, inl, inr, Bool, Bool-cases, some, Option, none, [], All, str_eq,
  arith,
}
use esp32_sequencer.Json.{
  Json, null, bool, int, str, arr, obj, Items, Fields, end, field, ArduinoJson, get, or_default,
  as_items,
}
use esp32_sequencer.Model.{Slots}
use esp32_sequencer.Codec.{
  add_slot, finish, decode_node, decode_children, decode_slots, decode_slot_fields, decode_nodes,
  decode_items, decode_sequence, decode_sequences, decode_list,
}
use esp32_sequencer.Codec.Trees.{IsOrdered, NodesOrdered, SlotsOrdered}
use esp32_sequencer.Codec.Keys.{
  IsSorted, IsSorted-Ascending, BehindAll-none, add_slot-IsSorted, add_slot-SlotsOrdered,
}
use esp32_sequencer.Codec.RoundTrip.{IsSequence}

module _ (lib : ArduinoJson) (known : String → Bool) where
  finish-IsOrdered :
      (fs : Fields) (o : Slots × String)
      → IsSorted o.0
      → SlotsOrdered o.0
      → IsOrdered (finish lib known fs o).0
  unfolding finish
  finish-IsOrdered fs (ks, reason) s o = (IsSorted-Ascending [] ks (BehindAll-none ks) s, o)

  abbrev InOrder : Slots → Type 0
  InOrder ks = IsSorted ks × SlotsOrdered ks

  mutual
    unfolding decode_node

    decode_node-IsOrdered :
        (v : Json) (reason : String) → IsOrdered (decode_node lib known v reason).0
    decode_node-IsOrdered (obj fs) reason =
        let h = decode_children-InOrder fs reason in
        finish-IsOrdered fs (decode_children lib known fs reason) h.0 h.1
    decode_node-IsOrdered null reason = finish-IsOrdered end (Slots.end, reason) tt tt
    decode_node-IsOrdered (bool b) reason = finish-IsOrdered end (Slots.end, reason) tt tt
    decode_node-IsOrdered (int z) reason = finish-IsOrdered end (Slots.end, reason) tt tt
    decode_node-IsOrdered (Json.float s) reason = finish-IsOrdered end (Slots.end, reason) tt tt
    decode_node-IsOrdered (str s) reason = finish-IsOrdered end (Slots.end, reason) tt tt
    decode_node-IsOrdered (arr xs) reason = finish-IsOrdered end (Slots.end, reason) tt tt

    decode_children-InOrder :
        (fs : Fields) (reason : String) → InOrder (decode_children lib known fs reason).0
    decode_children-InOrder end reason = (tt, tt)
    decode_children-InOrder (field k v fs) reason = elim (Bool-cases (str_eq k "children")) [
      | inl this ↦ rw this (decode_slots-InOrder v reason)
      | inr other ↦ rw other (decode_children-InOrder fs reason)
    ]

    decode_slots-InOrder :
        (v : Json) (reason : String) → InOrder (decode_slots lib known v reason).0
    decode_slots-InOrder (obj fs) reason = decode_slot_fields-InOrder fs Slots.end reason (tt, tt)
    decode_slots-InOrder null reason = (tt, tt)
    decode_slots-InOrder (bool b) reason = (tt, tt)
    decode_slots-InOrder (int z) reason = (tt, tt)
    decode_slots-InOrder (Json.float s) reason = (tt, tt)
    decode_slots-InOrder (str s) reason = (tt, tt)
    decode_slots-InOrder (arr xs) reason = (tt, tt)

    decode_slot_fields-InOrder :
        (fs : Fields) (done : Slots) (reason : String)
        → InOrder done
        → InOrder (decode_slot_fields lib known fs done reason).0
    decode_slot_fields-InOrder end done reason h = h
    decode_slot_fields-InOrder (field k v fs) done reason h =
        let ns = decode_nodes lib known v reason in
        decode_slot_fields-InOrder fs (add_slot k ns.0 done) ns.1 (
          add_slot-IsSorted k ns.0 done h.0,
          add_slot-SlotsOrdered k ns.0 done (decode_nodes-NodesOrdered v reason) h.1,
        )

    decode_nodes-NodesOrdered :
        (v : Json) (reason : String) → NodesOrdered (decode_nodes lib known v reason).0
    decode_nodes-NodesOrdered (arr xs) reason = decode_items-NodesOrdered xs reason
    decode_nodes-NodesOrdered null reason = tt
    decode_nodes-NodesOrdered (bool b) reason = tt
    decode_nodes-NodesOrdered (int z) reason = tt
    decode_nodes-NodesOrdered (Json.float s) reason = tt
    decode_nodes-NodesOrdered (str s) reason = tt
    decode_nodes-NodesOrdered (obj fs) reason = tt

    decode_items-NodesOrdered :
        (xs : Items) (reason : String) → NodesOrdered (decode_items lib known xs reason).0
    decode_items-NodesOrdered Items.nil reason = tt
    decode_items-NodesOrdered (Items.cons v xs) reason = (
      decode_node-IsOrdered v reason,
      decode_items-NodesOrdered xs (decode_node lib known v reason).1,
    )

  -- What the library reads as a `uint32_t` is one.
  module _ (bounded : (v : Json) (n : ℕ) → lib.as_uint v ≡ some n → n < 2 ^ 32) where
    or_default_lt : (v : Json) (o : Option ℕ) → lib.as_uint v ≡ o → or_default o 60000 < 2 ^ 32
    or_default_lt v none h = omega arith
    or_default_lt v (some n) h = bounded v n h

    decode_sequence-IsSequence : (v : Json) → IsSequence (decode_sequence lib known v)
    unfolding decode_sequence
    decode_sequence-IsSequence v = (
      or_default_lt (get v "cooldownMs") (lib.as_uint (get v "cooldownMs")) refl,
      decode_nodes-NodesOrdered (get v "nodes") "",
    )

    decode_sequences-IsSequence : (xs : Items) → All IsSequence (decode_sequences lib known xs)
    unfolding decode_sequences
    decode_sequences-IsSequence Items.nil = tt
    decode_sequences-IsSequence (Items.cons v xs) =
        (decode_sequence-IsSequence v, decode_sequences-IsSequence xs)

    -- Where the library reads as `uint32_t` only what is below 2 ^ 32, the sequences that are read
    -- from any document have 32-bit cooldowns, and child slots in the strict order of their keys.
    pub decode_list-IsSequence : (v : Json) → All IsSequence (decode_list lib known v)
    unfolding decode_list
    decode_list-IsSequence v = decode_sequences-IsSequence (as_items v)
