-- ===== src/Codec/Keys.antt =====
-- The keys of child slots in the order of `std::map`, as src/core/SequenceCodec.cpp adds them.
use Prim.Native.Nat.{Ordering, compare as compare_ℕ}
use Prim.Native.Char.{code}
use Prim.Native.String.compare
use Prim.Native.String.{compare, then as both}
use esp32_sequencer.Base.{
  ℕ, String, ◌≡◌, refl, sym, ap, ◌∙◌, ◌⊎◌, inl, inr, List, [], ◌∷◌, ◌++◌, arith,
}
use esp32_sequencer.Model.{Nodes, nil, cons, Slots, slot}
use esp32_sequencer.Codec.{append_nodes, add_slot}
use esp32_sequencer.Codec.Trees.{Behind, Ascending, NodesOrdered, SlotsOrdered}

-- A text stands behind another.
abbrev pub Gt : String → String → Type 0
Gt s t = compare s t ≡ Ordering.gt

flip : Ordering → Ordering
flip Ordering.lt = Ordering.gt
flip Ordering.eq = Ordering.eq
flip Ordering.gt = Ordering.lt

compare_ℕ-flip : (a b : ℕ) → compare_ℕ b a ≡ flip (compare_ℕ a b)
unfolding flip
compare_ℕ-flip a b = ground arith

flip-then : (o x : Ordering) → both (flip o) (flip x) ≡ flip (both o x)
unfolding flip
flip-then Ordering.lt x = refl
flip-then Ordering.eq x = refl
flip-then Ordering.gt x = refl

compare-flip : (s t : String) → compare t s ≡ flip (compare s t)
unfolding flip
compare-flip String.[] String.[] = rw compare.nil-nil refl
compare-flip String.[] (String.◌∷◌ d t) = rw (compare.cons-nil d t, compare.nil-cons d t) refl
compare-flip (String.◌∷◌ c s) String.[] = rw (compare.nil-cons c s, compare.cons-nil c s) refl
compare-flip (String.◌∷◌ c s) (String.◌∷◌ d t) =
    rw
      (
        compare.cons-cons c d s t,
        compare.cons-cons d c t s,
        compare_ℕ-flip (code c) (code d),
        compare-flip s t,
      )
      (flip-then (compare_ℕ (code c) (code d)) (compare s t))

then_trans :
    (a b c : ℕ) (x y z : Ordering)
    → both (compare_ℕ a b) x ≡ Ordering.gt
    → both (compare_ℕ b c) y ≡ Ordering.gt
    → (x ≡ Ordering.gt → y ≡ Ordering.gt → z ≡ Ordering.gt)
    → both (compare_ℕ a c) z ≡ Ordering.gt
then_trans a b c x y z p q r = ground arith

Gt_trans : (s t u : String) → Gt s t → Gt t u → Gt s u
Gt_trans String.[] String.[] u p q =
    let h : Ordering.eq ≡ Ordering.gt = sym compare.nil-nil ∙ p in cc
Gt_trans String.[] (String.◌∷◌ d t) u p q =
    let h : Ordering.lt ≡ Ordering.gt = sym (compare.nil-cons d t) ∙ p in cc
Gt_trans (String.◌∷◌ c s) t String.[] p q = compare.cons-nil c s
Gt_trans (String.◌∷◌ c s) String.[] (String.◌∷◌ e u) p q =
    let h : Ordering.lt ≡ Ordering.gt = sym (compare.nil-cons e u) ∙ q in cc
Gt_trans (String.◌∷◌ c s) (String.◌∷◌ d t) (String.◌∷◌ e u) p q = rw (compare.cons-cons c e s u) (
    then_trans (code c) (code d) (code e) (compare s t) (compare t u) (compare s u)
      (sym (compare.cons-cons c d s t) ∙ p) (sym (compare.cons-cons d e t u) ∙ q)
      (λ p' q'. Gt_trans s t u p' q'))

-- Each key stands behind `k`.
abbrev pub Above : String → Slots → Type 0
Above k Slots.end = Unit
Above k (slot j ns rest) = Gt j k × Above k rest

abbrev pub IsSorted : Slots → Type 0
IsSorted Slots.end = Unit
IsSorted (slot k ns rest) = Above k rest × IsSorted rest

abbrev pub BehindAll : List String → Slots → Type 0
BehindAll before Slots.end = Unit
BehindAll before (slot k ns rest) = Behind k before × BehindAll before rest

Above-trans : (j k : String) (ks : Slots) → Gt j k → Above j ks → Above k ks
Above-trans j k Slots.end g a = tt
Above-trans j k (slot i ns rest) g a = (Gt_trans i j k a.0 g, Above-trans j k rest g a.1)

Behind-last :
    (k j : String) (before : List String) → Behind k before → Gt k j → Behind k (before ++ j ∷ [])
Behind-last k j [] b g = (g, tt)
Behind-last k j (i ∷ before) b g = (b.0, Behind-last k j before b.1 g)

BehindAll-last :
    (j : String) (before : List String) (ks : Slots)
    → BehindAll before ks
    → Above j ks
    → BehindAll (before ++ j ∷ []) ks
BehindAll-last j before Slots.end b a = tt
BehindAll-last j before (slot k ns rest) b a =
    (Behind-last k j before b.0 a.0, BehindAll-last j before rest b.1 a.1)

pub IsSorted-Ascending :
    (before : List String) (ks : Slots) → BehindAll before ks → IsSorted ks → Ascending before ks
IsSorted-Ascending before Slots.end b s = tt
IsSorted-Ascending before (slot k ns rest) b s =
    (b.0, IsSorted-Ascending (before ++ k ∷ []) rest (BehindAll-last k before rest b.1 s.0) s.1)

pub BehindAll-none : (ks : Slots) → BehindAll [] ks
BehindAll-none Slots.end = tt
BehindAll-none (slot k ns rest) = (tt, BehindAll-none rest)

pub compare-cases : (o : Ordering) → (o ≡ Ordering.lt) ⊎ (o ≡ Ordering.eq) ⊎ (o ≡ Ordering.gt)
compare-cases Ordering.lt = inl refl
compare-cases Ordering.eq = inr (inl refl)
compare-cases Ordering.gt = inr (inr refl)

Gt_flip : (k j : String) → compare k j ≡ Ordering.lt → Gt j k
unfolding flip
Gt_flip k j h = compare-flip k j ∙ ap flip h

add_slot-Above :
    (i k : String) (ns : Nodes) (ks : Slots) → Gt k i → Above i ks → Above i (add_slot k ns ks)
unfolding add_slot
add_slot-Above i k ns Slots.end g a = (g, tt)
add_slot-Above i k ns (slot j ms rest) g a = elim (compare-cases (compare k j)) [
  | inl lt ↦ rw (lt, add_slot) (g, a)
  | inr (inl eq) ↦ rw (eq, add_slot) a
  | inr (inr gt) ↦ rw (gt, add_slot) (a.0, add_slot-Above i k ns rest g a.1)
]

pub add_slot-IsSorted :
    (k : String) (ns : Nodes) (ks : Slots) → IsSorted ks → IsSorted (add_slot k ns ks)
unfolding add_slot
add_slot-IsSorted k ns Slots.end s = (tt, tt)
add_slot-IsSorted k ns (slot j ms rest) s = elim (compare-cases (compare k j)) [
  | inl lt ↦ let g = Gt_flip k j lt in rw (lt, add_slot) ((g, Above-trans j k rest g s.0), s)
  | inr (inl eq) ↦ rw (eq, add_slot) s
  | inr (inr gt) ↦
      rw (gt, add_slot) (add_slot-Above j k ns rest gt s.0, add_slot-IsSorted k ns rest s.1)
]

append_nodes-NodesOrdered :
    (ns ms : Nodes) → NodesOrdered ns → NodesOrdered ms → NodesOrdered (append_nodes ns ms)
append_nodes-NodesOrdered nil ms a b = b
append_nodes-NodesOrdered (cons n ns) ms a b = (a.0, append_nodes-NodesOrdered ns ms a.1 b)

pub add_slot-SlotsOrdered :
    (k : String) (ns : Nodes) (ks : Slots)
    → NodesOrdered ns
    → SlotsOrdered ks
    → SlotsOrdered (add_slot k ns ks)
unfolding add_slot
add_slot-SlotsOrdered k ns Slots.end o s = (o, tt)
add_slot-SlotsOrdered k ns (slot j ms rest) o s = elim (compare-cases (compare k j)) [
  | inl lt ↦ rw (lt, add_slot) (o, s)
  | inr (inl eq) ↦ rw (eq, add_slot) (append_nodes-NodesOrdered ms ns s.0 o, s.1)
  | inr (inr gt) ↦ rw (gt, add_slot) (s.0, add_slot-SlotsOrdered k ns rest o s.1)
]
