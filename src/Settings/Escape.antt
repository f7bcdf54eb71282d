-- ===== src/Settings/Escape.antt =====
-- Reading an escaped attribute back (src/ConfigForm.cpp).
use Prim.Native.Char.{Char, code}
use Prim.Native.String.append
use Prim.Native.String.{◌++◌ as cat}
use esp32_sequencer.Base.{
  ℕ, zero, suc, String, ◌≡◌, ◌≢◌, refl, ap, ◌∙◌, Bool, true, false, ◌&&◌, List, [], ◌∷◌, ◌++◌, All,
  ◌==◌, if◌then◌else◌, arith, Bool-cases, inl, inr,
}
use esp32_sequencer.Query.{codes}
use esp32_sequencer.Settings.Form.{escape_char, html_attr_escape}

abbrev pub is_prefix : List ℕ → List ℕ → Bool
is_prefix [] s = true
is_prefix (p ∷ ps) [] = false
is_prefix (p ∷ ps) (c ∷ s) = p == c && is_prefix ps s

-- How a browser reads an attribute's value, as far as these five names go: an entity stands for its
-- character. The number is that of the characters still to be passed over.
unfoldable pub unescape : ℕ → List ℕ → List ℕ
unescape skip [] = []
unescape (suc skip) (c ∷ s) = unescape skip s
unescape zero (c ∷ s) =
    let amp = 38 ∷ unescape 4 s in
    let lt = 60 ∷ unescape 3 s in
    let gt = 62 ∷ unescape 3 s in
    let quot = 34 ∷ unescape 5 s in
    let apos = 39 ∷ unescape 4 s in
    let plain = c ∷ unescape 0 s in
    if is_prefix (codes "&amp;") (c ∷ s)
    then amp
    else if is_prefix (codes "&lt;") (c ∷ s)
    then lt
    else if is_prefix (codes "&gt;") (c ∷ s)
    then gt
    else if is_prefix (codes "&quot;") (c ∷ s)
    then quot
    else if is_prefix (codes "&#39;") (c ∷ s)
    then apos
    else plain

codes-cat : (s t : String) → codes (cat s t) ≡ codes s ++ codes t
codes-cat String.[] t = rw append.nil refl
codes-cat (String.◌∷◌ c s) t = rw append.cons (ap (λ z. code c ∷ z) (codes-cat s t))

-- The characters that end an attribute's value or begin a tag.
abbrev pub IsInert : ℕ → Type 0
IsInert c = (c ≢ b'"') × (c ≢ b'\'') × (c ≢ b'<') × (c ≢ b'>')

-- What holds of the five entities, and of any other character by itself, holds of what stands for a
-- character.
escape_char-cases :
    (P : String → Type 0) (c : Char)
    → (code c ≡ 38 → P "&amp;")
    → (code c ≡ 60 → P "&lt;")
    → (code c ≡ 62 → P "&gt;")
    → (code c ≡ 34 → P "&quot;")
    → (code c ≡ 39 → P "&#39;")
    → (code c ≢ 38
        → code c ≢ 60
        → code c ≢ 62
        → code c ≢ 34
        → code c ≢ 39
        → P (String.◌∷◌ c String.[]))
    → P (escape_char c)
unfolding escape_char
escape_char-cases P c amp lt gt quot apos plain = elim (Bool-cases (code c == 38)) [
  | inl e ↦ rw e (amp (ground arith))
  | inr e1 ↦ elim (Bool-cases (code c == 60)) [
    | inl e ↦ rw (e1, e) (lt (ground arith))
    | inr e2 ↦ elim (Bool-cases (code c == 62)) [
      | inl e ↦ rw (e1, e2, e) (gt (ground arith))
      | inr e3 ↦ elim (Bool-cases (code c == 34)) [
        | inl e ↦ rw (e1, e2, e3, e) (quot (ground arith))
        | inr e4 ↦ elim (Bool-cases (code c == 39)) [
          | inl e ↦ rw (e1, e2, e3, e4, e) (apos (ground arith))
          | inr e5 ↦
              rw (e1, e2, e3, e4, e5)
                (plain (ground arith) (ground arith) (ground arith) (ground arith) (ground arith))
        ]
      ]
    ]
  ]
]

unescape-escape_char :
    (c : Char) (s : List ℕ) → unescape 0 (codes (escape_char c) ++ s) ≡ code c ∷ unescape 0 s
unfolding unescape
unescape-escape_char c s =
    escape_char-cases (λ t. unescape 0 (codes t ++ s) ≡ code c ∷ unescape 0 s) c (λ h. rw h refl)
      (λ h. rw h refl) (λ h. rw h refl) (λ h. rw h refl) (λ h. rw h refl)
      (λ a b d e f. ground arith)

escape_char-IsInert : (c : Char) → All IsInert (codes (escape_char c))
escape_char-IsInert c =
    escape_char-cases (λ t. All IsInert (codes t)) c (λ h. omega arith) (λ h. omega arith)
      (λ h. omega arith) (λ h. omega arith) (λ h. omega arith) (λ a b d e f. ((e, f, b, d), tt))

All-append {κ} : (P : ℕ → Type κ) (xs ys : List ℕ) → All P xs → All P ys → All P (xs ++ ys)
All-append P [] ys h k = k
All-append P (x ∷ xs) ys h k = (h.0, All-append P xs ys h.1 k)

unescape-html_attr_escape : (s : String) → unescape 0 (codes (html_attr_escape s)) ≡ codes s
unfolding html_attr_escape unescape
unescape-html_attr_escape String.[] = refl
unescape-html_attr_escape (String.◌∷◌ c s) = rw (codes-cat (escape_char c) (html_attr_escape s)) (
    unescape-escape_char c (codes (html_attr_escape s))
    ∙ ap (λ z. code c ∷ z) (unescape-html_attr_escape s))

html_attr_escape-IsInert : (s : String) → All IsInert (codes (html_attr_escape s))
unfolding html_attr_escape
html_attr_escape-IsInert String.[] = tt
html_attr_escape-IsInert (String.◌∷◌ c s) = rw (codes-cat (escape_char c) (html_attr_escape s)) (
    All-append IsInert (codes (escape_char c)) _ (escape_char-IsInert c)
      (html_attr_escape-IsInert s))

-- An escaped text holds no quote and no angle bracket, so that it neither ends the attribute nor
-- begins a tag, and a reader of the attribute gets the text itself.
pub html_attr_escape_lem :
    (s : String)
    → All IsInert (codes (html_attr_escape s)) × (unescape 0 (codes (html_attr_escape s)) ≡ codes s)
html_attr_escape_lem s = (html_attr_escape-IsInert s, unescape-html_attr_escape s)
