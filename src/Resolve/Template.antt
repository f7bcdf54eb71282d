-- ===== src/Resolve/Template.antt =====
-- Templates of src/core/ResolveParams.cpp: texts and placeholders `${name}` in turn.
use Prim.Native.Nat.{ℕ, ◌+◌}
use Prim.Native.Char.{Char, code}
use Prim.Native.String.{String, [], ◌∷◌, ◌++◌, count}
use Prim.Native.String.append
use Prim.Native.String.count
use Prim.Native.Nat.add
use mathlib.Core.List.{List}
use esp32_sequencer.Base.{◌≡◌, refl, sym, ap, ◌∙◌, none, some, arith, ◌==◌, false}
use esp32_sequencer.Base.Result.{Result, ok, err, ◌>>=◌, map_ok}
use esp32_sequencer.Json.{ArduinoJson}
use esp32_sequencer.Model.{ParamScope}
use esp32_sequencer.Resolve.{before_brace, placeholder, lookup, stringify, interpolate}

pub data Piece : Type 0 where
  verbatim : String → Piece
  param : String → Piece

-- The characters of a text differ from one character.
abbrev pub Free : ℕ → String → Type 0
Free b [] = Unit
Free b (c ∷ s) = ((code c == b) ≡ false) × Free b s

-- A text has no `$`, and a name no `}`.
abbrev pub IsPlain : List Piece → Type 0
IsPlain List.[] = Unit
IsPlain (List.◌∷◌ (verbatim s) ps) = Free b'$' s × IsPlain ps
IsPlain (List.◌∷◌ (param n) ps) = Free b'}' n × IsPlain ps

-- The template that a user writes.
abbrev pub render : List Piece → String
render List.[] = []
render (List.◌∷◌ (verbatim s) ps) = s ++ render ps
render (List.◌∷◌ (param n) ps) = "$" ++ ("{" ++ (n ++ ("}" ++ render ps)))

-- The text that is meant: each placeholder's value, in place.
abbrev pub fill : ArduinoJson → ParamScope → List Piece → Result String
fill lib scope List.[] = ok []
fill lib scope (List.◌∷◌ (verbatim s) ps) = map_ok (λ out. s ++ out) (fill lib scope ps)
fill lib scope (List.◌∷◌ (param n) ps) =
    lookup n scope >>= λ v. map_ok (λ out. stringify lib v ++ out) (fill lib scope ps)

before_brace_lem : (n rest : String) → Free b'}' n → before_brace (n ++ ("}" ++ rest)) ≡ some n
unfolding before_brace
before_brace_lem [] rest h = rw (append.nil, append.cons)
before_brace_lem (c ∷ n) rest h =
    rw (append.cons, before_brace, h.0) (rw (before_brace_lem n rest h.1))

map_nil : (r : Result String) → map_ok (λ out. [] ++ out) r ≡ r
map_nil (ok a) = rw append.nil
map_nil (err e) = refl

map_cons :
    (c : Char) (s : String) (r : Result String)
    → map_ok (λ out. c ∷ out) (map_ok (λ out. s ++ out) r) ≡ map_ok (λ out. (c ∷ s) ++ out) r
map_cons c s (ok a) = rw append.cons
map_cons c s (err e) = refl

one_char : (c : Char) (t : String) → (c ∷ []) ++ t ≡ c ∷ t
one_char c t = rw (append.cons, append.nil)

placeholder_plain : (c : Char) (s : String) → (code c == b'$') ≡ false → placeholder c s ≡ none
unfolding placeholder
placeholder_plain c s h = rw h

placeholder_lem :
    (n rest : String) → Free b'}' n → placeholder "$" ("{" ++ (n ++ ("}" ++ rest))) ≡ some n
unfolding placeholder
placeholder_lem n rest h = rw (one_char "{" (n ++ ("}" ++ rest))) (before_brace_lem n rest h)

module _ (lib : ArduinoJson) (scope : ParamScope) where
  interpolate_skip :
      (s rest : String) (k : ℕ)
      → interpolate lib scope (s ++ rest) (count s + k) ≡ interpolate lib scope rest k
  unfolding interpolate
  interpolate_skip [] rest k = rw (append.nil, count.nil, add.zero)
  interpolate_skip (c ∷ s) rest k =
      rw (append.cons, count.cons, add.suc) (interpolate_skip s rest k)

  interpolate-none :
      (c : Char) (s : String)
      → placeholder c s ≡ none
      → interpolate lib scope (c ∷ s) 0 ≡ map_ok (λ out. c ∷ out) (interpolate lib scope s 0)
  unfolding interpolate
  interpolate-none c s e = rw (e, interpolate)

  interpolate-some :
      (c : Char) (s n : String)
      → placeholder c s ≡ some n
      → interpolate lib scope (c ∷ s) 0 ≡ (
          lookup n scope >>= λ v.
          map_ok (λ out. stringify lib v ++ out) (interpolate lib scope s (count n + 2)))
  unfolding interpolate
  interpolate-some c s n e = rw (e, interpolate)

  interpolate_text :
      (s rest : String)
      → Free b'$' s
      → interpolate lib scope (s ++ rest) 0
        ≡ map_ok (λ out. s ++ out) (interpolate lib scope rest 0)
  interpolate_text [] rest h = rw append.nil (sym (map_nil (interpolate lib scope rest 0)))
  interpolate_text (c ∷ s) rest h =
      rw
        (
          append.cons,
          interpolate-none c (s ++ rest) (placeholder_plain c _ h.0),
          interpolate_text s rest h.1,
        )
        (map_cons c s (interpolate lib scope rest 0))

  after_placeholder :
      (n rest : String)
      → interpolate lib scope ("{" ++ (n ++ ("}" ++ rest))) (count n + 2)
        ≡ interpolate lib scope rest 0
  after_placeholder n rest =
      ap (interpolate lib scope ("{" ++ (n ++ ("}" ++ rest)))) (omega arith)
      ∙ interpolate_skip "{" (n ++ ("}" ++ rest)) (count n + (1 + 0))
      ∙ interpolate_skip n ("}" ++ rest) (1 + 0)
      ∙ interpolate_skip "}" rest 0

  -- A placeholder at the front is replaced by its value.
  interpolate_param :
      (n rest : String)
      → Free b'}' n
      → interpolate lib scope ("$" ++ ("{" ++ (n ++ ("}" ++ rest)))) 0 ≡ (
          lookup n scope >>= λ v.
          map_ok (λ out. stringify lib v ++ out) (interpolate lib scope rest 0))
  interpolate_param n rest h = rw (
    one_char "$" ("{" ++ (n ++ ("}" ++ rest))),
    interpolate-some "$" _ n (placeholder_lem n rest h),
    after_placeholder n rest,
  )

  -- A template without stray `$` in its texts and `}` in its names is filled piece by piece; the
  -- error, if any, is that of its first unknown name.
  pub interpolate-render :
      (ps : List Piece) → IsPlain ps → interpolate lib scope (render ps) 0 ≡ fill lib scope ps
  unfolding interpolate
  interpolate-render List.[] h = refl
  interpolate-render (List.◌∷◌ (verbatim s) ps) h =
      rw (interpolate_text s (render ps) h.0, interpolate-render ps h.1)
  interpolate-render (List.◌∷◌ (param n) ps) h =
      rw (interpolate_param n (render ps) h.0, interpolate-render ps h.1)
