-- ===== src/Blocks/Text.antt =====
-- Texts as the blocks cut them: `indexOf`, `substring` and `trim` of the Arduino `String`.
use Prim.Native.Char.{Char, code}
use esp32_sequencer.Base.{ℕ, String, Bool, Option, none, some, List, [], ◌∷◌, ◌==◌, if◌then◌else◌}
use esp32_sequencer.Query.{is_space}

-- The texts before and behind the first character of a code.
abbrev pub onto_before : Char → Option (String × String) → Option (String × String)
onto_before c none = none
onto_before c (some (s, t)) = some (String.◌∷◌ c s, t)

unfoldable pub cut : ℕ → String → Option (String × String)
cut n String.[] = none
cut n (String.◌∷◌ c s) =
    let rest = cut n s in if code c == n then some (String.[], s) else onto_before c rest

-- `trim`
unfoldable pub trim_start : String → String
trim_start String.[] = String.[]
trim_start (String.◌∷◌ c s) =
    let rest = trim_start s in if is_space (code c) then rest else String.◌∷◌ c s

abbrev pub unless_space : Char → String → String
unless_space c String.[] = if is_space (code c) then String.[] else String.◌∷◌ c String.[]
unless_space c (String.◌∷◌ d s) = String.◌∷◌ c (String.◌∷◌ d s)

unfoldable pub trim_end : String → String
trim_end String.[] = String.[]
trim_end (String.◌∷◌ c s) = unless_space c (trim_end s)

unfoldable pub trim : String → String
trim s = trim_end (trim_start s)

-- The pieces between the characters that `sep` picks.
abbrev pub onto_first : Char → List String → List String
onto_first c [] = String.◌∷◌ c String.[] ∷ []
onto_first c (s ∷ ss) = String.◌∷◌ c s ∷ ss

unfoldable pub pieces : (ℕ → Bool) → String → List String
pieces sep String.[] = String.[] ∷ []
pieces sep (String.◌∷◌ c s) =
    let rest = pieces sep s in if sep (code c) then String.[] ∷ rest else onto_first c rest
