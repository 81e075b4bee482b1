-- ===== src/Go/Strings.antt =====
-- Package `strings`.
pub mod Prefix
pub mod Split
use mathlib.Core.List.{reverse}
use matrisea.Common.{ℕ, Str, Bool, true, false, ◌&&◌, ◌||◌, List, [], ◌∷◌, ◌==◌, if◌then◌else◌}

unfoldable pub has_prefix : Str → Str → Bool
has_prefix s [] = true
has_prefix [] (p ∷ ps) = false
has_prefix (c ∷ s) (p ∷ ps) = c == p && has_prefix s ps

-- `strings.Contains`: the second string occurs at some position of the first.
unfoldable pub contains : Str → Str → Bool
contains [] t = has_prefix [] t
contains (c ∷ s) t = has_prefix (c ∷ s) t || contains s t

unfoldable pub has_suffix : Str → Str → Bool
unfolding has_prefix
has_suffix s t = has_prefix (reverse s) (reverse t)

-- `strings.ReplaceAll(s, c, "")` for a string `c` of one byte.
unfoldable pub remove_byte : ℕ → Str → Str
remove_byte c [] = []
remove_byte c (a ∷ s) = let rest = remove_byte c s in if a == c then rest else a ∷ rest

abbrev pub cons_first : ℕ → List Str → List Str
cons_first c [] = (c ∷ []) ∷ []
cons_first c (w ∷ ws) = (c ∷ w) ∷ ws

-- `strings.Split(s, sep)` for a separator of one byte: never an empty list.
unfoldable pub split : ℕ → Str → List Str
split sep [] = [] ∷ []
split sep (c ∷ s) = let rest = split sep s in if c == sep then [] ∷ rest else cons_first c rest
