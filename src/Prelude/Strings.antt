-- ===== src/Prelude/Strings.antt =====
-- What the source uses of `str`: `trim`, `join` and `contains`.
use Prim.Native.Char.{code}
use Prim.Native.String.{String, [], ◌∷◌, ◌++◌}
use mathlib.Core.Bool.{Bool, true, false, ◌&&◌, ◌||◌}
use mathlib.Core.List.{List}
use nausicaa.Prelude.Tests.{eqb, if◌then◌else◌}
use nausicaa.Prelude.Text.{is_whitespace, is_blank}

abbrev pub trim_start : String → String
trim_start [] = []
trim_start (c ∷ s) = let rest = trim_start s in if is_whitespace (code c) then rest else c ∷ s

abbrev pub trim_end : String → String
trim_end [] = []
trim_end (c ∷ s) = let rest = trim_end s in if is_blank (c ∷ s) then [] else c ∷ rest

abbrev pub trim : String → String
trim s = trim_end (trim_start s)

-- `starts_with`
unfoldable pub is_prefix : String → String → Bool
is_prefix [] s = true
is_prefix (c ∷ p) [] = false
is_prefix (c ∷ p) (d ∷ s) = eqb (code c) (code d) && is_prefix p s

-- `s.contains(p)`
unfoldable pub is_substring : String → String → Bool
unfolding is_prefix
is_substring p [] = is_prefix p []
is_substring p (c ∷ s) = is_prefix p (c ∷ s) || is_substring p s

abbrev pub is_empty : String → Bool
is_empty [] = true
is_empty (c ∷ s) = false

-- `join` of a slice of strings
abbrev pub join : String → List String → String
join separator List.[] = ""
join separator (List.◌∷◌ s List.[]) = s
join separator (List.◌∷◌ s (List.◌∷◌ t rest)) = s ++ separator ++ join separator (List.◌∷◌ t rest)
