-- ===== src/Prelude/Utf8.antt =====
-- What the source uses of the bytes of a `str`: boundaries of characters, slices, `find` and
-- `replace_range`. Positions count the bytes of the UTF-8 encoding.
use Prim.Native.Nat.{ℕ, zero, suc, ◌+◌, ◌-◌}
use Prim.Native.Char.{Char, code}
use Prim.Native.String.{String, [], ◌∷◌, ◌++◌}
use mathlib.Core.Bool.{Bool, true, false}
use mathlib.Core.Option.{Option, none, some}
use nausicaa.Prelude.Tests.{ltb, if◌then◌else◌}
use nausicaa.Prelude.Text.{char_bytes}
use nausicaa.Prelude.Strings.{is_prefix}

abbrev pub width : Char → ℕ
width c = char_bytes (code c)

unfoldable pub is_char_boundary : String → ℕ → Bool
is_char_boundary s zero = true
is_char_boundary [] (suc i) = false
is_char_boundary (c ∷ s) (suc i) =
    let later = is_char_boundary s (suc i - width c) in
    if ltb (suc i) (width c) then false else later

-- `&s[i..]`, for a boundary `i`
unfoldable pub slice_from : String → ℕ → String
slice_from s zero = s
slice_from [] (suc i) = []
slice_from (c ∷ s) (suc i) = slice_from s (suc i - width c)

-- `&s[..i]`, for a boundary `i`
unfoldable pub slice_to : String → ℕ → String
slice_to s zero = []
slice_to [] (suc i) = []
slice_to (c ∷ s) (suc i) = c ∷ slice_to s (suc i - width c)

-- `&s[a..b]`
abbrev pub slice : String → ℕ → ℕ → String
slice s a b = slice_to (slice_from s a) (b - a)

abbrev pub after_char : ℕ → Option ℕ → Option ℕ
after_char n none = none
after_char n (some i) = some (n + i)

-- `s.find(p)`: where the first match starts
unfoldable pub find : String → String → Option ℕ
find [] p = if is_prefix p [] then some 0 else none
find (c ∷ s) p =
    let later = after_char (width c) (find s p) in if is_prefix p (c ∷ s) then some 0 else later

-- `s.replace_range(a..b, new)`
unfoldable pub replace_range : String → ℕ → ℕ → String → String
replace_range s a b new = slice_to s a ++ (new ++ slice_from s b)
