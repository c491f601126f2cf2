-- ===== src/Prelude/Text.antt =====
-- What the source uses of `str`: `trim().is_empty()`.
use Prim.Native.Nat.{ℕ, zero, suc, ◌+◌, ◌/◌, ◌%◌}
use Prim.Native.Char.{code}
use Prim.Native.String.{String, [], ◌∷◌, ◌++◌}
use mathlib.Core.Path.{◌≡◌, refl}
use mathlib.Core.Bool.{Bool, true, ◌&&◌, ◌||◌}
use nausicaa.Prelude.Tests.{leb, ltb, eqb, if◌then◌else◌}

-- `char::is_whitespace`: the code points of Unicode's White_Space
unfoldable pub is_whitespace : ℕ → Bool
is_whitespace c =
    (leb 9 c && leb c 13)
    || (eqb c 32 || eqb c 0x85 || eqb c 0xA0 || eqb c 0x1680)
    || (leb 0x2000 c && leb c 0x200A)
    || (eqb c 0x2028 || eqb c 0x2029 || eqb c 0x202F || eqb c 0x205F || eqb c 0x3000)

-- `s.trim().is_empty()`: nothing is left when white space is cut from both ends
unfoldable pub is_blank : String → Bool
unfolding is_whitespace
is_blank [] = true
is_blank (c ∷ s) = is_whitespace (code c) && is_blank s

-- `str::len`: the bytes of the UTF-8 encoding
abbrev pub char_bytes : ℕ → ℕ
char_bytes c = if ltb c 0x80 then 1 else if ltb c 0x800 then 2 else if ltb c 0x10000 then 3 else 4

unfoldable pub byte_len : String → ℕ
byte_len [] = 0
byte_len (c ∷ s) = char_bytes (code c) + byte_len s

-- `Display` of an unsigned number: its decimal digits. There are at most as many as the fuel, one
-- more than the number itself.
unfoldable pub digit : ℕ → String
digit d =
    if eqb d 0
    then "0"
    else if eqb d 1
    then "1"
    else if eqb d 2
    then "2"
    else if eqb d 3
    then "3"
    else if eqb d 4
    then "4"
    else if eqb d 5
    then "5"
    else if eqb d 6
    then "6"
    else if eqb d 7
    then "7"
    else if eqb d 8
    then "8"
    else "9"

unfoldable pub digits_of : ℕ → ℕ → String
digits_of zero n = ""
digits_of (suc fuel) n =
    let rest = digits_of fuel (n / 10) in if ltb n 10 then digit n else rest ++ digit (n % 10)

unfoldable pub show : ℕ → String
unfolding digits_of digit
show n = digits_of (suc n) n

show-thousand : show 1024 ≡ "1024"
unfolding show
show-thousand = refl
