-- ===== src/Prelude/Lines.antt =====
-- The lines of a file of records: what the source uses of slices of bytes and of `BufRead`.
use Prim.Native.Nat.{ℕ}
use Prim.Native.String.{String}
use mathlib.Core.Path.{◌≡◌, refl, ◌∙◌}
use mathlib.Core.Bool.{Bool, true, false, not}
use mathlib.Core.List.{List, [], ◌∷◌, ◌++◌, append_assoc}
use native.Mathlib.Omega.{arith}
use nausicaa.Prelude.Tests.{if◌then◌else◌, eqb}
use nausicaa.Prelude.Lists.{all}
use nausicaa.Prelude.LogFile.{Bytes}
use nausicaa.Prelude.Results.{Result, ok}

-- `bytes.ends_with(b"\n")`
unfoldable pub ends_with_newline : Bytes → Bool
ends_with_newline [] = false
ends_with_newline (b ∷ []) = eqb b b'\n'
ends_with_newline (b ∷ c ∷ rest) = ends_with_newline (c ∷ rest)

abbrev pub prepend : ℕ → List Bytes → List Bytes
prepend b [] = (b ∷ []) ∷ []
prepend b (line ∷ lines) = (b ∷ line) ∷ lines

-- `bytes.split_inclusive(|b| *b == b'\n')`
unfoldable pub split_inclusive : Bytes → List Bytes
split_inclusive [] = []
split_inclusive (b ∷ rest) =
    let lines = split_inclusive rest in if eqb b b'\n' then (b ∷ []) ∷ lines else prepend b lines

abbrev pub strip_carriage_return : Bytes → Bytes
strip_carriage_return [] = []
strip_carriage_return (b ∷ []) = if eqb b b'\r' then [] else b ∷ []
strip_carriage_return (b ∷ c ∷ rest) = b ∷ strip_carriage_return (c ∷ rest)

-- the line without its end, which is `\n` or `\r\n`, or nothing on the last line
abbrev pub strip_newline : Bytes → Bytes
strip_newline [] = []
strip_newline (b ∷ []) = if eqb b b'\n' then [] else b ∷ []
strip_newline (b ∷ c ∷ rest) = b ∷ strip_newline (c ∷ rest)

unfoldable pub strip_line : Bytes → Bytes
unfolding ends_with_newline
strip_line bytes =
    if ends_with_newline bytes then strip_carriage_return (strip_newline bytes) else bytes

abbrev pub is_inline : ℕ → Bool
is_inline b = not (eqb b b'\n')

-- a line without a newline of its own, and the lines after it
pub split_inclusive-line :
    (line rest : Bytes)
    → all is_inline line ≡ true
    → split_inclusive (line ++ b'\n' ∷ rest) ≡ (line ++ b'\n' ∷ []) ∷ split_inclusive rest
unfolding split_inclusive all
split_inclusive-line [] rest h = refl
split_inclusive-line (b ∷ line) rest h =
    let inline : not (eqb b b'\n') ≡ true = ground (arith, h) in
    let others : all is_inline line ≡ true = ground (arith, h) in
    rw (split_inclusive-line line rest others) (ground (arith, inline))

pub ends_with_newline-line :
    (line rest : Bytes)
    → ends_with_newline (line ++ b'\n' ∷ rest) ≡ ends_with_newline (b'\n' ∷ rest)
unfolding ends_with_newline
ends_with_newline-line [] rest = refl
ends_with_newline-line (b ∷ []) rest = refl
ends_with_newline-line (b ∷ c ∷ line) rest = ends_with_newline-line (c ∷ line) rest

-- records, one on a line
module _ {R : Type 0} (encode : R → Result Bytes String) where
  -- the bytes are the records, one on a line
  abbrev pub Encodes : List R → Bytes → Type 0
  Encodes [] bytes = bytes ≡ []
  Encodes (r ∷ records) bytes =
      (line : Bytes) × (rest : Bytes) × (encode r ≡ ok line)
      × (bytes ≡ line ++ b'\n' ∷ rest)
      × Encodes records rest

  pub ends_with_newline-Encodes :
      (records : List R) (bytes : Bytes)
      → Encodes records bytes
      → ends_with_newline (b'\n' ∷ bytes) ≡ true
  unfolding ends_with_newline
  ends_with_newline-Encodes [] bytes e = rw e refl
  ends_with_newline-Encodes (r ∷ records) bytes (line, rest, p, q, e) =
      rw q (ends_with_newline-line (b'\n' ∷ line) rest ∙ ends_with_newline-Encodes records rest e)

  pub Encodes-append :
      (records : List R) (bytes line : Bytes) (r : R)
      → Encodes records bytes
      → encode r ≡ ok line
      → Encodes (records ++ r ∷ []) (bytes ++ (line ++ b'\n' ∷ []))
  Encodes-append [] bytes line r e p = (line, [], p, rw e refl, refl)
  Encodes-append (x ∷ records) bytes line r (first, rest, p, q, e) h = (
    first,
    rest ++ (line ++ b'\n' ∷ []),
    p,
    rw q (append_assoc first (b'\n' ∷ rest) (line ++ b'\n' ∷ [])),
    Encodes-append records rest line r e h,
  )
