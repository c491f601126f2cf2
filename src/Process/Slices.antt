-- ===== src/Process/Slices.antt =====
-- crates/executor-process/src/editing.rs: positions in a text that is cut in two.
use nausicaa.Prelude.{
  ℕ, zero, suc, ◌+◌, ◌-◌, ◌<◌, ◌≤◌, ◌≡◌, refl, sym, ap, ◌∙◌, String, true, false, arith, byte_len,
  ltb, min, Bool-cases, inl, inr,
}
use Prim.Native.Char.{Char}
use Prim.Native.String.{[], ◌∷◌, ◌++◌}
use Prim.Native.String.append
use nausicaa.Prelude.Utf8.{width, is_char_boundary, slice, slice_from, slice_to}
use nausicaa.Process.Pages.{back}

pub width-bounds : (c : Char) → (1 ≤ width c) × (width c ≤ 4)
width-bounds c = ground arith

pub append_nil : (t : String) → [] ++ t ≡ t
append_nil t = λ i. append.nil t i

pub append_cons : (c : Char) (s t : String) → (c ∷ s) ++ t ≡ c ∷ (s ++ t)
append_cons c s t = λ i. append.cons c s t i

pub append_assoc : (s t u : String) → (s ++ t) ++ u ≡ s ++ (t ++ u)
append_assoc [] t u = rw (append_nil t, append_nil (t ++ u)) refl
append_assoc (c ∷ s) t u =
    rw (append_cons c s t, append_cons c (s ++ t) u, append_cons c s (t ++ u))
      (ap (λ r. c ∷ r) (append_assoc s t u))

pub append-nil : (s : String) → s ++ [] ≡ s
append-nil [] = append_nil []
append-nil (c ∷ s) = append_cons c s [] ∙ ap (λ r. c ∷ r) (append-nil s)

pub byte_len-append : (s t : String) → byte_len (s ++ t) ≡ byte_len s + byte_len t
unfolding byte_len
byte_len-append [] t = rw (append_nil t) (omega arith)
byte_len-append (c ∷ s) t = rw (append_cons c s t) (omega (arith, byte_len-append s t))

is_char_boundary-past :
    (c : Char) (s : String) (i j : ℕ)
    → j ≡ width c + i
    → is_char_boundary (c ∷ s) j ≡ is_char_boundary s i
unfolding is_char_boundary
is_char_boundary-past c s i zero h = absurd (omega (arith, h, (width-bounds c).0))
is_char_boundary-past c s i (suc j) h =
    let past : ltb (suc j) (width c) ≡ false = ground (arith, h) in
    let rest : suc j - width c ≡ i = omega (arith, h) in rw (past, rest) refl

pub slice_from-past :
    (c : Char) (s : String) (i j : ℕ) → j ≡ width c + i → slice_from (c ∷ s) j ≡ slice_from s i
unfolding slice_from
slice_from-past c s i zero h = absurd (omega (arith, h, (width-bounds c).0))
slice_from-past c s i (suc j) h =
    let rest : suc j - width c ≡ i = omega (arith, h) in ap (slice_from s) rest

slice_to-past :
    (c : Char) (s : String) (i j : ℕ) → j ≡ width c + i → slice_to (c ∷ s) j ≡ c ∷ slice_to s i
unfolding slice_to
slice_to-past c s i zero h = absurd (omega (arith, h, (width-bounds c).0))
slice_to-past c s i (suc j) h = let rest : suc j - width c ≡ i = omega (arith, h) in rw rest refl

pub is_char_boundary-append :
    (s t : String) (i : ℕ) → is_char_boundary (s ++ t) (byte_len s + i) ≡ is_char_boundary t i
unfolding byte_len
is_char_boundary-append [] t i = rw (append_nil t) (ap (is_char_boundary t) (omega arith))
is_char_boundary-append (c ∷ s) t i = rw (append_cons c s t) (
    is_char_boundary-past c (s ++ t) (byte_len s + i) (width c + byte_len s + i) (omega arith)
    ∙ is_char_boundary-append s t i)

pub is_char_boundary-append_len : (s t : String) → is_char_boundary (s ++ t) (byte_len s) ≡ true
unfolding is_char_boundary
is_char_boundary-append_len s t =
    ap (is_char_boundary (s ++ t)) (omega arith) ∙ is_char_boundary-append s t 0

pub slice_from-append : (s t : String) → slice_from (s ++ t) (byte_len s) ≡ t
unfolding slice_from byte_len
slice_from-append [] t = append_nil t
slice_from-append (c ∷ s) t =
    rw (append_cons c s t)
      (slice_from-past c (s ++ t) (byte_len s) (width c + byte_len s) refl ∙ slice_from-append s t)

pub slice_to-append : (s t : String) → slice_to (s ++ t) (byte_len s) ≡ s
unfolding slice_to byte_len
slice_to-append [] t = refl
slice_to-append (c ∷ s) t = rw (append_cons c s t) (
    slice_to-past c (s ++ t) (byte_len s) (width c + byte_len s) refl
    ∙ ap (λ r. c ∷ r) (slice_to-append s t))

-- at a boundary the loop stops
back-boundary : (s : String) (n : ℕ) → is_char_boundary s n ≡ true → back s n ≡ n
unfolding back
back-boundary s zero h = refl
back-boundary s (suc n) h = rw h refl

pub back-append :
    (s t : String) (k j : ℕ) → j ≡ byte_len s + k → back (s ++ t) j ≡ byte_len s + back t k
unfolding back
back-append s t zero j h =
    let same : j ≡ byte_len s = omega (arith, h) in
    rw (same, back-boundary (s ++ t) (byte_len s) (is_char_boundary-append_len s t)) (omega arith)
back-append s t (suc k) zero h = absurd (omega (arith, h))
back-append s t (suc k) (suc j) h =
    let here : is_char_boundary (s ++ t) (suc j) ≡ is_char_boundary t (suc k) =
      ap (is_char_boundary (s ++ t)) h ∙ is_char_boundary-append s t (suc k) in
    let before = back-append s t k j (omega (arith, h)) in
    rw (here, before)
      (elim (Bool-cases (is_char_boundary t (suc k))) [ inl e ↦ rw e h | inr e ↦ rw e refl ])

back-first : (c : Char) (s : String) (k : ℕ) → k < width c → back (c ∷ s) k ≡ 0
unfolding back is_char_boundary
back-first c s zero h = refl
back-first c s (suc k) h =
    let within : ltb (suc k) (width c) ≡ true = ground (arith, h) in
    rw within (back-first c s k (omega (arith, h)))

back-past :
    (c : Char) (s : String) (k : ℕ) → width c ≤ k → back (c ∷ s) k ≡ width c + back s (k - width c)
unfolding byte_len
back-past c s k h =
    let one : (c ∷ []) ++ s ≡ c ∷ s = append_cons c [] s ∙ ap (λ r. c ∷ r) (append_nil s) in
    ap (λ r. back r k) (sym one)
    ∙ (back-append (c ∷ []) s (k - width c) k (omega (arith, h)) ∙ omega arith)

-- where the loop stops, the text is cut in two
pub back-cut :
    (s : String) (k : ℕ)
    → (mid : String) × (rest : String) × (s ≡ mid ++ rest)
      × (back s k ≡ byte_len mid)
      × (byte_len mid ≤ k)
unfolding back byte_len is_char_boundary
back-cut [] zero = ([], [], sym (append_nil []), refl, omega arith)
back-cut [] (suc k) =
    let (mid, rest, p, q, r) = back-cut [] k in (mid, rest, p, q, omega (arith, r))
back-cut (c ∷ s) k = elim (Bool-cases (ltb k (width c))) [
  | inl h ↦ ([], c ∷ s, sym (append_nil (c ∷ s)), back-first c s k (ground (arith, h)), omega arith)
  | inr h ↦
      let (mid, rest, p, q, r) = back-cut s (k - width c) in
      (
        c ∷ mid,
        rest,
        ap (λ t. c ∷ t) p ∙ sym (append_cons c mid rest),
        back-past c s k (ground (arith, h)) ∙ ap (λ n. width c + n) q,
        ground (arith, h, r),
      )
]

-- room for a character of four bytes is room for the first
pub back-progress : (s : String) (k : ℕ) → min 4 (byte_len s) ≤ k → min 1 (byte_len s) ≤ back s k
unfolding byte_len
back-progress [] k b = omega arith
back-progress (c ∷ s) k b =
    let (low, high) = width-bounds c in omega (arith, back-past c s k (omega (arith, b, high)), low)

pub slice-cut :
    (before after mid rest : String)
    → after ≡ mid ++ rest
    → slice (before ++ after) (byte_len before) (byte_len (before ++ mid)) ≡ mid
slice-cut before after mid rest p =
    let long : byte_len (before ++ mid) - byte_len before ≡ byte_len mid =
      omega (arith, byte_len-append before mid) in
    ap (λ t. slice_to t (byte_len (before ++ mid) - byte_len before))
      (slice_from-append before after ∙ p)
    ∙ (ap (slice_to (mid ++ rest)) long ∙ slice_to-append mid rest)

pub empty-byte_len : (s : String) → byte_len s ≡ 0 → s ≡ []
unfolding byte_len
empty-byte_len [] h = refl
empty-byte_len (c ∷ s) h = absurd (omega (arith, h, (width-bounds c).0))
