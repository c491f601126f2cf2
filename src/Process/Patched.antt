-- ===== src/Process/Patched.antt =====
-- crates/executor-process/src/editing.rs: what a patch makes of a content.
use nausicaa.Prelude.{
  ℕ, ◌+◌, ◌≤◌, ◌≡◌, refl, sym, ap, ◌∙◌, String, true, false, Option, none, some, ok, arith,
  byte_len, ltb, Bool-cases, Option-cases, inl, inr,
}
use Prim.Native.Char.{Char}
use Prim.Native.String.{[], ◌∷◌, ◌++◌}
use text.Mathlib.TextEquality.{Char-path}
use text.Mathlib.TextLemmas.{head-eq_of_cons-eq, tail-eq_of_cons-eq}
use nausicaa.Prelude.Strings.{is_prefix, is_substring}
use nausicaa.Prelude.Utf8.{after_char, width, find, slice_from, slice_to, replace_range}
use nausicaa.Process.Editing.{max_file_bytes}
use nausicaa.Process.Patch.{patch_of, first_width}
use nausicaa.Process.Slices.{
  append_nil, append_cons, append_assoc, slice_from-append, slice_from-past, slice_to-append,
  byte_len-append, width-bounds,
}

is_prefix-cut : (p s : String) → is_prefix p s ≡ true → (post : String) × (s ≡ p ++ post)
unfolding is_prefix
is_prefix-cut [] s h = (s, sym (append_nil s))
is_prefix-cut (c ∷ p) [] h = absurd (ground (arith, h))
is_prefix-cut (c ∷ p) (d ∷ s) h =
    let same : d ≡ c = Char-path d c (ground (arith, h)) in
    let (post, e) = is_prefix-cut p s (ground (arith, h)) in
    (post, rw same (ap (λ t. c ∷ t) e ∙ sym (append_cons c p post)))

is_prefix-append : (p t : String) → is_prefix p (p ++ t) ≡ true
unfolding is_prefix
is_prefix-append [] t = refl
is_prefix-append (c ∷ p) t = rw (append_cons c p t) (ground (arith, is_prefix-append p t))

is_substring-prefix : (p s : String) → is_prefix p s ≡ true → is_substring p s ≡ true
unfolding is_substring
is_substring-prefix p [] h = h
is_substring-prefix p (c ∷ s) h = ground (arith, h)

is_substring-append : (p m q : String) → is_substring p (m ++ (p ++ q)) ≡ true
unfolding is_substring
is_substring-append p [] q =
    rw (append_nil (p ++ q)) (is_substring-prefix p (p ++ q) (is_prefix-append p q))
is_substring-append p (c ∷ m) q =
    rw (append_cons c m (p ++ q)) (ground (arith, is_substring-append p m q))

after_char-some :
    (n : ℕ) (o : Option ℕ) (i : ℕ) → after_char n o ≡ some i → (j : ℕ) × (o ≡ some j) × (i ≡ n + j)
after_char-some n none i h = absurd (ground (arith, h))
after_char-some n (some j) i h = (j, refl, ground (arith, h))

-- `find` gives the start of an occurrence
pub find-cut :
    (s p : String) (i : ℕ)
    → find s p ≡ some i
    → (pre : String) × (post : String) × (s ≡ pre ++ (p ++ post)) × (i ≡ byte_len pre)
unfolding find byte_len
find-cut [] p i h = elim (Bool-cases (is_prefix p [])) [
  | inl e ↦
      let (post, q) = is_prefix-cut p [] e in
      ([], post, q ∙ sym (append_nil (p ++ post)), ground (arith, rw e at h))
  | inr e ↦ absurd (ground (arith, rw e at h))
]
find-cut (c ∷ s) p i h = elim (Bool-cases (is_prefix p (c ∷ s))) [
  | inl e ↦
      let (post, q) = is_prefix-cut p (c ∷ s) e in
      ([], post, q ∙ sym (append_nil (p ++ post)), ground (arith, rw e at h))
  | inr e ↦
      let (j, f, g) = after_char-some (width c) (find s p) i (rw e at h) in
      let (pre, post, q, r) = find-cut s p j f in
      (
        c ∷ pre,
        post,
        ap (λ t. c ∷ t) q ∙ sym (append_cons c pre (p ++ post)),
        g ∙ ap (λ n. width c + n) r,
      )
]

-- what is looked at after the first match
abbrev rest_of : String → ℕ → String
rest_of s i = slice_from s (i + first_width (slice_from s i))

rest_of-first : (c : Char) (s : String) → rest_of (c ∷ s) 0 ≡ s
unfolding slice_from
rest_of-first c s = slice_from-past c s 0 (0 + width c) (omega arith)

rest_of-past : (c : Char) (s : String) (i j : ℕ) → i ≡ width c + j → rest_of (c ∷ s) i ≡ rest_of s j
rest_of-past c s i j h =
    let same = slice_from-past c s j i h in
    ap (λ t. slice_from (c ∷ s) (i + first_width t)) same
    ∙ slice_from-past c s (j + first_width (slice_from s j)) (i + first_width (slice_from s j))
        (omega (arith, h))

find-prefix : (s p : String) → is_prefix p s ≡ true → find s p ≡ some 0
unfolding find
find-prefix [] p h = ground (arith, h)
find-prefix (c ∷ s) p h = ground (arith, h)

-- where the rest has no match, every occurrence is the first
find_unique :
    (s p : String) (i : ℕ) (pre post : String)
    → find s p ≡ some i
    → is_substring p (rest_of s i) ≡ false
    → s ≡ pre ++ (p ++ post)
    → byte_len pre ≡ i
unfolding find byte_len
find_unique s p i [] post h n e =
    let whole : s ≡ p ++ post = e ∙ append_nil (p ++ post) in
    let first = find-prefix s p (rw whole (is_prefix-append p post)) in ground (arith, first, h)
find_unique [] p i (c ∷ pre) post h n e =
    absurd (omega (arith, ap byte_len (e ∙ append_cons c pre (p ++ post)), (width-bounds c).0))
find_unique (d ∷ s) p i (c ∷ pre) post h n e =
    let cut : d ∷ s ≡ c ∷ (pre ++ (p ++ post)) = e ∙ append_cons c pre (p ++ post) in
    let tail : s ≡ pre ++ (p ++ post) = tail-eq_of_cons-eq cut in
    let head : d ≡ c = head-eq_of_cons-eq cut in
    elim (Bool-cases (is_prefix p (d ∷ s))) [
      | inl first ↦
          let start : i ≡ 0 = ground (arith, rw first at h) in
          let found : is_substring p (rest_of (d ∷ s) i) ≡ true =
            ap (λ k. is_substring p (rest_of (d ∷ s) k)) start
            ∙ (ap (is_substring p) (rest_of-first d s ∙ tail) ∙ is_substring-append p pre post) in
          absurd (ground (arith, found, n))
      | inr later ↦
          let (j, f, g) = after_char-some (width d) (find s p) i (rw later at h) in
          let none_left : is_substring p (rest_of s j) ≡ false =
            ap (is_substring p) (sym (rest_of-past d s i j g)) ∙ n in
          ap (λ x. width x + byte_len pre) (sym head)
          ∙ (ap (λ k. width d + k) (find_unique s p j pre post f none_left tail) ∙ sym g)
    ]

replace_range-cut :
    (pre old new post : String)
    → replace_range (pre ++ (old ++ post)) (byte_len pre) (byte_len pre + byte_len old) new
      ≡ pre ++ (new ++ post)
unfolding replace_range
replace_range-cut pre old new post =
    let before : slice_to (pre ++ (old ++ post)) (byte_len pre) ≡ pre =
      slice_to-append pre (old ++ post) in
    let after : slice_from (pre ++ (old ++ post)) (byte_len pre + byte_len old) ≡ post =
      ap (slice_from (pre ++ (old ++ post))) (sym (byte_len-append pre old))
      ∙ (ap (λ t. slice_from t (byte_len (pre ++ old))) (sym (append_assoc pre old post))
          ∙ slice_from-append (pre ++ old) post) in
    ap (λ t. t ++ (new ++ slice_from (pre ++ (old ++ post)) (byte_len pre + byte_len old))) before
    ∙ ap (λ t. pre ++ (new ++ t)) after

-- what a patch that is accepted was made of
patch_of-ok :
    (before old new after : String)
    → patch_of before old new ≡ ok after
    → (i : ℕ) × (find before old ≡ some i)
      × (is_substring old (rest_of before i) ≡ false)
      × (after ≡ replace_range before i (i + byte_len old) new)
      × (byte_len after ≤ max_file_bytes)
unfolding patch_of
patch_of-ok before old new after h = elim (Option-cases (find before old)) [
  | inl e ↦ absurd (ground (arith, rw (patch_of, e) at h))
  | inr (i, e) ↦ elim (Bool-cases (is_substring old (rest_of before i))) [
    | inl more ↦ absurd (ground (arith, rw (patch_of, e, more) at h))
    | inr once ↦
        elim (Bool-cases
          (ltb max_file_bytes (byte_len (replace_range before i (i + byte_len old) new)))) [
            | inl big ↦ absurd (ground (arith, rw (patch_of, e, once, big) at h))
            | inr fits ↦
                let made : replace_range before i (i + byte_len old) new ≡ after =
                  ground (arith, rw (patch_of, e, once, fits) at h) in
                (i, e, once, sym made, rw (← made) (ground (arith, fits)))
          ]
  ]
]

-- A patch that is accepted has an occurrence of the old text, replaces it by the new text and
-- changes nothing before or after it, and the content stays within one MiB.
pub patch_of-replaces :
    (before old new after : String)
    → patch_of before old new ≡ ok after
    → (pre : String) × (post : String) × (before ≡ pre ++ (old ++ post))
      × (after ≡ pre ++ (new ++ post))
      × (byte_len after ≤ max_file_bytes)
patch_of-replaces before old new after h =
    let (i, f, n, e, b) = patch_of-ok before old new after h in
    let (pre, post, p, q) = find-cut before old i f in
    (
      pre,
      post,
      p,
      e
          ∙ (ap (λ k. replace_range before k (k + byte_len old) new) q
              ∙ (ap (λ t. replace_range t (byte_len pre) (byte_len pre + byte_len old) new) p
                  ∙ replace_range-cut pre old new post)),
      b,
    )

-- Where a patch is accepted, the old text occurs once: of any two occurrences, overlapping ones
-- included, what stands before them is the same.
pub patch_of_unique :
    (before old new after first_pre first_post second_pre second_post : String)
    → patch_of before old new ≡ ok after
    → before ≡ first_pre ++ (old ++ first_post)
    → before ≡ second_pre ++ (old ++ second_post)
    → first_pre ≡ second_pre
patch_of_unique before old new after first_pre first_post second_pre second_post h p q =
    let (i, f, n, e, b) = patch_of-ok before old new after h in
    let first = find_unique before old i first_pre first_post f n p in
    let second = find_unique before old i second_pre second_post f n q in
    sym (slice_to-append first_pre (old ++ first_post))
    ∙ (ap (λ t. slice_to t (byte_len first_pre)) (sym p ∙ q)
        ∙ (ap (slice_to (second_pre ++ (old ++ second_post))) (first ∙ sym second)
            ∙ slice_to-append second_pre (old ++ second_post)))
