-- ===== src/Prelude/Sorting.antt =====
-- `slice::sort_by`, which is stable, and `Iterator::take`.
use Prim.Native.Nat.{ℕ, zero, suc, ◌≤◌, Ordering}
use mathlib.Core.List.{List, [], ◌∷◌}
use nausicaa.Prelude.Lists.{In, length}
use mathlib.Core.Path.{◌≡◌, refl}
use mathlib.Core.Logic.{◌⊎◌, ◌↔◌, inl, inr}
use native.Mathlib.Omega.{arith}

module _ {ℓ} {A : Type ℓ} where
  abbrev pub take : ℕ → List A → List A
  take zero xs = []
  take (suc n) [] = []
  take (suc n) (x ∷ xs) = x ∷ take n xs

  abbrev place_before : Ordering → A → A → List A → List A → List A
  place_before Ordering.gt x y ys rest = y ∷ rest
  place_before _ x y ys rest = x ∷ y ∷ ys

  -- in front of what is not less
  unfoldable pub place : (A → A → Ordering) → A → List A → List A
  place cmp x [] = x ∷ []
  place cmp x (y ∷ ys) = place_before (cmp x y) x y ys (place cmp x ys)

  unfoldable pub sort_by : (A → A → Ordering) → List A → List A
  unfolding place
  sort_by cmp [] = []
  sort_by cmp (x ∷ xs) = place cmp x (sort_by cmp xs)

  pub place-cases :
      (cmp : A → A → Ordering) (x y : A) (ys : List A)
      → ((cmp x y ≡ Ordering.gt) × (place cmp x (y ∷ ys) ≡ y ∷ place cmp x ys))
        ⊎ ((cmp x y ≡ Ordering.gt → ⊥) × (place cmp x (y ∷ ys) ≡ x ∷ y ∷ ys))
  unfolding place
  place-cases cmp x y ys = by_order (cmp x y) refl
    where
      by_order :
          (o : Ordering)
          → cmp x y ≡ o
          → ((cmp x y ≡ Ordering.gt)
              × (place_before (cmp x y) x y ys (place cmp x ys) ≡ y ∷ place cmp x ys))
            ⊎ ((cmp x y ≡ Ordering.gt → ⊥)
                × (place_before (cmp x y) x y ys (place cmp x ys) ≡ x ∷ y ∷ ys))
      by_order Ordering.lt e = inr (λ h. absurd (ground (arith, e, h)), rw e refl)
      by_order Ordering.eq e = inr (λ h. absurd (ground (arith, e, h)), rw e refl)
      by_order Ordering.gt e = inl (e, rw e refl)

module _ {A : Type 0} where
  pub In-place :
      (cmp : A → A → Ordering) (x z : A) (ys : List A) → In z (place cmp x ys) → (z ≡ x) ⊎ In z ys
  unfolding place
  In-place cmp x z [] (inl e) = inl e
  In-place cmp x z [] (inr h) = absurd h
  In-place cmp x z (y ∷ ys) h = elim (place-cases cmp x y ys) [
    | inr (n, e) ↦ rw e at h
    | inl (g, e) ↦ elim (rw e at h) [
      | inl p ↦ inr (inl p)
      | inr i ↦ elim (In-place cmp x z ys i) [ inl p ↦ inl p | inr j ↦ inr (inr j) ]
    ]
  ]

  pub place-In :
      (cmp : A → A → Ordering) (x z : A) (ys : List A) → (z ≡ x) ⊎ In z ys → In z (place cmp x ys)
  unfolding place
  place-In cmp x z [] (inl e) = inl e
  place-In cmp x z [] (inr i) = absurd i
  place-In cmp x z (y ∷ ys) h = elim (place-cases cmp x y ys) [
    | inr (n, e) ↦ rw e h
    | inl (g, e) ↦ rw e (elim h [
      | inl p ↦ inr (place-In cmp x z ys (inl p))
      | inr (inl p) ↦ inl p
      | inr (inr i) ↦ inr (place-In cmp x z ys (inr i))
    ])
  ]

  pub In-sort_by : (cmp : A → A → Ordering) (z : A) (xs : List A) → In z (sort_by cmp xs) ↔ In z xs
  unfolding sort_by
  In-sort_by cmp z [] = (λ i. i, λ i. i)
  In-sort_by cmp z (x ∷ xs) = (
    λ i. elim (In-place cmp x z (sort_by cmp xs) i) [
      | inl e ↦ inl e
      | inr j ↦ inr ((In-sort_by cmp z xs).0 j)
    ],
    λ i.
        place-In cmp x z (sort_by cmp xs)
          (elim i [ inl e ↦ inl e | inr j ↦ inr ((In-sort_by cmp z xs).1 j) ]),
  )

  pub In-take : (n : ℕ) (z : A) (xs : List A) → In z (take n xs) → In z xs
  In-take zero z xs i = absurd i
  In-take (suc n) z [] i = absurd i
  In-take (suc n) z (x ∷ xs) (inl e) = inl e
  In-take (suc n) z (x ∷ xs) (inr i) = inr (In-take n z xs i)

pub length-take {ℓ} : {A : Type ℓ} (n : ℕ) (xs : List A) → length (take n xs) ≤ n
length-take zero xs = omega arith
length-take (suc n) [] = omega arith
length-take (suc n) (x ∷ xs) = omega (arith, length-take n xs)
