-- ===== src/Prelude/BTreeSet.antt =====
-- `std::collections::BTreeSet`: a list in order, with each entry once.
use mathlib.Core.Path.{◌≡◌, refl}
use mathlib.Core.Bool.{Bool, false, ◌||◌}
use mathlib.Core.List.{List, [], ◌∷◌}
use Prim.Native.Nat.{Ordering}
use native.Mathlib.Omega.{arith}
use nausicaa.Prelude.Tests.{if◌then◌else◌}
use nausicaa.Prelude.Order.{Ord, ◌==◌}

abbrev pub BTreeSet {ℓ} : Type ℓ → Type ℓ
BTreeSet K = List K

module _ {ℓ} {K : Type ℓ} ⦃o : Ord K⦄ where
  unfoldable pub contains : K → BTreeSet K → Bool
  contains k [] = false
  contains k (j ∷ s) = (j == k) || contains k s

  abbrev place : Ordering → K → K → BTreeSet K → BTreeSet K → BTreeSet K
  place Ordering.lt k j s rest = k ∷ j ∷ s
  place Ordering.eq k j s rest = j ∷ s
  place Ordering.gt k j s rest = j ∷ rest

  -- The set after `insert`; what `insert` returns is whether the set did not contain the key.
  unfoldable pub insert : K → BTreeSet K → BTreeSet K
  insert k [] = k ∷ []
  insert k (j ∷ s) = place (o.cmp k j) k j s (insert k s)

  unfoldable pub remove : K → BTreeSet K → BTreeSet K
  remove k [] = []
  remove k (j ∷ s) = let rest = remove k s in if j == k then rest else j ∷ rest

  pub contains-insert :
      (k j : K) (s : BTreeSet K) → contains j (insert k s) ≡ ((k == j) || contains j s)
  unfolding contains insert
  contains-insert k j [] = refl
  contains-insert k j (i ∷ s) =
      ground
        (arith, o.cmp_iff k j, o.cmp_iff i k, o.cmp_iff k i, o.cmp_iff i j, contains-insert k j s)

  pub contains-remove :
      (k j : K) (s : BTreeSet K)
      → contains j (remove k s) ≡ (if k == j then false else contains j s)
  unfolding contains remove
  contains-remove k j [] = ground arith
  contains-remove k j (i ∷ s) =
      ground (arith, o.cmp_iff k j, o.cmp_iff i k, o.cmp_iff i j, contains-remove k j s)
