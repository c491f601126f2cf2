-- ===== src/Prelude/BTreeMap.antt =====
-- `std::collections::BTreeMap`: an association list in the order of its keys. The laws hold of any
-- such list, since a lookup goes through the whole of it.
use mathlib.Core.Path.{◌≡◌, refl}
use mathlib.Core.Bool.{Bool, true, false}
use mathlib.Core.Option.{Option, none, some}
use mathlib.Core.List.{List, [], ◌∷◌}
use Prim.Native.Nat.{Ordering}
use native.Mathlib.Omega.{arith}
use nausicaa.Prelude.Tests.{if◌then◌else◌}
use nausicaa.Prelude.Order.{Ord, ◌==◌, ==_refl}

abbrev pub BTreeMap {ℓ κ} : Type ℓ → Type κ → Type (ℓ ⊔ κ)
BTreeMap K V = List (K × V)

module _ {ℓ κ} {K : Type ℓ} {V : Type κ} ⦃o : Ord K⦄ where
  unfoldable pub get : K → BTreeMap K V → Option V
  get k [] = none
  get k ((j, v) ∷ m) = if j == k then some v else get k m

  abbrev pub place : Ordering → K → V → K → V → BTreeMap K V → BTreeMap K V → BTreeMap K V
  place Ordering.lt k v j w m rest = (k, v) ∷ (j, w) ∷ m
  place Ordering.eq k v j w m rest = (k, v) ∷ m
  place Ordering.gt k v j w m rest = (j, w) ∷ rest

  unfoldable pub insert : K → V → BTreeMap K V → BTreeMap K V
  insert k v [] = (k, v) ∷ []
  insert k v ((j, w) ∷ m) = place (o.cmp k j) k v j w m (insert k v m)

  unfoldable pub remove : K → BTreeMap K V → BTreeMap K V
  remove k [] = []
  remove k ((j, v) ∷ m) = let rest = remove k m in if j == k then rest else (j, v) ∷ rest

  unfoldable pub contains_key : K → BTreeMap K V → Bool
  contains_key k [] = false
  contains_key k ((j, v) ∷ m) = if j == k then true else contains_key k m

  pub get-insert :
      (k j : K) (v : V) (m : BTreeMap K V)
      → get j (insert k v m) ≡ (if k == j then some v else get j m)
  unfolding get insert
  get-insert k j v [] = refl
  get-insert k j v ((i, w) ∷ m) =
      ground (arith, o.cmp_iff k j, o.cmp_iff i k, o.cmp_iff k i, o.cmp_iff i j, get-insert k j v m)

  pub get-insert_same : (k : K) (v : V) (m : BTreeMap K V) → get k (insert k v m) ≡ some v
  get-insert_same k v m = ground (arith, get-insert k k v m, ==_refl k)

  pub get-remove :
      (k j : K) (m : BTreeMap K V) → get j (remove k m) ≡ (if k == j then none else get j m)
  unfolding get remove
  get-remove k j [] = ground arith
  get-remove k j ((i, w) ∷ m) =
      ground (arith, o.cmp_iff k j, o.cmp_iff i k, o.cmp_iff i j, get-remove k j m)

  pub contains_key-get :
      (k : K) (m : BTreeMap K V) {v : V} → get k m ≡ some v → contains_key k m ≡ true
  unfolding get contains_key
  contains_key-get k [] h = cc
  contains_key-get k ((j, w) ∷ m) {v} h = ground (arith, contains_key-get k m {v = v})

abbrev pub keys {ℓ κ} : {K : Type ℓ} {V : Type κ} → BTreeMap K V → List K
keys [] = []
keys ((k, v) ∷ m) = k ∷ keys m

abbrev pub values {ℓ κ} : {K : Type ℓ} {V : Type κ} → BTreeMap K V → List V
values [] = []
values ((k, v) ∷ m) = v ∷ values m
