-- ===== src/Prelude/Order.antt =====
-- `Ord` and `Eq` of the source's key types: the comparison that a derive gives, with the one law
-- that the maps and sets need of it.
use Prim.Native.Nat.{ℕ, Ordering, compare as compare_ℕ}
use Prim.Native.String.{String, compare}
use mathlib.Core.Path.{◌≡◌}
use mathlib.Core.Logic.{◌↔◌}
use mathlib.Core.Bool.{Bool, true}
use native.Mathlib.Omega.{arith}
use text.Mathlib.Text.{is_eq}
use text.Mathlib.TextEquality.{eq_iff}

pub record Ord {ℓ} (K : Type ℓ) : Type ℓ where
  pub cmp : K → K → Ordering
  pub cmp_iff : (a b : K) → (is_eq (cmp a b) ≡ true) ↔ (a ≡ b)

-- `PartialEq` of a type that has no order
pub record Eq {ℓ} (A : Type ℓ) : Type ℓ where
  pub equals : A → A → Bool
  pub equals_iff : (x y : A) → (equals x y ≡ true) ↔ (x ≡ y)

-- `a == b` of a type with an order
infix 50 ◌==◌
abbrev pub ◌==◌ {ℓ} : {K : Type ℓ} ⦃o : Ord K⦄ → K → K → Bool
◌==◌ ⦃o⦄ a b = is_eq (o.cmp a b)

pub ==_iff {ℓ} : {K : Type ℓ} ⦃o : Ord K⦄ (a b : K) → ((a == b) ≡ true) ↔ (a ≡ b)
==_iff ⦃o⦄ a b = o.cmp_iff a b

pub ==_refl {ℓ} : {K : Type ℓ} ⦃o : Ord K⦄ (a : K) → (a == a) ≡ true
==_refl ⦃o⦄ a = (o.cmp_iff a a).1 (λ i. a)

instance abbrev pub string_ord : Ord String
string_ord = record { cmp = compare; cmp_iff = eq_iff }

pub compare_iff : (a b : ℕ) → (is_eq (compare_ℕ a b) ≡ true) ↔ (a ≡ b)
compare_iff a b = ground arith

instance abbrev pub nat_ord : Ord ℕ
nat_ord = record { cmp = compare_ℕ; cmp_iff = compare_iff }

abbrev pub then : Ordering → Ordering → Ordering
then Ordering.eq second = second
then first _ = first

module _ {ℓ κ} {K : Type ℓ} {J : Type κ} ⦃first : Ord K⦄ ⦃second : Ord J⦄ where
  -- a tuple is compared by its first component, and by its second where the first are equal
  abbrev pub compare_pairs : K × J → K × J → Ordering
  compare_pairs p q = then (first.cmp p.0 q.0) (second.cmp p.1 q.1)

  pub compare_pairs_iff : (p q : K × J) → (is_eq (compare_pairs p q) ≡ true) ↔ (p ≡ q)
  compare_pairs_iff p q = ground (arith, first.cmp_iff p.0 q.0, second.cmp_iff p.1 q.1)

  instance abbrev pub pair_ord : Ord (K × J)
  pair_ord = record { cmp = compare_pairs; cmp_iff = compare_pairs_iff }
