-- ===== src/Prelude/Results.antt =====
-- `Result<T, E>` with `?`, and methods that change a state and may return an error: what was
-- changed before the error stays changed, so the state comes back beside the error too.
use mathlib.Core.Option.{Option, none, some}
use mathlib.Core.Path.{◌≡◌, refl}
use mathlib.Core.Logic.{◌⊎◌, inl, inr}

pub data Result {ℓ κ} (A : Type ℓ) (E : Type κ) : Type (ℓ ⊔ κ) where
  ok : A → Result A E
  err : E → Result A E

-- Rust's `()`
abbrev pub Done : Type 0
Done = Unit {0}

-- `ok_or`
abbrev pub ok_or {ℓ κ} : {A : Type ℓ} {E : Type κ} → Option A → E → Result A E
ok_or none e = err e
ok_or (some a) e = ok a

module _ {ℓ κ} {A B : Type ℓ} {E : Type κ} where
  infixl 5 ◌>>=◌ ◌>>◌
  abbrev pub ◌>>=◌ : Result A E → (A → Result B E) → Result B E
  ok a >>= f = f a
  err e >>= f = err e

  abbrev pub ◌>>◌ : Result A E → Result B E → Result B E
  m >> k = m >>= λ _. k

pub bind_assoc :
    {A B C E : Type 0} (m : Result A E) (f : A → Result B E) (g : B → Result C E)
    → ((m >>= f) >>= g) ≡ (m >>= λ a. f a >>= g)
bind_assoc (ok a) f g = refl
bind_assoc (err e) f g = refl

pub bind_pure : {A E : Type 0} (m : Result A E) → (m >>= λ a. ok a) ≡ m
bind_pure (ok a) = refl
bind_pure (err e) = refl

-- A result, split by what it is, with the equation kept.
pub Result-cases {ℓ κ} :
    {A : Type ℓ} {E : Type κ} (r : Result A E) → ((e : E) × (r ≡ err e)) ⊎ ((a : A) × (r ≡ ok a))
Result-cases (err e) = inl (e, refl)
Result-cases (ok a) = inr (a, refl)
