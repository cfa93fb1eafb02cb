-- ===== src/Base/Errors.antt =====
-- `Result<A, E>` and its `?` operator.
use mathlib.Core.Path.{◌≡◌, refl}
use mathlib.Core.Logic.{◌⊎◌, inl, inr}
use mathlib.Core.Bool.{Bool, true, false}
use mathlib.Core.Option.{Option, none, some}

module _ {ℓ κ} (E : Type κ) where
  pub data Result (A : Type ℓ) : Type (ℓ ⊔ κ) where
    err : E → Result A
    ok : A → Result A

module _ {ℓ κ ν} {E : Type ν} {A : Type ℓ} {B : Type κ} where
  infixl 5 ◌>>=◌
  -- `m?` followed by the rest of the body.
  abbrev pub ◌>>=◌ : Result E A → (A → Result E B) → Result E B
  ◌>>=◌ (err reason) rest = err reason
  ◌>>=◌ (ok value) rest = rest value

  -- What the rest of a body that succeeds started from.
  pub bind-eq-ok :
      (m : Result E A) (rest : A → Result E B) {out : B}
      → (m >>= rest) ≡ ok out
      → (value : A) × (m ≡ ok value) × (rest value ≡ ok out)
  bind-eq-ok (err reason) rest h = cc
  bind-eq-ok (ok value) rest h = (value, refl, h)

module _ {ℓ κ} {E : Type κ} {A : Type ℓ} where
  abbrev pub ok_or : Option A → E → Result E A
  ok_or none reason = err reason
  ok_or (some value) reason = ok value

  abbrev pub is_ok : Result E A → Bool
  is_ok (err _) = false
  is_ok (ok _) = true

  pub Result-cases : (r : Result E A) → ((a : A) × (r ≡ ok a)) ⊎ ((e : E) × (r ≡ err e))
  Result-cases (ok a) = inl (a, refl)
  Result-cases (err e) = inr (e, refl)

  abbrev pub is_ok_and : (A → Bool) → Result E A → Bool
  is_ok_and p (err e) = false
  is_ok_and p (ok a) = p a

  pub ok_injective : {a b : A} → ◌≡◌ {A = Result E A} (ok a) (ok b) → a ≡ b
  ok_injective h = cc

module _ {ℓ κ ν} {E : Type κ} {A : Type ℓ} where
  -- The predicate holds of the value, if there is one.
  abbrev pub OnOk : (A → Type ν) → Result E A → Type ν
  OnOk P (err _) = Unit
  OnOk P (ok value) = P value

  pub OnOk-intro : (P : A → Type ν) (r : Result E A) → ((a : A) → r ≡ ok a → P a) → OnOk P r
  OnOk-intro P (err _) h = tt
  OnOk-intro P (ok value) h = h value refl
