-- ===== src/Base/Results.antt =====
-- Go's pair of a value and an error: `ok` carries the value, `err` the error.
use mathlib.Core.Path.{◌≡◌, refl}
use mathlib.Core.Logic.{◌⊎◌, inl, inr}
use mathlib.Core.Bool.{Bool, true, false}
use native.Mathlib.Omega.{arith}

pub data Result {ℓ} (E : Type 0) (A : Type ℓ) : Type ℓ where
  err : E → Result E A
  ok : A → Result E A

-- `if err != nil { return err }` between two calls.
infixl 5 ◌>>=◌ ◌>>◌
abbrev pub ◌>>=◌ {ℓ κ} :
    {E : Type 0} {A : Type ℓ} {B : Type κ} → Result E A → (A → Result E B) → Result E B
r >>= next = elim r [ err e ↦ err e | ok a ↦ next a ]

abbrev pub ◌>>◌ {ℓ} : {E : Type 0} {B : Type ℓ} → Result E (Unit {0}) → Result E B → Result E B
r >> next = r >>= λ done. next

-- `if bad { return e }`
abbrev pub reject_if : {E : Type 0} → Bool → E → Result E (Unit {0})
reject_if bad e = elim bad [ true ↦ err e | false ↦ ok tt ]

module _ {ℓ} {E : Type 0} {A : Type ℓ} where
  pub Result-cases : (r : Result E A) → ((e : E) × (r ≡ err e)) ⊎ ((a : A) × (r ≡ ok a))
  Result-cases (err e) = inl (e, refl)
  Result-cases (ok a) = inr (a, refl)

  -- The value comes from a first part that went well.
  pub ok_parts {κ} :
      {B : Type κ} (r : Result E A) (next : A → Result E B) {b : B}
      → (r >>= next) ≡ ok b
      → (a : A) × (r ≡ ok a) × (next a ≡ ok b)
  ok_parts (err e) next same = cc
  ok_parts (ok a) next same = (a, refl, same)

  -- The error is that of the first part, or of what follows it.
  pub err_parts {κ} :
      {B : Type κ} (r : Result E A) (next : A → Result E B) {e : E}
      → (r >>= next) ≡ err e
      → (r ≡ err e) ⊎ ((a : A) × (r ≡ ok a) × (next a ≡ err e))
  err_parts (err e) next same = inl (ground arith)
  err_parts (ok a) next same = inr (a, refl, same)

-- A guard that is passed did not fire.
pub passes {ℓ} :
    {E : Type 0} {B : Type ℓ} (bad : Bool) (e : E) (next : Result E B) {b : B}
    → (reject_if bad e >> next) ≡ ok b
    → (bad ≡ false) × (next ≡ ok b)
passes true e next same = cc
passes false e next same = (refl, same)
