-- ===== src/Result.antt =====
-- A Python call that may raise: its value, or the class of the exception.
use backend_pagos_offline.Prelude.{
  ℕ, ◌≡◌, ◌≢◌, refl, ◌⊎◌, inl, inr, Bool, true, false, Option, none, some,
}

pub data Error : Type 0 where
  protocol_error value_error key_error type_error runtime_error integrity_error : Error
  operational_error : Error
  -- `HTTPException`, by its status code
  http : ℕ → Error

pub data Result {ℓ} (A : Type ℓ) : Type ℓ where
  ok : A → Result A
  err : Error → Result A

infixl 5 ◌>>=◌ ◌>>◌
-- the rest runs on a value only
abbrev pub ◌>>=◌ {ℓ κ} : {A : Type ℓ} {B : Type κ} → Result A → (A → Result B) → Result B
err raised >>= rest = err raised
ok a >>= rest = rest a

abbrev pub ◌>>◌ {ℓ} : {C : Type ℓ} → Result (Unit {0}) → Result C → Result C
first >> rest = first >>= λ _. rest

-- `if test: raise`
abbrev pub raise_if : Bool → Error → Result (Unit {0})
raise_if true e = err e
raise_if false e = ok tt

-- `is None`
abbrev pub is_none {ℓ} : {A : Type ℓ} → Option A → Bool
is_none none = true
is_none (some a) = false

-- the value of a call, or the error that stands for its failure
abbrev pub or_err {ℓ} : {A : Type ℓ} → Option A → Error → Result A
or_err none e = err e
or_err (some a) e = ok a

pub Result-cases {ℓ} :
    {A : Type ℓ} (r : Result A) → ((a : A) × (r ≡ ok a)) ⊎ ((e : Error) × (r ≡ err e))
Result-cases (ok a) = inl (a, refl)
Result-cases (err e) = inr (e, refl)

-- the value of a call that cannot have raised
pub passes {ℓ} : {A : Type ℓ} (r : Result A) → ((e : Error) → r ≢ err e) → (a : A) × (r ≡ ok a)
passes (ok a) h = (a, refl)
passes (err e) h = absurd (h e refl)
