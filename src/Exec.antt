-- ===== src/Exec.antt =====
-- A Python method over mutable state that may raise. An exception undoes no write, so it carries the
-- state along; a roll-back is an action of its own.
use backend_pagos_offline.Prelude.{Bool, true, false, Option, none, some}
use backend_pagos_offline.Result.{Error, Result, ok, err}

abbrev pub Exec : Type 0 → Type 0 → Type 0
Exec S A = S → Result A × S

module _ {S A : Type 0} where
  abbrev pub pure : A → Exec S A
  pure a s = (ok a, s)

  abbrev pub raise : Error → Exec S A
  raise e s = (err e, s)

  abbrev pub lift : Result A → Exec S A
  lift r s = (r, s)

  abbrev pub gets : (S → A) → Exec S A
  gets f s = (ok (f s), s)

  -- `if value is None: raise`
  abbrev pub or_raise : Option A → Error → Exec S A
  or_raise none e = raise e
  or_raise (some a) e = pure a

module _ {S : Type 0} where
  abbrev pub modify : (S → S) → Exec S (Unit {0})
  modify f s = (ok tt, f s)

  abbrev pub raise_when : Bool → Error → Exec S (Unit {0})
  raise_when true e = raise e
  raise_when false e = pure tt

module _ {S A B : Type 0} where
  abbrev pub continue : Result A → (A → Exec S B) → Exec S B
  continue (ok a) f s = f a s
  continue (err e) f s = (err e, s)

infixl 5 ◌>>=◌ ◌>>◌
abbrev pub ◌>>=◌ : {S A B : Type 0} → Exec S A → (A → Exec S B) → Exec S B
◌>>=◌ m f s = continue (m s).0 f (m s).1

abbrev pub ◌>>◌ : {S A B : Type 0} → Exec S A → Exec S B → Exec S B
m >> n = m >>= λ _. n

-- `try: m  finally: cleanup`, where the clean-up does not raise
abbrev pub finally : {S A : Type 0} → Exec S A → (S → S) → Exec S A
finally m cleanup s = ((m s).0, cleanup (m s).1)

abbrev pub resume : {S A : Type 0} → (Error → Exec S A) → Result A → Exec S A
resume handler (ok a) s = (ok a, s)
resume handler (err e) s = handler e s

-- `try: m  except error: handler(error)`
abbrev pub except : {S A : Type 0} → Exec S A → (Error → Exec S A) → Exec S A
except m handler s = resume handler (m s).0 (m s).1
