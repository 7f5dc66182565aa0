-- ===== src/Server/Evidence/Errors.antt =====
-- How a submission fails: nothing is committed, and only an HTTP error leaves the handler.
use backend_pagos_offline.Prelude.{
  ℕ, ◌≡◌, refl, ◌∙◌, sym, String, Bool, true, false, Option, none, some,
}
use backend_pagos_offline.Result.{
  Error, Result, ok, err, protocol_error, value_error, type_error, key_error, integrity_error,
  operational_error, runtime_error, http,
}
use backend_pagos_offline.Exec.{pure, continue, raise_when, resume, ◌>>=◌}
use backend_pagos_offline.Wire.Library.{Library}
use backend_pagos_offline.Server.Models.{User, OfflinePayment, PaymentResolution, Database}
use backend_pagos_offline.Server.Session.{Session, Query, read, get_payment}
use backend_pagos_offline.Server.Protocol.{PaymentResult}
use backend_pagos_offline.Server.Apply.Outcome.{both}
use backend_pagos_offline.Server.Apply.Quiet.{Quiet}
use backend_pagos_offline.Server.Trust.{Trust}
use backend_pagos_offline.Server.Validation.{authorize}
use backend_pagos_offline.Server.Evidence.{PaymentEvidence, is_final}
use backend_pagos_offline.Server.Evidence.Atomic.{body-Atomic}
use backend_pagos_offline.Server.Evidence.Reads.{reading_rules, authorize-Quiet}
use backend_pagos_offline.Server.Evidence.Process.{
  answer_invalid, invalid_known, invalid_with, refuse_evidence, on_error, body, process_evidence,
}

-- Its only errors are HTTP ones.
pub record OnlyHttp {A : Type 0} (m : Query A) : Type 0 where
  pub at : (s : Session) (e : Error) → (m s).0 ≡ err e → (n : ℕ) × (e ≡ http n)

module _ {A : Type 0} where
  OnlyHttp-pure : (a : A) → OnlyHttp (pure a)
  OnlyHttp-pure a = record { at = λ s e h. absurd (cc) }

  OnlyHttp-read : (f : Database → A) → OnlyHttp (read f)
  OnlyHttp-read f = record { at = λ s e h. absurd (cc) }

OnlyHttp-refuse : (b : Bool) (n : ℕ) → OnlyHttp (raise_when {S = Session} b (http n))
OnlyHttp-refuse true n = record { at = λ s e h. (n, cc) }
OnlyHttp-refuse false n = record { at = λ s e h. absurd (cc) }

OnlyHttp-bind :
    {A B : Type 0} (m : Query A) (f : A → Query B)
    → OnlyHttp m
    → ((a : A) → OnlyHttp (f a))
    → OnlyHttp (m >>= f)
OnlyHttp-bind {A = A} m f o k = record { at = λ s e h. go e (m s).0 (m s).1 (o.at s) h }
  where
    go :
        (e : Error) (r : Result A) (s' : Session)
        → ((x : Error) → r ≡ err x → (n : ℕ) × (x ≡ http n))
        → (continue r f s').0 ≡ err e
        → (n : ℕ) × (e ≡ http n)
    go e (ok a) s' q h = (k a).at s' e h
    go e (err x) s' q h = let (n, is) = q x refl in (n, cc)

ruleset http_rules = (OnlyHttp-pure, OnlyHttp-read, OnlyHttp-refuse, OnlyHttp-bind)

authorize-OnlyHttp : (user : User) (w t : String) → OnlyHttp (authorize user w t)
unfolding authorize
authorize-OnlyHttp user w t = search http_rules

module _ (lib : Library) (trust : Trust lib) (now : ℕ) (user : User) (operation_id : String) where
  answer_invalid_calm :
      (p : OfflinePayment) (r : Option PaymentResolution)
      → Quiet (answer_invalid lib trust now user operation_id p r)
        × OnlyHttp (answer_invalid lib trust now user operation_id p r)
  answer_invalid_calm p none = (search reading_rules, search http_rules)
  answer_invalid_calm p (some r) = (search reading_rules, search http_rules)

  answer_invalid-Quiet :
      (p : OfflinePayment) (r : Option PaymentResolution)
      → Quiet (answer_invalid lib trust now user operation_id p r)
  answer_invalid-Quiet p r = (answer_invalid_calm p r).0

  answer_invalid-OnlyHttp :
      (p : OfflinePayment) (r : Option PaymentResolution)
      → OnlyHttp (answer_invalid lib trust now user operation_id p r)
  answer_invalid-OnlyHttp p r = (answer_invalid_calm p r).1

  invalid_known_calm :
      (p : OfflinePayment) (b : Bool)
      → Quiet (invalid_known lib trust now user operation_id p b)
        × OnlyHttp (invalid_known lib trust now user operation_id p b)
  invalid_known_calm p false = (search reading_rules, search http_rules)
  invalid_known_calm p true = (
    search (reading_rules, authorize-Quiet, answer_invalid-Quiet),
    search (http_rules, authorize-OnlyHttp, answer_invalid-OnlyHttp),
  )

  pub invalid_with_calm :
      (found : Option OfflinePayment)
      → Quiet (invalid_with lib trust now user operation_id found)
        × OnlyHttp (invalid_with lib trust now user operation_id found)
  invalid_with_calm none = (search reading_rules, search http_rules)
  invalid_with_calm (some p) = invalid_known_calm p (is_final p.state)

  -- the answers to an exception of the body, from the state that it left
  refused :
      (t s' : Session) (x : Error)
      → refuse_evidence lib trust now user operation_id t ≡ (err x, s')
      → ((n : ℕ) × (x ≡ http n)) × (s' ≡ both t.committed)
  unfolding refuse_evidence
  refused t s' x h =
      let (quiet, only) = invalid_with_calm (get_payment operation_id t.committed) in
      (
        only.at (both t.committed) x (λ i. (h i).0),
        sym (λ i. (h i).1) ∙ quiet.at (both t.committed),
      )

  on_error_rolls_back :
      (y : Error) (t s' : Session) (x : Error)
      → on_error lib trust now user operation_id y t ≡ (err x, s')
      → ((n : ℕ) × (x ≡ http n)) × (s' ≡ both t.committed)
  unfolding on_error
  on_error_rolls_back (http n) t s' x h = ((n, cc), sym (λ i. (h i).1))
  on_error_rolls_back protocol_error t s' x h = refused t s' x h
  on_error_rolls_back value_error t s' x h = refused t s' x h
  on_error_rolls_back type_error t s' x h = refused t s' x h
  on_error_rolls_back key_error t s' x h = refused t s' x h
  on_error_rolls_back integrity_error t s' x h = absurd (cc)
  on_error_rolls_back operational_error t s' x h = absurd (cc)
  on_error_rolls_back runtime_error t s' x h = absurd (cc)

  handled :
      (s s' t : Session) (r : Result PaymentResult) (x : Error)
      → ((y : Error) → r ≡ err y → t.committed ≡ s.committed)
      → resume (on_error lib trust now user operation_id) r t ≡ (err x, s')
      → ((n : ℕ) × (x ≡ http n)) × (s' ≡ both s.committed)
  handled s s' t (ok a) x kept h = absurd (cc)
  handled s s' t (err y) x kept h =
      let (coded, back) = on_error_rolls_back y t s' x h in
      (coded, back ∙ (λ i. both (kept y refl i)))

-- Where the handler raises, the error is an HTTP one, and the session is at what was committed before
-- the submission.
pub process_evidence_rolls_back :
    (lib : Library) (trust : Trust lib) (now : ℕ) (user : User) (lock : Result (Unit {0}))
    (e : PaymentEvidence) (s s' : Session) (x : Error)
    → process_evidence lib trust now user lock e s ≡ (err x, s')
    → ((n : ℕ) × (x ≡ http n)) × (s' ≡ both s.committed)
unfolding process_evidence
process_evidence_rolls_back lib trust now user lock e s s' x h =
    handled lib trust now user e.operation_id s s' (body lib trust now user lock e s).1
      (body lib trust now user lock e s).0 x ((body-Atomic lib trust now user lock e).at s) h
