-- ===== src/Server/Apply/Quiet.antt =====
-- Actions that leave the session as it is.
use backend_pagos_offline.Prelude.{
  ℕ, ◌&&◌, ◌||◌, List, ◌==◌, string_eq, nat_eq, Bool-cases, ◌≡◌, refl, ◌∙◌, Option, none, some, ◌⊎◌,
  inl, inr, Bytes,
}
use backend_pagos_offline.Result.{Error, Result, Result-cases, ok, err, integrity_error}
use backend_pagos_offline.Table.{has_row, insert}
use backend_pagos_offline.Exec.{pure, lift, continue, raise_when, ◌>>=◌}
use backend_pagos_offline.Server.Models.{OfflinePayment, CommitmentClaim}
use backend_pagos_offline.Server.Session.{Session, Query, add_payment, add_claim}
use backend_pagos_offline.Server.Protocol.{Protocol}
use backend_pagos_offline.Server.Apply.{sign_resolution, parse_optional}
use backend_pagos_offline.Server.Updates.{Context}

pub record Quiet {A : Type 0} (m : Query A) : Type 0 where
  pub at : (s : Session) → (m s).1 ≡ s

module _ {A : Type 0} where
  pub Quiet-lift : (r : Result A) → Quiet (lift r)
  Quiet-lift r = record { at = λ s. refl }

  pub Quiet-pure : (a : A) → Quiet (pure a)
  Quiet-pure a = record { at = λ s. refl }

  split :
      (s : Session) (r : Result A) (s' : Session)
      → s' ≡ s
      → ((e : Error) × (◌≡◌ {A = Result A × Session} (r, s') (err e, s)))
        ⊎ ((a : A) × (◌≡◌ {A = Result A × Session} (r, s') (ok a, s)))
  split s (ok a) s' h = inr (a, λ i. (ok a, h i))
  split s (err e) s' h = inl (e, λ i. (err e, h i))

  -- It raises, or it returns.
  pub Quiet-cases :
      (m : Query A)
      → Quiet m
      → (s : Session) → ((e : Error) × (m s ≡ (err e, s))) ⊎ ((a : A) × (m s ≡ (ok a, s)))
  Quiet-cases m q s = split s (m s).0 (m s).1 (q.at s)

module _ {A B : Type 0} where
  pub Quiet-bind :
      (m : Query A) (f : A → Query B) → Quiet m → ((a : A) → Quiet (f a)) → Quiet (m >>= f)
  Quiet-bind m f q k = record { at = λ s. go s (m s).0 (m s).1 (q.at s) }
    where
      go : (s : Session) (r : Result A) (s' : Session) → s' ≡ s → (continue r f s').1 ≡ s
      go s (ok a) s' h = (k a).at s' ∙ h
      go s (err e) s' h = h

-- It raises and commits nothing, or it ends in a state related to the first one.
pub record Ends (Q : Session → Session → Type 0) (m : Query (Unit {0})) : Type 0 where
  pub at :
      (s : Session)
      → ((e : Error) × (s' : Session) × (m s ≡ (err e, s')) × (s'.committed ≡ s.committed))
        ⊎ ((s' : Session) × (m s ≡ (ok tt, s')) × Q s s')

-- A call of the protocol that comes first: what follows knows that it returned its value.
pub Ends-lift :
    {A : Type 0} (Q : Session → Session → Type 0) (r : Result A) (f : A → Query (Unit {0}))
    → ((a : A) → r ≡ ok a → Ends Q (f a))
    → Ends Q (lift r >>= f)
Ends-lift Q r f k = record {
  at = λ s. elim (Result-cases r) [
    | inl (a, returned) ↦ rw (returned, ◌>>=◌) ((k a returned).at s)
    | inr (e, raised) ↦ inl (e, s, rw (raised, ◌>>=◌), refl)
  ];
}

pub Ends-map :
    (Q P : Session → Session → Type 0) (m : Query (Unit {0}))
    → ((s s' : Session) → Q s s' → P s s')
    → Ends Q m
    → Ends P m
Ends-map Q P m h ends = record {
  at = λ s. elim (ends.at s) [
    | inl failed ↦ inl failed
    | inr (s', returned, related) ↦ inr (s', returned, h s s' related)
  ];
}

-- Only the payments, or only the claims, of the open transaction have changed, in a way that P says.
abbrev pub PaymentsChange :
    (List OfflinePayment → List OfflinePayment → Type 0) → Session → Session → Type 0
PaymentsChange P s s' =
    (ps : List OfflinePayment) × (s' ≡ record s { current = record s.current { payments = ps } })
    × P s.current.payments ps

abbrev pub ClaimsChange :
    (List CommitmentClaim → List CommitmentClaim → Type 0) → Session → Session → Type 0
ClaimsChange P s s' =
    (cs : List CommitmentClaim) × (s' ≡ record s { current = record s.current { claims = cs } })
    × P s.current.claims cs

pub add_payment-Ends :
    (p : OfflinePayment)
    → Ends (PaymentsChange (λ before after. after ≡ insert p before)) (add_payment p)
unfolding add_payment
add_payment-Ends p = record {
  at = λ s.
      elim (Bool-cases (
        has_row (λ r. r.operation_id == p.operation_id || r.nonce == p.nonce) s.current.payments
        || p.amount_cents == 0)) [
          | inl bad ↦ inl (integrity_error, s, rw (bad, raise_when), refl)
          | inr good ↦ inr (
            record s { current = record s.current { payments = insert p s.current.payments } },
            rw (good, raise_when),
            (insert p s.current.payments, refl, refl),
          )
        ];
}

pub add_claim-Ends :
    (c : CommitmentClaim)
    → Ends (ClaimsChange (λ before after. after ≡ insert c before)) (add_claim c)
unfolding add_claim
add_claim-Ends c = record {
  at = λ s.
      elim (Bool-cases (
        has_row (λ r. r.authorization_id == c.authorization_id && r.operation_id == c.operation_id)
          s.current.claims
        || c.issuance_index == 0
        || c.amount_cents == 0)) [
          | inl bad ↦ inl (integrity_error, s, rw (bad, raise_when), refl)
          | inr good ↦ inr (
            record s { current = record s.current { claims = insert c s.current.claims } },
            rw (good, raise_when),
            (insert c s.current.claims, refl, refl),
          )
        ];
}

pub ruleset quiet_rules = (Quiet-lift, Quiet-pure, Quiet-bind)

module _ (protocol : Protocol) (now : ℕ) where
  parse_optional-Quiet : (o : Option Bytes) → Quiet (parse_optional protocol now o)
  unfolding parse_optional
  parse_optional-Quiet none = search quiet_rules
  parse_optional-Quiet (some wire) = search quiet_rules

  pub sign_resolution-Quiet : (c : Context) → Quiet (sign_resolution protocol now c)
  unfolding sign_resolution
  sign_resolution-Quiet c = search (quiet_rules, parse_optional-Quiet)
