-- ===== src/Server/Evidence/Commits.antt =====
-- Steps of a handler that commit nothing, and handlers that commit at their end.
use backend_pagos_offline.Prelude.{
  ℕ, ◌≡◌, refl, ◌∙◌, Bool, true, false, Option, none, some, inl, inr, if◌then◌else◌,
}
use backend_pagos_offline.Result.{Error, Result, ok, err}
use backend_pagos_offline.Exec.{pure, continue, ◌>>=◌, ◌>>◌}
use backend_pagos_offline.Server.Models.{OfflinePayment, CommitmentClaim, Database}
use backend_pagos_offline.Server.Session.{
  Session, Query, commit, rollback, read, write, add_payment, add_claim,
}
use backend_pagos_offline.Server.Protocol.{Protocol}
use backend_pagos_offline.Server.Updates.{Context}
use backend_pagos_offline.Table.{fetch}
use backend_pagos_offline.Server.Claims.{record_claim, claim_known, of_operation, reused, differs}
use backend_pagos_offline.Server.Apply.{apply}
use backend_pagos_offline.Server.Apply.Outcome.{apply-Outcome, failed, conflict, review, accepted}
use backend_pagos_offline.Server.Apply.Quiet.{Quiet, Quiet-pure, add_payment-Ends, add_claim-Ends}
use backend_pagos_offline.Server.Evidence.Reads.{
  reading_rules, Quiet-read, read_messages-Quiet, read_facts-Quiet, authorize-Quiet,
}

-- It commits nothing.
pub record Open {A : Type 0} (m : Query A) : Type 0 where
  pub at : (s : Session) → (m s).1.committed ≡ s.committed

-- If it raises, it has committed nothing.
pub record Atomic {A : Type 0} (m : Query A) : Type 0 where
  pub at : (s : Session) (e : Error) → (m s).0 ≡ err e → (m s).1.committed ≡ s.committed

module _ {A : Type 0} where
  pub Open-Quiet : (m : Query A) → Quiet m → Open m
  Open-Quiet m q = record { at = λ s i. (q.at s i).committed }

  pub Atomic-Open : (m : Query A) → Open m → Atomic m
  Atomic-Open m o = record { at = λ s e h. o.at s }

  pub Atomic-commit : (a : A) → Atomic (commit >> pure a)
  Atomic-commit a = record { at = λ s e h. cc }

  pub Atomic-if : (b : Bool) (m n : Query A) → Atomic m → Atomic n → Atomic (if b then m else n)
  Atomic-if true m n p q = p
  Atomic-if false m n p q = q

  pub Open-if : (b : Bool) (m n : Query A) → Open m → Open n → Open (if b then m else n)
  Open-if true m n p q = p
  Open-if false m n p q = q

pub Open-write : (f : Database → Database) → Open (write f)
Open-write f = record { at = λ s. refl }

pub Open-rollback : Open rollback
Open-rollback = record { at = λ s. refl }

module _ {A B : Type 0} (m : Query A) (f : A → Query B) where
  pub Open-bind : Open m → ((a : A) → Open (f a)) → Open (m >>= f)
  Open-bind o k = record { at = λ s. go s (m s).0 (m s).1 (o.at s) }
    where
      go :
          (s : Session) (r : Result A) (s' : Session)
          → s'.committed ≡ s.committed
          → (continue r f s').1.committed ≡ s.committed
      go s (ok a) s' h = (k a).at s' ∙ h
      go s (err e) s' h = h

  pub Atomic-bind : Open m → ((a : A) → Atomic (f a)) → Atomic (m >>= f)
  Atomic-bind o k = record { at = λ s e h. go s e (m s).0 (m s).1 (o.at s) h }
    where
      go :
          (s : Session) (e : Error) (r : Result A) (s' : Session)
          → s'.committed ≡ s.committed
          → (continue r f s').0 ≡ err e
          → (continue r f s').1.committed ≡ s.committed
      go s e (ok a) s' h g = (k a).at s' e g ∙ h
      go s e (err x) s' h g = h

pub add_payment-Open : (p : OfflinePayment) → Open (add_payment p)
add_payment-Open p = record {
  at = λ s. elim ((add_payment-Ends p).at s) [
    | inl (e, s', raised, kept) ↦ rw raised kept
    | inr (s', added, (ps, is, _)) ↦ rw (added, is) refl
  ];
}

pub add_claim-Open : (c : CommitmentClaim) → Open (add_claim c)
add_claim-Open c = record {
  at = λ s. elim ((add_claim-Ends c).at s) [
    | inl (e, s', raised, kept) ↦ rw raised kept
    | inr (s', added, (cs, is, _)) ↦ rw (added, is) refl
  ];
}

pub record_claim-Open : (c : CommitmentClaim) → Open (record_claim c)
unfolding record_claim
record_claim-Open c =
    Open-bind (read (λ db. fetch (of_operation c) db.claims)) (λ found. after found)
      (Open-Quiet _ (Quiet-read _)) found-Open
  where
    after : Option CommitmentClaim → Query Bool
    after (some existing) = claim_known c existing
    after none = add_claim c >> read (reused c)

    known-Open : (e : CommitmentClaim) → Open (claim_known c e)
    known-Open e =
        Open-if (differs c e) (pure true) (read (reused c)) (Open-Quiet _ (Quiet-pure true))
          (Open-Quiet _ (Quiet-read _))

    found-Open : (found : Option CommitmentClaim) → Open (after found)
    found-Open (some e) = known-Open e
    found-Open none =
        Open-bind (add_claim c) (λ _. read (reused c)) (add_claim-Open c)
          (λ _. Open-Quiet _ (Quiet-read _))

pub apply-Atomic : (protocol : Protocol) (now : ℕ) (c : Context) → Atomic (apply protocol now c)
apply-Atomic protocol now c = record {
  at = λ s e h. elim (apply-Outcome protocol now c s) [
    | failed x s' unused eq kept ↦ rw eq kept
    | conflict used eq ↦ absurd (cc)
    | review ps cs unused unmet kept claimed eq ↦ absurd (cc)
    | accepted w unused met free eq ↦ absurd (cc)
  ];
}

pub ruleset open_rules = (
  reading_rules, Open-Quiet, Open-write, Open-rollback, Open-bind, add_payment-Open,
  record_claim-Open,
)

pub ruleset atomic_rules = (open_rules, Atomic-commit, Atomic-Open, Atomic-bind)
