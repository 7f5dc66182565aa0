-- ===== src/Server/Claims/Laws.antt =====
-- What a recorded claim reports, and that recording it again changes nothing.
use backend_pagos_offline.Prelude.{
  ◌≤◌, ◌≡◌, Bool, true, false, ◌||◌, Option, none, some, List, arith, ◌==◌, string_eq, nat_eq,
  beq_refl, Option-cases, Bool-cases, inl, inr, if◌then◌else◌, ◌∙◌,
}
use backend_pagos_offline.Result.{ok}
use backend_pagos_offline.Exec.{raise_when}
use backend_pagos_offline.Table.{fetch, has_row, insert}
use backend_pagos_offline.Table.Laws.{fetch-insert, has_row-fetch}
use backend_pagos_offline.Table.Sums.{has_row-insert}
use backend_pagos_offline.Server.Models.{CommitmentClaim, Database}
use backend_pagos_offline.Server.Session.{Session, add_claim}
use backend_pagos_offline.Server.Claims.{
  record_claim, claim_known, of_operation, same_issuance, differs, reused,
}

abbrev pub known_claim : CommitmentClaim → Database → Option CommitmentClaim
known_claim c db = fetch (of_operation c) db.claims

-- The operation has another claim already, or another operation has the index.
abbrev pub collides : CommitmentClaim → Database → Bool
collides c db = elim (known_claim c db) [ none ↦ reused c db | some e ↦ differs c e || reused c db ]

-- The claim is kept, unless its operation has one.
abbrev pub with_claim : CommitmentClaim → Database → Database
with_claim c db = elim (known_claim c db) [
  | none ↦ record db { claims = insert c db.claims }
  | some e ↦ db
]

abbrev pub recorded : CommitmentClaim → Session → Session
recorded c s = record s { current = with_claim c s.current }

claim_known_lem :
    (c e : CommitmentClaim) (s : Session)
    → claim_known c e s ≡ (ok (differs c e || reused c s.current), s)
claim_known_lem c e s = elim (Bool-cases (differs c e)) [
  | inl other ↦ rw (other, if◌then◌else◌)
  | inr same ↦ rw (same, if◌then◌else◌)
]

-- An operation does not collide with itself.
reused-insert :
    (c : CommitmentClaim) (rs : List CommitmentClaim)
    → has_row (same_issuance c) (insert c rs) ≡ has_row (same_issuance c) rs
reused-insert c rs = ground (arith, has_row-insert (same_issuance c) c rs, beq_refl c.operation_id)

add_claim_lem :
    (c : CommitmentClaim) (s : Session)
    → 1 ≤ c.issuance_index
    → 1 ≤ c.amount_cents
    → known_claim c s.current ≡ none
    → add_claim c s
      ≡ (ok tt, record s { current = record s.current { claims = insert c s.current.claims } })
unfolding add_claim
add_claim_lem c s hi ha new =
    let free : has_row (of_operation c) s.current.claims ≡ false =
      has_row-fetch (of_operation c) s.current.claims new in
    let clear : (has_row (of_operation c) s.current.claims
          || c.issuance_index == 0
          || c.amount_cents == 0)
        ≡ false =
      ground (arith, free) in
    rw (clear, raise_when)

record_claim_once :
    (c : CommitmentClaim) (s : Session)
    → 1 ≤ c.issuance_index
    → 1 ≤ c.amount_cents
    → record_claim c s ≡ (ok (collides c s.current), recorded c s)
unfolding record_claim
record_claim_once c s hi ha = elim (Option-cases (known_claim c s.current)) [
  | inl new ↦
      rw (new, record_claim)
        (rw (add_claim_lem c s hi ha new)
          (rw (reused-insert c s.current.claims) (rw (new, collides, with_claim))))
  | inr (e, known) ↦
      rw (known, record_claim) (rw (claim_known_lem c e s) (rw (known, collides, with_claim)))
]

of_operation_self : (c : CommitmentClaim) → of_operation c c ≡ true
of_operation_self c = ground (arith, beq_refl c.authorization_id, beq_refl c.operation_id)

differs_self : (c : CommitmentClaim) → differs c c ≡ false
differs_self c = ground (arith, beq_refl c.receipt_digest)

collides-with_claim :
    (c : CommitmentClaim) (db : Database) → collides c (with_claim c db) ≡ collides c db
collides-with_claim c db = elim (Option-cases (known_claim c db)) [
  | inl new ↦
      let stored = fetch-insert (of_operation c) c db.claims new (of_operation_self c) in
      rw (new, with_claim)
        (rw (new, collides)
          (rw (stored, collides) (rw (differs_self c, reused-insert c db.claims))))
  | inr (e, known) ↦ rw (known, with_claim)
]

with_claim-with_claim :
    (c : CommitmentClaim) (db : Database) → with_claim c (with_claim c db) ≡ with_claim c db
with_claim-with_claim c db = elim (Option-cases (known_claim c db)) [
  | inl new ↦
      let stored = fetch-insert (of_operation c) c db.claims new (of_operation_self c) in
      rw (new, with_claim) (rw (stored, with_claim) (rw (new, with_claim)))
  | inr (e, known) ↦ rw (known, with_claim) (rw (known, with_claim) (rw (known, with_claim)))
]

-- A claim with a positive index and amount is answered with whether it collides: its operation has
-- a different claim, or another operation of the authorization has its index. It is kept unless its
-- operation has one, and recording it again gives the same answer and changes nothing.
pub record_claim-again :
    (c : CommitmentClaim) (s : Session)
    → 1 ≤ c.issuance_index
    → 1 ≤ c.amount_cents
    → (record_claim c s ≡ (ok (collides c s.current), recorded c s))
      × (record_claim c (recorded c s) ≡ (ok (collides c s.current), recorded c s))
record_claim-again c s hi ha = (
  record_claim_once c s hi ha,
  record_claim_once c (recorded c s) hi ha ∙ (λ i. (
    ok (collides-with_claim c s.current i),
    record s { current = with_claim-with_claim c s.current i },
  )),
)
