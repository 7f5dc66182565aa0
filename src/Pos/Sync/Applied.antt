-- ===== src/Pos/Sync/Applied.antt =====
-- What the main loop of `sync_due` makes of one candidate's row.
use package.text.Mathlib.TextEquality.{eq_iff}
use backend_pagos_offline.Prelude.{
  ℕ, ◌+◌, String, ◌≡◌, refl, ◌∙◌, Bool, true, false, not, ◌&&◌, Option, none, some, List, [], ◌∷◌,
  arith, ◌==◌, ◌!=◌, string_eq, nat_eq, Bool-cases, ◌⊎◌, inl, inr, Bytes, ap,
}
use backend_pagos_offline.Result.{Error, Result, ok, err, value_error}
use backend_pagos_offline.Exec.{continue, raise_when, ◌>>=◌, pure}
use backend_pagos_offline.Table.{fetch, update, rowcount}
use backend_pagos_offline.Pos.Rows.{
  OpState, PosOperation, PosDatabase, SyncStatus, Recovery, is_locally_accepted,
}
use backend_pagos_offline.Pos.Statements.{
  by_id, sync_test, sync_change, is_decided, is_blank, coalesce,
}
use backend_pagos_offline.Pos.Database.{apply_sync_result}
use backend_pagos_offline.Pos.Backend.{SyncBackend, Accepted, status_name}
use backend_pagos_offline.Pos.Sync.{backoff, retry, settle, next_at}

pub fetch-update_other :
    (id other : String) (change : PosOperation → PosOperation) (rs : List PosOperation)
    → ((r : PosOperation) → (change r).operation_id ≡ r.operation_id)
    → (id == other) ≡ false
    → fetch (by_id other) (update (sync_test id) change rs) ≡ fetch (by_id other) rs
fetch-update_other id other change [] same h = refl
fetch-update_other id other change (r ∷ rs) same h =
    ground (arith, same r, eq_iff r.operation_id id, fetch-update_other id other change rs same h)

pub fetch-update_own :
    (id : String) (change : PosOperation → PosOperation) (rs : List PosOperation) (r : PosOperation)
    → ((r : PosOperation) → (change r).operation_id ≡ r.operation_id)
    → fetch (by_id id) rs ≡ some r
    → is_locally_accepted r.state ≡ true
    → fetch (by_id id) (update (sync_test id) change rs) ≡ some (change r)
fetch-update_own id change [] r same h k = absurd (cc)
fetch-update_own id change (x ∷ xs) r same h k = elim (Bool-cases (x.operation_id == id)) [
  | inl hit ↦
      let found : x ≡ r = ground arith in
      let waiting : is_locally_accepted x.state ≡ true = rw found k in
      rw (hit, waiting) (rw (ap (λ t. t == id) (same x) ∙ hit) (rw found refl))
  | inr miss ↦ rw miss (rw miss (fetch-update_own id change xs r same (ground arith) k))
]

-- the result that counts, where it decides the operation, has its resolution
abbrev pub is_signed : Option Accepted → Bool
is_signed none = true
is_signed (some (id, s, x)) = not (is_decided s && is_blank x.resolution_envelope)

module _ (owner : String) (timestamp : ℕ → String) (backend : SyncBackend) (instant : ℕ) where
  -- the candidate, tried again after its delay
  abbrev pub rescheduled : Option String → PosOperation → PosOperation
  rescheduled code c = record c {
    updated_at = timestamp instant;
    sync_attempts = c.sync_attempts + 1;
    next_sync_at = some (timestamp (instant + backoff (c.sync_attempts + 1)));
    last_sync_error = code;
  }

  -- the candidate in a new state, and not tried again
  abbrev pub closed : OpState → Option String → PosOperation → PosOperation
  closed state code c = record c {
    state = state;
    updated_at = timestamp instant;
    next_sync_at = none;
    last_sync_error = code;
  }

  -- what the result that counts says of the candidate
  abbrev pub answered : PosOperation → Option Accepted → PosOperation
  answered c none = rescheduled (some "MISSING_RESULT") c
  answered c (some (id, SyncStatus.pending_evidence, x)) = rescheduled x.code c
  answered c (some (id, SyncStatus.retryable_error, x)) = rescheduled x.code c
  answered c (some (id, SyncStatus.conflict, x)) = closed OpState.conflict x.code c
  answered c (some (id, SyncStatus.accepted, x)) = record (closed OpState.synced x.code c) {
    resolution_envelope = coalesce c.resolution_envelope x.resolution_envelope;
    resolution_recovery_status = Recovery.complete;
  }
  answered c (some (id, SyncStatus.rejected, x)) = record (closed OpState.rejected x.code c) {
    resolution_envelope = coalesce c.resolution_envelope x.resolution_envelope;
    resolution_recovery_status = Recovery.complete;
  }

  abbrev pub decision : PosOperation → Option Accepted → PosOperation → PosOperation
  decision c none =
      sync_change SyncStatus.retryable_error (some "MISSING_RESULT") (timestamp instant)
        (some (timestamp (instant + backoff (c.sync_attempts + 1)))) none
  decision c (some (id, s, x)) =
      sync_change s x.code (timestamp instant) (next_at owner timestamp backend s c instant)
        x.resolution_envelope

  pub decision_keeps :
      (c : PosOperation) (a : Option Accepted) (r : PosOperation)
      → (decision c a r).operation_id ≡ r.operation_id
  decision_keeps c none r = refl
  decision_keeps c (some a) r = refl

  pub decision-answered :
      (c : PosOperation) (a : Option Accepted)
      → c.state ≡ OpState.locally_accepted
      → decision c a c ≡ answered c a
  decision-answered c none h = cc
  decision-answered c (some (id, SyncStatus.pending_evidence, x)) h = cc
  decision-answered c (some (id, SyncStatus.retryable_error, x)) h = cc
  decision-answered c (some (id, SyncStatus.conflict, x)) h = refl
  decision-answered c (some (id, SyncStatus.accepted, x)) h = refl
  decision-answered c (some (id, SyncStatus.rejected, x)) h = refl

  -- the tables once the row of a candidate is changed
  abbrev pub written : PosOperation → Option Accepted → PosDatabase → PosDatabase
  written c a db = record db {
    operations = update (sync_test c.operation_id) (decision c a) db.operations;
  }

  finish :
      (key : String) (x : Result (Unit {0})) (db : PosDatabase)
      → (y : Result String) × (continue x (λ _. pure key) db ≡ (y, db))
  finish key (ok t) db = (ok key, refl)
  finish key (err e) db = (err e, refl)

  apply_sync_result-cases :
      (id : String) (s : SyncStatus) (code : Option String) (now : String) (next : Option String)
      (resolution : Option Bytes) (db : PosDatabase)
      → ((e : Error) × (apply_sync_result id s code now next resolution db ≡ (err e, db)))
        ⊎ ((x : Result (Unit {0})) × (apply_sync_result id s code now next resolution db ≡ (
          x,
          record db {
            operations =
                update (sync_test id) (sync_change s code now next resolution) db.operations;
          },
        )))
  unfolding apply_sync_result
  apply_sync_result-cases id s code now next resolution db =
      elim (Bool-cases (is_decided s && is_blank resolution)) [
        | inl bad ↦ inl (value_error, rw (bad, raise_when) refl)
        | inr fine ↦ elim (Bool-cases (rowcount (sync_test id) db.operations != 1)) [
          | inl wrong ↦ inr (err value_error, rw (fine, raise_when) (rw (wrong, raise_when) refl))
          | inr one ↦ inr (ok tt, rw (fine, raise_when) (rw (one, raise_when) refl))
        ]
      ]

  -- A candidate is left as it is, with an exception, or its row is changed.
  pub settle-cases :
      (c : PosOperation) (a : Option Accepted) (db : PosDatabase)
      → ((e : Error) × (settle owner timestamp backend c a instant db ≡ (err e, db)))
        ⊎ ((y : Result String) × (settle owner timestamp backend c a instant db
              ≡ (y, written c a db)))
  unfolding settle retry
  settle-cases c none db =
      elim (apply_sync_result-cases c.operation_id SyncStatus.retryable_error
        (some "MISSING_RESULT") (timestamp instant)
        (some (timestamp (instant + backoff (c.sync_attempts + 1)))) none db) [
          | inl (e, raised) ↦ inl (e, rw (raised, ◌>>=◌) refl)
          | inr (x, is) ↦ inr (rw is (finish "RETRYABLE_ERROR" x (written c none db)))
        ]
  settle-cases c (some (id, s, x)) db =
      elim (apply_sync_result-cases c.operation_id s x.code (timestamp instant)
        (next_at owner timestamp backend s c instant) x.resolution_envelope db) [
          | inl (e, raised) ↦ inl (e, rw (raised, ◌>>=◌) refl)
          | inr (y, is) ↦ inr (rw is (finish (status_name s) y (written c (some (id, s, x)) db)))
        ]

  pub settle_returns :
      (c : PosOperation) (a : Option Accepted) (db : PosDatabase)
      → rowcount (sync_test c.operation_id) db.operations ≡ 1
      → is_signed a ≡ true
      → (key : String) × (settle owner timestamp backend c a instant db ≡ (ok key, written c a db))
  unfolding settle retry apply_sync_result
  settle_returns c none db alone h = ("RETRYABLE_ERROR", rw (alone, raise_when) refl)
  settle_returns c (some (id, s, x)) db alone h =
      let fine : (is_decided s && is_blank x.resolution_envelope) ≡ false = ground arith in
      (status_name s, rw (fine, alone, raise_when) refl)
