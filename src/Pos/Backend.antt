-- ===== src/Pos/Backend.antt =====
-- The backend as the synchroniser of pos_desktop/sync.py sees it: what is sent for an operation,
-- what may come back, and which of the results count.
use backend_pagos_offline.Prelude.{
  ℕ, String, Bool, true, false, not, ◌||◌, Option, none, some, List, [], ◌∷◌, ◌==◌, string_eq,
  nat_eq, Bytes, if◌then◌else◌,
}
use backend_pagos_offline.Result.{Error, Result, ok, err, value_error, runtime_error, is_none}
use backend_pagos_offline.Result
use backend_pagos_offline.Pos.Rows.{OpState, PosOperation, SyncStatus}

-- One entry of the backend's answer. `status` is none for a text outside `VALID_RESULTS`.
pub record SyncResult : Type 0 where
  pub operation_id : Option String
  pub status : Option SyncStatus
  pub code : Option String
  pub resolution_envelope : Option Bytes

-- What is sent for one operation; the Base64 of the wire is left out.
pub record Evidence : Type 0 where
  pub operation_id : String
  pub request_envelope : Bytes
  pub authorization_envelope : Bytes
  pub receipt_envelope : Bytes
  pub ack_envelope : Bytes

-- How a request for a signed resolution ends: with one, with none, by `ValueError`, by
-- `RuntimeError`, whose cause is an HTTP status or another failure, or by another exception.
pub data Fetched : Type 0 where
  resolution : Bytes → Fetched
  nothing invalid : Fetched
  http_error : ℕ → Fetched
  failure : Fetched
  raised : Error → Fetched

-- The protocol `SyncBackend`, with the session's token: `none` is an exception.
pub record SyncBackend : Type 0 where
  pub sync_operations : List Evidence → Option (List SyncResult)
  pub fetch_verified_final_resolution : String → Evidence → SyncStatus → Fetched

-- `_evidence`
unfoldable pub evidence_of : PosOperation → Result Evidence
evidence_of r = elim r.authorization_envelope [
  | none ↦ err value_error
  | some a ↦ elim r.receipt_envelope [
    | none ↦ err value_error
    | some c ↦ elim r.ack_envelope [
      | none ↦ err value_error
      | some k ↦ ok (record {
        operation_id = r.operation_id;
        request_envelope = r.request_envelope;
        authorization_envelope = a;
        receipt_envelope = c;
        ack_envelope = k;
      })
    ]
  ]
]

pub evidence_of_all : List PosOperation → Result (List Evidence)
unfolding evidence_of
evidence_of_all [] = ok []
evidence_of_all (r ∷ rs) =
    Result.◌>>=◌ (evidence_of r) (λ e. Result.◌>>=◌ (evidence_of_all rs) (λ es. ok (e ∷ es)))

abbrev pub status_name : SyncStatus → String
status_name SyncStatus.accepted = "ACCEPTED"
status_name SyncStatus.rejected = "REJECTED"
status_name SyncStatus.conflict = "CONFLICT"
status_name SyncStatus.pending_evidence = "PENDING_EVIDENCE"
status_name SyncStatus.retryable_error = "RETRYABLE_ERROR"

-- A result that counts: its operation, its status, and the rest.
abbrev pub Accepted : Type 0
Accepted = String × SyncStatus × SyncResult

abbrev pub is_asked : String → List PosOperation → Bool
is_asked id [] = false
is_asked id (r ∷ rs) = if r.operation_id == id then true else is_asked id rs

unfoldable pub lookup : String → List Accepted → Option Accepted
lookup id [] = none
lookup id ((i, s, r) ∷ rest) = if i == id then some (i, s, r) else lookup id rest

-- One turn of the loop that fills `by_id`.
abbrev pub admit : List PosOperation → SyncResult → List Accepted → List Accepted
admit asked r by_id = elim r.operation_id [
  | none ↦ by_id
  | some id ↦ elim r.status [
    | none ↦ by_id
    | some s ↦
        (if not (is_asked id asked) || not (is_none (lookup id by_id))
          then by_id
          else (id, s, r) ∷ by_id)
  ]
]

unfoldable pub collect : List PosOperation → List SyncResult → List Accepted → List Accepted
unfolding lookup
collect asked [] by_id = by_id
collect asked (r ∷ rs) by_id = collect asked rs (admit asked r by_id)

abbrev pub expected_status : OpState → SyncStatus
expected_status OpState.synced = SyncStatus.accepted
expected_status _ = SyncStatus.rejected
