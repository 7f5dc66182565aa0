-- ===== src/Pos/Statements.antt =====
-- The statements of pos_desktop/database.py on the table `operations`: the rows that each is about,
-- and what it does to one.
use backend_pagos_offline.Prelude.{
  ◌+◌, String, Bool, true, false, ◌&&◌, ◌||◌, Option, none, some, [], ◌∷◌, ◌==◌, Bytes, nat_eq,
  string_eq, bytes_eq, option_eq, if◌then◌else◌,
}
use backend_pagos_offline.Result.{is_none}
use backend_pagos_offline.Table.{has_row}
use backend_pagos_offline.Pos.Rows.{
  OpState, request_created, locally_accepted, synced, rejected, conflict, pending, complete,
  attention_required, PosOperation, RequestPayload, PosDatabase, SyncStatus, is_open,
  is_locally_accepted, is_final, is_pending, is_attention,
}

abbrev pub by_id : String → PosOperation → Bool
by_id operation_id r = r.operation_id == operation_id

abbrev pub new_operation : RequestPayload → Bytes → String → PosOperation
new_operation payload envelope now = record {
  operation_id = payload.operation_id;
  merchant_id = payload.merchant_id;
  terminal_id = payload.terminal_id;
  amount_cents = payload.amount_cents;
  nonce = payload.nonce;
  request_envelope = envelope;
  authorization_envelope = none;
  receipt_envelope = none;
  ack_envelope = none;
  resolution_envelope = none;
  resolution_recovery_status = pending;
  state = request_created;
  created_at = now;
  updated_at = now;
  sync_attempts = 0;
  next_sync_at = none;
  last_sync_error = none;
}

-- The constraints of the table: a positive amount, and a nonce of its own.
abbrev pub violates : RequestPayload → PosDatabase → Bool
violates payload db =
    payload.amount_cents == 0 || has_row (λ r. r.nonce == payload.nonce) db.operations

-- The rows that each method's statement is about, and what the statement does to one.
abbrev pub transition_test : String → (OpState → Bool) → PosOperation → Bool
transition_test operation_id allowed r = by_id operation_id r && allowed r.state

abbrev pub transition_change : OpState → String → PosOperation → PosOperation
transition_change state now r = record r { state = state; updated_at = now }

abbrev pub authorization_test : String → Bytes → PosOperation → Bool
authorization_test operation_id envelope r =
    by_id operation_id r
    && is_open r.state
    && (is_none r.authorization_envelope || r.authorization_envelope == some envelope)

abbrev pub authorization_change : Bytes → String → PosOperation → PosOperation
authorization_change envelope now r = record r {
  authorization_envelope = some envelope;
  updated_at = now;
}

abbrev pub accept_change : Bytes → Bytes → String → PosOperation → PosOperation
accept_change receipt ack now r = record r {
  receipt_envelope = some receipt;
  ack_envelope = some ack;
  state = locally_accepted;
  updated_at = now;
}

-- `status in {"ACCEPTED", "REJECTED"}`
abbrev pub is_decided : SyncStatus → Bool
is_decided SyncStatus.accepted = true
is_decided SyncStatus.rejected = true
is_decided _ = false

abbrev pub is_retry : SyncStatus → Bool
is_retry SyncStatus.pending_evidence = true
is_retry SyncStatus.retryable_error = true
is_retry _ = false

abbrev pub synced_state : SyncStatus → OpState
synced_state SyncStatus.accepted = synced
synced_state SyncStatus.rejected = rejected
synced_state SyncStatus.conflict = conflict
synced_state _ = locally_accepted

-- `not value`: absent or empty
abbrev pub is_blank : Option Bytes → Bool
is_blank none = true
is_blank (some []) = true
is_blank (some (b ∷ bs)) = false

-- `COALESCE(a, b)`
abbrev pub coalesce : Option Bytes → Option Bytes → Option Bytes
coalesce none b = b
coalesce (some a) b = some a

abbrev pub sync_test : String → PosOperation → Bool
sync_test operation_id r = by_id operation_id r && is_locally_accepted r.state

abbrev pub sync_change :
    SyncStatus → Option String → String → Option String → Option Bytes → PosOperation → PosOperation
sync_change status code now next_sync_at resolution r = record r {
  state = synced_state status;
  updated_at = now;
  sync_attempts = (if is_retry status then r.sync_attempts + 1 else r.sync_attempts);
  next_sync_at = next_sync_at;
  last_sync_error = code;
  resolution_envelope =
      (if is_decided status
        then coalesce r.resolution_envelope resolution
        else r.resolution_envelope);
  resolution_recovery_status =
      (if is_decided status then complete else r.resolution_recovery_status);
}

-- The rows that await the recovery of a signed resolution.
abbrev pub lacks_resolution : PosOperation → Bool
lacks_resolution r = is_final r.state && is_none r.resolution_envelope

abbrev pub recovery_test : String → PosOperation → Bool
recovery_test operation_id r =
    by_id operation_id r && lacks_resolution r && is_pending r.resolution_recovery_status

abbrev pub attach_change : Bytes → PosOperation → PosOperation
attach_change resolution r = record r {
  resolution_envelope = some resolution;
  resolution_recovery_status = complete;
  next_sync_at = none;
}

abbrev pub schedule_change : String → PosOperation → PosOperation
schedule_change next_at r = record r {
  sync_attempts = r.sync_attempts + 1;
  next_sync_at = some next_at;
}

abbrev pub flag_test : String → PosOperation → Bool
flag_test operation_id r = by_id operation_id r && lacks_resolution r

abbrev pub flag_change : PosOperation → PosOperation
flag_change r = record r { resolution_recovery_status = attention_required; next_sync_at = none }

abbrev pub attention_test : PosOperation → Bool
attention_test r = is_attention r.resolution_recovery_status && lacks_resolution r

abbrev pub retry_change : PosOperation → PosOperation
retry_change r = record r { resolution_recovery_status = pending }
