-- ===== src/Pos/Database.antt =====
-- The methods of `PosDatabase` (pos_desktop/database.py) on the table `operations`. Each opens a
-- connection of its own in auto-commit mode, so a method is one atomic action; a method that raises
-- inside its transaction closes the connection, which rolls back.
pub mod Candidates
pub mod Records
pub mod Evolution
pub mod History
use backend_pagos_offline.Prelude.{
  ℕ, ◌+◌, String, Bool, true, false, not, ◌&&◌, ◌||◌, Option, none, some, List, [], ◌∷◌, ◌==◌, ◌!=◌,
  Bytes, nat_eq, string_eq, bytes_eq, option_eq, ltb, text_leb, if◌then◌else◌,
}
use backend_pagos_offline.Result.{
  Result, ok, err, value_error, type_error, integrity_error, is_none,
}
use backend_pagos_offline.Exec.{Exec, pure, raise, gets, modify, raise_when, or_raise, ◌>>=◌, ◌>>◌}
use backend_pagos_offline.Table.{select, fetch, rowcount, has_row, update, insert}
use backend_pagos_offline.Pos.Rows.{
  OpState, request_created, request_delivered, waiting_confirmation, locally_accepted, synced,
  rejected, conflict, Recovery, pending, complete, attention_required, PosOperation, RequestPayload,
  PosDatabase, SyncStatus, is_open, is_undelivered, is_locally_accepted, is_final, is_pending,
  is_attention,
}
use backend_pagos_offline.Pos.Statements.{
  by_id, new_operation, violates, transition_test, transition_change, authorization_test,
  authorization_change, accept_change, is_decided, is_retry, synced_state, is_blank, coalesce,
  sync_test, sync_change, lacks_resolution, recovery_test, attach_change, schedule_change,
  flag_test, flag_change, attention_test, retry_change,
}

-- `UPDATE operations SET change WHERE test`
abbrev pub update_operations :
    (PosOperation → Bool) → (PosOperation → PosOperation) → Exec PosDatabase (Unit {0})
update_operations test change =
    modify (λ db. record db { operations = update test change db.operations })

abbrev pub matches : (PosOperation → Bool) → PosDatabase → ℕ
matches test db = rowcount test db.operations

-- An update that must meet exactly one row.
abbrev pub update_one :
    (PosOperation → Bool) → (PosOperation → PosOperation) → Exec PosDatabase (Unit {0})
update_one test change = do
  count ← gets (matches test)
  update_operations test change
  raise_when (count != 1) value_error

abbrev pub insert_new : RequestPayload → Bytes → String → Exec PosDatabase Bool
insert_new payload envelope now = do
  bad ← gets (violates payload)
  raise_when bad integrity_error
  modify
      (λ db. record db { operations = insert (new_operation payload envelope now) db.operations })
  pure true

abbrev pub insert_known : PosOperation → Bytes → Exec PosDatabase Bool
insert_known existing envelope = do
  raise_when (existing.request_envelope != envelope) value_error
  pure false

unfoldable pub insert_request : RequestPayload → Bytes → String → Exec PosDatabase Bool
insert_request payload envelope now db = elim (fetch (by_id payload.operation_id) db.operations) [
  | none ↦ insert_new payload envelope now db
  | some existing ↦ insert_known existing envelope db
]

unfoldable pub transition :
    String → (OpState → Bool) → OpState → String → Exec PosDatabase (Unit {0})
transition operation_id allowed state now =
    update_one (transition_test operation_id allowed) (transition_change state now)

unfoldable pub mark_request_delivered : String → String → Exec PosDatabase (Unit {0})
unfolding transition
mark_request_delivered operation_id now =
    transition operation_id is_undelivered request_delivered now

unfoldable pub mark_waiting : String → String → Exec PosDatabase (Unit {0})
unfolding transition
mark_waiting operation_id now = transition operation_id is_open waiting_confirmation now

unfoldable pub set_authorization : String → Bytes → String → Exec PosDatabase (Unit {0})
set_authorization operation_id envelope now =
    update_one (authorization_test operation_id envelope) (authorization_change envelope now)

-- A stored receipt without its acknowledgement would make `bytes(None)` raise.
abbrev pub check_same : PosOperation → Bytes → Bytes → Exec PosDatabase (Unit {0})
check_same row receipt ack = do
  raise_when (row.receipt_envelope != some receipt) value_error
  stored_ack ← or_raise row.ack_envelope type_error
  raise_when (stored_ack != ack) value_error

abbrev pub accept_row : String → PosOperation → Bytes → Bytes → String → Exec PosDatabase (Unit {0})
accept_row operation_id row receipt ack now =
    if not (is_none row.receipt_envelope) then check_same row receipt ack else do
      raise_when (not (is_open row.state)) value_error
      update_operations (by_id operation_id) (accept_change receipt ack now)

unfoldable pub accept_receipt_and_ack :
    String → Bytes → Bytes → String → Exec PosDatabase (Unit {0})
accept_receipt_and_ack operation_id receipt ack now = do
  found ← gets (λ db. fetch (by_id operation_id) db.operations)
  row ← or_raise found value_error
  accept_row operation_id row receipt ack now

unfoldable pub get_operation : String → PosDatabase → Option PosOperation
get_operation operation_id db = fetch (by_id operation_id) db.operations

unfoldable pub apply_sync_result :
    String
    → SyncStatus
    → Option String
    → String
    → Option String
    → Option Bytes
    → Exec PosDatabase (Unit {0})
apply_sync_result operation_id status code now next_sync_at resolution = do
  raise_when (is_decided status && is_blank resolution) value_error
  update_one (sync_test operation_id) (sync_change status code now next_sync_at resolution)

unfoldable pub attach_final_resolution : String → Bytes → Exec PosDatabase (Unit {0})
attach_final_resolution operation_id resolution =
    update_one (recovery_test operation_id) (attach_change resolution)

unfoldable pub schedule_resolution_recovery : String → String → Exec PosDatabase (Unit {0})
schedule_resolution_recovery operation_id next_at =
    update_operations (recovery_test operation_id) (schedule_change next_at)

unfoldable pub flag_resolution_recovery : String → Exec PosDatabase (Unit {0})
flag_resolution_recovery operation_id = update_operations (flag_test operation_id) flag_change

unfoldable pub retry_attention_resolutions : Exec PosDatabase (Unit {0})
retry_attention_resolutions = update_operations attention_test retry_change
