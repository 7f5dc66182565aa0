-- ===== src/Pos/Database/History.antt =====
-- Every call of a method, in any order, keeps each row consistent and only adds to its evidence.
use backend_pagos_offline.Prelude.{
  ◌≡◌, refl, sym, subst, ◌∙◌, Bool, true, false, ◌&&◌, Option, some, List, [], ◌∷◌, arith, Bytes,
  String, string_eq, bytes_eq, option_eq, Bool-cases, Option-cases, inl, inr,
}
use text.Mathlib.TextEquality.{eq_iff}
use backend_pagos_offline.Result.{is_none}
use backend_pagos_offline.Exec.{or_raise, raise_when}
use backend_pagos_offline.Table.{fetch, update}
use backend_pagos_offline.Table.Laws.{fetch-test}
use backend_pagos_offline.Pos.Rows.{PosOperation, RequestPayload, PosDatabase, SyncStatus}
use backend_pagos_offline.Pos.Rows.{is_open}
use backend_pagos_offline.Pos.Database.{
  accept_row, update_one, update_operations, insert_new, insert_known,
}
use backend_pagos_offline.Pos.Statements.{
  by_id, new_operation, sync_test, sync_change, is_decided, is_blank, accept_change, violates,
}
use backend_pagos_offline.Pos.Database
use backend_pagos_offline.Pos.Database.Records.{
  IsConsistent, Advances, Evolves, Evolves-refl, IsSound, Follows, Evolves-Follows, Evolves-trans,
}
use backend_pagos_offline.Pos.Database.Evolution.{
  Evolves-update, Evolves-insert, Safe, delivered-Safe, waiting-Safe, authorization-Safe, sync-Safe,
  attach-Safe, schedule-Safe, flag-Safe, retry-Safe, accept-Safe_at,
}

-- A call of one of the methods that write to `operations`, with its arguments.
pub data Call : Type 0 where
  insert_request : RequestPayload → Bytes → String → Call
  mark_request_delivered mark_waiting : String → String → Call
  set_authorization : String → Bytes → String → Call
  accept_receipt_and_ack : String → Bytes → Bytes → String → Call
  apply_sync_result :
      String → SyncStatus → Option String → String → Option String → Option Bytes → Call
  attach_final_resolution : String → Bytes → Call
  schedule_resolution_recovery : String → String → Call
  flag_resolution_recovery : String → Call
  retry_attention_resolutions : Call

-- The database after the call, whether it returned or raised.
unfoldable pub after : Call → PosDatabase → PosDatabase
after (Call.insert_request p e now) db = (Database.insert_request p e now db).1
after (Call.mark_request_delivered i now) db = (Database.mark_request_delivered i now db).1
after (Call.mark_waiting i now) db = (Database.mark_waiting i now db).1
after (Call.set_authorization i e now) db = (Database.set_authorization i e now db).1
after (Call.accept_receipt_and_ack i r a now) db = (Database.accept_receipt_and_ack i r a now db).1
after (Call.apply_sync_result i s c now next res) db =
    (Database.apply_sync_result i s c now next res db).1
after (Call.attach_final_resolution i res) db = (Database.attach_final_resolution i res db).1
after (Call.schedule_resolution_recovery i next) db =
    (Database.schedule_resolution_recovery i next db).1
after (Call.flag_resolution_recovery i) db = (Database.flag_resolution_recovery i db).1
after Call.retry_attention_resolutions db = (Database.retry_attention_resolutions db).1

abbrev pub row : String → PosDatabase → Option PosOperation
row id db = fetch (by_id id) db.operations

update_one-operations :
    (test : PosOperation → Bool) (change : PosOperation → PosOperation) (db : PosDatabase)
    → (update_one test change db).1.operations ≡ update test change db.operations
update_one-operations test change db = ground arith

-- A statement that changes at most one table, safely, lets every row evolve.
Evolves-Safe :
    (id : String) (test : PosOperation → Bool) (change : PosOperation → PosOperation)
    (db : PosDatabase)
    → ((r : PosOperation) → (change r).operation_id ≡ r.operation_id)
    → Safe test change
    → Evolves (row id db) (fetch (by_id id) (update test change db.operations))
Evolves-Safe id test change db same safe =
    Evolves-update id test change db.operations same (λ r _. safe r)

Evolves-one :
    (id : String) (test : PosOperation → Bool) (change : PosOperation → PosOperation)
    (db : PosDatabase)
    → ((r : PosOperation) → (change r).operation_id ≡ r.operation_id)
    → Safe test change
    → Evolves (row id db) (row id (update_one test change db).1)
Evolves-one id test change db same safe =
    rw (update_one-operations test change db) (Evolves-Safe id test change db same safe)

insert_new-Evolves :
    (id : String) (p : RequestPayload) (e : Bytes) (now : String) (db : PosDatabase)
    → Evolves (row id db) (row id (insert_new p e now db).1)
insert_new-Evolves id p e now db = elim (Bool-cases (violates p db)) [
  | inl bad ↦ rw (bad, insert_new) (Evolves-refl (row id db))
  | inr good ↦
      rw (good, insert_new) (Evolves-insert id (new_operation p e now) db.operations (ground arith))
]

insert_known-after :
    (r : PosOperation) (e : Bytes) (db : PosDatabase) → (insert_known r e db).1 ≡ db
insert_known-after r e db = ground arith

insert_request-Evolves :
    (id : String) (p : RequestPayload) (e : Bytes) (now : String) (db : PosDatabase)
    → Evolves (row id db) (row id (Database.insert_request p e now db).1)
unfolding Database.insert_request
insert_request-Evolves id p e now db =
    elim (Option-cases (fetch (by_id p.operation_id) db.operations)) [
      | inl new ↦ rw (new, Database.insert_request) (insert_new-Evolves id p e now db)
      | inr (r, old) ↦
          rw (old, Database.insert_request)
            (rw (insert_known-after r e db) (Evolves-refl (row id db)))
    ]

accept_row-Evolves :
    (id i : String) (r : PosOperation) (receipt ack : Bytes) (now : String) (db : PosDatabase)
    → fetch (by_id i) db.operations ≡ some r
    → Evolves (row id db) (row id (accept_row i r receipt ack now db).1)
accept_row-Evolves id i r receipt ack now db found =
    elim (Bool-cases (is_none r.receipt_envelope)) [
      | inr filled ↦ rw (accept_row_filled filled) (Evolves-refl (row id db))
      | inl empty ↦ elim (Bool-cases (is_open r.state)) [
        | inr shut ↦ rw (accept_row_shut empty shut) (Evolves-refl (row id db))
        | inl open_row ↦ rw (accept_row_open empty open_row) (
            Evolves-update id (by_id i) (accept_change receipt ack now) db.operations (λ s. refl)
              (λ s at_id test c.
                let same : r ≡ s = same_row s at_id test in
                subst
                  (λ t.
                    IsConsistent (accept_change receipt ack now t)
                    × Advances t (accept_change receipt ack now t))
                  same
                  (accept-Safe_at r receipt ack now open_row empty
                    (subst IsConsistent (sym same) c))))
      ]
    ]
  where
    accept_row_filled :
        is_none r.receipt_envelope ≡ false → (accept_row i r receipt ack now db).1 ≡ db
    accept_row_filled h = ground arith

    accept_row_shut :
        is_none r.receipt_envelope ≡ true
        → is_open r.state ≡ false
        → (accept_row i r receipt ack now db).1 ≡ db
    accept_row_shut h k = ground arith

    accept_row_open :
        is_none r.receipt_envelope ≡ true
        → is_open r.state ≡ true
        → (accept_row i r receipt ack now db).1 ≡ record db {
          operations = update (by_id i) (accept_change receipt ack now) db.operations;
        }
    accept_row_open h k = ground arith

    same_row :
        (s : PosOperation) → fetch (by_id id) db.operations ≡ some s → by_id i s ≡ true → r ≡ s
    same_row s e t =
        let named : s.operation_id ≡ i = (eq_iff s.operation_id i).0 t in
        let found_id : s.operation_id ≡ id =
          (eq_iff s.operation_id id).0 (fetch-test (by_id id) db.operations s e) in
        let e' : fetch (by_id i) db.operations ≡ some s = rw (sym named ∙ found_id) e in cc

accept-Evolves :
    (id i : String) (receipt ack : Bytes) (now : String) (db : PosDatabase)
    → Evolves (row id db) (row id (Database.accept_receipt_and_ack i receipt ack now db).1)
unfolding Database.accept_receipt_and_ack
accept-Evolves id i receipt ack now db = elim (Option-cases (fetch (by_id i) db.operations)) [
  | inl missing ↦ rw (missing, or_raise) (Evolves-refl (row id db))
  | inr (r, found) ↦ rw (found, or_raise) (accept_row-Evolves id i r receipt ack now db found)
]

sync-Evolves :
    (id i : String) (status : SyncStatus) (code : Option String) (now : String)
    (next : Option String) (res : Option Bytes) (db : PosDatabase)
    → Evolves (row id db) (row id (Database.apply_sync_result i status code now next res db).1)
unfolding Database.apply_sync_result
sync-Evolves id i status code now next res db =
    elim (Bool-cases (is_decided status && is_blank res)) [
      | inl bad ↦ rw (bad, raise_when) (Evolves-refl (row id db))
      | inr good ↦
          rw (good, raise_when)
            (Evolves-one id (sync_test i) (sync_change status code now next res) db (λ r. refl)
              (sync-Safe i status code now next res good))
    ]

pub after-Evolves :
    (id : String) (c : Call) (db : PosDatabase) → Evolves (row id db) (row id (after c db))
unfolding after Database.mark_request_delivered Database.mark_waiting Database.set_authorization
    Database.attach_final_resolution Database.schedule_resolution_recovery
    Database.flag_resolution_recovery Database.retry_attention_resolutions
after-Evolves id (Call.insert_request p e now) db = insert_request-Evolves id p e now db
after-Evolves id (Call.mark_request_delivered i now) db =
    Evolves-one id _ _ db (λ r. refl) (delivered-Safe i now)
after-Evolves id (Call.mark_waiting i now) db =
    Evolves-one id _ _ db (λ r. refl) (waiting-Safe i now)
after-Evolves id (Call.set_authorization i e now) db =
    Evolves-one id _ _ db (λ r. refl) (authorization-Safe i e now)
after-Evolves id (Call.accept_receipt_and_ack i r a now) db = accept-Evolves id i r a now db
after-Evolves id (Call.apply_sync_result i s c now next res) db =
    sync-Evolves id i s c now next res db
after-Evolves id (Call.attach_final_resolution i res) db =
    Evolves-one id _ _ db (λ r. refl) (attach-Safe i res)
after-Evolves id (Call.schedule_resolution_recovery i next) db =
    Evolves-Safe id _ _ db (λ r. refl) (schedule-Safe i next)
after-Evolves id (Call.flag_resolution_recovery i) db =
    Evolves-Safe id _ _ db (λ r. refl) (flag-Safe i)
after-Evolves id Call.retry_attention_resolutions db = Evolves-Safe id _ _ db (λ r. refl) retry-Safe

-- The database after a sequence of calls.
unfoldable pub after_all : List Call → PosDatabase → PosDatabase
unfolding after
after_all [] db = db
after_all (c ∷ cs) db = after_all cs (after c db)

pub after_all-Evolves :
    (id : String) (calls : List Call) (db : PosDatabase)
    → Evolves (row id db) (row id (after_all calls db))
unfolding after_all
after_all-Evolves id [] db = Evolves-refl (row id db)
after_all-Evolves id (c ∷ cs) db =
    Evolves-trans (row id db) (row id (after c db)) (row id (after_all cs (after c db)))
      (after-Evolves id c db) (after_all-Evolves id cs (after c db))

-- Whatever methods that write to the table are called in whatever order, a row that was consistent
-- is still there, is
-- consistent, keeps its identity, amount and request, keeps every envelope that it had, and has not
-- gone back in its state; a row that was not there is consistent once it is.
pub after_all-Follows :
    (id : String) (calls : List Call) (db : PosDatabase)
    → IsSound (row id db)
    → IsSound (row id (after_all calls db)) × Follows (row id db) (row id (after_all calls db))
after_all-Follows id calls db sound =
    Evolves-Follows (row id db) (row id (after_all calls db)) (after_all-Evolves id calls db) sound
