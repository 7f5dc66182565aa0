-- ===== src/Pos/Database/Evolution.antt =====
-- What one statement does to the row of one identifier: a safe change lets every row evolve.
use backend_pagos_offline.Prelude.{
  ◌≡◌, ap, ◌∙◌, Bool, true, false, ◌&&◌, Option, some, List, [], ◌∷◌, arith, Bytes, String, ◌==◌,
  string_eq, bytes_eq, option_eq, option_beq_iff, Bool-cases, inl, inr,
}
use backend_pagos_offline.Result.{is_none}
use backend_pagos_offline.Table.{fetch, update, insert}
use backend_pagos_offline.Pos.Rows.{PosOperation, SyncStatus, OpState}
use backend_pagos_offline.Pos.Rows.{is_open, is_undelivered}
use backend_pagos_offline.Pos.Statements.{
  by_id, transition_test, transition_change, authorization_test, authorization_change, sync_test,
  sync_change, recovery_test, attach_change, schedule_change, flag_test, flag_change,
  attention_test, retry_change, is_decided, is_blank, accept_change,
}
use backend_pagos_offline.Pos.Database.Records.{IsConsistent, Advances, Advances-refl, Evolves}

pub Evolves-update :
    (id : String) (test : PosOperation → Bool) (change : PosOperation → PosOperation)
    (rs : List PosOperation)
    → ((r : PosOperation) → (change r).operation_id ≡ r.operation_id)
    → ((r : PosOperation)
        → fetch (by_id id) rs ≡ some r
        → test r ≡ true
        → IsConsistent r
        → IsConsistent (change r) × Advances r (change r))
    → Evolves (fetch (by_id id) rs) (fetch (by_id id) (update test change rs))
Evolves-update id test change [] same h = tt
Evolves-update id test change (r ∷ rs) same h =
    let tail_safe = λ (miss : (r.operation_id == id) ≡ false).
      λ (s : PosOperation) (e : fetch (by_id id) rs ≡ some s). h s (rw miss e) in
    let moved : ((change r).operation_id == id) ≡ (r.operation_id == id) =
      ap (λ t. t == id) (same r) in
    elim (Bool-cases (r.operation_id == id)) [
      | inl hit ↦ elim (Bool-cases (test r)) [
        | inl met ↦ rw (hit, met) (rw (moved ∙ hit) (h r (rw hit) met))
        | inr unmet ↦ rw (hit, unmet) (rw hit (λ c. (c, Advances-refl r)))
      ]
      | inr miss ↦ elim (Bool-cases (test r)) [
        | inl met ↦
            rw (miss, met)
              (rw (moved ∙ miss) (Evolves-update id test change rs same (tail_safe miss)))
        | inr unmet ↦
            rw (miss, unmet) (rw miss (Evolves-update id test change rs same (tail_safe miss)))
      ]
    ]

pub Evolves-insert :
    (id : String) (new : PosOperation) (rs : List PosOperation)
    → IsConsistent new
    → Evolves (fetch (by_id id) rs) (fetch (by_id id) (insert new rs))
Evolves-insert id new [] c = elim (Bool-cases (new.operation_id == id)) [
  | inl hit ↦ rw hit c
  | inr miss ↦ rw miss tt
]
Evolves-insert id new (r ∷ rs) c = elim (Bool-cases (r.operation_id == id)) [
  | inl hit ↦ rw hit (λ k. (k, Advances-refl r))
  | inr miss ↦ rw miss (Evolves-insert id new rs c)
]

-- What one statement does to a row that it meets.
abbrev pub Safe : (PosOperation → Bool) → (PosOperation → PosOperation) → Type 0
Safe test change =
    (r : PosOperation)
    → test r ≡ true
    → IsConsistent r
    → IsConsistent (change r) × Advances r (change r)

pub delivered-Safe :
    (i now : String)
    → Safe (transition_test i is_undelivered) (transition_change OpState.request_delivered now)
delivered-Safe i now r t c = ground arith

pub waiting-Safe :
    (i now : String)
    → Safe (transition_test i is_open) (transition_change OpState.waiting_confirmation now)
waiting-Safe i now r t c = ground arith

pub authorization-Safe :
    (i : String) (e : Bytes) (now : String)
    → Safe (authorization_test i e) (authorization_change e now)
authorization-Safe i e now r t c = ground (arith, option_beq_iff r.authorization_envelope (some e))

pub sync-Safe :
    (i : String) (status : SyncStatus) (code : Option String) (now : String) (next : Option String)
    (res : Option Bytes)
    → (is_decided status && is_blank res) ≡ false
    → Safe (sync_test i) (sync_change status code now next res)
sync-Safe i status code now next res h r t c = ground arith

pub attach-Safe : (i : String) (res : Bytes) → Safe (recovery_test i) (attach_change res)
attach-Safe i res r t c = ground arith

pub schedule-Safe : (i next : String) → Safe (recovery_test i) (schedule_change next)
schedule-Safe i next r t c = ground arith

pub flag-Safe : (i : String) → Safe (flag_test i) flag_change
flag-Safe i r t c = ground arith

pub retry-Safe : Safe attention_test retry_change
retry-Safe r t c = ground arith

-- The evidence is stored on an open row only, so nothing is overwritten.
pub accept-Safe_at :
    (r : PosOperation) (receipt ack : Bytes) (now : String)
    → is_open r.state ≡ true
    → is_none r.receipt_envelope ≡ true
    → IsConsistent r
    → IsConsistent (accept_change receipt ack now r) × Advances r (accept_change receipt ack now r)
accept-Safe_at r receipt ack now o n c = ground arith
