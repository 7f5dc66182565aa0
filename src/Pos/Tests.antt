-- ===== src/Pos/Tests.antt =====
-- A terminal with one operation, on which the theorems about the point of sale are applied.
use text.Mathlib.TextEquality.{eq_iff}
use backend_pagos_offline.Prelude.{
  ◌≡◌, ◌≢◌, ◌≤◌, ◌*◌, min, refl, arith, String, true, false, none, some, List, [], ◌∷◌, text_ltb,
  text_leb, codes_ltb, All, length, ◌⊎◌, inl, if◌then◌else◌,
}
use backend_pagos_offline.Result.{ok}
use backend_pagos_offline.Table.{fetch, rowcount}
use backend_pagos_offline.Pos.Rows.{
  PosOperation, RequestPayload, PosDatabase, SyncStatus, OpState, Recovery,
}
use backend_pagos_offline.Pos.Database.Records.{IsSound, Follows}
use backend_pagos_offline.Pos.Database.History.{Call, row, after_all, after_all-Follows}
use backend_pagos_offline.Pos.Database.Candidates.{list_sync_candidates}
use backend_pagos_offline.Pos.Database.Candidates.Arranged.{Among, IsOrdered}
use backend_pagos_offline.Pos.Database.Candidates.Oldest.{
  IsSendable, list_sync_candidates-IsSendable, list_sync_candidates_complete,
}
use backend_pagos_offline.Pos.Keys.{
  KeyTables, IssuerKey, trusted_row, trust_wallet_key, resolve_wallet_key, trust_issuer_key,
  get_issuer_key,
}
use backend_pagos_offline.Pos.Keys.Trust.{trust_wallet_key-resolves, trust_issuer_key_first}
use backend_pagos_offline.Pos.Lock.{try_acquire_sync_lock, release_sync_lock}
use backend_pagos_offline.Pos.Lock.Exclusion.{
  Attempt, acquire, release, attempts, acquire_excludes, release_frees,
}
use backend_pagos_offline.Pos.Sync.{Summary, settle_all, backoff}
use backend_pagos_offline.Pos.Backend.{SyncBackend, SyncResult, nothing, lookup, collect, is_asked}
use backend_pagos_offline.Pos.Statements.{by_id}
use backend_pagos_offline.Pos.Sync.Applied.{answered}
use backend_pagos_offline.Pos.Sync.Answers.{settle_all-answered}
use backend_pagos_offline.Pos.Sync.Backoff.{backoff_lem}
use backend_pagos_offline.Pos.Sync.Results.{first_valid, lookup-collect_first}

abbrev request : RequestPayload
request = record {
  operation_id = "p1";
  merchant_id = "m1";
  terminal_id = "t1";
  amount_cents = 200;
  nonce = "n1";
}

abbrev empty : PosDatabase
empty = record { operations = []; pos_profile = none; sync_lock = none }

-- A payment, from its request to the signed resolution.
abbrev payment : List Call
payment =
    Call.insert_request request (1 ∷ []) "10"
    ∷ Call.mark_request_delivered "p1" "11"
    ∷ Call.set_authorization "p1" (2 ∷ []) "12"
    ∷ Call.mark_waiting "p1" "13"
    ∷ Call.accept_receipt_and_ack "p1" (3 ∷ []) (4 ∷ []) "14"
    ∷ Call.apply_sync_result "p1" SyncStatus.accepted none "15" none (some (5 ∷ []))
    ∷ []

after_all-Follows_example :
    IsSound (row "p1" (after_all payment empty))
    × Follows (row "p1" empty) (row "p1" (after_all payment empty))
after_all-Follows_example = after_all-Follows "p1" payment empty tt

abbrev accepted_row : PosOperation
accepted_row = record {
  operation_id = "p1";
  merchant_id = "m1";
  terminal_id = "t1";
  amount_cents = 200;
  nonce = "n1";
  request_envelope = 1 ∷ [];
  authorization_envelope = some (2 ∷ []);
  receipt_envelope = some (3 ∷ []);
  ack_envelope = some (4 ∷ []);
  resolution_envelope = none;
  resolution_recovery_status = Recovery.pending;
  state = OpState.locally_accepted;
  created_at = "10";
  updated_at = "14";
  sync_attempts = 0;
  next_sync_at = none;
  last_sync_error = none;
}

abbrev stored : PosDatabase
stored = record empty { operations = accepted_row ∷ [] }

abbrev answer : SyncResult
answer = record {
  operation_id = some "p1";
  status = some SyncStatus.accepted;
  code = none;
  resolution_envelope = some (5 ∷ []);
}

-- A backend that accepts the operation.
abbrev accepting : SyncBackend
accepting = record {
  sync_operations = λ evidence. some (answer ∷ []);
  fetch_verified_final_resolution = λ id e s. nothing;
}

settle_all-answered_example :
    let out =
      settle_all "me"
        (λ n. "20")
        accepting
        (accepted_row ∷ [])
        (collect (accepted_row ∷ []) (answer ∷ []) [])
        20
        []
        stored in
    ((s' : Summary) × (out.0 ≡ ok s'))
    × (fetch (by_id "p1") out.1.operations
        ≡ some
            (answered "me" (λ n. "20") accepting 20 accepted_row (first_valid "p1" (answer ∷ []))))
settle_all-answered_example =
    settle_all-answered "me" (λ n. "20") accepting 20 (accepted_row ∷ []) (answer ∷ []) [] stored
      accepted_row (refl, tt) (refl, tt) (refl, tt) (inl refl) refl refl

got : (o : String) → (try_acquire_sync_lock o "10" "30" empty).0 ≡ ok true
unfolding try_acquire_sync_lock
got o = refl

abbrev here : String
here = "a"

abbrev there : String
there = "b"

here_ne_there : here ≢ there
here_ne_there = ground (arith, eq_iff here there)

early : text_ltb "12" "30" ≡ true
unfolding text_ltb codes_ltb
early = refl

early_at : text_ltb "11" "30" ≡ true
unfolding text_ltb codes_ltb
early_at = refl

-- Another process tries and releases in between.
abbrev others : List Attempt
others = acquire "b" "11" "50" ∷ release "b" ∷ []

acquire_excludes_example :
    (try_acquire_sync_lock "b" "12" "60"
        (attempts others (try_acquire_sync_lock "a" "10" "30" empty).1)
      ≡ (ok false, attempts others (try_acquire_sync_lock "a" "10" "30" empty).1))
    × ((attempts others (try_acquire_sync_lock "a" "10" "30" empty).1).sync_lock
        ≡ some (record { owner = "a"; expires_at = "30" }))
acquire_excludes_example =
    acquire_excludes "a" "10" "30" "b" "12" "60" others empty (got "a")
      ((here_ne_there, early_at), (here_ne_there, tt)) here_ne_there early

release_frees_example :
    (try_acquire_sync_lock "b" "12" "60"
      (release_sync_lock "a" (try_acquire_sync_lock "a" "10" "30" empty).1)).0
    ≡ ok true
release_frees_example = release_frees "a" "10" "30" "b" "12" "60" empty (got "a")

list_sync_candidates-IsSendable_example :
    (length (list_sync_candidates "20" 10 stored) ≤ 10)
    × All (IsSendable "20" stored) (list_sync_candidates "20" 10 stored)
    × (rowcount (λ r. true) (list_sync_candidates "20" 10 stored)
        ≤ rowcount (λ r. true) stored.operations)
    × IsOrdered (λ r s. text_leb r.updated_at s.updated_at) (list_sync_candidates "20" 10 stored)
list_sync_candidates-IsSendable_example = list_sync_candidates-IsSendable "20" 10 stored (λ r. true)

accepted_row-IsSendable : IsSendable "20" stored accepted_row
accepted_row-IsSendable = record {
  accepted = refl;
  authorized = (2 ∷ [], refl);
  own = inl refl;
  due = inl refl;
}

list_sync_candidates_complete_example :
    Among accepted_row (list_sync_candidates "20" 10 stored)
    ⊎ ((length (list_sync_candidates "20" 10 stored) ≡ 10)
        × All
            (λ s. text_leb s.updated_at accepted_row.updated_at ≡ true)
            (list_sync_candidates "20" 10 stored))
list_sync_candidates_complete_example =
    list_sync_candidates_complete "20" 10 stored accepted_row (inl refl) accepted_row-IsSendable

lookup-collect_first_example :
    lookup "p1" (collect (accepted_row ∷ []) (answer ∷ []) [])
    ≡ (if is_asked "p1" (accepted_row ∷ []) then first_valid "p1" (answer ∷ []) else none)
lookup-collect_first_example = lookup-collect_first (accepted_row ∷ []) "p1" (answer ∷ [])

backoff_example :
    (15 ≤ backoff 4)
    × (backoff 4 ≤ 3600)
    × (backoff 1 ≡ 15)
    × (backoff 6 ≡ min (2 * backoff 5) 3600)
    × (backoff 4 ≤ backoff 5)
backoff_example = backoff_lem 4

abbrev key_one : String
key_one = "k1"

abbrev key_two : String
key_two = "k2"

-- An older key of the same identifier is replaced.
abbrev keys : KeyTables
keys = record {
  identities = [];
  wallet_keys = trusted_row "k1" "f0" "w1" "old" ∷ trusted_row "k2" "f2" "w2" "other" ∷ [];
  issuer_keys = [];
}

k1_ne_k2 : key_one ≢ key_two
k1_ne_k2 = ground (arith, eq_iff key_one key_two)

trust_wallet_key-resolves_example :
    (resolve_wallet_key "k1" "f1" "w1" (trust_wallet_key "k1" "f1" "w1" "new" keys).1 ≡ some "new")
    × (resolve_wallet_key "k2" "f2" "w2" (trust_wallet_key "k1" "f1" "w1" "new" keys).1
        ≡ resolve_wallet_key "k2" "f2" "w2" keys)
trust_wallet_key-resolves_example =
    trust_wallet_key-resolves "k1" "f1" "w1" "new" "k2" "f2" "w2" keys refl k1_ne_k2

abbrev issuer_key : IssuerKey
issuer_key = record { key_id = "i1"; fingerprint = "f1"; public_key_b64 = "pk" }

trust_issuer_key_first_example :
    get_issuer_key "i1" "f1" (trust_issuer_key (λ p. ok "f1") issuer_key keys).1
    ≡ (elim (get_issuer_key "i1" "f1" keys) [ none ↦ some "pk" | some p ↦ some p ])
trust_issuer_key_first_example = trust_issuer_key_first (λ p. ok "f1") issuer_key keys refl
