-- ===== src/Pos/Sync.antt =====
-- `PosSyncService` (pos_desktop/sync.py): the synchronisation of accepted operations with the
-- backend and the recovery of signed resolutions.
pub mod Backoff
pub mod Results
pub mod Applied
pub mod Listed
pub mod Answers
use backend_pagos_offline.Prelude.{
  ℕ, zero, suc, ◌+◌, ◌-◌, ◌*◌, ◌^◌, min, String, Bool, true, false, not, ◌&&◌, ◌||◌, Option, none,
  some, List, [], ◌∷◌, map, ◌==◌, string_eq, nat_eq, Bytes, ltb, leb, if◌then◌else◌,
}
use backend_pagos_offline.Result.{Error, Result, ok, err, value_error, runtime_error, is_none}
use backend_pagos_offline.Result
use backend_pagos_offline.Exec.{Exec, pure, raise, lift, gets, finally, ◌>>=◌, ◌>>◌}
use backend_pagos_offline.Pos.Rows.{OpState, PosOperation, PosDatabase, SyncStatus}
use backend_pagos_offline.Pos.Lock.{try_acquire_sync_lock, release_sync_lock}
use backend_pagos_offline.Pos.Database.{
  apply_sync_result, attach_final_resolution, schedule_resolution_recovery,
  flag_resolution_recovery, retry_attention_resolutions,
}
use backend_pagos_offline.Pos.Statements.{is_retry}
use backend_pagos_offline.Pos.Database.Candidates.{
  list_sync_candidates, list_resolution_recovery_candidates,
}
use backend_pagos_offline.Pos.Backend.{
  http_error, failure, raised, invalid, nothing, resolution, SyncResult, Evidence, Fetched,
  SyncBackend, evidence_of, evidence_of_all, status_name, Accepted, is_asked, lookup, admit,
  collect, expected_status,
}

unfoldable pub backoff : ℕ → ℕ
backoff attempt = min (15 * 2 ^ (attempt - 1)) 3600

-- `summary[key] = summary.get(key, 0) + n`
abbrev pub Summary : Type 0
Summary = List (String × ℕ)

unfoldable pub tally : String → ℕ → Summary → Summary
tally key n [] = (key, n) ∷ []
tally key n ((k, m) ∷ s) = if k == key then (k, m + n) ∷ s else (k, m) ∷ tally key n s

unfoldable pub merge : Summary → Summary → Summary
unfolding tally
merge s [] = s
merge s ((key, n) ∷ rest) = merge (tally key n s) rest

-- The service: its lock's owner, the text of an instant given in seconds, and the backend. The text
-- is that of `strftime`.
module _ (owner : String) (timestamp : ℕ → String) (backend : SyncBackend) where
  -- `_retry`
  unfoldable pub retry : PosOperation → String → ℕ → Exec PosDatabase (Unit {0})
  retry r code instant =
      apply_sync_result r.operation_id SyncStatus.retryable_error (some code) (timestamp instant)
        (some (timestamp (instant + backoff (r.sync_attempts + 1)))) none

  unfoldable pub retry_all : List PosOperation → ℕ → Exec PosDatabase (Unit {0})
  retry_all [] instant = pure tt
  retry_all (r ∷ rs) instant = do retry r "NETWORK_ERROR" instant; retry_all rs instant

  abbrev pub next_at : SyncStatus → PosOperation → ℕ → Option String
  next_at s r instant =
      if is_retry s then some (timestamp (instant + backoff (r.sync_attempts + 1))) else none

  -- What the main loop does for one candidate, and the key that it counts.
  unfoldable pub settle : PosOperation → Option Accepted → ℕ → Exec PosDatabase String
  settle r none instant = do retry r "MISSING_RESULT" instant; pure "RETRYABLE_ERROR"
  settle r (some (id, s, result)) instant = do
    apply_sync_result r.operation_id s result.code (timestamp instant) (next_at s r instant)
        result.resolution_envelope
    pure (status_name s)

  unfoldable pub settle_all :
      List PosOperation → List Accepted → ℕ → Summary → Exec PosDatabase Summary
  unfolding lookup
  settle_all [] by_id instant summary = pure summary
  settle_all (r ∷ rs) by_id instant summary = do
    key ← settle r (lookup r.operation_id by_id) instant
    settle_all rs by_id instant (tally key 1 summary)

  abbrev pub flag : PosOperation → Summary → Exec PosDatabase Summary
  flag r summary = do
    flag_resolution_recovery r.operation_id
    pure (tally "ATTENTION_REQUIRED" 1 summary)

  -- What the recovery does with the answer for one operation.
  unfoldable pub recover : PosOperation → Fetched → ℕ → Summary → Exec PosDatabase Summary
  recover r (http_error status) instant summary =
      if status == 401 || status == 403
      then raise runtime_error
      else if leb 400 status && ltb status 500 && not (status == 408 || status == 429)
      then flag r summary
      else do
        schedule_resolution_recovery r.operation_id
            (timestamp (instant + backoff (r.sync_attempts + 1)))
        pure summary
  recover r failure instant summary = do
    schedule_resolution_recovery r.operation_id
        (timestamp (instant + backoff (r.sync_attempts + 1)))
    pure summary
  recover r (raised e) instant summary = raise e
  recover r invalid instant summary = flag r summary
  recover r nothing instant summary = flag r summary
  recover r (resolution wire) instant summary = do
    attach_final_resolution r.operation_id wire
    pure (tally "EVIDENCE_RECOVERED" 1 summary)

  abbrev pub fetched : PosOperation → Fetched
  fetched r = elim (evidence_of r) [
    | err e ↦ invalid
    | ok evidence ↦
        backend.fetch_verified_final_resolution r.operation_id evidence (expected_status r.state)
  ]

  unfoldable pub recover_all : List PosOperation → ℕ → Summary → Exec PosDatabase Summary
  recover_all [] instant summary = pure summary
  recover_all (r ∷ rs) instant summary = do
    summary' ← recover r (fetched r) instant summary
    recover_all rs instant summary'

  -- `_recover_final`
  unfoldable pub recover_final : ℕ → ℕ → Exec PosDatabase Summary
  recover_final instant limit = do
    candidates ← gets (list_resolution_recovery_candidates (timestamp instant) (min limit 100))
    recover_all candidates instant []

  -- The answer of the backend: an exception is passed on behind a retry of every candidate.
  unfoldable pub conclude :
      List PosOperation → Option (List SyncResult) → ℕ → ℕ → Exec PosDatabase Summary
  conclude candidates none instant limit = do retry_all candidates instant; raise runtime_error
  conclude candidates (some raw_results) instant limit = do
    summary ← settle_all candidates (collect candidates raw_results []) instant []
    recovered ← recover_final instant limit
    pure (merge summary recovered)

  unfoldable pub sync_candidates : List PosOperation → ℕ → ℕ → Exec PosDatabase Summary
  sync_candidates [] instant limit = recover_final instant limit
  sync_candidates (r ∷ rs) instant limit = do
    evidence ← lift (evidence_of_all (r ∷ rs))
    conclude (r ∷ rs) (backend.sync_operations evidence) instant limit

  abbrev pub retry_attention : Bool → Exec PosDatabase (Unit {0})
  retry_attention true = retry_attention_resolutions
  retry_attention false = pure tt

  abbrev pub with_lease : Bool → ℕ → ℕ → Bool → Exec PosDatabase Summary
  with_lease false instant limit manual = pure (("BUSY", 1) ∷ [])
  with_lease true instant limit manual = do
    retry_attention manual
    candidates ← gets (list_sync_candidates (timestamp instant) limit)
    sync_candidates candidates instant limit

  -- The lease is for five minutes, and is released however the rest ends.
  unfoldable pub sync_due : ℕ → ℕ → Bool → Exec PosDatabase Summary
  sync_due instant limit manual =
      finally
        (do
          leased ← try_acquire_sync_lock owner (timestamp instant) (timestamp (instant + 300))
          with_lease leased instant limit manual)
        (release_sync_lock owner)
