-- ===== src/Pos/Lock.antt =====
-- The lease of the synchroniser and the terminal's profile (pos_desktop/database.py).
pub mod Exclusion
use backend_pagos_offline.Prelude.{
  ℕ, String, Bool, true, false, not, ◌&&◌, ◌||◌, Option, none, some, ◌==◌, ◌!=◌, string_eq,
  text_ltb, if◌then◌else◌,
}
use backend_pagos_offline.Result.{value_error}
use backend_pagos_offline.Exec.{Exec, pure, modify, raise_when, ◌>>=◌, ◌>>◌}
use backend_pagos_offline.Pos.Rows.{PosDatabase, SyncLock, Profile}

-- Another owner holds the lease at the instant `now`.
abbrev pub held_by_other : String → String → Option SyncLock → Bool
held_by_other owner now none = false
held_by_other owner now (some l) = l.owner != owner && text_ltb now l.expires_at

unfoldable pub try_acquire_sync_lock : String → String → String → Exec PosDatabase Bool
try_acquire_sync_lock owner now expires_at db =
    if held_by_other owner now db.sync_lock
    then pure false db
    else pure true
        (record db { sync_lock = some (record { owner = owner; expires_at = expires_at }) })

abbrev pub released : String → Option SyncLock → Option SyncLock
released owner none = none
released owner (some l) = if l.owner == owner then none else some l

unfoldable pub release_sync_lock : String → PosDatabase → PosDatabase
release_sync_lock owner db = record db { sync_lock = released owner db.sync_lock }

unfoldable pub save_profile : Profile → Exec PosDatabase (Unit {0})
save_profile p = do
  raise_when (p.merchant_id == "" || p.terminal_id == "" || p.key_id == "") value_error
  modify (λ db. record db { pos_profile = some p })
