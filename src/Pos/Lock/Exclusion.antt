-- ===== src/Pos/Lock/Exclusion.antt =====
-- At most one synchroniser holds the lease.
use text.Mathlib.TextEquality.{eq_iff}
use backend_pagos_offline.Prelude.{
  String, ◌≡◌, ◌≢◌, true, false, some, List, [], ◌∷◌, arith, All, text_ltb,
}
use backend_pagos_offline.Result.{ok}
use backend_pagos_offline.Pos.Rows.{PosDatabase}
use backend_pagos_offline.Pos.Lock.{try_acquire_sync_lock, release_sync_lock}

-- What a process does to the lease.
pub data Attempt : Type 0 where
  acquire : String → String → String → Attempt
  release : String → Attempt

unfoldable pub attempt : Attempt → PosDatabase → PosDatabase
attempt (acquire owner now expires_at) db = (try_acquire_sync_lock owner now expires_at db).1
attempt (release owner) db = release_sync_lock owner db

unfoldable pub attempts : List Attempt → PosDatabase → PosDatabase
unfolding attempt
attempts [] db = db
attempts (a ∷ as') db = attempts as' (attempt a db)

-- An attempt of another process, before an instant.
abbrev pub IsOther : String → String → Attempt → Type 0
IsOther owner limit (acquire o now e) = (owner ≢ o) × (text_ltb now limit ≡ true)
IsOther owner limit (release o) = owner ≢ o

module _ (owner expires_at : String) where
  abbrev Holds : PosDatabase → Type 0
  Holds db = db.sync_lock ≡ some (record { owner = owner; expires_at = expires_at })

  refused :
      (o now e : String) (db : PosDatabase)
      → owner ≢ o
      → text_ltb now expires_at ≡ true
      → Holds db
      → try_acquire_sync_lock o now e db ≡ (ok false, db)
  unfolding try_acquire_sync_lock
  refused o now e db ne early h = ground (arith, eq_iff owner o)

  attempt-Holds :
      (a : Attempt) (db : PosDatabase)
      → IsOther owner expires_at a
      → Holds db
      → Holds (attempt a db)
  unfolding attempt release_sync_lock
  attempt-Holds (acquire o now e) db other h = ground (arith, refused o now e db other.0 other.1 h)
  attempt-Holds (release o) db other h = ground (arith, eq_iff owner o)

  attempts-Holds :
      (as' : List Attempt) (db : PosDatabase)
      → All (IsOther owner expires_at) as'
      → Holds db
      → Holds (attempts as' db)
  unfolding attempts
  attempts-Holds [] db other h = h
  attempts-Holds (a ∷ as') db other h =
      attempts-Holds as' (attempt a db) other.1 (attempt-Holds a db other.0 h)

-- After a successful acquisition, and whatever the other processes try before the lease expires, an
-- acquisition by another process before that instant is refused and changes nothing, and the lease
-- is kept.
pub acquire_excludes :
    (owner now expires_at o now' e : String) (others : List Attempt) (db : PosDatabase)
    → (try_acquire_sync_lock owner now expires_at db).0 ≡ ok true
    → All (IsOther owner expires_at) others
    → owner ≢ o
    → text_ltb now' expires_at ≡ true
    → let later = attempts others (try_acquire_sync_lock owner now expires_at db).1 in
      (try_acquire_sync_lock o now' e later ≡ (ok false, later))
      × (later.sync_lock ≡ some (record { owner = owner; expires_at = expires_at }))
acquire_excludes owner now expires_at o now' e others db got other ne early =
    let taken : (try_acquire_sync_lock owner now expires_at db).1.sync_lock
        ≡ some (record { owner = owner; expires_at = expires_at }) =
      unfold try_acquire_sync_lock in ground arith in
    let kept =
      attempts-Holds owner expires_at others (try_acquire_sync_lock owner now expires_at db).1 other
        taken in
    (refused owner expires_at o now' e _ ne early kept, kept)

-- Once the holder has released the lease, any process gets it at once.
pub release_frees :
    (owner now expires_at o now' e : String) (db : PosDatabase)
    → (try_acquire_sync_lock owner now expires_at db).0 ≡ ok true
    → (try_acquire_sync_lock o now' e
        (release_sync_lock owner (try_acquire_sync_lock owner now expires_at db).1)).0
      ≡ ok true
unfolding try_acquire_sync_lock release_sync_lock
release_frees owner now expires_at o now' e db got = ground (arith, eq_iff owner owner)
