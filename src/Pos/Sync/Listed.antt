-- ===== src/Pos/Sync/Listed.antt =====
-- The candidates of a synchronisation and the results of its answer, as the main loop meets them.
use package.text.Mathlib.TextEquality.{eq_iff}
use backend_pagos_offline.Prelude.{
  String, ◌≡◌, refl, Bool, true, false, not, ◌&&◌, none, some, List, [], ◌∷◌, All, arith, ◌==◌,
  string_eq, inl, inr, Bool-cases,
}
use backend_pagos_offline.Result.{Result, ok, err}
use backend_pagos_offline.Exec.{Exec, continue}
use backend_pagos_offline.Table.{update, rowcount}
use backend_pagos_offline.Pos.Rows.{PosOperation, PosDatabase}
use backend_pagos_offline.Pos.Statements.{sync_test, is_decided, is_blank}
use backend_pagos_offline.Pos.Database.Candidates.Arranged.{Among}
use backend_pagos_offline.Pos.Backend.{SyncResult, lookup, collect, is_asked}
use backend_pagos_offline.Pos.Sync.Results.{first_valid, lookup-collect_first}
use backend_pagos_offline.Pos.Sync.Applied.{is_signed}

-- What holds of the state whether a call raised or what follows it ran, and what holds of it where
-- that returned.
module _ {A B S : Type 0} (P : S → Type 0) where
  pub continue_keeps :
      (r : Result A) (f : A → Exec S B) (s : S)
      → P s
      → ((a : A) → P (f a s).1)
      → P (continue r f s).1
  continue_keeps (ok a) f s h k = k a
  continue_keeps (err e) f s h k = h

  pub continue_returns :
      (r : Result A) (f : A → Exec S B) (s : S) (b : B)
      → ((a : A) → (f a s).0 ≡ ok b → P (f a s).1)
      → (continue r f s).0 ≡ ok b
      → P (continue r f s).1
  continue_returns (ok a) f s b h = h a
  continue_returns (err e) f s b h = λ returned. absurd (cc)

-- No two of these rows have one identifier.
abbrev pub HasDistinct : List PosOperation → Type 0
HasDistinct [] = Unit
HasDistinct (r ∷ rs) = (is_asked r.operation_id rs ≡ false) × HasDistinct rs

pub Among-asked :
    (c : PosOperation) (id : String) (rs : List PosOperation)
    → Among c rs
    → is_asked id rs ≡ false
    → (id == c.operation_id) ≡ false
Among-asked c id [] m h = absurd m
Among-asked c id (r ∷ rs) (inl same) h =
    let miss : (r.operation_id == id) ≡ false = ground arith in
    rw same (ground (arith, eq_iff r.operation_id id, eq_iff id r.operation_id))
Among-asked c id (r ∷ rs) (inr m) h = Among-asked c id rs m (ground arith)

-- An update of another operation's row lets a statement meet as many rows as before.
pub rowcount-update_other :
    (id other : String) (change : PosOperation → PosOperation) (rs : List PosOperation)
    → ((r : PosOperation) → (change r).operation_id ≡ r.operation_id)
    → (id == other) ≡ false
    → rowcount (sync_test other) (update (sync_test id) change rs) ≡ rowcount (sync_test other) rs
rowcount-update_other id other change [] same h = refl
rowcount-update_other id other change (r ∷ rs) same h =
    ground
      (arith, same r, eq_iff r.operation_id id, rowcount-update_other id other change rs same h)

-- The statement for a candidate meets one row.
abbrev pub IsAlone : PosDatabase → PosOperation → Type 0
IsAlone db c = rowcount (sync_test c.operation_id) db.operations ≡ 1

-- A result of the answer that decides an operation has its resolution.
abbrev pub has_proof : SyncResult → Bool
has_proof x = elim x.status [
  | none ↦ true
  | some s ↦ not (is_decided s && is_blank x.resolution_envelope)
]

pub first_valid-is_signed :
    (id : String) (answer : List SyncResult)
    → All (λ x. has_proof x ≡ true) answer
    → is_signed (first_valid id answer) ≡ true
first_valid-is_signed id [] h = refl
first_valid-is_signed id (x ∷ xs) h = ground (arith, first_valid-is_signed id xs h.1)

pub lookup-is_signed :
    (asked : List PosOperation) (id : String) (answer : List SyncResult)
    → All (λ x. has_proof x ≡ true) answer
    → is_signed (lookup id (collect asked answer [])) ≡ true
lookup-is_signed asked id answer h =
    rw (lookup-collect_first asked id answer) (elim (Bool-cases (is_asked id asked)) [
      | inl named ↦ rw named (first_valid-is_signed id answer h)
      | inr unknown ↦ rw unknown refl
    ])

pub Among-is_asked :
    (c : PosOperation) (rs : List PosOperation) → Among c rs → is_asked c.operation_id rs ≡ true
Among-is_asked c [] m = absurd m
Among-is_asked c (r ∷ rs) (inl same) =
    let hit : (r.operation_id == c.operation_id) ≡ true =
      (eq_iff r.operation_id c.operation_id).1 (rw same refl) in
    rw hit refl
Among-is_asked c (r ∷ rs) (inr m) = ground (arith, Among-is_asked c rs m)
