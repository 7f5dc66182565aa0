-- ===== src/Pos/Database/Candidates.antt =====
-- The queries of `PosDatabase` that list rows.
pub mod Arranged
pub mod Oldest
use mathlib.Core.List.{Perm}
use mathlib.Core.List.Perm
use backend_pagos_offline.Prelude.{
  ℕ, String, ◌≡◌, refl, Bool, true, false, not, ◌&&◌, Option, none, some, List, [], ◌∷◌, arith,
  ◌==◌, string_eq, take, min, text_leb, text_leb_total, Bool-cases, inl, inr, if◌then◌else◌,
}
use backend_pagos_offline.Result.{is_none}
use backend_pagos_offline.Table.{select}
use backend_pagos_offline.Pos.Rows.{
  PosOperation, PosDatabase, Profile, is_locally_accepted, is_pending,
}
use backend_pagos_offline.Pos.Statements.{lacks_resolution}

-- `ORDER BY`, as a stable insertion sort.
module _ {A : Type 0} (before : A → A → Bool) where
  abbrev pub put_in_order : A → List A → List A
  put_in_order r [] = r ∷ []
  put_in_order r (x ∷ xs) = if before r x then r ∷ x ∷ xs else x ∷ put_in_order r xs

  abbrev pub order_by : List A → List A
  order_by [] = []
  order_by (r ∷ rs) = put_in_order r (order_by rs)

abbrev pub earlier : PosOperation → PosOperation → Bool
earlier r s = text_leb r.updated_at s.updated_at

abbrev pub later : PosOperation → PosOperation → Bool
later r s = text_leb s.updated_at r.updated_at

unfoldable pub list_operations : ℕ → PosDatabase → List PosOperation
list_operations limit db = take limit (order_by later db.operations)

-- `NOT EXISTS (SELECT 1 FROM pos_profile) OR terminal_id = (SELECT terminal_id FROM pos_profile …)`
abbrev pub of_terminal : Option Profile → PosOperation → Bool
of_terminal none r = true
of_terminal (some p) r = r.terminal_id == p.terminal_id

-- `next_sync_at IS NULL OR next_sync_at <= ?`
abbrev pub is_due : String → Option String → Bool
is_due now none = true
is_due now (some t) = text_leb t now

abbrev pub is_candidate : String → PosDatabase → PosOperation → Bool
is_candidate now db r =
    is_locally_accepted r.state
    && not (is_none r.authorization_envelope)
    && of_terminal db.pos_profile r
    && is_due now r.next_sync_at

unfoldable pub list_sync_candidates : String → ℕ → PosDatabase → List PosOperation
list_sync_candidates now limit db =
    take limit (order_by earlier (select (is_candidate now db) db.operations))

abbrev pub is_recoverable : String → PosDatabase → PosOperation → Bool
is_recoverable now db r =
    lacks_resolution r
    && not (is_none r.authorization_envelope)
    && is_pending r.resolution_recovery_status
    && of_terminal db.pos_profile r
    && is_due now r.next_sync_at

unfoldable pub list_resolution_recovery_candidates : String → ℕ → PosDatabase → List PosOperation
list_resolution_recovery_candidates now limit db =
    take (min limit 100) (order_by earlier (select (is_recoverable now db) db.operations))
