-- ===== src/Pos/Sync/Results.antt =====
-- Which of the backend's results count.
use text.Mathlib.TextEquality.{eq_iff}
use backend_pagos_offline.Prelude.{
  String, ◌≡◌, refl, true, false, Option, none, some, List, [], ◌∷◌, arith, ◌==◌, string_eq,
  Bool-cases, Option-cases, inl, inr, if◌then◌else◌,
}
use backend_pagos_offline.Pos.Rows.{PosOperation}
use backend_pagos_offline.Pos.Backend.{SyncResult, Accepted, lookup, collect, admit, is_asked}

-- The first result of the answer that names the operation with a known status.
abbrev pub first_valid : String → List SyncResult → Option Accepted
first_valid id [] = none
first_valid id (r ∷ rs) = elim r.operation_id [
  | none ↦ first_valid id rs
  | some i ↦ elim r.status [
    | none ↦ first_valid id rs
    | some s ↦ if i == id then some (i, s, r) else first_valid id rs
  ]
]

abbrev or_else : Option Accepted → Option Accepted → Option Accepted
or_else none b = b
or_else (some a) b = some a

lookup-admit :
    (asked : List PosOperation) (id : String) (r : SyncResult) (by_id : List Accepted)
    → is_asked id asked ≡ true
    → lookup id (admit asked r by_id) ≡ or_else (lookup id by_id) (first_valid id (r ∷ []))
unfolding lookup
lookup-admit asked id r by_id h = elim (Option-cases r.operation_id) [
  | inl e ↦ ground arith
  | inr (i, e) ↦ ground (arith, eq_iff i id)
]

lookup-collect :
    (asked : List PosOperation) (id : String) (rs : List SyncResult) (by_id : List Accepted)
    → is_asked id asked ≡ true
    → lookup id (collect asked rs by_id) ≡ or_else (lookup id by_id) (first_valid id rs)
unfolding collect
lookup-collect asked id [] by_id h = ground arith
lookup-collect asked id (r ∷ rs) by_id h =
    rw (lookup-collect asked id rs (admit asked r by_id) h)
      (rw (lookup-admit asked id r by_id h) (ground arith))

admit-unasked :
    (asked : List PosOperation) (id : String) (r : SyncResult) (by_id : List Accepted)
    → is_asked id asked ≡ false
    → lookup id by_id ≡ none
    → lookup id (admit asked r by_id) ≡ none
unfolding lookup
admit-unasked asked id r by_id h e = elim (Option-cases r.operation_id) [
  | inl unnamed ↦ ground arith
  | inr (i, named) ↦ ground (arith, eq_iff i id)
]

collect-unasked :
    (asked : List PosOperation) (id : String) (rs : List SyncResult) (by_id : List Accepted)
    → is_asked id asked ≡ false
    → lookup id by_id ≡ none
    → lookup id (collect asked rs by_id) ≡ none
unfolding collect
collect-unasked asked id [] by_id h e = e
collect-unasked asked id (r ∷ rs) by_id h e =
    collect-unasked asked id rs (admit asked r by_id) h (admit-unasked asked id r by_id h e)

-- The result that counts for an operation that was asked about is the first one of the answer that
-- names it with a known status: later ones and unknown texts are passed over. None counts for an
-- operation that was not asked about.
pub lookup-collect_first :
    (asked : List PosOperation) (id : String) (answer : List SyncResult)
    → lookup id (collect asked answer [])
      ≡ (if is_asked id asked then first_valid id answer else none)
unfolding lookup
lookup-collect_first asked id answer = elim (Bool-cases (is_asked id asked)) [
  | inl h ↦ rw h (lookup-collect asked id answer [] h)
  | inr h ↦ rw h (collect-unasked asked id answer [] h refl)
]
