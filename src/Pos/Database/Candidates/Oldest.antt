-- ===== src/Pos/Database/Candidates/Oldest.antt =====
-- What a synchronisation is given to send: rows that are due, the oldest first, and none left out but
-- behind a full batch.
use text.Mathlib.TextEquality.{eq_iff}
use backend_pagos_offline.Prelude.{
  ℕ, ◌≤◌, ◌≡◌, refl, String, Bool, true, not, some, none, List, All, arith, length, ◌⊎◌, inl, inr,
  string_eq, text_leb, text_leb_total, text_leb_trans, Bytes, Option, length-take,
}
use backend_pagos_offline.Result.{is_none}
use backend_pagos_offline.Table.{select, rowcount}
use backend_pagos_offline.Table.Laws.{All-map}
use backend_pagos_offline.Pos.Rows.{
  OpState, PosOperation, PosDatabase, Profile, is_locally_accepted,
}
use backend_pagos_offline.Pos.Database.Candidates.{
  order_by, earlier, of_terminal, is_due, is_candidate, list_sync_candidates,
}
use backend_pagos_offline.Pos.Database.Candidates.Arranged.{
  Among, IsOrdered, select-All, Among-select, rowcount-select, rowcount-take, All-take,
  take-IsOrdered, Among-take, All-order_by, Among-order_by, rowcount-order_by, order_by-IsOrdered,
}

-- A row that may be sent at an instant.
pub record IsSendable (now : String) (db : PosDatabase) (r : PosOperation) : Type 0 where
  pub accepted : r.state ≡ OpState.locally_accepted
  pub authorized : (grant : Bytes) × (r.authorization_envelope ≡ some grant)
  pub own :
      (db.pos_profile ≡ none)
      ⊎ ((p : Profile) × (db.pos_profile ≡ some p) × (r.terminal_id ≡ p.terminal_id))
  pub due :
      (r.next_sync_at ≡ none) ⊎ ((t : String) × (r.next_sync_at ≡ some t) × (text_leb t now ≡ true))

accepted-eq : (s : OpState) → is_locally_accepted s ≡ true → s ≡ OpState.locally_accepted
accepted-eq OpState.locally_accepted h = refl
accepted-eq _ h = absurd (cc)

given : (o : Option Bytes) → not (is_none o) ≡ true → (a : Bytes) × (o ≡ some a)
given none h = absurd (cc)
given (some a) h = (a, refl)

of_terminal-own :
    (o : Option Profile) (r : PosOperation)
    → of_terminal o r ≡ true
    → (o ≡ none) ⊎ ((p : Profile) × (o ≡ some p) × (r.terminal_id ≡ p.terminal_id))
of_terminal-own none r h = inl refl
of_terminal-own (some p) r h = inr (p, refl, (eq_iff r.terminal_id p.terminal_id).0 h)

is_due-due :
    (now : String) (o : Option String)
    → is_due now o ≡ true
    → (o ≡ none) ⊎ ((t : String) × (o ≡ some t) × (text_leb t now ≡ true))
is_due-due now none h = inl refl
is_due-due now (some t) h = inr (t, refl, h)

module _ (now : String) (db : PosDatabase) (r : PosOperation) where
  is_candidate-IsSendable : is_candidate now db r ≡ true → IsSendable now db r
  is_candidate-IsSendable h = record {
    accepted = accepted-eq r.state (ground arith);
    authorized = given r.authorization_envelope (ground arith);
    own = of_terminal-own db.pos_profile r (ground arith);
    due = is_due-due now r.next_sync_at (ground arith);
  }

  own-of_terminal : IsSendable now db r → of_terminal db.pos_profile r ≡ true
  own-of_terminal s = elim s.own [
    | inl nobody ↦ rw nobody refl
    | inr (p, is, same) ↦ rw is ((eq_iff r.terminal_id p.terminal_id).1 same)
  ]

  due-is_due : IsSendable now db r → is_due now r.next_sync_at ≡ true
  due-is_due s = elim s.due [ inl always ↦ rw always refl | inr (t, is, past) ↦ rw is past ]

  IsSendable-is_candidate : IsSendable now db r → is_candidate now db r ≡ true
  IsSendable-is_candidate s =
      let waiting : is_locally_accepted r.state ≡ true = rw s.accepted refl in
      let signed : not (is_none r.authorization_envelope) ≡ true = rw s.authorized.1 refl in
      rw (waiting, signed, own-of_terminal s, due-is_due s) refl

earlier-IsOrdered : (rows : List PosOperation) → IsOrdered earlier (order_by earlier rows)
earlier-IsOrdered =
    order_by-IsOrdered earlier (λ r s h. text_leb_total r.updated_at s.updated_at h)
      (λ r s t h k. text_leb_trans r.updated_at s.updated_at t.updated_at h k)

-- What is listed for a synchronisation is at most `limit` rows, each locally accepted, with an
-- authorization, of this terminal where there is a profile, and due: without a time of its next
-- attempt that is after now. The rows of any kind are no more than the stored ones of that kind, and
-- each row comes before the rows that were changed after it.
pub list_sync_candidates-IsSendable :
    (now : String) (limit : ℕ) (db : PosDatabase) (p : PosOperation → Bool)
    → let rows = list_sync_candidates now limit db in
      (length rows ≤ limit)
      × All (IsSendable now db) rows
      × (rowcount p rows ≤ rowcount p db.operations)
      × IsOrdered (λ r s. text_leb r.updated_at s.updated_at) rows
unfolding list_sync_candidates
list_sync_candidates-IsSendable now limit db p =
    let found = select (is_candidate now db) db.operations in
    let arranged = order_by earlier found in
    (
      omega (arith, length-take limit arranged),
      All-take (IsSendable now db) limit arranged (
          All-order_by earlier (IsSendable now db) found (
            All-map (λ r. is_candidate now db r ≡ true) (IsSendable now db) found
              (is_candidate-IsSendable now db) (select-All (is_candidate now db) db.operations))),
      omega (
        arith,
        rowcount-take p limit arranged,
        rowcount-order_by earlier p found,
        rowcount-select p (is_candidate now db) db.operations,
      ),
      take-IsOrdered earlier limit arranged (earlier-IsOrdered found),
    )

-- A stored row that may be sent is listed, or `limit` rows are, none of them changed after it.
pub list_sync_candidates_complete :
    (now : String) (limit : ℕ) (db : PosDatabase) (r : PosOperation)
    → Among r db.operations
    → IsSendable now db r
    → let rows = list_sync_candidates now limit db in
      Among r rows
      ⊎ ((length rows ≡ limit) × All (λ s. text_leb s.updated_at r.updated_at ≡ true) rows)
unfolding list_sync_candidates
list_sync_candidates_complete now limit db r stored sendable =
    let found = select (is_candidate now db) db.operations in
    Among-take earlier limit r (order_by earlier found) (earlier-IsOrdered found) (
      Among-order_by earlier r found (
        Among-select (is_candidate now db) r db.operations
          (IsSendable-is_candidate now db r sendable) stored))
