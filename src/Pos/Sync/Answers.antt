-- ===== src/Pos/Sync/Answers.antt =====
-- What the main loop of `sync_due` makes of the candidates, given the backend's answer.
use backend_pagos_offline.Prelude.{
  ℕ, String, ◌≡◌, refl, ◌∙◌, true, false, Option, some, List, [], ◌∷◌, All, arith, ◌==◌, string_eq,
  inl, inr, ap,
}
use backend_pagos_offline.Result.{ok}
use backend_pagos_offline.Table.{fetch}
use backend_pagos_offline.Pos.Rows.{OpState, PosOperation, PosDatabase}
use backend_pagos_offline.Pos.Statements
use backend_pagos_offline.Pos.Statements.{sync_test, is_decided, is_blank}
use backend_pagos_offline.Pos.Database.Candidates.Arranged.{Among}
use backend_pagos_offline.Pos.Backend.{SyncBackend, SyncResult, Accepted, lookup, collect, is_asked}
use backend_pagos_offline.Pos.Sync.{Summary, settle_all, tally}
use backend_pagos_offline.Pos.Sync.Results.{first_valid, lookup-collect_first}
use backend_pagos_offline.Pos.Sync.Applied.{
  fetch-update_other, fetch-update_own, answered, decision, decision_keeps, decision-answered,
  written, settle-cases, is_signed, settle_returns,
}
use backend_pagos_offline.Pos.Sync.Listed.{
  continue_keeps, continue_returns, HasDistinct, Among-asked, rowcount-update_other, IsAlone,
  has_proof, lookup-is_signed, Among-is_asked,
}

module _ (owner : String) (timestamp : ℕ → String) (backend : SyncBackend) (instant : ℕ)
    (by_id : List Accepted) where
  abbrev pub row : String → PosDatabase → Option PosOperation
  row id db = fetch (Statements.by_id id) db.operations

  -- The row of an operation that is no candidate stays, however the loop ends.
  settle_all_keeps :
      (id : String) (rs : List PosOperation) (s : Summary) (db : PosDatabase)
      → is_asked id rs ≡ false
      → row id (settle_all owner timestamp backend rs by_id instant s db).1 ≡ row id db
  unfolding settle_all
  settle_all_keeps id [] s db h = refl
  settle_all_keeps id (r ∷ rs) s db h =
      let a = lookup r.operation_id by_id in
      let moved : row id (written owner timestamp backend instant r a db) ≡ row id db =
        fetch-update_other r.operation_id id (decision owner timestamp backend instant r a)
          db.operations (decision_keeps owner timestamp backend instant r a) (ground arith) in
      elim (settle-cases owner timestamp backend instant r a db) [
        | inl (e, raised) ↦ rw raised refl
        | inr (y, is) ↦ rw is (
            continue_keeps (λ d. row id d ≡ row id db) y _ _ moved
              (λ key.
                settle_all_keeps id rs (tally key 1 s)
                  (written owner timestamp backend instant r a db) (ground arith)
                ∙ moved))
      ]

  settle_all_answers :
      (c : PosOperation) (rs : List PosOperation) (s s' : Summary) (db : PosDatabase)
      → HasDistinct rs
      → Among c rs
      → row c.operation_id db ≡ some c
      → c.state ≡ OpState.locally_accepted
      → (settle_all owner timestamp backend rs by_id instant s db).0 ≡ ok s'
      → row c.operation_id (settle_all owner timestamp backend rs by_id instant s db).1
        ≡ some (answered owner timestamp backend instant c (lookup c.operation_id by_id))
  unfolding settle_all
  settle_all_answers c [] s s' db d m found waiting = absurd m
  settle_all_answers c (r ∷ rs) s s' db d (inl same) found waiting =
      let a = lookup c.operation_id by_id in
      let mine : row c.operation_id (written owner timestamp backend instant c a db)
          ≡ some (answered owner timestamp backend instant c a) =
        fetch-update_own c.operation_id (decision owner timestamp backend instant c a) db.operations
          c (decision_keeps owner timestamp backend instant c a) found (rw waiting refl)
        ∙ ap some (decision-answered owner timestamp backend instant c a waiting) in
      elim (settle-cases owner timestamp backend instant c a db) [
        | inl (e, raised) ↦ rw (← same) (rw raised (λ returned. absurd (cc)))
        | inr (y, is) ↦ rw (← same) (
            rw is (
              continue_returns
                (λ d. row c.operation_id d ≡ some (answered owner timestamp backend instant c a)) y
                _ _ s'
                (λ key returned.
                  settle_all_keeps c.operation_id rs (tally key 1 s)
                    (written owner timestamp backend instant c a db) (rw same d.0)
                  ∙ mine)))
      ]
  settle_all_answers c (r ∷ rs) s s' db d (inr m) found waiting =
      let a = lookup r.operation_id by_id in
      let moved : row c.operation_id (written owner timestamp backend instant r a db) ≡ some c =
        fetch-update_other r.operation_id c.operation_id
          (decision owner timestamp backend instant r a) db.operations
          (decision_keeps owner timestamp backend instant r a)
          (Among-asked c r.operation_id rs m d.0)
        ∙ found in
      elim (settle-cases owner timestamp backend instant r a db) [
        | inl (e, raised) ↦ rw raised (λ returned. absurd (cc))
        | inr (y, is) ↦ rw is (
            continue_returns
              (λ d.
                row c.operation_id d
                ≡ some (answered owner timestamp backend instant c (lookup c.operation_id by_id)))
              y _ _ s'
              (λ key.
                settle_all_answers c rs (tally key 1 s) s'
                  (written owner timestamp backend instant r a db) d.1 m moved waiting))
      ]

  written-IsAlone :
      (r : PosOperation) (a : Option Accepted) (rs : List PosOperation) (db : PosDatabase)
      → is_asked r.operation_id rs ≡ false
      → All (IsAlone db) rs
      → All (IsAlone (written owner timestamp backend instant r a db)) rs
  written-IsAlone r a [] db h alone = tt
  written-IsAlone r a (x ∷ xs) db h alone =
      let miss : (r.operation_id == x.operation_id) ≡ false =
        Among-asked x r.operation_id (x ∷ xs) (inl refl) h in
      (
        rowcount-update_other r.operation_id x.operation_id
              (decision owner timestamp backend instant r a) db.operations
              (decision_keeps owner timestamp backend instant r a) miss
            ∙ alone.0,
        written-IsAlone r a xs db (ground arith) alone.1,
      )

  settle_all_returns :
      (rs : List PosOperation) (s : Summary) (db : PosDatabase)
      → ((id : String) → is_signed (lookup id by_id) ≡ true)
      → HasDistinct rs
      → All (IsAlone db) rs
      → (s' : Summary) × ((settle_all owner timestamp backend rs by_id instant s db).0 ≡ ok s')
  unfolding settle_all
  settle_all_returns [] s db signed d alone = (s, refl)
  settle_all_returns (r ∷ rs) s db signed d alone =
      let a = lookup r.operation_id by_id in
      let (key, is) =
        settle_returns owner timestamp backend instant r a db alone.0 (signed r.operation_id) in
      rw is (
        settle_all_returns rs (tally key 1 s) (written owner timestamp backend instant r a db)
          signed d.1 (written-IsAlone r a rs db d.0 alone.1))

-- Where no two candidates have one identifier, each meets one stored row that is locally accepted,
-- and every result of the answer that accepts or rejects has a resolution, the main loop ends
-- without an exception, and the row of each candidate, stored as it was listed, is as the first
-- valid result of the answer for it says: accepted or rejected with the resolution, in conflict, or
-- to be tried again after its delay, as it is too where the answer has no such result.
pub settle_all-answered :
    (owner : String) (timestamp : ℕ → String) (backend : SyncBackend) (instant : ℕ)
    (candidates : List PosOperation) (answer : List SyncResult) (s : Summary) (db : PosDatabase)
    (c : PosOperation)
    → HasDistinct candidates
    → All (IsAlone db) candidates
    → All (λ x. has_proof x ≡ true) answer
    → Among c candidates
    → fetch (Statements.by_id c.operation_id) db.operations ≡ some c
    → c.state ≡ OpState.locally_accepted
    → let out =
        settle_all owner timestamp backend candidates (collect candidates answer []) instant s db in
      ((s' : Summary) × (out.0 ≡ ok s'))
      × (fetch (Statements.by_id c.operation_id) out.1.operations
          ≡ some (answered owner timestamp backend instant c (first_valid c.operation_id answer)))
settle_all-answered owner timestamp backend instant candidates answer s db c d alone proofs m found
      waiting =
    let by_id = collect candidates answer [] in
    let (s', returned) =
      settle_all_returns owner timestamp backend instant by_id candidates s db
        (λ id. lookup-is_signed candidates id answer proofs) d alone in
    let counts : lookup c.operation_id by_id ≡ first_valid c.operation_id answer =
      lookup-collect_first candidates c.operation_id answer
      ∙ rw (Among-is_asked c candidates m) refl in
    (
      (s', returned),
      settle_all_answers owner timestamp backend instant by_id c candidates s s' db d m found
            waiting returned
          ∙ ap (λ a. some (answered owner timestamp backend instant c a)) counts,
    )
