-- ===== src/Table.antt =====
-- A table of a relational database as the list of its rows in the order of insertion, and the
-- statements that the program runs on one.
pub mod Laws
pub mod Sums
use backend_pagos_offline.Prelude.{
  ℕ, zero, suc, ◌+◌, Bool, true, false, Option, none, some, List, [], ◌∷◌, ◌++◌, if◌then◌else◌,
}

module _ {A : Type 0} where
  -- `SELECT … WHERE test`, the first row of it, and its number of rows
  abbrev pub select : (A → Bool) → List A → List A
  select test [] = []
  select test (r ∷ rs) = if test r then r ∷ select test rs else select test rs

  abbrev pub fetch : (A → Bool) → List A → Option A
  fetch test [] = none
  fetch test (r ∷ rs) = if test r then some r else fetch test rs

  abbrev pub rowcount : (A → Bool) → List A → ℕ
  rowcount test [] = 0
  rowcount test (r ∷ rs) = if test r then suc (rowcount test rs) else rowcount test rs

  abbrev pub has_row : (A → Bool) → List A → Bool
  has_row test [] = false
  has_row test (r ∷ rs) = if test r then true else has_row test rs

  -- `UPDATE … SET change WHERE test`
  abbrev pub update : (A → Bool) → (A → A) → List A → List A
  update test change [] = []
  update test change (r ∷ rs) = (if test r then change r else r) ∷ update test change rs

  -- `DELETE … WHERE test`
  abbrev pub delete : (A → Bool) → List A → List A
  delete test [] = []
  delete test (r ∷ rs) = if test r then delete test rs else r ∷ delete test rs

  -- `INSERT`: a new row comes last
  abbrev pub insert : A → List A → List A
  insert r rs = rs ++ r ∷ []
