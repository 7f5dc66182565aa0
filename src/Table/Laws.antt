-- ===== src/Table/Laws.antt =====
-- Rows under updates and insertions.
use backend_pagos_offline.Prelude.{
  false, none, refl, ◌≡◌, Bool, true, some, List, [], ◌∷◌, arith, All, Bool-cases, inl, inr, subst,
}
use backend_pagos_offline.Table.{fetch, has_row, update, insert}

module _ {A : Type 0} where
  -- Rows that all satisfy a predicate still do after an update that keeps it.
  pub All-update {κ} :
      (P : A → Type κ) (test : A → Bool) (change : A → A) (rs : List A)
      → ((r : A) → test r ≡ true → P r → P (change r))
      → All P rs
      → All P (update test change rs)
  All-update P test change [] keep h = tt
  All-update P test change (r ∷ rs) keep h =
      (ground (arith, keep r), All-update P test change rs keep h.1)

  pub All-map {κ μ} :
      (P : A → Type κ) (Q : A → Type μ) (rs : List A) → ((r : A) → P r → Q r) → All P rs → All Q rs
  All-map P Q [] f h = tt
  All-map P Q (r ∷ rs) f h = (f r h.0, All-map P Q rs f h.1)

  pub All-insert {κ} : (P : A → Type κ) (r : A) (rs : List A) → P r → All P rs → All P (insert r rs)
  All-insert P r [] p h = (p, tt)
  All-insert P r (r' ∷ rs) p h = (h.0, All-insert P r rs p h.1)

  -- A row that is fetched satisfies the test, and whatever all rows satisfy.
  pub fetch-test : (test : A → Bool) (rs : List A) (r : A) → fetch test rs ≡ some r → test r ≡ true
  fetch-test test [] r h = cc
  fetch-test test (r' ∷ rs) r h = ground (arith, fetch-test test rs r)

  pub fetch-All {κ} :
      (P : A → Type κ) (test : A → Bool) (rs : List A) (r : A)
      → All P rs
      → fetch test rs ≡ some r
      → P r
  fetch-All P test [] r h e = absurd (cc)
  fetch-All P test (r' ∷ rs) r h e = elim (Bool-cases (test r')) [
    | inl hit ↦ let same : r' ≡ r = ground arith in subst P same h.0
    | inr miss ↦ fetch-All P test rs r h.1 (ground arith)
  ]

  pub fetch-insert :
      (test : A → Bool) (r : A) (rs : List A)
      → fetch test rs ≡ none
      → test r ≡ true
      → fetch test (insert r rs) ≡ some r
  fetch-insert test r [] h k = rw k
  fetch-insert test r (s ∷ rs) h k = ground (arith, fetch-insert test r rs)

  pub has_row-fetch :
      (test : A → Bool) (rs : List A) → fetch test rs ≡ none → has_row test rs ≡ false
  has_row-fetch test [] h = refl
  has_row-fetch test (r ∷ rs) h = ground (arith, has_row-fetch test rs)

  pub fetch-has_row :
      (test : A → Bool) (rs : List A) (r : A) → fetch test rs ≡ some r → has_row test rs ≡ true
  fetch-has_row test [] r h = cc
  fetch-has_row test (s ∷ rs) r h = ground (arith, fetch-has_row test rs r)
