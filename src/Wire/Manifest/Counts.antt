-- ===== src/Wire/Manifest/Counts.antt =====
-- What an accepted closure says: its entries are numbered from 1, each operation stands once, and
-- the totals keep within the grant.
use backend_pagos_offline.Prelude.{
  ℕ, suc, ◌≤◌, ◌<◌, ◌^◌, ◌≡◌, String, false, List, [], ◌∷◌, Bytes, All, length, arith, subst,
  nat_beq_iff,
}
use backend_pagos_offline.Result.{ok, passes}
use backend_pagos_offline.Wire.Json.{Json, Items, Fields, str, arr, no_items, item}
use backend_pagos_offline.Wire.Library.{Library}
use backend_pagos_offline.Wire.Parse.{contains, parse_json}
use backend_pagos_offline.Wire.Checks.{positive}
use backend_pagos_offline.Wire.Kinds.{get}
use backend_pagos_offline.Wire.Payload.{number}
use backend_pagos_offline.Wire.Payload.Accepted.{number_of-positive}
use backend_pagos_offline.Wire.Envelope.{SignedEnvelope, object_of}
use backend_pagos_offline.Wire.Manifest.{
  text_of, amounts, sum, any_above, check_entry, check_entries, parse_entries, parse_close_manifest,
  check_totals, validate_close_manifest,
}

-- one entry, at its place after the operations seen
pub record IsEntry (index : ℕ) (seen : List String) (operation_id : String) (entry : Fields)
    : Type 0 where
  pub numbered : number "issuance_index" entry ≡ ok index
  pub named : get "operation_id" entry ≡ ok (str operation_id)
  pub fresh : contains operation_id seen ≡ false
  pub amount : ℕ
  pub worth : number "amount_cents" entry ≡ ok amount
  pub positive_amount : 1 ≤ amount
  pub small_amount : amount < 2 ^ 63

-- entries that follow each other from an index on, with operations that were not seen before
pub data Numbered : ℕ → List String → List Fields → Type 0 where
  done : {index : ℕ} {seen : List String} → Numbered index seen []
  next :
      {index : ℕ} {seen : List String} {entry : Fields} {rest : List Fields} (operation_id : String)
      → IsEntry index seen operation_id entry
      → Numbered (suc index) (operation_id ∷ seen) rest
      → Numbered index seen (entry ∷ rest)

module _ (lib : Library) where
  check_entry_amount :
      (index : ℕ) (seen : List String) (operation_id : String) (entry : Fields)
      → check_entry lib index seen entry ≡ ok operation_id
      → (v : Json) × (get "amount_cents" entry ≡ ok v) × (positive v ≡ ok tt)
  unfolding check_entry
  check_entry_amount index seen operation_id entry h =
      let (v, found) = passes (get "amount_cents" entry) (λ e f. ground arith) in
      (v, found, ground arith)

  check_entry_place :
      (index : ℕ) (seen : List String) (operation_id : String) (entry : Fields)
      → check_entry lib index seen entry ≡ ok operation_id
      → (number "issuance_index" entry ≡ ok index)
        × (contains operation_id seen ≡ false)
        × (get "operation_id" entry ≡ ok (str operation_id))
  unfolding check_entry text_of
  check_entry_place index seen operation_id entry h =
      let (n, is) = passes (number "issuance_index" entry) (λ e f. ground arith) in
      let (v, found) = passes (get "operation_id" entry) (λ e f. ground arith) in
      (ground (arith, nat_beq_iff n index), ground arith, ground arith)

  check_entry-IsEntry :
      (index : ℕ) (seen : List String) (operation_id : String) (entry : Fields)
      → check_entry lib index seen entry ≡ ok operation_id
      → IsEntry index seen operation_id entry
  unfolding number
  check_entry-IsEntry index seen operation_id entry h =
      let (numbered, fresh, named) = check_entry_place index seen operation_id entry h in
      let (v, found, checked) = check_entry_amount index seen operation_id entry h in
      let (m, is, low, high) = number_of-positive v checked in
      record {
        numbered = numbered;
        named = named;
        fresh = fresh;
        amount = m;
        worth = rw found is;
        positive_amount = low;
        small_amount = high;
      }

  check_entries-Numbered :
      (index : ℕ) (seen : List String) (entries : Items) (manifest : List Fields)
      → check_entries lib index seen entries ≡ ok manifest
      → Numbered index seen manifest
  unfolding check_entries
  check_entries-Numbered index seen no_items [] h = done
  check_entries-Numbered index seen no_items (m ∷ ms) h = cc
  check_entries-Numbered index seen (item value rest) manifest h =
      let (entry, is) = passes (object_of value) (λ e f. ground arith) in
      let (operation, checked) = passes (check_entry lib index seen entry) (λ e f. ground arith) in
      let (others, more) =
        passes (check_entries lib (suc index) (operation ∷ seen) rest) (λ e f. ground arith) in
      subst (Numbered index seen) {x = entry ∷ others} (ground arith) (
        next operation (check_entry-IsEntry index seen operation entry checked)
          (check_entries-Numbered (suc index) (operation ∷ seen) rest others more))

  -- The entries of an accepted manifest are numbered from 1, each names an operation that no entry
  -- before it names, and each amount is a positive 64-bit integer.
  pub parse_close_manifest-Numbered :
      (contents : Bytes) (manifest : List Fields)
      → parse_close_manifest lib contents ≡ ok manifest
      → Numbered 1 [] manifest
  unfolding parse_close_manifest parse_entries
  parse_close_manifest-Numbered contents manifest h =
      let (value, parsed) = passes (parse_json lib contents) (λ e f. ground arith) in
      of_value value (ground arith)
    where
      of_value : (value : Json) → parse_entries lib value ≡ ok manifest → Numbered 1 [] manifest
      of_value (arr entries) g = check_entries-Numbered 1 [] entries manifest g
      of_value _ g = cc

-- the totals of a closure: its manifest is complete and keeps within the grant
pub record WithinGrant (close grant : Fields) (manifest : List Fields) : Type 0 where
  pub cents : List ℕ
  pub max_payments : ℕ
  pub max_payment : ℕ
  pub authorized : ℕ
  pub cents_are : amounts manifest ≡ ok cents
  pub max_payments_is : number "max_payments" grant ≡ ok max_payments
  pub max_payment_is : number "max_payment_cents" grant ≡ ok max_payment
  pub authorized_is : number "authorized_total_cents" grant ≡ ok authorized
  pub complete : number "final_issuance_index" close ≡ ok (length manifest)
  pub emitted : number "emitted_total_cents" close ≡ ok (sum cents)
  pub count_allowed : length manifest ≤ max_payments
  pub total_allowed : sum cents ≤ authorized
  pub each_allowed : All (λ amount. amount ≤ max_payment) cents

any_above-All :
    (bound : ℕ) (cents : List ℕ)
    → any_above bound cents ≡ false
    → All (λ amount. amount ≤ bound) cents
unfolding any_above
any_above-All bound [] h = tt
any_above-All bound (amount ∷ rest) h = (ground arith, any_above-All bound rest (ground arith))

check_totals-WithinGrant :
    (close grant : Fields) (manifest : List Fields)
    → check_totals close grant manifest ≡ ok tt
    → WithinGrant close grant manifest
unfolding check_totals
check_totals-WithinGrant close grant manifest h =
    let (cents, cents_are) = passes (amounts manifest) (λ e f. ground arith) in
    let (final, final_is) = passes (number "final_issuance_index" close) (λ e f. ground arith) in
    let (count, count_is) = passes (number "max_payments" grant) (λ e f. ground arith) in
    let (emitted, emitted_is) = passes (number "emitted_total_cents" close) (λ e f. ground arith) in
    let (total, total_is) = passes (number "authorized_total_cents" grant) (λ e f. ground arith) in
    let (one, one_is) = passes (number "max_payment_cents" grant) (λ e f. ground arith) in
    record {
      cents = cents;
      max_payments = count;
      max_payment = one;
      authorized = total;
      cents_are = cents_are;
      max_payments_is = count_is;
      max_payment_is = one_is;
      authorized_is = total_is;
      complete = ground (arith, nat_beq_iff (length manifest) final);
      emitted = ground (arith, nat_beq_iff (sum cents) emitted);
      count_allowed = ground arith;
      total_allowed = ground arith;
      each_allowed = any_above-All one cents (ground arith);
    }

-- The manifest of an accepted closure is the one that the given bytes parse to, numbered from 1
-- without repeated operations; the closure names its length and its sum, which keep within the grant
-- as each amount does.
pub validate_close_manifest_within :
    (lib : Library) (close grant : SignedEnvelope) (contents : Bytes) (manifest : List Fields)
    → validate_close_manifest lib close grant contents ≡ ok manifest
    → (parse_close_manifest lib contents ≡ ok manifest)
      × WithinGrant close.payload grant.payload manifest
      × Numbered 1 [] manifest
unfolding validate_close_manifest
validate_close_manifest_within lib close grant contents manifest h =
    let (entries, parsed) = passes (parse_close_manifest lib contents) (λ e f. ground arith) in
    (
      ground arith,
      check_totals-WithinGrant close.payload grant.payload manifest (ground arith),
      parse_close_manifest-Numbered lib contents manifest (ground arith),
    )
