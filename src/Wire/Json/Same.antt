-- ===== src/Wire/Json/Same.antt =====
-- JSON values that are equal but for the order in which their dictionaries were filled, an order
-- that Python's `==` does not see. They have one canonical text.
use backend_pagos_offline.Prelude.{
  String, true, List, [], ◌∷◌, ℕ, ◌≡◌, ◌≢◌, refl, sym, ◌∙◌, ap, arith, inl, inr, ◌⊎◌, text_ltb,
  text_ltb_asymm, text_ltb_trans, text_ltb_connex, Bool-cases,
}
use backend_pagos_offline.Result.{ok, err, protocol_error}
use backend_pagos_offline.Wire.Json.{
  Json, Items, Fields, str, int, arr, obj, bool, null, float, no_items, item, no_fields, member,
  validate_json_value, validate_items, validate_members, insert_key, sort_keys, dumps, dumps_items,
  dumps_members, canonical_bytes,
}

mutual
  pub data Same : Json → Json → Type 0 where
    itself : {v : Json} → Same v v
    lists : {xs ys : Items} → SameItems xs ys → Same (arr xs) (arr ys)
    dictionaries : {fs gs : Fields} → SameFields fs gs → Same (obj fs) (obj gs)

  pub data SameItems : Items → Items → Type 0 where
    ends : SameItems no_items no_items
    items :
        {x y : Json} {xs ys : Items}
        → Same x y
        → SameItems xs ys
        → SameItems (item x xs) (item y ys)

  pub data SameFields : Fields → Fields → Type 0 where
    empty : SameFields no_fields no_fields
    members :
        {k : String} {v w : Json} {fs gs : Fields}
        → Same v w
        → SameFields fs gs
        → SameFields (member k v fs) (member k w gs)
    -- two items with different keys, in either order
    swapped :
        {j k : String} {v w : Json} {fs : Fields}
        → j ≢ k
        → SameFields (member j v (member k w fs)) (member k w (member j v fs))
    through : {fs gs hs : Fields} → SameFields fs gs → SameFields gs hs → SameFields fs hs

-- Two keys, of which the first comes first, may be inserted in either order.
insert_key-before :
    (j k : String) (t u : List ℕ) (rest : List (String × List ℕ))
    → text_ltb j k ≡ true
    → insert_key j t (insert_key k u rest) ≡ insert_key k u (insert_key j t rest)
unfolding insert_key
insert_key-before j k t u [] h = rw (h, text_ltb_asymm j k h) refl
insert_key-before j k t u ((e, x) ∷ rest) h =
    let back = text_ltb_asymm j k h in
    elim (Bool-cases (text_ltb e j)) [
      | inl low ↦
          rw (low, text_ltb_trans e j k low h)
            (rw low (ap (λ l. (e, x) ∷ l) (insert_key-before j k t u rest h)))
      | inr high ↦ elim (Bool-cases (text_ltb e k)) [
        | inl between ↦ rw (high, between) (rw (high, h) refl)
        | inr above ↦ rw (high, above) (rw (high, back, h) refl)
      ]
    ]

insert_key-swap :
    (j k : String) (t u : List ℕ) (rest : List (String × List ℕ))
    → j ≢ k
    → insert_key j t (insert_key k u rest) ≡ insert_key k u (insert_key j t rest)
insert_key-swap j k t u rest different = elim (text_ltb_connex j k different) [
  | inl before ↦ insert_key-before j k t u rest before
  | inr after ↦ sym (insert_key-before k j u t rest after)
]

mutual
  unfolding dumps sort_keys

  dumps-Same : {v w : Json} → Same v w → dumps v ≡ dumps w
  dumps-Same itself = refl
  dumps-Same (lists h) = rw (dumps_items-Same h) refl
  dumps-Same (dictionaries h) = rw (sort_keys-Same h) refl

  dumps_items-Same : {xs ys : Items} → SameItems xs ys → dumps_items xs ≡ dumps_items ys
  dumps_items-Same ends = refl
  dumps_items-Same (items h hs) = rw (dumps-Same h, dumps_items-Same hs) refl

  sort_keys-Same :
      {fs gs : Fields}
      → SameFields fs gs
      → sort_keys (dumps_members fs) ≡ sort_keys (dumps_members gs)
  sort_keys-Same empty = refl
  sort_keys-Same (members h hs) = rw (dumps-Same h, sort_keys-Same hs) refl
  sort_keys-Same (swapped {j} {k} {v} {w} {fs} different) =
      insert_key-swap j k (dumps v) (dumps w) (sort_keys (dumps_members fs)) different
  sort_keys-Same (through h k) = sort_keys-Same h ∙ sort_keys-Same k

-- What validation finds depends on no order: it accepts, or it refuses with one error.
mutual
  unfolding validate_json_value

  validate-cases :
      (v : Json) → (validate_json_value v ≡ ok tt) ⊎ (validate_json_value v ≡ err protocol_error)
  validate-cases (str s) = ground arith
  validate-cases (int i) = ground arith
  validate-cases (arr xs) = validate_items-cases xs
  validate-cases (obj fs) = validate_members-cases fs
  validate-cases (bool b) = inr refl
  validate-cases null = inr refl
  validate-cases (float f) = inr refl

  validate_items-cases :
      (xs : Items) → (validate_items xs ≡ ok tt) ⊎ (validate_items xs ≡ err protocol_error)
  validate_items-cases no_items = inl refl
  validate_items-cases (item x xs) = ground (arith, validate-cases x, validate_items-cases xs)

  validate_members-cases :
      (fs : Fields) → (validate_members fs ≡ ok tt) ⊎ (validate_members fs ≡ err protocol_error)
  validate_members-cases no_fields = inl refl
  validate_members-cases (member k v fs) =
      ground (arith, validate-cases v, validate_members-cases fs)

mutual
  unfolding validate_json_value

  validate-Same : {v w : Json} → Same v w → validate_json_value v ≡ validate_json_value w
  validate-Same itself = refl
  validate-Same (lists h) = validate_items-Same h
  validate-Same (dictionaries h) = validate_members-Same h

  validate_items-Same : {xs ys : Items} → SameItems xs ys → validate_items xs ≡ validate_items ys
  validate_items-Same ends = refl
  validate_items-Same (items h hs) = rw (validate-Same h, validate_items-Same hs) refl

  validate_members-Same :
      {fs gs : Fields} → SameFields fs gs → validate_members fs ≡ validate_members gs
  validate_members-Same empty = refl
  validate_members-Same (members h hs) = rw (validate-Same h, validate_members-Same hs) refl
  validate_members-Same (swapped {j} {k} {v} {w} {fs} different) =
      ground (arith, validate-cases v, validate-cases w)
  validate_members-Same (through h k) = validate_members-Same h ∙ validate_members-Same k

-- Values that differ only in the order of the items of their dictionaries, at any depth, have the
-- same canonical bytes, or are both refused with the same error.
pub canonical_bytes-Same : (v w : Json) → Same v w → canonical_bytes v ≡ canonical_bytes w
unfolding canonical_bytes
canonical_bytes-Same v w h = rw (validate-Same h, dumps-Same h) refl
