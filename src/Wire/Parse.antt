-- ===== src/Wire/Parse.antt =====
-- `_unique_pairs`, `_reject_number` and `_parse_json` of protocol_v3.py.
pub mod Canonical
use backend_pagos_offline.Prelude.{
  String, Bool, false, ◌||◌, List, [], ◌∷◌, Bytes, ◌==◌, ◌!=◌, string_eq, bytes_eq,
}
use backend_pagos_offline.Result.{Result, ok, err, protocol_error, raise_if, or_err, ◌>>=◌, ◌>>◌}
use backend_pagos_offline.Wire.Json.{
  Json, Items, Fields, str, int, arr, obj, bool, null, no_items, item, no_fields, member,
  bad_length, canonical_bytes,
}
use backend_pagos_offline.Wire.Library.{
  Library, Tree, Trees, Pairs, text, whole, number, flag, nothing, array, object, last, more,
  closed, pair,
}

unfoldable pub contains : String → List String → Bool
contains k [] = false
contains k (j ∷ js) = j == k || contains k js

-- `seen` holds the keys of `result`
unfoldable pub unique_pairs : List String → Fields → Result Fields
unfolding contains
unique_pairs seen no_fields = ok no_fields
unique_pairs seen (member k v rest) = do
  raise_if (contains k seen) protocol_error
  others ← unique_pairs (k ∷ seen) rest
  ok (member k v others)

unfoldable pub reject_number : String → Result Json
reject_number literal = err protocol_error

-- `json.loads` on a text that its grammar has read, with the three hooks
unfoldable mutual
  unfolding unique_pairs reject_number

  pub loads : Tree → Result Json
  loads (text s) = ok (str s)
  loads (whole i) = ok (int i)
  loads (number s) = reject_number s
  loads (flag b) = ok (bool b)
  loads nothing = ok null
  loads (array ts) = do xs ← loads_items ts; ok (arr xs)
  loads (object ps) = do pairs ← loads_pairs ps; fields ← unique_pairs [] pairs; ok (obj fields)

  pub loads_items : Trees → Result Items
  loads_items last = ok no_items
  loads_items (more t ts) = do x ← loads t; xs ← loads_items ts; ok (item x xs)

  pub loads_pairs : Pairs → Result Fields
  loads_pairs closed = ok no_fields
  loads_pairs (pair k t ps) = do v ← loads t; fs ← loads_pairs ps; ok (member k v fs)

unfoldable pub parse_json : Library → Bytes → Result Json
parse_json lib contents = do
  raise_if (bad_length contents) protocol_error
  tree ← or_err (lib.json_tree contents) protocol_error
  value ← loads tree
  written ← canonical_bytes value
  raise_if (written != contents) protocol_error
  ok value
