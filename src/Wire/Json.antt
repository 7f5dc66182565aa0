-- ===== src/Wire/Json.antt =====
-- JSON values of protocol_v3.py: what a producer may hand over, which of them the contract allows,
-- and the one text that a value has.
pub mod Same
use backend_pagos_offline.Prelude.{
  ℕ, zero, suc, ◌+◌, ◌/◌, ◌%◌, ◌^◌, ◌-◌, String, Bool, true, false, not, ◌&&◌, ◌||◌, List, [], ◌∷◌,
  ◌++◌, Bytes, ltb, leb, ◌==◌, nat_eq, string_eq, codes, text_ltb, length, if◌then◌else◌,
}
use backend_pagos_offline.Prelude.Int.{ℤ, pos, negsuc, leb_int}
use backend_pagos_offline.Result.{Result, ok, err, protocol_error, raise_if, ◌>>◌}

abbrev pub max_message_bytes : ℕ
max_message_bytes = 4096

abbrev pub max_int64 : ℤ
max_int64 = pos (2 ^ 63 - 1)

abbrev pub min_int64 : ℤ
min_int64 = negsuc (2 ^ 63 - 1)

-- A dictionary is the list of its items in their order of insertion.
mutual
  pub data Json : Type 0 where
    str : String → Json
    int : ℤ → Json
    arr : Items → Json
    obj : Fields → Json
    bool : Bool → Json
    null : Json
    -- a float, by its text
    float : String → Json

  pub data Items : Type 0 where
    no_items : Items
    item : Json → Items → Items

  pub data Fields : Type 0 where
    no_fields : Fields
    member : String → Json → Fields → Fields

-- a surrogate has no UTF-8 form
unfoldable pub is_surrogate : ℕ → Bool
is_surrogate c = leb 0xD800 c && leb c 0xDFFF

-- `value.encode("utf-8", errors="strict")` does not raise
unfoldable pub is_encodable : List ℕ → Bool
unfolding is_surrogate
is_encodable [] = true
is_encodable (c ∷ cs) = not (is_surrogate c) && is_encodable cs

unfoldable pub in_int64 : ℤ → Bool
in_int64 i = leb_int min_int64 i && leb_int i max_int64

unfoldable mutual
  unfolding is_encodable in_int64

  pub validate_json_value : Json → Result (Unit {0})
  validate_json_value (str s) = raise_if (not (is_encodable (codes s))) protocol_error
  validate_json_value (int i) = raise_if (not (in_int64 i)) protocol_error
  validate_json_value (arr xs) = validate_items xs
  validate_json_value (obj fs) = validate_members fs
  validate_json_value _ = err protocol_error

  pub validate_items : Items → Result (Unit {0})
  validate_items no_items = ok tt
  validate_items (item x xs) = do validate_json_value x; validate_items xs

  pub validate_members : Fields → Result (Unit {0})
  validate_members no_fields = ok tt
  validate_members (member k v fs) = do
    raise_if (not (is_encodable (codes k))) protocol_error
    validate_json_value v
    validate_members fs

-- a hexadecimal digit, in lower case
unfoldable pub hex_digit : ℕ → ℕ
hex_digit d = if ltb d 10 then 48 + d else 87 + d

-- `json.dumps` with `ensure_ascii=False` escapes control characters, the quote and the backslash.
unfoldable pub escape : ℕ → List ℕ
unfolding hex_digit
escape c =
    if c == 34
    then 92 ∷ 34 ∷ []
    else if c == 92
    then 92 ∷ 92 ∷ []
    else if c == 10
    then 92 ∷ 110 ∷ []
    else if c == 13
    then 92 ∷ 114 ∷ []
    else if c == 9
    then 92 ∷ 116 ∷ []
    else if c == 8
    then 92 ∷ 98 ∷ []
    else if c == 12
    then 92 ∷ 102 ∷ []
    else if ltb c 32
    then 92 ∷ 117 ∷ 48 ∷ 48 ∷ hex_digit (c / 16) ∷ hex_digit (c % 16) ∷ []
    else c ∷ []

unfoldable pub escape_all : List ℕ → List ℕ
unfolding escape
escape_all [] = []
escape_all (c ∷ cs) = escape c ++ escape_all cs

unfoldable pub quote : String → List ℕ
unfolding escape_all
quote s = 34 ∷ escape_all (codes s) ++ 34 ∷ []

-- decimal digits, on fuel above the number
unfoldable pub digits : ℕ → ℕ → List ℕ
digits zero n = []
digits (suc fuel) n =
    let front = digits fuel (n / 10) in
    if ltb n 10 then (48 + n) ∷ [] else front ++ (48 + n % 10) ∷ []

unfoldable pub show_int : ℤ → List ℕ
unfolding digits
show_int (pos n) = digits (suc n) n
show_int (negsuc n) = 45 ∷ digits (suc (suc n)) (suc n)

-- `sort_keys`: by code points
unfoldable pub insert_key : String → List ℕ → List (String × List ℕ) → List (String × List ℕ)
insert_key k t [] = (k, t) ∷ []
insert_key k t ((j, u) ∷ rest) =
    let after = insert_key k t rest in
    if text_ltb j k then (j, u) ∷ after else (k, t) ∷ (j, u) ∷ rest

unfoldable pub sort_keys : List (String × List ℕ) → List (String × List ℕ)
unfolding insert_key
sort_keys [] = []
sort_keys ((k, t) ∷ rest) = insert_key k t (sort_keys rest)

unfoldable pub join : List (List ℕ) → List ℕ
join [] = []
join (t ∷ []) = t
join (t ∷ u ∷ rest) = t ++ 44 ∷ join (u ∷ rest)

unfoldable pub show_members : List (String × List ℕ) → List (List ℕ)
unfolding quote
show_members [] = []
show_members ((k, t) ∷ rest) = (quote k ++ 58 ∷ t) ∷ show_members rest

-- `json.dumps(value, ensure_ascii=False, sort_keys=True, separators=(",", ":"))`, as code points;
-- the last three cases are refused before
unfoldable mutual
  unfolding quote show_int sort_keys join show_members

  pub dumps : Json → List ℕ
  dumps (str s) = quote s
  dumps (int i) = show_int i
  dumps (arr xs) = 91 ∷ join (dumps_items xs) ++ 93 ∷ []
  dumps (obj fs) = 123 ∷ join (show_members (sort_keys (dumps_members fs))) ++ 125 ∷ []
  dumps (bool true) = codes "true"
  dumps (bool false) = codes "false"
  dumps null = codes "null"
  dumps (float f) = codes f

  pub dumps_items : Items → List (List ℕ)
  dumps_items no_items = []
  dumps_items (item x xs) = dumps x ∷ dumps_items xs

  pub dumps_members : Fields → List (String × List ℕ)
  dumps_members no_fields = []
  dumps_members (member k v fs) = (k, dumps v) ∷ dumps_members fs

unfoldable pub utf8 : ℕ → Bytes
utf8 c =
    if ltb c 0x80
    then c ∷ []
    else if ltb c 0x800
    then (0xC0 + c / 64) ∷ (0x80 + c % 64) ∷ []
    else if ltb c 0x10000
    then (0xE0 + c / 4096) ∷ (0x80 + c / 64 % 64) ∷ (0x80 + c % 64) ∷ []
    else (0xF0 + c / 262144) ∷ (0x80 + c / 4096 % 64) ∷ (0x80 + c / 64 % 64) ∷ (0x80 + c % 64) ∷ []

unfoldable pub encode_utf8 : List ℕ → Bytes
unfolding utf8
encode_utf8 [] = []
encode_utf8 (c ∷ cs) = utf8 c ++ encode_utf8 cs

-- the length of a message, of which an empty one has none
unfoldable pub bad_length : Bytes → Bool
bad_length contents = length contents == 0 || ltb max_message_bytes (length contents)

unfoldable pub canonical_bytes : Json → Result Bytes
canonical_bytes value = do
  validate_json_value value
  raise_if (bad_length (encode_utf8 (dumps value))) protocol_error
  ok (encode_utf8 (dumps value))
