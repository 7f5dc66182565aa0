-- ===== src/Wire/Checks.antt =====
-- The checks on one field of a message: identifiers, digests, integers, UUIDs, instants and nonces
-- (protocol_v3.py).
use backend_pagos_offline.Prelude.{
  ℕ, Bool, true, false, not, ◌&&◌, ◌||◌, some, List, [], ◌∷◌, leb, length, ◌==◌, ◌!=◌, string_eq,
  nat_eq, option_eq, codes,
}
use backend_pagos_offline.Prelude.Int.{ℤ, pos, leb_int}
use backend_pagos_offline.Result.{
  Result, err, protocol_error, value_error, raise_if, or_err, ◌>>=◌, ◌>>◌,
}
use backend_pagos_offline.Wire.Json.{Json, str, int, max_int64}
use backend_pagos_offline.Wire.Library.{Library}

abbrev pub between : ℕ → ℕ → ℕ → Bool
between low high c = leb low c && leb c high

unfoldable pub is_digit : ℕ → Bool
is_digit c = between 48 57 c

unfoldable pub is_alnum : ℕ → Bool
unfolding is_digit
is_alnum c = is_digit c || between 65 90 c || between 97 122 c

-- `[A-Za-z0-9._:-]`
unfoldable pub is_id_char : ℕ → Bool
unfolding is_alnum
is_id_char c = is_alnum c || c == 46 || c == 95 || c == 58 || c == 45

unfoldable pub is_hex : ℕ → Bool
unfolding is_digit
is_hex c = is_digit c || between 97 102 c

-- `[A-Za-z0-9_-]`
unfoldable pub is_base64url : ℕ → Bool
unfolding is_alnum
is_base64url c = is_alnum c || c == 95 || c == 45

-- each character is of the class
unfoldable pub all_chars : (ℕ → Bool) → List ℕ → Bool
all_chars test [] = true
all_chars test (c ∷ cs) = test c && all_chars test cs

unfoldable pub matches_id : List ℕ → Bool
unfolding is_alnum is_id_char all_chars
matches_id [] = false
matches_id (c ∷ cs) = is_alnum c && all_chars is_id_char cs && leb (length cs) 119

unfoldable pub matches_digest : List ℕ → Bool
unfolding is_hex all_chars
matches_digest cs = length cs == 64 && all_chars is_hex cs

-- a digit at the place of a zero, and each other character itself
unfoldable pub fits : ℕ → ℕ → Bool
unfolding is_digit
fits p c = p == 48 && is_digit c || p != 48 && c == p

unfoldable pub matches_shape : List ℕ → List ℕ → Bool
unfolding fits
matches_shape [] [] = true
matches_shape (p ∷ ps) (c ∷ cs) = fits p c && matches_shape ps cs
matches_shape _ _ = false

unfoldable pub matches_timestamp : List ℕ → Bool
unfolding matches_shape
matches_timestamp = matches_shape (codes "0000-00-00T00:00:00Z")

unfoldable pub matches_nonce : List ℕ → Bool
unfolding is_base64url all_chars
matches_nonce cs = length cs == 22 && all_chars is_base64url cs

unfoldable pub identifier : Json → Result (Unit {0})
unfolding matches_id
identifier (str value) = raise_if (not (matches_id (codes value))) protocol_error
identifier _ = err protocol_error

unfoldable pub digest : Json → Result (Unit {0})
unfolding matches_digest
digest (str value) = raise_if (not (matches_digest (codes value))) protocol_error
digest _ = err protocol_error

unfoldable pub integer : ℤ → ℤ → Json → Result (Unit {0})
integer minimum maximum (int value) =
    raise_if (not (leb_int minimum value && leb_int value maximum)) protocol_error
integer minimum maximum _ = err protocol_error

-- `_integer` with its default bounds
abbrev pub positive : Json → Result (Unit {0})
positive = integer (pos 1) max_int64

module _ (lib : Library) where
  unfoldable pub uuid : Json → Result (Unit {0})
  uuid (str value) = do
    (version, written) ← or_err (lib.parse_uuid value) protocol_error
    raise_if (version != some 4 || written != value) protocol_error
  uuid _ = err protocol_error

  unfoldable pub parse_timestamp : Json → Result ℕ
  unfolding matches_timestamp
  parse_timestamp (str value) = do
    raise_if (not (matches_timestamp (codes value))) protocol_error
    or_err (lib.strptime value) protocol_error
  parse_timestamp _ = err protocol_error

  -- the decoder is outside any `try`
  unfoldable pub nonce : Json → Result (Unit {0})
  unfolding matches_nonce
  nonce (str value) = do
    raise_if (not (matches_nonce (codes value))) protocol_error
    contents ← or_err (lib.urlsafe_b64decode value) value_error
    raise_if (length contents != 16 || lib.urlsafe_b64encode contents != value) protocol_error
  nonce _ = err protocol_error
