-- ===== src/Protocol/Decode.antt =====
-- internal/protocol/decode.go: `Decode`. A nested value is decoded by a call that costs one unit of
-- fuel; `decode` gives one unit for each byte that is still to come, and one more.
use gedis.Base.{
  ℕ, zero, suc, ◌+◌, Bool, true, false, ◌||◌, none, some, List, [], ◌∷◌, Bytes, ok, err,
  out_of_fuel, ◌>>=◌, length, ◌==◌, if◌then◌else◌,
}
use gedis.Base.Int.{ℤ, pos, negsuc}
use gedis.Base.Text.Fields.{fields, cut}
use gedis.Protocol.Value.{
  Value, simple_string, error, integer, bulk_string, array, null, boolean, double, big_number,
  bulk_error, verbatim, map, set, attribute, push, Slice, nil_slice, slice, Elems, nil, cons, Pairs,
  end, pair, bulk_of, array_of,
}
use gedis.Protocol.Encode.{FloatText}
use gedis.Protocol.Reader.{
  bad_boolean, bad_double, invalid_length, missing_format, unsupported_type, Read, value_size,
  pair_size, make, read_byte, expect_crlf, read_line, or_bad, read_int, read_payload,
}

unfoldable pub is_type_byte : ℕ → Bool
is_type_byte b =
    b == b'+'
    || b == b'-'
    || b == b':'
    || b == b'$'
    || b == b'*'
    || b == b'_'
    || b == b'#'
    || b == b','
    || b == b'('
    || b == b'!'
    || b == b'='
    || b == b'%'
    || b == b'~'
    || b == b'|'
    || b == b'>'

abbrev pub bulks : List Bytes → Elems
bulks [] = nil
bulks (f ∷ fs) = cons (bulk_of f) (bulks fs)

unfoldable pub decode_inline : Bytes → Read Value
decode_inline r = do (line, rest) ← read_line r; ok (array_of (bulks (fields line)), rest)

abbrev pub text_value : (Bytes → Value) → Bytes → Read Value
text_value kind r = do (s, rest) ← read_line r; ok (kind s, rest)

unfoldable pub decode_boolean : Bytes → Read Value
decode_boolean r = do
  (b, r1) ← read_byte r
  (_, r2) ← expect_crlf r1
  if b == b't'
      then ok (boolean true, r2)
      else if b == b'f'
      then ok (boolean false, r2)
      else err bad_boolean

abbrev pub bulk_body : ℤ → Bytes → Read Value
bulk_body (pos n) r = do (b, rest) ← read_payload n r; ok (bulk_string (some b), rest)
bulk_body (negsuc zero) r = ok (bulk_string none, r)
bulk_body (negsuc (suc k)) r = err invalid_length

unfoldable pub decode_bulk : Bytes → Read Value
decode_bulk r = do (n, rest) ← read_int r; bulk_body n rest

abbrev pub sized_body : ℤ → Bytes → Read Bytes
sized_body (pos n) r = read_payload n r
sized_body (negsuc k) r = err invalid_length

unfoldable pub decode_sized : Bytes → Read Bytes
decode_sized r = do (n, rest) ← read_int r; sized_body n rest

unfoldable pub decode_verbatim : Bytes → Read Value
decode_verbatim r = do
  (body, rest) ← decode_sized r
  (fmt, bulk) ← or_bad missing_format (cut b':' body)
  ok (verbatim fmt bulk, rest)

-- The loops over the elements and the pairs, `dec` being the call of `Decode` for one value.
module _ (dec : Bytes → Read Value) where
  unfoldable pub decode_each : ℕ → Bytes → Read Elems
  decode_each zero r = ok (nil, r)
  decode_each (suc n) r = do (v, r1) ← dec r; (vs, r2) ← decode_each n r1; ok (cons v vs, r2)

  unfoldable pub decode_each_pair : ℕ → Bytes → Read Pairs
  decode_each_pair zero r = ok (end, r)
  decode_each_pair (suc n) r = do
    (k, r1) ← dec r
    (v, r2) ← dec r1
    (ps, r3) ← decode_each_pair n r2
    ok (pair k v ps, r3)

  abbrev pub elems_of : (Slice → Value) → ℕ → Bytes → Read Value
  elems_of kind n r = make value_size n do (vs, rest) ← decode_each n r; ok (kind (slice vs), rest)

  abbrev pub array_body : ℤ → Bytes → Read Value
  array_body (pos n) r = elems_of array n r
  array_body (negsuc zero) r = ok (array nil_slice, r)
  array_body (negsuc (suc k)) r = err invalid_length

  unfoldable pub decode_array : Bytes → Read Value
  decode_array r = do (n, rest) ← read_int r; array_body n rest

  abbrev pub n_body : (Slice → Value) → ℤ → Bytes → Read Value
  n_body kind (pos n) r = elems_of kind n r
  n_body kind (negsuc k) r = err invalid_length

  unfoldable pub decode_n : (Slice → Value) → Bytes → Read Value
  decode_n kind r = do (n, rest) ← read_int r; n_body kind n rest

  abbrev pub map_body : (Pairs → Value) → ℤ → Bytes → Read Value
  map_body kind (pos n) r =
      make pair_size n do (ps, rest) ← decode_each_pair n r; ok (kind ps, rest)
  map_body kind (negsuc k) r = err invalid_length

  unfoldable pub decode_map : (Pairs → Value) → Bytes → Read Value
  decode_map kind r = do (n, rest) ← read_int r; map_body kind n rest

abbrev bulk_error_of : Bytes → Value
bulk_error_of b = bulk_error (some b)

module _ (float : FloatText) where
  abbrev pub decode_double : Bytes → Read Value
  decode_double r = do
    (s, rest) ← read_line r
    f ← or_bad bad_double (float.parse s)
    ok (double f, rest)

  -- the `switch` on the type byte, which has been read
  unfoldable pub decode_typed : (Bytes → Read Value) → ℕ → Bytes → Read Value
  decode_typed dec typ r =
      if typ == b'+'
      then text_value simple_string r
      else if typ == b'-'
      then text_value error r
      else if typ == b':'
      then (do (n, rest) ← read_int r; ok (integer n, rest))
      else if typ == b'$'
      then decode_bulk r
      else if typ == b'*'
      then decode_array dec r
      else if typ == b'_'
      then (do (_, rest) ← expect_crlf r; ok (null, rest))
      else if typ == b'#'
      then decode_boolean r
      else if typ == b','
      then decode_double r
      else if typ == b'('
      then text_value big_number r
      else if typ == b'!'
      then (do (b, rest) ← decode_sized r; ok (bulk_error_of b, rest))
      else if typ == b'='
      then decode_verbatim r
      else if typ == b'%'
      then decode_map dec map r
      else if typ == b'~'
      then decode_n dec set r
      else if typ == b'|'
      then decode_map dec attribute r
      else if typ == b'>'
      then decode_n dec push r
      else err unsupported_type

  -- `Decode`: the first byte is read and put back, then read again by `decodeTyped`.
  unfoldable pub decode_fuel : ℕ → Bytes → Read Value
  decode_fuel zero r = out_of_fuel
  decode_fuel (suc f) r = do
    (b, rest) ← read_byte r
    if is_type_byte b then decode_typed (decode_fuel f) b rest else decode_inline r

  unfoldable pub decode : Bytes → Read Value
  decode r = decode_fuel (length r + 1) r
