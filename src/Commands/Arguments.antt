-- ===== src/Commands/Arguments.antt =====
-- What the handlers of internal/commands share: the parts of their arguments and their replies.
use gedis.Base.{◌≡◌, some, Option, none, List, [], ◌∷◌, Bytes, codes}
use gedis.Base.Options.{◌>>=◌}
use gedis.Base.Int.{ℤ, IsInt64}
use gedis.Base.Text.Decimal.{parse_int, format_int, parse_int-format_int}
use gedis.Protocol.Value.{Value, error, bulk_string, Elems, nil, cons, bulk_of, array_of}
use gedis.Sentinel.Answer.{arg_string, bulk_bytes}

unfoldable pub bulks : List Bytes → Elems
bulks [] = nil
bulks (e ∷ es) = cons (bulk_of e) (bulks es)

unfoldable pub to_bulk_array : List Bytes → Value
to_bulk_array elems = array_of (bulks elems)

-- A nil bulk string.
abbrev pub null_bulk : Value
null_bulk = bulk_string none

-- `argString` and then `ParseInt`.
unfoldable pub arg_int : Value → Option ℤ
arg_int v = arg_string v >>= parse_int

-- An int64 in decimal.
pub arg_int-bulk_of : (a : ℤ) → IsInt64 a → arg_int (bulk_of (format_int a)) ≡ some a
unfolding arg_int arg_string bulk_bytes
arg_int-bulk_of a h = parse_int-format_int a h

-- `errValueStr`
abbrev pub err_value_str : Bytes → Value
err_value_str text = error text

abbrev pub invalid_key : Value
invalid_key = err_value_str (codes "ERR invalid key")

abbrev pub invalid_value : Value
invalid_value = err_value_str (codes "ERR invalid value")

abbrev pub not_an_integer : Value
not_an_integer = err_value_str (codes "ERR value is not an integer or out of range")

abbrev pub wrong_type_text : Bytes
wrong_type_text = codes "WRONGTYPE Operation against a key holding the wrong kind of value"
