-- ===== src/Commands/Counters.antt =====
-- INCR, DECR, INCRBY and DECRBY: internal/commands/string_incr.go.
pub mod Overflow
pub mod Exact
use gedis.Base.{
  ℕ, suc, ◌-◌, ◌^◌, Bool, true, false, Result, ok, err, ◌&&◌, ◌||◌, Option, none, some, List, [],
  ◌∷◌, Bytes, codes, ◌==◌, if◌then◌else◌,
}
use gedis.Base.Int.{ℤ, pos, negsuc, ltb_ℤ, add64, sub64, neg64}
use gedis.Base.Text.Decimal.{parse_int, format_int}
use gedis.Protocol.Value.{Value, integer}
use gedis.Sentinel.Answer.{arg_string}
use gedis.Datastruct.Entry.{Entry, encode, type_string, string_key}
use gedis.Commands.Store.{
  Failure, not_found, other, Kv, World, Run, step, ◌>>=◌, return, fail, call, notify,
  unless_missing, after_read, replying, as_reply,
}
use gedis.Commands.Lookup.{lookup_key}
use gedis.Commands.Arguments.{arg_int, invalid_key, not_an_integer, err_value_str, wrong_type_text}

-- 1<<63-1 and -1<<63
abbrev pub max_int64 : ℤ
max_int64 = pos (2 ^ 63 - 1)

abbrev pub min_int64 : ℤ
min_int64 = negsuc (2 ^ 63 - 1)

unfoldable pub would_overflow : ℤ → ℤ → Bool
would_overflow cur delta =
    (ltb_ℤ (pos 0) delta && ltb_ℤ (sub64 max_int64 delta) cur)
    || (ltb_ℤ delta (pos 0) && ltb_ℤ cur (sub64 min_int64 delta))

abbrev pub overflow_error : Value
overflow_error = err_value_str (codes "ERR increment or decrement would overflow")

module _ {S : Type 0} (kv : Kv S) (now : ℤ) where
  -- `getEntry` of string.go
  unfoldable pub get_entry : Bytes → Run S Entry
  get_entry key = do
    e ← lookup_key kv now key
    if e.kind == type_string then return e else fail (other wrong_type_text)

  -- `incrBy`, with the number that the key has and its expiry.
  unfoldable pub add_to : Bytes → ℤ → ℤ → ℤ → Run S Value
  add_to key delta cur expiry = elim (would_overflow cur delta) [
    | true ↦ return overflow_error
    | false ↦ do
      u ←
          call
            (kv.set_raw (string_key key) (encode type_string expiry (format_int (add64 cur delta))))
      u ← notify (codes "$") (codes "incrby") key
      return (integer (add64 cur delta))
  ]

  unfoldable pub add_to_entry : Bytes → ℤ → Entry → Run S Value
  add_to_entry key delta e = elim (parse_int e.payload) [
    | none ↦ return not_an_integer
    | some cur ↦ add_to key delta cur e.expiry
  ]

  unfoldable pub incr_key : Bytes → ℤ → Run S Value
  incr_key key delta =
      replying
        (unless_missing (get_entry key) (add_to key delta (pos 0) (pos 0)) (add_to_entry key delta))

  unfoldable pub incr_by : List Value → ℤ → Run S Value
  incr_by (k ∷ []) delta = elim (arg_string k) [
    | none ↦ return invalid_key
    | some key ↦ incr_key key delta
  ]
  incr_by _ delta =
      return (err_value_str (codes "ERR wrong number of arguments for 'incr' command"))

  unfoldable pub incr : List Value → Run S Value
  incr args = incr_by args (pos 1)

  unfoldable pub decr : List Value → Run S Value
  decr args = incr_by args (negsuc 0)

  unfoldable pub incrby : List Value → Run S Value
  incrby (k ∷ (d ∷ [])) = elim (arg_int d) [
    | none ↦ return not_an_integer
    | some n ↦ incr_by (k ∷ []) n
  ]
  incrby _ = return (err_value_str (codes "ERR wrong number of arguments for 'incrby' command"))

  unfoldable pub decrby : List Value → Run S Value
  decrby (k ∷ (d ∷ [])) = elim (arg_int d) [
    | none ↦ return not_an_integer
    | some n ↦ incr_by (k ∷ []) (neg64 n)
  ]
  decrby _ = return (err_value_str (codes "ERR wrong number of arguments for 'decrby' command"))
