-- ===== src/Commands/Keyspace.antt =====
-- TYPE, EXISTS and MOVE of internal/commands/keyspace.go.
use gedis.Base.{ℕ, ◌+◌, none, some, List, [], ◌∷◌, Bytes, codes, ◌==◌, if◌then◌else◌}
use gedis.Base.Int.{ℤ, pos, negsuc}
use gedis.Protocol.Value.{Value, simple_string, integer}
use gedis.Sentinel.Answer.{arg_string}
use gedis.Commands.Store.{Kv, Run, return, unless_missing, replying}
use gedis.Commands.Lookup.{lookup_key}
use gedis.Commands.Arguments.{arg_int, invalid_key, not_an_integer, err_value_str}

-- The name of a type byte.
unfoldable pub type_name : ℕ → Bytes
type_name t =
    if t == b's'
    then codes "string"
    else if t == b'h'
    then codes "hash"
    else if t == b'l'
    then codes "list"
    else if t == b't'
    then codes "set"
    else if t == b'z'
    then codes "zset"
    else if t == b'H'
    then codes "string"
    else if t == b'x'
    then codes "stream"
    else if t == b'v'
    then codes "vectorset"
    else codes "none"

module _ {S : Type 0} (kv : Kv S) (now : ℤ) where
  unfoldable pub type_of : List Value → Run S Value
  type_of (k ∷ []) = elim (arg_string k) [
    | none ↦ return invalid_key
    | some key ↦ replying (
        unless_missing (lookup_key kv now key) (return (simple_string (codes "none")))
          (λ e. return (simple_string (type_name e.kind))))
  ]
  type_of _ = return (err_value_str (codes "ERR wrong number of arguments for 'type' command"))

  -- The loop of EXISTS: an argument that is no bulk string is passed over.
  unfoldable pub count_existing : ℕ → List Value → Run S Value
  count_existing n [] = return (integer (pos n))
  count_existing n (a ∷ rest) = elim (arg_string a) [
    | none ↦ count_existing n rest
    | some key ↦
        unless_missing (lookup_key kv now key) (count_existing n rest)
          (λ e. count_existing (n + 1) rest)
  ]

  unfoldable pub exists : List Value → Run S Value
  exists [] = return (err_value_str (codes "ERR wrong number of arguments for 'exists' command"))
  exists (a ∷ rest) = replying (count_existing 0 (a ∷ rest))

  -- MOVE to another database than 0, which there is not: the key is looked up all the same.
  unfoldable pub move_to_db : Bytes → ℤ → Run S Value
  move_to_db key (negsuc n) = return (err_value_str (codes "ERR DB index is out of range"))
  move_to_db key (pos n) =
      if n == 0
      then return (err_value_str (codes "ERR source and destination objects are the same"))
      else replying (
          unless_missing (lookup_key kv now key) (return (integer (pos 0)))
            (λ e. return (integer (pos 0))))

  unfoldable pub move : List Value → Run S Value
  move (k ∷ (d ∷ [])) = elim (arg_string k) [
    | none ↦ return invalid_key
    | some key ↦ elim (arg_int d) [ none ↦ return not_an_integer | some n ↦ move_to_db key n ]
  ]
  move _ = return (err_value_str (codes "ERR wrong number of arguments for 'move' command"))
