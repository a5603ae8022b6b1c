-- ===== src/Commands/Lists/Ends.antt =====
-- LPUSH, RPUSH, LPOP and RPOP: `push` and `popOne` of internal/commands/list.go.
use gedis.Base.{
  ℕ, ◌-◌, Bool, true, false, Option, none, some, List, [], ◌∷◌, ◌++◌, Bytes, codes, length, take,
  drop, ltb, if◌then◌else◌,
}
use gedis.Base.Int.{ℤ, pos, negsuc}
use gedis.Protocol.Value.{Value, integer, bulk_of}
use gedis.Sentinel.Answer.{arg_string}
use gedis.Commands.Store.{Kv, Run, ◌>>=◌, return, notify, unless_missing, replying}
use gedis.Commands.Arguments.{
  to_bulk_array, null_bulk, arg_int, invalid_key, invalid_value, not_an_integer, err_value_str,
}
use gedis.Commands.Lists.{read_list, write_list, delete_list}

-- The loop of `push` over the values: `none` where one is no bulk string.
unfoldable pub push_values : Bool → List Value → List Bytes → Option (List Bytes)
push_values head [] elems = some elems
push_values head (a ∷ rest) elems = elim (arg_string a) [
  | none ↦ none
  | some v ↦ push_values head rest (if head then v ∷ elems else elems ++ (v ∷ []))
]

-- What `popOne` takes of a list, and what it leaves.
unfoldable pub pop_values : Bool → ℕ → List Bytes → List Bytes × List Bytes
pop_values tail count elems =
    let c = if ltb (length elems) count then length elems else count in
    if tail
    then (drop (length elems - c) elems, take (length elems - c) elems)
    else (take c elems, drop c elems)

unfoldable pub pop_reply : Bool → List Bytes → Value
pop_reply with_count out =
    if with_count then to_bulk_array out else elim out [ [] ↦ null_bulk | e ∷ es ↦ bulk_of e ]

module _ {S : Type 0} (kv : Kv S) (now : ℤ) where
  -- `push`, from the point where the elements are read.
  unfoldable pub push_on : Bool → Bytes → List Value → List Bytes × ℤ → Run S Value
  push_on head key values (elems, expiry) = elim (push_values head values elems) [
    | none ↦ return invalid_value
    | some pushed ↦ do
      u ← write_list kv now key pushed expiry
      u ← notify (codes "l") (if head then codes "lpush" else codes "rpush") key
      return (integer (pos (length pushed)))
  ]

  unfoldable pub push : Bool → List Value → Run S Value
  push head [] = return (err_value_str (codes "ERR wrong number of arguments for 'push' command"))
  push head (k ∷ []) =
      return (err_value_str (codes "ERR wrong number of arguments for 'push' command"))
  push head (k ∷ (v ∷ vs)) = elim (arg_string k) [
    | none ↦ return invalid_key
    | some key ↦ replying (
        unless_missing (read_list kv now key) (push_on head key (v ∷ vs) ([], pos 0))
          (push_on head key (v ∷ vs)))
  ]

  -- `popOne`, from the point where the list is cut.
  unfoldable pub pop_done : Bool → Bytes → Bool → ℤ → List Bytes × List Bytes → Run S Value
  pop_done tail key with_count expiry (out, []) = do
    u ← delete_list kv now key
    u ← notify (codes "l") (if tail then codes "rpop" else codes "lpop") key
    u ← notify (codes "g") (codes "del") key
    return (pop_reply with_count out)
  pop_done tail key with_count expiry (out, e ∷ es) = do
    u ← write_list kv now key (e ∷ es) expiry
    u ← notify (codes "l") (if tail then codes "rpop" else codes "lpop") key
    return (pop_reply with_count out)

  unfoldable pub pop_on : Bool → Bytes → ℕ → Bool → List Bytes × ℤ → Run S Value
  pop_on tail key count with_count (elems, expiry) =
      pop_done tail key with_count expiry (pop_values tail count elems)

  unfoldable pub pop_at : Bool → Bytes → ℕ → Bool → Run S Value
  pop_at tail key count with_count = replying (
      unless_missing (read_list kv now key)
        (return (if with_count then to_bulk_array [] else null_bulk))
        (pop_on tail key count with_count))

  abbrev pub with_pop_count : Option ℤ → (ℕ → Run S Value) → Run S Value
  with_pop_count none f = return not_an_integer
  with_pop_count (some (negsuc n)) f = return not_an_integer
  with_pop_count (some (pos n)) f = f n

  unfoldable pub pop_one : Bool → List Value → Run S Value
  pop_one tail (k ∷ []) = elim (arg_string k) [
    | none ↦ return invalid_key
    | some key ↦ pop_at tail key 1 false
  ]
  pop_one tail (k ∷ (c ∷ [])) = elim (arg_string k) [
    | none ↦ return invalid_key
    | some key ↦ with_pop_count (arg_int c) (λ n. pop_at tail key n true)
  ]
  pop_one tail _ = return (err_value_str (codes "ERR wrong number of arguments for 'pop' command"))
