-- ===== src/Commands/Lists/Moves.antt =====
-- LMOVE and RPOPLPUSH: `moveCore` of internal/commands/list_mod.go.
use gedis.Base.{
  Bool, true, false, Option, none, some, List, [], ◌∷◌, ◌++◌, Bytes, codes, if◌then◌else◌,
}
use gedis.Base.Int.{ℤ, pos}
use gedis.Protocol.Value.{Value, bulk_of}
use gedis.Sentinel.Answer.{arg_string}
use gedis.Commands.Store.{Kv, Run, ◌>>=◌, return, notify, unless_missing, replying}
use gedis.Commands.Arguments.{null_bulk, invalid_key, err_value_str}
use gedis.Base.{bytes_eq}
use gedis.Commands.Lists.{read_list, write_list, delete_list}
use gedis.Commands.Lists.Edits.{syntax_error, upper}

-- The element that leaves the source, with what stays: `none` for an empty list.
unfoldable pub take_end : Bool → List Bytes → Option (Bytes × List Bytes)
take_end from_tail [] = none
take_end false (e ∷ es) = some (e, es)
take_end true (e ∷ []) = some (e, [])
take_end true (e ∷ (e' ∷ es)) = elim (take_end true (e' ∷ es)) [
  | none ↦ none
  | some cut ↦ some (cut.0, e ∷ cut.1)
]

unfoldable pub add_end : Bool → Bytes → List Bytes → List Bytes
add_end to_tail elem elems = if to_tail then elems ++ (elem ∷ []) else elem ∷ elems

abbrev pub push_name : Bool → Bytes
push_name to_tail = if to_tail then codes "rpush" else codes "lpush"

abbrev pub pop_name : Bool → Bytes
pop_name from_tail = if from_tail then codes "rpop" else codes "lpop"

module _ {S : Type 0} (kv : Kv S) (now : ℤ) where
  -- The last part, where the two keys differ: what is left of the source.
  unfoldable pub leave_source : Bytes → Bool → Bytes → List Bytes → ℤ → Run S Value
  leave_source src from_tail elem [] expiry = do
    u ← delete_list kv now src
    u ← notify (codes "l") (pop_name from_tail) src
    u ← notify (codes "g") (codes "del") src
    return (bulk_of elem)
  leave_source src from_tail elem (e ∷ es) expiry = do
    u ← write_list kv now src (e ∷ es) expiry
    u ← notify (codes "l") (pop_name from_tail) src
    return (bulk_of elem)

  -- With the destination's elements read.
  unfoldable pub move_to :
      Bytes → Bytes → Bool → Bool → Bytes → List Bytes × ℤ → List Bytes × ℤ → Run S Value
  move_to src dst from_tail to_tail elem (kept, src_exp) (elems, dst_exp) =
      elim (bytes_eq src dst) [
        | true ↦ do
          u ← write_list kv now dst (add_end to_tail elem elems) src_exp
          u ← notify (codes "l") (push_name to_tail) dst
          u ← notify (codes "l") (pop_name from_tail) src
          return (bulk_of elem)
        | false ↦ do
          u ← write_list kv now dst (add_end to_tail elem elems) dst_exp
          u ← notify (codes "l") (push_name to_tail) dst
          leave_source src from_tail elem kept src_exp
      ]

  unfoldable pub move_from :
      Bytes → Bytes → Bool → Bool → Option (Bytes × List Bytes) → ℤ → Run S Value
  move_from src dst from_tail to_tail none src_exp = return null_bulk
  move_from src dst from_tail to_tail (some (elem, kept)) src_exp =
      unless_missing (read_list kv now dst)
        (move_to src dst from_tail to_tail elem (kept, src_exp) ([], pos 0))
        (move_to src dst from_tail to_tail elem (kept, src_exp))

  unfoldable pub move_core : Bytes → Bytes → Bool → Bool → Run S Value
  move_core src dst from_tail to_tail = replying (
      unless_missing (read_list kv now src) (return null_bulk)
        (λ held. move_from src dst from_tail to_tail (take_end from_tail held.0) held.1))

  -- Whether the word is RIGHT.
  unfoldable pub parse_move_side : Bytes → Option Bool
  parse_move_side s =
      if bytes_eq (upper s) (codes "LEFT")
      then some false
      else if bytes_eq (upper s) (codes "RIGHT")
      then some true
      else none

  abbrev pub with_side : Value → (Bool → Run S Value) → Run S Value
  with_side v f = elim (arg_string v) [
    | none ↦ syntax_error kv now
    | some s ↦ elim (parse_move_side s) [ none ↦ syntax_error kv now | some tail ↦ f tail ]
  ]

  abbrev pub with_keys : Value → Value → (Bytes → Bytes → Run S Value) → Run S Value
  with_keys a b f = elim (arg_string a) [
    | none ↦ return invalid_key
    | some src ↦ elim (arg_string b) [ none ↦ return invalid_key | some dst ↦ f src dst ]
  ]

  unfoldable pub lmove : List Value → Run S Value
  lmove (a ∷ (b ∷ (from ∷ (to ∷ [])))) = with_keys a b (λ src dst.
      with_side from (λ from_tail. with_side to (λ to_tail. move_core src dst from_tail to_tail)))
  lmove _ = return (err_value_str (codes "ERR wrong number of arguments for 'lmove' command"))

  unfoldable pub rpoplpush : List Value → Run S Value
  rpoplpush (a ∷ (b ∷ [])) = with_keys a b (λ src dst. move_core src dst true false)
  rpoplpush _ =
      return (err_value_str (codes "ERR wrong number of arguments for 'rpoplpush' command"))
