-- ===== src/Commands/Lists/Ranges.antt =====
-- LLEN, LINDEX and LRANGE of internal/commands/list.go, and the bounds that LTRIM shares.
use gedis.Base.{
  ℕ, zero, suc, ◌+◌, ◌-◌, not, Option, none, some, List, [], ◌∷◌, Bytes, codes, length, take, drop,
  if◌then◌else◌, ◌||◌,
}
use gedis.Base.Int.{ℤ, pos, negsuc, pos_part, ltb_ℤ, add64, sub64}
use gedis.Protocol.Value.{Value, integer, bulk_string}
use gedis.Sentinel.Answer.{arg_string}
use gedis.Commands.Store.{Kv, Run, return, unless_missing, replying}
use gedis.Commands.Arguments.{
  to_bulk_array, null_bulk, arg_int, invalid_key, not_an_integer, err_value_str,
}
use gedis.Commands.Lists.{read_list}

-- `n` as an int64, for the number of elements.
unfoldable pub normalize_index : ℤ → ℤ → ℤ
normalize_index idx n =
    let i = if ltb_ℤ idx (pos 0) then add64 idx n else idx in
    if ltb_ℤ i (pos 0) || not (ltb_ℤ i n) then negsuc 0 else i

-- The bounds of LRANGE and LTRIM, after the two clamps.
unfoldable pub from_start : ℤ → ℤ → ℤ
from_start start n =
    let s = if ltb_ℤ start (pos 0) then add64 start n else start in
    if ltb_ℤ s (pos 0) then pos 0 else s

unfoldable pub to_stop : ℤ → ℤ → ℤ
to_stop stop n =
    let s = if ltb_ℤ stop (pos 0) then add64 stop n else stop in
    if ltb_ℤ s n then s else sub64 n (pos 1)

-- `elems[start : stop+1]`, or nothing where `start > stop || start >= n`.
unfoldable pub between : ℤ → ℤ → List Bytes → List Bytes
between start stop elems =
    let n = pos (length elems) in
    let lo = from_start start n in
    let hi = to_stop stop n in
    if ltb_ℤ hi lo || not (ltb_ℤ lo n)
    then []
    else take (pos_part hi + 1 - pos_part lo) (drop (pos_part lo) elems)

-- `elems[i]`
unfoldable pub element : ℕ → List Bytes → Option Bytes
element i [] = none
element zero (e ∷ es) = some e
element (suc i) (e ∷ es) = element i es

-- The reply of LINDEX: a nil bulk out of range.
unfoldable pub index_reply : ℤ → List Bytes → Value
index_reply idx elems = elim (normalize_index idx (pos (length elems))) [
  | pos i ↦ bulk_string (element i elems)
  | negsuc n ↦ null_bulk
]

module _ {S : Type 0} (kv : Kv S) (now : ℤ) where
  unfoldable pub llen : List Value → Run S Value
  llen (k ∷ []) = elim (arg_string k) [
    | none ↦ return invalid_key
    | some key ↦ replying (
        unless_missing (read_list kv now key) (return (integer (pos 0)))
          (λ held. return (integer (pos (length held.0)))))
  ]
  llen _ = return (err_value_str (codes "ERR wrong number of arguments for 'llen' command"))

  unfoldable pub lindex_at : Bytes → ℤ → Run S Value
  lindex_at key idx = replying (
      unless_missing (read_list kv now key) (return null_bulk)
        (λ held. return (index_reply idx held.0)))

  unfoldable pub lindex : List Value → Run S Value
  lindex (k ∷ (i ∷ [])) = elim (arg_string k) [
    | none ↦ return invalid_key
    | some key ↦ elim (arg_int i) [ none ↦ return not_an_integer | some idx ↦ lindex_at key idx ]
  ]
  lindex _ = return (err_value_str (codes "ERR wrong number of arguments for 'lindex' command"))

  unfoldable pub lrange_at : Bytes → ℤ → ℤ → Run S Value
  lrange_at key start stop = replying (
      unless_missing (read_list kv now key) (return (to_bulk_array []))
        (λ held. return (to_bulk_array (between start stop held.0))))

  -- The two bounds of LRANGE and LTRIM.
  abbrev pub with_bounds : Value → Value → (ℤ → ℤ → Run S Value) → Run S Value
  with_bounds a b f = elim (arg_int a) [
    | none ↦ return not_an_integer
    | some start ↦ elim (arg_int b) [ none ↦ return not_an_integer | some stop ↦ f start stop ]
  ]

  unfoldable pub lrange : List Value → Run S Value
  lrange (k ∷ (a ∷ (b ∷ []))) = elim (arg_string k) [
    | none ↦ return invalid_key
    | some key ↦ with_bounds a b (lrange_at key)
  ]
  lrange _ = return (err_value_str (codes "ERR wrong number of arguments for 'lrange' command"))
