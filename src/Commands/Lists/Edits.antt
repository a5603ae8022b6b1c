-- ===== src/Commands/Lists/Edits.antt =====
-- LSET, LINSERT, LREM and LTRIM of internal/commands/list_mod.go.
use gedis.Base.{
  ℕ, zero, suc, ◌+◌, ◌-◌, Bool, true, false, Option, none, some, List, [], ◌∷◌, Bytes, codes, ◌==◌,
  length, drop, if◌then◌else◌,
}
use gedis.Base.Int.{ℤ, pos, negsuc, ltb_ℤ}
use gedis.Protocol.Value.{Value, integer, simple_string}
use gedis.Sentinel.Answer.{arg_string}
use gedis.Commands.Store.{Kv, Run, ◌>>=◌, return, notify, unless_missing, replying}
use gedis.Commands.Arguments.{arg_int, invalid_key, invalid_value, not_an_integer, err_value_str}
use gedis.Commands.Lists.{read_list, write_list, delete_list}
use gedis.Commands.Lists.Ranges.{normalize_index, between, with_bounds}
use gedis.Commands.Lookup.{ignored}
use gedis.Base.{bytes_eq, leb, ◌&&◌}
use gedis.Base.Int.{neg64}
use mathlib.Core.List.{reverse}

abbrev pub ok_reply : Value
ok_reply = simple_string (codes "OK")

-- `elems[pos] = val`
unfoldable pub replace_at : ℕ → Bytes → List Bytes → List Bytes
replace_at i val [] = []
replace_at zero val (e ∷ es) = val ∷ es
replace_at (suc i) val (e ∷ es) = e ∷ replace_at i val es

-- `strings.ToUpper`, as far as its result can have ASCII letters: those, and the two letters beyond
-- ASCII with an ASCII upper case, the dotless i and the long s. Other bytes stay.
abbrev pub upper_byte : ℕ → ℕ
upper_byte c = if leb b'a' c && leb c b'z' then c - 32 else c

unfoldable pub upper_after : ℕ → Bytes → Bytes
upper_after c [] = upper_byte c ∷ []
upper_after c (d ∷ cs) =
    let rest = upper_after d cs in
    if c == 196 && d == 177
    then b'I' ∷ drop 1 rest
    else if c == 197 && d == 191
    then b'S' ∷ drop 1 rest
    else upper_byte c ∷ rest

unfoldable pub upper : Bytes → Bytes
upper [] = []
upper (c ∷ cs) = upper_after c cs

-- The new element stands before or after the first that equals the pivot: `none` where none does.
unfoldable pub insert_at : Bool → Bytes → Bytes → List Bytes → Option (List Bytes)
insert_at after pivot val [] = none
insert_at after pivot val (e ∷ es) =
    let rest = insert_at after pivot val es in
    if bytes_eq e pivot
    then some (if after then e ∷ val ∷ es else val ∷ e ∷ es)
    else elim rest [ none ↦ none | some es' ↦ some (e ∷ es') ]

unfoldable pub abs_count : ℤ → ℤ
abs_count n = if ltb_ℤ n (pos 0) then neg64 n else n

-- `match()`, for the number of elements removed so far.
unfoldable pub may_remove : ℤ → ℕ → Bool
may_remove (pos zero) removed = true
may_remove count removed = ltb_ℤ (pos removed) (abs_count count)

-- The loop of `lrem`: what is kept, and how many are removed.
unfoldable pub remove_from : ℤ → Bytes → ℕ → List Bytes → List Bytes × ℕ
remove_from count val removed [] = ([], removed)
remove_from count val removed (e ∷ es) =
    let hit = bytes_eq e val && may_remove count removed in
    let rest = remove_from count val (if hit then removed + 1 else removed) es in
    if hit then rest else (e ∷ rest.0, rest.1)

-- A negative count starts at the tail: the source's loop goes down the positions, and puts each
-- element that stays in front of those kept before.
unfoldable pub remove : ℤ → Bytes → List Bytes → List Bytes × ℕ
remove count val elems =
    if ltb_ℤ count (pos 0)
    then (let (kept, removed) = remove_from count val 0 (reverse elems) in (reverse kept, removed))
    else remove_from count val 0 elems

module _ {S : Type 0} (kv : Kv S) (now : ℤ) where
  -- A changed list written back, with its event and its reply.
  abbrev pub write_back : Bytes → Bytes → List Bytes → ℤ → Value → Run S Value
  write_back event key elems expiry reply = do
    u ← write_list kv now key elems expiry
    u ← notify (codes "l") event key
    return reply

  -- A list that is gone, where the error of `Delete` is dropped.
  abbrev pub remove_list : Bytes → Bytes → Value → Run S Value
  remove_list event key reply = do
    u ← ignored kv now (delete_list kv now key)
    u ← notify (codes "l") event key
    u ← notify (codes "g") (codes "del") key
    return reply

  unfoldable pub lset_on : Bytes → ℤ → Bytes → List Bytes × ℤ → Run S Value
  lset_on key idx val (elems, expiry) = elim (normalize_index idx (pos (length elems))) [
    | pos i ↦ write_back (codes "lset") key (replace_at i val elems) expiry ok_reply
    | negsuc n ↦ return (err_value_str (codes "ERR index out of range"))
  ]

  unfoldable pub lset : List Value → Run S Value
  lset (k ∷ (i ∷ (v ∷ []))) = elim (arg_string k) [
    | none ↦ return invalid_key
    | some key ↦ elim (arg_int i) [
      | none ↦ return not_an_integer
      | some idx ↦ elim (arg_string v) [
        | none ↦ return invalid_value
        | some val ↦ replying (
            unless_missing (read_list kv now key) (return (err_value_str (codes "ERR no such key")))
              (lset_on key idx val))
      ]
    ]
  ]
  lset _ = return (err_value_str (codes "ERR wrong number of arguments for 'lset' command"))

  unfoldable pub linsert_on : Bytes → Bool → Bytes → Bytes → List Bytes × ℤ → Run S Value
  linsert_on key after pivot val (elems, expiry) = elim (insert_at after pivot val elems) [
    | none ↦ return (integer (negsuc 0))
    | some es ↦ write_back (codes "linsert") key es expiry (integer (pos (length es)))
  ]

  abbrev pub syntax_error : Run S Value
  syntax_error = return (err_value_str (codes "ERR syntax error"))

  -- The word BEFORE or AFTER.
  unfoldable pub after_word : Bytes → Option Bool
  after_word w =
      if bytes_eq w (codes "BEFORE")
      then some false
      else if bytes_eq w (codes "AFTER")
      then some true
      else none

  unfoldable pub linsert_strings : Bytes → Bool → Value → Value → Run S Value
  linsert_strings key after p v = elim (arg_string p) [
    | none ↦ return (err_value_str (codes "ERR invalid pivot"))
    | some pivot ↦ elim (arg_string v) [
      | none ↦ return invalid_value
      | some val ↦ replying (
          unless_missing (read_list kv now key) (return (integer (pos 0)))
            (linsert_on key after pivot val))
    ]
  ]

  unfoldable pub linsert : List Value → Run S Value
  linsert (k ∷ (w ∷ (p ∷ (v ∷ [])))) = elim (arg_string k) [
    | none ↦ return invalid_key
    | some key ↦ elim (arg_string w) [
      | none ↦ syntax_error
      | some word ↦ elim (after_word (upper word)) [
        | none ↦ syntax_error
        | some after ↦ linsert_strings key after p v
      ]
    ]
  ]
  linsert _ = return (err_value_str (codes "ERR wrong number of arguments for 'linsert' command"))

  unfoldable pub lrem_done : Bytes → ℤ → List Bytes × ℕ → Run S Value
  lrem_done key expiry (kept, zero) = return (integer (pos 0))
  lrem_done key expiry ([], suc n) = remove_list (codes "lrem") key (integer (pos (suc n)))
  lrem_done key expiry (e ∷ es, suc n) =
      write_back (codes "lrem") key (e ∷ es) expiry (integer (pos (suc n)))

  unfoldable pub lrem_at : Bytes → ℤ → Bytes → Run S Value
  lrem_at key count val = replying (
      unless_missing (read_list kv now key) (return (integer (pos 0)))
        (λ held. lrem_done key held.1 (remove count val held.0)))

  unfoldable pub lrem : List Value → Run S Value
  lrem (k ∷ (c ∷ (v ∷ []))) = elim (arg_string k) [
    | none ↦ return invalid_key
    | some key ↦ elim (arg_int c) [
      | none ↦ return not_an_integer
      | some count ↦ elim (arg_string v) [
        | none ↦ return invalid_value
        | some val ↦ lrem_at key count val
      ]
    ]
  ]
  lrem _ = return (err_value_str (codes "ERR wrong number of arguments for 'lrem' command"))

  unfoldable pub ltrim_done : Bytes → ℤ → List Bytes → Run S Value
  ltrim_done key expiry [] = remove_list (codes "ltrim") key ok_reply
  ltrim_done key expiry (e ∷ es) = write_back (codes "ltrim") key (e ∷ es) expiry ok_reply

  unfoldable pub ltrim_at : Bytes → ℤ → ℤ → Run S Value
  ltrim_at key start stop = replying (
      unless_missing (read_list kv now key) (return ok_reply)
        (λ held. ltrim_done key held.1 (between start stop held.0)))

  unfoldable pub ltrim : List Value → Run S Value
  ltrim (k ∷ (a ∷ (b ∷ []))) = elim (arg_string k) [
    | none ↦ return invalid_key
    | some key ↦ with_bounds kv now a b (ltrim_at key)
  ]
  ltrim _ = return (err_value_str (codes "ERR wrong number of arguments for 'ltrim' command"))
