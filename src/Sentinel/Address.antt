-- ===== src/Sentinel/Address.antt =====
-- The functions of Go's net and strconv packages that internal/sentinel uses on "host:port".
use gedis.Base.{
  ℕ, zero, suc, ◌-◌, Bool, true, false, Option, none, some, [], ◌∷◌, ◌++◌, if◌then◌else◌, ◌==◌,
  Bytes, take, drop, codes,
}
use gedis.Base.Int.{ℤ}
use gedis.Base.Text.Decimal.{parse_int, format_int}

-- `strings.IndexByte` and `LastIndexByte`.
unfoldable pub index_byte : ℕ → Bytes → Option ℕ
index_byte c [] = none
index_byte c (x ∷ s) =
    let rest = index_byte c s in
    if x == c then some 0 else elim rest [ none ↦ none | some i ↦ some (suc i) ]

unfoldable pub last_index_byte : ℕ → Bytes → Option ℕ
last_index_byte c [] = none
last_index_byte c (x ∷ s) = elim (last_index_byte c s) [
  | some i ↦ some (suc i)
  | none ↦ if x == c then some 0 else none
]

unfoldable pub has_byte : ℕ → Bytes → Bool
unfolding index_byte
has_byte c s = elim (index_byte c s) [ none ↦ false | some i ↦ true ]

-- The last part of `net.SplitHostPort`: no bracket from `j` on is open, none from `k` on closed.
unfoldable pub split_checked : Bytes → ℕ → ℕ → Bytes → ℕ → Option (Bytes × Bytes)
split_checked hostport j k host i =
    if has_byte b'[' (drop j hostport)
    then none
    else if has_byte b']' (drop k hostport)
    then none
    else some (host, drop (suc i) hostport)

-- With "[" in front: the "]" at `end` is right before the last ":" at `i`.
unfoldable pub split_bracketed : Bytes → ℕ → Option ℕ → Option (Bytes × Bytes)
split_bracketed hostport i none = none
split_bracketed hostport i (some end) =
    if suc end == i
    then split_checked hostport 1 (suc end) (take (end - 1) (drop 1 hostport)) i
    else none

unfoldable pub split_host_port : Bytes → Option (Bytes × Bytes)
split_host_port hostport = elim (last_index_byte b':' hostport) [
  | none ↦ none
  | some i ↦
      if elim (index_byte b'[' hostport) [ some zero ↦ true | _ ↦ false ]
      then split_bracketed hostport i (index_byte b']' hostport)
      else if has_byte b':' (take i hostport)
      then none
      else split_checked hostport 0 0 (take i hostport) i
]

unfoldable pub join_host_port : Bytes → Bytes → Bytes
join_host_port host port =
    if has_byte b':' host
    then codes "[" ++ host ++ codes "]:" ++ port
    else host ++ codes ":" ++ port

-- `strconv.Atoi` and `strconv.Itoa`.
unfoldable pub atoi : Bytes → Option ℤ
atoi s = parse_int s

unfoldable pub itoa : ℤ → Bytes
itoa n = format_int n
