-- ===== src/Datastruct/SetCodec.antt =====
-- The payload of a set: internal/datastruct/set.go.
use gedis.Base.{
  ℕ, zero, suc, ◌+◌, ◌^◌, ◌<◌, ◌≤◌, ◌≡◌, ◌↔◌, refl, Bool, true, false, ◌&&◌, none, some, List, [],
  ◌∷◌, ◌++◌, Bytes, arith, length, leb, bytes_lt, if◌then◌else◌, Result, ok, err, In, Table, get,
  put, keys, put_each, get-put_each, get-In-keys, length-keys, In-keys-put_each, inl, inr, ◌>>=◌,
}
use gedis.Base.Sort.{sort_by, length-sort_by, In-sort_by}
use gedis.Base.Text.Decimal.{parse_int}
use gedis.Datastruct.Uvarint.{put_uvarint, get_uvarint, get_uvarint-put_uvarint}
use gedis.Datastruct.Entry.{CodecError, truncated_payload, bad_count, truncated_element}
use gedis.Datastruct.Strings.{put_strs, read_str, read_str-put_str, IsShort}

-- A `map[string]struct{}`.
abbrev pub Members : Type 0
Members = Table (Unit {0})

abbrev pub present : Bytes → Unit {0}
present m = tt

abbrev pub max_intset_entries : ℕ
max_intset_entries = 512

unfoldable pub all_int64 : List Bytes → Bool
all_int64 [] = true
all_int64 (m ∷ ms) = let rest = all_int64 ms in elim (parse_int m) [ none ↦ false | some n ↦ rest ]

unfoldable pub uniq : List Bytes → Members
uniq members = put_each present members []

unfoldable pub sorted_members : List Bytes → List Bytes
sorted_members members = sort_by bytes_lt (keys (uniq members))

-- 0 is `EncodingIntset`, 1 `EncodingHashtable`.
unfoldable pub set_encoding : List Bytes → ℕ
set_encoding sorted = if leb (length sorted) max_intset_entries && all_int64 sorted then 0 else 1

unfoldable pub encode_sorted : List Bytes → Bytes
encode_sorted sorted = set_encoding sorted ∷ (put_uvarint (length sorted) ++ put_strs sorted)

unfoldable pub encode_set : List Bytes → Bytes
encode_set members = encode_sorted (sorted_members members)

-- The loop of `DecodeSet`.
unfoldable pub read_members : ℕ → ℕ → Members → Bytes → Result CodecError Members
read_members i zero set rest = ok set
read_members i (suc left) set rest = elim (read_str rest) [
  | none ↦ err (truncated_element i)
  | some member ↦ read_members (suc i) left (put member.0 tt set) member.1
]

-- The set and the encoding byte.
unfoldable pub decode_set : Bytes → Result CodecError (Members × ℕ)
decode_set [] = err truncated_payload
decode_set (enc ∷ rest) = elim (get_uvarint rest) [
  | none ↦ err bad_count
  | some count ↦ do set ← read_members 0 count.0 [] count.1; ok (set, enc)
]

abbrev pub IsMembers : List Bytes → Type 0
IsMembers members = (length members < 2 ^ 64) × ((m : Bytes) → In m members → IsShort m)

uniq_present : (members : List Bytes) (m : Bytes) → In m members → get m (uniq members) ≡ some tt
unfolding uniq
uniq_present members m k = get-put_each present m members [] (inl k)

length-put : (m : Bytes) (set : Members) → length (put m tt set) ≤ suc (length set)
unfolding put
length-put m [] = omega arith
length-put m (p ∷ set) = ground (arith, length-put m set)

length-put_each :
    (members : List Bytes) (set : Members)
    → length (put_each present members set) ≤ length members + length set
unfolding put_each
length-put_each [] set = omega arith
length-put_each (m ∷ ms) set = omega (arith, length-put_each ms (put m tt set), length-put m set)

module _ (members : List Bytes) where
  length-sorted_members : length (sorted_members members) ≤ length members
  unfolding sorted_members uniq
  length-sorted_members = omega (
    arith,
    length-sort_by bytes_lt (keys (uniq members)),
    length-keys (uniq members),
    length-put_each members [],
  )

  In-sorted_members : (m : Bytes) → In m (sorted_members members) ↔ In m members
  unfolding sorted_members uniq keys
  In-sorted_members m =
      let (from, into) = In-sort_by bytes_lt m (keys (uniq members)) in
      (
        λ k. elim (In-keys-put_each present m members [] (from k)) [
          | inl there ↦ there
          | inr none_before ↦ elim none_before [ ]
        ],
        λ k. into (get-In-keys m (uniq members) tt (uniq_present members m k)),
      )

read_members-put_strs :
    (i : ℕ) (ms : List Bytes) (set : Members)
    → ((m : Bytes) → In m ms → IsShort m)
    → read_members i (length ms) set (put_strs ms) ≡ ok (put_each present ms set)
unfolding put_each read_members put_strs
read_members-put_strs i [] set h = refl
read_members-put_strs i (m ∷ ms) set h =
    rw (read_members, put_strs, read_str-put_str m (put_strs ms) (h m (inl refl)))
      (read_members-put_strs (suc i) ms (put m tt set) (λ k there. h k (inr there)))

-- `DecodeSet` reads back what `EncodeSet` writes: a set that has exactly the members of the list,
-- with the encoding byte of the sorted members without repetitions.
pub decode_set-encode_set :
    (members : List Bytes)
    → IsMembers members
    → (set : Members) × (decode_set (encode_set members)
        ≡ ok (set, set_encoding (sorted_members members)))
      × ((m : Bytes) → (get m set ≡ some tt) ↔ In m members)
unfolding encode_set encode_sorted decode_set keys
decode_set-encode_set members (fits, short) =
    let sorted = sorted_members members in
    (
      put_each present sorted [],
      rw
          (
            decode_set,
            get_uvarint-put_uvarint (length sorted) (put_strs sorted)
                (omega (arith, length-sorted_members members)),
            read_members-put_strs 0 sorted [] (λ m k. short m ((In-sorted_members members m).0 k)),
          )
          refl,
      λ m. (
        λ found.
            (In-sorted_members members m).0
              (elim (In-keys-put_each present m sorted []
                (get-In-keys m (put_each present sorted []) tt found)) [
                  | inl there ↦ there
                  | inr none_before ↦ absurd none_before
                ]),
        λ k. get-put_each present m sorted [] (inl ((In-sorted_members members m).1 k)),
      ),
    )
