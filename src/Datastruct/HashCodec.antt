-- ===== src/Datastruct/HashCodec.antt =====
-- The payload of a hash: internal/datastruct/hash.go.
use gedis.Base.{
  ℕ, zero, suc, ◌^◌, ◌<◌, ◌≡◌, ◌↔◌, refl, sym, ◌∙◌, ap, bytes_eq, Bool-cases, Bool, true, false,
  ◌||◌, Option, none, some, List, [], ◌∷◌, ◌++◌, Bytes, arith, length, ltb, bytes_lt, if◌then◌else◌,
  Result, ok, err, All, In, Table, get, put, keys, put_each, get-put_each, get-put_each_other,
  get-In-keys, length-keys, get-none-In-keys, Option-cases, inl, inr, ◌>>=◌,
}
use gedis.Base.Sort.{sort_by, length-sort_by, In-sort_by}
use gedis.Datastruct.Uvarint.{put_uvarint, get_uvarint, get_uvarint-put_uvarint}
use gedis.Datastruct.Entry.{
  CodecError, truncated_payload, bad_count, truncated_element, truncated_value,
}
use gedis.Datastruct.Strings.{put_str, read_str, read_str-put_str, IsShort}

abbrev pub max_listpack_entries : ℕ
max_listpack_entries = 128

abbrev pub max_listpack_value : ℕ
max_listpack_value = 64

unfoldable pub any_pair_longer : ℕ → Table Bytes → Bool
any_pair_longer n [] = false
any_pair_longer n (p ∷ m) =
    let rest = any_pair_longer n m in
    if ltb n (length p.0) || ltb n (length p.1) then true else rest

-- 0 is `EncodingListpack`, 1 `EncodingHashtable`.
unfoldable pub hash_encoding : Table Bytes → ℕ
hash_encoding m =
    if ltb max_listpack_entries (length m)
    then 1
    else if any_pair_longer max_listpack_value m
    then 1
    else 0

-- `m[f]`, "" where it is missing.
unfoldable pub value_at : Table Bytes → Bytes → Bytes
value_at m f = elim (get f m) [ none ↦ [] | some v ↦ v ]

unfoldable pub put_pairs : (Bytes → Bytes) → List Bytes → Bytes
put_pairs val [] = []
put_pairs val (f ∷ fs) = put_str f ++ (put_str (val f) ++ put_pairs val fs)

unfoldable pub sorted_fields : Table Bytes → List Bytes
sorted_fields m = sort_by bytes_lt (keys m)

unfoldable pub encode_hash : Table Bytes → Bytes
encode_hash m =
    hash_encoding m ∷ (put_uvarint (length m) ++ put_pairs (value_at m) (sorted_fields m))

-- The loop of `DecodeHash`.
unfoldable pub read_pairs : ℕ → ℕ → Table Bytes → Bytes → Result CodecError (Table Bytes)
read_pairs i zero m rest = ok m
read_pairs i (suc left) m rest = elim (read_str rest) [
  | none ↦ err (truncated_element i)
  | some field ↦ elim (read_str field.1) [
    | none ↦ err (truncated_value i)
    | some value ↦ read_pairs (suc i) left (put field.0 value.0 m) value.1
  ]
]

-- The map and the encoding byte.
unfoldable pub decode_hash : Bytes → Result CodecError (Table Bytes × ℕ)
decode_hash [] = err truncated_payload
decode_hash (enc ∷ rest) = elim (get_uvarint rest) [
  | none ↦ err bad_count
  | some count ↦ do m ← read_pairs 0 count.0 [] count.1; ok (m, enc)
]

-- A hash whose number of fields and whose strings Go can measure.
abbrev pub IsHash : Table Bytes → Type 0
IsHash m = (length m < 2 ^ 64) × All (λ p. IsShort p.0 × IsShort p.1) m

no_pairs :
    (val : Bytes → Bytes) (i : ℕ) (m : Table Bytes) → read_pairs i 0 m (put_pairs val []) ≡ ok m
unfolding read_pairs
no_pairs val i m = refl

length-sorted_fields : (m : Table Bytes) → length (sorted_fields m) ≡ length m
unfolding sorted_fields
length-sorted_fields m = length-sort_by bytes_lt (keys m) ∙ length-keys m

In-sorted_fields : (m : Table Bytes) (f : Bytes) → In f (sorted_fields m) ↔ In f (keys m)
unfolding sorted_fields
In-sorted_fields m f = In-sort_by bytes_lt f (keys m)

read_pairs-put_pairs :
    (val : Bytes → Bytes) (i : ℕ) (fs : List Bytes) (m : Table Bytes)
    → ((f : Bytes) → In f fs → IsShort f × IsShort (val f))
    → read_pairs i (length fs) m (put_pairs val fs) ≡ ok (put_each val fs m)
unfolding put_each read_pairs put_pairs
read_pairs-put_pairs val i [] m h = no_pairs val i m
read_pairs-put_pairs val i (f ∷ fs) m h =
    let (short, short_value) = h f (inl refl) in
    rw
      (
        read_pairs,
        put_pairs,
        read_str-put_str f (put_str (val f) ++ put_pairs val fs) short,
        read_str-put_str (val f) (put_pairs val fs) short_value,
      )
      (read_pairs-put_pairs val (suc i) fs (put f (val f) m) (λ g m. h g (inr m)))

short_field :
    (m : Table Bytes)
    → All (λ p. IsShort p.0 × IsShort p.1) m
    → (f : Bytes) → In f (keys m)
    → IsShort f
unfolding keys
short_field [] h f k = elim k [ ]
short_field (p ∷ m) h f k = elim k [ inl e ↦ rw e h.0.0 | inr there ↦ short_field m h.1 f there ]

short_value :
    (m : Table Bytes)
    → All (λ p. IsShort p.0 × IsShort p.1) m
    → (f : Bytes) → IsShort (value_at m f)
unfolding value_at get
short_value [] h f = omega arith
short_value (p ∷ m) h f = elim (Bool-cases (bytes_eq p.0 f)) [
  | inl same ↦ rw (value_at, get, same) h.0.1
  | inr other ↦ rw (value_at, get, other) (short_value m h.1 f)
]

value_at-some : (m : Table Bytes) (f v : Bytes) → get f m ≡ some v → value_at m f ≡ v
unfolding value_at
value_at-some m f v h = rw (value_at, h) refl

get_nil : (f : Bytes) → Path (Option Bytes) (get f []) none
unfolding get
get_nil f = refl

decoded_fields :
    (m : Table Bytes) (f : Bytes) → get f (put_each (value_at m) (sorted_fields m) []) ≡ get f m
unfolding sorted_fields
decoded_fields m f =
    let fields = sort_by bytes_lt (keys m) in
    let (from, into) = In-sort_by bytes_lt f (keys m) in
    elim (Option-cases (get f m)) [
      | inl missing ↦
          get-put_each_other (value_at m) f fields [] (λ k. get-none-In-keys f m missing (from k))
          ∙ (get_nil f ∙ sym missing)
      | inr (v, found) ↦
          get-put_each (value_at m) f fields [] (inl (into (get-In-keys f m v found)))
          ∙ (ap some (value_at-some m f v found) ∙ sym found)
    ]

-- `DecodeHash` reads back what `EncodeHash` writes: the same encoding byte, and a map with the same
-- value for every field, and none for every other.
pub decode_hash-encode_hash :
    (m : Table Bytes)
    → IsHash m
    → (t : Table Bytes) × (decode_hash (encode_hash m) ≡ ok (t, hash_encoding m))
      × ((f : Bytes) → get f t ≡ get f m)
unfolding encode_hash decode_hash
decode_hash-encode_hash m (fits, short) = (
  put_each (value_at m) (sorted_fields m) [],
  rw
      (
        decode_hash,
        get_uvarint-put_uvarint (length m) (put_pairs (value_at m) (sorted_fields m)) fits,
        sym (length-sorted_fields m),
        read_pairs-put_pairs (value_at m) 0 (sorted_fields m) []
            (λ f k. (short_field m short f ((In-sorted_fields m f).0 k), short_value m short f)),
      )
      refl,
  decoded_fields m,
)
