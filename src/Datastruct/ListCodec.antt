-- ===== src/Datastruct/ListCodec.antt =====
-- The payload of a list: internal/datastruct/list.go.
use gedis.Base.{
  ℕ, zero, suc, ◌*◌, ◌^◌, ◌≤◌, ◌<◌, ◌≡◌, refl, Bool, true, false, none, some, List, [], ◌∷◌, ◌++◌,
  Bytes, arith, length, ltb, if◌then◌else◌, Result, ok, err, panic, out_of_fuel, All, ◌>>=◌,
}
use gedis.Protocol.Reader.{make, max_alloc}
use gedis.Protocol.Reader.Lines.{make_fits, make_too_large}
use gedis.Datastruct.Uvarint.{put_uvarint, get_uvarint, get_uvarint-put_uvarint}
use gedis.Datastruct.Entry.{CodecError, truncated_payload, bad_count, truncated_element}
use gedis.Datastruct.Strings.{put_strs, read_str, read_str-put_str, IsShort}

abbrev pub max_ziplist_entries : ℕ
max_ziplist_entries = 128

abbrev pub max_ziplist_value : ℕ
max_ziplist_value = 64

unfoldable pub any_longer : ℕ → List Bytes → Bool
any_longer n [] = false
any_longer n (s ∷ ss) = let rest = any_longer n ss in if ltb n (length s) then true else rest

-- 0 is `ListEncodingZiplist`, 1 `ListEncodingQuicklist`.
unfoldable pub list_encoding : List Bytes → ℕ
list_encoding elems =
    if ltb max_ziplist_entries (length elems)
    then 1
    else if any_longer max_ziplist_value elems
    then 1
    else 0

unfoldable pub encode_list : List Bytes → Bytes
encode_list elems = list_encoding elems ∷ (put_uvarint (length elems) ++ put_strs elems)

-- The loop of `DecodeList`, with `left` elements to read after the first `i`.
unfoldable pub read_elems : ℕ → ℕ → Bytes → Result CodecError (List Bytes)
read_elems i zero rest = ok []
read_elems i (suc left) rest = elim (read_str rest) [
  | none ↦ err (truncated_element i)
  | some read ↦ elim (read_elems (suc i) left read.1) [
    | ok elems ↦ ok (read.0 ∷ elems)
    | err e ↦ err e
    | panic ↦ panic
    | out_of_fuel ↦ out_of_fuel
  ]
]

-- The size of a Go string's header, for `make([]string, 0, n)`.
abbrev pub string_size : ℕ
string_size = 16

unfoldable pub decode_list : Bytes → Result CodecError (List Bytes)
decode_list [] = err truncated_payload
decode_list (enc ∷ rest) = elim (get_uvarint rest) [
  | none ↦ err bad_count
  | some count ↦ make string_size count.0 (read_elems 0 count.0 count.1)
]

-- What `DecodeList` needs of a list to take it back: it fits an allocation, each string an int.
abbrev pub IsStorable : List Bytes → Type 0
IsStorable elems = (string_size * length elems ≤ max_alloc) × All IsShort elems

read_elems-put_strs :
    (i : ℕ) (elems : List Bytes)
    → All IsShort elems
    → read_elems i (length elems) (put_strs elems) ≡ ok elems
unfolding read_elems put_strs
read_elems-put_strs i [] h = refl
read_elems-put_strs i (s ∷ ss) (hs, hss) =
    rw
      (
        put_strs,
        read_elems,
        read_str-put_str s (put_strs ss) hs,
        read_elems-put_strs (suc i) ss hss,
      )
      refl

-- `DecodeList` reads back the elements that `EncodeList` writes, in order.
pub decode_list-encode_list :
    (elems : List Bytes) → IsStorable elems → decode_list (encode_list elems) ≡ ok elems
unfolding decode_list encode_list
decode_list-encode_list elems (fits, short) =
    rw
      (
        decode_list,
        get_uvarint-put_uvarint (length elems) (put_strs elems) (omega arith),
        make_fits string_size (length elems) (read_elems 0 (length elems) (put_strs elems)) fits,
      )
      (read_elems-put_strs 0 elems short)

-- `ListPushHead` and `ListPushTail`: a payload that does not decode counts as empty. A panic of
-- `DecodeList` passes on.
unfoldable pub elems_or_empty : Result CodecError (List Bytes) → Result CodecError (List Bytes)
elems_or_empty (err e) = ok []
elems_or_empty r = r

unfoldable pub list_push_head : Bytes → Bytes → Result CodecError Bytes
list_push_head raw elem = do
  elems ← elems_or_empty (decode_list raw)
  ok (encode_list (elem ∷ elems))

unfoldable pub list_push_tail : Bytes → Bytes → Result CodecError Bytes
list_push_tail raw elem = do
  elems ← elems_or_empty (decode_list raw)
  ok (encode_list (elems ++ (elem ∷ [])))

-- Pushing to an encoded list gives the encoding of the longer list: nothing that is there is lost.
pub list_push_ends :
    (elem : Bytes) (elems : List Bytes)
    → IsStorable elems
    → (list_push_head (encode_list elems) elem ≡ ok (encode_list (elem ∷ elems)))
      × (list_push_tail (encode_list elems) elem ≡ ok (encode_list (elems ++ (elem ∷ []))))
unfolding list_push_head list_push_tail elems_or_empty
list_push_ends elem elems h =
    (rw (decode_list-encode_list elems h) refl, rw (decode_list-encode_list elems h) refl)

-- A count past the largest allocation makes `DecodeList` panic, whatever follows.
pub decode_list_panics :
    (enc n : ℕ) (rest : Bytes)
    → n < 2 ^ 64
    → max_alloc < string_size * n
    → decode_list (enc ∷ (put_uvarint n ++ rest)) ≡ panic
unfolding decode_list
decode_list_panics enc n rest h big =
    rw (decode_list, get_uvarint-put_uvarint n rest h) (make_too_large string_size n _ big)
