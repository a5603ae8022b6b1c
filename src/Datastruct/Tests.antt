-- ===== src/Datastruct/Tests.antt =====
-- Concrete runs of the encodings of internal/datastruct, and their theorems at concrete inputs.
use gedis.Base.{
  ◌^◌, ◌≡◌, ◌↔◌, refl, some, none, List, [], ◌∷◌, ◌++◌, Bytes, codes, All, In, Table, get, ok, err,
  panic, arith, inl, inr,
}
use gedis.Base.Int.{pos, negsuc}
use gedis.Protocol.Reader.{max_alloc}
use gedis.Datastruct.Uvarint.{put_uvarint, get_uvarint, groups, read_groups, put_big}
use gedis.Datastruct.Entry.{
  truncated_entry, truncated_element, encode, decode, type_list, decode-encode,
}
use gedis.Datastruct.Strings.{put_str, put_strs, read_str, take_str, IsShort}
use gedis.Datastruct.ListCodec.{
  list_encoding, encode_list, decode_list, read_elems, any_longer, decode_list-encode_list,
  decode_list_panics,
}
use gedis.Datastruct.HashCodec.{hash_encoding, encode_hash, decode_hash, decode_hash-encode_hash}
use gedis.Datastruct.SetCodec.{
  Members, sorted_members, set_encoding, encode_set, decode_set, decode_set-encode_set,
}

-- 300 is two groups.
put_uvarint_300 : put_uvarint 300 ≡ 172 ∷ 2 ∷ []
unfolding put_uvarint groups
put_uvarint_300 = refl

get_uvarint_300 : get_uvarint (172 ∷ 2 ∷ 7 ∷ []) ≡ some (300, 7 ∷ [])
unfolding get_uvarint read_groups
get_uvarint_300 = refl

-- A number that goes on past its bytes is none.
get_uvarint_open : get_uvarint (172 ∷ []) ≡ none
unfolding get_uvarint read_groups
get_uvarint_open = refl

encode_forever : encode type_list (pos 0) (7 ∷ []) ≡ b'l' ∷ 0 ∷ 0 ∷ 0 ∷ 0 ∷ 0 ∷ 0 ∷ 0 ∷ 0 ∷ 7 ∷ []
unfolding encode put_big
encode_forever = refl

decode_empty : decode [] ≡ err (truncated_entry 0)
unfolding decode
decode_empty = refl

abbrev two : List Bytes
two = codes "a" ∷ codes "bc" ∷ []

encode_list-two : encode_list two ≡ 0 ∷ 2 ∷ 1 ∷ b'a' ∷ 2 ∷ b'b' ∷ b'c' ∷ []
unfolding encode_list put_uvarint groups put_strs put_str list_encoding any_longer
encode_list-two = refl

-- A payload that is cut off names the element.
decode_list_cut : decode_list (0 ∷ 2 ∷ 1 ∷ b'a' ∷ 2 ∷ b'b' ∷ []) ≡ err (truncated_element 1)
unfolding decode_list get_uvarint read_groups read_elems read_str take_str
    gedis.Protocol.Reader.make
decode_list_cut = refl

abbrev two_short : All IsShort two
two_short = (omega arith, (omega arith, tt))

decode-encode_example :
    decode (encode type_list (negsuc 4) (7 ∷ []))
    ≡ ok (record { kind = type_list; expiry = negsuc 4; payload = 7 ∷ [] })
decode-encode_example = decode-encode type_list (negsuc 4) (7 ∷ []) (omega arith, omega arith)

decode_list-encode_list_example : decode_list (encode_list two) ≡ ok two
decode_list-encode_list_example = decode_list-encode_list two (omega arith, two_short)

decode_list_panics_example : decode_list (0 ∷ (put_uvarint (2 ^ 50) ++ [])) ≡ panic
decode_list_panics_example = decode_list_panics 0 (2 ^ 50) [] (omega arith) (omega arith)

abbrev fruits : Table Bytes
fruits = (codes "b", codes "pear") ∷ (codes "a", []) ∷ []

decode_hash-encode_hash_example :
    (t : Table Bytes) × (decode_hash (encode_hash fruits) ≡ ok (t, hash_encoding fruits))
    × ((f : Bytes) → get f t ≡ get f fruits)
decode_hash-encode_hash_example =
    decode_hash-encode_hash fruits
      (omega arith, ((omega arith, omega arith), ((omega arith, omega arith), tt)))

short_member : (m : Bytes) → In m two → IsShort m
short_member m (inl e) = rw e (omega arith)
short_member m (inr (inl e)) = rw e (omega arith)
short_member m (inr (inr h)) = elim h [ ]

decode_set-encode_set_example :
    (set : Members) × (decode_set (encode_set two) ≡ ok (set, set_encoding (sorted_members two)))
    × ((m : Bytes) → (get m set ≡ some tt) ↔ In m two)
decode_set-encode_set_example = decode_set-encode_set two (omega arith, short_member)
