-- ===== src/Datastruct/Entry.antt =====
-- The stored unit of internal/datastruct/codec.go: a type byte, the expiry and the payload.
use gedis.Base.{
  ℕ, ◌^◌, ◌<◌, ◌≡◌, refl, sym, [], ◌∷◌, ◌++◌, Bytes, arith, length, take, drop, take-append,
  drop-append, length-append, ltb, lt→ltb, le→ltb, false, if◌then◌else◌, Result, ok, err, codes,
}
use gedis.Base.Int.{ℤ, pos, negsuc, IsInt64, to_bits, of_bits, of_bits-to_bits}
use gedis.Datastruct.Uvarint.{put_big, get_big, get_big-put_big, length-put_big}

-- The error values of the package, without their texts.
pub data CodecError : Type 0 where
  truncated_entry : ℕ → CodecError
  truncated_payload : CodecError
  bad_count : CodecError
  truncated_element : ℕ → CodecError
  truncated_value : ℕ → CodecError

pub record Entry : Type 0 where
  pub kind : ℕ
  pub expiry : ℤ
  pub payload : Bytes

abbrev pub type_string : ℕ
type_string = b's'

abbrev pub type_hash : ℕ
type_hash = b'h'

abbrev pub type_list : ℕ
type_list = b'l'

abbrev pub header_len : ℕ
header_len = 9

unfoldable pub encode : ℕ → ℤ → Bytes → Bytes
encode kind expiry payload = kind ∷ (put_big 8 (to_bits expiry) ++ payload)

unfoldable pub decode : Bytes → Result CodecError Entry
decode [] = err (truncated_entry 0)
decode (kind ∷ rest) =
    if ltb (length (kind ∷ rest)) header_len
    then err (truncated_entry (length (kind ∷ rest)))
    else ok
        (record { kind = kind; expiry = of_bits (get_big 0 (take 8 rest)); payload = drop 8 rest })

-- `StringKey`, `ListKey` and `HashKey`.
unfoldable pub string_key : Bytes → Bytes
string_key key = codes "s:" ++ key

unfoldable pub hash_key : Bytes → Bytes
hash_key key = codes "h:" ++ key

unfoldable pub hash_exp_key : Bytes → Bytes
hash_exp_key key = codes "x:" ++ key

unfoldable pub list_key : Bytes → Bytes
list_key key = codes "l:" ++ key

take_front : (n : ℕ) (xs ys : Bytes) → length xs ≡ n → take n (xs ++ ys) ≡ xs
take_front n xs ys e = rw (sym e) (take-append xs ys)

drop_front : (n : ℕ) (xs ys : Bytes) → length xs ≡ n → drop n (xs ++ ys) ≡ ys
drop_front n xs ys e = rw (sym e) (drop-append xs ys)

to_bits_bound : (a : ℤ) → IsInt64 a → to_bits a < 2 ^ 64
to_bits_bound (pos n) h = ground arith
to_bits_bound (negsuc n) h = ground arith

long_enough :
    (k : ℕ) (xs ys : Bytes) → length xs ≡ 8 → ltb (length (k ∷ (xs ++ ys))) header_len ≡ false
long_enough k xs ys e =
    le→ltb (length (k ∷ (xs ++ ys))) header_len (omega (arith, length-append xs ys, e))

-- `Decode` reads back what `Encode` writes, for any type byte, int64 expiry and payload.
pub decode-encode :
    (kind : ℕ) (expiry : ℤ) (payload : Bytes)
    → IsInt64 expiry
    → decode (encode kind expiry payload)
      ≡ ok (record { kind = kind; expiry = expiry; payload = payload })
unfolding encode decode
decode-encode kind expiry payload h =
    let eight = length-put_big 8 (to_bits expiry) in
    rw
      (
        long_enough kind (put_big 8 (to_bits expiry)) payload eight,
        take_front 8 (put_big 8 (to_bits expiry)) payload eight,
        drop_front 8 (put_big 8 (to_bits expiry)) payload eight,
        get_big-put_big (to_bits expiry) (to_bits_bound expiry h),
        of_bits-to_bits expiry h,
      )
      refl

-- A stored unit of fewer than nine bytes is an error.
pub decode_short :
    (raw : Bytes) → length raw < header_len → decode raw ≡ err (truncated_entry (length raw))
unfolding decode
decode_short [] h = refl
decode_short (k ∷ rest) h = rw (lt→ltb (length (k ∷ rest)) header_len h) refl
