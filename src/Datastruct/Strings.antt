-- ===== src/Datastruct/Strings.antt =====
-- The strings that internal/datastruct writes with their lengths: `readListStr`, `readHashStr`,
-- `readSetStr` and the loops that write them.
use gedis.Base.{
  ℕ, ◌^◌, ◌<◌, ◌≡◌, refl, Option, none, some, List, [], ◌∷◌, ◌++◌, Bytes, arith, length, take, drop,
  take-append, drop-append, length-append, ltb, le→ltb, if◌then◌else◌, append_assoc,
}
use gedis.Base.Options.{◌>>=◌}
use gedis.Datastruct.Uvarint.{put_uvarint, get_uvarint, get_uvarint-put_uvarint}

-- A length and the bytes.
unfoldable pub put_str : Bytes → Bytes
put_str s = put_uvarint (length s) ++ s

unfoldable pub put_strs : List Bytes → Bytes
put_strs [] = []
put_strs (s ∷ ss) = put_str s ++ put_strs ss

unfoldable pub take_str : ℕ × Bytes → Option (Bytes × Bytes)
take_str (n, b) = if ltb (length b) n then none else some (take n b, drop n b)

unfoldable pub read_str : Bytes → Option (Bytes × Bytes)
read_str b = get_uvarint b >>= take_str

-- A string that fits Go's address space.
abbrev pub IsShort : Bytes → Type 0
IsShort s = length s < 2 ^ 64

pub read_str-put_str : (s rest : Bytes) → IsShort s → read_str (put_str s ++ rest) ≡ some (s, rest)
unfolding read_str put_str take_str
read_str-put_str s rest h =
    rw
      (
        append_assoc (put_uvarint (length s)) s rest,
        get_uvarint-put_uvarint (length s) (s ++ rest) h,
        le→ltb (length (s ++ rest)) (length s) (omega (arith, length-append s rest)),
        take-append s rest,
        drop-append s rest,
      )
      refl
