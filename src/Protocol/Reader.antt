-- ===== src/Protocol/Reader.antt =====
-- internal/protocol/decode.go: the reads from the connection. A `bufio.Reader` is the bytes that are
-- still to come; where they end, a read returns the error `eof`.
pub mod Lines
use gedis.Base.{
  ℕ, zero, suc, ◌+◌, ◌*◌, ◌^◌, ◌&&◌, Option, none, some, [], ◌∷◌, Bytes, Result, ok, err, panic,
  ◌>>=◌, take, drop, leb, ◌==◌, bytes_eq, if◌then◌else◌,
}
use gedis.Base.Int.{ℤ}
use gedis.Base.Text.Decimal.{parse_int}

-- The errors that the decoder returns, by the text that the source gives each.
pub data Error : Type 0 where
  eof missing_crlf expected_crlf bad_integer bad_boolean bad_double : Error
  invalid_length missing_format unsupported_type : Error

abbrev pub Read : Type 0 → Type 0
Read A = Result Error (A × Bytes)

-- The largest allocation of the Go runtime (linux/amd64), beyond which `make` panics.
abbrev pub max_alloc : ℕ
max_alloc = 2 ^ 48

-- The sizes of a `Value` and of a `Pair`.
abbrev pub value_size : ℕ
value_size = 136

abbrev pub pair_size : ℕ
pair_size = 272

-- `make([]T, n)`, or of capacity `n`, for a T of `size` bytes. An `n` that wrapped below 0 is past
-- the bound too, since it stands here as the number before the wrap.
unfoldable pub make {ℓ κ} : {E : Type κ} {A : Type ℓ} → ℕ → ℕ → Result E A → Result E A
make size n rest = if leb (size * n) max_alloc then rest else panic

unfoldable pub read_byte : Bytes → Read ℕ
read_byte [] = err eof
read_byte (c ∷ rest) = ok (c, rest)

unfoldable pub expect_crlf : Bytes → Read (Unit {0})
expect_crlf r = do
  (b1, r1) ← read_byte r
  (b2, r2) ← read_byte r1
  if b1 == b'\r' && b2 == b'\n' then ok (tt, r2) else err expected_crlf

-- `r.ReadString('\n')`: up to the first newline, which is part of the line
unfoldable pub read_string : Bytes → Read Bytes
read_string [] = err eof
read_string (c ∷ rest) =
    let more = (do (line, left) ← read_string rest; ok (c ∷ line, left)) in
    if c == b'\n' then ok (c ∷ [], rest) else more

-- `line[:len(line)-2]`, for a line that ends in a newline after a carriage return
unfoldable pub strip_crlf : Bytes → Result Error Bytes
strip_crlf [] = err missing_crlf
strip_crlf (c ∷ []) = err missing_crlf
strip_crlf (c ∷ d ∷ []) = if c == b'\r' then ok [] else err missing_crlf
strip_crlf (c ∷ d ∷ e ∷ cs) = do line ← strip_crlf (d ∷ e ∷ cs); ok (c ∷ line)

unfoldable pub read_line : Bytes → Read Bytes
read_line r = do (line, rest) ← read_string r; s ← strip_crlf line; ok (s, rest)

abbrev pub or_bad {ℓ} : {A : Type ℓ} → Error → Option A → Result Error A
or_bad e none = err e
or_bad e (some a) = ok a

unfoldable pub read_int : Bytes → Read ℤ
read_int r = do (s, rest) ← read_line r; n ← or_bad bad_integer (parse_int s); ok (n, rest)

-- `readFull` into a buffer of `n` bytes
unfoldable pub read_full : ℕ → Bytes → Read Bytes
read_full zero r = ok ([], r)
read_full (suc n) [] = err eof
read_full (suc n) (c ∷ rest) = do (buf, left) ← read_full n rest; ok (c ∷ buf, left)

-- the payload of `decodeBulk` and `decodeSized`: `n` bytes and CRLF
unfoldable pub read_payload : ℕ → Bytes → Read Bytes
read_payload n r = make 1 (n + 2) do
  (buf, rest) ← read_full (n + 2) r
  if bytes_eq (drop n buf) (b'\r' ∷ b'\n' ∷ []) then ok (take n buf, rest) else err missing_crlf
