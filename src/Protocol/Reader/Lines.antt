-- ===== src/Protocol/Reader/Lines.antt =====
-- The reads of internal/protocol/decode.go on what internal/protocol/encode.go writes.
use gedis.Base.{
  ℕ, ◌+◌, ◌*◌, ◌≡◌, ◌≢◌, refl, ◌≤◌, ◌<◌, [], ◌∷◌, ◌++◌, Bytes, All, Result, ok, panic, length,
  length-append, take-append, drop-append, arith, append_assoc,
}
use gedis.Base.Int.{ℤ, IsInt64}
use gedis.Base.Text.Decimal.{format_int, parse_int-format_int, IsNumeric, format_int-IsNumeric}
use gedis.Protocol.Reader.{
  max_alloc, make, read_string, strip_crlf, read_line, read_int, read_full, read_payload,
}

abbrev pub NoNewline : Bytes → Type 0
NoNewline = All (λ c. c ≢ b'\n')

read_string-line :
    (s rest : Bytes)
    → NoNewline s
    → read_string (s ++ (b'\r' ∷ b'\n' ∷ rest)) ≡ ok (s ++ (b'\r' ∷ b'\n' ∷ []), rest)
unfolding read_string
read_string-line [] rest h = refl
read_string-line (c ∷ s) rest (hc, h) = ground (arith, read_string-line s rest h)

strip_crlf-line : (s : Bytes) → strip_crlf (s ++ (b'\r' ∷ b'\n' ∷ [])) ≡ ok s
unfolding strip_crlf
strip_crlf-line [] = refl
strip_crlf-line (c ∷ []) = refl
strip_crlf-line (c ∷ d ∷ []) = refl
strip_crlf-line (c ∷ d ∷ e ∷ s) = rw (strip_crlf-line (d ∷ e ∷ s))

pub read_line-line :
    (s rest : Bytes) → NoNewline s → read_line (s ++ (b'\r' ∷ b'\n' ∷ rest)) ≡ ok (s, rest)
unfolding read_line
read_line-line s rest h = rw (read_string-line s rest h) (rw (strip_crlf-line s))

numeric-NoNewline : (s : Bytes) → All IsNumeric s → NoNewline s
numeric-NoNewline [] h = tt
numeric-NoNewline (c ∷ s) (hc, h) = (omega arith, numeric-NoNewline s h)

pub read_int-format_int :
    (a : ℤ) (rest : Bytes)
    → IsInt64 a
    → read_int (format_int a ++ (b'\r' ∷ b'\n' ∷ rest)) ≡ ok (a, rest)
unfolding read_int
read_int-format_int a rest h =
    rw (read_line-line (format_int a) rest (numeric-NoNewline _ (format_int-IsNumeric a)))
      (rw (parse_int-format_int a h))

read_full-append : (b rest : Bytes) → read_full (length b) (b ++ rest) ≡ ok (b, rest)
unfolding read_full
read_full-append [] rest = refl
read_full-append (c ∷ b) rest = rw (read_full-append b rest)

read_full_payload :
    (b rest : Bytes)
    → read_full (length b + 2) (b ++ (b'\r' ∷ b'\n' ∷ rest)) ≡ ok (b ++ (b'\r' ∷ b'\n' ∷ []), rest)
read_full_payload b rest =
    let both : length b + 2 ≡ length (b ++ (b'\r' ∷ b'\n' ∷ [])) =
      omega (arith, length-append b (b'\r' ∷ b'\n' ∷ [])) in
    rw (both, ← append_assoc b (b'\r' ∷ b'\n' ∷ []) rest)
      (read_full-append (b ++ (b'\r' ∷ b'\n' ∷ [])) rest)

pub make_fits {ℓ κ} :
    {E : Type κ} {A : Type ℓ} (size n : ℕ) (rest : Result E A)
    → size * n ≤ max_alloc
    → make size n rest ≡ rest
unfolding make
make_fits size n rest h = ground arith

pub make_too_large {ℓ κ} :
    {E : Type κ} {A : Type ℓ} (size n : ℕ) (rest : Result E A)
    → max_alloc < size * n
    → make size n rest ≡ panic
unfolding make
make_too_large size n rest h = ground arith

pub read_payload-append :
    (b rest : Bytes)
    → length b + 2 ≤ max_alloc
    → read_payload (length b) (b ++ (b'\r' ∷ b'\n' ∷ rest)) ≡ ok (b, rest)
unfolding read_payload
read_payload-append b rest h =
    rw (make_fits 1 (length b + 2) _ (omega arith))
      (rw (read_full_payload b rest) (rw (drop-append, take-append)))
