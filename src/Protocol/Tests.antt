-- ===== src/Protocol/Tests.antt =====
-- Concrete runs of the codec of internal/protocol, and its theorems at concrete inputs.
use gedis.Base.{
  ℕ, ◌+◌, ◌^◌, ◌<◌, ◌≡◌, ◌⊎◌, ◌↔◌, refl, Option, some, [], ◌∷◌, ◌++◌, Bytes, codes, length, All, ok,
  err, panic, bytes_eq, if◌then◌else◌, arith,
}
use gedis.Base.Int.{negsuc}
use gedis.Base.Text.Decimal.{
  format_int, format_uint, parse_uint, parse_uint-format_uint, IsDigit, format_uint-IsDigit,
}
use gedis.Protocol.Value.{
  Value, simple_string, integer, double, map, nil, cons, end, pair, bulk_of, array_of,
}
use gedis.Protocol.Encode.{FloatText, inf_bits, sign_bit, is_nan, append}
use gedis.Protocol.Encode.Wire.{header, wire, append-wire}
use gedis.Protocol.Reader.{Error}
use gedis.Protocol.Reader.Lines.{NoNewline}
use gedis.Protocol.Decode.{decode}
use gedis.Protocol.Wellformed.{FloatLaws, IsWire}
use gedis.Protocol.RoundTrip.{decode-append}
use gedis.Protocol.Totality.{decode_outcome}
use gedis.Protocol.Panics.{decode-panic_container, decode-panic_bulk}
use gedis.Protocol.Hello.{is_bulk, parse_hello}
use gedis.Protocol.Hello.Accepts.{AsksFor, parse_hello_iff}

-- A float as the decimal text of its bits: a stand-in for strconv that meets the laws.
abbrev parse_float_bits : Bytes → Option ℕ
parse_float_bits s =
    if bytes_eq s (codes "inf")
    then some inf_bits
    else if bytes_eq s (codes "-inf")
    then some (sign_bit + inf_bits)
    else parse_uint s

abbrev bits_text : FloatText
bits_text = record { format = format_uint; parse = parse_float_bits }

digits-NoNewline : (s : Bytes) → All IsDigit s → NoNewline s
digits-NoNewline [] h = tt
digits-NoNewline (c ∷ s) (hc, h) = (omega arith, digits-NoNewline s h)

parse_bits_digits : (s : Bytes) → All IsDigit s → parse_float_bits s ≡ parse_uint s
parse_bits_digits [] h = refl
parse_bits_digits (c ∷ s) (hc, h) = ground arith

bits_text_laws : FloatLaws bits_text
bits_text_laws = record {
  parse_inf = refl;
  parse_neg_inf = refl;
  parse_format = λ f h n p q.
      rw (parse_bits_digits (format_uint f) (format_uint-IsDigit f)) (parse_uint-format_uint f h);
  one_line = λ f. digits-NoNewline (format_uint f) (format_uint-IsDigit f);
}

abbrev reply : Value
reply = array_of (
    cons (bulk_of (codes "hi")) (
      cons (integer (negsuc 4))
        (cons (map (pair (simple_string (codes "k")) (double inf_bits) end)) nil)))

reply_text : append bits_text reply [] ≡ codes "*3\r\n$2\r\nhi\r\n:-5\r\n%1\r\n+k\r\n,inf\r\n"
unfolding append gedis.Protocol.Encode.append_header gedis.Protocol.Encode.append_bulk
    gedis.Protocol.Encode.append_line gedis.Protocol.Encode.format_double format_int
reply_text = refl

decode-append_example :
    decode bits_text (append bits_text reply [] ++ codes "+next\r\n")
    ≡ ok (reply, codes "+next\r\n")
unfolding IsWire is_nan
decode-append_example = decode-append bits_text bits_text_laws reply (codes "+next\r\n") (
  omega arith,
  (omega arith, (omega arith, ((omega arith, (omega arith, (omega arith, refl), tt)), tt))),
)

append-wire_example :
    append bits_text reply (codes "x") ++ [] ≡ codes "x" ++ wire bits_text reply []
append-wire_example = append-wire bits_text reply (codes "x") []

decode_outcome_example :
    ((p : Value × Bytes) × (decode bits_text (codes ":1x\r\n") ≡ ok p)
      × (length p.1 < length (codes ":1x\r\n")))
    ⊎ ((e : Error) × (decode bits_text (codes ":1x\r\n") ≡ err e))
    ⊎ (decode bits_text (codes ":1x\r\n") ≡ panic)
decode_outcome_example = decode_outcome bits_text (codes ":1x\r\n")

decode-panic_container_example :
    (decode bits_text (header b'*' (2 ^ 62) []) ≡ panic)
    × (decode bits_text (header b'~' (2 ^ 62) []) ≡ panic)
    × (decode bits_text (header b'%' (2 ^ 62) []) ≡ panic)
decode-panic_container_example =
    decode-panic_container bits_text (2 ^ 62) [] (omega arith) (omega arith)

decode-panic_bulk_example : decode bits_text (header b'$' (2 ^ 62) []) ≡ panic
decode-panic_bulk_example = decode-panic_bulk bits_text (2 ^ 62) [] (omega arith) (omega arith)

abbrev hello_3 : Value
hello_3 = array_of (cons (bulk_of (codes "HeLLo")) (cons (bulk_of (codes "3")) nil))

parse_hello_iff_example : (parse_hello hello_3 ≡ ok 3) ↔ AsksFor hello_3 3
parse_hello_iff_example = parse_hello_iff hello_3 3

hello_3_version : parse_hello hello_3 ≡ ok 3
unfolding parse_hello is_bulk
hello_3_version = refl
