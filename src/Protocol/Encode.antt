-- ===== src/Protocol/Encode.antt =====
-- internal/protocol/encode.go: `Value.Append`, which writes a value behind `dst`.
pub mod Wire
use Prim.Native.Nat.{ℕ, ◌+◌, ◌/◌, ◌%◌, ◌^◌}
use gedis.Base.{
  Bool, not, ◌&&◌, Option, none, some, [], ◌∷◌, ◌++◌, Bytes, codes, length, ◌==◌, if◌then◌else◌,
}
use gedis.Base.Int.{pos}
use gedis.Base.Text.Decimal.{format_int}
use gedis.Protocol.Value.{
  Value, simple_string, error, integer, bulk_string, array, null, boolean, double, big_number,
  bulk_error, verbatim, map, set, attribute, push, hello, Slice, nil_slice, slice, Elems, nil, cons,
  Pairs, end, pair, count, count_pairs,
}

-- The strconv functions on float64 bits: `FormatFloat(f, 'g', -1, 64)` and `ParseFloat(s, 64)`.
pub record FloatText : Type 0 where
  pub format : ℕ → Bytes
  pub parse : Bytes → Option ℕ

abbrev pub crlf : Bytes
crlf = b'\r' ∷ b'\n' ∷ []

abbrev pub inf_bits : ℕ
inf_bits = 0x7ff0_0000_0000_0000

abbrev pub sign_bit : ℕ
sign_bit = 0x8000_0000_0000_0000

-- `math.IsNaN` on the bits: the exponent is all ones and the mantissa is not zero.
unfoldable pub is_nan : ℕ → Bool
is_nan f = (f / 2 ^ 52 % 2 ^ 11 == 2047) && not (f % 2 ^ 52 == 0)

unfoldable pub format_double : FloatText → ℕ → Bytes
unfolding is_nan
format_double float f =
    if f == inf_bits
    then codes "inf"
    else if f == sign_bit + inf_bits
    then codes "-inf"
    else if is_nan f
    then codes "nan"
    else float.format f

unfoldable pub append_line : Bytes → ℕ → Bytes → Bytes
append_line dst typ s = ((dst ++ (typ ∷ [])) ++ s) ++ crlf

unfoldable pub append_bulk : Bytes → ℕ → Option Bytes → Bytes
append_bulk dst typ none = dst ++ (typ ∷ b'-' ∷ b'1' ∷ crlf)
append_bulk dst typ (some b) =
    (((dst ++ (typ ∷ [])) ++ format_int (pos (length b))) ++ crlf) ++ (b ++ crlf)

-- `dst = append(dst, typ)`, the length, and CRLF: how `appendElems` and `appendPairs` begin
unfoldable pub append_header : Bytes → ℕ → ℕ → Bytes
append_header dst typ n = ((dst ++ (typ ∷ [])) ++ format_int (pos n)) ++ crlf

unfoldable pub append_verbatim : Bytes → Bytes → Bytes → Bytes
append_verbatim dst fmt bulk =
    let body = fmt ++ (b':' ∷ bulk) in
    (((dst ++ (b'=' ∷ [])) ++ format_int (pos (length body))) ++ crlf) ++ (body ++ crlf)

module _ (float : FloatText) where
  unfoldable mutual
    pub append : Value → Bytes → Bytes
    append (simple_string s) dst = append_line dst b'+' s
    append (error s) dst = append_line dst b'-' s
    append (integer i) dst = append_line dst b':' (format_int i)
    append (bulk_string b) dst = append_bulk dst b'$' b
    append (array es) dst = append_elems b'*' es dst
    append null dst = dst ++ codes "_\r\n"
    append (boolean b) dst = if b then dst ++ codes "#t\r\n" else dst ++ codes "#f\r\n"
    append (double f) dst = append_line dst b',' (format_double float f)
    append (big_number s) dst = append_line dst b'(' s
    append (bulk_error b) dst = append_bulk dst b'!' b
    append (verbatim fmt bulk) dst = append_verbatim dst fmt bulk
    append (map ps) dst = append_each_pair ps (append_header dst b'%' (count_pairs ps))
    append (set es) dst = append_elems b'~' es dst
    append (attribute ps) dst = append_each_pair ps (append_header dst b'|' (count_pairs ps))
    append (push es) dst = append_elems b'>' es dst
    append hello dst = append_line dst b'-' (codes "ERR unknown kind")

    pub append_elems : ℕ → Slice → Bytes → Bytes
    append_elems typ nil_slice dst = dst ++ (typ ∷ b'-' ∷ b'1' ∷ crlf)
    append_elems typ (slice es) dst = append_each es (append_header dst typ (count es))

    -- `for _, e := range elems`
    pub append_each : Elems → Bytes → Bytes
    append_each nil dst = dst
    append_each (cons v vs) dst = append_each vs (append v dst)

    -- `for _, p := range pairs`
    pub append_each_pair : Pairs → Bytes → Bytes
    append_each_pair end dst = dst
    append_each_pair (pair k v ps) dst = append_each_pair ps (append v (append k dst))
