-- ===== src/Protocol/RoundTrip.antt =====
-- `Decode` after `Append` (internal/protocol).
mod Parts
use Parts.{
  read_int_minus_one, decode_bulk-payload, decode_sized-payload, decode_array-elems, decode_n-elems,
  decode_map-pairs, decode_verbatim-payload,
}
use native.Mathlib.Numerals.{add-one}
use gedis.Base.{
  Bool, ℕ, zero, suc, ◌+◌, ◌*◌, ◌^◌, ◌≤◌, ◌<◌, ◌≡◌, ◌≢◌, refl, ap, ◌∙◌, false, true, Option, none,
  some, [], ◌∷◌, ◌++◌, Bytes, codes, length, All, ok, ◌>>=◌, if◌then◌else◌, ◌==◌, arith,
}
use gedis.Base.Int.{ℤ, IsInt64, pos, negsuc}
use gedis.Base.Text.Decimal.{format_int}
use gedis.Base.Text.Fields.{cut, cut-append}
use gedis.Protocol.Value.{
  Value, simple_string, error, integer, bulk_string, array, null, boolean, double, big_number,
  bulk_error, verbatim, map, set, attribute, push, hello, Slice, nil_slice, slice, Elems, nil, cons,
  Pairs, end, pair, count, count_pairs,
}
use gedis.Protocol.Encode.{FloatText, inf_bits, sign_bit, is_nan, format_double, append}
use gedis.Protocol.Encode.Wire.{
  line, header, payload, wire, wire_slice, wire_elems, wire_pairs, append-wire,
}
use gedis.Protocol.Reader.{
  max_alloc, value_size, pair_size, Read, read_byte, expect_crlf, read_line, read_int, read_payload,
  make,
}
use gedis.Protocol.Reader.Lines.{
  NoNewline, read_line-line, read_int-format_int, read_payload-append, make_fits,
}
use gedis.Protocol.Decode.{
  is_type_byte, decode_inline, decode_boolean, decode_bulk, decode_sized, decode_verbatim,
  decode_each, decode_each_pair, decode_array, decode_n, decode_map, decode_typed, decode_fuel,
  decode,
}
use gedis.Protocol.Wellformed.{
  FloatLaws, IsWire, AllWire, AllPairsWire, depth, depth_slice, depth_elems, depth_pairs, depth_pos,
  depth-le-length,
}

module _ (float : FloatText) (laws : FloatLaws float) where
  parse-format_double :
      (f : ℕ) → f < 2 ^ 64 → is_nan f ≡ false → float.parse (format_double float f) ≡ some f
  unfolding format_double
  parse-format_double f h n =
      ground (arith, laws.parse_inf, laws.parse_neg_inf, laws.parse_format f h n)

  format_double-NoNewline : (f : ℕ) → NoNewline (format_double float f)
  unfolding format_double
  format_double-NoNewline f = ground (arith, laws.one_line f)

  decode_null :
      (f : ℕ) (rest : Bytes) → decode_fuel float (suc f) (wire float null rest) ≡ ok (null, rest)
  unfolding decode_fuel decode_typed is_type_byte wire read_byte expect_crlf
  decode_null f rest = refl

  decode_bool :
      (b : Bool) (f : ℕ) (rest : Bytes)
      → decode_fuel float (suc f) (wire float (boolean b) rest) ≡ ok (boolean b, rest)
  unfolding decode_fuel decode_typed is_type_byte wire read_byte expect_crlf decode_boolean
  decode_bool true f rest = refl
  decode_bool false f rest = refl

  -- a null bulk string, and a null array
  decode_nil_bulk :
      (f : ℕ) (rest : Bytes)
      → decode_fuel float (suc f) (wire float (bulk_string none) rest) ≡ ok (bulk_string none, rest)
  unfolding decode_fuel decode_typed is_type_byte wire read_byte decode_bulk
  decode_nil_bulk f rest = rw (read_int_minus_one rest)

  decode_nil_array :
      (f : ℕ) (rest : Bytes)
      → decode_fuel float (suc f) (wire float (array nil_slice) rest) ≡ ok (array nil_slice, rest)
  unfolding decode_fuel decode_typed is_type_byte wire read_byte decode_array
  decode_nil_array f rest = rw (read_int_minus_one rest)

  mutual
    unfolding decode_fuel decode_typed is_type_byte wire read_byte IsWire depth decode_each
        decode_each_pair

    decode_wire :
        (v : Value) (f : ℕ) (rest : Bytes)
        → IsWire v
        → depth v ≤ suc f
        → decode_fuel float (suc f) (wire float v rest) ≡ ok (v, rest)
    decode_wire (simple_string s) f rest h d = rw (read_line-line s rest h)
    decode_wire (error s) f rest h d = rw (read_line-line s rest h)
    decode_wire (integer i) f rest h d = rw (read_int-format_int i rest h)
    decode_wire (bulk_string none) f rest h d = decode_nil_bulk f rest
    decode_wire (bulk_string (some b)) f rest h d = decode_bulk-payload b rest h
    decode_wire (array nil_slice) f rest h d = decode_nil_array f rest
    decode_wire (array (slice es)) f rest h d =
        decode_array-elems (decode_fuel float f) es (wire_elems float es rest) rest h.0
          (decode_wire_elems es f rest h.1 (omega arith))
    decode_wire null f rest h d = decode_null f rest
    decode_wire (boolean b) f rest h d = decode_bool b f rest
    decode_wire (double x) f rest h d =
        rw (read_line-line _ rest (format_double-NoNewline x)) (rw (parse-format_double x h.0 h.1))
    decode_wire (big_number s) f rest h d = rw (read_line-line s rest h)
    decode_wire (bulk_error none) f rest h d = elim h [ ]
    decode_wire (bulk_error (some b)) f rest h d = rw (decode_sized-payload b rest h)
    decode_wire (verbatim fmt b) f rest h d = decode_verbatim-payload fmt b rest h.0 h.1
    decode_wire (map ps) f rest h d =
        decode_map-pairs (decode_fuel float f) ps (wire_pairs float ps rest) rest h.0
          (decode_wire_pairs ps f rest h.1 (omega arith)) map
    decode_wire (set nil_slice) f rest h d = elim h [ ]
    decode_wire (set (slice es)) f rest h d =
        decode_n-elems (decode_fuel float f) es (wire_elems float es rest) rest h.0
          (decode_wire_elems es f rest h.1 (omega arith)) set
    decode_wire (attribute ps) f rest h d =
        decode_map-pairs (decode_fuel float f) ps (wire_pairs float ps rest) rest h.0
          (decode_wire_pairs ps f rest h.1 (omega arith)) attribute
    decode_wire (push nil_slice) f rest h d = elim h [ ]
    decode_wire (push (slice es)) f rest h d =
        decode_n-elems (decode_fuel float f) es (wire_elems float es rest) rest h.0
          (decode_wire_elems es f rest h.1 (omega arith)) push
    decode_wire hello f rest h d = elim h [ ]

    decode_wire_elems :
        (es : Elems) (f : ℕ) (rest : Bytes)
        → AllWire es
        → depth_elems es ≤ f
        → decode_each (decode_fuel float f) (count es) (wire_elems float es rest) ≡ ok (es, rest)
    decode_wire_elems nil f rest h d = refl
    decode_wire_elems (cons v vs) zero rest h d = absurd (omega (arith, depth_pos v))
    decode_wire_elems (cons v vs) (suc f) rest h d =
        rw (decode_wire v f (wire_elems float vs rest) h.0 (omega arith))
          (rw (decode_wire_elems vs (suc f) rest h.1 (omega arith)))

    decode_wire_pairs :
        (ps : Pairs) (f : ℕ) (rest : Bytes)
        → AllPairsWire ps
        → depth_pairs ps ≤ f
        → decode_each_pair (decode_fuel float f) (count_pairs ps) (wire_pairs float ps rest)
          ≡ ok (ps, rest)
    decode_wire_pairs end f rest h d = refl
    decode_wire_pairs (pair k v ps) zero rest h d = absurd (omega (arith, depth_pos v))
    decode_wire_pairs (pair k v ps) (suc f) rest h d =
        rw (decode_wire k f (wire float v (wire_pairs float ps rest)) h.0 (omega arith)) (
          rw (decode_wire v f (wire_pairs float ps rest) h.1 (omega arith))
            (rw (decode_wire_pairs ps (suc f) rest h.2 (omega arith))))

  -- Decoding reads back every value that can be carried without loss, whatever follows it.
  pub decode-append :
      (v : Value) (rest : Bytes)
      → IsWire v
      → decode float (append float v [] ++ rest) ≡ ok (v, rest)
  unfolding decode
  decode-append v rest h = rw (append-wire float v [] rest) (
      rw add-one (
        decode_wire v (length (wire float v rest)) rest h
          (omega (arith, depth-le-length float v rest))))
