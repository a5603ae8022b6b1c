-- ===== src/Protocol/Totality/Decoders.antt =====
-- The decoders of internal/protocol/decode.go end, and none leaves more than it was given.
use gedis.Protocol.Totality.Reads.{
  Leaves, Leaves-bind, Leaves-bind_pure, Leaves-mono, Leaves-if, or_bad-ne-out_of_fuel,
  read_byte-Leaves, expect_crlf-Leaves, read_line-Leaves, read_line_takes, read_int-Leaves,
  make-Leaves, read_payload-Leaves,
}
use gedis.Base.{ℕ, zero, suc, ◌-◌, ◌≤◌, ◌<◌, Bytes, ◌>>=◌, length, ◌==◌, arith}
use gedis.Base.Int.{ℤ, pos, negsuc}
use gedis.Base.Text.Fields.{cut}
use gedis.Protocol.Value.{
  Value, simple_string, error, array, big_number, set, push, map, attribute, Slice, Pairs,
}
use gedis.Protocol.Encode.{FloatText}
use gedis.Protocol.Reader.{
  Read, read_byte, read_line, read_int, or_bad, value_size, pair_size, expect_crlf,
}
use gedis.Protocol.Decode.{
  decode_inline, decode_boolean, bulk_body, decode_bulk, sized_body, decode_sized, decode_verbatim,
  decode_each, decode_each_pair, elems_of, array_body, decode_array, n_body, decode_n, map_body,
  decode_map, text_value, decode_double, decode_typed,
}

text_value-Leaves : (kind : Bytes → Value) (r : Bytes) → Leaves (length r) (text_value kind r)
text_value-Leaves kind r =
    Leaves-bind (length r) (length r) (read_line r) _ (read_line-Leaves r) λ s rest h. h

pub decode_inline-Leaves : (r : Bytes) → Leaves (length r - 1) (decode_inline r)
unfolding decode_inline
decode_inline-Leaves r =
    Leaves-bind (length r - 1) (length r - 1) (read_line r) _ (read_line_takes r) λ s rest h. h

decode_boolean-Leaves : (r : Bytes) → Leaves (length r) (decode_boolean r)
unfolding decode_boolean
decode_boolean-Leaves r =
    Leaves-bind (length r - 1) (length r) (read_byte r) _ (read_byte-Leaves r) λ b r1 h1.
      Leaves-bind (length r1) (length r) (expect_crlf r1) _ (expect_crlf-Leaves r1) λ u r2 h2.
        Leaves-if (length r) (b == b't') _ _ (omega arith)
          (Leaves-if (length r) (b == b'f') _ _ (omega arith) tt)

bulk_body-Leaves : (n : ℤ) (r : Bytes) → Leaves (length r) (bulk_body n r)
bulk_body-Leaves (pos n) r =
    Leaves-bind (length r) (length r) _ _ (read_payload-Leaves n r) λ b rest h. h
bulk_body-Leaves (negsuc zero) r = omega arith
bulk_body-Leaves (negsuc (suc k)) r = tt

sized_body-Leaves : (n : ℤ) (r : Bytes) → Leaves (length r) (sized_body n r)
sized_body-Leaves (pos n) r = read_payload-Leaves n r
sized_body-Leaves (negsuc k) r = tt

-- A decoder that reads an integer line and goes on by it.
after_int :
    {A : Type 0} (body : ℤ → Bytes → Read A) (r : Bytes)
    → ((n : ℤ) (rest : Bytes) → length rest ≤ length r → Leaves (length rest) (body n rest))
    → Leaves (length r) (read_int r >>= λ p. body p.0 p.1)
after_int body r h =
    Leaves-bind (length r) (length r) (read_int r) _ (read_int-Leaves r)
      λ n rest le. Leaves-mono (length rest) (length r) _ le (h n rest le)

decode_bulk-Leaves : (r : Bytes) → Leaves (length r) (decode_bulk r)
unfolding decode_bulk
decode_bulk-Leaves r = after_int bulk_body r λ n rest h. bulk_body-Leaves n rest

decode_sized-Leaves : (r : Bytes) → Leaves (length r) (decode_sized r)
unfolding decode_sized
decode_sized-Leaves r = after_int sized_body r λ n rest h. sized_body-Leaves n rest

decode_verbatim-Leaves : (r : Bytes) → Leaves (length r) (decode_verbatim r)
unfolding decode_verbatim
decode_verbatim-Leaves r =
    Leaves-bind (length r) (length r) (decode_sized r) _ (decode_sized-Leaves r) λ body rest h.
      Leaves-bind_pure (length r) (or_bad _ (cut b':' body)) _
        (or_bad-ne-out_of_fuel _ (cut b':' body)) λ p. h

-- `dec` ends on every input shorter than `bound`.
module _ (dec : Bytes → Read Value) (bound : ℕ)
    (ends : (r : Bytes) → length r < bound → Leaves (length r) (dec r)) where
  decode_each-Leaves :
      (n : ℕ) (r : Bytes) → length r < bound → Leaves (length r) (decode_each dec n r)
  unfolding decode_each
  decode_each-Leaves zero r h = omega arith
  decode_each-Leaves (suc n) r h = Leaves-bind (length r) (length r) (dec r) _ (ends r h) λ v r1 h1.
      Leaves-bind (length r1) (length r) (decode_each dec n r1) _
        (decode_each-Leaves n r1 (omega arith)) λ vs r2 h2. omega arith

  decode_each_pair-Leaves :
      (n : ℕ) (r : Bytes) → length r < bound → Leaves (length r) (decode_each_pair dec n r)
  unfolding decode_each_pair
  decode_each_pair-Leaves zero r h = omega arith
  decode_each_pair-Leaves (suc n) r h =
      Leaves-bind (length r) (length r) (dec r) _ (ends r h) λ k r1 h1.
        Leaves-bind (length r1) (length r) (dec r1) _ (ends r1 (omega arith)) λ v r2 h2.
          Leaves-bind (length r2) (length r) (decode_each_pair dec n r2) _
            (decode_each_pair-Leaves n r2 (omega arith)) λ ps r3 h3. omega arith

  elems_of-Leaves :
      (kind : Slice → Value) (n : ℕ) (r : Bytes)
      → length r < bound
      → Leaves (length r) (elems_of dec kind n r)
  elems_of-Leaves kind n r h =
      make-Leaves (length r) value_size n _
        (Leaves-bind (length r) (length r) _ _ (decode_each-Leaves n r h) λ vs rest le. le)

  decode_array-Leaves : (r : Bytes) → length r < bound → Leaves (length r) (decode_array dec r)
  unfolding decode_array
  decode_array-Leaves r h = after_int (array_body dec) r by_length
    where
      by_length :
          (n : ℤ) (rest : Bytes)
          → length rest ≤ length r
          → Leaves (length rest) (array_body dec n rest)
      by_length (pos n) rest le = elems_of-Leaves array n rest (omega arith)
      by_length (negsuc zero) rest le = omega arith
      by_length (negsuc (suc k)) rest le = tt

  decode_n-Leaves :
      (kind : Slice → Value) (r : Bytes)
      → length r < bound
      → Leaves (length r) (decode_n dec kind r)
  unfolding decode_n
  decode_n-Leaves kind r h = after_int (n_body dec kind) r by_length
    where
      by_length :
          (n : ℤ) (rest : Bytes)
          → length rest ≤ length r
          → Leaves (length rest) (n_body dec kind n rest)
      by_length (pos n) rest le = elems_of-Leaves kind n rest (omega arith)
      by_length (negsuc k) rest le = tt

  decode_map-Leaves :
      (kind : Pairs → Value) (r : Bytes)
      → length r < bound
      → Leaves (length r) (decode_map dec kind r)
  unfolding decode_map
  decode_map-Leaves kind r h = after_int (map_body dec kind) r by_length
    where
      by_length :
          (n : ℤ) (rest : Bytes)
          → length rest ≤ length r
          → Leaves (length rest) (map_body dec kind n rest)
      by_length (pos n) rest le = make-Leaves (length rest) pair_size n _ (
          Leaves-bind (length rest) (length rest) _ _ (decode_each_pair-Leaves n rest (omega arith))
            λ ps left le'. le')
      by_length (negsuc k) rest le = tt

  pub decode_typed-Leaves :
      (float : FloatText) (typ : ℕ) (r : Bytes)
      → length r < bound
      → Leaves (length r) (decode_typed float dec typ r)
  unfolding decode_typed
  decode_typed-Leaves float typ r h =
      let k = length r in
      Leaves-if k (typ == b'+') _ _ (text_value-Leaves simple_string r) (
        Leaves-if k (typ == b'-') _ _ (text_value-Leaves error r) (
          Leaves-if k (typ == b':') _ _ (Leaves-bind k k _ _ (read_int-Leaves r) λ n rest le. le) (
            Leaves-if k (typ == b'$') _ _ (decode_bulk-Leaves r) (
              Leaves-if k (typ == b'*') _ _ (decode_array-Leaves r h) (
                Leaves-if k (typ == b'_') _ _
                  (Leaves-bind k k _ _ (expect_crlf-Leaves r) λ u rest le. le)
                  (Leaves-if k (typ == b'#') _ _ (decode_boolean-Leaves r) (
                    Leaves-if k (typ == b',') _ _ double (
                      Leaves-if k (typ == b'(') _ _ (text_value-Leaves big_number r) (
                        Leaves-if k (typ == b'!') _ _
                          (Leaves-bind k k _ _ (decode_sized-Leaves r) λ b rest le. le)
                          (Leaves-if k (typ == b'=') _ _ (decode_verbatim-Leaves r) (
                            Leaves-if k (typ == b'%') _ _ (decode_map-Leaves map r h) (
                              Leaves-if k (typ == b'~') _ _ (decode_n-Leaves set r h) (
                                Leaves-if k (typ == b'|') _ _ (decode_map-Leaves attribute r h) (
                                  Leaves-if k (typ == b'>') _ _ (decode_n-Leaves push r h)
                                    tt))))))))))))))
    where
      double : Leaves (length r) (decode_double float r)
      double = Leaves-bind (length r) (length r) (read_line r) _ (read_line-Leaves r) λ s rest le.
          Leaves-bind_pure (length r) (or_bad _ (float.parse s)) _
            (or_bad-ne-out_of_fuel _ (float.parse s)) λ f. le
