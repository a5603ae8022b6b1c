-- ===== src/Protocol/RoundTrip/Parts.antt =====
-- The decoders of internal/protocol/decode.go on one buffer or container that `Append` wrote.
use gedis.Base.{ℕ, ◌+◌, ◌*◌, ◌≤◌, ◌<◌, ◌≡◌, ◌≢◌, some, ◌∷◌, ◌++◌, Bytes, length, All, ok, arith}
use gedis.Base.Int.{pos, negsuc}
use gedis.Base.Text.Decimal.{format_int}
use gedis.Base.Text.Fields.{cut-append}
use gedis.Protocol.Value.{
  Value, bulk_string, array, verbatim, Slice, slice, Elems, Pairs, count, count_pairs,
}
use gedis.Protocol.Reader.{max_alloc, value_size, pair_size, Read, read_int}
use gedis.Protocol.Reader.Lines.{read_int-format_int, read_payload-append, make_fits}
use gedis.Protocol.Decode.{
  decode_bulk, decode_sized, decode_verbatim, decode_each, decode_each_pair, decode_array, decode_n,
  decode_map,
}

read_count :
    (n size : ℕ) (rest : Bytes)
    → (0 < size) × (size * n ≤ max_alloc)
    → read_int (format_int (pos n) ++ (b'\r' ∷ b'\n' ∷ rest)) ≡ ok (pos n, rest)
read_count n size rest h = read_int-format_int (pos n) rest (grind arith, omega arith)

pub read_int_minus_one :
    (rest : Bytes) → read_int (b'-' ∷ b'1' ∷ b'\r' ∷ b'\n' ∷ rest) ≡ ok (negsuc 0, rest)
unfolding format_int
read_int_minus_one rest = read_int-format_int (negsuc 0) rest (omega arith)

pub decode_bulk-payload :
    (b rest : Bytes)
    → length b + 2 ≤ max_alloc
    → decode_bulk (format_int (pos (length b)) ++ (b'\r' ∷ b'\n' ∷ (b ++ (b'\r' ∷ b'\n' ∷ rest))))
      ≡ ok (bulk_string (some b), rest)
unfolding decode_bulk
decode_bulk-payload b rest h =
    rw (read_int-format_int (pos (length b)) (b ++ (b'\r' ∷ b'\n' ∷ rest)) (omega arith))
      (rw (read_payload-append b rest h))

pub decode_sized-payload :
    (b rest : Bytes)
    → length b + 2 ≤ max_alloc
    → decode_sized (format_int (pos (length b)) ++ (b'\r' ∷ b'\n' ∷ (b ++ (b'\r' ∷ b'\n' ∷ rest))))
      ≡ ok (b, rest)
unfolding decode_sized
decode_sized-payload b rest h =
    rw (read_int-format_int (pos (length b)) (b ++ (b'\r' ∷ b'\n' ∷ rest)) (omega arith))
      (read_payload-append b rest h)

module _ (dec : Bytes → Read Value) (vs : Elems) (r rest : Bytes)
    (fits : value_size * count vs ≤ max_alloc)
    (each : decode_each dec (count vs) r ≡ ok (vs, rest)) where
  pub decode_array-elems :
      decode_array dec (format_int (pos (count vs)) ++ (b'\r' ∷ b'\n' ∷ r))
      ≡ ok (array (slice vs), rest)
  unfolding decode_array
  decode_array-elems =
      rw (read_count (count vs) value_size r (omega arith, fits))
        (rw (make_fits value_size (count vs) _ fits) (rw each))

  pub decode_n-elems :
      (kind : Slice → Value)
      → decode_n dec kind (format_int (pos (count vs)) ++ (b'\r' ∷ b'\n' ∷ r))
        ≡ ok (kind (slice vs), rest)
  unfolding decode_n
  decode_n-elems kind =
      rw (read_count (count vs) value_size r (omega arith, fits))
        (rw (make_fits value_size (count vs) _ fits) (rw each))

pub decode_map-pairs :
    (dec : Bytes → Read Value) (ps : Pairs) (r rest : Bytes)
    → pair_size * count_pairs ps ≤ max_alloc
    → decode_each_pair dec (count_pairs ps) r ≡ ok (ps, rest)
    → (kind : Pairs → Value)
    → decode_map dec kind (format_int (pos (count_pairs ps)) ++ (b'\r' ∷ b'\n' ∷ r))
      ≡ ok (kind ps, rest)
unfolding decode_map
decode_map-pairs dec ps r rest fits each kind =
    rw (read_count (count_pairs ps) pair_size r (omega arith, fits))
      (rw (make_fits pair_size (count_pairs ps) _ fits) (rw each))

pub decode_verbatim-payload :
    (fmt b rest : Bytes)
    → All (λ c. c ≢ b':') fmt
    → length (fmt ++ (b':' ∷ b)) + 2 ≤ max_alloc
    → decode_verbatim (
        format_int (pos (length (fmt ++ (b':' ∷ b))))
        ++ (b'\r' ∷ b'\n' ∷ ((fmt ++ (b':' ∷ b)) ++ (b'\r' ∷ b'\n' ∷ rest))))
      ≡ ok (verbatim fmt b, rest)
unfolding decode_verbatim
decode_verbatim-payload fmt b rest h fits =
    rw (decode_sized-payload (fmt ++ (b':' ∷ b)) rest fits) (rw (cut-append b':' fmt b h))
