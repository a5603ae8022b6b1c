-- ===== src/Protocol/Wellformed.antt =====
-- The values that internal/protocol can carry without loss, and how deep they are nested.
use Prim.Native.Nat.{max}
use gedis.Base.{
  ℕ, suc, ◌+◌, ◌*◌, ◌^◌, ◌≤◌, ◌<◌, ◌≡◌, ◌≢◌, false, none, some, ◌∷◌, ◌++◌, Bytes, codes, length,
  length-append, All, arith,
}
use gedis.Base.Int.{IsInt64, pos}
use gedis.Base.Text.Decimal.{format_int}
use gedis.Protocol.Value.{
  Value, simple_string, error, integer, bulk_string, array, null, boolean, double, big_number,
  bulk_error, verbatim, map, set, attribute, push, hello, Slice, nil_slice, slice, Elems, nil, cons,
  Pairs, end, pair, count, count_pairs,
}
use gedis.Protocol.Encode.{FloatText, inf_bits, sign_bit, is_nan}
use gedis.Protocol.Encode.Wire.{wire, wire_slice, wire_elems, wire_pairs}
use gedis.Protocol.Reader.{max_alloc, value_size, pair_size}
use gedis.Protocol.Reader.Lines.{NoNewline}

-- What strconv documents of the two functions: with precision -1 the text is one that parses back
-- to the same float64, and the names of the infinities are recognised.
pub record FloatLaws (float : FloatText) : Type 0 where
  pub parse_inf : float.parse (codes "inf") ≡ some inf_bits
  pub parse_neg_inf : float.parse (codes "-inf") ≡ some (sign_bit + inf_bits)
  pub parse_format :
      (f : ℕ)
      → f < 2 ^ 64
      → is_nan f ≡ false
      → f ≢ inf_bits
      → f ≢ sign_bit + inf_bits
      → float.parse (float.format f) ≡ some f
  pub one_line : (f : ℕ) → NoNewline (float.format f)

abbrev FitsBuffer : Bytes → Type 0
FitsBuffer b = length b + 2 ≤ max_alloc

-- Lines hold no newline, numbers are in their types' ranges, nothing is nil that has no null form,
-- a verbatim format holds no colon, and no buffer is larger than the Go runtime can allocate.
unfoldable mutual
  pub IsWire : Value → Type 0
  IsWire (simple_string s) = NoNewline s
  IsWire (error s) = NoNewline s
  IsWire (integer i) = IsInt64 i
  IsWire (bulk_string none) = Unit
  IsWire (bulk_string (some b)) = FitsBuffer b
  IsWire (array nil_slice) = Unit
  IsWire (array (slice es)) = (value_size * count es ≤ max_alloc) × AllWire es
  IsWire null = Unit
  IsWire (boolean b) = Unit
  IsWire (double f) = (f < 2 ^ 64) × (is_nan f ≡ false)
  IsWire (big_number s) = NoNewline s
  IsWire (bulk_error none) = ⊥
  IsWire (bulk_error (some b)) = FitsBuffer b
  IsWire (verbatim fmt b) = All (λ c. c ≢ b':') fmt × FitsBuffer (fmt ++ (b':' ∷ b))
  IsWire (map ps) = (pair_size * count_pairs ps ≤ max_alloc) × AllPairsWire ps
  IsWire (set nil_slice) = ⊥
  IsWire (set (slice es)) = (value_size * count es ≤ max_alloc) × AllWire es
  IsWire (attribute ps) = (pair_size * count_pairs ps ≤ max_alloc) × AllPairsWire ps
  IsWire (push nil_slice) = ⊥
  IsWire (push (slice es)) = (value_size * count es ≤ max_alloc) × AllWire es
  IsWire hello = ⊥

  pub AllWire : Elems → Type 0
  AllWire nil = Unit
  AllWire (cons v vs) = IsWire v × AllWire vs

  pub AllPairsWire : Pairs → Type 0
  AllPairsWire end = Unit
  AllPairsWire (pair k v ps) = IsWire k × IsWire v × AllPairsWire ps

unfoldable mutual
  pub depth : Value → ℕ
  depth (array es) = suc (depth_slice es)
  depth (map ps) = suc (depth_pairs ps)
  depth (set es) = suc (depth_slice es)
  depth (attribute ps) = suc (depth_pairs ps)
  depth (push es) = suc (depth_slice es)
  depth _ = 1

  pub depth_slice : Slice → ℕ
  depth_slice nil_slice = 0
  depth_slice (slice es) = depth_elems es

  pub depth_elems : Elems → ℕ
  depth_elems nil = 0
  depth_elems (cons v vs) = max (depth v) (depth_elems vs)

  pub depth_pairs : Pairs → ℕ
  depth_pairs end = 0
  depth_pairs (pair k v ps) = max (depth k) (max (depth v) (depth_pairs ps))

pub depth_pos : (v : Value) → 0 < depth v
unfolding depth
depth_pos (array es) = omega arith
depth_pos _ = omega arith

module _ (float : FloatText) where
  mutual
    unfolding depth wire

    depth_le : (v : Value) (rest : Bytes) → depth v + length rest ≤ length (wire float v rest)
    depth_le (array es) rest = depth_slice_le b'*' es rest
    depth_le (map ps) rest =
        omega (arith, depth_pairs_le ps rest, length-append (format_int (pos (count_pairs ps))))
    depth_le (set es) rest = depth_slice_le b'~' es rest
    depth_le (attribute ps) rest =
        omega (arith, depth_pairs_le ps rest, length-append (format_int (pos (count_pairs ps))))
    depth_le (push es) rest = depth_slice_le b'>' es rest
    depth_le (bulk_string none) rest = omega arith
    depth_le (bulk_error none) rest = omega arith
    depth_le (simple_string s) rest = omega (arith, length-append s)
    depth_le _ rest = omega (arith, length-append {0})

    depth_slice_le :
        (typ : ℕ) (es : Slice) (rest : Bytes)
        → suc (depth_slice es) + length rest ≤ length (wire_slice float typ es rest)
    depth_slice_le typ nil_slice rest = omega arith
    depth_slice_le typ (slice es) rest =
        omega (arith, depth_elems_le es rest, length-append (format_int (pos (count es))))

    depth_elems_le :
        (es : Elems) (rest : Bytes)
        → depth_elems es + length rest ≤ length (wire_elems float es rest)
    depth_elems_le nil rest = omega arith
    depth_elems_le (cons v vs) rest =
        omega (arith, depth_le v (wire_elems float vs rest), depth_elems_le vs rest)

    depth_pairs_le :
        (ps : Pairs) (rest : Bytes)
        → depth_pairs ps + length rest ≤ length (wire_pairs float ps rest)
    depth_pairs_le end rest = omega arith
    depth_pairs_le (pair k v ps) rest = omega (
      arith,
      depth_le k (wire float v (wire_pairs float ps rest)),
      depth_le v (wire_pairs float ps rest),
      depth_pairs_le ps rest,
    )

  -- A value is nested no deeper than its encoding is long.
  pub depth-le-length :
      (v : Value) (rest : Bytes) → depth v + length rest ≤ length (wire float v rest)
  depth-le-length v rest = depth_le v rest
