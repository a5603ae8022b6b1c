-- ===== src/Protocol/Encode/Wire.antt =====
-- The output of `Value.Append` with no accumulator: each value stands in front of what follows it.
use gedis.Base.{
  ℕ, ◌≡◌, refl, ◌∙◌, Bool, true, false, Option, none, some, ◌∷◌, ◌++◌, Bytes, codes, length,
  append_assoc, if◌then◌else◌,
}
use gedis.Base.Int.{pos}
use gedis.Base.Text.Decimal.{format_int}
use gedis.Protocol.Value.{
  Value, simple_string, error, integer, bulk_string, array, null, boolean, double, big_number,
  bulk_error, verbatim, map, set, attribute, push, hello, Slice, nil_slice, slice, Elems, nil, cons,
  Pairs, end, pair, count, count_pairs,
}
use gedis.Protocol.Encode.{
  FloatText, format_double, append_line, append_bulk, append_header, append_verbatim, append,
  append_elems, append_each, append_each_pair,
}

abbrev pub line : ℕ → Bytes → Bytes → Bytes
line typ s rest = typ ∷ (s ++ (b'\r' ∷ b'\n' ∷ rest))

abbrev pub header : ℕ → ℕ → Bytes → Bytes
header typ n rest = line typ (format_int (pos n)) rest

abbrev pub payload : ℕ → Bytes → Bytes → Bytes
payload typ b rest = header typ (length b) (b ++ (b'\r' ∷ b'\n' ∷ rest))

abbrev pub minus_one : ℕ → Bytes → Bytes
minus_one typ rest = typ ∷ b'-' ∷ b'1' ∷ b'\r' ∷ b'\n' ∷ rest

abbrev pub bulk : ℕ → Option Bytes → Bytes → Bytes
bulk typ none rest = minus_one typ rest
bulk typ (some b) rest = payload typ b rest

module _ (float : FloatText) where
  unfoldable mutual
    pub wire : Value → Bytes → Bytes
    wire (simple_string s) rest = line b'+' s rest
    wire (error s) rest = line b'-' s rest
    wire (integer i) rest = line b':' (format_int i) rest
    wire (bulk_string b) rest = bulk b'$' b rest
    wire (array es) rest = wire_slice b'*' es rest
    wire null rest = b'_' ∷ b'\r' ∷ b'\n' ∷ rest
    wire (boolean b) rest = b'#' ∷ (if b then b't' else b'f') ∷ b'\r' ∷ b'\n' ∷ rest
    wire (double f) rest = line b',' (format_double float f) rest
    wire (big_number s) rest = line b'(' s rest
    wire (bulk_error b) rest = bulk b'!' b rest
    wire (verbatim fmt b) rest = payload b'=' (fmt ++ (b':' ∷ b)) rest
    wire (map ps) rest = header b'%' (count_pairs ps) (wire_pairs ps rest)
    wire (set es) rest = wire_slice b'~' es rest
    wire (attribute ps) rest = header b'|' (count_pairs ps) (wire_pairs ps rest)
    wire (push es) rest = wire_slice b'>' es rest
    wire hello rest = line b'-' (codes "ERR unknown kind") rest

    pub wire_slice : ℕ → Slice → Bytes → Bytes
    wire_slice typ nil_slice rest = minus_one typ rest
    wire_slice typ (slice es) rest = header typ (count es) (wire_elems es rest)

    pub wire_elems : Elems → Bytes → Bytes
    wire_elems nil rest = rest
    wire_elems (cons v vs) rest = wire v (wire_elems vs rest)

    pub wire_pairs : Pairs → Bytes → Bytes
    wire_pairs end rest = rest
    wire_pairs (pair k v ps) rest = wire k (wire v (wire_pairs ps rest))

module _ (dst : Bytes) (typ : ℕ) (rest : Bytes) where
  append_line-line : (s : Bytes) → append_line dst typ s ++ rest ≡ dst ++ line typ s rest
  unfolding append_line
  append_line-line s = simp append_assoc

  append_header-header : (n : ℕ) → append_header dst typ n ++ rest ≡ dst ++ header typ n rest
  unfolding append_header
  append_header-header n = simp append_assoc

  append_bulk-bulk : (b : Option Bytes) → append_bulk dst typ b ++ rest ≡ dst ++ bulk typ b rest
  unfolding append_bulk
  append_bulk-bulk none = simp append_assoc
  append_bulk-bulk (some b) = simp append_assoc

append_verbatim-payload :
    (dst fmt b rest : Bytes)
    → append_verbatim dst fmt b ++ rest ≡ dst ++ payload b'=' (fmt ++ (b':' ∷ b)) rest
unfolding append_verbatim
append_verbatim-payload dst fmt b rest = simp append_assoc

append_boolean :
    (b : Bool) (dst rest : Bytes)
    → (if b then dst ++ codes "#t\r\n" else dst ++ codes "#f\r\n") ++ rest
      ≡ dst ++ (b'#' ∷ (if b then b't' else b'f') ∷ b'\r' ∷ b'\n' ∷ rest)
append_boolean true dst rest = simp append_assoc
append_boolean false dst rest = simp append_assoc

module _ (float : FloatText) where
  mutual
    unfolding append wire

    append_lem :
        (v : Value) (dst rest : Bytes) → append float v dst ++ rest ≡ dst ++ wire float v rest
    append_lem (simple_string s) dst rest = append_line-line dst b'+' rest s
    append_lem (error s) dst rest = append_line-line dst b'-' rest s
    append_lem (integer i) dst rest = append_line-line dst b':' rest (format_int i)
    append_lem (bulk_string b) dst rest = append_bulk-bulk dst b'$' rest b
    append_lem (array es) dst rest = append_slice_lem b'*' es dst rest
    append_lem null dst rest = append_assoc dst _ rest
    append_lem (boolean b) dst rest = append_boolean b dst rest
    append_lem (double f) dst rest = append_line-line dst b',' rest (format_double float f)
    append_lem (big_number s) dst rest = append_line-line dst b'(' rest s
    append_lem (bulk_error b) dst rest = append_bulk-bulk dst b'!' rest b
    append_lem (verbatim fmt b) dst rest = append_verbatim-payload dst fmt b rest
    append_lem (map ps) dst rest =
        append_pairs_lem ps (append_header dst b'%' (count_pairs ps)) rest
        ∙ append_header-header dst b'%' (wire_pairs float ps rest) (count_pairs ps)
    append_lem (set es) dst rest = append_slice_lem b'~' es dst rest
    append_lem (attribute ps) dst rest =
        append_pairs_lem ps (append_header dst b'|' (count_pairs ps)) rest
        ∙ append_header-header dst b'|' (wire_pairs float ps rest) (count_pairs ps)
    append_lem (push es) dst rest = append_slice_lem b'>' es dst rest
    append_lem hello dst rest = append_line-line dst b'-' rest (codes "ERR unknown kind")

    append_slice_lem :
        (typ : ℕ) (es : Slice) (dst rest : Bytes)
        → append_elems float typ es dst ++ rest ≡ dst ++ wire_slice float typ es rest
    append_slice_lem typ nil_slice dst rest = append_assoc dst _ rest
    append_slice_lem typ (slice es) dst rest =
        append_each_lem es (append_header dst typ (count es)) rest
        ∙ append_header-header dst typ (wire_elems float es rest) (count es)

    append_each_lem :
        (es : Elems) (dst rest : Bytes)
        → append_each float es dst ++ rest ≡ dst ++ wire_elems float es rest
    append_each_lem nil dst rest = refl
    append_each_lem (cons v vs) dst rest =
        append_each_lem vs (append float v dst) rest ∙ append_lem v dst (wire_elems float vs rest)

    append_pairs_lem :
        (ps : Pairs) (dst rest : Bytes)
        → append_each_pair float ps dst ++ rest ≡ dst ++ wire_pairs float ps rest
    append_pairs_lem end dst rest = refl
    append_pairs_lem (pair k v ps) dst rest =
        append_pairs_lem ps (append float v (append float k dst)) rest
        ∙ append_lem v (append float k dst) (wire_pairs float ps rest)
        ∙ append_lem k dst (wire float v (wire_pairs float ps rest))

  -- `Append` keeps `dst` and writes the value's own bytes behind it, whatever `dst` holds.
  pub append-wire :
      (v : Value) (dst rest : Bytes) → append float v dst ++ rest ≡ dst ++ wire float v rest
  append-wire v dst rest = append_lem v dst rest
