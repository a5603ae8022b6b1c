-- ===== src/Protocol/Value.antt =====
-- internal/protocol/value.go: a RESP value. The source's struct has a `Kind` and one field for each
-- kind that reads it; here each kind is a constructor with the fields that its code reads.
use gedis.Base.{ℕ, suc, Bool, Option, some, Bytes}
use gedis.Base.Int.{ℤ}

-- A `double` holds the bits of the float64. A `none` is a nil `Bulk`, a `nil_slice` a nil `Elems`.
-- `hello` stands for every kind with no encoding of its own (`KindHello`, the zero `Value`).
mutual
  pub data Value : Type 0 where
    simple_string : Bytes → Value
    error : Bytes → Value
    integer : ℤ → Value
    bulk_string : Option Bytes → Value
    array : Slice → Value
    null : Value
    boolean : Bool → Value
    double : ℕ → Value
    big_number : Bytes → Value
    bulk_error : Option Bytes → Value
    verbatim : Bytes → Bytes → Value
    map : Pairs → Value
    set : Slice → Value
    attribute : Pairs → Value
    push : Slice → Value
    hello : Value

  pub data Slice : Type 0 where
    nil_slice : Slice
    slice : Elems → Slice

  pub data Elems : Type 0 where
    nil : Elems
    cons : Value → Elems → Elems

  pub data Pairs : Type 0 where
    end : Pairs
    pair : Value → Value → Pairs → Pairs

-- `BulkOf` and `ArrayOf`
abbrev pub bulk_of : Bytes → Value
bulk_of s = bulk_string (some s)

abbrev pub array_of : Elems → Value
array_of elems = array (slice elems)

-- `len(elems)` and `len(pairs)`
abbrev pub count : Elems → ℕ
count nil = 0
count (cons v vs) = suc (count vs)

abbrev pub count_pairs : Pairs → ℕ
count_pairs end = 0
count_pairs (pair k v ps) = suc (count_pairs ps)
