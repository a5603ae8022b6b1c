-- ===== src/Protocol/Hello.antt =====
-- internal/protocol/hello.go: the protocol version that a HELLO command asks for.
pub mod Accepts
use gedis.Base.{
  ℕ, ◌≡◌, refl, ◌⊎◌, Bool, true, false, ◌||◌, Option, none, some, [], Bytes, codes, Result, ok, err,
  bytes_eq, ◌==◌, if◌then◌else◌, arith,
}
use gedis.Base.Int.{ℤ, pos, negsuc}
use gedis.Base.Text.Fields.{equal_fold}
use gedis.Protocol.Value.{Value, integer, bulk_string, array, slice, Elems, nil, cons}

pub data HelloError : Type 0 where
  not_hello unsupported_version : HelloError

abbrev pub string : Option Bytes → Bytes
string none = []
string (some b) = b

unfoldable pub is_bulk : Value → Bytes → Bool
unfolding equal_fold
is_bulk (bulk_string b) want = equal_fold (string b) want
is_bulk _ want = false

abbrev pub bulk_version : Bytes → Result HelloError ℕ
bulk_version arg =
    if bytes_eq arg (codes "2")
    then ok 2
    else if bytes_eq arg (codes "3")
    then ok 3
    else err unsupported_version

abbrev pub int_version : ℤ → Result HelloError ℕ
int_version (pos n) = if n == 2 || n == 3 then ok n else err unsupported_version
int_version (negsuc n) = err unsupported_version

abbrev pub version : Elems → Result HelloError ℕ
version nil = ok 3
version (cons (bulk_string b) rest) = bulk_version (string b)
version (cons (integer i) rest) = int_version i
version (cons _ rest) = err unsupported_version

unfoldable pub parse_hello : Value → Result HelloError ℕ
parse_hello (array (slice (cons v vs))) =
    if is_bulk v (codes "hello") then version vs else err not_hello
parse_hello _ = err not_hello
