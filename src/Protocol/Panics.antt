-- ===== src/Protocol/Panics.antt =====
-- The length headers at which internal/protocol/decode.go asks for more than the Go runtime can
-- allocate. `network.Server.handle` calls `Decode` with no `recover`.
use gedis.Base.{ℕ, suc, ◌+◌, ◌*◌, ◌^◌, ◌<◌, ◌≡◌, Bytes, panic, length, arith}
use native.Mathlib.Numerals.{add-one}
use gedis.Base.Int.{pos}
use gedis.Protocol.Encode.{FloatText}
use gedis.Protocol.Encode.Wire.{header}
use gedis.Protocol.Reader.Lines.{make_too_large}
use gedis.Protocol.Reader.{max_alloc, value_size, pair_size, read_byte, read_payload}
use gedis.Protocol.Reader.Lines.{read_int-format_int}
use gedis.Protocol.Decode.{
  is_type_byte, decode_bulk, decode_array, decode_n, decode_map, decode_typed, decode_fuel, decode,
}

module _ (float : FloatText) (n : ℕ) (rest : Bytes) (int64 : n < 2 ^ 63) where
  module _ (h : max_alloc < value_size * n) (f : ℕ) where
    array_too_large : decode_fuel float (suc f) (header b'*' n rest) ≡ panic
    unfolding decode_fuel decode_typed is_type_byte read_byte decode_array
    array_too_large =
        rw (read_int-format_int (pos n) rest (omega arith)) (rw (make_too_large value_size n _ h))

    set_too_large : decode_fuel float (suc f) (header b'~' n rest) ≡ panic
    unfolding decode_fuel decode_typed is_type_byte read_byte decode_n
    set_too_large =
        rw (read_int-format_int (pos n) rest (omega arith)) (rw (make_too_large value_size n _ h))

    map_too_large : decode_fuel float (suc f) (header b'%' n rest) ≡ panic
    unfolding decode_fuel decode_typed is_type_byte read_byte decode_map
    map_too_large =
        rw (read_int-format_int (pos n) rest (omega arith))
          (rw (make_too_large pair_size n _ (omega arith)))

  -- An array, set or map header whose length is in the range of int64 and asks for more memory than
  -- the Go runtime can allocate makes `Decode` panic, whatever bytes follow it.
  pub decode-panic_container :
      max_alloc < value_size * n
      → (decode float (header b'*' n rest) ≡ panic)
        × (decode float (header b'~' n rest) ≡ panic)
        × (decode float (header b'%' n rest) ≡ panic)
  unfolding decode
  decode-panic_container h = (
    rw add-one (array_too_large h (length (header b'*' n rest))),
    rw add-one (set_too_large h (length (header b'~' n rest))),
    rw add-one (map_too_large h (length (header b'%' n rest))),
  )

  bulk_too_large :
      (f : ℕ) → max_alloc < n + 2 → decode_fuel float (suc f) (header b'$' n rest) ≡ panic
  unfolding decode_fuel decode_typed is_type_byte read_byte decode_bulk read_payload
  bulk_too_large f h =
      rw (read_int-format_int (pos n) rest (omega arith))
        (rw (make_too_large 1 (n + 2) _ (omega arith)))

  -- A bulk string header whose length is in the range of int64 and whose payload with its line end is
  -- larger than the Go runtime can allocate makes `Decode` panic, whatever bytes follow it.
  pub decode-panic_bulk : max_alloc < n + 2 → decode float (header b'$' n rest) ≡ panic
  unfolding decode
  decode-panic_bulk h = rw add-one (bulk_too_large (length (header b'$' n rest)) h)
