-- ===== src/Commands/Lists.antt =====
-- The list commands of internal/commands/list.go and list_mod.go: the parts that they share.
pub mod Ends
pub mod Ranges
pub mod Edits
pub mod Moves
pub mod Positions
pub mod RangeLaws
pub mod TrimLaws
pub mod Stored
pub mod Written
pub mod PushLaws
pub mod PopLaws
pub mod MoveLaws
pub mod MoveApart
use gedis.Base.{
  ℕ, zero, suc, ◌+◌, ◌-◌, ◌≡◌, Bool, true, false, Option, none, some, List, [], ◌∷◌, ◌++◌, Bytes,
  codes, ◌==◌, length, take, drop, ltb, if◌then◌else◌, Result, ok, err, panic, out_of_fuel, ◌||◌,
}
use gedis.Base.Int.{ℤ, pos, negsuc, pos_part, ltb_ℤ, add64, sub64}
use gedis.Protocol.Value.{Value, error, integer, bulk_string, bulk_of}
use gedis.Sentinel.Answer.{arg_string}
use gedis.Datastruct.Entry.{Entry, encode, type_list, list_key}
use gedis.Datastruct.ListCodec.{encode_list, decode_list}
use gedis.Commands.Store.{
  Failure, not_found, other, Kv, World, Run, step, ◌>>=◌, return, fail, call, notify, err_value,
}
use gedis.Commands.Lookup.{of_codec, lookup_key}
use gedis.Commands.Arguments.{
  to_bulk_array, null_bulk, arg_int, invalid_key, invalid_value, not_an_integer, err_value_str,
  wrong_type_text,
}

-- A result as a step that keeps the state.
abbrev pub lift {ℓ} :
    {S : Type 0} {A : Type ℓ} → Result Failure A → World S → Result Failure A × World S
lift r w = (r, w)

abbrev pub is_empty : List Bytes → Bool
is_empty [] = true
is_empty (e ∷ es) = false

module _ {S : Type 0} (kv : Kv S) (now : ℤ) where
  unfoldable pub list_of_entry : Entry → Result Failure (List Bytes × ℤ)
  list_of_entry e =
      if e.kind == type_list
      then elim (of_codec (decode_list e.payload)) [
        | ok elems ↦ ok (elems, e.expiry)
        | err f ↦ err f
        | panic ↦ panic
        | out_of_fuel ↦ out_of_fuel
      ]
      else err (other wrong_type_text)

  unfoldable pub read_list : Bytes → Run S (List Bytes × ℤ)
  read_list key = do e ← lookup_key kv now key; lift (list_of_entry e)

  unfoldable pub write_list : Bytes → List Bytes → ℤ → Run S (Unit {0})
  write_list key elems expiry =
      call (kv.set_raw (list_key key) (encode type_list expiry (encode_list elems)))

  unfoldable pub delete_list : Bytes → Run S (Unit {0})
  delete_list key = call (kv.delete_raw (list_key key))
