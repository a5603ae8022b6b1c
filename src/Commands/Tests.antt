-- ===== src/Commands/Tests.antt =====
-- Concrete runs of the command handlers on a store that is a function from keys, and their theorems
-- at concrete inputs.
use gedis.Base.{
  ◌≡◌, ◌⊎◌, refl, true, false, Option, some, none, List, [], ◌∷◌, Bytes, codes, ok, err, arith,
  bytes_eq, if◌then◌else◌, map,
}
use gedis.Base.Int.{ℤ, pos, negsuc, IsInt64, ◌+ℤ◌}
use gedis.Protocol.Value.{integer, bulk_of, simple_string}
use gedis.Datastruct.Entry.{encode, type_list, type_string}
use gedis.Datastruct.ListCodec.{encode_list}
use gedis.Commands.Store.{not_found, Kv, KvLaws, answer, World, call}
use gedis.Commands.Lookup.{
  type_prefixes, is_expired, lookup_raw, lookup_key, lookup_in, after_get, open_entry, of_codec,
}
use gedis.Commands.Lookup.Laws.{only, Same}
use gedis.Commands.Lookup.Expiry.{Expires, lookup_raw_expired}
use gedis.Commands.Lists.Ends.{push}
use gedis.Commands.Lists.Moves.{move_core, add_end, take_end}
use gedis.Commands.Lists.Stored.{Held, Holds, Leaves}
use gedis.Commands.Lists.PushLaws.{push_event, push_held}
use gedis.Commands.Lists.PopLaws.{left_over}
use gedis.Commands.Lists.MoveLaws.{move_core_same}
use gedis.Base.Text.Decimal.{format_int}
use gedis.Commands.Arguments.{err_value_str, to_bulk_array}
use gedis.Commands.Lists.Ranges.{lrange}
use gedis.Commands.Lists.Edits.{
  ok_reply, ltrim, remove, remove_from, may_remove, abs_count, insert_at, upper, upper_after,
}
use gedis.Commands.Lists.Positions.{absolute, kept_between}
use gedis.Commands.Lists.TrimLaws.{ranged, trim_events, lrange_held, ltrim_held}
use gedis.Commands.Counters.{min_int64, overflow_error, incr_key, decrby}
use gedis.Commands.Counters.Exact.{HasString, Sets, incr_key_sum, decrby_least}
use gedis.Commands.Keyspace.{exists, count_existing, type_of, type_name}
use gedis.Datastruct.Uvarint.{put_big, get_big}
use gedis.Sentinel.Answer.{arg_string, bulk_bytes}

abbrev Memory : Type 0
Memory = Bytes → Option Bytes

abbrev memory : Kv Memory
memory = record {
  get_raw = λ k s. (answer (s k), s);
  set_raw = λ k v s. (ok tt, λ j. if bytes_eq j k then some v else s j);
  delete_raw = λ k s. (ok tt, λ j. if bytes_eq j k then none else s j);
}

abbrev memory_laws : KvLaws memory
memory_laws = record {
  IsValid = λ s. Unit;
  look = λ s. s;
  get_law = λ s k valid. (s, refl, tt, λ j. refl);
  set_law = λ s k v valid. ((λ j. if bytes_eq j k then some v else s j), refl, tt, λ j. refl);
  delete_law = λ s k valid. ((λ j. if bytes_eq j k then none else s j), refl, tt, λ j. refl);
}

abbrev noon : ℤ
noon = pos 1000

abbrev two : List Bytes
two = codes "a" ∷ codes "b" ∷ []

abbrev two_held : Held
two_held = some (two, pos 2000)

-- A store with one list, at the key k.
abbrev with_two : World Memory
with_two = record {
  store = λ j.
      if bytes_eq j (codes "l:k")
      then some (encode type_list (pos 2000) (encode_list two))
      else none;
  events = [];
  expired = 0;
}

with_two-Holds : Holds memory_laws noon with_two (codes "k") two_held
unfolding type_prefixes is_expired
with_two-Holds = (
  tt,
  (refl, (refl, (refl, (refl, (refl, (refl, (refl, (refl, tt)))))))),
  ((omega arith, (omega arith, (omega arith, tt))), (omega arith, omega arith), refl),
)

push_held_example :
    (w' : World Memory) × (push memory noon true
        (bulk_of (codes "k") ∷ map bulk_of (codes "x" ∷ codes "y" ∷ []))
        with_two
      ≡ (ok (integer (pos 4)), w'))
    × Leaves memory_laws noon with_two
        (codes "k")
        (some (codes "y" ∷ codes "x" ∷ codes "a" ∷ codes "b" ∷ [], pos 2000))
        (push_event true (codes "k") ∷ [])
        w'
unfolding is_expired
push_held_example =
    push_held memory_laws noon true (codes "k") (codes "x") (codes "y" ∷ []) two_held with_two
      with_two-Holds
      (
        (omega arith, (omega arith, (omega arith, (omega arith, (omega arith, tt))))),
        (omega arith, omega arith),
        refl,
      )

move_core_same_example :
    (w' : World Memory) × (move_core memory noon (codes "k") (codes "k") true false with_two
      ≡ (ok (bulk_of (codes "b")), w'))
    × Leaves memory_laws noon with_two
        (codes "k")
        (some (codes "b" ∷ codes "a" ∷ codes "b" ∷ [], pos 2000))
        ((codes "l", (codes "rpop", codes "k")) ∷ (codes "l", (codes "lpush", codes "k")) ∷ [])
        w'
unfolding add_end take_end is_expired
move_core_same_example =
    move_core_same memory_laws noon (codes "k") true false (codes "b") (codes "a" ∷ []) two
      (pos 2000) with_two refl with_two-Holds
      (
        (omega arith, (omega arith, (omega arith, (omega arith, tt)))),
        (omega arith, omega arith),
        refl,
      )

abbrev later : ℤ
later = pos 2000

lookup_raw_expired_example :
    (w' : World Memory) × (lookup_raw memory later (codes "k") with_two ≡ (err not_found, w'))
    × Expires memory_laws later with_two (codes "k") (codes "l:k") w'
unfolding type_prefixes is_expired
lookup_raw_expired_example =
    lookup_raw_expired memory_laws later (codes "k") (codes "l:")
      (only (codes "l:") (encode type_list (pos 2000) (encode_list two))) type_list (pos 2000)
      (encode_list two) with_two tt
      (refl, (refl, (refl, (refl, (refl, (refl, (refl, (refl, tt)))))))) refl
      (omega arith, omega arith) refl

push_wrong_count :
    push memory noon true (bulk_of (codes "k") ∷ []) with_two
    ≡ (ok (err_value_str (codes "ERR wrong number of arguments for 'push' command")), with_two)
unfolding push
push_wrong_count = refl

lrange_held_example :
    (w' : World Memory) × (lrange memory noon
        (bulk_of (codes "k") ∷ bulk_of (format_int (negsuc 0)) ∷ bulk_of (format_int (pos 9)) ∷ [])
        with_two
      ≡ (ok (to_bulk_array (ranged (negsuc 0) (pos 9) two)), w'))
    × Same memory_laws noon with_two w'
lrange_held_example =
    lrange_held memory_laws noon (codes "k") (negsuc 0) (pos 9) two (pos 2000) with_two
      (omega arith, omega arith) (omega arith, omega arith) with_two-Holds

-- From the last element on.
ranged_last : ranged (negsuc 0) (pos 9) two ≡ codes "b" ∷ []
unfolding absolute kept_between gedis.Base.Int.◌+ℤ◌
ranged_last = refl

ltrim_held_example :
    (w' : World Memory) × (ltrim memory noon
        (bulk_of (codes "k") ∷ bulk_of (format_int (negsuc 0)) ∷ bulk_of (format_int (pos 9)) ∷ [])
        with_two
      ≡ (ok ok_reply, w'))
    × Leaves memory_laws noon with_two
        (codes "k")
        (left_over (ranged (negsuc 0) (pos 9) two) (pos 2000))
        (trim_events (codes "k") (ranged (negsuc 0) (pos 9) two))
        w'
ltrim_held_example =
    ltrim_held memory_laws noon (codes "k") (negsuc 0) (pos 9) two (pos 2000) with_two
      (omega arith, omega arith) (omega arith, omega arith) with_two-Holds

-- A store with a number, 41, at the key n.
abbrev the_number : Bytes → Option Bytes
the_number = only (codes "s:") (encode type_string (pos 0) (format_int (pos 41)))

abbrev with_number : World Memory
with_number = record {
  store = λ j.
      if bytes_eq j (codes "s:n")
      then some (encode type_string (pos 0) (format_int (pos 41)))
      else none;
  events = [];
  expired = 0;
}

with_number-HasString :
    HasString memory_laws noon with_number (codes "n") the_number (format_int (pos 41)) (pos 0)
unfolding type_prefixes is_expired
with_number-HasString = (
  tt,
  (refl, (refl, (refl, (refl, (refl, (refl, (refl, (refl, tt)))))))),
  refl,
  (omega arith, omega arith),
  refl,
)

incr_key_sum_example :
    (IsInt64 (pos 41 +ℤ pos 1)
      × ((w' : World Memory) × (incr_key memory noon (codes "n") (pos 1) with_number
            ≡ (ok (integer (pos 41 +ℤ pos 1)), w'))
          × Sets memory_laws noon with_number
              (codes "n")
              (format_int (pos 41 +ℤ pos 1))
              (pos 0)
              w'))
    ⊎ ((¬ IsInt64 (pos 41 +ℤ pos 1))
        × ((w' : World Memory) × (incr_key memory noon (codes "n") (pos 1) with_number
              ≡ (ok overflow_error, w'))
            × Same memory_laws noon with_number w'))
incr_key_sum_example =
    incr_key_sum memory_laws noon (codes "n") the_number (pos 1) (pos 41) (pos 0) with_number
      (omega arith, omega arith) (omega arith, omega arith) with_number-HasString

decrby_least_example :
    (w' : World Memory) × (decrby memory noon
        (bulk_of (codes "n") ∷ bulk_of (format_int min_int64) ∷ [])
        with_number
      ≡ (ok (integer (pos 41 +ℤ min_int64)), w'))
    × Sets memory_laws noon with_number (codes "n") (format_int (pos 41 +ℤ min_int64)) (pos 0) w'
decrby_least_example =
    decrby_least memory_laws noon (codes "n") the_number 41 (pos 0) with_number (omega arith)
      with_number-HasString

-- LREM by the least int64 removes nothing.
remove_least : remove min_int64 (codes "a") two ≡ (two, 0)
unfolding remove remove_from may_remove abs_count gedis.Base.Int.neg64 gedis.Base.Int.◌-ℤ◌
remove_least = refl

-- The last of two equal elements goes first where the count is negative.
remove_last :
    remove (negsuc 0) (codes "a") (codes "a" ∷ codes "b" ∷ codes "a" ∷ [])
    ≡ (codes "a" ∷ codes "b" ∷ [], 1)
unfolding remove remove_from may_remove abs_count gedis.Base.Int.neg64 gedis.Base.Int.◌-ℤ◌
remove_last = refl

insert_before :
    insert_at false (codes "b") (codes "x") two ≡ some (codes "a" ∷ codes "x" ∷ codes "b" ∷ [])
unfolding insert_at
insert_before = refl

upper_dotless : upper (b'r' ∷ 196 ∷ 177 ∷ codes "ght") ≡ codes "RIGHT"
unfolding upper upper_after
upper_dotless = refl

-- A key counts as often as it is named.
exists_twice :
    (exists memory noon
      (bulk_of (codes "k") ∷ bulk_of (codes "m") ∷ bulk_of (codes "k") ∷ [])
      with_two).0
    ≡ ok (integer (pos 2))
unfolding exists count_existing lookup_key lookup_raw lookup_in type_prefixes call answer after_get
    open_entry of_codec is_expired gedis.Datastruct.Entry.decode gedis.Datastruct.Entry.encode
    put_big get_big arg_string bulk_bytes encode_list gedis.Datastruct.Uvarint.put_uvarint
    gedis.Datastruct.Strings.put_strs gedis.Datastruct.Strings.put_str
exists_twice = refl

type_of_list :
    (type_of memory noon (bulk_of (codes "k") ∷ []) with_two).0 ≡ ok (simple_string (codes "list"))
unfolding type_of type_name lookup_key lookup_raw lookup_in type_prefixes call answer after_get
    open_entry of_codec is_expired gedis.Datastruct.Entry.decode gedis.Datastruct.Entry.encode
    put_big get_big arg_string bulk_bytes encode_list gedis.Datastruct.Uvarint.put_uvarint
    gedis.Datastruct.Strings.put_strs gedis.Datastruct.Strings.put_str
type_of_list = refl
