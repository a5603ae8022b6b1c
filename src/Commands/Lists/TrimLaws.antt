-- ===== src/Commands/Lists/TrimLaws.antt =====
-- LRANGE and LTRIM against the list that a key has.
use gedis.Base.{◌≡◌, refl, none, some, List, [], ◌∷◌, Bytes, codes, length, ok, arith}
use mathlib.Core.Path.{subst}
use gedis.Base.Int.{ℤ, pos, IsInt64}
use gedis.Base.Text.Decimal.{format_int}
use gedis.Protocol.Value.{bulk_of}
use gedis.Sentinel.Answer.{arg_string, bulk_bytes}
use gedis.Datastruct.ListCodec.{IsStorable}
use gedis.Commands.Store.{Kv, KvLaws, World, Event, notify, noted}
use gedis.Commands.Arguments.{to_bulk_array, arg_int-bulk_of}
use gedis.Commands.Lookup.{ignored}
use gedis.Commands.Lookup.Laws.{Same}
use gedis.Commands.Lists.Ranges.{with_bounds, lrange, lrange_at}
use gedis.Commands.Lists.Edits.{ok_reply, ltrim, ltrim_at, ltrim_done}
use gedis.Commands.Lists.Positions.{absolute, kept_between}
use gedis.Commands.Lists.RangeLaws.{between-kept_between, between-IsStorable}
use gedis.Commands.Lists.Stored.{
  Held, Fits, Holds, Leaves, read_list-Holds, Holds-Same, Leaves-after_Same,
}
use gedis.Commands.Lists.Written.{write_list-Holds, delete_list-Holds, Leaves-noted}
use gedis.Commands.Lists.PopLaws.{left_over, left_over-Fits, del_event}

-- The elements between the positions that the bounds mean.
abbrev pub ranged : ℤ → ℤ → List Bytes → List Bytes
ranged start stop elems =
    kept_between (absolute start (pos (length elems))) (absolute stop (pos (length elems))) 0 elems

abbrev pub trim_event : Bytes → Event
trim_event key = (codes "l", (codes "ltrim", key))

abbrev pub trim_events : Bytes → List Bytes → List Event
trim_events key [] = del_event key ∷ trim_event key ∷ []
trim_events key (e ∷ es) = trim_event key ∷ []

module _ {S : Type 0} {kv : Kv S} (laws : KvLaws kv) (now : ℤ) where
  -- LRANGE on a list, with its bounds in decimal: the reply is the array of the elements whose
  -- positions lie between those that the bounds mean, and nothing changes.
  pub lrange_held :
      (key : Bytes) (start stop : ℤ) (elems : List Bytes) (expiry : ℤ) (w : World S)
      → IsInt64 start
      → IsInt64 stop
      → Holds laws now w key (some (elems, expiry))
      → (w' : World S) × (lrange kv now
            (bulk_of key ∷ bulk_of (format_int start) ∷ bulk_of (format_int stop) ∷ [])
            w
          ≡ (ok (to_bulk_array (ranged start stop elems)), w'))
        × Same laws now w w'
  unfolding lrange lrange_at arg_string bulk_bytes
  lrange_held key start stop elems expiry w h k held =
      let (w', got, same) = read_list-Holds laws now key (some (elems, expiry)) w held in
      (
        w',
        rw
            (
              lrange,
              with_bounds,
              arg_int-bulk_of start h,
              arg_int-bulk_of stop k,
              lrange_at,
              got,
              between-kept_between start stop elems h k (omega (arith, held.2.0.0)),
            )
            refl,
        same,
      )

  ltrim_done_held :
      (key : Bytes) (elems kept : List Bytes) (expiry : ℤ) (w : World S)
      → Holds laws now w key (some (elems, expiry))
      → Fits now (left_over kept expiry)
      → (w' : World S) × (ltrim_done kv now key expiry kept w ≡ (ok ok_reply, w'))
        × Leaves laws now w key (left_over kept expiry) (trim_events key kept) w'
  unfolding ltrim_done notify ignored
  ltrim_done_held key elems [] expiry w held fits =
      let (w', gone, leaves) = delete_list-Holds laws now key (some (elems, expiry)) w held in
      (
        noted (del_event key) (noted (trim_event key) w'),
        rw (ltrim_done, ignored, gone) refl,
        Leaves-noted laws now w (noted (trim_event key) w') key none (del_event key)
            (trim_event key ∷ []) (Leaves-noted laws now w w' key none (trim_event key) [] leaves),
      )
  ltrim_done_held key elems (e ∷ es) expiry w held fits =
      let (w', wrote, leaves) =
        write_list-Holds laws now key (some (elems, expiry)) (e ∷ es) expiry w held fits in
      (
        noted (trim_event key) w',
        rw (ltrim_done, wrote) refl,
        Leaves-noted laws now w w' key (some (e ∷ es, expiry)) (trim_event key) [] leaves,
      )

  -- LTRIM on a list, with its bounds in decimal: the key has the elements whose positions lie between
  -- those that the bounds mean, with its expiry, or is missing where there are none; every other key
  -- is as it was.
  pub ltrim_held :
      (key : Bytes) (start stop : ℤ) (elems : List Bytes) (expiry : ℤ) (w : World S)
      → IsInt64 start
      → IsInt64 stop
      → Holds laws now w key (some (elems, expiry))
      → (w' : World S) × (ltrim kv now
            (bulk_of key ∷ bulk_of (format_int start) ∷ bulk_of (format_int stop) ∷ [])
            w
          ≡ (ok ok_reply, w'))
        × Leaves laws now w key
            (left_over (ranged start stop elems) expiry)
            (trim_events key (ranged start stop elems))
            w'
  unfolding ltrim ltrim_at arg_string bulk_bytes
  ltrim_held key start stop elems expiry w h k held =
      let o : Held = some (elems, expiry) in
      let kept = ranged start stop elems in
      let same_elems = between-kept_between start stop elems h k (omega (arith, held.2.0.0)) in
      let storable =
        subst (λ xs. IsStorable xs) same_elems (between-IsStorable start stop elems held.2.0) in
      let (w1, got, same) = read_list-Holds laws now key o w held in
      let (w2, done, leaves) =
        ltrim_done_held key elems kept expiry w1 (Holds-Same laws now w w1 key o same held)
          (left_over-Fits now elems kept expiry storable held.2) in
      (
        w2,
        rw
            (
              ltrim,
              with_bounds,
              arg_int-bulk_of start h,
              arg_int-bulk_of stop k,
              ltrim_at,
              got,
              same_elems,
              done,
            )
            refl,
        Leaves-after_Same laws now w w1 w2 key (left_over kept expiry) (trim_events key kept) same
            leaves,
      )
