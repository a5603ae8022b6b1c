-- ===== src/Commands/Counters/Exact.antt =====
-- INCR and its kin on a key that has a number.
use gedis.Base.{
  ℕ, ◌+◌, ◌-◌, ◌^◌, ◌<◌, ◌≡◌, refl, sym, ap, ◌∙◌, Bool, true, false, Option, none, some, List, [],
  ◌∷◌, ◌++◌, Bytes, codes, bytes_eq, if◌then◌else◌, Result, ok, err, arith, Bool-cases, inl, inr,
  ◌⊎◌, absurd_Bool,
}
use gedis.Base.Int.{ℤ, pos, negsuc, IsInt64, add64, neg64, ◌+ℤ◌}
use gedis.Base.Text.Decimal.{format_int, parse_int-format_int}
use gedis.Protocol.Value.{integer, bulk_of}
use gedis.Sentinel.Answer.{arg_string, bulk_bytes}
use gedis.Datastruct.Entry.{encode, type_string, string_key}
use gedis.Commands.Store.{Kv, KvLaws, Event, World, noted, notify}
use gedis.Commands.Arguments.{arg_int}
use gedis.Commands.Lookup.{type_prefixes, is_expired, lookup_key}
use gedis.Commands.Lookup.Laws.{Same, Shows, first_value, lookup_raw_live, set_call}
use gedis.Commands.Counters.{
  min_int64, would_overflow, overflow_error, get_entry, add_to, add_to_entry, incr_key, incr_by,
  decrby,
}
use gedis.Commands.Counters.Overflow.{guard, exact_sum}

abbrev pub incr_event : Bytes → Event
incr_event key = (codes "$", (codes "incrby", key))

sum_fits : (n : ℕ) → n < 2 ^ 63 → IsInt64 (pos n +ℤ min_int64)
unfolding ◌+ℤ◌
sum_fits n h = ground arith

least_stays : neg64 min_int64 ≡ min_int64
unfolding neg64 gedis.Base.Int.◌-ℤ◌
least_stays = refl

module _ {S : Type 0} {kv : Kv S} (laws : KvLaws kv) (now : ℤ) where
  -- The key has a live string entry with this payload.
  abbrev pub HasString : World S → Bytes → (Bytes → Option Bytes) → Bytes → ℤ → Type 0
  HasString w key f payload expiry =
      laws.IsValid w.store
      × Shows laws now w key f type_prefixes
      × (first_value f type_prefixes ≡ some (codes "s:", encode type_string expiry payload))
      × IsInt64 expiry
      × (is_expired now expiry ≡ false)

  -- Only the string at the key has changed, and `Notify` was called once.
  abbrev pub Sets : World S → Bytes → Bytes → ℤ → World S → Type 0
  Sets w key payload expiry w' =
      laws.IsValid w'.store
      × ((j : Bytes)
          → laws.look w'.store j ≡ (
              if bytes_eq j (string_key key)
              then some (encode type_string expiry payload)
              else laws.look w.store j))
      × (w'.events ≡ incr_event key ∷ w.events)
      × (w'.expired ≡ w.expired)

  get_entry-HasString :
      (key : Bytes) (f : Bytes → Option Bytes) (payload : Bytes) (expiry : ℤ) (w : World S)
      → HasString w key f payload expiry
      → (w' : World S) × (get_entry kv now key w
          ≡ (ok (record { kind = type_string; expiry = expiry; payload = payload }), w'))
        × Same laws now w w'
  unfolding get_entry lookup_key
  get_entry-HasString key f payload expiry w (valid, shows, first, int64, live) =
      let (w', eq, same) =
        lookup_raw_live laws now key (codes "s:") f type_string expiry payload w valid shows first
          int64 live in
      (w', rw (get_entry, lookup_key, eq) refl, same)

  add_to_sum :
      (key : Bytes) (delta cur expiry : ℤ) (w : World S)
      → laws.IsValid w.store
      → would_overflow cur delta ≡ false
      → add64 cur delta ≡ cur +ℤ delta
      → (w' : World S) × (add_to kv now key delta cur expiry w ≡ (ok (integer (cur +ℤ delta)), w'))
        × Sets w key (format_int (cur +ℤ delta)) expiry w'
  unfolding add_to notify
  add_to_sum key delta cur expiry w valid fits exact =
      let (w', done, (valid', shows, events, expired)) =
        set_call laws now w (string_key key) (encode type_string expiry (format_int (cur +ℤ delta)))
          valid in
      (
        noted (incr_event key) w',
        rw (add_to, fits, exact, done) refl,
        (valid', shows, ap (◌∷◌ (incr_event key)) events, expired),
      )

  Sets-after_Same :
      (a b c : World S) (key payload : Bytes) (expiry : ℤ)
      → Same laws now a b
      → Sets b key payload expiry c
      → Sets a key payload expiry c
  Sets-after_Same a b c key payload expiry same (valid, shows, events, expired) = (
    valid,
    λ j.
        shows j
        ∙ ap
            (λ v.
              if bytes_eq j (string_key key) then some (encode type_string expiry payload) else v)
            (same.1 j),
    events ∙ ap (◌∷◌ (incr_event key)) same.2,
    expired ∙ same.3,
  )

  refused :
      (cur delta : ℤ)
      → IsInt64 cur
      → IsInt64 delta
      → ¬ IsInt64 (cur +ℤ delta)
      → would_overflow cur delta ≡ true
  refused cur delta h k beyond = elim (Bool-cases (would_overflow cur delta)) [
    | inl over ↦ over
    | inr fits ↦ absurd (beyond ((guard cur delta h k).0 fits))
  ]

  incr_key_both :
      (key : Bytes) (f : Bytes → Option Bytes) (delta cur expiry : ℤ) (w : World S)
      → IsInt64 cur
      → IsInt64 delta
      → HasString w key f (format_int cur) expiry
      → (IsInt64 (cur +ℤ delta)
          → (w' : World S) × (incr_key kv now key delta w ≡ (ok (integer (cur +ℤ delta)), w'))
            × Sets w key (format_int (cur +ℤ delta)) expiry w')
        × (¬ IsInt64 (cur +ℤ delta)
            → (w' : World S) × (incr_key kv now key delta w ≡ (ok overflow_error, w'))
              × Same laws now w w')
  unfolding incr_key add_to_entry add_to
  incr_key_both key f delta cur expiry w h k has =
      let (w1, got, same) = get_entry-HasString key f (format_int cur) expiry w has in
      (
        λ fits.
            let (w2, done, sets) =
              add_to_sum key delta cur expiry w1 same.0 ((guard cur delta h k).1 fits)
                (exact_sum cur delta fits) in
            (
              w2,
              rw (incr_key, got, add_to_entry, parse_int-format_int cur h, done) refl,
              Sets-after_Same w w1 w2 key (format_int (cur +ℤ delta)) expiry same sets,
            ),
        λ beyond. (
          w1,
          rw
              (
                incr_key,
                got,
                add_to_entry,
                parse_int-format_int cur h,
                add_to,
                refused cur delta h k beyond,
              )
              refl,
          same,
        ),
      )

  not_within :
      (cur delta : ℤ)
      → IsInt64 cur
      → IsInt64 delta
      → would_overflow cur delta ≡ true
      → ¬ IsInt64 (cur +ℤ delta)
  not_within cur delta h k over fits = absurd_Bool (sym over ∙ (guard cur delta h k).1 fits)

  -- `incrBy` on a key that has an int64 in decimal: where the exact sum is an int64, the reply is the
  -- sum, and the key has it in decimal with the expiry it had; else the reply is the overflow error
  -- and nothing changes.
  pub incr_key_sum :
      (key : Bytes) (f : Bytes → Option Bytes) (delta cur expiry : ℤ) (w : World S)
      → IsInt64 cur
      → IsInt64 delta
      → HasString w key f (format_int cur) expiry
      → (IsInt64 (cur +ℤ delta)
          × ((w' : World S) × (incr_key kv now key delta w ≡ (ok (integer (cur +ℤ delta)), w'))
              × Sets w key (format_int (cur +ℤ delta)) expiry w'))
        ⊎ ((¬ IsInt64 (cur +ℤ delta))
            × ((w' : World S) × (incr_key kv now key delta w ≡ (ok overflow_error, w'))
                × Same laws now w w'))
  incr_key_sum key f delta cur expiry w h k has =
      let (sums, refuses) = incr_key_both key f delta cur expiry w h k has in
      elim (Bool-cases (would_overflow cur delta)) [
        | inl over ↦ let beyond = not_within cur delta h k over in inr (beyond, refuses beyond)
        | inr safe ↦ let fits = (guard cur delta h k).0 safe in inl (fits, sums fits)
      ]

  -- DECRBY by the least int64, on a key with a number that is not negative: the reply is the number
  -- plus the least int64, in place of the overflow error for the number less it.
  pub decrby_least :
      (key : Bytes) (f : Bytes → Option Bytes) (n : ℕ) (expiry : ℤ) (w : World S)
      → n < 2 ^ 63
      → HasString w key f (format_int (pos n)) expiry
      → (w' : World S) × (decrby kv now (bulk_of key ∷ bulk_of (format_int min_int64) ∷ []) w
          ≡ (ok (integer (pos n +ℤ min_int64)), w'))
        × Sets w key (format_int (pos n +ℤ min_int64)) expiry w'
  unfolding decrby incr_by arg_int arg_string bulk_bytes
  decrby_least key f n expiry w h has =
      let (w', done, sets) =
        (incr_key_both key f min_int64 (pos n) expiry w (omega arith) (omega arith) has).0
          (sum_fits n h) in
      (w', rw (decrby, parse_int-format_int min_int64 (omega arith), least_stays) done, sets)
