-- ===== src/Commands/Lists/Stored.antt =====
-- What reading, writing and deleting a list does to a store that does not fail.
use gedis.Base.{
  ◌≡◌, ◌≢◌, refl, ap, ◌∙◌, false, Option, none, some, List, [], ◌++◌, Bytes, codes, bytes_eq,
  if◌then◌else◌, Result, ok, err,
}
use gedis.Base.Int.{ℤ, IsInt64}
use gedis.Datastruct.Entry.{encode, type_list, list_key}
use gedis.Datastruct.ListCodec.{encode_list, decode_list-encode_list, IsStorable}
use gedis.Commands.Store.{Failure, not_found, Kv, KvLaws, Event, World}
use gedis.Commands.Lookup.{type_prefixes, is_expired, of_codec, lookup_raw, lookup_key}
use gedis.Commands.Lookup.Laws.{Same, Shows, Shows-Same, lookup_in-Shows, lookup_raw_live}
use gedis.Commands.Lists.{list_of_entry, read_list}

-- A user's key that is missing, or has a list with its expiry.
abbrev pub Held : Type 0
Held = Option (List Bytes × ℤ)

abbrev pub stored : Held → Option Bytes
stored none = none
stored (some (elems, expiry)) = some (encode type_list expiry (encode_list elems))

abbrev pub at_list : Option Bytes → Bytes → Option Bytes
at_list v q = if bytes_eq q (codes "l:") then v else none

abbrev pub Fits : ℤ → Held → Type 0
Fits now none = Unit
Fits now (some (elems, expiry)) =
    IsStorable elems × IsInt64 expiry × (is_expired now expiry ≡ false)

-- What `readList` answers.
abbrev pub read_answer : Held → Result Failure (List Bytes × ℤ)
read_answer none = err not_found
read_answer (some held) = ok held

module _ {S : Type 0} {kv : Kv S} (laws : KvLaws kv) (now : ℤ) where
  -- The key has exactly this: its list under "l:", and nothing under the other types' prefixes.
  abbrev pub Holds : World S → Bytes → Held → Type 0
  Holds w key o =
      laws.IsValid w.store × Shows laws now w key (at_list (stored o)) type_prefixes × Fits now o

  -- No other key of the store has changed.
  abbrev pub Untouched : World S → Bytes → World S → Type 0
  Untouched w key w' = (j : Bytes) → j ≢ list_key key → laws.look w'.store j ≡ laws.look w.store j

  -- What a handler leaves: what the key has, every other key as it was, and these calls of
  -- `Notify`, the last one first.
  abbrev pub Leaves : World S → Bytes → Held → List Event → World S → Type 0
  Leaves w key o es w' = Holds w' key o × Untouched w key w' × (w'.events ≡ es ++ w.events)

  pub Holds-Same :
      (w w' : World S) (key : Bytes) (o : Held)
      → Same laws now w w'
      → Holds w key o
      → Holds w' key o
  Holds-Same w w' key o same (valid, shows, fits) =
      (same.0, Shows-Same laws now w w' key (at_list (stored o)) type_prefixes same shows, fits)

  pub Leaves-Same :
      (w w' : World S) (key : Bytes) (o : Held)
      → Same laws now w w'
      → Holds w key o
      → Leaves w key o [] w'
  Leaves-Same w w' key o same held = (Holds-Same w w' key o same held, λ j other. same.1 j, same.2)

  -- The steps of a handler after its read.
  pub Leaves-after_Same :
      (a b c : World S) (key : Bytes) (o : Held) (es : List Event)
      → Same laws now a b
      → Leaves b key o es c
      → Leaves a key o es c
  Leaves-after_Same a b c key o es same (held, untouched, events) =
      (held, λ j other. untouched j other ∙ same.1 j, events ∙ ap (◌++◌ es) same.2)

  list_of_entry_held :
      (elems : List Bytes) (expiry : ℤ)
      → IsStorable elems
      → list_of_entry kv now
          (record { kind = type_list; expiry = expiry; payload = encode_list elems })
        ≡ ok (elems, expiry)
  unfolding list_of_entry of_codec
  list_of_entry_held elems expiry h = rw (decode_list-encode_list elems h) refl

  pub read_list-Holds :
      (key : Bytes) (o : Held) (w : World S)
      → Holds w key o
      → (w' : World S) × (read_list kv now key w ≡ (read_answer o, w')) × Same laws now w w'
  unfolding read_list lookup_key type_prefixes lookup_raw
  read_list-Holds key none w (valid, shows, fits) =
      let (w', eq, same) =
        lookup_in-Shows laws now key (at_list none) type_prefixes w valid shows in
      (w', rw eq refl, same)
  read_list-Holds key (some (elems, expiry)) w (valid, shows, (storable, int64, live)) =
      let (w', eq, same) =
        lookup_raw_live laws now key (codes "l:") (at_list (stored (some (elems, expiry))))
          type_list expiry (encode_list elems) w valid shows refl int64 live in
      (w', rw (eq, list_of_entry_held elems expiry storable) refl, same)
