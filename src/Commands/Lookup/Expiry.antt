-- ===== src/Commands/Lookup/Expiry.antt =====
-- What a lookup does with an entry whose time has come.
use gedis.Base.{
  ℕ, ◌+◌, ◌≡◌, refl, ap, ◌∙◌, true, Option, none, some, ◌∷◌, ◌++◌, Bytes, codes, bytes_eq,
  if◌then◌else◌, err,
}
use gedis.Base.Int.{ℤ, IsInt64}
use gedis.Datastruct.Entry.{encode, decode-encode, hash_exp_key}
use gedis.Commands.Store.{not_found, Kv, KvLaws, World, Event, noted, notify, inc_expired}
use gedis.Commands.Lookup.{
  type_prefixes, is_expired, of_codec, ignored, expire_now, open_entry, lookup_raw,
}
use gedis.Commands.Lookup.Laws.{Shows, first_value, lookup_in-Shows, delete_call}

module _ {S : Type 0} {kv : Kv S} (laws : KvLaws kv) (now : ℤ) where
  abbrev pub expired_event : Bytes → Event
  expired_event key = (codes "x", (codes "expired", key))

  -- The state after a passive expiry: the stored key and the key for the expiry of hash fields are
  -- gone, every other key is as it was, and the expiry is counted and notified.
  abbrev pub Expires : World S → Bytes → Bytes → World S → Type 0
  Expires w key raw w' =
      laws.IsValid w'.store
      × ((j : Bytes)
          → laws.look w'.store j ≡ (
              if bytes_eq j (hash_exp_key key)
              then none
              else if bytes_eq j raw
              then none
              else laws.look w.store j))
      × (w'.events ≡ expired_event key ∷ w.events)
      × (w'.expired ≡ w.expired + 1)

  expire_now-Expires :
      (w : World S) (raw key : Bytes)
      → laws.IsValid w.store
      → (w' : World S) × (expire_now kv now raw key w ≡ (err not_found, w')) × Expires w key raw w'
  unfolding expire_now ignored inc_expired notify
  expire_now-Expires w raw key valid =
      let (w1, gone, (valid1, shows1, events1, count1)) = delete_call laws now w raw valid in
      let (w2, gone', (valid2, shows2, events2, count2)) =
        delete_call laws now w1 (hash_exp_key key) valid1 in
      (
        noted (expired_event key)
            (record { store = w2.store; events = w2.events; expired = w2.expired + 1 }),
        rw (expire_now, ignored, gone, gone') refl,
        (
          valid2,
          λ j. shows2 j ∙ ap (λ v. if bytes_eq j (hash_exp_key key) then none else v) (shows1 j),
          ap (◌∷◌ (expired_event key)) (events2 ∙ events1),
          ap (λ n. n + 1) (count2 ∙ count1),
        ),
      )

  -- Where the first prefix with a value has an entry whose time has come, the lookup answers that
  -- there is no key, and removes the entry.
  pub lookup_raw_expired :
      (key p : Bytes) (f : Bytes → Option Bytes) (kind : ℕ) (expiry : ℤ) (payload : Bytes)
      (w : World S)
      → laws.IsValid w.store
      → Shows laws now w key f type_prefixes
      → first_value f type_prefixes ≡ some (p, encode kind expiry payload)
      → IsInt64 expiry
      → is_expired now expiry ≡ true
      → (w' : World S) × (lookup_raw kv now key w ≡ (err not_found, w'))
        × Expires w key (p ++ key) w'
  unfolding lookup_raw open_entry of_codec
  lookup_raw_expired key p f kind expiry payload w valid shows first fits over =
      let (w1, eq, same) = lookup_in-Shows laws now key f type_prefixes w valid shows in
      let (w2, done, (valid2, shows2, events2, count2)) =
        expire_now-Expires w1 (p ++ key) key same.0 in
      (
        w2,
        eq ∙ rw (first, open_entry, decode-encode kind expiry payload fits, over) done,
        (
          valid2,
          λ j.
              shows2 j
              ∙ ap
                  (λ v.
                    if bytes_eq j (hash_exp_key key)
                    then none
                    else if bytes_eq j (p ++ key)
                    then none
                    else v)
                  (same.1 j),
          events2 ∙ ap (◌∷◌ (expired_event key)) same.2,
          count2 ∙ ap (λ n. n + 1) same.3,
        ),
      )
