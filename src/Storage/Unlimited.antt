-- ===== src/Storage/Unlimited.antt =====
-- The store of internal/storage without a memory limit as the store that the handlers of
-- internal/commands use.
use gedis.Base.{
  ◌≡◌, refl, ap, ◌∙◌, false, Option, none, some, Bytes, codes, bytes_eq, if◌then◌else◌, Result, ok,
  err, panic, out_of_fuel, inl, inr, Option-cases, get,
}
use gedis.Base.Int.{pos, ltb_ℤ}
use gedis.Storage.{
  Engine, StorageError, missing, oom, engine, Store, changed, published, track_set, track_get,
  track_delete, called,
}
use gedis.Storage.Eviction.{
  Op, Outside, deleted, delete_internal, evict_for_delta, write, set_key, get_key, delete_key,
}
use gedis.Commands.Store.{Failure, not_found, other, Kv, KvLaws, answer}

-- A database without failures, whose states show a value for a key.
pub record EngineLaws {D : Type 0} (db : Engine D) : Type 0 where
  pub look : D → Bytes → Option Bytes
  pub get_law : (d : D) (k : Bytes) → db.db_get k d ≡ inr (look d k)
  pub set_law :
      (d : D) (k v : Bytes)
      → (d' : D) × (db.db_set k v d ≡ inr d')
        × ((j : Bytes) → look d' j ≡ (if bytes_eq j k then some v else look d j))
  pub delete_law :
      (d : D) (k : Bytes)
      → (d' : D) × (db.db_delete k d ≡ inr d')
        × ((j : Bytes) → look d' j ≡ (if bytes_eq j k then none else look d j))

-- The errors as the handlers meet them, those of the database by their own text.
unfoldable pub failure_of : StorageError → Failure
failure_of missing = not_found
failure_of oom = other (codes "OOM command not allowed when used memory > 'maxmemory'")
failure_of (engine text) = other text

abbrev pub as_result : {A D : Type 0} → Op D A → Result Failure A × Store D
as_result (ok a, s) = (ok a, s)
as_result (err e, s) = (err (failure_of e), s)
as_result (panic, s) = (panic, s)
as_result (out_of_fuel, s) = (out_of_fuel, s)

module _ {D : Type 0} (db : Engine D) (outside : Outside) where
  abbrev pub storage : Kv (Store D)
  storage = record {
    get_raw = λ k s. as_result (get_key db outside k s);
    set_raw = λ k v s. as_result (set_key db outside k v s);
    delete_raw = λ k s. as_result (delete_key db outside k s);
  }

  -- The tracking of a key changes neither the database nor the limit.
  abbrev Kept : Store D → Store D → Type 0
  Kept s s' = (s'.db ≡ s.db) × (s'.max ≡ s.max)

  track_get-Kept : (k : Bytes) (s : Store D) → Kept s (track_get outside.now k s)
  unfolding track_get
  track_get-Kept k s = elim (Option-cases (get k s.lru)) [
    | inl new ↦ (rw (track_get, new) refl, rw (track_get, new) refl)
    | inr (e, old) ↦ (rw (track_get, old) refl, rw (track_get, old) refl)
  ]

  track_set-Kept : (k v : Bytes) (s : Store D) → Kept s (track_set outside.now k v s)
  unfolding track_set
  track_set-Kept k v s = elim (Option-cases (get k s.lru)) [
    | inl new ↦ (rw (track_set, new) refl, rw (track_set, new) refl)
    | inr (e, old) ↦ (rw (track_set, old) refl, rw (track_set, old) refl)
  ]

  track_delete-Kept : (k : Bytes) (s : Store D) → Kept s (track_delete outside.now k s)
  unfolding track_delete
  track_delete-Kept k s = elim (Option-cases (get k s.lru)) [
    | inl new ↦ (rw (track_delete, new) refl, rw (track_delete, new) refl)
    | inr (e, old) ↦ (rw (track_delete, old) refl, rw (track_delete, old) refl)
  ]

  abbrev pub IsUnlimited : Store D → Type 0
  IsUnlimited s = ltb_ℤ (pos 0) s.max ≡ false

  module _ (laws : EngineLaws db) where
    abbrev pub look_in : Store D → Bytes → Option Bytes
    look_in s k = laws.look s.db k

    pub get_storage :
        (s : Store D) (k : Bytes)
        → IsUnlimited s
        → (s' : Store D) × (storage.get_raw k s ≡ (answer (look_in s k), s'))
          × IsUnlimited s'
          × ((j : Bytes) → look_in s' j ≡ look_in s j)
    unfolding get_key answer failure_of
    get_storage s k free = elim (Option-cases (look_in s k)) [
      | inl nothing ↦ (s, rw (get_key, laws.get_law s.db k, nothing) refl, free, λ j. refl)
      | inr (v, found) ↦
          let (same, limit) = track_get-Kept k s in
          (
            track_get outside.now k s,
            rw (get_key, laws.get_law s.db k, found) refl,
            ap (ltb_ℤ (pos 0)) limit ∙ free,
            λ j. ap (λ d. laws.look d j) same,
          )
    ]

    pub set_storage :
        (s : Store D) (k v : Bytes)
        → IsUnlimited s
        → (s' : Store D) × (storage.set_raw k v s ≡ (ok tt, s'))
          × IsUnlimited s'
          × ((j : Bytes) → look_in s' j ≡ (if bytes_eq j k then some v else look_in s j))
    unfolding set_key evict_for_delta write called
    set_storage s k v free =
        let (d', done, shows) = laws.set_law s.db k v in
        let s1 : Store D = record s { db = d' } in
        let (same, limit) = track_set-Kept k v s1 in
        (
          called outside.now (published k (some v))
              (called outside.now (changed b's' k) (track_set outside.now k v s1)),
          rw (set_key, evict_for_delta, free, write, done) refl,
          ap (ltb_ℤ (pos 0)) limit ∙ free,
          λ j. ap (λ d. laws.look d j) same ∙ shows j,
        )

    pub delete_storage :
        (s : Store D) (k : Bytes)
        → IsUnlimited s
        → (s' : Store D) × (storage.delete_raw k s ≡ (ok tt, s'))
          × IsUnlimited s'
          × ((j : Bytes) → look_in s' j ≡ (if bytes_eq j k then none else look_in s j))
    unfolding delete_key delete_internal called
    delete_storage s k free =
        let (d', done, shows) = laws.delete_law s.db k in
        let s1 : Store D = record s { db = d' } in
        let (same, limit) = track_delete-Kept k s1 in
        (
          called outside.now (changed b'd' k) (deleted db outside k s d'),
          rw (delete_key, delete_internal, done) refl,
          ap (ltb_ℤ (pos 0)) limit ∙ free,
          λ j. ap (λ d. laws.look d j) same ∙ shows j,
        )

    -- Over a database without failures, the store without a limit is one.
    unfoldable pub storage_laws : KvLaws storage
    storage_laws = record {
      IsValid = IsUnlimited;
      look = look_in;
      get_law = get_storage;
      set_law = set_storage;
      delete_law = delete_storage;
    }
