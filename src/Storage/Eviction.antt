-- ===== src/Storage/Eviction.antt =====
-- `evictForDelta`, `evictOne` and the store's operations of internal/storage.
pub mod Victims
pub mod Stuck
pub mod Ends
pub mod Bounds
pub mod Room
use gedis.Base.{
  ℕ, zero, suc, ◌+◌, Bool, true, false, ◌&&◌, Option, none, some, List, [], ◌∷◌, Bytes, codes,
  length, bytes_eq, if◌then◌else◌, Result, ok, err, panic, out_of_fuel, ◌⊎◌, inl, inr, Table,
}
use gedis.Base.Int.{ℤ, pos, add64, ltb_ℤ}
use gedis.Storage.{
  Engine, StorageError, missing, oom, engine, Tracked, Call, changed, published, evicted_key, Store,
  size_of, track_set, track_get, track_delete, delta_for, called,
}
use gedis.Storage.Policy.{victim}

-- A step that may fail, after which the store is as it is then.
abbrev pub Op : Type 0 → Type 0 → Type 0
Op D A = Result StorageError A × Store D

-- What the program's runs depend on: the clock, the order in which a loop visits the tracked keys,
-- and, for the keys that are tracked then, whether a draw below n is 0.
pub record Outside : Type 0 where
  pub now : ℕ
  pub order : Table Tracked → Table Tracked
  pub draw : Table Tracked → ℕ → Bool

-- "" stands for the default.
unfoldable pub policy_of : Bytes → Bytes
policy_of policy = if bytes_eq policy [] then codes "allkeys-lru" else policy

module _ {D : Type 0} (db : Engine D) (outside : Outside) where
  -- What a key's removal from the database leaves.
  abbrev pub deleted : Bytes → Store D → D → Store D
  deleted key s d =
      called outside.now (published key none) (track_delete outside.now key (record s { db = d }))

  unfoldable pub delete_internal : Bytes → Store D → Bytes ⊎ Store D
  delete_internal key s = elim (db.db_delete key s.db) [
    | inl e ↦ inl e
    | inr d ↦ inr (deleted key s d)
  ]

  abbrev pub count_evicted : Bytes → Store D → Store D
  count_evicted key s = called outside.now (evicted_key key) (record s { evicted = s.evicted + 1 })

  unfoldable pub evict_key : Bytes → Store D → Bool × Store D
  evict_key key s = elim (delete_internal key s) [
    | inl e ↦ (false, s)
    | inr s' ↦ (true, count_evicted key s')
  ]

  unfoldable pub evict_one : Store D → Bool × Store D
  evict_one s = elim (victim (outside.draw s.lru) (policy_of s.policy) (outside.order s.lru)) [
    | none ↦ (false, s)
    | some v ↦ evict_key v.0 s
  ]

  -- The loop of `evictForDelta`.
  unfoldable pub evict_loop : ℕ → ℤ → Store D → Op D (Unit {0})
  evict_loop zero delta s = (out_of_fuel, s)
  evict_loop (suc fuel) delta s =
      let next = evict_one s in
      let rest = evict_loop fuel delta next.1 in
      if ltb_ℤ s.max (add64 s.used delta)
      then (if next.0 then rest else (err oom, next.1))
      else (ok tt, s)

  -- Each round removes a tracked key, so that one round more than there are keys is enough.
  unfoldable pub evict_for_delta : ℤ → Store D → Op D (Unit {0})
  evict_for_delta delta s =
      if ltb_ℤ (pos 0) s.max then evict_loop (suc (length s.lru)) delta s else (ok tt, s)

  -- `Set`, from the point where there is room.
  unfoldable pub write : Bytes → Bytes → Store D → Op D (Unit {0})
  write key value s = elim (db.db_set key value s.db) [
    | inl e ↦ (err (engine e), s)
    | inr d ↦ (
      ok tt,
      called outside.now (published key (some value)) (
          called outside.now (changed b's' key)
            (track_set outside.now key value (record s { db = d }))),
    )
  ]

  abbrev pub then_write : Bytes → Bytes → Op D (Unit {0}) → Op D (Unit {0})
  then_write key value (ok u, s) = write key value s
  then_write key value (err e, s) = (err e, s)
  then_write key value (panic, s) = (panic, s)
  then_write key value (out_of_fuel, s) = (out_of_fuel, s)

  unfoldable pub set_key : Bytes → Bytes → Store D → Op D (Unit {0})
  set_key key value s =
      then_write key value (evict_for_delta (delta_for outside.now key (size_of key value) s) s)

  unfoldable pub delete_key : Bytes → Store D → Op D (Unit {0})
  delete_key key s = elim (delete_internal key s) [
    | inl e ↦ (err (engine e), s)
    | inr s' ↦ (ok tt, called outside.now (changed b'd' key) s')
  ]

  unfoldable pub get_key : Bytes → Store D → Op D Bytes
  get_key key s = elim (db.db_get key s.db) [
    | inl e ↦ (err (engine e), s)
    | inr found ↦ elim found [
      | none ↦ (err missing, s)
      | some v ↦ (ok v, track_get outside.now key s)
    ]
  ]
