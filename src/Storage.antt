-- ===== src/Storage.antt =====
-- The store of internal/storage: memory.go, and the reads and writes of pebble.go. The Pebble
-- database itself is a parameter.
pub mod Policy
pub mod Eviction
pub mod Unlimited
mod Tests
use gedis.Base.{
  ℕ, suc, ◌+◌, Bool, true, false, not, Option, none, some, List, [], ◌∷◌, Bytes, codes, length, ltb,
  if◌then◌else◌, Result, ok, err, panic, out_of_fuel, ◌⊎◌, Table, get, put, remove,
}
use gedis.Base.Int.{ℤ, pos, negsuc, add64, sub64, neg64, ltb_ℤ}
use gedis.Datastruct.Entry.{Entry, CodecError, decode}

-- The database: an error with its text, or a result; `none` where it has no such key.
pub record Engine (D : Type 0) : Type 0 where
  pub db_get : Bytes → D → Bytes ⊎ Option Bytes
  pub db_set : Bytes → Bytes → D → Bytes ⊎ D
  pub db_delete : Bytes → D → Bytes ⊎ D

-- `ErrNotFound`, `ErrOOM`, or an error of the database.
pub data StorageError : Type 0 where
  missing : StorageError
  oom : StorageError
  engine : Bytes → StorageError

-- `lruEntry`; the times are seconds, and nanoseconds for `exp_at`.
pub record Tracked : Type 0 where
  pub at : ℕ
  pub size : ℕ
  pub expires : Bool
  pub exp_at : ℤ
  pub freq : ℕ

-- The calls that leave the store, where the hook or the hub is set: the change hook with its
-- operation, `Hub.Publish` with the value written or none, and the eviction hook.
pub data Call : Type 0 where
  changed : ℕ → Bytes → Call
  published : Bytes → Option Bytes → Call
  evicted_key : Bytes → Call

-- `calls` has the last call first.
pub record Store (D : Type 0) : Type 0 where
  pub db : D
  pub lru : Table Tracked
  pub used : ℤ
  pub max : ℤ
  pub policy : Bytes
  pub evicted : ℕ
  pub calls : List Call

-- Whether the entry that is written has an expiry, and which.
unfoldable pub expiry_of : Bytes → Bool × ℤ
expiry_of value = elim (decode value) [
  | ok e ↦ (elim e.expiry [ pos n ↦ (ltb 0 n, pos n) | negsuc n ↦ (true, negsuc n) ])
  | err e ↦ (false, pos 0)
  | panic ↦ (false, pos 0)
  | out_of_fuel ↦ (false, pos 0)
]

unfoldable pub size_of : Bytes → Bytes → ℕ
size_of key value = length key + length value

-- At most 255.
unfoldable pub next_freq : ℕ → ℕ
next_freq freq = if ltb freq 255 then freq + 1 else freq

module _ {D : Type 0} (now : ℕ) where
  unfoldable pub track_set : Bytes → Bytes → Store D → Store D
  track_set key value s =
      let (expires, exp_at) = expiry_of value in
      let size = size_of key value in
      elim (get key s.lru) [
        | none ↦ record s {
          used = add64 s.used (pos size);
          lru =
              put key
                (record { at = now; size = size; expires = expires; exp_at = exp_at; freq = 1 })
                s.lru;
        }
        | some old ↦ record s {
          used = add64 s.used (sub64 (pos size) (pos old.size));
          lru =
              put key
                (record {
                  at = now;
                  size = size;
                  expires = expires;
                  exp_at = exp_at;
                  freq = next_freq old.freq;
                })
                s.lru;
        }
      ]

  unfoldable pub track_get : Bytes → Store D → Store D
  track_get key s = elim (get key s.lru) [
    | none ↦ s
    | some e ↦ record s { lru = put key (record e { at = now; freq = next_freq e.freq }) s.lru }
  ]

  unfoldable pub track_delete : Bytes → Store D → Store D
  track_delete key s = elim (get key s.lru) [
    | none ↦ s
    | some e ↦ record s { used = add64 s.used (neg64 (pos e.size)); lru = remove key s.lru }
  ]

  unfoldable pub delta_for : Bytes → ℕ → Store D → ℤ
  delta_for key size s = elim (get key s.lru) [
    | none ↦ pos size
    | some e ↦ sub64 (pos size) (pos e.size)
  ]

  unfoldable pub set_max_bytes : ℤ → Store D → Store D
  set_max_bytes n s = record s { max = if ltb_ℤ n (pos 0) then pos 0 else n }

  unfoldable pub called : Call → Store D → Store D
  called c s = record s { calls = c ∷ s.calls }
