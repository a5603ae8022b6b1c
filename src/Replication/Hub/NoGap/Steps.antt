-- ===== src/Replication/Hub/NoGap/Steps.antt =====
-- The interleaved steps of the threads at the locks of internal/replication/hub.go.
use gedis.Base.{ℕ, ◌+◌, ◌≡◌, false, some, List, [], ◌∷◌, ◌++◌}
use gedis.Base.Int.{ℤ}
use gedis.Replication.Backlog.{Op}
use gedis.Replication.Hub.{
  Channel, Hub, eq_ℤ, update, publish_append, publish_broadcast, subscribe, unsubscribe, close,
}

-- The hub, the writes that are in the backlog and not yet offered to the subscribers, what the
-- watched subscriber has received while its channel was open, and every write that was ever appended.
pub record Sys : Type 0 where
  pub hub : Hub
  pub pending : List Op
  pub received : List (List Op)
  pub log : List Op

-- What any thread may do next: publish, receive from any channel, open or closed, subscribe,
-- unsubscribe or close the hub. `id` is the subscriber that is watched, and no other gets its id.
pub data Step (id : ℤ) (s : Sys) : Sys → Type 0 where
  append_one :
      (op : Op)
      → Step id s (record s {
        hub = (publish_append s.hub op).1;
        pending = s.pending ++ ((publish_append s.hub op).0 ∷ []);
        log = s.log ++ (op ∷ []);
      })
  broadcast_one :
      (xs : List Op) (op : Op) (ys : List Op)
      → s.pending ≡ xs ++ (op ∷ ys)
      → Step id s (record s { hub = publish_broadcast s.hub op; pending = xs ++ ys })
  receive_one :
      (batch : List Op) (rest : Channel)
      → s.hub.subs id ≡ some (batch ∷ rest)
      → Step id s (record s {
        hub = record s.hub { subs = update s.hub.subs id (some rest) };
        received = s.received ++ (batch ∷ []);
      })
  receive_other :
      (j : ℤ) (batch : List Op) (rest : Channel)
      → eq_ℤ id j ≡ false
      → s.hub.subs j ≡ some (batch ∷ rest)
      → Step id s (record s { hub = record s.hub { subs = update s.hub.subs j (some rest) } })
  receive_closed :
      (j : ℤ) (batch : List Op) (rest : Channel)
      → s.hub.closed j ≡ some (batch ∷ rest)
      → Step id s (record s { hub = record s.hub { closed = update s.hub.closed j (some rest) } })
  subscribe_other :
      eq_ℤ id (subscribe s.hub).0 ≡ false → Step id s (record s { hub = (subscribe s.hub).1 })
  unsubscribe_one : (j : ℤ) → Step id s (record s { hub = unsubscribe s.hub j })
  close_all : Step id s (record s { hub = close s.hub })

-- `Run id n s t`: some steps of the threads, of which there are `n`.
pub data Run (id : ℤ) (s : Sys) : ℕ → Sys → Type 0 where
  start : Run id s 0 s
  more : {n : ℕ} {t u : Sys} → Run id s n t → Step id t u → Run id s (n + 1) u
