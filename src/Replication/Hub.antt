-- ===== src/Replication/Hub.antt =====
-- internal/replication/hub.go: the fan-out of writes to the replicas. `Publish` and `SubscribeSince`
-- hold two locks one after the other, so each is two steps; every other method is one.
pub mod NoGap
use gedis.Base.{
  ℕ, ◌+◌, ◌-◌, Bool, Option, none, some, List, [], ◌∷◌, ◌++◌, Result, ok, err, length, ltb, ◌==◌,
  if◌then◌else◌,
}
use gedis.Base.Int.{ℤ, pos, pos_part, neg_part, add64}
use gedis.Replication.Backlog
use gedis.Replication.Backlog.{Op, Backlog, BacklogError}

abbrev pub sub_buf_size : ℕ
sub_buf_size = 256

-- What is in a subscriber's channel: batches that were sent and not yet received.
abbrev pub Channel : Type 0
Channel = List (List Op)

-- `subs` is the map from id to open channel; `closed` is what a closed channel still holds.
pub record Hub : Type 0 where
  pub backlog : Backlog
  pub subs : ℤ → Option Channel
  pub next_sub : ℤ
  pub closed : ℤ → Option Channel

abbrev pub eq_ℤ : ℤ → ℤ → Bool
eq_ℤ a b = pos_part a + neg_part b == pos_part b + neg_part a

abbrev pub update {ℓ} : {A : Type ℓ} → (ℤ → A) → ℤ → A → ℤ → A
update f id v j = if eq_ℤ j id then v else f j

abbrev pub or_else {ℓ} : {A : Type ℓ} → Option A → Option A → Option A
or_else none b = b
or_else (some a) b = some a

-- `NewHub`
unfoldable pub new_hub : ℤ → Hub
new_hub max_ops = record {
  backlog = Backlog.new_backlog max_ops;
  subs = λ id. none;
  next_sub = pos 0;
  closed = λ id. none;
}

-- The first step of `Publish`: append to the backlog. The result carries its offset.
unfoldable pub publish_append : Hub → Op → Op × Hub
publish_append h op =
    let (offset, b) = Backlog.append h.backlog op in
    (record op { offset = offset }, record h { backlog = b })

-- `select { case ch <- []Op{op}: default: close(ch); delete(h.subs, id) }`: the channel that stays
-- open, and the one that is closed
unfoldable pub offer : Op → Option Channel → Option Channel
offer op none = none
offer op (some buf) = if ltb (length buf) sub_buf_size then some (buf ++ ((op ∷ []) ∷ [])) else none

unfoldable pub overrun : Option Channel → Option Channel
overrun none = none
overrun (some buf) = if ltb (length buf) sub_buf_size then none else some buf

-- The second step of `Publish`: offer the write to every subscriber.
unfoldable pub publish_broadcast : Hub → Op → Hub
publish_broadcast h op = record h {
  subs = λ id. offer op (h.subs id);
  closed = λ id. or_else (overrun (h.subs id)) (h.closed id);
}

-- `Publish` with nothing between its steps
unfoldable pub publish : Hub → Op → ℤ × Hub
publish h op = let (op', h') = publish_append h op in (op'.offset, publish_broadcast h' op')

-- `Subscribe`, and the first step of `SubscribeSince`
unfoldable pub subscribe : Hub → ℤ × Hub
subscribe h =
    let id = add64 h.next_sub (pos 1) in
    (id, record h { next_sub = id; subs = update h.subs id (some []) })

-- `Unsubscribe`; it does nothing to an id that has no open channel
unfoldable pub unsubscribe : Hub → ℤ → Hub
unsubscribe h id = record h {
  subs = update h.subs id none;
  closed = update h.closed id (or_else (h.subs id) (h.closed id));
}

-- The second step of `SubscribeSince`: the id and the missed writes, or `none` where the offset is
-- stale and the subscription is taken back
unfoldable pub since_or_leave : Hub → ℤ → Result BacklogError (List Op) → Option (ℤ × List Op) × Hub
since_or_leave h id (ok missed) = (some (id, missed), h)
since_or_leave h id _ = (none, unsubscribe h id)

unfoldable pub subscribe_since : Hub → ℤ → Option (ℤ × List Op) × Hub
subscribe_since h offset =
    let (id, h') = subscribe h in since_or_leave h' id (Backlog.since h'.backlog offset)

-- `Close`
unfoldable pub close : Hub → Hub
close h = record h { subs = λ id. none; closed = λ id. or_else (h.subs id) (h.closed id) }
