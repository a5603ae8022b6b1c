-- ===== src/Replication/Hub/NoGap.antt =====
-- A replica that subscribes while other threads publish misses no write. The threads interleave at
-- the hub's and the backlog's locks (internal/replication/hub.go).
pub mod Accounts
pub mod Steps
mod Claim
mod Channels
mod Invariant
use Accounts.{Accounted}
use Steps.{Sys, Run}
use Claim.{Inv}
use Invariant.{Inv-Run, Inv-start}
use gedis.Base.{
  In, In-split, In-append_right, ℕ, zero, suc, length-drop, ◌+◌, ◌-◌, ◌^◌, ◌<◌, ◌≤◌, ◌≡◌, ◌≢◌, ◌⊎◌,
  inl, inr, refl, sym, ap, ◌∙◌, Bool, true, false, Option, none, some, List, [], ◌∷◌, ◌++◌, Result,
  ok, err, length, length-append, append_assoc, append-nil, drop, ltb, if◌then◌else◌, arith,
}
use gedis.Base.Int.{ℤ, pos, add64}
use gedis.Replication.Backlog
use gedis.Replication.Backlog.{Op, Backlog}
use gedis.Replication.Backlog.History.{
  numbered, numbered-snoc, backlog_of, append-backlog_of, since-backlog_of,
}
use gedis.Replication.Hub.{
  Channel, Hub, eq_ℤ, update, or_else, offer, publish_append, publish_broadcast, subscribe,
  unsubscribe,
}

drop-append_le : (m : ℕ) (xs ys : List Op) → m ≤ length xs → drop m (xs ++ ys) ≡ drop m xs ++ ys
drop-append_le zero xs ys h = refl
drop-append_le (suc m) [] ys h = elim h [ ]
drop-append_le (suc m) (x ∷ xs) ys h = drop-append_le m xs ys (omega arith)

numbered-append :
    (k j : ℕ) (xs ys : List Op)
    → k + length xs ≡ j
    → numbered k (xs ++ ys) ≡ numbered k xs ++ numbered j ys
unfolding numbered
numbered-append k j [] ys e = ap (λ i. numbered i ys) (omega arith)
numbered-append k j (x ∷ xs) ys e =
    ap (◌∷◌ (record x { offset = pos (k + 1) })) (numbered-append (k + 1) j xs ys (omega arith))

later_writes :
    (m : ℕ) (history new : List Op)
    → m ≤ length history
    → numbered m (drop m (history ++ new))
      ≡ numbered m (drop m history) ++ numbered (length history) new
later_writes m history new h =
    ap (numbered m) (drop-append_le m history new h)
    ∙ numbered-append m (length history) (drop m history) new (omega (arith, length-drop m history))

missed_lem :
    (max m : ℕ) (history missed : List Op)
    → Backlog.since (backlog_of max history) (pos m) ≡ ok missed
    → missed ≡ numbered m (drop m history)
missed_lem max m history missed e = ground (arith, since-backlog_of max m history)

-- A replica that has writes 1 to `m` and holds the channel `id` asks for the missed writes in `s`. In
-- every state that the threads can reach from there, as long as the channel is open, each write
-- after `m` is among the missed ones, or received, or in the channel, or about to be offered to it.
-- The writes before and the steps of the threads are together fewer than 2^63.
pub no_gap :
    (id : ℤ) (max m n : ℕ) (s t : Sys) (missed : List Op) (buf : Channel) (o : Op)
    → s.hub.backlog ≡ backlog_of max s.log
    → m ≤ length s.log
    → Backlog.since s.hub.backlog (pos m) ≡ ok missed
    → Run id s n t
    → length s.log + n < 2 ^ 63
    → t.hub.subs id ≡ some buf
    → In o (numbered m (drop m t.log))
    → In o missed ⊎ Accounted o t.pending t.received buf
no_gap id max m n s t missed buf o held le asked run small open_now h =
    let v : Inv id max s.log n t =
      Inv-Run id max s.log (Inv-start id max s.log s refl held) run small in
    let split : In o (numbered m (drop m s.log)) ⊎ In o (numbered (length s.log) v.new) =
      In-split o _ _ (rw (v.logged, later_writes m s.log v.new le) at h) in
    elim split [
      | inl old ↦ inl (rw (missed_lem max m s.log missed (rw held at asked)) old)
      | inr now ↦ inr (v.seen buf open_now o now)
    ]
