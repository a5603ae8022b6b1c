-- ===== src/Replication/Hub/NoGap/Claim.antt =====
-- What holds of the hub of internal/replication/hub.go after a subscriber has asked for what it
-- missed.
use gedis.Replication.Hub.NoGap.Accounts.{Accounted}
use gedis.Replication.Hub.NoGap.Steps.{Sys}
use gedis.Base.{In, ℕ, ◌≤◌, ◌≡◌, some, List, ◌++◌, length}
use gedis.Base.Int.{ℤ}
use gedis.Replication.Backlog.{Op}
use gedis.Replication.Backlog.History.{numbered, backlog_of}
use gedis.Replication.Hub.{Channel}

-- Since the subscriber asked for the missed writes, when the backlog held `history`: `new` is what
-- has been appended, and every write of it is accounted for while the channel is open.
pub record Inv (id : ℤ) (max : ℕ) (history : List Op) (n : ℕ) (s : Sys) : Type 0 where
  pub new : List Op
  pub few : length new ≤ n
  pub logged : s.log ≡ history ++ new
  pub holds : s.hub.backlog ≡ backlog_of max (history ++ new)
  pub seen :
      (buf : Channel)
      → s.hub.subs id ≡ some buf
      → (o : Op) → In o (numbered (length history) new)
      → Accounted o s.pending s.received buf
