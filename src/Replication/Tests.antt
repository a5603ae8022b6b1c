-- ===== src/Replication/Tests.antt =====
-- Concrete runs of internal/replication, and its theorems at concrete inputs.
use gedis.Base.{
  ℕ, ◌-◌, ◌≡◌, ◌⊎◌, inl, refl, false, some, List, [], ◌∷◌, ◌++◌, codes, ok, err, length, drop, ltb,
  if◌then◌else◌, In, arith,
}
use gedis.Base.Int.{pos, add64}
use gedis.Replication.Backlog
use gedis.Replication.Backlog.{Op, Backlog, stale_offset}
use gedis.Replication.Backlog.History.{
  numbered, backlog_of, append-backlog_of, since-backlog_of, append_all, append_all-new_backlog,
}
use gedis.Replication.Hub
use gedis.Replication.Hub.NoGap.Accounts.{Accounted}
use gedis.Replication.Hub.NoGap.Steps.{Sys, append_one, broadcast_one, receive_other, start, more}
use gedis.Replication.Hub.NoGap.{no_gap}

abbrev write : ℕ → Op
write n = record { offset = pos 0; del = false; key = codes "k"; value = n ∷ [] }

abbrev three : List Op
three = write 1 ∷ write 2 ∷ write 3 ∷ []

append-backlog_of_example :
    Backlog.append (backlog_of 2 three) (write 4) ≡ (pos 4, backlog_of 2 (three ++ (write 4 ∷ [])))
append-backlog_of_example = append-backlog_of 2 three (write 4) (omega arith)

since-backlog_of_example :
    Backlog.since (backlog_of 2 three) (pos 2)
    ≡ (if ltb 2 (length three - 2) then err stale_offset else ok (numbered 2 (drop 2 three)))
since-backlog_of_example = since-backlog_of 2 2 three

append_all-new_backlog_example :
    (append_all (Backlog.new_backlog (pos 2)) three
      ≡ backlog_of (Backlog.new_backlog (pos 2)).max three)
    × (Backlog.latest (append_all (Backlog.new_backlog (pos 2)) three) ≡ pos 3)
append_all-new_backlog_example = append_all-new_backlog (pos 2) three (omega arith)

-- Two subscribers, of which the first is watched.
abbrev subscribed : Sys
subscribed = record {
  hub = (Hub.subscribe (Hub.subscribe (Hub.new_hub (pos 4))).1).1;
  pending = [];
  received = [];
  log = [];
}

abbrev first : Op
first = record (write 7) { offset = pos 1 }

-- After a write that has been offered to both, and received by the second.
abbrev published : Sys
published =
    let offered = Hub.publish_broadcast (Hub.publish_append subscribed.hub (write 7)).1 first in
    record subscribed {
      hub = record offered { subs = Hub.update offered.subs (pos 2) (some []) };
      log = write 7 ∷ [];
    }

no_gap_example :
    In first [] ⊎ Accounted first published.pending published.received ((first ∷ []) ∷ [])
unfolding Hub.subscribe Hub.new_hub Hub.publish_append Hub.publish_broadcast Hub.offer
    Backlog.new_backlog Backlog.append Backlog.trim Backlog.since Backlog.after backlog_of numbered
    add64
no_gap_example =
    no_gap (pos 1) 4 0 3 subscribed published [] ((first ∷ []) ∷ []) first refl (omega arith) refl
      (more (more (more start (append_one (write 7))) (broadcast_one [] first [] refl))
        (receive_other (pos 2) (first ∷ []) [] refl refl))
      (omega arith) refl (inl refl)
