-- ===== src/Commands/Lists/MoveApart.antt =====
-- LMOVE and RPOPLPUSH between two lists.
use gedis.Base.{◌≡◌, ◌≢◌, Bool, List, [], ◌∷◌, Bytes, codes}
use gedis.Base.Int.{ℤ}
use gedis.Datastruct.Entry.{list_key}
use gedis.Commands.Store.{Kv, KvLaws, World, Event}
use gedis.Commands.Lists.Moves.{pop_name}
use gedis.Commands.Lists.Stored.{Held, Holds}
use gedis.Commands.Lists.PopLaws.{del_event}

-- The calls of `Notify` for the source, the last one first.
abbrev pub source_events : Bool → Bytes → List Bytes → List Event
source_events from_tail src [] = del_event src ∷ (codes "l", (pop_name from_tail, src)) ∷ []
source_events from_tail src (e ∷ es) = (codes "l", (pop_name from_tail, src)) ∷ []

module _ {S : Type 0} {kv : Kv S} (laws : KvLaws kv) (now : ℤ) where
  -- What a move between two keys leaves.
  abbrev pub Moved : World S → Bytes → Bytes → Held → Held → World S → Type 0
  Moved w src dst o o' w' =
      Holds laws now w' src o
      × Holds laws now w' dst o'
      × ((j : Bytes)
          → j ≢ list_key src
          → j ≢ list_key dst
          → laws.look w'.store j ≡ laws.look w.store j)
