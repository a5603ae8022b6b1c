-- ===== src/Replication/Backlog.antt =====
-- internal/replication/backlog.go: the most recent writes, numbered from 1. Each method holds the
-- backlog's lock for its whole body, so it is one step. A copy of `Key` or `Value` is the value.
pub mod History
use gedis.Base.{
  ℕ, ◌+◌, ◌-◌, Bool, Option, none, some, List, [], ◌∷◌, ◌++◌, Bytes, Result, ok, err, length, drop,
  ltb, if◌then◌else◌,
}
use gedis.Base.Int.{ℤ, pos, pos_part, ltb_ℤ, add64}

pub record Op : Type 0 where
  pub offset : ℤ
  pub del : Bool
  pub key : Bytes
  pub value : Bytes

pub data BacklogError : Type 0 where
  stale_offset : BacklogError

pub record Backlog : Type 0 where
  pub max : ℕ
  pub ops : List Op
  pub base : ℤ
  pub next : ℤ

-- `NewBacklog`
unfoldable pub new_backlog : ℤ → Backlog
new_backlog max = record {
  max = if ltb_ℤ (pos 0) max then pos_part max else 1024;
  ops = [];
  base = pos 0;
  next = pos 0;
}

-- The trim of `Append`, on the list that holds the new write.
unfoldable pub trim : Backlog → List Op → ℤ → Backlog
trim b ops next =
    let n = length ops - b.max in
    if ltb b.max (length ops)
    then record b { ops = drop n ops; base = add64 b.base (pos n); next = next }
    else record b { ops = ops; next = next }

unfoldable pub append : Backlog → Op → ℤ × Backlog
append b op =
    let next = add64 b.next (pos 1) in
    (next, trim b (b.ops ++ (record op { offset = next } ∷ [])) next)

-- the loop of `Since`
unfoldable pub after : ℤ → List Op → List Op
after offset [] = []
after offset (op ∷ ops) =
    let rest = after offset ops in if ltb_ℤ offset op.offset then op ∷ rest else rest

unfoldable pub since : Backlog → ℤ → Result BacklogError (List Op)
since b offset = if ltb_ℤ offset b.base then err stale_offset else ok (after offset b.ops)

unfoldable pub latest : Backlog → ℤ
latest b = b.next
