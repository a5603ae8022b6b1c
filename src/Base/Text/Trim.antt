-- ===== src/Base/Text/Trim.antt =====
-- `strings.TrimSpace` and `strings.IndexByte`.
use gedis.Base.Tests.{◌==◌, if◌then◌else◌}
use gedis.Base.Lists.{Bytes}
use gedis.Base.Text.Fields.{space_width}
use Prim.Native.Nat.{ℕ, zero, suc, ◌-◌}
use mathlib.Core.Bool.{Bool, true, false}
use mathlib.Core.List.{[], ◌∷◌}

-- In each, `skip` bytes of white space are still to be passed.
unfoldable pub trim_left : ℕ → Bytes → Bytes
trim_left skip [] = []
trim_left (suc k) (c ∷ cs) = trim_left k cs
trim_left zero (c ∷ cs) =
    let rest = trim_left (space_width (c ∷ cs) - 1) cs in
    if space_width (c ∷ cs) == 0 then c ∷ cs else rest

unfoldable pub all_space : ℕ → Bytes → Bool
all_space skip [] = true
all_space (suc k) (c ∷ cs) = all_space k cs
all_space zero (c ∷ cs) =
    let rest = all_space (space_width (c ∷ cs) - 1) cs in
    if space_width (c ∷ cs) == 0 then false else rest

unfoldable pub trim_right : Bytes → Bytes
trim_right [] = []
trim_right (c ∷ cs) = let rest = trim_right cs in if all_space 0 (c ∷ cs) then [] else c ∷ rest

unfoldable pub trim_space : Bytes → Bytes
trim_space s = trim_right (trim_left 0 s)
