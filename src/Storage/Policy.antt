-- ===== src/Storage/Policy.antt =====
-- The choice of the key that `evictOne` of internal/storage/memory.go removes.
use gedis.Base.{
  ℕ, suc, Bool, true, not, ◌&&◌, ◌||◌, Option, none, some, [], ◌∷◌, Bytes, codes, bytes_eq, take,
  drop, length, ◌-◌, ltb, ◌==◌, if◌then◌else◌, Table,
}
use gedis.Base.Int.{ltb_ℤ}
use gedis.Storage.{Tracked}

abbrev pub sample_n : ℕ
sample_n = 5

-- `HasPrefix(policy, "volatile-")`
unfoldable pub is_volatile : Bytes → Bool
is_volatile policy = bytes_eq (take 9 policy) (codes "volatile-")

unfoldable pub is_random : Bytes → Bool
is_random policy =
    bytes_eq policy (codes "allkeys-random") || bytes_eq policy (codes "volatile-random")

-- `HasSuffix(policy, "-lfu")`
unfoldable pub is_lfu : Bytes → Bool
is_lfu policy = bytes_eq (drop (length policy - 4) policy) (codes "-lfu")

-- The keys that may go: under a volatile policy those with an expiry.
unfoldable pub candidates : Bool → Table Tracked → Table Tracked
candidates volatile [] = []
candidates volatile (p ∷ t) =
    let rest = candidates volatile t in if volatile && not p.1.expires then rest else p ∷ rest

-- A loop that keeps the key so far unless the next is better.
unfoldable pub best : (Tracked → Tracked → Bool) → Bytes × Tracked → Table Tracked → Bytes × Tracked
best better v [] = v
best better v (p ∷ t) = best better (if better p.1 v.1 then p else v) t

unfoldable pub choose : (Tracked → Tracked → Bool) → Table Tracked → Option (Bytes × Tracked)
choose better [] = none
choose better (p ∷ t) = some (best better p t)

abbrev pub sooner : Tracked → Tracked → Bool
sooner a b = ltb_ℤ a.exp_at b.exp_at

abbrev pub older : Tracked → Tracked → Bool
older a b = ltb a.at b.at

abbrev pub rarer : Tracked → Tracked → Bool
rarer a b = ltb a.freq b.freq || (a.freq == b.freq && ltb a.at b.at)

-- Reservoir sampling: `draw n` says whether `rand.Intn(n)` is 0.
unfoldable pub reservoir :
    (ℕ → Bool) → ℕ → Option (Bytes × Tracked) → Table Tracked → Option (Bytes × Tracked)
reservoir draw n v [] = v
reservoir draw n v (p ∷ t) = reservoir draw (suc n) (if draw (suc n) then some p else v) t

-- Each choice from the candidates in the order in which the loop over the map meets them.
unfoldable pub victim : (ℕ → Bool) → Bytes → Table Tracked → Option (Bytes × Tracked)
victim draw policy t =
    if bytes_eq policy (codes "noeviction")
    then none
    else if bytes_eq policy (codes "volatile-ttl")
    then choose sooner (candidates true t)
    else if is_random policy
    then reservoir draw 0 none (candidates (is_volatile policy) t)
    else if is_lfu policy
    then choose rarer (take sample_n (candidates (is_volatile policy) t))
    else choose older (take sample_n (candidates (is_volatile policy) t))
