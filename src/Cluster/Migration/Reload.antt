-- ===== src/Cluster/Migration/Reload.antt =====
-- A topology that loads a snapshot of internal/cluster/topo.go is as the one it was taken of.
use gedis.Base.{
  ℕ, ◌≤◌, ◌≡◌, inl, inr, refl, ap, [], not, Option, none, some, if◌then◌else◌, le→ltb, Bytes,
  Option-cases, ok,
}
use gedis.Base.Int.{ℤ, pos, ltb_ℤ}
use gedis.Cluster.Topology.{TopoNode, Topology}
use gedis.Cluster.Migration.{
  in_slots, owner_is_self, is_index, owns, snapshot, load_snapshot, node_at, owner_addr,
}
use gedis.Cluster.Migration.Invariant.{SlotOk}

-- The topology that the snapshot of `t` makes of `u`.
abbrev reloaded : Topology → Topology → Topology
reloaded t u = record u {
  owner = t.owner;
  owned = λ s. not (ltb_ℤ (t.owner s) (pos 0));
  migrating = t.migrating;
  importing = t.importing;
  epoch = t.epoch;
}

load_snapshot-snapshot :
    (t u : Topology) → u.epoch ≤ t.epoch → load_snapshot u (snapshot t) ≡ ok (reloaded t u)
unfolding load_snapshot snapshot
load_snapshot-snapshot t u h = rw (le→ltb t.epoch u.epoch h) refl

unfoldable addr_at : Option TopoNode → Bytes
addr_at none = []
addr_at (some n) = n.addr

owner_is_self-reloaded :
    (t u : Topology) (s : ℕ) → u.self ≡ t.self → owner_is_self (reloaded t u) s ≡ owner_is_self t s
unfolding owner_is_self
owner_is_self-reloaded t u s self = ap (is_index (t.owner s)) self

owns-reloaded :
    (t u : Topology) (slot : ℤ)
    → u.self ≡ t.self
    → u.enabled ≡ t.enabled
    → ((s : ℕ) → SlotOk t s)
    → owns (reloaded t u) slot ≡ owns t slot
unfolding owns owner_is_self
owns-reloaded t u slot self enabled consistent = elim (Option-cases (in_slots slot)) [
  | inl out ↦ rw (owns, out, enabled) refl
  | inr (s, within) ↦ rw (owns, owner_is_self, within, enabled, self, (consistent s).0) refl
]

owner_addr-reloaded :
    (t u : Topology) (slot : ℤ)
    → u.enabled ≡ t.enabled
    → u.nodes ≡ t.nodes
    → owner_addr (reloaded t u) slot ≡ owner_addr t slot
unfolding owner_addr addr_at
owner_addr-reloaded t u slot enabled nodes = elim (Option-cases (in_slots slot)) [
  | inl out ↦ rw (owner_addr, out, enabled) refl
  | inr (s, within) ↦
      rw (owner_addr, within, enabled)
        (ap (λ n. if t.enabled then n else []) (ap (λ ns. addr_at (node_at ns (t.owner s))) nodes))
]

-- A topology whose epoch is not later, with the same nodes, place and mode, loads a snapshot of
-- one that is consistent: then it owns the same slots, names the same owner's address for each,
-- and has the same entries for migration and the same epoch.
pub load_snapshot-reloads :
    (t u : Topology) (slot : ℤ)
    → u.epoch ≤ t.epoch
    → u.self ≡ t.self
    → u.enabled ≡ t.enabled
    → u.nodes ≡ t.nodes
    → ((s : ℕ) → SlotOk t s)
    → (v : Topology) × (load_snapshot u (snapshot t) ≡ ok v)
      × (owns v slot ≡ owns t slot)
      × (owner_addr v slot ≡ owner_addr t slot)
      × (v.migrating ≡ t.migrating)
      × (v.importing ≡ t.importing)
      × (v.epoch ≡ t.epoch)
load_snapshot-reloads t u slot later self enabled nodes consistent = (
  reloaded t u,
  load_snapshot-snapshot t u later,
  owns-reloaded t u slot self enabled consistent,
  owner_addr-reloaded t u slot enabled nodes,
  refl,
  refl,
  refl,
)
