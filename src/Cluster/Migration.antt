-- ===== src/Cluster/Migration.antt =====
-- Reading and changing a topology while slots migrate: the methods of internal/cluster/topo.go.
pub mod Invariant
pub mod Reload
use gedis.Base.{
  ℕ, zero, suc, ◌+◌, ◌%◌, ◌^◌, Bool, true, false, not, ◌&&◌, ◌||◌, Option, none, some, List, [],
  ◌∷◌, if◌then◌else◌, ◌==◌, ltb, leb, length, Bytes, bytes_eq, Result, ok, err,
}
use gedis.Base.Int.{ℤ, pos, negsuc, ltb_ℤ}
use gedis.Cluster.Slot.{num_slots}
use gedis.Cluster.Topology.{
  TopoNode, Topology, Snapshot, TopologyError, out_of_range, not_owner, already_owner, unknown_node,
  epoch_regressed, at,
}

-- `slot < 0 || slot >= NumSlots` fails: a slot, as a natural number.
unfoldable pub in_slots : ℤ → Option ℕ
in_slots (negsuc n) = none
in_slots (pos s) = if ltb s num_slots then some s else none

unfoldable pub node_at : List TopoNode → ℤ → Option TopoNode
node_at ns (negsuc i) = none
node_at [] (pos i) = none
node_at (n ∷ ns) (pos zero) = some n
node_at (n ∷ ns) (pos (suc i)) = node_at ns (pos i)

-- Whether the owner `o` of a slot is the node at the place `k`.
unfoldable pub is_index : ℤ → ℕ → Bool
is_index (pos i) k = i == k
is_index (negsuc i) k = false

-- `owner[slot] == self`.
unfoldable pub owner_is_self : Topology → ℕ → Bool
owner_is_self t s = is_index (t.owner s) t.self

unfoldable pub owns : Topology → ℤ → Bool
owns t slot =
    t.enabled && elim (in_slots slot) [ none ↦ false | some s ↦ t.owned s && owner_is_self t s ]

unfoldable pub owner_addr : Topology → ℤ → Bytes
owner_addr t slot =
    if t.enabled
    then elim (in_slots slot) [
      | none ↦ []
      | some s ↦ elim (node_at t.nodes (t.owner s)) [ none ↦ [] | some n ↦ n.addr ]
    ]
    else []

unfoldable pub count_owned : (ℕ → ℤ) → ℕ → ℕ
count_owned owner zero = 0
count_owned owner (suc s) = (if ltb_ℤ (owner s) (pos 0) then 0 else 1) + count_owned owner s

unfoldable pub assigned_count : Topology → ℕ
assigned_count t = if t.enabled then count_owned t.owner num_slots else 0

abbrev pub next_epoch : Topology → ℕ
next_epoch t = (t.epoch + 1) % 2 ^ 64

abbrev pub is_entry : Option Bytes → Bytes → Bool
is_entry none id = false
is_entry (some cur) id = bytes_eq cur id

unfoldable pub set_migrating : Topology → ℤ → Bytes → Result TopologyError Topology
set_migrating t slot target = elim (in_slots slot) [
  | none ↦ err out_of_range
  | some s ↦
      if not (owner_is_self t s)
      then err not_owner
      else if is_entry (t.migrating s) target
      then ok t
      else ok (record t { migrating = at t.migrating s (some target); epoch = next_epoch t })
]

unfoldable pub set_importing : Topology → ℤ → Bytes → Result TopologyError Topology
set_importing t slot source = elim (in_slots slot) [
  | none ↦ err out_of_range
  | some s ↦
      if owner_is_self t s
      then err already_owner
      else if is_entry (t.importing s) source
      then ok t
      else ok (record t { importing = at t.importing s (some source); epoch = next_epoch t })
]

unfoldable pub set_stable : Topology → ℤ → Topology
set_stable t slot = elim (in_slots slot) [
  | none ↦ t
  | some s ↦ record t { migrating = at t.migrating s none; importing = at t.importing s none }
]

unfoldable pub index_of : List TopoNode → Bytes → Option ℕ
index_of [] id = none
index_of (n ∷ ns) id =
    let rest = index_of ns id in
    if bytes_eq n.id id then some 0 else elim rest [ none ↦ none | some i ↦ some (suc i) ]

unfoldable pub give : Topology → ℕ → ℕ → Topology
give t s idx = record t {
  owner = at t.owner s (pos idx);
  owned = at t.owned s true;
  migrating = at t.migrating s none;
  importing = at t.importing s none;
  epoch = next_epoch t;
}

unfoldable pub set_node : Topology → ℤ → Bytes → Result TopologyError Topology
set_node t slot id = elim (in_slots slot) [
  | none ↦ err out_of_range
  | some s ↦ elim (index_of t.nodes id) [ none ↦ err unknown_node | some idx ↦ ok (give t s idx) ]
]

unfoldable pub addr_of : Topology → Bytes → Bytes
addr_of t id = elim (index_of t.nodes id) [
  | none ↦ []
  | some idx ↦ elim (node_at t.nodes (pos idx)) [ none ↦ [] | some n ↦ n.addr ]
]

unfoldable pub snapshot : Topology → Snapshot
snapshot t = record {
  owner = t.owner;
  migrating = t.migrating;
  importing = t.importing;
  epoch = t.epoch;
}

unfoldable pub load_snapshot : Topology → Snapshot → Result TopologyError Topology
load_snapshot t snap =
    if ltb snap.epoch t.epoch
    then err epoch_regressed
    else ok (record t {
      owner = snap.owner;
      owned = λ s. not (ltb_ℤ (snap.owner s) (pos 0));
      migrating = snap.migrating;
      importing = snap.importing;
      epoch = snap.epoch;
    })
