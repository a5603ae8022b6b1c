-- ===== src/Cluster/Topology.antt =====
-- The static topology and the state of a migration: internal/cluster/topo.go.
pub mod Claims
use gedis.Base.{
  ℕ, zero, suc, ◌-◌, Bool, true, false, ◌&&◌, ◌||◌, Option, none, some, List, [], ◌∷◌, ◌++◌,
  if◌then◌else◌, ◌==◌, ltb, length, Bytes, bytes_eq, codes, Result, ok, err, ◌>>=◌,
}
use gedis.Base.Int.{ℤ, pos, negsuc, ltb_ℤ, pos_part}
use gedis.Sentinel.Address
use gedis.Cluster.Slot.{Range, num_slots}

-- `TopoNode`, and `NodeSpec`, which has the same fields.
pub record TopoNode : Type 0 where
  pub id : Bytes
  pub addr : Bytes
  pub ranges : List Range

-- `Topology`; the arrays are read at slots below `num_slots`, and no owner is -1.
pub record Topology : Type 0 where
  pub enabled : Bool
  pub self : ℕ
  pub nodes : List TopoNode
  pub owned : ℕ → Bool
  pub owner : ℕ → ℤ
  pub migrating : ℕ → Option Bytes
  pub importing : ℕ → Option Bytes
  pub epoch : ℕ

pub record Snapshot : Type 0 where
  pub owner : ℕ → ℤ
  pub migrating : ℕ → Option Bytes
  pub importing : ℕ → Option Bytes
  pub epoch : ℕ

pub data TopologyError : Type 0 where
  invalid_server_addr : TopologyError
  missing_addr : TopologyError
  invalid_node_addr : Bytes → TopologyError
  claimed_twice : ℕ → TopologyError
  no_self : TopologyError
  out_of_range : TopologyError
  not_owner : TopologyError
  already_owner : TopologyError
  unknown_node : TopologyError
  epoch_regressed : TopologyError

abbrev pub no_owner : ℤ
no_owner = negsuc 0

-- `m[slot] = a` and `delete`, on an array or a map.
abbrev pub at {ℓ} : {A : Type ℓ} → (ℕ → A) → ℕ → A → ℕ → A
at f slot a s = if s == slot then a else f s

-- The zero value of `Topology`, in which every slot's owner is `o`.
unfoldable pub empty_topology : Bool → ℤ → Topology
empty_topology enabled o = record {
  enabled = enabled;
  self = 0;
  nodes = [];
  owned = (λ s. false);
  owner = (λ s. o);
  migrating = (λ s. none);
  importing = (λ s. none);
  epoch = 0;
}

-- How many slots the loop over a range visits, from `pos_part lo` on: it passes over the negative
-- ones and stops before `num_slots`.
unfoldable pub slots_in : Range → ℕ
slots_in r =
    if ltb_ℤ r.1 (pos 0)
    then 0
    else (if ltb (pos_part r.1) num_slots then suc (pos_part r.1) else num_slots) - pos_part r.0

-- `owned` and `owner` of one slot.
unfoldable pub own : ℤ → Topology → ℕ → Topology
own idx t s = record t { owned = at t.owned s true; owner = at t.owner s idx }

unfoldable pub own_slots : ℕ → ℕ → Topology → Topology
own_slots zero s t = t
own_slots (suc n) s t = own_slots n (suc s) (own (pos 0) t s)

unfoldable pub own_ranges : List Range → Topology → Topology
own_ranges [] t = t
own_ranges (r ∷ rs) t = own_ranges rs (own_slots (slots_in r) (pos_part r.0) t)

unfoldable pub new_topology : Bool → List Range → Topology
new_topology enabled ranges =
    if enabled
    then own_ranges ranges (record (empty_topology true no_owner) {
      nodes = record { id = []; addr = []; ranges = ranges } ∷ [];
    })
    else empty_topology false (pos 0)

abbrev pub all_slots : List Range
all_slots = (pos 0, pos 16383) ∷ []

unfoldable pub full_topology : Topology
full_topology = record (empty_topology true (pos 0)) {
  owned = λ s. true;
  nodes = record { id = []; addr = []; ranges = all_slots } ∷ [];
}

-- `sort.Slice` by the first slot.
unfoldable pub insert_range : Range → List Range → List Range
insert_range r [] = r ∷ []
insert_range r (q ∷ qs) =
    let rest = insert_range r qs in if ltb_ℤ q.0 r.0 then q ∷ rest else r ∷ q ∷ qs

unfoldable pub sort_ranges : List Range → List Range
sort_ranges [] = []
sort_ranges (r ∷ rs) = insert_range r (sort_ranges rs)

-- The slots of a range become the node's, unless one has an owner.
unfoldable pub claim_slots : ℤ → ℕ → ℕ → Topology → Result TopologyError Topology
claim_slots idx zero s t = ok t
claim_slots idx (suc n) s t =
    let rest = claim_slots idx n (suc s) (own idx t s) in
    if ltb_ℤ (t.owner s) (pos 0) then rest else err (claimed_twice s)

unfoldable pub claim_ranges : ℤ → List Range → Topology → Result TopologyError Topology
claim_ranges idx [] t = ok t
claim_ranges idx (r ∷ rs) t = do
  u ← claim_slots idx (slots_in r) (pos_part r.0) t
  claim_ranges idx rs u

unfoldable pub split_addr : Bytes → Option (Bytes × Bytes)
split_addr addr = elim (Address.split_host_port addr) [
  | none ↦ none
  | some hp ↦ if bytes_eq hp.0 [] && bytes_eq hp.1 [] then none else some hp
]

-- Whether a node's address is the server's own.
unfoldable pub is_self : Bytes × Bytes → Bytes × Bytes → Bool
is_self self hp =
    (bytes_eq hp.0 self.0 && bytes_eq hp.1 self.1)
    || ((bytes_eq self.0 [] || bytes_eq self.0 (codes "0.0.0.0")) && bytes_eq hp.1 self.1)

-- The first node whose address is the server's.
unfoldable pub self_after : Option ℕ → Bytes × Bytes → Bytes × Bytes → ℕ → Option ℕ
self_after (some i) self_addr hp idx = some i
self_after none self_addr hp idx = if is_self self_addr hp then some idx else none

-- The node that `Build` makes of a specification, and a topology with it at the end.
unfoldable pub node_of : (Bytes → Bytes) → TopoNode → TopoNode
node_of derive_id n = record {
  id = (if bytes_eq n.id [] then derive_id n.addr else n.id);
  addr = n.addr;
  ranges = sort_ranges n.ranges;
}

abbrev pub with_node : Topology → TopoNode → Topology
with_node t n = record t { nodes = t.nodes ++ (n ∷ []) }

-- The loop of `Build`; `derive_id` is `DeriveID` and `self` the first node that is the server.
unfoldable pub build_nodes :
    (Bytes → Bytes)
    → Bytes × Bytes
    → List TopoNode
    → Option ℕ
    → Topology
    → Result TopologyError (Option ℕ × Topology)
build_nodes derive_id self_addr [] self t = ok (self, t)
build_nodes derive_id self_addr (n ∷ specs) self t =
    if bytes_eq n.addr [] then err missing_addr else elim (split_addr n.addr) [
      | none ↦ err (invalid_node_addr n.addr)
      | some hp ↦
          claim_ranges (pos (length t.nodes)) (node_of derive_id n).ranges
            (with_node t (node_of derive_id n))
          >>= λ u.
              build_nodes derive_id self_addr specs (self_after self self_addr hp (length t.nodes))
                u
    ]

unfoldable pub finish_build : Option ℕ × Topology → Result TopologyError Topology
finish_build (none, t) = err no_self
finish_build (some i, t) = ok (record t { self = i })

-- No specification stands for the server itself with all slots.
unfoldable pub specs_or_self : Bytes → List TopoNode → List TopoNode
specs_or_self self_addr [] = record { id = []; addr = self_addr; ranges = all_slots } ∷ []
specs_or_self self_addr (s ∷ ss) = s ∷ ss

-- `Build`.
unfoldable pub build : (Bytes → Bytes) → Bytes → List TopoNode → Result TopologyError Topology
build derive_id self_addr specs = elim (split_addr self_addr) [
  | none ↦ err invalid_server_addr
  | some self ↦
      build_nodes derive_id self (specs_or_self self_addr specs) none (empty_topology true no_owner)
      >>= finish_build
]
