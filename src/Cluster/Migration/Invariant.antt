-- ===== src/Cluster/Migration/Invariant.antt =====
-- What the methods of internal/cluster/topo.go keep true of every slot.
use gedis.Base.{
  ℕ, zero, suc, ◌<◌, ◌≡◌, ◌⊎◌, inl, inr, refl, sym, Bool, true, false, not, Option, none, some,
  List, [], ◌∷◌, ◌==◌, length, Bytes, absurd_Bool, Bool-cases, Option-cases, Result, ok, err, panic,
  out_of_fuel, arith,
}
use gedis.Base.Int.{ℤ, pos, negsuc, ltb_ℤ}
use gedis.Cluster.Topology.{TopoNode, Topology, TopologyError, at}
use gedis.Cluster.Migration.{
  in_slots, owner_is_self, set_migrating, set_importing, set_stable, index_of, next_epoch, is_entry,
  give, set_node,
}

abbrev pub is_some : Option Bytes → Bool
is_some none = false
is_some (some a) = true

-- -1, or below `n`.
abbrev pub Below : ℤ → ℕ → Type 0
Below (pos i) n = i < n
Below (negsuc i) n = i ≡ 0

-- A slot is marked as owned exactly if it has an owner; the owner is -1 or a node; the slot migrates
-- away only while this node owns it, and is imported only while this node does not. Nothing is said
-- of the ids that it migrates to or is imported from, which `SetMigrating` and `SetImporting` take
-- as they are.
abbrev pub SlotOk : Topology → ℕ → Type 0
SlotOk t s =
    (t.owned s ≡ not (ltb_ℤ (t.owner s) (pos 0)))
    × Below (t.owner s) (length t.nodes)
    × (is_some (t.migrating s) ≡ true → owner_is_self t s ≡ true)
    × (is_some (t.importing s) ≡ true → owner_is_self t s ≡ false)

-- A command of `CLUSTER SETSLOT`.
pub data Op : Type 0 where
  migrate : ℤ → Bytes → Op
  import_from : ℤ → Bytes → Op
  stable : ℤ → Op
  assign : ℤ → Bytes → Op

-- A failed call leaves the topology.
unfoldable pub kept : Topology → Result TopologyError Topology → Topology
kept t (ok u) = u
kept t (err e) = t
kept t panic = t
kept t out_of_fuel = t

unfoldable pub apply : Topology → Op → Topology
apply t (migrate slot id) = kept t (set_migrating t slot id)
apply t (import_from slot id) = kept t (set_importing t slot id)
apply t (stable slot) = set_stable t slot
apply t (assign slot id) = kept t (set_node t slot id)

unfoldable pub apply_all : Topology → List Op → Topology
apply_all t [] = t
apply_all t (op ∷ ops) = apply_all (apply t op) ops

index_of-bound : (ns : List TopoNode) (id : Bytes) (i : ℕ) → index_of ns id ≡ some i → i < length ns
unfolding index_of
index_of-bound [] id i h = cc
index_of-bound (n ∷ ns) id zero h = omega arith
index_of-bound (n ∷ ns) id (suc i) h = ground (arith, index_of-bound ns id i)

-- `t` with a new entry in `migrating`, or in `importing`.
abbrev migrating_to : Topology → ℕ → Bytes → Topology
migrating_to t s id = record t { migrating = at t.migrating s (some id); epoch = next_epoch t }

abbrev importing_from : Topology → ℕ → Bytes → Topology
importing_from t s id = record t { importing = at t.importing s (some id); epoch = next_epoch t }

migrate-cases :
    (t : Topology) (slot : ℤ) (id : Bytes)
    → (kept t (set_migrating t slot id) ≡ t)
      ⊎ ((s : ℕ) × (owner_is_self t s ≡ true)
          × (kept t (set_migrating t slot id) ≡ migrating_to t s id))
unfolding kept set_migrating
migrate-cases t slot id = elim (Option-cases (in_slots slot)) [
  | inl out ↦ inl (rw (set_migrating, out) refl)
  | inr (n, within) ↦ elim (Bool-cases (owner_is_self t n)) [
    | inr other ↦ inl (rw (set_migrating, within, other) refl)
    | inl self ↦ elim (Bool-cases (is_entry (t.migrating n) id)) [
      | inl same ↦ inl (rw (set_migrating, within, self, same) refl)
      | inr new ↦ inr (n, self, rw (set_migrating, within, self, new) refl)
    ]
  ]
]

import-cases :
    (t : Topology) (slot : ℤ) (id : Bytes)
    → (kept t (set_importing t slot id) ≡ t)
      ⊎ ((s : ℕ) × (owner_is_self t s ≡ false)
          × (kept t (set_importing t slot id) ≡ importing_from t s id))
unfolding kept set_importing
import-cases t slot id = elim (Option-cases (in_slots slot)) [
  | inl out ↦ inl (rw (set_importing, out) refl)
  | inr (n, within) ↦ elim (Bool-cases (owner_is_self t n)) [
    | inl self ↦ inl (rw (set_importing, within, self) refl)
    | inr other ↦ elim (Bool-cases (is_entry (t.importing n) id)) [
      | inl same ↦ inl (rw (set_importing, within, other, same) refl)
      | inr new ↦ inr (n, other, rw (set_importing, within, other, new) refl)
    ]
  ]
]

assign-cases :
    (t : Topology) (slot : ℤ) (id : Bytes)
    → (kept t (set_node t slot id) ≡ t)
      ⊎ ((s : ℕ) × (i : ℕ) × (i < length t.nodes) × (kept t (set_node t slot id) ≡ give t s i))
unfolding kept set_node
assign-cases t slot id = elim (Option-cases (in_slots slot)) [
  | inl out ↦ inl (rw (set_node, out) refl)
  | inr (n, within) ↦ elim (Option-cases (index_of t.nodes id)) [
    | inl unknown ↦ inl (rw (set_node, within, unknown) refl)
    | inr (i, known) ↦
        inr (n, i, index_of-bound t.nodes id i known, rw (set_node, within, known) refl)
  ]
]

-- `t` where a slot migrates no more.
abbrev settled : Topology → ℕ → Topology
settled t s = record t { migrating = at t.migrating s none; importing = at t.importing s none }

stable-cases :
    (t : Topology) (slot : ℤ)
    → (set_stable t slot ≡ t) ⊎ ((s : ℕ) × (set_stable t slot ≡ settled t s))
unfolding set_stable
stable-cases t slot = elim (Option-cases (in_slots slot)) [
  | inl out ↦ inl (rw (set_stable, out) refl)
  | inr (n, within) ↦ inr (n, rw (set_stable, within) refl)
]

migrating_to-SlotOk :
    (t : Topology) (n : ℕ) (id : Bytes) (s : ℕ)
    → owner_is_self t n ≡ true
    → SlotOk t s
    → SlotOk (migrating_to t n id) s
unfolding owner_is_self
migrating_to-SlotOk t n id s self (o, b, m, i) = (o, b, ground arith, i)

importing_from-SlotOk :
    (t : Topology) (n : ℕ) (id : Bytes) (s : ℕ)
    → owner_is_self t n ≡ false
    → SlotOk t s
    → SlotOk (importing_from t n id) s
unfolding owner_is_self
importing_from-SlotOk t n id s other (o, b, m, i) = (o, b, m, ground arith)

give-SlotOk : (t : Topology) (n j s : ℕ) → j < length t.nodes → SlotOk t s → SlotOk (give t n j) s
unfolding give owner_is_self
give-SlotOk t n j s bound (o, b, m, i) = elim (Bool-cases (s == n)) [
  | inl same ↦ rw same (ground arith, bound, λ k. absurd_Bool (sym k), λ k. absurd_Bool (sym k))
  | inr other ↦ rw (owner_is_self, other) (o, b, m, i)
]

settled-SlotOk : (t : Topology) (n s : ℕ) → SlotOk t s → SlotOk (settled t n) s
unfolding owner_is_self
settled-SlotOk t n s (o, b, m, i) = (o, b, ground arith, ground arith)

migrate-SlotOk :
    (t : Topology) (slot : ℤ) (id : Bytes) (s : ℕ)
    → SlotOk t s
    → SlotOk (kept t (set_migrating t slot id)) s
migrate-SlotOk t slot id s h = elim (migrate-cases t slot id) [
  | inl same ↦ rw same h
  | inr (n, self, changed) ↦ rw changed (migrating_to-SlotOk t n id s self h)
]

import-SlotOk :
    (t : Topology) (slot : ℤ) (id : Bytes) (s : ℕ)
    → SlotOk t s
    → SlotOk (kept t (set_importing t slot id)) s
import-SlotOk t slot id s h = elim (import-cases t slot id) [
  | inl same ↦ rw same h
  | inr (n, other, changed) ↦ rw changed (importing_from-SlotOk t n id s other h)
]

assign-SlotOk :
    (t : Topology) (slot : ℤ) (id : Bytes) (s : ℕ)
    → SlotOk t s
    → SlotOk (kept t (set_node t slot id)) s
assign-SlotOk t slot id s h = elim (assign-cases t slot id) [
  | inl same ↦ rw same h
  | inr (n, i, bound, changed) ↦ rw changed (give-SlotOk t n i s bound h)
]

stable-SlotOk : (t : Topology) (slot : ℤ) (s : ℕ) → SlotOk t s → SlotOk (set_stable t slot) s
stable-SlotOk t slot s h = elim (stable-cases t slot) [
  | inl same ↦ rw same h
  | inr (n, changed) ↦ rw changed (settled-SlotOk t n s h)
]

apply-SlotOk : (t : Topology) (op : Op) (s : ℕ) → SlotOk t s → SlotOk (apply t op) s
unfolding apply
apply-SlotOk t (migrate slot id) s h = migrate-SlotOk t slot id s h
apply-SlotOk t (import_from slot id) s h = import-SlotOk t slot id s h
apply-SlotOk t (stable slot) s h = stable-SlotOk t slot s h
apply-SlotOk t (assign slot id) s h = assign-SlotOk t slot id s h

-- Any sequence of `SetMigrating`, `SetImporting`, `SetStable` and `SetNode`, failing calls included,
-- keeps for a slot: it is marked as owned exactly if it has an owner, the owner is -1 or a node, it
-- migrates away only while this node owns it and is imported only while this node does not.
pub apply_all-SlotOk :
    (t : Topology) (ops : List Op) (s : ℕ) → SlotOk t s → SlotOk (apply_all t ops) s
unfolding apply_all
apply_all-SlotOk t [] s h = h
apply_all-SlotOk t (op ∷ ops) s h = apply_all-SlotOk (apply t op) ops s (apply-SlotOk t op s h)
